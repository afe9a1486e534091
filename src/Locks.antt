-- ===== src/Locks.antt =====
-- document_locks.py: leases on documents, kept in the table `document_locks`. Time is a number of
-- seconds. The unique index on `source_uri` (alembic/versions/009_document_locks.py) is the
-- invariant of Locks/Invariant.
pub mod Invariant
pub mod Exclusion
pub mod Lease
mod Examples
use pgvector_ragindexer.Base.{
  ℕ, zero, ◌+◌, ◌*◌, String, Bool, true, false, ◌&&◌, not, Option, none, some, List, [], ◌∷◌, ◌++◌,
  ltb, ◌==◌, string_eq, first, if◌then◌else◌,
}
use pgvector_ragindexer.Sql.{
  Truth, ◌and◌, ◌or◌, of_bool, equals, Link, up, down, select, delete, update, count,
}

pub record Lock : Type 0 where
  pub id : String
  pub source_uri : String
  pub client_id : String
  pub locked_at : ℕ
  pub expires_at : ℕ
  pub lock_reason : String
  pub root_id : Option String
  pub relative_path : Option String

-- The document that a call is about: its path, and the second key if the caller gave one.
pub record Target : Type 0 where
  pub source_uri : String
  pub root_id : Option String
  pub relative_path : Option String

-- Python's truth value of an optional string
abbrev pub truthy : Option String → Bool
truthy none = false
truthy (some s) = not (s == "")

abbrev pub or_empty : Option String → String
or_empty none = ""
or_empty (some s) = s

-- The condition that `_build_lock_where` writes.
unfoldable pub lock_where : Target → Lock → Truth
lock_where t l =
    if truthy t.root_id && truthy t.relative_path
    then (equals l.root_id (or_empty t.root_id)
        and equals l.relative_path (or_empty t.relative_path))
      or of_bool (l.source_uri == t.source_uri)
    else of_bool (l.source_uri == t.source_uri)

abbrev pub expired : ℕ → Lock → Truth
expired now l = of_bool (ltb l.expires_at now)

abbrev pub unexpired : ℕ → Lock → Truth
unexpired now l = of_bool (ltb now l.expires_at)

pub data Acquired : Type 0 where
  -- {"ok": True, "lock": l, "extended": e}
  granted : Lock → Bool → Acquired
  -- {"ok": False, "holder": l}
  held : Lock → Acquired
  -- {"ok": False, "error": "Lock acquisition failed"}
  failed : Acquired

-- UPDATE document_locks SET expires_at, locked_at, lock_reason
abbrev pub extend : ℕ → ℕ → String → Lock → Lock
extend now ttl reason l = record l {
  expires_at = now + ttl * 60;
  locked_at = now;
  lock_reason = reason;
}

-- The row that INSERT writes, with the id that `uuid.uuid4()` gave.
abbrev pub new_lock : String → Target → String → ℕ → ℕ → String → Lock
new_lock uuid t client now ttl reason = record {
  id = uuid;
  source_uri = t.source_uri;
  client_id = client;
  locked_at = now;
  expires_at = now + ttl * 60;
  lock_reason = reason;
  root_id = t.root_id;
  relative_path = t.relative_path;
}

-- The branches of `acquire_lock` after its SELECT: `kept` are the rows that the DELETE left, and
-- `before` those that are there again when the function returns with no commit.
acquire_found :
    Target
    → String
    → ℕ
    → String
    → ℕ
    → String
    → List Lock
    → List Lock
    → Option Lock
    → Acquired × List Lock
acquire_found t client ttl reason now uuid before kept none =
    let l = new_lock uuid t client now ttl reason in (granted l false, l ∷ kept)
acquire_found t client ttl reason now uuid before kept (some l) =
    if l.client_id == client
    then (
      granted (extend now ttl reason l) true,
      update (λ r. of_bool (r.id == l.id)) (extend now ttl reason) kept,
    )
    else (held l, before)

unfoldable pub acquire_lock :
    Link → Target → String → ℕ → String → ℕ → String → List Lock → Acquired × List Lock
unfolding acquire_found
acquire_lock down t client ttl reason now uuid rows = (failed, rows)
acquire_lock up t client ttl reason now uuid rows =
    let kept = delete (λ r. lock_where t r and expired now r) rows in
    acquire_found t client ttl reason now uuid rows kept (first (select (lock_where t) kept))

-- `rowcount > 0`
abbrev pub any_row : ℕ → Bool
any_row n = ltb 0 n

unfoldable pub release_lock : Link → Target → String → List Lock → Bool × List Lock
release_lock down t client rows = (false, rows)
release_lock up t client rows =
    let mine = λ (r : Lock). lock_where t r and of_bool (r.client_id == client) in
    (any_row (count mine rows), delete mine rows)

unfoldable pub force_release_lock : Link → String → List Lock → Bool × List Lock
force_release_lock down uri rows = (false, rows)
force_release_lock up uri rows =
    let at_uri = λ (r : Lock). of_bool (r.source_uri == uri) in
    (any_row (count at_uri rows), delete at_uri rows)

unfoldable pub check_lock : Link → Target → ℕ → List Lock → Option Lock
check_lock down t now rows = none
check_lock up t now rows = first (select (λ r. lock_where t r and unexpired now r) rows)

-- The order of the answer is not modelled.
unfoldable pub list_locks : Link → Option String → ℕ → List Lock → List Lock
list_locks down client now rows = []
list_locks up client now rows =
    select
      (λ r.
        unexpired now r
        and (if truthy client then of_bool (r.client_id == or_empty client) else of_bool true))
      rows

unfoldable pub cleanup_expired_locks : Link → ℕ → List Lock → ℕ × List Lock
cleanup_expired_locks down now rows = (0, rows)
cleanup_expired_locks up now rows = (count (expired now) rows, delete (expired now) rows)
