-- ===== src/Quarantine.antt =====
-- quarantine.py: chunks whose source file is gone are marked, and deleted when they have been
-- marked for longer than the retention window. A call that raises is caught and answers 0.
pub mod Lifecycle
mod Examples
use pgvector_ragindexer.Base.{
  ℕ, zero, suc, ◌+◌, ◌*◌, String, Bool, true, false, Option, none, some, List, [], ◌∷◌, ◌==◌,
  contains, string_eq, ltb, leb, if◌then◌else◌,
}
use pgvector_ragindexer.Sql.{
  Truth, Link, up, down, of_bool, is_null, is_not_null, ◌and◌, select, delete, update, count,
}
use pgvector_ragindexer.Chunks.{Chunk, touched}

-- An `int`: `negsuc n` is -(n + 1).
pub data ℤ : Type 0 where
  pos : ℕ → ℤ
  negsuc : ℕ → ℤ

-- What `int(os.environ.get(QUARANTINE_RETENTION_DAYS, 30))` meets.
pub data Environment : Type 0 where
  unset not_a_number : Environment
  set_to : ℤ → Environment

abbrev pub default_retention_days : ℤ
default_retention_days = pos 30

unfoldable pub get_retention_days : Environment → ℤ
get_retention_days unset = default_retention_days
get_retention_days not_a_number = default_retention_days
get_retention_days (set_to n) = n

abbrev pub at_uri : String → Chunk → Truth
at_uri uri c = of_bool (c.source_uri == uri)

abbrev pub mark : ℕ → String → Chunk → Chunk
mark now reason c =
    touched now (record c { quarantined_at = some now; quarantine_reason = some reason })

abbrev pub unmark : ℕ → Chunk → Chunk
unmark now c = touched now (record c { quarantined_at = none; quarantine_reason = none })

unfoldable pub quarantine_chunks : Link → String → String → ℕ → List Chunk → ℕ × List Chunk
quarantine_chunks down uri reason now rows = (0, rows)
quarantine_chunks up uri reason now rows =
    let p = λ (c : Chunk). at_uri uri c and is_null c.quarantined_at in
    (count p rows, update p (mark now reason) rows)

unfoldable pub restore_chunks : Link → String → ℕ → List Chunk → ℕ × List Chunk
restore_chunks down uri now rows = (0, rows)
restore_chunks up uri now rows =
    let p = λ (c : Chunk). at_uri uri c and is_not_null c.quarantined_at in
    (count p rows, update p (unmark now) rows)

abbrev pub day : ℕ
day = 86400

-- since < now - interval '… days', where a negative number of days lies in the future
abbrev pub before_window : ℤ → ℕ → ℕ → Bool
before_window (pos d) now since = ltb (since + d * day) now
before_window (negsuc d) now since = ltb since (now + suc d * day)

abbrev pub overdue : ℤ → ℕ → Chunk → Truth
overdue days now c = elim c.quarantined_at [
  | none ↦ of_bool false
  | some since ↦ of_bool (before_window days now since)
]

abbrev pub or_environment : Environment → Option ℤ → ℤ
or_environment env none = get_retention_days env
or_environment env (some days) = days

unfoldable pub purge_expired : Link → Environment → Option ℤ → ℕ → List Chunk → ℕ × List Chunk
unfolding get_retention_days
purge_expired down env days now rows = (0, rows)
purge_expired up env days now rows =
    let p = overdue (or_environment env days) now in (count p rows, delete p rows)

-- `visibility`: the extra condition of the caller, if there is one
abbrev pub listed : Option (Chunk → Truth) → Chunk → Truth
listed none c = is_not_null c.quarantined_at
listed (some visible) c = is_not_null c.quarantined_at and visible c

-- COUNT(DISTINCT source_uri)
unfoldable pub distinct : List String → List Chunk → ℕ
distinct seen [] = 0
distinct seen (c ∷ cs) =
    let rest = distinct (c.source_uri ∷ seen) cs in
    if contains seen c.source_uri then rest else suc rest

-- MIN(quarantined_at)
abbrev pub earlier : Option ℕ → Option ℕ → Option ℕ
earlier none b = b
earlier (some a) none = some a
earlier (some a) (some b) = if leb a b then some a else some b

unfoldable pub oldest : List Chunk → Option ℕ
oldest [] = none
oldest (c ∷ cs) = earlier c.quarantined_at (oldest cs)

pub record Stats : Type 0 where
  pub total_documents : ℕ
  pub total_chunks : ℕ
  pub oldest_quarantine_at : Option ℕ

unfoldable pub get_quarantine_stats : Link → Option (Chunk → Truth) → List Chunk → Stats
get_quarantine_stats down visibility rows = record {
  total_documents = 0;
  total_chunks = 0;
  oldest_quarantine_at = none;
}
get_quarantine_stats up visibility rows =
    let rs = select (listed visibility) rows in
    record {
      total_documents = distinct [] rs;
      total_chunks = count (listed visibility) rows;
      oldest_quarantine_at = oldest rs;
    }
