-- ===== src/ApiKeys.antt =====
-- auth.py: the table `api_keys`. Times are seconds. The SHA-256 hash, the random keys and the ids
-- that the database makes are arguments.
pub mod Grace
use Prim.Native.String.{slice, ◌++◌ as ◌<>◌}
use text.Mathlib.Text.{starts_with}
use pgvector_ragindexer.Base.{
  ℕ, ◌+◌, ◌*◌, String, Bool, true, false, Option, none, some, List, [], ◌∷◌, ◌==◌, string_eq,
  nat_eq, first, ltb, if◌then◌else◌,
}
use pgvector_ragindexer.Sql.{
  Truth, Link, up, down, of_bool, is_null, ◌and◌, ◌or◌, select, update, count,
}

pub record ApiKey : Type 0 where
  pub id : ℕ
  pub name : String
  pub key_hash : String
  pub key_prefix : String
  pub created_at : ℕ
  pub last_used_at : Option ℕ
  pub revoked_at : Option ℕ
  pub expires_at : Option ℕ

abbrev pub grace_period_hours : ℕ
grace_period_hours = 24

-- revoked_at IS NULL OR revoked_at > NOW() - INTERVAL '24 hours'
abbrev pub not_revoked : ℕ → Option ℕ → Truth
not_revoked now none = of_bool true
not_revoked now (some r) = of_bool (ltb now (r + grace_period_hours * 3600))

-- expires_at IS NULL OR expires_at > NOW()
abbrev pub not_expired : ℕ → Option ℕ → Truth
not_expired now none = of_bool true
not_expired now (some e) = of_bool (ltb now e)

abbrev pub usable : String → ℕ → ApiKey → Truth
usable hash now k =
    of_bool (k.key_hash == hash) and not_revoked now k.revoked_at and not_expired now k.expires_at

unfoldable pub lookup_api_key : Link → String → ℕ → List ApiKey → Option ApiKey
lookup_api_key down hash now rows = none
lookup_api_key up hash now rows = first (select (usable hash now) rows)

abbrev pub by_id : ℕ → ApiKey → Truth
by_id id k = of_bool (k.id == id)

unfoldable pub update_last_used : Link → ℕ → ℕ → List ApiKey → List ApiKey
update_last_used down id now rows = rows
update_last_used up id now rows = update (by_id id) (λ k. record k { last_used_at = some now }) rows

unfoldable pub hash_api_key : (String → String) → String → String
hash_api_key sha256 key = sha256 key

-- key[:12]; a generated key is longer, and ASCII
unfoldable pub get_key_prefix : String → String
get_key_prefix key = slice key 0 12

-- `none` where the database call raises: the functions below do not catch it.
-- The key that the caller is shown is `key`; its prefix and hash are stored.
abbrev pub key_row : (String → String) → String → ℕ → String → ℕ → ApiKey
key_row sha256 name id key now = record {
  id = id;
  name = name;
  key_hash = hash_api_key sha256 key;
  key_prefix = get_key_prefix key;
  created_at = now;
  last_used_at = none;
  revoked_at = none;
  expires_at = none;
}

unfoldable pub create_api_key_record :
    Link → (String → String) → String → ℕ → String → ℕ → List ApiKey → Option (ApiKey × List ApiKey)
create_api_key_record down hash name id key now rows = none
create_api_key_record up hash name id key now rows =
    let k = key_row hash name id key now in some (k, k ∷ rows)

-- the field `active` of list_api_keys
abbrev pub listed_active : ℕ → ApiKey → Bool
listed_active now k = elim k.revoked_at [
  | some r ↦ false
  | none ↦ elim k.expires_at [ none ↦ true | some e ↦ ltb now e ]
]

abbrev pub unrevoked : ℕ → ApiKey → Truth
unrevoked id k = by_id id k and is_null k.revoked_at

abbrev pub revoke_at : ℕ → ApiKey → ApiKey
revoke_at now k = record k { revoked_at = some now }

unfoldable pub revoke_api_key : Link → ℕ → ℕ → List ApiKey → Option (Bool × List ApiKey)
revoke_api_key down id now rows = none
revoke_api_key up id now rows =
    some (ltb 0 (count (unrevoked id) rows), update (unrevoked id) (revoke_at now) rows)

-- What rotate_api_key returns: the new row, or None where there is no such key.
rotate_found :
    (String → String)
    → ℕ
    → ℕ
    → String
    → ℕ
    → Option ApiKey
    → List ApiKey
    → Option ApiKey × List ApiKey
rotate_found hash id new_id key now none rows = (none, rows)
rotate_found hash id new_id key now (some old) rows =
    let k = key_row hash (old.name <> " (rotated)") new_id key now in
    (some k, k ∷ update (by_id id) (revoke_at now) rows)

unfoldable pub rotate_api_key :
    Link
    → (String → String)
    → ℕ
    → ℕ
    → String
    → ℕ
    → List ApiKey
    → Option (Option ApiKey × List ApiKey)
unfolding rotate_found
rotate_api_key down hash id new_id key now rows = none
rotate_api_key up hash id new_id key now rows =
    some (rotate_found hash id new_id key now (first (select (unrevoked id) rows)) rows)
