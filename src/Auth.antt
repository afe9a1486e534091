-- ===== src/Auth.antt =====
-- auth.py: the FastAPI dependencies that admit a request. What `ipaddress` says of a host is an
-- argument, and so is the SHA-256 hash.
pub mod Decisions
pub mod Admission
mod Examples
use text.Mathlib.Text.{starts_with}
use pgvector_ragindexer.Base.{
  ℕ, String, Bool, true, false, Option, none, some, List, [], ◌∷◌, ◌==◌, contains, string_eq,
  nat_eq, not, ◌&&◌, if◌then◌else◌,
}
use pgvector_ragindexer.Sql.{Link}
use pgvector_ragindexer.ApiKeys.{ApiKey, hash_api_key, lookup_api_key, update_last_used}
use pgvector_ragindexer.Users.{User, get_user_by_api_key, count_admins}
use pgvector_ragindexer.Roles.{Config, has_permission, system_admin}

abbrev pub loopback_addrs : List String
loopback_addrs = "127.0.0.1" ∷ "::1" ∷ "localhost" ∷ []

abbrev pub key_prefix : String
key_prefix = "pgv_sk_"

-- `is_loopback_ip` is `ipaddress.ip_address(host).is_loopback`, and false where that raises.
unfoldable pub is_loopback_request : (String → Bool) → Option String → Bool
is_loopback_request is_loopback_ip none = false
is_loopback_request is_loopback_ip (some host) =
    if host == "" then false else if contains loopback_addrs host then true else is_loopback_ip host

-- `force_all`: API_AUTH_FORCE_ALL is 1, true or yes
pub record Settings : Type 0 where
  pub require_auth : Bool
  pub force_all : Bool

unfoldable pub is_auth_required : (String → Bool) → Settings → Option String → Bool
is_auth_required is_loopback_ip c host =
    if c.require_auth
    then if c.force_all then true else not (is_loopback_request is_loopback_ip host)
    else false

-- What a dependency returns, or the error that it raises.
pub data Decision : Type 0 where
  -- None: no authentication is needed
  local : Decision
  granted : ApiKey → Decision
  unauthorized invalid_api_key forbidden : Decision

-- Whether the database answers each of the calls that one request makes.
pub record Links : Type 0 where
  pub lookup : Link
  pub touch : Link
  pub admins : Link
  pub user : Link

record_use : Link → ℕ → Option ApiKey → List ApiKey → Decision × List ApiKey
record_use k now none keys = (invalid_api_key, keys)
record_use k now (some r) keys = (granted r, update_last_used k r.id now keys)

unfoldable pub require_api_key :
    (String → String) → Links → Bool → Option String → ℕ → List ApiKey → Decision × List ApiKey
unfolding record_use
require_api_key sha256 k required header now keys =
    if required
    then elim header [
      | none ↦ (unauthorized, keys)
      | some key ↦
          if key == ""
          then (unauthorized, keys)
          else if starts_with key key_prefix
          then record_use k.touch now (lookup_api_key k.lookup (hash_api_key sha256 key) now keys)
              keys
          else (invalid_api_key, keys)
    ]
    else (local, keys)

abbrev pub permits : Config → String → Option User → Bool
permits c permission none = false
permits c permission (some u) = has_permission c u.role permission

-- The checks of `_check_permission` on the record of a valid key. The three functions that it calls
-- catch their exceptions, so its `except` clauses do not run.
unfoldable pub check_permission : Links → Config → String → List User → Decision → Decision
check_permission k c permission users (granted r) =
    if count_admins k.admins users == 0
    then granted r
    else if permits c permission (get_user_by_api_key k.user r.id users)
    then granted r
    else forbidden
check_permission k c permission users local = local
check_permission k c permission users unauthorized = unauthorized
check_permission k c permission users invalid_api_key = invalid_api_key
check_permission k c permission users forbidden = forbidden

-- `c` is the configuration that `load_role_config()` returns.
unfoldable pub require_permission :
    (String → String)
    → Links
    → Config
    → String
    → Bool
    → Option String
    → ℕ
    → List User
    → List ApiKey
    → Decision × List ApiKey
require_permission sha256 k c permission required header now users keys =
    let (d, keys') = require_api_key sha256 k required header now keys in
    (check_permission k c permission users d, keys')

unfoldable pub require_admin :
    (String → String)
    → Links
    → Config
    → Bool
    → Option String
    → ℕ
    → List User
    → List ApiKey
    → Decision × List ApiKey
require_admin sha256 k c = require_permission sha256 k c system_admin
