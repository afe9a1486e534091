-- ===== src/Auth/Decisions.antt =====
-- Whom the dependencies admit.
use text.Mathlib.Text.{starts_with}
use pgvector_ragindexer.Base.{
  ℕ, String, ◌≡◌, ◌≢◌, ◌↔◌, refl, Bool, true, false, Option, none, some, List, ◌==◌, ==_sound,
  string_eq, nat_eq, arith, Bool-cases, inl, inr,
}
use pgvector_ragindexer.Sql.{Link, up, down}
use pgvector_ragindexer.ApiKeys.{ApiKey, hash_api_key, lookup_api_key}
use pgvector_ragindexer.Users.{User, get_user_by_api_key, count_admins}
use pgvector_ragindexer.Roles.{Config}
use pgvector_ragindexer.Auth.{
  Settings, Links, Decision, local, granted, unauthorized, invalid_api_key, forbidden, key_prefix,
  is_loopback_request, is_auth_required, record_use, require_api_key, permits, check_permission,
  require_permission,
}

record_use-granted :
    (k : Link) (now : ℕ) (o : Option ApiKey) (keys : List ApiKey) (r : ApiKey)
    → ((record_use k now o keys).0 ≡ granted r) ↔ (o ≡ some r)
unfolding record_use
record_use-granted k now none keys r = (λ h. cc, λ h. cc)
record_use-granted k now (some x) keys r = (λ h. cc, λ h. cc)

not_forbidden : {r : ApiKey} → ◌≡◌ {A = Decision} forbidden (granted r) → ⊥
not_forbidden h = cc

not_both : {b : Bool} → b ≡ false → b ≡ true → ⊥
not_both f t = cc

not_granted : {r : ApiKey} → ◌≡◌ {A = Decision} invalid_api_key (granted r) → ⊥
not_granted h = cc

module _ (sha256 : String → String) (k : Links) (now : ℕ) (keys : List ApiKey) (r : ApiKey) where
  -- Where authentication is required, a request is granted a record exactly if it carries a key of
  -- the right prefix whose hash the lookup accepts.
  pub require_api_key-granted :
      (key : String)
      → key ≢ ""
      → ((require_api_key sha256 k true (some key) now keys).0 ≡ granted r) ↔ (
          (starts_with key key_prefix ≡ true)
          × (lookup_api_key k.lookup (hash_api_key sha256 key) now keys ≡ some r))
  unfolding require_api_key
  require_api_key-granted key ne = elim (Bool-cases (key == "")) [
    | inl empty ↦ absurd (ne (==_sound key "" empty))
    | inr n ↦
        let found =
          record_use-granted k.touch now
            (lookup_api_key k.lookup (hash_api_key sha256 key) now keys) keys r in
        elim (Bool-cases (starts_with key key_prefix)) [
          | inl p ↦ rw (n, p) (λ h. (refl, found.0 h), λ h. found.1 h.1)
          | inr np ↦ rw (n, np) (λ h. absurd (not_granted h), λ h. cc)
        ]
  ]

module _ (sha256 : String → String) (k : Links) (c : Config) (permission : String) (required : Bool)
    (header : Option String) (now : ℕ) (users : List User) (keys : List ApiKey) where
  abbrev pub decision : Decision
  decision = (require_permission sha256 k c permission required header now users keys).0

  abbrev pub admitted : Decision
  admitted = (require_api_key sha256 k required header now keys).0

  pub check-granted :
      (d : Decision) (r : ApiKey)
      → k.admins ≡ up
      → count_admins up users ≢ 0
      → (check_permission k c permission users d ≡ granted r)
        ↔ ((d ≡ granted r) × (permits c permission (get_user_by_api_key k.user r.id users) ≡ true))
  unfolding check_permission
  check-granted local r e some_admin = (λ h. cc, λ h. cc)
  check-granted unauthorized r e some_admin = (λ h. cc, λ h. cc)
  check-granted invalid_api_key r e some_admin = (λ h. cc, λ h. cc)
  check-granted forbidden r e some_admin = (λ h. cc, λ h. cc)
  check-granted (granted x) r e some_admin =
      let test : (count_admins up users == 0) ≡ false = ground arith in
      elim (Bool-cases (permits c permission (get_user_by_api_key k.user x.id users))) [
        | inl y ↦ rw (e, test, y) (λ h. let same : x ≡ r = cc in (h, rw (← same) y), λ h. h.0)
        | inr n ↦
            rw (e, test, n)
              (
                λ h. absurd (not_forbidden h),
                λ h. let same : x ≡ r = cc (h.0) in absurd (not_both n (rw same h.1)),
              )
      ]

  check-open : (d : Decision) → k.admins ≡ down → check_permission k c permission users d ≡ d
  unfolding check_permission count_admins
  check-open (granted r) e = rw (e, count_admins) (ground arith)
  check-open local e = refl
  check-open unauthorized e = refl
  check-open invalid_api_key e = refl
  check-open forbidden e = refl

  -- If the query that counts the admins fails, every valid key is admitted, whatever its user and
  -- the permission: the failure reads as a count of 0, which is the bootstrap case.
  pub require_permission-fails_open : k.admins ≡ down → decision ≡ admitted
  unfolding require_permission
  require_permission-fails_open e = check-open admitted e

-- Authentication is required exactly if it is switched on and the request is not exempt: a request
-- from a loopback host is, unless the exemption is switched off.
pub is_auth_required_iff :
    (ip : String → Bool) (c : Settings) (host : Option String)
    → (is_auth_required ip c host ≡ true)
      ↔ ((c.require_auth ≡ true) × ((is_loopback_request ip host ≡ true) → c.force_all ≡ true))
unfolding is_auth_required
is_auth_required_iff ip c host = elim (Bool-cases (is_loopback_request ip host)) [
  | inl y ↦ (λ h. (ground arith, λ _. ground arith), λ h. let f = h.1 y in ground arith)
  | inr n ↦ (λ h. (ground arith, λ y. absurd (not_both n y)), λ h. ground arith)
]
