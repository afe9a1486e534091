-- ===== src/Auth/Admission.antt =====
-- Whom require_permission admits, in terms of the rows of the two tables.
use text.Mathlib.Text.{starts_with}
use pgvector_ragindexer.Base.{
  [], ◌∷◌, ◌⊎◌, contains, if◌then◌else◌, ℕ, ◌+◌, ◌<◌, String, ◌≡◌, ◌≢◌, ◌↔◌, refl, sym, ap, ◌∙◌,
  subst, Bool, true, Option, none, some, List, ◌==◌, ==_sound, ==_refl, string_eq, nat_eq, arith,
  In, Bool-cases, inl, inr,
}
use pgvector_ragindexer.Sql.{Truth, Link, up, down, of_bool, is_true, equals, ◌and◌}
use pgvector_ragindexer.Sql.Members.{first-In, In-first, In-count}
use pgvector_ragindexer.ApiKeys.{
  ApiKey, not_revoked, not_expired, usable, hash_api_key, lookup_api_key,
}
use pgvector_ragindexer.Users.{User, role_admin, linked, get_user_by_api_key, count_admins}
use pgvector_ragindexer.Roles.{
  Config, RoleDef, lookup, system_admin, permissions_of, get_role_permissions, has_permission,
}
use pgvector_ragindexer.Auth.{
  Links, granted, key_prefix, require_api_key, permits, require_permission,
}
use pgvector_ragindexer.Auth.Decisions.{require_api_key-granted, check-granted}

-- Not revoked, or revoked less than a day ago.
abbrev pub NotRevoked : ℕ → Option ℕ → Type 0
NotRevoked now none = Unit
NotRevoked now (some t) = now < t + 86400

abbrev pub NotExpired : ℕ → Option ℕ → Type 0
NotExpired now none = Unit
NotExpired now (some t) = now < t

abbrev pub IsUsable : String → ℕ → ApiKey → Type 0
IsUsable hash now r =
    (r.key_hash ≡ hash) × NotRevoked now r.revoked_at × NotExpired now r.expires_at

-- The constraint UNIQUE on key_hash.
abbrev pub UniqueHash : List ApiKey → Type 0
UniqueHash keys = (a b : ApiKey) → In a keys → In b keys → a.key_hash ≡ b.key_hash → a ≡ b

abbrev pub IsLinked : ℕ → User → Type 0
IsLinked key u = (u.api_key_id ≡ some key) × (u.is_active ≡ true)

-- A key is linked to one active user at most.
abbrev pub UniqueLink : List User → Type 0
UniqueLink users =
    (key : ℕ) (a b : User) → In a users → In b users → IsLinked key a → IsLinked key b → a ≡ b

abbrev pub IsAdmin : User → Type 0
IsAdmin u = (u.role ≡ "admin") × (u.is_active ≡ true)

not_revoked_iff : (now : ℕ) (o : Option ℕ) → (is_true (not_revoked now o) ≡ true) ↔ NotRevoked now o
not_revoked_iff now none = (λ h. tt, λ h. refl)
not_revoked_iff now (some t) = (λ h. ground arith, λ h. ground arith)

not_expired_iff : (now : ℕ) (o : Option ℕ) → (is_true (not_expired now o) ≡ true) ↔ NotExpired now o
not_expired_iff now none = (λ h. tt, λ h. refl)
not_expired_iff now (some t) = (λ h. ground arith, λ h. ground arith)

all_three :
    (b : Bool) (p q : Truth)
    → (is_true (of_bool b and p and q) ≡ true)
      ↔ ((b ≡ true) × (is_true p ≡ true) × (is_true q ≡ true))
all_three b p q = (λ h. (ground arith, ground arith, ground arith), λ h. ground arith)

usable_iff :
    (hash : String) (now : ℕ) (r : ApiKey)
    → (is_true (usable hash now r) ≡ true) ↔ IsUsable hash now r
usable_iff hash now r =
    let split =
      all_three (r.key_hash == hash) (not_revoked now r.revoked_at)
        (not_expired now r.expires_at) in
    let revoked = not_revoked_iff now r.revoked_at in
    let expired = not_expired_iff now r.expires_at in
    (
      λ h. let k = split.0 h in (==_sound r.key_hash hash k.0, revoked.0 k.1, expired.0 k.2),
      λ (e, f, g).
          split.1 (
            subst (λ t. (r.key_hash == t) ≡ true) e (==_refl r.key_hash),
            revoked.1 f,
            expired.1 g,
          ),
    )

equals_iff : (o : Option ℕ) (key : ℕ) → (is_true (equals o key) ≡ true) ↔ (o ≡ some key)
equals_iff none key = (λ h. cc, λ h. cc)
equals_iff (some n) key = (
  λ h. let same : n ≡ key = ground arith in ap some same,
  λ h. let same : n ≡ key = cc in ground arith,
)

both_iff :
    (p : Truth) (b : Bool) → (is_true (p and of_bool b) ≡ true) ↔ ((is_true p ≡ true) × (b ≡ true))
both_iff p b = (λ h. (ground arith, ground arith), λ h. ground arith)

linked_iff : (key : ℕ) (u : User) → (is_true (linked key u) ≡ true) ↔ IsLinked key u
linked_iff key u =
    let split = both_iff (equals u.api_key_id key) u.is_active in
    let same = equals_iff u.api_key_id key in
    (λ h. let k = split.0 h in (same.0 k.0, k.1), λ h. split.1 (same.1 h.0, h.1))

lookup_iff :
    (l : Link) (hash : String) (now : ℕ) (keys : List ApiKey) (r : ApiKey)
    → UniqueHash keys
    → (lookup_api_key l hash now keys ≡ some r) ↔ ((l ≡ up) × In r keys × IsUsable hash now r)
unfolding lookup_api_key
lookup_iff down hash now keys r u = (λ h. cc, λ h. cc)
lookup_iff up hash now keys r u = (
  λ h.
      let k = first-In (usable hash now) keys {r = r} h in
      (refl, k.0, (usable_iff hash now r).0 k.1),
  λ (_, i, k).
      In-first (usable hash now) keys r i ((usable_iff hash now r).1 k)
        (λ x j t. u x r j i (((usable_iff hash now x).0 t).0 ∙ sym k.0)),
)

contains_iff : (xs : List String) (a : String) → (contains xs a ≡ true) ↔ In a xs
contains_iff [] a = (λ h. cc, λ i. absurd i)
contains_iff (x ∷ xs) a =
    let rest = contains_iff xs a in
    elim (Bool-cases (a == x)) [
      | inl y ↦ (λ h. inl (sym (==_sound a x y)), λ i. ground arith)
      | inr n ↦ (
        λ h. inr (rest.0 (ground arith)),
        λ i. elim i [
          | inl same ↦ let y = subst (λ t. (a == t) ≡ true) (sym same) (==_refl a) in ground arith
          | inr j ↦ let y = rest.1 j in ground arith
        ],
      )
    ]

-- The configuration has the role, and its permissions name this one or system.admin.
abbrev pub Allows : Config → String → String → Type 0
Allows c role permission =
    (d : RoleDef) × (lookup role c ≡ some d)
    × (In "system.admin" d.permissions ⊎ In permission d.permissions)

allows_of :
    (permission : String) (o : Option RoleDef)
    → ((if contains (permissions_of o) system_admin
          then true
          else contains (permissions_of o) permission)
        ≡ true)
      ↔ ((d : RoleDef) × (o ≡ some d)
          × (In "system.admin" d.permissions ⊎ In permission d.permissions))
allows_of permission none = (λ h. cc, λ (d, e, i). cc)
allows_of permission (some d) =
    let admin = contains_iff d.permissions system_admin in
    let this = contains_iff d.permissions permission in
    elim (Bool-cases (contains d.permissions system_admin)) [
      | inl y ↦ (λ h. (d, refl, inl (admin.0 y)), λ i. rw y refl)
      | inr n ↦ (
        λ h. (d, refl, inr (this.0 (ground arith))),
        λ (x, e, i).
            let same : x ≡ d = cc in
            elim i [
              | inl j ↦
                  let y =
                    admin.1 (subst (λ (w : RoleDef). In "system.admin" w.permissions) same j) in
                  ground arith
              | inr j ↦
                  let y = this.1 (subst (λ (w : RoleDef). In permission w.permissions) same j) in
                  ground arith
            ],
      )
    ]

Allows-iff :
    (c : Config) (role permission : String)
    → (has_permission c role permission ≡ true) ↔ Allows c role permission
unfolding has_permission get_role_permissions
Allows-iff c role permission = allows_of permission (lookup role c)

-- The user whose role decides.
abbrev pub Permits : Config → String → ℕ → List User → User → Type 0
Permits c permission key users u = In u users × IsLinked key u × Allows c u.role permission

permits-some :
    (c : Config) (permission : String) (o : Option User)
    → permits c permission o ≡ true
    → (u : User) × (o ≡ some u) × (has_permission c u.role permission ≡ true)
permits-some c permission none h = cc
permits-some c permission (some u) h = (u, refl, h)

permits_iff :
    (c : Config) (permission : String) (l : Link) (key : ℕ) (users : List User)
    → UniqueLink users
    → (permits c permission (get_user_by_api_key l key users) ≡ true)
      ↔ ((l ≡ up) × ((u : User) × Permits c permission key users u))
unfolding get_user_by_api_key
permits_iff c permission down key users one = (λ h. cc, λ h. cc)
permits_iff c permission up key users one = (
  λ h.
      let (u, e, allowed) = permits-some c permission _ h in
      let k = first-In (linked key) users {r = u} e in
      (refl, (u, (k.0, (linked_iff key u).0 k.1, (Allows-iff c u.role permission).0 allowed))),
  λ (_, (u, (i, k, allowed))).
      let e =
        In-first (linked key) users u i ((linked_iff key u).1 k)
          (λ x j t. one key x u j i ((linked_iff key x).0 t) k) in
      subst (λ o. permits c permission o ≡ true) (sym e)
        ((Allows-iff c u.role permission).1 allowed),
)

admin_counts : (users : List User) (a : User) → In a users → IsAdmin a → count_admins up users ≢ 0
unfolding count_admins
admin_counts users a i (e, active) =
    In-count (λ u. of_bool (u.role == role_admin) and of_bool u.is_active) users a i
      (let same = subst (λ t. (a.role == t) ≡ true) e (==_refl a.role) in ground arith)

-- Where authentication is required, the admins can be counted and there is an active one, a request
-- with a header that is not empty is granted a record exactly if the header begins with the prefix of
-- keys, the database answers both lookups, the record is in the table with the hash of the header, was
-- not revoked a day ago or earlier and has not expired, and some user in the table is active, linked
-- to the record and of a role whose permissions name this one or system.admin. Conditions: the hashes of the keys are unique, and
-- a key is linked to at most one active user.
pub require_permission-granted :
    (sha256 : String → String) (k : Links) (c : Config) (permission key : String) (now : ℕ)
    (users : List User) (keys : List ApiKey) (r : ApiKey) (a : User)
    → key ≢ ""
    → UniqueHash keys
    → UniqueLink users
    → k.admins ≡ up
    → In a users
    → IsAdmin a
    → ((require_permission sha256 k c permission true (some key) now users keys).0 ≡ granted r) ↔ (
        (starts_with key key_prefix ≡ true)
        × ((k.lookup ≡ up) × In r keys × IsUsable (sha256 key) now r)
        × ((k.user ≡ up) × ((u : User) × Permits c permission r.id users u)))
unfolding require_permission hash_api_key
require_permission-granted sha256 k c permission key now users keys r a ne hashes links up_admins i
      adm =
    let checked =
      check-granted sha256 k c permission true (some key) now users keys
        (require_api_key sha256 k true (some key) now keys).0 r up_admins
        (admin_counts users a i adm) in
    let admitted = require_api_key-granted sha256 k now keys r key ne in
    let found = lookup_iff k.lookup (sha256 key) now keys r hashes in
    let allowed = permits_iff c permission k.user r.id users links in
    (
      λ h. let d = checked.0 h in let e = admitted.0 d.0 in (e.0, found.0 e.1, allowed.0 d.1),
      λ h. checked.1 (admitted.1 (h.0, found.1 h.1), allowed.1 h.2),
    )
