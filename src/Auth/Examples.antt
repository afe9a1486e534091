-- ===== src/Auth/Examples.antt =====
-- The theorems on users, API keys and admission at concrete tables.
use Prim.Native.String.{◌++◌ as ◌<>◌}
use mathlib.Core.Bool.{false≢true}
use pgvector_ragindexer.Base.{
  ℕ, In, inl, inr, ap, sym, subst, ◌∙◌, ◌==◌, ==_refl, Option, String, ◌≡◌, ◌↔◌, refl, true, none,
  some, List, [], ◌∷◌, arith, string_eq, ℕ_discrete,
}
use pgvector_ragindexer.Sql.{up, down, select, count}
use pgvector_ragindexer.Users.{User, NewUser, user_row, get_user_by_api_key, count_admins}
use pgvector_ragindexer.ApiKeys.{ApiKey, key_row, hash_api_key, lookup_api_key}
use pgvector_ragindexer.Roles.{builtin_roles, has_permission, get_role_permissions, lookup}
use pgvector_ragindexer.Auth.{
  key_prefix, Links, granted, forbidden, require_api_key, check_permission, require_permission,
}
use text.Mathlib.Text.{starts_with}
use pgvector_ragindexer.Auth.Decisions.{require_permission-fails_open}
use pgvector_ragindexer.Auth.Admission.{
  UniqueHash, UniqueLink, IsUsable, Permits, require_permission-granted,
}

abbrev sha : String → String
sha key = "sha:" <> key

abbrev ann_new : NewUser
ann_new = record {
  email = some "ann@example.org";
  display_name = none;
  role = "admin";
  auth_provider = "api_key";
  api_key_id = some 1;
  client_id = none;
}

abbrev bob_new : NewUser
bob_new = record ann_new { email = some "bob@example.org"; role = "support"; api_key_id = some 2 }

abbrev users : List User
users = user_row "u-bob" 20 bob_new ∷ user_row "u-ann" 10 ann_new ∷ []

abbrev roles : List String
roles = "admin" ∷ "support" ∷ []

abbrev ann_twice : List User
ann_twice = user_row "u-ann" 10 ann_new ∷ user_row "u-two" 30 ann_new ∷ []

abbrev ann_key : ApiKey
ann_key = key_row sha "laptop" 1 "pgv_sk_aaaa" 10

abbrev bob_key : ApiKey
bob_key = key_row sha "desk" 2 "pgv_sk_bbbb" 20

abbrev keys : List ApiKey
keys = ann_key ∷ bob_key ∷ []

abbrev all_up : Links
all_up = record { lookup = up; touch = up; admins = up; user = up }

different_hashes : ann_key.key_hash ≡ bob_key.key_hash → ⊥
unfolding hash_api_key string_eq
different_hashes e =
    false≢true (subst (λ s. (ann_key.key_hash == s) ≡ true) e (==_refl ann_key.key_hash))

keys-UniqueHash : UniqueHash keys
keys-UniqueHash a b (inl p) (inl q) e = sym p ∙ q
keys-UniqueHash a b (inl p) (inr (inl q)) e = absurd (
    different_hashes
      (ap (λ (k : ApiKey). k.key_hash) p ∙ (e ∙ sym (ap (λ (k : ApiKey). k.key_hash) q))))
keys-UniqueHash a b (inr (inl p)) (inl q) e = absurd (
    different_hashes
      (ap (λ (k : ApiKey). k.key_hash) q ∙ (sym e ∙ sym (ap (λ (k : ApiKey). k.key_hash) p))))
keys-UniqueHash a b (inr (inl p)) (inr (inl q)) e = sym p ∙ q
keys-UniqueHash a b (inl p) (inr (inr i)) e = absurd i
keys-UniqueHash a b (inr (inl p)) (inr (inr i)) e = absurd i
keys-UniqueHash a b (inr (inr i)) j e = absurd i

different_links :
    (key : ℕ) → ◌≡◌ {A = Option ℕ} (some 1) (some key) → ◌≡◌ {A = Option ℕ} (some 2) (some key) → ⊥
different_links key e f =
    let one : 1 ≡ key = cc in let two : 2 ≡ key = cc in omega (arith, one, two)

users-UniqueLink : UniqueLink users
users-UniqueLink key a b (inl p) (inl q) e f = sym p ∙ q
users-UniqueLink key a b (inl p) (inr (inl q)) e f = absurd (
    different_links key (ap (λ (u : User). u.api_key_id) q ∙ f.0)
      (ap (λ (u : User). u.api_key_id) p ∙ e.0))
users-UniqueLink key a b (inr (inl p)) (inl q) e f = absurd (
    different_links key (ap (λ (u : User). u.api_key_id) p ∙ e.0)
      (ap (λ (u : User). u.api_key_id) q ∙ f.0))
users-UniqueLink key a b (inr (inl p)) (inr (inl q)) e f = sym p ∙ q
users-UniqueLink key a b (inl p) (inr (inr i)) e f = absurd i
users-UniqueLink key a b (inr (inl p)) (inr (inr i)) e f = absurd i
users-UniqueLink key a b (inr (inr i)) j e f = absurd i

abbrev bob_header : String
bob_header = "pgv_sk_bbbb"

has_header : bob_header ≡ "" → ⊥
unfolding string_eq
has_header e = false≢true (subst (λ s. (bob_header == s) ≡ true) e (==_refl bob_header))

require_permission-granted_example :
    ((require_permission sha all_up builtin_roles "audit.view" true
        (some bob_header)
        50
        users
        keys).0
      ≡ granted bob_key)
    ↔ ((starts_with bob_header key_prefix ≡ true)
        × ((all_up.lookup ≡ up) × In bob_key keys × IsUsable (sha bob_header) 50 bob_key)
        × ((all_up.user ≡ up)
            × ((u : User) × Permits builtin_roles "audit.view" bob_key.id users u)))
require_permission-granted_example =
    require_permission-granted sha all_up builtin_roles "audit.view" bob_header 50 users keys
      bob_key (user_row "u-ann" 10 ann_new) has_header keys-UniqueHash users-UniqueLink refl
      (inr (inl refl)) (refl, refl)

abbrev admins_down : Links
admins_down = record { lookup = up; touch = up; admins = down; user = up }

support_may_not_manage :
    (require_permission sha all_up builtin_roles "users.manage" true
      (some "pgv_sk_bbbb")
      50
      users
      keys).0
    ≡ forbidden
unfolding require_permission require_api_key check_permission lookup_api_key hash_api_key select
    count_admins count get_user_by_api_key has_permission get_role_permissions lookup string_eq
    ℕ_discrete
support_may_not_manage = refl

require_permission-fails_open_example :
    (require_permission sha admins_down builtin_roles "users.manage" true
      (some "pgv_sk_bbbb")
      50
      users
      keys).0
    ≡ granted bob_key
unfolding require_api_key lookup_api_key hash_api_key select string_eq ℕ_discrete
require_permission-fails_open_example =
    require_permission-fails_open sha admins_down builtin_roles "users.manage" true
      (some "pgv_sk_bbbb") 50 users keys refl
