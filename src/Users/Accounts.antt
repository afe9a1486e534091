-- ===== src/Users/Accounts.antt =====
-- What the calls keep of the accounts, and what a deactivation takes away.
use pgvector_ragindexer.Base.{
  ℕ, String, ◌≡◌, ◌≢◌, refl, true, false, ◌+◌, none, some, List, [], ◌∷◌, ◌==◌, contains, string_eq,
  nat_eq, first, arith, Bool-cases, inl, inr, subst,
}
use pgvector_ragindexer.Sql.{Truth, up, of_bool, is_true, ◌and◌, select, update, count}
use pgvector_ragindexer.Users.{
  User, NewUser, Changes, by_id, linked, get_user_by_api_key, create_user, insert_user, change,
  change_rows, update_user, deactivate_user, count_active_users, valid_auth_providers,
}

abbrev off : Changes
off = record { email = none; display_name = none; role = none; is_active = some false }

linked-off :
    (id : String) (now key : ℕ) (rows : List User) (u : User)
    → first (select (linked key) (update (by_id id) (change now off) rows)) ≡ some u
    → (u.id == id) ≡ false
unfolding select update
linked-off id now key [] u h = cc
linked-off id now key (r ∷ rs) u h = elim (Bool-cases (r.id == id)) [
  | inl y ↦ linked-off id now key rs u (ground arith)
  | inr n ↦ elim (Bool-cases (is_true (linked key r))) [
    | inl l ↦ let same : r ≡ u = ground arith in subst (λ w. (w.id == id) ≡ false) same n
    | inr nl ↦ linked-off id now key rs u (ground arith)
  ]
]

-- Once a user is deactivated, no API key resolves to that user any more.
pub deactivate_user-unlinks :
    (valid : List String) (id : String) (now key : ℕ) (rows : List User) (u : User)
    → get_user_by_api_key up key (deactivate_user up valid id now rows).1 ≡ some u
    → u.id ≢ id
unfolding get_user_by_api_key deactivate_user update_user change_rows
deactivate_user-unlinks valid id now key rows u h same =
    let other = linked-off id now key rows u h in ground arith

abbrev active : User → Truth
active u = of_bool u.is_active

count-off :
    (id : String) (now : ℕ) (rows : List User)
    → count active (update (by_id id) (change now off) rows)
        + count (λ u. by_id id u and active u) rows
      ≡ count active rows
unfolding update count
count-off id now [] = refl
count-off id now (r ∷ rs) = ground (arith, count-off id now rs)

-- A deactivation frees as many seats as the user had active rows, and no others.
pub deactivate_user-seats :
    (valid : List String) (id : String) (now : ℕ) (rows : List User)
    → count_active_users up (deactivate_user up valid id now rows).1
        + count (λ u. by_id id u and active u) rows
      ≡ count_active_users up rows
unfolding count_active_users deactivate_user update_user change_rows
deactivate_user-seats valid id now rows = count-off id now rows

-- A user that create_user makes takes one seat, has a valid role and provider, and is what
-- get_user_by_api_key finds for its key.
pub create_user-links :
    (valid : List String) (uuid : String) (now key : ℕ) (n : NewUser) (rows : List User) (u : User)
    → (create_user up valid uuid now n rows).0 ≡ some u
    → n.api_key_id ≡ some key
    → (contains valid u.role ≡ true)
      × (contains valid_auth_providers u.auth_provider ≡ true)
      × (get_user_by_api_key up key (create_user up valid uuid now n rows).1 ≡ some u)
      × (count_active_users up (create_user up valid uuid now n rows).1
          ≡ count_active_users up rows + 1)
unfolding create_user insert_user get_user_by_api_key count_active_users select count
create_user-links valid uuid now key n rows u h k = ground arith
