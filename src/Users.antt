-- ===== src/Users.antt =====
-- users.py: the table `users`. A call that raises is caught and logged, and answers None, False,
-- [] or 0. Times are seconds; `uuid` is the id that the database makes.
pub mod Accounts
use pgvector_ragindexer.Base.{
  ℕ, String, Bool, true, false, not, ◌&&◌, Option, none, some, List, [], ◌∷◌, ◌==◌, contains,
  string_eq, nat_eq, first, ltb, if◌then◌else◌,
}
use pgvector_ragindexer.Sql.{
  Truth, Link, up, down, of_bool, equals, ◌and◌, select, delete, update, count,
}

pub record User : Type 0 where
  pub id : String
  pub email : Option String
  pub display_name : Option String
  pub role : String
  pub auth_provider : String
  pub api_key_id : Option ℕ
  pub client_id : Option String
  pub created_at : ℕ
  pub updated_at : ℕ
  pub last_login_at : Option ℕ
  pub is_active : Bool

abbrev pub role_admin : String
role_admin = "admin"

abbrev pub valid_auth_providers : List String
valid_auth_providers = "api_key" ∷ "saml" ∷ []

abbrev pub by_id : String → User → Truth
by_id id u = of_bool (u.id == id)

unfoldable pub get_user : Link → String → List User → Option User
get_user down id rows = none
get_user up id rows = first (select (by_id id) rows)

unfoldable pub get_user_by_email : Link → String → List User → Option User
get_user_by_email down email rows = none
get_user_by_email up email rows = first (select (λ u. equals u.email email) rows)

abbrev pub linked : ℕ → User → Truth
linked key u = equals u.api_key_id key and of_bool u.is_active

unfoldable pub get_user_by_api_key : Link → ℕ → List User → Option User
get_user_by_api_key down key rows = none
get_user_by_api_key up key rows = first (select (linked key) rows)

-- What the caller of create_user gives.
pub record NewUser : Type 0 where
  pub email : Option String
  pub display_name : Option String
  pub role : String
  pub auth_provider : String
  pub api_key_id : Option ℕ
  pub client_id : Option String

-- the row that INSERT makes, with the defaults of the table
abbrev pub user_row : String → ℕ → NewUser → User
user_row uuid now n = record {
  id = uuid;
  email = n.email;
  display_name = n.display_name;
  role = n.role;
  auth_provider = n.auth_provider;
  api_key_id = n.api_key_id;
  client_id = n.client_id;
  created_at = now;
  updated_at = now;
  last_login_at = none;
  is_active = true;
}

-- The unique constraint on `email`: NULLs do not clash.
abbrev pub email_taken : Option String → List User → Bool
email_taken none rows = false
email_taken (some e) rows = ltb 0 (count (λ u. equals u.email e) rows)

insert_user : Link → User → List User → Option User × List User
insert_user down u rows = (none, rows)
insert_user up u rows = if email_taken u.email rows then (none, rows) else (some u, u ∷ rows)

-- `valid` is what `_get_valid_roles()` returns.
unfoldable pub create_user :
    Link → List String → String → ℕ → NewUser → List User → Option User × List User
unfolding insert_user
create_user k valid uuid now n rows =
    if contains valid n.role && contains valid_auth_providers n.auth_provider
    then insert_user k (user_row uuid now n) rows
    else (none, rows)

-- The order of the answer is not modelled.
unfoldable pub list_users : Link → Option String → Bool → List User → List User
list_users down role active_only rows = []
list_users up role active_only rows =
    select
      (λ u.
        elim role [
          | none ↦ of_bool true
          | some r ↦ if r == "" then of_bool true else of_bool (u.role == r)
        ]
        and (if active_only then of_bool u.is_active else of_bool true))
      rows

-- The keyword arguments of update_user; `none` leaves the field alone.
pub record Changes : Type 0 where
  pub email : Option String
  pub display_name : Option String
  pub role : Option String
  pub is_active : Option Bool

abbrev pub or_old {ℓ} : {A : Type ℓ} → Option A → A → A
or_old none a = a
or_old (some b) a = b

abbrev pub or_same {ℓ} : {A : Type ℓ} → Option A → Option A → Option A
or_same none a = a
or_same (some b) a = some b

abbrev pub change : ℕ → Changes → User → User
change now c u = record u {
  email = or_same c.email u.email;
  display_name = or_same c.display_name u.display_name;
  role = or_old c.role u.role;
  is_active = or_old c.is_active u.is_active;
  updated_at = now;
}

abbrev pub absent {ℓ} : {A : Type ℓ} → Option A → Bool
absent none = true
absent (some a) = false

abbrev pub nothing : Changes → Bool
nothing c = absent c.email && absent c.display_name && absent c.role && absent c.is_active

abbrev pub role_allowed : List String → Option String → Bool
role_allowed valid none = true
role_allowed valid (some r) = contains valid r

-- Another user has the e-mail address that the UPDATE would write.
abbrev pub clashes : String → Option String → List User → Bool
clashes id none rows = false
clashes id (some e) rows =
    ltb 0 (count (λ u. equals u.email e and of_bool (not (u.id == id))) rows)
    && ltb 0 (count (by_id id) rows)

change_rows : Link → String → ℕ → Changes → List User → Option User × List User
change_rows down id now c rows = (none, rows)
change_rows up id now c rows =
    if clashes id c.email rows
    then (none, rows)
    else let changed = update (by_id id) (change now c) rows in
      (first (select (by_id id) changed), changed)

unfoldable pub update_user :
    Link → List String → String → ℕ → Changes → List User → Option User × List User
unfolding change_rows
update_user k valid id now c rows =
    if role_allowed valid c.role
    then if nothing c then (get_user k id rows, rows) else change_rows k id now c rows
    else (none, rows)

unfoldable pub delete_user : Link → String → List User → Bool × List User
delete_user down id rows = (false, rows)
delete_user up id rows = (ltb 0 (count (by_id id) rows), delete (by_id id) rows)

unfoldable pub deactivate_user :
    Link → List String → String → ℕ → List User → Option User × List User
deactivate_user k valid id now rows =
    update_user k valid id now
      (record { email = none; display_name = none; role = none; is_active = some false }) rows

unfoldable pub change_role :
    Link → List String → String → ℕ → String → List User → Option User × List User
change_role k valid id now role rows =
    update_user k valid id now
      (record { email = none; display_name = none; role = some role; is_active = none }) rows

unfoldable pub is_admin : Link → String → List User → Bool
is_admin k id rows = elim (get_user k id rows) [ none ↦ false | some u ↦ u.role == role_admin ]

unfoldable pub record_login : Link → String → ℕ → List User → List User
record_login down id now rows = rows
record_login up id now rows =
    update (by_id id) (λ u. record u { last_login_at = some now; updated_at = now }) rows

unfoldable pub count_admins : Link → List User → ℕ
count_admins down rows = 0
count_admins up rows = count (λ u. of_bool (u.role == role_admin) and of_bool u.is_active) rows

unfoldable pub count_active_users : Link → List User → ℕ
count_active_users down rows = 0
count_active_users up rows = count (λ u. of_bool u.is_active) rows
