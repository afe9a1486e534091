-- ===== src/ServerSettings.antt =====
-- server_settings_store.py: the table server_settings, and the license keys that it keeps.
pub mod Table
pub mod Stack
pub mod Changes
pub mod Removal
mod Examples
use pgvector_ragindexer.Base.{
  String, Bool, true, false, not, ◌||◌, Option, none, some, List, [], ◌∷◌, ◌++◌, map, ◌==◌,
  string_eq, contains, strip, if◌then◌else◌,
}
use pgvector_ragindexer.Sql.{Truth, Link, up, down, of_bool, delete}

-- A JSON value inside a list or an object, as far as the code looks at it: bool(v) and str(v).
pub record Item : Type 0 where
  pub is_true : Bool
  pub shown : String

abbrev pub text_item : String → Item
text_item s = record { is_true = not (s == ""); shown = s }

-- A JSON value; of an object only the two keys that are looked up.
pub data Value : Type 0 where
  array : List Item → Value
  object : Option Item → Option Item → Value
  text : String → Value
  other_json : Value

-- A row of the table; `key` is its primary key.
pub record Setting : Type 0 where
  pub key : String
  pub value : Value

unfoldable pub lookup : String → List Setting → Option Value
lookup key [] = none
lookup key (s ∷ ss) = let rest = lookup key ss in if s.key == key then some s.value else rest

unfoldable pub get_server_setting : Link → String → List Setting → Option Value
unfolding lookup
get_server_setting down key table = none
get_server_setting up key table = lookup key table

-- INSERT … ON CONFLICT (key) DO UPDATE
unfoldable pub upsert : String → Value → List Setting → List Setting
upsert key value [] = record { key = key; value = value } ∷ []
upsert key value (s ∷ ss) =
    let rest = upsert key value ss in
    if s.key == key then record s { value = value } ∷ ss else s ∷ rest

-- Whether the value was written; if not, the call raises.
unfoldable pub set_server_setting : Link → String → Value → List Setting → Bool × List Setting
unfolding upsert
set_server_setting down key value table = (false, table)
set_server_setting up key value table = (true, upsert key value table)

-- [str(k).strip() for k in value if k]
abbrev pub stripped : List Item → List String
stripped [] = []
stripped (k ∷ ks) = let rest = stripped ks in if k.is_true then strip k.shown ∷ rest else rest

abbrev pub or_else : Option Item → Option Item → Option Item
or_else none second = second
or_else (some k) second = if k.is_true then some k else second

-- str(raw).strip() if raw else None
abbrev pub shown_of : Option Item → Option String
shown_of none = none
shown_of (some k) = if k.is_true then some (strip k.shown) else none

abbrev pub old_key_of : Option Value → Option String
old_key_of none = none
old_key_of (some (array ks)) = none
old_key_of (some (object token license_key)) = shown_of (or_else token license_key)
old_key_of (some (text s)) = if strip s == "" then none else some (strip s)
old_key_of (some other_json) = none

-- Whether the database answers each of the four statements of a read.
pub record Links : Type 0 where
  pub read_keys : Link
  pub read_old : Link
  pub write_keys : Link
  pub delete_old : Link

abbrev pub forget_old : Link → Bool × List Setting → List Setting
forget_old down (written, table) = table
forget_old up (true, table) = delete (λ s. of_bool (s.key == "license_key")) table
forget_old up (false, table) = table

abbrev pub promote : Links → Option String → List Setting → List String × List Setting
promote k none table = ([], table)
promote k (some old) table = if old == "" then ([], table) else (
  old ∷ [],
  forget_old k.delete_old
      (set_server_setting k.write_keys "license_keys" (array (text_item old ∷ [])) table),
)

abbrev pub read_stack : Links → Option Value → List Setting → List String × List Setting
read_stack k (some (array (x ∷ xs))) table = (stripped (x ∷ xs), table)
read_stack k v table =
    promote k (old_key_of (get_server_setting k.read_old "license_key" table)) table

-- The keys, and the table after the old entry was promoted.
unfoldable pub get_server_license_keys : Links → List Setting → List String × List Setting
unfolding get_server_setting set_server_setting
get_server_license_keys k table =
    read_stack k (get_server_setting k.read_keys "license_keys" table) table

unfoldable pub get_server_license_key : Links → List Setting → Option String × List Setting
unfolding get_server_license_keys
get_server_license_key k table =
    let found = get_server_license_keys k table in
    (elim found.0 [ [] ↦ none | x ∷ xs ↦ some x ], found.1)

unfoldable pub set_server_license_key : Link → String → List Setting → Bool × List Setting
unfolding set_server_setting
set_server_license_key w key table =
    set_server_setting w "license_keys" (array (text_item (strip key) ∷ [])) table

pub data Added : Type 0 where
  -- ValueError
  empty_key : Added
  duplicate : Added
  stacked : Added
  -- ServerSettingsStoreError
  failed : Added

abbrev pub has_kid : (String → Option String) → String → String → Bool
has_kid kid_of kid key = elim (kid_of key) [ none ↦ false | some k ↦ k == kid ]

unfoldable pub any_has_kid : (String → Option String) → String → List String → Bool
any_has_kid kid_of kid [] = false
any_has_kid kid_of kid (key ∷ keys) = has_kid kid_of kid key || any_has_kid kid_of kid keys

abbrev pub is_present : (String → Option String) → Option String → List String → Bool
is_present kid_of none existing = false
is_present kid_of (some kid) existing = if kid == "" then false else any_has_kid kid_of kid existing

abbrev pub write_stack : Link → List String → List Setting → Bool × List Setting
write_stack w keys table = set_server_setting w "license_keys" (array (map text_item keys)) table

abbrev pub outcome : Bool × List Setting → Added × List Setting
outcome (true, table) = (stacked, table)
outcome (false, table) = (failed, table)

-- `kid_of`: the kid that PyJWT reads in the header or the payload of a key, `none` if there is none
-- or the reading fails. `w`: the link of the last write.
unfoldable pub add_server_license_key :
    (String → Option String) → Links → Link → String → List Setting → Added × List Setting
unfolding get_server_license_keys any_has_kid set_server_setting
add_server_license_key kid_of k w license_key table =
    let key = strip license_key in
    let found = get_server_license_keys k table in
    if key == ""
    then (empty_key, table)
    else if is_present kid_of (kid_of key) found.0
    then (duplicate, found.1)
    else outcome (write_stack w (found.0 ++ key ∷ []) found.1)

unfoldable pub without_kid : (String → Option String) → String → List String → List String
without_kid kid_of kid [] = []
without_kid kid_of kid (key ∷ keys) =
    let rest = without_kid kid_of kid keys in if has_kid kid_of kid key then rest else key ∷ rest

-- `none`: the write raises
abbrev pub removed_or_raised : Bool × List Setting → Option Bool × List Setting
removed_or_raised (true, table) = (some true, table)
removed_or_raised (false, table) = (none, table)

unfoldable pub remove_server_license_key :
    (String → Option String) → Links → Link → String → List Setting → Option Bool × List Setting
unfolding get_server_license_keys any_has_kid without_kid set_server_setting
remove_server_license_key kid_of k w kid table =
    let found = get_server_license_keys k table in
    if any_has_kid kid_of kid found.0
    then removed_or_raised (write_stack w (without_kid kid_of kid found.0) found.1)
    else (some false, found.1)
