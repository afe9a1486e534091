-- ===== src/ServerSettings/Examples.antt =====
-- A table with license keys.
use pgvector_ragindexer.Base.{
  Bool, In, ◌↔◌, String, ◌≡◌, refl, true, false, Option, none, some, List, [], ◌∷◌, ◌++◌, ◌==◌,
  string_eq, strip,
}
use pgvector_ragindexer.Sql.{up, down}
use pgvector_ragindexer.ServerSettings.{
  text_item, array, text, Setting, lookup, upsert, get_server_setting, set_server_setting, Links,
  get_server_license_keys, stacked, any_has_kid, add_server_license_key, without_kid,
  remove_server_license_key,
}
use pgvector_ragindexer.ServerSettings.Table.{nonempty}
use pgvector_ragindexer.ServerSettings.Stack.{all_up, keys_of, add_server_license_key-stacks}
use pgvector_ragindexer.ServerSettings.Changes.{
  get_server_license_keys-again, add_server_license_key-forgets,
}
use pgvector_ragindexer.ServerSettings.Removal.{
  keep, has_other_kid, remove_server_license_key-removes,
}

abbrev no_read : Links
no_read = record { read_keys = down; read_old = up; write_keys = up; delete_old = up }

abbrev no_delete : Links
no_delete = record { read_keys = up; read_old = up; write_keys = up; delete_old = down }

abbrev two_keys : List Setting
two_keys =
    record { key = "license_keys"; value = array (text_item "one" ∷ text_item "two" ∷ []) } ∷ []

abbrev old_entry : List Setting
old_entry = record { key = "license_key"; value = text "old" } ∷ []

-- the kid of a key is the key
abbrev kid_of : String → Option String
kid_of s = some s

abbrev three_keys : List Setting
three_keys =
    record {
      key = "license_keys";
      value = array (text_item "one" ∷ text_item "two" ∷ text_item "three" ∷ []);
    }
    ∷ []

adds_three : add_server_license_key kid_of all_up up " three" two_keys ≡ (stacked, three_keys)
unfolding add_server_license_key get_server_license_keys get_server_setting set_server_setting
    lookup upsert any_has_kid strip string_eq
adds_three = refl

add_server_license_key-stacks_example :
    keys_of three_keys ≡ nonempty (get_server_license_keys all_up two_keys).0 ++ strip " three" ∷ []
add_server_license_key-stacks_example =
    add_server_license_key-stacks kid_of all_up up " three" two_keys adds_three

get_server_license_keys-again_example :
    (get_server_license_keys all_up (get_server_license_keys no_delete old_entry).1).0
    ≡ (get_server_license_keys no_delete old_entry).0
get_server_license_keys-again_example =
    get_server_license_keys-again no_delete all_up old_entry (refl, refl) (refl, refl)

reads_old : (get_server_license_keys no_delete old_entry).0 ≡ "old" ∷ []
unfolding get_server_license_keys get_server_setting set_server_setting lookup upsert strip
    string_eq
reads_old = refl

abbrev old_name : String
old_name = "license_key"

no_old : lookup old_name two_keys ≡ none
unfolding lookup string_eq
no_old = refl

not_blank : (strip "three" == "") ≡ false
unfolding strip string_eq
not_blank = refl

add_server_license_key-forgets_example :
    (after : List Setting) × (add_server_license_key kid_of no_read up "three" two_keys
      ≡ (stacked, after))
    × (keys_of after ≡ strip "three" ∷ [])
add_server_license_key-forgets_example =
    add_server_license_key-forgets kid_of no_read "three" two_keys refl no_old not_blank

abbrev second_key : List Setting
second_key = record { key = "license_keys"; value = array (text_item "two" ∷ []) } ∷ []

abbrev one : String
one = "one"

removes_one : remove_server_license_key kid_of all_up up "one" two_keys ≡ (some true, second_key)
unfolding remove_server_license_key get_server_license_keys get_server_setting set_server_setting
    lookup upsert any_has_kid without_kid strip string_eq
removes_one = refl

remove_server_license_key-removes_example :
    (◌≡◌ {A = Bool} true true
      ↔ ((key : String) × In key (keys_of two_keys) × (kid_of key ≡ some one)))
    × (nonempty (keys_of second_key) ≡ keep (has_other_kid kid_of one) (keys_of two_keys))
remove_server_license_key-removes_example =
    remove_server_license_key-removes kid_of one all_up up two_keys (refl, refl) no_old removes_one
