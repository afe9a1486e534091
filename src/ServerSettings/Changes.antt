-- ===== src/ServerSettings/Changes.antt =====
-- The promotion of the old entry, a key that is removed, and a key that is added while the table
-- cannot be read.
use pgvector_ragindexer.Base.{
  String, ◌≡◌, refl, sym, Bool, false, Option, none, some, List, [], ◌∷◌, ◌++◌, ◌==◌, string_eq,
  strip, strip-strip, ap, if◌then◌else◌, arith, ◌∙◌, Bool-cases, inl, inr,
}
use pgvector_ragindexer.Sql.{Link, up, down, of_bool, delete}
use pgvector_ragindexer.ServerSettings.{
  text_item, Value, array, object, text, other_json, Setting, lookup, get_server_setting, upsert,
  set_server_setting, old_key_of, Links, forget_old, promote, read_stack, get_server_license_keys,
  Added, stacked, duplicate, any_has_kid, is_present, write_stack, outcome, add_server_license_key,
}
use pgvector_ragindexer.ServerSettings.Table.{
  lookup-upsert_same, lookup-delete_other, nonempty, stripped-texts,
}
use pgvector_ragindexer.ServerSettings.Stack.{
  all_up, keys_of, StrippedKey, old_key_of-StrippedKey, written_table, keys_of-written, get-keys_of,
  nonempty-key,
}

abbrev pub old_name : String
old_name = "license_key"

abbrev pub new_name : String
new_name = "license_keys"

old_new : (old_name == new_name) ≡ false
unfolding string_eq
old_new = refl

pub new_old : (new_name == old_name) ≡ false
unfolding string_eq
new_old = refl

abbrev single : String → Value
single s = array (text_item s ∷ [])

-- A table that keeps this one key has it, and an old entry is not looked at.
keys_of-single :
    (s : String) (table : List Setting)
    → strip s ≡ s
    → (s == "") ≡ false
    → lookup "license_keys" table ≡ some (single s)
    → keys_of table ≡ s ∷ []
unfolding get_server_license_keys get_server_setting nonempty
keys_of-single s table e n h =
    ap (λ v. (read_stack all_up v table).0) h ∙ (stripped-texts (s ∷ []) (e, tt) ∙ (rw n refl))

forget-keys_of :
    (w d : Link) (s : String) (table : List Setting)
    → strip s ≡ s
    → (s == "") ≡ false
    → keys_of table ≡ s ∷ []
    → keys_of (forget_old d (set_server_setting w new_name (single s) table)) ≡ s ∷ []
unfolding set_server_setting
forget-keys_of down down s table e n h = h
forget-keys_of down up s table e n h = h
forget-keys_of up down s table e n h =
    keys_of-single s (upsert new_name (single s) table) e n
      (lookup-upsert_same new_name (single s) table)
forget-keys_of up up s table e n h =
    keys_of-single s (delete (λ t. of_bool (t.key == old_name)) (upsert new_name (single s) table))
      e n
      (lookup-delete_other new_name old_name (upsert new_name (single s) table) old_new
        ∙ lookup-upsert_same new_name (single s) table)

else_branch :
    (b : Bool) (x : List String × List Setting) {y : List String × List Setting}
    → b ≡ false
    → (if b then x else y) ≡ y
else_branch b x n = rw n refl

promote-keys_of :
    (k : Links) (o : Option String) (table : List Setting)
    → StrippedKey o
    → keys_of table ≡ (promote all_up o table).0
    → keys_of (promote k o table).1 ≡ (promote all_up o table).0
promote-keys_of k none table e h = h
promote-keys_of k (some s) table e h = elim (Bool-cases (s == "")) [
  | inl y ↦ rw y (h ∙ rw y refl)
  | inr n ↦
      let kept =
        ap (λ (p : List String × List Setting). p.0) (else_branch (s == "") ([], table) n) in
      ap (λ (p : List String × List Setting). keys_of p.1) (else_branch (s == "") ([], table) n)
      ∙ (forget-keys_of k.write_keys k.delete_old s table e n (h ∙ kept) ∙ sym kept)
]

promoted-keys_of :
    (k : Links) (table : List Setting)
    → k.read_old ≡ up
    → keys_of table ≡ (promote all_up (old_key_of (get_server_setting up old_name table)) table).0
    → keys_of (promote k (old_key_of (get_server_setting k.read_old old_name table)) table).1
      ≡ keys_of table
promoted-keys_of k table i h =
    ap (λ l. keys_of (promote k (old_key_of (get_server_setting l old_name table)) table).1) i
    ∙ (promote-keys_of k (old_key_of (get_server_setting up old_name table)) table
          (old_key_of-StrippedKey (get_server_setting up old_name table)) h
        ∙ sym h)

read_stack-keys_of :
    (k : Links) (v : Option Value) (table : List Setting)
    → k.read_old ≡ up
    → keys_of table ≡ (read_stack all_up v table).0
    → keys_of (read_stack k v table).1 ≡ keys_of table
read_stack-keys_of k (some (array (x ∷ xs))) table i h = refl
read_stack-keys_of k (some (array [])) table i h = promoted-keys_of k table i h
read_stack-keys_of k none table i h = promoted-keys_of k table i h
read_stack-keys_of k (some (object a b)) table i h = promoted-keys_of k table i h
read_stack-keys_of k (some (text s)) table i h = promoted-keys_of k table i h
read_stack-keys_of k (some other_json) table i h = promoted-keys_of k table i h

-- A read whose two reads are answered leaves the keys as they are, whether or not the promotion of
-- the old entry is written and the old entry deleted: the next such read gives the same keys.
pub get_server_license_keys-again :
    (k l : Links) (table : List Setting)
    → (k.read_keys ≡ up) × (k.read_old ≡ up)
    → (l.read_keys ≡ up) × (l.read_old ≡ up)
    → (get_server_license_keys l (get_server_license_keys k table).1).0
      ≡ (get_server_license_keys k table).0
unfolding get_server_license_keys
get_server_license_keys-again k l table u v =
    get-keys_of l (get_server_license_keys k table).1 v.0 v.1
    ∙ (ap (λ r. keys_of (read_stack k (get_server_setting r new_name table) table).1) u.0
        ∙ (read_stack-keys_of k (get_server_setting up new_name table) table u.1 refl
            ∙ sym (get-keys_of k table u.0 u.1)))

pub no_old :
    (r : Link) (table : List Setting)
    → lookup old_name table ≡ none
    → get_server_setting r old_name table ≡ none
unfolding get_server_setting
no_old down table h = refl
no_old up table h = h

get-unread :
    (k : Links) (table : List Setting)
    → k.read_keys ≡ down
    → lookup old_name table ≡ none
    → get_server_license_keys k table ≡ ([], table)
unfolding get_server_license_keys get_server_setting
get-unread k table d o =
    ap (λ r. read_stack k (get_server_setting r new_name table) table) d
    ∙ ap (λ v. promote k (old_key_of v) table) (no_old k.read_old table o)

is_present-empty :
    (kid_of : String → Option String) (o : Option String) → is_present kid_of o [] ≡ false
unfolding any_has_kid
is_present-empty kid_of none = refl
is_present-empty kid_of (some kid) = ground arith

abbrev added : (String → Option String) → String → List String × List Setting → Added × List Setting
added kid_of key found =
    if is_present kid_of (kid_of key) found.0
    then (duplicate, found.1)
    else outcome (write_stack up (found.0 ++ key ∷ []) found.1)

added-empty :
    (kid_of : String → Option String) (key : String) (table : List Setting)
    → added kid_of key ([], table) ≡ (stacked, written_table (key ∷ []) table)
unfolding set_server_setting written_table
added-empty kid_of key table = rw (is_present-empty kid_of (kid_of key)) refl

-- If the read of the setting license_keys fails, there is no old entry and the write at the end is
-- answered, adding a key that is not blank succeeds and leaves it as the only key: all keys that the
-- table had are lost.
pub add_server_license_key-forgets :
    (kid_of : String → Option String) (k : Links) (key : String) (table : List Setting)
    → k.read_keys ≡ down
    → lookup "license_key" table ≡ none
    → (strip key == "") ≡ false
    → (after : List Setting) × (add_server_license_key kid_of k up key table ≡ (stacked, after))
      × (keys_of after ≡ strip key ∷ [])
unfolding add_server_license_key
add_server_license_key-forgets kid_of k key table d o n = (
  written_table (strip key ∷ []) table,
  rw n (
      ap (added kid_of (strip key)) (get-unread k table d o)
      ∙ added-empty kid_of (strip key) table),
  keys_of-written (strip key) [] table (strip-strip key, tt) ∙ nonempty-key key n,
)
