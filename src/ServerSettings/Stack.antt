-- ===== src/ServerSettings/Stack.antt =====
-- The stack of license keys after it was changed.
use pgvector_ragindexer.Base.{
  String, ◌≡◌, refl, sym, Bool, true, false, Option, none, some, List, [], ◌∷◌, ◌++◌, map, ◌==◌,
  string_eq, strip, strip-strip, ap, if◌then◌else◌, ◌∙◌, Bool-cases, inl, inr,
}
use pgvector_ragindexer.Sql.{Link, up, down}
use pgvector_ragindexer.ServerSettings.{
  Item, text_item, Value, array, object, text, other_json, Setting, get_server_setting, upsert,
  set_server_setting, or_else, shown_of, old_key_of, Links, promote, read_stack,
  get_server_license_keys, Added, stacked, empty_key, duplicate, is_present, write_stack, outcome,
  add_server_license_key,
}
use pgvector_ragindexer.ServerSettings.Table.{
  lookup-upsert_same, nonempty, IsStripped, stripped-IsStripped, IsStripped-append, stripped-texts,
  nonempty-append,
}

abbrev pub all_up : Links
all_up = record { read_keys = up; read_old = up; write_keys = up; delete_old = up }

-- The keys of the table.
abbrev pub keys_of : List Setting → List String
keys_of table = (get_server_license_keys all_up table).0

abbrev pub StrippedKey : Option String → Type 0
StrippedKey none = Unit
StrippedKey (some s) = strip s ≡ s

shown_of-StrippedKey : (o : Option Item) → StrippedKey (shown_of o)
shown_of-StrippedKey none = tt
shown_of-StrippedKey (some k) = elim (Bool-cases k.is_true) [
  | inl y ↦ rw y (strip-strip k.shown)
  | inr n ↦ rw n tt
]

pub old_key_of-StrippedKey : (v : Option Value) → StrippedKey (old_key_of v)
old_key_of-StrippedKey none = tt
old_key_of-StrippedKey (some (array ks)) = tt
old_key_of-StrippedKey (some (object token key)) = shown_of-StrippedKey (or_else token key)
old_key_of-StrippedKey (some (text s)) = elim (Bool-cases (strip s == "")) [
  | inl y ↦ rw y tt
  | inr n ↦ rw n (strip-strip s)
]
old_key_of-StrippedKey (some other_json) = tt

promote-IsStripped :
    (k : Links) (o : Option String) (table : List Setting)
    → StrippedKey o
    → IsStripped (promote k o table).0
promote-IsStripped k none table h = tt
promote-IsStripped k (some s) table h = elim (Bool-cases (s == "")) [
  | inl y ↦ rw y tt
  | inr n ↦ rw n (h, tt)
]

promoted-IsStripped :
    (k : Links) (table : List Setting)
    → IsStripped
        (promote k (old_key_of (get_server_setting k.read_old "license_key" table)) table).0
promoted-IsStripped k table =
    promote-IsStripped k _ table
      (old_key_of-StrippedKey (get_server_setting k.read_old "license_key" table))

read_stack-IsStripped :
    (k : Links) (v : Option Value) (table : List Setting) → IsStripped (read_stack k v table).0
read_stack-IsStripped k (some (array (x ∷ xs))) table = stripped-IsStripped (x ∷ xs)
read_stack-IsStripped k (some (array [])) table = promoted-IsStripped k table
read_stack-IsStripped k none table = promoted-IsStripped k table
read_stack-IsStripped k (some (object a b)) table = promoted-IsStripped k table
read_stack-IsStripped k (some (text s)) table = promoted-IsStripped k table
read_stack-IsStripped k (some other_json) table = promoted-IsStripped k table

pub get-IsStripped :
    (k : Links) (table : List Setting) → IsStripped (get_server_license_keys k table).0
unfolding get_server_license_keys
get-IsStripped k table =
    read_stack-IsStripped k (get_server_setting k.read_keys "license_keys" table) table

unfoldable pub written_table : List String → List Setting → List Setting
written_table keys table = upsert "license_keys" (array (map text_item keys)) table

pub keys_of-written :
    (x : String) (xs : List String) (table : List Setting)
    → IsStripped (x ∷ xs)
    → keys_of (written_table (x ∷ xs) table) ≡ nonempty (x ∷ xs)
unfolding get_server_license_keys get_server_setting written_table
keys_of-written x xs table h =
    ap (λ v. (read_stack all_up v (written_table (x ∷ xs) table)).0)
      (lookup-upsert_same "license_keys" (array (map text_item (x ∷ xs))) table)
    ∙ stripped-texts (x ∷ xs) h

keys_of-written_snoc :
    (xs : List String) (x : String) (table : List Setting)
    → IsStripped xs
    → strip x ≡ x
    → keys_of (written_table (xs ++ x ∷ []) table) ≡ nonempty (xs ++ x ∷ [])
keys_of-written_snoc [] x table h e = keys_of-written x [] table (e, tt)
keys_of-written_snoc (y ∷ ys) x table h e =
    keys_of-written y (ys ++ x ∷ []) table (IsStripped-append (y ∷ ys) (x ∷ []) h (e, tt))

promote-same :
    (k : Links) (o : Option String) (table : List Setting)
    → (promote k o table).0 ≡ (promote all_up o table).0
promote-same k none table = refl
promote-same k (some s) table = elim (Bool-cases (s == "")) [
  | inl y ↦ rw y refl
  | inr n ↦ rw n refl
]

promoted-same :
    (k : Links) (table : List Setting)
    → k.read_old ≡ up
    → (promote k (old_key_of (get_server_setting k.read_old "license_key" table)) table).0
      ≡ (promote all_up (old_key_of (get_server_setting up "license_key" table)) table).0
promoted-same k table h =
    promote-same k (old_key_of (get_server_setting k.read_old "license_key" table)) table
    ∙ ap (λ l. (promote all_up (old_key_of (get_server_setting l "license_key" table)) table).0) h

-- Reading depends on the links of the two reads only.
read_stack-same :
    (k : Links) (v : Option Value) (table : List Setting)
    → k.read_old ≡ up
    → (read_stack k v table).0 ≡ (read_stack all_up v table).0
read_stack-same k (some (array (x ∷ xs))) table h = refl
read_stack-same k (some (array [])) table h = promoted-same k table h
read_stack-same k none table h = promoted-same k table h
read_stack-same k (some (object a b)) table h = promoted-same k table h
read_stack-same k (some (text s)) table h = promoted-same k table h
read_stack-same k (some other_json) table h = promoted-same k table h

pub get-keys_of :
    (k : Links) (table : List Setting)
    → k.read_keys ≡ up
    → k.read_old ≡ up
    → (get_server_license_keys k table).0 ≡ keys_of table
unfolding get_server_license_keys
get-keys_of k table h i =
    read_stack-same k (get_server_setting k.read_keys "license_keys" table) table i
    ∙ ap (λ l. (read_stack all_up (get_server_setting l "license_keys" table) table).0) h

-- A key is stacked only if it is neither empty nor present.
chosen :
    (is_empty present : Bool) (t t' : List Setting) (o : Added × List Setting)
    {after : List Setting}
    → (if is_empty then (empty_key, t) else if present then (duplicate, t') else o)
      ≡ (stacked, after)
    → (is_empty ≡ false) × (o ≡ (stacked, after))
chosen true present t t' o h = cc
chosen false true t t' o h = cc
chosen false false t t' o h = (refl, h)

pub outcome-written :
    (w : Link) (keys : List String) (t : List Setting) {after : List Setting}
    → outcome (write_stack w keys t) ≡ (stacked, after)
    → written_table keys t ≡ after
unfolding set_server_setting written_table
outcome-written down keys t h = cc
outcome-written up keys t h = ap (λ (p : Added × List Setting). p.1) h

pub nonempty-key :
    (key : String) → (strip key == "") ≡ false → nonempty (strip key ∷ []) ≡ strip key ∷ []
unfolding nonempty
nonempty-key key n = rw n refl

-- Adding a key, if it is stacked, puts it after the keys that were read, whatever statements of the
-- read failed: the keys of the table are then those that were read, but the empty ones, and the
-- new one without the space around it.
pub add_server_license_key-stacks :
    (kid_of : String → Option String) (k : Links) (w : Link) (key : String) (table : List Setting)
    {after : List Setting}
    → add_server_license_key kid_of k w key table ≡ (stacked, after)
    → keys_of after ≡ nonempty (get_server_license_keys k table).0 ++ strip key ∷ []
unfolding add_server_license_key
add_server_license_key-stacks kid_of k w key table {after} h =
    let found = get_server_license_keys k table in
    let choice =
      chosen (strip key == "") (is_present kid_of (kid_of (strip key)) found.0) table found.1
        (outcome (write_stack w (found.0 ++ strip key ∷ []) found.1)) h in
    let written = outcome-written w (found.0 ++ strip key ∷ []) found.1 choice.1 in
    ap keys_of (sym written)
    ∙ (keys_of-written_snoc found.0 (strip key) found.1 (get-IsStripped k table) (strip-strip key)
        ∙ (nonempty-append found.0 (strip key ∷ [])
            ∙ ap (λ ks. nonempty found.0 ++ ks) (nonempty-key key choice.0)))
