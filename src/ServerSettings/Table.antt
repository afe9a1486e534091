-- ===== src/ServerSettings/Table.antt =====
-- Reading the table server_settings after it was changed.
use pgvector_ragindexer.Base.{
  String, ◌≡◌, refl, false, some, List, [], ◌∷◌, ◌++◌, map, ◌==◌, ==_refl, string_eq, strip,
  strip-strip, if◌then◌else◌, arith, Bool-cases, inl, inr,
}
use pgvector_ragindexer.Sql.{of_bool, delete}
use pgvector_ragindexer.ServerSettings.{Item, text_item, Value, Setting, lookup, upsert, stripped}

pub lookup-upsert_same :
    (key : String) (value : Value) (table : List Setting)
    → lookup key (upsert key value table) ≡ some value
unfolding lookup upsert
lookup-upsert_same key value [] = let same = ==_refl key in ground arith
lookup-upsert_same key value (s ∷ ss) = ground (arith, lookup-upsert_same key value ss)

pub lookup-upsert_other :
    (key other : String) (value : Value) (table : List Setting)
    → (other == key) ≡ false
    → lookup key (upsert other value table) ≡ lookup key table
unfolding lookup upsert
lookup-upsert_other key other value [] h = ground arith
lookup-upsert_other key other value (s ∷ ss) h =
    ground (arith, lookup-upsert_other key other value ss h)

pub lookup-delete_other :
    (key other : String) (table : List Setting)
    → (other == key) ≡ false
    → lookup key (delete (λ s. of_bool (s.key == other)) table) ≡ lookup key table
unfolding lookup delete
lookup-delete_other key other [] h = refl
lookup-delete_other key other (s ∷ ss) h = ground (arith, lookup-delete_other key other ss h)

-- The keys but the empty ones.
unfoldable pub nonempty : List String → List String
nonempty [] = []
nonempty (k ∷ ks) = let rest = nonempty ks in if k == "" then rest else k ∷ rest

abbrev pub IsStripped : List String → Type 0
IsStripped [] = Unit
IsStripped (k ∷ ks) = (strip k ≡ k) × IsStripped ks

pub stripped-IsStripped : (ks : List Item) → IsStripped (stripped ks)
stripped-IsStripped [] = tt
stripped-IsStripped (k ∷ ks) = elim (Bool-cases k.is_true) [
  | inl y ↦ rw y (strip-strip k.shown, stripped-IsStripped ks)
  | inr n ↦ rw n (stripped-IsStripped ks)
]

pub IsStripped-append :
    (xs ys : List String) → IsStripped xs → IsStripped ys → IsStripped (xs ++ ys)
IsStripped-append [] ys h i = i
IsStripped-append (x ∷ xs) ys h i = (h.0, IsStripped-append xs ys h.1 i)

pub stripped-texts : (ks : List String) → IsStripped ks → stripped (map text_item ks) ≡ nonempty ks
unfolding nonempty
stripped-texts [] h = refl
stripped-texts (k ∷ ks) h = elim (Bool-cases (k == "")) [
  | inl y ↦ rw y (stripped-texts ks h.1)
  | inr n ↦ rw (n, h.0, stripped-texts ks h.1) refl
]

pub nonempty-append : (xs ys : List String) → nonempty (xs ++ ys) ≡ nonempty xs ++ nonempty ys
unfolding nonempty
nonempty-append [] ys = refl
nonempty-append (x ∷ xs) ys = ground (arith, nonempty-append xs ys)

pub nonempty-nonempty : (xs : List String) → nonempty (nonempty xs) ≡ nonempty xs
unfolding nonempty
nonempty-nonempty [] = refl
nonempty-nonempty (x ∷ xs) = ground (arith, nonempty-nonempty xs)
