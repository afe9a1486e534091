-- ===== src/ServerSettings/Removal.antt =====
-- A license key that is removed by its kid.
use pgvector_ragindexer.Base.{
  Option-cases, In, ◌↔◌, ◌&&◌, ◌==◌, not, subst, ==_sound, ==_refl, String, ◌≡◌, refl, sym, Bool,
  true, false, Option, none, some, List, [], ◌∷◌, string_eq, ap, ap₂, if◌then◌else◌, arith, ◌∙◌,
  Bool-cases, inl, inr,
}
use pgvector_ragindexer.Sql.{Link, up, down}
use pgvector_ragindexer.ServerSettings.{
  Value, array, object, text, other_json, Setting, lookup, get_server_setting, set_server_setting,
  old_key_of, Links, promote, read_stack, get_server_license_keys, has_kid, any_has_kid,
  write_stack, without_kid, removed_or_raised, remove_server_license_key,
}
use pgvector_ragindexer.ServerSettings.Table.{
  lookup-upsert_same, lookup-upsert_other, nonempty, IsStripped, nonempty-nonempty,
}
use pgvector_ragindexer.ServerSettings.Stack.{
  all_up, keys_of, get-IsStripped, written_table, keys_of-written, get-keys_of,
}
use pgvector_ragindexer.ServerSettings.Changes.{old_name, new_name, new_old, no_old}

promoted-kept :
    (k : Links) (r : Link) (table : List Setting)
    → lookup old_name table ≡ none
    → promote k (old_key_of (get_server_setting r old_name table)) table ≡ ([], table)
promoted-kept k r table o = ap (λ v. promote k (old_key_of v) table) (no_old r table o)

read_stack-kept :
    (k : Links) (v : Option Value) (table : List Setting)
    → lookup old_name table ≡ none
    → (read_stack k v table).1 ≡ table
read_stack-kept k (some (array (x ∷ xs))) table o = refl
read_stack-kept k (some (array [])) table o =
    ap (λ (p : List String × List Setting). p.1) (promoted-kept k k.read_old table o)
read_stack-kept k none table o =
    ap (λ (p : List String × List Setting). p.1) (promoted-kept k k.read_old table o)
read_stack-kept k (some (object a b)) table o =
    ap (λ (p : List String × List Setting). p.1) (promoted-kept k k.read_old table o)
read_stack-kept k (some (text s)) table o =
    ap (λ (p : List String × List Setting). p.1) (promoted-kept k k.read_old table o)
read_stack-kept k (some other_json) table o =
    ap (λ (p : List String × List Setting). p.1) (promoted-kept k k.read_old table o)

get-kept :
    (k : Links) (table : List Setting)
    → lookup old_name table ≡ none
    → (get_server_license_keys k table).1 ≡ table
unfolding get_server_license_keys
get-kept k table o = read_stack-kept k (get_server_setting k.read_keys new_name table) table o

keys_of-emptied :
    (table : List Setting) → lookup old_name table ≡ none → keys_of (written_table [] table) ≡ []
unfolding get_server_license_keys get_server_setting written_table
keys_of-emptied table o =
    ap (λ v. (read_stack all_up v (written_table [] table)).0)
      (lookup-upsert_same new_name (array []) table)
    ∙ ap (λ v. (promote all_up (old_key_of v) (written_table [] table)).0)
        (lookup-upsert_other old_name new_name (array []) table new_old ∙ o)

keys_of-written_all :
    (ks : List String) (table : List Setting)
    → lookup old_name table ≡ none
    → IsStripped ks
    → keys_of (written_table ks table) ≡ nonempty ks
unfolding nonempty
keys_of-written_all [] table o h = keys_of-emptied table o
keys_of-written_all (x ∷ xs) table o h = keys_of-written x xs table h

-- The keys for which a test is true.
unfoldable pub keep : (String → Bool) → List String → List String
keep p [] = []
keep p (k ∷ ks) = let rest = keep p ks in if p k then k ∷ rest else rest

abbrev pub is_kid : String → Option String → Bool
is_kid kid none = false
is_kid kid (some k) = k == kid

module _ (kid_of : String → Option String) (kid : String) where
  without_kid-IsStripped :
      (ks : List String) → IsStripped ks → IsStripped (without_kid kid_of kid ks)
  unfolding without_kid
  without_kid-IsStripped [] h = tt
  without_kid-IsStripped (k ∷ ks) h = elim (Bool-cases (has_kid kid_of kid k)) [
    | inl y ↦ rw y (without_kid-IsStripped ks h.1)
    | inr n ↦ rw n (h.0, without_kid-IsStripped ks h.1)
  ]

  without_kid-absent :
      (ks : List String) → any_has_kid kid_of kid ks ≡ false → without_kid kid_of kid ks ≡ ks
  unfolding without_kid any_has_kid
  without_kid-absent [] h = refl
  without_kid-absent (k ∷ ks) h = ground (arith, without_kid-absent ks)

  -- A key that is not empty and has another kid, or none.
  abbrev pub has_other_kid : String → Bool
  has_other_kid key = not (key == "") && not (is_kid kid (kid_of key))

  nonempty-without_kid :
      (ks : List String) → nonempty (without_kid kid_of kid ks) ≡ keep has_other_kid ks
  unfolding nonempty without_kid keep
  nonempty-without_kid [] = refl
  nonempty-without_kid (k ∷ ks) = elim (Option-cases (kid_of k)) [
    | inl e ↦ rw e (ground (arith, nonempty-without_kid ks))
    | inr (other, e) ↦ rw e (ground (arith, nonempty-without_kid ks))
  ]

  kid_iff :
      (o : Option String) → (elim o [ none ↦ false | some k ↦ k == kid ] ≡ true) ↔ (o ≡ some kid)
  kid_iff none = (λ h. cc, λ h. cc)
  kid_iff (some other) = (
    λ h. ap some (==_sound other kid h),
    λ h. let same : other ≡ kid = cc in subst (λ k. (other == k) ≡ true) same (==_refl other),
  )

  has_kid_iff : (key : String) → (has_kid kid_of kid key ≡ true) ↔ (kid_of key ≡ some kid)
  has_kid_iff key = kid_iff (kid_of key)

  any_iff :
      (ks : List String)
      → (any_has_kid kid_of kid ks ≡ true) ↔ ((key : String) × In key ks × (kid_of key ≡ some kid))
  unfolding any_has_kid
  any_iff [] = (λ h. cc, λ (key, i, e). absurd i)
  any_iff (k ∷ ks) =
      let rest = any_iff ks in
      let first = has_kid_iff k in
      elim (Bool-cases (has_kid kid_of kid k)) [
        | inl y ↦ rw y (λ _. (k, inl refl, first.0 y), λ _. refl)
        | inr n ↦ rw n (
          λ h. let (key, i, e) = rest.0 h in (key, inr i, e),
          λ (key, i, e). elim i [
            | inl same ↦
                let y = first.1 (subst (λ w. kid_of w ≡ some kid) (sym same) e) in ground arith
            | inr j ↦ rest.1 (key, j, e)
          ],
        )
      ]

  Removed : Bool → List Setting → List String → Type 0
  Removed b after ks =
      (b ≡ any_has_kid kid_of kid ks)
      × (nonempty (keys_of after) ≡ nonempty (without_kid kid_of kid ks))

  dropped :
      (w : Link) (ks : List String) (table : List Setting) {b : Bool} {after : List Setting}
      → removed_or_raised (write_stack w ks table) ≡ (some b, after)
      → (true ≡ b) × (written_table ks table ≡ after)
  unfolding set_server_setting written_table
  dropped down ks table {b} {after} e =
      let never : none ≡ some b = ap (λ (p : Option Bool × List Setting). p.0) e in cc
  dropped up ks table {b} {after} e =
      let same : some true ≡ some b = ap (λ (p : Option Bool × List Setting). p.0) e in
      (cc, ap (λ (p : Option Bool × List Setting). p.1) e)

  chosen :
      (c : Bool) (w : Link) (table : List Setting) {b : Bool} {after : List Setting}
      → any_has_kid kid_of kid (keys_of table) ≡ c
      → lookup old_name table ≡ none
      → (if c
          then removed_or_raised (write_stack w (without_kid kid_of kid (keys_of table)) table)
          else (some false, table))
        ≡ (some b, after)
      → Removed b after (keys_of table)
  unfolding Removed
  chosen true w table y o e =
      let left = without_kid kid_of kid (keys_of table) in
      let done = dropped w left table e in
      (
        sym done.0 ∙ sym y,
        ap (λ t. nonempty (keys_of t)) (sym done.1)
            ∙ (ap nonempty (
                  keys_of-written_all left table o
                    (without_kid-IsStripped (keys_of table) (get-IsStripped all_up table)))
                ∙ nonempty-nonempty left),
      )
  chosen false w table {b} {after} n o e =
      let same : some false ≡ some b = ap (λ (p : Option Bool × List Setting). p.0) e in
      let answer : b ≡ false = cc in
      let kept = ap (λ (p : Option Bool × List Setting). p.1) e in
      (
        answer ∙ sym n,
        ap (λ t. nonempty (keys_of t)) (sym kept)
            ∙ sym (ap nonempty (without_kid-absent (keys_of table) n)),
      )

  abbrev removal : Link → List String × List Setting → Option Bool × List Setting
  removal w found =
      if any_has_kid kid_of kid found.0
      then removed_or_raised (write_stack w (without_kid kid_of kid found.0) found.1)
      else (some false, found.1)

  answered_any :
      {b : Bool} (ks : List String)
      → b ≡ any_has_kid kid_of kid ks
      → (b ≡ true) ↔ ((key : String) × In key ks × (kid_of key ≡ some kid))
  answered_any ks e = (λ h. (any_iff ks).0 (sym e ∙ h), λ h. e ∙ (any_iff ks).1 h)

  removal-Removed :
      (k : Links) (w : Link) (table : List Setting) {b : Bool} {after : List Setting}
      → (k.read_keys ≡ up) × (k.read_old ≡ up)
      → lookup old_name table ≡ none
      → remove_server_license_key kid_of k w kid table ≡ (some b, after)
      → Removed b after (keys_of table)
  unfolding remove_server_license_key
  removal-Removed k w table {b} {after} u o e =
      let found : get_server_license_keys k table ≡ (keys_of table, table) =
        ap₂ (λ ks t. (ks, t)) (get-keys_of k table u.0 u.1) (get-kept k table o) in
      chosen (any_has_kid kid_of kid (keys_of table)) w table refl o
        (sym (ap (removal w) found) ∙ e)

  -- If the reads are answered, there is no old entry and the call returns an answer, it says whether
  -- some key of the table had this kid; and the keys of the table that are not empty are afterwards
  -- those of them that have another kid or none, in their order.
  pub remove_server_license_key-removes :
      (k : Links) (w : Link) (table : List Setting) {b : Bool} {after : List Setting}
      → (k.read_keys ≡ up) × (k.read_old ≡ up)
      → lookup "license_key" table ≡ none
      → remove_server_license_key kid_of k w kid table ≡ (some b, after)
      → ((b ≡ true) ↔ ((key : String) × In key (keys_of table) × (kid_of key ≡ some kid)))
        × (nonempty (keys_of after) ≡ keep has_other_kid (keys_of table))
  unfolding Removed
  remove_server_license_key-removes k w table {b} {after} u o e =
      let r = removal-Removed k w table {b = b} {after = after} u o e in
      (answered_any (keys_of table) r.0, r.1 ∙ nonempty-without_kid (keys_of table))
