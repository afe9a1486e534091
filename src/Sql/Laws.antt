-- ===== src/Sql/Laws.antt =====
-- Laws of the statements.
use pgvector_ragindexer.Base.{
  ◌+◌, ◌≡◌, refl, List, [], ◌∷◌, arith, length, true, false, Bool-cases, inl, inr, first, some,
  none, Option, All, if◌then◌else◌, subst, ◌++◌,
}
use pgvector_ragindexer.Sql.{Truth, is_true, select, delete, update, count}

module _ {ℓ} {Row : Type ℓ} (p : Row → Truth) where
  pub count-delete : (rs : List Row) → count p (delete p rs) ≡ 0
  unfolding count delete
  count-delete [] = refl
  count-delete (r ∷ rs) = ground (arith, count-delete rs)

  pub length-delete : (rs : List Row) → length (delete p rs) + count p rs ≡ length rs
  unfolding count delete
  length-delete [] = omega arith
  length-delete (r ∷ rs) = ground (arith, length-delete rs)

  pub length-select : (rs : List Row) → length (select p rs) ≡ count p rs
  unfolding count select
  length-select [] = refl
  length-select (r ∷ rs) = ground (arith, length-select rs)

module _ {ℓ} {Row : Type ℓ} (p q : Row → Truth) where
  -- Deleting rows that a query does not select does not change its answer.
  pub select-delete_apart :
      ((r : Row) → is_true (q r) ≡ true → is_true (p r) ≡ false)
      → (rs : List Row) → select p (delete q rs) ≡ select p rs
  unfolding select delete
  select-delete_apart apart [] = refl
  select-delete_apart apart (r ∷ rs) = elim (Bool-cases (is_true (q r))) [
    | inl y ↦ rw (y, apart r y) (select-delete_apart apart rs)
    | inr n ↦ rw (n, select-delete_apart apart rs)
  ]

  pub count-delete_apart :
      ((r : Row) → is_true (q r) ≡ true → is_true (p r) ≡ false)
      → (rs : List Row) → count p (delete q rs) ≡ count p rs
  unfolding count delete
  count-delete_apart apart [] = refl
  count-delete_apart apart (r ∷ rs) = elim (Bool-cases (is_true (q r))) [
    | inl y ↦ rw (y, apart r y) (count-delete_apart apart rs)
    | inr n ↦ rw (n, count-delete_apart apart rs)
  ]

module _ {ℓ} {Row : Type ℓ} (p : Row → Truth) where
  -- A statement whose condition selects nothing changes nothing.
  pub delete-none : (rs : List Row) → count p rs ≡ 0 → delete p rs ≡ rs
  unfolding count delete
  delete-none [] h = refl
  delete-none (r ∷ rs) h = ground (arith, delete-none rs)

  pub select-first-holds :
      (rs : List Row) {r : Row} → first (select p rs) ≡ some r → is_true (p r) ≡ true
  unfolding select
  select-first-holds [] h = cc
  select-first-holds (x ∷ xs) {r} h = elim (Bool-cases (is_true (p x))) [
    | inl y ↦ subst (λ w. is_true (p w) ≡ true) (ground arith) y
    | inr n ↦ select-first-holds xs (ground arith)
  ]

module _ {ℓ} {Row : Type ℓ} (p : Row → Truth) (f : Row → Row) where
  -- After an UPDATE that makes its own condition false no row meets the condition.
  pub count-update_clears :
      ((r : Row) → is_true (p (f r)) ≡ false) → (rs : List Row) → count p (update p f rs) ≡ 0
  unfolding count update
  count-update_clears clears [] = refl
  count-update_clears clears (r ∷ rs) = elim (Bool-cases (is_true (p r))) [
    | inl y ↦ rw (y, clears r) (count-update_clears clears rs)
    | inr n ↦ rw (n, n) (count-update_clears clears rs)
  ]

  pub update-none : (rs : List Row) → count p rs ≡ 0 → update p f rs ≡ rs
  unfolding count update
  update-none [] e = refl
  update-none (r ∷ rs) e = ground (arith, update-none rs)

module _ {ℓ} {Row : Type ℓ} (p : Row → Truth) where
  pub select-append : (rs ss : List Row) → select p (rs ++ ss) ≡ select p rs ++ select p ss
  unfolding select
  select-append [] ss = refl
  select-append (r ∷ rs) ss = ground (arith, select-append rs ss)

  pub delete-append : (rs ss : List Row) → delete p (rs ++ ss) ≡ delete p rs ++ delete p ss
  unfolding delete
  delete-append [] ss = refl
  delete-append (r ∷ rs) ss = ground (arith, delete-append rs ss)

  pub count-append : (rs ss : List Row) → count p (rs ++ ss) ≡ count p rs + count p ss
  unfolding count
  count-append [] ss = omega arith
  count-append (r ∷ rs) ss = ground (arith, count-append rs ss)

  pub select-delete : (rs : List Row) → select p (delete p rs) ≡ []
  unfolding select delete
  select-delete [] = refl
  select-delete (r ∷ rs) = ground (arith, select-delete rs)

  pub delete-delete : (rs : List Row) → delete p (delete p rs) ≡ delete p rs
  unfolding delete
  delete-delete [] = refl
  delete-delete (r ∷ rs) = ground (arith, delete-delete rs)

  pub select-none : (rs : List Row) → count p rs ≡ 0 → select p rs ≡ []
  unfolding count select
  select-none [] h = refl
  select-none (r ∷ rs) h = ground (arith, select-none rs)

module _ {ℓ} {Row : Type ℓ} (p : Row → Truth) (f : Row → Row) where
  abbrev pub map_row : Option Row → Option Row
  map_row none = none
  map_row (some r) = some (f r)

  module _ (keeps : (r : Row) → is_true (p r) ≡ true → is_true (p (f r)) ≡ true) where
    -- An UPDATE whose condition still holds afterwards is seen by the same query.
    pub first-update_self :
        (rs : List Row) → first (select p (update p f rs)) ≡ map_row (first (select p rs))
    unfolding select update
    first-update_self [] = refl
    first-update_self (r ∷ rs) = elim (Bool-cases (is_true (p r))) [
      | inl y ↦ rw (y, keeps r y)
      | inr n ↦ rw (n, n) (first-update_self rs)
    ]

    -- Two such UPDATEs in a row are one.
    pub update-update :
        (g h : Row → Row) (rs : List Row)
        → All (λ r. is_true (p r) ≡ true → g (f r) ≡ h r) rs
        → update p g (update p f rs) ≡ update p h rs
    unfolding update
    update-update g h [] e = refl
    update-update g h (r ∷ rs) e = elim (Bool-cases (is_true (p r))) [
      | inl y ↦ rw (y, keeps r y, e.0 y, update-update g h rs e.1)
      | inr n ↦ rw (n, n, update-update g h rs e.1)
    ]

module _ {ℓ κ} {Row : Type ℓ} (P : Row → Type κ) (p : Row → Truth) (f : Row → Row) where
  -- What holds of each row after its UPDATE holds of the table.
  pub All-update :
      (rs : List Row) → All (λ r. P (if is_true (p r) then f r else r)) rs → All P (update p f rs)
  unfolding update
  All-update [] h = tt
  All-update (r ∷ rs) h = (h.0, All-update rs h.1)
