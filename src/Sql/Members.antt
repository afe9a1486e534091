-- ===== src/Sql/Members.antt =====
-- Which rows the statements find, keep and delete.
use pgvector_ragindexer.Base.{
  Bool, ◌≡◌, ◌≢◌, ◌↔◌, inl, inr, refl, sym, subst, List, [], ◌∷◌, arith, true, false, Bool-cases,
  first, some, In,
}
use pgvector_ragindexer.Sql.{Truth, is_true, select, delete, count}

not_both : {b : Bool} → b ≡ true → b ≡ false → ⊥
not_both t f = cc

module _ {Row : Type 0} (p : Row → Truth) where
  -- A row that a query finds first is in the table and meets the condition.
  pub first-In :
      (rs : List Row) {r : Row} → first (select p rs) ≡ some r → In r rs × (is_true (p r) ≡ true)
  unfolding select
  first-In [] h = cc
  first-In (x ∷ xs) {r} h = elim (Bool-cases (is_true (p x))) [
    | inl y ↦
        let same : x ≡ r = ground arith in (inl same, subst (λ w. is_true (p w) ≡ true) same y)
    | inr n ↦ let rest = first-In xs {r = r} (ground arith) in (inr rest.0, rest.1)
  ]

  -- The only row that meets a condition is the one that the query finds.
  pub In-first :
      (rs : List Row) (r : Row)
      → In r rs
      → is_true (p r) ≡ true
      → ((x : Row) → In x rs → is_true (p x) ≡ true → x ≡ r)
      → first (select p rs) ≡ some r
  unfolding select
  In-first [] r i t u = absurd i
  In-first (x ∷ xs) r (inl same) t u =
      rw (subst (λ w. is_true (p w) ≡ true) (sym same) t) (let e = same in cc)
  In-first (x ∷ xs) r (inr i) t u = elim (Bool-cases (is_true (p x))) [
    | inl y ↦ let same = u x (inl refl) y in rw y cc
    | inr n ↦ rw n (In-first xs r i t (λ z j. u z (inr j)))
  ]

  pub In-count : (rs : List Row) (r : Row) → In r rs → is_true (p r) ≡ true → count p rs ≢ 0
  unfolding count
  In-count [] r i t = absurd i
  In-count (x ∷ xs) r (inl same) t =
      let y = subst (λ w. is_true (p w) ≡ true) (sym same) t in λ e. ground arith
  In-count (x ∷ xs) r (inr i) t = let rest = In-count xs r i t in λ e. ground arith

  -- The rows that a DELETE leaves are those that do not meet its condition.
  pub In-delete :
      (rs : List Row) (r : Row) → In r (delete p rs) ↔ (In r rs × (is_true (p r) ≡ false))
  unfolding delete
  In-delete [] r = (λ i. absurd i, λ i. absurd i.0)
  In-delete (x ∷ xs) r =
      let rest = In-delete xs r in
      elim (Bool-cases (is_true (p x))) [
        | inl y ↦ rw y (
          λ i. let k = rest.0 i in (inr k.0, k.1),
          λ (i, n). elim i [
            | inl same ↦ absurd (not_both (subst (λ w. is_true (p w) ≡ true) same y) n)
            | inr j ↦ rest.1 (j, n)
          ],
        )
        | inr f ↦ rw f (
          λ i. elim i [
            | inl same ↦ (inl same, subst (λ w. is_true (p w) ≡ false) same f)
            | inr j ↦ let k = rest.0 j in (inr k.0, k.1)
          ],
          λ (i, n). elim i [ inl same ↦ inl same | inr j ↦ inr (rest.1 (j, n)) ],
        )
      ]
