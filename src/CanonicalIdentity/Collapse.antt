-- ===== src/CanonicalIdentity/Collapse.antt =====
-- The loop that collapses slashes ends with none doubled.
use Prim.Native.Char.{Char}
use pgvector_ragindexer.Paths.Under.{same_char-sym}
use pgvector_ragindexer.Base.{
  ◌∙◌, ℕ, zero, suc, ◌≤◌, ◌<◌, String, ◌≡◌, refl, true, false, ◌||◌, same_char, after_prefix,
  has_prefix, arith, Bool-cases, inl, inr,
}
use pgvector_ragindexer.CanonicalIdentity.{size, has_double, halve, collapse}

halve-le : (s : String) → (size (halve false s) ≤ size s) × (size (halve true s) ≤ suc (size s))
unfolding size halve
halve-le String.[] = (omega arith, omega arith)
halve-le (String.◌∷◌ c s) =
    let ih = halve-le s in (ground (arith, ih.0, ih.1), ground (arith, ih.0, ih.1))

only :
    (c : Char) (s : String)
    → same_char c "/" ≡ false
    → (has_prefix "/" (String.◌∷◌ c s) || has_double s) ≡ true
    → has_double s ≡ true
unfolding after_prefix
only c s n h =
    let other : same_char "/" c ≡ false = same_char-sym "/" c ∙ n in
    let start : has_prefix "/" (String.◌∷◌ c s) ≡ false = rw (has_prefix, other) refl in
    ground (arith, start, h)

halve-lt :
    (s : String)
    → (has_double s ≡ true → size (halve false s) < size s)
      × ((has_prefix "/" s || has_double s) ≡ true → size (halve true s) < suc (size s))
unfolding size halve has_double after_prefix
halve-lt String.[] = (λ h. cc, λ h. cc)
halve-lt (String.◌∷◌ c s) =
    let le = halve-le s in
    let ih = halve-lt s in
    elim (Bool-cases (same_char c "/")) [
      | inl y ↦ rw y (λ h. ih.1 h, λ h. omega (arith, le.0))
      | inr n ↦ rw n (λ h. omega (arith, ih.0 h), λ h. omega (arith, ih.0 (only c s n h)))
    ]

-- With at least as much fuel as the text has characters, the loop ends by its own test: no two slashes
-- follow each other.
pub collapse-fuel : (fuel : ℕ) (p : String) → size p ≤ fuel → has_double (collapse fuel p) ≡ false
unfolding collapse size has_double
collapse-fuel zero p h = empty p h
  where
    empty : (q : String) → size q ≤ 0 → has_double q ≡ false
    empty String.[] e = refl
    empty (String.◌∷◌ c q) e = ground arith
collapse-fuel (suc fuel) p h = elim (Bool-cases (has_double p)) [
  | inl y ↦
      let shorter = (halve-lt p).0 y in
      rw y (collapse-fuel fuel (halve false p) (omega (arith, shorter, h)))
  | inr n ↦ rw (n, n) refl
]
