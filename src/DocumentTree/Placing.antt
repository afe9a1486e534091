-- ===== src/DocumentTree/Placing.antt =====
-- Prefixes of paths, and the first part of a path.
use Prim.Native.Char.{Char, code}
use text.Mathlib.TextEquality.{Char-path}
use pgvector_ragindexer.Base.{
  String, ◌≡◌, refl, sym, ap, ap₂, ◌∙◌, subst, Bool, true, false, ◌&&◌, Option, none, some, ◌==◌,
  ==_sound, ==_refl, string_eq, same_char, append, after_prefix, has_prefix, arith, Bool-cases, inl,
  inr,
}
use pgvector_ragindexer.Paths.Under.{without, same_char-sym}
use pgvector_ragindexer.CanonicalIdentity.{split_first}

pub append_assoc : (a b c : String) → append (append a b) c ≡ append a (append b c)
unfolding append
append_assoc String.[] b c = refl
append_assoc (String.◌∷◌ d a) b c = ap (λ t. String.◌∷◌ d t) (append_assoc a b c)

pub has_prefix-append :
    (p q s : String)
    → has_prefix (append p q) s
      ≡ elim (after_prefix p s) [ none ↦ false | some rest ↦ has_prefix q rest ]
unfolding append after_prefix
has_prefix-append String.[] q s = refl
has_prefix-append (String.◌∷◌ c p) q String.[] = refl
has_prefix-append (String.◌∷◌ c p) q (String.◌∷◌ d s) = ground (arith, has_prefix-append p q s)

same_char_sound : (c d : Char) → same_char c d ≡ true → c ≡ d
same_char_sound c d h = Char-path c d (ground arith)

head_same : (c d : Char) (s t : String) → String.◌∷◌ c s ≡ String.◌∷◌ d t → same_char c d ≡ true
head_same c d s t e = let h : c ≡ d = cc in let same = ap code h in ground arith

cons_== :
    (c d : Char) (s t : String) → (String.◌∷◌ c s == String.◌∷◌ d t) ≡ (same_char c d && s == t)
cons_== c d s t = elim (Bool-cases (String.◌∷◌ c s == String.◌∷◌ d t)) [
  | inl y ↦
      let e = ==_sound (String.◌∷◌ c s) (String.◌∷◌ d t) y in
      let tail : s ≡ t = cc in
      let same : (s == t) ≡ true = subst (λ u. (s == u) ≡ true) tail (==_refl s) in
      y ∙ sym (ap₂ (λ a b. a && b) (head_same c d s t e) same)
  | inr n ↦ elim (Bool-cases (same_char c d)) [
    | inl y ↦ elim (Bool-cases (s == t)) [
      | inl z ↦
          let h = same_char_sound c d y in
          let tail = ==_sound s t z in
          let e : String.◌∷◌ c s ≡ String.◌∷◌ d t = cc in
          let both = subst (λ u. (String.◌∷◌ c s == u) ≡ true) e (==_refl (String.◌∷◌ c s)) in
          ground arith
      | inr z ↦ n ∙ sym (ap₂ (λ a b. a && b) y z)
    ]
    | inr z ↦ n ∙ sym (ap (λ a. a && s == t) z)
  ]
]

has_prefix-cons :
    (c d : Char) (p s : String)
    → has_prefix (String.◌∷◌ c p) (String.◌∷◌ d s) ≡ (same_char c d && has_prefix p s)
unfolding after_prefix
has_prefix-cons c d p s = ground arith

-- the first part of the path is this name, and a path goes on below it
abbrev pub starts_with_part : String → Option (String × String) → Bool
starts_with_part name none = false
starts_with_part name (some (part, rest)) = part == name

starts_with_part-cons :
    (c d : Char) (n : String) (o : Option (String × String))
    → starts_with_part
        (String.◌∷◌ c n)
        (elim o [ none ↦ none | some (a, b) ↦ some (String.◌∷◌ d a, b) ])
      ≡ (same_char c d && starts_with_part n o)
starts_with_part-cons c d n none = ground arith
starts_with_part-cons c d n (some (a, b)) =
    cons_== d c a n ∙ ap (λ x. x && a == n) (same_char-sym d c)

empty_cons' : (d : Char) (s : String) → ("" == String.◌∷◌ d s) ≡ false
empty_cons' d s = elim (Bool-cases ("" == String.◌∷◌ d s)) [
  | inl y ↦ let same = ==_sound "" (String.◌∷◌ d s) y in cc
  | inr n ↦ n
]

pub empty_cons : (d : Char) (s : String) → (String.◌∷◌ d s == "") ≡ false
empty_cons d s = elim (Bool-cases (String.◌∷◌ d s == "")) [
  | inl y ↦ let same = ==_sound (String.◌∷◌ d s) "" y in cc
  | inr n ↦ n
]

starts_with_part-empty :
    (d : Char) (o : Option (String × String))
    → starts_with_part "" (elim o [ none ↦ none | some (a, b) ↦ some (String.◌∷◌ d a, b) ]) ≡ false
starts_with_part-empty d none = refl
starts_with_part-empty d (some (a, b)) = empty_cons d a

pub split_first-has_prefix :
    (name s : String)
    → without "/" name ≡ true
    → starts_with_part name (split_first "/" s) ≡ has_prefix (append name "/") s
unfolding split_first append after_prefix without
split_first-has_prefix String.[] String.[] w = refl
split_first-has_prefix (String.◌∷◌ c n) String.[] w = refl
split_first-has_prefix String.[] (String.◌∷◌ d s) w = elim (Bool-cases (same_char "/" d)) [
  | inl y ↦ rw y (==_refl String.[] ∙ sym (has_prefix-cons "/" d "" s ∙ ap (λ a. a && true) y))
  | inr z ↦ rw z (
      starts_with_part-empty d (split_first "/" s)
      ∙ sym (has_prefix-cons "/" d "" s ∙ ap (λ a. a && true) z))
]
split_first-has_prefix (String.◌∷◌ c n) (String.◌∷◌ d s) w =
    let other : same_char "/" c ≡ false = ground arith in
    let ih = split_first-has_prefix n s (ground arith) in
    let cons = has_prefix-cons c d (append n "/") s in
    elim (Bool-cases (same_char "/" d)) [
      | inl y ↦
          let differ : same_char c d ≡ false = ground arith in
          rw y (empty_cons' c n ∙ sym (cons ∙ ap (λ a. a && has_prefix (append n "/") s) differ))
      | inr z ↦ rw z (
          starts_with_part-cons c d n (split_first "/" s)
          ∙ (ap (λ a. same_char c d && a) ih ∙ sym cons))
    ]
