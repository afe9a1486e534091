-- ===== src/Base/Text.antt =====
-- Python's `str.strip` and `sorted` on texts.
use Prim.Native.Nat.{ℕ}
use Prim.Native.Char.{Char, code}
use Prim.Native.String.{String, compare}
use mathlib.Core.Path.{◌≡◌, refl, ap, ◌∙◌}
use mathlib.Core.Logic.{inl, inr}
use mathlib.Core.Bool.{Bool, true, false, ◌&&◌, ◌||◌}
use mathlib.Core.List.{List, [], ◌∷◌}
use native.Mathlib.Omega.{arith}
use text.Mathlib.Text.{is_le}
use pgvector_ragindexer.Base.Equality.{◌==◌, contains, string_eq, nat_eq}
use pgvector_ragindexer.Base.Tests.{if◌then◌else◌, leb, Bool-cases}

between : ℕ → ℕ → ℕ → Bool
between lo hi c = leb lo c && leb c hi

-- str.isspace() of one character
is_space : Char → Bool
unfolding between
is_space ch =
    let c = code ch in
    between 9 13 c
    || between 28 32 c
    || between 0x85 0x85 c
    || between 0xa0 0xa0 c
    || between 0x1680 0x1680 c
    || between 0x2000 0x200a c
    || between 0x2028 0x2029 c
    || between 0x202f 0x202f c
    || between 0x205f 0x205f c
    || between 0x3000 0x3000 c

strip_left : String → String
strip_left String.[] = String.[]
strip_left (String.◌∷◌ c s) = let rest = strip_left s in if is_space c then rest else String.◌∷◌ c s

keep_right : Char → String → String
keep_right c String.[] = if is_space c then String.[] else String.◌∷◌ c String.[]
keep_right c (String.◌∷◌ d s) = String.◌∷◌ c (String.◌∷◌ d s)

strip_right : String → String
strip_right String.[] = String.[]
strip_right (String.◌∷◌ c s) = keep_right c (strip_right s)

unfoldable pub strip : String → String
unfolding is_space strip_left strip_right keep_right
strip s = strip_right (strip_left s)

strip_right-keep_right :
    (c : Char) (t : String) → strip_right t ≡ t → strip_right (keep_right c t) ≡ keep_right c t
unfolding strip_right keep_right
strip_right-keep_right c String.[] h = elim (Bool-cases (is_space c)) [
  | inl y ↦ rw y refl
  | inr n ↦ rw n (rw n refl)
]
strip_right-keep_right c (String.◌∷◌ d t) h = ap (keep_right c) h

strip_right-again : (s : String) → strip_right (strip_right s) ≡ strip_right s
unfolding strip_right
strip_right-again String.[] = refl
strip_right-again (String.◌∷◌ c s) = strip_right-keep_right c (strip_right s) (strip_right-again s)

-- stripped on the left: empty, or with a first character that is no space
abbrev Starts : String → Type 0
Starts String.[] = Unit
Starts (String.◌∷◌ c s) = is_space c ≡ false

strip_left-Starts : (s : String) → Starts (strip_left s)
unfolding strip_left
strip_left-Starts String.[] = tt
strip_left-Starts (String.◌∷◌ c s) = elim (Bool-cases (is_space c)) [
  | inl y ↦ rw y (strip_left-Starts s)
  | inr n ↦ rw n n
]

keep_right-Starts : (c : Char) (t : String) → is_space c ≡ false → Starts (keep_right c t)
unfolding keep_right
keep_right-Starts c String.[] h = rw h h
keep_right-Starts c (String.◌∷◌ d t) h = h

strip_right-Starts : (s : String) → Starts s → Starts (strip_right s)
unfolding strip_right
strip_right-Starts String.[] h = tt
strip_right-Starts (String.◌∷◌ c s) h = keep_right-Starts c (strip_right s) h

strip_left-Starts_same : (s : String) → Starts s → strip_left s ≡ s
unfolding strip_left
strip_left-Starts_same String.[] h = refl
strip_left-Starts_same (String.◌∷◌ c s) h = rw h refl

-- Stripping a stripped text changes nothing.
pub strip-strip : (s : String) → strip (strip s) ≡ strip s
unfolding strip
strip-strip s =
    ap strip_right (
      strip_left-Starts_same (strip_right (strip_left s))
        (strip_right-Starts (strip_left s) (strip_left-Starts s)))
    ∙ strip_right-again (strip_left s)

insert : String → List String → List String
insert a [] = a ∷ []
insert a (b ∷ bs) = if is_le (compare a b) then a ∷ b ∷ bs else b ∷ insert a bs

-- By code points, which is the order of the UTF-8 bytes.
unfoldable pub sorted : List String → List String
unfolding insert
sorted [] = []
sorted (a ∷ as') = insert a (sorted as')

contains-insert :
    (p a : String) (xs : List String) → contains (insert a xs) p ≡ (p == a || contains xs p)
unfolding insert
contains-insert p a [] = refl
contains-insert p a (b ∷ bs) = ground (arith, contains-insert p a bs)

-- Sorting keeps what a list contains.
pub contains-sorted : (p : String) (xs : List String) → contains (sorted xs) p ≡ contains xs p
unfolding sorted
contains-sorted p [] = refl
contains-sorted p (a ∷ xs) = rw (contains-insert p a (sorted xs), contains-sorted p xs)

-- a new word begins, or the first word of the list goes on
abbrev put_char : Char → Bool → List String → List String
put_char c true ws = String.◌∷◌ c String.[] ∷ ws
put_char c false [] = String.◌∷◌ c String.[] ∷ []
put_char c false (w ∷ ws) = String.◌∷◌ c w ∷ ws

abbrev starts_space : String → Bool
starts_space String.[] = true
starts_space (String.◌∷◌ c s) = is_space c

-- s.split()
unfoldable pub words : String → List String
unfolding is_space
words String.[] = []
words (String.◌∷◌ c s) =
    let rest = words s in if is_space c then rest else put_char c (starts_space s) rest
