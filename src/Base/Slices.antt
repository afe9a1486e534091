-- ===== src/Base/Slices.antt =====
-- Python's `startswith`, `endswith`, `rstrip`, `split` and `rsplit` on texts.
use Prim.Native.Nat.{ℕ, suc}
use Prim.Native.Char.{Char, code}
use Prim.Native.String.{String}
use mathlib.Core.Bool.{Bool, true, false, ◌||◌}
use mathlib.Core.Option.{Option, none, some}
use pgvector_ragindexer.Base.Equality.{◌==◌, string_eq, nat_eq}
use pgvector_ragindexer.Base.Tests.{if◌then◌else◌, leb}

abbrev pub same_char : Char → Char → Bool
same_char c d = code c == code d

-- s[len(p):] if s.startswith(p) else None
unfoldable pub after_prefix : String → String → Option String
after_prefix String.[] s = some s
after_prefix (String.◌∷◌ c p) String.[] = none
after_prefix (String.◌∷◌ c p) (String.◌∷◌ d s) =
    let rest = after_prefix p s in if same_char c d then rest else none

abbrev pub has_prefix : String → String → Bool
has_prefix p s = elim (after_prefix p s) [ none ↦ false | some r ↦ true ]

-- s.endswith(p)
unfoldable pub has_suffix : String → String → Bool
has_suffix p String.[] = p == String.[]
has_suffix p (String.◌∷◌ c s) = let rest = has_suffix p s in p == String.◌∷◌ c s || rest

unfoldable pub rstrip_onto : Char → Char → String → String
rstrip_onto c d String.[] = if same_char c d then String.[] else String.◌∷◌ d String.[]
rstrip_onto c d (String.◌∷◌ e s) = String.◌∷◌ d (String.◌∷◌ e s)

-- s.rstrip(c), for one character
unfoldable pub rstrip : Char → String → String
unfolding rstrip_onto
rstrip c String.[] = String.[]
rstrip c (String.◌∷◌ d s) = rstrip_onto c d (rstrip c s)

-- len(s.split(c))
unfoldable pub count_parts : Char → String → ℕ
count_parts c String.[] = 1
count_parts c (String.◌∷◌ d s) =
    let rest = count_parts c s in if same_char c d then suc rest else rest

abbrev pub has_char : Char → String → Bool
has_char c s = leb 2 (count_parts c s)

-- s.rsplit(c, 1)[-1]
unfoldable pub last_part : Char → String → String
last_part c String.[] = String.[]
last_part c (String.◌∷◌ d s) =
    let rest = last_part c s in
    if has_char c s then rest else if same_char c d then s else String.◌∷◌ d s

-- s + t
unfoldable pub append : String → String → String
append String.[] t = t
append (String.◌∷◌ c s) t = String.◌∷◌ c (append s t)
