-- ===== src/Paths/Under.antt =====
-- The LIKE pattern of a folder and is_path_under say the same.
use Prim.Native.Char.{Char}
use pgvector_ragindexer.Base.{
  String, ◌≡◌, refl, ap, ◌∙◌, Bool, true, false, not, ◌&&◌, some, List, [], ◌∷◌, ◌++◌, ◌==◌,
  string_eq, same_char, append, after_prefix, has_prefix, rstrip, rstrip_onto, arith, Bool-cases,
  ℕ_discrete, inl, inr,
}
use pgvector_ragindexer.Paths.{
  replace, put_before, normalize_path, folder_prefix_like_pattern, is_path_under, Token, any,
  exactly, tokens, any_suffix, matches, like,
}

-- No character of the text is `c`.
unfoldable pub without : Char → String → Bool
without c String.[] = true
without c (String.◌∷◌ d s) = not (same_char c d) && without c s

without-replace :
    (c d : Char) (s : String) → same_char c d ≡ false → without c (replace c d s) ≡ true
unfolding without replace
without-replace c d String.[] h = refl
without-replace c d (String.◌∷◌ e s) h = ground (arith, without-replace c d s h)

without-replace_other :
    (c d e : Char) (s : String)
    → same_char c d ≡ false
    → without c s ≡ true
    → without c (replace e d s) ≡ true
unfolding without replace
without-replace_other c d e String.[] h w = refl
without-replace_other c d e (String.◌∷◌ f s) h w = ground (arith, without-replace_other c d e s h)

any_suffix-true : (s : String) → any_suffix (matches []) s ≡ true
unfolding any_suffix matches
any_suffix-true String.[] = refl
any_suffix-true (String.◌∷◌ c s) = any_suffix-true s

exactly_all : String → List Token
exactly_all String.[] = []
exactly_all (String.◌∷◌ c s) = exactly c ∷ exactly_all s

matches-prefix : (n s : String) → matches (exactly_all n ++ (any ∷ [])) s ≡ has_prefix n s
unfolding matches exactly_all after_prefix
matches-prefix String.[] s = any_suffix-true s
matches-prefix (String.◌∷◌ c n) String.[] = refl
matches-prefix (String.◌∷◌ c n) (String.◌∷◌ d s) = ground (arith, matches-prefix n s)

slash_percent : tokens false "/%" ≡ exactly "/" ∷ any ∷ []
unfolding tokens ℕ_discrete
slash_percent = refl

underscore_percent :
    (same_char "_" "%" ≡ false) × ((same_char "_" "\\" ≡ false) × (same_char "%" "\\" ≡ false))
unfolding ℕ_discrete
underscore_percent = (refl, (refl, refl))

pub same_char-sym : (c d : Char) → same_char c d ≡ same_char d c
same_char-sym c d = ground arith

percent_no_underscore : (c : Char) → same_char "%" c ≡ true → same_char "_" c ≡ false
percent_no_underscore c h = ground arith

backslash_itself : same_char "\\" "\\" ≡ true
unfolding ℕ_discrete
backslash_itself = refl

tokens-escaped :
    (n : String)
    → without "\\" n ≡ true
    → tokens false (append (put_before "_" "\\" (put_before "%" "\\" n)) "/%")
      ≡ exactly_all (append n "/") ++ (any ∷ [])
unfolding tokens put_before without exactly_all append
tokens-escaped String.[] w = slash_percent
tokens-escaped (String.◌∷◌ c n) w =
    let ih = tokens-escaped n (ground arith) in
    let plain : same_char c "\\" ≡ false = same_char-sym c "\\" ∙ ground arith in
    elim (Bool-cases (same_char "%" c)) [
      | inl y ↦ rw y (
          rw (underscore_percent.1.0, percent_no_underscore c y, backslash_itself)
            (ap (λ ts. exactly c ∷ ts) ih))
      | inr z ↦ elim (Bool-cases (same_char "_" c)) [
        | inl y ↦ rw (z, y) (rw (backslash_itself) (ap (λ ts. exactly c ∷ ts) ih))
        | inr x ↦
            rw (z, x, plain, same_char-sym c "%", same_char-sym c "_", z, x)
              (ap (λ ts. exactly c ∷ ts) ih)
      ]
    ]

without-rstrip : (c d : Char) (s : String) → without c s ≡ true → without c (rstrip d s) ≡ true
unfolding without rstrip rstrip_onto
without-rstrip c d String.[] w = refl
without-rstrip c d (String.◌∷◌ e s) w =
    keep (rstrip d s) (ground arith) (without-rstrip c d s (ground arith))
  where
    keep :
        (t : String)
        → same_char c e ≡ false
        → without c t ≡ true
        → without c (rstrip_onto d e t) ≡ true
    keep String.[] h u = elim (Bool-cases (same_char d e)) [
      | inl y ↦ rw y refl
      | inr n ↦ rw (n, h) refl
    ]
    keep (String.◌∷◌ f t) h u = rw h u

-- A normalized path has no backslash.
without-normalize : (path : String) → without "\\" (normalize_path path) ≡ true
unfolding normalize_path ℕ_discrete
without-normalize path = without-replace_other "\\" "/" "\r" _ refl (
    without-replace_other "\\" "/" "\n" _ refl
      (without-replace_other "\\" "/" "\t" _ refl (without-replace "\\" "/" path refl)))

-- For a document whose normalized path does not end in a slash, the pattern of a folder matches
-- the path that SQL normalizes exactly if the document is under that folder: percent signs and
-- underscores in the folder's name are no wildcards, and a longer name with the same beginning does
-- not match.
pub like-is_path_under :
    (uri prefix : String) {pattern : String}
    → rstrip "/" (normalize_path uri) ≡ normalize_path uri
    → folder_prefix_like_pattern prefix ≡ some pattern
    → like (normalize_path uri) pattern ≡ is_path_under uri prefix
unfolding folder_prefix_like_pattern is_path_under
like-is_path_under uri prefix {pattern} e h =
    let norm = rstrip "/" (normalize_path prefix) in
    let clean = without-rstrip "\\" "/" (normalize_path prefix) (without-normalize prefix) in
    elim (Bool-cases (norm == "")) [
      | inl y ↦ ground arith
      | inr n ↦
          let same : append (put_before "_" "\\" (put_before "%" "\\" norm)) "/%" ≡ pattern =
            ground arith in
          rw (← same, n, e, tokens-escaped norm clean)
            (matches-prefix (append norm "/") (normalize_path uri))
    ]
