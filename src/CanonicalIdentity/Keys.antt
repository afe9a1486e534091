-- ===== src/CanonicalIdentity/Keys.antt =====
-- A key that was built is read back.
use Prim.Native.Char.{Char}
use pgvector_ragindexer.Base.{
  String, ◌≡◌, refl, sym, subst, true, false, some, ◌==◌, ==_sound, contains, string_eq, same_char,
  append, arith, Bool-cases, inl, inr, ℕ_discrete,
}
use pgvector_ragindexer.Paths.Under.{without}
use pgvector_ragindexer.CanonicalIdentity.{
  scopes, split_first, normalize_relative, build_canonical_key, resolve_canonical_key,
}

split_first-append :
    (a t : String) → without ":" a ≡ true → split_first ":" (append a (append ":" t)) ≡ some (a, t)
unfolding split_first append without ℕ_discrete
split_first-append String.[] t w = refl
split_first-append (String.◌∷◌ d a) t w =
    let ih = split_first-append a t (ground arith) in
    let other : same_char ":" d ≡ false = ground arith in rw (other, ih) refl

scope-without : (scope : String) → contains scopes scope ≡ true → without ":" scope ≡ true
unfolding without ℕ_discrete
scope-without scope h = elim (Bool-cases (scope == "client")) [
  | inl y ↦ subst (λ s. without ":" s ≡ true) (sym (==_sound scope "client" y)) refl
  | inr n ↦
      let y : (scope == "server") ≡ true = ground arith in
      subst (λ s. without ":" s ≡ true) (sym (==_sound scope "server" y)) refl
]

not_empty : (c : Char) (s : String) → (String.◌∷◌ c s == "") ≡ false
not_empty c s = elim (Bool-cases (String.◌∷◌ c s == "")) [
  | inl y ↦ let same = ==_sound (String.◌∷◌ c s) "" y in cc
  | inr n ↦ n
]

never_empty : (a t : String) → (append a (append ":" t) == "") ≡ false
unfolding append
never_empty String.[] t = not_empty ":" t
never_empty (String.◌∷◌ c a) t = not_empty c _

-- For a scope that is 'client' or 'server' and an identity without a colon, reading the key that was
-- built gives the scope, the identity and the normalized relative path, colons in it included.
pub resolve-build :
    (scope identity path : String)
    → contains scopes scope ≡ true
    → without ":" identity ≡ true
    → resolve_canonical_key (build_canonical_key scope identity path)
      ≡ some
          (record { scope = scope; identity = identity; relative_path = normalize_relative path })
unfolding resolve_canonical_key build_canonical_key
resolve-build scope identity path h w =
    rw
      (
        never_empty scope (append identity (append ":" (normalize_relative path))),
        split_first-append scope (append identity (append ":" (normalize_relative path)))
            (scope-without scope h),
        split_first-append identity (normalize_relative path) w,
        h,
      )
      refl
