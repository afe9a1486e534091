-- ===== src/ApiKeys/Grace.antt =====
-- How long a revoked or rotated key is still accepted.
use Prim.Native.String.{◌++◌ as ◌<>◌}
use pgvector_ragindexer.Base.{
  ℕ, ◌+◌, ◌*◌, String, ◌≡◌, refl, Bool, true, false, Option, none, some, List, [], ◌∷◌, ◌==◌,
  ==_refl, string_eq, nat_eq, first, ltb, arith, if◌then◌else◌, Bool-cases, inl, inr, subst,
}
use pgvector_ragindexer.Sql.{Truth, up, of_bool, is_true, ◌and◌, select, update, count}
use pgvector_ragindexer.ApiKeys.{
  ApiKey, grace_period_hours, not_expired, usable, lookup_api_key, by_id, key_row, hash_api_key,
  unrevoked, revoke_at, revoke_api_key, rotate_found, rotate_api_key,
}

abbrev pub has_hash : String → ApiKey → Truth
has_hash h k = of_bool (k.key_hash == h)

-- What lookup_api_key finds of a key that was revoked at `now`.
abbrev pub in_grace : ℕ → ℕ → ApiKey → Option ApiKey
in_grace now later k =
    if is_true
      (of_bool (ltb later (now + grace_period_hours * 3600)) and not_expired later k.expires_at)
    then some (revoke_at now k)
    else none

usable-other :
    (p : ApiKey → Truth) (h : String) (now later : ℕ) (rows : List ApiKey)
    → select (has_hash h) rows ≡ []
    → select (usable h later) (update p (revoke_at now) rows) ≡ []
unfolding select update
usable-other p h now later [] e = refl
usable-other p h now later (x ∷ xs) e = ground (arith, usable-other p h now later xs)

first_if : (b : Bool) (a : ApiKey) → first (if b then a ∷ [] else []) ≡ (if b then some a else none)
first_if true a = refl
first_if false a = refl

lookup-revoked :
    (p : ApiKey → Truth) (h : String) (now later : ℕ) (rows : List ApiKey) (k : ApiKey)
    → select (has_hash h) rows ≡ k ∷ []
    → is_true (p k) ≡ true
    → first (select (usable h later) (update p (revoke_at now) rows)) ≡ in_grace now later k
unfolding select update
lookup-revoked p h now later [] k e y = cc
lookup-revoked p h now later (x ∷ xs) k e y = elim (Bool-cases (x.key_hash == h)) [
  | inl same ↦
      let x_is_k : x ≡ k = ground arith in
      let others : select (has_hash h) xs ≡ [] = ground arith in
      let rest = usable-other p h now later xs others in
      let found = subst (λ (w : ApiKey). (w.key_hash == h) ≡ true) x_is_k same in
      rw (x_is_k, y, found, rest) (first_if _ (revoke_at now k))
  | inr other ↦
      let found : select (has_hash h) xs ≡ k ∷ [] = ground arith in
      ground (arith, lookup-revoked p h now later xs k found y)
]

module _ (h : String) (now later : ℕ) (rows : List ApiKey) (k : ApiKey) where
  -- Let one key have the hash, not revoked yet. Once it is revoked, the hash is still accepted until
  -- 24 hours later (or until it expires), and not from then on.
  pub revoke_api_key-grace :
      (revoked : Bool) (rows' : List ApiKey)
      → select (has_hash h) rows ≡ k ∷ []
      → k.revoked_at ≡ none
      → revoke_api_key up k.id now rows ≡ some (revoked, rows')
      → lookup_api_key up h later rows' ≡ in_grace now later k
  unfolding revoke_api_key lookup_api_key
  revoke_api_key-grace revoked rows' one fresh r =
      let same : update (unrevoked k.id) (revoke_at now) rows ≡ rows' = ground arith in
      rw (← same)
        (lookup-revoked (unrevoked k.id) h now later rows k one (rw (fresh, ==_refl k.id)))

  abbrev rotated_row : (String → String) → ℕ → String → ApiKey
  rotated_row sha256 new_id key = key_row sha256 (k.name <> " (rotated)") new_id key now

  rotate-found :
      (sha256 : String → String) (new_id : ℕ) (key : String)
      → first (select (unrevoked k.id) rows) ≡ some k
      → rotate_api_key up sha256 k.id new_id key now rows
        ≡ some (
          some (rotated_row sha256 new_id key),
          rotated_row sha256 new_id key ∷ update (by_id k.id) (revoke_at now) rows,
        )
  unfolding rotate_api_key rotate_found
  rotate-found sha256 new_id key found = rw (found, rotate_found)

  lookup-rotated :
      (sha256 : String → String) (new_id : ℕ) (key : String)
      → select (has_hash h) rows ≡ k ∷ []
      → (sha256 key == h) ≡ false
      → (lookup_api_key up h later
            (rotated_row sha256 new_id key ∷ update (by_id k.id) (revoke_at now) rows)
          ≡ in_grace now later k)
        × (lookup_api_key up
              (sha256 key)
              later
              (rotated_row sha256 new_id key ∷ update (by_id k.id) (revoke_at now) rows)
            ≡ some (rotated_row sha256 new_id key))
  unfolding lookup_api_key hash_api_key select
  lookup-rotated sha256 new_id key one other = (
    rw other (lookup-revoked (by_id k.id) h now later rows k one (rw (==_refl k.id))),
    rw (==_refl (sha256 key)),
  )

  -- The same holds of the old key after a rotation, whose new key is accepted at any time, if its
  -- hash is not that of the old one.
  pub rotate_api_key-grace :
      (sha256 : String → String) (new_id : ℕ) (key : String) {row : ApiKey} (rows' : List ApiKey)
      → select (has_hash h) rows ≡ k ∷ []
      → first (select (unrevoked k.id) rows) ≡ some k
      → (sha256 key == h) ≡ false
      → rotate_api_key up sha256 k.id new_id key now rows ≡ some (some row, rows')
      → (lookup_api_key up h later rows' ≡ in_grace now later k)
        × (lookup_api_key up (sha256 key) later rows' ≡ some row)
  rotate_api_key-grace sha256 new_id key {row} rows' one found other r =
      let eq = rotate-found sha256 new_id key found in
      let row_eq : rotated_row sha256 new_id key ≡ row = cc (r, eq) in
      let rows_eq : rotated_row sha256 new_id key ∷ update (by_id k.id) (revoke_at now) rows
          ≡ rows' =
        cc (r, eq) in
      let (a, b) = lookup-rotated sha256 new_id key one other in
      (rw (← rows_eq) a, rw (← rows_eq, ← row_eq) b)

no_unrevoked :
    (id now : ℕ) (rows : List ApiKey)
    → count (unrevoked id) (update (unrevoked id) (revoke_at now) rows) ≡ 0
unfolding count update
no_unrevoked id now [] = refl
no_unrevoked id now (x ∷ xs) = elim (Bool-cases (is_true (unrevoked id x))) [
  | inl y ↦ rw y (ground (arith, no_unrevoked id now xs))
  | inr n ↦ rw (n, n) (no_unrevoked id now xs)
]

update_none :
    (p : ApiKey → Truth) (f : ApiKey → ApiKey) (rows : List ApiKey)
    → count p rows ≡ 0
    → update p f rows ≡ rows
unfolding count update
update_none p f [] e = refl
update_none p f (x ∷ xs) e = ground (arith, update_none p f xs)

-- Revoking a key a second time reports that nothing was revoked and leaves the table as it was: it
-- does not start the 24 hours anew.
pub revoke_api_key-again :
    (id now later : ℕ) (rows rows' : List ApiKey) {revoked : Bool}
    → revoke_api_key up id now rows ≡ some (revoked, rows')
    → revoke_api_key up id later rows' ≡ some (false, rows')
unfolding revoke_api_key
revoke_api_key-again id now later rows rows' r =
    let same : update (unrevoked id) (revoke_at now) rows ≡ rows' = ground arith in
    let none_left = no_unrevoked id now rows in
    rw (← same) (rw (none_left, update_none (unrevoked id) (revoke_at later) _ none_left))
