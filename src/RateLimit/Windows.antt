-- ===== src/RateLimit/Windows.antt =====
-- How many requests of a key the limiter lets through in one window.
use pgvector_ragindexer.Base.{
  subst, ℕ, suc, ◌+◌, ◌-◌, ◌/◌, ◌≤◌, ◌<◌, min, String, ◌≡◌, ◌≢◌, refl, sym, ◌∙◌, Bool, true, false,
  ◌&&◌, List, [], ◌∷◌, ◌==◌, ==_refl, string_eq, nat_eq, ltb, if◌then◌else◌, arith, Bool-cases, inl,
  inr,
}
use pgvector_ragindexer.RateLimit.{
  RateLimitDecision, Bucket, FixedWindowRateLimiter, is_bucket, get, put, purge_old_windows, check,
}

pub record Call : Type 0 where
  pub key : String
  pub now : ℕ

-- The decisions of a series of calls, the first one first.
unfoldable pub check_all : List Call → FixedWindowRateLimiter → List RateLimitDecision
check_all [] l = []
check_all (c ∷ cs) l = (check c.key c.now l).0 ∷ check_all cs (check c.key c.now l).1

module _ (k : String) (w size : ℕ) where
  abbrev is_call : Call → Bool
  is_call c = c.key == k && (c.now / size) == w

  -- The calls of the key in the window, and those that were allowed.
  unfoldable pub requests : List Call → ℕ
  requests [] = 0
  requests (c ∷ cs) = let rest = requests cs in if is_call c then suc rest else rest

  unfoldable pub allowed : List Call → List RateLimitDecision → ℕ
  allowed [] ds = 0
  allowed (c ∷ cs) [] = 0
  allowed (c ∷ cs) (d ∷ ds) =
      let rest = allowed cs ds in if is_call c && d.allowed then suc rest else rest

-- The clock does not go back over a window.
abbrev pub Monotone : ℕ → ℕ → List Call → Type 0
Monotone size from [] = Unit
Monotone size from (c ∷ cs) = (from ≤ c.now / size) × Monotone size (c.now / size) cs

get-put : (k : String) (w n : ℕ) (bs : List Bucket) → get k w (put k w n bs) ≡ n
unfolding get put
get-put k w n [] = ground (arith, ==_refl k)
get-put k w n (b ∷ bs) = elim (Bool-cases (is_bucket k w b)) [
  | inl y ↦ rw y (ground (arith, ==_refl k))
  | inr z ↦ rw z (rw z (get-put k w n bs))
]

get-put_other :
    (k k' : String) (w w' n : ℕ) (bs : List Bucket)
    → (k == k' && w == w') ≡ false
    → get k' w' (put k w n bs) ≡ get k' w' bs
unfolding get put
get-put_other k k' w w' n [] h = ground arith
get-put_other k k' w w' n (b ∷ bs) h = ground (arith, get-put_other k k' w w' n bs h)

get-purge :
    (k : String) (w current : ℕ) (bs : List Bucket)
    → current ≤ w
    → get k w (purge_old_windows current bs) ≡ get k w bs
unfolding get purge_old_windows
get-purge k w current [] h = refl
get-purge k w current (b ∷ bs) h = ground (arith, get-purge k w current bs h)

-- Calls in later windows are none of this one.
requests-late :
    (k : String) (w size from : ℕ) (cs : List Call)
    → w < from
    → Monotone size from cs
    → requests k w size cs ≡ 0
unfolding requests
requests-late k w size from [] h m = refl
requests-late k w size from (c ∷ cs) h (m, ms) =
    let rest = requests-late k w size (c.now / size) cs (omega arith) ms in ground (arith, rest)

allowed-le :
    (k : String) (w size : ℕ) (cs : List Call) (ds : List RateLimitDecision)
    → allowed k w size cs ds ≤ requests k w size cs
unfolding allowed requests
allowed-le k w size [] ds = omega arith
allowed-le k w size (c ∷ cs) [] = omega arith
allowed-le k w size (c ∷ cs) (d ∷ ds) = ground (arith, allowed-le k w size cs ds)

module _ (k : String) (w : ℕ) where
  pub check-keeps :
      (c : Call) (l : FixedWindowRateLimiter)
      → ((check c.key c.now l).1.limit ≡ l.limit)
        × ((check c.key c.now l).1.window_seconds ≡ l.window_seconds)
  unfolding check
  check-keeps c l = (ground arith, ground arith)

  check-allowed :
      (c : Call) (l : FixedWindowRateLimiter)
      → l.limit ≢ 0
      → is_call k w l.window_seconds c ≡ true
      → (check c.key c.now l).0.allowed ≡ ltb (get k w l.counts) l.limit
  unfolding check
  check-allowed c l z h =
      let key : c.key ≡ k = ground arith in
      let window : c.now / l.window_seconds ≡ w = ground arith in
      let same : get c.key (c.now / l.window_seconds)
            (purge_old_windows (c.now / l.window_seconds) l.counts)
          ≡ get k w l.counts =
        rw (key, window) (get-purge k w w l.counts (omega arith)) in
      ground (arith, same)

  check-get :
      (c : Call) (l : FixedWindowRateLimiter)
      → l.limit ≢ 0
      → c.now / l.window_seconds ≤ w
      → get k w (check c.key c.now l).1.counts ≡ (
          if is_call k w l.window_seconds c && (check c.key c.now l).0.allowed
          then suc (get k w l.counts)
          else get k w l.counts)
  unfolding check
  check-get c l z h =
      let wt = c.now / l.window_seconds in
      let bs = purge_old_windows wt l.counts in
      let kept = get-purge k w wt l.counts h in
      elim (Bool-cases (is_call k w l.window_seconds c)) [
        | inl y ↦
            let key : c.key ≡ k = ground arith in
            let window : c.now / l.window_seconds ≡ w = ground arith in
            let n = get c.key wt bs in
            let own : n ≡ get k w l.counts =
              rw (key, window) (get-purge k w w l.counts (omega arith)) in
            let mine : get k w (put c.key wt (n + 1) bs) ≡ n + 1 =
              rw (key, window) (get-put k w _ _) in
            ground (arith, kept, own, mine)
        | inr n ↦
            let other = get-put_other c.key k wt w (get c.key wt bs + 1) bs n in
            ground (arith, kept, other)
      ]

  after_limit :
      (c : Call) (l : FixedWindowRateLimiter) → l.limit ≢ 0 → (check c.key c.now l).1.limit ≢ 0
  after_limit c l z e = z (sym (check-keeps c l).0 ∙ e)

  -- What is known of the limiter after a call, in terms of the limit and the window size before it.
  after :
      (c : Call) (cs : List Call) (l : FixedWindowRateLimiter)
      → l.limit ≢ 0
      → Monotone l.window_seconds (c.now / l.window_seconds) cs
      → let l' = (check c.key c.now l).1 in
        get k w l'.counts ≤ l.limit
        → (Monotone l'.window_seconds (c.now / l.window_seconds) cs
            → get k w l'.counts ≤ l'.limit
            → allowed k w l'.window_seconds cs (check_all cs l')
              ≡ min (l'.limit - get k w l'.counts) (requests k w l'.window_seconds cs))
        → allowed k w l.window_seconds cs (check_all cs l')
          ≡ min (l.limit - get k w l'.counts) (requests k w l.window_seconds cs)
  after c cs l z m room ih =
      let l' = (check c.key c.now l).1 in
      let keeps = check-keeps c l in
      subst
        (λ s.
          allowed k w s cs (check_all cs l')
          ≡ min (l.limit - get k w l'.counts) (requests k w s cs))
        keeps.1
        (subst
          (λ n.
            allowed k w l'.window_seconds cs (check_all cs l')
            ≡ min (n - get k w l'.counts) (requests k w l'.window_seconds cs))
          keeps.0
          (ih (subst (λ s. Monotone s (c.now / l.window_seconds) cs) (sym keeps.1) m)
            (subst (λ n. get k w l'.counts ≤ n) (sym keeps.0) room)))

  -- Let the limit be positive, and let the clock not go back over a window. Then of the calls of a key
  -- in one window as many are allowed as the limit leaves, and the others are refused, whatever
  -- calls of other keys come between them.
  pub check_all-allowed :
      (cs : List Call) (l : FixedWindowRateLimiter) (from : ℕ)
      → l.limit ≢ 0
      → Monotone l.window_seconds from cs
      → get k w l.counts ≤ l.limit
      → allowed k w l.window_seconds cs (check_all cs l)
        ≡ min (l.limit - get k w l.counts) (requests k w l.window_seconds cs)
  unfolding check_all allowed requests
  check_all-allowed [] l from z m h = omega arith
  check_all-allowed (c ∷ cs) l from z (m, ms) h =
      elim (Bool-cases (ltb w (c.now / l.window_seconds))) [
        | inl late ↦
            let none_left =
              requests-late k w l.window_seconds (suc w) (c ∷ cs) (omega arith)
                (ground arith, ms) in
            let few = allowed-le k w l.window_seconds (c ∷ cs) (check_all (c ∷ cs) l) in
            omega (arith, none_left, few)
        | inr soon ↦
            let early : c.now / l.window_seconds ≤ w = ground arith in
            let l' = (check c.key c.now l).1 in
            let keeps = check-keeps c l in
            let counts = check-get c l z early in
            elim (Bool-cases (is_call k w l.window_seconds c)) [
              | inl y ↦
                  let decided = check-allowed c l z y in
                  let room : get k w l'.counts ≤ l.limit = ground (arith, counts, decided) in
                  let ih = after c cs l z ms room (check_all-allowed cs l' _ (after_limit c l z)) in
                  ground (arith, counts, decided, ih)
              | inr n ↦
                  let same : get k w l'.counts ≡ get k w l.counts = ground (arith, counts) in
                  let room : get k w l'.counts ≤ l.limit = ground (arith, same) in
                  let ih = after c cs l z ms room (check_all-allowed cs l' _ (after_limit c l z)) in
                  ground (arith, same, ih)
            ]
      ]
