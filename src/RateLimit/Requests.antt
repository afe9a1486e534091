-- ===== src/RateLimit/Requests.antt =====
-- The limit as the clients of the API see it.
use pgvector_ragindexer.Base.{
  ℕ, suc, ◌/◌, min, String, ◌≡◌, ◌≢◌, refl, ap, ◌∙◌, Bool, true, false, ◌&&◌, List, [], ◌∷◌, ◌==◌,
  string_eq, nat_eq, if◌then◌else◌, arith, Bool-cases, inl, inr,
}
use pgvector_ragindexer.RateLimit.{
  RateLimitDecision, FixedWindowRateLimiter, new_limiter, get, check,
}
use pgvector_ragindexer.RateLimit.Paths.{Request}
use pgvector_ragindexer.RateLimit.Middleware.{
  rate_limit_key, is_exempt, Response, passed, counted, too_many, answered, dispatch,
}
use pgvector_ragindexer.RateLimit.Windows.{
  Call, check_all, requests, allowed, Monotone, check-keeps, check_all-allowed,
}

pub record Arrival : Type 0 where
  pub at : ℕ
  pub request : Request

abbrev pub is_counted : Response → Bool
is_counted passed = false
is_counted (counted d) = true
is_counted (too_many d n) = false

is_exempt-limit :
    (l l' : FixedWindowRateLimiter) (r : Request)
    → l'.limit ≡ l.limit
    → is_exempt l' r ≡ is_exempt l r
unfolding is_exempt
is_exempt-limit l l' r e = rw e refl

is_counted-answered : (now : ℕ) (d : RateLimitDecision) → is_counted (answered now d) ≡ d.allowed
is_counted-answered now d = ground arith

module _ (sha256 : String → String) where
  unfoldable pub dispatch_all : List Arrival → FixedWindowRateLimiter → List Response
  dispatch_all [] l = []
  dispatch_all (a ∷ as') l =
      (dispatch sha256 a.at a.request l).0 ∷ dispatch_all as' (dispatch sha256 a.at a.request l).1

  -- The requests that are not exempt.
  unfoldable pub calls_of : FixedWindowRateLimiter → List Arrival → List Call
  calls_of l [] = []
  calls_of l (a ∷ as') =
      let rest = calls_of l as' in
      if is_exempt l a.request
      then rest
      else record { key = rate_limit_key sha256 a.request; now = a.at } ∷ rest

  -- The requests of a key in a window that were let through and counted.
  unfoldable pub counted_in : String → ℕ → ℕ → List Arrival → List Response → ℕ
  counted_in k w size [] rs = 0
  counted_in k w size (a ∷ as') [] = 0
  counted_in k w size (a ∷ as') (r ∷ rs) =
      let rest = counted_in k w size as' rs in
      if (rate_limit_key sha256 a.request == k && (a.at / size) == w) && is_counted r
      then suc rest
      else rest

  counted_in-allowed :
      (k : String) (w size : ℕ) (start : FixedWindowRateLimiter) (as' : List Arrival)
      (l : FixedWindowRateLimiter)
      → l.limit ≡ start.limit
      → counted_in k w size as' (dispatch_all as' l)
        ≡ allowed k w size (calls_of start as') (check_all (calls_of start as') l)
  unfolding counted_in dispatch_all dispatch calls_of check_all allowed
  counted_in-allowed k w size start [] l e = refl
  counted_in-allowed k w size start (a ∷ as') l e = elim (Bool-cases (is_exempt start a.request)) [
    | inl y ↦
        rw (is_exempt-limit start l a.request e, y)
          (ground (arith, counted_in-allowed k w size start as' l e))
    | inr n ↦
        rw (is_exempt-limit start l a.request e, n)
          (rw
            (
              is_counted-answered a.at (check (rate_limit_key sha256 a.request) a.at l).0,
              counted_in-allowed k w size start as'
                  (check (rate_limit_key sha256 a.request) a.at l).1
                  ((check-keeps k w (record { key = rate_limit_key sha256 a.request; now = a.at })
                      l).0
                    ∙ e),
            )
            refl)
  ]

  -- Let the limit be positive, and let the times of the requests that are not exempt not go back over
  -- a window. Then the middleware lets through and counts, of the requests of a client in one window,
  -- as many as there are, up to the limit, whatever exempt requests and other clients come between.
  pub dispatch_all-limit :
      (n window w : ℕ) (k : String) (as' : List Arrival)
      → n ≢ 0
      → let l = new_limiter n window in
        Monotone l.window_seconds 0 (calls_of l as')
        → counted_in k w l.window_seconds as' (dispatch_all as' l)
          ≡ min n (requests k w l.window_seconds (calls_of l as'))
  unfolding get
  dispatch_all-limit n window w k as' z m =
      let l = new_limiter n window in
      counted_in-allowed k w l.window_seconds l as' l refl
      ∙ check_all-allowed k w (calls_of l as') l 0 z m (omega arith)
      ∙ ap (λ m'. min m' (requests k w l.window_seconds (calls_of l as'))) (omega arith)
