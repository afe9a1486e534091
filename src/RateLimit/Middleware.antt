-- ===== src/RateLimit/Middleware.antt =====
-- rate_limit.py: RateLimitMiddleware. The answer of the application behind it and the hash of the
-- API key are parameters.
use pgvector_ragindexer.Base.{
  ℕ, ◌-◌, String, Bool, ◌||◌, Option, none, some, ◌==◌, string_eq, nat_eq, if◌then◌else◌,
}
use pgvector_ragindexer.RateLimit.{RateLimitDecision, FixedWindowRateLimiter, check}
use pgvector_ragindexer.RateLimit.Paths.{
  Request, is_health_probe_path, is_trusted_bulk_indexing_request,
}
use Prim.Native.String.{◌++◌ as ◌<>◌}

unfoldable pub is_exempt : FixedWindowRateLimiter → Request → Bool
is_exempt l r =
    r.method == "OPTIONS"
    || l.limit == 0
    || is_health_probe_path r.path
    || is_trusted_bulk_indexing_request r

-- The application's answer without limits, with the rate limit headers, or the status 429 with the
-- header Retry-After.
pub data Response : Type 0 where
  passed : Response
  counted : RateLimitDecision → Response
  too_many : RateLimitDecision → ℕ → Response

-- `max(0, decision.reset_at - int(time.time()))`
abbrev pub answered : ℕ → RateLimitDecision → Response
answered now d = if d.allowed then counted d else too_many d (d.reset_at - now)

module _ (sha256 : String → String) where
  abbrev pub address_key : Option String → String
  address_key none = "ip:" <> "unknown"
  address_key (some host) = "ip:" <> host

  -- An empty API key counts as none.
  unfoldable pub rate_limit_key : Request → String
  rate_limit_key r = elim r.api_key [
    | none ↦ address_key r.client_host
    | some k ↦ if k == "" then address_key r.client_host else "api-key:" <> sha256 k
  ]

  unfoldable pub dispatch : ℕ → Request → FixedWindowRateLimiter → Response × FixedWindowRateLimiter
  unfolding rate_limit_key is_exempt
  dispatch now r l =
      let checked = check (rate_limit_key r) now l in
      if is_exempt l r then (passed, l) else (answered now checked.0, checked.1)
