-- ===== src/RateLimit.antt =====
-- rate_limit.py, the limiter: at most `limit` requests of a key in each window of the clock.
pub mod Paths
pub mod Middleware
pub mod Windows
pub mod Requests
mod Examples
use pgvector_ragindexer.Base.{
  ℕ, suc, ◌+◌, ◌-◌, ◌*◌, ◌/◌, max, String, Bool, true, false, ◌&&◌, List, [], ◌∷◌, ◌==◌, string_eq,
  nat_eq, ltb, leb, if◌then◌else◌,
}

pub record RateLimitDecision : Type 0 where
  pub allowed : Bool
  pub limit : ℕ
  pub remaining : ℕ
  pub reset_at : ℕ

-- An entry of the dictionary `_counts`, from (key, window) to the number of requests let through.
pub record Bucket : Type 0 where
  pub key : String
  pub window : ℕ
  pub taken : ℕ

pub record FixedWindowRateLimiter : Type 0 where
  pub limit : ℕ
  pub window_seconds : ℕ
  pub counts : List Bucket

-- A negative limit is 0, so that the argument is the number already cut off there.
abbrev pub new_limiter : ℕ → ℕ → FixedWindowRateLimiter
new_limiter limit_per_minute window = record {
  limit = limit_per_minute;
  window_seconds = max 1 window;
  counts = [];
}

abbrev pub is_bucket : String → ℕ → Bucket → Bool
is_bucket k w b = b.key == k && b.window == w

-- self._counts.get((key, window), 0)
unfoldable pub get : String → ℕ → List Bucket → ℕ
get k w [] = 0
get k w (b ∷ bs) = let rest = get k w bs in if is_bucket k w b then b.taken else rest

-- self._counts[(key, window)] = n
unfoldable pub put : String → ℕ → ℕ → List Bucket → List Bucket
put k w n [] = record { key = k; window = w; taken = n } ∷ []
put k w n (b ∷ bs) =
    let rest = put k w n bs in
    if is_bucket k w b then record { key = k; window = w; taken = n } ∷ bs else b ∷ rest

unfoldable pub purge_old_windows : ℕ → List Bucket → List Bucket
purge_old_windows current [] = []
purge_old_windows current (b ∷ bs) =
    let rest = purge_old_windows current bs in if ltb b.window current then rest else b ∷ rest

-- The window of a time, `int(now // self.window_seconds)`; the clock is read in whole seconds.
abbrev pub window_at : FixedWindowRateLimiter → ℕ → ℕ
window_at l now = now / l.window_seconds

abbrev pub reset_of : FixedWindowRateLimiter → ℕ → ℕ
reset_of l w = (w + 1) * l.window_seconds

-- The body under the lock, on the purged dictionary.
abbrev pub take_one :
    String → ℕ → FixedWindowRateLimiter → RateLimitDecision × FixedWindowRateLimiter
take_one k w l =
    if leb l.limit (get k w l.counts)
    then (record { allowed = false; limit = l.limit; remaining = 0; reset_at = reset_of l w }, l)
    else (
      record {
        allowed = true;
        limit = l.limit;
        remaining = l.limit - (get k w l.counts + 1);
        reset_at = reset_of l w;
      },
      record l { counts = put k w (get k w l.counts + 1) l.counts },
    )

unfoldable pub check :
    String → ℕ → FixedWindowRateLimiter → RateLimitDecision × FixedWindowRateLimiter
check k now l =
    let w = window_at l now in
    let taken = take_one k w (record l { counts = purge_old_windows w l.counts }) in
    if l.limit == 0
    then (record { allowed = true; limit = 0; remaining = 0; reset_at = reset_of l w }, l)
    else taken
