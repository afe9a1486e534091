-- ===== src/RateLimit/Examples.antt =====
-- Two requests a minute, and a client that sends three, with a health probe between.
use pgvector_ragindexer.Base.{
  ℕ, min, String, ◌≡◌, ◌≢◌, refl, none, some, List, [], ◌∷◌, string_eq, arith, ℕ_discrete,
  after_prefix, rstrip, has_suffix, count_parts, last_part,
}
use pgvector_ragindexer.RateLimit.{
  FixedWindowRateLimiter, new_limiter, get, put, purge_old_windows, check,
}
use pgvector_ragindexer.RateLimit.Paths.{
  is_health_probe_path, is_trusted_bulk_indexing_request, without_api_prefix, is_bulk_scan_path,
  is_document_lock_path, is_document_metadata_probe_path,
}
use pgvector_ragindexer.RateLimit.Middleware.{rate_limit_key, is_exempt}
use pgvector_ragindexer.RateLimit.Windows.{Call, check_all, requests, allowed}
use pgvector_ragindexer.RateLimit.Requests.{
  Arrival, dispatch_all, calls_of, counted_in, dispatch_all-limit,
}

abbrev two_a_minute : FixedWindowRateLimiter
two_a_minute = new_limiter 2 60

abbrev calls : List Call
calls =
    record { key = "a"; now = 61 }
    ∷ record { key = "b"; now = 62 }
    ∷ record { key = "a"; now = 63 }
    ∷ record { key = "a"; now = 119 }
    ∷ record { key = "a"; now = 120 }
    ∷ []

two_of_three : allowed "a" 1 60 calls (check_all calls two_a_minute) ≡ 2
unfolding allowed check_all check get put purge_old_windows string_eq ℕ_discrete
two_of_three = refl

two_is_some : ◌≢◌ {A = ℕ} 2 0
two_is_some e = omega arith

abbrev itself : String → String
itself s = s

abbrev arrival : ℕ → String → Arrival
arrival t path = record {
  at = t;
  request = record {
    method = "GET";
    path = path;
    api_key = some "k";
    operation = none;
    client_host = none;
  };
}

abbrev arrivals : List Arrival
arrivals = arrival 1 "/search" ∷ arrival 2 "/health/" ∷ arrival 3 "/search" ∷ []

two_calls :
    calls_of itself two_a_minute arrivals
    ≡ record { key = "api-key:k"; now = 1 } ∷ record { key = "api-key:k"; now = 3 } ∷ []
unfolding calls_of is_exempt rate_limit_key is_health_probe_path is_trusted_bulk_indexing_request
    without_api_prefix is_bulk_scan_path is_document_lock_path is_document_metadata_probe_path
    after_prefix rstrip has_suffix count_parts last_part string_eq ℕ_discrete
two_calls = refl

dispatch_all-limit_example :
    counted_in itself "api-key:k" 0 60 arrivals (dispatch_all itself arrivals two_a_minute)
    ≡ min 2 (requests "api-key:k" 0 60 (calls_of itself two_a_minute arrivals))
dispatch_all-limit_example =
    dispatch_all-limit itself 2 60 0 "api-key:k" arrivals two_is_some
      (rw two_calls (omega arith, (omega arith, tt)))
