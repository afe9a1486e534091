-- ===== src/RateLimit/Paths.antt =====
-- rate_limit.py: the paths that are not throttled.
use pgvector_ragindexer.Base.{
  String, Bool, true, false, not, ◌&&◌, ◌||◌, Option, none, some, List, [], ◌∷◌, ◌==◌, contains,
  string_eq, nat_eq, after_prefix, has_prefix, has_suffix, has_char, rstrip, count_parts, last_part,
  if◌then◌else◌, ◌≡◌, refl, ℕ_discrete,
}

abbrev pub after_api : String → Option String → String
after_api path none = path
after_api path (some rest) = if has_prefix "/" rest then rest else path

unfoldable pub without_api_prefix : String → String
without_api_prefix path =
    if path == "/api/v1" then "" else after_api path (after_prefix "/api/v1" path)

unfoldable pub is_bulk_scan_path : String → Bool
is_bulk_scan_path path =
    (has_prefix "/watched-folders/" path && has_suffix "/scan" path && count_parts "/" path == 4)
    || (has_prefix "/scheduler/roots/" path
        && has_suffix "/scan-now" path
        && count_parts "/" path == 5)

unfoldable pub is_document_lock_path : String → Bool
is_document_lock_path path =
    path == "/documents/locks"
    || (has_prefix "/documents/locks/" path
        && contains ("acquire" ∷ "release" ∷ "check" ∷ "cleanup" ∷ []) (last_part "/" path))

abbrev pub is_metadata_id : Option String → Bool
is_metadata_id none = false
is_metadata_id (some document_id) =
    not (document_id == "")
    && not (has_char "/" document_id)
    && not (contains ("encrypted" ∷ "locks" ∷ "tree" ∷ []) document_id)

unfoldable pub is_document_metadata_probe_path : String → Bool
is_document_metadata_probe_path path = is_metadata_id (after_prefix "/documents/" path)

abbrev pub health_probe_paths : List String
health_probe_paths = "/health" ∷ "/healthz" ∷ "/ready" ∷ "/readiness" ∷ "/live" ∷ "/liveness" ∷ []

unfoldable pub is_health_probe_path : String → Bool
unfolding without_api_prefix
is_health_probe_path url_path =
    let path = rstrip "/" url_path in
    contains health_probe_paths path || contains health_probe_paths (without_api_prefix path)

-- The parts of a request that the middleware reads: the method in capitals, the path of the URL,
-- the headers X-API-Key and X-PGVectorRAGIndexer-Operation, and the address of the client.
pub record Request : Type 0 where
  pub method : String
  pub path : String
  pub api_key : Option String
  pub operation : Option String
  pub client_host : Option String

abbrev pub is_bulk_indexing : Option String → Bool
is_bulk_indexing none = false
is_bulk_indexing (some operation) = operation == "bulk-indexing"

unfoldable pub is_trusted_bulk_indexing_request : Request → Bool
unfolding without_api_prefix is_bulk_scan_path is_document_lock_path is_document_metadata_probe_path
is_trusted_bulk_indexing_request r =
    let path = without_api_prefix (rstrip "/" r.path) in
    is_bulk_indexing r.operation
    && ((r.method == "POST" && contains ("/index" ∷ "/upload-and-index" ∷ []) path)
        || (r.method == "POST" && is_bulk_scan_path path)
        || (contains ("GET" ∷ "POST" ∷ []) r.method && is_document_lock_path path)
        || (r.method == "GET" && is_document_metadata_probe_path path))

scan_is_trusted : is_bulk_scan_path (without_api_prefix "/api/v1/watched-folders/7/scan") ≡ true
unfolding without_api_prefix is_bulk_scan_path after_prefix has_suffix count_parts string_eq
    ℕ_discrete
scan_is_trusted = refl

lock_is_a_lock_path : is_document_lock_path "/documents/locks/acquire" ≡ true
unfolding is_document_lock_path after_prefix last_part count_parts string_eq ℕ_discrete
lock_is_a_lock_path = refl

tree_is_no_document : is_document_metadata_probe_path "/documents/tree" ≡ false
unfolding is_document_metadata_probe_path after_prefix count_parts string_eq ℕ_discrete
tree_is_no_document = refl
