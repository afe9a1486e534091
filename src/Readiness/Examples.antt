-- ===== src/Readiness/Examples.antt =====
-- A drift of two chunks, found by the first search after the start.
use pgvector_ragindexer.Base.{◌≡◌, refl, true, none, some, ◌⊎◌, string_eq, ℕ_discrete}
use pgvector_ragindexer.Readiness.{
  Globals, Counts, ready, initial, signature_eq, check_readiness, compare_counts,
  invalidate_lancedb_cache, run_background_sync, should_use_lancedb, signature_of, sync_failed,
  updating,
}
use pgvector_ragindexer.Readiness.Repair.{
  here, next, searches, invalidates, run_background_sync-gives_up,
}

abbrev lagging : Counts
lagging = record { pg_docs = 3; pg_chunks = 9; lancedb_docs = 3; lancedb_chunks = 7 }

abbrev repaired : Counts
repaired = record { pg_docs = 3; pg_chunks = 9; lancedb_docs = 3; lancedb_chunks = 9 }

is_ready : (check_readiness (some repaired) (invalidate_lancedb_cache initial)).0 ≡ ready
unfolding check_readiness compare_counts invalidate_lancedb_cache ℕ_discrete
is_ready = refl

abbrev after_failure : Globals
after_failure = run_background_sync (some "disk full") (some (signature_of lagging)) initial

abbrev later : Globals
later = invalidate_lancedb_cache (should_use_lancedb "lancedb" true (some lagging) after_failure).1

run_background_sync-gives_up_example :
    (later.sync_thread ≡ none)
    × (((should_use_lancedb "lancedb" true (some lagging) later).0 ≡ sync_failed)
        ⊎ ((should_use_lancedb "lancedb" true (some lagging) later).0 ≡ updating))
unfolding ℕ_discrete
run_background_sync-gives_up_example =
    run_background_sync-gives_up lagging "disk full" initial refl
      (next (next here (searches "lancedb" true)) invalidates)
