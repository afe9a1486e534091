-- ===== src/Scan/Examples.antt =====
-- A scan of /docs, where one file cannot be read and one is gone.
use pgvector_ragindexer.Base.{
  String, ◌≡◌, refl, true, none, some, List, [], ◌∷◌, ◌==◌, string_eq, All, append, rstrip,
  ℕ_discrete, after_prefix,
}
use pgvector_ragindexer.Sql.{up, update}
use pgvector_ragindexer.Paths.{replace, tokens, matches, any_suffix}
use pgvector_ragindexer.Chunks.{touched}
use pgvector_ragindexer.Quarantine.{mark, quarantine_chunks, restore_chunks}
use pgvector_ragindexer.IndexingRuns.{RunStatus}
use pgvector_ragindexer.Indexer.Fixtures.{services, old_chunk, world, conditions}
use pgvector_ragindexer.Scan.{
  Scan, Store, file_missing, scan_folder, scan_pattern, quarantine_missing_sources,
  distinct_sources, settle_sources, has_source,
}
use pgvector_ragindexer.Scan.Sources.{IsSettled}
use pgvector_ragindexer.Scan.Reports.{scan_folder-reports_success, scan_folder-IsSettled}

abbrev scan : Scan
scan = record {
  run_id = "run";
  indexer_starts = true;
  files = ("/docs/b", conditions) ∷ [];
  disk = record { is_dir = λ d. d == "/docs"; is_file = λ f. f == "/docs/b" };
  now = 20;
  at_start_run = up;
  at_complete_run = up;
  at_root_lookup = up;
  at_backfill = up;
  at_sources = up;
  at_source = λ u. up;
}

abbrev store : Store (List String)
store = record {
  world = world (old_chunk "/docs/gone" none ∷ old_chunk "/docs/b" (some 3) ∷ []);
  runs = [];
  folders = [];
}

docs_is_there : scan.disk.is_dir "/docs" ≡ true
unfolding string_eq
docs_is_there = refl

scan_folder-reports_success_example :
    (scan_folder services scan "/docs" none none store).0 ≡ record {
      run_id = "run";
      status = RunStatus.success;
      counts = record { scanned = 1; added = 1; failed = 0; errors = [] };
    }
scan_folder-reports_success_example =
    scan_folder-reports_success services scan "/docs" none none store refl docs_is_there

scan_folder-IsSettled_example :
    All
      (IsSettled scan.disk.is_file (scan_pattern "/docs"))
      (scan_folder services scan "/docs" none none store).1.world.table.rows
scan_folder-IsSettled_example =
    scan_folder-IsSettled services scan "/docs" none none store refl docs_is_there refl refl

-- The missing file is marked, and the one that is there again is restored.
sweeps :
    quarantine_missing_sources up (λ u. up) scan.disk.is_file 20 "/docs" store.world.table.rows
    ≡ mark 20 file_missing (old_chunk "/docs/gone" none)
      ∷ touched 20 (old_chunk "/docs/b" none)
      ∷ []
unfolding quarantine_missing_sources distinct_sources settle_sources has_source scan_pattern append
    rstrip replace tokens matches any_suffix quarantine_chunks restore_chunks update string_eq
    ℕ_discrete after_prefix
sweeps = refl
