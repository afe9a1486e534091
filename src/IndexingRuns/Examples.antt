-- ===== src/IndexingRuns/Examples.antt =====
-- Two runs, one of them under way.
use pgvector_ragindexer.Base.{◌≡◌, refl, none, List, [], ◌∷◌, string_eq}
use pgvector_ragindexer.Sql.{up, update, count}
use pgvector_ragindexer.IndexingRuns.{
  Run, failed, new_run, start_run, complete_run, get_run_summary,
}

abbrev runs : List Run
runs =
    complete_run up "1"
      (record {
        status = failed;
        files_scanned = 2;
        files_added = 1;
        files_updated = 0;
        files_skipped = 0;
        files_failed = 1;
        errors = [];
      })
      7 (start_run up "1" 5 "cli" none "{}" none (new_run "2" 6 "api" none "{}" none ∷ []))

only_the_ended : (get_run_summary up runs).total_runs ≡ 1
unfolding get_run_summary start_run complete_run update count string_eq
only_the_ended = refl
