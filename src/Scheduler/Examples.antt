-- ===== src/Scheduler/Examples.antt =====
-- Turns of the scheduler with one folder.
use pgvector_ragindexer.Base.{
  ℕ, ◌==◌, String, ◌≡◌, refl, Bool, true, false, none, some, List, [], ◌∷◌, string_eq, nat_eq,
  contains, arith, inl, after_prefix, words, ℕ_discrete,
}
use pgvector_ragindexer.Sql.{up}
use pgvector_ragindexer.Quarantine.{pos, unset}
use pgvector_ragindexer.IndexingRuns.{failed}
use pgvector_ragindexer.WatchedFolders.{server, Folder}
use pgvector_ragindexer.Indexer.Fixtures.{services, world, conditions}
use pgvector_ragindexer.Scan.{Store, scan_folder}
use pgvector_ragindexer.Scheduler.{
  ServerScheduler, Poll, Turn, run_scan, scan_listed, run_pending_scans, in_backoff, is_scan_due,
}
use pgvector_ragindexer.Scheduler.Cron.{cron_to_seconds, int_of}
use pgvector_ragindexer.Scheduler.Backoff.{run_pending_scans-scans}
use pgvector_ragindexer.Scheduler.Hour.{scanned_in, run_scan-backs_off}

every_two_hours : cron_to_seconds "0 */2 * * *" ≡ pos 7200
unfolding cron_to_seconds words int_of after_prefix ℕ_discrete
every_two_hours = refl

-- A daily schedule is read as six hours.
every_day : cron_to_seconds "30 2 * * *" ≡ pos 21600
unfolding cron_to_seconds words after_prefix ℕ_discrete
every_day = refl

abbrev folder : ℕ → Folder
folder failures = record {
  id = "1";
  folder_path = "/docs";
  enabled = true;
  schedule_cron = "0 */6 * * *";
  last_scanned_at = none;
  last_run_id = none;
  client_id = none;
  created_at = 1;
  updated_at = 1;
  metadata = "{}";
  execution_scope = server;
  executor_id = none;
  normalized_folder_path = "/docs";
  root_id = "r1";
  last_scan_started_at = none;
  last_scan_completed_at = none;
  last_successful_scan_at = none;
  last_error_at = some 90;
  consecutive_failures = failures;
  paused = false;
  max_concurrency = 1;
}

-- `there`: whether the directory is found
abbrev turn : Bool → Folder → Turn
turn there f = record {
  scan = record {
    run_id = "run";
    indexer_starts = true;
    files = ("/docs/b", conditions) ∷ [];
    disk = record { is_dir = λ d. there; is_file = λ u. true };
    now = 100;
    at_start_run = up;
    at_complete_run = up;
    at_root_lookup = up;
    at_backfill = up;
    at_sources = up;
    at_source = λ u. up;
  };
  clock = 100;
  ended_at = 110;
  at_started = up;
  at_completed = up;
  at_scanned = up;
}

abbrev store : ℕ → Store (List String)
store failures = record { world = world []; runs = []; folders = folder failures ∷ [] }

fails : (run_scan services (turn false (folder 4)) (folder 4) (store 4)).0.status ≡ failed
unfolding run_scan scan_folder
fails = refl

abbrev poll_at : ℕ → Poll
poll_at t = record {
  acquired = true;
  now = t;
  at_list = up;
  turn = turn true;
  at_purge = up;
  environment = unset;
}

abbrev scheduler : ServerScheduler
scheduler = record {
  is_running = true;
  lease_held = true;
  last_poll_at = none;
  last_purge_at = 0;
  active_scans = 0;
}

abbrev after_failure : Store (List String)
after_failure = (run_scan services (turn false (folder 4)) (folder 4) (store 4)).1

abbrev other_folder : Folder
other_folder = record (folder 0) { id = "2" }

abbrev after_turn : Store (List String)
after_turn = (scan_listed services 100 (turn true) (other_folder ∷ []) after_failure).1

is_other : (other_folder.id == (folder 4).id) ≡ false
unfolding string_eq
is_other = refl

run_scan-backs_off_example :
    contains (scanned_in services (poll_at 1000 ∷ poll_at 3000 ∷ []) scheduler after_turn) "1"
    ≡ false
run_scan-backs_off_example =
    run_scan-backs_off services (turn false (folder 4)) (folder 4) (store 4) (turn true) 100
      (other_folder ∷ []) after_turn scheduler (poll_at 1000 ∷ poll_at 3000 ∷ [])
      ((λ _. omega arith), tt) refl fails (is_other, tt) refl (omega arith, (omega arith, tt))

not_yet_in_backoff : in_backoff 3000 (folder 4) ≡ false
unfolding in_backoff
not_yet_in_backoff = refl

never_scanned : is_scan_due 100 (folder 4) ≡ true
unfolding is_scan_due
never_scanned = refl

run_pending_scans-scans_example :
    contains (run_pending_scans services up 3000 (turn true) (store 4)).0 "1" ≡ true
run_pending_scans-scans_example =
    run_pending_scans-scans services (turn true) 3000 (folder 4) (store 4) (inl refl) refl refl refl
      not_yet_in_backoff never_scanned
