-- ===== src/Scheduler.antt =====
-- server_scheduler.py: the loop that scans the folders of the server when they are due, with its
-- backoff after failures and the daily purge of the quarantine. Scheduler/Lease is the lock that
-- lets one replica only do this.
pub mod Cron
pub mod Lease
pub mod Backoff
pub mod Failures
pub mod Others
pub mod Hour
mod Examples
use pgvector_ragindexer.Base.{
  ℕ, zero, ◌+◌, ◌-◌, ◌*◌, String, Bool, true, false, not, ◌&&◌, Option, none, some, List, [], ◌∷◌,
  ◌==◌, string_eq, leb, ltb, if◌then◌else◌,
}
use pgvector_ragindexer.Sql.{Link}
use pgvector_ragindexer.Quarantine.{ℤ, pos, negsuc, Environment, purge_expired}
use pgvector_ragindexer.WatchedFolders.{
  server, Folder, list_folders, get_folder_by_root_id, client, Scope,
}
use pgvector_ragindexer.WatchedFolders.Updates.{Marks, update_scan_watermarks, mark_scanned}
use pgvector_ragindexer.Indexer.{Services}
use pgvector_ragindexer.IndexingRuns.{RunStatus, running, partial, failed}
use pgvector_ragindexer.Scan.{Scan, Store, Report, scan_folder}
use Cron.{cron_to_seconds}

abbrev pub max_failure_streak : ℕ
max_failure_streak = 5

abbrev pub failure_backoff_seconds : ℕ
failure_backoff_seconds = 3600

abbrev pub purge_interval_seconds : ℕ
purge_interval_seconds = 86400

-- now - error_ts < FAILURE_BACKOFF_SECONDS, if there was an error
abbrev pub recent_error : ℕ → Option ℕ → Bool
recent_error now none = false
recent_error now (some t) = ltb now (t + failure_backoff_seconds)

unfoldable pub in_backoff : ℕ → Folder → Bool
in_backoff now f = leb max_failure_streak f.consecutive_failures && recent_error now f.last_error_at

-- now - since >= interval
abbrev pub elapsed : ℤ → ℕ → ℕ → Bool
elapsed (pos k) now since = leb (since + k) now
elapsed (negsuc k) now since = leb since (now + (k + 1))

abbrev pub due_since : String → ℕ → Option ℕ → Bool
due_since cron now none = true
due_since cron now (some t) = elapsed (cron_to_seconds cron) now t

unfoldable pub is_scan_due : ℕ → Folder → Bool
unfolding cron_to_seconds
is_scan_due now f = due_since f.schedule_cron now f.last_scanned_at

-- None of the three `continue`s is met; `clock` is the time when the schedule is looked at.
unfoldable pub passes : ℕ → ℕ → Folder → Bool
passes now clock f = not f.paused && not (in_backoff now f) && is_scan_due clock f

-- What happens around one call of `_run_scan`.
pub record Turn : Type 0 where
  pub scan : Scan
  -- the clock when the schedule is looked at
  pub clock : ℕ
  pub ended_at : ℕ
  pub at_started : Link
  pub at_completed : Link
  pub at_scanned : Link

abbrev pub started_mark : Marks
started_mark = record {
  started = true;
  completed = false;
  success = false;
  error = false;
  reset_failures = false;
}

abbrev pub is_failed : RunStatus → Bool
is_failed failed = true
is_failed partial = false
is_failed running = false
is_failed RunStatus.success = false

abbrev pub succeeded : RunStatus → Bool
succeeded RunStatus.success = true
succeeded partial = true
succeeded running = false
succeeded failed = false

abbrev pub ended_mark : RunStatus → Marks
ended_mark s = record {
  started = false;
  completed = true;
  success = succeeded s;
  error = is_failed s;
  reset_failures = false;
}

-- {"ok": True, "scan_result": …}, or an error
pub data ScanNow : Type 0 where
  scanned : Report → ScanNow
  root_not_found not_server_scope : ScanNow

-- The fields of ServerScheduler; `active_scans` counts the scans that are under way.
pub record ServerScheduler : Type 0 where
  pub is_running : Bool
  pub lease_held : Bool
  pub last_poll_at : Option ℕ
  pub last_purge_at : ℕ
  pub active_scans : ℕ

-- What happens around one turn of the loop.
pub record Poll : Type 0 where
  pub acquired : Bool
  pub now : ℕ
  pub at_list : Link
  pub turn : Folder → Turn
  pub at_purge : Link
  pub environment : Environment

module _ {Index : Type 0} (s : Services Index) where
  abbrev pub with_folders : (List Folder → List Folder) → Store Index → Store Index
  with_folders f st = record st { folders = f st.folders }

  -- if result.get("run_id"): …
  abbrev pub mark_run : Turn → Folder → String → List Folder → List Folder
  mark_run x f run rows =
      if run == "" then rows else (mark_scanned x.at_scanned f.id (some run) x.ended_at rows).1

  abbrev pub conclude_scan : Turn → Folder → Report × Store Index → Report × Store Index
  conclude_scan x f (r, st) = (
    r,
    with_folders
        (λ rows.
          mark_run x f r.run_id
            (update_scan_watermarks x.at_completed f.id (ended_mark r.status) x.ended_at rows).1)
        st,
  )

  -- None of the calls raises, so that the handler of `_run_scan` is never entered.
  unfoldable pub run_scan : Turn → Folder → Store Index → Report × Store Index
  run_scan x f st = conclude_scan x f (
      scan_folder s x.scan f.folder_path none (some f.root_id) (
        with_folders
          (λ rows. (update_scan_watermarks x.at_started f.id started_mark x.scan.now rows).1) st))

  -- The loop over the listed rows, with the ids of the folders that were scanned.
  unfoldable pub scan_listed :
      ℕ → (Folder → Turn) → List Folder → Store Index → List String × Store Index
  scan_listed now turn [] st = ([], st)
  scan_listed now turn (f ∷ fs) st =
      let skip = scan_listed now turn fs st in
      let rest = scan_listed now turn fs (run_scan (turn f) f st).1 in
      if passes now (turn f).clock f then (f.id ∷ rest.0, rest.1) else skip

  unfoldable pub run_pending_scans :
      Link → ℕ → (Folder → Turn) → Store Index → List String × Store Index
  run_pending_scans k now turn st =
      scan_listed now turn (list_folders k true (some server) none st.folders) st

  abbrev pub scan_if_server : Turn → Scope → Folder → Store Index → ScanNow × Store Index
  scan_if_server x client f st = (not_server_scope, st)
  scan_if_server x server f st = let done = run_scan x f st in (scanned done.0, done.1)

  abbrev pub scan_found : Turn → Option Folder → Store Index → ScanNow × Store Index
  scan_found x none st = (root_not_found, st)
  scan_found x (some f) st = scan_if_server x f.execution_scope f st

  unfoldable pub scan_root_now : Link → String → Turn → Store Index → ScanNow × Store Index
  scan_root_now k root x st = scan_found x (get_folder_by_root_id k root st.folders) st

  abbrev pub purged : Link → Environment → ℕ → Store Index → Store Index
  purged k env now st = record st {
    world = record st.world {
      table = record st.world.table { rows = (purge_expired k env none now st.world.table.rows).1 };
    };
  }

  -- `purge_expired` does not raise, so that the time is set even if the database is down.
  unfoldable pub maybe_purge_quarantine :
      Link → Environment → ℕ → ServerScheduler → Store Index → ServerScheduler × Store Index
  maybe_purge_quarantine k env now c st =
      if ltb now (c.last_purge_at + purge_interval_seconds)
      then (c, st)
      else (record c { last_purge_at = now }, purged k env now st)

  abbrev pub poll_with_lease : Poll → ServerScheduler → Store Index → ServerScheduler × Store Index
  poll_with_lease p c st =
      let done = run_pending_scans p.at_list p.now p.turn st in
      let (c', st') = maybe_purge_quarantine p.at_purge p.environment p.now c done.1 in
      (record c' { last_poll_at = some p.now }, st')

  -- The body of the loop: `acquired` is what `_try_acquire_lease` answers, if it is asked.
  unfoldable pub poll : Poll → ServerScheduler → Store Index → ServerScheduler × Store Index
  poll p c st =
      if c.lease_held
      then poll_with_lease p c st
      else if p.acquired
      then poll_with_lease p (record c { lease_held = true }) st
      else (record c { lease_held = false }, st)
