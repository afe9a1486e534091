-- ===== src/WatchedFolders/Updates.antt =====
-- watched_folders.py: update_folder, mark_scanned and update_scan_watermarks.
use pgvector_ragindexer.Base.{
  ℕ, ◌+◌, String, Bool, true, false, ◌&&◌, ◌||◌, not, Option, none, some, List, first,
  if◌then◌else◌,
}
use pgvector_ragindexer.Sql.{Link, up, down, select, update}
use pgvector_ragindexer.WatchedFolders.{Folder, with_id, get_folder}

-- The arguments of `update_folder`; `none` leaves the column as it is.
pub record Settings : Type 0 where
  pub enabled : Option Bool
  pub schedule_cron : Option String
  pub paused : Option Bool
  pub max_concurrency : Option ℕ

abbrev pub given {ℓ} : {A : Type ℓ} → Option A → A → A
given none old = old
given (some new) old = new

abbrev pub is_none {ℓ} : {A : Type ℓ} → Option A → Bool
is_none none = true
is_none (some a) = false

abbrev pub apply_settings : Settings → ℕ → Folder → Folder
apply_settings s now f = record f {
  enabled = given s.enabled f.enabled;
  schedule_cron = given s.schedule_cron f.schedule_cron;
  paused = given s.paused f.paused;
  max_concurrency = given s.max_concurrency f.max_concurrency;
  updated_at = now;
}

-- `not sets`
abbrev pub nothing_given : Settings → Bool
nothing_given s =
    is_none s.enabled && is_none s.schedule_cron && is_none s.paused && is_none s.max_concurrency

abbrev pub update_settings :
    Link → String → Settings → ℕ → List Folder → Option Folder × List Folder
update_settings down id s now rows = (none, rows)
update_settings up id s now rows =
    let rows' = update (with_id id) (apply_settings s now) rows in
    (first (select (with_id id) rows'), rows')

unfoldable pub update_folder :
    Link → String → Settings → ℕ → List Folder → Option Folder × List Folder
unfolding get_folder
update_folder k id s now rows =
    if nothing_given s then (get_folder k id rows, rows) else update_settings k id s now rows

unfoldable pub mark_scanned : Link → String → Option String → ℕ → List Folder → Bool × List Folder
mark_scanned down id run now rows = (false, rows)
mark_scanned up id run now rows = (
  true,
  update (with_id id)
      (λ f. record f { last_scanned_at = some now; last_run_id = run; updated_at = now }) rows,
)

-- The keyword arguments of `update_scan_watermarks`, `false` unless they are given.
pub record Marks : Type 0 where
  pub started : Bool
  pub completed : Bool
  pub success : Bool
  pub error : Bool
  pub reset_failures : Bool

-- What the SET clause makes of the counter. Two assignments of one column are an error of SQL.
abbrev pub failures_after : Marks → ℕ → ℕ
failures_after m n = if m.success || m.reset_failures then 0 else if m.error then n + 1 else n

abbrev pub at_if : Bool → ℕ → Option ℕ → Option ℕ
at_if true now old = some now
at_if false now old = old

abbrev pub set_marks : Marks → ℕ → Folder → Folder
set_marks m now f = record f {
  last_scan_started_at = at_if m.started now f.last_scan_started_at;
  last_scan_completed_at = at_if m.completed now f.last_scan_completed_at;
  last_successful_scan_at = at_if m.success now f.last_successful_scan_at;
  last_error_at = at_if m.error now f.last_error_at;
  consecutive_failures = failures_after m f.consecutive_failures;
  updated_at = now;
}

abbrev pub no_marks : Marks → Bool
no_marks m = not (m.started || m.completed || m.success || m.error || m.reset_failures)

-- consecutive_failures is assigned twice
abbrev pub assigned_twice : Marks → Bool
assigned_twice m =
    m.success && m.error || m.success && m.reset_failures || m.error && m.reset_failures

abbrev pub write_marks : Link → String → Marks → ℕ → List Folder → Bool × List Folder
write_marks down id m now rows = (false, rows)
write_marks up id m now rows =
    if assigned_twice m then (false, rows) else (true, update (with_id id) (set_marks m now) rows)

unfoldable pub update_scan_watermarks : Link → String → Marks → ℕ → List Folder → Bool × List Folder
update_scan_watermarks k id m now rows =
    if no_marks m then (true, rows) else write_marks k id m now rows
