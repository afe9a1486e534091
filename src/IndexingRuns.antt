-- ===== src/IndexingRuns.antt =====
-- indexing_runs.py: the table `indexing_runs`, with a row for each run of the indexer. No function
-- of this file raises: what the database raises is logged.
pub mod Laws
mod Examples
use pgvector_ragindexer.Base.{
  ℕ, ◌+◌, max, String, Bool, true, false, Option, none, some, List, [], ◌∷◌, ◌==◌, string_eq, first,
}
use pgvector_ragindexer.Sql.{Truth, ◌and◌, of_bool, Link, up, down, select, delete, update, count}
use pgvector_ragindexer.Quarantine.{ℤ, before_window}

pub data RunStatus : Type 0 where
  running success partial failed : RunStatus

-- An entry of `errors`: its path and its message.
pub record RunError : Type 0 where
  pub source_uri : String
  pub error : String

pub record Run : Type 0 where
  pub id : String
  pub started_at : ℕ
  pub completed_at : Option ℕ
  pub status : RunStatus
  pub trigger : String
  pub source_uri : Option String
  pub metadata : String
  pub client_id : Option String
  pub files_scanned : ℕ
  pub files_added : ℕ
  pub files_updated : ℕ
  pub files_skipped : ℕ
  pub files_failed : ℕ
  pub errors : List RunError

abbrev pub new_run : String → ℕ → String → Option String → String → Option String → Run
new_run id now trigger uri metadata client = record {
  id = id;
  started_at = now;
  completed_at = none;
  status = running;
  trigger = trigger;
  source_uri = uri;
  metadata = metadata;
  client_id = client;
  files_scanned = 0;
  files_added = 0;
  files_updated = 0;
  files_skipped = 0;
  files_failed = 0;
  errors = [];
}

-- The id is returned in any case.
unfoldable pub start_run :
    Link → String → ℕ → String → Option String → String → Option String → List Run → List Run
start_run down id now trigger uri metadata client rows = rows
start_run up id now trigger uri metadata client rows =
    new_run id now trigger uri metadata client ∷ rows

-- The keyword arguments of `complete_run`.
pub record Completion : Type 0 where
  pub status : RunStatus
  pub files_scanned : ℕ
  pub files_added : ℕ
  pub files_updated : ℕ
  pub files_skipped : ℕ
  pub files_failed : ℕ
  pub errors : List RunError

abbrev pub with_run_id : String → Run → Truth
with_run_id id r = of_bool (r.id == id)

abbrev pub completed : Completion → ℕ → Run → Run
completed c now r = record r {
  completed_at = some now;
  status = c.status;
  files_scanned = c.files_scanned;
  files_added = c.files_added;
  files_updated = c.files_updated;
  files_skipped = c.files_skipped;
  files_failed = c.files_failed;
  errors = c.errors;
}

unfoldable pub complete_run : Link → String → Completion → ℕ → List Run → List Run
complete_run down id c now rows = rows
complete_run up id c now rows = update (with_run_id id) (completed c now) rows

unfoldable pub get_run_by_id : Link → String → List Run → Option Run
get_run_by_id down id rows = none
get_run_by_id up id rows = first (select (with_run_id id) rows)

abbrev pub is_running : RunStatus → Bool
is_running running = true
is_running success = false
is_running partial = false
is_running failed = false

abbrev pub has_status : RunStatus → RunStatus → Bool
has_status success success = true
has_status partial partial = true
has_status failed failed = true
has_status running running = true
has_status success other = false
has_status partial other = false
has_status failed other = false
has_status running other = false

-- status IN ('success', 'partial', 'failed')
abbrev pub terminal : RunStatus → Bool
terminal running = false
terminal success = true
terminal partial = true
terminal failed = true

-- COALESCE(completed_at, started_at)
abbrev pub coalesce : Option ℕ → ℕ → ℕ
coalesce none started = started
coalesce (some t) started = t

abbrev pub outdated : ℤ → ℕ → Run → Truth
outdated days now r =
    of_bool (terminal r.status)
    and of_bool (before_window days now (coalesce r.completed_at r.started_at))

unfoldable pub apply_retention : Link → ℤ → ℕ → List Run → ℕ × List Run
apply_retention down days now rows = (0, rows)
apply_retention up days now rows = (count (outdated days now) rows, delete (outdated days now) rows)

unfoldable pub sum_added : List Run → ℕ
sum_added [] = 0
sum_added (r ∷ rs) = r.files_added + sum_added rs

unfoldable pub sum_updated : List Run → ℕ
sum_updated [] = 0
sum_updated (r ∷ rs) = r.files_updated + sum_updated rs

-- MAX(started_at)
abbrev pub later_start : ℕ → Option ℕ → Option ℕ
later_start t none = some t
later_start t (some u) = some (max t u)

unfoldable pub last_start : List Run → Option ℕ
last_start [] = none
last_start (r ∷ rs) = later_start r.started_at (last_start rs)

pub record Summary : Type 0 where
  pub total_runs : ℕ
  pub successful : ℕ
  pub failed : ℕ
  pub partial : ℕ
  pub total_files_added : ℕ
  pub total_files_updated : ℕ
  pub last_run_at : Option ℕ

-- WHERE status != 'running'
abbrev pub ended : Run → Truth
ended r = of_bool (terminal r.status)

abbrev pub counted : RunStatus → List Run → ℕ
counted s = count (λ r. of_bool (has_status s r.status))

unfoldable pub get_run_summary : Link → List Run → Summary
unfolding sum_added sum_updated last_start
get_run_summary down rows = record {
  total_runs = 0;
  successful = 0;
  failed = 0;
  partial = 0;
  total_files_added = 0;
  total_files_updated = 0;
  last_run_at = none;
}
get_run_summary up rows =
    let rs = select ended rows in
    record {
      total_runs = count ended rows;
      successful = counted RunStatus.success rs;
      failed = counted RunStatus.failed rs;
      partial = counted RunStatus.partial rs;
      total_files_added = sum_added rs;
      total_files_updated = sum_updated rs;
      last_run_at = last_start rs;
    }
