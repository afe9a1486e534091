-- ===== src/WatchedFolders.antt =====
-- watched_folders.py: the table `watched_folders` of directories that are scanned, by a client or
-- by the server. Migration 013 restricts the column `execution_scope` to two values and adds a
-- CHECK and two partial unique indexes, which are the invariant of WatchedFolders/Invariant.
pub mod Updates
pub mod Transitions
pub mod Keys
pub mod Rows
pub mod Placing
pub mod Invariant
pub mod Registry
pub mod Return
mod Examples
use pgvector_ragindexer.Base.{
  ℕ, zero, suc, ◌+◌, String, Bool, true, false, ◌&&◌, ◌||◌, not, Option, none, some, List, [], ◌∷◌,
  ◌==◌, string_eq, first, ltb, if◌then◌else◌, rstrip, strip,
}
use pgvector_ragindexer.Sql.{
  Truth, ◌and◌, of_bool, equals, negate, Link, up, down, select, delete, update, count,
}
use pgvector_ragindexer.CanonicalIdentity.{size, collapse}

pub data Scope : Type 0 where
  client server : Scope

abbrev pub same_scope : Scope → Scope → Bool
same_scope client client = true
same_scope server server = true
same_scope client server = false
same_scope server client = false

pub record Folder : Type 0 where
  pub id : String
  pub folder_path : String
  pub enabled : Bool
  pub schedule_cron : String
  pub last_scanned_at : Option ℕ
  pub last_run_id : Option String
  pub client_id : Option String
  pub created_at : ℕ
  pub updated_at : ℕ
  pub metadata : String
  pub execution_scope : Scope
  pub executor_id : Option String
  pub normalized_folder_path : String
  pub root_id : String
  pub last_scan_started_at : Option ℕ
  pub last_scan_completed_at : Option ℕ
  pub last_successful_scan_at : Option ℕ
  pub last_error_at : Option ℕ
  pub consecutive_failures : ℕ
  pub paused : Bool
  pub max_concurrency : ℕ

-- execution_scope not in ("client", "server") is `none`
unfoldable pub scope_of : String → Option Scope
scope_of s = if s == "client" then some client else if s == "server" then some server else none

-- `nt`: whether the server runs on Windows, where the path is lowercased.
unfoldable pub normalize_folder_path : Bool → (String → String) → String → String
unfolding collapse
normalize_folder_path nt lower path =
    let p = strip path in
    let q = collapse (size p) p in
    let r = if ltb 1 (size q) then rstrip "/" q else q in
    if p == "" then p else if nt then lower r else r

-- The arguments of `add_folder`.
pub record NewFolder : Type 0 where
  pub folder_path : String
  pub schedule_cron : String
  pub client_id : Option String
  pub enabled : Bool
  pub metadata : String
  pub execution_scope : String
  pub executor_id : Option String
  pub paused : Bool
  pub max_concurrency : ℕ

-- WHERE executor_id = %s AND normalized_folder_path = %s AND execution_scope = 'client'
-- WHERE normalized_folder_path = %s AND execution_scope = 'server'
unfoldable pub at_place : Scope → Option String → String → Folder → Truth
at_place client none path f = Truth.unknown
at_place client (some e) path f =
    equals f.executor_id e
    and of_bool (f.normalized_folder_path == path)
    and of_bool (same_scope f.execution_scope client)
at_place server e path f =
    of_bool (f.normalized_folder_path == path) and of_bool (same_scope f.execution_scope server)

abbrev pub with_id : String → Folder → Truth
with_id id f = of_bool (f.id == id)

-- UPDATE watched_folders SET … of `add_folder`
abbrev pub resettle : NewFolder → String → ℕ → Folder → Folder
resettle n path now f = record f {
  folder_path = n.folder_path;
  schedule_cron = n.schedule_cron;
  client_id = n.client_id;
  enabled = n.enabled;
  metadata = n.metadata;
  normalized_folder_path = path;
  paused = n.paused;
  max_concurrency = n.max_concurrency;
  updated_at = now;
}

-- The row that INSERT writes, with the two ids that the database makes.
abbrev pub new_row : NewFolder → Scope → Option String → String → ℕ → String → String → Folder
new_row n scope executor path now id root = record {
  id = id;
  folder_path = n.folder_path;
  enabled = n.enabled;
  schedule_cron = n.schedule_cron;
  last_scanned_at = none;
  last_run_id = none;
  client_id = n.client_id;
  created_at = now;
  updated_at = now;
  metadata = n.metadata;
  execution_scope = scope;
  executor_id = executor;
  normalized_folder_path = path;
  root_id = root;
  last_scan_started_at = none;
  last_scan_completed_at = none;
  last_successful_scan_at = none;
  last_error_at = none;
  consecutive_failures = 0;
  paused = n.paused;
  max_concurrency = n.max_concurrency;
}

pub data Added : Type 0 where
  -- ValueError
  rejected : Added
  -- None
  not_added : Added
  added : Folder → Added

-- `executor_id` with its default; `none` raises ValueError
abbrev pub executor_for : Scope → NewFolder → Option (Option String)
executor_for client n = elim n.executor_id [
  | some e ↦ some (some e)
  | none ↦ elim n.client_id [ some c ↦ some (some c) | none ↦ none ]
]
executor_for server n = some none

unfoldable pub upsert :
    NewFolder
    → Scope
    → Option String
    → String
    → ℕ
    → String
    → String
    → List Folder
    → Option Folder
    → Added × List Folder
upsert n scope executor path now id root rows none =
    let f = new_row n scope executor path now id root in (added f, f ∷ rows)
upsert n scope executor path now id root rows (some e) =
    (added (resettle n path now e), update (with_id e.id) (resettle n path now) rows)

abbrev pub add_scoped :
    Link
    → NewFolder
    → String
    → ℕ
    → String
    → String
    → List Folder
    → Scope
    → Option (Option String)
    → Added × List Folder
add_scoped k n path now id root rows scope none = (rejected, rows)
add_scoped down n path now id root rows scope (some executor) = (not_added, rows)
add_scoped up n path now id root rows scope (some executor) =
    upsert n scope executor path now id root rows
      (first (select (at_place scope executor path) rows))

abbrev pub add_in :
    Link
    → NewFolder
    → String
    → ℕ
    → String
    → String
    → List Folder
    → Option Scope
    → Added × List Folder
add_in k n path now id root rows none = (rejected, rows)
add_in k n path now id root rows (some scope) =
    add_scoped k n path now id root rows scope (executor_for scope n)

module _ (nt : Bool) (lower : String → String) where
  unfoldable pub add_folder :
      Link → NewFolder → ℕ → String → String → List Folder → Added × List Folder
  unfolding upsert scope_of
  add_folder k n now id root rows =
      add_in k n (normalize_folder_path nt lower n.folder_path) now id root rows
        (scope_of n.execution_scope)

unfoldable pub remove_folder : Link → String → List Folder → Bool × List Folder
remove_folder down id rows = (false, rows)
remove_folder up id rows = (ltb 0 (count (with_id id) rows), delete (with_id id) rows)

-- SELECT … WHERE id = %s, WHERE root_id = %s
unfoldable pub get_folder : Link → String → List Folder → Option Folder
get_folder down id rows = none
get_folder up id rows = first (select (with_id id) rows)

unfoldable pub get_folder_by_root_id : Link → String → List Folder → Option Folder
get_folder_by_root_id down root rows = none
get_folder_by_root_id up root rows = first (select (λ f. of_bool (f.root_id == root)) rows)

-- The arguments of `list_folders` are conditions if they are given; the order is left out.
abbrev pub in_scope : Option Scope → Folder → Truth
in_scope none f = of_bool true
in_scope (some s) f = of_bool (same_scope f.execution_scope s)

abbrev pub of_executor : Option String → Folder → Truth
of_executor none f = of_bool true
of_executor (some e) f = equals f.executor_id e

unfoldable pub list_folders : Link → Bool → Option Scope → Option String → List Folder → List Folder
list_folders down enabled_only scope executor rows = []
list_folders up enabled_only scope executor rows =
    select
      (λ f. of_bool (not enabled_only || f.enabled) and in_scope scope f and of_executor executor f)
      rows
