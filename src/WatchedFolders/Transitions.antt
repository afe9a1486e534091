-- ===== src/WatchedFolders/Transitions.antt =====
-- watched_folders.py: transition_scope, which moves a folder between the clients and the server.
use pgvector_ragindexer.Base.{
  ℕ, String, Bool, true, Option, none, some, List, first, ◌==◌, string_eq, if◌then◌else◌,
}
use pgvector_ragindexer.Sql.{◌and◌, negate, Link, up, down, select, update}
use pgvector_ragindexer.WatchedFolders.{
  Scope, client, server, same_scope, scope_of, Folder, at_place, with_id, get_folder,
}

pub data Transition : Type 0 where
  -- {"ok": True, "folder": f}
  moved : Folder → Transition
  -- {"ok": False, "error": …}
  invalid_scope no_executor not_found already_there conflict failed : Transition

abbrev pub absent : Option String → Bool
absent none = true
absent (some s) = s == ""

abbrev pub target_executor : Scope → Option String → Option String
target_executor client e = e
target_executor server e = none

abbrev pub move_to : Scope → Option String → ℕ → Folder → Folder
move_to scope e now f = record f {
  execution_scope = scope;
  executor_id = target_executor scope e;
  updated_at = now;
}

abbrev pub unless_conflict :
    String
    → Scope
    → Option String
    → ℕ
    → List Folder
    → Folder
    → Option Folder
    → Transition × List Folder
unless_conflict id scope e now rows f (some other) = (conflict, rows)
unless_conflict id scope e now rows f none =
    (moved (move_to scope e now f), update (with_id id) (move_to scope e now) rows)

unfoldable pub move_found :
    String → Scope → Option String → ℕ → List Folder → Option Folder → Transition × List Folder
move_found id scope e now rows none = (not_found, rows)
move_found id scope e now rows (some f) =
    let clashing = λ (g : Folder).
      at_place scope (target_executor scope e) f.normalized_folder_path g
      and negate (with_id id g) in
    if same_scope f.execution_scope scope
    then (already_there, rows)
    else unless_conflict id scope e now rows f (first (select clashing rows))

abbrev pub transition_to :
    Link → String → Scope → Option String → ℕ → List Folder → Transition × List Folder
transition_to down id scope e now rows = (failed, rows)
transition_to up id scope e now rows = move_found id scope e now rows (get_folder up id rows)

abbrev pub transition_in :
    Link → String → Option String → ℕ → List Folder → Option Scope → Transition × List Folder
transition_in k id e now rows none = (invalid_scope, rows)
transition_in k id e now rows (some client) =
    if absent e then (no_executor, rows) else transition_to k id client e now rows
transition_in k id e now rows (some server) = transition_to k id server e now rows

unfoldable pub transition_scope :
    Link → String → String → Option String → ℕ → List Folder → Transition × List Folder
unfolding scope_of move_found get_folder at_place
transition_scope k id target e now rows = transition_in k id e now rows (scope_of target)
