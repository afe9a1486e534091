-- ===== src/WatchedFolders/Invariant.antt =====
-- The constraints of the table hold whatever calls are made: no statement of the code can violate
-- them.
use pgvector_ragindexer.Base.{
  ℕ, String, ◌≡◌, refl, inl, inr, Bool, true, Option, none, some, List, [], ◌==◌, string_eq,
  Bool-cases,
}
use pgvector_ragindexer.Sql.{Link, up, down}
use pgvector_ragindexer.WatchedFolders.{
  Scope, client, server, Folder, NewFolder, add_folder, add_in, remove_folder, scope_of, get_folder,
}
use pgvector_ragindexer.WatchedFolders.Updates.{
  Settings, update_folder, nothing_given, apply_settings, mark_scanned, Marks,
  update_scan_watermarks, no_marks, assigned_twice, write_marks, set_marks,
}
use pgvector_ragindexer.WatchedFolders.Transitions.{
  transition_scope, transition_in, transition_to, target_executor,
}
use pgvector_ragindexer.WatchedFolders.Keys.{
  key_of, fits_scope, IsValid, IsValid-delete, IsValid-update_same,
}
use pgvector_ragindexer.WatchedFolders.Placing.{IsFresh, add_scoped-IsValid, move_found-IsValid}

add_in-IsValid :
    (k : Link) (n : NewFolder) (path : String) (now : ℕ) (id root : String) (rs : List Folder)
    (o : Option Scope)
    → IsFresh id rs
    → IsValid rs
    → IsValid (add_in k n path now id root rs o).1
add_in-IsValid k n path now id root rs none fresh v = v
add_in-IsValid k n path now id root rs (some s) fresh v =
    add_scoped-IsValid k n path now id root rs s _ refl fresh v

transition_to-IsValid :
    (k : Link) (id : String) (s : Scope) (e : Option String) (now : ℕ)
    → fits_scope s (target_executor s e) ≡ true
    → (rs : List Folder) → IsValid rs
    → IsValid (transition_to k id s e now rs).1
unfolding get_folder
transition_to-IsValid down id s e now fit rs v = v
transition_to-IsValid up id s e now fit rs v = move_found-IsValid id s e now fit rs _ refl v

transition_in-IsValid :
    (k : Link) (id : String) (e : Option String) (now : ℕ) (rs : List Folder) (o : Option Scope)
    → IsValid rs
    → IsValid (transition_in k id e now rs o).1
transition_in-IsValid k id e now rs none v = v
transition_in-IsValid k id none now rs (some client) v = v
transition_in-IsValid k id (some x) now rs (some client) v = elim (Bool-cases (x == "")) [
  | inl y ↦ rw y v
  | inr n ↦ rw n (transition_to-IsValid k id client (some x) now refl rs v)
]
transition_in-IsValid k id e now rs (some server) v =
    transition_to-IsValid k id server e now refl rs v

-- The calls that change the table. The database makes a new id for a new row.
pub data Step : List Folder → List Folder → Type 0 where
  adds :
      (nt : Bool) (lower : String → String) (k : Link) (n : NewFolder) (now : ℕ) (id root : String)
      (rs : List Folder)
      → IsFresh id rs
      → Step rs (add_folder nt lower k n now id root rs).1
  removes : (k : Link) (id : String) (rs : List Folder) → Step rs (remove_folder k id rs).1
  updates :
      (k : Link) (id : String) (s : Settings) (now : ℕ) (rs : List Folder)
      → Step rs (update_folder k id s now rs).1
  marks :
      (k : Link) (id : String) (run : Option String) (now : ℕ) (rs : List Folder)
      → Step rs (mark_scanned k id run now rs).1
  watermarks :
      (k : Link) (id : String) (m : Marks) (now : ℕ) (rs : List Folder)
      → Step rs (update_scan_watermarks k id m now rs).1
  transitions :
      (k : Link) (id target : String) (e : Option String) (now : ℕ) (rs : List Folder)
      → Step rs (transition_scope k id target e now rs).1

pub data Reach : List Folder → Type 0 where
  empty : Reach []
  next : {rs ts : List Folder} → Reach rs → Step rs ts → Reach ts

set_marks-key : (m : Marks) (now : ℕ) (f : Folder) → key_of (set_marks m now f) ≡ key_of f
unfolding key_of
set_marks-key m now f = refl

apply_settings-key :
    (s : Settings) (now : ℕ) (f : Folder) → key_of (apply_settings s now f) ≡ key_of f
unfolding key_of
apply_settings-key s now f = refl

write_marks-IsValid :
    (k : Link) (id : String) (m : Marks) (now : ℕ) (rs : List Folder)
    → IsValid rs
    → IsValid (write_marks k id m now rs).1
write_marks-IsValid down id m now rs v = v
write_marks-IsValid up id m now rs v = elim (Bool-cases (assigned_twice m)) [
  | inl y ↦ rw y v
  | inr n ↦ rw n (IsValid-update_same _ _ (set_marks-key m now) rs v)
]

Step-IsValid : {rs ts : List Folder} → Step rs ts → IsValid rs → IsValid ts
unfolding add_folder remove_folder update_folder mark_scanned update_scan_watermarks
    transition_scope key_of
Step-IsValid (adds nt lower k n now id root rs fresh) v =
    add_in-IsValid k n _ now id root rs (scope_of n.execution_scope) fresh v
Step-IsValid (removes up id rs) v = IsValid-delete _ rs v
Step-IsValid (removes down id rs) v = v
Step-IsValid (updates up id s now rs) v = elim (Bool-cases (nothing_given s)) [
  | inl y ↦ rw y v
  | inr n ↦ rw n (IsValid-update_same _ _ (apply_settings-key s now) rs v)
]
Step-IsValid (updates down id s now rs) v = elim (Bool-cases (nothing_given s)) [
  | inl y ↦ rw y v
  | inr n ↦ rw n v
]
Step-IsValid (marks up id run now rs) v = IsValid-update_same _ _ (λ _. refl) rs v
Step-IsValid (marks down id run now rs) v = v
Step-IsValid (watermarks k id m now rs) v = elim (Bool-cases (no_marks m)) [
  | inl y ↦ rw y v
  | inr n ↦ rw n (write_marks-IsValid k id m now rs v)
]
Step-IsValid (transitions k id target e now rs) v =
    transition_in-IsValid k id e now rs (scope_of target) v

-- Whatever calls were made from an empty table, and whichever of them failed, the table meets its
-- constraints: a folder has an executor exactly if it is a client's, the server watches no path
-- twice, no executor watches a path twice, and no two rows have the same id.
pub Reach-IsValid : {rs : List Folder} → Reach rs → IsValid rs
Reach-IsValid empty = tt
Reach-IsValid (next r s) = Step-IsValid s (Reach-IsValid r)
