-- ===== src/WatchedFolders/Return.antt =====
-- A folder that is given to the server can be given back.
use pgvector_ragindexer.Base.{
  ℕ, String, ◌≡◌, refl, sym, ap, ap₂, subst, ◌∙◌, inl, inr, true, false, Option, none, some, List,
  [], ◌∷◌, ◌==◌, string_eq, arith, All, All-map, first, Bool-cases, ==_sound, ==_refl,
}
use pgvector_ragindexer.Sql.{up, is_true, select, update, ◌and◌, negate}
use pgvector_ragindexer.Sql.Laws.{select-first-holds, first-update_self, update-update, map_row}
use pgvector_ragindexer.WatchedFolders.{Scope, client, server, Folder, at_place, with_id}
use pgvector_ragindexer.WatchedFolders.Transitions.{
  moved, transition_scope, move_found, move_to, unless_conflict,
}
use pgvector_ragindexer.WatchedFolders.Keys.{key_of, apart, IsValid}
use pgvector_ragindexer.WatchedFolders.Rows.{first-Has, Has-unique, Has-others}

-- A row that does not clash with a client's folder is not found at its place.
apart-at_place :
    (f g : Folder) (t : Scope) (e : String)
    → g.execution_scope ≡ t
    → f.execution_scope ≡ client
    → f.executor_id ≡ some e
    → apart (key_of f) (key_of g) ≡ true
    → is_true (at_place client (some e) f.normalized_folder_path g) ≡ false
unfolding apart key_of at_place
apart-at_place f g client e q s x h = ground arith
apart-at_place f g server e q s x h = ground arith

abbrev pub touch : ℕ → Folder → Folder
touch now r = record r { updated_at = now }

abbrev give : ℕ → Folder → Folder
give now = move_to server none now

back_again :
    (e : String) (now later : ℕ) (r : Folder)
    → r.execution_scope ≡ client
    → r.executor_id ≡ some e
    → move_to client (some e) later (give now r) ≡ touch later r
back_again e now later r s x = ground arith

transition_scope-server :
    (id : String) (now : ℕ) (rows : List Folder)
    → transition_scope up id "server" none now rows
      ≡ move_found id server none now rows (first (select (with_id id) rows))
unfolding transition_scope string_eq
transition_scope-server id now rows = refl

transition_scope-client :
    (id e : String) (now : ℕ) (rows : List Folder)
    → (e == "") ≡ false
    → transition_scope up id "client" (some e) now rows
      ≡ move_found id client (some e) now rows (first (select (with_id id) rows))
unfolding transition_scope
transition_scope-client id e now rows named = rw (==_refl {A = String} "client", named)

move_found-away :
    (id : String) (now : ℕ) (rows : List Folder) (f : Folder)
    → f.execution_scope ≡ client
    → move_found id server none now rows (some f)
      ≡ unless_conflict id server none now rows f (
          first (
            select
              (λ x. at_place server none f.normalized_folder_path x and negate (with_id id x))
              rows))
unfolding move_found
move_found-away id now rows f scope = rw scope

module _ (id e : String) (now later : ℕ) (f : Folder) (rs : List Folder) (v : IsValid rs)
    (found : first (select (with_id id) rs) ≡ some f) (scope : f.execution_scope ≡ client)
    (executor : f.executor_id ≡ some e) where
  abbrev given : List Folder
  given = update (with_id id) (give now) rs

  its_id : f.id ≡ id
  its_id = ==_sound f.id id (ground (arith, select-first-holds (with_id id) rs found))

  nobody_there :
      (gs : List Folder)
      → All (λ g. (g.id == f.id) ≡ false → apart (key_of f) (key_of g) ≡ true) gs
      → first (
          select
            (λ g. at_place client (some e) f.normalized_folder_path g and negate (with_id id g))
            (update (with_id id) (give now) gs))
        ≡ none
  unfolding select update
  nobody_there [] h = refl
  nobody_there (g ∷ gs) h = elim (Bool-cases (g.id == id)) [
    | inl y ↦ ground (arith, nobody_there gs h.1)
    | inr n ↦
        let away = apart-at_place f g g.execution_scope e refl scope executor (h.0 (rw its_id n)) in
        ground (arith, nobody_there gs h.1)
  ]

  given_row : first (select (with_id id) given) ≡ some (give now f)
  given_row =
      first-update_self (with_id id) (give now) (λ r y. y) rs
      ∙ ap (map_row (with_id id) (give now)) found

  given_back :
      move_found id client (some e) later given (some (give now f))
      ≡ (moved (touch later f), update (with_id id) (touch later) rs)
  unfolding move_found
  given_back = rw (nobody_there rs (Has-others rs f v (first-Has (with_id id) rs found))) (
      ap₂ (λ g gs. (moved g, gs)) (back_again e now later f scope executor)
        (update-update (with_id id) (give now) (λ r y. y) (move_to client (some e) later)
          (touch later) rs
          (All-map
            (λ r u y.
              subst (λ w. move_to client (some e) later (give now w) ≡ touch later w)
                (sym (u (rw its_id (ground arith)))) (back_again e now later f scope executor))
            rs (Has-unique rs f v (first-Has (with_id id) rs found)))))

  gives :
      (o : Option Folder) (g : Folder)
      → (unless_conflict id server none now rs f o).0 ≡ moved g
      → (unless_conflict id server none now rs f o).1 ≡ given
  gives none g h = refl
  gives (some x) g h = cc

  given_table :
      (g : Folder)
      → (transition_scope up id "server" none now rs).0 ≡ moved g
      → (transition_scope up id "server" none now rs).1 ≡ given
  given_table g h = ap (λ w. w.1) to_server ∙ gives _ g (sym (ap (λ w. w.0) to_server) ∙ h)
    where
      to_server :
          transition_scope up id "server" none now rs
          ≡ unless_conflict id server none now rs f (
              first (
                select
                  (λ x. at_place server none f.normalized_folder_path x and negate (with_id id x))
                  rs))
      to_server =
          transition_scope-server id now rs
          ∙ ap (move_found id server none now rs) found
          ∙ move_found-away id now rs f scope

  -- A folder of a client that the server takes over can always be given back to that client, and is
  -- then as it was, but for the time of its last change, and so are all other rows. Conditions: the
  -- table meets its constraints, the database is up, the client's name is not empty, and nothing
  -- changed in between.
  pub transition_scope-back :
      (g : Folder)
      → (e == "") ≡ false
      → (transition_scope up id "server" none now rs).0 ≡ moved g
      → transition_scope up id "client"
          (some e)
          later
          (transition_scope up id "server" none now rs).1
        ≡ (moved (touch later f), update (with_id id) (touch later) rs)
  transition_scope-back g named h =
      ap (transition_scope up id "client" (some e) later) (given_table g h)
      ∙ transition_scope-client id e later given named
      ∙ ap (move_found id client (some e) later given) given_row
      ∙ given_back
