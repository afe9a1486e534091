-- ===== src/WatchedFolders/Placing.antt =====
-- A row that is inserted, or given another place, meets the constraints of the table.
use pgvector_ragindexer.Base.{
  ℕ, String, ◌≡◌, refl, ap, inl, inr, true, false, Option, none, some, List, [], ◌∷◌, ◌==◌,
  string_eq, arith, All, All-map, first, ◌∙◌, Bool-cases, ==_sound,
}
use pgvector_ragindexer.Sql.{Truth, Link, up, down, is_true, select, ◌and◌, negate}
use pgvector_ragindexer.Sql.Laws.{select-first-holds}
use pgvector_ragindexer.WatchedFolders.{
  Scope, client, server, same_scope, Folder, NewFolder, at_place, with_id, resettle, executor_for,
  upsert, add_scoped,
}
use pgvector_ragindexer.WatchedFolders.Transitions.{
  move_found, move_to, unless_conflict, target_executor,
}
use pgvector_ragindexer.WatchedFolders.Keys.{
  Key, key_of, apart, clash, fits_scope, AllApart, IsValid, IsValid-update,
}
use pgvector_ragindexer.WatchedFolders.Rows.{
  Has, first-Has, Has-Fits, Has-unique, Has-others, at_place-clash,
}

-- No row has this id yet.
abbrev pub IsFresh : String → List Folder → Type 0
IsFresh id = All (λ g. (id == g.id) ≡ false)

and_fails : (p q : Truth) → is_true (p and q) ≡ false → is_true q ≡ true → is_true p ≡ false
and_fails p q h y = ground arith

abbrev key : String → Scope → Option String → String → Key
key id s e path = record { id = id; scope = s; executor = e; path = path }

apart_intro :
    (k : Key) (g : Folder)
    → (k.id == g.id) ≡ false
    → clash k.scope g.execution_scope k (key_of g) ≡ false
    → apart k (key_of g) ≡ true
unfolding apart key_of
apart_intro k g i c = ground arith

module _ (s : Scope) (e : Option String) (path id : String) (fit : fits_scope s e ≡ true) where
  new_row-AllApart :
      (rs : List Folder)
      → IsFresh id rs
      → first (select (at_place s e path) rs) ≡ none
      → AllApart (key id s e path) rs
  unfolding select
  new_row-AllApart [] fresh h = tt
  new_row-AllApart (g ∷ gs) fresh h = elim (Bool-cases (is_true (at_place s e path g))) [
    | inl y ↦ absurd (ground arith)
    | inr n ↦
        let c = at_place-clash s g.execution_scope e path g refl fit n id in
        (apart_intro (key id s e path) g fresh.0 c, new_row-AllApart gs fresh.1 (ground arith))
  ]

  -- What the query for a conflict leaves out.
  moved-OthersApart :
      (rs : List Folder)
      → first (select (λ g. at_place s e path g and negate (with_id id g)) rs) ≡ none
      → All (λ g. (g.id == id) ≡ false → apart (key id s e path) (key_of g) ≡ true) rs
  unfolding select
  moved-OthersApart [] h = tt
  moved-OthersApart (g ∷ gs) h =
      elim (Bool-cases (is_true (at_place s e path g and negate (with_id id g)))) [
        | inl y ↦ absurd (ground arith)
        | inr n ↦ (
          (λ other.
              apart_intro (key id s e path) g (ground arith)
                (at_place-clash s g.execution_scope e path g refl fit (not_there g other n) id)),
          moved-OthersApart gs (ground arith),
        )
      ]
    where
      not_there :
          (g : Folder)
          → (g.id == id) ≡ false
          → is_true (at_place s e path g and negate (with_id id g)) ≡ false
          → is_true (at_place s e path g) ≡ false
      not_there g other n = and_fails (at_place s e path g) _ n (ground arith)

pub at_place-path :
    (s : Scope) (e : Option String) (path : String) (f : Folder)
    → is_true (at_place s e path f) ≡ true
    → f.normalized_folder_path ≡ path
unfolding at_place
at_place-path client none path f h = ground arith
at_place-path client (some e) path f h = ground arith
at_place-path server e path f h = ground arith

module _ (n : NewFolder) (s : Scope) (e : Option String) (path : String) (now : ℕ)
    (id root : String) (fit : fits_scope s e ≡ true) where
  found_key :
      (f : Folder)
      → is_true (at_place s e path f) ≡ true
      → key_of (resettle n path now f) ≡ key_of f
  unfolding key_of
  found_key f h = rw (at_place-path s e path f h)

  upsert-IsValid :
      (rs : List Folder) (o : Option Folder)
      → first (select (at_place s e path) rs) ≡ o
      → IsFresh id rs
      → IsValid rs
      → IsValid (upsert n s e path now id root rs o).1
  unfolding upsert key_of
  upsert-IsValid rs none h fresh v = (fit, new_row-AllApart s e path id fit rs fresh h, v)
  upsert-IsValid rs (some f) h fresh v =
      let i = first-Has _ rs h in
      let same = found_key f (select-first-holds _ rs h) in
      IsValid-update f.id (resettle n path now) (key_of f) (Has-Fits rs f v i) rs v
        (All-map (λ r u y. ap (λ w. key_of (resettle n path now w)) (u y) ∙ same) rs
          (Has-unique rs f v i))
        (Has-others rs f v i)

pub executor_for-fits_scope :
    (s : Scope) (n : NewFolder) (e : Option String)
    → executor_for s n ≡ some e
    → fits_scope s e ≡ true
executor_for-fits_scope client n e h = chosen n.executor_id n.client_id e h
  where
    chosen :
        (x c e : Option String)
        → elim x as (λ _. Option (Option String)) [
          | some a ↦ some (some a)
          | none ↦ elim c as (λ _. Option (Option String)) [ some d ↦ some (some d) | none ↦ none ]
        ]
          ≡ some e
        → fits_scope client e ≡ true
    chosen (some a) c (some b) h = refl
    chosen none (some d) (some b) h = refl
    chosen none none e h = cc
    chosen (some a) c none h = cc
    chosen none (some d) none h = cc
executor_for-fits_scope server n none h = refl
executor_for-fits_scope server n (some e) h = cc

pub add_scoped-IsValid :
    (k : Link) (n : NewFolder) (path : String) (now : ℕ) (id root : String) (rs : List Folder)
    (s : Scope) (o : Option (Option String))
    → executor_for s n ≡ o
    → IsFresh id rs
    → IsValid rs
    → IsValid (add_scoped k n path now id root rs s o).1
add_scoped-IsValid k n path now id root rs s none h fresh v = v
add_scoped-IsValid down n path now id root rs s (some e) h fresh v = v
add_scoped-IsValid up n path now id root rs s (some e) h fresh v =
    upsert-IsValid n s e path now id root (executor_for-fits_scope s n e h) rs _ refl fresh v

module _ (id : String) (s : Scope) (e : Option String) (now : ℕ)
    (fit : fits_scope s (target_executor s e) ≡ true) where
  moved_key :
      (f : Folder)
      → f.id ≡ id
      → key_of (move_to s e now f) ≡ key id s (target_executor s e) f.normalized_folder_path
  unfolding key_of
  moved_key f same = rw same

  move-IsValid :
      (f : Folder) (rs : List Folder) (o : Option Folder)
      → f.id ≡ id
      → first (
          select
            (λ g.
              at_place s (target_executor s e) f.normalized_folder_path g and negate (with_id id g))
            rs)
        ≡ o
      → IsValid rs
      → Has f rs
      → IsValid (unless_conflict id s e now rs f o).1
  move-IsValid f rs (some g) same h v i = v
  move-IsValid f rs none same h v i =
      IsValid-update id (move_to s e now) (key id s (target_executor s e) f.normalized_folder_path)
        fit rs v
        (All-map (λ r u y. ap (λ w. key_of (move_to s e now w)) (u (rw same y)) ∙ moved_key f same)
          rs (Has-unique rs f v i))
        (moved-OthersApart s (target_executor s e) f.normalized_folder_path id fit rs h)

  pub move_found-IsValid :
      (rs : List Folder) (o : Option Folder)
      → first (select (with_id id) rs) ≡ o
      → IsValid rs
      → IsValid (move_found id s e now rs o).1
  unfolding move_found
  move_found-IsValid rs none h v = v
  move_found-IsValid rs (some f) h v = elim (Bool-cases (same_scope f.execution_scope s)) [
    | inl y ↦ rw y v
    | inr n ↦
        let here = ==_sound f.id id (ground (arith, select-first-holds (with_id id) rs h)) in
        rw n (move-IsValid f rs _ here refl v (first-Has (with_id id) rs h))
  ]
