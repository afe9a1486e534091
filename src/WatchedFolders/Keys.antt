-- ===== src/WatchedFolders/Keys.antt =====
-- What the constraints of the table say of two rows, and what an UPDATE by id does to them.
use pgvector_ragindexer.Base.{
  String, ◌≡◌, refl, Bool, true, false, ◌&&◌, not, Option, none, some, List, [], ◌∷◌, ◌==◌,
  string_eq, arith, All, Bool-cases, inl, inr,
}
use pgvector_ragindexer.Sql.{Truth, is_true, delete, update}
use pgvector_ragindexer.WatchedFolders.{Scope, client, server, Folder, with_id}

-- The columns of the primary key, of the CHECK and of the two unique indexes.
pub record Key : Type 0 where
  pub id : String
  pub scope : Scope
  pub executor : Option String
  pub path : String

unfoldable pub key_of : Folder → Key
key_of f = record {
  id = f.id;
  scope = f.execution_scope;
  executor = f.executor_id;
  path = f.normalized_folder_path;
}

-- CHECK chk_scope_executor
abbrev pub fits_scope : Scope → Option String → Bool
fits_scope client (some e) = true
fits_scope client none = false
fits_scope server (some e) = false
fits_scope server none = true

abbrev pub same_executor : Option String → Option String → Bool
same_executor (some a) (some b) = a == b
same_executor (some a) none = false
same_executor none b = false

-- A clash in the index of the scope.
abbrev pub clash : Scope → Scope → Key → Key → Bool
clash client client k l = same_executor k.executor l.executor && k.path == l.path
clash server server k l = k.path == l.path
clash client server k l = false
clash server client k l = false

-- Two rows with different ids that do not clash.
unfoldable pub apart : Key → Key → Bool
apart k l = not (k.id == l.id) && not (clash k.scope l.scope k l)

abbrev pub AllApart : Key → List Folder → Type 0
AllApart k = All (λ g. apart k (key_of g) ≡ true)

abbrev pub Fits : Key → Type 0
Fits k = fits_scope k.scope k.executor ≡ true

-- The table meets its constraints.
abbrev pub IsValid : List Folder → Type 0
IsValid [] = Unit
IsValid (r ∷ rs) = Fits (key_of r) × AllApart (key_of r) rs × IsValid rs

same_executor_comm : (a b : Option String) → same_executor a b ≡ same_executor b a
same_executor_comm none none = refl
same_executor_comm none (some b) = refl
same_executor_comm (some a) none = refl
same_executor_comm (some a) (some b) = ground arith

clash_comm : (s t : Scope) (k l : Key) → clash s t k l ≡ clash t s l k
clash_comm client client k l = ground (arith, same_executor_comm k.executor l.executor)
clash_comm server server k l = ground arith
clash_comm client server k l = refl
clash_comm server client k l = refl

pub apart_comm : (k l : Key) → apart k l ≡ true → apart l k ≡ true
unfolding apart
apart_comm k l h = ground (arith, clash_comm k.scope l.scope k l)

module _ (p : Folder → Truth) where
  pub AllApart-delete : (k : Key) (rs : List Folder) → AllApart k rs → AllApart k (delete p rs)
  unfolding delete
  AllApart-delete k [] h = tt
  AllApart-delete k (r ∷ rs) h = ground (arith, AllApart-delete k rs h.1)

  pub IsValid-delete : (rs : List Folder) → IsValid rs → IsValid (delete p rs)
  unfolding delete
  IsValid-delete [] h = tt
  IsValid-delete (r ∷ rs) h =
      ground (arith, IsValid-delete rs h.2, AllApart-delete (key_of r) rs h.1)

-- An UPDATE of other columns.
module _ (p : Folder → Truth) (f : Folder → Folder)
    (keeps : (r : Folder) → key_of (f r) ≡ key_of r) where
  AllApart-update_same : (k : Key) (rs : List Folder) → AllApart k rs → AllApart k (update p f rs)
  unfolding update
  AllApart-update_same k [] h = tt
  AllApart-update_same k (r ∷ rs) h = elim (Bool-cases (is_true (p r))) [
    | inl y ↦ rw (y, keeps r) (h.0, AllApart-update_same k rs h.1)
    | inr n ↦ rw n (h.0, AllApart-update_same k rs h.1)
  ]

  pub IsValid-update_same : (rs : List Folder) → IsValid rs → IsValid (update p f rs)
  unfolding update
  IsValid-update_same [] h = tt
  IsValid-update_same (r ∷ rs) (fit, ap', ok) =
      let rest = AllApart-update_same (key_of r) rs ap' in
      elim (Bool-cases (is_true (p r))) [
        | inl y ↦ rw (y, keeps r) (fit, rest, IsValid-update_same rs ok)
        | inr n ↦ rw n (fit, rest, IsValid-update_same rs ok)
      ]

-- An UPDATE of one row, which gives it the key `n`.
module _ (id : String) (f : Folder → Folder) (n : Key) (fit : Fits n) where
  abbrev Becomes : List Folder → Type 0
  Becomes = All (λ r. (r.id == id) ≡ true → key_of (f r) ≡ n)

  abbrev OthersApart : List Folder → Type 0
  OthersApart = All (λ g. (g.id == id) ≡ false → apart n (key_of g) ≡ true)

  other_ids :
      (r g : Folder)
      → (r.id == id) ≡ true
      → apart (key_of r) (key_of g) ≡ true
      → (g.id == id) ≡ false
  unfolding apart key_of
  other_ids r g y h = ground arith

  AllApart-others :
      (r : Folder)
      → (r.id == id) ≡ true
      → (rs : List Folder) → AllApart (key_of r) rs
      → OthersApart rs
      → AllApart n (update (with_id id) f rs)
  unfolding update
  AllApart-others r y [] h o = tt
  AllApart-others r y (g ∷ gs) h o =
      let no = other_ids r g y h.0 in rw no (o.0 no, AllApart-others r y gs h.1 o.1)

  AllApart-Becomes :
      (k : Key)
      → apart k n ≡ true
      → (rs : List Folder) → AllApart k rs
      → Becomes rs
      → AllApart k (update (with_id id) f rs)
  unfolding update
  AllApart-Becomes k a [] h b = tt
  AllApart-Becomes k a (g ∷ gs) h b = elim (Bool-cases (g.id == id)) [
    | inl y ↦ rw (y, b.0 y) (a, AllApart-Becomes k a gs h.1 b.1)
    | inr other ↦ rw other (h.0, AllApart-Becomes k a gs h.1 b.1)
  ]

  pub IsValid-update :
      (rs : List Folder)
      → IsValid rs
      → Becomes rs
      → OthersApart rs
      → IsValid (update (with_id id) f rs)
  unfolding update
  IsValid-update [] h b o = tt
  IsValid-update (r ∷ rs) (fr, ap', ok) b o =
      let rest = IsValid-update rs ok b.1 o.1 in
      elim (Bool-cases (r.id == id)) [
        | inl y ↦ rw (y, b.0 y) (fit, AllApart-others r y rs ap' o.1, rest)
        | inr other ↦
            let a = apart_comm n (key_of r) (o.0 other) in
            rw other (fr, AllApart-Becomes (key_of r) a rs ap' b.1, rest)
      ]
