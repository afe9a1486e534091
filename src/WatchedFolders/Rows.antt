-- ===== src/WatchedFolders/Rows.antt =====
-- A row that a query finds, among the other rows of a table that meets its constraints.
use pgvector_ragindexer.Base.{
  String, ◌≡◌, refl, subst, ◌⊎◌, inl, inr, true, false, Option, none, some, List, [], ◌∷◌, ◌==◌,
  string_eq, arith, All, first, Bool-cases, ==_refl,
}
use pgvector_ragindexer.Sql.{Truth, is_true, select}
use pgvector_ragindexer.WatchedFolders.{Scope, client, server, Folder, at_place}
use pgvector_ragindexer.WatchedFolders.Keys.{
  Key, key_of, apart, clash, Fits, fits_scope, AllApart, IsValid, apart_comm,
}

-- `e` is a row of the table.
abbrev pub Has : Folder → List Folder → Type 0
Has e [] = ⊥
Has e (r ∷ rs) = (r ≡ e) ⊎ Has e rs

pub first-Has :
    (p : Folder → Truth) (rs : List Folder) {e : Folder} → first (select p rs) ≡ some e → Has e rs
unfolding select
first-Has p [] h = cc
first-Has p (r ∷ rs) h = elim (Bool-cases (is_true (p r))) [
  | inl y ↦ inl (ground arith)
  | inr n ↦ inr (first-Has p rs (ground arith))
]

Has-apart :
    (k : Key) (rs : List Folder) (e : Folder) → AllApart k rs → Has e rs → apart k (key_of e) ≡ true
Has-apart k [] e h i = absurd i
Has-apart k (r ∷ rs) e h (inl same) = subst (λ w. apart k (key_of w) ≡ true) same h.0
Has-apart k (r ∷ rs) e h (inr i) = Has-apart k rs e h.1 i

pub Has-Fits : (rs : List Folder) (e : Folder) → IsValid rs → Has e rs → Fits (key_of e)
Has-Fits [] e v i = absurd i
Has-Fits (r ∷ rs) e v (inl same) = subst (λ w. Fits (key_of w)) same v.0
Has-Fits (r ∷ rs) e v (inr i) = Has-Fits rs e v.2 i

apart_ids : (r g : Folder) → apart (key_of r) (key_of g) ≡ true → (g.id == r.id) ≡ false
unfolding apart key_of
apart_ids r g h = ground arith

apart_ids' : (r g : Folder) → apart (key_of r) (key_of g) ≡ true → (r.id == g.id) ≡ false
unfolding apart key_of
apart_ids' r g h = ground arith

none_has_id :
    (r : Folder) (rs : List Folder)
    → AllApart (key_of r) rs
    → All (λ g. (g.id == r.id) ≡ true → g ≡ r) rs
none_has_id r [] h = tt
none_has_id r (g ∷ gs) h = ((λ y. cc (apart_ids r g h.0)), none_has_id r gs h.1)

-- The row with an id is the only one with that id.
pub Has-unique :
    (rs : List Folder) (e : Folder)
    → IsValid rs
    → Has e rs
    → All (λ r. (r.id == e.id) ≡ true → r ≡ e) rs
Has-unique [] e v i = absurd i
Has-unique (r ∷ rs) e (fit, ap', ok) (inl same) =
    subst (λ w. All (λ g. (g.id == w.id) ≡ true → g ≡ w) (r ∷ rs)) same
      ((λ _. refl), none_has_id r rs ap')
Has-unique (r ∷ rs) e (fit, ap', ok) (inr i) =
    ((λ y. cc (apart_ids' r e (Has-apart (key_of r) rs e ap' i))), Has-unique rs e ok i)

AllApart-others :
    (r : Folder) (rs : List Folder)
    → AllApart (key_of r) rs
    → All (λ g. (g.id == r.id) ≡ false → apart (key_of r) (key_of g) ≡ true) rs
AllApart-others r [] h = tt
AllApart-others r (g ∷ gs) h = ((λ _. h.0), AllApart-others r gs h.1)

pub Has-others :
    (rs : List Folder) (e : Folder)
    → IsValid rs
    → Has e rs
    → All (λ g. (g.id == e.id) ≡ false → apart (key_of e) (key_of g) ≡ true) rs
Has-others [] e v i = absurd i
Has-others (r ∷ rs) e (fit, ap', ok) (inl same) =
    subst (λ w. All (λ g. (g.id == w.id) ≡ false → apart (key_of w) (key_of g) ≡ true) (r ∷ rs))
      same ((λ n. cc (==_refl r.id)), AllApart-others r rs ap')
Has-others (r ∷ rs) e (fit, ap', ok) (inr i) = (
  (λ _. apart_comm (key_of r) (key_of e) (Has-apart (key_of r) rs e ap' i)),
  Has-others rs e ok i,
)

-- A row that the query for a place does not find does not clash with a row of that place.
pub at_place-clash :
    (s t : Scope) (e : Option String) (path : String) (g : Folder)
    → g.execution_scope ≡ t
    → fits_scope s e ≡ true
    → is_true (at_place s e path g) ≡ false
    → (id : String)
    → clash s t (record { id = id; scope = s; executor = e; path = path }) (key_of g) ≡ false
unfolding at_place key_of
at_place-clash client client (some e) path g q fit h id = ground arith
at_place-clash client client none path g q fit h id = ground arith
at_place-clash server server e path g q fit h id = ground arith
at_place-clash client server e path g q fit h id = refl
at_place-clash server client e path g q fit h id = refl
