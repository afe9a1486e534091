-- ===== src/WatchedFolders/Registry.antt =====
-- What the table means: for each place, that is a scope, an executor and a normalized path, the
-- settings of the folder that is watched there. The ids, the times and the order of the rows are
-- forgotten.
use pgvector_ragindexer.Base.{
  ℕ, String, ◌≡◌, refl, sym, ap, subst, ◌∙◌, inl, inr, Bool, true, false, Option, none, some, List,
  [], ◌∷◌, ◌==◌, string_eq, arith, All, first, Bool-cases, if◌then◌else◌, ==_refl,
}
use pgvector_ragindexer.Sql.{Truth, up, is_true, select, update}
use pgvector_ragindexer.Sql.Laws.{select-first-holds}
use pgvector_ragindexer.WatchedFolders.{
  Scope, client, server, Folder, NewFolder, at_place, with_id, resettle, new_row, executor_for,
  upsert, add_folder, add_in, add_scoped, scope_of, normalize_folder_path,
}
use pgvector_ragindexer.WatchedFolders.Keys.{clash, fits_scope, IsValid}
use pgvector_ragindexer.WatchedFolders.Rows.{Has, first-Has, Has-unique}
use pgvector_ragindexer.WatchedFolders.Placing.{at_place-path, executor_for-fits_scope}

pub record Place : Type 0 where
  pub scope : Scope
  pub executor : Option String
  pub path : String

pub record Config : Type 0 where
  pub folder_path : String
  pub schedule_cron : String
  pub client_id : Option String
  pub enabled : Bool
  pub metadata : String
  pub paused : Bool
  pub max_concurrency : ℕ

abbrev pub config_of : Folder → Config
config_of f = record {
  folder_path = f.folder_path;
  schedule_cron = f.schedule_cron;
  client_id = f.client_id;
  enabled = f.enabled;
  metadata = f.metadata;
  paused = f.paused;
  max_concurrency = f.max_concurrency;
}

abbrev pub asked_for : NewFolder → Config
asked_for n = record {
  folder_path = n.folder_path;
  schedule_cron = n.schedule_cron;
  client_id = n.client_id;
  enabled = n.enabled;
  metadata = n.metadata;
  paused = n.paused;
  max_concurrency = n.max_concurrency;
}

abbrev pub config_found : Option Folder → Option Config
config_found none = none
config_found (some f) = some (config_of f)

-- The abstract registry that a table stands for.
unfoldable pub registry : List Folder → Place → Option Config
registry rows p = config_found (first (select (at_place p.scope p.executor p.path) rows))

abbrev pub same_place : Place → Place → Bool
same_place p q =
    clash p.scope q.scope
      (record { id = ""; scope = p.scope; executor = p.executor; path = p.path })
      (record { id = ""; scope = q.scope; executor = q.executor; path = q.path })

abbrev at : Place → Folder → Truth
at p = at_place p.scope p.executor p.path

module _ (n : NewFolder) (p : Place) (now : ℕ) (f : Folder) (here : is_true (at p f) ≡ true) where
  abbrev after_update : Folder → Folder
  after_update r = if is_true (with_id f.id r) then resettle n p.path now r else r

  at-resettle :
      (s : Scope) (e : Option String) (path : String)
      → is_true (at_place s e path (resettle n p.path now f)) ≡ is_true (at_place s e path f)
  unfolding at_place
  at-resettle client none path = refl
  at-resettle client (some e) path = rw (at_place-path p.scope p.executor p.path f here)
  at-resettle server e path = rw (at_place-path p.scope p.executor p.path f here)

  abbrev Unique : List Folder → Type 0
  Unique = All (λ r. (r.id == f.id) ≡ true → r ≡ f)

  abbrev updated : Option Folder → Option Folder
  updated none = none
  updated (some r) = some (after_update r)

  at-after_update :
      (q : Place) (r : Folder)
      → ((r.id == f.id) ≡ true → r ≡ f)
      → is_true (at q (after_update r)) ≡ is_true (at q r)
  at-after_update q r u = elim (Bool-cases (r.id == f.id)) [
    | inl y ↦ rw (y, u y) (at-resettle q.scope q.executor q.path)
    | inr other ↦ rw other
  ]

  -- The query of a place finds the same row as before, with its update.
  first-update :
      (q : Place) (rs : List Folder)
      → Unique rs
      → first (select (at q) (update (with_id f.id) (resettle n p.path now) rs))
        ≡ updated (first (select (at q) rs))
  unfolding select update
  first-update q [] u = refl
  first-update q (r ∷ rs) u = elim (Bool-cases (is_true (at q r))) [
    | inl y ↦ rw (at-after_update q r u.0 ∙ y, y)
    | inr other ↦ rw (at-after_update q r u.0 ∙ other, other) (first-update q rs u.1)
  ]

  -- A row of another place keeps its settings.
  config-updated :
      (q : Place) (o : Option Folder)
      → ((r : Folder) → o ≡ some r → (is_true (at q r) ≡ true) × ((r.id == f.id) ≡ true → r ≡ f))
      → is_true (at q f) ≡ false
      → config_found (updated o) ≡ config_found o
  config-updated q none h away = refl
  config-updated q (some r) h away = elim (Bool-cases (r.id == f.id)) [
    | inl y ↦ absurd (ground (arith, h r refl))
    | inr other ↦ rw other
  ]

Has-All : (P : Folder → Type 0) (rs : List Folder) (r : Folder) → All P rs → Has r rs → P r
Has-All P [] r h i = absurd i
Has-All P (x ∷ xs) r h (inl same) = subst P same h.0
Has-All P (x ∷ xs) r h (inr i) = Has-All P xs r h.1 i

-- A row is at one place only.
at-one_place :
    (s t : Scope) (e e' : Option String) (path path' : String) (g : Folder)
    → fits_scope s e ≡ true
    → fits_scope t e' ≡ true
    → clash s t
        (record { id = ""; scope = s; executor = e; path = path })
        (record { id = ""; scope = t; executor = e'; path = path' })
      ≡ false
    → is_true (at_place s e path g) ≡ true
    → is_true (at_place t e' path' g) ≡ false
unfolding at_place
at-one_place client client (some a) (some b) path path' g fit fit' c h = ground arith
at-one_place client client none b path path' g fit fit' c h = ground arith
at-one_place client client (some a) none path path' g fit fit' c h = ground arith
at-one_place server server e e' path path' g fit fit' c h = ground arith
at-one_place client server (some a) e' path path' g fit fit' c h = ground arith
at-one_place client server none e' path path' g fit fit' c h = ground arith
at-one_place server client e (some b) path path' g fit fit' c h = ground arith
at-one_place server client e none path path' g fit fit' c h = ground arith

at-new_row :
    (n : NewFolder) (s : Scope) (e : Option String) (path : String) (now : ℕ) (id root : String)
    → fits_scope s e ≡ true
    → is_true (at_place s e path (new_row n s e path now id root)) ≡ true
unfolding at_place
at-new_row n client (some e) path now id root fit = rw (==_refl e, ==_refl path)
at-new_row n client none path now id root fit = cc
at-new_row n server e path now id root fit = rw (==_refl path)

abbrev Fits : Place → Type 0
Fits p = fits_scope p.scope p.executor ≡ true

-- `after` is the registry `before` with these settings at the place.
abbrev pub Puts : Place → Config → (Place → Option Config) → (Place → Option Config) → Type 0
Puts p c before after =
    (after p ≡ some c) × ((q : Place) → Fits q → same_place p q ≡ false → after q ≡ before q)

module _ (n : NewFolder) (p : Place) (now : ℕ) (id root : String) (fit : Fits p) where
  inserted :
      (rs : List Folder)
      → Puts p
          (asked_for n)
          (registry rs)
          (registry (new_row n p.scope p.executor p.path now id root ∷ rs))
  unfolding registry select
  inserted rs =
      let new = new_row n p.scope p.executor p.path now id root in
      let here = at-new_row n p.scope p.executor p.path now id root fit in
      (
        rw here,
        (λ q fit' apart. rw (
            at-one_place p.scope q.scope p.executor q.executor p.path q.path new fit fit' apart
              here)),
      )

  resettled :
      (rs : List Folder) (f : Folder)
      → first (select (at p) rs) ≡ some f
      → IsValid rs
      → Puts p
          (asked_for n)
          (registry rs)
          (registry (update (with_id f.id) (resettle n p.path now) rs))
  unfolding registry
  resettled rs f h v =
      let here = select-first-holds (at p) rs h in
      let unique = Has-unique rs f v (first-Has (at p) rs h) in
      let found = first-update n p now f here in
      (
        ap config_found (found p rs unique) ∙ rw (h, ==_refl f.id),
        (λ q fit' apart.
            ap config_found (found q rs unique)
            ∙ config-updated n p now f here q (first (select (at q) rs))
                (λ r e. (
                  select-first-holds (at q) rs e,
                  Has-All (λ r. (r.id == f.id) ≡ true → r ≡ f) rs r unique (first-Has (at q) rs e),
                ))
                (at-one_place p.scope q.scope p.executor q.executor p.path q.path f fit fit' apart
                  here)),
      )

module _ (nt : Bool) (lower : String → String) (n : NewFolder) (now : ℕ) (id root : String) where
  -- the place that the arguments name
  abbrev pub place_for : Scope → Option String → Place
  place_for s e = record {
    scope = s;
    executor = e;
    path = normalize_folder_path nt lower n.folder_path;
  }

  upserted :
      (p : Place) (fit : Fits p) (rs : List Folder) (o : Option Folder)
      → first (select (at p) rs) ≡ o
      → IsValid rs
      → Puts p
          (asked_for n)
          (registry rs)
          (registry (upsert n p.scope p.executor p.path now id root rs o).1)
  unfolding upsert
  upserted p fit rs none h v = inserted n p now id root fit rs
  upserted p fit rs (some f) h v = resettled n p now id root fit rs f h v

  -- Adding a folder to a table that meets its constraints puts the given settings at its place, and
  -- changes nothing at any other place, whether there was a row for the place or not. Conditions:
  -- the scope is 'client' or 'server', a client's folder has an executor or a client id, and the
  -- database is up.
  pub add_folder-registry :
      (s : Scope) (e : Option String)
      → scope_of n.execution_scope ≡ some s
      → executor_for s n ≡ some e
      → (rs : List Folder) → IsValid rs
      → Puts
          (place_for s e)
          (asked_for n)
          (registry rs)
          (registry (add_folder nt lower up n now id root rs).1)
  unfolding add_folder
  add_folder-registry s e hs he rs v =
      subst
        (λ o.
          Puts (place_for s e) (asked_for n) (registry rs)
            (registry (add_in up n (place_for s e).path now id root rs o).1))
        (sym hs)
        (subst
          (λ o.
            Puts (place_for s e) (asked_for n) (registry rs)
              (registry (add_scoped up n (place_for s e).path now id root rs s o).1))
          (sym he) (upserted (place_for s e) (executor_for-fits_scope s n e he) rs _ refl v))
