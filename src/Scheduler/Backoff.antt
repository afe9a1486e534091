-- ===== src/Scheduler/Backoff.antt =====
-- Which folders a turn of the loop scans, and what failures do to that.
use pgvector_ragindexer.Base.{
  ℕ, String, ◌≡◌, refl, sym, subst, inl, inr, true, false, List, [], ◌∷◌, ◌==◌, contains, string_eq,
  arith, All, Bool-cases, ==_refl,
}
use pgvector_ragindexer.Sql.{Truth, up, is_true, select}
use pgvector_ragindexer.WatchedFolders.{server, Folder, list_folders}
use pgvector_ragindexer.WatchedFolders.Rows.{Has}
use pgvector_ragindexer.Indexer.{Services}
use pgvector_ragindexer.Scan.{Store}
use pgvector_ragindexer.Scheduler.{
  Turn, in_backoff, is_scan_due, run_scan, scan_listed, run_pending_scans, passes,
}

-- Every row with this id is in backoff.
abbrev pub BacksOff : String → ℕ → List Folder → Type 0
BacksOff id now = All (λ r. (r.id == id) ≡ true → in_backoff now r ≡ true)

pub All-select :
    (P : Folder → Type 0) (p : Folder → Truth) (rs : List Folder) → All P rs → All P (select p rs)
unfolding select
All-select P p [] h = tt
All-select P p (r ∷ rs) h = elim (Bool-cases (is_true (p r))) [
  | inl y ↦ rw y (h.0, All-select P p rs h.1)
  | inr n ↦ rw n (All-select P p rs h.1)
]

pub passes-backoff :
    (now clock : ℕ) (f : Folder) → in_backoff now f ≡ true → passes now clock f ≡ false
unfolding passes
passes-backoff now clock f h = ground arith

module _ {Index : Type 0} (s : Services Index) (turn : Folder → Turn) (now : ℕ) where
  pub scan_listed-skips :
      (id : String) (fs : List Folder) (st : Store Index)
      → BacksOff id now fs
      → contains (scan_listed s now turn fs st).0 id ≡ false
  unfolding scan_listed
  scan_listed-skips id [] st h = refl
  scan_listed-skips id (f ∷ fs) st h = elim (Bool-cases (passes now (turn f).clock f)) [
    | inl y ↦ rw y (
        absent id f (ground (arith, passes-backoff now (turn f).clock f, h.0)) _
          (scan_listed-skips id fs (run_scan s (turn f) f st).1 h.1))
    | inr n ↦ rw n (scan_listed-skips id fs st h.1)
  ]
    where
      absent :
          (id : String) (f : Folder)
          → (f.id == id) ≡ false
          → (ids : List String) → contains ids id ≡ false
          → contains (f.id ∷ ids) id ≡ false
      absent id f n ids h = ground (arith, ==_refl id)

  pub scan_listed-scans :
      (f : Folder) (fs : List Folder) (st : Store Index)
      → Has f fs
      → passes now (turn f).clock f ≡ true
      → contains (scan_listed s now turn fs st).0 f.id ≡ true
  unfolding scan_listed
  scan_listed-scans f [] st i p = absurd i
  scan_listed-scans f (g ∷ gs) st (inl same) p =
      let q : passes now (turn g).clock g ≡ true =
        subst (λ w. passes now (turn w).clock w ≡ true) (sym same) p in
      rw q (present f g _ same)
    where
      present : (f g : Folder) (ids : List String) → g ≡ f → contains (g.id ∷ ids) f.id ≡ true
      present f g ids same = rw same (rw (==_refl f.id))
  scan_listed-scans f (g ∷ gs) st (inr i) p = elim (Bool-cases (passes now (turn g).clock g)) [
    | inl y ↦ rw y (later f g _ (scan_listed-scans f gs (run_scan s (turn g) g st).1 i p))
    | inr n ↦ rw n (scan_listed-scans f gs st i p)
  ]
    where
      later :
          (f g : Folder) (ids : List String)
          → contains ids f.id ≡ true
          → contains (g.id ∷ ids) f.id ≡ true
      later f g ids h = ground (arith, h)

  Has-select :
      (p : Folder → Truth) (f : Folder) (rs : List Folder)
      → Has f rs
      → is_true (p f) ≡ true
      → Has f (select p rs)
  unfolding select
  Has-select p f [] i y = i
  Has-select p f (r ∷ rs) (inl same) y =
      let q = subst (λ w. is_true (p w) ≡ true) (sym same) y in rw q (inl same)
  Has-select p f (r ∷ rs) (inr i) y = elim (Bool-cases (is_true (p r))) [
    | inl z ↦ rw z (inr (Has-select p f rs i y))
    | inr n ↦ rw n (Has-select p f rs i y)
  ]

  -- With the database up at the listing, a turn of the loop scans every folder of the server that is
  -- enabled, not paused, not in backoff, and due; whatever is scanned before it in the same turn.
  pub run_pending_scans-scans :
      (f : Folder) (st : Store Index)
      → Has f st.folders
      → f.enabled ≡ true
      → f.execution_scope ≡ server
      → f.paused ≡ false
      → in_backoff now f ≡ false
      → is_scan_due (turn f).clock f ≡ true
      → contains (run_pending_scans s up now turn st).0 f.id ≡ true
  unfolding run_pending_scans list_folders passes
  run_pending_scans-scans f st i on scope going out due =
      scan_listed-scans f _ st (Has-select _ f st.folders i (rw (on, scope))) (rw (due, out, going))
