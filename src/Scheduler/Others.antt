-- ===== src/Scheduler/Others.antt =====
-- The scan of a folder does not touch the rows of other folders.
use mathlib.Core.Bool.{false≢true}
use pgvector_ragindexer.Base.{
  ℕ, String, ◌≡◌, refl, sym, ◌∙◌, subst, inl, inr, true, false, Option, none, some, List, [], ◌∷◌,
  ◌==◌, ==_sound, ==_refl, string_eq, Bool-cases,
}
use pgvector_ragindexer.Sql.{Link, up, down, update}
use pgvector_ragindexer.WatchedFolders.{Folder, with_id}
use pgvector_ragindexer.WatchedFolders.Updates.{
  Marks, update_scan_watermarks, mark_scanned, set_marks, no_marks, write_marks, assigned_twice,
}
use pgvector_ragindexer.Indexer.{Services}
use pgvector_ragindexer.Scan.{Store, Report}
use pgvector_ragindexer.Scheduler.{
  Turn, started_mark, ended_mark, mark_run, conclude_scan, run_scan,
}
use pgvector_ragindexer.Scheduler.Failures.{
  AllWithId, begun, inner, run_scan-conclude, scan_folder-folders,
}

clash :
    (a b other id : String)
    → b ≡ a
    → (a == other) ≡ true
    → (other == id) ≡ false
    → (b == id) ≡ true
    → ⊥
clash a b other id e y n same =
    let first = ==_sound a other y in
    let second = ==_sound b id same in
    let whole : other ≡ id = sym first ∙ (sym e ∙ second) in
    let t = subst (λ t. (other == t) ≡ true) whole (==_refl other) in false≢true (sym n ∙ t)

module _ (id : String) (P : Folder → Type 0) where
  -- An UPDATE of another row.
  AllWithId-update_other :
      (other : String) (f : Folder → Folder)
      → ((r : Folder) → (f r).id ≡ r.id)
      → (other == id) ≡ false
      → (rows : List Folder) → AllWithId id P rows
      → AllWithId id P (update (with_id other) f rows)
  unfolding update
  AllWithId-update_other other f keeps n [] h = tt
  AllWithId-update_other other f keeps n (r ∷ rs) h = elim (Bool-cases (r.id == other)) [
    | inl y ↦ rw y (
      λ same. absurd (clash r.id (f r).id other id (keeps r) y n same),
      AllWithId-update_other other f keeps n rs h.1,
    )
    | inr m ↦ rw m (h.0, AllWithId-update_other other f keeps n rs h.1)
  ]

  watermarks-other :
      (k : Link) (other : String) (m : Marks) (now : ℕ)
      → (other == id) ≡ false
      → (rows : List Folder) → AllWithId id P rows
      → AllWithId id P (update_scan_watermarks k other m now rows).1
  unfolding update_scan_watermarks
  watermarks-other k other m now n rows h = elim (Bool-cases (no_marks m)) [
    | inl y ↦ rw y h
    | inr w ↦ rw w (written k)
  ]
    where
      written : (k : Link) → AllWithId id P (write_marks k other m now rows).1
      written down = h
      written up = elim (Bool-cases (assigned_twice m)) [
        | inl y ↦ rw y h
        | inr w ↦ rw w (AllWithId-update_other other (set_marks m now) (λ r. refl) n rows h)
      ]

  scanned-other :
      (k : Link) (other : String) (run : Option String) (now : ℕ)
      → (other == id) ≡ false
      → (rows : List Folder) → AllWithId id P rows
      → AllWithId id P (mark_scanned k other run now rows).1
  unfolding mark_scanned
  scanned-other down other run now n rows h = h
  scanned-other up other run now n rows h = AllWithId-update_other other _ (λ r. refl) n rows h

  module _ {Index : Type 0} (s : Services Index) where
    mark_run-other :
        (x : Turn) (g : Folder) (run : String)
        → (g.id == id) ≡ false
        → (rows : List Folder) → AllWithId id P rows
        → AllWithId id P (mark_run s x g run rows)
    mark_run-other x g run n rows h = elim (Bool-cases (run == "")) [
      | inl y ↦ rw y h
      | inr m ↦ rw m (scanned-other x.at_scanned g.id (some run) x.ended_at n rows h)
    ]

    conclude_scan-other :
        (x : Turn) (g : Folder) (p : Report × Store Index)
        → (g.id == id) ≡ false
        → AllWithId id P p.1.folders
        → AllWithId id P (conclude_scan s x g p).1.folders
    conclude_scan-other x g p n h =
        mark_run-other x g p.0.run_id n _
          (watermarks-other x.at_completed g.id (ended_mark p.0.status) x.ended_at n p.1.folders h)

    -- The scan of another folder.
    pub run_scan-other :
        (x : Turn) (g : Folder) (st : Store Index)
        → (g.id == id) ≡ false
        → AllWithId id P st.folders
        → AllWithId id P (run_scan s x g st).1.folders
    unfolding begun
    run_scan-other x g st n h =
        subst (λ (p : Report × Store Index). AllWithId id P p.1.folders)
          (sym (run_scan-conclude s x g st))
          (conclude_scan-other x g (inner s x g st) n (
            subst (AllWithId id P)
              (sym
                (scan_folder-folders s x.scan g.folder_path none (some g.root_id) (begun s x g st)))
              (watermarks-other x.at_started g.id started_mark x.scan.now n st.folders h)))
