-- ===== src/Scheduler/Failures.antt =====
-- The failure counter: what a scan writes to the row of its folder, and when the folder is left out.
use pgvector_ragindexer.Base.{
  ℕ, ◌+◌, ◌≤◌, ◌<◌, String, ◌≡◌, refl, sym, ap, ◌∙◌, subst, inl, inr, true, Option, none, some,
  List, [], ◌∷◌, ◌==◌, string_eq, arith, All, Bool-cases,
}
use pgvector_ragindexer.Sql.{Link, up, down, update}
use pgvector_ragindexer.WatchedFolders.{server, Folder, with_id, list_folders}
use pgvector_ragindexer.WatchedFolders.Updates.{update_scan_watermarks, mark_scanned, set_marks}
use pgvector_ragindexer.Indexer.{Services}
use pgvector_ragindexer.IndexingRuns.{RunStatus, failed}
use pgvector_ragindexer.Scan.{Scan, Store, Report, scan_folder}
use pgvector_ragindexer.Scan.Reports.{scan_folder-reports_success}
use pgvector_ragindexer.Scheduler.{
  Turn, in_backoff, started_mark, ended_mark, run_scan, conclude_scan, mark_run, with_folders,
}
use pgvector_ragindexer.Scheduler.Backoff.{BacksOff, All-select}

-- SET last_scanned_at, last_run_id
abbrev marked : Option String → ℕ → Folder → Folder
marked run at r = record r { last_scanned_at = some at; last_run_id = run; updated_at = at }

-- What holds of every row with an id.
abbrev pub AllWithId : String → (Folder → Type 0) → List Folder → Type 0
AllWithId id P = All (λ r. (r.id == id) ≡ true → P r)

-- Every row with this id has failed four times in a row, or more often.
abbrev pub Streak : String → List Folder → Type 0
Streak id = AllWithId id (λ r. 4 ≤ r.consecutive_failures)

module _ (id : String) where
  AllWithId-update :
      (P Q : Folder → Type 0) (f : Folder → Folder)
      → ((r : Folder) → (f r).id ≡ r.id)
      → ((r : Folder) → P r → Q (f r))
      → (rows : List Folder) → AllWithId id P rows
      → AllWithId id Q (update (with_id id) f rows)
  unfolding update
  AllWithId-update P Q f keeps gives [] h = tt
  AllWithId-update P Q f keeps gives (r ∷ rs) (w, h) = elim (Bool-cases (r.id == id)) [
    | inl y ↦ rw y ((λ _. gives r (w y)), AllWithId-update P Q f keeps gives rs h)
    | inr n ↦ rw n ((λ y. absurd (cc)), AllWithId-update P Q f keeps gives rs h)
  ]

  started-Streak :
      (k : Link) (now : ℕ) (rows : List Folder)
      → Streak id rows
      → Streak id (update_scan_watermarks k id started_mark now rows).1
  unfolding update_scan_watermarks
  started-Streak down now rows h = h
  started-Streak up now rows h =
      AllWithId-update (λ r. 4 ≤ r.consecutive_failures) (λ r. 4 ≤ r.consecutive_failures) _
        (λ _. refl) (λ r w. w) rows h

  fifth_failure :
      (ended now : ℕ) (r : Folder)
      → now < ended + 3600
      → 4 ≤ r.consecutive_failures
      → in_backoff now (set_marks (ended_mark failed) ended r) ≡ true
  unfolding in_backoff
  fifth_failure ended now r soon h = ground arith

  failed-BacksOff :
      (ended now : ℕ) (rows : List Folder)
      → now < ended + 3600
      → Streak id rows
      → BacksOff id now (update_scan_watermarks up id (ended_mark failed) ended rows).1
  unfolding update_scan_watermarks
  failed-BacksOff ended now rows soon h =
      AllWithId-update (λ r. 4 ≤ r.consecutive_failures) (λ r. in_backoff now r ≡ true) _
        (λ _. refl) (λ r w. fifth_failure ended now r soon w) rows h

  succeeded-resets :
      (ended : ℕ) (rows : List Folder)
      → AllWithId id
          (λ r. r.consecutive_failures ≡ 0)
          (update_scan_watermarks up id (ended_mark RunStatus.success) ended rows).1
  unfolding update_scan_watermarks
  succeeded-resets ended rows =
      AllWithId-update (λ r. Unit) (λ r. r.consecutive_failures ≡ 0) _ (λ _. refl) (λ r w. refl)
        rows (any rows)
    where
      any : (rows : List Folder) → AllWithId id (λ r. Unit) rows
      any [] = tt
      any (r ∷ rs) = ((λ _. tt), any rs)

  marked-AllWithId :
      (P : Folder → Type 0) (k : Link) (run : Option String) (at : ℕ)
      → ((r : Folder) → P r → P (marked run at r))
      → (rows : List Folder) → AllWithId id P rows
      → AllWithId id P (mark_scanned k id run at rows).1
  unfolding mark_scanned
  marked-AllWithId P down run at keeps rows h = h
  marked-AllWithId P up run at keeps rows h =
      AllWithId-update P P (marked run at) (λ _. refl) keeps rows h

pub list_folders-BacksOff :
    (id : String) (now : ℕ) (k : Link) (rows : List Folder)
    → BacksOff id now rows
    → BacksOff id now (list_folders k true (some server) none rows)
unfolding list_folders
list_folders-BacksOff id now down rows h = tt
list_folders-BacksOff id now up rows h =
    All-select (λ r. (r.id == id) ≡ true → in_backoff now r ≡ true) _ rows h

backoff_of_marked :
    (now : ℕ) (run : Option String) (at : ℕ) (r : Folder)
    → in_backoff now r ≡ true
    → in_backoff now (marked run at r) ≡ true
unfolding in_backoff
backoff_of_marked now run at r h = h

module _ {Index : Type 0} (s : Services Index) where
  pub scan_folder-folders :
      (x : Scan) (folder : String) (client_id root : Option String) (st : Store Index)
      → (scan_folder s x folder client_id root st).1.folders ≡ st.folders
  unfolding scan_folder
  scan_folder-folders x folder client_id root st = elim (Bool-cases x.indexer_starts) [
    | inl y ↦ elim (Bool-cases (x.disk.is_dir folder)) [
      | inl there ↦ rw (y, there)
      | inr gone ↦ rw (y, gone)
    ]
    | inr n ↦ rw n
  ]

  mark_run-AllWithId :
      (x : Turn) (f : Folder) (run : String) (P : Folder → Type 0)
      → ((r : Folder) → P r → P (marked (some run) x.ended_at r))
      → (rows : List Folder) → AllWithId f.id P rows
      → AllWithId f.id P (mark_run s x f run rows)
  mark_run-AllWithId x f run P keeps rows h = elim (Bool-cases (run == "")) [
    | inl y ↦ rw y h
    | inr n ↦ rw n (marked-AllWithId f.id P x.at_scanned (some run) x.ended_at keeps rows h)
  ]

  conclude-BacksOff :
      (x : Turn) (f : Folder) (now : ℕ) (p : Report × Store Index)
      → now < x.ended_at + 3600
      → x.at_completed ≡ up
      → p.0.status ≡ failed
      → Streak f.id p.1.folders
      → BacksOff f.id now (conclude_scan s x f p).1.folders
  conclude-BacksOff x f now p soon written fails h =
      mark_run-AllWithId x f p.0.run_id (λ r. in_backoff now r ≡ true)
        (backoff_of_marked now (some p.0.run_id) x.ended_at) _
        (subst
          (λ k.
            BacksOff f.id now
              (update_scan_watermarks k f.id (ended_mark p.0.status) x.ended_at p.1.folders).1)
          (sym written)
          (subst
            (λ w.
              BacksOff f.id now
                (update_scan_watermarks up f.id (ended_mark w) x.ended_at p.1.folders).1)
            (sym fails) (failed-BacksOff f.id x.ended_at now p.1.folders soon h)))

  unfoldable pub begun : Turn → Folder → Store Index → Store Index
  begun x f st =
      with_folders s
        (λ rows. (update_scan_watermarks x.at_started f.id started_mark x.scan.now rows).1) st

  abbrev pub inner : Turn → Folder → Store Index → Report × Store Index
  inner x f st = scan_folder s x.scan f.folder_path none (some f.root_id) (begun x f st)

  pub run_scan-conclude :
      (x : Turn) (f : Folder) (st : Store Index)
      → run_scan s x f st
        ≡ conclude_scan s x f
            (scan_folder s x.scan f.folder_path none (some f.root_id) (begun x f st))
  unfolding run_scan begun
  run_scan-conclude x f st = refl

  begun-Streak :
      (x : Turn) (f : Folder) (st : Store Index)
      → Streak f.id st.folders
      → Streak f.id
          (scan_folder s x.scan f.folder_path none (some f.root_id) (begun x f st)).1.folders
  unfolding begun
  begun-Streak x f st h =
      subst (Streak f.id) (sym (scan_folder-folders x.scan f.folder_path none (some f.root_id) _))
        (started-Streak f.id x.at_started x.scan.now st.folders h)

  -- The row of a folder that failed for the fifth time is in backoff for an hour.
  pub run_scan-BacksOff :
      (x : Turn) (f : Folder) (st : Store Index) (now : ℕ)
      → Streak f.id st.folders
      → x.at_completed ≡ up
      → (run_scan s x f st).0.status ≡ failed
      → now < x.ended_at + 3600
      → BacksOff f.id now (run_scan s x f st).1.folders
  run_scan-BacksOff x f st now streak written fails soon =
      let e = run_scan-conclude x f st in
      subst (λ (p : Report × Store Index). BacksOff f.id now p.1.folders) (sym e)
        (conclude-BacksOff x f now (inner x f st) soon written
          (sym (ap (λ p. p.0.status) e) ∙ fails) (begun-Streak x f st streak))

  conclude-resets :
      (x : Turn) (f : Folder) (p : Report × Store Index)
      → x.at_completed ≡ up
      → p.0.status ≡ RunStatus.success
      → AllWithId f.id (λ r. r.consecutive_failures ≡ 0) (conclude_scan s x f p).1.folders
  conclude-resets x f p written good =
      mark_run-AllWithId x f p.0.run_id (λ r. r.consecutive_failures ≡ 0) (λ r e. e) _
        (subst
          (λ k.
            AllWithId f.id (λ r. r.consecutive_failures ≡ 0)
              (update_scan_watermarks k f.id (ended_mark p.0.status) x.ended_at p.1.folders).1)
          (sym written)
          (subst
            (λ w.
              AllWithId f.id (λ r. r.consecutive_failures ≡ 0)
                (update_scan_watermarks up f.id (ended_mark w) x.ended_at p.1.folders).1)
            (sym good) (succeeded-resets f.id x.ended_at p.1.folders)))

  -- A scan of a folder that is there sets the failure counter of its row to 0 and so ends every
  -- backoff, also if the indexer answered each file with an error. Condition: the database takes
  -- the end of the scan down.
  pub run_scan-resets :
      (x : Turn) (f : Folder) (st : Store Index)
      → x.scan.indexer_starts ≡ true
      → x.scan.disk.is_dir f.folder_path ≡ true
      → x.at_completed ≡ up
      → AllWithId f.id (λ r. r.consecutive_failures ≡ 0) (run_scan s x f st).1.folders
  run_scan-resets x f st starts there written =
      subst
        (λ (p : Report × Store Index). AllWithId f.id (λ r. r.consecutive_failures ≡ 0) p.1.folders)
        (sym (run_scan-conclude x f st))
        (conclude-resets x f (inner x f st) written (
          ap (λ r. r.status)
            (scan_folder-reports_success s x.scan f.folder_path none (some f.root_id) (begun x f st)
              starts there)))
