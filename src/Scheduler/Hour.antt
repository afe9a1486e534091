-- ===== src/Scheduler/Hour.antt =====
-- Several turns of the loop after a failure.
use pgvector_ragindexer.Base.{
  ℕ, ◌+◌, ◌<◌, String, ◌≡◌, refl, sym, subst, inl, inr, Bool, true, false, ◌||◌, none, some, List,
  [], ◌∷◌, ◌++◌, ◌==◌, contains, string_eq, arith, All, Bool-cases, if◌then◌else◌, ltb,
}
use pgvector_ragindexer.Sql.{Link, up}
use pgvector_ragindexer.WatchedFolders.{server, Folder, list_folders}
use pgvector_ragindexer.Indexer.{Services}
use pgvector_ragindexer.IndexingRuns.{failed}
use pgvector_ragindexer.Scan.{Store}
use pgvector_ragindexer.Scheduler.{
  Turn, in_backoff, passes, run_scan, scan_listed, run_pending_scans, ServerScheduler, Poll,
  poll_with_lease, poll, maybe_purge_quarantine, purge_interval_seconds,
}
use pgvector_ragindexer.Scheduler.Backoff.{BacksOff, passes-backoff, scan_listed-skips}
use pgvector_ragindexer.Scheduler.Failures.{Streak, run_scan-BacksOff, list_folders-BacksOff}
use pgvector_ragindexer.Scheduler.Others.{run_scan-other}

-- Every row with this id is in backoff until then.
abbrev pub Parked : String → ℕ → List Folder → Type 0
Parked id until = All (λ r. (r.id == id) ≡ true → (now : ℕ) → now < until → in_backoff now r ≡ true)

module _ {Index : Type 0} (s : Services Index) where
  abbrev pub is_active : Poll → ServerScheduler → Bool
  is_active p c = c.lease_held || p.acquired

  -- The ids of the folders that one turn of the loop scans.
  abbrev pub scanned : Poll → ServerScheduler → Store Index → List String
  scanned p c st = if is_active p c then (run_pending_scans s p.at_list p.now p.turn st).0 else []

  -- The ids of the folders that several turns scan, one after the other.
  unfoldable pub scanned_in : List Poll → ServerScheduler → Store Index → List String
  scanned_in [] c st = []
  scanned_in (p ∷ ps) c st =
      let after = poll s p c st in scanned p c st ++ scanned_in ps after.0 after.1

module _ {Index : Type 0} (s : Services Index) (id : String) (until : ℕ) where
  Parked-BacksOff :
      (now : ℕ) (rows : List Folder) → now < until → Parked id until rows → BacksOff id now rows
  Parked-BacksOff now [] soon h = tt
  Parked-BacksOff now (r ∷ rs) soon h = ((λ e. h.0 e now soon), Parked-BacksOff now rs soon h.1)

  scan_listed-Parked :
      (turn : Folder → Turn) (now : ℕ) (fs : List Folder) (st : Store Index)
      → BacksOff id now fs
      → Parked id until st.folders
      → Parked id until (scan_listed s now turn fs st).1.folders
  unfolding scan_listed
  scan_listed-Parked turn now [] st b h = h
  scan_listed-Parked turn now (f ∷ fs) st b h = elim (Bool-cases (passes now (turn f).clock f)) [
    | inl y ↦
        let other : (f.id == id) ≡ false =
          ground (arith, passes-backoff now (turn f).clock f, b.0) in
        rw y (
          scan_listed-Parked turn now fs (run_scan s (turn f) f st).1 b.1
            (run_scan-other id _ s (turn f) f st other h))
    | inr n ↦ rw n (scan_listed-Parked turn now fs st b.1 h)
  ]

  -- The scans of other folders.
  scan_listed-others :
      (turn : Folder → Turn) (now : ℕ) (fs : List Folder) (st : Store Index)
      → All (λ (g : Folder). (g.id == id) ≡ false) fs
      → Parked id until st.folders
      → Parked id until (scan_listed s now turn fs st).1.folders
  unfolding scan_listed
  scan_listed-others turn now [] st o h = h
  scan_listed-others turn now (f ∷ fs) st o h = elim (Bool-cases (passes now (turn f).clock f)) [
    | inl y ↦ rw y (
        scan_listed-others turn now fs (run_scan s (turn f) f st).1 o.1
          (run_scan-other id _ s (turn f) f st o.0 h))
    | inr n ↦ rw n (scan_listed-others turn now fs st o.1 h)
  ]

  listed_BacksOff :
      (k : Link) (now : ℕ) (rows : List Folder)
      → now < until
      → Parked id until rows
      → BacksOff id now (list_folders k true (some server) none rows)
  listed_BacksOff k now rows soon h =
      list_folders-BacksOff id now k rows (Parked-BacksOff now rows soon h)

  purge-folders :
      (p : Poll) (c : ServerScheduler) (st : Store Index)
      → (maybe_purge_quarantine s p.at_purge p.environment p.now c st).1.folders ≡ st.folders
  unfolding maybe_purge_quarantine
  purge-folders p c st = elim (Bool-cases (ltb p.now (c.last_purge_at + purge_interval_seconds))) [
    | inl y ↦ rw y refl
    | inr n ↦ rw n refl
  ]

  with_lease-Parked :
      (p : Poll) (c : ServerScheduler) (st : Store Index)
      → p.now < until
      → Parked id until st.folders
      → Parked id until (poll_with_lease s p c st).1.folders
  unfolding run_pending_scans
  with_lease-Parked p c st soon h =
      subst (Parked id until)
        (sym (purge-folders p c (run_pending_scans s p.at_list p.now p.turn st).1))
        (scan_listed-Parked p.turn p.now _ st (listed_BacksOff p.at_list p.now st.folders soon h) h)

  either_way :
      (P : ServerScheduler × Store Index → Type 0) (b : Bool) {x y : ServerScheduler × Store Index}
      → P x
      → P y
      → P (if b then x else y)
  either_way P true h i = h
  either_way P false h i = i

  poll-Parked :
      (p : Poll) (c : ServerScheduler) (st : Store Index)
      → p.now < until
      → Parked id until st.folders
      → Parked id until (poll s p c st).1.folders
  unfolding poll
  poll-Parked p c st soon h =
      either_way (λ q. Parked id until q.1.folders) c.lease_held (with_lease-Parked p c st soon h)
        (either_way (λ q. Parked id until q.1.folders) p.acquired
          (with_lease-Parked p (record c { lease_held = true }) st soon h) h)

  scanned-absent :
      (p : Poll) (c : ServerScheduler) (st : Store Index)
      → p.now < until
      → Parked id until st.folders
      → contains (scanned s p c st) id ≡ false
  unfolding run_pending_scans
  scanned-absent p c st soon h = elim (Bool-cases (is_active s p c)) [
    | inl y ↦ rw y (
        scan_listed-skips s p.turn p.now id _ st
          (listed_BacksOff p.at_list p.now st.folders soon h))
    | inr n ↦ rw n refl
  ]

  contains-append :
      (xs ys : List String)
      → contains xs id ≡ false
      → contains ys id ≡ false
      → contains (xs ++ ys) id ≡ false
  contains-append [] ys h i = i
  contains-append (x ∷ xs) ys h i = ground (arith, contains-append xs ys)

  scanned_in-absent :
      (ps : List Poll) (c : ServerScheduler) (st : Store Index)
      → All (λ (p : Poll). p.now < until) ps
      → Parked id until st.folders
      → contains (scanned_in s ps c st) id ≡ false
  unfolding scanned_in
  scanned_in-absent [] c st soon h = refl
  scanned_in-absent (p ∷ ps) c st soon h =
      contains-append (scanned s p c st) _ (scanned-absent p c st soon.0 h) (
        scanned_in-absent ps (poll s p c st).0 (poll s p c st).1 soon.1
          (poll-Parked p c st soon.0 h))

module _ {Index : Type 0} (s : Services Index) where
  failed-Parked :
      (x : Turn) (f : Folder) (st : Store Index)
      → Streak f.id st.folders
      → x.at_completed ≡ up
      → (run_scan s x f st).0.status ≡ failed
      → Parked f.id (x.ended_at + 3600) (run_scan s x f st).1.folders
  failed-Parked x f st streak written fails =
      gather (run_scan s x f st).1.folders
        (λ now soon. run_scan-BacksOff s x f st now streak written fails soon)
    where
      gather :
          (rows : List Folder)
          → ((now : ℕ) → now < x.ended_at + 3600 → BacksOff f.id now rows)
          → Parked f.id (x.ended_at + 3600) rows
      gather [] h = tt
      gather (r ∷ rs) h = ((λ e now soon. (h now soon).0 e), gather rs (λ now soon. (h now soon).1))

  -- After the fifth failure in a row no turn of the loop scans the folder for an hour. Let the row of
  -- the folder count four failures or more, its scan fail again, and the rest of that turn scan other
  -- folders. Then of the turns of the loop that follow, as many as there are and whatever they scan and
  -- purge, none that takes place before the hour is over scans the folder. Conditions: the database
  -- takes the failure down, and but for the turns nothing changes the table of the folders.
  pub run_scan-backs_off :
      (x : Turn) (f : Folder) (st : Store Index) (turn : Folder → Turn) (now : ℕ)
      (rest : List Folder) (later : Store Index) (c : ServerScheduler) (polls : List Poll)
      → Streak f.id st.folders
      → x.at_completed ≡ up
      → (run_scan s x f st).0.status ≡ failed
      → All (λ (g : Folder). (g.id == f.id) ≡ false) rest
      → later.folders ≡ (scan_listed s now turn rest (run_scan s x f st).1).1.folders
      → All (λ (p : Poll). p.now < x.ended_at + 3600) polls
      → contains (scanned_in s polls c later) f.id ≡ false
  run_scan-backs_off x f st turn now rest later c polls streak written fails others same soon =
      scanned_in-absent s f.id (x.ended_at + 3600) polls c later soon (
        subst (Parked f.id (x.ended_at + 3600)) (sym same) (
          scan_listed-others s f.id (x.ended_at + 3600) turn now rest (run_scan s x f st).1 others
            (failed-Parked x f st streak written fails)))
