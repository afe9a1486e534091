-- ===== src/Retention/Kept.antt =====
-- Which rows a retention run keeps.
use pgvector_ragindexer.Base.{
  ℕ, suc, ◌+◌, ◌*◌, ◌≤◌, ◌≡◌, ◌↔◌, ◌⊎◌, inl, inr, refl, Bool, true, false, none, some, Option, List,
  In, arith,
}
use pgvector_ragindexer.Sql.{Truth, up, of_bool, is_true, ◌and◌, delete}
use pgvector_ragindexer.Sql.Members.{In-delete}
use pgvector_ragindexer.Chunks.{Chunk}
use pgvector_ragindexer.Quarantine.{
  ℤ, pos, negsuc, Environment, before_window, overdue, purge_expired,
}
use pgvector_ragindexer.IndexingRuns.{
  Run, RunStatus, running, success, partial, failed, terminal, coalesce, outdated, apply_retention,
}
use pgvector_ragindexer.Retention.{
  Activity, SamlSession, old_activity, apply_activity_retention, ended_session,
  cleanup_expired_sessions, cleanup_if, Tables, Answers, Variables, Request, activity_days_of,
  quarantine_days_of, indexing_runs_days_of, apply_policy,
}

-- `since` is not longer than so many days ago.
abbrev pub Within : ℤ → ℕ → ℕ → Type 0
Within (pos d) now since = now ≤ since + d * 86400
Within (negsuc d) now since = now + suc d * 86400 ≤ since

abbrev pub WithinIfSome : ℤ → ℕ → Option ℕ → Type 0
WithinIfSome days now none = Unit
WithinIfSome days now (some t) = Within days now t

-- When a run was completed, or else started.
abbrev pub LastTime : ℤ → ℕ → Option ℕ → ℕ → Type 0
LastTime days now none started = Within days now started
LastTime days now (some completed) started = Within days now completed

abbrev pub KeepsRun : ℤ → ℕ → Run → Type 0
KeepsRun days now r = (r.status ≡ running) ⊎ LastTime days now r.completed_at r.started_at

abbrev pub KeepsSession : ℕ → SamlSession → Type 0
KeepsSession now s = (now ≤ s.expires_at) × (s.is_active ≡ true)

before_window_iff :
    (days : ℤ) (now since : ℕ) → (before_window days now since ≡ false) ↔ Within days now since
before_window_iff (pos d) now since = (λ h. ground arith, λ h. ground arith)
before_window_iff (negsuc d) now since = (λ h. ground arith, λ h. ground arith)

of_bool-false : (b : Bool) → (is_true (of_bool b) ≡ false) ↔ (b ≡ false)
of_bool-false true = (λ h. h, λ h. h)
of_bool-false false = (λ h. h, λ h. h)

activity_iff :
    (days : ℤ) (now : ℕ) (a : Activity)
    → (is_true (old_activity days now a) ≡ false) ↔ Within days now a.ts
activity_iff days now a =
    let test = of_bool-false (before_window days now a.ts) in
    let window = before_window_iff days now a.ts in
    (λ h. window.0 (test.0 h), λ h. test.1 (window.1 h))

overdue_iff :
    (days : ℤ) (now : ℕ) (o : Option ℕ)
    → (is_true
          (elim o [ none ↦ of_bool false | some since ↦ of_bool (before_window days now since) ])
        ≡ false)
      ↔ WithinIfSome days now o
overdue_iff days now none = (λ h. tt, λ h. refl)
overdue_iff days now (some t) =
    let test = of_bool-false (before_window days now t) in
    let window = before_window_iff days now t in
    (λ h. window.0 (test.0 h), λ h. test.1 (window.1 h))

LastTime-iff :
    (days : ℤ) (now : ℕ) (o : Option ℕ) (started : ℕ)
    → (before_window days now (coalesce o started) ≡ false) ↔ LastTime days now o started
LastTime-iff days now none started = before_window_iff days now started
LastTime-iff days now (some t) started = before_window_iff days now t

ended_iff :
    (days : ℤ) (now : ℕ) (s : RunStatus) (o : Option ℕ) (started : ℕ)
    → (s ≡ running → ⊥)
    → terminal s ≡ true
    → (is_true (of_bool (terminal s) and of_bool (before_window days now (coalesce o started)))
        ≡ false)
      ↔ ((s ≡ running) ⊎ LastTime days now o started)
ended_iff days now s o started ended t =
    let test = of_bool-false (before_window days now (coalesce o started)) in
    let window = LastTime-iff days now o started in
    (
      λ h. inr (window.0 (ground arith)),
      λ h. elim h [ inl e ↦ absurd (ended e) | inr w ↦ let late = window.1 w in ground arith ],
    )

run_iff :
    (days : ℤ) (now : ℕ) (s : RunStatus) (o : Option ℕ) (started : ℕ)
    → (is_true (of_bool (terminal s) and of_bool (before_window days now (coalesce o started)))
        ≡ false)
      ↔ ((s ≡ running) ⊎ LastTime days now o started)
run_iff days now running o started = (λ h. inl refl, λ h. refl)
run_iff days now success o started = ended_iff days now success o started (λ e. cc) refl
run_iff days now partial o started = ended_iff days now partial o started (λ e. cc) refl
run_iff days now failed o started = ended_iff days now failed o started (λ e. cc) refl

session_iff :
    (now : ℕ) (s : SamlSession) → (is_true (ended_session now s) ≡ false) ↔ KeepsSession now s
session_iff now s = (λ h. (ground arith, ground arith), λ h. ground (arith, h.0, h.1))

module _ {Row : Type 0} (p : Row → Truth) (Keeps : Row → Type 0)
    (iff : (r : Row) → (is_true (p r) ≡ false) ↔ Keeps r) where
  kept_iff : (rows : List Row) (r : Row) → In r (delete p rows) ↔ (In r rows × Keeps r)
  kept_iff rows r =
      let d = In-delete p rows r in
      (λ i. let k = d.0 i in (k.0, (iff r).0 k.1), λ k. d.1 (k.0, (iff r).1 k.1))

abbrev pub answered : Answers
answered = record { activity = up; quarantine = up; runs = up; saml = up }

activity_kept :
    (days : ℤ) (now : ℕ) (rows : List Activity) (a : Activity)
    → In a (apply_activity_retention up days now rows).1 ↔ (In a rows × Within days now a.ts)
unfolding apply_activity_retention
activity_kept days now rows a =
    kept_iff (old_activity days now) (λ (x : Activity). Within days now x.ts)
      (activity_iff days now) rows a

chunks_kept :
    (env : Environment) (days : ℤ) (now : ℕ) (rows : List Chunk) (c : Chunk)
    → In c (purge_expired up env (some days) now rows).1
      ↔ (In c rows × WithinIfSome days now c.quarantined_at)
unfolding purge_expired
chunks_kept env days now rows c =
    kept_iff (overdue days now) (λ (x : Chunk). WithinIfSome days now x.quarantined_at)
      (λ x. overdue_iff days now x.quarantined_at) rows c

runs_kept :
    (days : ℤ) (now : ℕ) (rows : List Run) (r : Run)
    → In r (apply_retention up days now rows).1 ↔ (In r rows × KeepsRun days now r)
unfolding apply_retention
runs_kept days now rows r =
    kept_iff (outdated days now) (KeepsRun days now)
      (λ x. run_iff days now x.status x.completed_at x.started_at) rows r

sessions_kept :
    (wanted : Bool) (now : ℕ) (rows : List SamlSession) (s : SamlSession)
    → wanted ≡ true
    → In s (cleanup_if wanted up now rows).1 ↔ (In s rows × KeepsSession now s)
unfolding cleanup_expired_sessions
sessions_kept false now rows s h = cc
sessions_kept true now rows s h =
    kept_iff (ended_session now) (KeepsSession now) (session_iff now) rows s

-- If the database answers and the sessions are to be cleaned up, exactly these rows are left: of the
-- activity log the entries that are not older than the reported activity days; of the chunks those
-- that are not in quarantine, or not for longer than the reported quarantine days; of the indexing
-- runs those that are running, or whose completion (or start, if it has none) is not longer ago than
-- the reported days; and of the sessions those that are active and have not expired.
pub apply_policy-keeps :
    (v : Variables) (q : Request) (now : ℕ) (t : Tables) (a : Activity) (c : Chunk) (r : Run)
    (s : SamlSession)
    → q.cleanup_saml_sessions ≡ true
    → (let done = apply_policy answered v q now t in
        (In a done.after.activity ↔ (In a t.activity × Within done.activity_days now a.ts))
        × (In c done.after.chunks
            ↔ (In c t.chunks × WithinIfSome done.quarantine_days now c.quarantined_at))
        × (In r done.after.runs ↔ (In r t.runs × KeepsRun done.indexing_runs_days now r))
        × (In s done.after.sessions ↔ (In s t.sessions × KeepsSession now s)))
unfolding apply_policy
apply_policy-keeps v q now t a c r s h = (
  activity_kept (activity_days_of v q) now t.activity a,
  chunks_kept v.quarantine (quarantine_days_of v q) now t.chunks c,
  runs_kept (indexing_runs_days_of v q) now t.runs r,
  sessions_kept q.cleanup_saml_sessions now t.sessions s h,
)
