-- ===== src/Retention/Accounts.antt =====
-- The numbers that a retention run reports.
use pgvector_ragindexer.Base.{ℕ, ◌+◌, ◌≡◌, refl, Bool, true, false, some, List, length, arith, not}
use pgvector_ragindexer.Sql.{Truth, Link, up, down, of_bool, is_true, select}
use pgvector_ragindexer.Sql.Laws.{length-delete, select-delete_apart}
use pgvector_ragindexer.Chunks.{Chunk}
use pgvector_ragindexer.Quarantine.{ℤ, Environment, overdue, purge_expired}
use pgvector_ragindexer.IndexingRuns.{Run, terminal, outdated, apply_retention}
use pgvector_ragindexer.Retention.{
  Activity, SamlSession, old_activity, apply_activity_retention, ended_session,
  cleanup_expired_sessions, cleanup_if, Tables, Answers, Variables, Request, activity_days_of,
  quarantine_days_of, indexing_runs_days_of, apply_policy,
}

kept_all : (n : ℕ) → n + 0 ≡ n
kept_all n = omega arith

activity_accounts :
    (k : Link) (days : ℤ) (now : ℕ) (rows : List Activity)
    → length (apply_activity_retention k days now rows).1
        + (apply_activity_retention k days now rows).0
      ≡ length rows
unfolding apply_activity_retention
activity_accounts down days now rows = kept_all (length rows)
activity_accounts up days now rows = length-delete (old_activity days now) rows

chunks_accounts :
    (k : Link) (env : Environment) (days : ℤ) (now : ℕ) (rows : List Chunk)
    → length (purge_expired k env (some days) now rows).1
        + (purge_expired k env (some days) now rows).0
      ≡ length rows
unfolding purge_expired
chunks_accounts down env days now rows = kept_all (length rows)
chunks_accounts up env days now rows = length-delete (overdue days now) rows

runs_accounts :
    (k : Link) (days : ℤ) (now : ℕ) (rows : List Run)
    → length (apply_retention k days now rows).1 + (apply_retention k days now rows).0 ≡ length rows
unfolding apply_retention
runs_accounts down days now rows = kept_all (length rows)
runs_accounts up days now rows = length-delete (outdated days now) rows

sessions_accounts :
    (wanted : Bool) (k : Link) (now : ℕ) (rows : List SamlSession)
    → length (cleanup_if wanted k now rows).1 + (cleanup_if wanted k now rows).0 ≡ length rows
unfolding cleanup_expired_sessions
sessions_accounts false k now rows = kept_all (length rows)
sessions_accounts true down now rows = kept_all (length rows)
sessions_accounts true up now rows = length-delete (ended_session now) rows

abbrev pub under_way : Run → Truth
under_way r = of_bool (not (terminal r.status))

under_way_apart :
    (days : ℤ) (now : ℕ) (r : Run)
    → is_true (outdated days now r) ≡ true
    → is_true (under_way r) ≡ false
under_way_apart days now r h = ground arith

runs_under_way :
    (k : Link) (days : ℤ) (now : ℕ) (rows : List Run)
    → select under_way (apply_retention k days now rows).1 ≡ select under_way rows
unfolding apply_retention
runs_under_way down days now rows = refl
runs_under_way up days now rows =
    select-delete_apart under_way (outdated days now) (under_way_apart days now) rows

-- Whichever of the four deletions fail, the numbers that are reported account for every row: in
-- each table the rows that are left and the number reported as deleted make up the rows before;
-- and the indexing runs that are under way are all kept.
pub apply_policy-accounts :
    (k : Answers) (v : Variables) (q : Request) (now : ℕ) (t : Tables)
    → (let done = apply_policy k v q now t in
        (length done.after.activity + done.activity_deleted ≡ length t.activity)
        × (length done.after.chunks + done.quarantine_purged ≡ length t.chunks)
        × (length done.after.runs + done.indexing_runs_deleted ≡ length t.runs)
        × (length done.after.sessions + done.saml_sessions_deleted ≡ length t.sessions)
        × (select under_way done.after.runs ≡ select under_way t.runs))
unfolding apply_policy
apply_policy-accounts k v q now t = (
  activity_accounts k.activity (activity_days_of v q) now t.activity,
  chunks_accounts k.quarantine v.quarantine (quarantine_days_of v q) now t.chunks,
  runs_accounts k.runs (indexing_runs_days_of v q) now t.runs,
  sessions_accounts q.cleanup_saml_sessions k.saml now t.sessions,
  runs_under_way k.runs (indexing_runs_days_of v q) now t.runs,
)
