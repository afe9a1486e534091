-- ===== src/Retention.antt =====
-- retention_policy.py, with the deletions of activity_log.py and saml_auth.py that it calls. None of
-- the four deletions raises: each catches the exception of the database and answers 0.
pub mod Accounts
pub mod Kept
mod Examples
use pgvector_ragindexer.Base.{
  ℕ, zero, suc, ltb, Bool, true, false, not, Option, none, some, List, String,
}
use pgvector_ragindexer.Sql.{Truth, Link, up, down, of_bool, ◌or◌, delete, count}
use pgvector_ragindexer.Chunks.{Chunk}
use pgvector_ragindexer.Quarantine.{
  ℤ, pos, negsuc, Environment, unset, not_a_number, set_to, get_retention_days, before_window,
  purge_expired,
}
use pgvector_ragindexer.IndexingRuns.{Run, apply_retention}

abbrev pub default_activity_retention_days : ℤ
default_activity_retention_days = pos 2555

abbrev pub default_indexing_runs_retention_days : ℤ
default_indexing_runs_retention_days = pos 10950

-- value if value > 0 else default
abbrev pub positive_or : ℤ → ℤ → ℤ
positive_or default (pos zero) = default
positive_or default (pos (suc n)) = pos (suc n)
positive_or default (negsuc n) = default

unfoldable pub safe_int_env : ℤ → Environment → ℤ
safe_int_env default unset = default
safe_int_env default not_a_number = default
safe_int_env default (set_to n) = positive_or default n

-- days or default: 0 counts as absent
abbrev pub or_default : Option ℤ → ℤ → ℤ
or_default none default = default
or_default (some (pos zero)) default = default
or_default (some (pos (suc n))) default = pos (suc n)
or_default (some (negsuc n)) default = negsuc n

-- days if days is not None else default
abbrev pub if_given : Option ℤ → ℤ → ℤ
if_given none default = default
if_given (some n) default = n

pub record Activity : Type 0 where
  pub id : String
  pub ts : ℕ

pub record SamlSession : Type 0 where
  pub id : String
  pub expires_at : ℕ
  pub is_active : Bool

abbrev pub old_activity : ℤ → ℕ → Activity → Truth
old_activity days now a = of_bool (before_window days now a.ts)

unfoldable pub apply_activity_retention : Link → ℤ → ℕ → List Activity → ℕ × List Activity
apply_activity_retention down days now rows = (0, rows)
apply_activity_retention up days now rows =
    (count (old_activity days now) rows, delete (old_activity days now) rows)

abbrev pub ended_session : ℕ → SamlSession → Truth
ended_session now s = of_bool (ltb s.expires_at now) or of_bool (not s.is_active)

unfoldable pub cleanup_expired_sessions : Link → ℕ → List SamlSession → ℕ × List SamlSession
cleanup_expired_sessions down now rows = (0, rows)
cleanup_expired_sessions up now rows =
    (count (ended_session now) rows, delete (ended_session now) rows)

abbrev pub cleanup_if : Bool → Link → ℕ → List SamlSession → ℕ × List SamlSession
cleanup_if true k now rows = cleanup_expired_sessions k now rows
cleanup_if false k now rows = (0, rows)

pub record Tables : Type 0 where
  pub activity : List Activity
  pub chunks : List Chunk
  pub runs : List Run
  pub sessions : List SamlSession

-- Whether the database answers each of the four deletions.
pub record Answers : Type 0 where
  pub activity : Link
  pub quarantine : Link
  pub runs : Link
  pub saml : Link

-- The three environment variables.
pub record Variables : Type 0 where
  pub activity : Environment
  pub quarantine : Environment
  pub runs : Environment

-- The keyword arguments.
pub record Request : Type 0 where
  pub activity_days : Option ℤ
  pub quarantine_days : Option ℤ
  pub indexing_runs_days : Option ℤ
  pub cleanup_saml_sessions : Bool

pub record Applied : Type 0 where
  pub ok : Bool
  pub activity_days : ℤ
  pub quarantine_days : ℤ
  pub indexing_runs_days : ℤ
  pub activity_deleted : ℕ
  pub quarantine_purged : ℕ
  pub indexing_runs_deleted : ℕ
  pub saml_sessions_deleted : ℕ
  -- the tables afterwards
  pub after : Tables

abbrev pub activity_days_of : Variables → Request → ℤ
activity_days_of v q =
    or_default q.activity_days (safe_int_env default_activity_retention_days v.activity)

abbrev pub quarantine_days_of : Variables → Request → ℤ
quarantine_days_of v q = if_given q.quarantine_days (get_retention_days v.quarantine)

abbrev pub indexing_runs_days_of : Variables → Request → ℤ
indexing_runs_days_of v q =
    or_default q.indexing_runs_days (safe_int_env default_indexing_runs_retention_days v.runs)

unfoldable pub apply_policy : Answers → Variables → Request → ℕ → Tables → Applied
unfolding safe_int_env
apply_policy k v q now t =
    let activity = apply_activity_retention k.activity (activity_days_of v q) now t.activity in
    let purged =
      purge_expired k.quarantine v.quarantine (some (quarantine_days_of v q)) now t.chunks in
    let runs = apply_retention k.runs (indexing_runs_days_of v q) now t.runs in
    let sessions = cleanup_if q.cleanup_saml_sessions k.saml now t.sessions in
    record {
      ok = true;
      activity_days = activity_days_of v q;
      quarantine_days = quarantine_days_of v q;
      indexing_runs_days = indexing_runs_days_of v q;
      activity_deleted = activity.0;
      quarantine_purged = purged.0;
      indexing_runs_deleted = runs.0;
      saml_sessions_deleted = sessions.0;
      after = record {
        activity = activity.1;
        chunks = purged.1;
        runs = runs.1;
        sessions = sessions.1;
      };
    }
