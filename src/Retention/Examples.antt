-- ===== src/Retention/Examples.antt =====
-- A retention run over a few rows.
use pgvector_ragindexer.Base.{In, ◌↔◌, ℕ, ◌+◌, ◌*◌, ◌≡◌, refl, true, none, some, [], ◌∷◌, length}
use pgvector_ragindexer.Sql.{up, down, select, count}
use pgvector_ragindexer.Quarantine.{pos, unset, set_to, day}
use pgvector_ragindexer.Chunks.{Chunk}
use pgvector_ragindexer.IndexingRuns.{Run, new_run}
use pgvector_ragindexer.Retention.{
  Activity, SamlSession, Tables, Answers, Variables, Request, apply_policy,
  apply_activity_retention, safe_int_env,
}
use pgvector_ragindexer.Retention.Accounts.{under_way, apply_policy-accounts}
use pgvector_ragindexer.Retention.Kept.{
  answered, Within, WithinIfSome, KeepsRun, KeepsSession, apply_policy-keeps,
}

abbrev now : ℕ
now = 3000 * day

abbrev a_chunk : Chunk
a_chunk = record {
  chunk_id = 1;
  document_id = "a";
  chunk_index = 0;
  text_content = "text";
  source_uri = "/a";
  embedding = "[0,1]";
  metadata = "{}";
  indexed_at = 5;
  updated_at = 5;
  owner_id = none;
  visibility = none;
  canonical_source_key = none;
  quarantined_at = none;
  quarantine_reason = none;
}

abbrev a_run : Run
a_run = new_run "r" 5 "cli" none "{}" none

abbrev tables : Tables
tables = record {
  activity = record { id = "old"; ts = 5 } ∷ record { id = "new"; ts = 2999 * day } ∷ [];
  chunks = a_chunk ∷ [];
  runs = a_run ∷ [];
  sessions = record { id = "s"; expires_at = 7; is_active = true } ∷ [];
}

abbrev variables : Variables
variables = record { activity = set_to (pos 0); quarantine = unset; runs = unset }

abbrev request : Request
request = record {
  activity_days = none;
  quarantine_days = some (pos 0);
  indexing_runs_days = none;
  cleanup_saml_sessions = true;
}

abbrev half_down : Answers
half_down = record { activity = up; quarantine = down; runs = up; saml = down }

deletes_one : (apply_policy half_down variables request now tables).activity_deleted ≡ 1
unfolding apply_policy apply_activity_retention safe_int_env count
deletes_one = refl

apply_policy-accounts_example :
    (let done = apply_policy half_down variables request now tables in
      (length done.after.activity + done.activity_deleted ≡ length tables.activity)
      × (length done.after.chunks + done.quarantine_purged ≡ length tables.chunks)
      × (length done.after.runs + done.indexing_runs_deleted ≡ length tables.runs)
      × (length done.after.sessions + done.saml_sessions_deleted ≡ length tables.sessions)
      × (select under_way done.after.runs ≡ select under_way tables.runs))
apply_policy-accounts_example = apply_policy-accounts half_down variables request now tables

abbrev new_entry : Activity
new_entry = record { id = "new"; ts = 2999 * day }

abbrev ended : SamlSession
ended = record { id = "s"; expires_at = 7; is_active = true }

apply_policy-keeps_example :
    (let done = apply_policy answered variables request now tables in
      (In new_entry done.after.activity
        ↔ (In new_entry tables.activity × Within done.activity_days now new_entry.ts))
      × (In a_chunk done.after.chunks
          ↔ (In a_chunk tables.chunks × WithinIfSome done.quarantine_days now none))
      × (In a_run done.after.runs
          ↔ (In a_run tables.runs × KeepsRun done.indexing_runs_days now a_run))
      × (In ended done.after.sessions ↔ (In ended tables.sessions × KeepsSession now ended)))
apply_policy-keeps_example =
    apply_policy-keeps variables request now tables new_entry a_chunk a_run ended refl
