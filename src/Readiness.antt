-- ===== src/Readiness.antt =====
-- retriever_v2.py: whether the LanceDB index may be searched. The globals of the module, the
-- mutations that dual writes announce, the cached check of the counts, and the repair thread.
pub mod Repair
pub mod Cache
mod Examples
use pgvector_ragindexer.Base.{
  ℕ, suc, ◌+◌, ◌-◌, String, Bool, true, false, not, ◌&&◌, ◌||◌, Option, none, some, ◌==◌, Eq,
  nat_eq, string_eq, ltb, if◌then◌else◌, arith, ◌≡◌, refl,
}

-- (pg_docs, pg_chunks, lancedb_docs, lancedb_chunks), or the sentinel (-1, -1, -1, -1).
pub data Signature : Type 0 where
  drift : ℕ → ℕ → ℕ → ℕ → Signature
  unknown_readiness : Signature

same : (s t : Signature) → Dec (s ≡ t)
same unknown_readiness unknown_readiness = yes refl
same unknown_readiness (drift a b c d) = no (λ e. cc)
same (drift a b c d) unknown_readiness = no (λ e. cc)
same (drift a b c d) (drift a' b' c' d') = ground arith

instance unfoldable pub signature_eq : Eq Signature
unfolding same
signature_eq = record { dec = same }

pub data Status : Type 0 where
  ready not_ready failed mutating : Status

pub record Globals : Type 0 where
  pub mutation_count : ℕ
  pub cache_dirty : Bool
  pub cached_ready : Bool
  pub cached_status : Option Status
  pub current_drift : Option Signature
  pub failed_sync : Option Signature
  pub failure_message : Option String
  -- The live repair thread, with the signature it was started for.
  pub sync_thread : Option (Option Signature)

-- The values that the module starts with.
abbrev pub initial : Globals
initial = record {
  mutation_count = 0;
  cache_dirty = true;
  cached_ready = false;
  cached_status = none;
  current_drift = none;
  failed_sync = none;
  failure_message = none;
  sync_thread = none;
}

unfoldable pub invalidate_lancedb_cache : Globals → Globals
invalidate_lancedb_cache g = record g { cache_dirty = true; cached_status = none }

unfoldable pub begin_lancedb_mutation : Globals → Globals
begin_lancedb_mutation g = record g { mutation_count = g.mutation_count + 1 }

-- max(0, n - 1) is the subtraction that stops at 0.
unfoldable pub end_lancedb_mutation : Globals → Globals
unfolding invalidate_lancedb_cache
end_lancedb_mutation g =
    invalidate_lancedb_cache (record g { mutation_count = g.mutation_count - 1 })

abbrev pub mutation_in_progress : Globals → Bool
mutation_in_progress g = ltb 0 g.mutation_count

-- The totals of the two stores; `none` where reading them raises.
pub record Counts : Type 0 where
  pub pg_docs : ℕ
  pub pg_chunks : ℕ
  pub lancedb_docs : ℕ
  pub lancedb_chunks : ℕ

abbrev pub drifted : Counts → Bool
drifted n =
    ltb 0 n.pg_docs
    && (n.lancedb_docs == 0
        || not (n.pg_docs == n.lancedb_docs)
        || not (n.pg_chunks == n.lancedb_chunks))

abbrev pub signature_of : Counts → Signature
signature_of n = drift n.pg_docs n.pg_chunks n.lancedb_docs n.lancedb_chunks

-- `_lancedb_failed_sync_signature == sig`
abbrev pub failed_for : Signature → Globals → Bool
failed_for s g = elim g.failed_sync [ none ↦ false | some t ↦ t == s ]

abbrev pub cached_answer : Globals → Status
cached_answer g = elim g.cached_status [
  | none ↦ if g.cached_ready then ready else not_ready
  | some s ↦ s
]

abbrev pub when_drifted : Status → Signature → Globals → Globals
when_drifted answer s g = record g {
  current_drift = some s;
  cached_ready = false;
  cache_dirty = false;
  cached_status = some answer;
}

abbrev pub when_in_sync : Globals → Globals
when_in_sync g = record g {
  current_drift = none;
  failed_sync = none;
  failure_message = none;
  cached_ready = true;
  cache_dirty = false;
  cached_status = some ready;
}

-- The body of the `try`, and its `except`.
abbrev pub failed_or_not : Bool → Status
failed_or_not f = if f then failed else not_ready

unfoldable pub compare_counts : Option Counts → Globals → Status × Globals
unfolding signature_eq same
compare_counts none g = (
  failed_or_not (failed_for unknown_readiness g),
  record g { current_drift = some unknown_readiness },
)
compare_counts (some n) g =
    if drifted n
    then (
      failed_or_not (failed_for (signature_of n) g),
      when_drifted (failed_or_not (failed_for (signature_of n) g)) (signature_of n) g,
    )
    else (ready, when_in_sync g)

unfoldable pub check_readiness : Option Counts → Globals → Status × Globals
unfolding compare_counts
check_readiness counts g =
    let checked = compare_counts counts g in
    if mutation_in_progress g
    then (if not g.cache_dirty && g.cached_ready then (ready, g) else (mutating, g))
    else if not g.cache_dirty
    then (cached_answer g, g)
    else checked

-- The current drift is one that a repair has already failed for.
abbrev pub gave_up : Globals → Bool
gave_up g = elim g.current_drift [ none ↦ false | some s ↦ failed_for s g ]

unfoldable pub trigger_self_healing_sync : Globals → Globals
trigger_self_healing_sync g =
    if gave_up g
    then g
    else elim g.sync_thread [ none ↦ record g { sync_thread = some g.current_drift } | some t ↦ g ]

-- How sync_postgres_to_lancedb ends: `none`, or `some` message of the exception.
unfoldable pub run_background_sync : Option String → Option Signature → Globals → Globals
unfolding invalidate_lancedb_cache
run_background_sync none s g =
    invalidate_lancedb_cache
      (record g { failed_sync = none; failure_message = none; sync_thread = none })
run_background_sync (some e) s g =
    invalidate_lancedb_cache
      (record g { failed_sync = s; failure_message = some e; sync_thread = none })

-- Whether LanceDB is used, or the reason of LanceDBNotReadyError.
pub data Choice : Type 0 where
  lancedb postgres : Choice
  updating sync_failed not_ready_yet : Choice

abbrev pub by_status : Status → Globals → Choice × Globals
by_status mutating g = (updating, g)
by_status failed g = (sync_failed, g)
by_status not_ready g = (not_ready_yet, trigger_self_healing_sync g)
by_status ready g = (lancedb, g)

unfoldable pub should_use_lancedb : String → Bool → Option Counts → Globals → Choice × Globals
unfolding check_readiness
should_use_lancedb source enabled counts g =
    let chosen = by_status (check_readiness counts g).0 (check_readiness counts g).1 in
    if source == "postgres" then (postgres, g) else if not enabled then (postgres, g) else chosen
