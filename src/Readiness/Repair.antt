-- ===== src/Readiness/Repair.antt =====
-- When the repair thread is started, and when it is not started again.
use pgvector_ragindexer.Base.{
  String, ◌≡◌, refl, ◌∙◌, Bool, true, false, none, some, ◌==◌, nat_eq, arith, Bool-cases, inl, inr,
  ◌⊎◌, ==_refl, string_eq,
}
use pgvector_ragindexer.Readiness.{
  Globals, Counts, Status, ready, not_ready, failed, mutating, signature_eq, check_readiness,
  compare_counts, invalidate_lancedb_cache, begin_lancedb_mutation, end_lancedb_mutation,
  mutation_in_progress, drifted, failed_for, signature_of, trigger_self_healing_sync,
  run_background_sync, should_use_lancedb, lancedb, updating, sync_failed, not_ready_yet, by_status,
}

-- What stands in the way of a second repair of the drift `n`.
abbrev pub GaveUp : Counts → Globals → Type 0
GaveUp n g =
    (g.failed_sync ≡ some (signature_of n))
    × ((g.sync_thread ≡ none)
        × (g.cache_dirty ≡ false → (g.cached_status ≡ some failed) × (g.cached_ready ≡ false)))

-- What can happen while the counts stay as they are: searches, writes and invalidations.
pub data Step (n : Counts) : Globals → Globals → Type 0 where
  searches :
      (source : String) (enabled : Bool) {g : Globals}
      → Step n g (should_use_lancedb source enabled (some n) g).1
  begins : {g : Globals} → Step n g (begin_lancedb_mutation g)
  ends : {g : Globals} → Step n g (end_lancedb_mutation g)
  invalidates : {g : Globals} → Step n g (invalidate_lancedb_cache g)

pub data Reach (n : Counts) (start : Globals) : Globals → Type 0 where
  here : Reach n start start
  next : {g g' : Globals} → Reach n start g → Step n g g' → Reach n start g'

failed_for-itself :
    (n : Counts) (g : Globals)
    → g.failed_sync ≡ some (signature_of n)
    → failed_for (signature_of n) g ≡ true
failed_for-itself n g e = rw e (==_refl (signature_of n))

check-GaveUp :
    (n : Counts) (g : Globals)
    → drifted n ≡ true
    → GaveUp n g
    → GaveUp n (check_readiness (some n) g).1
      × (((check_readiness (some n) g).0 ≡ failed) ⊎ ((check_readiness (some n) g).0 ≡ mutating))
unfolding check_readiness compare_counts
check-GaveUp n g d (f, (t, c)) = elim (Bool-cases (mutation_in_progress g)) [
  | inl y ↦ elim (Bool-cases g.cache_dirty) [
    | inl z ↦ rw (y, z) ((f, (t, λ e. c (z ∙ e))), inr refl)
    | inr z ↦ rw (y, z, (c z).1) ((f, (t, λ _. ((c z).0, refl))), inr refl)
  ]
  | inr y ↦ elim (Bool-cases g.cache_dirty) [
    | inl z ↦ rw (y, z, d, failed_for-itself n g f) ((f, (t, λ _. (refl, refl))), inl refl)
    | inr z ↦ rw (y, z, (c z).0) ((f, (t, λ _. (refl, (c z).1))), inl refl)
  ]
]

by_status-GaveUp :
    (n : Counts) (st : Status) (g : Globals)
    → ((st ≡ failed) ⊎ (st ≡ mutating))
    → GaveUp n g
    → GaveUp n (by_status st g).1
      × (((by_status st g).0 ≡ sync_failed) ⊎ ((by_status st g).0 ≡ updating))
by_status-GaveUp n ready g (inl h) a = cc
by_status-GaveUp n ready g (inr h) a = cc
by_status-GaveUp n not_ready g (inl h) a = cc
by_status-GaveUp n not_ready g (inr h) a = cc
by_status-GaveUp n failed g h a = (a, inl refl)
by_status-GaveUp n mutating g h a = (a, inr refl)

use-GaveUp :
    (n : Counts) (g : Globals)
    → drifted n ≡ true
    → GaveUp n g
    → GaveUp n (should_use_lancedb "lancedb" true (some n) g).1
      × (((should_use_lancedb "lancedb" true (some n) g).0 ≡ sync_failed)
          ⊎ ((should_use_lancedb "lancedb" true (some n) g).0 ≡ updating))
unfolding should_use_lancedb string_eq
use-GaveUp n g d a =
    let checked = check-GaveUp n g d a in
    by_status-GaveUp n (check_readiness (some n) g).0 (check_readiness (some n) g).1 checked.1
      checked.0

Step-GaveUp :
    (n : Counts) {g g' : Globals} → drifted n ≡ true → Step n g g' → GaveUp n g → GaveUp n g'
unfolding should_use_lancedb begin_lancedb_mutation end_lancedb_mutation invalidate_lancedb_cache
Step-GaveUp n d (searches source true {g}) a = elim (Bool-cases (source == "postgres")) [
  | inl y ↦ rw y a
  | inr y ↦
      rw y
        (by_status-GaveUp n (check_readiness (some n) g).0 (check_readiness (some n) g).1
          (check-GaveUp n g d a).1 (check-GaveUp n g d a).0).0
]
Step-GaveUp n d (searches source false) a = elim (Bool-cases (source == "postgres")) [
  | inl y ↦ rw y a
  | inr y ↦ rw y a
]
Step-GaveUp n d begins a = a
Step-GaveUp n d ends (f, (t, c)) = (f, (t, λ e. cc))
Step-GaveUp n d invalidates (f, (t, c)) = (f, (t, λ e. cc))

Reach-GaveUp :
    (n : Counts) {g g' : Globals} → drifted n ≡ true → Reach n g g' → GaveUp n g → GaveUp n g'
Reach-GaveUp n d here a = a
Reach-GaveUp n d (next r s) a = Step-GaveUp n d s (Reach-GaveUp n d r a)

-- After a repair of a drift has failed, and as long as the counts stay the same, no search, write or
-- invalidation starts another repair, and each search with LanceDB is refused: the sync has failed,
-- or a write is under way.
pub run_background_sync-gives_up :
    (n : Counts) (message : String) (start : Globals) {g : Globals}
    → drifted n ≡ true
    → Reach n (run_background_sync (some message) (some (signature_of n)) start) g
    → (g.sync_thread ≡ none)
      × (((should_use_lancedb "lancedb" true (some n) g).0 ≡ sync_failed)
          ⊎ ((should_use_lancedb "lancedb" true (some n) g).0 ≡ updating))
unfolding run_background_sync invalidate_lancedb_cache
run_background_sync-gives_up n message start {g} d r =
    let a = Reach-GaveUp n d r (refl, (refl, λ e. cc)) in (a.1.0, (use-GaveUp n g d a).1)

-- Outside a write, with the cache invalidated and no repair running, a drift that no repair has
-- failed for starts one that carries its signature, and the search is refused meanwhile. If that
-- repair succeeds, and the counts then agree, the next search uses LanceDB.
pub should_use_lancedb-repairs :
    (n fixed : Counts) (g : Globals)
    → g.mutation_count ≡ 0
    → g.cache_dirty ≡ true
    → g.sync_thread ≡ none
    → failed_for (signature_of n) g ≡ false
    → drifted n ≡ true
    → drifted fixed ≡ false
    → let first = should_use_lancedb "lancedb" true (some n) g in
      (first.0 ≡ not_ready_yet)
      × ((first.1.sync_thread ≡ some (some (signature_of n)))
          × ((should_use_lancedb "lancedb" true
                (some fixed)
                (run_background_sync none (some (signature_of n)) first.1)).0
              ≡ lancedb))
unfolding should_use_lancedb check_readiness compare_counts run_background_sync
    trigger_self_healing_sync invalidate_lancedb_cache string_eq
should_use_lancedb-repairs n fixed g m c t f d d' = (ground arith, (ground arith, ground arith))
