-- ===== src/Readiness/Cache.antt =====
-- What the cached status says, and what the mutations of the dual writes do to it.
use pgvector_ragindexer.Base.{
  ◌≡◌, refl, false, not, ◌&&◌, Option, none, some, nat_eq, ltb, if◌then◌else◌, arith, Bool-cases,
  inl, inr, ◌⊎◌,
}
use pgvector_ragindexer.Readiness.{
  Globals, Counts, ready, mutating, signature_eq, check_readiness, compare_counts,
  invalidate_lancedb_cache, begin_lancedb_mutation, end_lancedb_mutation, drifted,
}

-- A second check, whatever it would read, gives the answer of the first one if that could read its
-- counts: a status is kept until the cache is invalidated, FAILED as well.
pub check_readiness-again :
    (first : Counts) (second : Option Counts) (g : Globals)
    → (check_readiness second (check_readiness (some first) g).1).0
      ≡ (check_readiness (some first) g).0
unfolding check_readiness compare_counts
check_readiness-again first second g = ground arith

agrees :
    (n : Counts)
    → drifted n ≡ false
    → (n.pg_docs ≡ 0) ⊎ ((n.lancedb_docs ≡ n.pg_docs) × (n.lancedb_chunks ≡ n.pg_chunks))
agrees n h = elim (Bool-cases (ltb 0 n.pg_docs)) [
  | inl y ↦ inr (ground arith, ground arith)
  | inr z ↦ inl (ground arith)
]

ready-agrees :
    (n : Counts) (g : Globals)
    → (check_readiness (some n) (invalidate_lancedb_cache g)).0 ≡ ready
    → drifted n ≡ false
unfolding check_readiness compare_counts invalidate_lancedb_cache
ready-agrees n g h = ground arith

-- READY after an invalidation, outside a mutation, means that the counts were read, and that
-- PostgreSQL has no document or both stores have the same numbers of documents and chunks.
pub check_readiness-in_sync :
    (counts : Option Counts) (g : Globals)
    → (check_readiness counts (invalidate_lancedb_cache g)).0 ≡ ready
    → (n : Counts) × ((counts ≡ some n)
        × ((n.pg_docs ≡ 0) ⊎ ((n.lancedb_docs ≡ n.pg_docs) × (n.lancedb_chunks ≡ n.pg_chunks))))
unfolding check_readiness compare_counts invalidate_lancedb_cache
check_readiness-in_sync none g h = ground arith
check_readiness-in_sync (some n) g h = (n, (refl, agrees n (ready-agrees n g h)))

-- READY while a write is under way is only the answer that the cache held before it: the counts are
-- not read, and no drift, failure or cached status is changed.
pub check_readiness-mutating :
    (counts : Option Counts) (g : Globals)
    → check_readiness counts (begin_lancedb_mutation g) ≡ (
        if not g.cache_dirty && g.cached_ready
        then (ready, begin_lancedb_mutation g)
        else (mutating, begin_lancedb_mutation g))
unfolding check_readiness begin_lancedb_mutation
check_readiness-mutating counts g = ground arith

-- The end of a write undoes its beginning in the number of running mutations, and the next check
-- outside every write reads the counts again.
pub end-begin :
    (counts : Option Counts) (g : Globals)
    → ((end_lancedb_mutation (begin_lancedb_mutation g)).mutation_count ≡ g.mutation_count)
      × (g.mutation_count ≡ 0
          → check_readiness counts (end_lancedb_mutation (begin_lancedb_mutation g))
            ≡ compare_counts counts (invalidate_lancedb_cache g))
unfolding check_readiness compare_counts begin_lancedb_mutation end_lancedb_mutation
    invalidate_lancedb_cache
end-begin counts g = (omega arith, λ e. ground arith)
