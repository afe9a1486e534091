-- ===== src/Writes/Success.antt =====
-- A write returns where none of its calls fails.
use pgvector_ragindexer.Base.{
  All, map, ℕ, String, ◌≡◌, refl, sym, inl, inr, Bool, true, false, List, Bool-cases,
}
use pgvector_ragindexer.Sql.{up, delete}
use pgvector_ragindexer.Visibility.{of_document}
use pgvector_ragindexer.Writes.Tuples.{OfDocument, stored}
use pgvector_ragindexer.Writes.Rollback.{write_indexed_document-replaces}
use pgvector_ragindexer.Readiness.{begin_lancedb_mutation}
use pgvector_ragindexer.Writes.{
  document_chunks, order_by_index, answered, ChunkTuple, World, Adapter, Links, Progress, Outcome,
  continues, raises, Request, insert_chunks, delete_document, get_document_chunks_for_reinsert,
  after_index, rebuilt, remove_existing, store_chunks, index_chunks, started, concluded, attempt,
  mutation, write_indexed_document,
}
use pgvector_ragindexer.Writes.Steps.{Holds, Holds-then, IsFresh}

-- No call of the adapter raises.
abbrev pub NeverRaises : {Index : Type 0} → Adapter Index → Type 0
NeverRaises {Index} a =
    ((doc uri : String) (chunks : List ChunkTuple) (metadata : String) (i : Index)
      → (a.upsert_document doc uri chunks metadata i).0 ≡ true)
    × ((i : Index) → (a.rebuild_fts_index i).0 ≡ true)

module _ {Index : Type 0} (a : Adapter Index) (k : Links) (now : ℕ) (r : Request) where
  abbrev Any : Progress Index → Type 0
  Any p = Unit

  abbrev Never : Progress Index → Type 0
  Never p = true ≡ false

  remove-goes_on :
      (p : Progress Index)
      → k.at_backup ≡ up
      → k.at_delete ≡ up
      → Holds Any Never (remove_existing k r p)
  unfolding remove_existing get_document_chunks_for_reinsert delete_document
  remove-goes_on p b d = elim (Bool-cases r.replace_existing) [
    | inl y ↦ rw (y, b, d) tt
    | inr n ↦ rw n tt
  ]

  store-goes_on :
      (p : Progress Index) → k.at_insert ≡ answered → Holds Any Never (store_chunks k now r p)
  unfolding store_chunks insert_chunks
  store-goes_on p i = rw i tt

  index-goes_on :
      (answer : Bool × Index) (p : Progress Index)
      → answer.0 ≡ true
      → Holds Any Never (after_index answer p)
  index-goes_on (true, i) p h = tt
  index-goes_on (false, i) p h = sym h

  index_chunks-goes_on : (p : Progress Index) → NeverRaises a → Holds Any Never (index_chunks a r p)
  unfolding index_chunks
  index_chunks-goes_on p (u, f) = elim (Bool-cases r.lancedb_enabled) [
    | inl y ↦
        rw y (
          Holds-then Any Any Never _ (rebuilt a r) (index-goes_on _ p (u _ _ _ _ _))
            rebuilt-goes_on)
    | inr n ↦ rw n tt
  ]
    where
      rebuilt-goes_on : (q : Progress Index) → Any q → Holds Any Never (rebuilt a r q)
      rebuilt-goes_on q h = elim (Bool-cases r.rebuild_fts) [
        | inl y ↦ rw y (index-goes_on (a.rebuild_fts_index q.world.index) q (f q.world.index))
        | inr n ↦ rw n tt
      ]

  concluded-goes_on : (o : Outcome Index) → Holds Any Never o → (concluded a k now r o).0 ≡ true
  concluded-goes_on (continues p) h = refl
  concluded-goes_on (raises p) h = sym h

  goes_on :
      (w : World Index)
      → k.at_backup ≡ up
      → k.at_delete ≡ up
      → k.at_insert ≡ answered
      → NeverRaises a
      → (write_indexed_document a k now r w).0 ≡ true
  unfolding write_indexed_document
  goes_on w b d i n = concluded-goes_on (attempt a k now r (mutation r begin_lancedb_mutation w)) (
      Holds-then Any Any Never _ (index_chunks a r)
        (Holds-then Any Any Never _ (store_chunks k now r)
          (remove-goes_on (started (mutation r begin_lancedb_mutation w)) b d)
          (λ q _. store-goes_on q i))
        (λ q _. index_chunks-goes_on q n))

  -- If the database answers at the backup, the deletion and the insertion (the ANALYZE included), and no
  -- call of the LanceDB adapter raises, the write returns, the document has exactly the new chunks, in
  -- the order of their indexes, and the rows of every other document are untouched. Conditions: the
  -- new chunks are all of the named document; and a document that is not to be replaced had no chunks.
  pub write_indexed_document-returns :
      (w : World Index)
      → All (OfDocument r.document_id) r.chunks
      → IsFresh r w.table.rows
      → k.at_backup ≡ up
      → k.at_delete ≡ up
      → k.at_insert ≡ answered
      → NeverRaises a
      → let done = write_indexed_document a k now r w in
        (done.0 ≡ true)
        × (document_chunks r.document_id done.1.table.rows ≡ order_by_index (map stored r.chunks))
        × (delete (of_document r.document_id) done.1.table.rows
            ≡ delete (of_document r.document_id) w.table.rows)
  write_indexed_document-returns w chunks fresh b d i n =
      let returns = goes_on w b d i n in
      let replaced = write_indexed_document-replaces a k now r w chunks fresh returns in
      (returns, replaced.0, replaced.1)
