-- ===== src/Writes/Rollback.antt =====
-- The document after the transaction: replaced where it returns, put back where it raises.
use pgvector_ragindexer.Base.{
  ◌≢◌, ◌⊎◌, inl, inr, append_nil, ℕ, String, ◌≡◌, inl, inr, refl, sym, ap, ◌∙◌, subst, true, false,
  List, [], ◌∷◌, ◌++◌, map, string_eq, All, Bool-cases,
}
use pgvector_ragindexer.Sql.{count, up, select, delete}
use pgvector_ragindexer.Sql.Laws.{delete-none, select-append, select-delete}
use pgvector_ragindexer.Chunks.{Chunk}
use pgvector_ragindexer.Visibility.{of_document}
use pgvector_ragindexer.Readiness.{
  invalidate_lancedb_cache, Globals, begin_lancedb_mutation, end_lancedb_mutation,
}
use pgvector_ragindexer.Writes.{
  with_globals, with_table, with_rows, Insertion, refused, analyze_fails, answered, remove_existing,
  store_chunks, ChunkTuple, Table, World, Adapter, Links, Progress, Outcome, continues, raises,
  Request, inserted_rows, insert_chunks, delete_document, document_chunks, tuple_of, order_by_index,
  reinsert, restore_table, roll_back, concluded, attempt, mutation, write_indexed_document,
}
use pgvector_ragindexer.Writes.Tuples.{
  OfDocument, IsRead, stored, tuples-inserted, order-order, document_chunks-IsRead,
  IsRead-OfDocument, map-stored,
}
use pgvector_ragindexer.Writes.Steps.{
  Holds, IsUndoable, IsFresh, IsDone, IsRaised, attempt-Holds, delete-stored,
}

module _ (doc : String) (before : List Chunk) where
  -- What the table holds of the document and of the others, when `chunks` are all that was inserted.
  chunks-append :
      (id now : ℕ) (chunks : List ChunkTuple)
      → All (OfDocument doc) chunks
      → document_chunks doc (delete (of_document doc) before ++ inserted_rows id now chunks)
        ≡ order_by_index (map stored chunks)
  chunks-append id now chunks a =
      ap (λ rs. order_by_index (map tuple_of rs))
        (select-append (of_document doc) (delete (of_document doc) before)
            (inserted_rows id now chunks)
          ∙ ap (λ rs. rs ++ select (of_document doc) (inserted_rows id now chunks))
              (select-delete (of_document doc) before))
      ∙ ap order_by_index (tuples-inserted doc id now chunks a)

  -- The document is as it was, up to what a backup does not hold, and the others are untouched.
  abbrev pub IsRestored : List Chunk → Type 0
  IsRestored rows =
      (document_chunks doc rows ≡ document_chunks doc before)
      × (delete (of_document doc) rows ≡ delete (of_document doc) before)

  backup-IsRestored :
      (id now : ℕ) (rows : List Chunk) (backup : List ChunkTuple)
      → delete (of_document doc) rows ≡ delete (of_document doc) before
      → backup ≡ document_chunks doc before
      → IsRestored (delete (of_document doc) rows ++ inserted_rows id now backup)
  backup-IsRestored id now rows backup d b =
      let read : All (IsRead doc) backup =
        subst (λ ts. All (IsRead doc) ts) (sym b) (document_chunks-IsRead doc before) in
      let a = IsRead-OfDocument doc backup read in
      rw d (
        chunks-append id now backup a
            ∙ ap order_by_index (map-stored doc backup read ∙ b)
            ∙ order-order (map tuple_of (select (of_document doc) before)),
        delete-stored doc before id now backup a,
      )

  reinsert-IsRestored :
      (l : Insertion) (k : Links) (now : ℕ) (t : Table) (backup : List ChunkTuple)
      → k.at_undo_insert ≡ l
      → l ≢ refused
      → delete (of_document doc) t.rows ≡ delete (of_document doc) before
      → backup ≡ document_chunks doc before
      → IsRestored (reinsert k now backup (delete_document up doc t)).rows
  unfolding delete_document insert_chunks inserted_rows
  reinsert-IsRestored l k now t [] e n d b =
      subst (λ rs. IsRestored rs) (append_nil _) (backup-IsRestored 0 now t.rows [] d b)
  reinsert-IsRestored refused k now t (c ∷ cs) e n d b = absurd (n refl)
  reinsert-IsRestored analyze_fails k now t (c ∷ cs) e n d b =
      rw e (backup-IsRestored t.next_id now t.rows (c ∷ cs) d b)
  reinsert-IsRestored answered k now t (c ∷ cs) e n d b =
      rw e (backup-IsRestored t.next_id now t.rows (c ∷ cs) d b)

  roll_back-IsRestored :
      {Index : Type 0} (a : Adapter Index) (k : Links) (now : ℕ) (r : Request) (p : Progress Index)
      → r.document_id ≡ doc
      → k.at_undo_delete ≡ up
      → k.at_undo_insert ≢ refused
      → IsUndoable doc before p
      → IsRestored (roll_back a k now r p).table.rows
  unfolding roll_back restore_table
  roll_back-IsRestored a k now r p o l m (inl (t, e)) =
      rw t (ap (document_chunks doc) e, ap (delete (of_document doc)) e)
  roll_back-IsRestored a k now r p o l m (inr (t, (d, b))) =
      rw (t, o, l)
        (reinsert-IsRestored k.at_undo_insert k now p.world.table p.old_chunks_backup refl m d b)

module _ {Index : Type 0} (a : Adapter Index) (k : Links) (now : ℕ) (r : Request) where
  mutation-rows :
      (f : Globals → Globals) (w : World Index) → (mutation r f w).table.rows ≡ w.table.rows
  mutation-rows f w = elim (Bool-cases r.lancedb_enabled) [ inl y ↦ rw y refl | inr n ↦ rw n refl ]

  raised-IsRestored :
      (before : List Chunk) (o : Outcome Index)
      → k.at_undo_delete ≡ up
      → k.at_undo_insert ≢ refused
      → ((r.replace_existing ≡ true) ⊎ (k.at_insert ≢ analyze_fails))
      → Holds (IsDone r before k now) (IsRaised r before k now) o
      → (concluded a k now r o).0 ≡ false
      → IsRestored r.document_id before (concluded a k now r o).1.table.rows
  raised-IsRestored before (continues p) l m c h e = cc
  raised-IsRestored before (raises p) l m c (inl h) e =
      roll_back-IsRestored r.document_id before a k now r p refl l m h
  raised-IsRestored before (raises p) l m (inl y) (inr h) e = cc
  raised-IsRestored before (raises p) l m (inr y) (inr h) e = absurd (y h.0)

  returned-IsStored :
      (before : List Chunk) (o : Outcome Index)
      → Holds (IsDone r before k now) (IsRaised r before k now) o
      → (concluded a k now r o).0 ≡ true
      → (id : ℕ) × ((concluded a k now r o).1.table.rows
          ≡ delete (of_document r.document_id) before ++ inserted_rows id now r.chunks)
  returned-IsStored before (continues p) h e = h.1.1
  returned-IsStored before (raises p) h e = cc

  -- A write that raises, at whatever step, leaves the chunks of the document as they were before it
  -- (in their order, with their texts, embeddings and metadata), and the rows of every other document
  -- untouched. Conditions: the chunks are all of the named document; the rollback is not refused; a
  -- document that is not replaced had no chunks; and if it is not replaced, it is not the ANALYZE
  -- after the insertion that fails.
  pub write_indexed_document-rolls_back :
      (w : World Index)
      → All (OfDocument r.document_id) r.chunks
      → IsFresh r w.table.rows
      → ((r.replace_existing ≡ true) ⊎ (k.at_insert ≢ analyze_fails))
      → k.at_undo_delete ≡ up
      → k.at_undo_insert ≢ refused
      → (write_indexed_document a k now r w).0 ≡ false
      → IsRestored r.document_id w.table.rows (write_indexed_document a k now r w).1.table.rows
  unfolding write_indexed_document
  write_indexed_document-rolls_back w d fresh c l m e =
      let start = mutation r begin_lancedb_mutation w in
      let o = attempt a k now r start in
      rw (mutation-rows end_lancedb_mutation (concluded a k now r o).1) (
        raised-IsRestored w.table.rows o l m c
          (attempt-Holds r w.table.rows k now a start d fresh
            (mutation-rows begin_lancedb_mutation w))
          e)

  pub stored_rows :
      (w : World Index)
      → All (OfDocument r.document_id) r.chunks
      → IsFresh r w.table.rows
      → (write_indexed_document a k now r w).0 ≡ true
      → (id : ℕ) × ((write_indexed_document a k now r w).1.table.rows
          ≡ delete (of_document r.document_id) w.table.rows ++ inserted_rows id now r.chunks)
  unfolding write_indexed_document
  stored_rows w d fresh e =
      let start = mutation r begin_lancedb_mutation w in
      let o = attempt a k now r start in
      rw (mutation-rows end_lancedb_mutation (concluded a k now r o).1) (
        returned-IsStored w.table.rows o
          (attempt-Holds r w.table.rows k now a start d fresh
            (mutation-rows begin_lancedb_mutation w))
          e)

  -- A write that returns has replaced the chunks of the document by exactly the new ones, and has left
  -- the rows of every other document untouched. Conditions: the new chunks are all of the named
  -- document; and a document that is not to be replaced had no chunks.
  pub write_indexed_document-replaces :
      (w : World Index)
      → All (OfDocument r.document_id) r.chunks
      → IsFresh r w.table.rows
      → (write_indexed_document a k now r w).0 ≡ true
      → let rows = (write_indexed_document a k now r w).1.table.rows in
        (document_chunks r.document_id rows ≡ order_by_index (map stored r.chunks))
        × (delete (of_document r.document_id) rows
            ≡ delete (of_document r.document_id) w.table.rows)
  write_indexed_document-replaces w d fresh e =
      let s = stored_rows w d fresh e in
      rw (s.1) (
        chunks-append r.document_id w.table.rows s.0 now r.chunks d,
        delete-stored r.document_id w.table.rows s.0 now r.chunks d,
      )

  leaves :
      (start : World Index)
      → r.replace_existing ≡ false
      → k.at_insert ≡ analyze_fails
      → concluded a k now r (attempt a k now r start) ≡ (
        false,
        with_globals invalidate_lancedb_cache
            (with_table (with_rows now r.chunks start.table) start),
      )
  unfolding remove_existing store_chunks insert_chunks roll_back
  leaves start n l = rw (n, l) refl

  -- If a document that is not replaced, and has no chunks yet, is written and the ANALYZE after the
  -- insertion fails, the write raises and its chunks stay in the table.
  pub write_indexed_document-leaves :
      (w : World Index)
      → All (OfDocument r.document_id) r.chunks
      → r.replace_existing ≡ false
      → count (of_document r.document_id) w.table.rows ≡ 0
      → k.at_insert ≡ analyze_fails
      → ((write_indexed_document a k now r w).0 ≡ false)
        × (document_chunks r.document_id (write_indexed_document a k now r w).1.table.rows
            ≡ order_by_index (map stored r.chunks))
  unfolding write_indexed_document
  write_indexed_document-leaves w d n z l =
      let start = mutation r begin_lancedb_mutation w in
      let e = leaves start n l in
      let X = inserted_rows start.table.next_id now r.chunks in
      (
        ap (λ x. x.0) e,
        ap (document_chunks r.document_id) (
              mutation-rows end_lancedb_mutation (concluded a k now r (attempt a k now r start)).1
              ∙ ap (λ x. x.1.table.rows) e
              ∙ ap (λ rs. rs ++ X)
                  (mutation-rows begin_lancedb_mutation w
                    ∙ sym (delete-none (of_document r.document_id) w.table.rows z)))
            ∙ chunks-append r.document_id w.table.rows start.table.next_id now r.chunks d,
      )
