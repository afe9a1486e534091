-- ===== src/Writes/Effects.antt =====
-- What a write does to the readiness of the index and to the visibility of the document, and that it
-- succeeds where nothing fails.
use pgvector_ragindexer.Base.{
  ℕ, suc, String, ◌≡◌, inl, inr, refl, sym, ap, ◌∙◌, subst, Bool, true, false, ◌||◌, Option, none,
  some, List, [], ◌∷◌, ◌++◌, ◌==◌, string_eq, arith, All, if◌then◌else◌, Bool-cases,
}
use pgvector_ragindexer.Sql.{delete, count}
use pgvector_ragindexer.Chunks.{Chunk}
use pgvector_ragindexer.Visibility.{
  shared, of_document, visibility_where_clause, visibility_where_clause_for_document, Caller, local,
  unlinked, linked,
}
use pgvector_ragindexer.Visibility.Agreement.{AllShown}
use pgvector_ragindexer.Readiness.{
  Globals, invalidate_lancedb_cache, begin_lancedb_mutation, end_lancedb_mutation,
}
use pgvector_ragindexer.Writes.{
  ChunkTuple, Table, World, Adapter, Links, Progress, Outcome, continues, raises, Request,
  inserted_rows, insert_chunks, delete_document, get_document_chunks_for_reinsert, after_backup,
  after_delete, after_insert, after_index, rebuilt, remove_existing, store_chunks, index_chunks,
  started, roll_back, concluded, attempt, mutation, write_indexed_document,
}
use pgvector_ragindexer.Writes.Tuples.{OfDocument}
use pgvector_ragindexer.Writes.Steps.{Holds, Holds-then, IsFresh}
use pgvector_ragindexer.Writes.Rollback.{stored_rows}

module _ {Index : Type 0} (a : Adapter Index) (k : Links) (now : ℕ) (r : Request)
    (g : Globals) where
  abbrev Keeps : Progress Index → Type 0
  Keeps p = p.world.globals ≡ g

  delete-Keeps :
      (answer : Bool × Table) (p : Progress Index)
      → Keeps p
      → Holds Keeps Keeps (after_delete answer p)
  delete-Keeps (true, t) p h = h
  delete-Keeps (false, t) p h = h

  backup-Keeps :
      (answer : Option (List ChunkTuple)) (p : Progress Index)
      → Keeps p
      → Holds Keeps Keeps (after_backup k r.document_id answer p)
  backup-Keeps none p h = h
  backup-Keeps (some b) p h =
      delete-Keeps (delete_document k.at_delete r.document_id p.world.table) _ h

  remove-Keeps : (p : Progress Index) → Keeps p → Holds Keeps Keeps (remove_existing k r p)
  unfolding remove_existing
  remove-Keeps p h = elim (Bool-cases r.replace_existing) [
    | inl y ↦ rw y (
        backup-Keeps (get_document_chunks_for_reinsert k.at_backup r.document_id p.world.table) p h)
    | inr n ↦ rw n h
  ]

  insert-Keeps :
      (answer : Bool × Table) (p : Progress Index)
      → Keeps p
      → Holds Keeps Keeps (after_insert answer p)
  insert-Keeps (true, t) p h = h
  insert-Keeps (false, t) p h = h

  index-Keeps :
      (answer : Bool × Index) (p : Progress Index)
      → Keeps p
      → Holds Keeps Keeps (after_index answer p)
  index-Keeps (true, i) p h = h
  index-Keeps (false, i) p h = h

  rebuilt-Keeps : (p : Progress Index) → Keeps p → Holds Keeps Keeps (rebuilt a r p)
  rebuilt-Keeps p h = elim (Bool-cases r.rebuild_fts) [
    | inl y ↦ rw y (index-Keeps (a.rebuild_fts_index p.world.index) p h)
    | inr n ↦ rw n h
  ]

  index_chunks-Keeps : (p : Progress Index) → Keeps p → Holds Keeps Keeps (index_chunks a r p)
  unfolding index_chunks
  index_chunks-Keeps p h = elim (Bool-cases r.lancedb_enabled) [
    | inl y ↦ rw y (
        Holds-then Keeps Keeps Keeps _ (rebuilt a r)
          (index-Keeps
            (a.upsert_document r.document_id r.source_uri r.chunks r.doc_metadata p.world.index) p
            h)
          rebuilt-Keeps)
    | inr n ↦ rw n h
  ]

  attempt-Keeps : (w : World Index) → w.globals ≡ g → Holds Keeps Keeps (attempt a k now r w)
  unfolding store_chunks
  attempt-Keeps w h =
      Holds-then Keeps Keeps Keeps _ (index_chunks a r)
        (Holds-then Keeps Keeps Keeps _ (store_chunks k now r) (remove-Keeps (started w) h)
          (λ q c. insert-Keeps (insert_chunks k.at_insert now r.chunks q.world.table) q c))
        index_chunks-Keeps

  concluded-globals :
      (o : Outcome Index)
      → Holds Keeps Keeps o
      → (concluded a k now r o).1.globals ≡ invalidate_lancedb_cache g
  unfolding roll_back
  concluded-globals (continues p) h = ap invalidate_lancedb_cache h
  concluded-globals (raises p) h = elim (Bool-cases (p.postgres_inserted || p.old_deleted)) [
    | inl y ↦ rw y (ap invalidate_lancedb_cache h)
    | inr n ↦ rw n (ap invalidate_lancedb_cache h)
  ]

ended :
    (enabled : Bool) (g h : Globals)
    → h ≡ invalidate_lancedb_cache (if enabled then begin_lancedb_mutation g else g)
    → (if enabled then end_lancedb_mutation h else h) ≡ invalidate_lancedb_cache g
unfolding begin_lancedb_mutation end_lancedb_mutation invalidate_lancedb_cache
ended true g h e =
    ap end_lancedb_mutation e
    ∙ ap (λ n. record g { mutation_count = n; cache_dirty = true; cached_status = none })
        (omega arith)
ended false g h e = e

module _ {Index : Type 0} (a : Adapter Index) (k : Links) (now : ℕ) (r : Request) where
  mutation-globals :
      (f : Globals → Globals) (w : World Index)
      → (mutation r f w).globals ≡ (if r.lancedb_enabled then f w.globals else w.globals)
  mutation-globals f w = elim (Bool-cases r.lancedb_enabled) [
    | inl y ↦ rw y refl
    | inr n ↦ rw n refl
  ]

  -- Whether it returns or raises, a write ends its own mutation and no other one, invalidates the
  -- cached readiness, and leaves the record of drifts and failed repairs alone.
  pub write_indexed_document-globals :
      (w : World Index)
      → (write_indexed_document a k now r w).1.globals ≡ invalidate_lancedb_cache w.globals
  unfolding write_indexed_document begin_lancedb_mutation end_lancedb_mutation
      invalidate_lancedb_cache
  write_indexed_document-globals w =
      let start = mutation r begin_lancedb_mutation w in
      let done = concluded a k now r (attempt a k now r start) in
      mutation-globals end_lancedb_mutation done.1
      ∙ ended r.lancedb_enabled w.globals done.1.globals (
          concluded-globals a k now r start.globals (attempt a k now r start)
            (attempt-Keeps a k now r start.globals start refl)
          ∙ ap invalidate_lancedb_cache (mutation-globals begin_lancedb_mutation w))

abbrev IsSharedIn : String → Chunk → Type 0
IsSharedIn doc c = (c.document_id == doc) ≡ true → c.visibility ≡ some shared

All-AllShown :
    (doc : String) (caller : Caller) (rows : List Chunk)
    → All (IsSharedIn doc) rows
    → AllShown doc caller rows
unfolding count visibility_where_clause_for_document visibility_where_clause
All-AllShown doc local [] h = refl
All-AllShown doc unlinked [] h = refl
All-AllShown doc (linked user admin) [] h = refl
All-AllShown doc local (c ∷ cs) (h, hs) = ground (arith, All-AllShown doc local cs hs)
All-AllShown doc unlinked (c ∷ cs) (h, hs) = ground (arith, All-AllShown doc unlinked cs hs)
All-AllShown doc (linked user admin) (c ∷ cs) (h, hs) =
    ground (arith, All-AllShown doc (linked user admin) cs hs)

delete-shared :
    (doc : String) (rows rest : List Chunk)
    → All (IsSharedIn doc) rest
    → All (IsSharedIn doc) (delete (of_document doc) rows ++ rest)
unfolding delete
delete-shared doc [] rest h = h
delete-shared doc (c ∷ cs) rest h = elim (Bool-cases (c.document_id == doc)) [
  | inl y ↦ rw y (delete-shared doc cs rest h)
  | inr n ↦ rw n (λ e. cc, delete-shared doc cs rest h)
]

inserted-shared :
    (doc : String) (id now : ℕ) (ts : List ChunkTuple)
    → All (IsSharedIn doc) (inserted_rows id now ts)
unfolding inserted_rows
inserted-shared doc id now [] = tt
inserted-shared doc id now (t ∷ ts) = (λ _. refl, inserted-shared doc (suc id) now ts)

-- Whoever owned the document, and if it was private: after a write that returns, every caller sees
-- every chunk of it, keys without a user included. Conditions: the new chunks are all of the named
-- document; and a document that is not to be replaced had no chunks.
pub write_indexed_document-opens :
    {Index : Type 0} (a : Adapter Index) (k : Links) (now : ℕ) (r : Request) (w : World Index)
    (caller : Caller)
    → All (OfDocument r.document_id) r.chunks
    → IsFresh r w.table.rows
    → (write_indexed_document a k now r w).0 ≡ true
    → AllShown r.document_id caller (write_indexed_document a k now r w).1.table.rows
write_indexed_document-opens a k now r w caller d fresh e =
    let s = stored_rows a k now r w d fresh e in
    All-AllShown r.document_id caller _ (
      subst (λ rs. All (IsSharedIn r.document_id) rs) (sym s.1)
        (delete-shared r.document_id w.table.rows _
          (inserted-shared r.document_id s.0 now r.chunks)))
