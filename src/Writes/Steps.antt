-- ===== src/Writes/Steps.antt =====
-- What each step of the transaction has done to the table when it goes on, and when it raises.
use pgvector_ragindexer.Base.{
  append_nil, ℕ, String, ◌≡◌, ◌⊎◌, inl, inr, refl, sym, ap, ◌∙◌, Bool, true, false, ◌||◌, List, [],
  ◌++◌, map, string_eq, arith, All, Bool-cases,
}
use pgvector_ragindexer.Sql.{Link, up, down, delete, count}
use pgvector_ragindexer.Sql.Laws.{delete-append, delete-delete, delete-none, select-none}
use pgvector_ragindexer.Chunks.{Chunk}
use pgvector_ragindexer.Visibility.{of_document}
use pgvector_ragindexer.Writes.{
  Insertion, refused, analyze_fails, answered, with_rows, ChunkTuple, World, Adapter, Links,
  Progress, Outcome, continues, raises, Request, inserted_rows, insert_chunks, delete_document,
  get_document_chunks_for_reinsert, document_chunks, tuple_of, order_by_index, ◌then_do◌,
  after_backup, after_delete, after_insert, after_index, rebuilt, remove_existing, store_chunks,
  index_chunks, started, attempt,
}
use pgvector_ragindexer.Writes.Tuples.{OfDocument, delete-inserted}

module _ {Index : Type 0} where
  -- `C` of a body that goes on, `R` of one that has raised.
  abbrev pub Holds : (Progress Index → Type 0) → (Progress Index → Type 0) → Outcome Index → Type 0
  Holds C R (continues p) = C p
  Holds C R (raises p) = R p

  pub Holds-then :
      (C D R : Progress Index → Type 0) (o : Outcome Index) (f : Progress Index → Outcome Index)
      → Holds C R o
      → ((p : Progress Index) → C p → Holds D R (f p))
      → Holds D R (o then_do f)
  Holds-then C D R (continues p) f h step = step p h
  Holds-then C D R (raises p) f h step = h

module _ (doc : String) (before : List Chunk) where
  pub delete-stored :
      (id now : ℕ) (chunks : List ChunkTuple)
      → All (OfDocument doc) chunks
      → delete (of_document doc) (delete (of_document doc) before ++ inserted_rows id now chunks)
        ≡ delete (of_document doc) before
  delete-stored id now chunks a =
      delete-append (of_document doc) (delete (of_document doc) before)
        (inserted_rows id now chunks)
      ∙ ap (λ rs. delete (of_document doc) (delete (of_document doc) before) ++ rs)
          (delete-inserted doc id now chunks a)
      ∙ append_nil _
      ∙ delete-delete (of_document doc) before

module _ {Index : Type 0} (doc : String) (before : List Chunk) where
  abbrev touched : Progress Index → Bool
  touched p = p.postgres_inserted || p.old_deleted

  -- The handler can put the table back: it is as it was, or what is missing is in the backup.
  abbrev pub IsUndoable : Progress Index → Type 0
  IsUndoable p =
      ((touched p ≡ false) × (p.world.table.rows ≡ before))
      ⊎ ((touched p ≡ true)
          × ((delete (of_document doc) p.world.table.rows ≡ delete (of_document doc) before)
              × (p.old_chunks_backup ≡ document_chunks doc before)))

  -- The old chunks are out of the table.
  abbrev pub IsCleared : Bool → Progress Index → Type 0
  IsCleared replaced p =
      (p.world.table.rows ≡ delete (of_document doc) before)
      × ((p.old_chunks_backup ≡ document_chunks doc before)
          × ((touched p ≡ true)
              ⊎ ((touched p ≡ false) × ((p.world.table.rows ≡ before) × (replaced ≡ false)))))

  -- The new ones are in it.
  abbrev pub IsStored : ℕ → List ChunkTuple → Progress Index → Type 0
  IsStored now chunks p =
      (p.postgres_inserted ≡ true)
      × ((p.old_chunks_backup ≡ document_chunks doc before)
          × ((id : ℕ) × (p.world.table.rows
                ≡ delete (of_document doc) before ++ inserted_rows id now chunks)))

  IsCleared-IsUndoable :
      (replaced : Bool) (p : Progress Index) → IsCleared replaced p → IsUndoable p
  IsCleared-IsUndoable replaced p (d, (b, inl t)) =
      inr (t, (ap (delete (of_document doc)) d ∙ delete-delete (of_document doc) before, b))
  IsCleared-IsUndoable replaced p (d, (b, inr (t, (e, n)))) = inl (t, e)

  IsStored-IsUndoable :
      (now : ℕ) (chunks : List ChunkTuple) (p : Progress Index)
      → All (OfDocument doc) chunks
      → IsStored now chunks p
      → IsUndoable p
  IsStored-IsUndoable now chunks p a (i, (b, (id, e))) = inr (
    ap (λ x. x || p.old_deleted) i,
    (ap (delete (of_document doc)) e ∙ delete-stored doc before id now chunks a, b),
  )

  delete-Holds :
      (l : Link) (p : Progress Index)
      → touched p ≡ false
      → p.world.table.rows ≡ before
      → p.old_chunks_backup ≡ document_chunks doc before
      → Holds (IsCleared true) IsUndoable (after_delete (delete_document l doc p.world.table) p)
  unfolding delete_document
  delete-Holds down p t e b = inl (t, e)
  delete-Holds up p t e b = (ap (delete (of_document doc)) e, (b, inl (ground arith)))

  backup-Holds :
      (l : Link) (k : Links) (p : Progress Index)
      → touched p ≡ false
      → p.world.table.rows ≡ before
      → Holds
          (IsCleared true)
          IsUndoable
          (after_backup k doc (get_document_chunks_for_reinsert l doc p.world.table) p)
  unfolding get_document_chunks_for_reinsert
  backup-Holds down k p t e = inl (t, e)
  backup-Holds up k p t e = delete-Holds k.at_delete _ t e (ap (document_chunks doc) e)

module _ (r : Request) (before : List Chunk) where
  -- Without `replace_existing`, the document has no chunks yet.
  abbrev pub IsFresh : Type 0
  IsFresh = (r.replace_existing ≡ true) ⊎ (count (of_document r.document_id) before ≡ 0)

  no_chunks :
      count (of_document r.document_id) before ≡ 0 → [] ≡ document_chunks r.document_id before
  unfolding order_by_index
  no_chunks h = sym (
      ap (λ rs. order_by_index (map tuple_of rs))
        (select-none (of_document r.document_id) before h))

module _ {Index : Type 0} (r : Request) (before : List Chunk) (k : Links) (now : ℕ) where
  -- The new chunks are in the table, and the variables do not say so.
  abbrev pub IsLeft : Progress Index → Type 0
  IsLeft p =
      (k.at_insert ≡ analyze_fails)
      × ((r.replace_existing ≡ false)
          × ((id : ℕ) × ((p.postgres_inserted || p.old_deleted) ≡ false)
              × (p.world.table.rows
                  ≡ delete (of_document r.document_id) before ++ inserted_rows id now r.chunks)))

  abbrev pub IsRaised : Progress Index → Type 0
  IsRaised p = IsUndoable r.document_id before p ⊎ IsLeft p

  abbrev Cleared : Progress Index → Type 0
  Cleared = IsCleared r.document_id before r.replace_existing

  abbrev pub IsDone : Progress Index → Type 0
  IsDone = IsStored r.document_id before now r.chunks

  undoable :
      (o : Outcome Index) (replaced : Bool)
      → r.replace_existing ≡ replaced
      → Holds (IsCleared r.document_id before replaced) (IsUndoable r.document_id before) o
      → Holds Cleared IsRaised o
  undoable (continues p) replaced e h = rw e h
  undoable (raises p) replaced e h = inl h

  remove-Holds :
      (w : World Index)
      → IsFresh r before
      → w.table.rows ≡ before
      → Holds Cleared IsRaised (remove_existing k r (started w))
  unfolding remove_existing
  remove-Holds w fresh e = elim (Bool-cases r.replace_existing) [
    | inl y ↦
        undoable (remove_existing k r (started w)) true y
          (rw y (backup-Holds r.document_id before k.at_backup k (started w) refl e))
    | inr n ↦ elim fresh [
      | inl y ↦ cc
      | inr none_yet ↦ undoable (remove_existing k r (started w)) false n (
          rw n (
            e ∙ sym (delete-none (of_document r.document_id) before none_yet),
            (no_chunks r before none_yet, inr (refl, (e, refl))),
          ))
    ]
  ]

  analyze-IsRaised :
      (p : Progress Index)
      → k.at_insert ≡ analyze_fails
      → Cleared p
      → All (OfDocument r.document_id) r.chunks
      → IsRaised
          (record p { world = record p.world { table = with_rows now r.chunks p.world.table } })
  analyze-IsRaised p l (d, (b, inl t)) a = inl (
      inr (
        t,
        (
          ap
                (λ rs.
                  delete (of_document r.document_id)
                    (rs ++ inserted_rows p.world.table.next_id now r.chunks))
                d
              ∙ delete-stored r.document_id before p.world.table.next_id now r.chunks a,
          b,
        ),
      ))
  analyze-IsRaised p l (d, (b, inr (t, (e, n)))) a = inr (
    l,
    (
      n,
      (
        p.world.table.next_id,
        t,
        ap (λ rs. rs ++ inserted_rows p.world.table.next_id now r.chunks) d,
      ),
    ),
  )

  insert-Holds :
      (l : Insertion) (p : Progress Index)
      → k.at_insert ≡ l
      → All (OfDocument r.document_id) r.chunks
      → Cleared p
      → Holds IsDone IsRaised (after_insert (insert_chunks l now r.chunks p.world.table) p)
  unfolding insert_chunks
  insert-Holds refused p e a c =
      inl (IsCleared-IsUndoable r.document_id before r.replace_existing p c)
  insert-Holds analyze_fails p e a c = analyze-IsRaised p e c a
  insert-Holds answered p e a (d, (b, t)) = (
    refl,
    (
      b,
      (p.world.table.next_id, ap (λ rs. rs ++ inserted_rows p.world.table.next_id now r.chunks) d),
    ),
  )

  index-Holds :
      (answer : Bool × Index) (p : Progress Index)
      → All (OfDocument r.document_id) r.chunks
      → IsDone p
      → Holds IsDone IsRaised (after_index answer p)
  index-Holds (true, i) p a s = s
  index-Holds (false, i) p a s = inl (IsStored-IsUndoable r.document_id before now r.chunks p a s)

  rebuilt-Holds :
      (a : Adapter Index) (p : Progress Index)
      → All (OfDocument r.document_id) r.chunks
      → IsDone p
      → Holds IsDone IsRaised (rebuilt a r p)
  rebuilt-Holds a p d s = elim (Bool-cases r.rebuild_fts) [
    | inl y ↦ rw y (index-Holds (a.rebuild_fts_index p.world.index) p d s)
    | inr n ↦ rw n s
  ]

  index_chunks-Holds :
      (a : Adapter Index) (p : Progress Index)
      → All (OfDocument r.document_id) r.chunks
      → IsDone p
      → Holds IsDone IsRaised (index_chunks a r p)
  unfolding index_chunks
  index_chunks-Holds a p d s = elim (Bool-cases r.lancedb_enabled) [
    | inl y ↦ rw y (
        Holds-then IsDone IsDone IsRaised _ (rebuilt a r)
          (index-Holds
            (a.upsert_document r.document_id r.source_uri r.chunks r.doc_metadata p.world.index) p d
            s)
          (λ q t. rebuilt-Holds a q d t))
    | inr n ↦ rw n s
  ]

  -- The body of the `try` ends with the new chunks stored, or raises where it can be undone, or where
  -- the chunks are left in the table.
  pub attempt-Holds :
      (a : Adapter Index) (w : World Index)
      → All (OfDocument r.document_id) r.chunks
      → IsFresh r before
      → w.table.rows ≡ before
      → Holds IsDone IsRaised (attempt a k now r w)
  unfolding store_chunks
  attempt-Holds a w d fresh e =
      Holds-then IsDone IsDone IsRaised _ (index_chunks a r)
        (Holds-then Cleared IsDone IsRaised _ (store_chunks k now r) (remove-Holds w fresh e)
          (λ q c. insert-Holds k.at_insert q refl d c))
        (λ q s. index_chunks-Holds a q d s)
