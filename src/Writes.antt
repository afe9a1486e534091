-- ===== src/Writes.antt =====
-- indexing_write_transaction.py, with the calls of DocumentRepository (database.py) that it makes:
-- how the chunks of a document are replaced in PostgreSQL and in the LanceDB index, and how a
-- replacement that fails is rolled back.
pub mod Tuples
pub mod Steps
pub mod Rollback
pub mod Effects
pub mod Success
mod Examples
use pgvector_ragindexer.Base.{
  ℕ, suc, ◌+◌, String, Bool, true, false, ◌||◌, Option, none, some, List, [], ◌∷◌, ◌++◌, map, leb,
  if◌then◌else◌,
}
use pgvector_ragindexer.Sql.{Link, up, down, select, delete}
use pgvector_ragindexer.Chunks.{Chunk}
use pgvector_ragindexer.Visibility.{of_document}
use pgvector_ragindexer.Readiness.{
  Globals, invalidate_lancedb_cache, begin_lancedb_mutation, end_lancedb_mutation,
}

-- The metadata is the JSON text of the dictionary, and `none` is None.
pub record ChunkTuple : Type 0 where
  pub document_id : String
  pub chunk_index : ℕ
  pub text : String
  pub source_uri : String
  pub embedding : String
  pub metadata : Option String

-- json.dumps(metadata) if metadata else '{}'
abbrev pub metadata_json : Option String → String
metadata_json none = "{}"
metadata_json (some m) = m

-- The table with the value that its id column takes next.
pub record Table : Type 0 where
  pub rows : List Chunk
  pub next_id : ℕ

-- A new row has the defaults of the columns that INSERT leaves out.
abbrev pub inserted_row : ℕ → ℕ → ChunkTuple → Chunk
inserted_row id now t = record {
  chunk_id = id;
  document_id = t.document_id;
  chunk_index = t.chunk_index;
  text_content = t.text;
  source_uri = t.source_uri;
  embedding = t.embedding;
  metadata = metadata_json t.metadata;
  indexed_at = now;
  updated_at = now;
  owner_id = none;
  visibility = some "shared";
  canonical_source_key = none;
  quarantined_at = none;
  quarantine_reason = none;
}

unfoldable pub inserted_rows : ℕ → ℕ → List ChunkTuple → List Chunk
inserted_rows id now [] = []
inserted_rows id now (t ∷ ts) = inserted_row id now t ∷ inserted_rows (suc id) now ts

unfoldable pub id_after : ℕ → List ChunkTuple → ℕ
id_after id [] = id
id_after id (t ∷ ts) = id_after (suc id) ts

-- How a call of insert_chunks ends: the INSERT is refused (by a constraint too), or it is committed and the ANALYZE after it
-- fails, or all goes well. get_connection turns the QueryError of a failed statement into a
-- ConnectionPoolError, which the `except QueryError` around ANALYZE does not catch.
pub data Insertion : Type 0 where
  refused analyze_fails answered : Insertion

abbrev pub with_rows : ℕ → List ChunkTuple → Table → Table
with_rows now chunks t = record {
  rows = t.rows ++ inserted_rows t.next_id now chunks;
  next_id = id_after t.next_id chunks;
}

unfoldable pub insert_chunks : Insertion → ℕ → List ChunkTuple → Table → Bool × Table
unfolding inserted_rows id_after
insert_chunks refused now chunks t = (false, t)
insert_chunks analyze_fails now chunks t = (false, with_rows now chunks t)
insert_chunks answered now chunks t = (true, with_rows now chunks t)

unfoldable pub delete_document : Link → String → Table → Bool × Table
delete_document down doc t = (false, t)
delete_document up doc t = (true, record t { rows = delete (of_document doc) t.rows })

abbrev pub tuple_of : Chunk → ChunkTuple
tuple_of c = record {
  document_id = c.document_id;
  chunk_index = c.chunk_index;
  text = c.text_content;
  source_uri = c.source_uri;
  embedding = c.embedding;
  metadata = some c.metadata;
}

insert_by_index : ChunkTuple → List ChunkTuple → List ChunkTuple
insert_by_index t [] = t ∷ []
insert_by_index t (u ∷ us) =
    if leb t.chunk_index u.chunk_index then t ∷ u ∷ us else u ∷ insert_by_index t us

-- ORDER BY chunk_index; rows of one index keep their order.
unfoldable pub order_by_index : List ChunkTuple → List ChunkTuple
unfolding insert_by_index
order_by_index [] = []
order_by_index (t ∷ ts) = insert_by_index t (order_by_index ts)

abbrev pub document_chunks : String → List Chunk → List ChunkTuple
document_chunks doc rows = order_by_index (map tuple_of (select (of_document doc) rows))

unfoldable pub get_document_chunks_for_reinsert : Link → String → Table → Option (List ChunkTuple)
get_document_chunks_for_reinsert down doc t = none
get_document_chunks_for_reinsert up doc t = some (document_chunks doc t.rows)

-- lancedb_adapter.py as the transaction sees it: each call may raise (false), and may have changed
-- the index `Index` even then.
pub record Adapter (Index : Type 0) : Type 0 where
  pub upsert_document : String → String → List ChunkTuple → String → Index → Bool × Index
  pub rebuild_fts_index : Index → Bool × Index
  pub remove_document : String → Index → Bool × Index

pub record World (Index : Type 0) : Type 0 where
  pub table : Table
  pub index : Index
  pub globals : Globals

-- Whether the database answers at each of the calls: the backup, the deletion and the insertion, and
-- the deletion and the insertion of the rollback.
pub record Links : Type 0 where
  pub at_backup : Link
  pub at_delete : Link
  pub at_insert : Insertion
  pub at_undo_delete : Link
  pub at_undo_insert : Insertion

-- The local variables of the function, with the stores.
pub record Progress (Index : Type 0) : Type 0 where
  pub postgres_inserted : Bool
  pub old_deleted : Bool
  pub old_chunks_backup : List ChunkTuple
  pub world : World Index

-- How far the body of the `try` came.
pub data Outcome (Index : Type 0) : Type 0 where
  continues : Progress Index → Outcome Index
  raises : Progress Index → Outcome Index

pub record Request : Type 0 where
  pub document_id : String
  pub source_uri : String
  pub chunks : List ChunkTuple
  pub doc_metadata : String
  pub replace_existing : Bool
  pub lancedb_enabled : Bool
  pub rebuild_fts : Bool

abbrev pub reinsert : Links → ℕ → List ChunkTuple → Bool × Table → Table
reinsert k now backup (false, t) = t
reinsert k now [] (true, t) = t
reinsert k now (c ∷ cs) (true, t) = (insert_chunks k.at_undo_insert now (c ∷ cs) t).1

module _ {Index : Type 0} where
  abbrev pub with_table : Table → World Index → World Index
  with_table t w = record w { table = t }

  abbrev pub with_index : Index → World Index → World Index
  with_index i w = record w { index = i }

  infixl 20 ◌then_do◌
  abbrev pub ◌then_do◌ : Outcome Index → (Progress Index → Outcome Index) → Outcome Index
  continues p then_do f = f p
  raises p then_do f = raises p

  abbrev pub after_delete : Bool × Table → Progress Index → Outcome Index
  after_delete (false, t) p = raises (record p { world = with_table t p.world })
  after_delete (true, t) p =
      continues (record p { old_deleted = true; world = with_table t p.world })

  abbrev pub after_backup :
      Links → String → Option (List ChunkTuple) → Progress Index → Outcome Index
  after_backup k doc none p = raises p
  after_backup k doc (some backup) p =
      after_delete (delete_document k.at_delete doc p.world.table)
        (record p { old_chunks_backup = backup })

  -- if replace_existing: …
  unfoldable pub remove_existing : Links → Request → Progress Index → Outcome Index
  remove_existing k r p =
      if r.replace_existing
      then after_backup k r.document_id
          (get_document_chunks_for_reinsert k.at_backup r.document_id p.world.table) p
      else continues p

  abbrev pub after_insert : Bool × Table → Progress Index → Outcome Index
  after_insert (false, t) p = raises (record p { world = with_table t p.world })
  after_insert (true, t) p =
      continues (record p { postgres_inserted = true; world = with_table t p.world })

  unfoldable pub store_chunks : Links → ℕ → Request → Progress Index → Outcome Index
  store_chunks k now r p = after_insert (insert_chunks k.at_insert now r.chunks p.world.table) p

  abbrev pub after_index : Bool × Index → Progress Index → Outcome Index
  after_index (false, i) p = raises (record p { world = with_index i p.world })
  after_index (true, i) p = continues (record p { world = with_index i p.world })

  abbrev pub rebuilt : Adapter Index → Request → Progress Index → Outcome Index
  rebuilt a r p =
      if r.rebuild_fts then after_index (a.rebuild_fts_index p.world.index) p else continues p

  -- if lancedb_enabled: …
  unfoldable pub index_chunks : Adapter Index → Request → Progress Index → Outcome Index
  index_chunks a r p =
      if r.lancedb_enabled
      then after_index
          (a.upsert_document r.document_id r.source_uri r.chunks r.doc_metadata p.world.index) p
        then_do rebuilt a r
      else continues p

  -- The first `try` of the handler; what it raises is logged.
  unfoldable pub restore_table : Links → ℕ → Request → Progress Index → Table
  restore_table k now r p =
      reinsert k now p.old_chunks_backup
        (delete_document k.at_undo_delete r.document_id p.world.table)

  -- The second `try`: `if old_chunks_backup and lancedb_enabled`
  abbrev pub clean_index : Adapter Index → Request → List ChunkTuple → Index → Index
  clean_index a r [] i = i
  clean_index a r (c ∷ cs) i =
      if r.lancedb_enabled then (a.remove_document r.document_id i).1 else i

  unfoldable pub roll_back : Adapter Index → Links → ℕ → Request → Progress Index → World Index
  unfolding restore_table
  roll_back a k now r p =
      if p.postgres_inserted || p.old_deleted
      then record p.world {
        table = restore_table k now r p;
        index = clean_index a r p.old_chunks_backup p.world.index;
      }
      else p.world

  abbrev pub with_globals : (Globals → Globals) → World Index → World Index
  with_globals f w = record w { globals = f w.globals }

  -- The end of the `try`, or the handler: true, or the exception that it raises again.
  abbrev pub concluded : Adapter Index → Links → ℕ → Request → Outcome Index → Bool × World Index
  concluded a k now r (continues p) = (true, with_globals invalidate_lancedb_cache p.world)
  concluded a k now r (raises p) =
      (false, with_globals invalidate_lancedb_cache (roll_back a k now r p))

  abbrev pub mutation : Request → (Globals → Globals) → World Index → World Index
  mutation r f w = if r.lancedb_enabled then with_globals f w else w

  abbrev pub started : World Index → Progress Index
  started w = record {
    postgres_inserted = false;
    old_deleted = false;
    old_chunks_backup = [];
    world = w;
  }

  abbrev pub attempt : Adapter Index → Links → ℕ → Request → World Index → Outcome Index
  attempt a k now r w =
      remove_existing k r (started w) then_do store_chunks k now r then_do index_chunks a r

  unfoldable pub write_indexed_document :
      Adapter Index → Links → ℕ → Request → World Index → Bool × World Index
  unfolding remove_existing store_chunks index_chunks roll_back
  write_indexed_document a k now r w =
      let done = concluded a k now r (attempt a k now r (mutation r begin_lancedb_mutation w)) in
      (done.0, mutation r end_lancedb_mutation done.1)
