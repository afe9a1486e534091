-- ===== src/Scan.antt =====
-- watched_folders.py: scan_folder, which indexes the files of a folder and then sets the quarantine
-- of the documents below it by whether their files are there. The file system is an argument.
pub mod Sources
pub mod Reports
mod Examples
use pgvector_ragindexer.Base.{
  ℕ, suc, ◌+◌, String, Bool, true, false, not, ◌&&◌, ◌||◌, Option, none, some, List, [], ◌∷◌, ◌++◌,
  ◌==◌, string_eq, nat_eq, append, rstrip, length, if◌then◌else◌,
}
use pgvector_ragindexer.Sql.{Link, up, down}
use pgvector_ragindexer.Chunks.{Chunk}
use pgvector_ragindexer.Paths.{replace, like}
use pgvector_ragindexer.Quarantine.{quarantine_chunks, restore_chunks}
use pgvector_ragindexer.CanonicalIdentity.{bulk_set_canonical_keys}
use pgvector_ragindexer.WatchedFolders.{Scope, client, server, Folder, get_folder_by_root_id}
use pgvector_ragindexer.Writes.{World, with_index}
use pgvector_ragindexer.Indexer.{
  Services, Conditions, IndexResult, success, skipped, error, denied, for_batch, index_document,
}
use pgvector_ragindexer.IndexingRuns.{
  Run, RunStatus, partial, failed, RunError, Completion, start_run, complete_run,
}

-- The pattern `<folder>/%`.
unfoldable pub scan_pattern : String → String
scan_pattern folder = append (append (rstrip "/" (replace "\\" "/" folder)) "/") "%"

abbrev pub is_quarantined : Chunk → Bool
is_quarantined c = elim c.quarantined_at [ none ↦ false | some t ↦ true ]

abbrev pub same_bool : Bool → Bool → Bool
same_bool true b = b
same_bool false b = not b

unfoldable pub has_source : String → Bool → List (String × Bool) → Bool
has_source u q [] = false
has_source u q ((v, b) ∷ rest) = (v == u && same_bool b q) || has_source u q rest

abbrev pub add_source : String → Bool → List (String × Bool) → List (String × Bool)
add_source u q rest = if has_source u q rest then rest else (u, q) ∷ rest

-- SELECT DISTINCT source_uri, (quarantined_at IS NOT NULL) … WHERE source_uri LIKE …
unfoldable pub distinct_sources : String → List Chunk → List (String × Bool)
unfolding has_source
distinct_sources pattern [] = []
distinct_sources pattern (c ∷ cs) =
    let rest = distinct_sources pattern cs in
    if like c.source_uri pattern then add_source c.source_uri (is_quarantined c) rest else rest

-- What the scan sees of the file system.
pub record Disk : Type 0 where
  pub is_dir : String → Bool
  pub is_file : String → Bool

abbrev pub file_missing : String
file_missing = "source_file_missing"

-- The body of the loop over the sources. Each call has its own connection.
unfoldable pub settle_source : (String → Bool) → Link → ℕ → String → Bool → List Chunk → List Chunk
settle_source is_file k now u q rows =
    if not (is_file u) && not q
    then (quarantine_chunks k u file_missing now rows).1
    else if is_file u && q
    then (restore_chunks k u now rows).1
    else rows

unfoldable pub settle_sources :
    (String → Bool) → (String → Link) → ℕ → List (String × Bool) → List Chunk → List Chunk
unfolding settle_source
settle_sources is_file k now [] rows = rows
settle_sources is_file k now ((u, q) ∷ rest) rows =
    settle_sources is_file k now rest (settle_source is_file (k u) now u q rows)

unfoldable pub quarantine_missing_sources :
    Link → (String → Link) → (String → Bool) → ℕ → String → List Chunk → List Chunk
unfolding distinct_sources settle_sources
quarantine_missing_sources down each is_file now folder rows = rows
quarantine_missing_sources up each is_file now folder rows =
    settle_sources is_file each now (distinct_sources (scan_pattern folder) rows) rows

-- f-string of a scope
abbrev pub scope_text : Scope → String
scope_text client = "client"
scope_text server = "server"

abbrev pub or_none : Option String → String
or_none none = "None"
or_none (some s) = s

abbrev pub identity_for : String → Folder → Scope → String
identity_for root f client = or_none f.executor_id
identity_for root f server = root

abbrev pub backfill_found : Link → ℕ → String → String → Option Folder → List Chunk → List Chunk
backfill_found k now root folder none rows = rows
backfill_found k now root folder (some f) rows =
    (bulk_set_canonical_keys k folder (scope_text f.execution_scope)
      (identity_for root f f.execution_scope) now rows).1

unfoldable pub backfill_canonical_keys :
    Link → Link → ℕ → String → String → List Folder → List Chunk → List Chunk
backfill_canonical_keys at_lookup at_update now root folder folders rows =
    backfill_found at_update now root folder (get_folder_by_root_id at_lookup root folders) rows

-- if root_id: …
abbrev pub backfill_if :
    Option String → Link → Link → ℕ → String → List Folder → List Chunk → List Chunk
backfill_if none l m now folder folders rows = rows
backfill_if (some root) l m now folder folders rows =
    if root == "" then rows else backfill_canonical_keys l m now root folder folders rows

pub record Store (Index : Type 0) : Type 0 where
  pub world : World Index
  pub runs : List Run
  pub folders : List Folder

-- What happens around one scan: the files of the walk, each with what happens around its call, the
-- links of the other statements, and whether `DocumentIndexer()` returns.
pub record Scan : Type 0 where
  pub run_id : String
  pub indexer_starts : Bool
  pub files : List (String × Conditions)
  pub disk : Disk
  pub now : ℕ
  pub at_start_run : Link
  pub at_complete_run : Link
  pub at_root_lookup : Link
  pub at_backfill : Link
  pub at_sources : Link
  pub at_source : String → Link

-- The counters of the loop.
pub record Counts : Type 0 where
  pub scanned : ℕ
  pub added : ℕ
  pub failed : ℕ
  pub errors : List RunError

abbrev pub no_counts : Counts
no_counts = record { scanned = 0; added = 0; failed = 0; errors = [] }

-- index_document returns, and only ReplacementNotAuthorizedError leaves it as an exception.
abbrev pub count_result : String → IndexResult → Counts → Counts
count_result uri denied c = record {
  scanned = c.scanned + 1;
  added = c.added;
  failed = c.failed + 1;
  errors = c.errors ++ record { source_uri = uri; error = "not authorized" } ∷ [];
}
count_result uri (success doc n) c = record c { scanned = c.scanned + 1; added = c.added + 1 }
count_result uri (skipped doc) c = record c { scanned = c.scanned + 1; added = c.added + 1 }
count_result uri (error e) c = record c { scanned = c.scanned + 1; added = c.added + 1 }

pub record Report : Type 0 where
  pub run_id : String
  pub status : RunStatus
  pub counts : Counts

module _ {Index : Type 0} (s : Services Index) where
  unfoldable pub index_files :
      List (String × Conditions) → Counts → World Index → Counts × World Index
  unfolding index_document
  index_files [] c w = (c, w)
  index_files ((uri, k) ∷ rest) c w =
      let one = index_document s k (for_batch false) uri w in
      index_files rest (count_result uri one.0 c) one.1

  -- if lancedb_enabled: rebuild_fts_index, whose exception is logged
  abbrev pub rebuilt_index : World Index → World Index
  rebuilt_index w =
      if s.lancedb_enabled then with_index (s.adapter.rebuild_fts_index w.index).1 w else w

  abbrev pub with_rows : (List Chunk → List Chunk) → World Index → World Index
  with_rows f w = record w { table = record w.table { rows = f w.table.rows } }

  abbrev pub completion : RunStatus → Counts → Completion
  completion status c = record {
    status = status;
    files_scanned = c.scanned;
    files_added = c.added;
    files_updated = 0;
    files_skipped = 0;
    files_failed = c.failed;
    errors = c.errors;
  }

  abbrev pub ended : Scan → RunStatus → Counts → Store Index → Store Index
  ended x status c st = record st {
    runs = complete_run x.at_complete_run x.run_id (completion status c) x.now st.runs;
  }

  -- {"run_id": …, "status": "failed"}, with one entry in the errors of the run
  abbrev pub fails_with : Scan → String → String → Store Index → Report × Store Index
  fails_with x folder message st =
      let c = record no_counts { errors = record { source_uri = folder; error = message } ∷ [] } in
      (record { run_id = x.run_id; status = failed; counts = c }, ended x failed c st)

  abbrev pub final_status : ℕ → RunStatus
  final_status n = if n == 0 then RunStatus.success else partial

  -- After the loop: the index, the run, the keys and the quarantine.
  abbrev pub finish_scan :
      Scan → String → Option String → Store Index → Counts × World Index → Report × Store Index
  finish_scan x folder root st (c, w) = (
    record { run_id = x.run_id; status = final_status c.failed; counts = c },
    record (ended x (final_status c.failed) c st) {
      world =
          with_rows
            (λ rows.
              quarantine_missing_sources x.at_sources x.at_source x.disk.is_file x.now folder
                (backfill_if root x.at_root_lookup x.at_backfill x.now folder st.folders rows))
            (rebuilt_index w);
    },
  )

  abbrev pub started_run : Scan → String → Option String → Store Index → Store Index
  started_run x folder client_id st = record st {
    runs = start_run x.at_start_run x.run_id x.now "scheduled" (some folder) "{}" client_id st.runs;
  }

  unfoldable pub scan_folder :
      Scan → String → Option String → Option String → Store Index → Report × Store Index
  unfolding index_files quarantine_missing_sources backfill_canonical_keys
  scan_folder x folder client_id root st =
      let begun = started_run x folder client_id st in
      if x.indexer_starts
      then if x.disk.is_dir folder
        then finish_scan x folder root begun (index_files x.files no_counts begun.world)
        else fails_with x folder "Directory not found" begun
      else fails_with x folder "the indexer does not start" begun
