-- ===== src/Scan/Reports.antt =====
-- What scan_folder reports of its files, and how it leaves the quarantine.
use pgvector_ragindexer.Base.{
  ℕ, suc, ◌+◌, String, ◌≡◌, refl, ap, ◌∙◌, inl, inr, Bool, true, false, not, ◌&&◌, Option, none,
  some, List, [], ◌∷◌, string_eq, arith, All, Bool-cases, length,
}
use pgvector_ragindexer.Sql.{up}
use pgvector_ragindexer.Writes.{World, write_indexed_document}
use pgvector_ragindexer.Indexer.{
  ProcessedDocument, Processing, processed, encrypted, unprocessable, crashes, Services, Conditions,
  IndexResult, success, skipped, error, denied, for_batch, same_hash, after_write, write_embedded,
  index_found, chunk_tuples, index_processed, index_document,
}
use pgvector_ragindexer.IndexingRuns.{RunStatus}
use pgvector_ragindexer.Scan.{
  Scan, Store, Counts, no_counts, count_result, index_files, scan_folder, scan_pattern,
}
use pgvector_ragindexer.Scan.Sources.{IsSettled, quarantine_missing_sources-IsSettled}

-- A result that is returned, and not raised.
abbrev IsReturned : IndexResult → Type 0
IsReturned (success doc n) = Unit
IsReturned (skipped doc) = Unit
IsReturned (error e) = Unit
IsReturned denied = ⊥

abbrev counted : ℕ → Counts → Counts
counted n c = record c { scanned = c.scanned + n; added = c.added + n }

count_result-IsReturned :
    (uri : String) (r : IndexResult) (c : Counts)
    → IsReturned r
    → count_result uri r c ≡ counted 1 c
count_result-IsReturned uri (success doc n) c h = refl
count_result-IsReturned uri (skipped doc) c h = refl
count_result-IsReturned uri (error e) c h = refl
count_result-IsReturned uri denied c h = absurd h

counted-counted : (n : ℕ) (c : Counts) → counted n (counted 1 c) ≡ counted (suc n) c
counted-counted n c = ground arith

module _ {Index : Type 0} (s : Services Index) where
  module _ (k : Conditions) (force : Bool) (d : ProcessedDocument) (w : World Index) where
    written-IsReturned :
        (re : Bool) (es : Option (List String))
        → IsReturned (write_embedded s k (for_batch force) d re w es).0
    written-IsReturned re none = tt
    written-IsReturned re (some es) = ended (write_indexed_document s.adapter k.at_write k.now _ w)
      where
        ended :
            (r : Bool × World Index)
            → IsReturned (after_write s d (chunk_tuples d 0 d.chunks es) r).0
        ended (true, w') = tt
        ended (false, w') = tt

    index_found-IsReturned :
        (found : Option (Option String))
        → IsReturned (index_found s k (for_batch force) d w found).0
    unfolding index_found
    index_found-IsReturned none = tt
    index_found-IsReturned (some none) = written-IsReturned false _
    index_found-IsReturned (some (some m)) =
        elim (Bool-cases (not force && same_hash d.file_hash (s.file_hash_of m))) [
          | inl y ↦ rw y tt
          | inr n ↦ rw n (written-IsReturned true _)
        ]

  index_document-IsReturned :
      (k : Conditions) (force : Bool) (uri : String) (w : World Index) (r : Processing)
      → IsReturned (index_processed s k (for_batch force) w r).0
  index_document-IsReturned k force uri w encrypted = tt
  index_document-IsReturned k force uri w unprocessable = tt
  index_document-IsReturned k force uri w crashes = tt
  index_document-IsReturned k force uri w (processed d) = index_found-IsReturned k force d w _

  index_files-counts :
      (files : List (String × Conditions)) (c : Counts) (w : World Index)
      → (index_files s files c w).0 ≡ counted (length files) c
  unfolding index_files index_document
  index_files-counts [] c w = ground arith
  index_files-counts ((uri, k) ∷ rest) c w =
      index_files-counts rest _ _
      ∙ ap (counted (length rest)) (
          count_result-IsReturned uri _ c (index_document-IsReturned k false uri w (s.process uri)))
      ∙ counted-counted (length rest) c

  module _ (x : Scan) (folder : String) (client_id root : Option String) (st : Store Index)
      (starts : x.indexer_starts ≡ true) (there : x.disk.is_dir folder ≡ true) where
    -- If the indexer starts, a scan of a folder that is there reports success, and counts every file
    -- as added and none as failed, also if the indexer answered each of them with an error.
    pub scan_folder-reports_success : (scan_folder s x folder client_id root st).0 ≡ record {
      run_id = x.run_id;
      status = RunStatus.success;
      counts = record { scanned = length x.files; added = length x.files; failed = 0; errors = [] };
    }
    unfolding scan_folder
    scan_folder-reports_success =
        rw (starts, there) (rw (index_files-counts x.files no_counts st.world) (ground arith))

    -- If the indexer starts, then after a scan of a folder that is there, with the database up when
    -- it sets the quarantine, a chunk whose path the pattern of the folder matches is in quarantine exactly if its file is
    -- not there. The pattern takes percent signs and underscores in the name of the folder for
    -- wildcards.
    pub scan_folder-IsSettled :
        x.at_sources ≡ up
        → x.at_source ≡ (λ _. up)
        → All
            (IsSettled x.disk.is_file (scan_pattern folder))
            (scan_folder s x folder client_id root st).1.world.table.rows
    unfolding scan_folder
    scan_folder-IsSettled reads writes =
        rw (starts, there, reads, writes)
          (quarantine_missing_sources-IsSettled x.disk.is_file x.now folder _)
