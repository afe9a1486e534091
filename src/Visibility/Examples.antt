-- ===== src/Visibility/Examples.antt =====
-- The rules at a table of two documents, one of them private.
use pgvector_ragindexer.Base.{
  ℕ, String, ◌≡◌, ◌≢◌, ◌↔◌, refl, false, Option, none, some, List, [], ◌∷◌, All, string_eq, ==_ne,
  contains, ltb,
}
use pgvector_ragindexer.Sql.{up, count, select}
use pgvector_ragindexer.Chunks.{Chunk}
use pgvector_ragindexer.Visibility.{
  private, of_document, returned, Caller, linked, document_visible_for_key_record,
  set_document_owner_and_visibility, search_exclusions_for_key_record, get_hidden_document_ids,
  hidden_where, documents_of, keep_visible, filter_by, filter_entries_by_hidden_source,
}
use pgvector_ragindexer.Visibility.Agreement.{HasVisibility, AllShown, exclusions-agree}
use pgvector_ragindexer.Visibility.Changes.{told, private-visible}

abbrev chunk : ℕ → String → Option String → Option String → Chunk
chunk i doc owner v = record {
  chunk_id = i;
  document_id = doc;
  chunk_index = i;
  text_content = "text";
  source_uri = doc;
  embedding = "[0,1]";
  metadata = "{}";
  indexed_at = 5;
  updated_at = 5;
  owner_id = owner;
  visibility = v;
  canonical_source_key = none;
  quarantined_at = none;
  quarantine_reason = none;
}

abbrev table : List Chunk
table =
    chunk 0 "a" (some "ann") (some "private")
    ∷ chunk 1 "a" (some "ann") (some "private")
    ∷ chunk 0 "b" none none
    ∷ []

abbrev bob : Caller
bob = linked "bob" false

abbrev itself : String → String
itself s = s

are_valid : All HasVisibility table
unfolding string_eq
are_valid = (refl, (refl, (refl, tt)))

hidden_of_bob : search_exclusions_for_key_record up bob table ≡ returned ("a" ∷ "a" ∷ [])
unfolding search_exclusions_for_key_record get_hidden_document_ids hidden_where documents_of select
    string_eq
hidden_of_bob = refl

exclusions-agree_example :
    (contains {A = String} ("a" ∷ "a" ∷ []) "b" ≡ false) ↔ AllShown "b" bob table
exclusions-agree_example = exclusions-agree up "b" bob table are_valid hidden_of_bob

kept_for_bob :
    filter_entries_by_hidden_source itself itself up bob table ("a" ∷ "b" ∷ [])
    ≡ returned ("b" ∷ [])
unfolding filter_entries_by_hidden_source filter_by keep_visible search_exclusions_for_key_record
    get_hidden_document_ids hidden_where documents_of select string_eq
kept_for_bob = refl

ann_is_named : ◌≢◌ {A = String} "ann" ""
unfolding string_eq
ann_is_named = ==_ne "ann" "" refl

private-visible_example :
    document_visible_for_key_record up "b" bob
      (set_document_owner_and_visibility up 9 "b" "ann" private table).1
    ≡ returned (told "ann" bob (ltb 0 (count (of_document "b") table)))
private-visible_example = private-visible 9 "b" "ann" bob table ann_is_named
