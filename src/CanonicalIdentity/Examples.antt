-- ===== src/CanonicalIdentity/Examples.antt =====
-- A key with a colon in its path.
use pgvector_ragindexer.Base.{
  none, ◌≡◌, refl, true, false, some, string_eq, contains, arith, ◌≤◌, ℕ_discrete,
}
use pgvector_ragindexer.Paths.Under.{without}
use pgvector_ragindexer.Chunks.{Chunk}
use pgvector_ragindexer.CanonicalIdentity.{
  scopes, normalize_relative, build_canonical_key, resolve_canonical_key, size, has_double,
  collapse,
}
use pgvector_ragindexer.CanonicalIdentity.Collapse.{collapse-fuel}
use pgvector_ragindexer.CanonicalIdentity.Keys.{resolve-build}

server_is_a_scope : contains scopes "server" ≡ true
unfolding string_eq
server_is_a_scope = refl

no_colon : without ":" "7" ≡ true
unfolding without ℕ_discrete
no_colon = refl

resolve-build_example :
    resolve_canonical_key (build_canonical_key "server" "7" "a:b//c")
    ≡ some
        (record { scope = "server"; identity = "7"; relative_path = normalize_relative "a:b//c" })
resolve-build_example = resolve-build "server" "7" "a:b//c" server_is_a_scope no_colon

six_characters : size "a////b" ≤ 6
unfolding size
six_characters = omega arith

collapse-fuel_example : has_double (collapse 6 "a////b") ≡ false
collapse-fuel_example = collapse-fuel 6 "a////b" six_characters

abbrev chunk : Chunk
chunk = record {
  chunk_id = 1;
  document_id = "a";
  chunk_index = 0;
  text_content = "text";
  source_uri = "/d/a";
  embedding = "[0,1]";
  metadata = "{}";
  indexed_at = 5;
  updated_at = 5;
  owner_id = none;
  visibility = none;
  canonical_source_key = none;
  quarantined_at = none;
  quarantine_reason = none;
}
