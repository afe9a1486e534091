-- ===== src/Paths/Examples.antt =====
-- A folder whose name has an underscore.
use pgvector_ragindexer.Base.{◌≡◌, refl, some, string_eq, rstrip, rstrip_onto, append, ℕ_discrete}
use pgvector_ragindexer.Paths.{
  replace, put_before, normalize_path, folder_prefix_like_pattern, is_path_under, like,
}
use pgvector_ragindexer.Paths.Under.{like-is_path_under}

no_slash_at_end : rstrip "/" (normalize_path "\\a_b\\c") ≡ normalize_path "\\a_b\\c"
unfolding normalize_path replace rstrip rstrip_onto ℕ_discrete
no_slash_at_end = refl

its_pattern : folder_prefix_like_pattern "/a_b/" ≡ some "/a\\_b/%"
unfolding folder_prefix_like_pattern normalize_path replace put_before rstrip rstrip_onto append
    string_eq ℕ_discrete
its_pattern = refl

like-is_path_under_example :
    like (normalize_path "\\a_b\\c") "/a\\_b/%" ≡ is_path_under "\\a_b\\c" "/a_b/"
like-is_path_under_example = like-is_path_under "\\a_b\\c" "/a_b/" no_slash_at_end its_pattern
