-- ===== src/WatchedFolders/Examples.antt =====
-- Two folders, and the theorems about the table at them.
use pgvector_ragindexer.Base.{
  String, ◌≡◌, refl, true, false, none, some, [], ◌∷◌, string_eq, first, ◌==◌, strip, rstrip,
  ℕ_discrete, after_prefix,
}
use pgvector_ragindexer.CanonicalIdentity.{collapse, has_double, halve, size}
use pgvector_ragindexer.Sql.{up, select, update}
use pgvector_ragindexer.WatchedFolders.{
  client, server, Folder, NewFolder, new_row, add_folder, normalize_folder_path, scope_of, with_id,
}
use pgvector_ragindexer.WatchedFolders.Transitions.{moved, conflict, move_to, transition_scope}
use pgvector_ragindexer.WatchedFolders.Keys.{IsValid, key_of}
use pgvector_ragindexer.WatchedFolders.Invariant.{empty, next, adds, Reach-IsValid}
use pgvector_ragindexer.WatchedFolders.Registry.{
  Puts, asked_for, registry, place_for, add_folder-registry,
}
use pgvector_ragindexer.WatchedFolders.Return.{touch, transition_scope-back}

abbrev same : String → String
same s = s

abbrev docs : String → NewFolder
docs scope = record {
  folder_path = "/docs/";
  schedule_cron = "0 */6 * * *";
  client_id = some "ann";
  enabled = true;
  metadata = "{}";
  execution_scope = scope;
  executor_id = none;
  paused = false;
  max_concurrency = 1;
}

abbrev ann_docs : Folder
ann_docs = new_row (docs "client") client (some "ann") "/docs" 100 "1" "r1"

path_of_docs : normalize_folder_path false same " /docs// " ≡ "/docs"
unfolding normalize_folder_path strip collapse has_double halve size rstrip string_eq ℕ_discrete
    after_prefix
path_of_docs = refl

Reach-IsValid_example : IsValid (add_folder false same up (docs "client") 100 "1" "r1" []).1
Reach-IsValid_example =
    Reach-IsValid (next empty (adds false same up (docs "client") 100 "1" "r1" [] tt))

ann_docs-IsValid : IsValid (ann_docs ∷ [])
unfolding key_of
ann_docs-IsValid = (refl, tt, tt)

scope_of_server : scope_of "server" ≡ some server
unfolding scope_of string_eq
scope_of_server = refl

add_folder-registry_example :
    Puts
      (place_for false same (docs "server") 200 "2" "r2" server none)
      (asked_for (docs "server"))
      (registry (ann_docs ∷ []))
      (registry (add_folder false same up (docs "server") 200 "2" "r2" (ann_docs ∷ [])).1)
add_folder-registry_example =
    add_folder-registry false same (docs "server") 200 "2" "r2" server none scope_of_server refl
      (ann_docs ∷ []) ann_docs-IsValid

found_docs : first (select (with_id "1") (ann_docs ∷ [])) ≡ some ann_docs
unfolding select string_eq
found_docs = refl

ann_is_named : ◌==◌ {A = String} "ann" "" ≡ false
unfolding string_eq
ann_is_named = refl

server_takes_docs :
    (transition_scope up "1" "server" none 200 (ann_docs ∷ [])).0
    ≡ moved (move_to server none 200 ann_docs)
unfolding transition_scope string_eq select
server_takes_docs = refl

transition_scope-back_example :
    transition_scope up "1" "client"
      (some "ann")
      300
      (transition_scope up "1" "server" none 200 (ann_docs ∷ [])).1
    ≡ (moved (touch 300 ann_docs), update (with_id "1") (touch 300) (ann_docs ∷ []))
transition_scope-back_example =
    transition_scope-back "1" "ann" 200 300 ann_docs (ann_docs ∷ []) ann_docs-IsValid found_docs
      refl refl (move_to server none 200 ann_docs) ann_is_named server_takes_docs

-- A client that watches the path keeps another folder of it from moving there.
refused :
    (transition_scope up "2" "client"
      (some "ann")
      300
      (new_row (docs "server") server none "/docs" 200 "2" "r2" ∷ ann_docs ∷ [])).0
    ≡ conflict
unfolding transition_scope string_eq select
refused = refl
