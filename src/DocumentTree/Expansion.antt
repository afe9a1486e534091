-- ===== src/DocumentTree/Expansion.antt =====
-- Expanding a folder shows the documents that it counts.
use pgvector_ragindexer.Base.{
  ℕ, String, ◌≡◌, Bool, true, false, Option, none, some, List, ◌==◌, string_eq, append, All,
}
use pgvector_ragindexer.Paths.Under.{without}
use pgvector_ragindexer.DocumentTree.{Placement, direct_child, in_folder, TreeFolder}

abbrev count_in : Option TreeFolder → ℕ
count_in none = 0
count_in (some f) = f.document_count

abbrev named : String → Option Placement → Bool
named name none = false
named name (some (direct_child file)) = false
named name (some (in_folder part path)) = part == name

abbrev path_of : String → String → String
path_of parent name = append (append parent "/") name

-- A folder of the level has its path and a name without a slash.
abbrev Proper : String → String → String → Type 0
Proper parent name path = (path ≡ path_of parent name) × (without "/" name ≡ true)

abbrev ProperPlace : String → Option Placement → Type 0
ProperPlace parent none = Unit
ProperPlace parent (some (direct_child file)) = Unit
ProperPlace parent (some (in_folder name path)) = Proper parent name path

abbrev AllProper : String → List TreeFolder → Type 0
AllProper parent fs = All (λ (f : TreeFolder). Proper parent f.name f.path) fs
