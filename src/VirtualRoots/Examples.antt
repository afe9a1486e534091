-- ===== src/VirtualRoots/Examples.antt =====
-- A root that two clients map.
use pgvector_ragindexer.Base.{
  String, ◌≡◌, refl, true, false, none, some, List, [], ◌∷◌, ◌==◌, ◌&&◌, string_eq, after_prefix,
  append, has_prefix, has_suffix, if◌then◌else◌, ℕ_discrete,
}
use pgvector_ragindexer.Sql.{up, select}
use pgvector_ragindexer.Paths.Under.{without}
use pgvector_ragindexer.CanonicalIdentity.{split_first}
use pgvector_ragindexer.VirtualRoots.{VirtualRoot, add_root, remove_root_by_name, resolve_path}
use pgvector_ragindexer.VirtualRoots.Mapping.{mapping, mapping-changes, resolve_path-joins}

abbrev docs : String
docs = "FinanceDocs"

abbrev client_a : String
client_a = "A"

abbrev client_b : String
client_b = "B"

abbrev mount : String
mount = "/mnt/finance"

abbrev report : String
report = "reports/q1.pdf"

abbrev rows : List VirtualRoot
rows =
    record { id = "1"; name = "FinanceDocs"; client_id = "A"; local_path = "C:/Finance" }
    ∷ record { id = "2"; name = "FinanceDocs"; client_id = "B"; local_path = "/mnt/finance" }
    ∷ []

plain_name : without "/" docs ≡ true
unfolding without ℕ_discrete
plain_name = refl

not_empty : (report == "") ≡ false
unfolding string_eq
not_empty = refl

relative : has_prefix "/" report ≡ false
unfolding after_prefix ℕ_discrete
relative = refl

has_path : (mount == "") ≡ false
unfolding string_eq
has_path = refl

no_slash : has_suffix "/" mount ≡ false
unfolding has_suffix string_eq
no_slash = refl

-- A second slash after the name leaves the root.
escapes : resolve_path up "FinanceDocs//etc/passwd" "B" rows ≡ some "/etc/passwd"
unfolding resolve_path select split_first after_prefix string_eq ℕ_discrete
escapes = refl

mapping-changes_example :
    (mapping docs "B" (add_root up "3" docs "A" "D:/" rows).1
      ≡ (if docs == docs && client_a == client_b then some "D:/" else mapping docs "B" rows))
    × (mapping docs "B" (remove_root_by_name up docs "A" rows).1
        ≡ (if docs == docs && client_b == client_a then none else mapping docs "B" rows))
mapping-changes_example = mapping-changes "3" docs "A" "D:/" docs "B" rows

resolve_path-joins_example :
    resolve_path up (append docs (append "/" report)) "B" (add_root up "3" docs "B" mount rows).1
    ≡ some (append mount (append "/" report))
resolve_path-joins_example =
    resolve_path-joins "3" docs "B" mount report rows plain_name not_empty relative has_path
      no_slash
