-- ===== src/Grants/Examples.antt =====
-- A role without grants that gets one for the collection "hr", and loses it again.
use pgvector_ragindexer.Base.{
  String, ◌≡◌, refl, true, false, List, [], ◌∷◌, ◌==◌, contains, string_eq, nat_eq, strip,
}
use pgvector_ragindexer.Sql.{count}
use pgvector_ragindexer.Roles.{Config, get_valid_roles}
use pgvector_ragindexer.Grants.{Grant, of_role, is_grant}

abbrev config : Config
config =
    (
      "sales",
      record { description = "Sales"; permissions = "documents.read" ∷ []; is_system = false },
    )
    ∷ []

abbrev hr_grant : List Grant
hr_grant = record { role = "sales"; namespace = "hr" } ∷ []

is_named : (◌==◌ {A = String} "sales" "") ≡ false
unfolding string_eq
is_named = refl

is_known : contains (get_valid_roles config) "sales" ≡ true
unfolding get_valid_roles string_eq
is_known = refl

hr_is_named : (strip " hr " == "") ≡ false
unfolding strip string_eq
hr_is_named = refl

nothing_yet : count (of_role "sales") [] ≡ 0
unfolding count
nothing_yet = refl

only_that_one : count (of_role "sales") hr_grant ≡ count (is_grant "sales" "hr") hr_grant
unfolding count string_eq
only_that_one = refl
