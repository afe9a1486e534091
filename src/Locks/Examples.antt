-- ===== src/Locks/Examples.antt =====
-- Runs of the lock table, and the theorems about it at concrete rows.
use pgvector_ragindexer.Base.{◌≡◌, refl, false, List, [], ◌∷◌, string_eq, ap}
use pgvector_ragindexer.Sql.{up, select, delete}
use pgvector_ragindexer.Locks.{
  Lock, Target, granted, held, new_lock, lock_where, acquire_found, acquire_lock,
}
use pgvector_ragindexer.Locks.Invariant.{UniqueUri, empty, next, acquires, Reach-UniqueUri}
use pgvector_ragindexer.Locks.Exclusion.{OnlyClient, by_path, by_both, acquire_lock-excludes}

abbrev doc : Target
doc = by_path "/docs/a.txt"

abbrev held_by_ann : Lock
held_by_ann = new_lock "1" doc "ann" 100 10 "indexing"

abbrev table : List Lock
table = held_by_ann ∷ []

bob_is_refused : acquire_lock up doc "bob" 10 "indexing" 400 "2" table ≡ (held held_by_ann, table)
unfolding acquire_lock acquire_found delete select lock_where string_eq
bob_is_refused = refl

bob_after_expiry : acquire_lock up doc "bob" 10 "indexing" 701 "2" table ≡ (
  granted (new_lock "2" doc "bob" 701 10 "indexing") false,
  new_lock "2" doc "bob" 701 10 "indexing" ∷ [],
)
unfolding acquire_lock acquire_found delete select lock_where string_eq
bob_after_expiry = refl

acquire_lock-excludes_example :
    OnlyClient "/docs/a.txt" "bob" (acquire_lock up doc "bob" 10 "indexing" 701 "2" table).1
acquire_lock-excludes_example =
    acquire_lock-excludes doc "bob" 10 "indexing" 701 "2" up table
      {l = new_lock "2" doc "bob" 701 10 "indexing"} {extended = false} refl (tt, tt)
      (ap (λ r. r.0) bob_after_expiry)

Reach-UniqueUri_example : UniqueUri (acquire_lock up doc "ann" 10 "indexing" 100 "1" []).1
Reach-UniqueUri_example =
    Reach-UniqueUri (next empty (acquires up doc "ann" 10 "indexing" 100 "1" []))

abbrev ann_elsewhere : Lock
ann_elsewhere = new_lock "3" (by_both "/mnt/a.txt" "root" "a.txt") "ann" 100 10 "indexing"

abbrev bob_by_path : Lock
bob_by_path = new_lock "4" doc "bob" 100 10 "indexing"
