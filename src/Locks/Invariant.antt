-- ===== src/Locks/Invariant.antt =====
-- The table keeps one row for each `source_uri`, whatever the calls.
use pgvector_ragindexer.Base.{
  ℕ, String, ◌≡◌, ◌≢◌, refl, Option, none, some, List, [], ◌∷◌, arith, All, first, ◌==◌, string_eq,
}
use pgvector_ragindexer.Sql.{Truth, Link, up, down, select, delete, update, of_bool}
use pgvector_ragindexer.Locks.{
  Lock, Target, lock_where, acquire_found, acquire_lock, release_lock, force_release_lock,
  cleanup_expired_locks, extend,
}

-- no row of the list has this path
abbrev pub Absent : String → List Lock → Type 0
Absent u = All (λ r. r.source_uri ≢ u)

-- The unique index on `source_uri`.
abbrev pub UniqueUri : List Lock → Type 0
UniqueUri [] = Unit
UniqueUri (r ∷ rs) = Absent r.source_uri rs × UniqueUri rs

pub Absent-delete :
    (p : Lock → Truth) (u : String) (rs : List Lock) → Absent u rs → Absent u (delete p rs)
unfolding delete
Absent-delete p u [] h = tt
Absent-delete p u (r ∷ rs) h = ground (arith, Absent-delete p u rs h.1)

pub UniqueUri-delete : (p : Lock → Truth) (rs : List Lock) → UniqueUri rs → UniqueUri (delete p rs)
unfolding delete
UniqueUri-delete p [] h = tt
UniqueUri-delete p (r ∷ rs) h =
    ground (arith, UniqueUri-delete p rs h.1, Absent-delete p r.source_uri rs h.0)

module _ (p : Lock → Truth) (now ttl : ℕ) (reason : String) where
  pub Absent-update :
      (u : String) (rs : List Lock) → Absent u rs → Absent u (update p (extend now ttl reason) rs)
  unfolding update
  Absent-update u [] h = tt
  Absent-update u (r ∷ rs) h = ground (arith, Absent-update u rs h.1)

  UniqueUri-update :
      (rs : List Lock) → UniqueUri rs → UniqueUri (update p (extend now ttl reason) rs)
  unfolding update
  UniqueUri-update [] h = tt
  UniqueUri-update (r ∷ rs) h =
      ground (arith, UniqueUri-update rs h.1, Absent-update r.source_uri rs h.0)

-- A query that finds nothing finds no row at its path.
pub first-none-Absent :
    (t : Target) (rs : List Lock) → first (select (lock_where t) rs) ≡ none → Absent t.source_uri rs
unfolding select lock_where
first-none-Absent t [] h = tt
first-none-Absent t (r ∷ rs) h = ground (arith, first-none-Absent t rs)

module _ (t : Target) (client : String) (ttl : ℕ) (reason : String) (now : ℕ) (uuid : String) where
  acquire_found-UniqueUri :
      (before kept : List Lock) (o : Option Lock)
      → UniqueUri before
      → UniqueUri kept
      → (o ≡ none → Absent t.source_uri kept)
      → UniqueUri (acquire_found t client ttl reason now uuid before kept o).1
  unfolding acquire_found
  acquire_found-UniqueUri before kept none ub uk new = (new refl, uk)
  acquire_found-UniqueUri before kept (some l) ub uk new =
      ground (arith, UniqueUri-update (λ r. of_bool (r.id == l.id)) now ttl reason kept uk)

  acquire-UniqueUri :
      (k : Link) (rs : List Lock)
      → UniqueUri rs
      → UniqueUri (acquire_lock k t client ttl reason now uuid rs).1
  unfolding acquire_lock
  acquire-UniqueUri down rs h = h
  acquire-UniqueUri up rs h =
      acquire_found-UniqueUri rs _ _ h (UniqueUri-delete _ rs h) (first-none-Absent t _)

-- The calls that change the table.
pub data Step : List Lock → List Lock → Type 0 where
  acquires :
      (k : Link) (t : Target) (client : String) (ttl : ℕ) (reason : String) (now : ℕ)
      (uuid : String) (rs : List Lock)
      → Step rs (acquire_lock k t client ttl reason now uuid rs).1
  releases :
      (k : Link) (t : Target) (client : String) (rs : List Lock)
      → Step rs (release_lock k t client rs).1
  force_releases :
      (k : Link) (uri : String) (rs : List Lock) → Step rs (force_release_lock k uri rs).1
  cleans_up : (k : Link) (now : ℕ) (rs : List Lock) → Step rs (cleanup_expired_locks k now rs).1

pub data Reach : List Lock → Type 0 where
  empty : Reach []
  next : {rs ts : List Lock} → Reach rs → Step rs ts → Reach ts

Step-UniqueUri : {rs ts : List Lock} → Step rs ts → UniqueUri rs → UniqueUri ts
unfolding release_lock force_release_lock cleanup_expired_locks
Step-UniqueUri (acquires k t c ttl reason now uuid rs) h =
    acquire-UniqueUri t c ttl reason now uuid k rs h
Step-UniqueUri (releases up t c rs) h = UniqueUri-delete _ rs h
Step-UniqueUri (releases down t c rs) h = h
Step-UniqueUri (force_releases up uri rs) h = UniqueUri-delete _ rs h
Step-UniqueUri (force_releases down uri rs) h = h
Step-UniqueUri (cleans_up up now rs) h = UniqueUri-delete _ rs h
Step-UniqueUri (cleans_up down now rs) h = h

-- Whatever calls were made from an empty table, and whichever of them failed, no path is locked by
-- two rows: no INSERT of `acquire_lock` can violate the unique index.
pub Reach-UniqueUri : {rs : List Lock} → Reach rs → UniqueUri rs
Reach-UniqueUri empty = tt
Reach-UniqueUri (next r s) = Step-UniqueUri s (Reach-UniqueUri r)
