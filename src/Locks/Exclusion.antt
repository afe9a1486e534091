-- ===== src/Locks/Exclusion.antt =====
-- Two clients never both hold the lock of one path, and where the second key undermines that.
use pgvector_ragindexer.Base.{
  ℕ, String, ◌≡◌, ◌≢◌, refl, true, false, Bool, Option, none, some, List, [], ◌∷◌, arith, All,
  first, ◌==◌, string_eq, ◌&&◌, Bool-cases, ==_sound, subst, inl, inr, ◌≤◌,
}
use pgvector_ragindexer.Sql.{Truth, Link, up, down, is_true, select, delete, update}
use pgvector_ragindexer.Locks.{
  Lock, Target, truthy, granted, lock_where, acquire_found, acquire_lock, extend,
}
use pgvector_ragindexer.Locks.Invariant.{Absent, UniqueUri, UniqueUri-delete, first-none-Absent}

-- The caller gave no second key.
abbrev pub ByUri : Target → Type 0
ByUri t = (truthy t.root_id && truthy t.relative_path) ≡ false

-- Every row at the path belongs to the client.
abbrev pub OnlyClient : String → String → List Lock → Type 0
OnlyClient u client = All (λ r. r.source_uri ≡ u → r.client_id ≡ client)

Absent-OnlyClient : (u client : String) (rs : List Lock) → Absent u rs → OnlyClient u client rs
Absent-OnlyClient u client [] h = tt
Absent-OnlyClient u client (r ∷ rs) h = (λ e. absurd (h.0 e), Absent-OnlyClient u client rs h.1)

first-OnlyClient :
    (t : Target) (rs : List Lock) (l : Lock)
    → ByUri t
    → UniqueUri rs
    → first (select (lock_where t) rs) ≡ some l
    → OnlyClient t.source_uri l.client_id rs
unfolding select lock_where
first-OnlyClient t [] l b h e = tt
first-OnlyClient t (r ∷ rs) l b (fresh, u) e = elim (Bool-cases (r.source_uri == t.source_uri)) [
  | inl same ↦ (
    λ _. ground arith,
    Absent-OnlyClient t.source_uri l.client_id rs
        (subst (λ w. Absent w rs) (==_sound _ _ same) fresh),
  )
  | inr other ↦ (λ p. ground arith, first-OnlyClient t rs l b u (ground arith))
]

OnlyClient-update :
    (u client : String) (p : Lock → Truth) (now ttl : ℕ) (reason : String) (rs : List Lock)
    → OnlyClient u client rs
    → OnlyClient u client (update p (extend now ttl reason) rs)
unfolding update
OnlyClient-update u client p now ttl reason [] h = tt
OnlyClient-update u client p now ttl reason (r ∷ rs) (h, hs) = elim (Bool-cases (is_true (p r))) [
  | inl y ↦ rw y (h, OnlyClient-update u client p now ttl reason rs hs)
  | inr n ↦ rw n (h, OnlyClient-update u client p now ttl reason rs hs)
]

module _ (t : Target) (client : String) (ttl : ℕ) (reason : String) (now : ℕ) (uuid : String) where
  acquire_found-OnlyClient :
      (before kept : List Lock) (o : Option Lock) {l : Lock} {extended : Bool}
      → ByUri t
      → UniqueUri kept
      → first (select (lock_where t) kept) ≡ o
      → (acquire_found t client ttl reason now uuid before kept o).0 ≡ granted l extended
      → OnlyClient t.source_uri client (acquire_found t client ttl reason now uuid before kept o).1
  unfolding acquire_found
  acquire_found-OnlyClient before kept none b u found g =
      (λ _. refl, Absent-OnlyClient _ client kept (first-none-Absent t kept found))
  acquire_found-OnlyClient before kept (some m) b u found g =
      elim (Bool-cases (m.client_id == client)) [
        | inl same ↦ rw same (
            OnlyClient-update _ client _ now ttl reason kept (
              subst (λ c. OnlyClient t.source_uri c kept) (==_sound _ _ same)
                (first-OnlyClient t kept m b u found)))
        | inr other ↦ ground arith
      ]

  -- From a table with one row for each path, a client that is granted a lock by path alone holds it
  -- alone: every row that is left at the path is the client's.
  pub acquire_lock-excludes :
      (k : Link) (rs : List Lock) {l : Lock} {extended : Bool}
      → ByUri t
      → UniqueUri rs
      → (acquire_lock k t client ttl reason now uuid rs).0 ≡ granted l extended
      → OnlyClient t.source_uri client (acquire_lock k t client ttl reason now uuid rs).1
  unfolding acquire_lock
  acquire_lock-excludes down rs b u g = cc
  acquire_lock-excludes up rs b u g =
      acquire_found-OnlyClient rs _ _ b (UniqueUri-delete _ rs u) refl g

abbrev pub by_path : String → Target
by_path u = record { source_uri = u; root_id = none; relative_path = none }

abbrev pub by_both : String → String → String → Target
by_both u root path = record { source_uri = u; root_id = some root; relative_path = some path }

-- With both keys, neither of them empty, a grant is not exclusive: let a client hold a running lock
-- under the same root and relative path that stands first in the table, and a second client hold a
-- running lock of the path `u`, with another id. The first client is granted `u`, and the second lock
-- stays in the table unchanged.
pub acquire_lock-shares :
    (u root path client uuid reason : String) (ttl now : ℕ) (mine theirs : Lock)
    → truthy (some root) ≡ true
    → truthy (some path) ≡ true
    → mine.client_id ≡ client
    → mine.root_id ≡ some root
    → mine.relative_path ≡ some path
    → theirs.source_uri ≡ u
    → theirs.client_id ≢ client
    → mine.id ≢ theirs.id
    → now ≤ mine.expires_at
    → now ≤ theirs.expires_at
    → acquire_lock up (by_both u root path) client ttl reason now uuid (mine ∷ theirs ∷ [])
      ≡ (granted (extend now ttl reason mine) true, extend now ttl reason mine ∷ theirs ∷ [])
unfolding acquire_lock acquire_found delete select update lock_where
acquire_lock-shares u root path client uuid reason ttl now mine theirs hr hp hc er ep hu ho hi hm
      ht =
    ground arith
