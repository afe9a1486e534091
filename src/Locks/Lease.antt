-- ===== src/Locks/Lease.antt =====
-- How long a lock lasts, when it can be taken, and who can give it back.
use pgvector_ragindexer.Base.{
  ℕ, String, ◌≡◌, ◌≢◌, refl, true, false, Bool, Option, none, some, List, [], ◌∷◌, arith, All,
  first, ◌==◌, ==_sound, string_eq, if◌then◌else◌, Bool-cases, ap, inl, inr, ltb, ◌≤◌, ◌+◌, ◌*◌,
  subst, sym,
}
use pgvector_ragindexer.Sql.{
  Truth, ◌and◌, Link, up, down, is_true, select, delete, update, count, of_bool,
}
use pgvector_ragindexer.Locks.{
  Lock, Target, granted, expired, unexpired, new_lock, lock_where, acquire_found, acquire_lock,
  extend, check_lock, release_lock, cleanup_expired_locks,
}
use pgvector_ragindexer.Sql.Laws.{select-delete_apart, delete-none}
use pgvector_ragindexer.Locks.Invariant.{
  Absent, Absent-update, UniqueUri, UniqueUri-delete, first-none-Absent,
}
use pgvector_ragindexer.Locks.Exclusion.{ByUri}

module _ (t : Target) where
  abbrev live_where : ℕ → Lock → Truth
  live_where later r = lock_where t r and unexpired later r

  select-Absent :
      (later : ℕ) (rs : List Lock)
      → ByUri t
      → Absent t.source_uri rs
      → select (live_where later) rs ≡ []
  unfolding select lock_where
  select-Absent later [] b h = refl
  select-Absent later (r ∷ rs) b (h, hs) = ground (arith, select-Absent later rs b hs)

  live_where-apart :
      (p : Lock → Truth) (now later : ℕ)
      → now ≤ later
      → (r : Lock) → is_true (p r and expired now r) ≡ true
      → is_true (live_where later r) ≡ false
  live_where-apart p now later h r e = ground arith

  -- Sweeping the expired locks at any earlier time changes no answer of `check_lock`.
  pub check_lock-cleanup :
      (k : Link) (now later : ℕ) (rs : List Lock)
      → now ≤ later
      → check_lock up t later (cleanup_expired_locks k now rs).1 ≡ check_lock up t later rs
  unfolding check_lock cleanup_expired_locks
  check_lock-cleanup down now later rs h = refl
  check_lock-cleanup up now later rs h = ap first (
      select-delete_apart (live_where later) (expired now)
        (λ r e. live_where-apart (λ _. of_bool true) now later h r e) rs)

  abbrev mine_where : String → Lock → Truth
  mine_where client r = lock_where t r and of_bool (r.client_id == client)

  count-mine :
      (client : String) (rs : List Lock)
      → All (λ r. is_true (lock_where t r) ≡ true → r.client_id ≢ client) rs
      → count (mine_where client) rs ≡ 0
  unfolding count
  count-mine client [] h = refl
  count-mine client (r ∷ rs) (h, hs) = elim (Bool-cases (is_true (lock_where t r))) [
    | inl y ↦ let ne = h y in ground (arith, count-mine client rs hs)
    | inr n ↦ ground (arith, count-mine client rs hs)
  ]

  -- A client that holds no lock of the target cannot release one: it is told so, and the table
  -- stays as it was.
  pub release_lock-other :
      (k : Link) (client : String) (rs : List Lock)
      → All (λ r. is_true (lock_where t r) ≡ true → r.client_id ≢ client) rs
      → release_lock k t client rs ≡ (false, rs)
  unfolding release_lock
  release_lock-other down client rs h = refl
  release_lock-other up client rs h =
      rw (count-mine client rs h, delete-none _ rs (count-mine client rs h))

  abbrev running_for : ℕ → ℕ → Lock → Option Lock
  running_for expires later l = if ltb later expires then some l else none

  check_updated :
      (p : Lock → Truth) (now ttl later : ℕ) (reason : String) (rs : List Lock) (l : Lock)
      → ByUri t
      → UniqueUri rs
      → first (select (lock_where t) rs) ≡ some l
      → is_true (p l) ≡ true
      → first (select (live_where later) (update p (extend now ttl reason) rs))
        ≡ running_for (now + ttl * 60) later (extend now ttl reason l)
  unfolding select update lock_where
  check_updated p now ttl later reason [] l b u f e = cc
  check_updated p now ttl later reason (r ∷ rs) l b (fresh, u) f e =
      elim (Bool-cases (r.source_uri == t.source_uri)) [
        | inl same ↦
            let absent = subst (λ w. Absent w rs) (==_sound _ _ same) fresh in
            let l_is_r : r ≡ l = ground arith in
            rw (subst (λ w. is_true (p w) ≡ true) (sym l_is_r) e, ← l_is_r)
              (ground (
                arith,
                select-Absent later _ b (Absent-update p now ttl reason t.source_uri rs absent),
              ))
        | inr other ↦ ground (arith, check_updated p now ttl later reason rs l b u (ground arith) e)
      ]

module _ (t : Target) (client : String) (ttl : ℕ) (reason : String) (now : ℕ) (uuid : String) where
  check-acquire_found :
      (before kept : List Lock) (o : Option Lock) (later : ℕ) {l : Lock} {extended : Bool}
      → ByUri t
      → UniqueUri kept
      → first (select (lock_where t) kept) ≡ o
      → (acquire_found t client ttl reason now uuid before kept o).0 ≡ granted l extended
      → check_lock up t later (acquire_found t client ttl reason now uuid before kept o).1
        ≡ running_for t (now + ttl * 60) later l
  unfolding acquire_found check_lock
  check-acquire_found before kept none later b u found g =
      unfold select lock_where in
      ground (arith, select-Absent t later kept b (first-none-Absent t kept found))
  check-acquire_found before kept (some m) later {l} b u found g =
      elim (Bool-cases (m.client_id == client)) [
        | inl same ↦
            let renewed : extend now ttl reason m ≡ l = ground arith in
            rw (same, ← renewed)
              (check_updated t (λ r. of_bool (r.id == m.id)) now ttl later reason kept m b u found
                (ground arith))
        | inr other ↦ ground arith
      ]

  -- A lock that is granted by path alone, from a table with one row for each path, is what
  -- `check_lock` answers for the next `ttl` minutes, and `check_lock` answers nothing after them.
  pub acquire_lock-lease :
      (k : Link) (rs : List Lock) (later : ℕ) {l : Lock} {extended : Bool}
      → ByUri t
      → UniqueUri rs
      → (acquire_lock k t client ttl reason now uuid rs).0 ≡ granted l extended
      → check_lock up t later (acquire_lock k t client ttl reason now uuid rs).1
        ≡ running_for t (now + ttl * 60) later l
  unfolding acquire_lock
  acquire_lock-lease down rs later b u g = cc
  acquire_lock-lease up rs later b u g =
      check-acquire_found rs _ _ later b (UniqueUri-delete _ rs u) refl g

  abbrev pub Blocks : Lock → Type 0
  Blocks r = (is_true (lock_where t r) ≡ true) × (r.client_id ≢ client) × (now ≤ r.expires_at)

  first_kept :
      (rs : List Lock) (l : Lock)
      → All (λ r. ¬ (Blocks r)) rs
      → first (select (lock_where t) (delete (λ r. lock_where t r and expired now r) rs)) ≡ some l
      → l.client_id ≡ client
  unfolding select delete
  first_kept [] l h f = cc
  first_kept (r ∷ rs) l (h, hs) f = elim (Bool-cases (is_true (lock_where t r))) [
    | inl y ↦ elim (Bool-cases (is_true (expired now r))) [
      | inl old ↦ first_kept rs l hs (ground arith)
      | inr live ↦ elim (Bool-cases (l.client_id == client)) [
        | inl same ↦ ==_sound _ _ same
        | inr other ↦
            let r_is_l : r ≡ l = ground arith in
            absurd (h (y, rw r_is_l (ground arith), ground arith))
      ]
    ]
    | inr n ↦ first_kept rs l hs (ground arith)
  ]

  acquire_found-grants :
      (before kept : List Lock) (o : Option Lock)
      → ((l : Lock) → o ≡ some l → l.client_id ≡ client)
      → (l : Lock) × (extended : Bool) × ((acquire_found t client ttl reason now uuid before kept
            o).0
          ≡ granted l extended)
  unfolding acquire_found
  acquire_found-grants before kept none own = (new_lock uuid t client now ttl reason, false, refl)
  acquire_found-grants before kept (some l) own =
      let same = own l refl in (extend now ttl reason l, true, ground arith)

  -- With the database up, a lock is granted whenever no other client's lock of the target is still
  -- running: neither the client's own lock nor an expired one stands in the way.
  pub acquire_lock-grants :
      (rs : List Lock)
      → All (λ r. ¬ (Blocks r)) rs
      → (l : Lock) × (extended : Bool) × ((acquire_lock up t client ttl reason now uuid rs).0
          ≡ granted l extended)
  unfolding acquire_lock
  acquire_lock-grants rs h = acquire_found-grants rs _ _ (λ l f. first_kept rs l h f)
