-- ===== src/Scheduler/Lease/Exclusion.antt =====
-- Who has the lease, and how it is lost or kept by mistake.
use pgvector_ragindexer.Base.{
  ℕ, ◌≡◌, ◌≢◌, refl, sym, ap, ◌∙◌, subst, inl, inr, Bool, true, false, some, ◌==◌, nat_eq, arith,
  Bool-cases, if◌then◌else◌, ==_sound, ==_ne,
}
use pgvector_ragindexer.Scheduler.Lease.{
  AdvisoryLock, Cluster, with_lease, try_acquire_lease, release_lease,
}

module _ (a : AdvisoryLock) (owner : ℕ → ℕ) where
  open a use {State, holder, try_lock, unlock, close}

  -- A replica uses the connections of its own pool. No connection is closed.
  pub data Step : Cluster a → Cluster a → Type 0 where
    acquires : (i s : ℕ) {c : Cluster a} → owner s ≡ i → Step c (try_acquire_lease a i s c)
    releases : (i s : ℕ) {c : Cluster a} → owner s ≡ i → Step c (release_lease a i s c)

  pub data Reach (start : Cluster a) : Cluster a → Type 0 where
    here : Reach start start
    next : {c d : Cluster a} → Reach start c → Step c d → Reach start d

  -- Whoever has the lease has the lock, in one of its own sessions.
  abbrev pub IsBacked : Cluster a → Type 0
  IsBacked c = (i : ℕ) → c.lease_held i ≡ true → (s : ℕ) × (holder c.lock ≡ some s) × (owner s ≡ i)

  -- The lease of another replica is not in question.
  others :
      (i j : ℕ) (b : Bool) (c : Cluster a)
      → (j == i) ≡ false
      → with_lease a i b c.lease_held j ≡ true
      → c.lease_held j ≡ true
  others i j b c n l = subst (λ x. (if x then b else c.lease_held j) ≡ true) n l

  own_lease :
      (i j : ℕ) (b : Bool) (c : Cluster a)
      → (j == i) ≡ true
      → with_lease a i b c.lease_held j ≡ true
      → b ≡ true
  own_lease i j b c y l = subst (λ x. (if x then b else c.lease_held j) ≡ true) y l

  -- Sessions of different replicas are different.
  other_session : (i j r s : ℕ) → (j == i) ≡ false → owner r ≡ j → owner s ≡ i → r ≢ s
  other_session i j r s n o p e = ==_ne j i n (sym o ∙ ap owner e ∙ p)

  try-IsBacked :
      (i s : ℕ) (c : Cluster a)
      → owner s ≡ i
      → IsBacked c
      → (b : Bool) → (try_lock s c.lock).0 ≡ b
      → IsBacked (record {
        lock = (try_lock s c.lock).1;
        lease_held = with_lease a i (try_lock s c.lock).0 c.lease_held;
      })
  try-IsBacked i s c own h true e j l = elim (Bool-cases (j == i)) [
    | inl y ↦ (s, a.try_lock_holds s c.lock e, own ∙ sym (==_sound j i y))
    | inr n ↦
        let (r, held, o) = h j (others i j _ c n l) in
        absurd
          (cc (ap (λ w. w.0) (a.try_lock_other s r c.lock held (other_session i j r s n o own))))
  ]
  try-IsBacked i s c own h false e j l = elim (Bool-cases (j == i)) [
    | inl y ↦ absurd (cc (own_lease i j _ c y l))
    | inr n ↦
        let (r, held, o) = h j (others i j _ c n l) in (r, a.try_lock_fails s c.lock e ∙ held, o)
  ]

  unlock-IsBacked :
      (i s : ℕ) (c : Cluster a)
      → owner s ≡ i
      → IsBacked c
      → IsBacked (record { lock = unlock s c.lock; lease_held = with_lease a i false c.lease_held })
  unlock-IsBacked i s c own h j l = elim (Bool-cases (j == i)) [
    | inl y ↦ absurd (cc (own_lease i j false c y l))
    | inr n ↦
        let (r, held, o) = h j (others i j false c n l) in
        (
          r,
          a.unlock_other s c.lock (λ e. other_session i j r s n o own (ground (arith, held, e)))
              ∙ held,
          o,
        )
  ]

  Step-IsBacked : {c d : Cluster a} → Step c d → IsBacked c → IsBacked d
  unfolding try_acquire_lease release_lease
  Step-IsBacked (acquires i s {c} own) h = elim (Bool-cases (c.lease_held i)) [
    | inl y ↦ rw y h
    | inr n ↦ rw n (try-IsBacked i s c own h _ refl)
  ]
  Step-IsBacked (releases i s {c} own) h = elim (Bool-cases (c.lease_held i)) [
    | inl y ↦ rw y (unlock-IsBacked i s c own h)
    | inr n ↦ rw n h
  ]

  Reach-IsBacked : {c d : Cluster a} → IsBacked c → Reach c d → IsBacked d
  Reach-IsBacked h here = h
  Reach-IsBacked h (next r s) = Step-IsBacked s (Reach-IsBacked h r)

  -- As long as no connection is closed, two replicas never have the lease together, whatever
  -- connections of their own pools they take it and release it on. They start without it.
  pub Reach-excludes :
      {c d : Cluster a}
      → ((i : ℕ) → c.lease_held i ≡ false)
      → Reach c d
      → (i j : ℕ) → d.lease_held i ≡ true
      → d.lease_held j ≡ true
      → i ≡ j
  Reach-excludes {c} {d} start r i j hi hj =
      let backed = Reach-IsBacked (λ k l. absurd (cc (start k))) r in
      let (s, held, o) = backed i hi in
      let (s', held', o') = backed j hj in sym o ∙ ap owner (ground (arith, held, held')) ∙ o'

module _ (a : AdvisoryLock) where
  open a use {State, holder, try_lock, unlock, close}

  -- If the connection is closed that the lock was taken on, the replica still believes that it has
  -- the lease, and another replica gets it as well.
  pub try_acquire_lease-both :
      (i j s r : ℕ) (c : Cluster a)
      → c.lease_held i ≡ true
      → c.lease_held j ≡ false
      → holder c.lock ≡ some s
      → let d = try_acquire_lease a j r (record c { lock = close s c.lock }) in
        (d.lease_held i ≡ true) × (d.lease_held j ≡ true)
  unfolding try_acquire_lease
  try_acquire_lease-both i j s r c hi hj held =
      let got = a.try_lock_free r (close s c.lock) (a.close_holder s c.lock held) in
      rw (hj, got) (ground arith)

  -- A replica that releases the lease on another connection of its pool gives up the lease and not
  -- the lock: no other replica can acquire the lease then.
  pub release_lease-keeps_lock :
      (i j s r q : ℕ) (c : Cluster a)
      → c.lease_held i ≡ true
      → c.lease_held j ≡ false
      → i ≢ j
      → holder c.lock ≡ some s
      → s ≢ r
      → s ≢ q
      → let d = try_acquire_lease a j q (release_lease a i r c) in
        (d.lease_held i ≡ false) × (d.lease_held j ≡ false)
  unfolding try_acquire_lease release_lease
  release_lease-keeps_lock i j s r q c hi hj apart held sr sq =
      let kept = a.unlock_other r c.lock (λ e. sr (ground (arith, held, e))) ∙ held in
      let refused = a.try_lock_other q s (unlock r c.lock) kept sq in
      let away : (j == i) ≡ false = ground (arith, apart) in
      rw (hi, away, hj, refused) (ground arith)
