-- ===== src/Scheduler/Lease.antt =====
-- server_scheduler.py: the advisory lock that the schedulers of several replicas share. Each
-- statement runs on a connection of the replica's own pool, and the lock belongs to the session of
-- that connection.
pub mod Exclusion
mod Examples
use pgvector_ragindexer.Base.{
  ℕ, ◌≡◌, ◌≢◌, refl, sym, ap, ◌∙◌, subst, inl, inr, ◌⊎◌, Bool, true, false, Option, none, some,
  ◌==◌, nat_eq, arith, Bool-cases, Option-cases, if◌then◌else◌, ==_refl, ==_sound,
}

-- pg_try_advisory_lock and pg_advisory_unlock of one key, as PostgreSQL documents them: a session
-- gets the lock if nobody else has it, may get it several times, and gives it back when it unlocks
-- or ends.
pub record AdvisoryLock : Type 1 where
  pub State : Type 0
  pub holder : State → Option ℕ
  pub try_lock : ℕ → State → Bool × State
  pub unlock : ℕ → State → State
  -- the connection is closed
  pub close : ℕ → State → State
  pub try_lock_free : (s : ℕ) (t : State) → holder t ≡ none → (try_lock s t).0 ≡ true
  pub try_lock_other : (s r : ℕ) (t : State) → holder t ≡ some r → r ≢ s → try_lock s t ≡ (false, t)
  pub try_lock_holds :
      (s : ℕ) (t : State) → (try_lock s t).0 ≡ true → holder (try_lock s t).1 ≡ some s
  pub try_lock_fails :
      (s : ℕ) (t : State) → (try_lock s t).0 ≡ false → holder (try_lock s t).1 ≡ holder t
  pub unlock_other : (s : ℕ) (t : State) → holder t ≢ some s → holder (unlock s t) ≡ holder t
  pub close_holder : (s : ℕ) (t : State) → holder t ≡ some s → holder (close s t) ≡ none
  pub close_other : (s : ℕ) (t : State) → holder t ≢ some s → holder (close s t) ≡ holder t

module _ (a : AdvisoryLock) where
  open a use {State, holder, try_lock, unlock, close}

  -- The lock, and `_lease_held` of each replica.
  pub record Cluster : Type 0 where
    pub lock : State
    pub lease_held : ℕ → Bool

  abbrev pub with_lease : ℕ → Bool → (ℕ → Bool) → ℕ → Bool
  with_lease i b f j = if j == i then b else f j

  -- `_try_acquire_lease` on a connection with the session `s`, if the lease is not held.
  unfoldable pub try_acquire_lease : ℕ → ℕ → Cluster → Cluster
  try_acquire_lease i s c =
      if c.lease_held i
      then c
      else let (got, t) = try_lock s c.lock in
        record { lock = t; lease_held = with_lease i got c.lease_held }

  -- `_release_lease`: what `pg_advisory_unlock` answers is not read.
  unfoldable pub release_lease : ℕ → ℕ → Cluster → Cluster
  release_lease i s c =
      if c.lease_held i
      then record { lock = unlock s c.lock; lease_held = with_lease i false c.lease_held }
      else c
