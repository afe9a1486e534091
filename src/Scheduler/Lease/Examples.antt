-- ===== src/Scheduler/Lease/Examples.antt =====
-- A lock that meets the assumptions, with two replicas: the sessions below 10 are those of replica 0.
use pgvector_ragindexer.Base.{
  ℕ, ◌/◌, ◌≡◌, ◌≢◌, refl, Bool, true, false, Option, none, some, ◌==◌, nat_eq, arith, if◌then◌else◌,
  ℕ_discrete,
}
use pgvector_ragindexer.Scheduler.Lease.{AdvisoryLock, Cluster, try_acquire_lease}
use pgvector_ragindexer.Scheduler.Lease.Exclusion.{
  here, next, acquires, Reach-excludes, try_acquire_lease-both,
}

abbrev try_session : ℕ → Option ℕ → Bool × Option ℕ
try_session s none = (true, some s)
try_session s (some r) = (r == s, some r)

abbrev leave : ℕ → Option ℕ → Option ℕ
leave s none = none
leave s (some r) = if r == s then none else some r

try_other : (s r : ℕ) (t : Option ℕ) → t ≡ some r → r ≢ s → try_session s t ≡ (false, t)
try_other s r none e n = cc
try_other s r (some q) e n = ground (arith, e, n)

try_holds : (s : ℕ) (t : Option ℕ) → (try_session s t).0 ≡ true → (try_session s t).1 ≡ some s
try_holds s none e = refl
try_holds s (some r) e = ground arith

try_fails : (s : ℕ) (t : Option ℕ) → (try_session s t).0 ≡ false → (try_session s t).1 ≡ t
try_fails s none e = cc
try_fails s (some r) e = refl

leave_other : (s : ℕ) (t : Option ℕ) → t ≢ some s → leave s t ≡ t
leave_other s none n = refl
leave_other s (some r) n = ground (arith, n)

leave_holder : (s : ℕ) (t : Option ℕ) → t ≡ some s → leave s t ≡ none
leave_holder s none e = cc
leave_holder s (some r) e = ground arith

try_free : (s : ℕ) (t : Option ℕ) → t ≡ none → (try_session s t).0 ≡ true
try_free s none e = refl
try_free s (some r) e = cc

abbrev lock : AdvisoryLock
lock = record {
  State = Option ℕ;
  holder = λ t. t;
  try_lock = try_session;
  unlock = leave;
  close = leave;
  try_lock_free = try_free;
  try_lock_other = try_other;
  try_lock_holds = try_holds;
  try_lock_fails = try_fails;
  unlock_other = leave_other;
  close_holder = leave_holder;
  close_other = leave_other;
}

abbrev owner : ℕ → ℕ
owner s = s / 10

abbrev idle : Cluster lock
idle = record { lock = none; lease_held = λ i. false }

abbrev leased : Cluster lock
leased = record { lock = some 3; lease_held = λ i. i == 0 }

-- Replica 0 takes the lease on session 3, and replica 1 asks for it on session 12.
abbrev run : Cluster lock
run = try_acquire_lease lock 1 12 (try_acquire_lease lock 0 3 idle)

has_lease : run.lease_held 0 ≡ true
unfolding try_acquire_lease ℕ_discrete
has_lease = refl

Reach-excludes_example : ◌≡◌ {A = ℕ} 0 0
Reach-excludes_example =
    Reach-excludes lock owner (λ i. refl)
      (next (next here (acquires 0 3 refl)) (acquires 1 12 refl)) 0 0 has_lease has_lease

zero_has_it : leased.lease_held 0 ≡ true
unfolding ℕ_discrete
zero_has_it = refl

one_has_not : leased.lease_held 1 ≡ false
unfolding ℕ_discrete
one_has_not = refl

try_acquire_lease-both_example :
    let d = try_acquire_lease lock 1 12 (record leased { lock = leave 3 leased.lock }) in
    (d.lease_held 0 ≡ true) × (d.lease_held 1 ≡ true)
try_acquire_lease-both_example =
    try_acquire_lease-both lock 0 1 3 12 leased zero_has_it one_has_not refl
