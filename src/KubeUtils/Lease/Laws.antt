-- ===== src/KubeUtils/Lease/Laws.antt =====
-- When a lease is expired, and what that means for the holder and for the replicas that wait.
use shulker.Prelude.{
  ℕ, suc, ◌+◌, ◌^◌, ◌≤◌, ◌<◌, ◌≡◌, refl, ◌↔◌, ◌⊎◌, inl, inr, Bool, true, false, List, ◌∷◌, Option,
  none, some, ltb, nat_eq, arith, lt→ltb, ap, ◌∙◌, Bool-cases,
}
use shulker.Prelude.Int32.{I32, as_usize_pos}
use shulker.Outcome.{ok, ok-injective}
use shulker.Result.{Result}
use shulker.KubeUtils.LeaseData.{
  Lease, LeaseSpec, LeaseLock, Event, get, patch, wait, World, wait_time, new_lease, take_over,
}
use shulker.KubeUtils.Lease.{
  finished, again, is_past, is_past_either, is_expired, with_version, finish, take_lease,
  wait_for_lease, on_lease, on_reply, attempt, try_acquire,
}

-- The sign of life of a holder: the last renewal, or else the acquisition.
abbrev pub sign_of_life : LeaseSpec → Option ℕ
sign_of_life spec = elim (spec.renew_time) [ some t ↦ some t | none ↦ spec.acquire_time ]

abbrev expires : Option ℕ → I32 → ℕ → Bool
expires none duration now = true
expires (some t) duration now = ltb (t + duration) now

is_past_either_eq :
    (now : ℕ) (renew_time acquire_time : Option ℕ) (duration : I32)
    → duration < 2 ^ 31
    → is_past_either now renew_time acquire_time duration
      ≡ expires (elim renew_time [ some t ↦ some t | none ↦ acquire_time ]) duration now
unfolding is_past_either is_past
is_past_either_eq now (some t) acquire_time duration fits = rw (lt→ltb _ _ fits)
is_past_either_eq now none (some t) duration fits = rw (lt→ltb _ _ fits)
is_past_either_eq now none none duration fits = refl

is_expired_eq :
    (now : ℕ) (lease : Lease) (spec : LeaseSpec) (duration : I32)
    → lease.spec ≡ some spec
    → spec.lease_duration_seconds ≡ some duration
    → duration < 2 ^ 31
    → is_expired now lease ≡ ok (expires (sign_of_life spec) duration now)
unfolding is_expired
is_expired_eq now lease spec duration s d fits =
    rw (s, is_expired, d, is_past_either_eq now spec.renew_time spec.acquire_time duration fits)

expires_iff :
    (sign : Option ℕ) (duration : I32) (now : ℕ)
    → (ok (expires sign duration now) ≡ ok true)
      ↔ ((sign ≡ none) ⊎ ((t : ℕ) × (sign ≡ some t) × (t + duration < now)))
expires_iff none duration now = (λ h. inl refl, λ h. refl)
expires_iff (some t) duration now = (
  λ h. inr (t, refl, ground (arith, ok-injective h)),
  λ h. elim h [
    | inl never ↦ cc
    | inr (t', same, past) ↦ let e : t ≡ t' = cc same in ap ok (lt→ltb _ _ (omega (arith, e, past)))
  ],
)

-- A lease of a duration that is not negative has expired exactly when its holder never gave a sign
-- of life, or when more than the duration has passed since the last one.
pub is_expired_iff :
    (now : ℕ) (lease : Lease) (spec : LeaseSpec) (duration : I32)
    → lease.spec ≡ some spec
    → spec.lease_duration_seconds ≡ some duration
    → duration < 2 ^ 31
    → (is_expired now lease ≡ ok true) ↔ (
        (sign_of_life spec ≡ none)
        ⊎ ((t : ℕ) × (sign_of_life spec ≡ some t) × (t + duration < now)))
is_expired_iff now lease spec duration s d fits =
    rw (is_expired_eq now lease spec duration s d fits)
      (expires_iff (sign_of_life spec) duration now)

wait_time_eq :
    (spec : LeaseSpec) (duration : I32)
    → spec.lease_duration_seconds ≡ some duration
    → duration < 2 ^ 31
    → wait_time (some spec) ≡ duration
wait_time_eq spec duration d fits = rw (d, as_usize_pos duration fits)

module _ (world : World) (lock : LeaseLock) where
  attempt_waits :
      (events : List Event) (lease : Lease)
      → world.get_reply events lock.name ≡ Result.ok lease
      → is_expired (world.now (get lock.name ∷ events)) lease ≡ ok false
      → 0 < wait_time lease.spec
      → attempt world lock events ≡ (again, wait (wait_time lease.spec) ∷ get lock.name ∷ events)
  unfolding attempt on_reply on_lease wait_for_lease
  attempt_waits events lease found fresh positive =
      let e : nat_eq (wait_time lease.spec) 0 ≡ false = ground arith in
      rw (found, on_reply, fresh, on_lease, e)

  attempt_takes :
      (events : List Event) (lease written : Lease) (spec : LeaseSpec)
      → world.get_reply events lock.name ≡ Result.ok lease
      → lease.spec ≡ some spec
      → is_expired (world.now (get lock.name ∷ events)) lease ≡ ok true
      → world.patch_reply
          (get lock.name ∷ events)
          lock.name
          lock.owned_patch_params
          (take_over lock (world.now (get lock.name ∷ events)) lease spec)
        ≡ Result.ok written
      → attempt world lock events ≡ (
        finished (
            ok (
              Result.ok
                (record lock { current_resource_version = written.metadata.resource_version }))),
        patch lock.name lock.owned_patch_params
              (take_over lock (world.now (get lock.name ∷ events)) lease spec)
            ∷ get lock.name
            ∷ events,
      )
  unfolding attempt on_reply on_lease take_lease finish with_version
  attempt_takes events lease written spec found s expired accepted =
      rw (found, on_reply, expired, on_lease, s, take_lease, accepted)

  -- A replica that reads a lease within 15 seconds after another has created it, or has taken it
  -- over, does not write: it waits for 15 seconds.
  pub attempt_held :
      (other : LeaseLock) (now : ℕ) (old : Lease) (spec : LeaseSpec) (lease : Lease)
      (events : List Event)
      → (lease ≡ new_lease other now) ⊎ (lease ≡ take_over other now old spec)
      → world.get_reply events lock.name ≡ Result.ok lease
      → world.now (get lock.name ∷ events) ≤ now + 15
      → attempt world lock events ≡ (again, wait 15 ∷ get lock.name ∷ events)
  unfolding is_expired is_past_either is_past
  attempt_held other now old spec lease events held found soon =
      let early : ltb (now + 15) (world.now (get lock.name ∷ events)) ≡ false = ground arith in
      elim held [
        | inl e ↦
            attempt_waits events (new_lease other now) (cc (found, e)) (rw early) (omega arith)
        | inr e ↦
            attempt_waits events (take_over other now old spec) (cc (found, e)) (rw early)
              (omega arith)
      ]

  acquires :
      (fuel : ℕ) (events : List Event) {held : LeaseLock} {events' : List Event}
      → attempt world lock events ≡ (finished (ok (Result.ok held)), events')
      → (held : LeaseLock) × (events' : List Event) × (try_acquire world (suc fuel) lock events
          ≡ (ok (Result.ok held), events'))
  unfolding try_acquire
  acquires fuel events {held} {events'} e = (held, events', rw e)

  goes_on :
      (fuel : ℕ) (events : List Event) {events' : List Event}
      → attempt world lock events ≡ (again, events')
      → try_acquire world (suc fuel) lock events ≡ try_acquire world fuel lock events'
  unfolding try_acquire
  goes_on fuel events e = rw e

  -- A lease whose holder is gone, so that every reading finds it as it is, is acquired in at most
  -- two rounds, with one wait in between: for a lease of a positive duration, read later than the
  -- last sign of life, on a server that accepts the patches, when waiting for the duration lets the
  -- clock advance by it.
  pub try_acquire_abandoned :
      (fuel : ℕ) (events : List Event) (lease : Lease) (spec : LeaseSpec) (duration : I32) (t : ℕ)
      (written : List Event → Lease → Lease)
      → ((es : List Event) → world.get_reply es lock.name ≡ Result.ok lease)
      → lease.spec ≡ some spec
      → spec.lease_duration_seconds ≡ some duration
      → 0 < duration
      → duration < 2 ^ 31
      → sign_of_life spec ≡ some t
      → t < world.now (get lock.name ∷ events)
      → world.now (get lock.name ∷ events) + duration
        ≤ world.now (get lock.name ∷ wait duration ∷ get lock.name ∷ events)
      → ((es : List Event) (l : Lease)
          → world.patch_reply es lock.name lock.owned_patch_params l ≡ Result.ok (written es l))
      → (held : LeaseLock) × (events' : List Event) × (try_acquire world
            (suc (suc fuel))
            lock
            events
          ≡ (ok (Result.ok held), events'))
  try_acquire_abandoned fuel events lease spec duration t written found s d positive fits sign late
        passes accepted =
      let looked = get lock.name ∷ events in
      let waited = wait duration ∷ looked in
      let wt = ap wait_time s ∙ wait_time_eq spec duration d fits in
      let expiry = λ (now : ℕ).
        is_expired_eq now lease spec duration s d fits
        ∙ ap (λ o. ok (expires o duration now)) sign in
      elim (Bool-cases (ltb (t + duration) (world.now looked))) [
        | inl past ↦ acquires (suc fuel) events (
            attempt_takes events lease _ spec (found events) s (expiry _ ∙ ap ok past)
              (accepted _ _))
        | inr fresh ↦
            let past : ltb (t + duration) (world.now (get lock.name ∷ waited)) ≡ true =
              lt→ltb _ _ (omega (arith, passes, late)) in
            let waits =
              attempt_waits events lease (found events) (expiry _ ∙ ap ok fresh)
                (omega (arith, wt, positive)) in
            let (held, events', e) = acquires fuel waited (
              attempt_takes waited lease _ spec (found waited) s (expiry _ ∙ ap ok past)
                (accepted _ _)) in
            (held, events', goes_on (suc fuel) events (rw (← wt) waits) ∙ e)
      ]
