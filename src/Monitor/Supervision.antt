-- ===== src/Monitor/Supervision.antt =====
-- When a check calls for a spawn, and the account of spawns and failures that the metrics keep.
use libagent.Base.{◌≡◌, refl, ◌≢◌, ◌↔◌, inl, inr, true, false, Option, none, some, Bool-cases}
use libagent.Process.{ProcessSpec}
use libagent.Metrics.{Metrics}
use libagent.Monitor.{
  Slot, World, Child, Poll, exited, still_running, poll_error, record_process_failure, may_spawn,
  polled, attempt_of, should_attempt_spawn, is_backing_off, is_taken,
}

-- No child is left: there was none, or it has exited or cannot be polled.
abbrev pub NotRunning : World → Slot → Type 0
NotRunning w slot = (c : Child) → slot.child ≡ some c → w.try_wait c ≢ still_running

-- No child is left running, the backoff is over, and no other process does the work already.
abbrev pub MaySpawn : World → ProcessSpec → Slot → Type 0
MaySpawn w spec slot =
    NotRunning w slot × (is_backing_off w.now slot.next_attempt ≡ false) × (is_taken w spec ≡ false)

module _ {F : Type 0} (w : World) (spec : ProcessSpec) where
  may_spawn_iff :
      (slot : Slot) (m : Metrics F)
      → ((may_spawn w spec slot m).2 ≡ true)
        ↔ ((is_backing_off w.now slot.next_attempt ≡ false) × (is_taken w spec ≡ false))
  unfolding may_spawn
  may_spawn_iff slot m = elim (Bool-cases (is_backing_off w.now slot.next_attempt)) [
    | inl e ↦ rw e (λ h. cc, λ h. cc)
    | inr e ↦ rw e (elim (Bool-cases (is_taken w spec)) [
      | inl e₂ ↦ rw e₂ (λ h. cc, λ h. cc)
      | inr e₂ ↦ rw e₂ (λ h. (refl, refl), λ h. refl)
    ])
  ]

  polled_iff :
      (slot : Slot) (m : Metrics F) (c : Child) (p : Poll)
      → slot.child ≡ some c
      → w.try_wait c ≡ p
      → ((polled w spec slot m p).2 ≡ true) ↔ MaySpawn w spec slot
  unfolding polled
  polled_iff slot m c exited e₁ e₂ =
      let iff = may_spawn_iff (record slot { child = none }) (record_process_failure spec m) in
      (λ h. (λ d e. cc, (iff.0 h).0, (iff.0 h).1), λ h. iff.1 (h.1, h.2))
  polled_iff slot m c still_running e₁ e₂ = (λ h. cc, λ h. absurd (h.0 c e₁ e₂))
  polled_iff slot m c poll_error e₁ e₂ =
      let iff = may_spawn_iff (record slot { child = none }) (record_process_failure spec m) in
      (λ h. (λ d e. cc, (iff.0 h).0, (iff.0 h).1), λ h. iff.1 (h.1, h.2))

  attempt_of_iff :
      (c : Option Child) (slot : Slot) (m : Metrics F)
      → slot.child ≡ c
      → ((attempt_of w spec c slot m).2 ≡ true) ↔ MaySpawn w spec slot
  unfolding attempt_of
  attempt_of_iff none slot m e =
      let iff = may_spawn_iff slot m in
      (λ h. (λ d e'. cc, (iff.0 h).0, (iff.0 h).1), λ h. iff.1 (h.1, h.2))
  attempt_of_iff (some c) slot m e = polled_iff slot m c (w.try_wait c) e refl

  -- A check calls for a spawn exactly if no child is left running, the backoff is over, and no other
  -- process does the work already.
  pub should_attempt_spawn_iff :
      (slot : Slot) (m : Metrics F)
      → ((should_attempt_spawn w spec slot m).2 ≡ true) ↔ MaySpawn w spec slot
  unfolding should_attempt_spawn
  should_attempt_spawn_iff slot m = attempt_of_iff slot.child slot m refl
