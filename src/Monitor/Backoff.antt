-- ===== src/Monitor/Backoff.antt =====
-- The backoff: its bounds, which every operation keeps, and the delays after failures in a row.
use native.Mathlib.Nat.{pow-suc}
use libagent.Base.{
  ℕ, suc, ◌+◌, ◌^◌, ◌≤◌, min, ◌≡◌, refl, sym, ◌∙◌, ◌⊎◌, inl, inr, Bool, true, false, Option, none,
  some, List, [], ◌∷◌, ◌++◌, arith, Bool-cases, length,
}
use libagent.Config.{backoff_initial_secs, backoff_max_secs}
use libagent.Process.{ProcessSpec}
use libagent.Metrics.{Metrics}
use libagent.Monitor.{
  Slot, World, Child, Poll, exited, still_running, poll_error, double_backoff,
  record_process_failure, from_secs, may_spawn, polled, attempt_of, should_attempt_spawn,
  commit_spawn_result, is_backing_off, is_taken, tick_process,
}
use libagent.Monitor.Equivalence.{commit_at, split_tick, tick_process-split}

-- The backoff is from 1 to 30 seconds, and a slot with a child waits for nothing.
pub record IsValid (s : Slot) : Type 0 where
  pub at_least_initial : backoff_initial_secs ≤ s.backoff_secs
  pub at_most_max : s.backoff_secs ≤ backoff_max_secs
  pub calm : (c : Child) → s.child ≡ some c → s.next_attempt ≡ none

double_backoff_bounds : (b : ℕ) → 1 ≤ b → b ≤ 30 → (1 ≤ double_backoff b) × (double_backoff b ≤ 30)
unfolding double_backoff
double_backoff_bounds b h k = omega arith

module _ {F : Type 0} (w : World) (spec : ProcessSpec) where
  -- What a check may do to a slot: nothing, or drop its child.
  abbrev Checked : Slot → Slot × Metrics F × Bool → Type 0
  Checked slot r =
      (r.0.backoff_secs ≡ slot.backoff_secs)
      × (r.0.next_attempt ≡ slot.next_attempt)
      × ((r.0.child ≡ slot.child) ⊎ (r.0.child ≡ none))

  may_spawn_slot : (slot : Slot) (m : Metrics F) → (may_spawn w spec slot m).0 ≡ slot
  unfolding may_spawn
  may_spawn_slot slot m = elim (Bool-cases (is_backing_off w.now slot.next_attempt)) [
    | inl e ↦ rw e
    | inr e ↦ rw e (elim (Bool-cases (is_taken w spec)) [ inl e₂ ↦ rw e₂ | inr e₂ ↦ rw e₂ ])
  ]

  dropped :
      (slot : Slot) (m : Metrics F)
      → Checked slot (may_spawn w spec (record slot { child = none }) m)
  dropped slot m = rw (may_spawn_slot (record slot { child = none }) m) (refl, refl, inr refl)

  polled-Checked : (slot : Slot) (m : Metrics F) (p : Poll) → Checked slot (polled w spec slot m p)
  unfolding polled
  polled-Checked slot m exited = dropped slot _
  polled-Checked slot m still_running = (refl, refl, inl refl)
  polled-Checked slot m poll_error = dropped slot _

  attempt_of-Checked :
      (c : Option Child) (slot : Slot) (m : Metrics F) → Checked slot (attempt_of w spec c slot m)
  unfolding attempt_of
  attempt_of-Checked none slot m = rw (may_spawn_slot slot m) (refl, refl, inl refl)
  attempt_of-Checked (some c) slot m = polled-Checked slot m (w.try_wait c)

  Checked-IsValid :
      (slot : Slot) (r : Slot × Metrics F × Bool) → Checked slot r → IsValid slot → IsValid r.0
  Checked-IsValid slot r (e₁, e₂, e₃) v = record {
    at_least_initial = rw e₁ v.at_least_initial;
    at_most_max = rw e₁ v.at_most_max;
    calm = λ c h. elim e₃ [ inl same ↦ e₂ ∙ v.calm c (sym same ∙ h) | inr gone ↦ cc ];
  }

  pub should_attempt_spawn-IsValid :
      (slot : Slot) (m : Metrics F) → IsValid slot → IsValid (should_attempt_spawn w spec slot m).0
  unfolding should_attempt_spawn
  should_attempt_spawn-IsValid slot m v =
      Checked-IsValid slot (attempt_of w spec slot.child slot m)
        (attempt_of-Checked slot.child slot m) v

  -- A spawn is attempted only where no child is left.
  Childless : Slot × Metrics F × Bool → Type 0
  Childless r = r.2 ≡ true → r.0.child ≡ none

  polled-Childless : (slot : Slot) (m : Metrics F) (p : Poll) → Childless (polled w spec slot m p)
  unfolding polled Childless
  polled-Childless slot m exited = λ _. rw (may_spawn_slot (record slot { child = none }) _)
  polled-Childless slot m still_running = λ h. cc
  polled-Childless slot m poll_error = λ _. rw (may_spawn_slot (record slot { child = none }) _)

  attempt_of-Childless :
      (c : Option Child) (slot : Slot) (m : Metrics F)
      → slot.child ≡ c
      → Childless (attempt_of w spec c slot m)
  unfolding attempt_of
  attempt_of-Childless none slot m e = unfold Childless in λ _. rw (may_spawn_slot slot m) e
  attempt_of-Childless (some c) slot m e = polled-Childless slot m (w.try_wait c)

  pub should_attempt_spawn-Childless :
      (slot : Slot) (m : Metrics F)
      → (should_attempt_spawn w spec slot m).2 ≡ true
      → (should_attempt_spawn w spec slot m).0.child ≡ none
  unfolding should_attempt_spawn Childless
  should_attempt_spawn-Childless slot m = attempt_of-Childless slot.child slot m refl

-- A failed spawn is committed only to a slot without a child.
pub commit_spawn_result-IsValid :
    {F : Type 0} (now : ℕ) (spec : ProcessSpec) (slot : Slot) (m : Metrics F)
    (result : Option Child)
    → IsValid slot
    → (result ≡ none → slot.child ≡ none)
    → IsValid (commit_spawn_result now spec slot m result).0
unfolding commit_spawn_result
commit_spawn_result-IsValid now spec slot m (some c) v h = record {
  at_least_initial = omega arith;
  at_most_max = omega arith;
  calm = λ _ _. refl;
}
commit_spawn_result-IsValid now spec slot m none v h =
    let (lo, hi) = double_backoff_bounds slot.backoff_secs v.at_least_initial v.at_most_max in
    record { at_least_initial = lo; at_most_max = hi; calm = λ c e. cc (h refl, e) }

module _ {F : Type 0} {R : Type 0} (w : World) (spec : ProcessSpec)
    (spawn_fn : ProcessSpec → R → Option Child × R) where
  commit_at-IsValid :
      (slot : Slot) (m : Metrics F) (b : Bool) (r : R)
      → IsValid slot
      → (b ≡ true → slot.child ≡ none)
      → IsValid (commit_at w spec spawn_fn w.now (slot, m, b) r).slot
  commit_at-IsValid slot m false r v h = v
  commit_at-IsValid slot m true r v h =
      commit_spawn_result-IsValid w.now spec slot m (spawn_fn spec r).0 v (λ _. h refl)

  -- Every tick keeps the backoff in its bounds, and clears the deadline when a child is there.
  pub tick_process-IsValid :
      (slot : Slot) (m : Metrics F) (r : R)
      → IsValid slot
      → IsValid (tick_process w spec spawn_fn slot m r).slot
  unfolding split_tick
  tick_process-IsValid slot m r v = rw (tick_process-split w spec spawn_fn slot m r) (
      commit_at-IsValid (should_attempt_spawn w spec slot m).0
        (should_attempt_spawn w spec slot m).1 (should_attempt_spawn w spec slot m).2 r
        (should_attempt_spawn-IsValid w spec slot m v)
        (should_attempt_spawn-Childless w spec slot m))

-- Spawns that fail one after the other, at the given times.
unfoldable pub fail_at : {F : Type 0} → ProcessSpec → List ℕ → Slot → Metrics F → Slot × Metrics F
fail_at spec [] slot m = (slot, m)
fail_at spec (now ∷ times) slot m =
    let (slot', m', _) = commit_spawn_result now spec slot m none in fail_at spec times slot' m'

double_backoff_pow : (n : ℕ) → double_backoff (min (2 ^ n) 30) ≡ min (2 ^ suc n) 30
unfolding double_backoff
double_backoff_pow n = rw pow-suc (omega arith)

-- After `k` failures in a row behind `n` others the backoff is two to the power `n + k`, and 30
-- seconds at most. The last failure set the deadline: its own time and the backoff before it.
pub fail_at_backoff :
    {F : Type 0} (spec : ProcessSpec) (times : List ℕ) (last : ℕ) (n : ℕ) (slot : Slot)
    (m : Metrics F)
    → slot.backoff_secs ≡ min (2 ^ n) 30
    → let after = (fail_at spec (times ++ last ∷ []) slot m).0 in
      (after.backoff_secs ≡ min (2 ^ (n + suc (length times))) 30)
      × (after.next_attempt ≡ some (last + from_secs (min (2 ^ (n + length times)) 30)))
      × (after.child ≡ slot.child)
unfolding fail_at commit_spawn_result
fail_at_backoff spec [] last n slot m h =
    let e₀ : n + 0 ≡ n = omega arith in
    let e₁ : n + 1 ≡ suc n = omega arith in (rw (h, e₁) (double_backoff_pow n), rw (h, e₀), refl)
fail_at_backoff spec (now ∷ times) last n slot m h =
    let e₀ : suc n + length times ≡ n + suc (length times) = omega arith in
    let e₁ : suc n + suc (length times) ≡ n + suc (suc (length times)) = omega arith in
    let (p, q, r) =
      fail_at_backoff spec times last (suc n) (commit_spawn_result now spec slot m none).0
        (record_process_failure spec m) (rw h (double_backoff_pow n)) in
    (rw (← e₁) p, rw (← e₀) q, r)
