-- ===== src/Monitor/Permission.antt =====
-- When a check calls for a spawn, in terms of what the system answers.
use libagent.Base.{
  ℕ, ◌≤◌, ◌≡◌, refl, sym, ◌∙◌, ◌⊎◌, ◌↔◌, inl, inr, Bool, true, false, not, ◌&&◌, Option, none, some,
  List, [], ◌∷◌, arith, ltb-false→le, le→ltb-false, Bool-cases, All,
}
use libagent.Text.{Bytes, is_empty}
use libagent.Config.{get_trace_agent_uds_path, is_agent_enabled, get_agent_remote_config_addr}
use libagent.Process.{ProcessSpec, is_agent, is_trace_agent}
use libagent.Metrics.{Metrics}
use libagent.Monitor.{
  Slot, World, should_attempt_spawn, is_backing_off, is_taken, any_connects, resolved_connects,
  addr_connects, is_remote_config_available, is_socket_in_use,
}
use libagent.Monitor.Supervision.{NotRunning, should_attempt_spawn_iff}

-- The deadline of the backoff, if there is one, has come.
abbrev pub IsDue : World → Slot → Type 0
IsDue w slot = (t : ℕ) → slot.next_attempt ≡ some t → t ≤ w.now

-- Nobody listens where the process would: no connection to the socket of a trace agent, if it has a
-- path, and none to any address of the remote configuration of an agent, if it is enabled.
abbrev pub IsFree : World → ProcessSpec → Type 0
IsFree w spec =
    (is_trace_agent spec ≡ true
      → (is_empty (get_trace_agent_uds_path w.env) ≡ true)
        ⊎ (w.uds_connects (get_trace_agent_uds_path w.env) ≡ false))
    × (is_trace_agent spec ≡ false
        → is_agent spec ≡ true
        → is_agent_enabled w.env ≡ true
        → (addr : Bytes) (addrs : List Bytes) → get_agent_remote_config_addr w.env ≡ some addr
        → w.resolve addr ≡ some addrs
        → All (λ a. w.tcp_connects a ≡ false) addrs)

clash : (b : Bool) → b ≡ true → b ≡ false → ⊥
clash true h e = cc
clash false h e = cc

is_backing_off_iff :
    (w : World) (slot : Slot) → (is_backing_off w.now slot.next_attempt ≡ false) ↔ IsDue w slot
unfolding is_backing_off
is_backing_off_iff w slot = go slot.next_attempt refl
  where
    go : (n : Option ℕ) → slot.next_attempt ≡ n → (is_backing_off w.now n ≡ false) ↔ IsDue w slot
    go none e = (λ h t f. let clash : none ≡ some t = sym e ∙ f in absurd (cc), λ h. refl)
    go (some d) e = (
      λ h t f.
          let same : some d ≡ some t = sym e ∙ f in
          let time : d ≡ t = cc in let late : d ≤ w.now = ltb-false→le w.now d h in omega arith,
      λ h. le→ltb-false w.now d (h d e),
    )

any_connects-All :
    (f : Bytes → Bool) (addrs : List Bytes)
    → any_connects f addrs ≡ false
    → All (λ a. f a ≡ false) addrs
unfolding any_connects
any_connects-All f [] e = tt
any_connects-All f (a ∷ addrs) e = elim (Bool-cases (f a)) [
  | inl h ↦ absurd (clash true refl (rw h at e))
  | inr h ↦ (h, any_connects-All f addrs (rw h at e))
]

All-any_connects :
    (f : Bytes → Bool) (addrs : List Bytes)
    → All (λ a. f a ≡ false) addrs
    → any_connects f addrs ≡ false
unfolding any_connects
All-any_connects f [] a = refl
All-any_connects f (x ∷ addrs) (h, a) = rw h (All-any_connects f addrs a)

some_cases :
    {A : Type 0} (o : Option A) (f : Option A → Bool)
    → f none ≡ false
    → ((a : A) → o ≡ some a → f (some a) ≡ false)
    → f o ≡ false
some_cases none f e h = e
some_cases (some a) f e h = h a refl

module _ (w : World) where
  -- No address of the remote configuration answers.
  abbrev RemoteFree : Type 0
  RemoteFree =
      is_agent_enabled w.env ≡ true
      → (addr : Bytes) (addrs : List Bytes) → get_agent_remote_config_addr w.env ≡ some addr
      → w.resolve addr ≡ some addrs
      → All (λ a. w.tcp_connects a ≡ false) addrs

  remote_free : is_remote_config_available w ≡ false → RemoteFree
  unfolding is_remote_config_available
  remote_free h on addr addrs e₁ e₂ = any_connects-All w.tcp_connects addrs (rw (on, e₁, e₂) at h)

  free_remote : RemoteFree → is_remote_config_available w ≡ false
  unfolding is_remote_config_available
  free_remote r = elim (Bool-cases (is_agent_enabled w.env)) [
    | inr off ↦ rw off refl
    | inl on ↦ rw on (
        some_cases (get_agent_remote_config_addr w.env) (addr_connects w) refl (λ addr e₁.
          some_cases (w.resolve addr) (resolved_connects w) refl
            (λ addrs e₂. All-any_connects w.tcp_connects addrs (r on addr addrs e₁ e₂))))
  ]

  socket_free : (b u : Bool) → ((not b && u) ≡ false) ↔ ((b ≡ true) ⊎ (u ≡ false))
  socket_free true u = (λ h. inl refl, λ h. refl)
  socket_free false u = (λ h. inr h, λ h. elim h [ inl e ↦ absurd (cc) | inr e ↦ e ])

  is_taken_iff : (spec : ProcessSpec) → (is_taken w spec ≡ false) ↔ IsFree w spec
  unfolding is_taken is_socket_in_use
  is_taken_iff spec = elim (Bool-cases (is_trace_agent spec)) [
    | inl t ↦
        let iff =
          socket_free (is_empty (get_trace_agent_uds_path w.env))
            (w.uds_connects (get_trace_agent_uds_path w.env)) in
        (
          λ h. ((λ _. iff.0 (rw t at h)), λ f. absurd (clash (is_trace_agent spec) t f)),
          λ h. rw t (iff.1 (h.0 t)),
        )
    | inr t ↦ elim (Bool-cases (is_agent spec)) [
      | inl a ↦ (
        λ h. ((λ f. absurd (clash (is_trace_agent spec) f t)), λ _ _. remote_free (rw (t, a) at h)),
        λ h. rw (t, a) (free_remote (h.1 t a)),
      )
      | inr a ↦ (
        λ h. (
          (λ f. absurd (clash (is_trace_agent spec) f t)),
          λ _ f. absurd (clash (is_agent spec) f a),
        ),
        λ h. rw (t, a) refl,
      )
    ]
  ]

  -- A check calls for a spawn exactly if no child is left running, the deadline of the backoff, if there
  -- is one, has come, and nobody listens where the process would: for a trace agent, its socket has no
  -- path or refuses a connection; for an agent whose remote configuration is enabled, no address that
  -- its host and port resolve to takes a connection.
  pub should_attempt_spawn-Permits :
      {F : Type 0} (spec : ProcessSpec) (slot : Slot) (m : Metrics F)
      → ((should_attempt_spawn w spec slot m).2 ≡ true)
        ↔ (NotRunning w slot × IsDue w slot × IsFree w spec)
  should_attempt_spawn-Permits spec slot m =
      let iff = should_attempt_spawn_iff w spec slot m in
      let due = is_backing_off_iff w slot in
      let free = is_taken_iff spec in
      (
        λ h. let (a, b, c) = iff.0 h in (a, due.0 b, free.0 c),
        λ h. let (a, b, c) = h in iff.1 (a, due.1 b, free.1 c),
      )
