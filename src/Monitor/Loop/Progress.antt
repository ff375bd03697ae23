-- ===== src/Monitor/Loop/Progress.antt =====
-- How far the thread is from its end, once `should_run` is cleared.
use libagent.Base.{
  ℕ, ◌≤◌, ◌<◌, ◌≡◌, refl, ap, ◌∙◌, inl, inr, Bool, true, false, Option, none, some, List, [], ◌∷◌,
  arith, ltb, if◌then◌else◌, ltb→lt, ltb-false→le, Bool-cases, length,
}
use libagent.Process.{ProcessSpec}
use libagent.Monitor.{Child, World}
use libagent.Manager.{reset_trace_agent_readiness}
use libagent.Monitor.Loop.{
  Attempted, Pc, at_loop, agent_checked, checked, agent_spawned, spawned, agent_committed,
  committed, computing, sleeping, ended, System, check_agent, check_trace, spawn_agent, spawn_trace,
  due_agent, commit_agent, commit_trace, advance_at, advance,
}

module _ {F : Type 0} (interval : ℕ) (spawn : ProcessSpec → Option Child) where
  -- The thread alone, over the worlds that its steps meet.
  unfoldable pub advance_all : List World → System F → System F
  advance_all [] s = s
  advance_all (w ∷ ws) s = advance_all ws (advance interval w spawn s)

-- The steps until the end, once the flag is cleared.
left : Pc → ℕ
left ended = 0
left at_loop = 1
left (sleeping d) = 2
left computing = 3
left (committed started) = 4
left (agent_committed started r) = 5
left (spawned q r) = 6
left (agent_spawned q due) = 7
left (checked due due') = 8
left (agent_checked due) = 9

left_zero : (pc : Pc) → left pc ≡ 0 → pc ≡ ended
unfolding left
left_zero ended e = refl
left_zero at_loop e = absurd (omega arith)
left_zero (agent_checked due) e = absurd (omega arith)
left_zero (checked due due') e = absurd (omega arith)
left_zero (agent_spawned r due) e = absurd (omega arith)
left_zero (spawned r r') e = absurd (omega arith)
left_zero (agent_committed st r) e = absurd (omega arith)
left_zero (committed st) e = absurd (omega arith)
left_zero computing e = absurd (omega arith)
left_zero (sleeping d) e = absurd (omega arith)

left_le_nine : (pc : Pc) → left pc ≤ 9
unfolding left
left_le_nine ended = omega arith
left_le_nine at_loop = omega arith
left_le_nine (agent_checked due) = omega arith
left_le_nine (checked due due') = omega arith
left_le_nine (agent_spawned r due) = omega arith
left_le_nine (spawned r r') = omega arith
left_le_nine (agent_committed st r) = omega arith
left_le_nine (committed st) = omega arith
left_le_nine computing = omega arith
left_le_nine (sleeping d) = omega arith

module _ {F : Type 0} (interval : ℕ) (w : World) (spawn : ProcessSpec → Option Child) where
  -- Nearer to the end, and the flag still cleared.
  abbrev Falls : ℕ → System F → Type 0
  Falls n s = (left s.pc < n) × (s.manager.should_run ≡ false)

  commit_agent-Falls :
      (spec : Option ProcessSpec) (result trace_result : Attempted) (s : System F)
      → s.manager.should_run ≡ false
      → Falls 6 (commit_agent interval w spawn spec result trace_result s)
  unfolding left
  commit_agent-Falls none result trace_result s h = (omega arith, h)
  commit_agent-Falls (some spec) none trace_result s h = (omega arith, h)
  commit_agent-Falls (some spec) (some r) trace_result s h = (omega arith, h)

  commit_trace-Falls :
      (started : Bool) (trace_result : Attempted) (s : System F)
      → s.manager.should_run ≡ false
      → Falls 5 (commit_trace interval w spawn started trace_result s)
  unfolding left
  commit_trace-Falls started none s h = (omega arith, h)
  commit_trace-Falls started (some r) s h = (omega arith, h)

  either-Falls :
      (n : ℕ) (b : Bool) (s t : System F) → b ≡ false → Falls n t → Falls n (if b then s else t)
  either-Falls n true s t e h = absurd (cc)
  either-Falls n false s t e h = h

  due_agent-Falls :
      (spec : Option ProcessSpec) (trace_due : Bool) (s : System F)
      → s.manager.should_run ≡ false
      → Falls 8 (due_agent interval w spawn spec trace_due s)
  unfolding left
  due_agent-Falls none trace_due s h = (omega arith, h)
  due_agent-Falls (some spec) trace_due s h =
      either-Falls 8 s.manager.should_run (spawn_agent interval w spawn spec trace_due s) _ h
        (omega arith, h)

  advance_at-Falls :
      (pc : Pc) (s : System F)
      → s.pc ≡ pc
      → s.manager.should_run ≡ false
      → 0 < left pc
      → Falls (left pc) (advance_at interval w spawn pc s)
  unfolding left check_trace reset_trace_agent_readiness
  advance_at-Falls at_loop s e h p =
      either-Falls 1 s.manager.should_run (check_agent interval w spawn s.manager.agent_spec s) _ h
        (omega arith, h)
  advance_at-Falls (agent_checked due) s e h p = (omega arith, h)
  advance_at-Falls (checked true trace_due) s e h p =
      due_agent-Falls s.manager.agent_spec trace_due s h
  advance_at-Falls (checked false trace_due) s e h p = (omega arith, h)
  advance_at-Falls (agent_spawned result true) s e h p =
      either-Falls 7 s.manager.should_run (spawn_trace interval w spawn result s) _ h
        (omega arith, h)
  advance_at-Falls (agent_spawned result false) s e h p = (omega arith, h)
  advance_at-Falls (spawned result trace_result) s e h p =
      commit_agent-Falls s.manager.agent_spec result trace_result s h
  advance_at-Falls (agent_committed started trace_result) s e h p =
      commit_trace-Falls started trace_result s h
  advance_at-Falls (committed true) s e h p = (omega arith, h)
  advance_at-Falls (committed false) s e h p = (omega arith, h)
  advance_at-Falls computing s e h p = (omega arith, h)
  advance_at-Falls (sleeping d) s e h p = (omega arith, h)
  advance_at-Falls ended s e h p = absurd (omega arith)

  -- A step of a stopped thread that has not ended brings it nearer to the end.
  advance-Falls :
      (s : System F)
      → s.manager.should_run ≡ false
      → 0 < left s.pc
      → Falls (left s.pc) (advance interval w spawn s)
  unfolding advance
  advance-Falls s h p = advance_at-Falls s.pc s refl h p

-- Where it has ended it stays.
advance_at_ended :
    {F : Type 0} (interval : ℕ) (w : World) (spawn : ProcessSpec → Option Child) (pc : Pc)
    (s : System F)
    → pc ≡ ended
    → advance_at interval w spawn pc s ≡ s
advance_at_ended interval w spawn pc s e = rw e refl

module _ {F : Type 0} (interval : ℕ) (spawn : ProcessSpec → Option Child) where
  advance_all-ended :
      (ws : List World) (s : System F)
      → s.manager.should_run ≡ false
      → left s.pc ≤ length ws
      → (advance_all interval spawn ws s).pc ≡ ended
  unfolding advance_all advance
  advance_all-ended [] s h p = left_zero s.pc (omega arith)
  advance_all-ended (w ∷ ws) s h p = elim (Bool-cases (ltb 0 (left s.pc))) [
    | inl e ↦
        let (fewer, still) = advance-Falls interval w spawn s h (ltb→lt 0 (left s.pc) e) in
        advance_all-ended ws (advance interval w spawn s) still (omega arith)
    | inr e ↦
        let over : left s.pc ≡ 0 = omega (arith, ltb-false→le 0 (left s.pc) e) in
        let same = advance_at_ended interval w spawn s.pc s (left_zero s.pc over) in
        ap (λ (t : System F). (advance_all interval spawn ws t).pc) same
        ∙ advance_all-ended ws s h (omega arith)
  ]

  pub advance_all_stopped :
      (ws : List World) (s : System F)
      → s.manager.should_run ≡ false
      → 9 ≤ length ws
      → (advance_all interval spawn ws s).pc ≡ ended
  advance_all_stopped ws s h p =
      advance_all-ended ws s h (let few = left_le_nine s.pc in omega arith)
