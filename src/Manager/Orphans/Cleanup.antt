-- ===== src/Manager/Orphans/Cleanup.antt =====
-- Whom the forked process watches, and whom it kills.
use libagent.Base.{
  ℕ, zero, suc, ◌≤◌, ◌<◌, ◌≡◌, refl, sym, ap, ◌∙◌, inl, inr, Bool, true, false, Option, none, some,
  [], ◌∷◌, arith, if◌then◌else◌, Bool-cases,
}
use libagent.Text.{Bytes, bytes_eq}
use libagent.Text.Equality.{eq_of_bytes_eq, bytes_eq_refl}
use libagent.Text.Number.{u32_max, to_string}
use libagent.Text.Number.Printed.{from_str_radix-to_string}
use libagent.Manager.{AgentManager}
use libagent.Manager.Orphans.{
  Vars, unsetenv, setenv, getenv, agent_key, trace_key, parent_key, set_pid, set_pids, parse_pid,
  read_pid, in_child, Watch, watch_of, fork_orphan_cleanup_monitor, probe, Killer, kill_orphan,
  on_probe, run_orphan_monitor,
}

getenv_if :
    (key k : Bytes) (v : Bytes) (vars : Vars) (b : Bool)
    → bytes_eq k key ≡ b
    → getenv key ((k, v) ∷ vars) ≡ (if b then some v else getenv key vars)
unfolding getenv
getenv_if key k v vars b e = rw e refl

unsetenv_if :
    (key k : Bytes) (v : Bytes) (vars : Vars) (b : Bool)
    → bytes_eq k key ≡ b
    → unsetenv key ((k, v) ∷ vars) ≡ (if b then unsetenv key vars else (k, v) ∷ unsetenv key vars)
unfolding unsetenv
unsetenv_if key k v vars b e = rw e refl

pub getenv-unsetenv_same : (key : Bytes) (vars : Vars) → getenv key (unsetenv key vars) ≡ none
unfolding getenv unsetenv
getenv-unsetenv_same key [] = refl
getenv-unsetenv_same key ((k, v) ∷ vars) = elim (Bool-cases (bytes_eq k key)) [
  | inl e ↦ ap (getenv key) (unsetenv_if key k v vars true e) ∙ getenv-unsetenv_same key vars
  | inr e ↦
      ap (getenv key) (unsetenv_if key k v vars false e)
      ∙ (getenv_if key k v (unsetenv key vars) false e ∙ getenv-unsetenv_same key vars)
]

-- Another key is left alone.
pub getenv-unsetenv_other :
    (key other : Bytes) (vars : Vars)
    → bytes_eq other key ≡ false
    → getenv key (unsetenv other vars) ≡ getenv key vars
unfolding getenv unsetenv
getenv-unsetenv_other key other [] h = refl
getenv-unsetenv_other key other ((k, v) ∷ vars) h = elim (Bool-cases (bytes_eq k other)) [
  | inl e ↦
      let same = eq_of_bytes_eq k other e in
      ap (getenv key) (unsetenv_if other k v vars true e)
      ∙ (getenv-unsetenv_other key other vars h
          ∙ sym (getenv_if key k v vars false (ap (λ q. bytes_eq q key) same ∙ h)))
  | inr e ↦
      ap (getenv key) (unsetenv_if other k v vars false e)
      ∙ ap (λ (found : Option Bytes). if bytes_eq k key then some v else found)
          (getenv-unsetenv_other key other vars h)
]

getenv-setenv_same :
    (key value : Bytes) (vars : Vars) → getenv key (setenv key value vars) ≡ some value
unfolding setenv
getenv-setenv_same key value vars =
    getenv_if key key value (unsetenv key vars) true (bytes_eq_refl key)

pub getenv-setenv_other :
    (key other value : Bytes) (vars : Vars)
    → bytes_eq other key ≡ false
    → getenv key (setenv other value vars) ≡ getenv key vars
unfolding setenv
getenv-setenv_other key other value vars h =
    getenv_if key other value (unsetenv other vars) false h ∙ getenv-unsetenv_other key other vars h

-- A pid is a `u32`.
abbrev pub FitsPid : Option ℕ → Type 0
FitsPid none = Unit
FitsPid (some pid) = pid ≤ u32_max

read_pid-set_pid_same :
    (key : Bytes) (pid : Option ℕ) (vars : Vars)
    → getenv key vars ≡ none
    → FitsPid pid
    → read_pid key (set_pid key pid vars) ≡ pid
unfolding read_pid set_pid
read_pid-set_pid_same key none vars h fits = ap parse_pid h
read_pid-set_pid_same key (some pid) vars h fits =
    ap parse_pid (getenv-setenv_same key (to_string pid) vars)
    ∙ from_str_radix-to_string u32_max pid fits

pub getenv-set_pid_other :
    (key other : Bytes) (pid : Option ℕ) (vars : Vars)
    → bytes_eq other key ≡ false
    → getenv key (set_pid other pid vars) ≡ getenv key vars
unfolding set_pid
getenv-set_pid_other key other none vars h = refl
getenv-set_pid_other key other (some pid) vars h =
    getenv-setenv_other key other (to_string pid) vars h

pub agent_key-trace_key : bytes_eq agent_key trace_key ≡ false
unfolding bytes_eq
agent_key-trace_key = refl

pub trace_key-agent_key : bytes_eq trace_key agent_key ≡ false
unfolding bytes_eq
trace_key-agent_key = refl

pub parent_key-agent_key : bytes_eq parent_key agent_key ≡ false
unfolding bytes_eq
parent_key-agent_key = refl

pub parent_key-trace_key : bytes_eq parent_key trace_key ≡ false
unfolding bytes_eq
parent_key-trace_key = refl

watch_of-set_pids :
    (parent : ℕ) (agent trace : Option ℕ) (vars : Vars)
    → parent ≤ u32_max
    → FitsPid agent
    → FitsPid trace
    → getenv agent_key vars ≡ none
    → getenv trace_key vars ≡ none
    → watch_of (set_pids parent agent trace vars)
      ≡ record { parent = parent; agent = agent; trace = trace }
unfolding watch_of set_pids
watch_of-set_pids parent agent trace vars fp fa ft ea et =
    let vars₁ = set_pid agent_key agent vars in
    let vars₂ = set_pid trace_key trace vars₁ in
    let vars₃ = setenv parent_key (to_string parent) vars₂ in
    let p : read_pid parent_key vars₃ ≡ some parent =
      unfold read_pid in
      (ap parse_pid (getenv-setenv_same parent_key (to_string parent) vars₂)
        ∙ from_str_radix-to_string u32_max parent fp) in
    let t : read_pid trace_key vars₃ ≡ trace =
      unfold read_pid in
      (ap parse_pid
          (getenv-setenv_other trace_key parent_key (to_string parent) vars₂ parent_key-trace_key)
        ∙ unfold read_pid in
          read_pid-set_pid_same trace_key trace vars₁
            (getenv-set_pid_other trace_key agent_key agent vars agent_key-trace_key ∙ et) ft) in
    let a : read_pid agent_key vars₃ ≡ agent =
      unfold read_pid in
      (ap parse_pid (
          getenv-setenv_other agent_key parent_key (to_string parent) vars₂ parent_key-agent_key
          ∙ getenv-set_pid_other agent_key trace_key trace vars₁ trace_key-agent_key)
        ∙ unfold read_pid in read_pid-set_pid_same agent_key agent vars ea fa) in
    cc (p, t, a)

module _ {S : Type 0} (os : Killer S) where
  -- The parent answers the first `n` probes, and then is gone; the state is that after the last probe.
  pub data DiesAfter (parent : ℕ) (s' : S) : ℕ → S → Type 0 where
    gone : {s : S} → os.signal parent probe s ≡ (false, s') → DiesAfter parent s' 0 s
    alive :
        {n : ℕ} {s s₁ : S}
        → os.signal parent probe s ≡ (true, s₁)
        → DiesAfter parent s' n (os.sleep 5 s₁)
        → DiesAfter parent s' (suc n) s

  run_orphan_monitor_lem :
      (fuel n : ℕ) (watch : Watch) (s s' : S)
      → DiesAfter watch.parent s' n s
      → n < fuel
      → run_orphan_monitor os fuel watch s
        ≡ some (kill_orphan os watch.trace (kill_orphan os watch.agent s'))
  unfolding run_orphan_monitor
  run_orphan_monitor_lem zero n watch s s' d h = absurd (omega arith)
  run_orphan_monitor_lem (suc fuel) n watch s s' (gone e) h =
      ap (on_probe os watch (λ t. run_orphan_monitor os fuel watch t)) e
  run_orphan_monitor_lem (suc fuel) n watch s s' (alive {n = k} {s₁ = s₁} e d) h =
      ap (on_probe os watch (λ t. run_orphan_monitor os fuel watch t)) e
      ∙ run_orphan_monitor_lem fuel k watch (os.sleep 5 s₁) s' d (omega arith)

  -- The forked process outlives its parent by one round, and then kills the children that the manager
  -- had at the fork, first the agent and then the trace agent, and nothing else. The environment must
  -- not hold the two variables before, and the pids fit in 32 bits.
  pub orphans_killed :
      (parent : ℕ) (mgr : AgentManager) (vars : Vars)
      → parent ≤ u32_max
      → FitsPid mgr.agent.child
      → FitsPid mgr.trace.child
      → getenv agent_key vars ≡ none
      → getenv trace_key vars ≡ none
      → (n fuel : ℕ) (s s' : S) → DiesAfter parent s' n s
      → n < fuel
      → (watch : Watch) × ((fork_orphan_cleanup_monitor parent mgr vars in_child).1 ≡ some watch)
        × (run_orphan_monitor os fuel watch s
            ≡ some (kill_orphan os mgr.trace.child (kill_orphan os mgr.agent.child s')))
  unfolding fork_orphan_cleanup_monitor
  orphans_killed parent mgr vars fp fa ft ea et n fuel s s' d h =
      let watch : Watch = record {
        parent = parent;
        agent = mgr.agent.child;
        trace = mgr.trace.child;
      } in
      (
        watch,
        ap some (watch_of-set_pids parent mgr.agent.child mgr.trace.child vars fp fa ft ea et),
        run_orphan_monitor_lem fuel n watch s s' d h,
      )
