-- ===== src/Shutdown/Escalation.antt =====
-- The signals of the shutdown, as the system gets them, escalate in the documented order.
use libagent.Base.{
  ℕ, zero, suc, ◌≡◌, refl, sym, subst, ap, ◌∙◌, ◌≢◌, inl, inr, Bool, true, false, Option, none,
  some, List, [], ◌∷◌, ◌++◌, append-nil, append_assoc, leb, Bool-cases,
}
use libagent.Monitor.{Poll, exited, still_running, poll_error}
use libagent.Shutdown.{
  Signal, group_term, group_kill, pid_term, pid_kill, child_kill, Os, poll_interval, Progress,
  timeout, ◌>>=?◌, past_deadline, on_poll, wait_until, wait_with_timeout, wait_if_sent,
  signal_process, tried, stage, kill_child,
}
use libagent.Shutdown.Waits.{IsClock, IsDone, signal_process-IsDone}

-- `sent` is a log of what the system was asked to send: a call of `send` adds an entry for its signal,
-- and no other call adds one.
pub record IsLog {S T : Type 0} (os : Os S) (entry : Signal → T) (sent : S → List T) : Type 0 where
  pub sends : (sig : Signal) (s : S) → sent (os.send sig s).1 ≡ sent s ++ entry sig ∷ []
  pub try_wait_silent : (s : S) → sent (os.try_wait s).1 ≡ sent s
  pub now_silent : (s : S) → sent (os.now s).1 ≡ sent s
  pub sleep_silent : (d : ℕ) (s : S) → sent (os.sleep d s) ≡ sent s

-- The entries for some signals.
unfoldable pub entries : {T : Type 0} → (Signal → T) → List Signal → List T
entries entry [] = []
entries entry (sig ∷ signals) = entry sig ∷ entries entry signals

entries-append :
    {T : Type 0} (entry : Signal → T) (signals : List Signal) (sig : Signal)
    → entries entry (signals ++ sig ∷ []) ≡ entries entry signals ++ entry sig ∷ []
unfolding entries
entries-append entry [] sig = refl
entries-append entry (x ∷ signals) sig = ap (λ l. entry x ∷ l) (entries-append entry signals sig)

module _ {S T : Type 0} (os : Os S) (entry : Signal → T) (sent : S → List T)
    (log : IsLog os entry sent) where
  -- The system that is left has sent these.
  abbrev Left : List T → Option (Bool × S) → Type 0
  Left signals none = Unit
  Left signals (some (b, s)) = sent s ≡ signals

  past_deadline-Left :
      (deadline : ℕ) (go : S → Option (Bool × S)) (signals : List T) (p : ℕ × S)
      → sent p.1 ≡ signals
      → ((s : S) → sent s ≡ signals → Left signals (go s))
      → Left signals (past_deadline os deadline go p)
  unfolding past_deadline
  past_deadline-Left deadline go signals (t, s) e h = elim (Bool-cases (leb deadline t)) [
    | inl d ↦ rw d e
    | inr d ↦ rw d (h (os.sleep poll_interval s) (log.sleep_silent poll_interval s ∙ e))
  ]

  on_poll-Left :
      (deadline : ℕ) (go : S → Option (Bool × S)) (signals : List T) (p : Poll × S)
      → sent p.1 ≡ signals
      → ((s : S) → sent s ≡ signals → Left signals (go s))
      → Left signals (on_poll os deadline go p)
  unfolding on_poll
  on_poll-Left deadline go signals (exited, s) e h = e
  on_poll-Left deadline go signals (poll_error, s) e h = e
  on_poll-Left deadline go signals (still_running, s) e h =
      past_deadline-Left deadline go signals (os.now s) (log.now_silent s ∙ e) h

  wait_until-Left :
      (fuel deadline : ℕ) (signals : List T) (s : S)
      → sent s ≡ signals
      → Left signals (wait_until os fuel deadline s)
  unfolding wait_until
  wait_until-Left zero deadline signals s e = tt
  wait_until-Left (suc fuel) deadline signals s e =
      on_poll-Left deadline _ signals (os.try_wait s) (log.try_wait_silent s ∙ e)
        (λ s' e'. wait_until-Left fuel deadline signals s' e')

  wait_with_timeout-Left :
      (limit : ℕ) (signals : List T) (s : S)
      → sent s ≡ signals
      → Left signals (wait_with_timeout os limit s)
  unfolding wait_with_timeout
  wait_with_timeout-Left limit signals s e =
      wait_until-Left _ _ signals (os.now s).1 (log.now_silent s ∙ e)

  wait_if_sent-Left :
      (signals : List T) (p : Bool × S) → sent p.1 ≡ signals → Left signals (wait_if_sent os p)
  wait_if_sent-Left signals (true, s) e = wait_with_timeout-Left timeout signals s e
  wait_if_sent-Left signals (false, s) e = e

  -- One attempt sends its signal, and no other.
  signal_process-Left :
      (sig : Signal) (s : S) → Left (sent s ++ entry sig ∷ []) (signal_process os sig s)
  unfolding signal_process
  signal_process-Left group_term s = wait_if_sent-Left _ _ (log.sends group_term s)
  signal_process-Left group_kill s = wait_if_sent-Left _ _ (log.sends group_kill s)
  signal_process-Left pid_term s = wait_if_sent-Left _ _ (log.sends pid_term s)
  signal_process-Left pid_kill s = wait_if_sent-Left _ _ (log.sends pid_kill s)
  signal_process-Left child_kill s = wait_with_timeout-Left timeout _ _ (log.sends child_kill s)

  -- The list that is kept is the one that the system got.
  abbrev Logged : List T → Option (Progress S) → Type 0
  Logged before none = Unit
  Logged before (some (terminated, signals, s)) = sent s ≡ before ++ entries entry signals

  tried-Logged :
      (before : List T) (signals : List Signal) (sig : Signal) (r : Option (Bool × S))
      → Left ((before ++ entries entry signals) ++ entry sig ∷ []) r
      → Logged before (tried os signals sig r)
  tried-Logged before signals sig none h = tt
  tried-Logged before signals sig (some (terminated, s)) h =
      h
      ∙ append_assoc before (entries entry signals) (entry sig ∷ [])
      ∙ ap (λ l. before ++ l) (sym (entries-append entry signals sig))

  stage-Logged :
      (before : List T) (sig : Signal) (r : Option (Progress S))
      → Logged before r
      → Logged before (r >>=? stage os sig)
  unfolding stage
  stage-Logged before sig none h = tt
  stage-Logged before sig (some (true, signals, s)) h = h
  stage-Logged before sig (some (false, signals, s)) h =
      tried-Logged before signals sig (signal_process os sig s) (
        subst (λ l. Left (l ++ entry sig ∷ []) (signal_process os sig s)) h
          (signal_process-Left sig s))

  first-Logged : (s : S) → Logged (sent s) (tried os [] group_term (signal_process os group_term s))
  unfolding entries
  first-Logged s = tried-Logged (sent s) [] group_term (signal_process os group_term s) (
      subst (λ l. Left (l ++ entry group_term ∷ []) (signal_process os group_term s))
        (sym (append-nil (sent s))) (signal_process-Left group_term s))

  kill_child-Logged : (s : S) → Logged (sent s) (kill_child os s)
  unfolding kill_child stage
  kill_child-Logged s = stage-Logged _ child_kill _ (
      stage-Logged _ pid_kill _
        (stage-Logged _ pid_term _ (stage-Logged _ group_kill _ (first-Logged s))))

-- The documented order.
abbrev pub all_signals : List Signal
all_signals = group_term ∷ group_kill ∷ pid_term ∷ pid_kill ∷ child_kill ∷ []

module _ {S : Type 0} (os : Os S) (time : S → ℕ) (clock : IsClock os time) where
  -- Where the escalation stands: ended, behind some of the signals, or not ended, behind all of them.
  abbrev Stood : List Signal → Option (Progress S) → Type 0
  Stood sent none = ⊥
  Stood sent (some (true, signals, s)) =
      (left : List Signal) × (signals ++ left ≡ sent) × (signals ≢ [])
  Stood sent (some (false, signals, s)) = signals ≡ sent

  tried-Stood :
      (sent : List Signal) (sig : Signal) (r : Option (Bool × S))
      → IsDone r
      → Stood (sent ++ sig ∷ []) (tried os sent sig r)
  tried-Stood sent sig none d = absurd d
  tried-Stood sent sig (some (true, s)) d = ([], append-nil _, snoc-ne-nil sent sig)
    where
      snoc-ne-nil : (xs : List Signal) (x : Signal) → xs ++ x ∷ [] ≢ []
      snoc-ne-nil [] x = λ e. cc
      snoc-ne-nil (y ∷ xs) x = λ e. cc
  tried-Stood sent sig (some (false, s)) d = refl

  stage-Stood :
      (sent : List Signal) (sig : Signal) (r : Option (Progress S))
      → Stood sent r
      → Stood (sent ++ sig ∷ []) (r >>=? stage os sig)
  unfolding stage
  stage-Stood sent sig none h = h
  stage-Stood sent sig (some (true, signals, s)) (left, e, ne) =
      (left ++ sig ∷ [], sym (append_assoc signals left (sig ∷ [])) ∙ ap (λ l. l ++ sig ∷ []) e, ne)
  stage-Stood sent sig (some (false, signals, s)) e =
      rw e
        (tried-Stood sent sig (signal_process os sig s) (signal_process-IsDone os time clock sig s))

  kill_child-Stood : (s : S) → Stood all_signals (kill_child os s)
  unfolding kill_child stage
  kill_child-Stood s = stage-Stood _ child_kill _ (
      stage-Stood _ pid_kill _ (
        stage-Stood _ pid_term _ (
          stage-Stood _ group_kill _ (
            tried-Stood [] group_term (signal_process os group_term s)
              (signal_process-IsDone os time clock group_term s)))))

  pub kill_child-IsDone : (s : S) → IsDone (kill_child os s)
  kill_child-IsDone s = done (kill_child os s) (kill_child-Stood s)
    where
      done : (r : Option (Progress S)) → Stood all_signals r → IsDone r
      done none h = h
      done (some p) h = tt

-- What a stopped child leaves: the log has the signals of the kill behind what it had, these begin the
-- documented order, and all of it was gone through if the child may still be running.
abbrev pub Escalates :
    {S T : Type 0} → (Signal → T) → (S → List T) → S → Option (Progress S) → Type 0
Escalates entry sent before none = ⊥
Escalates entry sent before (some (terminated, signals, s)) =
    (sent s ≡ sent before ++ entries entry signals)
    × ((left : List Signal) × (signals ++ left ≡ all_signals))
    × (signals ≢ [])
    × (terminated ≡ false → signals ≡ all_signals)

module _ {S T : Type 0} (os : Os S) (time : S → ℕ) (clock : IsClock os time) (entry : Signal → T)
    (sent : S → List T) (log : IsLog os entry sent) where
  Stood-Escalates :
      (before : S) (r : Option (Progress S))
      → Logged os entry sent log (sent before) r
      → Stood os time clock all_signals r
      → Escalates entry sent before r
  Stood-Escalates before none l h = h
  Stood-Escalates before (some (true, signals, s)) l (left, e, ne) = (l, (left, e), ne, λ h. cc)
  Stood-Escalates before (some (false, signals, s)) l e =
      (l, ([], append-nil _ ∙ e), (λ h. cc), λ _. e)

  pub kill_child-Escalates : (s : S) → Escalates entry sent s (kill_child os s)
  kill_child-Escalates s =
      Stood-Escalates s _ (kill_child-Logged os entry sent log s) (kill_child-Stood os time clock s)
