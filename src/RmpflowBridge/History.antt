-- ===== src/RmpflowBridge/History.antt =====
-- src/rmpflow_bridge.cpp against its history alone: what the flags and the goals so far mean, with
-- none of the node's variables.
use rmp_proximity_sensor.Common.{
  ℕ, ◌+◌, ◌≡◌, inl, inr, Bool, true, false, ◌&&◌, Option, none, some, List, [], ◌∷◌, ◌++◌, arith,
  ltb, if◌then◌else◌, Bool-cases, Option-cases,
}
use rmp_proximity_sensor.RmpflowBridge.{
  Config, Clock, Bridge, Event, Output, flag, goal, command, goal_pose, target_q, is_active_flag,
  init, on_controller_command, step, after, published,
}

abbrev is_some {ℓ} : {A : Type ℓ} → Option A → Bool
is_some none = false
is_some (some a) = true

-- Is a command to pass: the goal was handed over, and the delay since then is over.
abbrev pub is_released : ℕ → Option ℕ → ℕ → Bool
is_released delay none now = false
is_released delay (some t) now = if ltb now (t + delay) then false else true

module _ {Pose Command : Type 0} where
  abbrev pub last_goal : List (Clock × Event Pose Command) → Option Pose
  last_goal [] = none
  last_goal ((now, flag v) ∷ older) = last_goal older
  last_goal ((now, goal p) ∷ older) = some p
  last_goal ((now, command c) ∷ older) = last_goal older

  -- The newest goal that was published, if any; commands are passed over.
  abbrev pub newest_goal_pose : List (Output Pose Command) → Option Pose
  newest_goal_pose [] = none
  newest_goal_pose (goal_pose t f p ∷ out) = some p
  newest_goal_pose (target_q c ∷ out) = newest_goal_pose out

module _ {Pose Command : Type 0} (cfg : Config) where
  -- The last flag is the active one.
  abbrev pub flag_up : List (Clock × Event Pose Command) → Bool
  flag_up [] = false
  flag_up ((now, flag v) ∷ older) = is_active_flag v cfg.active_flag_value
  flag_up ((now, goal p) ∷ older) = flag_up older
  flag_up ((now, command c) ∷ older) = flag_up older

  -- When the goal that the controller follows was handed over: at the flag that rose after a goal,
  -- or at the newest goal while the flag is up. `none` while commands are held back.
  abbrev pub handed_over : List (Clock × Event Pose Command) → Option ℕ
  handed_over [] = none
  handed_over ((now, flag v) ∷ older) =
      let before = handed_over older in
      if is_active_flag v cfg.active_flag_value
      then (if flag_up older
          then before
          else (if is_some (last_goal older) then some now.steady else none))
      else none
  handed_over ((now, goal p) ∷ older) =
      let before = handed_over older in if flag_up older then some now.steady else before
  handed_over ((now, command c) ∷ older) = handed_over older

  -- The node's variables hold what the history says.
  record Agrees (h : List (Clock × Event Pose Command)) (b : Bridge Pose) : Type 0 where
    active_is : b.active ≡ flag_up h
    received_is : b.goal_received ≡ is_some (last_goal h)
    goal_is : (p : Pose) → last_goal h ≡ some p → b.latest_goal ≡ p
    enabled_is : b.command_forwarding_enabled ≡ is_some (handed_over h)
    needs_flag : is_some (handed_over h) ≡ true → flag_up h ≡ true
    after_is :
        (t : ℕ)
        → handed_over h ≡ some t
        → b.command_forwarding_allowed_after ≡ t + cfg.command_forward_delay

  step-Agrees :
      (e : Clock × Event Pose Command) (older : List (Clock × Event Pose Command)) (b : Bridge Pose)
      → Agrees older b
      → Agrees (e ∷ older) (step cfg b e).0
  unfolding step
  step-Agrees (now, flag v) older b a = record {
    active_is = ground arith;
    received_is = ground arith;
    goal_is = λ p e. ground (arith, a.goal_is p);
    enabled_is = ground arith;
    needs_flag = ground arith;
    after_is = λ t e. ground (arith, a.after_is t);
  }
  step-Agrees (now, goal p) older b a = record {
    active_is = ground arith;
    received_is = ground arith;
    goal_is = λ p e. ground arith;
    enabled_is = ground arith;
    needs_flag = ground arith;
    after_is = λ t e. ground (arith, a.after_is t);
  }
  step-Agrees (now, command c) older b a = record {
    active_is = a.active_is;
    received_is = a.received_is;
    goal_is = a.goal_is;
    enabled_is = a.enabled_is;
    needs_flag = a.needs_flag;
    after_is = a.after_is;
  }

  after-Agrees :
      (nowhere : Pose) (h : List (Clock × Event Pose Command)) → Agrees h (after cfg nowhere h)
  unfolding after init
  after-Agrees nowhere [] = ground arith
  after-Agrees nowhere (e ∷ older) =
      step-Agrees e older (after cfg nowhere older) (after-Agrees nowhere older)

  -- A joint command passes to the robot exactly when forwarding is configured, the history has
  -- handed a goal over under the current flag, and the settling delay since that is over. It then
  -- passes unchanged.
  pub on_controller_command-after :
      (nowhere : Pose) (h : List (Clock × Event Pose Command)) (now : Clock) (c : Command)
      → on_controller_command cfg now c (after cfg nowhere h) ≡ (
          if cfg.forward_target_q
            && is_released cfg.command_forward_delay (handed_over h) now.steady
          then target_q c ∷ []
          else [])
  unfolding on_controller_command
  on_controller_command-after nowhere h now c =
      let a = after-Agrees nowhere h in
      elim (Option-cases (handed_over h)) [
        | inl e ↦ ground arith
        | inr (t, e) ↦ ground (arith, a.after_is t)
      ]

  newest-step :
      (e : Clock × Event Pose Command) (older : List (Clock × Event Pose Command)) (b : Bridge Pose)
      (out : List (Output Pose Command))
      → Agrees older b
      → (flag_up older ≡ true
          → (p : Pose) → last_goal older ≡ some p
          → newest_goal_pose out ≡ some p)
      → flag_up (e ∷ older) ≡ true
      → (p : Pose) → last_goal (e ∷ older) ≡ some p
      → newest_goal_pose ((step cfg b e).1 ++ out) ≡ some p
  unfolding step
  newest-step (now, flag v) older b out a ih up p e = elim (Bool-cases (flag_up older)) [
    | inl was ↦ ground (arith, ih was p e)
    | inr was ↦ ground (arith, a.goal_is p)
  ]
  newest-step (now, goal q) older b out a ih up p e = ground arith
  newest-step (now, command c) older b out a ih up p e = ground (arith, ih up p e)

  -- While the flag is up, the last goal that was published to the controller is the last goal that
  -- was received: no goal is lost by a change of the flag, and none is replaced by an older one.
  pub newest-published :
      (nowhere : Pose) (h : List (Clock × Event Pose Command)) (p : Pose)
      → flag_up h ≡ true
      → last_goal h ≡ some p
      → newest_goal_pose (published cfg nowhere h) ≡ some p
  unfolding published
  newest-published nowhere [] p up e = cc
  newest-published nowhere (x ∷ older) p up e =
      newest-step x older (after cfg nowhere older) (published cfg nowhere older)
        (after-Agrees nowhere older) (λ was q f. newest-published nowhere older q was f) up p e
