-- ===== src/DirectBridge/Gate.antt =====
-- src/rb10_direct_bridge_node.cpp against its history: what passes to the robot and what is
-- published, told from the states so far with none of the node's variables.
use rmp_proximity_sensor.Common.{
  ℕ, suc, ◌+◌, ◌≡◌, refl, ap, ◌∙◌, Bool, true, false, not, ◌&&◌, List, [], ◌∷◌, ◌++◌, arith, leb,
  map, length, take, if◌then◌else◌,
}
use rmp_proximity_sensor.Socket.{SystemState}
use rmp_proximity_sensor.Common.Floats.{Floats}
use rmp_proximity_sensor.DirectBridge.Velocity.{Estimator}
use rmp_proximity_sensor.DirectBridge.{
  Config, Bridge, Output, servoj, joint_state, debug_joint_states, shutdown_sequence, disconnect,
  Event, set_waiting, set_deadline, command, state, shutdown, initial,
  command_blocked_by_robot_safety, is_released, debug_outputs, publish_joint_state,
  handle_robot_state, command_callback, shutdown_bridge, step, after, outputs,
}

module _ {Double : Type 0} where
  -- The number of joint states among the outputs.
  abbrev pub joint_states : List (Output Double) → ℕ
  joint_states [] = 0
  joint_states (joint_state position velocity ∷ out) = suc (joint_states out)
  joint_states (_ ∷ out) = joint_states out

  abbrev pub disconnects : List (Output Double) → ℕ
  disconnects [] = 0
  disconnects (disconnect ∷ out) = suc (disconnects out)
  disconnects (_ ∷ out) = disconnects out

disconnects-append :
    {Double : Type 0} (xs ys : List (Output Double))
    → disconnects (xs ++ ys) ≡ disconnects xs + disconnects ys
disconnects-append [] ys = omega arith
disconnects-append (servoj joints ∷ xs) ys = disconnects-append xs ys
disconnects-append (joint_state position velocity ∷ xs) ys = disconnects-append xs ys
disconnects-append (debug_joint_states reference measured error ∷ xs) ys = disconnects-append xs ys
disconnects-append (shutdown_sequence halt_first ∷ xs) ys = disconnects-append xs ys
disconnects-append (disconnect ∷ xs) ys = omega (arith, disconnects-append xs ys)

module _ {Double Time : Type 0} where
  -- Whether the newest state that was handled calls for a stop.
  abbrev pub stop_called : List (Event Double Time) → Bool
  stop_called [] = false
  stop_called (state ok now s ∷ older) =
      let before = stop_called older in if ok then command_blocked_by_robot_safety s else before
  stop_called (_ ∷ older) = stop_called older

  abbrev pub has_shutdown : List (Event Double Time) → Bool
  has_shutdown [] = false
  has_shutdown (shutdown connected ∷ older) = true
  has_shutdown (_ ∷ older) = has_shutdown older

  -- The deadline that was set last; before that it is the start of the clock.
  abbrev pub deadline_of : Time → List (Event Double Time) → Time
  deadline_of no_time [] = no_time
  deadline_of no_time (set_deadline deadline ∷ older) = deadline
  deadline_of no_time (_ ∷ older) = deadline_of no_time older

module _ {Double Time : Type 0} (floats : Floats Double Time) (cfg : Config Double)
    (no_time : Time) where
  -- The wait was begun, and since then no state that was handled showed the robot at home or came
  -- after the deadline as it was set then.
  abbrev pub waits : List (Event Double Time) → Bool
  waits [] = false
  waits (set_waiting ∷ older) = true
  waits (state ok now s ∷ older) =
      waits older && not (ok && is_released floats cfg now s (deadline_of no_time older))
  waits (_ ∷ older) = waits older

  -- The node's variables hold what the history says.
  pub record Agrees (h : List (Event Double Time)) (b : Bridge Double Time) : Type 0 where
    pub blocked_is : b.command_blocked_due_to_safety ≡ stop_called h
    pub waiting_is : b.startup_waiting_for_home ≡ waits h
    pub deadline_is : b.startup_release_deadline ≡ deadline_of no_time h
    pub shutdown_is : b.shutdown_started ≡ has_shutdown h

  publish_keeps :
      (now : Time) (s : SystemState) (b : Bridge Double Time)
      → let b' = (publish_joint_state floats cfg now s b).0 in
        (b'.command_blocked_due_to_safety ≡ b.command_blocked_due_to_safety)
        × ((b'.startup_waiting_for_home ≡ b.startup_waiting_for_home)
            × ((b'.startup_release_deadline ≡ b.startup_release_deadline)
                × (b'.shutdown_started ≡ b.shutdown_started)))
  unfolding publish_joint_state
  publish_keeps now s b = (refl, (refl, (refl, refl)))

  publish-joint_states :
      (now : Time) (s : SystemState) (b : Bridge Double Time)
      → joint_states (publish_joint_state floats cfg now s b).1 ≡ 1
  unfolding publish_joint_state debug_outputs
  publish-joint_states now s b = ground arith

  step-Agrees :
      (e : Event Double Time) (older : List (Event Double Time)) (b : Bridge Double Time)
      → Agrees older b
      → Agrees (e ∷ older) (step floats cfg b e).0
  unfolding step handle_robot_state shutdown_bridge
  step-Agrees set_waiting older b a = record {
    blocked_is = a.blocked_is;
    waiting_is = refl;
    deadline_is = a.deadline_is;
    shutdown_is = a.shutdown_is;
  }
  step-Agrees (set_deadline deadline) older b a = record {
    blocked_is = a.blocked_is;
    waiting_is = a.waiting_is;
    deadline_is = refl;
    shutdown_is = a.shutdown_is;
  }
  step-Agrees (command connected msg_data) older b a = record {
    blocked_is = a.blocked_is;
    waiting_is = a.waiting_is;
    deadline_is = a.deadline_is;
    shutdown_is = a.shutdown_is;
  }
  step-Agrees (state ok now s) older b a =
      let same = ap (is_released floats cfg now s) a.deadline_is in
      record {
        blocked_is = ground (arith, a.blocked_is, publish_keeps now s);
        waiting_is = ground (arith, same, a.waiting_is, publish_keeps now s);
        deadline_is = ground (arith, a.deadline_is, publish_keeps now s);
        shutdown_is = ground (arith, a.shutdown_is, publish_keeps now s);
      }
  step-Agrees (shutdown connected) older b a = record {
    blocked_is = ground (arith, a.blocked_is);
    waiting_is = ground (arith, a.waiting_is);
    deadline_is = ground (arith, a.deadline_is);
    shutdown_is = ground (arith, a.shutdown_is);
  }

  pub after-Agrees :
      (estimator : Estimator Double Time) (h : List (Event Double Time))
      → Agrees h (after floats cfg (initial no_time estimator) h)
  unfolding after initial
  after-Agrees estimator [] = record {
    blocked_is = refl;
    waiting_is = refl;
    deadline_is = refl;
    shutdown_is = refl;
  }
  after-Agrees estimator (e ∷ older) = step-Agrees e older _ (after-Agrees estimator older)

  -- After any history of a node, its constructor included, a joint command goes to the robot exactly
  -- if the client is connected, the newest state that was handled calls for no stop, and the command
  -- has at least six numbers. The first six go out, in degrees.
  pub step-command :
      (estimator : Estimator Double Time) (h : List (Event Double Time)) (connected : Bool)
      (msg_data : List Double)
      → (step floats cfg
          (after floats cfg (initial no_time estimator) h)
          (command connected msg_data)).1
        ≡ (if connected && (not (stop_called h) && leb 6 (length msg_data))
            then servoj (map floats.radians_to_degrees (take 6 msg_data)) ∷ []
            else [])
  unfolding step command_callback
  step-command estimator h connected msg_data =
      ground (arith, (after-Agrees estimator h).blocked_is)

  -- After any history of a node, its constructor included, a state is published exactly if it is
  -- handled and the node does not wait for home after it: the wait was never begun, or since it was,
  -- this state or an earlier one that was handled showed the robot at home or came after the deadline
  -- as it stood, which is the start of the clock until it is set.
  pub step-joint_states :
      (estimator : Estimator Double Time) (h : List (Event Double Time)) (ok : Bool) (now : Time)
      (s : SystemState)
      → joint_states
          (step floats cfg (after floats cfg (initial no_time estimator) h) (state ok now s)).1
        ≡ (if ok && not (waits (state ok now s ∷ h)) then 1 else 0)
  unfolding step handle_robot_state
  step-joint_states estimator h ok now s =
      let a = after-Agrees estimator h in
      let same = ap (is_released floats cfg now s) a.deadline_is in
      ground (arith, same, a.waiting_is, publish-joint_states now s)

  publish-disconnects :
      (now : Time) (s : SystemState) (b : Bridge Double Time)
      → disconnects (publish_joint_state floats cfg now s b).1 ≡ 0
  unfolding publish_joint_state debug_outputs
  publish-disconnects now s b = ground arith

  step-disconnects :
      (e : Event Double Time) (older : List (Event Double Time)) (b : Bridge Double Time)
      → b.shutdown_started ≡ has_shutdown older
      → disconnects (step floats cfg b e).1 + (if has_shutdown older then 1 else 0)
        ≡ (if has_shutdown (e ∷ older) then 1 else 0)
  unfolding step command_callback handle_robot_state shutdown_bridge
  step-disconnects set_waiting older b h = ground arith
  step-disconnects (set_deadline deadline) older b h = ground arith
  step-disconnects (command connected msg_data) older b h = ground arith
  step-disconnects (state ok now s) older b h = ground (arith, publish-disconnects now s)
  step-disconnects (shutdown connected) older b h = ground arith

  -- Over any history of a node, its constructor included: however often the shutdown is asked for,
  -- the client is disconnected by it once, and not before.
  pub outputs-disconnects :
      (estimator : Estimator Double Time) (h : List (Event Double Time))
      → disconnects (outputs floats cfg (initial no_time estimator) h)
        ≡ (if has_shutdown h then 1 else 0)
  unfolding outputs
  outputs-disconnects estimator [] = refl
  outputs-disconnects estimator (e ∷ older) =
      let start = initial no_time estimator in
      let b = after floats cfg start older in
      disconnects-append (step floats cfg b e).1 (outputs floats cfg start older)
      ∙ ap (λ n. disconnects (step floats cfg b e).1 + n) (outputs-disconnects estimator older)
      ∙ step-disconnects e older b (after-Agrees estimator older).shutdown_is
