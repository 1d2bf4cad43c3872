-- ===== src/Controller/Direct/Handler.antt =====
-- src/rmpflow_controller_node.cpp: `DirectRb10Backend` against the states that have come in.
use rmp_proximity_sensor.Common.{
  ◌≡◌, refl, ◌∙◌, inl, inr, Bool, true, false, not, ◌&&◌, ◌||◌, Option, none, some, List, [], ◌∷◌,
  arith, map, if◌then◌else◌, Bool-cases,
}
use rmp_proximity_sensor.Common.Floats.{Floats}
use rmp_proximity_sensor.Socket.{SystemState}
use rmp_proximity_sensor.Controller.{RobotState}
use rmp_proximity_sensor.Controller.Filter.{Settings, Filter}
use rmp_proximity_sensor.Controller.Direct.{
  Config, Backend, command_blocked_by_robot_safety, ready, check_command, exchange_blocked,
  clear_pending_servo_command, position_of, write_state, home_reached, rest_filter, release_startup,
  on_state,
}

module _ {Double Time : Type 0} (floats : Floats Double Time) (cfg : Config Double) where
  -- The backend after states, newest first.
  unfoldable pub after : Backend Double Time → List (Time × SystemState) → Backend Double Time
  after start [] = start
  after start ((now, state) ∷ older) = (on_state floats cfg now state (after start older)).0

  -- Whether some state showed the robot at home or came after the deadline.
  abbrev pub released : Time → List (Time × SystemState) → Bool
  released deadline [] = false
  released deadline ((now, state) ∷ older) =
      (home_reached floats cfg state || floats.at_or_after now deadline) || released deadline older

  -- What the newest state leaves, `waits` being whether the backend still waits for home after it.
  pub record Handled (state : SystemState) (deadline : Time) (waits : Bool)
      (b : Backend Double Time) : Type 0 where
    pub position_is : b.state_buffer.q ≡ position_of floats cfg state
    pub received : b.state_received ≡ true
    pub blocked_is : b.command_blocked_due_to_safety ≡ command_blocked_by_robot_safety state
    pub waiting_is : b.startup_waiting_for_home ≡ waits
    pub deadline_is : b.startup_release_deadline ≡ deadline

  rest_filter-position :
      (o : Option (Settings Double)) (q : List Double) (now : Time)
      (kept : Filter Double Time × RobotState Double)
      → kept.1.q ≡ q
      → (rest_filter floats cfg o q now kept).1.q ≡ q
  unfolding rest_filter
  rest_filter-position none q now kept e = e
  rest_filter-position (some settings) q now kept e = refl

  release_startup-Handled :
      (now : Time) (state : SystemState) (b : Backend Double Time)
      → b.state_buffer.q ≡ position_of floats cfg state
      → b.state_received ≡ true
      → b.command_blocked_due_to_safety ≡ command_blocked_by_robot_safety state
      → Handled state b.startup_release_deadline
          (b.startup_waiting_for_home
            && not (
                home_reached floats cfg state || floats.at_or_after now b.startup_release_deadline))
          (release_startup floats cfg now state b)
  unfolding release_startup
  release_startup-Handled now state b e received blocked =
      elim (Bool-cases b.startup_waiting_for_home) [
        | inl waits ↦
            elim (Bool-cases (
              home_reached floats cfg state || floats.at_or_after now b.startup_release_deadline)) [
                | inl over ↦
                    rw (waits, over, release_startup)
                      (record {
                        position_is =
                            rest_filter-position cfg.synced_input_velocity_filter
                              (position_of floats cfg state) now (b.filter, b.state_buffer) e;
                        received = received;
                        blocked_is = blocked;
                        waiting_is = refl;
                        deadline_is = refl;
                      })
                | inr early ↦
                    rw (waits, early, release_startup)
                      (record {
                        position_is = e;
                        received = received;
                        blocked_is = blocked;
                        waiting_is = refl;
                        deadline_is = refl;
                      })
              ]
        | inr released ↦
            rw (released, release_startup)
              (record {
                position_is = e;
                received = received;
                blocked_is = blocked;
                waiting_is = refl;
                deadline_is = refl;
              })
      ]

  on_state-Handled :
      (now : Time) (state : SystemState) (b : Backend Double Time)
      → Handled state b.startup_release_deadline
          (b.startup_waiting_for_home
            && not (
                home_reached floats cfg state || floats.at_or_after now b.startup_release_deadline))
          (on_state floats cfg now state b).0
  unfolding on_state exchange_blocked write_state clear_pending_servo_command
  on_state-Handled now state b =
      let noted = (exchange_blocked state (write_state floats cfg now state b)).0 in
      elim (Bool-cases
        (command_blocked_by_robot_safety state && not b.command_blocked_due_to_safety)) [
          | inl stops ↦
              rw stops (
                release_startup-Handled now state (clear_pending_servo_command noted) refl refl
                  refl)
          | inr goes ↦ rw goes (release_startup-Handled now state noted refl refl refl)
        ]

  -- Whether the backend still waits for home.
  abbrev pub waits : Backend Double Time → List (Time × SystemState) → Bool
  waits start states =
      start.startup_waiting_for_home && not (released start.startup_release_deadline states)

  on_state-after :
      (start b : Backend Double Time) (now : Time) (state : SystemState)
      (older : List (Time × SystemState))
      → b.startup_release_deadline ≡ start.startup_release_deadline
      → b.startup_waiting_for_home ≡ waits start older
      → Handled state start.startup_release_deadline
          (waits start ((now, state) ∷ older))
          (on_state floats cfg now state b).0
  on_state-after start b now state older deadline waiting =
      let h = on_state-Handled now state b in
      let over =
        home_reached floats cfg state || floats.at_or_after now start.startup_release_deadline in
      record {
        position_is = h.position_is;
        received = h.received;
        blocked_is = h.blocked_is;
        waiting_is =
            h.waiting_is
            ∙ rw (deadline, waiting)
                (split start.startup_waiting_for_home over
                  (released start.startup_release_deadline older));
        deadline_is = h.deadline_is ∙ deadline;
      }
    where
      split : (w over r : Bool) → ((w && not r) && not over) ≡ (w && not (over || r))
      split w over r = ground arith

  waits-nil : (start : Backend Double Time) → start.startup_waiting_for_home ≡ waits start []
  waits-nil start = elim (Bool-cases start.startup_waiting_for_home) [
    | inl waiting ↦ rw waiting refl
    | inr idle ↦ rw idle refl
  ]

  -- After any history of states the backend has the position of the newest one, is blocked exactly if
  -- that one calls for a stop, and waits for home exactly if it has waited at the start and no state
  -- showed the robot at home or came after the deadline.
  pub after-Handled :
      (start : Backend Double Time) (now : Time) (state : SystemState)
      (older : List (Time × SystemState))
      → Handled state start.startup_release_deadline
          (waits start ((now, state) ∷ older))
          (after start ((now, state) ∷ older))
  unfolding after
  after-Handled start now state [] = on_state-after start start now state [] refl (waits-nil start)
  after-Handled start now state ((before, earlier) ∷ older) =
      let h = after-Handled start before earlier older in
      on_state-after start _ now state ((before, earlier) ∷ older) h.deadline_is h.waiting_is

  -- Whether the robot may be commanded: from the history alone.
  abbrev pub may_command : Bool → Backend Double Time → List (Time × SystemState) → Bool
  may_command connected start [] = false
  may_command connected start ((now, state) ∷ older) =
      connected
      && (not (waits start ((now, state) ∷ older)) && not (command_blocked_by_robot_safety state))

  check_command-from :
      (b : Backend Double Time) (connected : Bool) (command_state : RobotState Double)
      (w stop : Bool)
      → b.state_received ≡ true
      → b.startup_waiting_for_home ≡ w
      → b.command_blocked_due_to_safety ≡ stop
      → check_command floats connected command_state b ≡ (
          if connected && (not w && not stop)
          then some (map floats.radians_to_degrees command_state.q)
          else none)
  unfolding check_command ready
  check_command-from b connected command_state w stop received waiting blocked = ground arith

  check_command-fresh :
      (b : Backend Double Time) (connected : Bool) (command_state : RobotState Double)
      → b.state_received ≡ false
      → check_command floats connected command_state b ≡ none
  unfolding check_command ready
  check_command-fresh b connected command_state fresh = ground arith

  -- After any history of states a command passes the checks exactly if the client is connected, a state
  -- has come in, the backend did not wait for home or a state has ended that, and the newest state calls
  -- for no stop; it goes on in degrees.
  pub check_command-after :
      (start : Backend Double Time) (connected : Bool) (command_state : RobotState Double)
      (states : List (Time × SystemState))
      → start.state_received ≡ false
      → check_command floats connected command_state (after start states) ≡ (
          if may_command connected start states
          then some (map floats.radians_to_degrees command_state.q)
          else none)
  unfolding after
  check_command-after start connected command_state [] h =
      check_command-fresh start connected command_state h
  check_command-after start connected command_state ((now, state) ∷ older) h =
      let k = after-Handled start now state older in
      check_command-from (after start ((now, state) ∷ older)) connected command_state _ _ k.received
        k.waiting_is k.blocked_is
