-- ===== src/DirectBridge/Startup.antt =====
-- src/rb10_direct_bridge_node.cpp: the constructor from the check of the home pose on. The calls of
-- the socket client are listed; whether each of them succeeds is an input, and so are the states that
-- the reader's thread, which the opening of the sockets starts, hands over before the constructor ends.
use rmp_proximity_sensor.Common.{
  ◌≡◌, Bool, true, false, not, ◌&&◌, ◌||◌, Option, none, some, List, [], ◌∷◌, ◌==◌, length,
  if◌then◌else◌,
}
use rmp_proximity_sensor.Common.Floats.{Floats}
use rmp_proximity_sensor.Socket.{SystemState}
use rmp_proximity_sensor.DirectBridge.Velocity.{Estimator}
use rmp_proximity_sensor.DirectBridge.{
  Config, Bridge, Output, Event, set_waiting, set_deadline, state, command_blocked_by_robot_safety,
  is_released, initial, after, outputs,
}
use rmp_proximity_sensor.DirectBridge.Gate.{stop_called, deadline_of, has_shutdown, waits}

pub data Call (Double : Type 0) : Type 0 where
  open_sockets initialize close_sockets : Call Double
  movej : List Double → Call Double

-- The results of the three calls that can fail.
pub record Answers : Type 0 where
  pub connected : Bool
  pub initialized : Bool
  pub commanded : Bool

module _ {Double : Type 0} where
  -- Whether the sockets are open after these calls; `connected` is the result of the opening.
  abbrev pub is_open : Bool → Bool → List (Call Double) → Bool
  is_open connected open_now [] = open_now
  is_open connected open_now (open_sockets ∷ calls) = is_open connected connected calls
  is_open connected open_now (close_sockets ∷ calls) = is_open connected false calls
  is_open connected open_now (initialize ∷ calls) = is_open connected open_now calls
  is_open connected open_now (movej home ∷ calls) = is_open connected open_now calls

-- Whether `rclcpp::ok()` holds, the time, and the state.
abbrev pub Arrival : Type 0 → Type 0
Arrival Time = Bool × (Time × SystemState)

-- The states that are handled while the constructor runs, newest first: from the opening of the
-- sockets to the flag of the wait, from there to the deadline, and after that.
pub record Arrivals (Time : Type 0) : Type 0 where
  pub opened : List (Arrival Time)
  pub flagged : List (Arrival Time)
  pub timed : List (Arrival Time)

module _ {Double Time : Type 0} where
  abbrev events : List (Arrival Time) → List (Event Double Time) → List (Event Double Time)
  events [] h = h
  events ((ok, (now, s)) ∷ arrivals) h = state ok now s ∷ events arrivals h

  -- What happens to the members while a constructor runs that does not throw.
  history : Bool → Time → Arrivals Time → List (Event Double Time)
  history startup_move_to_default_pose deadline a =
      if startup_move_to_default_pose
      then events a.timed
          (set_deadline deadline ∷ events a.flagged (set_waiting ∷ events a.opened []))
      else events a.timed (events a.flagged (events a.opened []))

module _ {Double Time : Type 0} (floats : Floats Double Time) (cfg : Config Double)
    (no_time : Time) where
  -- The node after a history of its constructor, if that does not throw, what was published, and the
  -- calls.
  abbrev Result : Type 0
  Result = Option (Bridge Double Time) × (List (Output Double) × List (Call Double))

  -- The move to the home pose, if it is wanted; the deadline is the time then plus the timeout.
  move_home : Bool → Time → Bool → Arrivals Time → Estimator Double Time → Result
  unfolding history
  move_home startup_move_to_default_pose deadline commanded a estimator =
      let start = initial no_time estimator in
      let h = history startup_move_to_default_pose deadline a in
      if not startup_move_to_default_pose
      then (some (after floats cfg start h), (outputs floats cfg start h, []))
      else (if not commanded
          then (
            none,
            (
              outputs floats cfg start (events a.opened []),
              movej cfg.startup_home_joints_deg ∷ close_sockets ∷ [],
            ),
          )
          else (
            some (after floats cfg start h),
            (outputs floats cfg start h, movej cfg.startup_home_joints_deg ∷ []),
          ))

  -- `none` is an exception.
  pub construct : Bool → Time → Answers → Arrivals Time → Estimator Double Time → Result
  unfolding move_home
  construct startup_move_to_default_pose deadline answers a estimator =
      if not (length cfg.startup_home_joints_deg == 6)
      then (none, ([], []))
      else (if not answers.connected
          then (none, ([], open_sockets ∷ []))
          else (if not answers.initialized
              then (
                none,
                (
                  outputs floats cfg (initial no_time estimator) (events a.opened []),
                  open_sockets ∷ initialize ∷ close_sockets ∷ [],
                ),
              )
              else (let moved =
                    move_home startup_move_to_default_pose deadline answers.commanded a estimator in
                  (moved.0, (moved.1.0, open_sockets ∷ initialize ∷ moved.1.1)))))

  -- Whether the newest of these states that was handled calls for a stop, or else what was so before.
  abbrev pub stop_from : Bool → List (Arrival Time) → Bool
  stop_from before [] = before
  stop_from before ((ok, (now, s)) ∷ older) =
      let earlier = stop_from before older in
      if ok then command_blocked_by_robot_safety s else earlier

  -- Whether one of these states that was handled showed the robot at home or came too late.
  abbrev pub released_by : Time → List (Arrival Time) → Bool
  released_by deadline [] = false
  released_by deadline ((ok, (now, s)) ∷ older) =
      (ok && is_released floats cfg now s deadline) || released_by deadline older

  -- The history goes on with these states.
  record GoesOn (arrivals : List (Arrival Time)) (h h' : List (Event Double Time)) : Type 0 where
    stop_is : stop_called h' ≡ stop_from (stop_called h) arrivals
    waits_is :
        waits floats cfg no_time h'
        ≡ (waits floats cfg no_time h && not (released_by (deadline_of no_time h) arrivals))
    deadline_is : deadline_of no_time h' ≡ deadline_of no_time h
    shutdown_is : has_shutdown h' ≡ has_shutdown h

  -- The members that a constructor leaves behind, from the states that came in.
  abbrev Left : Bool → Time → Arrivals Time → Bridge Double Time → Type 0
  Left to_home deadline a b =
      (b.command_blocked_due_to_safety
        ≡ stop_from (stop_from (stop_from false a.opened) a.flagged) a.timed)
      × ((b.startup_waiting_for_home
            ≡ (to_home && not (released_by no_time a.flagged || released_by deadline a.timed)))
          × (b.shutdown_started ≡ false))

  -- What the constructor leaves behind: a node with open sockets, or an exception and no open socket.
  abbrev pub Constructed : Bool → Bool → Time → Arrivals Time → Result → Type 0
  Constructed connected to_home deadline a (none, (out, calls)) =
      is_open connected false calls ≡ false
  Constructed connected to_home deadline a (some b, (out, calls)) =
      (is_open connected false calls ≡ true) × Left to_home deadline a b
