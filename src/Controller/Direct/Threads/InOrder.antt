-- ===== src/Controller/Direct/Threads/InOrder.antt =====
-- src/rmpflow_controller_node.cpp: which commands the thread of `DirectRb10Backend` sends.
use rmp_proximity_sensor.Common.{
  ◌≡◌, sym, true, false, none, some, List, [], ◌∷◌, ◌++◌, append_assoc, append-nil, arith,
  if◌then◌else◌,
}
use rmp_proximity_sensor.Common.Floats.{Floats}
use rmp_proximity_sensor.Socket.{SystemState}
use rmp_proximity_sensor.Controller.Direct.{
  Config, Backend, taken, queue_servo_command, clear_pending_servo_command,
  stop_servo_command_thread, take_servo_command, exchange_blocked, write_state, release_startup,
}
use rmp_proximity_sensor.Controller.Direct.Threads.{
  Machine, Label, Step, check, queue, write, exchange, clear, release, take, send, stop, Run, here,
  next, sent_by, accepted_by, all_sent, all_accepted, on_their_way, kept,
}
use mathlib.Core.List.{Sublistᴰ}
use mathlib.Core.List.Sublistᴰ as Within
use mathlib.Core.Path.{subst}

-- What is unchanged but for an empty end.
abbrev Kept : {A : Type 0} → List A → List A → Type 0
Kept xs ys = Sublistᴰ xs (ys ++ [])

Kept-refl : {A : Type 0} (xs : List A) → Kept xs xs
Kept-refl xs = rw (append-nil xs) (Within.refl xs)

added_last :
    {A : Type 0} (first second : List A) (x : A)
    → Sublistᴰ (first ++ (second ++ x ∷ [])) ((first ++ (second ++ [])) ++ x ∷ [])
added_last first second x =
    rw (append-nil second, append_assoc first second (x ∷ [])) (Within.refl _)

-- The middle is lost.
lost_middle :
    {A : Type 0} (first second third : List A)
    → Sublistᴰ (first ++ third) (first ++ (second ++ third))
lost_middle first second third =
    Within.append (Within.refl first)
      (Within.append (Within.nil-sublist second) (Within.refl third))

chain :
    {A : Type 0} (out way way_next into more_out way_last more_into : List A)
    → Sublistᴰ (out ++ way_next) (way ++ into)
    → Sublistᴰ (more_out ++ way_last) (way_next ++ more_into)
    → Sublistᴰ ((out ++ more_out) ++ way_last) (way ++ (into ++ more_into))
chain out way way_next into more_out way_last more_into first rest =
    rw (append_assoc out more_out way_last, sym (append_assoc way into more_into))
      (Within.trans (Within.append (Within.refl out) rest) (
        subst (λ l. Sublistᴰ l ((way ++ into) ++ more_into)) (append_assoc out way_next more_into)
          (Within.append first (Within.refl more_into))))

module _ {Double Time : Type 0} where
  -- What a round that takes a command does.
  pub take_servo_command-taken :
      (b after : Backend Double Time) (joint_deg : List Double)
      → take_servo_command b ≡ taken joint_deg after
      → (joint_deg ≡ b.latest_servo_joint_deg)
        × (b.servo_command_pending ≡ true)
        × (after ≡ record b { servo_command_pending = false })
  unfolding take_servo_command
  take_servo_command-taken b after joint_deg e = ground arith

  -- The commands behind the one in flight.
  abbrev queued : Backend Double Time → List (List Double)
  queued b = kept (if b.servo_command_pending then some b.latest_servo_joint_deg else none)

module _ {Double Time : Type 0} (floats : Floats Double Time) (cfg : Config Double) where
  queued-release_startup :
      (current_time : Time) (state : SystemState) (b : Backend Double Time)
      → queued (release_startup floats cfg current_time state b) ≡ queued b
  unfolding release_startup
  queued-release_startup current_time state b = ground arith

  pub Step-within :
      {m n : Machine Double Time} {label : Label Double}
      → Step floats cfg m label n
      → Sublistᴰ (sent_by label ++ on_their_way n) (on_their_way m ++ accepted_by label)
  unfolding queue_servo_command clear_pending_servo_command stop_servo_command_thread
      exchange_blocked write_state
  Step-within (check m connected command_state joint_deg free e) =
      rw free (added_last (kept m.in_flight) (queued m.backend) joint_deg)
  Step-within (queue m joint_deg e) =
      rw (e, append-nil (kept m.in_flight ++ (queued m.backend ++ joint_deg ∷ [])))
        (lost_middle (kept m.in_flight) (queued m.backend) (joint_deg ∷ []))
  Step-within (write m current_time state idle) = Kept-refl (on_their_way m)
  Step-within (exchange m state idle) = Kept-refl (on_their_way m)
  Step-within (clear m due) =
      rw (append-nil (on_their_way m))
        (lost_middle (kept m.in_flight) (queued m.backend) (kept m.checked))
  Step-within (release m current_time state idle) =
      rw (queued-release_startup current_time state m.backend) (Kept-refl (on_their_way m))
  Step-within (take m joint_deg b free e) =
      let (latest, pending, after) = take_servo_command-taken m.backend b joint_deg e in
      rw (after, free, pending, latest)
        (Kept-refl (m.backend.latest_servo_joint_deg ∷ kept m.checked))
  Step-within (send m joint_deg e) = rw e (Kept-refl _)
  Step-within (stop m free) =
      rw (append-nil (on_their_way m))
        (lost_middle (kept m.in_flight) (queued m.backend) (kept m.checked))

  -- Whatever the three threads do, the commands that are sent are commands that `apply_command` has let
  -- pass, in their order and none of them twice; what is left of them waits in the queue's one place,
  -- before it or behind it.
  pub Run-within :
      {m n : Machine Double Time} {labels : List (Label Double)}
      → Run floats cfg m labels n
      → Sublistᴰ (all_sent labels ++ on_their_way n) (on_their_way m ++ all_accepted labels)
  Run-within here = Kept-refl _
  Run-within (next {m} {n} {o} {label} {labels} s r) =
      chain (sent_by label) (on_their_way m) (on_their_way n) (accepted_by label) (all_sent labels)
        (on_their_way o) (all_accepted labels) (Step-within s) (Run-within r)
