-- ===== src/Controller/Direct/Threads/Bounded.antt =====
-- src/rmpflow_controller_node.cpp: how many commands `DirectRb10Backend` still sends after a stop.
use rmp_proximity_sensor.Common.{
  ◌≤◌, ◌≡◌, refl, ap, ◌∙◌, true, false, Option, none, some, List, [], ◌∷◌, ◌++◌, arith, length,
  length-append, append-nil, if◌then◌else◌,
}
use rmp_proximity_sensor.Common.Floats.{Floats}
use rmp_proximity_sensor.Socket.{SystemState}
use rmp_proximity_sensor.Controller.Direct.{
  Config, Backend, queue_servo_command, clear_pending_servo_command, check_command,
  stop_servo_command_thread, write_state, release_startup,
}
use rmp_proximity_sensor.Controller.Direct.Threads.{
  Machine, Label, Step, check, queue, write, exchange, clear, release, take, send, stop, Run, here,
  next, all_sent, accepted_by, all_accepted, IsStopped, on_their_way, kept,
}
use rmp_proximity_sensor.Controller.Direct.Threads.InOrder.{Run-within, take_servo_command-taken}
use mathlib.Core.List.{Sublistᴰ}
use mathlib.Core.List.Sublistᴰ as Within
use mathlib.Core.Path.{subst}

length-Sublistᴰ : {A : Type 0} {xs ys : List A} → Sublistᴰ xs ys → length xs ≤ length ys
length-Sublistᴰ Sublistᴰ.slnil = omega arith
length-Sublistᴰ (Sublistᴰ.cons d) = omega (arith, length-Sublistᴰ d)
length-Sublistᴰ (Sublistᴰ.cons-cons e d) = omega (arith, length-Sublistᴰ d)

front_within : {A : Type 0} {zs : List A} (xs ys : List A) → Sublistᴰ (xs ++ ys) zs → Sublistᴰ xs zs
front_within xs ys d =
    Within.trans
      (subst (λ l. Sublistᴰ l (xs ++ ys)) (append-nil xs)
        (Within.append (Within.refl xs) (Within.nil-sublist ys)))
      d

length-kept : {Double : Type 0} (o : Option (List Double)) → length (kept o) ≤ 1
length-kept none = omega arith
length-kept (some joint_deg) = omega arith

module _ {Double Time : Type 0} (floats : Floats Double Time) (cfg : Config Double) where
  IsStopped-split :
      (label : Label Double) (labels : List (Label Double))
      → IsStopped (label ∷ labels)
      → IsStopped (label ∷ []) × IsStopped labels
  IsStopped-split (Label.accepted joint_deg) labels h = (tt, h)
  IsStopped-split (Label.sent joint_deg) labels h = (tt, h)
  IsStopped-split (Label.stop_is command_blocked) labels h = ((h.0, tt), h.1)
  IsStopped-split Label.silent labels h = (tt, h)

  blocked-release_startup :
      (current_time : Time) (state : SystemState) (b : Backend Double Time)
      → (release_startup floats cfg current_time state b).command_blocked_due_to_safety
        ≡ b.command_blocked_due_to_safety
  unfolding release_startup
  blocked-release_startup current_time state b = ground arith

  -- While the flag is up no command passes the check.
  Step-blocked :
      {m n : Machine Double Time} {label : Label Double}
      → Step floats cfg m label n
      → IsStopped (label ∷ [])
      → m.backend.command_blocked_due_to_safety ≡ true
      → (n.backend.command_blocked_due_to_safety ≡ true) × (accepted_by label ≡ [])
  unfolding check_command queue_servo_command clear_pending_servo_command stop_servo_command_thread
      write_state
  Step-blocked (check m connected command_state joint_deg free e) h blocked = ground arith
  Step-blocked (queue m joint_deg e) h blocked = (blocked, refl)
  Step-blocked (write m current_time state idle) h blocked = (blocked, refl)
  Step-blocked (exchange m state idle) h blocked = (h.0, refl)
  Step-blocked (clear m due) h blocked = (blocked, refl)
  Step-blocked (release m current_time state idle) h blocked =
      (blocked-release_startup current_time state m.backend ∙ blocked, refl)
  Step-blocked (take m joint_deg b free e) h blocked =
      let after = (take_servo_command-taken m.backend b joint_deg e).2 in
      (ap (λ b. b.command_blocked_due_to_safety) after ∙ blocked, refl)
  Step-blocked (send m joint_deg e) h blocked = (blocked, refl)
  Step-blocked (stop m free) h blocked = (blocked, refl)

  Run-blocked :
      {m n : Machine Double Time} {labels : List (Label Double)}
      → Run floats cfg m labels n
      → IsStopped labels
      → m.backend.command_blocked_due_to_safety ≡ true
      → all_accepted labels ≡ []
  Run-blocked here h blocked = refl
  Run-blocked (next {m} {n} {o} {label} {labels} s r) h blocked =
      let (first, rest) = IsStopped-split label labels h in
      let (still, none_accepted) = Step-blocked s first blocked in
      rw (none_accepted, Run-blocked r rest still) refl

  -- While every state that comes in calls for a stop, each command that is sent was already on its way
  -- when the flag went up, and what was sent and what is still on its way is no more than that.
  Run-stopped :
      {m n : Machine Double Time} {labels : List (Label Double)}
      → Run floats cfg m labels n
      → IsStopped labels
      → m.backend.command_blocked_due_to_safety ≡ true
      → Sublistᴰ (all_sent labels ++ on_their_way n) (on_their_way m)
  Run-stopped {m} {n} {labels} r h blocked =
      subst (λ l. Sublistᴰ (all_sent labels ++ on_their_way n) l)
        (ap (λ l. on_their_way m ++ l) (Run-blocked r h blocked) ∙ append-nil (on_their_way m))
        (Run-within floats cfg r)

  -- Once the reader has put the flag up and cleared the queue, at most two more commands reach the
  -- robot before a state comes in that calls for no stop: the one that the thread has taken, and the one
  -- that the control loop has checked, each at most once.
  pub stopped-at_most_two :
      (m n : Machine Double Time) (labels : List (Label Double))
      → Run floats cfg m labels n
      → IsStopped labels
      → m.backend.command_blocked_due_to_safety ≡ true
      → m.backend.servo_command_pending ≡ false
      → Sublistᴰ (all_sent labels) (kept m.in_flight ++ kept m.checked)
        × (length (all_sent labels) ≤ 2)
  stopped-at_most_two m n labels r h blocked cleared =
      let within : Sublistᴰ (all_sent labels ++ on_their_way n)
          (kept m.in_flight ++ kept m.checked) =
        subst
          (λ p. Sublistᴰ (all_sent labels ++ on_their_way n) (
            kept m.in_flight
            ++ (kept (if p then some m.backend.latest_servo_joint_deg else none)
                ++ kept m.checked)))
          cleared (Run-stopped r h blocked) in
      (
        front_within (all_sent labels) (on_their_way n) within,
        omega (
          arith,
          length-Sublistᴰ (front_within (all_sent labels) (on_their_way n) within),
          length-append (kept m.in_flight) (kept m.checked),
          length-kept m.in_flight,
          length-kept m.checked,
        ),
      )
