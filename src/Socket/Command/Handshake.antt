-- ===== src/Socket/Command/Handshake.antt =====
-- src/rb10_socket_client.cpp: the hand-shake of `send_servoj_degrees` with the responses.
use rmp_proximity_sensor.Common.{
  ◌>>=◌, ℕ, ◌+◌, ◌<◌, ◌≡◌, refl, inl, inr, Bool, true, false, not, Option, some, List, ◌++◌, arith,
  length, codes, Bool-cases, if◌then◌else◌,
}
use rmp_proximity_sensor.Socket.{Posix, Client, Log, log}
use rmp_proximity_sensor.Socket.Io.Send.{Wire, IsWritable}
use rmp_proximity_sensor.Socket.Command.{Others, after_servo, ready_to_send, send_servoj_degrees}
use rmp_proximity_sensor.Socket.Command.Wire.{KeepsWire, SentText, send_text_command-SentText}

module _ {S : Type 0} (posix : Posix S) (wire : Wire S) (others : Others S) where
  -- What a servo command comes to, for a client that woke up as `woken` from the wait.
  abbrev pub ServoOutcome : Client S → List ℕ → Client S → Bool → Type 0
  ServoOutcome woken text c' ok =
      if not (ready_to_send woken)
      then ((ok ≡ false)
          × ((c'.servo_command_response_pending ≡ false)
              × (c'.os ≡ woken.os)
              × (c'.connected ≡ woken.connected)))
      else (if not woken.connected
          then ((ok ≡ false) × (c' ≡ woken))
          else (SentText wire
                (others.unlocked (record woken { servo_command_response_pending = true }))
                (text ++ codes " ") c' ok
              × (ok ≡ false → c'.servo_command_response_pending ≡ false)))

  after_servo-SentText :
      (c : Client S) (bytes : List ℕ) (r : Option (Client S × Bool))
      → (c' : Client S) × (ok : Bool) × (r ≡ some (c', ok)) × SentText wire c bytes c' ok
      → (c' : Client S) × (ok : Bool) × ((r >>= after_servo) ≡ some (c', ok))
        × SentText wire c bytes c' ok
        × (ok ≡ false → c'.servo_command_response_pending ≡ false)
  unfolding after_servo
  after_servo-SentText c bytes r (c', true, e, s) = (c', true, rw e, s, λ h. cc)
  after_servo-SentText c bytes r (c', false, e, s) = (
    record c' { servo_command_response_pending = false },
    false,
    rw e,
    record {
      front = s.front;
      back = s.back;
      parts = s.parts;
      handed_is = s.handed_is;
      whole = s.whole;
      given_up = s.given_up;
    },
    λ h. refl,
  )

  log_keeps :
      (line : Log) (c : Client S)
      → ((log line c).servo_command_response_pending ≡ c.servo_command_response_pending)
        × ((log line c).os ≡ c.os)
        × ((log line c).connected ≡ c.connected)
  unfolding log
  log_keeps line c = ground arith

  module _ (keeps : KeepsWire posix wire) where
    -- With fuel for every byte and every interruption, a servo command ends in one of three ways. If
    -- the wait ran out with a response still due, it is dropped: nothing is sent, and no response is
    -- due any more. If the client is not connected, nothing changes. Otherwise the command goes out
    -- as a text command does, and after a failed send no response is due.
    pub send_servoj_degrees-ServoOutcome :
        (fuel : ℕ) (text : List ℕ) (c : Client S)
        → let woken = others.responded c in
          let marked = record woken { servo_command_response_pending = true } in
          IsWritable posix others.blocked wire (others.unlocked marked).cmd_sock
          → length text + 1 + wire.patience (others.unlocked marked).os < fuel
          → (c' : Client S) × (ok : Bool) × (send_servoj_degrees posix others fuel text c
              ≡ some (c', ok))
            × ServoOutcome woken text c' ok
    unfolding send_servoj_degrees
    send_servoj_degrees-ServoOutcome fuel text c writable enough =
        let woken = others.responded c in
        let marked = record woken { servo_command_response_pending = true } in
        elim (Bool-cases (not (ready_to_send woken))) [
          | inl late ↦ rw late (_, false, refl, (refl, log_keeps _ _))
          | inr ready ↦ elim (Bool-cases (not woken.connected)) [
            | inl off ↦ rw (ready, off) (woken, false, refl, (refl, refl))
            | inr on ↦
                let (c', ok, e, sent, settled) =
                  after_servo-SentText (others.unlocked marked) (text ++ codes " ") _ (
                    send_text_command-SentText posix wire keeps others fuel text marked writable
                      (ground arith) enough) in
                rw (ready, on) (c', ok, e, (sent, settled))
          ]
        ]
