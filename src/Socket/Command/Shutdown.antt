-- ===== src/Socket/Command/Shutdown.antt =====
-- src/rb10_socket_client.cpp: what `send_shutdown_sequence` puts on the command connection.
pub mod Sends
use rmp_proximity_sensor.Common.{
  ◌>>=◌, ℕ, ◌+◌, ◌<◌, ◌≤◌, ◌≡◌, ◌↔◌, refl, sym, ◌∙◌, ap, inl, inr, Bool, true, false, ◌||◌, String,
  some, List, [], ◌∷◌, ◌++◌, arith, append_assoc, append-nil, codes, length, length-append,
  Bool-cases, if◌then◌else◌,
}
use rmp_proximity_sensor.Socket.{Posix, Client, Fd}
use rmp_proximity_sensor.Socket.Io.Send.{Wire, IsWritable}
use rmp_proximity_sensor.Socket.Command.{
  Others, sleep_ms, fallback, send_text_command, send_shutdown_sequence,
}
use rmp_proximity_sensor.Socket.Command.Wire.{
  KeepsWire, send_text_command-SentText, send_text_command_offline,
}

-- The texts that the sequence is to send, `stopped` being whether one of the first stop commands went
-- out whole.
abbrev pub shutdown_texts : Bool → Bool → List String
shutdown_texts true stopped =
    "task stop"
    ∷ "move_itpl_clear()"
    ∷ "move_pb_clear()"
    ∷ "move_jb_clear()"
    ∷ "task stop"
    ∷ (if stopped then [] else "task pause" ∷ [])
shutdown_texts false stopped =
    "task pause"
    ∷ "move_itpl_clear()"
    ∷ "move_pb_clear()"
    ∷ "move_jb_clear()"
    ∷ "task pause"
    ∷ (if stopped then [] else "task stop" ∷ [])

-- The bytes that texts come to if these of them were sent whole and of each other one a front part.
abbrev pub WentOut : List String → List Bool → List ℕ → Type 0
WentOut [] [] bytes = bytes ≡ []
WentOut (text ∷ texts) (ok ∷ oks) bytes =
    (front : List ℕ) × (back : List ℕ) × (rest : List ℕ) × (codes text ++ codes " " ≡ front ++ back)
    × (ok ≡ true ↔ back ≡ [])
    × (bytes ≡ front ++ rest)
    × WentOut texts oks rest
WentOut _ _ bytes = ⊥

-- What is relied on of the system and of the other threads: a pause puts no bytes on the connection,
-- and no other thread sends a command meanwhile.
pub record Undisturbed {S : Type 0} (posix : Posix S) (wire : Wire S) (others : Others S)
    : Type 0 where
  pub sleep_keeps : (os : S) (ms : ℕ) → wire.handed (posix.sleep_ms os ms) ≡ wire.handed os
  pub blocked_keeps : (c : Client S) → wire.handed (others.blocked c).os ≡ wire.handed c.os
  pub unlocked_keeps : (c : Client S) → wire.handed (others.unlocked c).os ≡ wire.handed c.os

module _ {S : Type 0} (wire : Wire S) where
  -- From `c` on these texts went out.
  record Went (c : Client S) (texts : List String) (oks : List Bool) (c' : Client S) : Type 0 where
    bytes : List ℕ
    parts : WentOut texts oks bytes
    handed_is : wire.handed c'.os ≡ wire.handed c.os ++ bytes

  Went-nil : (c : Client S) → Went c [] [] c
  Went-nil c = record { bytes = []; parts = refl; handed_is = sym (append-nil _) }

  -- A sequence of these texts that has ended: what of which text went out, and that no connection is left if nothing
  -- went out whole. `first_ok` and `again_ok` tell of the stop command that is sent twice.
  pub record ShutDown (c : Client S) (texts : Bool → List String) (c' : Client S) (ok : Bool)
      : Type 0 where
    pub first_ok : Bool
    pub clear_itpl_ok : Bool
    pub clear_pb_ok : Bool
    pub clear_jb_ok : Bool
    pub again_ok : Bool
    pub fallback_ok : Bool
    pub bytes : List ℕ
    pub parts :
        WentOut
          (texts (first_ok || again_ok))
          (first_ok
            ∷ clear_itpl_ok
            ∷ clear_pb_ok
            ∷ clear_jb_ok
            ∷ again_ok
            ∷ (if first_ok || again_ok then [] else fallback_ok ∷ []))
          bytes
    pub handed_is : wire.handed c'.os ≡ wire.handed c.os ++ bytes
    pub ok_is : ok ≡ (
        if first_ok || again_ok
        then true
        else fallback_ok || (clear_itpl_ok || (clear_pb_ok || clear_jb_ok)))
    pub given_up : ok ≡ false → c'.connected ≡ false
