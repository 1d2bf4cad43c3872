-- ===== src/Socket/Command/Wire.antt =====
-- src/rb10_socket_client.cpp: what a command puts on the command connection.
use rmp_proximity_sensor.Common.{
  ◌>>=◌, ℕ, ◌+◌, ◌<◌, ◌≡◌, ◌↔◌, refl, sym, ◌∙◌, Bool, true, false, not, Option, none, some, List,
  [], ◌∷◌, ◌++◌, arith, ◌==◌, length, codes, length-append,
}
use rmp_proximity_sensor.Socket.{Posix, Client, Fd, set_disconnected, close_socket}
use rmp_proximity_sensor.Socket.Io.Send.{Wire, IsWritable, Sends, send_all-Sends}
use rmp_proximity_sensor.Socket.Command.{Others, after_send, send_text_command}

-- What is relied on of the system: closing a socket puts no bytes on the connection.
pub record KeepsWire {S : Type 0} (posix : Posix S) (wire : Wire S) : Type 0 where
  pub shutdown_keeps : (os : S) (fd : Fd) → wire.handed (posix.shutdown os fd) ≡ wire.handed os
  pub close_keeps : (os : S) (fd : Fd) → wire.handed (posix.close os fd) ≡ wire.handed os

module _ {S : Type 0} (wire : Wire S) where
  -- From `c` the bytes `bytes` were sent: all of them, or a front part before the connection was
  -- given up.
  pub record SentText (c : Client S) (bytes : List ℕ) (c' : Client S) (ok : Bool) : Type 0 where
    pub front : List ℕ
    pub back : List ℕ
    pub parts : bytes ≡ front ++ back
    pub handed_is : wire.handed c'.os ≡ wire.handed c.os ++ front
    pub whole : ok ≡ true ↔ back ≡ []
    pub given_up :
        ok ≡ false → (c'.connected ≡ false) × (c'.cmd_sock ≡ none) × (c'.data_sock ≡ none)

  abbrev SendsText : Client S → List ℕ → Option (Client S × Bool) → Type 0
  SendsText c bytes r = (c' : Client S) × (ok : Bool) × (r ≡ some (c', ok)) × SentText c bytes c' ok

module _ {S : Type 0} (posix : Posix S) (wire : Wire S) (keeps : KeepsWire posix wire) where
  close_socket-handed : (fd : Fd) (os : S) → wire.handed (close_socket posix fd os) ≡ wire.handed os
  unfolding close_socket
  close_socket-handed none os = refl
  close_socket-handed (some fd) os =
      keeps.close_keeps (posix.shutdown os (some fd)) (some fd) ∙ keeps.shutdown_keeps os (some fd)

  pub set_disconnected-handed :
      (c : Client S) → wire.handed (set_disconnected posix c).os ≡ wire.handed c.os
  unfolding set_disconnected
  set_disconnected-handed c =
      close_socket-handed c.data_sock (close_socket posix c.cmd_sock c.os)
      ∙ close_socket-handed c.cmd_sock c.os

  empty_iff : (xs : List ℕ) → ((length xs == 0) ≡ true) ↔ (xs ≡ [])
  empty_iff [] = (λ _. refl, λ _. refl)
  empty_iff (x ∷ xs) = (λ h. absurd (ground arith), λ h. absurd (ground arith))

  after_send-SentText :
      (c : Client S) (bytes : List ℕ) (r : Option (Client S × Bool))
      → Sends wire c bytes r
      → SendsText wire c bytes (r >>= after_send posix)
  unfolding after_send
  after_send-SentText c bytes none s = absurd s
  after_send-SentText c bytes (some (c', true)) (front, back, e, h, done) = (
    c',
    true,
    refl,
    record {
      front = front;
      back = back;
      parts = e;
      handed_is = h;
      whole = (λ _. (empty_iff back).0 (sym done), λ _. refl);
      given_up = λ h'. cc;
    },
  )
  after_send-SentText c bytes (some (c', false)) (front, back, e, h, done) = (
    set_disconnected posix c',
    false,
    refl,
    record {
      front = front;
      back = back;
      parts = e;
      handed_is = set_disconnected-handed c' ∙ h;
      whole = (λ h'. cc, λ h'. cc (sym done, (empty_iff back).1 h'));
      given_up = λ h'. unfold set_disconnected in (refl, refl, refl);
    },
  )

  module _ (others : Others S) where
    -- On a connected client, with fuel for every byte and every interruption, a text command ends.
    -- It has put the text and one space on the connection, in order and once, and returns true; or
    -- it returns false, a front part went out, and the client has given both sockets up.
    pub send_text_command-SentText :
        (fuel : ℕ) (text : List ℕ) (c : Client S)
        → IsWritable posix others.blocked wire (others.unlocked c).cmd_sock
        → c.connected ≡ true
        → length text + 1 + wire.patience (others.unlocked c).os < fuel
        → (c' : Client S) × (ok : Bool) × (send_text_command posix others fuel text c
            ≡ some (c', ok))
          × SentText wire (others.unlocked c) (text ++ codes " ") c' ok
    unfolding send_text_command
    send_text_command-SentText fuel text c writable on enough =
        let locked = others.unlocked c in
        let sent =
          send_all-Sends wire posix others.blocked locked.cmd_sock writable fuel locked
            (text ++ codes " ") (omega (arith, length-append text (codes " "))) in
        let online : not c.connected ≡ false = ground arith in
        rw online (after_send-SentText locked (text ++ codes " ") _ sent)

    -- A client that is not connected sends nothing.
    pub send_text_command_offline :
        (fuel : ℕ) (text : List ℕ) (c : Client S)
        → c.connected ≡ false
        → send_text_command posix others fuel text c ≡ some (c, false)
    unfolding send_text_command
    send_text_command_offline fuel text c off = ground arith
