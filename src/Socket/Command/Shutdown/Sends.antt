-- ===== src/Socket/Command/Shutdown/Sends.antt =====
-- src/rb10_socket_client.cpp: `send_shutdown_sequence`, command by command.
use rmp_proximity_sensor.Common.{
  ◌>>=◌, ℕ, ◌+◌, ◌<◌, ◌≤◌, ◌≡◌, refl, sym, ◌∙◌, ap, inl, inr, Bool, true, false, ◌||◌, String, some,
  List, [], ◌∷◌, ◌++◌, arith, append_assoc, append-nil, codes, length, length-append, Bool-cases,
  if◌then◌else◌,
}
use rmp_proximity_sensor.Socket.{Posix, Client, Fd}
use rmp_proximity_sensor.Socket.Io.Send.{Wire, IsWritable}
use rmp_proximity_sensor.Socket.Command.{
  Others, sleep_ms, fallback, send_text_command, send_shutdown_sequence,
}
use rmp_proximity_sensor.Socket.Command.Wire.{
  KeepsWire, send_text_command-SentText, send_text_command_offline,
}
use rmp_proximity_sensor.Socket.Command.Shutdown.{
  shutdown_texts, Undisturbed, Went, Went-nil, ShutDown,
}

module _ {S : Type 0} (posix : Posix S) (wire : Wire S) (keeps : KeepsWire posix wire)
    (others : Others S) (undisturbed : Undisturbed posix wire others) (fuel : ℕ)
    (writable : (fd : Fd) → IsWritable posix others.blocked wire fd)
    (enough : (os : S) → 18 + wire.patience os < fuel) where
  -- A text command of the sequence ends, with its text on the connection or a front part of it.
  abbrev Goes : Client S → String → Type 0
  Goes c text =
      (c' : Client S) × (ok : Bool) × (send_text_command posix others fuel (codes text) c
        ≡ some (c', ok))
      × Went wire c (text ∷ []) (ok ∷ []) c'
      × (ok ≡ false → c'.connected ≡ false)

  send_text_command-Goes : (text : String) (c : Client S) → length (codes text) ≤ 17 → Goes c text
  send_text_command-Goes text c short = elim (Bool-cases c.connected) [
    | inl on ↦
        let (c', ok, e, s) =
          send_text_command-SentText posix wire keeps others fuel (codes text) c
            (writable (others.unlocked c).cmd_sock) on
            (omega (arith, enough (others.unlocked c).os)) in
        (
          c',
          ok,
          e,
          record {
            bytes = s.front;
            parts = (s.front, s.back, [], s.parts, s.whole, sym (append-nil s.front), refl);
            handed_is = s.handed_is ∙ ap (λ h. h ++ s.front) (undisturbed.unlocked_keeps c);
          },
          λ h. (s.given_up h).0,
        )
    | inr off ↦ (
      c,
      false,
      send_text_command_offline posix wire keeps others fuel (codes text) c off,
      record {
        bytes = [];
        parts = (
          [],
          codes text ++ codes " ",
          [],
          refl,
          (λ h. cc, λ h. absurd (never (codes text) h)),
          refl,
          refl,
        );
        handed_is = sym (append-nil _);
      },
      λ h. off,
    )
  ]
    where
      never : (xs : List ℕ) → xs ++ codes " " ≡ [] → ⊥
      never xs h = omega (arith, length-append xs (codes " "), ap length h)

  sleep-handed :
      (ms : ℕ) (c : Client S) → wire.handed (sleep_ms posix others ms c).os ≡ wire.handed c.os
  unfolding sleep_ms
  sleep-handed ms c = undisturbed.blocked_keeps _ ∙ undisturbed.sleep_keeps c.os ms

  -- One text, and then the others, with no byte in between.
  Went-cons :
      {text : String} {ok : Bool} {texts : List String} {oks : List Bool} (c c1 c2 c3 : Client S)
      → Went wire c (text ∷ []) (ok ∷ []) c1
      → wire.handed c2.os ≡ wire.handed c1.os
      → Went wire c2 texts oks c3
      → Went wire c (text ∷ texts) (ok ∷ oks) c3
  Went-cons c c1 c2 c3 w same v =
      let (front, back, rest, whole, done, bytes_are, none_left) = w.parts in
      record {
        bytes = w.bytes ++ v.bytes;
        parts = (
          front,
          back,
          v.bytes,
          whole,
          done,
          ap (λ b. b ++ v.bytes) (bytes_are ∙ ap (λ r. front ++ r) none_left ∙ append-nil front),
          v.parts,
        );
        handed_is =
            v.handed_is
            ∙ ap (λ h. h ++ v.bytes) (same ∙ w.handed_is)
            ∙ append_assoc (wire.handed c.os) w.bytes v.bytes;
      }

  -- The sequence for any two stop commands.
  sequence-ShutDown :
      (first second : String) (c : Client S)
      → length (codes first) ≤ 17
      → length (codes second) ≤ 17
      → (c' : Client S) × (ok : Bool) × ((send_text_command posix others fuel (codes first) c
            >>= λ r1.
                send_text_command posix others fuel
                  (codes "move_itpl_clear()")
                  (sleep_ms posix others 50 r1.0)
                >>= λ r2.
                    send_text_command posix others fuel (codes "move_pb_clear()") r2.0 >>= λ r3.
                    send_text_command posix others fuel (codes "move_jb_clear()") r3.0 >>= λ r4.
                    send_text_command posix others fuel
                      (codes first)
                      (sleep_ms posix others 50 r4.0)
                    >>= λ r5.
                        fallback posix others fuel
                          (r1.1 || r5.1)
                          (r2.1 || (r3.1 || r4.1))
                          (codes second)
                          r5.0)
          ≡ some (c', ok))
        × ShutDown wire c
            (λ stopped.
              first
              ∷ "move_itpl_clear()"
              ∷ "move_pb_clear()"
              ∷ "move_jb_clear()"
              ∷ first
              ∷ (if stopped then [] else second ∷ []))
            c'
            ok
  unfolding fallback
  sequence-ShutDown first second c short short' =
      let (c1, ok1, e1, w1, g1) = send_text_command-Goes first c short in
      let s1 = sleep_ms posix others 50 c1 in
      let (c2, ok2, e2, w2, g2) = send_text_command-Goes "move_itpl_clear()" s1 (omega arith) in
      let (c3, ok3, e3, w3, g3) = send_text_command-Goes "move_pb_clear()" c2 (omega arith) in
      let (c4, ok4, e4, w4, g4) = send_text_command-Goes "move_jb_clear()" c3 (omega arith) in
      let s4 = sleep_ms posix others 50 c4 in
      let (c5, ok5, e5, w5, g5) = send_text_command-Goes first s4 short in
      let more =
        λ (texts : List String) (oks : List Bool) (c' : Client S) (w : Went wire c5 texts oks c').
          Went-cons c c1 s1 c' w1 (sleep-handed 50 c1) (
            Went-cons s1 c2 c2 c' w2 refl (
              Went-cons c2 c3 c3 c' w3 refl (
                Went-cons c3 c4 s4 c' w4 (sleep-handed 50 c4)
                  (Went-cons s4 c5 c5 c' w5 refl w)))) in
      elim (Bool-cases (ok1 || ok5)) [
        | inl stopped ↦
            let w = more [] [] c5 (Went-nil wire c5) in
            rw (e1, e2, e3, e4, e5, stopped)
              (
                c5,
                true,
                refl,
                record {
                  first_ok = ok1;
                  clear_itpl_ok = ok2;
                  clear_pb_ok = ok3;
                  clear_jb_ok = ok4;
                  again_ok = ok5;
                  fallback_ok = false;
                  bytes = w.bytes;
                  parts = rw stopped w.parts;
                  handed_is = w.handed_is;
                  ok_is = rw stopped refl;
                  given_up = λ h. cc;
                },
              )
        | inr neither ↦
            let (c6, ok6, e6, w6, g6) = send_text_command-Goes second c5 short' in
            let w = more (second ∷ []) (ok6 ∷ []) c6 w6 in
            rw (e1, e2, e3, e4, e5, neither, e6)
              (
                c6,
                ok6 || (ok2 || (ok3 || ok4)),
                refl,
                record {
                  first_ok = ok1;
                  clear_itpl_ok = ok2;
                  clear_pb_ok = ok3;
                  clear_jb_ok = ok4;
                  again_ok = ok5;
                  fallback_ok = ok6;
                  bytes = w.bytes;
                  parts = rw neither w.parts;
                  handed_is = w.handed_is;
                  ok_is = rw neither refl;
                  given_up = λ h. ground (arith, g6);
                },
              )
      ]

  -- With fuel for the longest text and every interruption, where pauses put nothing on the connection
  -- and no other thread sends a command meanwhile, the shutdown sequence ends. The stop command, the
  -- three clearing commands and the stop command again have gone out in this order, and after them the
  -- other stop command exactly if neither of the first two went out whole; of a command that failed a
  -- front part has. Nothing else went out. The result is true exactly if some command went out whole,
  -- and if it is false the client has no connection left.
  pub send_shutdown_sequence-ShutDown :
      (halt_first : Bool) (c : Client S)
      → (c' : Client S) × (ok : Bool) × (send_shutdown_sequence posix others fuel halt_first c
          ≡ some (c', ok))
        × ShutDown wire c (shutdown_texts halt_first) c' ok
  unfolding send_shutdown_sequence
  send_shutdown_sequence-ShutDown true c =
      sequence-ShutDown "task stop" "task pause" c (omega arith) (omega arith)
  send_shutdown_sequence-ShutDown false c =
      sequence-ShutDown "task pause" "task stop" c (omega arith) (omega arith)
