-- ===== src/Socket/Reader/Stages.antt =====
-- src/rb10_socket_client.cpp: the reads of one round of `read_data_loop`, each against the decoder in
-- the mode that it starts in.
use rmp_proximity_sensor.Common.{
  ◌>>=◌, ℕ, ◌+◌, ◌*◌, ◌≤◌, ◌<◌, ◌≡◌, refl, sym, ap, ◌∙◌, inl, inr, Bool, true, false, String,
  Option, none, some, List, [], ◌∷◌, ◌++◌, arith, ltb, ◌==◌, ◌||◌, length, append_assoc, append-nil,
  Bool-cases, Option-cases,
}
use rmp_proximity_sensor.Socket.{Posix, Client, SystemState}
use rmp_proximity_sensor.Socket.Io.Receive.{
  Stream, Reads, effort, effort-Reads, IsTcp, Fills, recv_exact-Fills,
}
use rmp_proximity_sensor.Socket.Payload.Layout.{
  state_of_payload, warned_by, warned_by_keeps, parse_state_payload_total,
}
use rmp_proximity_sensor.Socket.Reader.{
  Round, again, leave, lost, deliver, handle_parsed, handle_payload, handle_header,
}
use rmp_proximity_sensor.Socket.Reader.Decoder.{
  Mode, hunting, in_header, in_payload, mode_after, packets, states, packets-append,
  mode_after-append, packets-in_payload, mode_after-in_payload, states-append,
}

module _ {S : Type 0} (stream : Stream S) where
  -- From `c` to `c'` the bytes `bs` were taken off the stream, and the states in them delivered, for
  -- a decoder that was in mode `m`.
  pub record Took (m : Mode) (c : Client S) (bs : List ℕ) (c' : Client S) : Type 0 where
    pub taken : stream.pending c.os ≡ bs ++ stream.pending c'.os
    pub calmer : stream.patience c'.os ≤ stream.patience c.os
    pub delivered_is : c'.delivered ≡ c.delivered ++ states (packets m bs)
    pub callback_same : c'.state_callback ≡ c.state_callback
    pub is_data : stream.IsData c.data_sock → stream.IsData c'.data_sock

  pub Took-silent :
      (m : Mode) (c c' : Client S) (bs : List ℕ)
      → Reads stream c bs c'
      → packets m bs ≡ []
      → Took m c bs c'
  Took-silent m c c' bs r e = record {
    taken = r.taken;
    calmer = r.calmer;
    delivered_is = rw e (r.delivered_same ∙ sym (append-nil c.delivered));
    callback_same = r.callback_same;
    is_data = r.is_data;
  }

  pub Took-trans :
      (m : Mode) (c c' c'' : Client S) (bs bs' : List ℕ)
      → Took m c bs c'
      → Took (mode_after m bs) c' bs' c''
      → Took m c (bs ++ bs') c''
  Took-trans m c c' c'' bs bs' r r' = record {
    taken = rw (r.taken, r'.taken) (simp append_assoc);
    calmer = omega arith;
    delivered_is =
        rw
          (
            r'.delivered_is,
            r.delivered_is,
            packets-append m bs bs',
            states-append (packets m bs) (packets (mode_after m bs) bs'),
          )
          (simp append_assoc);
    callback_same = cc;
    is_data = λ d. r'.is_data (r.is_data d);
  }

  -- The last steps of a round touch neither the system nor the descriptors.
  Took-last :
      (m : Mode) (c c' c'' : Client S) (bs : List ℕ)
      → Reads stream c bs c'
      → c''.os ≡ c'.os
      → c''.delivered ≡ c'.delivered ++ states (packets m bs)
      → c''.state_callback ≡ c'.state_callback
      → c''.data_sock ≡ c'.data_sock
      → Took m c bs c''
  Took-last m c c' c'' bs r os_same delivered_more callback_same sock_same = record {
    taken = rw os_same r.taken;
    calmer = rw os_same r.calmer;
    delivered_is = delivered_more ∙ ap (λ d. d ++ states (packets m bs)) r.delivered_same;
    callback_same = callback_same ∙ r.callback_same;
    is_data = λ d. rw sock_same (r.is_data d);
  }

  deliver_keeps :
      (s : SystemState) (c : Client S)
      → c.state_callback ≡ true
      → ((deliver s c).os ≡ c.os)
        × ((deliver s c).delivered ≡ c.delivered ++ s ∷ [])
        × ((deliver s c).state_callback ≡ c.state_callback)
        × ((deliver s c).data_sock ≡ c.data_sock)
  unfolding deliver
  deliver_keeps s c on = ground arith

  module _ (posix : Posix S) where
    -- How a round that began in mode `m` ends: with the decoder hunting again, or with the line that
    -- the failed read logs. It neither runs out of fuel nor faults.
    abbrev pub Stage : Mode → Client S → Option (Round S) → Type 0
    Stage m c none = ⊥
    Stage m c (some (again c')) = (bs : List ℕ) × Took m c bs c' × (mode_after m bs ≡ hunting)
    Stage m c (some (leave c')) =
        (bs : List ℕ) × (c1 : Client S) × Took m c bs c1
        × (line : String) × (leave c' ≡ lost posix line c1)

    pub Stage-after :
        (m : Mode) (c c' : Client S) (bs : List ℕ) (r : Option (Round S))
        → Reads stream c bs c'
        → packets m bs ≡ []
        → Stage (mode_after m bs) c' r
        → Stage m c r
    Stage-after m c c' bs none r e s = s
    Stage-after m c c' bs (some (again c'')) r e (more, t, back) = (
      bs ++ more,
      Took-trans m c c' c'' bs more (Took-silent m c c' bs r e) t,
      mode_after-append m bs more ∙ back,
    )
    Stage-after m c c' bs (some (leave c'')) r e (more, c1, t, line, l) =
        (bs ++ more, c1, Took-trans m c c' c1 bs more (Took-silent m c c' bs r e) t, line, l)

    -- A read that failed with the decoder in mode `m'`.
    pub lost-Stage :
        (m : Mode) (c c' : Client S) (bs : List ℕ) (line : String)
        → Reads stream c bs c'
        → packets m bs ≡ []
        → Stage m c (some (lost posix line c'))
    unfolding lost
    lost-Stage m c c' bs line r e = (bs, c', Took-silent m c c' bs r e, line, refl)

    Fills-nil :
        (c c' : Client S) (len : ℕ) (ok : Bool) (full : List ℕ)
        → Fills stream c len [] (some (c', ok, full))
        → Reads stream c full c' × (length full ≤ len) × (ok ≡ (length full == len))
    Fills-nil c c' len ok full (bs, e, reads, fits, done) = (rw e reads, fits, done)

    -- A packet that is complete.
    packet-Stage :
        (m : Mode) (t : ℕ) (c c' : Client S) (bs : List ℕ)
        → c'.state_callback ≡ true
        → Reads stream c bs c'
        → packets m bs ≡ (t, bs) ∷ []
        → mode_after m bs ≡ hunting
        → Stage m c (handle_payload posix t (c', true, bs))
    unfolding handle_payload handle_parsed
    packet-Stage m t c c' bs on r e back =
        let (os_same, delivered_same, callback_same, sock_same) = warned_by_keeps bs c' in
        elim (Bool-cases (t == 3)) [
          | inr other ↦ rw other (
            bs,
            Took-last m c c' c' bs r refl (rw (e, other) (sym (append-nil c'.delivered))) refl refl,
            back,
          )
          | inl state ↦ elim (Option-cases (state_of_payload bs)) [
            | inl short ↦
                rw (state, parse_state_payload_total bs c', short)
                  (
                    bs,
                    Took-last m c c' (warned_by bs c') bs r os_same
                        (delivered_same ∙ rw (e, state, short) (sym (append-nil c'.delivered)))
                        callback_same sock_same,
                    back,
                  )
            | inr (s, long) ↦
                let (os2, delivered2, callback2, sock2) =
                  deliver_keeps s (warned_by bs c') (callback_same ∙ on) in
                rw (state, parse_state_payload_total bs c', long)
                  (
                    bs,
                    Took-last m c c' (deliver s (warned_by bs c')) bs r (os2 ∙ os_same)
                        (delivered2 ∙ rw (e, state, long) (ap (λ d. d ++ s ∷ []) delivered_same))
                        (callback2 ∙ callback_same) (sock2 ∙ sock_same),
                    back,
                  )
          ]
        ]

    payload-Stage :
        (t size : ℕ) (c : Client S) (r : Option (Client S × Bool × List ℕ))
        → 0 < size
        → c.state_callback ≡ true
        → Fills stream c size [] r
        → Stage (in_payload t size []) c (r >>= handle_payload posix t)
    unfolding handle_payload
    payload-Stage t size c none pos on f = f
    payload-Stage t size c (some (c', false, full)) pos on f =
        let (reads, fits, done) = Fills-nil c c' size false full f in
        let part : (length full == size) ≡ false = sym done in
        lost-Stage (in_payload t size []) c c' full _ reads
          (packets-in_payload t size [] full pos fits ∙ rw part)
    payload-Stage t size c (some (c', true, full)) pos on f =
        let (reads, fits, done) = Fills-nil c c' size true full f in
        let all : (length full == size) ≡ true = sym done in
        packet-Stage (in_payload t size []) t c c' full (reads.callback_same ∙ on) reads
          (packets-in_payload t size [] full pos fits ∙ rw all)
          (mode_after-in_payload t size [] full pos (ground arith))

    packets-part_header : (bs : List ℕ) → length bs < 3 → packets (in_header []) bs ≡ []
    packets-part_header [] h = refl
    packets-part_header (a ∷ []) h = refl
    packets-part_header (a ∷ b ∷ []) h = refl
    packets-part_header (a ∷ b ∷ t ∷ bs) h = absurd (omega arith)

    module _ (others : Client S → Client S) (tcp : IsTcp posix others stream) where
      pub header-Stage :
          (fuel : ℕ) (c : Client S) (r : Option (Client S × Bool × List ℕ))
          → stream.IsData c.data_sock
          → effort stream c < fuel
          → c.state_callback ≡ true
          → Fills stream c 3 [] r
          → Stage (in_header []) c (r >>= handle_header posix others fuel)
      unfolding handle_header
      header-Stage fuel c none d enough on f = f
      header-Stage fuel c (some (c', false, full)) d enough on f =
          let (reads, fits, done) = Fills-nil c c' 3 false full f in
          lost-Stage (in_header []) c c' full _ reads (packets-part_header full (ground arith))
      header-Stage fuel c (some (c', true, [])) d enough on f = absurd (ground arith)
      header-Stage fuel c (some (c', true, a ∷ [])) d enough on f = absurd (ground arith)
      header-Stage fuel c (some (c', true, a ∷ b ∷ [])) d enough on f = absurd (ground arith)
      header-Stage fuel c (some (c', true, a ∷ b ∷ t ∷ x ∷ xs)) d enough on f =
          let (reads, fits, done) = Fills-nil c c' 3 true (a ∷ b ∷ t ∷ x ∷ xs) f in
          absurd (omega arith)
      header-Stage fuel c (some (c', true, a ∷ b ∷ t ∷ [])) d enough on f =
          let tail : List ℕ = a ∷ b ∷ t ∷ [] in
          let (reads, fits, done) = Fills-nil c c' 3 true tail f in
          let size = a + 256 * b in
          elim (Bool-cases (size == 0 || ltb 4096 size)) [
            | inl bad ↦ rw bad (tail, Took-silent (in_header []) c c' tail reads refl, rw bad)
            | inr good ↦ rw good (
                Stage-after (in_header []) c c' tail _ reads refl (
                  rw good (
                    payload-Stage t size c' _ (ground arith) (reads.callback_same ∙ on) (
                      recv_exact-Fills stream posix others tcp fuel c' c'.data_sock size []
                        (reads.is_data d) (omega arith)
                        (omega (arith, effort-Reads stream c c' tail reads))))))
          ]
