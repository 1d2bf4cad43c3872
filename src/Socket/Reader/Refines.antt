-- ===== src/Socket/Reader/Refines.antt =====
-- src/rb10_socket_client.cpp: the reader thread against the decoder.
use rmp_proximity_sensor.Common.{
  ◌>>=◌, ℕ, zero, suc, ◌<◌, ◌≡◌, refl, sym, ap, ◌∙◌, ◌⊎◌, inl, inr, true, ◌&&◌, String, Option,
  none, some, List, [], ◌∷◌, ◌++◌, arith, ◌==◌, length, length-append, append_assoc, append-nil,
  Bool-cases,
}
use rmp_proximity_sensor.Socket.{Posix, Client}
use rmp_proximity_sensor.Socket.Io.Receive.{
  Stream, Reads, effort, effort-Reads, IsTcp, recv_exact-Fills, Brings, recv_byte-Brings,
}
use rmp_proximity_sensor.Socket.Reader.{
  Round, again, leave, lost, handle_start, read_packet, read_data_loop,
}
use rmp_proximity_sensor.Socket.Reader.Decoder.{
  hunting, feed, mode_after, packets, states, packets-append, states-append,
}
use rmp_proximity_sensor.Socket.Reader.Stages.{
  Took, Took-silent, Took-trans, Stage, Stage-after, lost-Stage, header-Stage,
}

abbrev client_of : {S : Type 0} → Round S → Client S
client_of (again c) = c
client_of (leave c) = c

module _ {S : Type 0} (stream : Stream S) (posix : Posix S) where
  -- A whole round: it takes a byte at least, or it ends the loop.
  abbrev Packeted : Client S → Option (Round S) → Type 0
  Packeted c none = ⊥
  Packeted c (some (again c')) =
      (b : ℕ) × (bs : List ℕ) × Took stream hunting c (b ∷ bs) c'
      × (mode_after hunting (b ∷ bs) ≡ hunting)
  Packeted c (some (leave c')) = Stage stream posix hunting c (some (leave c'))

  Packeted-start :
      (c c' : Client S) (b : ℕ) (r : Option (Round S))
      → Reads stream c (b ∷ []) c'
      → Stage stream posix (feed hunting b).0 c' r
      → Packeted c r
  Packeted-start c c' b none r s = s
  Packeted-start c c' b (some (again c'')) r (bs, t, back) = (
    b,
    bs,
    Took-trans stream hunting c c' c'' (b ∷ []) bs (Took-silent stream hunting c c' (b ∷ []) r refl)
        t,
    back,
  )
  Packeted-start c c' b (some (leave c'')) r s =
      Stage-after stream posix hunting c c' (b ∷ []) (some (leave c'')) r refl s

  -- The loop ended at `c'`. It had taken the bytes `bytes` and delivered the states of the packets
  -- that they complete when its last read returned, at `stopped`; a read that failed may have logged
  -- a line and given the connection up since.
  pub record Ended (c c' : Client S) : Type 0 where
    pub bytes : List ℕ
    pub stopped : Client S
    pub taken : stream.pending c.os ≡ bytes ++ stream.pending stopped.os
    pub delivered_is : c'.delivered ≡ c.delivered ++ states (packets hunting bytes)
    pub ending : (c' ≡ stopped) ⊎ ((line : String) × (leave c' ≡ lost posix line stopped))

  abbrev Ends : Client S → Option (Client S) → Type 0
  Ends c none = ⊥
  Ends c (some c') = Ended c c'

  lost_delivered :
      (line : String) (c c' : Client S) → leave c' ≡ lost posix line c → c'.delivered ≡ c.delivered
  unfolding lost
  lost_delivered line c c' e = ap (λ r. (client_of r).delivered) e ∙ ground arith

  Ends-after :
      (c c' : Client S) (bs : List ℕ) (r : Option (Client S))
      → Took stream hunting c bs c'
      → mode_after hunting bs ≡ hunting
      → Ends c' r
      → Ends c r
  Ends-after c c' bs none t back e = e
  Ends-after c c' bs (some c'') t back e = record {
    bytes = bs ++ e.bytes;
    stopped = e.stopped;
    taken = rw (t.taken, e.taken) (simp append_assoc);
    delivered_is =
        e.delivered_is
        ∙ rw
            (
              t.delivered_is,
              packets-append hunting bs e.bytes,
              back,
              states-append (packets hunting bs) (packets hunting e.bytes),
            )
            (simp append_assoc);
    ending = e.ending;
  }

  module _ (others : Client S → Client S) (tcp : IsTcp posix others stream) (fuel : ℕ) where
    start-Packeted :
        (c : Client S) (r : Option (Client S × Option ℕ))
        → stream.IsData c.data_sock
        → effort stream c < fuel
        → c.state_callback ≡ true
        → Brings stream c r
        → Packeted c (r >>= handle_start posix others fuel)
    unfolding handle_start
    start-Packeted c none d enough on f = f
    start-Packeted c (some (c', none)) d enough on reads =
        lost-Stage stream posix hunting c c' [] _ reads refl
    start-Packeted c (some (c', some b)) d enough on reads =
        let down = effort-Reads stream c c' (b ∷ []) reads in
        elim (Bool-cases (b == 0x24)) [
          | inl start ↦ rw start (
              Packeted-start c c' b _ reads (
                rw start (
                  header-Stage stream posix others tcp fuel c' _ (reads.is_data d) (omega arith)
                    (reads.callback_same ∙ on)
                    (recv_exact-Fills stream posix others tcp fuel c' c'.data_sock 3 []
                      (reads.is_data d) (omega arith) (omega arith)))))
          | inr noise ↦
              rw noise (b, [], Took-silent stream hunting c c' (b ∷ []) reads refl, rw noise)
        ]

    read_packet-Packeted :
        (c : Client S)
        → stream.IsData c.data_sock
        → effort stream c < fuel
        → c.state_callback ≡ true
        → Packeted c (read_packet posix others fuel c)
    unfolding read_packet
    read_packet-Packeted c d enough on =
        start-Packeted c _ d enough on
          (recv_byte-Brings stream posix others tcp fuel c c.data_sock d enough)

    round-Ends :
        (rounds : ℕ) (c : Client S) (r : Option (Round S))
        → Packeted c r
        → ((c' : Client S)
            → effort stream c' < effort stream c
            → (stream.IsData c.data_sock → stream.IsData c'.data_sock)
            → c'.state_callback ≡ c.state_callback
            → Ends c' (read_data_loop posix others fuel rounds c'))
        → Ends c (elim r [
          | none ↦ none
          | some (leave c') ↦ some c'
          | some (again c') ↦ read_data_loop posix others fuel rounds c'
        ])
    round-Ends rounds c none p next = p
    round-Ends rounds c (some (again c')) (b, bs, t, back) next =
        Ends-after c c' (b ∷ bs) _ t back (
          next c'
            (omega
              (arith, t.calmer, ap length t.taken, length-append (b ∷ bs) (stream.pending c'.os)))
            t.is_data t.callback_same)
    round-Ends rounds c (some (leave c')) (bs, c1, t, line, l) next = record {
      bytes = bs;
      stopped = c1;
      taken = t.taken;
      delivered_is = lost_delivered line c1 c' l ∙ t.delivered_is;
      ending = inr (line, l);
    }

    loop-Ends :
        (rounds : ℕ) (c : Client S)
        → stream.IsData c.data_sock
        → effort stream c < fuel
        → effort stream c < rounds
        → c.state_callback ≡ true
        → Ends c (read_data_loop posix others fuel rounds c)
    unfolding read_data_loop
    loop-Ends zero c d enough more on = elim more [ ]
    loop-Ends (suc rounds) c d enough more on = elim (Bool-cases (c.running && c.connected)) [
      | inr stop ↦
          rw (stop, read_data_loop)
            (record {
              bytes = [];
              stopped = c;
              taken = refl;
              delivered_is = sym (append-nil c.delivered);
              ending = inl refl;
            })
      | inl go ↦
          rw (go, read_data_loop)
            (round-Ends rounds c (read_packet posix others fuel c)
              (read_packet-Packeted c d enough on)
              λ c' less data_kept callback_kept.
                loop-Ends rounds c' (data_kept d) (omega arith) (omega arith) (callback_kept ∙ on))
    ]

    -- With fuel for every byte that is still to come and every interruption, the reader thread ends.
    -- However the connection cuts the bytes into pieces and whatever the other threads do meanwhile,
    -- the states delivered are exactly those of the packets that the decoder finds in the bytes that
    -- were taken off the connection, in order.
    pub read_data_loop-Ended :
        (rounds : ℕ) (c : Client S)
        → stream.IsData c.data_sock
        → effort stream c < fuel
        → effort stream c < rounds
        → c.state_callback ≡ true
        → (c' : Client S) × (read_data_loop posix others fuel rounds c ≡ some c') × Ended c c'
    read_data_loop-Ended rounds c d enough more on =
        Ends-some (read_data_loop posix others fuel rounds c) (loop-Ends rounds c d enough more on)
      where
        Ends-some :
            (r : Option (Client S)) → Ends c r → (c' : Client S) × (r ≡ some c') × Ended c c'
        Ends-some none e = absurd e
        Ends-some (some c') e = (c', refl, e)
