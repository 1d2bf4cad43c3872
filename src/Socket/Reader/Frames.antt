-- ===== src/Socket/Reader/Frames.antt =====
-- src/rb10_socket_client.cpp: the reader thread on a connection that carries framed packets.
use rmp_proximity_sensor.Common.{
  ℕ, ◌<◌, ◌≡◌, ◌≢◌, refl, sym, ap, ◌∙◌, true, some, List, [], ◌++◌, append_assoc, All,
}
use rmp_proximity_sensor.Socket.{Posix, Client, SystemState}
use rmp_proximity_sensor.Socket.Io.Receive.{Stream, effort, IsTcp}
use rmp_proximity_sensor.Socket.Reader.{read_data_loop}
use rmp_proximity_sensor.Socket.Reader.Decoder.{
  Packet, IsPacket, hunting, mode_after, packets, states, frames, packets-append, states-append,
  packets-noise-frames,
}
use rmp_proximity_sensor.Socket.Reader.Refines.{Ended, read_data_loop-Ended}

module _ {S : Type 0} (stream : Stream S) (posix : Posix S) (others : Client S → Client S)
    (tcp : IsTcp posix others stream) where
  -- A connection that holds framed packets behind noise without a start byte, and a reader with fuel
  -- for every byte and every interruption: it ends, and what it delivered is a front part of the
  -- states that the packets carry, in their order. It is all of them if no byte was left when the
  -- reader stopped.
  pub read_data_loop-frames :
      (fuel rounds : ℕ) (c : Client S) (noise : List ℕ) (ps : List Packet)
      → stream.IsData c.data_sock
      → effort stream c < fuel
      → effort stream c < rounds
      → c.state_callback ≡ true
      → stream.pending c.os ≡ noise ++ frames ps
      → All (λ b. b ≢ 0x24) noise
      → All IsPacket ps
      → (c' : Client S) × (read_data_loop posix others fuel rounds c ≡ some c')
        × (r : Ended stream posix c c') × (later : List SystemState) × (c'.delivered ++ later
            ≡ c.delivered ++ states ps)
        × (stream.pending r.stopped.os ≡ [] → later ≡ [])
  read_data_loop-frames fuel rounds c noise ps d enough more on holds quiet all =
      let (c', e, r) =
        read_data_loop-Ended stream posix others tcp fuel rounds c d enough more on in
      let rest = stream.pending r.stopped.os in
      let later = packets (mode_after hunting r.bytes) rest in
      let all_packets : packets hunting r.bytes ++ later ≡ ps =
        sym (packets-append hunting r.bytes rest)
        ∙ ap (packets hunting) (sym r.taken ∙ holds)
        ∙ packets-noise-frames noise ps quiet all in
      (
        c',
        e,
        r,
        states later,
        rw r.delivered_is (
            append_assoc c.delivered (states (packets hunting r.bytes)) (states later)
            ∙ ap (λ t. c.delivered ++ t)
                (sym (states-append (packets hunting r.bytes) later) ∙ ap states all_packets)),
        λ empty. rw empty refl,
      )
