-- ===== src/Socket/Tests.antt =====
-- src/rb10_socket_client.cpp: the theorems at a small system, whose peer sends what it has in pieces of
-- at most two bytes, takes at most three bytes at a time, and interrupts some calls.
use Prim.Native.Nat.{min}
use rmp_proximity_sensor.Common.{
  ℕ, ◌+◌, ◌-◌, ◌≡◌, refl, Bool, true, false, Option, none, some, List, [], ◌∷◌, ◌++◌, arith, ltb,
  length, get_or, ◌*◌, ◌≤◌, take, drop, replicate, if◌then◌else◌, codes, take-append-drop,
  length-take, ◌≢◌, ◌↔◌,
}
use rmp_proximity_sensor.Socket.{
  Posix, Client, SystemState, Fd, eintr, RecvResult, received, failed, SendResult, sent, refused,
}
use rmp_proximity_sensor.Socket.Io.{recv_exact, send_all}
use rmp_proximity_sensor.Socket.Io.Receive.{Stream, IsTcp, Fills, recv_exact-Fills}
use rmp_proximity_sensor.Socket.Io.Send.{Wire, IsWritable, Sends, send_all-Sends}
use rmp_proximity_sensor.Socket.Payload.{parse_state_payload}
use rmp_proximity_sensor.Socket.Payload.Layout.{
  encode, state_of_words, parse_state_payload-encode, parse_state_payload_in_bounds,
}
use rmp_proximity_sensor.Socket.Reader.{read_data_loop}
use rmp_proximity_sensor.Socket.Reader.Decoder.{Packet, frames, states}
use rmp_proximity_sensor.Socket.Reader.Refines.{Ended, read_data_loop-Ended}
use rmp_proximity_sensor.Socket.Reader.Frames.{read_data_loop-frames}
use rmp_proximity_sensor.Socket.Connection.{connect}
use rmp_proximity_sensor.Socket.Connection.Descriptors.{
  CountsOpen, Balanced, owned, connect-Balanced,
}
use rmp_proximity_sensor.Socket.Command.{
  Others, send_text_command, send_servoj_degrees, send_shutdown_sequence,
}
use rmp_proximity_sensor.Socket.Command.Wire.{KeepsWire, SentText, send_text_command-SentText}
use rmp_proximity_sensor.Socket.Command.Shutdown.{Undisturbed, ShutDown, shutdown_texts}
use rmp_proximity_sensor.Socket.Command.Shutdown.Sends.{send_shutdown_sequence-ShutDown}
use rmp_proximity_sensor.Socket.Command.Handshake.{ServoOutcome, send_servoj_degrees-ServoOutcome}

record Peer : Type 0 where
  incoming : List ℕ
  interrupts : ℕ
  outgoing : List ℕ
  open_fds : ℕ

abbrev peer_recv : Peer → Fd → ℕ → Peer × RecvResult
peer_recv p fd n =
    if ltb 0 p.interrupts
    then (record p { interrupts = p.interrupts - 1 }, failed eintr)
    else (record p { incoming = drop (min n 2) p.incoming }, received (take (min n 2) p.incoming))

abbrev peer_send : Peer → Fd → List ℕ → Peer × SendResult
peer_send p fd bytes =
    if ltb 0 p.interrupts then (record p { interrupts = p.interrupts - 1 }, refused eintr) else (
      record p { outgoing = p.outgoing ++ take (min (length bytes) 3) bytes },
      sent (min (length bytes) 3),
    )

abbrev peer_close : Peer → Fd → Peer
peer_close p none = p
peer_close p (some fd) = record p { open_fds = p.open_fds - 1 }

abbrev posix : Posix Peer
posix = record {
  socket = λ p. (record p { open_fds = p.open_fds + 1 }, some p.open_fds);
  inet_pton = λ ip. true;
  connect = λ p fd ip port. (p, true);
  recv = peer_recv;
  send = peer_send;
  shutdown = λ p fd. p;
  close = peer_close;
  sleep_ms = λ p ms. p;
}

abbrev stay : Client Peer → Client Peer
stay c = c

abbrev stream : Stream Peer
stream = record { pending = λ p. p.incoming; patience = λ p. p.interrupts; IsData = λ fd. Unit }

abbrev wire : Wire Peer
wire = record { handed = λ p. p.outgoing; patience = λ p. p.interrupts }

peer-IsTcp : IsTcp posix stay stream
peer-IsTcp = record {
  recv_received = λ c fd n bs d e. (
    ground (arith, length-take (min n 2) c.os.incoming),
    record {
      taken = ground (arith, take-append-drop (min n 2) c.os.incoming);
      calmer = ground arith;
      delivered_same = refl;
      callback_same = refl;
      is_data = λ u. u;
    },
  );
  recv_failed = λ c fd n e d r. record {
    taken = ground arith;
    calmer = ground arith;
    delivered_same = refl;
    callback_same = refl;
    is_data = λ u. u;
  };
  recv_retry = λ c fd n e d r again. ground arith;
}

peer-IsWritable : (fd : Fd) → IsWritable posix stay wire fd
peer-IsWritable fd = record {
  send_sent = λ c bytes k e. ground arith;
  send_refused = λ c bytes e r. ground arith;
  send_retry = λ c bytes e r again. ground arith;
}

peer-KeepsWire : KeepsWire posix wire
peer-KeepsWire = record { shutdown_keeps = λ os fd. refl; close_keeps = λ os fd. closed os fd }
  where
    closed : (os : Peer) (fd : Fd) → wire.handed (peer_close os fd) ≡ wire.handed os
    closed os none = refl
    closed os (some fd) = refl

peer-CountsOpen : CountsOpen posix (λ p. p.open_fds)
peer-CountsOpen = record {
  socket_opens = λ os. refl;
  close_closes = λ os fd. refl;
  shutdown_keeps = λ os fd. refl;
  connect_keeps = λ os fd ip port. refl;
}

-- A connected client whose peer has these bytes to send, and two interruptions in store.
abbrev online : List ℕ → Client Peer
online bytes = record {
  os = record { incoming = bytes; interrupts = 2; outgoing = []; open_fds = 2 };
  running = true;
  connected = true;
  threads_joinable = true;
  cmd_sock = some 0;
  data_sock = some 1;
  servo_command_response_pending = false;
  warned_invalid_self_collision_word = false;
  log_callback = true;
  state_callback = true;
  logged = [];
  delivered = [];
}

abbrev others : Others Peer
others = record { blocked = stay; unlocked = stay; responded = stay }

recv_exact-Fills_example :
    Fills stream
      (online (1 ∷ 2 ∷ 3 ∷ 4 ∷ []))
      3
      []
      (recv_exact posix stay 20 (online (1 ∷ 2 ∷ 3 ∷ 4 ∷ [])) (some 1) 3 [])
recv_exact-Fills_example =
    recv_exact-Fills stream posix stay peer-IsTcp 20 (online (1 ∷ 2 ∷ 3 ∷ 4 ∷ [])) (some 1) 3 [] tt
      (omega arith) (omega arith)

send_all-Sends_example :
    Sends wire
      (online [])
      (codes "reqdata")
      (send_all posix stay 20 (online []) (some 1) (codes "reqdata"))
send_all-Sends_example =
    send_all-Sends wire posix stay (some 1) (peer-IsWritable (some 1)) 20 (online [])
      (codes "reqdata") (omega arith)

-- A packet of type 3 whose words are all 0 but the last flags, behind some noise.
abbrev words : List ℕ
words = replicate 112 0 ++ 7 ∷ 1 ∷ replicate 13 0

parse_state_payload-encode_example :
    (c' : Client Peer) × (parse_state_payload (encode words) (online [])
      ≡ some (c', some (state_of_words (λ i. get_or words i 0))))
parse_state_payload-encode_example =
    parse_state_payload-encode words (online []) (omega arith) (omega arith)

parse_state_payload_in_bounds_example :
    (c' : Client Peer) × (o : Option SystemState) × (parse_state_payload (1 ∷ []) (online [])
      ≡ some (c', o))
    × (o ≢ none ↔ 127 * 4 ≤ 1)
parse_state_payload_in_bounds_example = parse_state_payload_in_bounds (1 ∷ []) (online [])

abbrev two_packets : List Packet
two_packets = (3, 0x24 ∷ 9 ∷ []) ∷ (1, 5 ∷ []) ∷ []

read_data_loop-Ended_example :
    (c' : Client Peer) × (read_data_loop posix stay 30 30 (online (1 ∷ frames two_packets))
      ≡ some c')
    × Ended stream posix (online (1 ∷ frames two_packets)) c'
read_data_loop-Ended_example =
    read_data_loop-Ended stream posix stay peer-IsTcp 30 30 (online (1 ∷ frames two_packets)) tt
      (omega arith) (omega arith) refl

read_data_loop-frames_example :
    (c' : Client Peer) × (read_data_loop posix stay 30 30 (online (1 ∷ frames two_packets))
      ≡ some c')
    × (r : Ended stream posix (online (1 ∷ frames two_packets)) c') × (later : List SystemState)
    × (c'.delivered ++ later ≡ states two_packets)
    × (stream.pending r.stopped.os ≡ [] → later ≡ [])
read_data_loop-frames_example =
    read_data_loop-frames stream posix stay peer-IsTcp 30 30 (online (1 ∷ frames two_packets))
      (1 ∷ []) two_packets tt (omega arith) (omega arith) refl refl (ground arith) (omega arith)

connect-Balanced_example :
    let (c', ok) = connect posix stay "192.168.111.50" true true (online []) in
    Balanced (λ (p : Peer). p.open_fds) (online []) c'
    × (owned c' ≡ (if ok then 2 else 0))
    × (c'.connected ≡ ok)
    × (ok ≡ true → c'.running ≡ true)
connect-Balanced_example =
    connect-Balanced (λ p. p.open_fds) posix peer-CountsOpen stay (λ c h. refl) "192.168.111.50"
      true true (online []) (omega arith)

send_text_command-SentText_example :
    (c' : Client Peer) × (ok : Bool) × (send_text_command posix others 30
        (codes "task stop")
        (online [])
      ≡ some (c', ok))
    × SentText wire (online []) (codes "task stop ") c' ok
send_text_command-SentText_example =
    send_text_command-SentText posix wire peer-KeepsWire others 30 (codes "task stop") (online [])
      (peer-IsWritable (some 0)) refl (omega arith)

send_servoj_degrees-ServoOutcome_example :
    (c' : Client Peer) × (ok : Bool) × (send_servoj_degrees posix others 30
        (codes "servo")
        (online [])
      ≡ some (c', ok))
    × ServoOutcome posix wire others (online []) (codes "servo") c' ok
send_servoj_degrees-ServoOutcome_example =
    send_servoj_degrees-ServoOutcome posix wire others peer-KeepsWire 30 (codes "servo") (online [])
      (peer-IsWritable (some 0)) (omega arith)

-- The same system without interruptions.
abbrev calm : Posix Peer
calm = record posix {
  send = λ p fd bytes. (
    record p { outgoing = p.outgoing ++ take (min (length bytes) 3) bytes },
    sent (min (length bytes) 3),
  );
}

abbrev calm_wire : Wire Peer
calm_wire = record { handed = λ p. p.outgoing; patience = λ p. 0 }

calm-IsWritable : (fd : Fd) → IsWritable calm stay calm_wire fd
calm-IsWritable fd = record {
  send_sent = λ c bytes k e. ground arith;
  send_refused = λ c bytes e r. ground arith;
  send_retry = λ c bytes e r again. ground arith;
}

calm-KeepsWire : KeepsWire calm calm_wire
calm-KeepsWire = record {
  shutdown_keeps = λ os fd. refl;
  close_keeps = λ os fd. peer-KeepsWire.close_keeps os fd;
}

calm-Undisturbed : Undisturbed calm calm_wire others
calm-Undisturbed = record {
  sleep_keeps = λ os ms. refl;
  blocked_keeps = λ c. refl;
  unlocked_keeps = λ c. refl;
}

send_shutdown_sequence-ShutDown_example :
    (c' : Client Peer) × (ok : Bool) × (send_shutdown_sequence calm others 30 true (online [])
      ≡ some (c', ok))
    × ShutDown calm_wire (online []) (shutdown_texts true) c' ok
send_shutdown_sequence-ShutDown_example =
    send_shutdown_sequence-ShutDown calm calm_wire calm-KeepsWire others calm-Undisturbed 30
      calm-IsWritable (λ os. omega arith) true (online [])
