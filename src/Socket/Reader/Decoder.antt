-- ===== src/Socket/Reader/Decoder.antt =====
-- The packet format of the data connection in src/rb10_socket_client.cpp, as an automaton that takes
-- one byte at a time: 0x24, the payload's size in two bytes, the packet's type, and the payload.
use rmp_proximity_sensor.Common.{
  ℕ, ◌+◌, ◌-◌, ◌*◌, ◌/◌, ◌%◌, ◌≤◌, ◌<◌, ◌≡◌, ◌≢◌, false, refl, sym, ap, ◌∙◌, ◌||◌, List, [], ◌∷◌,
  ◌++◌, none, some, arith, true, ltb, ◌==◌, length, if◌then◌else◌, append_assoc, All,
}
use rmp_proximity_sensor.Socket.{SystemState}
use rmp_proximity_sensor.Socket.Payload.Layout.{state_of_payload}

-- What the decoder waits for; a payload counts the bytes that are yet to come.
pub data Mode : Type 0 where
  hunting : Mode
  in_header : List ℕ → Mode
  in_payload : ℕ → ℕ → List ℕ → Mode

-- A packet's header tells how to go on.
abbrev pub after_header : ℕ → ℕ → Mode
after_header size packet_type =
    if size == 0 || ltb 4096 size then hunting else in_payload packet_type size []

-- A packet: its type and its payload.
abbrev pub Packet : Type 0
Packet = ℕ × List ℕ

abbrev payload_byte : ℕ → ℕ → List ℕ → ℕ → Mode × List Packet
payload_byte packet_type left payload b =
    if ltb 1 left
    then (in_payload packet_type (left - 1) (payload ++ b ∷ []), [])
    else (hunting, (packet_type, payload ++ b ∷ []) ∷ [])

-- One byte, with the packet that it completes.
abbrev pub feed : Mode → ℕ → Mode × List Packet
feed hunting b = (if b == 0x24 then in_header [] else hunting, [])
feed (in_header []) b = (in_header (b ∷ []), [])
feed (in_header (low ∷ [])) b = (in_header (low ∷ b ∷ []), [])
feed (in_header (low ∷ high ∷ _)) b = (after_header (low + 256 * high) b, [])
feed (in_payload packet_type left payload) b = payload_byte packet_type left payload b

abbrev pub mode_after : Mode → List ℕ → Mode
mode_after m [] = m
mode_after m (b ∷ bs) = mode_after (feed m b).0 bs

-- The packets that a byte sequence completes.
abbrev pub packets : Mode → List ℕ → List Packet
packets m [] = []
packets m (b ∷ bs) = (feed m b).1 ++ packets (feed m b).0 bs

pub packets-append :
    (m : Mode) (xs ys : List ℕ)
    → packets m (xs ++ ys) ≡ packets m xs ++ packets (mode_after m xs) ys
packets-append m [] ys = refl
packets-append m (b ∷ xs) ys =
    ap (λ t. (feed m b).1 ++ t) (packets-append (feed m b).0 xs ys)
    ∙ sym (append_assoc (feed m b).1 (packets (feed m b).0 xs) _)

pub mode_after-append :
    (m : Mode) (xs ys : List ℕ) → mode_after m (xs ++ ys) ≡ mode_after (mode_after m xs) ys
mode_after-append m [] ys = refl
mode_after-append m (b ∷ xs) ys = mode_after-append (feed m b).0 xs ys

-- Part of a payload completes nothing; all of it completes the packet and ends it.
pub packets-in_payload :
    (t left : ℕ) (acc bs : List ℕ)
    → 0 < left
    → length bs ≤ left
    → packets (in_payload t left acc) bs ≡ (if length bs == left then (t, acc ++ bs) ∷ [] else [])
packets-in_payload t left acc [] pos fits = ground arith
packets-in_payload t left acc (b ∷ []) pos fits = ground arith
packets-in_payload t left acc (b ∷ x ∷ bs) pos fits =
    let more : ltb 1 left ≡ true = ground arith in
    rw more (
      packets-in_payload t (left - 1) (acc ++ b ∷ []) (x ∷ bs) (omega arith) (omega arith)
      ∙ ground (arith, append_assoc acc (b ∷ []) (x ∷ bs)))

pub mode_after-in_payload :
    (t left : ℕ) (acc bs : List ℕ)
    → 0 < left
    → length bs ≡ left
    → mode_after (in_payload t left acc) bs ≡ hunting
mode_after-in_payload t left acc [] pos fits = absurd (omega arith)
mode_after-in_payload t left acc (b ∷ []) pos fits = ground arith
mode_after-in_payload t left acc (b ∷ x ∷ bs) pos fits =
    let more : ltb 1 left ≡ true = ground arith in
    rw more
      (mode_after-in_payload t (left - 1) (acc ++ b ∷ []) (x ∷ bs) (omega arith) (omega arith))

-- The states that packets carry: those of type 3 with a payload that is long enough.
abbrev pub state_of_packet : Packet → List SystemState
state_of_packet (t, payload) =
    if t == 3 then elim (state_of_payload payload) [ none ↦ [] | some s ↦ s ∷ [] ] else []

abbrev pub states : List Packet → List SystemState
states [] = []
states (p ∷ ps) = state_of_packet p ++ states ps

pub states-append : (ps qs : List Packet) → states (ps ++ qs) ≡ states ps ++ states qs
states-append [] qs = refl
states-append (p ∷ ps) qs =
    ap (λ t. state_of_packet p ++ t) (states-append ps qs)
    ∙ sym (append_assoc (state_of_packet p) (states ps) (states qs))

-- The bytes of a packet, as the controller box frames it.
abbrev pub frame : Packet → List ℕ
frame (t, payload) = 0x24 ∷ length payload % 256 ∷ length payload / 256 ∷ t ∷ payload

abbrev pub frames : List Packet → List ℕ
frames [] = []
frames (p ∷ ps) = frame p ++ frames ps

-- A payload is not empty, and not longer than the reader takes.
abbrev pub IsPacket : Packet → Type 0
IsPacket (t, payload) = (0 < length payload) × (length payload ≤ 4096)

after_header_frame :
    (t n : ℕ) → 0 < n → n ≤ 4096 → after_header (n % 256 + 256 * (n / 256)) t ≡ in_payload t n []
after_header_frame t n pos fits =
    let e : n % 256 + 256 * (n / 256) ≡ n = omega arith in rw e (ground arith)

packets-frame :
    (p : Packet) (rest : List ℕ)
    → IsPacket p
    → packets hunting (frame p ++ rest) ≡ p ∷ packets hunting rest
packets-frame (t, payload) rest (pos, fits) =
    let full : (length payload == length payload) ≡ true = ground arith in
    rw (after_header_frame t (length payload) pos fits) (
      packets-append (in_payload t (length payload) []) payload rest
      ∙ rw (
        packets-in_payload t (length payload) [] payload pos (omega arith),
        mode_after-in_payload t (length payload) [] payload pos refl,
        full,
      ))

packets-noise :
    (noise rest : List ℕ)
    → All (λ b. b ≢ 0x24) noise
    → packets hunting (noise ++ rest) ≡ packets hunting rest
packets-noise [] rest quiet = refl
packets-noise (b ∷ noise) rest (other, quiet) =
    let miss : (b == 0x24) ≡ false = ground arith in rw miss (packets-noise noise rest quiet)

packets-frames : (ps : List Packet) → All IsPacket ps → packets hunting (frames ps) ≡ ps
packets-frames [] all = refl
packets-frames (p ∷ ps) (ok, all) =
    packets-frame p (frames ps) ok ∙ ap (◌∷◌ p) (packets-frames ps all)

-- Decoding undoes framing: after any noise without a start byte, the decoder gets from a stream of
-- framed packets just these packets, in order, whatever their payloads hold.
pub packets-noise-frames :
    (noise : List ℕ) (ps : List Packet)
    → All (λ b. b ≢ 0x24) noise
    → All IsPacket ps
    → packets hunting (noise ++ frames ps) ≡ ps
packets-noise-frames noise ps quiet all =
    packets-noise noise (frames ps) quiet ∙ packets-frames ps all
