-- ===== src/Socket/Payload/Layout.antt =====
-- src/rb10_socket_client.cpp: `parse_state_payload` never reads outside the payload, and takes each
-- member from its word of the packet.
use rmp_proximity_sensor.Common.{
  ℕ, zero, suc, ◌+◌, ◌*◌, ◌^◌, ◌≤◌, ◌<◌, ◌≡◌, refl, Option, none, some, List, [], ◌∷◌, arith,
  length, get_or, drop, ◌==◌, ltb, ◌≢◌, ◌↔◌, fun_ext, ap, ◌∙◌, inl, inr, Bool-cases, false, All,
  length-drop, if◌then◌else◌,
}
use rmp_proximity_sensor.Common.Words.{pos, signed32, byte0, byte1, byte2, byte3, of_bytes-bytes}
use rmp_proximity_sensor.Socket.{Client, SystemState}
use rmp_proximity_sensor.Socket.Payload.{
  first_word, read_float, read_int, read_floats, read_state, is_boolean, parse_state_payload,
  warn_self_collision,
}

-- The packet that carries these words.
pub encode : List ℕ → List ℕ
encode [] = []
encode (w ∷ ws) = byte0 w ∷ byte1 w ∷ byte2 w ∷ byte3 w ∷ encode ws

pub length-encode : (ws : List ℕ) → length (encode ws) ≡ length ws * 4
unfolding encode
length-encode [] = refl
length-encode (w ∷ ws) = omega (arith, length-encode ws)

abbrev pub IsWord : ℕ → Type 0
IsWord w = w < 2 ^ 32

-- The number in word `i` of a packet; 0 where there is none.
abbrev word_or : Option ℕ → ℕ
word_or none = 0
word_or (some w) = w

pub word : List ℕ → ℕ → ℕ
unfolding read_float
word payload i = word_or (read_float payload i)

first_word_long :
    (bytes : List ℕ) → 4 ≤ length bytes → first_word bytes ≡ some (word_or (first_word bytes))
first_word_long (b0 ∷ b1 ∷ b2 ∷ b3 ∷ bytes) h = refl
first_word_long [] h = absurd (omega arith)
first_word_long (b0 ∷ []) h = absurd (omega arith)
first_word_long (b0 ∷ b1 ∷ []) h = absurd (omega arith)
first_word_long (b0 ∷ b1 ∷ b2 ∷ []) h = absurd (omega arith)

read_float_long :
    (payload : List ℕ) (i : ℕ)
    → i * 4 + 4 ≤ length payload
    → read_float payload i ≡ some (word payload i)
unfolding read_float word
read_float_long payload i h =
    first_word_long (drop (i * 4) payload) (omega (arith, length-drop (i * 4) payload))

word-encode : (ws : List ℕ) (i : ℕ) → All IsWord ws → word (encode ws) i ≡ get_or ws i 0
unfolding encode word read_float
word-encode [] zero words = refl
word-encode [] (suc i) words = let e : suc i * 4 ≡ suc (i * 4 + 3) = omega arith in rw e
word-encode (w ∷ ws) zero words = of_bytes-bytes w words.0
word-encode (w ∷ ws) (suc i) words =
    let e : suc i * 4 ≡ suc (suc (suc (suc (i * 4)))) = omega arith in
    rw e (word-encode ws i words.1)

-- The members of the state by the numbers of their words.
abbrev pub state_of_words : (ℕ → ℕ) → SystemState
state_of_words at = record {
  controller_time_sec = at 0;
  joint_ref_deg = at 1 ∷ at 2 ∷ at 3 ∷ at 4 ∷ at 5 ∷ at 6 ∷ [];
  joint_ang_deg = at 7 ∷ at 8 ∷ at 9 ∷ at 10 ∷ at 11 ∷ at 12 ∷ [];
  robot_state = signed32 (at 84);
  power_state = signed32 (at 85);
  program_mode = signed32 (at 100);
  collision_detect_onoff = signed32 (at 98);
  init_state_info = signed32 (at 101);
  init_error = signed32 (at 102);
  op_stat_collision_occur = signed32 (at 110);
  op_stat_sos_flag = signed32 (at 111);
  op_stat_self_collision = if at 112 == 1 then pos 1 else pos 0;
  op_stat_soft_estop_occur = signed32 (at 113);
  op_stat_ems_flag = signed32 (at 114);
}

boolean_word :
    (w : ℕ)
    → (if is_boolean (signed32 w) then signed32 w else pos 0) ≡ (if w == 1 then pos 1 else pos 0)
boolean_word w = ground arith

read_state_long :
    (payload : List ℕ)
    → 508 ≤ length payload
    → read_state payload ≡ some (state_of_words (word payload), signed32 (word payload 112))
unfolding read_state read_int read_floats
read_state_long payload long =
    let at : (i : ℕ) → i < 127 → read_float payload i ≡ some (word payload i) =
      λ i h. read_float_long payload i (omega arith) in
    rw (
      at 0 (omega arith),
      at 1 (omega arith),
      at 2 (omega arith),
      at 3 (omega arith),
      at 4 (omega arith),
      at 5 (omega arith),
      at 6 (omega arith),
      at 7 (omega arith),
      at 8 (omega arith),
      at 9 (omega arith),
      at 10 (omega arith),
      at 11 (omega arith),
      at 12 (omega arith),
      at 84 (omega arith),
      at 85 (omega arith),
      at 98 (omega arith),
      at 100 (omega arith),
      at 101 (omega arith),
      at 102 (omega arith),
      at 110 (omega arith),
      at 111 (omega arith),
      at 112 (omega arith),
      at 113 (omega arith),
      at 114 (omega arith),
      boolean_word (word payload 112),
    )

-- The state that a payload carries.
pub state_of_payload : List ℕ → Option SystemState
state_of_payload payload =
    if ltb (length payload) 508 then none else some (state_of_words (word payload))

-- The client after the parser has looked at a payload.
pub warned_by : {S : Type 0} → List ℕ → Client S → Client S
warned_by payload c =
    if ltb (length payload) 508 then c else warn_self_collision (signed32 (word payload 112)) c

pub parse_state_payload_total :
    {S : Type 0} (payload : List ℕ) (c : Client S)
    → parse_state_payload payload c ≡ some (warned_by payload c, state_of_payload payload)
unfolding parse_state_payload state_of_payload warned_by
parse_state_payload_total payload c = elim (Bool-cases (ltb (length payload) 508)) [
  | inl short ↦ rw short
  | inr long ↦ rw (long, read_state_long payload (ground arith))
]

-- Whatever the bytes, the parser reads nothing outside the payload; it gives a state exactly if the
-- payload has at least 127 words of 4 bytes.
pub parse_state_payload_in_bounds :
    {S : Type 0} (payload : List ℕ) (c : Client S)
    → (c' : Client S) × (o : Option SystemState) × (parse_state_payload payload c ≡ some (c', o))
      × (o ≢ none ↔ 127 * 4 ≤ length payload)
unfolding state_of_payload
parse_state_payload_in_bounds payload c = (
  warned_by payload c,
  state_of_payload payload,
  parse_state_payload_total payload c,
  (λ h. ground arith, λ h e. ground arith),
)

-- A packet of 127 or more words becomes the state that has each member from its word: the parser
-- inverts writing the words out, low byte first. A `self_collision` word other than 1 is read as 0.
pub parse_state_payload-encode :
    {S : Type 0} (ws : List ℕ) (c : Client S)
    → All IsWord ws
    → 127 ≤ length ws
    → (c' : Client S) × (parse_state_payload (encode ws) c
        ≡ some (c', some (state_of_words (λ i. get_or ws i 0))))
unfolding state_of_payload
parse_state_payload-encode ws c words long =
    let short : ltb (length (encode ws)) 508 ≡ false = ground (arith, length-encode ws) in
    let same : word (encode ws) ≡ (λ i. get_or ws i 0) = fun_ext (λ i. word-encode ws i words) in
    (
      warned_by (encode ws) c,
      parse_state_payload_total (encode ws) c
          ∙ ap (λ o. some (warned_by (encode ws) c, o)) (rw (short, same)),
    )

-- A warning is all that the parser leaves behind.
pub warned_by_keeps :
    {S : Type 0} (payload : List ℕ) (c : Client S)
    → ((warned_by payload c).os ≡ c.os)
      × ((warned_by payload c).delivered ≡ c.delivered)
      × ((warned_by payload c).state_callback ≡ c.state_callback)
      × ((warned_by payload c).data_sock ≡ c.data_sock)
unfolding warned_by warn_self_collision
warned_by_keeps payload c = ground arith
