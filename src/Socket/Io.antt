-- ===== src/Socket/Io.antt =====
-- src/rb10_socket_client.cpp: `recv_exact`, `recv_byte` and `send_all`, the loops over `recv` and
-- `send`. `none` means that the fuel ran out with the loop still going. `others` is what the other
-- threads do to the client while this one is blocked in a call; it may change anything.
pub mod Receive
pub mod Send
use rmp_proximity_sensor.Common.{
  ℕ, zero, suc, ◌+◌, ◌-◌, Bool, true, false, ◌&&◌, Option, none, some, List, [], ◌∷◌, ◌++◌, ltb,
  ◌==◌, length, drop, if◌then◌else◌,
}
use rmp_proximity_sensor.Socket.{
  Posix, Client, Fd, RecvResult, received, failed, SendResult, sent, refused, is_retryable_errno,
}

module _ {S : Type 0} (posix : Posix S) (others : Client S → Client S) where
  -- One call of `recv`: the calling thread sleeps in it, so the other threads have their turn.
  abbrev pub recv : Client S → Fd → ℕ → Client S × RecvResult
  recv c fd n = let (os, r) = posix.recv c.os fd n in (others (record c { os = os }), r)

  abbrev pub send : Client S → Fd → List ℕ → Client S × SendResult
  send c fd bytes = let (os, r) = posix.send c.os fd bytes in (others (record c { os = os }), r)

  -- The bytes that stand in the buffer are returned with the Boolean result; `offset` is their
  -- number.
  pub recv_exact : ℕ → Client S → Fd → ℕ → List ℕ → Option (Client S × Bool × List ℕ)
  unfolding is_retryable_errno
  recv_exact zero c fd len buffer = none
  recv_exact (suc fuel) c fd len buffer =
      elim (ltb (length buffer) len && (c.running && c.connected)) [
        | false ↦ some (c, length buffer == len, buffer)
        | true ↦
            let c' = (recv c fd (len - length buffer)).0 in
            elim (recv c fd (len - length buffer)).1 [
              | received [] ↦ some (c', false, buffer)
              | received (b ∷ bs) ↦ recv_exact fuel c' fd len (buffer ++ b ∷ bs)
              | failed e ↦ elim (is_retryable_errno e) [
                | true ↦ recv_exact fuel c' fd len buffer
                | false ↦ some (c', false, buffer)
              ]
            ]
      ]

  -- `some (c, some b)` is the result `true` with the byte.
  pub recv_byte : ℕ → Client S → Fd → Option (Client S × Option ℕ)
  unfolding is_retryable_errno
  recv_byte zero c fd = none
  recv_byte (suc fuel) c fd = elim (c.running && c.connected) [
    | false ↦ some (c, none)
    | true ↦
        let c' = (recv c fd 1).0 in
        elim (recv c fd 1).1 [
          | received [] ↦ some (c', none)
          | received (b ∷ bs) ↦ some (c', some b)
          | failed e ↦ elim (is_retryable_errno e) [
            | true ↦ recv_byte fuel c' fd
            | false ↦ some (c', none)
          ]
        ]
  ]

  -- `rest` is the part of the buffer from `offset` on.
  pub send_all : ℕ → Client S → Fd → List ℕ → Option (Client S × Bool)
  unfolding is_retryable_errno
  send_all zero c fd rest = none
  send_all (suc fuel) c fd rest = elim (ltb 0 (length rest) && c.connected) [
    | false ↦ some (c, length rest == 0)
    | true ↦
        let c' = (send c fd rest).0 in
        elim (send c fd rest).1 [
          | sent zero ↦ some (c', false)
          | sent (suc k) ↦ send_all fuel c' fd (drop (suc k) rest)
          | refused e ↦ elim (is_retryable_errno e) [
            | true ↦ send_all fuel c' fd rest
            | false ↦ some (c', false)
          ]
        ]
  ]
