-- ===== src/Socket/Io/Send.antt =====
-- src/rb10_socket_client.cpp: what `send_all` promises: the bytes go out in order, and the result
-- says whether all of them did.
use rmp_proximity_sensor.Common.{
  ℕ, zero, suc, ◌+◌, ◌≤◌, ◌<◌, ◌≡◌, refl, sym, ◌∙◌, ◌⊎◌, inl, inr, Bool, true, Option, none, some,
  List, [], ◌++◌, arith, ◌==◌, ltb, ◌&&◌, length, take, drop, Bool-cases, append_assoc, append-nil,
  length-drop, take-append-drop,
}
use rmp_proximity_sensor.Socket.{
  Posix, Client, Fd, Errno, SendResult, sent, refused, is_retryable_errno,
}
use rmp_proximity_sensor.Socket.Io.{send, send_all}

-- A view of the system's state: the bytes that a connection has been handed, and how many calls may
-- still be interrupted.
pub record Wire (S : Type 0) : Type 0 where
  pub handed : S → List ℕ
  pub patience : S → ℕ

-- What is relied on of `send` on the descriptor `fd`. The connection takes a front part of the
-- bytes, or nothing when the call fails. A call is interrupted finitely often. While the calling
-- thread sleeps, no other thread writes to the connection: `command_mutex_` sees to it for the
-- command socket, and only the request thread writes to the data socket.
pub record IsWritable {S : Type 0} (posix : Posix S) (others : Client S → Client S) (wire : Wire S)
    (fd : Fd) : Type 0 where
  pub send_sent :
      (c : Client S) (bytes : List ℕ) (k : ℕ)
      → (send posix others c fd bytes).1 ≡ sent k
      → (k ≤ length bytes)
        × (wire.handed (send posix others c fd bytes).0.os ≡ wire.handed c.os ++ take k bytes)
        × (wire.patience (send posix others c fd bytes).0.os ≤ wire.patience c.os)
  pub send_refused :
      (c : Client S) (bytes : List ℕ) (e : Errno)
      → (send posix others c fd bytes).1 ≡ refused e
      → wire.handed (send posix others c fd bytes).0.os ≡ wire.handed c.os
  pub send_retry :
      (c : Client S) (bytes : List ℕ) (e : Errno)
      → (send posix others c fd bytes).1 ≡ refused e
      → is_retryable_errno e ≡ true
      → wire.patience (send posix others c fd bytes).0.os < wire.patience c.os

SendResult-cases :
    (r : SendResult)
    → (r ≡ sent 0) ⊎ ((k : ℕ) × (r ≡ sent (suc k))) ⊎ ((e : Errno) × (r ≡ refused e))
SendResult-cases (sent zero) = inl refl
SendResult-cases (sent (suc k)) = inr (inl (k, refl))
SendResult-cases (refused e) = inr (inr (e, refl))

module _ {S : Type 0} (wire : Wire S) where
  -- A front part of the bytes went out, once and in order, and the result is whether it is all.
  abbrev pub Sends : Client S → List ℕ → Option (Client S × Bool) → Type 0
  Sends c bytes none = ⊥
  Sends c bytes (some (c', ok)) =
      (front : List ℕ) × (back : List ℕ) × (bytes ≡ front ++ back)
      × (wire.handed c'.os ≡ wire.handed c.os ++ front)
      × (ok ≡ (length back == 0))

  Sends-step :
      (c c' : Client S) (bytes front back : List ℕ) (r : Option (Client S × Bool))
      → bytes ≡ front ++ back
      → wire.handed c'.os ≡ wire.handed c.os ++ front
      → Sends c' back r
      → Sends c bytes r
  Sends-step c c' bytes front back none e h s = s
  Sends-step c c' bytes front back (some (c'', ok)) e h (more, left, e', h', done) = (
    front ++ more,
    left,
    cc (append_assoc front more left),
    cc (append_assoc (wire.handed c.os) front more),
    done,
  )

  module _ (posix : Posix S) (others : Client S → Client S) (fd : Fd)
      (writable : IsWritable posix others wire fd) where
    -- With fuel for every byte and every interruption, the loop ends. It has handed the connection a
    -- front part of the bytes, in order and once, and returns true exactly if that is all of them.
    pub send_all-Sends :
        (fuel : ℕ) (c : Client S) (bytes : List ℕ)
        → length bytes + wire.patience c.os < fuel
        → Sends c bytes (send_all posix others fuel c fd bytes)
    unfolding send_all
    send_all-Sends zero c bytes enough = elim enough [ ]
    send_all-Sends (suc fuel) c bytes enough =
        let c' = (send posix others c fd bytes).0 in
        let nil : bytes ≡ [] ++ bytes = refl in
        elim (Bool-cases (ltb 0 (length bytes) && c.connected)) [
          | inr stop ↦
              rw (stop, send_all) ([], bytes, refl, sym (append-nil (wire.handed c.os)), refl)
          | inl go ↦ elim (SendResult-cases (send posix others c fd bytes).1) [
            | inl r ↦
                let (k, h, p) = writable.send_sent c bytes 0 r in
                rw (go, send_all, r) ([], bytes, refl, h, ground arith)
            | inr (inl (k, r)) ↦
                let (fits, h, calm) = writable.send_sent c bytes (suc k) r in
                rw (go, send_all, r)
                  (Sends-step c c' bytes (take (suc k) bytes) (drop (suc k) bytes) _
                    (sym (take-append-drop (suc k) bytes)) h
                    (send_all-Sends fuel c' (drop (suc k) bytes)
                      (omega (arith, length-drop (suc k) bytes))))
            | inr (inr (e, r)) ↦
                let h = writable.send_refused c bytes e r in
                elim (Bool-cases (is_retryable_errno e)) [
                  | inl again ↦
                      rw (go, send_all, r, again)
                        (Sends-step c c' bytes [] bytes _ refl
                          (h ∙ sym (append-nil (wire.handed c.os)))
                          (send_all-Sends fuel c' bytes
                            (omega (arith, writable.send_retry c bytes e r again))))
                  | inr hard ↦
                      rw (go, send_all, r, hard)
                        ([], bytes, refl, h ∙ sym (append-nil (wire.handed c.os)), ground arith)
                ]
          ]
        ]
