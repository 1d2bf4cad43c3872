-- ===== src/Socket/Io/Receive.antt =====
-- src/rb10_socket_client.cpp: what `recv_exact` and `recv_byte` promise over a byte stream.
use rmp_proximity_sensor.Common.{
  ℕ, zero, suc, ◌+◌, ◌-◌, ◌≤◌, ◌<◌, ◌≡◌, refl, sym, ap, ◌⊎◌, inl, inr, Bool, true, Option, none,
  some, List, [], ◌∷◌, ◌++◌, arith, ◌==◌, ltb, ◌&&◌, length, Bool-cases, append_assoc, append-nil,
  length-append,
}
use rmp_proximity_sensor.Socket.{
  Posix, Client, Fd, Errno, RecvResult, received, failed, is_retryable_errno,
}
use rmp_proximity_sensor.Socket.Io.{recv, recv_exact, recv_byte}

-- A view of the system's state: the bytes that the data connection will still bring, how many calls
-- may still be interrupted, and which descriptors belong to the connection.
pub record Stream (S : Type 0) : Type 1 where
  pub pending : S → List ℕ
  pub patience : S → ℕ
  pub IsData : Fd → Type 0

module _ {S : Type 0} (stream : Stream S) where
  -- From `c` to `c'` the bytes `bs` were taken off the stream, and no state was delivered.
  pub record Reads (c : Client S) (bs : List ℕ) (c' : Client S) : Type 0 where
    pub taken : stream.pending c.os ≡ bs ++ stream.pending c'.os
    pub calmer : stream.patience c'.os ≤ stream.patience c.os
    pub delivered_same : c'.delivered ≡ c.delivered
    pub callback_same : c'.state_callback ≡ c.state_callback
    pub is_data : stream.IsData c.data_sock → stream.IsData c'.data_sock

  -- Fuel that surely lasts: every round takes a byte or uses an interruption up.
  abbrev pub effort : Client S → ℕ
  effort c = length (stream.pending c.os) + stream.patience c.os

  pub Reads-refl : (c : Client S) → Reads c [] c
  Reads-refl c = record {
    taken = refl;
    calmer = omega arith;
    delivered_same = refl;
    callback_same = refl;
    is_data = λ d. d;
  }

  pub Reads-trans :
      (c c' c'' : Client S) (bs bs' : List ℕ)
      → Reads c bs c'
      → Reads c' bs' c''
      → Reads c (bs ++ bs') c''
  Reads-trans c c' c'' bs bs' r r' = record {
    taken = rw (r.taken, r'.taken) (simp append_assoc);
    calmer = omega arith;
    delivered_same = cc;
    callback_same = cc;
    is_data = λ d. r'.is_data (r.is_data d);
  }

  -- The bytes taken and the effort left are within the effort before.
  pub effort-Reads :
      (c c' : Client S) (bs : List ℕ) → Reads c bs c' → length bs + effort c' ≤ effort c
  effort-Reads c c' bs r = omega (arith, ap length r.taken, length-append bs (stream.pending c'.os))

  effort-retry :
      (c c' : Client S) (fuel : ℕ)
      → Reads c [] c'
      → stream.patience c'.os < stream.patience c.os
      → effort c < suc fuel
      → effort c' < fuel
  effort-retry c c' fuel r less enough = omega (arith, ap length r.taken)

-- What is relied on of `recv` on the data connection. TCP delivers the bytes of a connection in
-- order, at most as many as asked for. A failed call takes none. A call is interrupted finitely
-- often. While the calling thread sleeps, the other threads take nothing off the connection and
-- deliver no state.
pub record IsTcp {S : Type 0} (posix : Posix S) (others : Client S → Client S) (stream : Stream S)
    : Type 0 where
  pub recv_received :
      (c : Client S) (fd : Fd) (n : ℕ) (bs : List ℕ)
      → stream.IsData fd
      → (recv posix others c fd n).1 ≡ received bs
      → (length bs ≤ n) × Reads stream c bs (recv posix others c fd n).0
  pub recv_failed :
      (c : Client S) (fd : Fd) (n : ℕ) (e : Errno)
      → stream.IsData fd
      → (recv posix others c fd n).1 ≡ failed e
      → Reads stream c [] (recv posix others c fd n).0
  pub recv_retry :
      (c : Client S) (fd : Fd) (n : ℕ) (e : Errno)
      → stream.IsData fd
      → (recv posix others c fd n).1 ≡ failed e
      → is_retryable_errno e ≡ true
      → stream.patience (recv posix others c fd n).0.os < stream.patience c.os

RecvResult-cases :
    (r : RecvResult)
    → (r ≡ received [])
      ⊎ ((b : ℕ) × (bs : List ℕ) × (r ≡ received (b ∷ bs)))
      ⊎ ((e : Errno) × (r ≡ failed e))
RecvResult-cases (received []) = inl refl
RecvResult-cases (received (b ∷ bs)) = inr (inl (b, bs, refl))
RecvResult-cases (failed e) = inr (inr (e, refl))

module _ {S : Type 0} (stream : Stream S) where
  -- The buffer grew by the bytes that were taken off the stream, never past its length, and the
  -- result says whether it is full. Running out of fuel is excluded.
  abbrev pub Fills : Client S → ℕ → List ℕ → Option (Client S × Bool × List ℕ) → Type 0
  Fills c len buffer none = ⊥
  Fills c len buffer (some (c', ok, full)) =
      (bs : List ℕ) × (full ≡ buffer ++ bs)
      × Reads stream c bs c'
      × (length full ≤ len)
      × (ok ≡ (length full == len))

  Fills-step :
      (c c' : Client S) (len : ℕ) (buffer bs : List ℕ) (r : Option (Client S × Bool × List ℕ))
      → Reads stream c bs c'
      → Fills c' len (buffer ++ bs) r
      → Fills c len buffer r
  Fills-step c c' len buffer bs none r f = f
  Fills-step c c' len buffer bs (some (c'', ok, full)) r (more, e, r', fits, done) = (
    bs ++ more,
    cc (append_assoc buffer bs more),
    Reads-trans stream c c' c'' bs more r r',
    fits,
    done,
  )

  -- A byte was taken off the stream and returned, or none was taken.
  abbrev pub Brings : Client S → Option (Client S × Option ℕ) → Type 0
  Brings c none = ⊥
  Brings c (some (c', none)) = Reads stream c [] c'
  Brings c (some (c', some b)) = Reads stream c (b ∷ []) c'

  Brings-step :
      (c c' : Client S) (r : Option (Client S × Option ℕ))
      → Reads stream c [] c'
      → Brings c' r
      → Brings c r
  Brings-step c c' none r f = f
  Brings-step c c' (some (c'', none)) r f = Reads-trans stream c c' c'' [] [] r f
  Brings-step c c' (some (c'', some b)) r f = Reads-trans stream c c' c'' [] (b ∷ []) r f

  one_byte :
      (c c' : Client S) (b : ℕ) (bs : List ℕ)
      → length (b ∷ bs) ≤ 1
      → Reads stream c (b ∷ bs) c'
      → Reads stream c (b ∷ []) c'
  one_byte c c' b [] short r = r
  one_byte c c' b (x ∷ bs) short r = absurd (omega arith)

  module _ (posix : Posix S) (others : Client S → Client S) (tcp : IsTcp posix others stream) where
    -- With fuel for every byte that is still to come and every interruption, the loop ends. The buffer
    -- has grown by exactly the bytes that were taken off the connection, in order and never past its
    -- length, and the result is true exactly if the buffer is full.
    pub recv_exact-Fills :
        (fuel : ℕ) (c : Client S) (fd : Fd) (len : ℕ) (buffer : List ℕ)
        → stream.IsData fd
        → length buffer ≤ len
        → effort stream c < fuel
        → Fills c len buffer (recv_exact posix others fuel c fd len buffer)
    unfolding recv_exact
    recv_exact-Fills zero c fd len buffer d fits enough = elim enough [ ]
    recv_exact-Fills (suc fuel) c fd len buffer d fits enough =
        let n = len - length buffer in
        let c' = (recv posix others c fd n).0 in
        elim (Bool-cases (ltb (length buffer) len && (c.running && c.connected))) [
          | inr stop ↦
              rw (stop, recv_exact) ([], sym (append-nil buffer), Reads-refl stream c, fits, refl)
          | inl go ↦ elim (RecvResult-cases (recv posix others c fd n).1) [
            | inl r ↦
                rw (go, recv_exact, r)
                  (
                    [],
                    sym (append-nil buffer),
                    (tcp.recv_received c fd n [] d r).1,
                    fits,
                    ground arith,
                  )
            | inr (inl (b, bs, r)) ↦
                let (short, reads) = tcp.recv_received c fd n (b ∷ bs) d r in
                rw (go, recv_exact, r)
                  (Fills-step c c' len buffer (b ∷ bs) _ reads (
                    recv_exact-Fills fuel c' fd len (buffer ++ b ∷ bs) d
                      (ground (arith, length-append buffer (b ∷ bs)))
                      (omega (arith, effort-Reads stream c c' (b ∷ bs) reads))))
            | inr (inr (e, r)) ↦ elim (Bool-cases (is_retryable_errno e)) [
              | inl again ↦
                  rw (go, recv_exact, r, again)
                    (Fills-step c c' len buffer [] _ (tcp.recv_failed c fd n e d r) (
                      rw (append-nil buffer) (
                        recv_exact-Fills fuel c' fd len buffer d fits (
                          effort-retry stream c c' fuel (tcp.recv_failed c fd n e d r)
                            (tcp.recv_retry c fd n e d r again) enough))))
              | inr hard ↦
                  rw (go, recv_exact, r, hard)
                    ([], sym (append-nil buffer), tcp.recv_failed c fd n e d r, fits, ground arith)
            ]
          ]
        ]

    -- Likewise for a single byte: it is returned, or none was taken.
    pub recv_byte-Brings :
        (fuel : ℕ) (c : Client S) (fd : Fd)
        → stream.IsData fd
        → effort stream c < fuel
        → Brings c (recv_byte posix others fuel c fd)
    unfolding recv_byte
    recv_byte-Brings zero c fd d enough = elim enough [ ]
    recv_byte-Brings (suc fuel) c fd d enough =
        let c' = (recv posix others c fd 1).0 in
        elim (Bool-cases (c.running && c.connected)) [
          | inr stop ↦ rw (stop, recv_byte) (Reads-refl stream c)
          | inl go ↦ elim (RecvResult-cases (recv posix others c fd 1).1) [
            | inl r ↦ rw (go, recv_byte, r) (tcp.recv_received c fd 1 [] d r).1
            | inr (inl (b, bs, r)) ↦
                let (short, reads) = tcp.recv_received c fd 1 (b ∷ bs) d r in
                rw (go, recv_byte, r) (one_byte c c' b bs short reads)
            | inr (inr (e, r)) ↦
                let reads = tcp.recv_failed c fd 1 e d r in
                elim (Bool-cases (is_retryable_errno e)) [
                  | inl again ↦
                      rw (go, recv_byte, r, again)
                        (Brings-step c c' _ reads (
                          recv_byte-Brings fuel c' fd d (
                            effort-retry stream c c' fuel reads (tcp.recv_retry c fd 1 e d r again)
                              enough)))
                  | inr hard ↦ rw (go, recv_byte, r, hard) reads
                ]
          ]
        ]
