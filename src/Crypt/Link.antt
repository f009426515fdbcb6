-- ===== src/Crypt/Link.antt =====
-- A sender and a receiver of nrf24_crypt.c on one link.
use iot_zephyr_app.Base.{
  ℕ, ◌+◌, ◌^◌, ◌≤◌, ◌<◌, ◌≡◌, refl, sym, ap, ◌∙◌, true, some, List, ◌∷◌, ◌++◌, le→ltb_false, u8,
  u32, length, get_or, take, drop, arith, length-take, take-append_self,
}
use iot_zephyr_app.Zephyr.ByteOrder.{ByteOrder}
use iot_zephyr_app.Crypt.{Crypt, infer_counter, ctr_xor, seal, accept, open_frame}
use iot_zephyr_app.Crypt.Stream.{length-ctr_xor, ctr_xor_involutive}
use iot_zephyr_app.Crypt.Window.{infer_counter_window}

-- What a receiver shares with the sender, `gap` frames behind it.
pub record InStep (gap : ℕ) (tx rx : Crypt) : Type 0 where
  pub same_key : rx.crypt_key ≡ tx.crypt_key
  pub started : rx.rx_initialized ≡ true
  pub behind : tx.tx_counter ≡ rx.rx_counter + gap

module _ (bo : ByteOrder) where
  -- The frame that `seal` writes at the front of the buffer.
  pub sealed : Crypt → List ℕ → ℕ → List ℕ
  sealed s buf len = u8 s.tx_counter ∷ ctr_xor bo s.crypt_key s.tx_counter (take len buf)

  pub seal_lem :
      (s : Crypt) (buf : List ℕ) (len : ℕ)
      → 2 ≤ len
      → len ≤ 31
      → seal bo s buf len ≡ (
        record s { tx_counter = u32 (s.tx_counter + 1) },
        sealed s buf len ++ drop (len + 1) buf,
        len + 1,
      )
  unfolding seal sealed
  seal_lem s buf len lo hi = rw (le→ltb_false len 2 lo, le→ltb_false 31 len hi)

  length-sealed :
      (s : Crypt) (buf : List ℕ) (len : ℕ) → len ≤ length buf → length (sealed s buf len) ≡ len + 1
  unfolding sealed
  length-sealed s buf len fits =
      omega (arith, length-take len buf, length-ctr_xor bo s.crypt_key s.tx_counter (take len buf))

  open_frame-accepts :
      (r : Crypt) (frame : List ℕ) (n c : ℕ)
      → 3 ≤ n
      → n ≤ 32
      → infer_counter r (get_or frame 0 0) ≡ some c
      → open_frame bo r frame n ≡ accept bo r frame n c
  unfolding open_frame
  open_frame-accepts r frame n c lo hi e = rw (le→ltb_false n 3 lo, le→ltb_false 32 n hi, e)

  accept_lem :
      (r : Crypt) (frame body : List ℕ) (n c : ℕ)
      → drop 1 (take (n + 1) frame) ≡ body
      → length body ≡ n
      → let (r', buf, m) = accept bo r frame (n + 1) c in
        (m ≡ n) × (take n buf ≡ ctr_xor bo r.crypt_key c body)
  unfolding accept
  accept_lem r frame body n c e fits = (
    omega arith,
    rw e (
        take-append_self (ctr_xor bo r.crypt_key c body) _ n
          (omega (arith, length-ctr_xor bo r.crypt_key c body))),
  )

  accept-InStep :
      (r t : Crypt) (frame : List ℕ) (n c : ℕ)
      → r.crypt_key ≡ t.crypt_key
      → c + 1 < 2 ^ 32
      → InStep 1 (record t { tx_counter = u32 (c + 1) }) (accept bo r frame n c).0
  unfolding accept
  accept-InStep r t frame n c e h = record { same_key = e; started = refl; behind = omega arith }

  -- A frame that is sealed with the key of a receiver that is at most 32 frames behind is opened by
  -- it: the length and the plaintext come back, and the receiver is then one frame behind the
  -- sender. The counter stays 32 below its wrap.
  pub open_frame-seal :
      (t r : Crypt) (gap : ℕ) (buf : List ℕ) (len : ℕ)
      → InStep gap t r
      → 1 ≤ gap
      → gap ≤ 32
      → 2 ≤ len
      → len ≤ 31
      → len ≤ length buf
      → t.tx_counter + 32 < 2 ^ 32
      → let (t', frame, n) = seal bo t buf len in
        let (r', plain, m) = open_frame bo r frame n in
        (m ≡ len) × (take len plain ≡ take len buf) × InStep 1 t' r'
  unfolding sealed
  open_frame-seal t r gap buf len v lo hi lo' hi' fits c =
      rw
        (
          seal_lem t buf len lo' hi',
          open_frame-accepts r frame (len + 1) t.tx_counter (omega arith) (omega arith) known,
        )
        (received.0, received.1 ∙ plain, advanced)
    where
      frame : List ℕ
      frame = sealed t buf len ++ drop (len + 1) buf

      known : infer_counter r (u8 t.tx_counter) ≡ some t.tx_counter
      known =
          (infer_counter_window r v.started (u8 t.tx_counter) t.tx_counter (omega arith)
              (omega arith)).1
            (omega arith, omega arith, refl)

      body : List ℕ
      body = ctr_xor bo t.crypt_key t.tx_counter (take len buf)

      received :
          let (r', out, m) = accept bo r frame (len + 1) t.tx_counter in
          (m ≡ len) × (take len out ≡ ctr_xor bo r.crypt_key t.tx_counter body)
      received =
          accept_lem r frame body len t.tx_counter
            (ap (drop 1) (
              take-append_self (sealed t buf len) (drop (len + 1) buf) (len + 1)
                (sym (length-sealed t buf len fits))))
            (omega (
              arith,
              length-take len buf,
              length-ctr_xor bo t.crypt_key t.tx_counter (take len buf),
            ))

      plain : ctr_xor bo r.crypt_key t.tx_counter body ≡ take len buf
      plain =
          rw v.same_key
            (ctr_xor_involutive bo t.crypt_key t.tx_counter (take len buf) (omega arith))

      advanced :
          InStep 1
            (record t { tx_counter = u32 (t.tx_counter + 1) })
            (accept bo r frame (len + 1) t.tx_counter).0
      advanced = accept-InStep r t frame (len + 1) t.tx_counter v.same_key (omega arith)
