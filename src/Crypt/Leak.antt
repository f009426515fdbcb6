-- ===== src/Crypt/Leak.antt =====
-- What two consecutive frames of nrf24_crypt.c have in common: a frame counts on by one for each 8
-- bytes, and the next frame starts one further than this one did.
use iot_zephyr_app.Base.{
  ℕ, suc, ◌+◌, ◌^◌, ◌≤◌, ◌<◌, ◌≡◌, ap, ap₂, ◌∙◌, List, bit_xor, bit_xor_pad, le→ltb_false, length,
  get_or, take, drop, arith, length-take, get_or-take, get_or-append_left,
}
use iot_zephyr_app.Zephyr.ByteOrder.{ByteOrder}
use iot_zephyr_app.Crypt.{Crypt, keystream, ctr_xor, seal}
use iot_zephyr_app.Crypt.Stream.{pad, get_or-ctr_xor, length-ctr_xor}

module _ (bo : ByteOrder) where
  -- Byte `8 + i` of a frame and byte `i` of the next one meet the same keystream byte.
  pad-next : (key : List ℕ) (c i : ℕ) → pad bo key c (8 + i) ≡ pad bo key (c + 1) i
  pad-next key c i = ap₂ (λ m j. get_or (keystream bo key m) j 0) (omega arith) (omega arith)

  -- Byte `i` of the payload that `seal` writes behind the counter byte.
  get_or-seal :
      (s : Crypt) (buf : List ℕ) (len i : ℕ)
      → 2 ≤ len
      → len ≤ 31
      → len ≤ length buf
      → i < len
      → s.tx_counter < 2 ^ 32
      → get_or (seal bo s buf len).1 (suc i) 0
        ≡ bit_xor (get_or buf i 0) (pad bo s.crypt_key s.tx_counter i)
  unfolding seal
  get_or-seal s buf len i lo hi fits p c =
      rw (le→ltb_false len 2 lo, le→ltb_false 31 len hi)
        (get_or-append_left (ctr_xor bo s.crypt_key s.tx_counter (take len buf))
            (drop (len + 1) buf) i 0
            (omega (
              arith,
              length-ctr_xor bo s.crypt_key s.tx_counter (take len buf),
              length-take len buf,
            ))
          ∙ get_or-ctr_xor bo s.crypt_key s.tx_counter (take len buf) i c
              (omega (arith, length-take len buf))
          ∙ ap (λ b. bit_xor b (pad bo s.crypt_key s.tx_counter i)) (get_or-take len buf i 0 p))

  seal-state :
      (s : Crypt) (buf : List ℕ) (len : ℕ)
      → 2 ≤ len
      → len ≤ 31
      → s.tx_counter + 1 < 2 ^ 32
      → ((seal bo s buf len).0.crypt_key ≡ s.crypt_key)
        × ((seal bo s buf len).0.tx_counter ≡ s.tx_counter + 1)
  unfolding seal
  seal-state s buf len lo hi c = ground arith

  -- Two frames that `seal` encrypts one after the other, of `n` and `m` bytes: the difference of
  -- byte `8 + i` of the first ciphertext and byte `i` of the second is the difference of those
  -- plaintext bytes, whatever the key. So the keystream is used again in every second frame that
  -- is longer than 8 bytes.
  pub keystream_reused :
      (s : Crypt) (buf next : List ℕ) (n m i : ℕ)
      → 2 ≤ n
      → n ≤ 31
      → n ≤ length buf
      → 2 ≤ m
      → m ≤ 31
      → m ≤ length next
      → 8 + i < n
      → i < m
      → s.tx_counter + 1 < 2 ^ 32
      → let (t, frame, _) = seal bo s buf n in
        let (_, frame', _) = seal bo t next m in
        bit_xor (get_or frame (suc (8 + i)) 0) (get_or frame' (suc i) 0)
        ≡ bit_xor (get_or buf (8 + i) 0) (get_or next i 0)
  keystream_reused s buf next n m i lo hi fits lo' hi' fits' p q c =
      let t = (seal bo s buf n).0 in
      let (same_key, counted) = seal-state s buf n lo hi c in
      ap₂ bit_xor
        (get_or-seal s buf n (8 + i) lo hi fits p (omega arith)
          ∙ ap (bit_xor (get_or buf (8 + i) 0)) (pad-next s.crypt_key s.tx_counter i))
        (get_or-seal t next m i lo' hi' fits' q (omega (arith, counted))
          ∙ ap₂ (λ k a. bit_xor (get_or next i 0) (pad bo k a i)) same_key counted)
      ∙ bit_xor_pad (get_or buf (8 + i) 0) (get_or next i 0)
          (pad bo s.crypt_key (s.tx_counter + 1) i)
