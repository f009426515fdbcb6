-- ===== src/Crypt/Stream.antt =====
-- The CTR loop of nrf24_crypt.c against the stream that it stands for: byte `i` is combined with
-- byte `i % 8` of the keystream of counter `counter + i / 8`.
use iot_zephyr_app.Base.{
  ℕ, zero, suc, ◌+◌, ◌-◌, ◌/◌, ◌%◌, ◌^◌, ◌≤◌, ◌<◌, ◌≡◌, refl, ap, ap₂, ◌∙◌, List, [], ◌∷◌, ◌++◌,
  bit_xor, bit_xor_cancel, dec_lt, min, u32, length, get_or, take, drop, arith, length-append,
  length-take, length-drop, get_or-append_left, get_or-append_right, get_or-take, get_or-drop,
  eq_of_get_or,
}
use iot_zephyr_app.Zephyr.ByteOrder.{ByteOrder}
use iot_zephyr_app.Crypt.{xxtea_encrypt_block, xor_bytes, keystream, ctr_loop, ctr_xor}

pub length-xor_bytes : (xs ks : List ℕ) → length (xor_bytes xs ks) ≡ length xs
unfolding xor_bytes
length-xor_bytes [] ks = refl
length-xor_bytes (x ∷ xs) [] = refl
length-xor_bytes (x ∷ xs) (k ∷ ks) = ap suc (length-xor_bytes xs ks)

get_or-xor_bytes :
    (xs ks : List ℕ) (i : ℕ)
    → i < length xs
    → i < length ks
    → get_or (xor_bytes xs ks) i 0 ≡ bit_xor (get_or xs i 0) (get_or ks i 0)
unfolding xor_bytes
get_or-xor_bytes [] ks i p q = absurd (omega arith)
get_or-xor_bytes (x ∷ xs) [] i p q = absurd (omega arith)
get_or-xor_bytes (x ∷ xs) (k ∷ ks) zero p q = refl
get_or-xor_bytes (x ∷ xs) (k ∷ ks) (suc i) p q =
    get_or-xor_bytes xs ks i (omega arith) (omega arith)

-- One round of the loop: its own 8 bytes, and those of the rounds after it.
module _ (bytes ks rest : List ℕ) where
  abbrev round_out : List ℕ
  round_out = xor_bytes (take 8 bytes) ks ++ rest

  length-round : length round_out ≡ min 8 (length bytes) + length rest
  length-round = omega (
    arith,
    length-append (xor_bytes (take 8 bytes) ks) rest,
    length-xor_bytes (take 8 bytes) ks,
    length-take 8 bytes,
  )

  get_or-round_near :
      (i : ℕ)
      → length ks ≡ 8
      → i < 8
      → i < length bytes
      → get_or round_out i 0 ≡ bit_xor (get_or bytes i 0) (get_or ks i 0)
  get_or-round_near i e p q =
      get_or-append_left (xor_bytes (take 8 bytes) ks) rest i 0
        (omega (arith, length-xor_bytes (take 8 bytes) ks, length-take 8 bytes))
      ∙ get_or-xor_bytes (take 8 bytes) ks i (omega (arith, length-take 8 bytes)) (omega arith)
      ∙ ap (λ b. bit_xor b (get_or ks i 0)) (get_or-take 8 bytes i 0 p)

  get_or-round_far : (j : ℕ) → 8 + j < length bytes → get_or round_out (8 + j) 0 ≡ get_or rest j 0
  get_or-round_far j p =
      ap (λ i. get_or round_out i 0)
        (omega (arith, length-xor_bytes (take 8 bytes) ks, length-take 8 bytes))
      ∙ get_or-append_right (xor_bytes (take 8 bytes) ks) rest j 0

module _ (bo : ByteOrder) (key : List ℕ) where
  -- The keystream byte that meets byte `i` of a buffer.
  abbrev pub pad : ℕ → ℕ → ℕ
  pad counter i = get_or (keystream bo key (u32 (counter + i / 8))) (i % 8) 0

  pub length-keystream : (counter : ℕ) → length (keystream bo key counter) ≡ 8
  unfolding keystream
  length-keystream counter =
      let (b0, b1) = xxtea_encrypt_block key counter (4294967295 - counter) in
      omega (
        arith,
        length-append (bo.put_be32 b0) (bo.put_be32 b1),
        bo.length-put_be32 b0,
        bo.length-put_be32 b1,
      )

  length-ctr_loop :
      (n counter : ℕ) (bytes : List ℕ) → length (ctr_loop bo key n counter bytes) ≡ length bytes
  unfolding ctr_loop
  length-ctr_loop zero counter bytes = refl
  length-ctr_loop (suc n) counter [] = refl
  length-ctr_loop (suc n) counter (x ∷ xs) = omega (
    arith,
    length-round (x ∷ xs) (keystream bo key counter)
        (ctr_loop bo key n (u32 (counter + 1)) (drop 7 xs)),
    length-ctr_loop n (u32 (counter + 1)) (drop 7 xs),
    length-drop 7 xs,
  )

  get_or-ctr_loop :
      (n counter : ℕ) (bytes : List ℕ) (i : ℕ)
      → length bytes ≤ n
      → counter < 2 ^ 32
      → i < length bytes
      → get_or (ctr_loop bo key n counter bytes) i 0 ≡ bit_xor (get_or bytes i 0) (pad counter i)
  unfolding ctr_loop
  get_or-ctr_loop zero counter bytes i h c p = absurd (omega arith)
  get_or-ctr_loop (suc n) counter [] i h c p = absurd (omega arith)
  get_or-ctr_loop (suc n) counter (x ∷ xs) i h c p = elim (dec_lt i 8) [
    | yes near ↦
        get_or-round_near bytes ks rest i (length-keystream counter) near p
        ∙ ap (λ k. bit_xor (get_or bytes i 0) k)
            (ap₂ (λ m j. get_or (keystream bo key m) j 0) (omega arith) (omega arith))
    | no far ↦
        ap (λ j. get_or (round_out bytes ks rest) j 0) (omega arith)
        ∙ get_or-round_far bytes ks rest (i - 8) (omega arith)
        ∙ get_or-ctr_loop n (u32 (counter + 1)) (drop 7 xs) (i - 8)
            (omega (arith, length-drop 7 xs)) (omega arith) (omega (arith, length-drop 7 xs))
        ∙ ap₂ bit_xor (get_or-drop 8 bytes (i - 8) 0 ∙ ap (λ j. get_or bytes j 0) (omega arith))
            (ap₂ (λ m j. get_or (keystream bo key m) j 0) (omega arith) (omega arith))
  ]
    where
      bytes : List ℕ
      bytes = x ∷ xs

      ks : List ℕ
      ks = keystream bo key counter

      rest : List ℕ
      rest = ctr_loop bo key n (u32 (counter + 1)) (drop 7 xs)

  pub length-ctr_xor :
      (counter : ℕ) (bytes : List ℕ) → length (ctr_xor bo key counter bytes) ≡ length bytes
  unfolding ctr_xor
  length-ctr_xor counter bytes = length-ctr_loop (length bytes) counter bytes

  -- Byte `i` of the result is byte `i` of the buffer combined with byte `i` of the keystream that
  -- starts at the counter.
  pub get_or-ctr_xor :
      (counter : ℕ) (bytes : List ℕ) (i : ℕ)
      → counter < 2 ^ 32
      → i < length bytes
      → get_or (ctr_xor bo key counter bytes) i 0 ≡ bit_xor (get_or bytes i 0) (pad counter i)
  unfolding ctr_xor
  get_or-ctr_xor counter bytes i c p =
      get_or-ctr_loop (length bytes) counter bytes i (omega arith) c p

  -- Encrypting twice under one key and counter gives the buffer back.
  pub ctr_xor_involutive :
      (counter : ℕ) (bytes : List ℕ)
      → counter < 2 ^ 32
      → ctr_xor bo key counter (ctr_xor bo key counter bytes) ≡ bytes
  ctr_xor_involutive counter bytes c = eq_of_get_or _ bytes 0 same_length λ i p.
      let q : i < length bytes = omega (arith, same_length) in
      get_or-ctr_xor counter (ctr_xor bo key counter bytes) i c
        (omega (arith, same_length, length-ctr_xor counter bytes))
      ∙ ap (λ b. bit_xor b (pad counter i)) (get_or-ctr_xor counter bytes i c q)
      ∙ bit_xor_cancel (get_or bytes i 0) (pad counter i)
    where
      same_length : length (ctr_xor bo key counter (ctr_xor bo key counter bytes)) ≡ length bytes
      same_length =
          length-ctr_xor counter (ctr_xor bo key counter bytes) ∙ length-ctr_xor counter bytes
