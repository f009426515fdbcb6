-- ===== src/Crypt.antt =====
-- drivers/nrf24l01p/nrf24_crypt.c: the XXTEA-CTR link encryption of the nRF24L01+ driver.
-- The static variables are the fields of `Crypt`; `buf` is a list of bytes; a `uint32_t` is a
-- number below 2 ^ 32, and every sum and left shift in it is reduced by `u32`.
pub mod Stream
pub mod Window
pub mod Link
pub mod Session
pub mod Leak
mod Tests
use iot_zephyr_app.Base.{
  ℕ, zero, suc, ◌+◌, ◌-◌, ◌*◌, ◌/◌, ◌%◌, Bool, true, false, not, ◌||◌, Option, none, some, List, [],
  ◌∷◌, ◌++◌, bit_and, bit_xor, if◌then◌else◌, ltb, leb, ◌==◌, u8, u32, get_or, take, drop, length,
}
use iot_zephyr_app.Zephyr.ByteOrder.{ByteOrder}

pub record Crypt : Type 0 where
  pub crypt_key : List ℕ
  pub tx_counter : ℕ
  pub rx_counter : ℕ
  pub rx_initialized : Bool

abbrev pub xxtea_delta : ℕ
xxtea_delta = 0x9E3779B9

abbrev pub rx_window : ℕ
rx_window = 32

-- The variables of `xxtea_encrypt_block` between two rounds.
pub record Block : Type 0 where
  pub v0 : ℕ
  pub v1 : ℕ
  pub z : ℕ
  pub sum : ℕ

-- The term that is added to a word: `y` and `z` are its neighbours, `k` the key word.
mix : ℕ → ℕ → ℕ → ℕ → ℕ
mix y z sum k =
    bit_xor (u32 (bit_xor (z / 32) (u32 (y * 4)) + bit_xor (y / 8) (u32 (z * 16))))
      (u32 (bit_xor sum y + bit_xor k z))

xxtea_round : List ℕ → Block → Block
unfolding mix
xxtea_round key b =
    let sum : ℕ = u32 (b.sum + xxtea_delta) in
    let e : ℕ = bit_and (sum / 4) 3 in
    let w0 : ℕ = u32 (b.v0 + mix b.v1 b.z sum (get_or key (bit_xor (bit_and 0 3) e) 0)) in
    let w1 : ℕ = u32 (b.v1 + mix w0 w0 sum (get_or key (bit_xor (bit_and 1 3) e) 0)) in
    record { v0 = w0; v1 = w1; z = w1; sum = sum }

xxtea_rounds : List ℕ → ℕ → Block → Block
xxtea_rounds key zero b = b
xxtea_rounds key (suc n) b = xxtea_rounds key n (xxtea_round key b)

abbrev pub rounds : ℕ
rounds = 6 + 52 / 2

pub xxtea_encrypt_block : List ℕ → ℕ → ℕ → ℕ × ℕ
unfolding xxtea_rounds xxtea_round
xxtea_encrypt_block key v0 v1 =
    let b = xxtea_rounds key rounds (record { v0 = v0; v1 = v1; z = v1; sum = 0 }) in (b.v0, b.v1)

-- `buf[off + i] ^= ks[i]`, over the bytes that both have.
pub xor_bytes : List ℕ → List ℕ → List ℕ
xor_bytes [] ks = []
xor_bytes (x ∷ xs) [] = x ∷ xs
xor_bytes (x ∷ xs) (k ∷ ks) = bit_xor x k ∷ xor_bytes xs ks

-- The guess at the full 32-bit counter of a frame from its low byte; `none` rejects the frame.
pub infer_counter : Crypt → ℕ → Option ℕ
infer_counter s ctr_byte =
    if not s.rx_initialized
    then some ctr_byte
    else let rx_low : ℕ = u8 s.rx_counter in
      let diff : ℕ = u8 (ctr_byte + 256 - rx_low) in
      let base : ℕ = bit_and s.rx_counter 0xFFFFFF00 in
      if diff == 0 || ltb rx_window diff
      then none
      else if ltb ctr_byte rx_low
      then some (u32 (base + 256 + ctr_byte))
      else some (u32 (base + ctr_byte))

pub rx_reset : Crypt → Crypt
rx_reset s = record s { rx_initialized = false }

module _ (bo : ByteOrder) where
  -- The 8 bytes of keystream of one counter value; `4294967295 - counter` is `~counter`.
  pub keystream : List ℕ → ℕ → List ℕ
  keystream key counter =
      let (b0, b1) = xxtea_encrypt_block key counter (4294967295 - counter) in
      bo.put_be32 b0 ++ bo.put_be32 b1

  -- The `while (off < len)` loop: the list is the part of the buffer from `off` on.
  pub ctr_loop : List ℕ → ℕ → ℕ → List ℕ → List ℕ
  ctr_loop key zero counter bytes = bytes
  ctr_loop key (suc n) counter [] = []
  ctr_loop key (suc n) counter (x ∷ xs) =
      xor_bytes (take 8 (x ∷ xs)) (keystream key counter)
      ++ ctr_loop key n (u32 (counter + 1)) (drop 8 (x ∷ xs))

  -- A round takes at least one byte, so `length bytes` rounds are enough.
  pub ctr_xor : List ℕ → ℕ → List ℕ → List ℕ
  ctr_xor key counter bytes = ctr_loop key (length bytes) counter bytes

  key_word : List ℕ → ℕ → ℕ
  key_word addr i = bo.get_be32 (at 0 ∷ at 1 ∷ at 2 ∷ at 3 ∷ [])
    where
      at : ℕ → ℕ
      at j = get_or addr ((i * 4 + j) % 5) 0

  pub set_key : Crypt → List ℕ → Crypt
  unfolding key_word
  set_key s addr = record {
    crypt_key = key_word addr 0 ∷ key_word addr 1 ∷ key_word addr 2 ∷ key_word addr 3 ∷ [];
    tx_counter = 0;
    rx_counter = s.rx_counter;
    rx_initialized = false;
  }

  -- The buffer must have room for `plaintext_len + 1` bytes; the number is the value returned.
  pub seal : Crypt → List ℕ → ℕ → Crypt × List ℕ × ℕ
  seal s buf plaintext_len =
      if ltb plaintext_len 2 || ltb 31 plaintext_len
      then (s, buf, 0)
      else let ctr = s.tx_counter in
        (
          record s { tx_counter = u32 (ctr + 1) },
          u8 ctr
              ∷ (ctr_xor s.crypt_key ctr (take plaintext_len buf) ++ drop (plaintext_len + 1) buf),
          plaintext_len + 1,
        )

  -- `memmove` to the left leaves the last byte of the frame where it was.
  accept : Crypt → List ℕ → ℕ → ℕ → Crypt × List ℕ × ℕ
  accept s buf frame_len ctr =
      let plain = ctr_xor s.crypt_key ctr (drop 1 (take frame_len buf)) in
      (
        record s { rx_counter = ctr; rx_initialized = true },
        plain ++ drop (frame_len - 2) (plain ++ drop frame_len buf),
        frame_len - 1,
      )

  pub open_frame : Crypt → List ℕ → ℕ → Crypt × List ℕ × ℕ
  unfolding accept infer_counter
  open_frame s buf frame_len =
      if ltb frame_len 3 || ltb 32 frame_len
      then (s, buf, 0)
      else elim (infer_counter s (get_or buf 0 0)) [
        | none ↦ (s, buf, 0)
        | some ctr ↦ accept s buf frame_len ctr
      ]
