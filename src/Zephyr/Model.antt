-- ===== src/Zephyr/Model.antt =====
-- Concrete functions that meet the laws asked of Zephyr, for the tests.
use iot_zephyr_app.Base.{
  ℕ, ◌+◌, ◌*◌, ◌/◌, ◌%◌, ◌^◌, ◌≡◌, ◌++◌, refl, ap₂, ◌<◌, ◌∙◌, List, [], ◌∷◌, get_or, arith,
}
use iot_zephyr_app.Zephyr.ByteOrder.{ByteOrder}
use iot_zephyr_app.Zephyr.Crc.{Crc}

abbrev byte : ℕ → ℕ → ℕ
byte x i = x / 256 ^ i % 256

abbrev low : List ℕ → ℕ → ℕ
low bytes i = get_or bytes i 0 % 256

pub word_bytes :
    (x : ℕ)
    → x < 2 ^ 32
    → byte x 3 % 256 * 16777216 + byte x 2 % 256 * 65536 + byte x 1 % 256 * 256 + byte x 0 % 256 ≡ x
word_bytes x h = omega arith

unfoldable pub model_bytes : ByteOrder
model_bytes = record {
  get_be16 = λ b. low b 0 * 256 + low b 1;
  get_be32 = λ b. low b 0 * 16777216 + low b 1 * 65536 + low b 2 * 256 + low b 3;
  get_le16 = λ b. low b 1 * 256 + low b 0;
  get_le32 = λ b. low b 3 * 16777216 + low b 2 * 65536 + low b 1 * 256 + low b 0;
  get_le64 = λ b.
      (low b 7 * 16777216 + low b 6 * 65536 + low b 5 * 256 + low b 4) * 4294967296
      + (low b 3 * 16777216 + low b 2 * 65536 + low b 1 * 256 + low b 0);
  put_be16 = λ x. byte x 1 ∷ byte x 0 ∷ [];
  put_be32 = λ x. byte x 3 ∷ byte x 2 ∷ byte x 1 ∷ byte x 0 ∷ [];
  put_le32 = λ x. byte x 0 ∷ byte x 1 ∷ byte x 2 ∷ byte x 3 ∷ [];
  put_le64 = λ x.
      let lo = x % 4294967296 in
      let hi = x / 4294967296 in
      byte lo 0
      ∷ byte lo 1
      ∷ byte lo 2
      ∷ byte lo 3
      ∷ byte hi 0
      ∷ byte hi 1
      ∷ byte hi 2
      ∷ byte hi 3
      ∷ [];
  length-put_be16 = λ x. refl;
  length-put_be32 = λ x. refl;
  length-put_le32 = λ x. refl;
  length-put_le64 = λ x. refl;
  put_be32-IsByte = λ x. omega arith;
  get-put_be16 = λ x rest h. omega arith;
  get-put_be32 = λ x rest h. omega arith;
  get-put_le32 = λ x rest h. omega arith;
  get-put_le64 = λ x h.
      ap₂ (λ hi lo. hi * 4294967296 + lo) (word_bytes (x / 4294967296) (omega (arith, h)))
        (word_bytes (x % 4294967296) (omega arith))
      ∙ omega arith;
  get_le32-lt = λ b. omega arith;
}

abbrev checksum : ℕ → List ℕ → ℕ
checksum seed [] = seed
checksum seed (x ∷ xs) = checksum ((seed * 31 + x) % 65536) xs

abbrev pub checksum-append :
    (seed : ℕ) (xs ys : List ℕ) → checksum seed (xs ++ ys) ≡ checksum (checksum seed xs) ys
checksum-append seed [] ys = refl
checksum-append seed (x ∷ xs) ys = checksum-append ((seed * 31 + x) % 65536) xs ys

unfoldable pub model_crc : Crc
model_crc = record {
  crc16_ccitt = checksum;
  crc16_ccitt-append = checksum-append;
  crc16_ccitt-nil = λ seed. refl;
}
