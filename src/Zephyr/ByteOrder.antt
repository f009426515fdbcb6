-- ===== src/Zephyr/ByteOrder.antt =====
-- Zephyr's sys/byteorder.h: sys_get_* reads a number from a buffer, sys_put_* writes its bytes.
-- A buffer that is read is the list of the bytes from the pointer on.
use iot_zephyr_app.Base.{ℕ, ◌<◌, ◌^◌, ◌++◌, ◌≡◌, List, length, All}

abbrev pub IsByte : ℕ → Type 0
IsByte b = b < 256

pub record ByteOrder : Type 0 where
  pub get_be16 : List ℕ → ℕ
  pub get_be32 : List ℕ → ℕ
  pub get_le16 : List ℕ → ℕ
  pub get_le32 : List ℕ → ℕ
  pub get_le64 : List ℕ → ℕ
  pub put_be16 : ℕ → List ℕ
  pub put_be32 : ℕ → List ℕ
  pub put_le32 : ℕ → List ℕ
  pub put_le64 : ℕ → List ℕ
  pub length-put_be16 : (x : ℕ) → length (put_be16 x) ≡ 2
  pub length-put_be32 : (x : ℕ) → length (put_be32 x) ≡ 4
  pub length-put_le32 : (x : ℕ) → length (put_le32 x) ≡ 4
  pub length-put_le64 : (x : ℕ) → length (put_le64 x) ≡ 8
  pub put_be32-IsByte : (x : ℕ) → All IsByte (put_be32 x)
  pub get-put_be16 : (x : ℕ) (rest : List ℕ) → x < 2 ^ 16 → get_be16 (put_be16 x ++ rest) ≡ x
  pub get-put_be32 : (x : ℕ) (rest : List ℕ) → x < 2 ^ 32 → get_be32 (put_be32 x ++ rest) ≡ x
  pub get-put_le32 : (x : ℕ) (rest : List ℕ) → x < 2 ^ 32 → get_le32 (put_le32 x ++ rest) ≡ x
  pub get-put_le64 : (x : ℕ) → x < 2 ^ 64 → get_le64 (put_le64 x) ≡ x
  pub get_le32-lt : (bytes : List ℕ) → get_le32 bytes < 2 ^ 32
