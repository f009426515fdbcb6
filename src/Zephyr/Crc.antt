-- ===== src/Zephyr/Crc.antt =====
-- Zephyr's crc16_ccitt (sys/crc.h), of which the documentation says that the value of one block is
-- the seed for the next.
use iot_zephyr_app.Base.{ℕ, ◌++◌, ◌≡◌, List, []}

pub record Crc : Type 0 where
  pub crc16_ccitt : ℕ → List ℕ → ℕ
  pub crc16_ccitt-append :
      (seed : ℕ) (xs ys : List ℕ)
      → crc16_ccitt seed (xs ++ ys) ≡ crc16_ccitt (crc16_ccitt seed xs) ys
  pub crc16_ccitt-nil : (seed : ℕ) → crc16_ccitt seed [] ≡ seed
