-- ===== src/Crypt/Tests.antt =====
-- Runs of nrf24_crypt.c, and the theorems about it at concrete inputs.
use iot_zephyr_app.Base.{ℕ, ◌≡◌, refl, true, false, List, [], ◌∷◌, ◌++◌, bit_xor, get_or, arith}
use iot_zephyr_app.Zephyr.Model.{model_bytes}
use iot_zephyr_app.Crypt.{xxtea_encrypt_block, Crypt, seal, set_key}
use iot_zephyr_app.Crypt.Link.{InStep}
use iot_zephyr_app.Crypt.Session.{Traffic, session, session-delivered}
use iot_zephyr_app.Crypt.Leak.{keystream_reused}

abbrev key : List ℕ
key = 0xE7E7E7E7 ∷ 0xE7E7E7E7 ∷ 0xE7E7E7E7 ∷ 0xE7E7E7E7 ∷ []

abbrev sender : Crypt
sender = record { crypt_key = key; tx_counter = 258; rx_counter = 0; rx_initialized = false }

abbrev receiver : Crypt
receiver = record { crypt_key = key; tx_counter = 7; rx_counter = 250; rx_initialized = true }

abbrev report : List ℕ
report = 1 ∷ 0x23 ∷ 3 ∷ 4 ∷ 5 ∷ 6 ∷ 7 ∷ 8 ∷ 9 ∷ 10 ∷ 11 ∷ []

-- The default address, as the driver's Kconfig has it, fills all four words alike.
set_key_default :
    (set_key model_bytes sender (0xE7 ∷ 0xE7 ∷ 0xE7 ∷ 0xE7 ∷ 0xE7 ∷ [])).crypt_key ≡ key
unfolding set_key model_bytes
set_key_default = refl

-- Two blocks, with the values that an independent computation of the cipher gives.
xxtea_encrypts :
    (xxtea_encrypt_block key 258 4294967037 ≡ (0xbc24e571, 0x794e1ddc))
    × (xxtea_encrypt_block (1 ∷ 2 ∷ 3 ∷ 4 ∷ []) 5 4294967290 ≡ (0x9866c996, 0x67853e03))
unfolding xxtea_encrypt_block
xxtea_encrypts = (refl, refl)

in_step : InStep 8 sender receiver
in_step = record { same_key = refl; started = refl; behind = refl }

abbrev traffic : Traffic
traffic = (true, report) ∷ (false, report) ∷ (true, 1 ∷ 2 ∷ []) ∷ []

session-delivered_example : session model_bytes sender receiver traffic ≡ report ∷ (1 ∷ 2 ∷ []) ∷ []
session-delivered_example =
    session-delivered model_bytes traffic 8 sender receiver in_step (omega arith) (omega arith)
      (omega arith)

keystream_reused_example :
    let (t, frame, _) = seal model_bytes sender (report ++ 0 ∷ []) 11 in
    let (_, frame', _) = seal model_bytes t (report ++ 0 ∷ []) 11 in
    bit_xor (get_or frame 10 0) (get_or frame' 2 0) ≡ bit_xor 10 0x23
keystream_reused_example =
    keystream_reused model_bytes sender (report ++ 0 ∷ []) (report ++ 0 ∷ []) 11 11 1 (omega arith)
      (omega arith) (omega arith) (omega arith) (omega arith) (omega arith) (omega arith)
      (omega arith) (omega arith)
