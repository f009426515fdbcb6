-- ===== src/J1939/Transport.antt =====
-- examples/j1939-demo/src/j1939_tp.c: a message of up to 1785 bytes as a BAM broadcast.
pub mod Reassembly
use iot_zephyr_app.Base.{
  ℕ, zero, suc, ◌+◌, ◌-◌, ◌*◌, ◌/◌, ◌^◌, min, Bool, true, false, not, ◌&&◌, ◌||◌, Option, none,
  some, List, [], ◌∷◌, ◌++◌, bit_and, if◌then◌else◌, ltb, leb, ◌==◌, length, take, drop, replicate,
  u8,
}
use iot_zephyr_app.J1939.{J1939, Frame, send_raw, send, pgn_tp_cm, pgn_tp_dt, sa_global}

abbrev pub max_data : ℕ
max_data = 1785

abbrev pub tp_cm_bam : ℕ
tp_cm_bam = 0x20

abbrev pub tp_prio : ℕ
tp_prio = 7

-- 0, -EADDRNOTAVAIL, -EINVAL, and what a send returns otherwise.
pub data Result : Type 0 where
  bam_sent : Result
  no_address : Result
  bad_length : Result
  send_failed : Result

-- The control frame's bytes.
pub cm_bytes : ℕ → ℕ → List ℕ
cm_bytes pgn len =
    tp_cm_bam
    ∷ u8 (bit_and len 0xFF)
    ∷ u8 (bit_and (len / 2 ^ 8) 0xFF)
    ∷ u8 ((len + 6) / 7)
    ∷ 0xFF
    ∷ u8 (bit_and pgn 0xFF)
    ∷ u8 (bit_and (pgn / 2 ^ 8) 0xFF)
    ∷ u8 (bit_and (pgn / 2 ^ 16) 0xFF)
    ∷ []

-- A data frame's bytes: the number, and seven bytes that end in padding.
pub dt_bytes : ℕ → List ℕ → List ℕ
dt_bytes seq rest = let n = min 7 (length rest) in seq ∷ (take n rest ++ replicate (7 - n) 0xFF)

-- A frame handed to can_send, which succeeds or not, and what follows if it does.
pub transmit : Bool → Option Frame → Bool × List Frame → Bool × List Frame
transmit ok none later = (false, [])
transmit false (some f) later = (false, f ∷ [])
transmit true (some f) (done, frames) = (done, f ∷ frames)

-- `can k` tells whether can_send succeeds for the data frame number `k`, and for the control frame
-- at 0. The bytes that are not sent yet are the last argument.
pub dt_loop : ℕ → (ℕ → Bool) → ℕ → ℕ → List ℕ → Bool × List Frame
unfolding send_raw dt_bytes transmit
dt_loop zero can sa seq rest = (true, [])
dt_loop (suc fuel) can sa seq [] = (true, [])
dt_loop (suc fuel) can sa seq (b ∷ bs) =
    transmit (can seq) (send_raw tp_prio pgn_tp_dt sa sa_global (dt_bytes seq (b ∷ bs)))
      (dt_loop fuel can sa (u8 (seq + 1)) (drop 7 (b ∷ bs)))

abbrev pub result_of : Bool × List Frame → Result × List Frame
result_of (done, frames) = (if done then bam_sent else send_failed, frames)

-- The loop makes a round for each seven bytes.
unfoldable pub send_bam : J1939 → (ℕ → Bool) → ℕ → List ℕ → Result × List Frame
unfolding dt_loop transmit send_raw send cm_bytes
send_bam s can pgn data_bytes =
    let len = length data_bytes in
    if not s.addr_valid
    then (no_address, [])
    else if len == 0 || ltb max_data len
    then (bad_length, [])
    else if leb len 8
    then result_of (transmit (can 0) (send s tp_prio pgn sa_global data_bytes) (true, []))
    else result_of (
        transmit (can 0) (send_raw tp_prio pgn_tp_cm s.self_sa sa_global (cm_bytes pgn len))
          (dt_loop ((len + 6) / 7) can s.self_sa 1 data_bytes))
