-- ===== src/Handler/Radio.antt =====
-- applications/angle-handler/src/rf24.c: the quality of the radio link, as its bars show it.
pub mod Bars
mod Tests
use iot_zephyr_app.Base.{
  ℕ, ◌+◌, ◌-◌, ◌*◌, ◌/◌, Bool, true, false, not, List, [], ◌∷◌, if◌then◌else◌, ltb, leb, ◌==◌,
}

abbrev pub qual_alpha_num : ℕ
qual_alpha_num = 1

abbrev pub qual_alpha_den : ℕ
qual_alpha_den = 8

abbrev pub qual_fail_drop : ℕ
qual_fail_drop = 16

-- A transmission's mark, from 0 to 4.
pub tx_level : Bool → ℕ → ℕ
tx_level acked retrans =
    if not acked
    then 0
    else if leb retrans 1
    then 4
    else if leb retrans 4
    then 3
    else if leb retrans 9
    then 2
    else 1

-- The bars for a quality.
pub bars : ℕ → ℕ
bars quality =
    if leb 28 quality
    then 4
    else if leb 20 quality
    then 3
    else if leb 12 quality
    then 2
    else if leb 4 quality
    then 1
    else 0

-- The quality, the bars that the modules share, and whether the display is refreshed.
pub update_rssi : Bool → ℕ → ℕ × ℕ → ℕ × ℕ × Bool
unfolding tx_level bars
update_rssi acked retrans (quality, rssi) =
    let smoothed =
      (tx_level acked retrans * qual_alpha_den * qual_alpha_num
        + quality * (qual_alpha_den - qual_alpha_num))
      / qual_alpha_den in
    let quality' = if not acked then smoothed - qual_fail_drop else smoothed in
    let level = bars quality' in
    if not (rssi == level) then (quality', level, true) else (quality', rssi, false)

-- The results of transmissions, one after another.
pub run : List (Bool × ℕ) → ℕ × ℕ → ℕ × ℕ
unfolding update_rssi
run [] s = s
run ((acked, retrans) ∷ results) s =
    let (quality, rssi, _) = update_rssi acked retrans s in run results (quality, rssi)
