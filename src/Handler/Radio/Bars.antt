-- ===== src/Handler/Radio/Bars.antt =====
-- The bounds of the link's quality, and its rise and fall.
use iot_zephyr_app.Base.{ℕ, ◌≤◌, ◌<◌, ◌≡◌, Bool, false, List, [], ◌∷◌, arith}
use iot_zephyr_app.Handler.Radio.{tx_level, bars, update_rssi, run}

tx_level-le : (acked : Bool) (retrans : ℕ) → tx_level acked retrans ≤ 4
unfolding tx_level
tx_level-le acked retrans = ground arith

-- One transmission keeps the quality at most 32, and below 28 if it is, and the bars are those of
-- the quality.
update_rssi_lem :
    (acked : Bool) (retrans quality rssi : ℕ)
    → quality ≤ 32
    → let (quality', rssi', _) = update_rssi acked retrans (quality, rssi) in
      (quality' ≤ 32) × (rssi' ≡ bars quality') × (quality < 28 → quality' < 28)
unfolding update_rssi
update_rssi_lem acked retrans quality rssi h = ground (arith, tx_level-le acked retrans)

bars-lt : (quality : ℕ) → quality < 28 → bars quality < 4
unfolding bars
bars-lt quality h = ground arith

-- Once the quality is below 28, no transmissions bring the fourth bar back, not even if each is
-- acknowledged at once.
pub run-below :
    (results : List (Bool × ℕ)) (quality rssi : ℕ)
    → quality < 28
    → rssi < 4
    → let (quality', rssi') = run results (quality, rssi) in (quality' < 28) × (rssi' < 4)
unfolding run
run-below [] quality rssi h k = (h, k)
run-below ((acked, retrans) ∷ results) quality rssi h k =
    let (_, shown, below) = update_rssi_lem acked retrans quality rssi (omega arith) in
    let (quality', rssi', _) = update_rssi acked retrans (quality, rssi) in
    run-below results quality' rssi' (below h) (rw shown (bars-lt _ (below h)))

-- From any quality of at most 32, two transmissions in a row that fail leave no bar.
fails_twice :
    (quality rssi r1 r2 : ℕ)
    → quality ≤ 32
    → run ((false, r1) ∷ (false, r2) ∷ []) (quality, rssi) ≡ (0, 0)
unfolding run update_rssi bars tx_level
fails_twice quality rssi r1 r2 h = ground arith
