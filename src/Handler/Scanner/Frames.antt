-- ===== src/Handler/Scanner/Frames.antt =====
-- What the handle's receive thread does with the frames of the scanner.
use iot_zephyr_app.Base.{
  ℕ, ◌+◌, ◌-◌, ◌^◌, ◌≤◌, ◌<◌, ◌≡◌, refl, sym, ap, ◌∙◌, true, false, List, ◌++◌, if◌then◌else◌, ltb,
  ◌==◌, ==_no, length, length-append, append_assoc, length-take, replicate, take, take-add, drop,
  drop-append_self, arith, le→ltb_false, pos,
}
use iot_zephyr_app.Zephyr.ByteOrder.{ByteOrder}
use iot_zephyr_app.Crypt.{Crypt, open_frame}
use iot_zephyr_app.GatewayRadio.{id_size, test_frame}
use iot_zephyr_app.GatewayRadio.Transfer.{get_be16-kind}
use iot_zephyr_app.Handler.Scanner.{
  ScannerData, s32, is_scanner, coord_xy, parse_scanner, dispatch, rx_pass, parsed, overflow,
}

module _ (order : ByteOrder) where
  -- The bytes behind the identifier.
  drop_id :
      (plain data_bytes : List ℕ) (can_id : ℕ)
      → take (length data_bytes + id_size) plain ≡ order.put_be16 can_id ++ data_bytes
      → take (length data_bytes) (drop id_size plain) ≡ data_bytes
  drop_id plain data_bytes can_id e =
      sym (drop-append_self (take 2 plain) (take (length data_bytes) (drop 2 plain)) 2 two)
      ∙ ap (drop 2) parts
      ∙ drop-append_self (order.put_be16 can_id) data_bytes 2 (sym (order.length-put_be16 can_id))
    where
      swapped : 2 + length data_bytes ≡ length data_bytes + id_size
      swapped = omega arith

      parts :
          take 2 plain ++ take (length data_bytes) (drop 2 plain)
          ≡ order.put_be16 can_id ++ data_bytes
      parts = sym (take-add 2 (length data_bytes) plain) ∙ ap (λ n. take n plain) swapped ∙ e

      two : 2 ≡ length (take 2 plain)
      two = omega (
        arith,
        length-take 2 plain,
        length-take (length data_bytes + id_size) plain,
        ap length e,
        length-append (order.put_be16 can_id) data_bytes,
        order.length-put_be16 can_id,
      )

  pub scanner_kind :
      (can_id : ℕ) → is_scanner can_id ≡ true → (can_id < 2 ^ 16) × ((can_id == test_frame) ≡ false)
  scanner_kind can_id scans = ground arith

  -- What the handle does with a frame of the scanner.
  pub dispatch_lem :
      (s : ScannerData) (plain data_bytes : List ℕ) (can_id : ℕ)
      → is_scanner can_id ≡ true
      → take (length data_bytes + id_size) plain ≡ order.put_be16 can_id ++ data_bytes
      → let cf = data_bytes ++ replicate (8 - length data_bytes) 0 in
        dispatch order s plain (length data_bytes + id_size) ≡ (
          if ltb 8 (length data_bytes)
          then overflow
          else parsed (parse_scanner order can_id cf s).0)
  unfolding dispatch
  dispatch_lem s plain data_bytes can_id scans e =
      let (small, other) = scanner_kind can_id scans in
      let count : length data_bytes + id_size - id_size ≡ length data_bytes = omega arith in
      rw
        (
          get_be16-kind order plain (length data_bytes + id_size) can_id data_bytes small e,
          count,
          drop_id plain data_bytes can_id e,
          other,
          scans,
        )
        refl

  pub rx_pass-opens :
      (c : Crypt) (s : ScannerData) (frame : List ℕ) (n : ℕ)
      → 2 ≤ n
      → let (c', plain, m) = open_frame order c frame n in
        2 ≤ m → rx_pass order c s frame n ≡ (c', dispatch order s plain m)
  unfolding rx_pass
  rx_pass-opens c s frame n lo lo' =
      let (c', plain, m) = open_frame order c frame n in
      rw (le→ltb_false n id_size lo, ==_no m 0 (omega (arith, lo'))) refl

  -- A frame with two coordinates.
  pub parse_scanner-coord_xy :
      (s : ScannerData) (x y : ℕ) (rest : List ℕ)
      → x < 2 ^ 32
      → y < 2 ^ 32
      → (parse_scanner order coord_xy ((order.put_be32 x ++ order.put_be32 y) ++ rest) s).0
        ≡ record s { coord_x_value = s32 x; coord_y_value = s32 y; coord_xy_valid = pos 1 }
  unfolding parse_scanner
  parse_scanner-coord_xy s x y rest small_x small_y =
      rw
        (
          append_assoc (order.put_be32 x) (order.put_be32 y) rest,
          order.get-put_be32 x (order.put_be32 y ++ rest) small_x,
          drop-append_self (order.put_be32 x) (order.put_be32 y ++ rest) 4
              (sym (order.length-put_be32 x)),
          order.get-put_be32 y rest small_y,
        )
        refl
