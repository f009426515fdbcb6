-- ===== src/GatewayUdp/Coordinates.antt =====
-- The scanner's data on its way from the host through the gateway to the handle.
use iot_zephyr_app.Base.{
  ℕ, ◌+◌, ◌-◌, ◌^◌, ◌≤◌, ◌<◌, ◌≡◌, refl, sym, ap, ◌∙◌, Bool, true, some, List, [], ◌++◌,
  if◌then◌else◌, ltb, length, length-append, replicate, drop-append_self, arith, le→ltb_false, pos,
}
use iot_zephyr_app.Zephyr.ByteOrder.{ByteOrder}
use iot_zephyr_app.Crypt.{Crypt, seal}
use iot_zephyr_app.Crypt.Link.{InStep}
use iot_zephyr_app.GatewayRadio.{id_size, build_frame}
use iot_zephyr_app.GatewayRadio.Transfer.{any_of, gw_rf24_send-builds, open_frame-build_frame}
use iot_zephyr_app.Handler.Scanner.{
  ScannerData, s32, is_scanner, coord_xy, parse_scanner, rx_pass, parsed, overflow,
}
use iot_zephyr_app.Handler.Scanner.Frames.{
  dispatch_lem, rx_pass-opens, scanner_kind, parse_scanner-coord_xy,
}
use iot_zephyr_app.GatewayUdp.{data_rx}

module _ (order : ByteOrder) where
  -- A frame of the scanner from the host with up to 29 bytes of data is sent by the ready radio if
  -- one of the six attempts succeeds. A handle that has the gateway's key, has accepted a frame
  -- before and is from 1 to 32 counters behind, the gateway's counter being more than 32 below its
  -- wrap, and that gets the frame, takes the data as a CAN frame's if it has up to eight bytes, and
  -- overflows the frame's buffer otherwise.
  pub rx_pass-data_rx :
      (t r : Crypt) (s : ScannerData) (air : ℕ → Bool) (gap can_id : ℕ) (data_bytes junk : List ℕ)
      → InStep gap t r
      → 1 ≤ gap
      → gap ≤ 32
      → is_scanner can_id ≡ true
      → length data_bytes ≤ 29
      → t.tx_counter + 32 < 2 ^ 32
      → let (sent, t') = data_rx order true air t (order.put_be16 can_id ++ data_bytes) junk in
        let buf = order.put_be16 can_id ++ (data_bytes ++ junk) in
        let (_, frame, n) = seal order t buf (length data_bytes + id_size) in
        let (r', outcome) = rx_pass order r s frame n in
        let cf = data_bytes ++ replicate (8 - length data_bytes) 0 in
        (sent ≡ any_of 6 air 0)
        × (build_frame order true t can_id data_bytes junk ≡ some (t', frame, n))
        × (outcome ≡ (
            if ltb 8 (length data_bytes)
            then overflow
            else parsed (parse_scanner order can_id cf s).0))
        × InStep 1 t' r'
  unfolding data_rx
  rx_pass-data_rx t r s air gap can_id data_bytes junk v lo hi scans few c =
      let (small, _) = scanner_kind order can_id scans in
      let (built, long, count, plain, in_step) =
        open_frame-build_frame order t r gap can_id data_bytes junk v lo hi few c in
      let sealed =
        seal order t (order.put_be16 can_id ++ (data_bytes ++ junk))
          (length data_bytes + id_size) in
      let two = order.length-put_be16 can_id in
      let enough : 2 ≤ length (order.put_be16 can_id ++ data_bytes) =
        omega (arith, length-append (order.put_be16 can_id) data_bytes, two) in
      rw
        (
          le→ltb_false (length (order.put_be16 can_id ++ data_bytes)) 2 enough,
          order.get-put_be16 can_id data_bytes small,
          scans,
          drop-append_self (order.put_be16 can_id) data_bytes 2 (sym two),
          gw_rf24_send-builds order air t can_id data_bytes junk _ _ _ built,
          rx_pass-opens order r s sealed.1 sealed.2 (omega (arith, long)) (omega (arith, count)),
          count,
          dispatch_lem order s _ data_bytes can_id scans plain,
        )
        (refl, built, refl, in_step)

  -- Two 32-bit coordinates that the host sends are built into one frame, which the ready radio
  -- sends if one of its six attempts succeeds. A handle that has the gateway's key, has accepted a
  -- frame before and is from 1 to 32 counters behind, the gateway's counter being more than 32
  -- below its wrap, and that gets this frame, has the two as integers with a sign, marked as valid;
  -- the rest of its data stays.
  pub coordinates_arrive :
      (t r : Crypt) (s : ScannerData) (air : ℕ → Bool) (gap x y : ℕ) (junk : List ℕ)
      → InStep gap t r
      → 1 ≤ gap
      → gap ≤ 32
      → x < 2 ^ 32
      → y < 2 ^ 32
      → t.tx_counter + 32 < 2 ^ 32
      → let data_bytes = order.put_be32 x ++ order.put_be32 y in
        let (sent, t') = data_rx order true air t (order.put_be16 coord_xy ++ data_bytes) junk in
        let buf = order.put_be16 coord_xy ++ (data_bytes ++ junk) in
        let (_, frame, n) = seal order t buf 10 in
        let (r', outcome) = rx_pass order r s frame n in
        (sent ≡ any_of 6 air 0)
        × (build_frame order true t coord_xy data_bytes junk ≡ some (t', frame, n))
        × (outcome
            ≡ parsed
                (record s { coord_x_value = s32 x; coord_y_value = s32 y; coord_xy_valid = pos 1 }))
        × InStep 1 t' r'
  coordinates_arrive t r s air gap x y junk v lo hi small_x small_y c =
      let data_bytes = order.put_be32 x ++ order.put_be32 y in
      let eight : length data_bytes ≡ 8 = omega (
        arith,
        length-append (order.put_be32 x) (order.put_be32 y),
        order.length-put_be32 x,
        order.length-put_be32 y,
      ) in
      let all =
        rx_pass-data_rx t r s air gap coord_xy data_bytes junk v lo hi refl (omega (arith, eight))
          c in
      let padding = parse_scanner-coord_xy order s x y [] small_x small_y in
      let (sent, built, outcome, in_step) = rw eight at all in
      (sent, built, outcome ∙ ap parsed padding, in_step)
