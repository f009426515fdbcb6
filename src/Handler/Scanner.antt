-- ===== src/Handler/Scanner.antt =====
-- applications/angle-handler: what the scanner reports, as src/can.c reads it, and a pass of the
-- radio's receive thread in src/rf24.c, which hands such frames on.
pub mod Frames
mod Tests
use iot_zephyr_app.Base.{
  ℕ, ◌+◌, ◌-◌, Bool, true, false, not, ◌&&◌, ◌||◌, Option, none, some, List, [], ◌∷◌, ◌++◌,
  if◌then◌else◌, ltb, ◌==◌, length, take, drop, get_or, replicate, bit_and, ℤ, pos, negsuc,
}
use iot_zephyr_app.Zephyr.ByteOrder.{ByteOrder}
use iot_zephyr_app.Crypt.{Crypt, open_frame}
use iot_zephyr_app.GatewayRadio.{test_frame, id_size}
use iot_zephyr_app.Handler.Stick.{s16}

abbrev pub overbreak_laser : ℕ
overbreak_laser = 0x263

abbrev pub coord_xy : ℕ
coord_xy = 0x363

abbrev pub coord_z : ℕ
coord_z = 0x463

pub record ScannerData : Type 0 where
  pub overbreak_valid : ℤ
  pub overbreak_value : ℤ
  pub laser_valid : ℤ
  pub laser_distance : ℤ
  pub coord_xy_valid : ℤ
  pub coord_x_value : ℤ
  pub coord_y_value : ℤ
  pub coord_z_valid : ℤ
  pub coord_z_value : ℤ

-- A read of a uint32_t as int32_t.
abbrev pub s32 : ℕ → ℤ
s32 n = if ltb n 2147483648 then pos n else negsuc (4294967295 - n)

-- `(byte & bit) ? 1 : -1`.
abbrev pub flag : ℕ → ℕ → ℤ
flag byte bit = if bit_and byte bit == 0 then negsuc 0 else pos 1

-- The frames that the scanner's data comes in.
abbrev pub is_scanner : ℕ → Bool
is_scanner id = id == overbreak_laser || (id == coord_xy || id == coord_z)

-- What the thread does with a frame. `overflow`: it copies more than the eight bytes of `cf.data`,
-- and what follows is undefined.
pub data Outcome : Type 0 where
  ignored : Outcome
  tested : List ℕ → Outcome
  parsed : ScannerData → Outcome
  overflow : Outcome

module _ (order : ByteOrder) where
  -- The eight bytes of a frame, and whether the display is refreshed.
  pub parse_scanner : ℕ → List ℕ → ScannerData → ScannerData × Bool
  parse_scanner id bytes s =
      let z_valid = flag (get_or bytes 4 0) 1 in
      if id == overbreak_laser
      then (
        record s {
          overbreak_valid = flag (get_or bytes 0 0) 1;
          laser_valid = flag (get_or bytes 0 0) 2;
          overbreak_value = s16 (order.get_be16 (drop 2 bytes));
          laser_distance = s32 (order.get_be32 (drop 4 bytes));
        },
        true,
      )
      else if id == coord_xy
      then (
        record s {
          coord_x_value = s32 (order.get_be32 bytes);
          coord_y_value = s32 (order.get_be32 (drop 4 bytes));
          coord_xy_valid = pos 1;
        },
        false,
      )
      else if id == coord_z
      then (
        record s {
          coord_z_value = s32 (order.get_be32 bytes);
          coord_z_valid = z_valid;
          coord_xy_valid = z_valid;
        },
        false,
      )
      else (s, false)

  -- A plain frame of this length; the rest of `cf.data` is zero.
  pub dispatch : ScannerData → List ℕ → ℕ → Outcome
  unfolding parse_scanner
  dispatch s plain len =
      let can_id = order.get_be16 plain in
      let data_bytes = take (len - id_size) (drop id_size plain) in
      let cf = data_bytes ++ replicate (8 - length data_bytes) 0 in
      if can_id == test_frame
      then tested data_bytes
      else if not (is_scanner can_id)
      then ignored
      else if ltb 8 (len - id_size)
      then overflow
      else parsed (parse_scanner can_id cf s).0

  -- A pass of rf24_rx_thread with a frame, with encryption.
  pub rx_pass : Crypt → ScannerData → List ℕ → ℕ → Crypt × Outcome
  rx_pass c s frame len =
      let (c', plain, m) = open_frame order c frame len in
      if ltb len id_size
      then (c, ignored)
      else if m == 0
      then (c', ignored)
      else (c', dispatch s plain m)
