-- ===== src/ModbusRegs/Tests.antt =====
-- The theorems about function.c of io-edge-hub at concrete inputs: the registers as they are at the
-- first start, with the clock set.
use iot_zephyr_app.Base.{
  ◌+◌, ◌*◌, ◌^◌, ◌≡◌, refl, true, List, ◌&&◌, ◌||◌, some, [], ◌∷◌, if◌then◌else◌, ◌==◌, get_or, set,
  arith,
}
use iot_zephyr_app.ModbusRegs.{Regs, set_timestamp, timestamp_lo, io_write_holding}
use iot_zephyr_app.ModbusRegs.Overlap.{Flight, Event, begins, ends, coil}
use iot_zephyr_app.ModbusRegs.Writes.{io_write_holding-clock}
use iot_zephyr_app.ModbusRegs.Settings.{mb_handle_export, ip_is_valid_for_export}
use iot_zephyr_app.ModbusRegs.Settings.Roundtrip.{
  load, saved, octets, member, load-mb_handle_export,
}

abbrev first_start : Regs
first_start = record {
  holding =
      0 ∷ 0xFFFF ∷ 15 ∷ 200 ∷ 200 ∷ 0 ∷ 0x111 ∷ 250 ∷ 9600 ∷ 1 ∷ 192 ∷ 168 ∷ 12 ∷ 101 ∷ 0x6900 ∷ 77
      ∷ 0 ∷ 0 ∷ [];
  input = 0x1000 ∷ 0 ∷ 0 ∷ 0 ∷ 0 ∷ 0 ∷ [];
}

-- A write of the outputs and one of the history switch that overlap, and coils.
abbrev writes : List Event
writes = begins 0 0x1F0 ∷ begins 5 1 ∷ ends 1 ∷ coil 0 true ∷ ends 0 ∷ coil 9 true ∷ []

abbrev at_rest : Flight
at_rest = record { regs = first_start; pins = 0; open_writes = [] }

-- The high half has changed, and the low half is the same: the clock is not set.
io_write_holding-clock_example :
    io_write_holding first_start timestamp_lo 77
    ≡ some (
        if 77 == 77 then (first_start, []) else (
          record first_start { holding = set first_start.holding timestamp_lo 77 },
          set_timestamp (0x6900 * 2 ^ 16 + 77) ∷ [],
        ))
io_write_holding-clock_example =
    io_write_holding-clock first_start 77 refl (omega arith) (omega arith)

load-mb_handle_export_example :
    get_or
      (load first_start (
        mb_handle_export (record first_start { holding = set first_start.holding 10 127 }))).holding
      10
      0
    ≡ (if member 10 saved
          || (member 10 octets
              && ip_is_valid_for_export
                  (record first_start { holding = set first_start.holding 10 127 }))
        then 127
        else 192)
load-mb_handle_export_example =
    load-mb_handle_export (record first_start { holding = set first_start.holding 10 127 })
      first_start 10 (omega arith)
