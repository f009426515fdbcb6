-- ===== src/History/Tests.antt =====
-- Concrete runs of history.c, on a disk that counts the bytes it is given.
use iot_zephyr_app.Base.{
  ℕ, Bool, ◌≤◌, take, ◌<◌, ◌*◌, ◌+◌, ◌≡◌, refl, sym, true, false, none, some, List, [], ◌∷◌, ◌++◌,
  map, length, All, ap, arith,
}
use mathlib.Core.Bool.{true≢false}
use iot_zephyr_app.History.{HisData, History, Event, sample, work, switch, run, his_flush}
use iot_zephyr_app.History.Files.{
  Tm, Fs, Entry, data_prefix, before, make_hist_name, rotated, unlink_all, cleanup_old_files,
}
use iot_zephyr_app.History.Keeps.{IsFresh, IsNamed}
use iot_zephyr_app.History.Order.{of, IsPlaced, Drained, all_taken, run-records, his_flush-Drained}
use iot_zephyr_app.History.Files.Names.{earlier, before-make_hist_name}
use iot_zephyr_app.History.Files.Rotation.{Rotated, history_names, cleanup_old_files-Rotated}

-- The last second of a year and the first of the next one.
abbrev last_second : Tm
last_second = record { tm_mon = 11; tm_mday = 31; tm_hour = 23; tm_min = 59; tm_sec = 59 }

abbrev first_second : Tm
first_second = record { tm_mon = 0; tm_mday = 1; tm_hour = 0; tm_min = 0; tm_sec = 0 }

abbrev disk : Fs ℕ
disk = record {
  entries = λ w. some [];
  fs_open = λ w p create. (create, w);
  fs_seek_end = λ w. (true, w);
  fs_tell = λ w. (some 0, w);
  fs_close = λ w. w;
  fs_unlink = λ w p. w;
  fs_write = λ w bytes. (some (length bytes), w + length bytes);
  fs_sync = λ w. w;
  local_time = λ w. some last_second;
}

abbrev sampled : ℕ → HisData
sampled kind = record {
  kind = kind;
  raw = kind ∷ 0 ∷ 0 ∷ 0 ∷ 1 ∷ 2 ∷ 3 ∷ 4 ∷ 5 ∷ 6 ∷ 7 ∷ 8 ∷ 9 ∷ 10 ∷ 11 ∷ 12 ∷ [];
}

abbrev at_boot : History
at_boot = record {
  his_msgq = [];
  history_enabled = false;
  his_fp_open = false;
  his_cur_size = 0;
  his_cur_name = [];
  his_sync_req = false;
}

abbrev waiting : History
waiting = record at_boot { his_msgq = sampled 1 ∷ sampled 2 ∷ [] }

abbrev events : List Event
events = switch true ∷ sample true (sampled 1) ∷ sample true (sampled 2) ∷ work true ∷ []

-- Ten bytes for the inputs, sixteen for the analogue values.
test_flush : (his_flush disk true false waiting 0).2 ≡ 26
unfolding his_flush
test_flush = refl

disk-IsFresh : IsFresh disk
disk-IsFresh w n e = of_some e
  where
    of_some : {m : ℕ} → some 0 ≡ some m → m < 1024 * 1024
    of_some e = omega (arith, ap {B = ℕ} (λ o. elim o [ none ↦ 0 | some k ↦ k ]) e)

at_boot-IsNamed : IsNamed at_boot
at_boot-IsNamed o = absurd (true≢false (sym o))

waiting-IsNamed : IsNamed waiting
waiting-IsNamed o = absurd (true≢false (sym o))

run-records_example :
    let (fates, h', w') = run disk events at_boot 0 in
    (map of fates ++ h'.his_msgq ≡ [] ++ all_taken disk events at_boot 0) × All IsPlaced fates
run-records_example = run-records disk disk-IsFresh events at_boot 0 at_boot-IsNamed

his_flush-Drained_example :
    let (fates, h', w') = his_flush disk true false waiting 0 in
    Drained (sampled 1 ∷ sampled 2 ∷ []) fates h'.his_msgq
his_flush-Drained_example = his_flush-Drained disk disk-IsFresh false waiting 0 waiting-IsNamed

-- A file of the new year is before those of the old one.
before-make_hist_name_example :
    before (make_hist_name (some first_second)) (make_hist_name (some last_second))
    ≡ earlier first_second last_second
before-make_hist_name_example =
    before-make_hist_name first_second last_second
      record {
        mon = omega arith;
        day = (omega arith, omega arith);
        hour = omega arith;
        minute = omega arith;
        second = omega arith;
      }
      record {
        mon = omega arith;
        day = (omega arith, omega arith);
        hour = omega arith;
        minute = omega arith;
        second = omega arith;
      }

abbrev twelve : List (List ℕ)
twelve =
    (5 ∷ [])
    ∷ (3 ∷ [])
    ∷ (9 ∷ [])
    ∷ (1 ∷ [])
    ∷ (7 ∷ [])
    ∷ (4 ∷ [])
    ∷ (8 ∷ [])
    ∷ (2 ∷ [])
    ∷ (6 ∷ [])
    ∷ (10 ∷ [])
    ∷ (12 ∷ [])
    ∷ (11 ∷ [])
    ∷ []

test_rotated : (rotated twelve).0 ≡ (1 ∷ []) ∷ (2 ∷ []) ∷ []
unfolding rotated
test_rotated = refl

-- A directory with twelve such files, a file of another name, and a directory.
abbrev entry : Bool → List ℕ → Entry
entry is_file digits = record { is_file = is_file; name = data_prefix ++ digits }

abbrev listing : List Entry
listing =
    record { is_file = true; name = 120 ∷ [] }
    ∷ entry false (0 ∷ [])
    ∷ map (λ (digits : List ℕ). entry true digits) twelve

abbrev listed : Fs ℕ
listed = record disk { entries = λ w. some listing }

cleanup_old_files-Rotated_example :
    let names = take 12 (history_names listing) in
    let (removed, kept) = rotated names in
    (cleanup_old_files listed 0 ≡ unlink_all listed removed 0)
    × Rotated names removed kept
    × (length removed ≤ 2)
cleanup_old_files-Rotated_example = cleanup_old_files-Rotated listed 0 listing refl
