-- ===== src/CanUpgrade/Tests.antt =====
-- The theorems about can_fw_upgrade.c and can_fw_boot.c at concrete inputs.
use mathlib.Core.List.{flatten}
use iot_zephyr_app.Base.{
  ℕ, suc, ◌+◌, ◌-◌, ◌*◌, ◌/◌, ◌≡◌, refl, sym, ap, ◌∙◌, min, true, false, ◌&&◌, none, some, List, [],
  ◌∷◌, if◌then◌else◌, ◌==◌, u32, length, get_or, get_or-replicate, replicate, arith,
}
use iot_zephyr_app.Zephyr.Model.{model_bytes}
use iot_zephyr_app.CanUpgrade.{CanFrame, Build, CanFw, Answers, request_upgrade}
use iot_zephyr_app.CanUpgrade.Frames.{rx_frame}
use iot_zephyr_app.CanUpgrade.Frames.Key.{IsKeyFrame}
use iot_zephyr_app.CanUpgrade.Frames.Update.{image_after, requests}
use iot_zephyr_app.CanUpgrade.Frames.Session.{rx_run, rx_run-confirm, rx_run-update}
use iot_zephyr_app.CanUpgrade.Boot.Ends.{Sight}

abbrev build : Build
build = record {
  bytes = model_bytes;
  round_up = λ n m. (n + (m - 1)) / m * m;
  dlc_to_bytes = λ dlc. min dlc 8;
  boot_wait = false;
  has_scratch = true;
  keyhash = some (replicate 32 8);
  version = 118 ∷ 49 ∷ 46 ∷ 50 ∷ 46 ∷ 51 ∷ 95 ∷ 97 ∷ 98 ∷ [];
  default_bitrate = 250000;
}

abbrev answers : Answers
answers = record {
  uptime = 1000;
  pre_start = true;
  area_open = λ p. true;
  area_size = λ p. 0x20000;
  area_read = λ p off len. replicate len 255;
  init = true;
  write = true;
  request = true;
}

abbrev idle : CanFw
idle = record {
  handlers = none ∷ none ∷ [];
  pre_reboot_hooks = [];
  pre_start_hook = none;
  fw_img_initialized = false;
  fw_written = 0;
  fw_total_size = 0;
  boot_acks = 0;
  last_activity_ms = 0;
  confirmed = false;
  rx_busy = false;
  rx_keybuf = replicate 32 0;
  key_chunk_mask = 0;
  rx_msgq = [];
  bitrate_override = 0;
}

abbrev opened : CanFw
opened = record idle { fw_img_initialized = true; fw_total_size = 8 }

abbrev confirm_frame : CanFrame
confirm_frame = record { id = 0x101; bytes = 1 ∷ 0 ∷ 0 ∷ 0 ∷ 1 ∷ 0 ∷ 0 ∷ 0 ∷ []; dlc = 8 }

abbrev start_frame : CanFrame
start_frame = record { id = 0x101; bytes = 0 ∷ 0 ∷ 0 ∷ 0 ∷ 8 ∷ 0 ∷ 0 ∷ 0 ∷ []; dlc = 8 }

abbrev data_frame : CanFrame
data_frame = record { id = 0x103; bytes = 1 ∷ 2 ∷ 3 ∷ 4 ∷ 5 ∷ 6 ∷ 7 ∷ 8 ∷ []; dlc = 8 }

-- A key of which each byte is 7.
abbrev host_key : List ℕ
host_key = replicate 32 7

abbrev key_frame : ℕ → CanFrame
key_frame seq = record { id = 0x104; bytes = seq ∷ replicate 7 7; dlc = 8 }

key_frame-IsKeyFrame : (seq : ℕ) → IsKeyFrame host_key (key_frame seq)
key_frame-IsKeyFrame seq = (
  refl,
  λ k p q.
      ap (λ i. get_or (key_frame seq).bytes i 0) (one_more k)
      ∙ (get_or-replicate 7 k 7 0 p ∙ sym (get_or-replicate 32 (seq * 7 + k) 7 0 q)),
)
  where
    one_more : (k : ℕ) → 1 + k ≡ suc k
    one_more k = omega arith

-- Out of order, and one of them twice.
abbrev key_frames : List CanFrame
key_frames = key_frame 4 ∷ key_frame 0 ∷ key_frame 2 ∷ key_frame 0 ∷ key_frame 1 ∷ key_frame 3 ∷ []

rx_run-confirm_example :
    let (s', es) = rx_run build idle ((answers, start_frame) ∷ (answers, data_frame) ∷ []) in
    let complete = s'.fw_img_initialized && u32 (length (image_after [] es)) == s'.fw_total_size in
    let (s'', fs) = rx_frame build answers s' confirm_frame in
    (requests fs ≡ (if complete then request_upgrade 1 ∷ [] else []))
    × (s''.fw_img_initialized ≡ false)
unfolding model_bytes
rx_run-confirm_example =
    rx_run-confirm build ((answers, start_frame) ∷ (answers, data_frame) ∷ []) idle answers
      confirm_frame refl refl ((refl, omega arith), ((refl, omega arith), tt)) refl refl

rx_run-update_example :
    let (s', es) = rx_run build opened ((answers, data_frame) ∷ []) in
    (image_after [] es ≡ data_frame.bytes)
    × (requests (rx_frame build answers s' confirm_frame).1 ≡ request_upgrade 1 ∷ [])
unfolding model_bytes flatten
rx_run-update_example =
    rx_run-update build ((answers, data_frame) ∷ []) opened answers confirm_frame refl refl refl
      refl (omega arith) ((refl, refl, (refl, omega arith)), tt) refl refl

-- The thread is busy with an erase for longer than the idle time.
abbrev busy_sights : List Sight
busy_sights = (false, 20000, 1000, true) ∷ (false, 25000, 1000, true) ∷ []

abbrev keyed : CanFw
keyed = record idle { rx_keybuf = host_key; key_chunk_mask = 31 }
