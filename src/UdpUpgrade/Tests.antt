-- ===== src/UdpUpgrade/Tests.antt =====
-- The theorems about udp_fw_upgrade.c at concrete inputs: a build with room for four handlers, an
-- open session, and the image of three bytes.
use mathlib.Core.List.{flatten}
use iot_zephyr_app.Base.{
  ℕ, ◌+◌, ◌-◌, ◌*◌, ◌/◌, ◌≡◌, refl, true, false, none, some, List, [], ◌∷◌, ◌++◌, ◌&&◌,
  if◌then◌else◌, ◌==◌, take, drop, arith,
}
use iot_zephyr_app.Zephyr.Model.{model_bytes, model_crc}
use iot_zephyr_app.UdpUpgrade.{Addr, Build, UdpFw, Answers, request_upgrade}
use iot_zephyr_app.UdpUpgrade.Commands.{call_hook, cmd_end, udp_fw_reply}
use iot_zephyr_app.UdpUpgrade.Commands.Trace.{only, is_send, is_request, is_hook}
use iot_zephyr_app.UdpUpgrade.Commands.Window.{
  upload, upload-prefix, upload_complete, written, IsPrefixOf, frames_of,
}
use iot_zephyr_app.UdpUpgrade.Commands.Verify.{Holds, cmd_end_lem}

abbrev build : Build
build = record {
  bytes = model_bytes;
  crc = model_crc;
  round_up = λ n m. (n + (m - 1)) / m * m;
  chunk = 1024;
  port = 8600;
  max_handlers = 4;
  max_bcast_cmds = 8;
  restrict = true;
  keyhash = some (1 ∷ 2 ∷ 3 ∷ []);
  version = 118 ∷ 49 ∷ [];
}

abbrev image : List ℕ
image = 10 ∷ 20 ∷ 30 ∷ []

abbrev answers : Answers
answers = record {
  iface = some (some (0xC0A80105, 0xFFFFFF00));
  pre_start = true;
  area_open = true;
  init = true;
  write = true;
  bytes_written = 3;
  area_read = λ off len. some (take len (drop off image));
  request = true;
  handles = λ cb cmd bytes. true;
}

abbrev host : Addr
host = record { ip = 0xC0A80120; port = 50000 }

abbrev stranger : Addr
stranger = record { ip = 0x0A000001; port = 50000 }

abbrev idle : UdpFw
idle = record {
  handlers = none ∷ some (5, 0) ∷ none ∷ none ∷ [];
  pre_reboot_hooks = [];
  pre_start_hook = none;
  fail_hook = some 9;
  bcast_allowed_cmds = 4 ∷ [];
  config_sock = some 3;
  config_remote_addr = host;
  fw_started = false;
  fw_size = 0;
  fw_received = 0;
  udp_fw_started = true;
}

abbrev open_session : UdpFw
open_session = record idle { fw_started = true }

-- The second frame twice, then the first, and the second again.
abbrev frames : List (Answers × List ℕ)
frames =
    (answers, 1 ∷ 0 ∷ 0 ∷ 0 ∷ 20 ∷ 30 ∷ [])
    ∷ (answers, 0 ∷ 0 ∷ 0 ∷ 0 ∷ 10 ∷ [])
    ∷ (answers, 1 ∷ 0 ∷ 0 ∷ 0 ∷ 20 ∷ 30 ∷ [])
    ∷ []

image-Holds : Holds answers image
image-Holds = record { counted = refl; reads = λ off len p. refl }

upload-prefix_example :
    let (s', es) = upload build open_session frames in
    IsPrefixOf image s'.fw_received ([] ++ written es)
unfolding model_bytes
upload-prefix_example =
    upload-prefix build image frames open_session [] (omega arith) (refl, (refl, (refl, tt)))
      (omega arith, refl)

upload_complete_example :
    let (s', es) =
      upload build open_session
        (frames_of build answers refl 0 ((10 ∷ []) ∷ (20 ∷ 30 ∷ []) ∷ [])) in
    (s'.fw_started ≡ true) × (s'.fw_received ≡ 0 + 3) × (written es ≡ image)
unfolding flatten
upload_complete_example =
    upload_complete build answers refl ((10 ∷ []) ∷ (20 ∷ 30 ∷ []) ∷ []) open_session 0 refl refl
      (omega arith, (omega arith, tt)) (omega arith)

cmd_end_lem_example :
    let (s', es) = cmd_end build answers open_session (0 ∷ 0x6C ∷ 0x2A ∷ []) in
    let valid =
      true && (model_crc.crc16_ccitt 0 image == model_bytes.get_le16 (0x6C ∷ 0x2A ∷ [])) in
    (s' ≡ record open_session { fw_started = false })
    × (only is_request es ≡ (if valid then request_upgrade 1 ∷ [] else []))
    × (only is_send es ≡ udp_fw_reply build answers s' 3 ((if valid && true then 1 else 0) ∷ []))
    × (only is_hook es ≡ (if valid && true then [] else call_hook (some 9)))
cmd_end_lem_example =
    cmd_end_lem build answers image image-Holds open_session (0 ∷ 0x6C ∷ 0x2A ∷ []) refl
      (omega arith)
