-- ===== src/SdoDownload/Tests.antt =====
-- Runs of fw_download.c, and the theorems about it at concrete inputs.
use iot_zephyr_app.Base.{ℕ, ◌≡◌, refl, inr, true, false, List, [], ◌∷◌, ◌++◌, map, arith}
use iot_zephyr_app.Zephyr.Model.{model_bytes}
use iot_zephyr_app.SdoDownload.{
  udp, ws, sdo, try_lock, unlock, fw_fail_hook, SdoFw, idle, ready, confirmed, failed, ok,
  dev_incompat, data_short, Answers, OdStream, Event, ctrl_write, udp_starts, erase_trailer,
  img_init, img_flush, request_upgrade, write_original, fw_data_write, fw_ctrl_write,
  fw_download_active, run,
}
use iot_zephyr_app.SdoDownload.Lock.{IsGuarded, run-excludes, reconfirm_unlocks, failed_write_keeps}
use iot_zephyr_app.SdoDownload.Update.{unfit, is_orderly, run-orderly}
use iot_zephyr_app.SdoDownload.Complete.{Block, AreGood, written, download, download_complete}

abbrev answers : Answers
answers = record {
  area_open = true;
  area_erase = true;
  img_init_id = true;
  buffered_write = true;
  flush = true;
  request = true;
  original = ok;
}

abbrev boot : SdoFw
boot = record {
  fw_state = idle;
  fw_written = 0;
  sdo_lock_held = false;
  lock = record { current_channel = udp; upgrade_active = false };
  rebooting = false;
}

abbrev stream : OdStream
stream = record { data_offset = 0; data_length = 5 }

abbrev zero_word : List ℕ
zero_word = 0 ∷ 0 ∷ 0 ∷ 0 ∷ []

abbrev one_word : List ℕ
one_word = 1 ∷ 0 ∷ 0 ∷ 0 ∷ []

abbrev opened : SdoFw
opened = record boot {
  fw_state = ready;
  sdo_lock_held = true;
  lock = record { current_channel = sdo; upgrade_active = true };
}

abbrev done : SdoFw
done = record opened { fw_state = confirmed; fw_written = 5; rebooting = true }

test_start :
    fw_ctrl_write model_bytes answers boot zero_word
    ≡ (ok, opened, erase_trailer ∷ img_init ∷ write_original ∷ [])
unfolding fw_ctrl_write model_bytes
test_start = refl

test_short : (fw_ctrl_write model_bytes answers boot (0 ∷ [])).0 ≡ data_short
unfolding fw_ctrl_write model_bytes
test_short = refl

test_last_block : (fw_data_write answers opened stream (1 ∷ 2 ∷ 3 ∷ 4 ∷ 5 ∷ [])).0 ≡ ok
unfolding fw_data_write
test_last_block = refl

no {ℓ} : {A : Type ℓ} → false ≡ true → A
no h = cc

boot-IsGuarded : IsGuarded boot
unfolding fw_download_active
boot-IsGuarded = record { owns = λ h. no h; keeps = λ h. no h }

opened-IsGuarded : IsGuarded opened
opened-IsGuarded = record { owns = λ _. refl; keeps = λ _. refl }

done-IsGuarded : IsGuarded done
done-IsGuarded = record { owns = λ _. refl; keeps = λ _. refl }

abbrev events : List Event
events = ctrl_write answers zero_word ∷ udp_starts ∷ []

run-excludes_example :
    let (s', _) = run model_bytes events boot in
    (try_lock udp s'.lock ≡ (false, s'.lock))
    × (fw_fail_hook s'.lock ≡ s'.lock)
    × (unlock ws s'.lock ≡ s'.lock)
unfolding run fw_download_active model_bytes
run-excludes_example = run-excludes model_bytes events boot udp boot-IsGuarded refl

run-orderly_example : is_orderly unfit (run model_bytes events boot).1 ≡ true
run-orderly_example = run-orderly model_bytes events boot refl

reconfirm_unlocks_example :
    let (odr, s', _) = fw_ctrl_write model_bytes answers done one_word in
    (odr ≡ dev_incompat) × (s'.rebooting ≡ done.rebooting) × ((try_lock udp s'.lock).0 ≡ true)
unfolding model_bytes
reconfirm_unlocks_example =
    reconfirm_unlocks model_bytes answers done one_word done-IsGuarded refl refl refl

abbrev refused : Answers
refused = record answers { buffered_write = false }

failed_write_keeps_example :
    let (_, s', _, _, _) = fw_data_write refused opened stream (1 ∷ []) in
    (s'.fw_state ≡ failed) × ((try_lock udp s'.lock).0 ≡ false)
failed_write_keeps_example =
    failed_write_keeps model_bytes refused opened stream (1 ∷ []) opened-IsGuarded refl
      (omega arith) refl

good : AreGood answers
good = record {
  opens = refl;
  erases = refl;
  begins = refl;
  writes = refl;
  flushes = refl;
  requests = refl;
}

abbrev block : Block
block = (stream, 1 ∷ 2 ∷ [])

download_complete_example :
    let (s', calls) = run model_bytes (download model_bytes answers good block (block ∷ [])) boot in
    (s'.fw_state ≡ confirmed)
    × (s'.rebooting ≡ true)
    × (calls
        ≡ erase_trailer
          ∷ img_init
          ∷ write_original
          ∷ (map written (block ∷ block ∷ [])
              ++ img_flush true ∷ request_upgrade ∷ write_original ∷ []))
download_complete_example =
    download_complete model_bytes answers good boot block (block ∷ []) (inr refl) (omega arith)
      (omega arith)
