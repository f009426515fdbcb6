-- ===== src/SdoDownload/Lock.antt =====
-- The lock that keeps other upgrades out while fw_download.c has one in progress.
use iot_zephyr_app.Base.{
  ℕ, ◌≡◌, ◌<◌, refl, Bool, true, false, ◌&&◌, List, [], ◌∷◌, length, if_cases, arith,
}
use iot_zephyr_app.Zephyr.ByteOrder.{ByteOrder}
use iot_zephyr_app.SdoDownload.{
  FwUpgradeChannel, FwUpgrade, udp, ws, sdo, same_channel, try_lock, unlock, fw_fail_hook, SdoFw,
  Answers, OdStream, Odr, Effect, Event, data_write, ctrl_write, udp_starts, udp_fails, ws_starts,
  ws_ends, fw_data_write, fw_ctrl_write, prepare, start_download, confirm_download, ctrl_error,
  confirm_error, fw_download_active, step, run, confirmed, failed, accepts_data, dev_incompat,
}

-- The lock is SDO's.
abbrev pub owned : FwUpgrade → Bool
owned l = l.upgrade_active && same_channel l.current_channel sdo

-- The module's flag tells truly that it has the lock, and it has it while a download is in progress.
pub record IsGuarded (s : SdoFw) : Type 0 where
  pub owns : s.sdo_lock_held ≡ true → owned s.lock ≡ true
  pub keeps : fw_download_active s ≡ true → s.sdo_lock_held ≡ true

pub data_write-IsGuarded :
    (a : Answers) (s : SdoFw) (stream : OdStream) (buf : List ℕ)
    → IsGuarded s
    → IsGuarded (fw_data_write a s stream buf).1
unfolding fw_data_write fw_download_active
data_write-IsGuarded a s stream buf v = ground arith

prepare-IsGuarded :
    (a : Answers) (s : SdoFw)
    → s.sdo_lock_held ≡ true
    → owned s.lock ≡ true
    → IsGuarded (prepare a s).1
unfolding prepare fw_download_active ctrl_error
prepare-IsGuarded a s h o = ground arith

start_download-IsGuarded :
    (a : Answers) (s : SdoFw) → IsGuarded s → IsGuarded (start_download a s).1
unfolding start_download try_lock
start_download-IsGuarded a s v =
    let P = λ (r : Odr × SdoFw × List Effect). IsGuarded r.1 in
    if_cases P _ _ _ (λ h. prepare-IsGuarded a s h (v.owns h))
      λ _. if_cases P _ _ _ (λ free. prepare-IsGuarded a taken refl (ground arith)) (λ _. v)
  where
    taken : SdoFw
    taken = record s { lock = (try_lock sdo s.lock).1; sdo_lock_held = true }

confirm_download-IsGuarded :
    (a : Answers) (s : SdoFw) → IsGuarded s → IsGuarded (confirm_download a s).1
unfolding confirm_download confirm_error fw_download_active
confirm_download-IsGuarded a s v = ground arith

pub fw_ctrl_write-IsGuarded :
    (order : ByteOrder) (a : Answers) (s : SdoFw) (buf : List ℕ)
    → IsGuarded s
    → IsGuarded (fw_ctrl_write order a s buf).1
unfolding fw_ctrl_write
fw_ctrl_write-IsGuarded order a s buf v =
    ground (arith, start_download-IsGuarded a s v, confirm_download-IsGuarded a s v)

module _ (order : ByteOrder) where
  step-IsGuarded : (e : Event) (s : SdoFw) → IsGuarded s → IsGuarded (step order e s).0
  unfolding step fw_download_active
  step-IsGuarded (data_write a stream buf) s v = data_write-IsGuarded a s stream buf v
  step-IsGuarded (ctrl_write a buf) s v = fw_ctrl_write-IsGuarded order a s buf v
  step-IsGuarded udp_starts s v = ground arith
  step-IsGuarded udp_fails s v = ground arith
  step-IsGuarded ws_starts s v = ground arith
  step-IsGuarded ws_ends s v = ground arith

  pub run-IsGuarded : (es : List Event) (s : SdoFw) → IsGuarded s → IsGuarded (run order es s).0
  unfolding run
  run-IsGuarded [] s v = v
  run-IsGuarded (e ∷ es) s v = run-IsGuarded es (step order e s).0 (step-IsGuarded e s v)

  -- While a download is in progress, after any events from a state whose flag tells truly that it has
  -- the lock, no channel gets the lock, and a failure of another channel does not give it away.
  pub run-excludes :
      (es : List Event) (s : SdoFw) (channel : FwUpgradeChannel)
      → IsGuarded s
      → let (s', _) = run order es s in
        fw_download_active s' ≡ true
        → (try_lock channel s'.lock ≡ (false, s'.lock))
          × (fw_fail_hook s'.lock ≡ s'.lock)
          × (unlock ws s'.lock ≡ s'.lock)
  unfolding try_lock fw_fail_hook unlock
  run-excludes es s channel v active = ground (arith, run-IsGuarded es s v)

  -- A second confirmation ends in an error and gives the lock away, although the restart that the
  -- first one has scheduled is still to come; another channel can then take it.
  pub reconfirm_unlocks :
      (a : Answers) (s : SdoFw) (buf : List ℕ)
      → IsGuarded s
      → s.fw_state ≡ confirmed
      → length buf ≡ 4
      → order.get_le32 buf ≡ 1
      → let (odr, s', _) = fw_ctrl_write order a s buf in
        (odr ≡ dev_incompat) × (s'.rebooting ≡ s.rebooting) × ((try_lock udp s'.lock).0 ≡ true)
  unfolding fw_ctrl_write confirm_download confirm_error try_lock unlock fw_download_active
  reconfirm_unlocks a s buf v c four one = ground arith

  -- A write of data that the flash refuses ends in an error in which the lock is still held.
  pub failed_write_keeps :
      (a : Answers) (s : SdoFw) (stream : OdStream) (buf : List ℕ)
      → IsGuarded s
      → accepts_data s.fw_state ≡ true
      → 0 < length buf
      → a.buffered_write ≡ false
      → let (_, s', _, _, _) = fw_data_write a s stream buf in
        (s'.fw_state ≡ failed) × ((try_lock udp s'.lock).0 ≡ false)
  unfolding fw_data_write try_lock fw_download_active
  failed_write_keeps a s stream buf v c some_data bad = ground arith
