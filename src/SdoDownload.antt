-- ===== src/SdoDownload.antt =====
-- applications/canopen-io/src/fw_download.c: the firmware download over the objects 0x1F50 and
-- 0x1F51, and fw_upgrade_state.c: the lock that it shares with the other ways of upgrading.
-- The lock's mutex makes each of its operations one step. What the flash, MCUboot and CANopenNode
-- answer is part of `Answers`.
pub mod Lock
pub mod Update
pub mod Complete
mod Tests
use iot_zephyr_app.Base.{
  ℕ, ◌+◌, Bool, true, false, not, ◌&&◌, ◌||◌, Option, none, some, List, [], ◌∷◌, ◌++◌,
  if◌then◌else◌, ltb, ◌==◌, length, u32,
}
use iot_zephyr_app.Zephyr.ByteOrder.{ByteOrder}

pub data FwUpgradeChannel : Type 0 where
  udp : FwUpgradeChannel
  ws : FwUpgradeChannel
  sdo : FwUpgradeChannel

abbrev pub same_channel : FwUpgradeChannel → FwUpgradeChannel → Bool
same_channel udp udp = true
same_channel ws ws = true
same_channel sdo sdo = true
same_channel _ _ = false

-- The static variables of fw_upgrade_state.c.
pub record FwUpgrade : Type 0 where
  pub current_channel : FwUpgradeChannel
  pub upgrade_active : Bool

pub try_lock : FwUpgradeChannel → FwUpgrade → Bool × FwUpgrade
try_lock channel l =
    if l.upgrade_active
    then (false, l)
    else (true, record l { upgrade_active = true; current_channel = channel })

pub unlock : FwUpgradeChannel → FwUpgrade → FwUpgrade
unlock channel l =
    if same_channel l.current_channel channel then record l { upgrade_active = false } else l

-- The hooks that UDP upgrades call.
pub fw_pre_start_hook : FwUpgrade → Bool × FwUpgrade
unfolding try_lock
fw_pre_start_hook l = try_lock udp l

pub fw_fail_hook : FwUpgrade → FwUpgrade
unfolding unlock
fw_fail_hook l = unlock udp l

pub data FwDlState : Type 0 where
  idle : FwDlState
  ready : FwDlState
  streaming : FwDlState
  confirmed : FwDlState
  failed : FwDlState

-- The results of an access to an object that the code gives.
pub data Odr : Type 0 where
  ok : Odr
  partial : Odr
  dev_incompat : Odr
  data_transf : Odr
  data_short : Odr
  hw : Odr
  invalid_value : Odr

-- The static variables of fw_download.c, with the shared lock; `rebooting` tells whether
-- `fw_reboot_work` is scheduled.
pub record SdoFw : Type 0 where
  pub fw_state : FwDlState
  pub fw_written : ℕ
  pub sdo_lock_held : Bool
  pub lock : FwUpgrade
  pub rebooting : Bool

pub record OdStream : Type 0 where
  pub data_offset : ℕ
  pub data_length : ℕ

-- Calls out of the module, in order. `img_write` and `img_flush` tell whether the write succeeded.
pub data Effect : Type 0 where
  erase_trailer : Effect
  img_init : Effect
  img_write : List ℕ → Bool → Effect
  img_flush : Bool → Effect
  request_upgrade : Effect
  write_original : Effect

pub record Answers : Type 0 where
  pub area_open : Bool
  pub area_erase : Bool
  pub img_init_id : Bool
  pub buffered_write : Bool
  pub flush : Bool
  pub request : Bool
  pub original : Odr

abbrev pub is_streaming : FwDlState → Bool
is_streaming streaming = true
is_streaming _ = false

abbrev pub is_confirmed : FwDlState → Bool
is_confirmed confirmed = true
is_confirmed _ = false

abbrev pub accepts_data : FwDlState → Bool
accepts_data ready = true
accepts_data streaming = true
accepts_data _ = false

-- `countWritten` is `none` where it is not set.
pub fw_data_write :
    Answers → SdoFw → OdStream → List ℕ → Odr × SdoFw × OdStream × Option ℕ × List Effect
fw_data_write a s stream buf =
    let count = length buf in
    let offset = u32 (stream.data_offset + count) in
    let s' = record s { fw_written = u32 (s.fw_written + count); fw_state = streaming } in
    if not (accepts_data s.fw_state)
    then (dev_incompat, s, stream, none, [])
    else if count == 0
    then (ok, s, stream, none, [])
    else if not a.buffered_write
    then (data_transf, record s { fw_state = failed }, stream, none, img_write buf false ∷ [])
    else (
      if not (stream.data_length == 0) && not (ltb offset stream.data_length) then ok else partial,
      s',
      record stream { data_offset = offset },
      some count,
      img_write buf true ∷ [],
    )

-- The value of fw_state, as the header numbers the states.
pub state_value : FwDlState → ℕ
state_value idle = 0
state_value ready = 1
state_value streaming = 2
state_value confirmed = 3
state_value failed = 4

-- The label `error` of fw_ctrl_write.
pub ctrl_error : SdoFw → SdoFw
unfolding unlock
ctrl_error s = record s { fw_state = failed; lock = unlock sdo s.lock; sdo_lock_held = false }

-- A refused or failed confirmation.
pub confirm_error : SdoFw → SdoFw
unfolding unlock
confirm_error s =
    if s.sdo_lock_held
    then record s { fw_state = failed; lock = unlock sdo s.lock; sdo_lock_held = false }
    else record s { fw_state = failed }

-- The write of 0 once the lock is held.
pub prepare : Answers → SdoFw → Odr × SdoFw × List Effect
unfolding ctrl_error
prepare a s =
    if not a.area_open
    then (hw, ctrl_error s, [])
    else if not a.area_erase
    then (hw, ctrl_error s, erase_trailer ∷ [])
    else if not a.img_init_id
    then (hw, ctrl_error s, erase_trailer ∷ [])
    else (
      a.original,
      record s { fw_written = 0; fw_state = ready },
      erase_trailer ∷ img_init ∷ write_original ∷ [],
    )

pub start_download : Answers → SdoFw → Odr × SdoFw × List Effect
unfolding try_lock
start_download a s =
    let (got, l) = try_lock sdo s.lock in
    if s.sdo_lock_held
    then prepare a s
    else if got
    then prepare a (record s { lock = l; sdo_lock_held = true })
    else (dev_incompat, s, [])

pub confirm_download : Answers → SdoFw → Odr × SdoFw × List Effect
unfolding confirm_error
confirm_download a s =
    if not (is_streaming s.fw_state) || s.fw_written == 0
    then (dev_incompat, confirm_error s, [])
    else if not a.flush
    then (data_transf, confirm_error s, img_flush false ∷ [])
    else if not a.request
    then (hw, confirm_error s, img_flush true ∷ request_upgrade ∷ [])
    else (
      ok,
      record s { fw_state = confirmed; rebooting = true },
      img_flush true ∷ request_upgrade ∷ write_original ∷ [],
    )

pub fw_download_active : SdoFw → Bool
fw_download_active s = accepts_data s.fw_state || is_confirmed s.fw_state

module _ (order : ByteOrder) where
  pub fw_ctrl_write : Answers → SdoFw → List ℕ → Odr × SdoFw × List Effect
  unfolding start_download prepare confirm_download
  fw_ctrl_write a s buf =
      let val = order.get_le32 buf in
      if not (length buf == 4)
      then (data_short, s, [])
      else if val == 0
      then start_download a s
      else if val == 1
      then confirm_download a s
      else (invalid_value, s, [])

  -- The result and what is read, given the room for it.
  pub fw_ctrl_read : SdoFw → ℕ → Odr × Option (List ℕ)
  unfolding state_value
  fw_ctrl_read s count =
      if ltb count 4
      then (data_short, none)
      else (ok, some (order.put_le32 (state_value s.fw_state)))

-- What happens to the module and its lock: accesses to the two objects, and the other channels'
-- starts and failures.
pub data Event : Type 0 where
  data_write : Answers → OdStream → List ℕ → Event
  ctrl_write : Answers → List ℕ → Event
  udp_starts : Event
  udp_fails : Event
  ws_starts : Event
  ws_ends : Event

module _ (order : ByteOrder) where
  pub step : Event → SdoFw → SdoFw × List Effect
  unfolding fw_data_write fw_ctrl_write fw_pre_start_hook fw_fail_hook try_lock unlock
  step (data_write a stream buf) s =
      let (_, s', _, _, calls) = fw_data_write a s stream buf in (s', calls)
  step (ctrl_write a buf) s = let (_, s', calls) = fw_ctrl_write order a s buf in (s', calls)
  step udp_starts s = (record s { lock = (fw_pre_start_hook s.lock).1 }, [])
  step udp_fails s = (record s { lock = fw_fail_hook s.lock }, [])
  step ws_starts s = (record s { lock = (try_lock ws s.lock).1 }, [])
  step ws_ends s = (record s { lock = unlock ws s.lock }, [])

  -- The state after the events, and all calls in order.
  pub run : List Event → SdoFw → SdoFw × List Effect
  unfolding step
  run [] s = (s, [])
  run (e ∷ es) s =
      let (s', calls) = step e s in let (s'', later) = run es s' in (s'', calls ++ later)
