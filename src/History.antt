-- ===== src/History.antt =====
-- applications/io-edge-hub/src/history/history.c: the queue of records and the file they go to.
-- The file system and the clock are a record of functions on a state `W` of their own, which has the
-- file that is open. A name is the list of its bytes.
pub mod Files
pub mod Order
pub mod Keeps
mod Tests
use iot_zephyr_app.Base.{
  ℕ, zero, suc, ◌+◌, ◌-◌, ◌*◌, ◌/◌, ◌%◌, Bool, true, false, not, ◌&&◌, ◌||◌, Option, none, some,
  List, [], ◌∷◌, ◌++◌, if◌then◌else◌, ltb, ◌==◌, length, take, u32,
}
use iot_zephyr_app.History.Files.{
  Fs, hist_file_max, cleanup_old_files, latest_file, make_hist_name, path,
}

-- `struct his_data`: the type, and the 16 bytes that it has in memory.
pub record HisData : Type 0 where
  pub kind : ℕ
  pub raw : List ℕ

abbrev pub di_type : ℕ
di_type = 1

-- The static variables of the file, with the queue `his_msgq`; an empty name is no name.
pub record History : Type 0 where
  pub his_msgq : List HisData
  pub history_enabled : Bool
  pub his_fp_open : Bool
  pub his_cur_size : ℕ
  pub his_cur_name : List ℕ
  pub his_sync_req : Bool

-- What the flush does with a record: it is written whole to a file of this name and size, or lost.
pub data Fate : Type 0 where
  stored : List ℕ → ℕ → HisData → Fate
  missed : HisData → Fate

-- `len` of a record.
abbrev pub record_len : HisData → ℕ
record_len d = if d.kind == di_type then 10 else 16

abbrev pub msgq_depth : ℕ
msgq_depth = 16

abbrev pub is_empty : List ℕ → Bool
is_empty [] = true
is_empty (b ∷ bs) = false

module _ {W : Type 0} (fs : Fs W) where
  -- True if it succeeds.
  pub open_append : List ℕ → Bool → History → W → Bool × History × W
  open_append p create h w =
      let (opened, w1) = fs.fs_open w p create in
      let (sought, w2) = fs.fs_seek_end w1 in
      let (told, w3) = fs.fs_tell w2 in
      if not opened
      then (false, h, w1)
      else if not sought
      then (false, h, fs.fs_close w2)
      else elim told [
        | none ↦ (false, h, fs.fs_close w3)
        | some n ↦ (true, record h { his_cur_size = u32 n; his_fp_open = true }, w3)
      ]

  pub close_cur_file : History → W → History × W
  close_cur_file h w =
      if h.his_fp_open then (record h { his_fp_open = false }, fs.fs_close w) else (h, w)

  -- A file that is full is closed again.
  pub if_room : Bool × History × W → Bool × History × W
  unfolding close_cur_file
  if_room (true, h, w) =
      let (h', w') = close_cur_file h w in
      if ltb h.his_cur_size hist_file_max then (true, h, w) else (false, h', w')
  if_room (false, h, w) = let (h', w') = close_cur_file h w in (false, h', w')

  -- A file that must be there, and have room.
  pub reopen : List ℕ → History → W → Bool × History × W
  unfolding open_append if_room
  reopen name h w = if_room (open_append (path name) false h w)

  -- After a file that could not be opened, the other attempt.
  pub or_else : Bool × History × W → (History → W → Bool × History × W) → Bool × History × W
  or_else (true, h, w) other = (true, h, w)
  or_else (false, h, w) other = other h w

  -- Step 1: the file of the last session, whose name is forgotten if it is full or gone.
  pub forget : Bool × History × W → Bool × History × W
  forget (true, h, w) = (true, h, w)
  forget (false, h, w) = (false, record h { his_cur_name = [] }, w)

  pub resume : History → W → Bool × History × W
  unfolding reopen forget
  resume h w =
      if not (is_empty h.his_cur_name) && ltb h.his_cur_size hist_file_max
      then forget (reopen h.his_cur_name h w)
      else (false, h, w)

  pub name_it : List ℕ → Bool × History × W → Bool × History × W
  name_it name (true, h, w) = (true, record h { his_cur_name = name }, w)
  name_it name (false, h, w) = (false, h, w)

  -- Step 2: the latest file of the directory.
  pub reuse : History → W → Bool × History × W
  unfolding reopen latest_file name_it
  reuse h w =
      let latest = latest_file fs w in
      if is_empty h.his_cur_name && not (is_empty latest)
      then name_it latest (reopen latest h w)
      else (false, h, w)

  -- Step 3: a new file, after which there may be too many.
  pub clean_up : Bool × History × W → Bool × History × W
  unfolding cleanup_old_files
  clean_up (true, h, w) = (true, h, if h.his_cur_size == 0 then cleanup_old_files fs w else w)
  clean_up (false, h, w) = (false, h, w)

  pub create_file : History → W → Bool × History × W
  unfolding open_append make_hist_name clean_up name_it
  create_file h w =
      let name = make_hist_name (fs.local_time w) in
      clean_up (name_it name (open_append (path name) true h w))

  pub ensure_file : History → W → Bool × History × W
  unfolding close_cur_file resume reuse create_file or_else
  ensure_file h w =
      let (h', w') = close_cur_file h w in
      if h.his_fp_open && ltb h.his_cur_size hist_file_max
      then (true, h, w)
      else or_else (or_else (resume h' w') reuse) create_file

  -- What a write returns for a record, in the file that is open.
  pub account : HisData → Option ℕ → History → W → Bool × Fate × History × W
  account d none h w = (false, missed d, record h { his_cur_size = hist_file_max }, w)
  account d (some n) h w =
      if n == record_len d
      then (
        true,
        stored h.his_cur_name h.his_cur_size d,
        record h { his_cur_size = u32 (h.his_cur_size + record_len d) },
        w,
      )
      else (false, missed d, record h { his_cur_size = hist_file_max }, w)

  pub write_to : HisData → Bool × History × W → Bool × Fate × History × W
  unfolding account
  write_to d (false, h, w) = (false, missed d, h, w)
  write_to d (true, h, w) =
      let (wrote, w') = fs.fs_write w (take (record_len d) d.raw) in account d wrote h w'

  -- One record: whether the flush goes on, and what became of the record.
  pub write_record : HisData → History → W → Bool × Fate × History × W
  unfolding ensure_file write_to
  write_record d h w = write_to d (ensure_file h w)

  -- After a record, the rest of the loop unless it ends here.
  pub extend :
      Bool
      → Fate
      → List HisData
      → History
      → W
      → List Fate × List HisData × History × W
      → List Fate × List HisData × History × W
  extend true fate ds h w (fates, rest, h', w') = (fate ∷ fates, rest, h', w')
  extend false fate ds h w later = (fate ∷ [], ds, h, w)

  -- The loop: what became of the records, and those that are left.
  pub drain : List HisData → History → W → List Fate × List HisData × History × W
  unfolding write_record extend
  drain [] h w = ([], [], h, w)
  drain (d ∷ ds) h w =
      let (more, fate, h', w') = write_record d h w in extend more fate ds h' w' (drain ds h' w')

  -- After the loop: the file is closed if asked, and a request to synchronise is consumed.
  pub finish : Bool → List Fate × List HisData × History × W → List Fate × History × W
  unfolding close_cur_file
  finish close_after (fates, rest, h, w) =
      let (h', w') = if close_after then close_cur_file h w else (h, w) in
      (
        fates,
        record h' { his_msgq = rest; his_sync_req = false },
        if h'.his_sync_req && h'.his_fp_open then fs.fs_sync w' else w',
      )

  -- `ready` is what io_lfs_is_ready gives.
  pub his_flush : Bool → Bool → History → W → List Fate × History × W
  unfolding drain finish
  his_flush ready close_after h w =
      if ready then finish close_after (drain h.his_msgq h w) else ([], h, w)

  pub his_work_handler : Bool → History → W → List Fate × History × W
  unfolding his_flush
  his_work_handler ready h w = his_flush ready (not h.history_enabled) h w

  -- With the work that it submits, which has run when it returns; one pass of its loop, in which
  -- the handler finds the request.
  pub history_sync : Bool → History → W → List Fate × History × W
  unfolding his_work_handler
  history_sync ready h w =
      if ready then his_work_handler ready (record h { his_sync_req = true }) w else ([], h, w)

-- Whether the work is submitted.
pub history_enable_write : Bool → History → History × Bool
history_enable_write en h = (record h { history_enabled = en }, not en)

pub send_history_data : Bool → HisData → History → History × Bool
send_history_data ready d h =
    if not h.history_enabled || not ready
    then (h, false)
    else if ltb (length h.his_msgq) msgq_depth
    then (record h { his_msgq = h.his_msgq ++ (d ∷ []) }, true)
    else (h, false)

-- What happens to the history: a sample, a run of the work, the switch, and a synchronisation. The
-- Boolean of the others is what io_lfs_is_ready gives.
pub data Event : Type 0 where
  sample : Bool → HisData → Event
  work : Bool → Event
  switch : Bool → Event
  sync : Bool → Event

module _ {W : Type 0} (fs : Fs W) where
  pub step : Event → History → W → List Fate × History × W
  unfolding send_history_data his_work_handler history_enable_write history_sync
  step (sample ready d) h w = ([], (send_history_data ready d h).0, w)
  step (work ready) h w = his_work_handler fs ready h w
  step (switch en) h w = ([], (history_enable_write en h).0, w)
  step (sync ready) h w = history_sync fs ready h w

  pub run : List Event → History → W → List Fate × History × W
  unfolding step
  run [] h w = ([], h, w)
  run (e ∷ es) h w =
      let (fates, h', w') = step e h w in
      let (later, h'', w'') = run es h' w' in (fates ++ later, h'', w'')
