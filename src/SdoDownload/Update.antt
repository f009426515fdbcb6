-- ===== src/SdoDownload/Update.antt =====
-- What a download over the objects writes to the flash.
use iot_zephyr_app.Base.{
  ℕ, ◌≡◌, ◌+◌, ◌<◌, refl, Bool, true, false, not, ◌&&◌, ◌||◌, List, [], ◌∷◌, ◌++◌, ltb, ◌==◌,
  length, Bool-cases, lt→ltb, if_cases, inl, inr, arith, u32, if◌then◌else◌,
}
use iot_zephyr_app.Zephyr.ByteOrder.{ByteOrder}
use iot_zephyr_app.SdoDownload.{
  sdo, try_lock, FwDlState, SdoFw, Answers, OdStream, Odr, Event, data_write, ctrl_write,
  udp_starts, udp_fails, ws_starts, ws_ends, Effect, erase_trailer, img_init, img_write, img_flush,
  request_upgrade, write_original, fw_data_write, fw_ctrl_write, prepare, start_download,
  confirm_download, ctrl_error, confirm_error, step, run, ready, streaming, confirmed, idle, failed,
  accepts_data, is_streaming, dev_incompat,
}

-- How far the image in the slot is: not begun or spoilt, or so many bytes, and whether those have
-- been flushed.
pub data Slot : Type 0 where
  unfit : Slot
  holds : ℕ → Slot
  flushed : ℕ → Slot

-- What one call does to the slot.
pub after : Slot → Effect → Slot
after slot erase_trailer = unfit
after slot img_init = holds 0
after (holds n) (img_write bytes true) = holds (n + length bytes)
after slot (img_write bytes w) = unfit
after (holds n) (img_flush true) = flushed n
after slot (img_flush w) = unfit
after slot request_upgrade = unfit
after slot write_original = slot

-- MCUboot may be asked for the image in the slot.
pub is_fit : Slot → Bool
is_fit (flushed n) = ltb 0 n
is_fit slot = false

-- MCUboot is asked for the image only where it has been written and flushed without an error.
pub is_orderly : Slot → List Effect → Bool
unfolding after is_fit
is_orderly slot [] = true
is_orderly slot (request_upgrade ∷ calls) =
    is_fit slot && is_orderly (after slot request_upgrade) calls
is_orderly slot (call ∷ calls) = is_orderly (after slot call) calls

pub slot_after : Slot → List Effect → Slot
unfolding after
slot_after slot [] = slot
slot_after slot (call ∷ calls) = slot_after (after slot call) calls

is_orderly-append :
    (xs ys : List Effect) (slot : Slot)
    → is_orderly slot (xs ++ ys) ≡ (is_orderly slot xs && is_orderly (slot_after slot xs) ys)
unfolding is_orderly slot_after
is_orderly-append [] ys slot = refl
is_orderly-append (request_upgrade ∷ xs) ys slot =
    ground (arith, is_orderly-append xs ys (after slot request_upgrade))
is_orderly-append (erase_trailer ∷ xs) ys slot = is_orderly-append xs ys (after slot erase_trailer)
is_orderly-append (img_init ∷ xs) ys slot = is_orderly-append xs ys (after slot img_init)
is_orderly-append (img_write b w ∷ xs) ys slot =
    is_orderly-append xs ys (after slot (img_write b w))
is_orderly-append (img_flush w ∷ xs) ys slot = is_orderly-append xs ys (after slot (img_flush w))
is_orderly-append (write_original ∷ xs) ys slot =
    is_orderly-append xs ys (after slot write_original)

-- What the module's variables say of the slot.
abbrev pub Agrees : FwDlState → ℕ → Slot → Type 0
Agrees ready w slot = (slot ≡ holds 0) × (w ≡ 0)
Agrees streaming w slot = (n : ℕ) × (slot ≡ holds n) × (w ≡ u32 n)
Agrees _ w slot = Unit

-- What a step promises: its calls are orderly, and the variables agree with the slot afterwards.
record IsSound (slot : Slot) (r : Odr × SdoFw × List Effect) : Type 0 where
  orderly : is_orderly slot r.2 ≡ true
  agrees : Agrees r.1.fw_state r.1.fw_written (slot_after slot r.2)

begun :
    (st : FwDlState) (w : ℕ) (slot : Slot)
    → accepts_data st ≡ true
    → Agrees st w slot
    → (n : ℕ) × (slot ≡ holds n) × (w ≡ u32 n)
begun ready w slot h v = (0, v.0, v.1)
begun streaming w slot h v = v
begun idle w slot h v = cc
begun confirmed w slot h v = cc
begun failed w slot h v = cc

written :
    (st : FwDlState) (w : ℕ) (slot : Slot)
    → is_streaming st ≡ true
    → Agrees st w slot
    → (n : ℕ) × (slot ≡ holds n) × (w ≡ u32 n)
written streaming w slot h v = v
written ready w slot h v = cc
written idle w slot h v = cc
written confirmed w slot h v = cc
written failed w slot h v = cc

data_write-IsSound :
    (a : Answers) (s : SdoFw) (stream : OdStream) (buf : List ℕ) (slot : Slot)
    → Agrees s.fw_state s.fw_written slot
    → let (odr, s', _, _, calls) = fw_data_write a s stream buf in IsSound slot (odr, s', calls)
unfolding fw_data_write is_orderly slot_after after
data_write-IsSound a s stream buf slot v = elim (Bool-cases (accepts_data s.fw_state)) [
  | inr off ↦ simp off (record { orderly = refl; agrees = v })
  | inl on ↦ elim (Bool-cases (length buf == 0)) [
    | inl none_yet ↦ simp (on, none_yet) (record { orderly = refl; agrees = v })
    | inr some_data ↦ elim (Bool-cases a.buffered_write) [
      | inl good ↦
          let (n, at, w) = begun s.fw_state s.fw_written slot on v in
          simp (on, some_data, good)
            (record { orderly = refl; agrees = (n + length buf, rw at, omega (arith, w)) })
      | inr bad ↦ simp (on, some_data, bad) (record { orderly = refl; agrees = tt })
    ]
  ]
]

prepare-IsSound : (a : Answers) (s : SdoFw) (slot : Slot) → IsSound slot (prepare a s)
unfolding prepare ctrl_error is_orderly slot_after after
prepare-IsSound a s slot = ground arith

start_download-IsSound :
    (a : Answers) (s : SdoFw) (slot : Slot)
    → Agrees s.fw_state s.fw_written slot
    → IsSound slot (start_download a s)
unfolding start_download is_orderly slot_after
start_download-IsSound a s slot v =
    let busy : Odr × SdoFw × List Effect = (dev_incompat, s, []) in
    let fresh = if (try_lock sdo s.lock).0 then prepare a taken else busy in
    if_cases (IsSound slot) s.sdo_lock_held (prepare a s) fresh (λ _. prepare-IsSound a s slot)
      λ _.
        if_cases (IsSound slot) (try_lock sdo s.lock).0 (prepare a taken) busy
          (λ _. prepare-IsSound a taken slot) (λ _. record { orderly = refl; agrees = v })
  where
    taken : SdoFw
    taken = record s { lock = (try_lock sdo s.lock).1; sdo_lock_held = true }

confirm_error-failed : (s : SdoFw) → (confirm_error s).fw_state ≡ failed
unfolding confirm_error
confirm_error-failed s = ground arith

confirm_error-Agrees :
    (s : SdoFw) (slot : Slot) → Agrees (confirm_error s).fw_state (confirm_error s).fw_written slot
confirm_error-Agrees s slot = rw (confirm_error-failed s) tt

confirm_download-IsSound :
    (a : Answers) (s : SdoFw) (slot : Slot)
    → Agrees s.fw_state s.fw_written slot
    → IsSound slot (confirm_download a s)
unfolding confirm_download is_orderly slot_after after is_fit
confirm_download-IsSound a s slot v =
    elim (Bool-cases (not (is_streaming s.fw_state) || s.fw_written == 0)) [
      | inl off ↦ simp off (record { orderly = refl; agrees = confirm_error-Agrees s slot })
      | inr on ↦
          let (n, at, w) = written s.fw_state s.fw_written slot (ground arith) v in
          let some_bytes : 0 < n = ground (arith, w) in
          elim (Bool-cases a.flush) [
            | inr bad ↦
                simp (on, bad) (record { orderly = refl; agrees = confirm_error-Agrees s _ })
            | inl good ↦ elim (Bool-cases a.request) [
              | inl taken ↦
                  simp (on, good, taken)
                    (record { orderly = rw (at, lt→ltb 0 n some_bytes); agrees = tt })
              | inr refused ↦
                  simp (on, good, refused)
                    (record {
                      orderly = rw (at, lt→ltb 0 n some_bytes);
                      agrees = confirm_error-Agrees s _;
                    })
            ]
          ]
    ]

module _ (order : ByteOrder) where
  ctrl_write-IsSound :
      (a : Answers) (s : SdoFw) (buf : List ℕ) (slot : Slot)
      → Agrees s.fw_state s.fw_written slot
      → IsSound slot (fw_ctrl_write order a s buf)
  unfolding fw_ctrl_write is_orderly slot_after
  ctrl_write-IsSound a s buf slot v = elim (Bool-cases (not (length buf == 4))) [
    | inl short ↦ simp short still
    | inr whole ↦ elim (Bool-cases (order.get_le32 buf == 0)) [
      | inl begin ↦ simp (whole, begin) (start_download-IsSound a s slot v)
      | inr more ↦ elim (Bool-cases (order.get_le32 buf == 1)) [
        | inl confirm ↦ simp (whole, more, confirm) (confirm_download-IsSound a s slot v)
        | inr bad ↦ simp (whole, more, bad) still
      ]
    ]
  ]
    where
      still : {odr : Odr} → IsSound slot (odr, s, [])
      still = record { orderly = refl; agrees = v }

  step_sound :
      (e : Event) (s : SdoFw) (slot : Slot)
      → Agrees s.fw_state s.fw_written slot
      → let (s', calls) = step order e s in
        (is_orderly slot calls ≡ true) × Agrees s'.fw_state s'.fw_written (slot_after slot calls)
  unfolding step is_orderly slot_after
  step_sound (data_write a stream buf) s slot v =
      let sound = data_write-IsSound a s stream buf slot v in (sound.orderly, sound.agrees)
  step_sound (ctrl_write a buf) s slot v =
      let sound = ctrl_write-IsSound a s buf slot v in (sound.orderly, sound.agrees)
  step_sound udp_starts s slot v = (refl, v)
  step_sound udp_fails s slot v = (refl, v)
  step_sound ws_starts s slot v = (refl, v)
  step_sound ws_ends s slot v = (refl, v)

  run-orderly_from :
      (es : List Event) (s : SdoFw) (slot : Slot)
      → Agrees s.fw_state s.fw_written slot
      → is_orderly slot (run order es s).1 ≡ true
  unfolding run is_orderly
  run-orderly_from [] s slot v = refl
  run-orderly_from (e ∷ es) s slot v =
      let first = step_sound e s slot v in
      rw (is_orderly-append (step order e s).1 (run order es (step order e s).0).1 slot, first.0)
        (run-orderly_from es (step order e s).0 (slot_after slot (step order e s).1) first.1)

  -- From the idle state, whatever the host writes and the calls answer, MCUboot is asked for the
  -- image in the slot only where the slot has been prepared since the last request, at least one
  -- byte has been written to it, no write or flush has failed, and all has been flushed.
  pub run-orderly :
      (es : List Event) (s : SdoFw) → s.fw_state ≡ idle → is_orderly unfit (run order es s).1 ≡ true
  run-orderly es s e = run-orderly_from es s unfit (rw e tt)
