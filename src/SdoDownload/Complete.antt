-- ===== src/SdoDownload/Complete.antt =====
-- A download over the objects from the first access to the last.
use iot_zephyr_app.Base.{
  ℕ, ◌≡◌, ◌+◌, ◌<◌, ◌^◌, refl, sym, true, false, List, [], ◌∷◌, ◌++◌, length, ◌⊎◌, arith, u32, ap,
  ◌∙◌, map, append-nil, All, ==_no,
}
use iot_zephyr_app.Zephyr.ByteOrder.{ByteOrder}
use iot_zephyr_app.SdoDownload.{
  try_lock, SdoFw, Answers, OdStream, Event, data_write, ctrl_write, Effect, erase_trailer,
  img_init, img_write, img_flush, request_upgrade, write_original, fw_data_write, fw_ctrl_write,
  prepare, start_download, confirm_download, step, run, ready, streaming, confirmed, accepts_data,
}

-- A block that the host writes, with what the server's stream says then.
abbrev pub Block : Type 0
Block = OdStream × List ℕ

abbrev pub total : List Block → ℕ
total [] = 0
total ((stream, bytes) ∷ blocks) = length bytes + total blocks

abbrev pub SomeData : Block → Type 0
SomeData (stream, bytes) = 0 < length bytes

abbrev pub written : Block → Effect
written (stream, bytes) = img_write bytes true

-- Every call succeeds.
pub record AreGood (a : Answers) : Type 0 where
  pub opens : a.area_open ≡ true
  pub erases : a.area_erase ≡ true
  pub begins : a.img_init_id ≡ true
  pub writes : a.buffered_write ≡ true
  pub flushes : a.flush ≡ true
  pub requests : a.request ≡ true

module _ (order : ByteOrder) (a : Answers) (good : AreGood a) where
  abbrev pub sent : Block → Event
  sent (stream, bytes) = data_write a stream bytes

  one_block :
      (s : SdoFw) (b : Block)
      → accepts_data s.fw_state ≡ true
      → SomeData b
      → step order (sent b) s ≡ (
        record s { fw_written = u32 (s.fw_written + length b.1); fw_state = streaming },
        written b ∷ [],
      )
  unfolding step fw_data_write
  one_block s (stream, bytes) on h = simp (on, good.writes, ==_no (length bytes) 0 (omega arith))

  run-step :
      (e : Event) (es : List Event) (s s' : SdoFw) (calls : List Effect)
      → step order e s ≡ (s', calls)
      → let (s'', later) = run order es s' in run order (e ∷ es) s ≡ (s'', calls ++ later)
  unfolding run
  run-step e es s s' calls h =
      ap (λ (r : SdoFw × List Effect). ((run order es r.0).0, r.1 ++ (run order es r.0).1)) h

  -- The state after so many bytes.
  abbrev pub after_bytes : SdoFw → ℕ → SdoFw
  after_bytes s n = record s { fw_written = n; fw_state = streaming }

  blocks_lem :
      (blocks : List Block) (es : List Event) (s : SdoFw) (n : ℕ)
      → All SomeData blocks
      → n < 2 ^ 32
      → let (s', later) = run order es (after_bytes s (u32 (n + total blocks))) in
        run order (map sent blocks ++ es) (after_bytes s n) ≡ (s', map written blocks ++ later)
  blocks_lem [] es s n h small = let same : u32 (n + 0) ≡ n = omega arith in rw same refl
  blocks_lem (b ∷ blocks) es s n h small =
      run-step (sent b) (map sent blocks ++ es) (after_bytes s n) _ _
        (one_block (after_bytes s n) b refl h.0)
      ∙ rw (blocks_lem blocks es s (u32 (n + length b.1)) h.1 (omega arith), sum) refl
    where
      sum : u32 (u32 (n + length b.1) + total blocks) ≡ u32 (n + (length b.1 + total blocks))
      sum = omega arith

  abbrev pub download : Block → List Block → List Event
  download b blocks =
      ctrl_write a (order.put_le32 0)
      ∷ sent b
      ∷ (map sent blocks ++ ctrl_write a (order.put_le32 1) ∷ [])

  put_get : (x : ℕ) → x < 2 ^ 32 → order.get_le32 (order.put_le32 x) ≡ x
  put_get x small =
      ap order.get_le32 (sym (append-nil (order.put_le32 x))) ∙ order.get-put_le32 x [] small

  begins_lem :
      (s : SdoFw)
      → (s.sdo_lock_held ≡ true) ⊎ (s.lock.upgrade_active ≡ false)
      → let s' = (step order (ctrl_write a (order.put_le32 0)) s).0 in
        (step order (ctrl_write a (order.put_le32 0)) s
          ≡ (s', erase_trailer ∷ img_init ∷ write_original ∷ []))
        × (s'.fw_state ≡ ready)
        × (s'.fw_written ≡ 0)
  unfolding step fw_ctrl_write start_download prepare try_lock
  begins_lem s free = ground (
    arith,
    put_get 0 (omega arith),
    order.length-put_le32 0,
    good.opens,
    good.erases,
    good.begins,
  )

  ends_lem :
      (s : SdoFw)
      → s.fw_state ≡ streaming
      → 0 < s.fw_written
      → step order (ctrl_write a (order.put_le32 1)) s ≡ (
        record s { fw_state = confirmed; rebooting = true },
        img_flush true ∷ request_upgrade ∷ write_original ∷ [],
      )
  unfolding step fw_ctrl_write confirm_download
  ends_lem s on some_bytes =
      ground (arith, put_get 1 (omega arith), order.length-put_le32 1, good.flushes, good.requests)

  run_last :
      (e : Event) (s s' : SdoFw) (calls : List Effect)
      → step order e s ≡ (s', calls ++ [])
      → run order (e ∷ []) s ≡ (s', calls ++ [])
  unfolding run
  run_last e s s' calls h =
      ap (λ (r : SdoFw × List Effect). (r.0, r.1 ++ [])) h ∙ rw append_nils refl
    where
      append_nils : (calls ++ []) ++ [] ≡ calls ++ []
      append_nils = append-nil (calls ++ [])

  -- If the lock is free or already held and every call succeeds, the write of 0, blocks with at least
  -- a byte each and less than 2^32 in all, and the write of 1 end in the confirmed state with the
  -- restart scheduled, after the slot has been prepared, the blocks have been written to it in their
  -- order and flushed, and MCUboot has been asked for the image.
  pub download_complete :
      (s : SdoFw) (b : Block) (blocks : List Block)
      → (s.sdo_lock_held ≡ true) ⊎ (s.lock.upgrade_active ≡ false)
      → All SomeData (b ∷ blocks)
      → total (b ∷ blocks) < 2 ^ 32
      → let (s', calls) = run order (download b blocks) s in
        (s'.fw_state ≡ confirmed)
        × (s'.rebooting ≡ true)
        × (calls
            ≡ erase_trailer
              ∷ img_init
              ∷ write_original
              ∷ (map written (b ∷ blocks)
                  ++ img_flush true ∷ request_upgrade ∷ write_original ∷ []))
  download_complete s b blocks free h small = rw whole (refl, refl, refl)
    where
      s' : SdoFw
      s' = (step order (ctrl_write a (order.put_le32 0)) s).0

      first : (s'.fw_state ≡ ready) × (s'.fw_written ≡ 0)
      first = let (_, state, count) = begins_lem s free in (state, count)

      whole_blocks : ℕ
      whole_blocks = total (b ∷ blocks)

      last : List Event
      last = ctrl_write a (order.put_le32 1) ∷ []

      confirming : List Effect
      confirming = img_flush true ∷ request_upgrade ∷ write_original ∷ []

      end : SdoFw
      end = record s' { fw_written = whole_blocks; fw_state = confirmed; rebooting = true }

      accepted : accepts_data s'.fw_state ≡ true
      accepted = rw first.0 refl

      counted : u32 (s'.fw_written + length b.1) ≡ length b.1
      counted = omega (arith, first.1)

      all_counted : u32 (length b.1 + total blocks) ≡ whole_blocks
      all_counted = omega arith

      confirms : run order last (after_bytes s' whole_blocks) ≡ (end, confirming)
      confirms =
          run_last (ctrl_write a (order.put_le32 1)) (after_bytes s' whole_blocks) end confirming
            (ends_lem (after_bytes s' whole_blocks) refl (omega (arith, h.0)))

      rest :
          run order (map sent blocks ++ last) (after_bytes s' (length b.1))
          ≡ (end, map written blocks ++ confirming)
      rest =
          blocks_lem blocks last s' (length b.1) h.1 (omega arith) ∙ rw (all_counted, confirms) refl

      one_by_one :
          run order (sent b ∷ (map sent blocks ++ last)) s'
          ≡ (end, map written (b ∷ blocks) ++ confirming)
      one_by_one = run-step (sent b) _ _ _ _ (one_block s' b accepted h.0) ∙ rw (counted, rest) refl

      whole : run order (download b blocks) s ≡ (
        end,
        erase_trailer ∷ img_init ∷ write_original ∷ (map written (b ∷ blocks) ++ confirming),
      )
      whole = run-step _ _ _ _ _ (begins_lem s free).0 ∙ rw one_by_one refl
