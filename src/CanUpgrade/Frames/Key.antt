-- ===== src/CanUpgrade/Frames/Key.antt =====
-- The key hash of can_fw_upgrade.c: five numbered frames, in whatever order, make up the 32 bytes
-- that START compares.
use iot_zephyr_app.Base.{
  test_bit, test_bit-or, test_bit-u8, test_bit_none, ℕ, zero, suc, ◌+◌, ◌-◌, ◌*◌, ◌/◌, ◌%◌, ◌^◌,
  ◌≤◌, ◌<◌, ◌≡◌, sym, ap, ◌∙◌, min, true, not, ◌||◌, some, List, [], ◌∷◌, ◌++◌, bit_and, bit_or,
  bit_and_low, ltb, leb, ◌==◌, u8, length, get_or, take, drop, Bool-cases, inl, inr, All,
  length-append, length-take, length-drop, get_or-append_left, get_or-append_right, get_or-take,
  get_or-drop, eq_of_get_or, take_all, dec_lt, ℕ_discrete, arith,
}
use mathlib.Core.Bool.{true≢false}
use iot_zephyr_app.UdpUpgrade.Commands.{bytes_eq}
use iot_zephyr_app.CanUpgrade.{CanFrame, Build, CanFw, Answers}
use iot_zephyr_app.CanUpgrade.Frames.{
  cmd_start_update, trace_start, fw_can_reply, code_keyhash_error, handle_keyhash_frame, check_key,
  key_len, full_mask,
}

test_bit_full : (j mask : ℕ) → j < 5 → mask % 32 ≡ 31 → test_bit j mask ≡ true
test_bit_full zero mask p e = ground arith
test_bit_full (suc zero) mask p e = ground arith
test_bit_full (suc (suc zero)) mask p e = ground arith
test_bit_full (suc (suc (suc zero))) mask p e = ground arith
test_bit_full (suc (suc (suc (suc zero)))) mask p e = ground arith
test_bit_full (suc (suc (suc (suc (suc j))))) mask p e = absurd (omega arith)

-- Bytes of `new` written over `buf` from `off` on.
abbrev spliced : List ℕ → List ℕ → ℕ → ℕ → List ℕ
spliced buf new off c = take off buf ++ (take c new ++ drop (off + c) buf)

module _ (buf new : List ℕ) (off c : ℕ) (room : off + c ≤ length buf) (there : c ≤ length new) where
  head_length : length (take off buf) ≡ off
  head_length = omega (arith, length-take off buf)

  part_length : length (take c new) ≡ c
  part_length = omega (arith, length-take c new)

  length-spliced : length (spliced buf new off c) ≡ length buf
  length-spliced = omega (
    arith,
    length-append (take off buf) (take c new ++ drop (off + c) buf),
    length-append (take c new) (drop (off + c) buf),
    length-drop (off + c) buf,
    head_length,
    part_length,
  )

  spliced_before : (j : ℕ) → j < off → get_or (spliced buf new off c) j 0 ≡ get_or buf j 0
  spliced_before j p =
      get_or-append_left (take off buf) _ j 0 (omega (arith, head_length))
      ∙ get_or-take off buf j 0 p

  spliced_from :
      (k : ℕ)
      → get_or (spliced buf new off c) (off + k) 0 ≡ get_or (take c new ++ drop (off + c) buf) k 0
  spliced_from k =
      ap (λ n. get_or (spliced buf new off c) (n + k) 0) (sym head_length)
      ∙ get_or-append_right (take off buf) _ k 0

  spliced_in : (k : ℕ) → k < c → get_or (spliced buf new off c) (off + k) 0 ≡ get_or new k 0
  spliced_in k p =
      spliced_from k
      ∙ (get_or-append_left (take c new) _ k 0 (omega (arith, part_length))
          ∙ get_or-take c new k 0 p)

  spliced_after :
      (m : ℕ) → get_or (spliced buf new off c) (off + (c + m)) 0 ≡ get_or buf (off + (c + m)) 0
  spliced_after m =
      spliced_from (c + m)
      ∙ (ap (λ n. get_or (take c new ++ drop (off + c) buf) (n + m) 0) (sym part_length)
          ∙ (get_or-append_right (take c new) _ m 0
              ∙ (get_or-drop (off + c) buf m 0 ∙ ap (λ n. get_or buf n 0) (omega arith))))

-- The chunks whose bits are set are those of `key`.
abbrev pub Collected : List ℕ → CanFw → Type 0
Collected key s =
    (length s.rx_keybuf ≡ 32)
    × ((j : ℕ)
        → j < 32
        → test_bit (j / 7) s.key_chunk_mask ≡ true
        → get_or s.rx_keybuf j 0 ≡ get_or key j 0)

-- A frame with the bytes of `key` that belong to its number.
abbrev pub IsKeyFrame : List ℕ → CanFrame → Type 0
IsKeyFrame key frame =
    (length frame.bytes ≡ 8)
    × ((k : ℕ)
        → k < 7
        → get_or frame.bytes 0 0 * 7 + k < 32
        → get_or frame.bytes (1 + k) 0 ≡ get_or key (get_or frame.bytes 0 0 * 7 + k) 0)

module _ (b : Build) (key : List ℕ) (s : CanFw) (frame : CanFrame) where
  abbrev seq : ℕ
  seq = get_or frame.bytes 0 0

  abbrev chunk : ℕ
  chunk = min (u8 (key_len + 1792 - seq * 7)) 7

  abbrev buffer : List ℕ
  buffer = spliced s.rx_keybuf (drop 1 frame.bytes) (seq * 7) chunk

  chunk_lem : seq < 5 → chunk ≡ min (32 - seq * 7) 7
  chunk_lem p = omega arith

  module _ (p : seq < 5) (f : IsKeyFrame key frame) (v : Collected key s) where
    room : seq * 7 + chunk ≤ length s.rx_keybuf
    room = omega (arith, v.0, chunk_lem p)

    there : chunk ≤ length (drop 1 frame.bytes)
    there = omega (arith, f.0, length-drop 1 frame.bytes)

    own_byte : (j : ℕ) → j < 32 → seq ≡ j / 7 → get_or buffer j 0 ≡ get_or key j 0
    own_byte j q e =
        ap (λ n. get_or buffer n 0) place
        ∙ (spliced_in s.rx_keybuf (drop 1 frame.bytes) (seq * 7) chunk room there (j % 7)
              (omega (arith, chunk_lem p))
            ∙ (get_or-drop 1 frame.bytes (j % 7) 0
                ∙ (f.1 (j % 7) (omega arith) (omega arith) ∙ ap (λ n. get_or key n 0) (sym place))))
      where
        place : j ≡ seq * 7 + j % 7
        place = omega arith

    other_byte : (j : ℕ) → j < 32 → ¬ (seq ≡ j / 7) → get_or buffer j 0 ≡ get_or s.rx_keybuf j 0
    other_byte j q e = elim (dec_lt j (seq * 7)) [
      | yes before ↦
          spliced_before s.rx_keybuf (drop 1 frame.bytes) (seq * 7) chunk room there j before
      | no after ↦
          let place : j ≡ seq * 7 + (chunk + (j - (seq * 7 + chunk))) =
            omega (arith, chunk_lem p) in
          ap (λ n. get_or buffer n 0) place
          ∙ (spliced_after s.rx_keybuf (drop 1 frame.bytes) (seq * 7) chunk room there
                (j - (seq * 7 + chunk))
              ∙ ap (λ n. get_or s.rx_keybuf n 0) (sym place))
    ]

    bit_lem :
        (j : ℕ)
        → j < 5
        → test_bit j (u8 (bit_or s.key_chunk_mask (2 ^ seq)))
          ≡ (test_bit j s.key_chunk_mask || seq == j)
    bit_lem j q =
        test_bit-u8 j (bit_or s.key_chunk_mask (2 ^ seq)) (omega arith)
        ∙ test_bit-or j seq s.key_chunk_mask

    stored :
        (j : ℕ)
        → j < 32
        → test_bit (j / 7) (u8 (bit_or s.key_chunk_mask (2 ^ seq))) ≡ true
        → get_or buffer j 0 ≡ get_or key j 0
    stored j q set = elim (ℕ_discrete seq (j / 7)) [
      | yes e ↦ own_byte j q e
      | no e ↦ other_byte j q e ∙ v.1 j q (ground (arith, bit_lem (j / 7) (omega arith)))
    ]

  -- A frame of the key keeps the chunks that are there and may add its own, whatever its number.
  pub handle_keyhash_frame-Collected :
      IsKeyFrame key frame → Collected key s → Collected key (handle_keyhash_frame b s frame)
  unfolding handle_keyhash_frame
  handle_keyhash_frame-Collected f v =
      elim (Bool-cases (leb 5 seq || ltb (u8 (b.dlc_to_bytes frame.dlc)) (1 + chunk))) [
        | inl bad ↦ rw (bad, handle_keyhash_frame) v
        | inr fine ↦
            let p : seq < 5 = ground arith in
            rw (fine, handle_keyhash_frame)
              (
                length-spliced s.rx_keybuf (drop 1 frame.bytes) (seq * 7) chunk (room p f v)
                      (there p f v)
                    ∙ v.0,
                stored p f v,
              )
      ]

-- Frames handled one after the other.
unfoldable pub collect : Build → CanFw → List CanFrame → CanFw
collect b s [] = s
collect b s (frame ∷ frames) = collect b (handle_keyhash_frame b s frame) frames

pub collect-Collected :
    (b : Build) (key : List ℕ) (frames : List CanFrame) (s : CanFw)
    → All (IsKeyFrame key) frames
    → Collected key s
    → Collected key (collect b s frames)
unfolding collect
collect-Collected b key [] s f v = v
collect-Collected b key (frame ∷ frames) s f v =
    collect-Collected b key frames (handle_keyhash_frame b s frame) f.1
      (handle_keyhash_frame-Collected b key s frame f.0 v)

buffer_full :
    (key : List ℕ) (s : CanFw)
    → Collected key s
    → length key ≡ 32
    → bit_and s.key_chunk_mask full_mask ≡ full_mask
    → s.rx_keybuf ≡ key
buffer_full key s v whole full = eq_of_get_or s.rx_keybuf key 0 (v.0 ∙ sym whole) (λ j p.
    v.1 j (omega (arith, v.0)) (
      test_bit_full (j / 7) s.key_chunk_mask (omega (arith, v.0))
        (sym (bit_and_low 5 s.key_chunk_mask) ∙ full)))

check_key_full :
    (b : Build) (s : CanFw) (fw : List ℕ)
    → b.keyhash ≡ some fw
    → bit_and s.key_chunk_mask full_mask ≡ full_mask
    → check_key b s
      ≡ (record s { key_chunk_mask = 0 }, not (bytes_eq (take key_len s.rx_keybuf) fw))
unfolding check_key
check_key_full b s fw built full = simp (built, full, check_key)

-- Let frames of a host's key of 32 bytes arrive, in any order, repeated, or broken off, from an
-- empty mask on, in a build that has a key. If the mask is full then, the check at START compares
-- that key with the build's, and empties the mask.
pub check_key-collect :
    (b : Build) (key fw : List ℕ) (frames : List CanFrame) (s : CanFw)
    → length key ≡ 32
    → b.keyhash ≡ some fw
    → length s.rx_keybuf ≡ 32
    → s.key_chunk_mask ≡ 0
    → All (IsKeyFrame key) frames
    → bit_and (collect b s frames).key_chunk_mask full_mask ≡ full_mask
    → check_key b (collect b s frames)
      ≡ (record (collect b s frames) { key_chunk_mask = 0 }, not (bytes_eq key fw))
check_key-collect b key fw frames s whole built size empty f full =
    let v = collect-Collected b key frames s f (
      size,
      λ j p set.
          absurd (true≢false (sym set ∙ (ap (test_bit (j / 7)) empty ∙ test_bit_none (j / 7)))),
    ) in
    let same = buffer_full key (collect b s frames) v whole full in
    check_key_full b (collect b s frames) fw built full
    ∙ ap (λ k. (record (collect b s frames) { key_chunk_mask = 0 }, not (bytes_eq k fw)))
        (ap (take 32) same ∙ take_all 32 key (omega (arith, whole)))

-- A START of eight bytes whose key check finds a mismatch is refused: nothing but the trace frame
-- of the boot loader and the refusal is sent, no hook is called and no flash touched.
pub cmd_start_update-other_key :
    (b : Build) (a : Answers) (s : CanFw) (frame : CanFrame)
    → b.dlc_to_bytes frame.dlc ≡ 8
    → (check_key b s).1 ≡ true
    → cmd_start_update b a s frame
      ≡ ((check_key b s).0, trace_start b a ++ fw_can_reply b code_keyhash_error 0 ∷ [])
unfolding cmd_start_update
cmd_start_update-other_key b a s frame sized other = simp (sized, other, cmd_start_update)
