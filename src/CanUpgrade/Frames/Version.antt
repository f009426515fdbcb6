-- ===== src/CanUpgrade/Frames/Version.antt =====
-- The version text of can_fw_upgrade.c, cut into numbered frames of seven bytes.
use iot_zephyr_app.Base.{
  ℕ, zero, suc, ◌+◌, ◌-◌, ◌*◌, ◌/◌, ◌≤◌, ◌<◌, ◌≡◌, refl, sym, ◌∙◌, min, List, [], ◌∷◌, ◌++◌,
  append-nil, append_assoc, u8, length, length-append, length-take, length-drop, length-replicate,
  take, drop, replicate, take-append-drop, drop-add, drop_all, take_all, lt→ltb, le→ltb_false,
  dec_lt, dec_le, arith,
}
use iot_zephyr_app.CanUpgrade.{Effect, can_send}
use iot_zephyr_app.CanUpgrade.Frames.{version_loop, send_version_string}

-- What the host appends: the bytes after the number of each frame.
abbrev pub texts : List Effect → List ℕ
texts [] = []
texts (can_send id (seq ∷ text) ∷ es) = text ++ texts es
texts (e ∷ es) = texts es

-- Frames of eight bytes on the version identifier, numbered from `seq` on.
abbrev pub IsNumbered : ℕ → List Effect → Type 0
IsNumbered seq [] = Unit
IsNumbered seq (can_send id (n ∷ text) ∷ es) =
    (id ≡ 0x105) × (n ≡ seq) × (length text ≡ 7) × IsNumbered (seq + 1) es
IsNumbered seq (e ∷ es) = ⊥

module _ (ver : List ℕ) (short : length ver < 250) where
  abbrev loop : ℕ → ℕ → ℕ → List Effect
  loop n off seq = version_loop n ver (length ver) off seq

  loop_end : (n off seq : ℕ) → length ver ≤ off → loop n off seq ≡ []
  unfolding version_loop
  loop_end zero off seq p = refl
  loop_end (suc n) off seq p = rw (le→ltb_false off (length ver) p)

  abbrev Sends : ℕ → ℕ → List Effect → Type 0
  Sends off seq es =
      ((k : ℕ) × (k < 7) × (texts es ≡ drop off ver ++ replicate k 0)) × IsNumbered seq es

  loop_lem :
      (n off seq : ℕ) → length ver ≤ off + 7 * n → off ≡ 7 * seq → Sends off seq (loop n off seq)
  unfolding version_loop
  loop_lem zero off seq fuel at =
      ((0, omega arith, sym (append-nil (drop off ver) ∙ drop_all off ver (omega arith))), tt)
  loop_lem (suc n) off seq fuel at = elim (dec_lt off (length ver)) [
    | no over ↦
        rw (le→ltb_false off (length ver) (omega arith))
          ((0, omega arith, sym (append-nil (drop off ver) ∙ drop_all off ver (omega arith))), tt)
    | yes more ↦
        rw (lt→ltb off (length ver) more, next_off more, next_seq more)
          (elim (dec_le (off + 7) (length ver)) [
            | yes long ↦
                let all : min 7 (length ver - off) ≡ 7 = omega arith in
                let ((k, small, later), numbered) =
                  loop_lem n (off + 7) (seq + 1) (omega arith) (omega arith) in
                rw (all, append-nil, later)
                  (
                    (k, small, whole k),
                    (
                      refl,
                      refl,
                      omega (arith, length-take 7 (drop off ver), length-drop off ver),
                      numbered,
                    ),
                  )
            | no last ↦
                let cut : min 7 (length ver - off) ≡ length ver - off = omega arith in
                rw (cut, loop_end n (off + 7) (seq + 1) (omega arith), append-nil)
                  (
                    (
                      7 - (length ver - off),
                      omega arith,
                      rw (
                          take_all (length ver - off) (drop off ver)
                            (omega (arith, length-drop off ver))),
                    ),
                    (
                      refl,
                      refl,
                      omega (
                        arith,
                        length-append (take (length ver - off) (drop off ver))
                            (replicate (7 - (length ver - off)) 0),
                        length-take (length ver - off) (drop off ver),
                        length-drop off ver,
                        length-replicate {A = ℕ} (7 - (length ver - off)) 0,
                      ),
                      tt,
                    ),
                  )
          ])
  ]
    where
      whole :
          (k : ℕ)
          → take 7 (drop off ver) ++ (drop (off + 7) ver ++ replicate k 0)
            ≡ drop off ver ++ replicate k 0
      whole k = rw (drop-add off 7 ver, ← append_assoc, take-append-drop)

      next_off : off < length ver → u8 (off + 7) ≡ off + 7
      next_off p = omega arith

      next_seq : off < length ver → u8 (seq + 1) ≡ seq + 1
      next_seq p = omega arith

-- For a text of less than 250 bytes, the host gets numbered frames of eight bytes, and what it puts
-- together from them is the text with fewer than seven zero bytes after it.
pub send_version_string_lem :
    (ver : List ℕ)
    → length ver < 250
    → let es = send_version_string ver (length ver) in
      ((k : ℕ) × (k < 7) × (texts es ≡ ver ++ replicate k 0)) × IsNumbered 0 es
unfolding send_version_string
send_version_string_lem ver short = loop_lem ver short (length ver / 7 + 1) 0 0 (omega arith) refl
