-- ===== src/J1939/Transport/Reassembly.antt =====
-- What a receiver of J1939/21 makes of the frames of j1939_send_bam.
use iot_zephyr_app.Base.{
  ℕ, zero, suc, ◌+◌, ◌-◌, ◌*◌, ◌/◌, ◌^◌, ◌≤◌, ◌<◌, min, ◌≡◌, refl, ap, ap₂, sym, ◌∙◌, Bool, true,
  false, ◌&&◌, Option, none, some, List, [], ◌∷◌, ◌++◌, append_assoc, append-nil, bit_and,
  bit_and_low, if◌then◌else◌, leb, ◌==◌, ==_self, ==_no, length, length-append, length-take,
  length-replicate, get_or, take, drop, length-drop, take-append_self, take-append-drop, take_all,
  replicate, le→ltb_false, u8, dec_lt, arith,
}
use iot_zephyr_app.J1939.{
  J1939, Frame, make_id, send_raw, id_to_pgn, id_to_sa, pgn_tp_cm, pgn_tp_dt, sa_global,
}
use iot_zephyr_app.J1939.Ids.{make_id-directed}
use iot_zephyr_app.J1939.Transport.{
  max_data, tp_cm_bam, tp_prio, bam_sent, send_failed, cm_bytes, dt_bytes, transmit, dt_loop,
  send_bam,
}

-- Put before the bytes that follow, if there are any.
abbrev join : List ℕ → Option (List ℕ) → Option (List ℕ)
join bytes none = none
join bytes (some later) = some (bytes ++ later)

-- The bytes of so many data frames of a sender, which must be numbered in order.
abbrev pub collect : ℕ → ℕ → ℕ → List Frame → Option (List ℕ)
collect zero sa seq frames = some []
collect (suc n) sa seq [] = none
collect (suc n) sa seq (f ∷ fs) =
    let later = collect n sa (u8 (seq + 1)) fs in
    if id_to_pgn f.id == pgn_tp_dt && (id_to_sa f.id == sa && get_or f.bytes 0 0 == seq)
    then join (drop 1 f.bytes) later
    else none

-- The group and the message that a control frame announces, from the frames after it.
abbrev pub receive : List Frame → Option (ℕ × List ℕ)
receive [] = none
receive (cm ∷ frames) =
    let at : ℕ → ℕ = λ i. get_or cm.bytes i 0 in
    let bytes = collect (at 3) (id_to_sa cm.id) 1 frames in
    if id_to_pgn cm.id == pgn_tp_cm && at 0 == tp_cm_bam
    then elim bytes [
      | none ↦ none
      | some bs ↦ some (at 5 + at 6 * 256 + at 7 * 65536, take (at 1 + at 2 * 256) bs)
    ]
    else none

-- A data frame that is sent.
abbrev dt_frame : ℕ → ℕ → List ℕ → Frame
dt_frame sa seq rest = record {
  id = make_id tp_prio pgn_tp_dt sa sa_global;
  bytes = dt_bytes seq rest;
}

length-dt_bytes : (seq : ℕ) (rest : List ℕ) → length (dt_bytes seq rest) ≡ 8
unfolding dt_bytes
length-dt_bytes seq rest =
    let n = min 7 (length rest) in
    omega (
      arith,
      length-append (take n rest) (replicate (7 - n) 0xFF),
      length-take n rest,
      length-replicate {A = ℕ} (7 - n) 0xFF,
    )

send_raw-dt :
    (sa seq : ℕ) (rest : List ℕ)
    → send_raw tp_prio pgn_tp_dt sa sa_global (dt_bytes seq rest) ≡ some (dt_frame sa seq rest)
unfolding send_raw
send_raw-dt sa seq rest = rw (length-dt_bytes seq rest) refl

collect-dt :
    (n sa seq : ℕ) (rest : List ℕ) (frames : List Frame)
    → sa < 256
    → collect (suc n) sa seq (dt_frame sa seq rest ∷ frames)
      ≡ join (drop 1 (dt_bytes seq rest)) (collect n sa (u8 (seq + 1)) frames)
unfolding dt_bytes
collect-dt n sa seq rest frames h =
    let (reads, da) =
      make_id-directed tp_prio pgn_tp_dt sa sa_global (omega arith) (omega arith) refl h
        (omega arith) refl in
    rw (reads.reads_pgn, reads.reads_sa, ==_self sa, ==_self seq) refl

at_most : (n : ℕ) → n < 7 → n ≤ min 7 n
at_most n h = omega (arith, h)

seven : (n : ℕ) → ¬ (n < 7) → min 7 n ≡ 7
seven n h = omega (arith, h)

-- The bytes of a data frame and those after them, without the padding.
padded :
    (seq : ℕ) (rest later : List ℕ)
    → (pad : List ℕ) × (drop 1 (dt_bytes seq rest) ++ (drop 7 rest ++ later) ≡ rest ++ pad)
unfolding dt_bytes
padded seq rest later = elim (dec_lt (length rest) 7) [
  | yes h ↦
      let fill = replicate (7 - min 7 (length rest)) 0xFF in
      (
        fill ++ (drop 7 rest ++ later),
        ap (λ l. (l ++ fill) ++ (drop 7 rest ++ later))
              (take_all (min 7 (length rest)) rest (at_most (length rest) h))
            ∙ append_assoc rest fill (drop 7 rest ++ later),
      )
  | no h ↦ (
    later,
    ap (λ n. (take n rest ++ replicate (7 - n) 0xFF) ++ (drop 7 rest ++ later))
          (seven (length rest) h)
        ∙ ap (λ l. l ++ (drop 7 rest ++ later)) (append-nil (take 7 rest))
        ∙ sym (append_assoc (take 7 rest) (drop 7 rest) later)
        ∙ ap (λ l. l ++ later) (take-append-drop 7 rest),
  )
]

-- What the loop has sent when it is done.
record Collected (n sa seq : ℕ) (rest : List ℕ) (r : Bool × List Frame) : Type 0 where
  done : r.0 ≡ true
  pad : List ℕ
  gathered : collect n sa seq r.1 ≡ some (rest ++ pad)

dt_loop-Collected :
    (n : ℕ) (can : ℕ → Bool) (sa seq : ℕ) (rest : List ℕ)
    → ((k : ℕ) → can k ≡ true)
    → sa < 256
    → length rest ≤ 7 * n
    → 7 * n < length rest + 7
    → Collected n sa seq rest (dt_loop n can sa seq rest)
unfolding dt_loop transmit
dt_loop-Collected zero can sa seq [] ok h l m = record { done = refl; pad = []; gathered = refl }
dt_loop-Collected zero can sa seq (b ∷ bs) ok h l m = absurd (omega (arith, l))
dt_loop-Collected (suc n) can sa seq [] ok h l m = absurd (omega (arith, m))
dt_loop-Collected (suc n) can sa seq (b ∷ bs) ok h l m =
    let rest = b ∷ bs in
    let r =
      dt_loop-Collected n can sa (u8 (seq + 1)) (drop 7 rest) ok h
        (omega (arith, l, length-drop 7 rest)) (omega (arith, m, length-drop 7 rest)) in
    let (pad, e) = padded seq rest r.pad in
    rw (ok seq, send_raw-dt sa seq rest)
      record {
        done = r.done;
        pad = pad;
        gathered =
            collect-dt n sa seq rest (dt_loop n can sa (u8 (seq + 1)) (drop 7 rest)).1 h
            ∙ ap (join (drop 1 (dt_bytes seq rest))) r.gathered
            ∙ ap some e;
      }

cm_frame : J1939 → ℕ → List ℕ → Frame
cm_frame s pgn data_bytes = record {
  id = make_id tp_prio pgn_tp_cm s.self_sa sa_global;
  bytes = cm_bytes pgn (length data_bytes);
}

two_bytes : (n : ℕ) → n < 2 ^ 16 → u8 (bit_and n 0xFF) + u8 (bit_and (n / 2 ^ 8) 0xFF) * 256 ≡ n
two_bytes n h = rw (bit_and_low 8 n, bit_and_low 8 (n / 2 ^ 8)) (omega (arith, h))

three_bytes :
    (n : ℕ)
    → n < 2 ^ 24
    → u8 (bit_and n 0xFF)
        + u8 (bit_and (n / 2 ^ 8) 0xFF) * 256
        + u8 (bit_and (n / 2 ^ 16) 0xFF) * 65536
      ≡ n
three_bytes n h =
    rw (bit_and_low 8 n, bit_and_low 8 (n / 2 ^ 8), bit_and_low 8 (n / 2 ^ 16)) (omega (arith, h))

few : (n : ℕ) → n ≤ max_data → u8 ((n + 6) / 7) ≡ (n + 6) / 7
few n h = omega (arith, h)

more : (n : ℕ) → 8 < n → leb n 8 ≡ false
more n h = ground (arith, h)

-- What a receiver makes of the control frame and frames that it can gather.
receive-cm :
    (s : J1939) (pgn : ℕ) (data_bytes pad : List ℕ) (frames : List Frame)
    → s.self_sa < 256
    → pgn < 2 ^ 24
    → length data_bytes ≤ max_data
    → collect ((length data_bytes + 6) / 7) s.self_sa 1 frames ≡ some (data_bytes ++ pad)
    → receive (cm_frame s pgn data_bytes ∷ frames) ≡ some (pgn, data_bytes)
unfolding cm_frame cm_bytes
receive-cm s pgn data_bytes pad frames h p l e =
    let (reads, da) =
      make_id-directed tp_prio pgn_tp_cm s.self_sa sa_global (omega arith) (omega arith) refl h
        (omega arith) refl in
    rw (reads.reads_pgn, reads.reads_sa, few (length data_bytes) l, e)
      (ap₂ (λ a n. some (a, take n (data_bytes ++ pad))) (three_bytes pgn p)
          (two_bytes (length data_bytes) (omega (arith, l)))
        ∙ ap (λ d. some (pgn, d)) (take-append_self data_bytes pad (length data_bytes) refl))

-- A message of 9 to 1785 bytes that a node with an address broadcasts, when every frame can be sent,
-- is sent whole: a receiver of J1939/21, which takes the group, the length and the number of frames
-- from the first frame and checks the numbers of the others, gets the group and the message.
pub receive-send_bam :
    (s : J1939) (can : ℕ → Bool) (pgn : ℕ) (data_bytes : List ℕ)
    → s.addr_valid ≡ true
    → s.self_sa < 256
    → ((k : ℕ) → can k ≡ true)
    → pgn < 2 ^ 24
    → 8 < length data_bytes
    → length data_bytes ≤ max_data
    → let (result, frames) = send_bam s can pgn data_bytes in
      (result ≡ bam_sent) × (receive frames ≡ some (pgn, data_bytes))
unfolding send_bam transmit cm_frame
receive-send_bam s can pgn data_bytes v h ok p m l =
    let len = length data_bytes in
    let r =
      dt_loop-Collected ((len + 6) / 7) can s.self_sa 1 data_bytes ok h (omega arith)
        (omega arith) in
    rw (v, ==_no len 0 (λ z. omega (arith, z, m)), le→ltb_false max_data len l, more len m, ok 0)
      (
        ap (λ d. if d then bam_sent else send_failed) r.done,
        receive-cm s pgn data_bytes r.pad (dt_loop ((len + 6) / 7) can s.self_sa 1 data_bytes).1 h p
            l r.gathered,
      )
