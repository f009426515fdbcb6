-- ===== src/GatewayRadio/Transfer.antt =====
-- Frames of n2e-gw's radio from the sender to the receiver.
use iot_zephyr_app.Base.{
  ℕ, zero, suc, ◌+◌, ◌^◌, ◌≤◌, ◌<◌, ◌≡◌, refl, ap, sym, ◌∙◌, ◌⊎◌, inl, inr, Bool, true, false, not,
  ◌&&◌, ◌||◌, Bool-cases, some, List, ◌++◌, append_assoc, if◌then◌else◌, ltb, le→ltb_false, ==_no,
  length, length-append, take, drop, take-append_self, take-append-drop, arith, u32,
}
use iot_zephyr_app.Zephyr.ByteOrder.{ByteOrder}
use iot_zephyr_app.Crypt.{Crypt, seal, open_frame}
use iot_zephyr_app.Crypt.Link.{InStep, seal_lem, open_frame-seal}
use iot_zephyr_app.GatewayRadio.{
  handler_state, cobid_heatbeat, id_size, tx_retries, send_loop, forwarded, build_frame,
  gw_rf24_send, route, rx_pass,
}

-- Some attempt of so many from this one on succeeds.
abbrev pub any_of : ℕ → (ℕ → Bool) → ℕ → Bool
any_of zero air attempt = false
any_of (suc n) air attempt = air attempt || any_of n air (attempt + 1)

-- The loop succeeds just if one of its attempts does, and makes no more than it may.
pub send_loop_lem :
    (left attempt : ℕ) (air : ℕ → Bool)
    → let (sent, tries) = send_loop left air attempt in
      (sent ≡ any_of (suc left) air attempt) × (tries ≤ attempt + (left + 1))
unfolding send_loop
send_loop_lem zero attempt air = (or_false (air attempt), omega arith)
  where
    or_false : (b : Bool) → b ≡ (b || false)
    or_false true = refl
    or_false false = refl
send_loop_lem (suc left) attempt air =
    let rest = send_loop_lem left (attempt + 1) air in
    elim (Bool-cases (air attempt)) [
      | inl e ↦ rw e (refl, omega arith)
      | inr e ↦ rw e (rest.0, omega (arith, rest.1))
    ]

-- A frame that is built is sent if one of the six attempts succeeds.
pub gw_rf24_send-builds :
    (order : ByteOrder) (air : ℕ → Bool) (s : Crypt) (can_id : ℕ) (data_bytes junk : List ℕ)
    (s' : Crypt) (frame : List ℕ) (n : ℕ)
    → build_frame order true s can_id data_bytes junk ≡ some (s', frame, n)
    → gw_rf24_send order true true air s can_id data_bytes junk ≡ (any_of 6 air 0, s')
unfolding gw_rf24_send
gw_rf24_send-builds order air s can_id data_bytes junk s' frame n e =
    rw e (ap (λ (sent : Bool). (sent, s')) (send_loop_lem tx_retries 0 air).0)

-- With encryption, gw_rf24_send succeeds just if the radio is ready, the data has at most 29 bytes,
-- and one of its six attempts does. The counter of sent frames grows by one if the radio is ready
-- and the data fits, whether or not an attempt succeeds, and is left as it is otherwise.
pub gw_rf24_send_lem :
    (order : ByteOrder) (ready : Bool) (air : ℕ → Bool) (s : Crypt) (can_id : ℕ)
    (data_bytes : List ℕ) (junk : List ℕ)
    → let (sent, s') = gw_rf24_send order true ready air s can_id data_bytes junk in
      let fits = not (ltb 29 (length data_bytes)) in
      (sent ≡ (ready && fits && any_of 6 air 0))
      × (s' ≡ (if ready && fits then record s { tx_counter = u32 (s.tx_counter + 1) } else s))
unfolding gw_rf24_send build_frame
gw_rf24_send_lem order false air s can_id data_bytes junk = (refl, refl)
gw_rf24_send_lem order true air s can_id data_bytes junk =
    elim (Bool-cases (ltb 29 (length data_bytes))) [
      | inl e ↦ rw e (refl, refl)
      | inr e ↦
          let few = not_lt e in
          rw
            (
              seal_lem order s (order.put_be16 can_id ++ (data_bytes ++ junk))
                  (length data_bytes + id_size) (omega arith) (omega (arith, few)),
              e,
              ==_no (length data_bytes + id_size + 1) 0 (omega arith),
            )
            ((send_loop_lem tx_retries 0 air).0, refl)
    ]
  where
    not_lt : ltb 29 (length data_bytes) ≡ false → length data_bytes ≤ 29
    not_lt e = ground arith

module _ (order : ByteOrder) where
  -- A kind that is forwarded is read back from the front of a frame.
  pub get_be16-kind :
      (plain : List ℕ) (m can_id : ℕ) (data_bytes : List ℕ)
      → can_id < 2 ^ 16
      → take m plain ≡ order.put_be16 can_id ++ data_bytes
      → order.get_be16 plain ≡ can_id
  get_be16-kind plain m can_id data_bytes small e =
      ap order.get_be16 whole ∙ order.get-put_be16 can_id (data_bytes ++ drop m plain) small
    where
      whole : plain ≡ order.put_be16 can_id ++ (data_bytes ++ drop m plain)
      whole =
          sym (take-append-drop m plain)
          ∙ ap (λ front. front ++ drop m plain) e
          ∙ append_assoc (order.put_be16 can_id) data_bytes (drop m plain)

  -- A plain frame of a kind that is forwarded.
  route-forwarded :
      (plain : List ℕ) (m can_id : ℕ) (data_bytes : List ℕ)
      → (can_id ≡ handler_state) ⊎ (can_id ≡ cobid_heatbeat)
      → take m plain ≡ order.put_be16 can_id ++ data_bytes
      → route order true plain m ≡ forwarded (order.put_be16 can_id ++ data_bytes)
  unfolding route
  route-forwarded plain m can_id data_bytes (inl k) e =
      rw (get_be16-kind plain m can_id data_bytes (omega (arith, k)) e, k)
        (ap forwarded (e ∙ ap (λ id. order.put_be16 id ++ data_bytes) k))
  route-forwarded plain m can_id data_bytes (inr k) e =
      rw (get_be16-kind plain m can_id data_bytes (omega (arith, k)) e, k)
        (ap forwarded (e ∙ ap (λ id. order.put_be16 id ++ data_bytes) k))

  build_frame-seals :
      (t : Crypt) (can_id : ℕ) (data_bytes junk : List ℕ)
      → length data_bytes ≤ 29
      → let buf = order.put_be16 can_id ++ (data_bytes ++ junk) in
        let (t', frame, n) = seal order t buf (length data_bytes + id_size) in
        (n ≡ length data_bytes + 3)
        × (build_frame order true t can_id data_bytes junk ≡ some (t', frame, n))
  unfolding build_frame
  build_frame-seals t can_id data_bytes junk few =
      rw
        (
          seal_lem order t (order.put_be16 can_id ++ (data_bytes ++ junk))
              (length data_bytes + id_size) (omega arith) (omega arith),
          le→ltb_false 29 (length data_bytes) few,
          ==_no (length data_bytes + id_size + 1) 0 (omega arith),
        )
        (omega arith, refl)

  rx_pass-opens :
      (r : Crypt) (frame : List ℕ) (n : ℕ)
      → 2 ≤ n
      → let (r', plain, m) = open_frame order r frame n in
        2 ≤ m → rx_pass order true r frame n ≡ (r', route order true plain m)
  unfolding rx_pass
  rx_pass-opens r frame n lo lo' =
      let (r', plain, m) = open_frame order r frame n in
      rw (le→ltb_false n id_size lo, ==_no m 0 (omega (arith, lo'))) refl

  -- What the receiver's decryption makes of a frame that the sender's code builds.
  pub open_frame-build_frame :
      (t r : Crypt) (gap can_id : ℕ) (data_bytes junk : List ℕ)
      → InStep gap t r
      → 1 ≤ gap
      → gap ≤ 32
      → length data_bytes ≤ 29
      → t.tx_counter + 32 < 2 ^ 32
      → let buf = order.put_be16 can_id ++ (data_bytes ++ junk) in
        let (t', frame, n) = seal order t buf (length data_bytes + id_size) in
        let (r', plain, m) = open_frame order r frame n in
        (build_frame order true t can_id data_bytes junk ≡ some (t', frame, n))
        × (n ≡ length data_bytes + 3)
        × (m ≡ length data_bytes + id_size)
        × (take (length data_bytes + id_size) plain ≡ order.put_be16 can_id ++ data_bytes)
        × InStep 1 t' r'
  open_frame-build_frame t r gap can_id data_bytes junk v lo hi few c = (
    built.1,
    built.0,
    opened.0,
    opened.1 ∙ ap (take len) buf-front ∙ take-append_self front junk len length-front,
    opened.2,
  )
    where
      front : List ℕ
      front = order.put_be16 can_id ++ data_bytes

      buf : List ℕ
      buf = order.put_be16 can_id ++ (data_bytes ++ junk)

      len : ℕ
      len = length data_bytes + id_size

      length-front : len ≡ length front
      length-front =
          omega
            (arith, length-append (order.put_be16 can_id) data_bytes, order.length-put_be16 can_id)

      buf-front : buf ≡ front ++ junk
      buf-front = sym (append_assoc (order.put_be16 can_id) data_bytes junk)

      built :
          let (t', frame, n) = seal order t buf len in
          (n ≡ length data_bytes + 3)
          × (build_frame order true t can_id data_bytes junk ≡ some (t', frame, n))
      built = build_frame-seals t can_id data_bytes junk few

      opened :
          let (t', frame, n) = seal order t buf len in
          let (r', plain, m) = open_frame order r frame n in
          (m ≡ len) × (take len plain ≡ take len buf) × InStep 1 t' r'
      opened =
          open_frame-seal order t r gap buf len v lo hi (omega arith) (omega arith)
            (rw buf-front (omega (arith, length-front, length-append front junk))) c

  pub rx_pass-build_frame :
      (t r : Crypt) (gap can_id : ℕ) (data_bytes junk : List ℕ)
      → InStep gap t r
      → 1 ≤ gap
      → gap ≤ 32
      → (can_id ≡ handler_state) ⊎ (can_id ≡ cobid_heatbeat)
      → length data_bytes ≤ 29
      → t.tx_counter + 32 < 2 ^ 32
      → let buf = order.put_be16 can_id ++ (data_bytes ++ junk) in
        let (t', frame, n) = seal order t buf (length data_bytes + id_size) in
        let (r', action) = rx_pass order true r frame n in
        (build_frame order true t can_id data_bytes junk ≡ some (t', frame, n))
        × (action ≡ forwarded (order.put_be16 can_id ++ data_bytes))
        × InStep 1 t' r'
  rx_pass-build_frame t r gap can_id data_bytes junk v lo hi kind few c =
      let (built, long, count, plain, in_step) =
        open_frame-build_frame t r gap can_id data_bytes junk v lo hi few c in
      let sealed =
        seal order t (order.put_be16 can_id ++ (data_bytes ++ junk))
          (length data_bytes + id_size) in
      rw (rx_pass-opens r sealed.1 sealed.2 (omega (arith, long)) (omega (arith, count)), count)
        (built, route-forwarded _ _ can_id data_bytes kind plain, in_step)
