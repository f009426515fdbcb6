-- ===== src/Crypt/Session.antt =====
-- A stream of messages from one sender to one receiver of nrf24_crypt.c, over a radio that loses
-- frames; and what a receiver does with any frame at all.
use iot_zephyr_app.Base.{
  ℕ, suc, ◌+◌, ◌^◌, ◌≤◌, ◌<◌, ◌≡◌, refl, ap, ap₂, ◌∙◌, ◌⊎◌, inl, inr, Bool, true, false, List, [],
  ◌∷◌, ◌++◌, length, get_or, take, arith, length-append, take-append_self, Option-cases,
}
use iot_zephyr_app.Zephyr.ByteOrder.{ByteOrder}
use iot_zephyr_app.Crypt.{Crypt, infer_counter, seal, accept, open_frame}
use iot_zephyr_app.Crypt.Link.{InStep, open_frame-seal, seal_lem}
use iot_zephyr_app.Crypt.Window.{infer_counter_window}

-- Messages in order, each with whether its frame arrives.
abbrev pub Traffic : Type 0
Traffic = List (Bool × List ℕ)

abbrev pub delivered : Traffic → List (List ℕ)
delivered [] = []
delivered ((true, m) ∷ rest) = m ∷ delivered rest
delivered ((false, m) ∷ rest) = delivered rest

-- The messages fit a frame, and never are 32 frames in a row lost; `gap` counts how far the
-- sender is ahead.
abbrev pub Fits : ℕ → Traffic → Type 0
Fits gap [] = Unit {0}
Fits gap ((true, m) ∷ rest) = (gap ≤ 32) × (2 ≤ length m) × (length m ≤ 31) × Fits 1 rest
Fits gap ((false, m) ∷ rest) = (2 ≤ length m) × (length m ≤ 31) × Fits (suc gap) rest

module _ (bo : ByteOrder) where
  -- What the receiver reads, message by message. A buffer has the spare byte that `seal` needs.
  pub session : Crypt → Crypt → Traffic → List (List ℕ)
  session t r [] = []
  session t r ((true, message) ∷ rest) =
      let (t', frame, n) = seal bo t (message ++ 0 ∷ []) (length message) in
      let (r', out, m) = open_frame bo r frame n in take m out ∷ session t' r' rest
  session t r ((false, message) ∷ rest) =
      let (t', frame, n) = seal bo t (message ++ 0 ∷ []) (length message) in session t' r rest

  lose-InStep :
      (t r : Crypt) (gap : ℕ) (buf : List ℕ) (len : ℕ)
      → InStep gap t r
      → 2 ≤ len
      → len ≤ 31
      → t.tx_counter + 1 < 2 ^ 32
      → InStep (suc gap) (seal bo t buf len).0 r
  lose-InStep t r gap buf len v lo hi c =
      rw (seal_lem bo t buf len lo hi)
        (record { same_key = v.same_key; started = v.started; behind = omega arith })

  tx_counter-seal :
      (t : Crypt) (buf : List ℕ) (len : ℕ)
      → 2 ≤ len
      → len ≤ 31
      → t.tx_counter + 1 < 2 ^ 32
      → (seal bo t buf len).0.tx_counter ≡ t.tx_counter + 1
  tx_counter-seal t buf len lo hi c = rw (seal_lem bo t buf len lo hi) (omega arith)

  -- A receiver that has the sender's key, has accepted a frame before and is at least one frame
  -- behind it, in that the sender's counter is `gap` more than the counter that it accepted last,
  -- reads exactly the messages whose frames arrive, in order: if the messages have from 2 to 31
  -- bytes, each frame that arrives is at most 32 counters after the last one accepted, so that
  -- never 32 frames in a row are lost, and the sender's counter stays more than 32 below its wrap.
  pub session-delivered :
      (sched : Traffic) (gap : ℕ) (t r : Crypt)
      → InStep gap t r
      → 1 ≤ gap
      → Fits gap sched
      → t.tx_counter + length sched + 32 < 2 ^ 32
      → session t r sched ≡ delivered sched
  unfolding session
  session-delivered [] gap t r v lo f c = refl
  session-delivered ((true, message) ∷ rest) gap t r v lo f c =
      let buf = message ++ 0 ∷ [] in
      let len = length message in
      let (same_length, same_bytes, v') =
        open_frame-seal bo t r gap buf len v lo f.0 f.1 f.2
          (omega (arith, length-append message (0 ∷ []))) (omega arith) in
      let (t', frame, n) = seal bo t buf len in
      let (r', out, m) = open_frame bo r frame n in
      ap₂ ◌∷◌
        (ap (λ k. take k out) same_length ∙ same_bytes ∙ take-append_self message (0 ∷ []) len refl)
        (session-delivered rest 1 t' r' v' (omega arith) f.3
          (omega (arith, tx_counter-seal t buf len f.1 f.2 (omega arith))))
  session-delivered ((false, message) ∷ rest) gap t r v lo f c =
      let buf = message ++ 0 ∷ [] in
      let len = length message in
      session-delivered rest (suc gap) (seal bo t buf len).0 r
        (lose-InStep t r gap buf len v f.0 f.1 (omega arith)) (omega arith) f.2
        (omega (arith, tx_counter-seal t buf len f.0 f.1 (omega arith)))

  -- Whatever the bytes of a frame are, a receiver that has accepted a frame before either rejects it
  -- (the value is 0) and nothing changes, or takes a counter strictly after its last one, by 32 at
  -- most. So no counter is ever accepted twice.
  pub open_frame_forward :
      (r : Crypt) (frame : List ℕ) (n : ℕ)
      → r.rx_initialized ≡ true
      → r.rx_counter + 32 < 2 ^ 32
      → get_or frame 0 0 < 256
      → let (r', out, m) = open_frame bo r frame n in
        ((m ≡ 0) × (r' ≡ r) × (out ≡ frame))
        ⊎ ((m + 1 ≡ n) × (r.rx_counter < r'.rx_counter) × (r'.rx_counter ≤ r.rx_counter + 32))
  unfolding open_frame accept
  open_frame_forward r frame n s w b = elim (Option-cases (infer_counter r (get_or frame 0 0))) [
    | inl e ↦ ground arith
    | inr (c, e) ↦
        let ahead = (infer_counter_window r s (get_or frame 0 0) c b w).0 e in ground arith
  ]
