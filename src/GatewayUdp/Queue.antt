-- ===== src/GatewayUdp/Queue.antt =====
-- The queue of frames for the host.
use iot_zephyr_app.Base.{
  ℕ, ◌+◌, ◌≤◌, ◌≡◌, refl, sym, ap, ◌∙◌, Bool, true, not, ◌&&◌, ◌||◌, Bool-cases, inl, inr, none,
  some, Option, Option-cases, List, [], ◌∷◌, ◌++◌, map, append_assoc, append-nil, if◌then◌else◌,
  ltb, ◌==◌, ==_no, length, length-append, All, All-append, arith,
}
use iot_zephyr_app.Zephyr.ByteOrder.{ByteOrder}
use iot_zephyr_app.GatewayUdp.{
  Inet, GwParams, gw_tx_frame_max, gw_tx_slots, gw_udp_send, gw_udp_do_send, udp_tx_pass,
}

abbrev pub Datagram : Type 0
Datagram = List ℕ × ℕ × List ℕ

-- What a transmission meets: whether the socket is open, whether the link is up, and the settings.
pub record Moment : Type 0 where
  pub sock : Bool
  pub link_up : Bool
  pub params : GwParams

-- What the threads do to the queue: a frame is offered while the link is up or down, or the sending
-- thread runs.
pub data Event : Type 0 where
  offer : Bool → List ℕ → Event
  transmit : Moment → Event

-- A frame that has from 1 to 32 bytes, an up link and one of eight places is accepted.
abbrev pub accepts : List (List ℕ) → Bool → List ℕ → Bool
accepts queue link_up frame =
    link_up
    && (not (length frame == 0 || ltb gw_tx_frame_max (length frame))
        && ltb (length queue) gw_tx_slots)

-- The front of the queue, with the moment when it is taken.
abbrev pub Taken : Type 0
Taken = List ℕ × Moment

abbrev pub front : Moment → List (List ℕ) → List Taken
front m [] = []
front m (frame ∷ queue) = (frame, m) ∷ []

-- What a run leaves: the queue, the datagrams, the frames that were accepted and those that the
-- sending thread has taken from the queue.
pub record Account : Type 0 where
  pub queue : List (List ℕ)
  pub sent : List Datagram
  pub accepted : List (List ℕ)
  pub taken : List Taken

module _ (order : ByteOrder) (inet : Inet) where
  pub run : List Event → List (List ℕ) → Account
  run [] queue = record { queue = queue; sent = []; accepted = []; taken = [] }
  run (offer link_up frame ∷ events) queue =
      let rest = run events (gw_udp_send link_up queue frame) in
      let accepted = if accepts queue link_up frame then frame ∷ rest.accepted else rest.accepted in
      record rest { accepted = accepted }
  run (transmit m ∷ events) queue =
      let (queue', datagrams) = udp_tx_pass order inet m.sock m.link_up m.params queue in
      let rest = run events queue' in
      record rest { sent = datagrams ++ rest.sent; taken = front m queue ++ rest.taken }

  -- A frame goes to the host that the settings name, if the socket is open, the link is up and the
  -- address can be read, and is lost otherwise.
  abbrev pub to_host : Option (List ℕ) → ℕ → List ℕ → List Datagram
  to_host none port frame = []
  to_host (some addr) port frame = (addr, port, frame) ∷ []

  abbrev pub outgoing : Taken → List Datagram
  outgoing (frame, m) =
      if m.sock && m.link_up
      then to_host (inet.inet_pton m.params.host_ip) m.params.host_port frame
      else []

  abbrev pub all_outgoing : List Taken → List Datagram
  all_outgoing [] = []
  all_outgoing (t ∷ taken) = outgoing t ++ all_outgoing taken

  abbrev pub IsFrame : List ℕ → Type 0
  IsFrame frame = 1 ≤ length frame

  gw_udp_send_lem :
      (link_up : Bool) (queue : List (List ℕ)) (frame : List ℕ)
      → gw_udp_send link_up queue frame
        ≡ (if accepts queue link_up frame then queue ++ frame ∷ [] else queue)
  unfolding gw_udp_send
  gw_udp_send_lem link_up queue frame = ground arith

  accepted_fits :
      (queue : List (List ℕ)) (link_up : Bool) (frame : List ℕ)
      → accepts queue link_up frame ≡ true
      → IsFrame frame × (length queue + 1 ≤ 8)
  accepted_fits queue link_up frame h = ground arith

  transmits :
      (m : Moment) (frame : List ℕ) (queue : List (List ℕ))
      → IsFrame frame
      → udp_tx_pass order inet m.sock m.link_up m.params (frame ∷ queue)
        ≡ (queue, outgoing (frame, m))
  unfolding udp_tx_pass gw_udp_do_send
  transmits m frame queue h = elim (Bool-cases m.sock) [
    | inr closed ↦ rw (closed, udp_tx_pass, gw_udp_do_send) refl
    | inl open_ ↦ elim (Bool-cases m.link_up) [
      | inr down ↦
          rw (open_, down, ==_no (length frame) 0 (omega arith), udp_tx_pass, gw_udp_do_send) refl
      | inl up ↦ elim (Option-cases (inet.inet_pton m.params.host_ip)) [
        | inl bad ↦
            rw (open_, up, bad, ==_no (length frame) 0 (omega arith), udp_tx_pass, gw_udp_do_send)
              refl
        | inr (addr, known) ↦
            rw (open_, up, known, ==_no (length frame) 0 (omega arith), udp_tx_pass, gw_udp_do_send)
              refl
      ]
    ]
  ]

  idle : (m : Moment) → udp_tx_pass order inet m.sock m.link_up m.params [] ≡ ([], [])
  unfolding udp_tx_pass
  idle m = refl

  -- In any run in which frames are offered and the sending thread runs, whatever the socket, the link
  -- and the settings are each time, from a queue of at most eight frames with at least a byte each:
  -- the frames that the thread takes, with those that still wait, are those that waited at the start
  -- and then those that were accepted, in their order and each once; the datagrams are those of the
  -- frames taken, a frame being sent to the host if the socket is open, the link is up and the host's
  -- address can be read when it is taken, and lost otherwise; and at most eight frames wait.
  pub run-fifo :
      (events : List Event) (queue : List (List ℕ))
      → All IsFrame queue
      → length queue ≤ 8
      → let r = run events queue in
        (map (λ (t : Taken). t.0) r.taken ++ r.queue ≡ queue ++ r.accepted)
        × (r.sent ≡ all_outgoing r.taken)
        × (length r.queue ≤ 8)
  unfolding run
  run-fifo [] queue h small = (sym (append-nil queue), refl, small)
  run-fifo (transmit m ∷ events) [] h small = rw (idle m) (run-fifo events [] h small)
  run-fifo (transmit m ∷ events) (frame ∷ queue) h small =
      let (order_, sent, few) = run-fifo events queue h.1 (omega arith) in
      rw (transmits m frame queue h.0)
        (ap (◌∷◌ frame) order_, ap (◌++◌ (outgoing (frame, m))) sent, few)
  run-fifo (offer link_up frame ∷ events) queue h small =
      elim (Bool-cases (accepts queue link_up frame)) [
        | inl taken ↦
            let (least, room) = accepted_fits queue link_up frame taken in
            let (order_, sent, few) =
              run-fifo events (queue ++ frame ∷ [])
                (All-append IsFrame queue (frame ∷ []) h (least, tt))
                (omega (arith, length-append queue (frame ∷ []))) in
            let regroup =
              append_assoc queue (frame ∷ []) (run events (queue ++ frame ∷ [])).accepted in
            rw (gw_udp_send_lem link_up queue frame, taken) (order_ ∙ regroup, sent, few)
        | inr dropped ↦
            rw (gw_udp_send_lem link_up queue frame, dropped) (run-fifo events queue h small)
      ]
