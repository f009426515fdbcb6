-- ===== src/ModbusTcp/Buffers.antt =====
-- recv_full of modbus/tcp.c: how many bytes it gives, and that it gives those that arrive.
use iot_zephyr_app.Base.{
  ℕ, zero, suc, ◌+◌, ◌-◌, ◌≤◌, ◌≡◌, refl, ◌⊎◌, inl, inr, Bool-cases, Option-cases, some, List, [],
  ◌∷◌, ◌++◌, ltb, length, length-append, subst, arith,
}
use iot_zephyr_app.ModbusTcp.{Net, Received, full, lost, eio, enotconn, recv_loop, recv_full}

-- All the bytes that were asked for, or one of the two errors.
pub Complete : ℕ → Received → Type 0
Complete want (full bs) = length bs ≡ want
Complete want (lost rc) = (rc ≡ eio) ⊎ (rc ≡ enotconn)

module _ {W : Type 0} (net : Net W) where
  -- recv gives no more bytes than there is room for.
  abbrev pub IsBounded : Type 0
  IsBounded = (w : W) (sock n : ℕ) (bs : List ℕ) → (net.recv w sock n).0 ≡ some bs → length bs ≤ n

  recv_loop-Complete :
      IsBounded
      → (fuel : ℕ) (w : W) (sock missing : ℕ) (buf : List ℕ) → missing ≤ fuel
      → Complete (length buf + missing) (recv_loop net fuel w sock missing buf).0
  unfolding recv_loop Complete
  recv_loop-Complete bound zero w sock missing buf h = omega (arith, h)
  recv_loop-Complete bound (suc fuel) w sock missing buf h = elim (Bool-cases (ltb 0 missing)) [
    | inr e ↦ rw (e, recv_loop) (ground (arith, e))
    | inl e ↦ elim (Option-cases (net.recv w sock missing).0) [
      | inl g ↦ rw (e, g, recv_loop) (inl refl)
      | inr ([], g) ↦ rw (e, g, recv_loop) (inr refl)
      | inr (b ∷ bs, g) ↦
          rw (e, g, recv_loop)
            (subst
              (λ n.
                Complete n
                  (recv_loop net fuel (net.recv w sock missing).1 sock (missing - length (b ∷ bs))
                    (buf ++ (b ∷ bs))).0)
              (omega (arith, length-append buf (b ∷ bs), bound w sock missing (b ∷ bs) g))
              (recv_loop-Complete bound fuel (net.recv w sock missing).1 sock
                (missing - length (b ∷ bs)) (buf ++ (b ∷ bs)) (omega (arith, h))))
    ]
  ]

  -- If recv gives at most the bytes that it is asked for, recv_full ends with exactly as many bytes
  -- as it was asked for, or with one of its two errors: short reads are taken up again.
  pub recv_full-Complete :
      IsBounded → (w : W) (sock want : ℕ) → Complete want (recv_full net w sock want).0
  unfolding recv_full
  recv_full-Complete bound w sock want =
      subst (λ n. Complete n (recv_loop net want w sock want []).0) (omega arith)
        (recv_loop-Complete bound want w sock want [] (omega arith))
