-- ===== src/Transport/Socket/Deadline.antt =====
-- What setting a socket to the time that is left raises.
use bitcoin_core_rpc.Errors.{class_of, is_instance}
use bitcoin_core_rpc.Prelude.{Bool-cases, inl, inr, leb, refl, ℕ, ◌-◌}
use bitcoin_core_rpc.Transport.Socket.{FailsByOs, Sockets, and_then, seconds_left, set_left}

pub set_left-FailsByOs :
    {A W : Type 0} (sockets : Sockets A W)
    → ((c left : ℕ) (w : W) → FailsByOs (sockets.set_timeout c left w).0)
    → (c deadline : ℕ) (w : W) → FailsByOs (set_left sockets c deadline w).0
unfolding set_left and_then seconds_left
set_left-FailsByOs sockets timeout_os c deadline w =
    elim (Bool-cases (leb deadline (sockets.clock w))) [
      | inl t ↦ rw t (unfold is_instance class_of in refl)
      | inr f ↦ rw f (timeout_os c (deadline - sockets.clock w) w)
    ]
