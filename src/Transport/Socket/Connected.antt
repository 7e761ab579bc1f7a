-- ===== src/Transport/Socket/Connected.antt =====
-- `_connect` of src/bitcoin_core_rpc/transport.py closes every socket that it does not return.
use bitcoin_core_rpc.Errors.{Exception, Result, failure, no_address, ok, raise}
use bitcoin_core_rpc.Errors.Classes.{os_error}
use bitcoin_core_rpc.Prelude.{
  List, [], arith, false, refl, suc, sym, ℕ, ◌==◌, ◌||◌, ◌∙◌, ◌∷◌, ◌≡◌, ◌≤◌,
}
use bitcoin_core_rpc.Transport.Socket.{
  FailsByOs, Host, Sockets, and_then, attempt, attempted, connect, connect_loop, created, resolved,
  set_left,
}
use bitcoin_core_rpc.Transport.Socket.Deadline.{set_left-FailsByOs}

-- What the operating system documents: what a connect and the setting of a timeout raise is an
-- `OSError`.
pub record ConnectsByOs {A W : Type 0} (sockets : Sockets A W) : Type 0 where
  pub connect_os : (c : ℕ) (address : A) (w : W) → FailsByOs (sockets.connect_to c address w).0
  pub timeout_os : (c left : ℕ) (w : W) → FailsByOs (sockets.set_timeout c left w).0

-- no socket is open that is still to be made
abbrev pub IsFresh : {W : Type 0} → Host W → Type 0
IsFresh h = (d : ℕ) → h.next ≤ d → h.opened d ≡ false

-- The socket that is returned is open, and was not before; apart from it, those are open that were.
abbrev pub Connected : {W : Type 0} → Host W → Result ℕ × Host W → Type 0
Connected h (raise e, h') = (d : ℕ) → h'.opened d ≡ h.opened d
Connected h (ok c, h') = (h.opened c ≡ false) × ((d : ℕ) → h'.opened d ≡ (c == d || h.opened d))

module _ {A W : Type 0} (sockets : Sockets A W) (law : ConnectsByOs sockets) where
  and_then-FailsByOs :
      {B C : Type 0} (r : Result B × W) (follow : B → W → Result C × W)
      → FailsByOs r.0
      → ((b : B) → FailsByOs (follow b r.1).0)
      → FailsByOs (and_then sockets r follow).0
  unfolding and_then
  and_then-FailsByOs (raise e, w) follow f g = f
  and_then-FailsByOs (ok b, w) follow f g = g b

  attempt-FailsByOs :
      (c deadline : ℕ) (address : A) (w : W) → FailsByOs (attempt sockets c deadline address w).0
  unfolding attempt
  attempt-FailsByOs c deadline address w =
      and_then-FailsByOs (set_left sockets c deadline w) _
        (set_left-FailsByOs sockets law.timeout_os c deadline w)
        (λ _.
          let w1 = (set_left sockets c deadline w).1 in
          and_then-FailsByOs (sockets.connect_to c address w1) _ (law.connect_os c address w1) (λ _.
            set_left-FailsByOs sockets law.timeout_os c deadline
              (sockets.connect_to c address w1).1))

  module _ (h0 : Host W) where
    -- the loop behind a socket that was made
    attempted-Connected :
        (r : Result (Unit {0}) × W) (w0 : W) (h : Host W)
        (follow : Exception → Host W → Result ℕ × Host W)
        → FailsByOs r.0
        → ((d : ℕ) → h.opened d ≡ h0.opened d)
        → IsFresh h
        → ((e : Exception) (h2 : Host W)
            → ((d : ℕ) → h2.opened d ≡ h0.opened d)
            → IsFresh h2
            → Connected h0 (follow e h2))
        → Connected h0 (
            attempted sockets h.next r
              (record { opened = λ d. h.next == d || h.opened d; next = suc h.next; world = w0 })
              follow)
    unfolding attempted
    attempted-Connected (ok u, w) w0 h follow f same fresh ih =
        (sym (same h.next) ∙ fresh h.next (omega arith), λ d. ground (arith, same d))
    attempted-Connected (raise e, w) w0 h follow f same fresh ih =
        rw f (ih e _ (λ d. ground (arith, same d, fresh h.next)) (λ d l. ground (arith, fresh d)))

    created-Connected :
        (r : Result (Unit {0}) × W) (h : Host W) (follow : ℕ → Host W → Result ℕ × Host W)
        → ((d : ℕ) → h.opened d ≡ h0.opened d)
        → Connected h0 (
            follow h.next
              (record { opened = λ d. h.next == d || h.opened d; next = suc h.next; world = r.1 }))
        → Connected h0 (created sockets r h follow)
    unfolding created
    created-Connected (raise e, w) h follow same k = same
    created-Connected (ok u, w) h follow same k = k

    connect_loop-Connected :
        (deadline : ℕ) (addresses : List A) (error : Exception) (h : Host W)
        → ((d : ℕ) → h.opened d ≡ h0.opened d)
        → IsFresh h
        → Connected h0 (connect_loop sockets deadline addresses error h)
    unfolding connect_loop
    connect_loop-Connected deadline [] error h same fresh = same
    connect_loop-Connected deadline (address ∷ rest) error h same fresh =
        let made = sockets.create address h.next h.world in
        created-Connected made h _ same (
          attempted-Connected (attempt sockets h.next deadline address made.1) made.1
            (record h { world = made.1 }) _ (attempt-FailsByOs h.next deadline address made.1) same
            fresh (λ e h2 same2 fresh2. connect_loop-Connected deadline rest e h2 same2 fresh2))

  resolved-Connected :
      (deadline : ℕ) (r : Result (List A) × W) (h : Host W)
      → IsFresh h
      → Connected h (resolved sockets deadline r h)
  unfolding resolved
  resolved-Connected deadline (raise e, w) h fresh = λ d. refl
  resolved-Connected deadline (ok addresses, w) h fresh =
      connect_loop-Connected h deadline addresses (failure os_error no_address)
        (record h { world = w }) (λ d. refl) fresh

  -- `_connect` leaks no socket: when it returns one, that one is open and was not before, and apart
  -- from it those are open that were; when it raises, those are open that were, however many
  -- addresses it tried. The conditions are that what a connect and the setting of a timeout raise
  -- is an `OSError`, and that no socket is open that is still to be made.
  pub connect-Connected :
      (deadline : ℕ) (h : Host W) → IsFresh h → Connected h (connect sockets deadline h)
  unfolding connect
  connect-Connected deadline h fresh =
      resolved-Connected deadline (sockets.resolve deadline h.world) h fresh
