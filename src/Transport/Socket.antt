-- ===== src/Transport/Socket.antt =====
-- src/bitcoin_core_rpc/transport.py: the sockets of the default transport (`_seconds_left`,
-- `_connect`, `_DeadlineSocket.sendall`). A socket is a number, given out in the order of their
-- making; which of them are open is kept beside the world.
pub mod Deadline
pub mod Connected
pub mod SentAll
use bitcoin_core_rpc.Errors.{
  Exception, Result, failure, is_instance, no_address, ok, raise, timed_out,
}
use bitcoin_core_rpc.Errors.Classes.{os_error, timeout_error}
use bitcoin_core_rpc.Prelude.{
  Bool, Bytes, List, [], drop, if◌then◌else◌, leb, length, not, suc, take, true, zero, ℕ, ◌&&◌, ◌*◌,
  ◌++◌, ◌-◌, ◌==◌, ◌||◌, ◌∷◌, ◌≡◌,
}

-- `_seconds_left`, of what the clock reads
unfoldable pub seconds_left : ℕ → ℕ → Result ℕ
seconds_left deadline now =
    if leb deadline now then raise (failure timeout_error timed_out) else ok (deadline - now)

-- `_SEND_CHUNK`
abbrev pub send_chunk : ℕ
send_chunk = 64 * 1024

-- The sockets of the operating system, over the states of the world, and the clock. `resolve` stands
-- for `_resolve`; `send` answers with how many octets it took.
pub record Sockets (A W : Type 0) : Type 0 where
  pub resolve : (deadline : ℕ) → W → Result (List A) × W
  pub create : A → (socket : ℕ) → W → Result (Unit {0}) × W
  pub set_timeout : (socket left : ℕ) → W → Result (Unit {0}) × W
  pub connect_to : (socket : ℕ) → A → W → Result (Unit {0}) × W
  pub send : (socket : ℕ) → Bytes → W → Result ℕ × W
  pub hang_up : (socket : ℕ) → W → W
  pub clock : W → ℕ

pub record Host (W : Type 0) : Type 0 where
  pub opened : ℕ → Bool
  pub next : ℕ
  pub world : W

module _ {A W : Type 0} (sockets : Sockets A W) where
  -- a statement that may raise, and the next one
  unfoldable pub and_then : {B C : Type 0} → Result B × W → (B → W → Result C × W) → Result C × W
  and_then (raise e, w) follow = (raise e, w)
  and_then (ok b, w) follow = follow b w

  -- sock.settimeout(_seconds_left(deadline))
  unfoldable pub set_left : ℕ → ℕ → W → Result (Unit {0}) × W
  unfolding and_then
  set_left c deadline w =
      and_then (seconds_left deadline (sockets.clock w), w)
        (λ left w'. sockets.set_timeout c left w')

  -- the `try` block of `_connect`
  unfoldable pub attempt : ℕ → ℕ → A → W → Result (Unit {0}) × W
  unfolding and_then set_left
  attempt c deadline address w =
      and_then (set_left c deadline w)
        (λ _ w1. and_then (sockets.connect_to c address w1) (λ _ w2. set_left c deadline w2))

  -- sock.close()
  abbrev pub close_socket : ℕ → Host W → Host W
  close_socket c h = record h {
    opened = λ d. h.opened d && not (c == d);
    world = sockets.hang_up c h.world;
  }

  -- what the `try` block did: the `else` clause, `except OSError`, or another exception; `onward` is
  -- the rest of the loop
  unfoldable pub attempted :
      ℕ
      → Result (Unit {0}) × W
      → Host W
      → (Exception → Host W → Result ℕ × Host W)
      → Result ℕ × Host W
  unfolding is_instance
  attempted c (ok _, w) h onward = (ok c, record h { world = w })
  attempted c (raise e, w) h onward =
      if is_instance e os_error
      then onward e (close_socket c (record h { world = w }))
      else (raise e, record h { world = w })

  -- socket(family, kind, protocol), and what is done with it
  unfoldable pub created :
      Result (Unit {0}) × W → Host W → (ℕ → Host W → Result ℕ × Host W) → Result ℕ × Host W
  created (raise e, w) h follow = (raise e, record h { world = w })
  created (ok _, w) h follow =
      follow h.next
        (record { opened = λ d. h.next == d || h.opened d; next = suc h.next; world = w })

  -- the loop of `_connect`, with its `error`
  unfoldable pub connect_loop : ℕ → List A → Exception → Host W → Result ℕ × Host W
  unfolding created attempted attempt
  connect_loop deadline [] error h = (raise error, h)
  connect_loop deadline (address ∷ rest) error h =
      created (sockets.create address h.next h.world) h (λ c h1.
        attempted c (attempt c deadline address h1.world) h1
          (λ e h2. connect_loop deadline rest e h2))

  -- the addresses, or what the lookup raised
  unfoldable pub resolved : ℕ → Result (List A) × W → Host W → Result ℕ × Host W
  unfolding connect_loop
  resolved deadline (raise e, w) h = (raise e, record h { world = w })
  resolved deadline (ok addresses, w) h =
      connect_loop deadline addresses (failure os_error no_address) (record h { world = w })

  -- `_connect`
  unfoldable pub connect : ℕ → Host W → Result ℕ × Host W
  unfolding resolved
  connect deadline h = resolved deadline (sockets.resolve deadline h.world) h

  -- the loop of `sendall`, with what was sent so far; `turns` bounds it
  unfoldable pub send_loop : ℕ → ℕ → ℕ → Bytes → Bytes → W → Result Bytes × W
  unfolding and_then set_left
  send_loop zero c deadline view sent w = (ok sent, w)
  send_loop (suc turns) c deadline [] sent w = (ok sent, w)
  send_loop (suc turns) c deadline (b ∷ bs) sent w =
      let view = b ∷ bs in
      and_then (set_left c deadline w) (λ _ w1.
        and_then (sockets.send c (take send_chunk view) w1)
          (λ n w2. send_loop turns c deadline (drop n view) (sent ++ take n view) w2))

  -- `sendall`, which answers with what was sent
  unfoldable pub sendall : ℕ → ℕ → Bytes → W → Result Bytes × W
  unfolding send_loop
  sendall c deadline octets w = send_loop (length octets) c deadline octets [] w

-- what was raised, if anything, is an `OSError`
abbrev pub FailsByOs : {A : Type 0} → Result A → Type 0
FailsByOs (raise e) = is_instance e os_error ≡ true
FailsByOs (ok a) = Unit {0}
