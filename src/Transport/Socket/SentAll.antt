-- ===== src/Transport/Socket/SentAll.antt =====
-- `sendall` of src/bitcoin_core_rpc/transport.py sends all of its data, in order.
use bitcoin_core_rpc.Errors.{Result, is_instance, ok, raise}
use bitcoin_core_rpc.Errors.Classes.{os_error}
use bitcoin_core_rpc.Prelude.{
  Bytes, List, [], ap, append-nil, append_assoc, arith, drop, length, refl, suc, sym, take,
  take-append-drop, true, zero, ℕ, ◌++◌, ◌-◌, ◌∙◌, ◌∷◌, ◌≡◌, ◌≢◌, ◌≤◌,
}
use bitcoin_core_rpc.Transport.Socket.{
  FailsByOs, Sockets, and_then, send_chunk, send_loop, sendall, set_left,
}
use bitcoin_core_rpc.Transport.Socket.Deadline.{set_left-FailsByOs}

-- What the operating system documents: a send takes at least one of the octets that it is offered,
-- and no more than all; what a send and the setting of a timeout raise is an `OSError`.
pub record IsSocket {A W : Type 0} (sockets : Sockets A W) : Type 0 where
  pub takes_some :
      (c n : ℕ) (octets : Bytes) (w : W)
      → octets ≢ []
      → (sockets.send c octets w).0 ≡ ok n
      → (1 ≤ n) × (n ≤ length octets)
  pub send_os : (c : ℕ) (octets : Bytes) (w : W) → FailsByOs (sockets.send c octets w).0
  pub timeout_os : (c left : ℕ) (w : W) → FailsByOs (sockets.set_timeout c left w).0

-- all of the data, or an exception of the deadline or the socket
abbrev pub AllSent : Bytes → Result Bytes → Type 0
AllSent payload (raise e) = is_instance e os_error ≡ true
AllSent payload (ok sent) = sent ≡ payload

module _ {A W : Type 0} (sockets : Sockets A W) (law : IsSocket sockets) where
  and_then-AllSent :
      {B : Type 0} (payload : Bytes) (r : Result B × W) (follow : B → W → Result Bytes × W)
      → FailsByOs r.0
      → ((b : B) → r.0 ≡ ok b → AllSent payload (follow b r.1).0)
      → AllSent payload (and_then sockets r follow).0
  unfolding and_then
  and_then-AllSent payload (raise e, w) follow f h = f
  and_then-AllSent payload (ok b, w) follow f h = h b refl

  take-nonempty : (b : ℕ) (bs : Bytes) → take send_chunk (b ∷ bs) ≢ []
  take-nonempty b bs h = absurd (ground arith)

  length-drop : {B : Type 0} (n : ℕ) (xs : List B) → length (drop n xs) ≡ length xs - n
  length-drop zero xs = omega arith
  length-drop (suc n) [] = omega arith
  length-drop (suc n) (x ∷ xs) = omega (arith, length-drop n xs)

  send_loop-AllSent :
      (turns c deadline : ℕ) (view sent payload : Bytes) (w : W)
      → length view ≤ turns
      → sent ++ view ≡ payload
      → AllSent payload (send_loop sockets turns c deadline view sent w).0
  unfolding send_loop
  send_loop-AllSent zero c deadline [] sent payload w h k = sym (append-nil sent) ∙ k
  send_loop-AllSent zero c deadline (b ∷ bs) sent payload w h k = absurd (omega arith)
  send_loop-AllSent (suc turns) c deadline [] sent payload w h k = sym (append-nil sent) ∙ k
  send_loop-AllSent (suc turns) c deadline (b ∷ bs) sent payload w h k =
      and_then-AllSent payload (set_left sockets c deadline w) _
        (set_left-FailsByOs sockets law.timeout_os c deadline w)
        (λ _ q.
          let w1 = (set_left sockets c deadline w).1 in
          let view = b ∷ bs in
          and_then-AllSent payload (sockets.send c (take send_chunk view) w1) _
            (law.send_os c (take send_chunk view) w1)
            (λ n r.
              let (least, most) =
                law.takes_some c n (take send_chunk view) w1 (take-nonempty b bs) r in
              send_loop-AllSent turns c deadline (drop n view) (sent ++ take n view) payload _
                (omega (arith, length-drop n view, least, h))
                (append_assoc sent (take n view) (drop n view)
                  ∙ ap (λ x. sent ++ x) (take-append-drop n view)
                  ∙ k)))

  -- `sendall` returns when it has sent exactly its data, in order, and otherwise raises an `OSError`:
  -- it does not go on for ever. The conditions are that a send takes some of what it is offered,
  -- and that what a send or the setting of a timeout raises is an `OSError`.
  pub sendall-AllSent :
      (c deadline : ℕ) (octets : Bytes) (w : W)
      → AllSent octets (sendall sockets c deadline octets w).0
  unfolding sendall
  sendall-AllSent c deadline octets w =
      send_loop-AllSent (length octets) c deadline octets [] octets w (omega arith) refl
