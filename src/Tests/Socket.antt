-- ===== src/Tests/Socket.antt =====
-- Runs of the sockets of src/bitcoin_core_rpc/transport.py: of two addresses the first one refuses.
use bitcoin_core_rpc.Errors.{class_of, failure, is_instance, library, ok, raise}
use bitcoin_core_rpc.Errors.Classes.{connection_error}
use bitcoin_core_rpc.Prelude.{
  Bool-cases, Bytes, [], arith, codes, false, if◌then◌else◌, inl, inr, leb, length, refl, ℕ, ◌==◌,
  ◌∷◌, ◌≡◌, ◌≢◌, ◌≤◌,
}
use bitcoin_core_rpc.Transport.Socket.{FailsByOs, Host, Sockets, connect, seconds_left, sendall}
use bitcoin_core_rpc.Transport.Socket.Connected.{Connected, ConnectsByOs, connect-Connected}
use bitcoin_core_rpc.Transport.Socket.SentAll.{AllSent, IsSocket, sendall-AllSent}

abbrev two_addresses : Sockets ℕ ℕ
two_addresses = record {
  resolve = λ deadline w. (ok (7 ∷ 8 ∷ []), w);
  create = λ address c w. (ok tt, w);
  set_timeout = λ c left w. (ok tt, w);
  connect_to =
      λ c address w. (if address == 7 then raise (failure connection_error library) else ok tt, w);
  send = λ c octets w. (ok (if leb 2 (length octets) then 2 else length octets), w);
  hang_up = λ c w. w;
  clock = λ w. 0;
}

two_addresses-ConnectsByOs : ConnectsByOs two_addresses
two_addresses-ConnectsByOs = record {
  connect_os = λ c address w. refused address;
  timeout_os = λ c left w. tt;
}
  where
    refused :
        (address : ℕ)
        → FailsByOs (if address == 7 then raise (failure connection_error library) else ok tt)
    refused address = elim (Bool-cases (address == 7)) [
      | inl t ↦ rw (t, FailsByOs) (unfold is_instance class_of in refl)
      | inr f ↦ rw (f, FailsByOs) tt
    ]

abbrev no_socket : Host ℕ
no_socket = record { opened = λ d. false; next = 0; world = 0 }

-- the second socket is returned, and the first one is closed
connected_run : (connect two_addresses 5 no_socket).0 ≡ ok 1
unfolding connect seconds_left
connected_run = refl

connect-Connected_example : Connected no_socket (connect two_addresses 5 no_socket)
connect-Connected_example =
    connect-Connected two_addresses two_addresses-ConnectsByOs 5 no_socket (λ d l. refl)

takes_two :
    (octets : Bytes) (n : ℕ)
    → octets ≢ []
    → (if leb 2 (length octets) then 2 else length octets) ≡ n
    → (1 ≤ n) × (n ≤ length octets)
takes_two [] n h e = absurd (h refl)
takes_two (b ∷ bs) n h e = elim (Bool-cases (leb 2 (length (b ∷ bs)))) [
  | inl t ↦ let e' = rw t at e in ground (arith, e', t)
  | inr f ↦ let e' = rw f at e in ground (arith, e', f)
]

two_addresses-IsSocket : IsSocket two_addresses
two_addresses-IsSocket = record {
  takes_some = λ c n octets w h e. takes_two octets n h (ground arith);
  send_os = λ c octets w. tt;
  timeout_os = λ c left w. tt;
}

-- five octets, two at a time
sendall_run : (sendall two_addresses 0 5 (codes "hello") 0).0 ≡ ok (codes "hello")
unfolding sendall seconds_left
sendall_run = refl

sendall-AllSent_example : AllSent (codes "hello") (sendall two_addresses 0 5 (codes "hello") 0).0
sendall-AllSent_example = sendall-AllSent two_addresses two_addresses-IsSocket 0 5 (codes "hello") 0
