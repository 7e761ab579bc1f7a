-- ===== src/Tests/Session.antt =====
-- Runs of `SessionTransport` of src/bitcoin_core_rpc/transport.py, over a network that counts the
-- requests and breaks the pipe of the second one.

use bitcoin_core_rpc.Errors.{class_of, failure, is_instance, library, ok, raise}
use bitcoin_core_rpc.Errors.Classes.{broken_pipe_error}
use bitcoin_core_rpc.Prelude.{
  Bool-cases, Bytes, List, [], arith, codes, false, if◌then◌else◌, inl, inr, length, none, pos,
  refl, some, suc, text_eq, true, ℕ, ◌++◌, ◌==◌, ◌||◌, ◌∷◌, ◌≡◌, ◌≤◌,
}
use bitcoin_core_rpc.Tests.Transport.{around_node, ascii_unicode, node_url, one_second, split_node}
use bitcoin_core_rpc.Transport.Checks.{
  Endpoint, assert_valid_max_body_size, assert_valid_timeout, split_url, units_per_second,
}
use bitcoin_core_rpc.Transport.Exchange.{http_request}
use bitcoin_core_rpc.Transport.Exchange.Bounds.{HttpOutcomeOr}
use bitcoin_core_rpc.Transport.Pool.{Key, find, forget, is_kept, key_eq}
use bitcoin_core_rpc.Transport.Read.{Delivers, read_bounded}
use bitcoin_core_rpc.Transport.Session.{
  Network, Session, default_port, key_of, new_session, time_left_at,
}
use bitcoin_core_rpc.Transport.Session.Call.{
  checked_call, close_session, over_made, send_over, session_call,
}
use bitcoin_core_rpc.Transport.Session.Complete.{IsComplete, session_call-IsComplete}
use bitcoin_core_rpc.Transport.Session.History.{Use, ask, use_all, use_all-close}
use bitcoin_core_rpc.Transport.Session.Once.{Sent}
use bitcoin_core_rpc.Transport.Session.Outcome.{
  attempt_of, no_response, session_request-HttpOutcomeOr,
}
use bitcoin_core_rpc.Transport.Session.Raised.{FailsByIo, IsArgumentError, RaisesIo}
use bitcoin_core_rpc.Transport.Session.Sends.{session_call-Sent}
use bitcoin_core_rpc.Value.{int}

-- the world is how often a request was begun; every answer is an empty 200
abbrev one_break : Network ℕ
one_break = record {
  factory = λ k left c w. (ok tt, w);
  is_dead = λ c w. (ok false, w);
  set_timeout = λ c left w. (ok tt, w);
  request =
      λ c deadline w. (if w == 1 then raise (failure broken_pipe_error library) else ok tt, suc w);
  get_response =
      λ c deadline w. (ok (record { status = 200; announced = none; will_close = false }), w);
  response = λ c. record { read1 = λ n w. (ok [], w); now = λ w. 0 };
  is_closed = λ c w. true;
  hang_up = λ c w. (ok tt, w);
  clock = λ w. 0;
}

one_break-RaisesIo : RaisesIo one_break
one_break-RaisesIo = record {
  factory_io = λ k left c w. tt;
  probe_io = λ c w. tt;
  timeout_io = λ c left w. tt;
  request_io = λ c deadline w. broken w;
  response_io = λ c deadline w. tt;
  close_io = λ c w. tt;
  read_io = λ c n w x h. absurd (ground arith);
}
  where
    broken :
        (w : ℕ) → FailsByIo (if w == 1 then raise (failure broken_pipe_error library) else ok tt)
    broken w = elim (Bool-cases (w == 1)) [
      | inl t ↦ rw (t, FailsByIo) (inl (unfold is_instance class_of in refl))
      | inr f ↦ rw (f, FailsByIo) tt
    ]

abbrev node_endpoint : Endpoint
node_endpoint = record { scheme = codes "http"; host = codes "127.0.0.1"; port_number = some 8332 }

abbrev node_key : Key
node_key = record { scheme = codes "http"; host = codes "127.0.0.1"; port_number = 8332 }

abbrev first_call : Session ℕ
first_call = record {
  pool = (node_key, 0) ∷ [];
  opened = λ d. 0 == d || false;
  next = 1;
  begun = 1;
  written = 1;
  world = 1;
}

-- the first call connects, and its connection is kept
first_run :
    (session_call one_break ascii_unicode split_node node_url one_second
      (int (pos 9))
      (new_session 0)).0
    ≡ ok (200, [])
unfolding session_call assert_valid_timeout assert_valid_max_body_size split_url text_eq send_over
    find over_made time_left_at read_bounded
first_run = refl

-- ... under the key of the node
kept_run :
    find
      (key_of node_endpoint)
      (session_call one_break ascii_unicode split_node node_url one_second
        (int (pos 9))
        (new_session 0)).1.pool
    ≡ some 0
unfolding session_call assert_valid_timeout assert_valid_max_body_size split_url text_eq send_over
    find over_made time_left_at read_bounded key_eq default_port
kept_run = refl

-- the second call writes over it, is refused, and sends over a new one
second_run :
    (session_call one_break ascii_unicode split_node node_url one_second
      (int (pos 9))
      first_call).1.pool
    ≡ (node_key, 1) ∷ []
unfolding session_call assert_valid_timeout assert_valid_max_body_size split_url text_eq send_over
    find key_eq default_port time_left_at read_bounded forget
second_run = refl

node_checked :
    checked_call one_break ascii_unicode split_node node_url one_second (int (pos 9))
    ≡ ok (units_per_second, node_endpoint)
unfolding checked_call assert_valid_timeout assert_valid_max_body_size split_url text_eq
node_checked = refl

nothing_read :
    (chunk : Bytes) → ok [] ≡ ok chunk → (n : ℕ) → ([] ≡ chunk ++ []) × (length chunk ≤ n)
nothing_read [] e n = (refl, omega arith)
nothing_read (c ∷ cs) e n = absurd (ground arith)

empty_bodies : Delivers (one_break.response 0) (λ w. [])
empty_bodies = record {
  read1_next = λ n w chunk e. nothing_read chunk e n;
  read1_end = λ n w h e. refl;
}

session_call-IsComplete_example :
    IsComplete one_break
      (λ c w. [])
      (key_of node_endpoint)
      units_per_second
      (new_session 0)
      0
      (200, [])
      (session_call one_break ascii_unicode split_node node_url one_second
        (int (pos 9))
        (new_session 0)).1
unfolding is_kept
session_call-IsComplete_example =
    session_call-IsComplete one_break (λ c w. refl) (λ c w. []) (λ c. empty_bodies) ascii_unicode
      split_node node_url one_second (int (pos 9)) (new_session 0) 0 (λ d. refl, λ d l. refl, tt)
      node_checked first_run kept_run

session_call-Sent_example :
    Sent one_break
      (key_of node_endpoint)
      first_call
      (session_call one_break ascii_unicode split_node node_url one_second (int (pos 9)) first_call)
session_call-Sent_example =
    session_call-Sent one_break ascii_unicode split_node node_url one_second (int (pos 9))
      first_call node_checked

abbrev two_calls : List Use
two_calls = ask node_url one_second (int (pos 9)) ∷ ask node_url one_second (int (pos 9)) ∷ []

use_all-close_example :
    ((close_session one_break
        (use_all one_break ascii_unicode split_node two_calls (new_session 0))).0
      ≡ ok tt)
    × ((close_session one_break
            (use_all one_break ascii_unicode split_node two_calls (new_session 0))).1.opened
          1
        ≡ false)
    × ((close_session one_break
          (use_all one_break ascii_unicode split_node two_calls (new_session 0))).1.pool
        ≡ [])
use_all-close_example = use_all-close one_break ascii_unicode split_node (λ c w. refl) two_calls 0 1

session_request-HttpOutcomeOr_example : HttpOutcomeOr IsArgumentError (int (pos 9)) (
    http_request no_response around_node
      (λ d l.
        attempt_of
          (session_call one_break ascii_unicode split_node node_url one_second
            (int (pos 9))
            first_call).0)
      node_url
      []
      one_second
      (int (pos 9)))
session_request-HttpOutcomeOr_example =
    session_request-HttpOutcomeOr one_break one_break-RaisesIo around_node node_url [] one_second
      (int (pos 9)) first_call
