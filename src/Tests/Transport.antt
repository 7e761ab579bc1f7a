-- ===== src/Tests/Transport.antt =====
-- Runs of src/bitcoin_core_rpc/transport.py over a connection that delivers given octets.

use bitcoin_core_rpc.Errors.{Exception, failure, library, ok, raise}
use bitcoin_core_rpc.Errors.Classes.{unicode_error}
use bitcoin_core_rpc.Prelude.{
  Bytes, List, Option, Text, [], arith, codes, drop, if◌then◌else◌, leb, length, length-take, none,
  pos, refl, some, suc, sym, take, take-append-drop, text_eq, true, zero, ℕ, ◌*◌, ◌<◌, ◌↔◌, ◌∷◌,
  ◌≡◌, ◌≤◌, ◌⊎◌,
}
use bitcoin_core_rpc.Transport.Checks.{
  Parts, Unicode, assert_valid_headers, assert_valid_max_body_size, assert_valid_timeout,
  check_header, checked_parts, is_bad_port, is_header_name, is_latin_1, port, port_number_of,
  split_url, timeout_units, units_per_second,
}
use bitcoin_core_rpc.Transport.Exchange.{
  Attempt, Opened, Surroundings, attempt_result, failed, failure_body, http_request, open_raised,
  raised, read_response, tried, urlopen_transport,
}
use bitcoin_core_rpc.Transport.Exchange.Bounds.{
  HttpOutcome, HttpOutcomeOr, IsIoError, IsPackageError, ReadsRaiseIo,
}
use bitcoin_core_rpc.Transport.Exchange.Default.{OpenPassed, urlopen_request-HttpOutcomeOr}
use bitcoin_core_rpc.Transport.Exchange.Outcome.{http_request-HttpOutcome}
use bitcoin_core_rpc.Transport.Read.{
  Delivers, Source, after_read, announced_too_much, bounded, read_bounded, read_loop,
}
use bitcoin_core_rpc.Transport.Read.Bounded.{IsBounded, read_bounded-IsBounded}
use bitcoin_core_rpc.Transport.Valid.{
  IsDuration, assert_valid_headers-count, assert_valid_timeout-ok_iff, count, header_block,
}
use bitcoin_core_rpc.Value.{Scalar, finite, float, int, str}

-- a connection whose state is what is still to come, and whose clock stands
abbrev pub octets_source : Source Bytes
octets_source = record { read1 = λ n s. (ok (take n s), drop n s); now = λ s. 0 }

length-take-bound : (n : ℕ) (xs : Bytes) → length (take n xs) ≤ n
length-take-bound n xs = omega (arith, length-take n xs)

take-none : (n : ℕ) (xs : Bytes) → 0 < n → take n xs ≡ [] → xs ≡ []
take-none zero xs h e = absurd (omega arith)
take-none (suc n) [] h e = refl
take-none (suc n) (x ∷ xs) h e = absurd (ground arith)

pub octets_source-Delivers : Delivers octets_source (λ s. s)
octets_source-Delivers = record {
  read1_next = λ n s chunk e.
      let same : take n s ≡ chunk = ground arith in
      (rw (sym same) (sym (take-append-drop n s)), rw (sym same) (length-take-bound n s));
  read1_end = λ n s h e. take-none n s h (ground arith);
}

pub octets_source-ReadsRaiseIo : ReadsRaiseIo octets_source
octets_source-ReadsRaiseIo n t x e = absurd (ground arith)

abbrev pub ascii_unicode : Unicode
ascii_unicode = record { is_space = λ c. leb c 32; is_printable = λ c. leb 32 c }

abbrev pub node_parts : Parts
node_parts = record {
  scheme = codes "http";
  hostname = some (codes "127.0.0.1");
  username = none;
  password = none;
  port_part = port 8332;
  path = [];
  query = [];
  fragment = [];
}

abbrev pub node_url : Text
node_url = codes "http://127.0.0.1:8332"

abbrev pub split_node : Text → Option Parts
split_node url = if text_eq url node_url then some node_parts else none

abbrev pub around_node : Surroundings
around_node = record { unicode = ascii_unicode; urlsplit = split_node; started = 0 }

abbrev pub one_second : Scalar
one_second = float (finite (pos units_per_second))

-- a transport that answers 500 with a body that is still to be read
abbrev failing_transport : ℕ → ℕ → Attempt Bytes
failing_transport d l = failed 500 none (codes "busy")

failing_transport-raises :
    (d l : ℕ) (e : Exception) → failing_transport d l ≡ raised e → IsIoError e ⊎ IsPackageError e
failing_transport-raises d l e h = absurd (ground arith)

busy_read :
    http_request octets_source around_node failing_transport node_url []
      (int (pos 30))
      (int (pos 9))
    ≡ ok (500, codes "busy")
unfolding http_request attempt_result failure_body read_bounded read_loop after_read bounded
    announced_too_much assert_valid_max_body_size assert_valid_timeout timeout_units
    assert_valid_headers split_url checked_parts is_bad_port port_number_of text_eq
busy_read = refl

http_request-HttpOutcome_example : HttpOutcome (int (pos 9)) (
    http_request octets_source around_node failing_transport node_url []
      (int (pos 30))
      (int (pos 9)))
http_request-HttpOutcome_example =
    http_request-HttpOutcome octets_source around_node (λ s. s) octets_source-Delivers
      octets_source-ReadsRaiseIo failing_transport failing_transport-raises node_url []
      (int (pos 30)) (int (pos 9))

-- a body of four octets, cut to three
cut_read :
    (read_bounded octets_source (int (pos 3)) 5 true none (codes "busy")).0 ≡ ok (codes "bus")
unfolding read_bounded read_loop after_read bounded announced_too_much assert_valid_max_body_size
cut_read = refl

read_bounded-IsBounded_example :
    (limit : ℕ) × (int (pos 3) ≡ int (pos limit))
    × IsBounded true limit (codes "busy") (codes "bus")
read_bounded-IsBounded_example =
    read_bounded-IsBounded octets_source (λ s. s) octets_source-Delivers (int (pos 3)) 5 true none
      (codes "busy") cut_read

assert_valid_timeout-ok_iff_example :
    (assert_valid_timeout (codes "rpc timeout") (int (pos 30)) ≡ ok (30 * units_per_second))
    ↔ IsDuration (int (pos 30)) (30 * units_per_second)
assert_valid_timeout-ok_iff_example =
    assert_valid_timeout-ok_iff (codes "rpc timeout") (int (pos 30)) (30 * units_per_second)

abbrev two_headers : List (Scalar × Scalar)
two_headers =
    (str (codes "Content-Type"), str (codes "application/json"))
    ∷ (str (codes "User-Agent"), str (codes "bitcoin-core-rpc"))
    ∷ []

two_headers_valid : assert_valid_headers two_headers ≡ ok tt
unfolding assert_valid_headers check_header is_header_name is_latin_1
two_headers_valid = refl

assert_valid_headers-count_example :
    (count 10 (header_block two_headers) ≡ 2) × (count 13 (header_block two_headers) ≡ 2)
assert_valid_headers-count_example = assert_valid_headers-count two_headers two_headers_valid

-- an opener whose lookup cannot encode the host, whatever the timeout is
abbrev unencodable_opener : ℕ → Opened Bytes
unencodable_opener d = open_raised (failure unicode_error library)

-- ... raises what no handler of `http_request` takes
unencodable_run :
    http_request octets_source around_node
      (λ d l.
        urlopen_transport octets_source around_node unencodable_opener node_url
          (int (pos 30))
          (int (pos 9)))
      node_url
      []
      (int (pos 30))
      (int (pos 9))
    ≡ raise (failure unicode_error library)
unfolding http_request urlopen_transport tried read_response assert_valid_timeout
    assert_valid_max_body_size assert_valid_headers split_url checked_parts is_bad_port
    port_number_of text_eq
unencodable_run = refl

urlopen_request-HttpOutcomeOr_example :
    HttpOutcomeOr (OpenPassed unencodable_opener) (int (pos 9)) (
      http_request octets_source around_node
        (λ d l.
          urlopen_transport octets_source around_node unencodable_opener node_url
            (int (pos 30))
            (int (pos 9)))
        node_url
        []
        (int (pos 30))
        (int (pos 9)))
urlopen_request-HttpOutcomeOr_example =
    urlopen_request-HttpOutcomeOr octets_source around_node (λ s. s) octets_source-Delivers
      octets_source-ReadsRaiseIo unencodable_opener node_url [] (int (pos 30)) (int (pos 9))
