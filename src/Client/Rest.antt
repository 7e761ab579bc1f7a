-- ===== src/Client/Rest.antt =====
-- src/bitcoin_core_rpc/client.py: `BitcoinCoreRestClient`. `place` texts stand in no message that
-- a property reads, so they are left out.
pub mod Outcome
use bitcoin_core_rpc.Chains.{rpc_port_from_chain}
use bitcoin_core_rpc.Chains.Signet.{Challenge}
use bitcoin_core_rpc.Client.Call.{timeout_of}
use bitcoin_core_rpc.Client.ChainCheck.{assert_chain_info, expected_magic}
use bitcoin_core_rpc.Client.Credentials.{TransportArgument, assert_callable}
use bitcoin_core_rpc.Client.Slashes.{rstrip_slash, starts_with_slash}
use bitcoin_core_rpc.Client.Url.{checked_url}
use bitcoin_core_rpc.Errors.{
  Result, btc_type_error, btc_value_error, http_error, ok, raise, refuse, rest_path_no_slash,
  rest_path_no_string, ◌>>=◌, ◌>>◌,
}
use bitcoin_core_rpc.Errors.Classes.{base}
use bitcoin_core_rpc.Prelude.{
  Bytes, List, Option, Text, [], codes, if◌then◌else◌, not, pos, show_ℕ, ℕ, ◌*◌, ◌++◌, ◌+◌, ◌==◌,
  ◌∷◌,
}
use bitcoin_core_rpc.Reply.{parsed_json_body}
use bitcoin_core_rpc.Transport.Checks.{Parts, Unicode, assert_valid_timeout}
use bitcoin_core_rpc.Transport.Exchange.{Attempt, Surroundings, http_request}
use bitcoin_core_rpc.Transport.Read.{Source}
use bitcoin_core_rpc.Value.{Json, Scalar, int, none_value, scalar_type_name, str}

-- DEFAULT_MAX_BODY_SIZE of src/bitcoin_core_rpc/transport.py
abbrev pub default_max_body_size : ℕ
default_max_body_size = 2 * 4000000 + 1024

-- The attributes of a client. Its transport stands in `RestSite`.
pub record RestClient : Type 0 where
  pub url : Text
  pub timeout : Scalar

-- What stands around a request: `json.loads` with its hooks, the connection, and what the
-- transport does with a url, headers, a timeout and a limit.
pub record RestSite (S : Type 0) : Type 0 where
  pub loads : Bytes → Result Json
  pub source : Source S
  pub around : Surroundings
  pub transport : Text → List (Scalar × Scalar) → ℕ → ℕ → Attempt S

-- `__init__`
unfoldable pub rest_client :
    Unicode → (Text → Option Parts) → Text → Scalar → TransportArgument → Result RestClient
unfolding assert_callable
rest_client unicode urlsplit url timeout transport = do
  endpoint ← checked_url unicode urlsplit url
  duration ← assert_valid_timeout (codes "rest timeout") timeout
  assert_callable transport
  ok (record { url = endpoint; timeout = timeout })

-- f"http://127.0.0.1:{port}"
abbrev pub loopback_url : ℕ → Text
loopback_url number = codes "http://127.0.0.1:" ++ show_ℕ number

-- `from_chain`
unfoldable pub rest_from_chain :
    Unicode → (Text → Option Parts) → Scalar → Scalar → TransportArgument → Result RestClient
unfolding rest_client
rest_from_chain unicode urlsplit chain timeout transport = do
  number ← rpc_port_from_chain chain
  rest_client unicode urlsplit (loopback_url number) timeout transport

-- `_rest_url`
unfoldable pub rest_url : Text → Scalar → Result Text
unfolding rstrip_slash starts_with_slash
rest_url base (str path) =
    if not (starts_with_slash path)
    then raise (btc_value_error rest_path_no_slash)
    else ok (rstrip_slash base ++ (codes "/rest" ++ path))
rest_url base path = raise (btc_type_error (rest_path_no_string (scalar_type_name path)))

abbrev pub rest_headers : List (Scalar × Scalar)
rest_headers = (str (codes "User-Agent"), str (codes "bitcoin-core-rpc")) ∷ []

module _ {S : Type 0} (site : RestSite S) (client : RestClient) where
  -- the exchange of `_get`, with a url that was composed
  unfoldable pub fetch : Scalar → Scalar → Text → Result (ℕ × Bytes)
  fetch request_timeout max_body_size url =
      http_request site.source site.around (site.transport url rest_headers) url rest_headers
        (timeout_of client.timeout request_timeout) max_body_size

  -- `_get`
  unfoldable pub rest_get : Scalar → Scalar → Scalar → Result (ℕ × Bytes)
  unfolding rest_url fetch
  rest_get path request_timeout max_body_size = do
    url ← rest_url client.url path
    duration ←
        assert_valid_timeout (codes "rest request_timeout")
          (timeout_of client.timeout request_timeout)
    fetch request_timeout max_body_size url

  -- the status test of `get_bin` and `get_json`
  unfoldable pub assert_status : ℕ → Result (Unit {0})
  assert_status status = refuse (not (status == 200)) (http_error status)

  -- `get_bin`
  unfoldable pub get_bin : Scalar → Scalar → Scalar → Result Bytes
  unfolding rest_get assert_status
  get_bin path request_timeout max_body_size = do
    (status, payload) ← rest_get path request_timeout max_body_size
    assert_status status
    ok payload

  -- `get_json`
  unfoldable pub get_json : Scalar → Scalar → Scalar → Result Json
  unfolding rest_get assert_status parsed_json_body
  get_json path request_timeout max_body_size = do
    (status, payload) ← rest_get path request_timeout max_body_size
    assert_status status
    parsed_json_body site.loads status payload

  -- `assert_chain`
  unfoldable pub rest_assert_chain : (Bytes → Bytes) → Text → Option Challenge → Result (Unit {0})
  unfolding get_json expected_magic assert_chain_info
  rest_assert_chain sha256 chain challenge = do
    expected ← expected_magic sha256 chain challenge
    reply ← get_json (str (codes "/chaininfo.json")) none_value (int (pos default_max_body_size))
    assert_chain_info sha256 reply chain expected
