-- ===== src/Tests/Client.antt =====
-- Runs of the clients of src/bitcoin_core_rpc/client.py.
use bitcoin_core_rpc.Chains.Signet.{
  challenge_script, compact_size, fromhex, hex_text, hex_value, magic_from_signet_challenge, octet,
  script, to_bytes,
}
use bitcoin_core_rpc.Client.Call.{Fresh, Site, call, method_text, request, request_body}
use bitcoin_core_rpc.Client.Call.Outcome.{Escapes, IsDocumentedSite, call-Escapes}
use bitcoin_core_rpc.Client.Call.Refused.{IsRefusal, request-IsRefusal}
use bitcoin_core_rpc.Client.ChainCheck.{
  assert_chain, assert_chain_info, assert_chain_name, assert_same_signet, assert_signet,
  expected_magic,
}
use bitcoin_core_rpc.Client.ChainCheck.Agreement.{
  Agrees, Means, assert_chain-ok_iff, assert_chain-one_signet,
}
use bitcoin_core_rpc.Client.Credentials.{
  RpcClient, assert_callable, assert_one_identity, auth_header, basic, callable_transport,
  cookie_path_of, credential, has_colon, has_no_cookie_path, is_absent, login_half, no_cookie_path,
  rpc_client,
}
use bitcoin_core_rpc.Client.Credentials.Header.{IsText, auth_header-login, split_colon}
use bitcoin_core_rpc.Client.Credentials.Sent.{IsIdentified, rpc_client-IsIdentified}
use bitcoin_core_rpc.Client.Encoding.{b64encode, base64_char, encode, encode_point, joined_points}
use bitcoin_core_rpc.Client.Encoding.RoundTrip.{b64decode}
use bitcoin_core_rpc.Client.Url.{
  IsEndpoint, checked_endpoint, checked_url, checked_url-split_url, has_no_host,
}
use bitcoin_core_rpc.Errors.{
  btc_value_error, class_of, http_error, is_instance, ok, params_not_carried, raise,
}
use bitcoin_core_rpc.Params.{
  Interpreter, absent, assert_json_params, assert_json_params_at, assert_no_cycle, for_items,
  for_object, params_member, request_json_at, write_items, write_members, write_object,
  write_scalar,
}
use bitcoin_core_rpc.Params.Scalars.{dumps}
use bitcoin_core_rpc.Prelude.{
  Bytes, Option, Text, [], arith, codes, false, none, pos, refl, some, take, text_eq, true, ℕ, ◌++◌,
  ◌↔◌, ◌∷◌, ◌≡◌,
}
use bitcoin_core_rpc.Reply.{parsed_json_body, reply_object, result}
use bitcoin_core_rpc.Tests.Chains.{cookie_file, cookie_file-RaisesOsErrors}
use bitcoin_core_rpc.Tests.Params.{cpython, shared_heap}
use bitcoin_core_rpc.Tests.Reply.{loads_batch, loads_batch-IsDocumented}
use bitcoin_core_rpc.Tests.Transport.{
  around_node, ascii_unicode, node_url, octets_source, octets_source-Delivers,
  octets_source-ReadsRaiseIo, split_node,
}
use bitcoin_core_rpc.Transport.Checks.{
  Endpoint, Parts, assert_valid_headers, assert_valid_max_body_size, assert_valid_timeout,
  has_unprintable, is_ascii, is_bad_port, split_url, timeout_units,
}
use bitcoin_core_rpc.Transport.Exchange.{answered, http_request}
use bitcoin_core_rpc.Value.{Json, dict, end, get, int, member, none_value, scalar, str}

checked_run : checked_url ascii_unicode split_node node_url ≡ ok node_url
unfolding checked_url checked_endpoint has_no_host is_bad_port text_eq
checked_run = refl

checked_url-split_url_example :
    (node_url ≡ node_url)
    × (has_unprintable ascii_unicode node_url ≡ false)
    × (is_ascii node_url ≡ true)
    × ((parts : Parts) × (split_node node_url ≡ some parts) × IsEndpoint parts)
    × ((e : Endpoint) × (split_url ascii_unicode split_node node_url ≡ ok e))
checked_url-split_url_example =
    checked_url-split_url ascii_unicode split_node node_url node_url checked_run

abbrev pub alice : RpcClient ℕ
alice = record {
  url = node_url;
  user = some (codes "alice");
  password = some (codes "s:t");
  cookie_path = none;
  timeout = int (pos 30);
}

alice_built :
    rpc_client {P = ℕ} ascii_unicode split_node node_url
      (str (codes "alice"))
      (str (codes "s:t"))
      no_cookie_path
      (int (pos 30))
      callable_transport
    ≡ ok alice
unfolding rpc_client assert_one_identity is_absent has_no_cookie_path login_half has_colon
    cookie_path_of assert_callable checked_url checked_endpoint has_no_host is_bad_port text_eq
    assert_valid_timeout timeout_units
alice_built = refl

rpc_client-IsIdentified_example :
    (checked_url ascii_unicode split_node node_url ≡ ok alice.url)
    × (alice.timeout ≡ int (pos 30))
    × ((duration : ℕ) × (assert_valid_timeout (codes "rpc timeout") (int (pos 30)) ≡ ok duration))
    × IsIdentified alice
rpc_client-IsIdentified_example =
    rpc_client-IsIdentified ascii_unicode split_node node_url (str (codes "alice"))
      (str (codes "s:t")) no_cookie_path (int (pos 30)) callable_transport alice alice_built

alice_header : auth_header (λ (p : ℕ). cookie_file) alice ≡ ok (codes "Basic YWxpY2U6czp0")
unfolding auth_header credential basic encode encode_point joined_points b64encode base64_char
alice_header = refl

alice_IsText : IsText (codes "alice")
alice_IsText = (omega arith, (omega arith, (omega arith, (omega arith, (omega arith, tt)))))

secret_IsText : IsText (codes "s:t")
secret_IsText = (omega arith, (omega arith, (omega arith, tt)))

auth_header-login_example :
    (encoded : Text) × (x y : Bytes) × (codes "Basic YWxpY2U6czp0" ≡ codes "Basic " ++ encoded)
    × (encode (codes "alice") ≡ some x)
    × (encode (codes "s:t") ≡ some y)
    × (split_colon (b64decode encoded) ≡ some (x, y))
auth_header-login_example =
    auth_header-login (λ (p : ℕ). cookie_file) ascii_unicode split_node node_url
      (str (codes "alice")) (str (codes "s:t")) no_cookie_path (int (pos 30)) callable_transport
      alice (codes "alice") (codes "s:t") (codes "Basic YWxpY2U6czp0") alice_built refl refl
      alice_IsText secret_IsText alice_header

abbrev digest : Bytes → Bytes
digest octets = take 4 octets

abbrev signet_info : Json
signet_info = dict (
    member (codes "chain") (scalar (str (codes "signet")))
      (member (codes "signet_challenge") (scalar (str (codes "51ff"))) end))

assert_chain-ok_iff_example :
    (assert_chain digest (ok signet_info) (codes "signet") (some (hex_text (codes "51FF"))) ≡ ok tt)
    ↔ ((expected : Option Bytes) × (reply : Json) × Means digest
          (codes "signet")
          (some (hex_text (codes "51FF")))
          expected
        × (ok signet_info ≡ ok reply)
        × Agrees digest reply (codes "signet") expected)
assert_chain-ok_iff_example =
    assert_chain-ok_iff digest (ok signet_info) (codes "signet") (some (hex_text (codes "51FF")))

upper_passes :
    assert_chain digest (ok signet_info) (codes "signet") (some (hex_text (codes "51FF"))) ≡ ok tt
unfolding assert_chain expected_magic assert_chain_info assert_chain_name assert_signet
    assert_same_signet magic_from_signet_challenge challenge_script fromhex octet hex_value
    compact_size to_bytes get text_eq
upper_passes = refl

script_passes :
    assert_chain digest (ok signet_info) (codes "signet") (some (script (81 ∷ 255 ∷ []))) ≡ ok tt
unfolding assert_chain expected_magic assert_chain_info assert_chain_name assert_signet
    assert_same_signet magic_from_signet_challenge challenge_script fromhex octet hex_value
    compact_size to_bytes get text_eq
script_passes = refl

assert_chain-one_signet_example :
    magic_from_signet_challenge digest (hex_text (codes "51FF"))
    ≡ magic_from_signet_challenge digest (script (81 ∷ 255 ∷ []))
assert_chain-one_signet_example =
    assert_chain-one_signet digest signet_info (hex_text (codes "51FF")) (script (81 ∷ 255 ∷ []))
      upper_passes script_passes

abbrev fresh : Fresh
fresh = record { params_address = 10; request_address = 11 }

abbrev no_digits : Interpreter
no_digits = record {
  levels = 1;
  has_room = λ heap v. true;
  max_str_digits = 4300;
  float_repr = λ u. [];
}

-- with one frame left, the writing raises `RecursionError`
request_run :
    request no_digits shared_heap fresh
      (codes "a")
      (str (codes "stop"))
      absent
      (int (pos 30))
      none_value
    ≡ raise (btc_value_error params_not_carried)
unfolding request method_text request_body request_json_at write_object write_items write_members
    write_scalar dumps is_absent params_member assert_json_params assert_json_params_at
    assert_no_cycle for_object for_items assert_valid_timeout timeout_units is_instance class_of
request_run = refl

request-IsRefusal_example : IsRefusal (btc_value_error params_not_carried)
request-IsRefusal_example =
    request-IsRefusal no_digits shared_heap fresh (codes "a") (str (codes "stop")) absent
      (int (pos 30)) none_value (λ heap v. refl) (btc_value_error params_not_carried) request_run

abbrev pub site : Site ℕ Bytes
site = record {
  python = cpython;
  heap = shared_heap;
  fresh = fresh;
  file = λ p. cookie_file;
  loads = loads_batch;
  source = octets_source;
  around = around_node;
  transport = λ body headers d l. answered 503 (codes "busy");
}

pub site-IsDocumentedSite : IsDocumentedSite site
site-IsDocumentedSite = record {
  cookie_files = λ p. cookie_file-RaisesOsErrors;
  replies = loads_batch-IsDocumented;
  to_come = λ s. s;
  reads = octets_source-Delivers;
  io = octets_source-ReadsRaiseIo;
  room = λ heap v. refl;
}

call_run :
    call site alice (codes "a") (str (codes "stop")) absent none_value (int (pos 9))
    ≡ raise (http_error 503)
unfolding call request method_text request_body auth_header http_request result assert_valid_timeout
    is_absent params_member assert_json_params request_json_at assert_valid_max_body_size
    assert_valid_headers split_url text_eq reply_object parsed_json_body
call_run = refl

call-Escapes_example : Escapes site (http_error 503)
call-Escapes_example =
    call-Escapes site site-IsDocumentedSite alice (codes "a") (str (codes "stop")) absent none_value
      (int (pos 9)) (http_error 503) call_run
