-- ===== src/Tests/Calls.antt =====
-- Runs of `call_raw`, `call_batch`, `from_chain` and the REST client of src/bitcoin_core_rpc/client.py.
use bitcoin_core_rpc.Batch.{answer, batch_results}
use bitcoin_core_rpc.Chains.{datadir_subdir_from_chain, rpc_port_from_chain}
use bitcoin_core_rpc.Chains.Datadir.{Platform}
use bitcoin_core_rpc.Client.Call.{Site, call, place_of}
use bitcoin_core_rpc.Client.CallBatch.{BatchCalls, BatchFresh, call_batch, iterated, pair}
use bitcoin_core_rpc.Client.CallRaw.{call_raw}
use bitcoin_core_rpc.Client.CallRaw.Refines.{call-call_raw, interpreted}
use bitcoin_core_rpc.Client.ChainCheck.Agreement.{Agrees, Means}
use bitcoin_core_rpc.Client.Credentials.{RpcClient, callable_transport, is_absent, no_cookie_path}
use bitcoin_core_rpc.Client.FromChain.{from_chain}
use bitcoin_core_rpc.Client.FromChain.Local.{IsLocal, from_chain-IsLocal}
use bitcoin_core_rpc.Client.Rest.{
  RestClient, RestSite, default_max_body_size, get_bin, rest_assert_chain, rest_get,
}
use bitcoin_core_rpc.Client.Rest.Outcome.{
  IsDocumentedRest, RestEscapes, get-Escapes, rest_assert_chain-ok_iff,
}
use bitcoin_core_rpc.Client.Url.{checked_url}
use bitcoin_core_rpc.Errors.{http_error, ok, raise, ◌>>=◌}
use bitcoin_core_rpc.Params.{absent, assert_json_params, params_member, request_json_at, walked}
use bitcoin_core_rpc.Prelude.{
  Bytes, Option, [], codes, false, inl, none, pos, refl, show_ℕ, some, suc, text_eq, true, ℕ, ◌*◌,
  ◌+◌, ◌↔◌, ◌∷◌, ◌≡◌,
}
use bitcoin_core_rpc.Reply.{batch_reply_array, discriminate, legacy_result, parsed_json_body}
use bitcoin_core_rpc.Tests.Client.{alice, site, site-IsDocumentedSite}
use bitcoin_core_rpc.Tests.Reply.{batch_body}
use bitcoin_core_rpc.Tests.Transport.{
  ascii_unicode, node_parts, node_url, octets_source, octets_source-Delivers,
  octets_source-ReadsRaiseIo,
}
use bitcoin_core_rpc.Transport.Checks.{
  assert_valid_headers, assert_valid_max_body_size, assert_valid_timeout, split_url,
}
use bitcoin_core_rpc.Transport.Exchange.{Surroundings, answered, http_request}
use bitcoin_core_rpc.Value.{Json, get, int, none_value, scalar, str}

call-call_raw_example :
    call site alice (codes "a") (str (codes "stop")) absent none_value (int (pos 9)) ≡ (
      call_raw site alice
        (codes "a")
        (str (codes "stop"))
        absent
        (str (codes "2.0"))
        none_value
        (int (pos 9))
      >>= interpreted (place_of (str (codes "stop")) node_url) (codes "a"))
call-call_raw_example =
    call-call_raw site alice (codes "a") (str (codes "stop")) absent none_value (int (pos 9))

-- a node that answers two requests, the second one first
abbrev batch_site : Site ℕ Bytes
batch_site = record site { transport = λ body headers d l. answered 200 batch_body }

abbrev batch_fresh : BatchFresh
batch_fresh = record {
  member = λ index. record { params_address = 10 + 2 * index; request_address = 11 + 2 * index };
  list_address = 9;
  request_id = λ index. (97 + index) ∷ [];
}

abbrev two_calls : BatchCalls
two_calls = iterated (pair (str (codes "one")) absent ∷ pair (str (codes "two")) absent ∷ [])

batch_answered :
    call_batch batch_site batch_fresh alice two_calls none_value (int (pos 9))
    ≡ ok (answer (scalar (int (pos 1))) ∷ answer (scalar (int (pos 2))) ∷ [])
unfolding call_batch walked assert_valid_timeout is_absent params_member assert_json_params
    request_json_at assert_valid_max_body_size assert_valid_headers split_url text_eq batch_results
    batch_reply_array parsed_json_body get discriminate legacy_result
batch_answered = refl

-- every url is one of the node
abbrev around_rest : Surroundings
around_rest = record { unicode = ascii_unicode; urlsplit = λ url. some node_parts; started = 0 }

-- a node without the resource
abbrev rest_site : RestSite Bytes
rest_site = record {
  loads = site.loads;
  source = octets_source;
  around = around_rest;
  transport = λ url headers d l. answered 404 (codes "missing");
}

rest_site-IsDocumentedRest : IsDocumentedRest rest_site
rest_site-IsDocumentedRest = record {
  replies = site-IsDocumentedSite.replies;
  to_come = λ s. s;
  reads = octets_source-Delivers;
  io = octets_source-ReadsRaiseIo;
}

abbrev rest_node : RestClient
rest_node = record { url = node_url; timeout = int (pos 30) }

missing_run :
    get_bin rest_site rest_node (str (codes "/tx/00.bin")) none_value (int (pos 9))
    ≡ raise (http_error 404)
unfolding get_bin assert_valid_timeout is_absent http_request assert_valid_max_body_size
    assert_valid_headers split_url text_eq
missing_run = refl

get-Escapes_example : RestEscapes rest_site (http_error 404)
get-Escapes_example =
    get-Escapes rest_site rest_node rest_site-IsDocumentedRest (str (codes "/tx/00.bin")) none_value
      (int (pos 9)) (http_error 404) (inl missing_run)

rest_assert_chain-ok_iff_example :
    (rest_assert_chain rest_site rest_node (λ b. b) (codes "main") none ≡ ok tt) ↔ (
      (expected : Option Bytes) × (reply : Json) × Means (λ b. b) (codes "main") none expected
      × ((payload : Bytes) × (rest_get rest_site rest_node
              (str (codes "/chaininfo.json"))
              none_value
              (int (pos default_max_body_size))
            ≡ ok (200, payload))
          × (rest_site.loads payload ≡ ok reply))
      × Agrees (λ b. b) reply (codes "main") expected)
rest_assert_chain-ok_iff_example =
    rest_assert_chain-ok_iff rest_site rest_node (λ b. b) (codes "main") none

-- a platform whose paths are counted
abbrev counted : Platform ℕ
counted = record {
  name = codes "linux";
  home = some 1;
  environ = λ name. none;
  path = λ text. 2;
  is_absolute = λ p. true;
  joined = λ p text. suc p;
}

abbrev local_node : RpcClient ℕ
local_node = record {
  url = node_url;
  user = none;
  password = none;
  cookie_path = some 4;
  timeout = int (pos 30);
}

from_chain_run :
    from_chain site counted
      (λ b. b)
      (codes "a")
      (str (codes "main"))
      none_value
      none_value
      no_cookie_path
      (int (pos 30))
      callable_transport
      false
      none
    ≡ ok local_node
unfolding from_chain rpc_port_from_chain text_eq datadir_subdir_from_chain checked_url show_ℕ
    assert_valid_timeout
from_chain_run = refl

from_chain-IsLocal_example :
    IsLocal site counted
      (λ b. b)
      (codes "a")
      (str (codes "main"))
      none_value
      none_value
      no_cookie_path
      false
      none
      local_node
from_chain-IsLocal_example =
    from_chain-IsLocal site counted (λ b. b) (codes "a") (str (codes "main")) none_value none_value
      no_cookie_path (int (pos 30)) callable_transport false none local_node from_chain_run
