-- ===== src/Tests/Channel.antt =====
-- Runs of `RpcChannel`: its attributes and the params of a bound call.
use bitcoin_core_rpc.Client.Channel.{bound_method, bound_params}
use bitcoin_core_rpc.Errors.{
  btc_value_error, failure, ok, positional_and_named, private_attribute, raise,
}
use bitcoin_core_rpc.Errors.Classes.{attribute_error}
use bitcoin_core_rpc.Params.{absent, mapping, plain}
use bitcoin_core_rpc.Prelude.{[], codes, refl, true, ◌∷◌, ◌≡◌}
use bitcoin_core_rpc.Value.{bool, str}

-- a name that the interpreter asks for is no method
private_name :
    bound_method (codes "_repr_html_")
    ≡ raise (failure attribute_error (private_attribute (codes "_repr_html_")))
unfolding bound_method
private_name = refl

method_name : bound_method (codes "uptime") ≡ ok (codes "uptime")
unfolding bound_method
method_name = refl

no_arguments : bound_params (codes "uptime") [] [] ≡ ok absent
unfolding bound_params
no_arguments = refl

named_argument :
    bound_params (codes "getblock") [] ((codes "verbose", plain (bool true)) ∷ [])
    ≡ ok (mapping ((plain (str (codes "verbose")), plain (bool true)) ∷ []))
unfolding bound_params
named_argument = refl

both_shapes :
    bound_params
      (codes "getblock")
      (plain (bool true) ∷ [])
      ((codes "verbose", plain (bool true)) ∷ [])
    ≡ raise (btc_value_error (positional_and_named (codes "getblock")))
unfolding bound_params
both_shapes = refl
