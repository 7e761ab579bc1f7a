-- ===== src/Errors/Classes.antt =====
-- src/bitcoin_core_rpc/errors.py: the classes of the exception hierarchy, with the standard ones
-- that the package raises, catches, or derives from.
use bitcoin_core_rpc.Prelude.{ℕ, zero, suc, Bool, Option, none, some, List, [], ◌∷◌, any, ◌==◌}

pub data Class : Type 0 where
  -- the package's own
  btc_rpc_value_error btc_rpc_type_error btc_rpc_runtime_error : Class
  fetch_error_class http_error_class rpc_error_class cookie_not_found_class : Class
  -- the standard library's
  exception value_error type_error runtime_error recursion_error : Class
  os_error file_not_found_error timeout_error connection_error : Class
  broken_pipe_error connection_aborted_error connection_reset_error : Class
  http_exception url_error urllib_http_error : Class
  unicode_error unicode_decode_error unicode_encode_error json_decode_error : Class
  arithmetic_error decimal_exception lookup_error key_error attribute_error : Class

-- The base named in the class statement. `HTTPError` derives from `URLError`, which is an
-- `OSError`; `DecimalException` is an `ArithmeticError`.
abbrev pub base : Class → Option Class
base btc_rpc_value_error = some value_error
base btc_rpc_type_error = some type_error
base btc_rpc_runtime_error = some runtime_error
base fetch_error_class = some btc_rpc_runtime_error
base http_error_class = some fetch_error_class
base rpc_error_class = some fetch_error_class
base cookie_not_found_class = some fetch_error_class
base exception = none
base value_error = some exception
base type_error = some exception
base runtime_error = some exception
base recursion_error = some runtime_error
base os_error = some exception
base file_not_found_error = some os_error
base timeout_error = some os_error
base connection_error = some os_error
base broken_pipe_error = some connection_error
base connection_aborted_error = some connection_error
base connection_reset_error = some connection_error
base http_exception = some exception
base url_error = some os_error
base urllib_http_error = some url_error
base unicode_error = some value_error
base unicode_decode_error = some unicode_error
base unicode_encode_error = some unicode_error
base json_decode_error = some value_error
base arithmetic_error = some exception
base decimal_exception = some arithmetic_error
base lookup_error = some exception
base key_error = some lookup_error
base attribute_error = some exception

-- a number for each class, by which two are compared
abbrev index : Class → ℕ
index btc_rpc_value_error = 0
index btc_rpc_type_error = 1
index btc_rpc_runtime_error = 2
index fetch_error_class = 3
index http_error_class = 4
index rpc_error_class = 5
index cookie_not_found_class = 6
index exception = 7
index value_error = 8
index type_error = 9
index runtime_error = 10
index recursion_error = 11
index os_error = 12
index file_not_found_error = 13
index timeout_error = 14
index connection_error = 15
index broken_pipe_error = 16
index connection_aborted_error = 17
index connection_reset_error = 18
index http_exception = 19
index url_error = 20
index urllib_http_error = 21
index unicode_error = 22
index unicode_decode_error = 23
index unicode_encode_error = 24
index json_decode_error = 25
index arithmetic_error = 26
index decimal_exception = 27
index lookup_error = 28
index key_error = 29
index attribute_error = 30

abbrev pub class_eq : Class → Class → Bool
class_eq a b = index a == index b

-- The class and what it derives from, nearest first. No chain above has more than six classes.
abbrev ancestors_upto : ℕ → Class → List Class
ancestors_upto zero c = []
ancestors_upto (suc n) c = c ∷ elim (base c) [ none ↦ [] | some b ↦ ancestors_upto n b ]

abbrev pub ancestors : Class → List Class
ancestors = ancestors_upto 6

-- issubclass(c, d)
abbrev pub is_subclass : Class → Class → Bool
is_subclass c d = any (class_eq d) (ancestors c)
