-- ===== src/Errors.antt =====
-- src/bitcoin_core_rpc/errors.py: exceptions as values, and the results of code that raises.
-- A message is a `Reason`, one constructor for each message that the source composes, with what
-- the message shows of the arguments where a property needs it. A cause (`raise ... from e`) is
-- not kept.
pub mod Classes
pub mod Codes
pub mod Shown
use Classes.{
  Class, btc_rpc_value_error, btc_rpc_type_error, fetch_error_class, http_error_class,
  rpc_error_class, cookie_not_found_class, is_subclass,
}
use bitcoin_core_rpc.Prelude.{Bool, Text, arith, if◌then◌else◌, inl, inr, refl, ℕ, ℤ, ◌≡◌, ◌⊎◌}
use bitcoin_core_rpc.Value.{Json}

pub data Reason : Type 0 where
  -- chains.py
  unknown_core_chain unknown_network : (shown : Text) → Reason
  challenge_no_hex : Reason
  challenge_no_script : (kind : Text) → Reason
  no_default_datadir no_datadir_for_cookie : Reason
  cookie_path_not_encodable cookie_not_regular cookie_unreadable cookie_absent : Reason
  cookie_oversized cookie_not_ascii cookie_several_lines cookie_no_colon : Reason
  -- transport.py
  non_numeric not_positive_seconds : (what : Text) → Reason
  non_string_header invalid_header_name invalid_header_value : Reason
  url_whitespace url_not_ascii url_does_not_parse url_invalid_port : Reason
  url_invalid_scheme url_no_host url_login url_query_or_fragment : Reason
  non_integer_limit negative_limit : Reason
  timed_out no_address : Reason
  announced_too_large response_too_large still_arriving timeout_expired no_answer : Reason
  -- client.py: the parameters of a call
  params_no_sequence params_neither params_too_deep params_no_finite_number : Reason
  params_no_json_value params_name_not_string params_cycle params_not_carried : Reason
  decimal_not_finite decimal_exponent : Reason
  method_no_string marker_no_string : (kind : Text) → Reason
  -- client.py: the reply
  reply_number_not_finite reply_number_exponent reply_constant : Reason
  unreadable_rpc_error : Json → Reason
  wrong_id : (given : Json) → (asked : Text) → Reason
  reply_too_deep reply_parser_refused reply_not_utf8 reply_not_json : Reason
  reply_no_object reply_no_array : (kind : Text) → Reason
  reply_version : Json → Reason
  reply_neither reply_both : Reason
  -- client.py: a batch
  batch_no_iterable batch_no_pair : (kind : Text) → Reason
  batch_empty : Reason
  batch_member : ℕ → Reason → Reason
  batch_count : (replies : ℕ) → (requests : ℕ) → Reason
  batch_reply_no_object : (kind : Text) → Reason
  batch_reply_unknown_id batch_reply_repeated_id : Json → Reason
  -- client.py: the clients
  challenge_without_signet : (shown : Text) → Reason
  challenge_without_verify : Reason
  no_chain_reported : (kind : Text) → Reason
  other_chain : (reported : Text) → (shown : Text) → Reason
  no_challenge_reported challenge_unreadable : Reason
  other_signet : Reason
  half_a_login login_and_cookie no_credentials colon_in_user : Reason
  credential_no_string : (what : Text) → (kind : Text) → Reason
  cookie_path_no_path transport_not_callable : (kind : Text) → Reason
  wallet_no_string : (kind : Text) → Reason
  wallet_of_wallet wallet_not_encodable credential_not_encodable : Reason
  rest_path_no_string : (kind : Text) → Reason
  rest_path_no_slash : Reason
  positional_and_named private_attribute : (method : Text) → Reason
  -- what the standard library says of its own exceptions
  library : Reason

-- An exception: its class and message, and for the two classes that carry fields, the fields.
pub data Exception : Type 0 where
  failure : Class → Reason → Exception
  http_error : (status : ℕ) → Exception
  rpc_error : (message : Text) → (code : ℤ) → (error_data : Json) → Exception

unfoldable pub class_of : Exception → Class
class_of (failure c r) = c
class_of (http_error s) = http_error_class
class_of (rpc_error m c d) = rpc_error_class

-- isinstance(e, c), which is what `except c` asks
unfoldable pub is_instance : Exception → Class → Bool
unfolding class_of
is_instance e c = is_subclass (class_of e) c

abbrev pub btc_value_error : Reason → Exception
btc_value_error = failure btc_rpc_value_error

abbrev pub btc_type_error : Reason → Exception
btc_type_error = failure btc_rpc_type_error

abbrev pub fetch_error : Reason → Exception
fetch_error = failure fetch_error_class

abbrev pub cookie_not_found_error : Reason → Exception
cookie_not_found_error = failure cookie_not_found_class

-- What a call does: it raises an exception, or it returns a value.
pub data Result {ℓ} (A : Type ℓ) : Type ℓ where
  raise : Exception → Result A
  ok : A → Result A

-- the statements behind a call run on what it returned, and not where it raised
infixl 5 ◌>>=◌ ◌>>◌
abbrev pub ◌>>=◌ {ℓ κ} : {X : Type ℓ} {Y : Type κ} → Result X → (X → Result Y) → Result Y
raise x >>= next = raise x
ok value >>= next = next value

module _ {ℓ κ} {X : Type ℓ} {Y : Type κ} where
  -- Inversion of a bind that raised: either call may be the one.
  pub >>=-eq-raise :
      (first : Result X) (next : X → Result Y) {e : Exception}
      → (first >>= next) ≡ raise e
      → (first ≡ raise e) ⊎ ((value : X) × (first ≡ ok value) × (next value ≡ raise e))
  >>=-eq-raise (raise x) next h = inl cc
  >>=-eq-raise (ok value) next h = inr (value, refl, h)

  -- A bind that returned went through both calls.
  pub >>=-eq-ok :
      (first : Result X) (next : X → Result Y) {y : Y}
      → (first >>= next) ≡ ok y
      → (value : X) × (first ≡ ok value) × (next value ≡ ok y)
  >>=-eq-ok (raise x) next h = cc
  >>=-eq-ok (ok value) next h = (value, refl, h)

-- a check, and the statements behind it
abbrev pub ◌>>◌ {ℓ} : {Y : Type ℓ} → Result (Unit {0}) → Result Y → Result Y
check >> rest = check >>= (λ passed. rest)

-- if test: raise e
abbrev pub refuse : Bool → Exception → Result (Unit {0})
refuse test e = if test then raise e else ok tt

-- To split on what a call returned, and keep the equation.
pub Result-cases {ℓ} :
    {X : Type ℓ} (first : Result X)
    → ((value : X) × (first ≡ ok value)) ⊎ ((e : Exception) × (first ≡ raise e))
Result-cases (raise e) = inr (e, refl)
Result-cases (ok value) = inl (value, refl)

-- Two checks in a row pass exactly when both do.
pub >>-eq-ok :
    (one next : Result (Unit {0})) → (one >> next) ≡ ok tt → (one ≡ ok tt) × (next ≡ ok tt)
>>-eq-ok (raise e) next h = absurd (ground arith)
>>-eq-ok (ok tt) next h = (refl, h)
