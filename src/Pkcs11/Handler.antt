-- ===== src/Pkcs11/Handler.antt =====
-- source/pkcs11_tls_op_handler.c: a handler of private key operations holds one session of a PKCS#11 library.
use aws_c_io.Base.{ℕ, Option, none, some, List, [], ◌∷◌, ◌++◌, ◌==◌, if◌then◌else◌}
use aws_c_io.Pkcs11.{
  invalid_argument, invalid_state, Result, ok, err, Call, c_open_session, c_close_session,
  c_find_objects_init, c_find_objects_final, Logged, and_then, FunctionList, ckr_ok,
}
use aws_c_io.Pkcs11.Slots.{find_slot_with_token}
use aws_c_io.Pkcs11.Keys.{
  HashAlgorithm, SignatureAlgorithm, open_session, login_user, find_private_key, decrypt, sign,
}

-- struct aws_pkcs11_tls_op_handler
pub record OpHandler : Type 0 where
  pub session_handle : ℕ
  pub private_key_handle : ℕ
  pub private_key_type : ℕ

-- s_aws_custom_key_op_handler_destroy
abbrev pub destroy_handler : ℕ → List Call
destroy_handler session = if session == 0 then [] else c_close_session session ∷ []

-- The end of aws_pkcs11_tls_op_handler_new
abbrev pub hold_session : ℕ → Logged (ℕ × ℕ) → Logged OpHandler
hold_session session (ok (key, key_type), calls) = (
  ok (record { session_handle = session; private_key_handle = key; private_key_type = key_type }),
  calls,
)
hold_session session (err e, calls) = (err e, calls ++ destroy_handler session)

-- aws_pkcs11_tls_op_handler_new behind C_OpenSession
abbrev pub in_session : FunctionList → Option (List ℕ) → Option (List ℕ) → ℕ → Logged OpHandler
in_session fl user_pin match_key_label session =
    hold_session session
      (and_then (login_user fl session user_pin) (λ _. find_private_key fl session match_key_label))

abbrev pub in_slot : FunctionList → Option (List ℕ) → Option (List ℕ) → Result ℕ → Logged OpHandler
in_slot fl user_pin match_key_label (err e) = (err e, [])
in_slot fl user_pin match_key_label (ok slot) =
    and_then (open_session fl slot) (in_session fl user_pin match_key_label)

-- aws_pkcs11_tls_op_handler_new; `none` is no library.
unfoldable pub op_handler_new :
    Option FunctionList
    → Option (List ℕ)
    → Option (List ℕ)
    → Option (List ℕ)
    → Option ℕ
    → Logged OpHandler
op_handler_new none user_pin match_token_label match_key_label match_slot =
    (err invalid_argument, [])
op_handler_new (some fl) user_pin match_token_label match_key_label match_slot =
    in_slot fl user_pin match_key_label (find_slot_with_token fl match_slot match_token_label)

-- struct aws_tls_key_operation, by its type
pub data KeyOperation : Type 0 where
  decrypt_operation : List ℕ → KeyOperation
  sign_operation : List ℕ → HashAlgorithm → SignatureAlgorithm → KeyOperation
  unknown_operation : KeyOperation

-- s_aws_pkcs11_tls_op_handler_do_operation: what the operation is completed with
unfoldable pub do_operation : FunctionList → OpHandler → KeyOperation → Logged (List ℕ)
do_operation fl h (decrypt_operation input) =
    decrypt fl h.session_handle h.private_key_handle h.private_key_type input
do_operation fl h (sign_operation input digest_alg signature_alg) =
    sign fl h.session_handle h.private_key_handle h.private_key_type input digest_alg signature_alg
do_operation fl h unknown_operation = (err invalid_state, [])

-- The calls of a list of operations
unfoldable pub do_operations : FunctionList → OpHandler → List KeyOperation → List Call
unfolding do_operation
do_operations fl h [] = []
do_operations fl h (op ∷ ops) = (do_operation fl h op).1 ++ do_operations fl h ops

abbrev pub used_up : FunctionList → List KeyOperation → Logged OpHandler → List Call
used_up fl ops (err e, calls) = calls
used_up fl ops (ok h, calls) = calls ++ (do_operations fl h ops ++ destroy_handler h.session_handle)

-- A handler's life: its making, its operations, and its destruction
unfoldable pub handler_life :
    FunctionList
    → Option (List ℕ)
    → Option (List ℕ)
    → Option (List ℕ)
    → Option ℕ
    → List KeyOperation
    → List Call
unfolding op_handler_new
handler_life fl user_pin match_token_label match_key_label match_slot ops =
    used_up fl ops (op_handler_new (some fl) user_pin match_token_label match_key_label match_slot)

-- A session that is opened with success, and one that is closed; a search that is begun with success, and one that
-- is ended
abbrev pub is_opening : Call → ℕ
is_opening (c_open_session rv session) = if rv == ckr_ok then 1 else 0
is_opening other = 0

abbrev pub is_closing : Call → ℕ
is_closing (c_close_session session) = 1
is_closing other = 0

abbrev pub is_beginning : Call → ℕ
is_beginning (c_find_objects_init rv) = if rv == ckr_ok then 1 else 0
is_beginning other = 0

abbrev pub is_ending : Call → ℕ
is_ending (c_find_objects_final session) = 1
is_ending other = 0
