-- ===== src/Pkcs11.antt =====
-- source/pkcs11_lib.c and source/pkcs11_tls_op_handler.c, over the functions of a PKCS#11 library: results, the
-- calls that change the library's state, and what the library answers.
pub mod Asn1
pub mod Balance
pub mod Choice
pub mod Der
pub mod Handler
pub mod Integer
pub mod Keys
pub mod Loading
pub mod Slots
mod Tests
use aws_c_io.Base.{ℕ, ◌+◌, ◌≡◌, List, [], ◌∷◌, ◌++◌, Option, arith}

-- What the functions raise: `ck rv` is what s_ck_to_aws_error makes of a CKR_* value.
pub data Pkcs11Error : Type 0 where
  ck : ℕ → Pkcs11Error
  token_not_found key_not_found key_type_unsupported pin_incorrect encoding_error : Pkcs11Error
  version_unsupported signature_algorithm_unsupported digest_algorithm_unsupported : Pkcs11Error
  invalid_argument invalid_state not_loaded : Pkcs11Error

pub data Result {ℓ} (A : Type ℓ) : Type ℓ where
  ok : A → Result A
  err : Pkcs11Error → Result A

-- The calls of the library that begin or end something, with their CK_RV and the handle
pub data Call : Type 0 where
  c_initialize : ℕ → Call
  c_finalize : Call
  c_open_session : ℕ → ℕ → Call
  c_close_session : ℕ → Call
  c_login : ℕ → Call
  c_find_objects_init : ℕ → Call
  c_find_objects_final : ℕ → Call
  c_decrypt_init : ℕ → Call
  c_sign_init : ℕ → Call

-- A result, with the calls made for it
abbrev pub Logged {ℓ} : Type ℓ → Type ℓ
Logged A = Result A × List Call

abbrev pub and_then {ℓ κ} : {A : Type ℓ} {B : Type κ} → Logged A → (A → Logged B) → Logged B
and_then (ok a, calls) f = let (r, more) = f a in (r, calls ++ more)
and_then (err e, calls) f = (err e, calls)

-- How much the calls of a list count for
abbrev pub tally : (Call → ℕ) → List Call → ℕ
tally f [] = 0
tally f (c ∷ cs) = f c + tally f cs

pub tally-append : (f : Call → ℕ) (cs ds : List Call) → tally f (cs ++ ds) ≡ tally f cs + tally f ds
tally-append f [] ds = omega arith
tally-append f (c ∷ cs) ds = omega (arith, tally-append f cs ds)

-- CKR_OK, CKR_USER_ALREADY_LOGGED_IN, CKR_CRYPTOKI_ALREADY_INITIALIZED, CK_INVALID_HANDLE, CKK_RSA and CKK_EC
abbrev pub ckr_ok : ℕ
ckr_ok = 0

abbrev pub ckr_user_already_logged_in : ℕ
ckr_user_already_logged_in = 0x100

abbrev pub ckr_cryptoki_already_initialized : ℕ
ckr_cryptoki_already_initialized = 0x191

abbrev pub ck_invalid_handle : ℕ
ck_invalid_handle = 0

abbrev pub ckk_rsa : ℕ
ckk_rsa = 0

abbrev pub ckk_ec : ℕ
ckk_ec = 3

-- CKM_RSA_PKCS and CKM_ECDSA
abbrev pub ckm_rsa_pkcs : ℕ
ckm_rsa_pkcs = 1

abbrev pub ckm_ecdsa : ℕ
ckm_ecdsa = 0x1041

-- CKO_PRIVATE_KEY
abbrev pub cko_private_key : ℕ
cko_private_key = 3

-- An attribute of a search template: CKA_CLASS or CKA_LABEL
pub data Attribute : Type 0 where
  cka_class : ℕ → Attribute
  cka_label : List ℕ → Attribute

-- What the library's functions answer: a CK_RV, with what they write on success. The arguments are a slot, a session,
-- a PIN or label, a key, and a mechanism with the input.
pub record FunctionList : Type 0 where
  pub version_major : ℕ
  pub version_minor : ℕ
  pub initialize : ℕ
  pub get_info : ℕ
  pub count_slots : ℕ × ℕ
  pub get_slot_list : ℕ × List ℕ
  pub get_token_info : ℕ → ℕ × List ℕ
  pub open_session : ℕ → ℕ × ℕ
  pub login : ℕ → Option (List ℕ) → ℕ
  pub find_objects_init : ℕ → List Attribute → ℕ
  -- C_FindObjects of a session, for the search that C_FindObjectsInit began with a template, and at most so
  -- many objects
  pub find_objects : ℕ → List Attribute → ℕ → ℕ × List ℕ
  pub get_key_type : ℕ → ℕ → ℕ × ℕ
  pub find_objects_final : ℕ → ℕ
  pub decrypt_init : ℕ → ℕ → ℕ → ℕ
  pub decrypt_size : ℕ → List ℕ → ℕ × ℕ
  pub decrypt : ℕ → List ℕ → ℕ × List ℕ
  pub sign_init : ℕ → ℕ → ℕ → ℕ
  pub sign_size : ℕ → List ℕ → ℕ × ℕ
  pub sign : ℕ → List ℕ → ℕ × List ℕ
  -- ULONG_MAX of the platform
  pub ulong_max : ℕ
