-- ===== src/Pkcs11/Keys.antt =====
-- Sessions, keys and operations of source/pkcs11_lib.c: aws_pkcs11_lib_open_session, _login_user,
-- _find_private_key, _decrypt and _sign.
use aws_c_io.Base.{
  ℕ, Bool, true, false, ◌&&◌, ◌||◌, not, Option, none, some, List, [], ◌∷◌, ◌++◌, ◌==◌, ltb,
  if◌then◌else◌, length,
}
use aws_c_io.Pkcs11.{
  ck, key_not_found, key_type_unsupported, pin_incorrect, encoding_error,
  signature_algorithm_unsupported, digest_algorithm_unsupported, Result, ok, err, c_open_session,
  c_login, c_find_objects_init, c_find_objects_final, c_decrypt_init, c_sign_init, Logged,
  Attribute, cka_class, cka_label, cko_private_key, FunctionList, ckr_ok,
  ckr_user_already_logged_in, ck_invalid_handle, ckk_rsa, ckk_ec, ckm_rsa_pkcs, ckm_ecdsa,
}
use aws_c_io.Pkcs11.Asn1.{encode_signature}

-- aws_pkcs11_lib_open_session
unfoldable pub open_session : FunctionList → ℕ → Logged ℕ
open_session fl slot =
    let (rv, session) = fl.open_session slot in
    (if rv == ckr_ok then ok session else err (ck rv), c_open_session rv session ∷ [])

abbrev pub too_long : FunctionList → Option (List ℕ) → Bool
too_long fl none = false
too_long fl (some text) = ltb fl.ulong_max (length text)

-- aws_pkcs11_lib_login_user
unfoldable pub login_user : FunctionList → ℕ → Option (List ℕ) → Logged (Unit {0})
login_user fl session pin =
    let rv = fl.login session pin in
    if too_long fl pin then (err pin_incorrect, []) else (
      (if not (rv == ckr_ok) && not (rv == ckr_user_already_logged_in) then err (ck rv) else ok tt),
      c_login session ∷ [],
    )

-- The part of aws_pkcs11_lib_find_private_key between C_FindObjectsInit and C_FindObjectsFinal
abbrev pub choose_key : FunctionList → ℕ → List ℕ → Result (ℕ × ℕ)
choose_key fl session [] = err key_not_found
choose_key fl session (key ∷ found) =
    let (rv, key_type) = fl.get_key_type session key in
    if key == ck_invalid_handle
    then err key_not_found
    else if ltb 1 (length (key ∷ found))
    then err key_not_found
    else if not (rv == ckr_ok)
    then err (ck rv)
    else if (key_type == ckk_rsa) || (key_type == ckk_ec)
    then ok (key, key_type)
    else err key_type_unsupported

-- The search asks for two objects, to fail where there is more than one.
abbrev pub search_key : FunctionList → ℕ → List Attribute → Result (ℕ × ℕ)
search_key fl session attributes =
    let (rv, found) = fl.find_objects session attributes 2 in
    if not (rv == ckr_ok) then err (ck rv) else choose_key fl session found

-- An error of C_FindObjectsFinal counts if nothing failed before.
abbrev pub finalize_search : ℕ → Result (ℕ × ℕ) → Result (ℕ × ℕ)
finalize_search rv (ok key) = if not (rv == ckr_ok) then err (ck rv) else ok key
finalize_search rv (err e) = err e

-- The template of the search: private keys, with the label if there is one to match
abbrev pub search_attributes : Option (List ℕ) → List Attribute
search_attributes none = cka_class cko_private_key ∷ []
search_attributes (some label) = cka_class cko_private_key ∷ cka_label label ∷ []

-- aws_pkcs11_lib_find_private_key: the handle and the type of the key
unfoldable pub find_private_key : FunctionList → ℕ → Option (List ℕ) → Logged (ℕ × ℕ)
find_private_key fl session match_label =
    let attributes = search_attributes match_label in
    let rv = fl.find_objects_init session attributes in
    if too_long fl match_label
    then (err key_not_found, [])
    else if not (rv == ckr_ok)
    then (err (ck rv), c_find_objects_init rv ∷ [])
    else (
      finalize_search (fl.find_objects_final session) (search_key fl session attributes),
      c_find_objects_init rv ∷ c_find_objects_final session ∷ [],
    )

-- aws_pkcs11_lib_decrypt
unfoldable pub decrypt : FunctionList → ℕ → ℕ → ℕ → List ℕ → Logged (List ℕ)
decrypt fl session key key_type encrypted =
    let rv = fl.decrypt_init session ckm_rsa_pkcs key in
    let (rv_size, size) = fl.decrypt_size session encrypted in
    let (rv_decrypt, plain) = fl.decrypt session encrypted in
    if not (key_type == ckk_rsa) then (err key_type_unsupported, []) else (
      (if not (rv == ckr_ok)
          then err (ck rv)
          else if not (rv_size == ckr_ok)
          then err (ck rv_size)
          else if not (rv_decrypt == ckr_ok)
          then err (ck rv_decrypt)
          else ok plain),
      c_decrypt_init rv ∷ [],
    )

-- enum aws_tls_hash_algorithm and enum aws_tls_signature_algorithm
pub data HashAlgorithm : Type 0 where
  unknown_hash sha1 sha224 sha256 sha384 sha512 : HashAlgorithm

pub data SignatureAlgorithm : Type 0 where
  unknown_signature rsa ecdsa : SignatureAlgorithm

-- s_pkcs11_sign_helper
unfoldable pub sign_helper : FunctionList → ℕ → ℕ → ℕ → List ℕ → Logged (List ℕ)
sign_helper fl session key mechanism input =
    let rv = fl.sign_init session mechanism key in
    let (rv_size, size) = fl.sign_size session input in
    let (rv_sign, signature) = fl.sign session input in
    (
      (if not (rv == ckr_ok)
          then err (ck rv)
          else if not (rv_size == ckr_ok)
          then err (ck rv_size)
          else if not (rv_sign == ckr_ok)
          then err (ck rv_sign)
          else ok signature),
      c_sign_init rv ∷ [],
    )

-- SHA*_PREFIX_TO_RSA_SIG, and aws_get_prefix_to_rsa_sig; `none` is AWS_IO_TLS_DIGEST_ALGORITHM_UNSUPPORTED.
abbrev pub sha2_prefix : ℕ → ℕ → ℕ → List ℕ
sha2_prefix total oid size =
    0x30 ∷ total ∷ 0x30 ∷ 0x0d ∷ 0x06 ∷ 0x09 ∷ 0x60 ∷ 0x86 ∷ 0x48 ∷ 0x01 ∷ 0x65 ∷ 0x03 ∷ 0x04 ∷ 0x02
    ∷ oid ∷ 0x05 ∷ 0x00 ∷ 0x04 ∷ size ∷ []

abbrev pub prefix_to_rsa_sig : HashAlgorithm → Option (List ℕ)
prefix_to_rsa_sig unknown_hash = none
prefix_to_rsa_sig sha1 = some (
    0x30 ∷ 0x21 ∷ 0x30 ∷ 0x09 ∷ 0x06 ∷ 0x05 ∷ 0x2b ∷ 0x0e ∷ 0x03 ∷ 0x02 ∷ 0x1a ∷ 0x05 ∷ 0x00 ∷ 0x04
    ∷ 0x14 ∷ [])
prefix_to_rsa_sig sha224 = some (sha2_prefix 0x2d 0x04 0x1c)
prefix_to_rsa_sig sha256 = some (sha2_prefix 0x31 0x01 0x20)
prefix_to_rsa_sig sha384 = some (sha2_prefix 0x41 0x02 0x30)
prefix_to_rsa_sig sha512 = some (sha2_prefix 0x51 0x03 0x40)

abbrev pub is_rsa : SignatureAlgorithm → Bool
is_rsa rsa = true
is_rsa other = false

abbrev pub is_ecdsa : SignatureAlgorithm → Bool
is_ecdsa ecdsa = true
is_ecdsa other = false

abbrev pub sign_prefixed : FunctionList → ℕ → ℕ → List ℕ → Option (List ℕ) → Logged (List ℕ)
sign_prefixed fl session key digest none = (err digest_algorithm_unsupported, [])
sign_prefixed fl session key digest (some prefix) =
    sign_helper fl session key ckm_rsa_pkcs (prefix ++ digest)

-- s_pkcs11_sign_rsa
unfoldable pub sign_rsa :
    FunctionList → ℕ → ℕ → List ℕ → HashAlgorithm → SignatureAlgorithm → Logged (List ℕ)
unfolding sign_helper
sign_rsa fl session key digest digest_alg signature_alg =
    if not (is_rsa signature_alg)
    then (err signature_algorithm_unsupported, [])
    else sign_prefixed fl session key digest (prefix_to_rsa_sig digest_alg)

abbrev pub encode_part : Result (List ℕ) → Result (List ℕ)
encode_part (err e) = err e
encode_part (ok part) = elim (encode_signature part) [
  | none ↦ err encoding_error
  | some signature ↦ ok signature
]

-- s_pkcs11_sign_ecdsa
unfoldable pub sign_ecdsa : FunctionList → ℕ → ℕ → List ℕ → SignatureAlgorithm → Logged (List ℕ)
unfolding sign_helper
sign_ecdsa fl session key digest signature_alg =
    let (part, calls) = sign_helper fl session key ckm_ecdsa digest in
    if not (is_ecdsa signature_alg)
    then (err signature_algorithm_unsupported, [])
    else (encode_part part, calls)

-- aws_pkcs11_lib_sign
unfoldable pub sign :
    FunctionList → ℕ → ℕ → ℕ → List ℕ → HashAlgorithm → SignatureAlgorithm → Logged (List ℕ)
unfolding sign_rsa sign_ecdsa
sign fl session key key_type digest digest_alg signature_alg =
    if key_type == ckk_rsa
    then sign_rsa fl session key digest digest_alg signature_alg
    else if key_type == ckk_ec
    then sign_ecdsa fl session key digest signature_alg
    else (err key_type_unsupported, [])
