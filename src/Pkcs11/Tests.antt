-- ===== src/Pkcs11/Tests.antt =====
-- Runs of source/pkcs11_lib.c and source/pkcs11_tls_op_handler.c with a library of one token.
use aws_c_io.Base.{
  ℕ, zero, suc, ◌+◌, ◌≡◌, true, Option, none, some, List, [], ◌∷◌, ◌++◌, ◌==◌, if◌then◌else◌, refl,
  take, arith, is_some,
}
use aws_c_io.Pkcs11.{token_not_found, key_not_found, ok, err, tally, FunctionList}
use aws_c_io.Pkcs11.Asn1.{encode_signature, asn1_enc_ubigint}
use aws_c_io.Pkcs11.Integer.{value, read_signature}
use aws_c_io.Pkcs11.Der.{
  first_half, second_half, well_sized, read_signature-encode_signature, encode_signature_iff,
}
use aws_c_io.Pkcs11.Slots.{
  find_slot_with_token, verdicts, only_match, find_slot_with_token-only_match,
}
use aws_c_io.Pkcs11.Keys.{find_private_key, sha256, ecdsa}
use aws_c_io.Pkcs11.Choice.{
  TokenObject, handles, satisfies, IsSearch, IsOnlyKey, find_private_key-only, read_digest_info,
  read_digest_info-prefix,
}
use aws_c_io.Pkcs11.Loading.{
  Loaded, strict_initialize_finalize, lib_new, acquire, release, change_all, obtained, held,
  remaining, first_references, is_none_left, finalized, initialized, lib_life-owed,
}
use aws_c_io.Pkcs11.Handler.{
  sign_operation, unknown_operation, handler_life, is_opening, is_closing, is_beginning, is_ending,
}
use aws_c_io.Pkcs11.Balance.{handler_life-Balanced}

abbrev signature : List ℕ
signature = 0x00 ∷ 0x81 ∷ 0x7f ∷ 0x02 ∷ []

-- Two private keys, and a certificate
abbrev objects : List TokenObject
objects =
    record { handle = 8; object_class = 3; label = 107 ∷ 49 ∷ [] }
    ∷ record { handle = 9; object_class = 3; label = 107 ∷ 50 ∷ [] }
    ∷ record { handle = 10; object_class = 1; label = 107 ∷ 50 ∷ [] }
    ∷ []

abbrev k2 : Option (List ℕ)
k2 = some (107 ∷ 50 ∷ [])

-- Three slots; the second has the token "ab".
abbrev token : FunctionList
token = record {
  version_major = 2;
  version_minor = 40;
  initialize = 0;
  get_info = 0;
  count_slots = (0, 3);
  get_slot_list = (0, 4 ∷ 5 ∷ 6 ∷ []);
  get_token_info = λ slot. if slot == 5 then (0, 97 ∷ 98 ∷ 32 ∷ 32 ∷ []) else (0, 99 ∷ 32 ∷ []);
  open_session = λ slot. (0, slot + 100);
  login = λ session pin. 0x100;
  find_objects_init = λ session attributes. 0;
  find_objects = λ session attributes most. (0, take most (handles (satisfies attributes) objects));
  get_key_type = λ session key. (0, 3);
  find_objects_final = λ session. 0;
  decrypt_init = λ session mechanism key. 0;
  decrypt_size = λ session input. (0, 0);
  decrypt = λ session input. (0, []);
  sign_init = λ session mechanism key. 0;
  sign_size = λ session input. (0, 4);
  sign = λ session input. (0, signature);
  ulong_max = 0xffffffff;
}

abbrev ab : Option (List ℕ)
ab = some (97 ∷ 98 ∷ [])

-- 0x0081 is an INTEGER of two bytes, since its first bit is set.
encoded_signature :
    encode_signature signature
    ≡ some (0x30 ∷ 8 ∷ 0x02 ∷ 2 ∷ 0x00 ∷ 0x81 ∷ 0x02 ∷ 2 ∷ 0x7f ∷ 0x02 ∷ [])
unfolding encode_signature asn1_enc_ubigint
encoded_signature = refl

read_signature-encode_signature_example :
    read_signature (0x30 ∷ 8 ∷ 0x02 ∷ 2 ∷ 0x00 ∷ 0x81 ∷ 0x02 ∷ 2 ∷ 0x7f ∷ 0x02 ∷ [])
    ≡ some (value (first_half signature), value (second_half signature))
read_signature-encode_signature_example =
    read_signature-encode_signature signature encoded_signature

abbrev ones : ℕ → List ℕ
ones zero = []
ones (suc n) = 1 ∷ ones n

-- The signature of a key on the curve P-521 has two numbers of 66 bytes.
p521_refused : encode_signature (ones 132) ≡ none
unfolding encode_signature asn1_enc_ubigint
p521_refused = refl

encode_signature_iff_example : is_some (encode_signature (ones 132)) ≡ well_sized (ones 132)
encode_signature_iff_example = encode_signature_iff (ones 132)

find_slot_with_token-only_match_example :
    find_slot_with_token token none ab ≡ only_match (verdicts token none ab (4 ∷ 5 ∷ 6 ∷ []))
find_slot_with_token-only_match_example =
    find_slot_with_token-only_match token none ab refl refl refl

-- Two tokens have the other label.
slot_found : only_match (verdicts token none ab (4 ∷ 5 ∷ 6 ∷ [])) ≡ ok 5
slot_found = refl

slot_not_unique :
    only_match (verdicts token none (some (99 ∷ [])) (4 ∷ 5 ∷ 6 ∷ [])) ≡ err token_not_found
slot_not_unique = refl

found : (find_private_key token 105 k2).0 ≡ ok (9, 3)
unfolding find_private_key
found = refl

-- Without a label, there are two keys.
not_unique : (find_private_key token 105 none).0 ≡ err key_not_found
unfolding find_private_key
not_unique = refl

token-IsSearch : IsSearch token 105 objects
token-IsSearch = record { answers = λ attributes most h. refl }

find_private_key-only_example : IsOnlyKey token objects 105 k2 9 3
find_private_key-only_example = find_private_key-only token objects 105 k2 token-IsSearch found

sha256_digest_info :
    read_digest_info (
      0x30
      ∷ 0x31
      ∷ 0x30
      ∷ 0x0d
      ∷ 0x06
      ∷ 0x09
      ∷ 0x60
      ∷ 0x86
      ∷ 0x48
      ∷ 0x01
      ∷ 0x65
      ∷ 0x03
      ∷ 0x04
      ∷ 0x02
      ∷ 0x01
      ∷ 0x05
      ∷ 0x00
      ∷ 0x04
      ∷ 0x20
      ∷ ones 32)
    ≡ some (ones 32)
sha256_digest_info = read_digest_info-prefix sha256 (ones 32) refl refl

abbrev loaded : Loaded
loaded = record { library_found = true; function_found = true; get_function_list = 0 }

lib_life-owed_example :
    let (made, calls) = lib_new loaded token strict_initialize_finalize in
    let (left, more) = change_all (acquire ∷ release ∷ release ∷ []) (obtained made) in
    let references = remaining (acquire ∷ release ∷ release ∷ []) (first_references made) in
    (held left ≡ references)
    × (finalized (calls ++ more) ≡ (if is_none_left references then initialized calls else 0))
lib_life-owed_example =
    lib_life-owed loaded token strict_initialize_finalize (acquire ∷ release ∷ release ∷ [])

handler_life-Balanced_example :
    let calls =
      handler_life token none ab k2 none
        (sign_operation (1 ∷ []) sha256 ecdsa ∷ unknown_operation ∷ []) in
    (tally is_opening calls ≡ tally is_closing calls)
    × (tally is_beginning calls ≡ tally is_ending calls)
handler_life-Balanced_example =
    handler_life-Balanced token none ab k2 none
      (sign_operation (1 ∷ []) sha256 ecdsa ∷ unknown_operation ∷ []) (λ slot h. ground arith)
