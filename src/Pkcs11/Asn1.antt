-- ===== src/Pkcs11/Asn1.antt =====
-- The ASN.1 encoding of source/pkcs11_lib.c: s_asn1_enc_prefix, aws_pkcs11_asn1_enc_ubigint and what
-- s_pkcs11_sign_ecdsa makes of the two numbers of a signature.
use aws_c_io.Base.{
  ℕ, ◌+◌, ◌/◌, ◌%◌, Bool, true, ◌||◌, Option, none, some, List, [], ◌∷◌, ◌++◌, ◌==◌, ltb, leb,
  if◌then◌else◌, length, take, drop,
}

-- A struct aws_byte_buf of a fixed capacity
pub record ByteBuf : Type 0 where
  pub bytes : List ℕ
  pub capacity : ℕ

abbrev pub empty_buf : ℕ → ByteBuf
empty_buf n = record { bytes = []; capacity = n }

-- aws_byte_buf_write and its kin; `none` where the bytes do not fit
abbrev pub write : List ℕ → ByteBuf → Option ByteBuf
write xs buf =
    if leb (length buf.bytes + length xs) buf.capacity
    then some (record buf { bytes = buf.bytes ++ xs })
    else none

abbrev pub then_write : Option ByteBuf → (ByteBuf → Option ByteBuf) → Option ByteBuf
then_write none f = none
then_write (some buf) f = f buf

-- s_asn1_enc_prefix; `none` is AWS_ERROR_PKCS11_ENCODING_ERROR, here and below.
abbrev pub asn1_enc_prefix : ℕ → ℕ → ByteBuf → Option ByteBuf
asn1_enc_prefix identifier len buf =
    if (identifier % 32 == 31) || ltb 127 len then none else write (identifier ∷ len ∷ []) buf

abbrev pub trim_zeros : List ℕ → List ℕ
trim_zeros [] = []
trim_zeros (c ∷ cs) = if c == 0 then trim_zeros cs else c ∷ cs

-- `bigint.ptr[0] & 0x80` of a byte is that the byte is 128 at least.
abbrev pub add_leading_zero : List ℕ → Bool
add_leading_zero [] = true
add_leading_zero (c ∷ cs) = leb 128 c

-- aws_pkcs11_asn1_enc_ubigint
unfoldable pub asn1_enc_ubigint : List ℕ → ByteBuf → Option ByteBuf
asn1_enc_ubigint bigint buf =
    let trimmed = trim_zeros bigint in
    let leading = add_leading_zero trimmed in
    then_write
      (then_write (asn1_enc_prefix 2 (length trimmed + (if leading then 1 else 0)) buf)
        (λ b. if leading then write (0 ∷ []) b else some b))
      (write trimmed)

-- What the end of s_pkcs11_sign_ecdsa makes of the two parts
abbrev pub pair_signature : ByteBuf → ByteBuf → Option (List ℕ)
pair_signature r_part s_part =
    let pair_len = length r_part.bytes + length s_part.bytes in
    let out =
      then_write
        (then_write (asn1_enc_prefix 0x30 pair_len (empty_buf (pair_len + 2))) (write r_part.bytes))
        (write s_part.bytes) in
    elim out [ none ↦ none | some buf ↦ some buf.bytes ]

abbrev pub pair_parts : Option ByteBuf → Option ByteBuf → Option (List ℕ)
pair_parts none s = none
pair_parts (some r) none = none
pair_parts (some r) (some s) = pair_signature r s

-- The part of s_pkcs11_sign_ecdsa behind s_pkcs11_sign_helper
unfoldable pub encode_signature : List ℕ → Option (List ℕ)
encode_signature part =
    if (length part == 0) || (length part % 2 == 1)
    then none
    else let num_bytes = length part / 2 in
      pair_parts (asn1_enc_ubigint (take num_bytes part) (empty_buf (num_bytes + 4)))
        (asn1_enc_ubigint (take num_bytes (drop num_bytes part)) (empty_buf (num_bytes + 4)))
