-- ===== src/Pkcs11/Der.antt =====
-- The signatures that s_pkcs11_sign_ecdsa of source/pkcs11_lib.c encodes, read by a reader of DER.
use aws_c_io.Base.{
  length-take, ℕ, ◌+◌, ◌/◌, ◌%◌, ◌≤◌, ◌≡◌, Bool, true, ◌||◌, ◌&&◌, not, Option, none, some, List,
  [], ◌∷◌, ◌++◌, ◌==◌, leb, if◌then◌else◌, length, take, drop, refl, arith, Bool-cases, inl, inr,
  length-append, is_some, append-nil, ap, ==_iff, sym, ◌∙◌,
}
use aws_c_io.Pkcs11.Asn1.{ByteBuf, pair_signature, pair_parts, encode_signature}
use aws_c_io.Pkcs11.Integer.{
  asn1_enc_ubigint_lem, contents, read_integer, read_integer-contents, read_signature, value,
}

-- The two halves of a signature, and the lengths of their encodings
abbrev pub first_half : List ℕ → List ℕ
first_half part = take (length part / 2) part

abbrev pub second_half : List ℕ → List ℕ
second_half part = take (length part / 2) (drop (length part / 2) part)

abbrev pub der_size : List ℕ → ℕ
der_size bigint = length (2 ∷ length (contents bigint) ∷ contents bigint)

abbrev encoded : List ℕ → List ℕ
encoded c = 2 ∷ length c ∷ c

abbrev whole_buf : List ℕ → ℕ → Option ByteBuf
whole_buf c n =
    if leb (length c) 127 then some (record { bytes = encoded c; capacity = n }) else none

pair_signature_lem :
    (r s : ByteBuf)
    → pair_signature r s ≡ (
        if leb (length r.bytes + length s.bytes) 127
        then some (0x30 ∷ (length r.bytes + length s.bytes) ∷ (r.bytes ++ s.bytes))
        else none)
pair_signature_lem r s = ground arith

pair_parts-whole :
    (a b : List ℕ) (n : ℕ)
    → pair_parts (whole_buf a n) (whole_buf b n) ≡ (
        if leb (length (encoded a) + length (encoded b)) 127
        then some (0x30 ∷ (length (encoded a) + length (encoded b)) ∷ (encoded a ++ encoded b))
        else none)
pair_parts-whole a b n = elim (Bool-cases (leb (length a) 127)) [
  | inl p ↦ elim (Bool-cases (leb (length b) 127)) [
    | inl q ↦
        rw (p, q)
          (pair_signature_lem (record { bytes = encoded a; capacity = n })
            (record { bytes = encoded b; capacity = n }))
    | inr q ↦ rw (p, q) (ground arith)
  ]
  | inr p ↦ rw p (ground arith)
]

-- Whether a signature has two halves, whose encodings fit in a SEQUENCE with a length of one byte
abbrev pub well_sized : List ℕ → Bool
well_sized part =
    not ((length part == 0) || (length part % 2 == 1))
    && leb (der_size (first_half part) + der_size (second_half part)) 127

abbrev sequence : List ℕ → List ℕ → List ℕ
sequence x y = 0x30 ∷ (der_size x + der_size y) ∷ (encoded (contents x) ++ encoded (contents y))

encode_signature_lem :
    (part : List ℕ)
    → encode_signature part
      ≡ (if well_sized part then some (sequence (first_half part) (second_half part)) else none)
unfolding encode_signature
encode_signature_lem part = elim (Bool-cases ((length part == 0) || (length part % 2 == 1))) [
  | inl q ↦ rw q refl
  | inr q ↦ rw q (
      rw
        (
          asn1_enc_ubigint_lem (first_half part) (length part / 2 + 4)
              (omega (arith, length-take (length part / 2) part)),
          asn1_enc_ubigint_lem (second_half part) (length part / 2 + 4)
              (omega (arith, length-take (length part / 2) (drop (length part / 2) part))),
        )
        (pair_parts-whole (contents (first_half part)) (contents (second_half part))
          (length part / 2 + 4)))
]

read_signature-encoded :
    (x y : List ℕ)
    → der_size x + der_size y ≤ 127
    → read_signature (sequence x y) ≡ some (value x, value y)
read_signature-encoded x y h =
    let sized : (der_size x + der_size y == length (encoded (contents x) ++ encoded (contents y)))
        ≡ true =
      (==_iff _ _).1 (omega (arith, length-append (encoded (contents x)) (encoded (contents y)))) in
    let short : leb (der_size x + der_size y) 127 ≡ true = ground arith in
    let last : read_integer (encoded (contents y)) ≡ some (value y, []) =
      ap read_integer (ap (λ c. 2 ∷ length (contents y) ∷ c) (sym (append-nil (contents y))))
      ∙ read_integer-contents y [] (omega arith) in
    rw (sized, short)
      (rw (read_integer-contents x (encoded (contents y)) (omega arith)) (rw last refl))

-- Every signature that s_pkcs11_sign_ecdsa encodes is a DER sequence of two shortest integers, which are the halves
-- that the PKCS#11 library answered, read as big-endian numbers.
pub read_signature-encode_signature :
    (part : List ℕ) {out : List ℕ}
    → encode_signature part ≡ some out
    → read_signature out ≡ some (value (first_half part), value (second_half part))
read_signature-encode_signature part {out} h = elim (Bool-cases (well_sized part)) [
  | inl q ↦
      let made : encode_signature part ≡ some (sequence (first_half part) (second_half part)) =
        encode_signature_lem part ∙ rw q refl in
      let same : out ≡ sequence (first_half part) (second_half part) = cc in
      rw same (read_signature-encoded (first_half part) (second_half part) (ground (arith, q)))
  | inr q ↦ absurd (ground (arith, h, q, encode_signature_lem part))
]

-- A signature is encoded exactly if it has two halves of the same length, and their encodings have 127 bytes or fewer.
pub encode_signature_iff : (part : List ℕ) → is_some (encode_signature part) ≡ well_sized part
encode_signature_iff part = elim (Bool-cases (well_sized part)) [
  | inl q ↦ rw (encode_signature_lem part, q) refl
  | inr q ↦ rw (encode_signature_lem part, q) refl
]
