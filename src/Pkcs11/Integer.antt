-- ===== src/Pkcs11/Integer.antt =====
-- The INTEGERs that aws_pkcs11_asn1_enc_ubigint of source/pkcs11_lib.c writes, read by a reader of DER.
use aws_c_io.Base.{
  take-append, drop-append, ℕ, ◌+◌, ◌*◌, ◌≤◌, ◌≡◌, Bool, true, false, ◌||◌, ◌&&◌, not, Option, none,
  some, List, [], ◌∷◌, ◌++◌, ◌==◌, ltb, leb, if◌then◌else◌, length, take, drop, refl, arith,
  Bool-cases, inl, inr, length-append, ap, ==_iff, ◌∙◌,
}
use aws_c_io.Pkcs11.Asn1.{
  ByteBuf, empty_buf, write, then_write, asn1_enc_prefix, trim_zeros, add_leading_zero,
  asn1_enc_ubigint,
}

-- The contents of an INTEGER
abbrev pub contents : List ℕ → List ℕ
contents bigint = let t = trim_zeros bigint in if add_leading_zero t then 0 ∷ t else t

length-trim_zeros : (xs : List ℕ) → length (trim_zeros xs) ≤ length xs
length-trim_zeros [] = omega arith
length-trim_zeros (x ∷ xs) = ground (arith, length-trim_zeros xs)

abbrev whole : List ℕ → ℕ → Option ByteBuf
whole bigint n =
    if leb (length (contents bigint)) 127
    then some (record { bytes = 2 ∷ length (contents bigint) ∷ contents bigint; capacity = n })
    else none

abbrev written : Bool → List ℕ → ℕ → Option ByteBuf
written leading t n =
    then_write
      (then_write (asn1_enc_prefix 2 (length t + (if leading then 1 else 0)) (empty_buf n))
        (λ b. if leading then write (0 ∷ []) b else some b))
      (write t)

written_lem :
    (leading : Bool) (t : List ℕ) (n : ℕ)
    → length t + 4 ≤ n
    → let all = if leading then 0 ∷ t else t in
      written leading t n ≡ (
        if leb (length all) 127
        then some (record { bytes = 2 ∷ length all ∷ all; capacity = n })
        else none)
written_lem true t n h = ground arith
written_lem false t n h = ground arith

-- A buffer with four bytes more than the number has is large enough.
pub asn1_enc_ubigint_lem :
    (bigint : List ℕ) (n : ℕ)
    → length bigint + 4 ≤ n
    → asn1_enc_ubigint bigint (empty_buf n) ≡ whole bigint n
unfolding asn1_enc_ubigint
asn1_enc_ubigint_lem bigint n h =
    written_lem (add_leading_zero (trim_zeros bigint)) (trim_zeros bigint) n
      (omega (arith, h, length-trim_zeros bigint))

-- The number that big-endian bytes stand for
abbrev pub value_from : ℕ → List ℕ → ℕ
value_from acc [] = acc
value_from acc (x ∷ xs) = value_from (acc * 256 + x) xs

abbrev pub value : List ℕ → ℕ
value xs = value_from 0 xs

-- Whether the contents of an INTEGER are the shortest for a number that is not negative
abbrev pub minimal : List ℕ → Bool
minimal [] = false
minimal (x ∷ []) = ltb x 128
minimal (x ∷ y ∷ ys) = ltb x 128 && (not (x == 0) || leb 128 y)

minimal_first :
    (x : ℕ) (xs : List ℕ)
    → (x == 0) ≡ false
    → minimal (if leb 128 x then 0 ∷ x ∷ xs else x ∷ xs) ≡ true
minimal_first x [] h = ground arith
minimal_first x (y ∷ ys) h = ground arith

minimal-contents : (bigint : List ℕ) → minimal (contents bigint) ≡ true
minimal-contents [] = refl
minimal-contents (x ∷ xs) = elim (Bool-cases (x == 0)) [
  | inl q ↦ rw q (minimal-contents xs)
  | inr q ↦ rw q (minimal_first x xs q)
]

value-trim_zeros : (xs : List ℕ) → value (trim_zeros xs) ≡ value xs
value-trim_zeros [] = refl
value-trim_zeros (x ∷ xs) = elim (Bool-cases (x == 0)) [
  | inl q ↦ rw q (value-trim_zeros xs ∙ ap (λ n. value_from n xs) (omega (arith, (==_iff x 0).0 q)))
  | inr q ↦ rw q refl
]

value-leading : (b : Bool) (t : List ℕ) → value (if b then 0 ∷ t else t) ≡ value t
value-leading true t = refl
value-leading false t = refl

value-contents : (bigint : List ℕ) → value (contents bigint) ≡ value bigint
value-contents bigint =
    value-leading (add_leading_zero (trim_zeros bigint)) (trim_zeros bigint)
    ∙ value-trim_zeros bigint

-- An INTEGER, with the bytes behind it
abbrev pub read_integer : List ℕ → Option (ℕ × List ℕ)
read_integer [] = none
read_integer (t ∷ []) = none
read_integer (t ∷ n ∷ rest) =
    if (t == 2) && leb n 127 && leb n (length rest) && minimal (take n rest)
    then some (value (take n rest), drop n rest)
    else none

abbrev pub read_last : ℕ → Option (ℕ × List ℕ) → Option (ℕ × ℕ)
read_last r none = none
read_last r (some (s, [])) = some (r, s)
read_last r (some (s, x ∷ xs)) = none

abbrev pub read_second : Option (ℕ × List ℕ) → Option (ℕ × ℕ)
read_second none = none
read_second (some (r, rest)) = read_last r (read_integer rest)

-- A SEQUENCE of two INTEGERs
abbrev pub read_signature : List ℕ → Option (ℕ × ℕ)
read_signature [] = none
read_signature (t ∷ []) = none
read_signature (t ∷ n ∷ rest) =
    if (t == 0x30) && leb n 127 && (n == length rest) then read_second (read_integer rest) else none

read_integer-append :
    (c rest : List ℕ)
    → length c ≤ 127
    → minimal c ≡ true
    → read_integer (2 ∷ length c ∷ (c ++ rest)) ≡ some (value c, rest)
read_integer-append c rest h m =
    rw (take-append c rest, drop-append c rest, m) (ground (arith, length-append c rest))

pub read_integer-contents :
    (bigint rest : List ℕ)
    → length (contents bigint) ≤ 127
    → read_integer (2 ∷ length (contents bigint) ∷ (contents bigint ++ rest))
      ≡ some (value bigint, rest)
read_integer-contents bigint rest h =
    read_integer-append (contents bigint) rest h (minimal-contents bigint)
    ∙ ap (λ v. some (v, rest)) (value-contents bigint)
