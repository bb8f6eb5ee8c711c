-- ===== src/Pem.antt =====
-- source/pem.c: the types of PEM objects and the parse of a PEM file. Text is a list of bytes.
pub mod Types
pub mod Parse
pub mod Sanitize
pub mod Ends
pub mod Rejects
mod Tests
use aws_c_io.Base.{
  ℕ, ◌+◌, ◌-◌, Bool, true, false, ◌&&◌, List, [], ◌∷◌, ◌==◌, if◌then◌else◌, leb, length, take, drop,
  u64, u64_mod, u64_max, ◌/◌, Option, none, some,
}

-- enum aws_pem_object_type
pub data PemType : Type 0 where
  unknown x509_old x509 x509_trusted x509_req_old x509_req x509_crl evp_pkey public_pkcs8
        private_rsa_pkcs1 public_rsa_pkcs1 private_dsa_pkcs1 public_dsa_pkcs1 pkcs7
        pkcs7_signed_data private_pkcs8_encrypted private_pkcs8 dh_parameters dh_parameters_x942
        ssl_session_parameters dsa_parameters ecdsa_public ec_parameters ec_private parameters cms
        sm2_parameters :
      PemType

-- aws_byte_cursor_eq
abbrev pub cursor_eq : List ℕ → List ℕ → Bool
cursor_eq [] [] = true
cursor_eq [] (y ∷ ys) = false
cursor_eq (x ∷ xs) [] = false
cursor_eq (x ∷ xs) (y ∷ ys) = if x == y then cursor_eq xs ys else false

-- aws_byte_cursor_starts_with
abbrev pub starts_with : List ℕ → List ℕ → Bool
starts_with xs [] = true
starts_with [] (y ∷ ys) = false
starts_with (x ∷ xs) (y ∷ ys) = if x == y then starts_with xs ys else false

-- The names of the types, the s_pem_type_*_cur.

-- X509 CERTIFICATE
abbrev pub x509_old_name : List ℕ
x509_old_name = 88 ∷ 53 ∷ 48 ∷ 57 ∷ 32 ∷ 67 ∷ 69 ∷ 82 ∷ 84 ∷ 73 ∷ 70 ∷ 73 ∷ 67 ∷ 65 ∷ 84 ∷ 69 ∷ []

-- CERTIFICATE
abbrev pub x509_name : List ℕ
x509_name = 67 ∷ 69 ∷ 82 ∷ 84 ∷ 73 ∷ 70 ∷ 73 ∷ 67 ∷ 65 ∷ 84 ∷ 69 ∷ []

-- TRUSTED CERTIFICATE
abbrev pub x509_trusted_name : List ℕ
x509_trusted_name =
    84 ∷ 82 ∷ 85 ∷ 83 ∷ 84 ∷ 69 ∷ 68 ∷ 32 ∷ 67 ∷ 69 ∷ 82 ∷ 84 ∷ 73 ∷ 70 ∷ 73 ∷ 67 ∷ 65 ∷ 84 ∷ 69
    ∷ []

-- NEW CERTIFICATE REQUEST
abbrev pub x509_req_old_name : List ℕ
x509_req_old_name =
    78 ∷ 69 ∷ 87 ∷ 32 ∷ 67 ∷ 69 ∷ 82 ∷ 84 ∷ 73 ∷ 70 ∷ 73 ∷ 67 ∷ 65 ∷ 84 ∷ 69 ∷ 32 ∷ 82 ∷ 69 ∷ 81
    ∷ 85 ∷ 69 ∷ 83 ∷ 84 ∷ []

-- CERTIFICATE REQUEST
abbrev pub x509_req_name : List ℕ
x509_req_name =
    67 ∷ 69 ∷ 82 ∷ 84 ∷ 73 ∷ 70 ∷ 73 ∷ 67 ∷ 65 ∷ 84 ∷ 69 ∷ 32 ∷ 82 ∷ 69 ∷ 81 ∷ 85 ∷ 69 ∷ 83 ∷ 84
    ∷ []

-- X509 CRL
abbrev pub x509_crl_name : List ℕ
x509_crl_name = 88 ∷ 53 ∷ 48 ∷ 57 ∷ 32 ∷ 67 ∷ 82 ∷ 76 ∷ []

-- ANY PRIVATE KEY
abbrev pub evp_pkey_name : List ℕ
evp_pkey_name = 65 ∷ 78 ∷ 89 ∷ 32 ∷ 80 ∷ 82 ∷ 73 ∷ 86 ∷ 65 ∷ 84 ∷ 69 ∷ 32 ∷ 75 ∷ 69 ∷ 89 ∷ []

-- PUBLIC KEY
abbrev pub public_pkcs8_name : List ℕ
public_pkcs8_name = 80 ∷ 85 ∷ 66 ∷ 76 ∷ 73 ∷ 67 ∷ 32 ∷ 75 ∷ 69 ∷ 89 ∷ []

-- RSA PRIVATE KEY
abbrev pub private_rsa_pkcs1_name : List ℕ
private_rsa_pkcs1_name =
    82 ∷ 83 ∷ 65 ∷ 32 ∷ 80 ∷ 82 ∷ 73 ∷ 86 ∷ 65 ∷ 84 ∷ 69 ∷ 32 ∷ 75 ∷ 69 ∷ 89 ∷ []

-- RSA PUBLIC KEY
abbrev pub public_rsa_pkcs1_name : List ℕ
public_rsa_pkcs1_name = 82 ∷ 83 ∷ 65 ∷ 32 ∷ 80 ∷ 85 ∷ 66 ∷ 76 ∷ 73 ∷ 67 ∷ 32 ∷ 75 ∷ 69 ∷ 89 ∷ []

-- RSA PRIVATE KEY
abbrev pub private_dsa_pkcs1_name : List ℕ
private_dsa_pkcs1_name =
    82 ∷ 83 ∷ 65 ∷ 32 ∷ 80 ∷ 82 ∷ 73 ∷ 86 ∷ 65 ∷ 84 ∷ 69 ∷ 32 ∷ 75 ∷ 69 ∷ 89 ∷ []

-- RSA PUBLIC KEY
abbrev pub public_dsa_pkcs1_name : List ℕ
public_dsa_pkcs1_name = 82 ∷ 83 ∷ 65 ∷ 32 ∷ 80 ∷ 85 ∷ 66 ∷ 76 ∷ 73 ∷ 67 ∷ 32 ∷ 75 ∷ 69 ∷ 89 ∷ []

-- PKCS7
abbrev pub pkcs7_name : List ℕ
pkcs7_name = 80 ∷ 75 ∷ 67 ∷ 83 ∷ 55 ∷ []

-- PKCS #7 SIGNED DATA
abbrev pub pkcs7_signed_data_name : List ℕ
pkcs7_signed_data_name =
    80 ∷ 75 ∷ 67 ∷ 83 ∷ 32 ∷ 35 ∷ 55 ∷ 32 ∷ 83 ∷ 73 ∷ 71 ∷ 78 ∷ 69 ∷ 68 ∷ 32 ∷ 68 ∷ 65 ∷ 84 ∷ 65
    ∷ []

-- ENCRYPTED PRIVATE KEY
abbrev pub private_pkcs8_encrypted_name : List ℕ
private_pkcs8_encrypted_name =
    69 ∷ 78 ∷ 67 ∷ 82 ∷ 89 ∷ 80 ∷ 84 ∷ 69 ∷ 68 ∷ 32 ∷ 80 ∷ 82 ∷ 73 ∷ 86 ∷ 65 ∷ 84 ∷ 69 ∷ 32 ∷ 75
    ∷ 69 ∷ 89 ∷ []

-- PRIVATE KEY
abbrev pub private_pkcs8_name : List ℕ
private_pkcs8_name = 80 ∷ 82 ∷ 73 ∷ 86 ∷ 65 ∷ 84 ∷ 69 ∷ 32 ∷ 75 ∷ 69 ∷ 89 ∷ []

-- DH PARAMETERS
abbrev pub dh_parameters_name : List ℕ
dh_parameters_name = 68 ∷ 72 ∷ 32 ∷ 80 ∷ 65 ∷ 82 ∷ 65 ∷ 77 ∷ 69 ∷ 84 ∷ 69 ∷ 82 ∷ 83 ∷ []

-- X9.42 DH PARAMETERS
abbrev pub dh_parameters_x942_name : List ℕ
dh_parameters_x942_name =
    88 ∷ 57 ∷ 46 ∷ 52 ∷ 50 ∷ 32 ∷ 68 ∷ 72 ∷ 32 ∷ 80 ∷ 65 ∷ 82 ∷ 65 ∷ 77 ∷ 69 ∷ 84 ∷ 69 ∷ 82 ∷ 83
    ∷ []

-- SSL SESSION PARAMETERS
abbrev pub ssl_session_parameters_name : List ℕ
ssl_session_parameters_name =
    83 ∷ 83 ∷ 76 ∷ 32 ∷ 83 ∷ 69 ∷ 83 ∷ 83 ∷ 73 ∷ 79 ∷ 78 ∷ 32 ∷ 80 ∷ 65 ∷ 82 ∷ 65 ∷ 77 ∷ 69 ∷ 84
    ∷ 69 ∷ 82 ∷ 83 ∷ []

-- DSA PARAMETERS
abbrev pub dsa_parameters_name : List ℕ
dsa_parameters_name = 68 ∷ 83 ∷ 65 ∷ 32 ∷ 80 ∷ 65 ∷ 82 ∷ 65 ∷ 77 ∷ 69 ∷ 84 ∷ 69 ∷ 82 ∷ 83 ∷ []

-- ECDSA PUBLIC KEY
abbrev pub ecdsa_public_name : List ℕ
ecdsa_public_name =
    69 ∷ 67 ∷ 68 ∷ 83 ∷ 65 ∷ 32 ∷ 80 ∷ 85 ∷ 66 ∷ 76 ∷ 73 ∷ 67 ∷ 32 ∷ 75 ∷ 69 ∷ 89 ∷ []

-- EC PARAMETERS
abbrev pub ec_parameters_name : List ℕ
ec_parameters_name = 69 ∷ 67 ∷ 32 ∷ 80 ∷ 65 ∷ 82 ∷ 65 ∷ 77 ∷ 69 ∷ 84 ∷ 69 ∷ 82 ∷ 83 ∷ []

-- EC PRIVATE KEY
abbrev pub ec_private_name : List ℕ
ec_private_name = 69 ∷ 67 ∷ 32 ∷ 80 ∷ 82 ∷ 73 ∷ 86 ∷ 65 ∷ 84 ∷ 69 ∷ 32 ∷ 75 ∷ 69 ∷ 89 ∷ []

-- PARAMETERS
abbrev pub parameters_name : List ℕ
parameters_name = 80 ∷ 65 ∷ 82 ∷ 65 ∷ 77 ∷ 69 ∷ 84 ∷ 69 ∷ 82 ∷ 83 ∷ []

-- CMS
abbrev pub cms_name : List ℕ
cms_name = 67 ∷ 77 ∷ 83 ∷ []

-- SM2 PARAMETERS
abbrev pub sm2_parameters_name : List ℕ
sm2_parameters_name = 83 ∷ 77 ∷ 50 ∷ 32 ∷ 80 ∷ 65 ∷ 82 ∷ 65 ∷ 77 ∷ 69 ∷ 84 ∷ 69 ∷ 82 ∷ 83 ∷ []

-- s_map_type_cur_to_type
pub map_type : List ℕ → PemType
map_type cur =
    if cursor_eq cur x509_old_name
    then x509_old
    else if cursor_eq cur x509_name
    then x509
    else if cursor_eq cur x509_trusted_name
    then x509_trusted
    else if cursor_eq cur x509_req_old_name
    then x509_req_old
    else if cursor_eq cur x509_req_name
    then x509_req
    else if cursor_eq cur x509_crl_name
    then x509_crl
    else if cursor_eq cur evp_pkey_name
    then evp_pkey
    else if cursor_eq cur public_pkcs8_name
    then public_pkcs8
    else if cursor_eq cur private_rsa_pkcs1_name
    then private_rsa_pkcs1
    else if cursor_eq cur public_rsa_pkcs1_name
    then public_rsa_pkcs1
    else if cursor_eq cur private_dsa_pkcs1_name
    then private_dsa_pkcs1
    else if cursor_eq cur public_dsa_pkcs1_name
    then public_dsa_pkcs1
    else if cursor_eq cur pkcs7_name
    then pkcs7
    else if cursor_eq cur pkcs7_signed_data_name
    then pkcs7_signed_data
    else if cursor_eq cur private_pkcs8_encrypted_name
    then private_pkcs8_encrypted
    else if cursor_eq cur private_pkcs8_name
    then private_pkcs8
    else if cursor_eq cur dh_parameters_name
    then dh_parameters
    else if cursor_eq cur dh_parameters_x942_name
    then dh_parameters_x942
    else if cursor_eq cur ssl_session_parameters_name
    then ssl_session_parameters
    else if cursor_eq cur dsa_parameters_name
    then dsa_parameters
    else if cursor_eq cur ecdsa_public_name
    then ecdsa_public
    else if cursor_eq cur ec_parameters_name
    then ec_parameters
    else if cursor_eq cur ec_private_name
    then ec_private
    else if cursor_eq cur parameters_name
    then parameters
    else if cursor_eq cur cms_name
    then cms
    else if cursor_eq cur sm2_parameters_name
    then sm2_parameters
    else unknown

-- s_begin_header_cur, s_end_header_cur and s_delim_cur
abbrev pub begin_header : List ℕ
begin_header = 45 ∷ 45 ∷ 45 ∷ 45 ∷ 45 ∷ 66 ∷ 69 ∷ 71 ∷ 73 ∷ 78 ∷ []

abbrev pub end_header : List ℕ
end_header = 45 ∷ 45 ∷ 45 ∷ 45 ∷ 45 ∷ 69 ∷ 78 ∷ 68 ∷ []

abbrev pub delim : List ℕ
delim = 45 ∷ 45 ∷ 45 ∷ 45 ∷ 45 ∷ []

-- aws_byte_cursor_advance: what is taken, and the cursor behind it; too long a length takes nothing.
abbrev pub advance : ℕ → List ℕ → List ℕ × List ℕ
advance n cur =
    if leb n (u64_max / 2) && leb n (length cur) then (take n cur, drop n cur) else ([], cur)

-- s_extract_header_type_cur; `none` is AWS_ERROR_PEM_MALFORMED.
pub extract_header_type : List ℕ → Option (List ℕ)
extract_header_type line =
    if starts_with line begin_header
    then (let cur = (advance 1 ((advance 10 line).1)).1 in
        let typed = advance (u64 (length cur + u64_mod - 5)) cur in
        if cursor_eq typed.1 delim then some typed.0 else none)
    else none
