-- ===== src/Pem/Parse/Tests.antt =====
-- Runs of s_convert_pem_to_raw_base64 of source/pem.c.
use aws_c_io.Base.{ℕ, ◌≡◌, List, [], ◌∷◌, ◌++◌, refl, none}
use aws_c_io.Pem.{begin_header, end_header, delim, x509_name, x509, map_type, extract_header_type}
use aws_c_io.Pem.Parse.{convert_pem, parsed}
use aws_c_io.Pem.Parse.Reference.{one_pass}
use aws_c_io.Pem.Parse.Passes.{convert_pem-one_pass}

-- A certificate with the data "AB" and "CD".
abbrev certificate : List (List ℕ)
certificate =
    (begin_header ++ (32 ∷ x509_name) ++ delim)
    ∷ (65 ∷ 66 ∷ [])
    ∷ (67 ∷ 68 ∷ [])
    ∷ (end_header ++ (32 ∷ x509_name) ++ delim)
    ∷ []

convert_pem-one_pass_example : convert_pem certificate ≡ one_pass none certificate []
convert_pem-one_pass_example = convert_pem-one_pass certificate

convert_pem-certificate :
    convert_pem certificate
    ≡ parsed
        (record { contents = 65 ∷ 66 ∷ 67 ∷ 68 ∷ []; type_string = x509_name; kind = x509 } ∷ [])
unfolding convert_pem extract_header_type map_type
convert_pem-certificate = refl
