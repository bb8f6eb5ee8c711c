-- ===== src/Pem/Types.antt =====
-- What the map of type names in source/pem.c answers.
use aws_c_io.Base.{ℕ, ◌≢◌, List, arith}
use aws_c_io.Pem.{map_type, private_dsa_pkcs1, public_dsa_pkcs1}

-- No type name is a DSA key to s_map_type_cur_to_type: its names of DSA keys are those of RSA keys,
-- which stand before them.
pub map_type_dsa :
    (cur : List ℕ) → (map_type cur ≢ private_dsa_pkcs1) × (map_type cur ≢ public_dsa_pkcs1)
unfolding map_type
map_type_dsa cur = ground arith
