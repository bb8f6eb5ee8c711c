-- ===== src/Pem/Tests.antt =====
-- Runs of aws_sanitize_pem of source/pem.c.
use aws_c_io.Base.{ℕ, ◌*◌, ◌≡◌, List, [], ◌∷◌, ◌++◌, some, true, refl}
use aws_c_io.Pem.Sanitize.{
  begin_header, end_header, dashes, sanitize_loop, sanitize_pem, sanitized, sanitize_loop,
}
use aws_c_io.Pem.Rejects.{has_header, is_some, sanitize_pem_rejects}

abbrev double : ℕ → ℕ
double n = 2 * n

-- -----BEGIN A-----END A-----
abbrev object : List ℕ
object = begin_header ++ (65 ∷ end_header ++ (65 ∷ dashes))

-- The memory behind the files
abbrev behind : List ℕ
behind = 0 ∷ 255 ∷ 45 ∷ 7 ∷ 7 ∷ 7 ∷ 7 ∷ 7 ∷ 7 ∷ 7 ∷ 7 ∷ []

abbrev commented : List ℕ
commented = 35 ∷ 45 ∷ 10 ∷ object ++ (10 ∷ 35 ∷ [])

sanitize_pem_rejects_example :
    ((sanitized double behind commented).rest ≡ [])
    × (is_some (sanitize_pem double behind commented) ≡ has_header behind commented)
sanitize_pem_rejects_example = sanitize_pem_rejects double behind commented

-- The text around an object goes.
commented_cleaned : sanitize_pem double behind commented ≡ some (object ++ (10 ∷ []))
unfolding sanitize_pem sanitize_loop
commented_cleaned = refl

-- The last dashes of a file are a begin header where the memory behind them continues it.
reads_on : is_some (sanitize_pem double (66 ∷ 69 ∷ 71 ∷ 73 ∷ 78 ∷ []) (35 ∷ dashes)) ≡ true
unfolding sanitize_pem sanitize_loop
reads_on = refl

-- Of two objects with nothing between them, the second loses its last dashes.
second_loses_dashes :
    sanitize_pem double behind (object ++ object)
    ≡ some (object ++ (10 ∷ begin_header ++ (65 ∷ end_header ++ (65 ∷ 10 ∷ []))))
unfolding sanitize_pem sanitize_loop
second_loses_dashes = refl
