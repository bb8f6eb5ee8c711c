-- ===== src/Pem/Sanitize.antt =====
-- aws_sanitize_pem of source/pem.c, on a list of bytes. It compares a header with the bytes from a '-' on without a
-- look at how many are left: `after` is the memory behind the buffer. The clean buffer starts with the input's length
-- as its capacity: `grow` is the capacity that aws_byte_buf_append_byte_dynamic gives a full buffer.
use aws_c_io.Base.{
  ℕ, zero, suc, ◌+◌, ◌*◌, Bool, Option, none, some, List, [], ◌∷◌, ◌++◌, ◌==◌, ◌&&◌, if◌then◌else◌,
  length, drop, leb, ltb,
}
use aws_c_io.Pem.{starts_with}

-- enum aws_pem_parse_state
pub data PemParseState : Type 0 where
  begin on_data end_part : PemParseState

-- begin_header, end_header and dashes
abbrev pub begin_header : List ℕ
begin_header = 45 ∷ 45 ∷ 45 ∷ 45 ∷ 45 ∷ 66 ∷ 69 ∷ 71 ∷ 73 ∷ 78 ∷ []

abbrev pub end_header : List ℕ
end_header = 45 ∷ 45 ∷ 45 ∷ 45 ∷ 45 ∷ 69 ∷ 78 ∷ 68 ∷ []

abbrev pub dashes : List ℕ
dashes = 45 ∷ 45 ∷ 45 ∷ 45 ∷ 45 ∷ []

-- The clean buffer
pub record CleanBuf : Type 0 where
  pub bytes : List ℕ
  pub capacity : ℕ

-- aws_byte_buf_append, whose error the loop does not look at
abbrev pub byte_buf_append : List ℕ → CleanBuf → CleanBuf
byte_buf_append xs buf =
    if leb (length buf.bytes + length xs) buf.capacity
    then record { bytes = buf.bytes ++ xs; capacity = buf.capacity }
    else buf

-- aws_byte_buf_append_byte_dynamic
abbrev pub append_byte_dynamic : (ℕ → ℕ) → ℕ → CleanBuf → CleanBuf
append_byte_dynamic grow c buf = record {
  bytes = buf.bytes ++ (c ∷ []);
  capacity = if ltb (length buf.bytes) buf.capacity then buf.capacity else grow buf.capacity;
}

-- The loop's variables, with the bytes from `i` on
pub record Sanitizing : Type 0 where
  pub state : PemParseState
  pub rest : List ℕ
  pub clean : CleanBuf

-- The test that each state makes on the bytes from `c` on: it compares as many bytes as the header has, past the
-- end of the buffer where fewer are left.
abbrev pub is_at : List ℕ → ℕ → List ℕ → List ℕ → Bool
is_at header c cs after = (c == 45) && starts_with (c ∷ cs ++ after) header

-- One round of the loop
unfoldable pub sanitize_round :
    (ℕ → ℕ) → List ℕ → PemParseState → ℕ → List ℕ → CleanBuf → Sanitizing
sanitize_round grow after begin c cs clean =
    if is_at begin_header c cs after
    then record { state = on_data; rest = c ∷ cs; clean = clean }
    else record { state = begin; rest = cs; clean = clean }
sanitize_round grow after on_data c cs clean =
    if is_at end_header c cs after
    then record { state = end_part; rest = drop 7 cs; clean = byte_buf_append end_header clean }
    else record { state = on_data; rest = cs; clean = append_byte_dynamic grow c clean }
sanitize_round grow after end_part c cs clean =
    if is_at dashes c cs after
    then record {
      state = begin;
      rest = drop 4 cs;
      clean = append_byte_dynamic grow 10 (byte_buf_append dashes clean);
    }
    else record { state = end_part; rest = cs; clean = append_byte_dynamic grow c clean }

unfoldable pub sanitize_loop : (ℕ → ℕ) → List ℕ → ℕ → Sanitizing → Sanitizing
unfolding sanitize_round
sanitize_loop grow after zero s = s
sanitize_loop grow after (suc fuel) s = elim s.rest [
  | [] ↦ s
  | c ∷ cs ↦ sanitize_loop grow after fuel (sanitize_round grow after s.state c cs s.clean)
]

-- Two rounds for a byte are enough, with one for the last state.
abbrev pub sanitized : (ℕ → ℕ) → List ℕ → List ℕ → Sanitizing
sanitized grow after pem =
    sanitize_loop grow after (2 * length pem + 1)
      (record { state = begin; rest = pem; clean = record { bytes = []; capacity = length pem } })

-- What the function makes of the clean buffer; `none` is AWS_ERROR_INVALID_ARGUMENT.
abbrev pub answer : List ℕ → Option (List ℕ)
answer [] = none
answer (b ∷ bs) = some (b ∷ bs)

-- aws_sanitize_pem
unfoldable pub sanitize_pem : (ℕ → ℕ) → List ℕ → List ℕ → Option (List ℕ)
sanitize_pem grow after [] = none
sanitize_pem grow after (c ∷ cs) = answer (sanitized grow after (c ∷ cs)).clean.bytes
