-- ===== src/Pem/Parse.antt =====
-- s_convert_pem_to_raw_base64 of source/pem.c. The lines come split at newlines and trimmed, which
-- aws-c-common does; an index into them is the list of the lines from there on.
pub mod Reference
pub mod Passes
mod Tests
use aws_c_io.Base.{
  ℕ, zero, suc, ◌+◌, Bool, true, false, Option, none, some, List, [], ◌∷◌, ◌++◌, if◌then◌else◌, leb,
  length,
}
use aws_c_io.Pem.{PemType, map_type, begin_header, end_header, starts_with, extract_header_type}

-- struct aws_pem_object
pub record PemObject : Type 0 where
  pub contents : List ℕ
  pub type_string : List ℕ
  pub kind : PemType

-- enum aws_pem_parse_state, whose END this loop does not use
pub data ParseState : Type 0 where
  begin_state on_data : ParseState

-- The variables of the loop; the buffer has a length and a capacity.
pub record Parser : Type 0 where
  pub state : ParseState
  pub on_length_calc : Bool
  pub rest : List (List ℕ)
  pub current_obj_start : List (List ℕ)
  pub current_obj_len : ℕ
  pub current_obj_buf : List ℕ
  pub capacity : ℕ
  pub current_obj_type : List ℕ
  pub pem_objects : List PemObject

-- AWS_ERROR_PEM_MALFORMED or the objects; `running` is a loop that has not ended.
pub data Outcome : Type 0 where
  running malformed : Outcome
  parsed : List PemObject → Outcome

pub data Next : Type 0 where
  end_of_loop : Next
  go_on : Parser → Next

pub is_begin : List ℕ → Bool
is_begin line = starts_with line begin_header

pub is_end : List ℕ → Bool
is_end line = starts_with line end_header

-- The states that a round leads to: past a line that begins nothing,
abbrev pub skip : List (List ℕ) → Parser → Parser
skip after p = record p { rest = after }

-- behind the header of an object,
abbrev pub begin_object : List ℕ → List (List ℕ) → Parser → Parser
begin_object ty after p = record p {
  current_obj_type = ty;
  current_obj_start = after;
  state = on_data;
  rest = after;
}

-- at the object's start again, with a buffer of the length that was found,
abbrev pub start_copy : Parser → Parser
start_copy p = record p {
  on_length_calc = false;
  rest = p.current_obj_start;
  current_obj_buf = [];
  capacity = p.current_obj_len;
}

-- behind an object that was pushed,
abbrev pub push_object : List (List ℕ) → Parser → Parser
push_object after p = record p {
  pem_objects =
      p.pem_objects
      ++ (record {
        contents = p.current_obj_buf;
        type_string = p.current_obj_type;
        kind = map_type p.current_obj_type;
      }
          ∷ []);
  state = begin_state;
  on_length_calc = true;
  current_obj_len = 0;
  rest = after;
  current_obj_buf = [];
  capacity = 0;
  current_obj_type = [];
}

-- past a line that was measured, and past one that was copied.
abbrev pub add_length : List ℕ → List (List ℕ) → Parser → Parser
add_length line after p = record p {
  current_obj_len = p.current_obj_len + length line;
  rest = after;
}

abbrev pub append : List ℕ → List (List ℕ) → Parser → Parser
append line after p = record p { current_obj_buf = p.current_obj_buf ++ line; rest = after }

-- The case BEGIN
pub next_begin : List ℕ → List (List ℕ) → Parser → Next
unfolding is_begin
next_begin line after p =
    if is_begin line
    then elim (extract_header_type line) [
      | none ↦ end_of_loop
      | some ty ↦ go_on (begin_object ty after p)
    ]
    else go_on (skip after p)

-- The case ON_DATA
pub next_data : List ℕ → List (List ℕ) → Parser → Next
unfolding is_end
next_data line after p =
    if is_end line
    then go_on (if p.on_length_calc then start_copy p else push_object after p)
    else (if p.on_length_calc
        then go_on (add_length line after p)
        else (if leb (length p.current_obj_buf + length line) p.capacity
            then go_on (append line after p)
            else end_of_loop))

-- One round of the loop
pub next : Parser → Next
unfolding next_begin next_data
next p = elim p.rest [
  | [] ↦ end_of_loop
  | line ∷ after ↦ elim p.state [
    | begin_state ↦ next_begin line after p
    | on_data ↦ next_data line after p
  ]
]

-- What follows on_end_of_loop: an object without an end is an error, whatever has been parsed before.
abbrev pub objects_or_malformed : List PemObject → Outcome
objects_or_malformed [] = malformed
objects_or_malformed (o ∷ os) = parsed (o ∷ os)

abbrev pub on_end_of_loop : ParseState → List PemObject → Outcome
on_end_of_loop begin_state objects = objects_or_malformed objects
on_end_of_loop on_data objects = malformed

pub loop : ℕ → Parser → Outcome
unfolding next
loop zero p = running
loop (suc fuel) p = elim (next p) [
  | end_of_loop ↦ on_end_of_loop p.state p.pem_objects
  | go_on p' ↦ loop fuel p'
]

-- s_convert_pem_to_raw_base64, with two rounds for each line and one to end as fuel
pub convert_pem : List (List ℕ) → Outcome
unfolding loop
convert_pem lines = loop (suc (length lines + length lines)) (record {
  state = begin_state;
  on_length_calc = true;
  rest = lines;
  current_obj_start = lines;
  current_obj_len = 0;
  current_obj_buf = [];
  capacity = 0;
  current_obj_type = [];
  pem_objects = [];
})
