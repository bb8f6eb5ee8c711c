-- ===== src/Pem/Parse/Passes.antt =====
-- The two passes of s_convert_pem_to_raw_base64 of source/pem.c over an object's lines.
use aws_c_io.Base.{
  ℕ, zero, suc, ◌+◌, ◌≤◌, ◌≡◌, true, false, none, some, List, [], ◌∷◌, ◌++◌, length, length-append,
  arith, refl, leb, Option-cases, inl, inr, Bool-cases, sym, ◌∙◌,
}
use aws_c_io.Pem.{extract_header_type}
use aws_c_io.Pem.Parse.{
  PemObject, is_begin, is_end, begin_state, on_data, Parser, next, next_begin, next_data, loop,
  skip, begin_object, start_copy, push_object, add_length, append, convert_pem,
}
use aws_c_io.Pem.Parse.Reference.{
  one_pass, ends, data_length, one_pass_endless, rounds, first_rounds, second_rounds, rounds_split,
  rounds-le-length,
}

-- With enough fuel the loop does what the reference does: between objects,
abbrev BetweenDone : ℕ → Type 0
BetweenDone fuel =
    (p : Parser)
    → p.state ≡ begin_state
    → p.on_length_calc ≡ true
    → p.current_obj_len ≡ 0
    → rounds false p.rest ≤ fuel
    → loop fuel p ≡ one_pass none p.rest p.pem_objects

-- in the first pass,
abbrev FirstDone : ℕ → Type 0
FirstDone fuel =
    (p : Parser)
    → p.state ≡ on_data
    → p.on_length_calc ≡ true
    → ends p.rest ≡ ends p.current_obj_start
    → p.current_obj_len + data_length p.rest ≡ data_length p.current_obj_start
    → first_rounds p.rest + second_rounds p.current_obj_start ≤ fuel
    → loop fuel p ≡ one_pass (some (p.current_obj_type, [])) p.current_obj_start p.pem_objects

-- and in the second.
abbrev SecondDone : ℕ → Type 0
SecondDone fuel =
    (p : Parser)
    → p.state ≡ on_data
    → p.on_length_calc ≡ false
    → ends p.rest ≡ true
    → length p.current_obj_buf + data_length p.rest ≤ p.capacity
    → second_rounds p.rest ≤ fuel
    → loop fuel p ≡ one_pass (some (p.current_obj_type, p.current_obj_buf)) p.rest p.pem_objects

loop-append :
    (fuel : ℕ) (l : List ℕ) (ls : List (List ℕ)) (p : Parser)
    → p.rest ≡ l ∷ ls
    → p.state ≡ on_data
    → p.on_length_calc ≡ false
    → is_end l ≡ false
    → leb (length p.current_obj_buf + length l) p.capacity ≡ true
    → loop (suc fuel) p ≡ loop fuel (append l ls p)
unfolding loop next next_data
loop-append fuel l ls p r s c q f = ground (arith, r, s, c, q, f)

fits :
    (l : List ℕ) (ls : List (List ℕ)) (p : Parser)
    → is_end l ≡ false
    → length p.current_obj_buf + data_length (l ∷ ls) ≤ p.capacity
    → leb (length p.current_obj_buf + length l) p.capacity ≡ true
fits l ls p q k = ground (arith, q)

one_pass_more :
    (ty acc l : List ℕ) (ls : List (List ℕ)) (objects : List PemObject)
    → is_end l ≡ false
    → one_pass (some (ty, acc)) (l ∷ ls) objects ≡ one_pass (some (ty, acc ++ l)) ls objects
unfolding one_pass
one_pass_more ty acc l ls objects q = ground (arith, q)

-- Each from the fuel that is left.
second-SecondDone :
    (fuel : ℕ) (ls : List (List ℕ)) (p : Parser)
    → BetweenDone fuel
    → SecondDone fuel
    → p.rest ≡ ls
    → p.state ≡ on_data
    → p.on_length_calc ≡ false
    → ends ls ≡ true
    → length p.current_obj_buf + data_length ls ≤ p.capacity
    → second_rounds ls ≤ suc fuel
    → loop (suc fuel) p ≡ one_pass (some (p.current_obj_type, p.current_obj_buf)) ls p.pem_objects
unfolding loop next next_data one_pass
second-SecondDone fuel [] p between second r s c e k g = ground arith
second-SecondDone fuel (l ∷ ls) p between second r s c e k g = elim (Bool-cases (is_end l)) [
  | inl q ↦ ground (arith, r, s, c, q, between (push_object ls p))
  | inr q ↦
      loop-append fuel l ls p r s c q (fits l ls p q k)
      ∙ second (append l ls p) s c (ground (arith, q, e))
          (ground (arith, q, k, length-append p.current_obj_buf l)) (ground (arith, q, g))
      ∙ sym (one_pass_more p.current_obj_type p.current_obj_buf l ls p.pem_objects q)
]

first-FirstDone :
    (fuel : ℕ) (ls start : List (List ℕ)) (p : Parser)
    → FirstDone fuel
    → SecondDone fuel
    → p.rest ≡ ls
    → p.current_obj_start ≡ start
    → p.state ≡ on_data
    → p.on_length_calc ≡ true
    → ends ls ≡ ends start
    → p.current_obj_len + data_length ls ≡ data_length start
    → first_rounds ls + second_rounds start ≤ suc fuel
    → loop (suc fuel) p ≡ one_pass (some (p.current_obj_type, [])) start p.pem_objects
unfolding loop next next_data
first-FirstDone fuel [] start p first second r t s c e k g =
    ground (arith, r, s, one_pass_endless p.current_obj_type [] start p.pem_objects)
first-FirstDone fuel (l ∷ ls) start p first second r t s c e k g = elim (Bool-cases (is_end l)) [
  | inl q ↦ ground (arith, r, s, c, t, q, second (start_copy p))
  | inr q ↦ ground (arith, r, s, c, t, q, first (add_length l ls p))
]

between-BetweenDone :
    (fuel : ℕ) (ls : List (List ℕ)) (p : Parser)
    → BetweenDone fuel
    → FirstDone fuel
    → p.rest ≡ ls
    → p.state ≡ begin_state
    → p.on_length_calc ≡ true
    → p.current_obj_len ≡ 0
    → rounds false ls ≤ suc fuel
    → loop (suc fuel) p ≡ one_pass none ls p.pem_objects
unfolding loop next next_begin one_pass
between-BetweenDone fuel [] p between first r s c k g = ground (arith, r, s)
between-BetweenDone fuel (l ∷ ls) p between first r s c k g = elim (Bool-cases (is_begin l)) [
  | inl q ↦ elim (Option-cases (extract_header_type l)) [
    | inl n ↦ ground (arith, r, s, q, n)
    | inr (ty, n) ↦ ground (arith, r, s, c, k, q, n, first (begin_object ty ls p), rounds_split ls)
  ]
  | inr q ↦ ground (arith, r, s, c, k, q, between (skip ls p))
]

rounds_positive : (ls : List (List ℕ)) → 1 ≤ rounds false ls
rounds_positive [] = omega arith
rounds_positive (l ∷ ls) = omega arith

first_rounds_positive : (ls : List (List ℕ)) → 1 ≤ first_rounds ls
first_rounds_positive [] = omega arith
first_rounds_positive (l ∷ ls) = ground arith

second_rounds_positive : (ls : List (List ℕ)) → ends ls ≡ true → 1 ≤ second_rounds ls
second_rounds_positive [] e = cc
second_rounds_positive (l ∷ ls) e = ground arith

all_phases : (fuel : ℕ) → BetweenDone fuel × FirstDone fuel × SecondDone fuel
all_phases zero = (
  λ p s c k g. ground (arith, rounds_positive p.rest),
  λ p s c e k g. ground (arith, first_rounds_positive p.rest),
  λ p s c e k g. ground (arith, second_rounds_positive p.rest e),
)
all_phases (suc fuel) =
    let (between, first, second) = all_phases fuel in
    (
      λ p s c k g. between-BetweenDone fuel p.rest p between first refl s c k g,
      λ p s c e k g.
          first-FirstDone fuel p.rest p.current_obj_start p first second refl refl s c e k g,
      λ p s c e k g. second-SecondDone fuel p.rest p between second refl s c e k g,
    )

-- The parse that goes over the lines of every object twice ends, within two rounds a line and one, and
-- gives what a parse in one pass gives: the objects with their types and the data between header and
-- end, those before a malformed header where there is one, or an error where there is none or where an
-- object does not end.
pub convert_pem-one_pass : (lines : List (List ℕ)) → convert_pem lines ≡ one_pass none lines []
unfolding convert_pem
convert_pem-one_pass lines =
    (all_phases (suc (length lines + length lines))).0
      (record {
        state = begin_state;
        on_length_calc = true;
        rest = lines;
        current_obj_start = lines;
        current_obj_len = 0;
        current_obj_buf = [];
        capacity = 0;
        current_obj_type = [];
        pem_objects = [];
      })
      refl refl refl (rounds-le-length false lines)
