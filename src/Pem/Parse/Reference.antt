-- ===== src/Pem/Parse/Reference.antt =====
-- A parse of PEM lines in one pass, to which that of source/pem.c is compared.
use aws_c_io.Base.{
  ℕ, suc, ◌+◌, ◌≤◌, ◌≡◌, Bool, true, false, Option, none, some, List, [], ◌∷◌, ◌++◌, if◌then◌else◌,
  length, arith, refl,
}
use aws_c_io.Pem.{map_type, extract_header_type}
use aws_c_io.Pem.Parse.{PemObject, Outcome, malformed, objects_or_malformed, is_begin, is_end}

-- The type and the data so far of an object that has begun, the lines left, the objects before.
unfoldable pub one_pass : Option (List ℕ × List ℕ) → List (List ℕ) → List PemObject → Outcome
one_pass none [] objects = objects_or_malformed objects
one_pass (some (ty, acc)) [] objects = malformed
one_pass none (l ∷ ls) objects = elim (is_begin l) [
  | false ↦ one_pass none ls objects
  | true ↦ elim (extract_header_type l) [
    | none ↦ objects_or_malformed objects
    | some ty ↦ one_pass (some (ty, [])) ls objects
  ]
]
one_pass (some (ty, acc)) (l ∷ ls) objects = elim (is_end l) [
  | true ↦
      one_pass none ls
        (objects ++ (record { contents = acc; type_string = ty; kind = map_type ty } ∷ []))
  | false ↦ one_pass (some (ty, acc ++ l)) ls objects
]

-- Whether an object ends, and the size of its data.
abbrev pub ends : List (List ℕ) → Bool
ends [] = false
ends (l ∷ ls) = if is_end l then true else ends ls

abbrev pub data_length : List (List ℕ) → ℕ
data_length [] = 0
data_length (l ∷ ls) = if is_end l then 0 else length l + data_length ls

pub one_pass_endless :
    (ty acc : List ℕ) (ls : List (List ℕ)) (objects : List PemObject)
    → ends ls ≡ false
    → one_pass (some (ty, acc)) ls objects ≡ malformed
unfolding one_pass
one_pass_endless ty acc [] objects h = refl
one_pass_endless ty acc (l ∷ ls) objects h =
    ground (arith, one_pass_endless ty (acc ++ l) ls objects)

-- Rounds of the two-pass loop: between objects, in the first and in the second pass.
abbrev pub rounds : Bool → List (List ℕ) → ℕ
rounds false [] = 1
rounds true [] = 1
rounds false (l ∷ ls) = 1 + (if is_begin l then 1 + rounds true ls else rounds false ls)
rounds true (l ∷ ls) = if is_end l then 2 + rounds false ls else 2 + rounds true ls

abbrev pub first_rounds : List (List ℕ) → ℕ
first_rounds [] = 1
first_rounds (l ∷ ls) = if is_end l then 1 else 1 + first_rounds ls

abbrev pub second_rounds : List (List ℕ) → ℕ
second_rounds [] = 0
second_rounds (l ∷ ls) = if is_end l then 1 + rounds false ls else 1 + second_rounds ls

pub rounds_split : (ls : List (List ℕ)) → first_rounds ls + second_rounds ls ≤ rounds true ls
rounds_split [] = omega arith
rounds_split (l ∷ ls) = ground (arith, rounds_split ls)

pub rounds-le-length : (b : Bool) (ls : List (List ℕ)) → rounds b ls ≤ suc (length ls + length ls)
rounds-le-length false [] = omega arith
rounds-le-length true [] = omega arith
rounds-le-length false (l ∷ ls) =
    ground (arith, rounds-le-length false ls, rounds-le-length true ls)
rounds-le-length true (l ∷ ls) = ground (arith, rounds-le-length false ls, rounds-le-length true ls)
