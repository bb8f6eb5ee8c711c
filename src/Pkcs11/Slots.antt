-- ===== src/Pkcs11/Slots.antt =====
-- aws_pkcs11_lib_find_slot_with_token of source/pkcs11_lib.c: the token is the only one that matches.
use aws_c_io.Base.{
  ℕ, ◌≡◌, Bool, true, false, not, Option, none, some, List, [], ◌∷◌, ◌==◌, if◌then◌else◌, refl,
  arith,
}
use aws_c_io.Pem.{cursor_eq}
use aws_c_io.Pkcs11.{ck, token_not_found, Result, ok, err, FunctionList, ckr_ok}

-- s_trim_padding: the spaces at the end go.
abbrev pub trim_padding : List ℕ → List ℕ
trim_padding [] = []
trim_padding (c ∷ cs) = elim (trim_padding cs) [
  | [] ↦ if c == 32 then [] else c ∷ []
  | d ∷ ds ↦ c ∷ d ∷ ds
]

abbrev pub slot_matches : Option ℕ → ℕ → Bool
slot_matches none slot = true
slot_matches (some wanted) slot = wanted == slot

abbrev pub label_matches : Option (List ℕ) → List ℕ → Bool
label_matches none label = true
label_matches (some wanted) label = cursor_eq wanted (trim_padding label)

-- The loop over the slots, with `candidate`
pub pick_slot : FunctionList → Option ℕ → Option (List ℕ) → List ℕ → Option ℕ → Result ℕ
pick_slot fl match_slot match_label [] none = err token_not_found
pick_slot fl match_slot match_label [] (some c) = ok c
pick_slot fl match_slot match_label (slot ∷ slots) candidate =
    let (rv, label) = fl.get_token_info slot in
    let skipped = pick_slot fl match_slot match_label slots candidate in
    let chosen = pick_slot fl match_slot match_label slots (some slot) in
    if not (slot_matches match_slot slot)
    then skipped
    else if not (rv == ckr_ok)
    then err (ck rv)
    else if not (label_matches match_label label)
    then skipped
    else elim candidate [ none ↦ chosen | some c ↦ err token_not_found ]

-- aws_pkcs11_lib_find_slot_with_token
pub find_slot_with_token : FunctionList → Option ℕ → Option (List ℕ) → Result ℕ
unfolding pick_slot
find_slot_with_token fl match_slot match_label =
    let (rv, num_slots) = fl.count_slots in
    let (rv', slots) = fl.get_slot_list in
    if not (rv == ckr_ok)
    then err (ck rv)
    else if num_slots == 0
    then err token_not_found
    else if not (rv' == ckr_ok)
    then err (ck rv')
    else pick_slot fl match_slot match_label slots none

-- What is said of one slot: that its token matches, or that its token could not be asked.
pub data Verdict : Type 0 where
  matching : ℕ → Verdict
  failing : ℕ → Verdict

abbrev pub verdicts : FunctionList → Option ℕ → Option (List ℕ) → List ℕ → List Verdict
verdicts fl match_slot match_label [] = []
verdicts fl match_slot match_label (slot ∷ slots) =
    let (rv, label) = fl.get_token_info slot in
    let rest = verdicts fl match_slot match_label slots in
    if not (slot_matches match_slot slot)
    then rest
    else if not (rv == ckr_ok)
    then failing rv ∷ rest
    else if label_matches match_label label
    then matching slot ∷ rest
    else rest

-- The two first verdicts decide.
abbrev pub only_match : List Verdict → Result ℕ
only_match [] = err token_not_found
only_match (failing rv ∷ vs) = err (ck rv)
only_match (matching slot ∷ []) = ok slot
only_match (matching slot ∷ failing rv ∷ vs) = err (ck rv)
only_match (matching slot ∷ matching other ∷ vs) = err token_not_found

abbrev given : Option ℕ → List Verdict → List Verdict
given none vs = vs
given (some slot) vs = matching slot ∷ vs

pick_slot-only_match :
    (fl : FunctionList) (match_slot : Option ℕ) (match_label : Option (List ℕ)) (slots : List ℕ)
    (candidate : Option ℕ)
    → pick_slot fl match_slot match_label slots candidate
      ≡ only_match (given candidate (verdicts fl match_slot match_label slots))
unfolding pick_slot
pick_slot-only_match fl match_slot match_label [] none = refl
pick_slot-only_match fl match_slot match_label [] (some c) = refl
pick_slot-only_match fl match_slot match_label (slot ∷ slots) none = ground (
  arith,
  pick_slot-only_match fl match_slot match_label slots none,
  pick_slot-only_match fl match_slot match_label slots (some slot),
)
pick_slot-only_match fl match_slot match_label (slot ∷ slots) (some c) =
    ground (arith, pick_slot-only_match fl match_slot match_label slots (some c))

-- Where the slots can be listed and there is one, the result is the slot of the only token that matches; with no such
-- token, or two before a token that fails to answer, it is AWS_ERROR_PKCS11_TOKEN_NOT_FOUND, and a token with the
-- right slot that fails to answer is an error otherwise.
pub find_slot_with_token-only_match :
    (fl : FunctionList) (match_slot : Option ℕ) (match_label : Option (List ℕ))
    → (fl.count_slots.0 ≡ ckr_ok)
    → (fl.count_slots.1 == 0) ≡ false
    → (fl.get_slot_list.0 ≡ ckr_ok)
    → find_slot_with_token fl match_slot match_label
      ≡ only_match (verdicts fl match_slot match_label fl.get_slot_list.1)
unfolding find_slot_with_token
find_slot_with_token-only_match fl match_slot match_label h n h' =
    rw (h, n, h') (pick_slot-only_match fl match_slot match_label fl.get_slot_list.1 none)
