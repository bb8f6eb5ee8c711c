-- ===== src/Pkcs11/Loading.antt =====
-- aws_pkcs11_lib_new, aws_pkcs11_lib_acquire and aws_pkcs11_lib_release of source/pkcs11_lib.c: the library is
-- finalized as often as its behaviour says.
use aws_c_io.Base.{
  ℕ, zero, suc, ◌+◌, ◌-◌, ◌≡◌, Bool, true, false, ◌&&◌, ◌||◌, not, Option, none, some, List, [],
  ◌∷◌, ◌++◌, ◌==◌, ltb, if◌then◌else◌, refl, arith, ap, ◌∙◌, ◌⊎◌, inl, inr,
}
use aws_c_io.Pkcs11.{
  Pkcs11Error, ck, version_unsupported, invalid_argument, not_loaded, Result, ok, err, Call,
  c_initialize, c_finalize, Logged, tally, tally-append, FunctionList, ckr_ok,
  ckr_cryptoki_already_initialized,
}

-- enum aws_pkcs11_lib_behavior; `other_value` is a number that names none.
pub data Behavior : Type 0 where
  default_behavior omit_initialize strict_initialize_finalize other_value : Behavior

abbrev pub is_strict : Behavior → Bool
is_strict strict_initialize_finalize = true
is_strict other = false

-- What aws_shared_library_init and _find_function answer, and the CK_RV of C_GetFunctionList
pub record Loaded : Type 0 where
  pub library_found : Bool
  pub function_found : Bool
  pub get_function_list : ℕ

-- struct aws_pkcs11_lib
pub record Pkcs11Lib : Type 0 where
  pub ref_count : ℕ
  pub finalize_on_cleanup : Bool

-- s_pkcs11_lib_destroy
abbrev pub destroy : Pkcs11Lib → List Call
destroy lib = if lib.finalize_on_cleanup then c_finalize ∷ [] else []

-- The error path of aws_pkcs11_lib_new
abbrev pub abandon : Pkcs11Error → Bool → List Call → Logged Pkcs11Lib
abandon e finalize calls =
    (err e, calls ++ destroy (record { ref_count = 1; finalize_on_cleanup = finalize }))

-- aws_pkcs11_lib_new from the call of C_GetInfo on
abbrev pub query_info : FunctionList → Bool → List Call → Logged Pkcs11Lib
query_info fl finalize calls =
    if not (fl.get_info == ckr_ok)
    then abandon (ck fl.get_info) finalize calls
    else (ok (record { ref_count = 1; finalize_on_cleanup = finalize }), calls)

-- The call of C_Initialize
abbrev pub initialize : FunctionList → Bool → Logged Pkcs11Lib
initialize fl strict =
    let rv = fl.initialize in
    if not (rv == ckr_ok) && (not (rv == ckr_cryptoki_already_initialized) || strict)
    then abandon (ck rv) false (c_initialize rv ∷ [])
    else query_info fl strict (c_initialize rv ∷ [])

abbrev pub load : Loaded → FunctionList → Logged Pkcs11Lib → Logged Pkcs11Lib
load from fl next =
    if not from.library_found || not from.function_found
    then abandon not_loaded false []
    else if not (from.get_function_list == ckr_ok)
    then abandon (ck from.get_function_list) false []
    else if not (fl.version_major == 2) || ltb fl.version_minor 20
    then abandon version_unsupported false []
    else next

-- aws_pkcs11_lib_new
pub lib_new : Loaded → FunctionList → Behavior → Logged Pkcs11Lib
lib_new from fl default_behavior = load from fl (initialize fl false)
lib_new from fl omit_initialize = load from fl (query_info fl false [])
lib_new from fl strict_initialize_finalize = load from fl (initialize fl true)
lib_new from fl other_value = (err invalid_argument, [])

-- aws_pkcs11_lib_acquire and aws_pkcs11_lib_release; the last reference destroys.
pub data RefOp : Type 0 where
  acquire release : RefOp

pub change_refs : RefOp → Pkcs11Lib → Option Pkcs11Lib × List Call
change_refs acquire lib = (some (record lib { ref_count = lib.ref_count + 1 }), [])
change_refs release lib =
    if lib.ref_count == 1
    then (none, destroy lib)
    else (some (record lib { ref_count = lib.ref_count - 1 }), [])

pub change_all : List RefOp → Option Pkcs11Lib → Option Pkcs11Lib × List Call
unfolding change_refs
change_all [] lib = (lib, [])
change_all (op ∷ ops) none = (none, [])
change_all (op ∷ ops) (some lib) =
    let (lib', calls) = change_refs op lib in
    let (left, more) = change_all ops lib' in (left, calls ++ more)

-- A call of C_Finalize, and a call of C_Initialize that succeeded
abbrev pub is_finalize : Call → ℕ
is_finalize c_finalize = 1
is_finalize other = 0

abbrev pub is_initialize : Call → ℕ
is_initialize (c_initialize rv) = if rv == ckr_ok then 1 else 0
is_initialize other = 0

abbrev pub finalized : List Call → ℕ
finalized cs = tally is_finalize cs

abbrev pub initialized : List Call → ℕ
initialized cs = tally is_initialize cs

abbrev pub obtained : Result Pkcs11Lib → Option Pkcs11Lib
obtained (ok lib) = some lib
obtained (err e) = none

-- Whether the library is still to be finalized
abbrev pub owed : Option Pkcs11Lib → ℕ
owed none = 0
owed (some lib) = if lib.finalize_on_cleanup then 1 else 0

-- References change nothing of what is owed.
change_refs-owed :
    (op : RefOp) (lib : Pkcs11Lib)
    → finalized (change_refs op lib).1 + owed (change_refs op lib).0 ≡ owed (some lib)
unfolding change_refs
change_refs-owed acquire lib = omega arith
change_refs-owed release lib = ground arith

change_all-owed :
    (ops : List RefOp) (lib : Option Pkcs11Lib)
    → finalized (change_all ops lib).1 + owed (change_all ops lib).0 ≡ owed lib
unfolding change_all
change_all-owed [] lib = omega arith
change_all-owed (op ∷ ops) none = omega arith
change_all-owed (op ∷ ops) (some lib) =
    let (lib', calls) = change_refs op lib in
    omega (
      arith,
      change_refs-owed op lib,
      change_all-owed ops lib',
      tally-append is_finalize calls (change_all ops lib').1,
    )

-- What a new library owes is what C_Initialize did in it, if it is to be strict.
lib_new-owed :
    (from : Loaded) (fl : FunctionList) (behavior : Behavior)
    → let (made, calls) = lib_new from fl behavior in
      finalized calls + owed (obtained made) ≡ (if is_strict behavior then initialized calls else 0)
unfolding lib_new
lib_new-owed from fl default_behavior = ground arith
lib_new-owed from fl omit_initialize = ground arith
lib_new-owed from fl strict_initialize_finalize = ground arith
lib_new-owed from fl other_value = refl

-- How many references there are, of a library that is there or is not
abbrev pub held : Option Pkcs11Lib → ℕ
held none = 0
held (some lib) = lib.ref_count

-- How many references are left of `n` of them; nothing brings a library back.
abbrev pub remaining : List RefOp → ℕ → ℕ
remaining [] n = n
remaining (op ∷ ops) zero = 0
remaining (acquire ∷ ops) (suc n) = remaining ops (suc (suc n))
remaining (release ∷ ops) (suc n) = remaining ops n

-- The references of a library that has just been made
abbrev pub first_references : Result Pkcs11Lib → ℕ
first_references (ok lib) = 1
first_references (err e) = 0

abbrev pub is_none_left : ℕ → Bool
is_none_left zero = true
is_none_left (suc n) = false

none_remaining : (ops : List RefOp) → remaining ops 0 ≡ 0
none_remaining [] = refl
none_remaining (op ∷ ops) = refl

-- What is left of a library with `suc n` references, and what it still owes
abbrev LeavesRefs : ℕ → ℕ → Option Pkcs11Lib → Type 0
LeavesRefs references owing left =
    (held left ≡ references) × (owed left ≡ (if is_none_left references then 0 else owing))

change_all-left :
    (ops : List RefOp) (n : ℕ) (lib : Pkcs11Lib)
    → lib.ref_count ≡ suc n
    → LeavesRefs (remaining ops (suc n)) (owed (some lib)) (change_all ops (some lib)).0
unfolding change_all change_refs
change_all-left [] n lib h = (h, refl)
change_all-left (acquire ∷ ops) n lib h =
    change_all-left ops (suc n) (record lib { ref_count = lib.ref_count + 1 }) (omega (arith, h))
change_all-left (release ∷ ops) zero lib h =
    let last : (lib.ref_count == 1) ≡ true = ground (arith, h) in
    rw (change_all, change_refs, last) (nothing_left ops)
  where
    nothing_left :
        (rest : List RefOp)
        → LeavesRefs (remaining rest 0) (owed (some lib)) (change_all rest none).0
    nothing_left [] = (refl, refl)
    nothing_left (op ∷ rest) = (refl, refl)
change_all-left (release ∷ ops) (suc n) lib h =
    let more : (lib.ref_count == 1) ≡ false = ground (arith, h) in
    rw (change_all, change_refs, more)
      (change_all-left ops n (record lib { ref_count = lib.ref_count - 1 }) (omega (arith, h)))

-- A new library has one reference.
made-left :
    (ops : List RefOp) (made : Result Pkcs11Lib)
    → held (obtained made) ≡ first_references made
    → LeavesRefs
        (remaining ops (first_references made))
        (owed (obtained made))
        (change_all ops (obtained made)).0
unfolding change_all
made-left [] (err e) h = (refl, refl)
made-left (op ∷ ops) (err e) h = (refl, refl)
made-left ops (ok lib) h = change_all-left ops 0 lib h

lib_new-first :
    (from : Loaded) (fl : FunctionList) (behavior : Behavior)
    → held (obtained (lib_new from fl behavior).0) ≡ first_references (lib_new from fl behavior).0
unfolding lib_new
lib_new-first from fl default_behavior = ground arith
lib_new-first from fl omit_initialize = ground arith
lib_new-first from fl strict_initialize_finalize = ground arith
lib_new-first from fl other_value = refl

-- A library that has been made has not been finalized.
lib_new-finalized :
    (from : Loaded) (fl : FunctionList) (behavior : Behavior)
    → (finalized (lib_new from fl behavior).1 ≡ 0)
      ⊎ (first_references (lib_new from fl behavior).0 ≡ 0)
unfolding lib_new
lib_new-finalized from fl default_behavior = ground arith
lib_new-finalized from fl omit_initialize = ground arith
lib_new-finalized from fl strict_initialize_finalize = ground arith
lib_new-finalized from fl other_value = inl refl

no_finalize :
    (ops : List RefOp) (made : Result Pkcs11Lib) {n : ℕ}
    → (n ≡ 0) ⊎ (first_references made ≡ 0)
    → (n ≡ 0) ⊎ (is_none_left (remaining ops (first_references made)) ≡ true)
no_finalize ops made (inl q) = inl q
no_finalize ops made (inr q) =
    inr (ap (λ n. is_none_left (remaining ops n)) q ∙ ap (λ n. is_none_left n) (none_remaining ops))

counted :
    (strict : Bool) (done more sum owing left init : ℕ) (gone : Bool)
    → done + owing ≡ (if strict then init else 0)
    → more + left ≡ owing
    → sum ≡ done + more
    → left ≡ (if gone then 0 else owing)
    → (done ≡ 0) ⊎ (gone ≡ true)
    → sum ≡ (if strict && gone then init else 0)
counted strict done more sum owing left init gone a b c d e = ground (arith, a, b, c, d, e)

-- However a library is loaded, and whatever is done with the references to it: as many references are left as were
-- acquired and not released, with the first one, until none was; and C_Finalize has been called once for a
-- C_Initialize that succeeded if the library is to be strict and no reference is left, and else never.
pub lib_life-owed :
    (from : Loaded) (fl : FunctionList) (behavior : Behavior) (ops : List RefOp)
    → let (made, calls) = lib_new from fl behavior in
      let (left, more) = change_all ops (obtained made) in
      let references = remaining ops (first_references made) in
      (held left ≡ references)
      × (finalized (calls ++ more)
          ≡ (if is_strict behavior && is_none_left references then initialized calls else 0))
lib_life-owed from fl behavior ops =
    let (made, calls) = lib_new from fl behavior in
    let left = made-left ops made (lib_new-first from fl behavior) in
    (
      left.0,
      counted (is_strict behavior) _ _ _ _ _ (initialized calls) _ (lib_new-owed from fl behavior)
          (change_all-owed ops (obtained made))
          (tally-append is_finalize calls (change_all ops (obtained made)).1) left.1
          (no_finalize ops made (lib_new-finalized from fl behavior)),
    )
