-- ===== src/Pkcs11/Balance.antt =====
-- Sessions and searches of a handler of source/pkcs11_tls_op_handler.c are ended as often as begun.
use aws_c_io.Base.{
  ℕ, ◌+◌, ◌≡◌, Bool, true, false, not, Option, none, some, List, [], ◌∷◌, ◌++◌, ◌==◌, if◌then◌else◌,
  arith, Bool-cases, inl, inr, ==_iff,
}
use aws_c_io.Pkcs11.{
  Result, ok, err, Call, c_open_session, Logged, and_then, tally, tally-append, FunctionList,
  ckr_ok, ck_invalid_handle, ckk_rsa, ckk_ec, ckm_rsa_pkcs,
}
use aws_c_io.Pkcs11.Slots.{find_slot_with_token}
use aws_c_io.Pkcs11.Keys.{
  HashAlgorithm, SignatureAlgorithm, open_session, login_user, find_private_key, decrypt, sign,
  sign_rsa, sign_ecdsa, sign_helper, sign_prefixed, prefix_to_rsa_sig, is_rsa, is_ecdsa,
}
use aws_c_io.Pkcs11.Handler.{
  OpHandler, destroy_handler, hold_session, in_session, in_slot, used_up, KeyOperation,
  decrypt_operation, sign_operation, unknown_operation, do_operation, do_operations, handler_life,
  is_opening, is_closing, is_beginning, is_ending,
}

-- The calls of `cs`, with `a` sessions open before them and `b` after them, and as many searches ended as begun
record Leaves (a b : ℕ) (cs : List Call) : Type 0 where
  sessions : a + tally is_opening cs ≡ tally is_closing cs + b
  searches : tally is_beginning cs ≡ tally is_ending cs

Leaves-append :
    {a b c : ℕ} (cs ds : List Call) → Leaves a b cs → Leaves b c ds → Leaves a c (cs ++ ds)
Leaves-append cs ds h g = omega (
  arith,
  tally-append is_opening cs ds,
  tally-append is_closing cs ds,
  tally-append is_beginning cs ds,
  tally-append is_ending cs ds,
)

if-Leaves :
    {A : Type 0} {a b : ℕ} (test : Bool) (x y : Logged A)
    → Leaves a b x.1
    → Leaves a b y.1
    → Leaves a b (if test then x else y).1
if-Leaves true x y h g = h
if-Leaves false x y h g = g

and_then-Leaves :
    {A B : Type 0} {a b c : ℕ} (m : Logged A) (f : A → Logged B)
    → Leaves a b m.1
    → Leaves a c m.1
    → ((x : A) → Leaves b c (f x).1)
    → Leaves a c (and_then m f).1
and_then-Leaves (ok x, calls) f h h' g = Leaves-append calls (f x).1 h (g x)
and_then-Leaves (err e, calls) f h h' g = h'

module _ (fl : FunctionList) where
  login_user-Leaves :
      (session : ℕ) (pin : Option (List ℕ)) → Leaves 1 1 (login_user fl session pin).1
  unfolding login_user
  login_user-Leaves session pin = ground arith

  find_private_key-Leaves :
      (session : ℕ) (label : Option (List ℕ)) → Leaves 1 1 (find_private_key fl session label).1
  unfolding find_private_key
  find_private_key-Leaves session label = ground arith

  sign_helper-Leaves :
      (session key mechanism : ℕ) (input : List ℕ)
      → Leaves 1 1 (sign_helper fl session key mechanism input).1
  unfolding sign_helper
  sign_helper-Leaves session key mechanism input = omega arith

  sign_prefixed-Leaves :
      (session key : ℕ) (digest : List ℕ) (prefix : Option (List ℕ))
      → Leaves 1 1 (sign_prefixed fl session key digest prefix).1
  sign_prefixed-Leaves session key digest none = omega arith
  sign_prefixed-Leaves session key digest (some prefix) =
      sign_helper-Leaves session key ckm_rsa_pkcs (prefix ++ digest)

  sign_rsa-Leaves :
      (session key : ℕ) (digest : List ℕ) (digest_alg : HashAlgorithm)
      (signature_alg : SignatureAlgorithm)
      → Leaves 1 1 (sign_rsa fl session key digest digest_alg signature_alg).1
  unfolding sign_rsa
  sign_rsa-Leaves session key digest digest_alg signature_alg =
      if-Leaves (not (is_rsa signature_alg)) _ _ (omega arith)
        (sign_prefixed-Leaves session key digest (prefix_to_rsa_sig digest_alg))

  sign_ecdsa-Leaves :
      (session key : ℕ) (digest : List ℕ) (signature_alg : SignatureAlgorithm)
      → Leaves 1 1 (sign_ecdsa fl session key digest signature_alg).1
  unfolding sign_ecdsa
  sign_ecdsa-Leaves session key digest signature_alg =
      if-Leaves (not (is_ecdsa signature_alg)) _ _ (omega arith) (omega arith)

  sign-Leaves :
      (session key key_type : ℕ) (digest : List ℕ) (digest_alg : HashAlgorithm)
      (signature_alg : SignatureAlgorithm)
      → Leaves 1 1 (sign fl session key key_type digest digest_alg signature_alg).1
  unfolding sign
  sign-Leaves session key key_type digest digest_alg signature_alg =
      if-Leaves (key_type == ckk_rsa) _ _
        (sign_rsa-Leaves session key digest digest_alg signature_alg)
        (if-Leaves (key_type == ckk_ec) _ _ (sign_ecdsa-Leaves session key digest signature_alg)
          (omega arith))

  do_operation-Leaves : (h : OpHandler) (op : KeyOperation) → Leaves 1 1 (do_operation fl h op).1
  unfolding do_operation decrypt
  do_operation-Leaves h (decrypt_operation input) = ground arith
  do_operation-Leaves h (sign_operation input digest_alg signature_alg) =
      sign-Leaves h.session_handle h.private_key_handle h.private_key_type input digest_alg
        signature_alg
  do_operation-Leaves h unknown_operation = omega arith

  do_operations-Leaves :
      (h : OpHandler) (ops : List KeyOperation) → Leaves 1 1 (do_operations fl h ops)
  unfolding do_operations
  do_operations-Leaves h [] = omega arith
  do_operations-Leaves h (op ∷ ops) =
      Leaves-append (do_operation fl h op).1 (do_operations fl h ops) (do_operation-Leaves h op)
        (do_operations-Leaves h ops)

destroy_handler-Leaves :
    (session : ℕ) → (session == 0) ≡ false → Leaves 1 0 (destroy_handler session)
destroy_handler-Leaves session h = ground arith

abbrev held : Result OpHandler → ℕ
held (ok h) = 1
held (err e) = 0

abbrev IsHandle : Result OpHandler → Type 0
IsHandle (ok h) = (h.session_handle == 0) ≡ false
IsHandle (err e) = Unit {0}

-- A handler that is made holds one session, whose handle is one.
abbrev IsKept : ℕ → Logged OpHandler → Type 0
IsKept a (r, calls) = Leaves a (held r) calls × IsHandle r

hold_session-IsKept :
    (session : ℕ) (found : Logged (ℕ × ℕ))
    → (session == 0) ≡ false
    → Leaves 1 1 found.1
    → IsKept 1 (hold_session session found)
hold_session-IsKept session (ok (key, key_type), calls) s h = (h, s)
hold_session-IsKept session (err e, calls) s h =
    (Leaves-append calls (destroy_handler session) h (destroy_handler-Leaves session s), tt)

opening-Leaves :
    {b : ℕ} (rv session : ℕ) (cs : List Call)
    → (rv == ckr_ok) ≡ true
    → Leaves 1 b cs
    → Leaves 0 b (c_open_session rv session ∷ cs)
opening-Leaves rv session cs q h = ground arith

-- What the standard says of C_OpenSession: a session that is opened has a handle that is not CK_INVALID_HANDLE.
abbrev pub HasHandles : FunctionList → Type 0
HasHandles fl =
    (slot : ℕ)
    → (fl.open_session slot).0 ≡ ckr_ok
    → ((fl.open_session slot).1 == ck_invalid_handle) ≡ false

module _ (fl : FunctionList) (valid : HasHandles fl) (pin label : Option (List ℕ)) where
  in_session-IsKept :
      (session : ℕ) → (session == 0) ≡ false → IsKept 1 (in_session fl pin label session)
  in_session-IsKept session s = hold_session-IsKept session _ s (
      and_then-Leaves (login_user fl session pin) (λ _. find_private_key fl session label)
        (login_user-Leaves fl session pin) (login_user-Leaves fl session pin)
        (λ _. find_private_key-Leaves fl session label))

  opened-IsKept : (slot : ℕ) → IsKept 0 (and_then (open_session fl slot) (in_session fl pin label))
  unfolding open_session
  opened-IsKept slot = elim (Bool-cases ((fl.open_session slot).0 == ckr_ok)) [
    | inl q ↦
        let kept = in_session-IsKept (fl.open_session slot).1 (valid slot ((==_iff _ _).0 q)) in
        rw q (
          opening-Leaves (fl.open_session slot).0 (fl.open_session slot).1
              (in_session fl pin label (fl.open_session slot).1).1 q kept.0,
          kept.1,
        )
    | inr q ↦ rw q (ground (arith, q), tt)
  ]

  in_slot-IsKept : (slot : Result ℕ) → IsKept 0 (in_slot fl pin label slot)
  in_slot-IsKept (err e) = (omega arith, tt)
  in_slot-IsKept (ok slot) = opened-IsKept slot

used_up-Leaves :
    (fl : FunctionList) (ops : List KeyOperation) (made : Logged OpHandler)
    → IsKept 0 made
    → Leaves 0 0 (used_up fl ops made)
used_up-Leaves fl ops (err e, calls) h = h.0
used_up-Leaves fl ops (ok k, calls) h =
    Leaves-append calls (do_operations fl k ops ++ destroy_handler k.session_handle) h.0 (
      Leaves-append (do_operations fl k ops) (destroy_handler k.session_handle)
        (do_operations-Leaves fl k ops) (destroy_handler-Leaves k.session_handle h.1))

-- Over the life of a handler, also of one that could not be made, whatever the library answers and whichever
-- operations are done with it: as many sessions are closed as were opened, and as many searches ended as begun,
-- where a session that is opened never has the invalid handle.
pub handler_life-Balanced :
    (fl : FunctionList) (pin token_label label : Option (List ℕ)) (slot : Option ℕ)
    (ops : List KeyOperation)
    → HasHandles fl
    → let calls = handler_life fl pin token_label label slot ops in
      (tally is_opening calls ≡ tally is_closing calls)
      × (tally is_beginning calls ≡ tally is_ending calls)
unfolding handler_life
handler_life-Balanced fl pin token_label label slot ops valid =
    let h =
      used_up-Leaves fl ops (in_slot fl pin label (find_slot_with_token fl slot token_label))
        (in_slot-IsKept fl valid pin label (find_slot_with_token fl slot token_label)) in
    omega arith
