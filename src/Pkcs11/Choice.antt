-- ===== src/Pkcs11/Choice.antt =====
-- What aws_pkcs11_lib_find_private_key and s_pkcs11_sign_rsa of source/pkcs11_lib.c choose and make.
use aws_c_io.Base.{
  ℕ, ◌≡◌, Bool, true, false, ◌&&◌, ◌||◌, Option, none, some, List, [], ◌∷◌, ◌++◌, ◌==◌,
  if◌then◌else◌, length, take, drop, arith, refl, sym, ◌∙◌,
}
use aws_c_io.Pkcs11.{
  Attribute, cka_class, cka_label, cko_private_key, Result, ok, err, FunctionList, ckr_ok,
  ck_invalid_handle, ckk_rsa, ckk_ec,
}
use aws_c_io.Pkcs11.Keys.{
  find_private_key, search_key, choose_key, finalize_search, search_attributes, HashAlgorithm,
  unknown_hash, sha1, sha224, sha256, sha384, sha512, prefix_to_rsa_sig,
}

-- An object of the token
pub record TokenObject : Type 0 where
  pub handle : ℕ
  pub object_class : ℕ
  pub label : List ℕ

abbrev pub bytes_eq : List ℕ → List ℕ → Bool
bytes_eq [] [] = true
bytes_eq [] (y ∷ ys) = false
bytes_eq (x ∷ xs) [] = false
bytes_eq (x ∷ xs) (y ∷ ys) = (x == y) && bytes_eq xs ys

-- Whether an object has the attributes of a template
abbrev pub satisfies : List Attribute → TokenObject → Bool
satisfies [] o = true
satisfies (cka_class c ∷ rest) o = (o.object_class == c) && satisfies rest o
satisfies (cka_label l ∷ rest) o = bytes_eq o.label l && satisfies rest o

abbrev pub handles : (TokenObject → Bool) → List TokenObject → List ℕ
handles test [] = []
handles test (o ∷ os) = let rest = handles test os in if test o then o.handle ∷ rest else rest

-- What C_FindObjects promises: of the token's objects, those that match the template, up to the maximum
pub record IsSearch (fl : FunctionList) (session : ℕ) (objects : List TokenObject) : Type 0 where
  pub answers :
      (attributes : List Attribute) (most : ℕ)
      → (fl.find_objects session attributes most).0 ≡ ckr_ok
      → (fl.find_objects session attributes most).1
        ≡ take most (handles (satisfies attributes) objects)

-- A private key, with the label if one is asked for
abbrev pub is_wanted : Option (List ℕ) → TokenObject → Bool
is_wanted none o = o.object_class == cko_private_key
is_wanted (some l) o = (o.object_class == cko_private_key) && bytes_eq o.label l

-- What there must be for a key: it is the token's only wanted object, its type can be used, and no call fails.
pub record IsOnlyKey (fl : FunctionList) (objects : List TokenObject) (session : ℕ)
    (label : Option (List ℕ)) (key key_type : ℕ) : Type 0 where
  pub only : handles (is_wanted label) objects ≡ key ∷ []
  pub is_valid : (key == ck_invalid_handle) ≡ false
  pub type_read : fl.get_key_type session key ≡ (ckr_ok, key_type)
  pub type_supported : ((key_type == ckk_rsa) || (key_type == ckk_ec)) ≡ true
  pub search_ended : fl.find_objects_final session ≡ ckr_ok

abbrev Chosen : FunctionList → ℕ → List ℕ → ℕ → ℕ → Type 0
Chosen fl session found key key_type =
    (found ≡ key ∷ [])
    × ((key == ck_invalid_handle) ≡ false)
    × (fl.get_key_type session key ≡ (ckr_ok, key_type))
    × (((key_type == ckk_rsa) || (key_type == ckk_ec)) ≡ true)

choose_key-only :
    (fl : FunctionList) (session : ℕ) (found : List ℕ) {key key_type : ℕ}
    → choose_key fl session found ≡ ok (key, key_type)
    → Chosen fl session found key key_type
choose_key-only fl session [] h = absurd (ground (arith, h))
choose_key-only fl session (k ∷ []) h = ground (arith, h)
choose_key-only fl session (k ∷ k' ∷ ks) h = absurd (ground (arith, h))

finalize_search-ok :
    (rv : ℕ) (found : Result (ℕ × ℕ)) {k : ℕ × ℕ}
    → finalize_search rv found ≡ ok k
    → (found ≡ ok k) × (rv ≡ ckr_ok)
finalize_search-ok rv (ok key) h = ground (arith, h)
finalize_search-ok rv (err e) h = ground (arith, h)

searched :
    (fl : FunctionList) (session : ℕ) (label : Option (List ℕ)) {k : ℕ × ℕ}
    → (find_private_key fl session label).0 ≡ ok k
    → finalize_search
        (fl.find_objects_final session)
        (search_key fl session (search_attributes label))
      ≡ ok k
unfolding find_private_key
searched fl session label h = ground (arith, h)

chosen :
    (fl : FunctionList) (session : ℕ) (attributes : List Attribute) {k : ℕ × ℕ}
    → search_key fl session attributes ≡ ok k
    → ((fl.find_objects session attributes 2).0 ≡ ckr_ok)
      × (choose_key fl session (fl.find_objects session attributes 2).1 ≡ ok k)
chosen fl session attributes h = ground (arith, h)

-- The template asks for what is wanted.
template_lem :
    (label : Option (List ℕ)) (o : TokenObject)
    → satisfies (search_attributes label) o ≡ is_wanted label o
template_lem none o = ground arith
template_lem (some l) o = ground arith

handles_template :
    (label : Option (List ℕ)) (os : List TokenObject)
    → handles (satisfies (search_attributes label)) os ≡ handles (is_wanted label) os
handles_template label [] = refl
handles_template label (o ∷ os) = rw (template_lem label o, handles_template label os) refl

-- Of two objects at most, one is the only one.
take_one : (xs : List ℕ) {x : ℕ} → take 2 xs ≡ x ∷ [] → xs ≡ x ∷ []
take_one [] h = h
take_one (y ∷ []) h = h
take_one (y ∷ z ∷ xs) h = absurd (ground (arith, h))

-- Where the library finds the objects that match a template, up to the maximum it is given: a key is found only if it
-- is the token's only private key with the label that is asked for, its type is read and is RSA or EC, and the search
-- is ended without an error.
pub find_private_key-only :
    (fl : FunctionList) (objects : List TokenObject) (session : ℕ) (label : Option (List ℕ))
    {key key_type : ℕ}
    → IsSearch fl session objects
    → (find_private_key fl session label).0 ≡ ok (key, key_type)
    → IsOnlyKey fl objects session label key key_type
find_private_key-only fl objects session label {key} {key_type} lib h =
    let ended =
      finalize_search-ok (fl.find_objects_final session)
        (search_key fl session (search_attributes label)) (searched fl session label h) in
    let picked = chosen fl session (search_attributes label) ended.0 in
    let c =
      choose_key-only fl session (fl.find_objects session (search_attributes label) 2).1 picked.1 in
    record {
      only =
          sym (handles_template label objects)
          ∙ take_one (handles (satisfies (search_attributes label)) objects)
              (sym (lib.answers (search_attributes label) 2 picked.0) ∙ c.0);
      is_valid = c.1;
      type_read = c.2;
      type_supported = c.3;
      search_ended = ended.1;
    }

-- A DigestInfo: a SEQUENCE of a SEQUENCE, which names the algorithm, and an OCTET STRING, which is the answer
abbrev pub octets : List ℕ → Option (List ℕ)
octets [] = none
octets (t ∷ []) = none
octets (t ∷ n ∷ rest) = if (t == 0x04) && (n == length rest) then some rest else none

abbrev pub behind_algorithm : List ℕ → Option (List ℕ)
behind_algorithm [] = none
behind_algorithm (t ∷ []) = none
behind_algorithm (t ∷ n ∷ rest) = if t == 0x30 then octets (drop n rest) else none

abbrev pub read_digest_info : List ℕ → Option (List ℕ)
read_digest_info [] = none
read_digest_info (t ∷ []) = none
read_digest_info (t ∷ n ∷ rest) =
    if (t == 0x30) && (n == length rest) then behind_algorithm rest else none

-- The size of a digest
abbrev pub digest_size : HashAlgorithm → ℕ
digest_size unknown_hash = 0
digest_size sha1 = 20
digest_size sha224 = 28
digest_size sha256 = 32
digest_size sha384 = 48
digest_size sha512 = 64

-- With the digest of an algorithm behind it, the prefix is a DigestInfo of this digest, all lengths included.
pub read_digest_info-prefix :
    (alg : HashAlgorithm) (digest : List ℕ) {prefix : List ℕ}
    → prefix_to_rsa_sig alg ≡ some prefix
    → length digest ≡ digest_size alg
    → read_digest_info (prefix ++ digest) ≡ some digest
read_digest_info-prefix unknown_hash digest h n = absurd (ground (arith, h))
read_digest_info-prefix sha1 digest h n = ground (arith, h, n)
read_digest_info-prefix sha224 digest h n = ground (arith, h, n)
read_digest_info-prefix sha256 digest h n = ground (arith, h, n)
read_digest_info-prefix sha384 digest h n = ground (arith, h, n)
read_digest_info-prefix sha512 digest h n = ground (arith, h, n)
