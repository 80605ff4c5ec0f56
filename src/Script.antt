-- ===== src/Script.antt =====
-- examples/kdapp-merchant/src/script.rs: which outputs pay a merchant. Scripts are lists of bytes.
pub mod Normal
pub mod Canonical
pub mod Idempotent
pub mod Policy
use kdapp.Base.{
  ℕ, zero, suc, ◌+◌, ◌-◌, ◌%◌, Bool, true, false, not, ◌&&◌, ◌||◌, Option, none, some, List, [],
  ◌∷◌, ◌++◌, map, length, take, drop, slice, byte, any, push_back, ltb, leb, ◌==◌, if◌then◌else◌,
  to_le_bytes, from_le_bytes, bytes_eq, u64_mod,
}
use kdapp.Episode.{Result, ok, err, TxOutputInfo}

pub data ScriptError : Type 0 where
  malformed_script no_matching_outputs value_overflow : ScriptError
  insufficient_value : (required found : ℕ) → ScriptError

pub record PaymentSummary : Type 0 where
  pub covered_value : ℕ
  pub matched_outputs : ℕ

unfoldable pub canonicalize_push : List ℕ → List ℕ
canonicalize_push bytes =
    let n = length bytes in
    if n == 0
    then 0 ∷ []
    else if leb n 75
    then n ∷ bytes
    else if leb n 255
    then 76 ∷ n ∷ bytes
    else if leb n 65535
    then 77 ∷ (to_le_bytes 2 n ++ bytes)
    else 78 ∷ (to_le_bytes 4 n ++ bytes)

-- A push whose length stands in the next bytes: what is written, and what is left.
unfoldable pub sized_push : ℕ → List ℕ → Option (List ℕ × List ℕ)
sized_push width rest =
    if ltb (length rest) width
    then none
    else (let len = from_le_bytes (take width rest) in
        let body = drop width rest in
        if ltb (length body) len
        then none
        else some (canonicalize_push (take len body), drop len body))

-- One round of the loop, for the opcode that was read.
unfoldable pub item : ℕ → List ℕ → Option (List ℕ × List ℕ)
item opcode rest =
    if leb 1 opcode && leb opcode 75
    then (if ltb (length rest) opcode
        then none
        else some (opcode ∷ take opcode rest, drop opcode rest))
    else if opcode == 76
    then sized_push 1 rest
    else if opcode == 77
    then sized_push 2 rest
    else if opcode == 78
    then sized_push 4 rest
    else some (opcode ∷ [], rest)

abbrev pub prepend :
    List ℕ → Option (Result ScriptError (List ℕ)) → Option (Result ScriptError (List ℕ))
prepend written (some (ok more)) = some (ok (written ++ more))
prepend written other = other

-- The loop, on fuel: `none` is that it ran out.
unfoldable pub normalize_from : ℕ → List ℕ → Option (Result ScriptError (List ℕ))
normalize_from fuel [] = some (ok [])
normalize_from zero (opcode ∷ rest) = none
normalize_from (suc fuel) (opcode ∷ rest) = elim (item opcode rest) [
  | none ↦ some (err malformed_script)
  | some (written, left) ↦ prepend written (normalize_from fuel left)
]

-- Each round reads a byte, so the length is enough fuel.
unfoldable pub normalize_script_bytes : List ℕ → Option (Result ScriptError (List ℕ))
normalize_script_bytes bytes = normalize_from (length bytes) bytes

unfoldable pub decode_small_int : ℕ → Option ℕ
decode_small_int op =
    if op == 0 then some 0 else if leb 81 op && leb op 96 then some (op - 80) else none

-- The loop over the keys, each round of which reads a byte: the keys, and what is left.
unfoldable pub parse_keys : ℕ → List ℕ → List (List ℕ) → Option (List (List ℕ) × List ℕ)
parse_keys fuel [] keys = some (keys, [])
parse_keys zero (opcode ∷ rest) keys = some (keys, opcode ∷ rest)
parse_keys (suc fuel) (opcode ∷ rest) keys = elim (leb 1 opcode && leb opcode 75) [
  | false ↦ some (keys, opcode ∷ rest)
  | true ↦ elim (ltb (length rest) opcode) [
    | true ↦ none
    | false ↦ parse_keys fuel (drop opcode rest) (push_back keys (take opcode rest))
  ]
]

-- The end of a script: n, OP_CHECKMULTISIG, and nothing more.
unfoldable pub parse_end : ℕ → List (List ℕ) → List ℕ → Option (ℕ × List (List ℕ) × ℕ)
parse_end m keys (op ∷ check ∷ []) = elim (decode_small_int op) [
  | none ↦ none
  | some n ↦ if check == 174 && n == length keys then some (m, keys, n) else none
]
parse_end m keys _ = none

unfoldable pub parse_multisig : List ℕ → Option (ℕ × List (List ℕ) × ℕ)
parse_multisig [] = none
parse_multisig (op ∷ rest) = elim (decode_small_int op) [
  | none ↦ none
  | some m ↦ elim (parse_keys (length rest) rest []) [
    | none ↦ none
    | some (keys, left) ↦ parse_end m keys left
  ]
]

abbrev pub has_key : List (List ℕ) → List ℕ → Bool
has_key keys key = any (λ candidate. bytes_eq candidate key) keys

unfoldable pub matches_p2pk : List ℕ → List (List ℕ) → Bool
matches_p2pk script merchant_keys =
    if not (length script == 35) || not (byte script 0 == 33) || not (byte script 34 == 172)
    then false
    else has_key merchant_keys (slice 1 34 script)

-- How many keys are the merchant's and the guardian's; nothing where there is a stranger's.
unfoldable pub count_keys : List (List ℕ) → List (List ℕ) → List (List ℕ) → ℕ → ℕ → Option (ℕ × ℕ)
count_keys merchant_keys guardian_keys [] merchants guardians = some (merchants, guardians)
count_keys merchant_keys guardian_keys (key ∷ keys) merchants guardians =
    elim (has_key merchant_keys key) [
      | true ↦ count_keys merchant_keys guardian_keys keys (merchants + 1) guardians
      | false ↦ elim (has_key guardian_keys key) [
        | true ↦ count_keys merchant_keys guardian_keys keys merchants (guardians + 1)
        | false ↦ none
      ]
    ]

unfoldable pub both_sides : Option (ℕ × ℕ) → Bool
both_sides none = false
both_sides (some (merchants, guardians)) = leb 1 merchants && leb 1 guardians

unfoldable pub matches_guardian : List ℕ → List (List ℕ) → List (List ℕ) → Bool
matches_guardian script merchant_keys [] = false
matches_guardian script merchant_keys (g ∷ gs) = elim (parse_multisig script) [
  | none ↦ false
  | some (m, keys, n) ↦
      if m == 0 || n == 0 || ltb n m
      then false
      else both_sides (count_keys merchant_keys (g ∷ gs) keys 0 0)
]

unfoldable pub matches_taproot : List ℕ → ℕ → List (List ℕ) → Bool
matches_taproot script script_version merchant_xonly =
    if not (script_version == 1)
    then false
    else if length script == 33 && byte script 0 == 32
    then has_key merchant_xonly (drop 1 script)
    else if length script == 34 && byte script 0 == 81 && byte script 1 == 32
    then has_key merchant_xonly (drop 2 script)
    else false

-- The serialised forms of a key, of the crate secp256k1.
pub record KeyForms : Type 0 where
  pub serialize : ℕ → List ℕ
  pub x_only : ℕ → List ℕ

-- The checks after the loop.
abbrev pub judge : ℕ → PaymentSummary → Result ScriptError PaymentSummary
judge required_amount sum =
    if sum.matched_outputs == 0
    then err no_matching_outputs
    else if ltb sum.covered_value required_amount
    then err (insufficient_value required_amount sum.covered_value)
    else ok sum

abbrev pub finish :
    ℕ → Option (Result ScriptError PaymentSummary) → Option (Result ScriptError PaymentSummary)
finish required_amount none = none
finish required_amount (some (err e)) = some (err e)
finish required_amount (some (ok sum)) = some (judge required_amount sum)

module _ (forms : KeyForms) (merchant_keys guardian_keys : List ℕ) where
  -- Whether an output of a normalised script counts.
  unfoldable pub matched : List ℕ → ℕ → Bool
  matched normalized script_version =
      matches_p2pk normalized (map forms.serialize merchant_keys)
      || (matches_guardian normalized (map forms.serialize merchant_keys)
            (map forms.serialize guardian_keys)
          || matches_taproot normalized script_version (map forms.x_only merchant_keys))

  abbrev pub add_output : PaymentSummary → TxOutputInfo → List ℕ → Result ScriptError PaymentSummary
  add_output sum output normalized =
      if not (matched normalized output.script_version)
      then ok sum
      else if leb u64_mod (sum.covered_value + output.value)
      then err value_overflow
      else ok (record {
        covered_value = sum.covered_value + output.value;
        matched_outputs = sum.matched_outputs + 1;
      })

  -- The loop over the outputs; `none` is that normalising ran out of fuel.
  unfoldable pub add_outputs :
      PaymentSummary → List TxOutputInfo → Option (Result ScriptError PaymentSummary)
  add_outputs sum [] = some (ok sum)
  add_outputs sum (output ∷ outputs) = elim output.script_bytes [
    | none ↦ add_outputs sum outputs
    | some bytes ↦ elim (normalize_script_bytes bytes) [
      | none ↦ none
      | some (err e) ↦ some (err e)
      | some (ok normalized) ↦ elim (add_output sum output normalized) [
        | err e ↦ some (err e)
        | ok sum' ↦ add_outputs sum' outputs
      ]
    ]
  ]

  unfoldable pub enforce_payment_policy :
      List TxOutputInfo → ℕ → Option (Result ScriptError PaymentSummary)
  enforce_payment_policy outputs required_amount =
      finish required_amount
        (add_outputs (record { covered_value = 0; matched_outputs = 0 }) outputs)
