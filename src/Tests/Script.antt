-- ===== src/Tests/Script.antt =====
-- Scripts of examples/kdapp-merchant/src/script.rs, and a payment.
use kdapp.Base.{ℕ, ◌≡◌, refl, some, List, [], ◌∷◌, ◌++◌, replicate, arith}
use kdapp.Episode.{Result, ok, TxOutputInfo}
use kdapp.Script.{
  ScriptError, PaymentSummary, KeyForms, canonicalize_push, sized_push, item, normalize_from,
  normalize_script_bytes, decode_small_int, parse_multisig, matches_p2pk, matches_guardian,
  matches_taproot, matched, enforce_payment_policy,
}
use kdapp.Script.Idempotent.{normalize_script_bytes-normalize_script_bytes}
use kdapp.Script.Policy.{Pays, enforce_payment_policy-Pays}

-- A push of three bytes in its long form.
abbrev long_push : List ℕ
long_push = 76 ∷ 3 ∷ 7 ∷ 8 ∷ 9 ∷ 172 ∷ []

normalize_script_bytes-normalize_script_bytes_example :
    (r : Result ScriptError (List ℕ)) × (normalize_script_bytes long_push ≡ some r)
    × ((t : List ℕ) → r ≡ ok t → normalize_script_bytes t ≡ some (ok t))
normalize_script_bytes-normalize_script_bytes_example =
    normalize_script_bytes-normalize_script_bytes long_push refl

shortened : normalize_script_bytes long_push ≡ some (ok (3 ∷ 7 ∷ 8 ∷ 9 ∷ 172 ∷ []))
unfolding normalize_script_bytes normalize_from item sized_push canonicalize_push
shortened = refl

abbrev forms : KeyForms
forms = record { serialize = λ key. key ∷ replicate 32 0; x_only = λ key. replicate 32 key }

abbrev output : ℕ → TxOutputInfo
output key = record {
  value = 600;
  script_version = 0;
  script_bytes = some (33 ∷ ((key ∷ replicate 32 0) ++ 172 ∷ []));
}

-- The merchant's key is 5; the output to key 6 is not counted.
abbrev outputs : List TxOutputInfo
outputs = output 5 ∷ output 6 ∷ output 5 ∷ []

abbrev summary : PaymentSummary
summary = record { covered_value = 1200; matched_outputs = 2 }

outputs-Pays : Pays forms (5 ∷ []) (9 ∷ []) outputs 1000 summary
unfolding normalize_script_bytes normalize_from item sized_push canonicalize_push matched
    matches_p2pk matches_guardian matches_taproot parse_multisig decode_small_int
outputs-Pays = record {
  normal = refl;
  fits = omega arith;
  some_output = omega arith;
  enough = omega arith;
  value = refl;
  outputs = refl;
}

enforce_payment_policy-Pays_example :
    (enforce_payment_policy forms (5 ∷ []) (9 ∷ []) outputs 1000 ≡ some (ok summary)
      → Pays forms (5 ∷ []) (9 ∷ []) outputs 1000 summary)
    × (Pays forms (5 ∷ []) (9 ∷ []) outputs 1000 summary
        → enforce_payment_policy forms (5 ∷ []) (9 ∷ []) outputs 1000 ≡ some (ok summary))
enforce_payment_policy-Pays_example =
    enforce_payment_policy-Pays forms (5 ∷ []) (9 ∷ []) outputs 1000 summary
