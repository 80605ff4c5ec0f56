-- ===== src/Script/Policy.antt =====
-- What `enforce_payment_policy` of examples/kdapp-merchant/src/script.rs accepts.
use kdapp.Base.{
  ℕ, ◌+◌, ◌≤◌, ◌<◌, ◌≡◌, refl, sym, ap, subst, ◌∙◌, Bool, true, false, Option, none, some, List, [],
  ◌∷◌, all, if◌then◌else◌, u64_mod, arith, Bool-cases, inl, inr,
}
use kdapp.Episode.{Result, ok, err, TxOutputInfo}
use kdapp.Script.{
  ScriptError, PaymentSummary, normalize_script_bytes, KeyForms, matched, add_outputs, judge,
  finish, enforce_payment_policy,
}

ok_inj :
    {s t : PaymentSummary}
    → ◌≡◌ {A = Option (Result ScriptError PaymentSummary)} (some (ok s)) (some (ok t))
    → s ≡ t
ok_inj h = cc

summary_eq :
    {v w c d : ℕ}
    → v ≡ w
    → c ≡ d
    → ◌≡◌ {A = PaymentSummary}
        (record { covered_value = v; matched_outputs = c })
        (record { covered_value = w; matched_outputs = d })
summary_eq p q = λ i. record { covered_value = p i; matched_outputs = q i }

judge_ok :
    (required_amount : ℕ) (sum s : PaymentSummary)
    → judge required_amount sum ≡ ok s
    → (s ≡ sum) × (1 ≤ sum.matched_outputs) × (required_amount ≤ sum.covered_value)
judge_ok required_amount sum s h = ground arith

ok_judge :
    (required_amount : ℕ) (sum : PaymentSummary)
    → 1 ≤ sum.matched_outputs
    → required_amount ≤ sum.covered_value
    → judge required_amount sum ≡ ok sum
ok_judge required_amount sum h k = ground arith

finish_ok :
    (required_amount : ℕ) (r : Option (Result ScriptError PaymentSummary)) (s : PaymentSummary)
    → finish required_amount r ≡ some (ok s)
    → (r ≡ some (ok s)) × (1 ≤ s.matched_outputs) × (required_amount ≤ s.covered_value)
finish_ok required_amount none s h = absurd (ground arith)
finish_ok required_amount (some (err e)) s h = absurd (ground arith)
finish_ok required_amount (some (ok sum)) s h =
    let (same, one, enough) = judge_ok required_amount sum s (ground arith) in
    (
      ap (λ (u : PaymentSummary). some (ok u)) (sym same),
      subst (λ (u : PaymentSummary). 1 ≤ u.matched_outputs) (sym same) one,
      subst (λ (u : PaymentSummary). required_amount ≤ u.covered_value) (sym same) enough,
    )

module _ (forms : KeyForms) (merchant_keys guardian_keys : List ℕ) where
  -- An output has no script that is known, or one that can be normalised.
  abbrev pub is_normal : TxOutputInfo → Bool
  is_normal o = elim o.script_bytes [
    | none ↦ true
    | some bytes ↦ elim (normalize_script_bytes bytes) [
      | none ↦ false
      | some (err e) ↦ false
      | some (ok n) ↦ true
    ]
  ]

  -- An output pays one of the merchant's scripts.
  abbrev pub covers : TxOutputInfo → Bool
  covers o = elim o.script_bytes [
    | none ↦ false
    | some bytes ↦ elim (normalize_script_bytes bytes) [
      | none ↦ false
      | some (err e) ↦ false
      | some (ok n) ↦ matched forms merchant_keys guardian_keys n o.script_version
    ]
  ]

  -- The value of the outputs that pay the merchant, and how many there are.
  abbrev pub covered : List TxOutputInfo → ℕ
  covered [] = 0
  covered (o ∷ os) = (if covers o then o.value else 0) + covered os

  abbrev pub count : List TxOutputInfo → ℕ
  count [] = 0
  count (o ∷ os) = (if covers o then 1 else 0) + count os

  abbrev after : PaymentSummary → List TxOutputInfo → PaymentSummary
  after sum os = record {
    covered_value = sum.covered_value + covered os;
    matched_outputs = sum.matched_outputs + count os;
  }

  abbrev with_output : PaymentSummary → TxOutputInfo → PaymentSummary
  with_output sum o =
      if covers o
      then record {
        covered_value = sum.covered_value + o.value;
        matched_outputs = sum.matched_outputs + 1;
      }
      else sum

  add_outputs-step :
      (sum : PaymentSummary) (o : TxOutputInfo) (os : List TxOutputInfo)
      → is_normal o ≡ true
      → sum.covered_value + (if covers o then o.value else 0) < u64_mod
      → add_outputs forms merchant_keys guardian_keys sum (o ∷ os)
        ≡ add_outputs forms merchant_keys guardian_keys (with_output sum o) os
  unfolding add_outputs
  add_outputs-step sum o os normal room = ground arith

  add_outputs-inv :
      (sum s : PaymentSummary) (o : TxOutputInfo) (os : List TxOutputInfo)
      → sum.covered_value < u64_mod
      → add_outputs forms merchant_keys guardian_keys sum (o ∷ os) ≡ some (ok s)
      → (is_normal o ≡ true) × (sum.covered_value + (if covers o then o.value else 0) < u64_mod)
  unfolding add_outputs
  add_outputs-inv sum s o os room h = ground arith

  abbrev value_of : TxOutputInfo → ℕ
  value_of o = if covers o then o.value else 0

  covered-with_output :
      (sum : PaymentSummary) (o : TxOutputInfo)
      → (with_output sum o).covered_value ≡ sum.covered_value + value_of o
  covered-with_output sum o = ground arith

  after-with_output :
      (sum : PaymentSummary) (o : TxOutputInfo) (os : List TxOutputInfo)
      → after (with_output sum o) os ≡ after sum (o ∷ os)
  after-with_output sum o os = elim (Bool-cases (covers o)) [
    | inl yes_covers ↦ rw yes_covers (summary_eq (omega arith) (omega arith))
    | inr not_covers ↦ rw not_covers (summary_eq (omega arith) (omega arith))
  ]

  add_outputs-ok :
      (sum : PaymentSummary) (os : List TxOutputInfo)
      → all is_normal os ≡ true
      → sum.covered_value + covered os < u64_mod
      → add_outputs forms merchant_keys guardian_keys sum os ≡ some (ok (after sum os))
  unfolding add_outputs
  add_outputs-ok sum [] normal room =
      ap (λ (s : PaymentSummary). some (ok s)) (summary_eq (omega arith) (omega arith))
  add_outputs-ok sum (o ∷ os) normal room =
      let n : is_normal o ≡ true = ground arith in
      let ns : all is_normal os ≡ true = ground arith in
      add_outputs-step sum o os n (omega (arith, room))
      ∙ add_outputs-ok (with_output sum o) os ns (omega (arith, room, covered-with_output sum o))
      ∙ ap (λ (s : PaymentSummary). some (ok s)) (after-with_output sum o os)

  add_outputs-only :
      (sum s : PaymentSummary) (os : List TxOutputInfo)
      → sum.covered_value < u64_mod
      → add_outputs forms merchant_keys guardian_keys sum os ≡ some (ok s)
      → (all is_normal os ≡ true) × (sum.covered_value + covered os < u64_mod)
  add_outputs-only sum s [] room h = (refl, omega (arith, room))
  add_outputs-only sum s (o ∷ os) room h =
      let (n, fits) = add_outputs-inv sum s o os room h in
      let (ns, rest) =
        add_outputs-only (with_output sum o) s os (omega (arith, fits, covered-with_output sum o))
          (sym (add_outputs-step sum o os n fits) ∙ h) in
      (ground (arith, n, ns), omega (arith, rest, covered-with_output sum o))

  abbrev empty : PaymentSummary
  empty = record { covered_value = 0; matched_outputs = 0 }

  -- The outputs are normal, those that pay the merchant take together at least the amount and
  -- less than 2 ^ 64, and there is one.
  pub record Pays (os : List TxOutputInfo) (required_amount : ℕ) (s : PaymentSummary) : Type 0 where
    pub normal : all is_normal os ≡ true
    pub fits : covered os < u64_mod
    pub some_output : 1 ≤ count os
    pub enough : required_amount ≤ covered os
    pub value : s.covered_value ≡ covered os
    pub outputs : s.matched_outputs ≡ count os

  enforce_only :
      (os : List TxOutputInfo) (required_amount : ℕ) (s : PaymentSummary)
      → enforce_payment_policy forms merchant_keys guardian_keys os required_amount ≡ some (ok s)
      → Pays os required_amount s
  unfolding enforce_payment_policy
  enforce_only os required_amount s h =
      let (sum, one, enough) =
        finish_ok required_amount (add_outputs forms merchant_keys guardian_keys empty os) s h in
      let (normal, fits) = add_outputs-only empty s os (omega arith) sum in
      let same : s ≡ after empty os = ok_inj (sym sum ∙ add_outputs-ok empty os normal fits) in
      let v : s.covered_value ≡ covered os =
        ap (λ (u : PaymentSummary). u.covered_value) same ∙ omega arith in
      let c : s.matched_outputs ≡ count os =
        ap (λ (u : PaymentSummary). u.matched_outputs) same ∙ omega arith in
      record {
        normal = normal;
        fits = omega (arith, fits);
        some_output = omega (arith, one, c);
        enough = omega (arith, enough, v);
        value = v;
        outputs = c;
      }

  enforce-Pays :
      (os : List TxOutputInfo) (required_amount : ℕ) (s : PaymentSummary)
      → Pays os required_amount s
      → enforce_payment_policy forms merchant_keys guardian_keys os required_amount ≡ some (ok s)
  unfolding enforce_payment_policy
  enforce-Pays os required_amount s p =
      let e : add_outputs forms merchant_keys guardian_keys empty os ≡ some (ok (after empty os)) =
        add_outputs-ok empty os p.normal (omega (arith, p.fits)) in
      let v : 0 + covered os ≡ s.covered_value = omega (arith, p.value) in
      let c : 0 + count os ≡ s.matched_outputs = omega (arith, p.outputs) in
      let same : after empty os ≡ s = summary_eq v c in
      ap (finish required_amount) (e ∙ ap (λ (u : PaymentSummary). some (ok u)) same)
      ∙ ap some (
          ok_judge required_amount s (omega (arith, p.some_output, p.outputs))
            (omega (arith, p.enough, p.value)))

  -- A payment is accepted, with a summary, exactly when every output's script is known to be well
  -- formed or is not known, the outputs that pay the merchant take less than 2 ^ 64 and at least
  -- the amount, there is one of them, and the summary is their value and number.
  pub enforce_payment_policy-Pays :
      (os : List TxOutputInfo) (required_amount : ℕ) (s : PaymentSummary)
      → (enforce_payment_policy forms merchant_keys guardian_keys os required_amount ≡ some (ok s)
          → Pays os required_amount s)
        × (Pays os required_amount s
            → enforce_payment_policy forms merchant_keys guardian_keys os required_amount
              ≡ some (ok s))
  enforce_payment_policy-Pays os required_amount s =
      (enforce_only os required_amount s, enforce-Pays os required_amount s)
