-- ===== src/Customer/Agreed.antt =====
-- What the customer's copy (examples/kdapp-customer/src/episode.rs) takes for a payment, against the
-- merchant's (examples/kdapp-merchant/src/episode.rs and script.rs).
use kdapp.Base.{
  ℕ, zero, suc, ◌≤◌, ◌<◌, ◌≡◌, refl, ap, ◌∙◌, true, false, Option, none, some, List, [], ◌∷◌, ◌++◌,
  map, length, length-append, take-append, get_elem?, byte, slice, all, lookup, contains, ◌==◌, ltb,
  bytes_eq, bytes_eq_self, eq_of_bytes_eq, u64_mod, arith, Bool-cases, Option-cases, inl, inr,
}
use kdapp.Episode.{ok, TxOutputInfo, PayloadMetadata}
use kdapp.Script.{
  KeyForms, PaymentSummary, item, normalize_from, normalize_script_bytes, matches_p2pk, has_key,
  matched,
}
use kdapp.Script.Normal.{normalize_from-cons}
use kdapp.Script.Canonical.{short_push}
use kdapp.Script.Policy.{is_normal, covers, covered, count, enforce_payment_policy-Pays}
use kdapp.Merchant.{mark_paid, opened, undo_paid, CustomerInfo, Surroundings}
use kdapp.Merchant as Merchant
use kdapp.Merchant.Invoices.{settled, is_signer}
use kdapp.Merchant.Invoices as Invoices
use kdapp.Merchant.Execute as Execute
use kdapp.Customer.{Invoice, ReceiptEpisode, p2pk_script, check_outputs, pay, execute}

-- The script of a key of 33 bytes is in normal form.
normalize_script_bytes-p2pk_script :
    (forms : KeyForms) (pk : ℕ)
    → length (forms.serialize pk) ≡ 33
    → normalize_script_bytes (p2pk_script forms pk) ≡ some (ok (p2pk_script forms pk))
unfolding normalize_script_bytes normalize_from item
normalize_script_bytes-p2pk_script forms pk h =
    let key = forms.serialize pk in
    let long : length (key ++ 172 ∷ []) ≡ 34 = length-append key (172 ∷ []) ∙ omega arith in
    let read = short_push 33 key (172 ∷ []) h refl in
    normalize_from-cons (length (key ++ 172 ∷ [])) 33 (key ++ 172 ∷ []) (33 ∷ key) (172 ∷ []) read
    ∙ rw long refl

get_elem?-append :
    (xs : List ℕ) (y : ℕ) (n : ℕ) → length xs ≡ n → get_elem? (xs ++ y ∷ []) n ≡ some y
get_elem?-append [] y zero h = refl
get_elem?-append [] y (suc n) h = absurd (omega arith)
get_elem?-append (x ∷ xs) y zero h = absurd (omega arith)
get_elem?-append (x ∷ xs) y (suc n) h = get_elem?-append xs y n (omega arith)

has_key-serialize :
    (forms : KeyForms) (keys : List ℕ) (pk : ℕ)
    → contains keys pk ≡ true
    → has_key (map forms.serialize keys) (forms.serialize pk) ≡ true
has_key-serialize forms [] pk h = absurd (ground arith)
has_key-serialize forms (k ∷ keys) pk h = elim (Bool-cases (k == pk)) [
  | inl same ↦ let e : k ≡ pk = ground arith in rw e (rw (bytes_eq_self (forms.serialize pk)) refl)
  | inr other ↦ ground (arith, has_key-serialize forms keys pk)
]

matches_p2pk-p2pk_script :
    (forms : KeyForms) (keys : List ℕ) (pk : ℕ)
    → length (forms.serialize pk) ≡ 33
    → contains keys pk ≡ true
    → matches_p2pk (p2pk_script forms pk) (map forms.serialize keys) ≡ true
unfolding matches_p2pk
matches_p2pk-p2pk_script forms keys pk h mine =
    let key = forms.serialize pk in
    let long : length (key ++ 172 ∷ []) ≡ 34 = length-append key (172 ∷ []) ∙ omega arith in
    let last : byte (p2pk_script forms pk) 34 ≡ 172 =
      ap (λ (o : Option ℕ). elim o as (λ _. ℕ) [ none ↦ 0 | some b ↦ b ])
        (get_elem?-append key 172 33 h) in
    let middle : slice 1 34 (p2pk_script forms pk) ≡ key = take-append key (172 ∷ []) 33 h in
    let known = has_key-serialize forms keys pk mine in
    rw (long, matches_p2pk) (rw last (rw middle known))

module _ (forms : KeyForms) (keys guardians : List ℕ) where
  covers_own :
      (pk : ℕ) (o : TxOutputInfo) (bytes : List ℕ)
      → length (forms.serialize pk) ≡ 33
      → contains keys pk ≡ true
      → o.script_bytes ≡ some bytes
      → bytes_eq bytes (p2pk_script forms pk) ≡ true
      → covers forms keys guardians o ≡ true
  unfolding matched
  covers_own pk o bytes h mine known same =
      let is : bytes ≡ p2pk_script forms pk = eq_of_bytes_eq bytes (p2pk_script forms pk) same in
      let script : o.script_bytes ≡ some (p2pk_script forms pk) = known ∙ ap (λ b. some b) is in
      let normal = normalize_script_bytes-p2pk_script forms pk h in
      let found : matched forms keys guardians (p2pk_script forms pk) o.script_version ≡ true =
        rw (matches_p2pk-p2pk_script forms keys pk h mine, matched) refl in
      ground (arith, script, normal, found)

  check_outputs-covered :
      (pk amount : ℕ) (outs : List TxOutputInfo)
      → length (forms.serialize pk) ≡ 33
      → contains keys pk ≡ true
      → check_outputs (p2pk_script forms pk) amount outs ≡ ok tt
      → (amount ≤ covered forms keys guardians outs) × (1 ≤ count forms keys guardians outs)
  unfolding check_outputs
  check_outputs-covered pk amount [] h mine good = absurd (ground arith)
  check_outputs-covered pk amount (o ∷ outs) h mine good = elim (Option-cases o.script_bytes) [
    | inl unknown ↦
        let (a, b) = check_outputs-covered pk amount outs h mine (ground arith) in
        (omega arith, omega arith)
    | inr (bytes, known) ↦ elim (Bool-cases (bytes_eq bytes (p2pk_script forms pk))) [
      | inl same ↦
          let covering = covers_own pk o bytes h mine known same in
          let enough : ltb o.value amount ≡ false = ground arith in
          rw covering (ground arith, ground arith)
      | inr other ↦
          let (a, b) = check_outputs-covered pk amount outs h mine (ground arith) in
          (omega arith, omega arith)
    ]
  ]

paid-checked :
    (forms : KeyForms) (c c' : ReceiptEpisode) (invoice_id payer : ℕ) (ci : Invoice)
    (authorization : Option ℕ) (md : PayloadMetadata) (outs : List TxOutputInfo)
    → lookup invoice_id c.invoices ≡ some ci
    → md.tx_outputs ≡ some outs
    → execute forms c (mark_paid invoice_id payer) authorization md ≡ (c', ok tt)
    → (is_signer authorization payer ≡ true)
      × (check_outputs (p2pk_script forms ci.merchant_pubkey) ci.amount outs ≡ ok tt)
unfolding execute pay
paid-checked forms c c' invoice_id payer ci authorization md outs known has h =
    (ground arith, ground arith)

-- A payment that the customer's copy of an invoice accepts, in a transaction whose known scripts can
-- all be normalised and whose outputs to the merchant stay below 2 ^ 64, is accepted by the merchant:
-- if the merchant has the same amount for the invoice, holds it open, owns the key that the customer
-- has for it, knows the payer and has not seen the transaction, then the same command settles it.
-- Keys have 33 bytes.
pub mark_paid-pay :
    (env : Surroundings) (c c' : ReceiptEpisode) (s : Merchant.ReceiptEpisode)
    (invoice_id payer : ℕ) (ci : Invoice) (inv : Merchant.Invoice) (info : CustomerInfo)
    (authorization : Option ℕ) (md : PayloadMetadata) (outs : List TxOutputInfo)
    → execute env.forms c (mark_paid invoice_id payer) authorization md ≡ (c', ok tt)
    → lookup invoice_id c.invoices ≡ some ci
    → md.tx_outputs ≡ some outs
    → length (env.forms.serialize ci.merchant_pubkey) ≡ 33
    → all (is_normal env.forms s.merchant_keys inv.guardian_keys) outs ≡ true
    → covered env.forms s.merchant_keys inv.guardian_keys outs < u64_mod
    → lookup invoice_id s.invoices ≡ some inv
    → inv.status ≡ opened
    → inv.amount ≡ ci.amount
    → contains s.merchant_keys ci.merchant_pubkey ≡ true
    → lookup payer s.customers ≡ some info
    → contains s.used_carrier_txs md.tx_id ≡ false
    → Execute.execute env s (mark_paid invoice_id payer) authorization md
      ≡ some (settled s invoice_id payer inv info md, ok (undo_paid invoice_id))
unfolding Execute.execute Invoices.pay Invoices.pay_open
mark_paid-pay env c c' s invoice_id payer ci inv info authorization md outs h known has long normal
      fits found still_open same_amount mine customer fresh =
    let (signed, good) =
      paid-checked env.forms c c' invoice_id payer ci authorization md outs known has h in
    let (enough, one) =
      check_outputs-covered env.forms s.merchant_keys inv.guardian_keys ci.merchant_pubkey ci.amount
        outs long mine good in
    let summary : PaymentSummary = record {
      covered_value = covered env.forms s.merchant_keys inv.guardian_keys outs;
      matched_outputs = count env.forms s.merchant_keys inv.guardian_keys outs;
    } in
    let taken =
      (enforce_payment_policy-Pays env.forms s.merchant_keys inv.guardian_keys outs inv.amount
          summary).1
        (record {
          normal = normal;
          fits = fits;
          some_output = one;
          enough = omega arith;
          value = refl;
          outputs = refl;
        }) in
    ground (arith, taken)
