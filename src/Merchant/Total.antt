-- ===== src/Merchant/Total.antt =====
-- A payment of examples/kdapp-merchant/src/episode.rs has a result, since each loop over a script ends.
use kdapp.Base.{
  ℕ, ◌≡◌, refl, ap, ◌∙◌, true, false, Option, some, List, [], ◌∷◌, lookup, contains, length, arith,
  Bool-cases, Option-cases, inl, inr, ◌⊎◌,
}
use kdapp.Episode.{Result, ok, err, unauthorized, TxOutputInfo, PayloadMetadata}
use kdapp.Script.{
  ScriptError, PaymentSummary, KeyForms, normalize_script_bytes, add_output, add_outputs, judge,
  finish, enforce_payment_policy,
}
use kdapp.Script.Normal.{normalize_from_total}
use kdapp.Merchant.{
  Invoice, InvoiceStatus, opened, paid, acked, canceled, ReceiptEpisode, Surroundings, Outcome,
  unknown_customer, invalid_script, not_found, already_paid, already_canceled, duplicate_payment,
  undo_paid,
}
use kdapp.Merchant.Invoices.{refuse, mapped, settled, is_signer, pay_open, pay}

normalize_total :
    (bytes : List ℕ) → (r : Result ScriptError (List ℕ)) × (normalize_script_bytes bytes ≡ some r)
unfolding normalize_script_bytes
normalize_total bytes = normalize_from_total (length bytes) bytes (omega arith)

either :
    {A : Type 0} (x : Option (Result ScriptError A))
    → (r : Result ScriptError A) × (x ≡ some r)
    → ((e : ScriptError) × (x ≡ some (err e))) ⊎ ((a : A) × (x ≡ some (ok a)))
either x (err e, h) = inl (e, h)
either x (ok a, h) = inr (a, h)

carry :
    {x y : Option Outcome}
    → x ≡ y
    → (out : Outcome) × (y ≡ some out)
    → (out : Outcome) × (x ≡ some out)
carry e (out, h) = (out, e ∙ h)

Result-cases :
    (r : Result ScriptError PaymentSummary)
    → ((e : ScriptError) × (r ≡ err e)) ⊎ ((s : PaymentSummary) × (r ≡ ok s))
Result-cases (err e) = inl (e, refl)
Result-cases (ok s) = inr (s, refl)

finish_total :
    (amount : ℕ) (r : Result ScriptError PaymentSummary)
    → (r' : Result ScriptError PaymentSummary) × (finish amount (some r) ≡ some r')
finish_total amount (err e) = (err e, refl)
finish_total amount (ok sum) = (judge amount sum, refl)

module _ (forms : KeyForms) (merchant_keys guardian_keys : List ℕ) where
  add_outputs_total :
      (sum : PaymentSummary) (os : List TxOutputInfo)
      → (r : Result ScriptError PaymentSummary) × (add_outputs forms merchant_keys guardian_keys sum
            os
          ≡ some r)
  unfolding add_outputs
  add_outputs_total sum [] = (ok sum, refl)
  add_outputs_total sum (o ∷ os) = elim (Option-cases o.script_bytes) [
    | inl unknown ↦ let (r, e) = add_outputs_total sum os in (r, rw (unknown, add_outputs) e)
    | inr (bytes, known) ↦ elim (either (normalize_script_bytes bytes) (normalize_total bytes)) [
      | inl (e, f) ↦ (err e, rw (known, add_outputs) (rw (f, add_outputs) refl))
      | inr (n, f) ↦ elim (Result-cases (add_output forms merchant_keys guardian_keys sum o n)) [
        | inl (e, g) ↦
            (err e, rw (known, add_outputs) (rw (f, add_outputs) (rw (g, add_outputs) refl)))
        | inr (sum', g) ↦
            let (r, h) = add_outputs_total sum' os in
            (r, rw (known, add_outputs) (rw (f, add_outputs) (rw (g, add_outputs) h)))
      ]
    ]
  ]

  enforce_total :
      (os : List TxOutputInfo) (amount : ℕ)
      → (r : Result ScriptError PaymentSummary) × (enforce_payment_policy forms merchant_keys
            guardian_keys os amount
          ≡ some r)
  unfolding enforce_payment_policy
  enforce_total os amount =
      let (r, e) = add_outputs_total (record { covered_value = 0; matched_outputs = 0 }) os in
      let (r', f) = finish_total amount r in (r', ap (finish amount) e ∙ f)

pay_open_total :
    (env : Surroundings) (s : ReceiptEpisode) (id payer : ℕ) (inv : Invoice) (md : PayloadMetadata)
    → (out : Outcome) × (pay_open env s id payer inv md ≡ some out)
unfolding pay_open
pay_open_total env s id payer inv md = elim (Option-cases (lookup payer s.customers)) [
  | inl c ↦ (refuse s unknown_customer, rw (c, pay_open) refl)
  | inr (info, c) ↦ elim (Option-cases md.tx_outputs) [
    | inl o ↦ (refuse s invalid_script, rw (c, pay_open) (rw (o, pay_open) refl))
    | inr (outs, o) ↦
        elim (either
          (enforce_payment_policy env.forms s.merchant_keys inv.guardian_keys outs inv.amount)
          (enforce_total env.forms s.merchant_keys inv.guardian_keys outs inv.amount)) [
            | inl (e, f) ↦
                (refuse s (mapped e), rw (c, pay_open) (rw (o, pay_open) (rw (f, pay_open) refl)))
            | inr (summary, f) ↦ (
              (settled s id payer inv info md, ok (undo_paid id)),
              rw (c, pay_open) (rw (o, pay_open) (rw (f, pay_open) refl)),
            )
          ]
  ]
]

status_total :
    (env : Surroundings) (s : ReceiptEpisode) (id payer : ℕ) (auth : Option ℕ)
    (md : PayloadMetadata) (inv : Invoice) (status : InvoiceStatus)
    → is_signer auth payer ≡ true
    → contains s.used_carrier_txs md.tx_id ≡ false
    → lookup id s.invoices ≡ some inv
    → inv.status ≡ status
    → (out : Outcome) × (pay env s id payer auth md ≡ some out)
unfolding pay pay_open
status_total env s id payer auth md inv canceled a b c d =
    (refuse s already_canceled, rw (a, b, c, pay) (rw (d, pay) refl))
status_total env s id payer auth md inv acked a b c d =
    (refuse s already_paid, rw (a, b, c, pay) (rw (d, pay) refl))
status_total env s id payer auth md inv paid a b c d =
    (refuse s already_paid, rw (a, b, c, pay) (rw (d, pay) refl))
status_total env s id payer auth md inv opened a b c d =
    carry (rw (a, b, c, pay) (rw (d, pay) refl)) (pay_open_total env s id payer inv md)

pub pay_total :
    (env : Surroundings) (s : ReceiptEpisode) (id payer : ℕ) (auth : Option ℕ)
    (md : PayloadMetadata)
    → (out : Outcome) × (pay env s id payer auth md ≡ some out)
unfolding pay
pay_total env s id payer auth md = elim (Bool-cases (is_signer auth payer)) [
  | inr a ↦ ((s, err unauthorized), rw (a, pay) refl)
  | inl a ↦ elim (Bool-cases (contains s.used_carrier_txs md.tx_id)) [
    | inl b ↦ (refuse s duplicate_payment, rw (a, b, pay) refl)
    | inr b ↦ elim (Option-cases (lookup id s.invoices)) [
      | inl c ↦ (refuse s not_found, rw (a, b, c, pay) refl)
      | inr (inv, c) ↦ status_total env s id payer auth md inv inv.status a b c refl
    ]
  ]
]
