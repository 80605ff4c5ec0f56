-- ===== src/Merchant/Ledger.antt =====
-- Payments of examples/kdapp-merchant/src/episode.rs: who may pay an invoice, with what, and that
-- no transaction pays two.
use kdapp.Base.{
  ℕ, ◌≡◌, false, Option, none, some, List, lookup, contains, arith, Option-cases, inl, inr,
}
use kdapp.Episode.{EpisodeError, ok, err, PayloadMetadata, TxOutputInfo}
use kdapp.Script.{enforce_payment_policy, PaymentSummary}
use kdapp.Script.Policy.{Pays, enforce_payment_policy-Pays}
use kdapp.Merchant.{
  opened, Invoice, undo_paid, MerchantRollback, MerchantError, ReceiptEpisode, CustomerInfo,
  Surroundings,
}
use kdapp.Merchant.Invoices.{settled, pay_open, pay}

-- What stands behind an accepted payment of an invoice, and what it leaves.
pub record IsPayment (env : Surroundings) (s s' : ReceiptEpisode) (invoice_id payer : ℕ)
    (authorization : Option ℕ) (metadata : PayloadMetadata) : Type 0 where
  pub signed : authorization ≡ some payer
  pub unused : contains s.used_carrier_txs metadata.tx_id ≡ false
  pub inv : Invoice
  pub found : lookup invoice_id s.invoices ≡ some inv
  pub was_open : inv.status ≡ opened
  pub info : CustomerInfo
  pub customer : lookup payer s.customers ≡ some info
  pub outs : List TxOutputInfo
  pub known : metadata.tx_outputs ≡ some outs
  pub summary : PaymentSummary
  pub pays : Pays env.forms s.merchant_keys inv.guardian_keys outs inv.amount summary
  pub state : s' ≡ settled s invoice_id payer inv info metadata

pay_open-IsPayment :
    (env : Surroundings) (s s' : ReceiptEpisode) (invoice_id payer : ℕ) (inv : Invoice)
    (metadata : PayloadMetadata) (r : MerchantRollback)
    → pay_open env s invoice_id payer inv metadata ≡ some (s', ok r)
    → (info : CustomerInfo) × (lookup payer s.customers ≡ some info)
      × (outs : List TxOutputInfo) × (metadata.tx_outputs ≡ some outs)
      × (summary : PaymentSummary) × (enforce_payment_policy env.forms s.merchant_keys
            inv.guardian_keys outs inv.amount
          ≡ some (ok summary))
      × (s' ≡ settled s invoice_id payer inv info metadata)
unfolding pay_open
pay_open-IsPayment env s s' invoice_id payer inv metadata r h =
    elim (Option-cases (lookup payer s.customers)) [
      | inl e ↦ absurd (ground (arith, e))
      | inr (info, e) ↦ elim (Option-cases metadata.tx_outputs) [
        | inl o ↦ absurd (ground (arith, e, o))
        | inr (outs, o) ↦
            elim (Option-cases (
              enforce_payment_policy env.forms s.merchant_keys inv.guardian_keys outs inv.amount)) [
                | inl f ↦ absurd (ground (arith, e, o, f))
                | inr (err bad, f) ↦ absurd (ground (arith, e, o, f))
                | inr (ok summary, f) ↦ (info, e, outs, o, summary, f, ground (arith, e, o, f))
              ]
      ]
    ]

pay_found :
    (env : Surroundings) (s s' : ReceiptEpisode) (invoice_id payer : ℕ) (authorization : Option ℕ)
    (metadata : PayloadMetadata) (r : MerchantRollback) (inv : Invoice)
    → lookup invoice_id s.invoices ≡ some inv
    → pay env s invoice_id payer authorization metadata ≡ some (s', ok r)
    → (authorization ≡ some payer)
      × (contains s.used_carrier_txs metadata.tx_id ≡ false)
      × (inv.status ≡ opened)
      × (pay_open env s invoice_id payer inv metadata ≡ some (s', ok r))
unfolding pay
pay_found env s s' invoice_id payer authorization metadata r inv found h = ground (arith, found, h)

pay_missing :
    (env : Surroundings) (s s' : ReceiptEpisode) (invoice_id payer : ℕ) (authorization : Option ℕ)
    (metadata : PayloadMetadata) (r : MerchantRollback)
    → lookup invoice_id s.invoices ≡ none
    → ¬ (pay env s invoice_id payer authorization metadata ≡ some (s', ok r))
unfolding pay
pay_missing env s s' invoice_id payer authorization metadata r found h = ground arith

-- What was checked before an accepted payment, and the state that it gives.
pub pay-IsPayment :
    (env : Surroundings) (s s' : ReceiptEpisode) (invoice_id payer : ℕ) (authorization : Option ℕ)
    (metadata : PayloadMetadata) (r : MerchantRollback)
    → pay env s invoice_id payer authorization metadata ≡ some (s', ok r)
    → IsPayment env s s' invoice_id payer authorization metadata
pay-IsPayment env s s' invoice_id payer authorization metadata r h =
    elim (Option-cases (lookup invoice_id s.invoices)) [
      | inl missing ↦
          absurd (pay_missing env s s' invoice_id payer authorization metadata r missing h)
      | inr (inv, found) ↦
          let (signed, unused, was_open, opened_pay) =
            pay_found env s s' invoice_id payer authorization metadata r inv found h in
          let (info, customer, outs, known, summary, enforced, state) =
            pay_open-IsPayment env s s' invoice_id payer inv metadata r opened_pay in
          record {
            signed = signed;
            unused = unused;
            inv = inv;
            found = found;
            was_open = was_open;
            info = info;
            customer = customer;
            outs = outs;
            known = known;
            summary = summary;
            pays =
                (enforce_payment_policy-Pays env.forms s.merchant_keys inv.guardian_keys outs
                    inv.amount summary).0
                  enforced;
            state = state;
          }
    ]

pay_open_err :
    (env : Surroundings) (s s' : ReceiptEpisode) (invoice_id payer : ℕ) (inv : Invoice)
    (metadata : PayloadMetadata) (e : EpisodeError MerchantError)
    → pay_open env s invoice_id payer inv metadata ≡ some (s', err e)
    → s' ≡ s
unfolding pay_open
pay_open_err env s s' invoice_id payer inv metadata e h =
    elim (Option-cases (lookup payer s.customers)) [
      | inl c ↦ ground (arith, c)
      | inr (info, c) ↦ elim (Option-cases metadata.tx_outputs) [
        | inl o ↦ ground (arith, c, o)
        | inr (outs, o) ↦
            elim (Option-cases (
              enforce_payment_policy env.forms s.merchant_keys inv.guardian_keys outs inv.amount)) [
                | inl f ↦ absurd (ground (arith, c, o, f))
                | inr (err bad, f) ↦ ground (arith, c, o, f)
                | inr (ok summary, f) ↦ absurd (ground (arith, c, o, f))
              ]
      ]
    ]

-- A refused payment changes nothing.
pub pay_err :
    (env : Surroundings) (s s' : ReceiptEpisode) (invoice_id payer : ℕ) (authorization : Option ℕ)
    (metadata : PayloadMetadata) (e : EpisodeError MerchantError)
    → pay env s invoice_id payer authorization metadata ≡ some (s', err e)
    → s' ≡ s
unfolding pay
pay_err env s s' invoice_id payer authorization metadata e h =
    elim (Option-cases (lookup invoice_id s.invoices)) [
      | inl f ↦ ground (arith, f)
      | inr (inv, f) ↦ ground (arith, f, pay_open_err env s s' invoice_id payer inv metadata e)
    ]

pay_open_undo :
    (env : Surroundings) (s s' : ReceiptEpisode) (invoice_id payer : ℕ) (inv : Invoice)
    (metadata : PayloadMetadata) (r : MerchantRollback)
    → pay_open env s invoice_id payer inv metadata ≡ some (s', ok r)
    → r ≡ undo_paid invoice_id
unfolding pay_open
pay_open_undo env s s' invoice_id payer inv metadata r h =
    elim (Option-cases (lookup payer s.customers)) [
      | inl c ↦ absurd (ground (arith, c))
      | inr (info, c) ↦ elim (Option-cases metadata.tx_outputs) [
        | inl o ↦ absurd (ground (arith, c, o))
        | inr (outs, o) ↦
            elim (Option-cases (
              enforce_payment_policy env.forms s.merchant_keys inv.guardian_keys outs inv.amount)) [
                | inl f ↦ absurd (ground (arith, c, o, f))
                | inr (err bad, f) ↦ absurd (ground (arith, c, o, f))
                | inr (ok summary, f) ↦ ground (arith, c, o, f)
              ]
      ]
    ]

pub pay_undo :
    (env : Surroundings) (s s' : ReceiptEpisode) (invoice_id payer : ℕ) (authorization : Option ℕ)
    (metadata : PayloadMetadata) (r : MerchantRollback)
    → pay env s invoice_id payer authorization metadata ≡ some (s', ok r)
    → r ≡ undo_paid invoice_id
pay_undo env s s' invoice_id payer authorization metadata r h =
    let p = pay-IsPayment env s s' invoice_id payer authorization metadata r h in
    let (signed, unused, was_open, opened_pay) =
      pay_found env s s' invoice_id payer authorization metadata r p.inv p.found h in
    pay_open_undo env s s' invoice_id payer p.inv metadata r opened_pay
