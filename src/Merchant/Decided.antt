-- ===== src/Merchant/Decided.antt =====
-- When examples/kdapp-merchant/src/episode.rs takes a payment, and what it changes then.
use kdapp.Base.{
  ℕ, ◌≡◌, refl, ap, ◌∙◌, true, false, ◌||◌, Option, some, List, [], ◌∷◌, push_back, lookup,
  lookup-insert, lookup-insert_self, contains, ◌==◌, arith, Bool-cases, inl, inr,
}
use kdapp.Episode.{EpisodeError, Result, ok, err, PayloadMetadata, TxOutputInfo}
use kdapp.Script.{PaymentSummary}
use kdapp.Script.Policy.{Pays, enforce_payment_policy-Pays}
use kdapp.Merchant.{
  opened, paid, Invoice, undo_paid, MerchantRollback, MerchantError, ReceiptEpisode, CustomerInfo,
  Surroundings, Outcome,
}
use kdapp.Merchant.Invoices.{settled, with_invoice, pay_open, pay}
use kdapp.Merchant.Ledger.{pay-IsPayment, pay_err}
use kdapp.Merchant.Total.{pay_total}

-- What a payment of an invoice has to be.
pub record IsPayable (env : Surroundings) (s : ReceiptEpisode) (invoice_id payer : ℕ)
    (authorization : Option ℕ) (metadata : PayloadMetadata) : Type 0 where
  pub signed : authorization ≡ some payer
  pub unused : contains s.used_carrier_txs metadata.tx_id ≡ false
  pub inv : Invoice
  pub found : lookup invoice_id s.invoices ≡ some inv
  pub was_open : inv.status ≡ opened
  pub info : CustomerInfo
  pub customer : lookup payer s.customers ≡ some info
  pub outs : List TxOutputInfo
  pub known : metadata.tx_outputs ≡ some outs
  pub summary : PaymentSummary
  pub pays : Pays env.forms s.merchant_keys inv.guardian_keys outs inv.amount summary

-- The state after a payment, described entry by entry.
pub record IsPaid (s s' : ReceiptEpisode) (invoice_id payer : ℕ) (inv : Invoice)
    (info : CustomerInfo) (metadata : PayloadMetadata) : Type 0 where
  pub invoice :
      lookup invoice_id s'.invoices
      ≡ some (record inv {
        status = paid;
        last_update = metadata.accepting_time;
        payer = some payer;
        carrier_tx = some metadata.tx_id;
      })
  pub other_invoices :
      (j : ℕ) → (invoice_id == j) ≡ false → lookup j s'.invoices ≡ lookup j s.invoices
  pub now : CustomerInfo
  pub customer : lookup payer s'.customers ≡ some now
  pub listed : (j : ℕ) → contains now.invoices j ≡ (contains info.invoices j || invoice_id == j)
  pub same_subscriptions : now.subscriptions ≡ info.subscriptions
  pub other_customers :
      (j : ℕ) → (payer == j) ≡ false → lookup j s'.customers ≡ lookup j s.customers
  pub used :
      (tx : ℕ)
      → contains s'.used_carrier_txs tx ≡ (metadata.tx_id == tx || contains s.used_carrier_txs tx)
  pub subscriptions : s'.subscriptions ≡ s.subscriptions
  pub merchant_keys : s'.merchant_keys ≡ s.merchant_keys
  pub guardian_keys : s'.guardian_keys ≡ s.guardian_keys

pub data Decision (env : Surroundings) (s : ReceiptEpisode) (invoice_id payer : ℕ)
    (authorization : Option ℕ) (metadata : PayloadMetadata) (result : Option Outcome) : Type 0 where
  takes :
      (s' : ReceiptEpisode) (p : IsPayable env s invoice_id payer authorization metadata)
      → result ≡ some (s', ok (undo_paid invoice_id))
      → IsPaid s s' invoice_id payer p.inv p.info metadata
      → Decision env s invoice_id payer authorization metadata result
  refuses :
      (e : EpisodeError MerchantError)
      → ¬ IsPayable env s invoice_id payer authorization metadata
      → result ≡ some (s, err e)
      → Decision env s invoice_id payer authorization metadata result

contains-push_back :
    (xs : List ℕ) (x j : ℕ) → contains (push_back xs x) j ≡ (contains xs j || x == j)
contains-push_back [] x j = ground arith
contains-push_back (y ∷ xs) x j = ground (arith, contains-push_back xs x j)

contains-with_invoice :
    (info : CustomerInfo) (id j : ℕ)
    → contains (with_invoice info id).invoices j ≡ (contains info.invoices j || id == j)
contains-with_invoice info id j = elim (Bool-cases (contains info.invoices id)) [
  | inl has ↦ elim (Bool-cases (id == j)) [
    | inl same ↦
        let e : id ≡ j = ground arith in
        let has' : contains info.invoices j ≡ true = ground arith in rw (has, has') refl
    | inr other ↦ ground arith
  ]
  | inr has_not ↦ rw has_not (contains-push_back info.invoices id j)
]

settled-IsPaid :
    (s : ReceiptEpisode) (id payer : ℕ) (inv : Invoice) (info : CustomerInfo) (md : PayloadMetadata)
    → IsPaid s (settled s id payer inv info md) id payer inv info md
settled-IsPaid s id payer inv info md = record {
  invoice = lookup-insert_self id _ s.invoices;
  other_invoices = λ j other. lookup-insert id j _ s.invoices ∙ rw other refl;
  now = with_invoice info id;
  customer = lookup-insert_self payer _ s.customers;
  listed = λ j. contains-with_invoice info id j;
  same_subscriptions = ground arith;
  other_customers = λ j other. lookup-insert payer j _ s.customers ∙ rw other refl;
  used = λ tx. refl;
  subscriptions = refl;
  merchant_keys = refl;
  guardian_keys = refl;
}

payable_taken :
    (env : Surroundings) (s : ReceiptEpisode) (id payer : ℕ) (authorization : Option ℕ)
    (md : PayloadMetadata) (p : IsPayable env s id payer authorization md)
    → pay env s id payer authorization md
      ≡ some (settled s id payer p.inv p.info md, ok (undo_paid id))
unfolding pay pay_open
payable_taken env s id payer authorization md p =
    let enforced =
      (enforce_payment_policy-Pays env.forms s.merchant_keys p.inv.guardian_keys p.outs p.inv.amount
          p.summary).1
        p.pays in
    ground (arith, p.signed, p.unused, p.found, p.was_open, p.customer, p.known, enforced)

-- Every MarkPaid is decided. It is taken exactly where it is signed by the payer that it names, in a
-- transaction that paid nothing before, for an open invoice, by a known customer, with outputs that
-- are known and pay the merchant the amount (all scripts normal, those to the merchant below 2 ^ 64
-- together). Then the invoice is paid by this payer and transaction, the customer's list has gained
-- it, the transaction counts as used, and no other invoice, customer, used transaction, subscription
-- or key has changed. Everywhere else it is refused with an error, and the state is as it was.
pub pay-Decision :
    (env : Surroundings) (s : ReceiptEpisode) (invoice_id payer : ℕ) (authorization : Option ℕ)
    (metadata : PayloadMetadata)
    → Decision env s invoice_id payer authorization metadata
        (pay env s invoice_id payer authorization metadata)
pay-Decision env s invoice_id payer authorization metadata =
    let ((s', result), h) = pay_total env s invoice_id payer authorization metadata in
    go s' result h
  where
    go :
        (s' : ReceiptEpisode) (result : Result (EpisodeError MerchantError) MerchantRollback)
        → pay env s invoice_id payer authorization metadata ≡ some (s', result)
        → Decision env s invoice_id payer authorization metadata
            (pay env s invoice_id payer authorization metadata)
    go s' (err e) h =
        refuses e
          (λ p.
            absurd (ground (arith, payable_taken env s invoice_id payer authorization metadata p)))
          (h
            ∙ ap (λ (t : ReceiptEpisode). some (t, err e))
                (pay_err env s s' invoice_id payer authorization metadata e h))
    go s' (ok r) h =
        let p = pay-IsPayment env s s' invoice_id payer authorization metadata r h in
        let payable : IsPayable env s invoice_id payer authorization metadata = record {
          signed = p.signed;
          unused = p.unused;
          inv = p.inv;
          found = p.found;
          was_open = p.was_open;
          info = p.info;
          customer = p.customer;
          outs = p.outs;
          known = p.known;
          summary = p.summary;
          pays = p.pays;
        } in
        takes (settled s invoice_id payer p.inv p.info metadata) payable
          (payable_taken env s invoice_id payer authorization metadata payable)
          (settled-IsPaid s invoice_id payer p.inv p.info metadata)
