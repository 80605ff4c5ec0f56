-- ===== src/Merchant/Undone.antt =====
-- What undoes the commands of examples/kdapp-merchant/src/episode.rs: the states that a rollback is
-- to give back.
use kdapp.Base.{
  ℕ, ◌≡◌, refl, sym, ap, ◌∙◌, true, false, Option, none, some, List, [], ◌∷◌, push_back, Map,
  lookup, insert, insert-insert, insert_same, lookup-insert_self, contains, arith,
}
use kdapp.Episode.{PayloadMetadata}
use kdapp.Merchant.{
  MerchantCommand, create_invoice, mark_paid, ack_receipt, cancel_invoice, create_subscription,
  process_subscription, cancel_subscription, InvoiceStatus, opened, Invoice, ReceiptEpisode,
  CustomerInfo,
}
use kdapp.Merchant.Invoices.{retain_not, set_status}
use kdapp.Merchant.Rollback.{with_status, forget_invoice}

pub retain_not_fresh : (x : ℕ) (xs : List ℕ) → contains xs x ≡ false → retain_not x xs ≡ xs
retain_not_fresh x [] h = refl
retain_not_fresh x (y ∷ ys) h = ground (arith, retain_not_fresh x ys)

pub retain_not-push_back :
    (x : ℕ) (xs : List ℕ) → contains xs x ≡ false → retain_not x (push_back xs x) ≡ xs
retain_not-push_back x [] h = ground arith
retain_not-push_back x (y ∷ ys) h = ground (arith, retain_not-push_back x ys)

pub retain_not-cons : (x : ℕ) (xs : List ℕ) → contains xs x ≡ false → retain_not x (x ∷ xs) ≡ xs
retain_not-cons x xs h = ground (arith, retain_not_fresh x xs)

-- An invoice that is open has no payer and no transaction, and is on no customer's list.
pub record IsClean (s : ReceiptEpisode) : Type 0 where
  pub no_payer :
      (id : ℕ) (inv : Invoice)
      → lookup id s.invoices ≡ some inv
      → inv.status ≡ opened
      → inv.payer ≡ none
  pub no_carrier :
      (id : ℕ) (inv : Invoice)
      → lookup id s.invoices ≡ some inv
      → inv.status ≡ opened
      → inv.carrier_tx ≡ none
  pub unlisted :
      (id payer : ℕ) (inv : Invoice) (info : CustomerInfo)
      → lookup id s.invoices ≡ some inv
      → inv.status ≡ opened
      → lookup payer s.customers ≡ some info
      → contains info.invoices id ≡ false

abbrev pub stamped : ReceiptEpisode → ℕ → Invoice → PayloadMetadata → ReceiptEpisode
stamped s id inv md = record s {
  invoices = insert id (record inv { last_update = md.accepting_time }) s.invoices;
}

-- The same state, but for the time of an invoice.
abbrev pub touched : ReceiptEpisode → ℕ → PayloadMetadata → ReceiptEpisode
touched s id md = elim (lookup id s.invoices) [ none ↦ s | some inv ↦ stamped s id inv md ]

-- The state after a command was executed and rolled back, for the commands on invoices and the
-- charge of a subscription.
abbrev pub undone : ReceiptEpisode → MerchantCommand → PayloadMetadata → Option ReceiptEpisode
undone s (create_invoice id amount memo keys) md = some (record s { guardian_keys = keys })
undone s (mark_paid id payer) md = some (touched s id md)
undone s (ack_receipt id) md = some (touched s id md)
undone s (cancel_invoice id) md = some (touched s id md)
undone s (create_subscription id customer amount interval) md = none
undone s (process_subscription id) md = some s
undone s (cancel_subscription id) md = none

pub invoices_path :
    (s : ReceiptEpisode) {a b : Map Invoice}
    → a ≡ b
    → record s { invoices = a } ≡ record s { invoices = b }
invoices_path s p = λ i. record s { invoices = p i }

pub with_status-set_status :
    (s : ReceiptEpisode) (id : ℕ) (inv : Invoice) (new old : InvoiceStatus) (md : PayloadMetadata)
    → inv.status ≡ old
    → with_status (set_status s id inv new md) id old ≡ (stamped s id inv md, true)
with_status-set_status s id inv new old md h =
    let changed : Invoice = record inv { status = new; last_update = md.accepting_time } in
    let back : Invoice = record inv { status = old; last_update = md.accepting_time } in
    rw (lookup-insert_self id changed s.invoices, with_status)
      (λ i. (
        record s {
          invoices =
              (insert-insert id changed back s.invoices ∙ (λ j.
                  insert id (record inv { status = sym h j; last_update = md.accepting_time })
                    s.invoices))
                i;
        },
        true,
      ))

pub forget_invoice-insert :
    (m : Map CustomerInfo) (payer id : ℕ) (listed info : CustomerInfo)
    → record listed { invoices = retain_not id listed.invoices } ≡ info
    → lookup payer m ≡ some info
    → forget_invoice (insert payer listed m) (some payer) id ≡ m
forget_invoice-insert m payer id listed info restored customer =
    rw (lookup-insert_self payer listed m, forget_invoice)
      (insert-insert payer listed (record listed { invoices = retain_not id listed.invoices }) m
        ∙ ap (λ (n : CustomerInfo). insert payer n m) restored
        ∙ insert_same payer info m customer)
