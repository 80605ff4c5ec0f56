-- ===== src/Merchant/Rollback.antt =====
-- `rollback` of examples/kdapp-merchant/src/episode.rs.
use kdapp.Base.{
  ℕ, Bool, true, false, Option, none, some, List, push_back, Map, lookup, insert, remove,
  contains_key, contains, if◌then◌else◌,
}
use kdapp.Merchant.{
  opened, paid, InvoiceStatus, Invoice, MerchantRollback, undo_create, undo_paid, undo_ack,
  undo_cancel, undo_create_subscription, undo_process_subscription, undo_cancel_subscription,
  CustomerInfo, ReceiptEpisode,
}
use kdapp.Merchant.Execute.{drop_from}
use kdapp.Merchant.Invoices.{retain_not}

-- The customers without an invoice of a payer.
abbrev pub forget_invoice : Map CustomerInfo → Option ℕ → ℕ → Map CustomerInfo
forget_invoice customers none invoice_id = customers
forget_invoice customers (some payer) invoice_id = elim (lookup payer customers) [
  | none ↦ customers
  | some info ↦
      insert payer (record info { invoices = retain_not invoice_id info.invoices }) customers
]

abbrev pub free_tx : List ℕ → Option ℕ → List ℕ
free_tx used none = used
free_tx used (some tx) = retain_not tx used

abbrev pub with_status : ReceiptEpisode → ℕ → InvoiceStatus → ReceiptEpisode × Bool
with_status s invoice_id status = elim (lookup invoice_id s.invoices) [
  | none ↦ (s, false)
  | some inv ↦
      (record s { invoices = insert invoice_id (record inv { status = status }) s.invoices }, true)
]

abbrev pub unpay : ReceiptEpisode → ℕ → Invoice → ReceiptEpisode
unpay s invoice_id inv = record s {
  invoices =
      insert invoice_id (record inv { status = opened; payer = none; carrier_tx = none })
        s.invoices;
  customers = forget_invoice s.customers inv.payer invoice_id;
  used_carrier_txs = free_tx s.used_carrier_txs inv.carrier_tx;
}

-- A cancelled subscription goes back on the list of the merchant's own key.
abbrev pub add_to : Map CustomerInfo → ℕ → ℕ → Map CustomerInfo
add_to customers key id = elim (lookup key customers) [
  | none ↦ customers
  | some info ↦
      if contains info.subscriptions id
      then customers
      else insert key (record info { subscriptions = push_back info.subscriptions id }) customers
]

unfoldable pub rollback : ReceiptEpisode → MerchantRollback → ReceiptEpisode × Bool
rollback s (undo_create invoice_id) =
    (record s { invoices = remove invoice_id s.invoices }, contains_key invoice_id s.invoices)
rollback s (undo_paid invoice_id) = elim (lookup invoice_id s.invoices) [
  | none ↦ (s, false)
  | some inv ↦ (unpay s invoice_id inv, true)
]
rollback s (undo_ack invoice_id) = with_status s invoice_id paid
rollback s (undo_cancel invoice_id) = with_status s invoice_id opened
rollback s (undo_create_subscription subscription_id) =
    elim (lookup subscription_id s.subscriptions) [
      | none ↦ (s, false)
      | some sub ↦ (
        record s {
          subscriptions = remove subscription_id s.subscriptions;
          customers = drop_from s.customers sub.merchant_pubkey subscription_id;
        },
        true,
      )
    ]
rollback s (undo_process_subscription subscription_id prev_next_run) =
    elim (lookup subscription_id s.subscriptions) [
      | none ↦ (s, false)
      | some sub ↦ (
        record s {
          subscriptions =
              insert subscription_id (record sub { next_run_ts = prev_next_run }) s.subscriptions;
        },
        true,
      )
    ]
rollback s (undo_cancel_subscription subscription) = (
  record s {
    subscriptions = insert subscription.sub_id subscription s.subscriptions;
    customers = add_to s.customers subscription.merchant_pubkey subscription.sub_id;
  },
  true,
)
