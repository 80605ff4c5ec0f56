-- ===== src/Merchant/Execute.antt =====
-- `execute` of examples/kdapp-merchant/src/episode.rs, one definition for each command. `none` is
-- that normalising a script would not end.
use kdapp.Base.{
  ℕ, not, ◌||◌, Option, none, some, push_back, Map, lookup, insert, remove, contains_key, contains,
  ◌==◌, if◌then◌else◌,
}
use kdapp.Episode.{unauthorized, ok, err, PayloadMetadata}
use kdapp.Merchant.{
  MerchantCommand, create_invoice, mark_paid, ack_receipt, cancel_invoice, create_subscription,
  process_subscription, cancel_subscription, active, undo_create_subscription,
  undo_process_subscription, undo_cancel_subscription, invalid_amount, unknown_customer,
  subscription_exists, subscription_not_found, CustomerInfo, ReceiptEpisode, Surroundings,
  compute_next_run, Outcome,
}
use kdapp.Merchant.Invoices.{refuse, retain_not, create, pay, acknowledge, cancel}

abbrev pub subscribed :
    Surroundings
    → ReceiptEpisode
    → ℕ
    → ℕ
    → ℕ
    → ℕ
    → ℕ
    → CustomerInfo
    → PayloadMetadata
    → ReceiptEpisode
subscribed env s subscription_id customer amount interval merchant_pk info metadata = record s {
  customers =
      insert customer (record info { subscriptions = push_back info.subscriptions subscription_id })
        s.customers;
  subscriptions =
      insert subscription_id
        (record {
          sub_id = subscription_id;
          customer_id = 0;
          merchant_pubkey = merchant_pk;
          amount_sompi = amount;
          period_secs = interval;
          next_run_ts = compute_next_run env.drawn metadata.accepting_time interval;
          status = active;
          memo = none;
        })
        s.subscriptions;
}

unfoldable pub subscribe :
    Surroundings → ReceiptEpisode → ℕ → ℕ → ℕ → ℕ → Option ℕ → PayloadMetadata → Outcome
subscribe env s subscription_id customer amount interval none metadata =
    if contains_key subscription_id s.subscriptions
    then refuse s subscription_exists
    else if amount == 0 || interval == 0
    then refuse s invalid_amount
    else (s, err unauthorized)
subscribe env s subscription_id customer amount interval (some pk) metadata =
    if contains_key subscription_id s.subscriptions
    then refuse s subscription_exists
    else if amount == 0 || interval == 0
    then refuse s invalid_amount
    else if not (contains s.merchant_keys pk)
    then (s, err unauthorized)
    else elim (lookup customer s.customers) [
      | none ↦ refuse s unknown_customer
      | some info ↦ (
        subscribed env s subscription_id customer amount interval pk info metadata,
        ok (undo_create_subscription subscription_id),
      )
    ]

unfoldable pub process : Surroundings → ReceiptEpisode → ℕ → PayloadMetadata → Outcome
process env s subscription_id metadata = elim (lookup subscription_id s.subscriptions) [
  | none ↦ refuse s subscription_not_found
  | some sub ↦ (
    record s {
      subscriptions =
          insert subscription_id
            (record sub {
              next_run_ts = compute_next_run env.drawn metadata.accepting_time sub.period_secs;
            })
            s.subscriptions;
    },
    ok (undo_process_subscription subscription_id sub.next_run_ts),
  )
]

-- Drops a subscription from the entry of the merchant's own key among the customers.
abbrev pub drop_from : Map CustomerInfo → ℕ → ℕ → Map CustomerInfo
drop_from customers key subscription_id = elim (lookup key customers) [
  | none ↦ customers
  | some info ↦
      insert key (record info { subscriptions = retain_not subscription_id info.subscriptions })
        customers
]

unfoldable pub unsubscribe : ReceiptEpisode → ℕ → Outcome
unsubscribe s subscription_id = elim (lookup subscription_id s.subscriptions) [
  | none ↦ refuse s subscription_not_found
  | some sub ↦ (
    record s {
      subscriptions = remove subscription_id s.subscriptions;
      customers = drop_from s.customers sub.merchant_pubkey subscription_id;
    },
    ok (undo_cancel_subscription sub),
  )
]

unfoldable pub execute :
    Surroundings → ReceiptEpisode → MerchantCommand → Option ℕ → PayloadMetadata → Option Outcome
execute env s (create_invoice invoice_id amount memo guardian_keys) authorization metadata =
    some (create s invoice_id amount memo guardian_keys authorization metadata)
execute env s (mark_paid invoice_id payer) authorization metadata =
    pay env s invoice_id payer authorization metadata
execute env s (ack_receipt invoice_id) authorization metadata =
    some (acknowledge env s invoice_id metadata)
execute env s (cancel_invoice invoice_id) authorization metadata =
    some (cancel s invoice_id metadata)
execute env s (create_subscription subscription_id customer amount interval) authorization
      metadata =
    some (subscribe env s subscription_id customer amount interval authorization metadata)
execute env s (process_subscription subscription_id) authorization metadata =
    some (process env s subscription_id metadata)
execute env s (cancel_subscription subscription_id) authorization metadata =
    some (unsubscribe s subscription_id)
