-- ===== src/Merchant/Invoices.antt =====
-- The commands on invoices of examples/kdapp-merchant/src/episode.rs. `none` is that normalising a
-- script would not end.
use kdapp.Base.{
  ℕ, Bool, false, not, Option, none, some, List, [], ◌∷◌, push_back, lookup, insert, contains_key,
  contains, ◌==◌, if◌then◌else◌,
}
use kdapp.Episode.{unauthorized, invalid_command, ok, err, PayloadMetadata}
use kdapp.Script.{
  ScriptError, malformed_script, no_matching_outputs, value_overflow, insufficient_value,
  enforce_payment_policy,
}
use kdapp.Merchant.{
  InvoiceStatus, opened, paid, acked, canceled, Invoice, undo_create, undo_paid, undo_ack,
  undo_cancel, MerchantError, exists, not_found, invalid_amount, already_paid, already_acked,
  already_canceled, unknown_customer, invalid_script, duplicate_payment, insufficient_confirmations,
  CustomerInfo, ReceiptEpisode, is_satisfied_by, Surroundings, Outcome,
}

abbrev pub refuse : ReceiptEpisode → MerchantError → Outcome
refuse s e = (s, err (invalid_command e))

-- `vec.retain(|id| id != x)`
abbrev pub retain_not : ℕ → List ℕ → List ℕ
retain_not x [] = []
retain_not x (y ∷ ys) = let rest = retain_not x ys in if y == x then rest else y ∷ rest

-- The authorization is one of the merchant's keys.
abbrev pub by_merchant : ReceiptEpisode → Option ℕ → Bool
by_merchant s none = false
by_merchant s (some pk) = contains s.merchant_keys pk

abbrev pub is_signer : Option ℕ → ℕ → Bool
is_signer none payer = false
is_signer (some pk) payer = pk == payer

abbrev pub new_invoice : ℕ → ℕ → Option (List ℕ) → List ℕ → PayloadMetadata → Invoice
new_invoice invoice_id amount memo guardian_keys metadata = record {
  id = invoice_id;
  amount = amount;
  memo = memo;
  created_at = metadata.accepting_time;
  last_update = metadata.accepting_time;
  status = opened;
  payer = none;
  carrier_tx = none;
  guardian_keys = guardian_keys;
}

unfoldable pub create :
    ReceiptEpisode → ℕ → ℕ → Option (List ℕ) → List ℕ → Option ℕ → PayloadMetadata → Outcome
create s invoice_id amount memo guardian_keys authorization metadata =
    if contains_key invoice_id s.invoices
    then refuse s exists
    else if amount == 0
    then refuse s invalid_amount
    else if not (by_merchant s authorization)
    then (s, err unauthorized)
    else (
      record s {
        invoices =
            insert invoice_id (new_invoice invoice_id amount memo guardian_keys metadata)
              s.invoices;
        guardian_keys = guardian_keys;
      },
      ok (undo_create invoice_id),
    )

abbrev pub mapped : ScriptError → MerchantError
mapped malformed_script = invalid_script
mapped no_matching_outputs = invalid_script
mapped value_overflow = invalid_amount
mapped (insufficient_value required found) = invalid_amount

abbrev pub paid_invoice : Invoice → ℕ → PayloadMetadata → Invoice
paid_invoice inv payer metadata = record inv {
  status = paid;
  last_update = metadata.accepting_time;
  payer = some payer;
  carrier_tx = some metadata.tx_id;
}

abbrev pub with_invoice : CustomerInfo → ℕ → CustomerInfo
with_invoice info invoice_id =
    if contains info.invoices invoice_id
    then info
    else record info { invoices = push_back info.invoices invoice_id }

abbrev pub settled :
    ReceiptEpisode → ℕ → ℕ → Invoice → CustomerInfo → PayloadMetadata → ReceiptEpisode
settled s invoice_id payer inv info metadata = record s {
  invoices = insert invoice_id (paid_invoice inv payer metadata) s.invoices;
  customers = insert payer (with_invoice info invoice_id) s.customers;
  used_carrier_txs = metadata.tx_id ∷ s.used_carrier_txs;
}

unfoldable pub pay_open :
    Surroundings → ReceiptEpisode → ℕ → ℕ → Invoice → PayloadMetadata → Option Outcome
pay_open env s invoice_id payer inv metadata = elim (lookup payer s.customers) [
  | none ↦ some (refuse s unknown_customer)
  | some info ↦ elim metadata.tx_outputs [
    | none ↦ some (refuse s invalid_script)
    | some outs ↦
        elim (enforce_payment_policy env.forms s.merchant_keys inv.guardian_keys outs inv.amount) [
          | none ↦ none
          | some (err e) ↦ some (refuse s (mapped e))
          | some (ok summary) ↦
              some (settled s invoice_id payer inv info metadata, ok (undo_paid invoice_id))
        ]
  ]
]

unfoldable pub pay :
    Surroundings → ReceiptEpisode → ℕ → ℕ → Option ℕ → PayloadMetadata → Option Outcome
pay env s invoice_id payer authorization metadata =
    if not (is_signer authorization payer)
    then some (s, err unauthorized)
    else if contains s.used_carrier_txs metadata.tx_id
    then some (refuse s duplicate_payment)
    else elim (lookup invoice_id s.invoices) [
      | none ↦ some (refuse s not_found)
      | some inv ↦ elim inv.status [
        | canceled ↦ some (refuse s already_canceled)
        | acked ↦ some (refuse s already_paid)
        | paid ↦ some (refuse s already_paid)
        | opened ↦ pay_open env s invoice_id payer inv metadata
      ]
    ]

-- An invoice with another status and time.
abbrev pub set_status :
    ReceiptEpisode → ℕ → Invoice → InvoiceStatus → PayloadMetadata → ReceiptEpisode
set_status s invoice_id inv status metadata = record s {
  invoices =
      insert invoice_id (record inv { status = status; last_update = metadata.accepting_time })
        s.invoices;
}

unfoldable pub acknowledge : Surroundings → ReceiptEpisode → ℕ → PayloadMetadata → Outcome
acknowledge env s invoice_id metadata = elim (lookup invoice_id s.invoices) [
  | none ↦ refuse s not_found
  | some inv ↦ elim inv.status [
    | canceled ↦ refuse s already_canceled
    | acked ↦ refuse s already_acked
    | opened ↦ refuse s not_found
    | paid ↦
        if not (is_satisfied_by env.policy (env.confirmation invoice_id))
        then refuse s insufficient_confirmations
        else (set_status s invoice_id inv acked metadata, ok (undo_ack invoice_id))
  ]
]

unfoldable pub cancel : ReceiptEpisode → ℕ → PayloadMetadata → Outcome
cancel s invoice_id metadata = elim (lookup invoice_id s.invoices) [
  | none ↦ refuse s not_found
  | some inv ↦ elim inv.status [
    | canceled ↦ refuse s already_canceled
    | paid ↦ refuse s already_paid
    | acked ↦ refuse s already_paid
    | opened ↦ (set_status s invoice_id inv canceled metadata, ok (undo_cancel invoice_id))
  ]
]
