-- ===== src/Customer.antt =====
-- examples/kdapp-customer/src/episode.rs and pki.rs: the customer's copy of a merchant's invoices. Its
-- commands, statuses and subscriptions are declared as the merchant's are, and are the ones of
-- Merchant here.
pub mod Agreed
use kdapp.Base.{
  ℕ, ◌+◌, ◌%◌, Bool, true, false, not, ◌&&◌, ◌||◌, Option, none, some, List, [], ◌∷◌, ◌++◌, Map,
  lookup, insert, ◌==◌, ltb, if◌then◌else◌, bytes_eq, u64_mod,
}
use kdapp.Episode.{
  EpisodeError, invalid_signature, invalid_command, Result, ok, err, TxOutputInfo, PayloadMetadata,
}
use kdapp.Script.{KeyForms}
use kdapp.Merchant.{
  MerchantCommand, create_invoice, mark_paid, ack_receipt, cancel_invoice, create_subscription,
  process_subscription, cancel_subscription, InvoiceStatus, opened, paid, acked, canceled,
  Subscription,
}
use kdapp.Merchant.Invoices.{is_signer}

pub record Invoice : Type 0 where
  pub id : ℕ
  pub amount : ℕ
  pub memo : Option (List ℕ)
  pub status : InvoiceStatus
  pub payer : Option ℕ
  pub merchant_pubkey : ℕ
  pub guardian_keys : List ℕ

pub record ReceiptEpisode : Type 0 where
  pub invoices : Map Invoice
  pub subscriptions : Map Subscription

pub data CustomerError : Type 0 where
  unknown_invoice invoice_not_open invoice_not_paid payer_mismatch script_mismatch
        insufficient_payment :
      CustomerError

abbrev pub Outcome : Type 0
Outcome = ReceiptEpisode × Result (EpisodeError CustomerError) (Unit {0})

abbrev pub refuse : ReceiptEpisode → CustomerError → Outcome
refuse s e = (s, err (invalid_command e))

abbrev pub initialize : List ℕ → PayloadMetadata → ReceiptEpisode
initialize participants metadata = record { invoices = []; subscriptions = [] }

-- `p2pk_script`: a push of the 33 bytes of a key, and OP_CHECKSIG.
abbrev pub p2pk_script : KeyForms → ℕ → List ℕ
p2pk_script forms pubkey = 33 ∷ (forms.serialize pubkey ++ 172 ∷ [])

-- The loop over the outputs: the first one that has the script decides.
unfoldable pub check_outputs : List ℕ → ℕ → List TxOutputInfo → Result CustomerError (Unit {0})
check_outputs expected amount [] = err script_mismatch
check_outputs expected amount (o ∷ outs) = elim o.script_bytes [
  | none ↦ check_outputs expected amount outs
  | some bytes ↦ elim (bytes_eq bytes expected) [
    | true ↦ if ltb o.value amount then err insufficient_payment else ok tt
    | false ↦ check_outputs expected amount outs
  ]
]

abbrev put : ReceiptEpisode → ℕ → Invoice → ReceiptEpisode
put s invoice_id inv = record s { invoices = insert invoice_id inv s.invoices }

abbrev is_other : Option ℕ → ℕ → Bool
is_other none payer = false
is_other (some existing) payer = not (existing == payer)

-- The payer is written before the outputs are looked at.
unfoldable pub pay : KeyForms → ReceiptEpisode → ℕ → ℕ → Invoice → PayloadMetadata → Outcome
pay forms s invoice_id payer inv metadata = elim inv.status [
  | paid ↦ refuse s invoice_not_open
  | acked ↦ refuse s invoice_not_open
  | canceled ↦ refuse s invoice_not_open
  | opened ↦
      if is_other inv.payer payer
      then refuse s payer_mismatch
      else (let named : Invoice = record inv { payer = some payer } in
          elim metadata.tx_outputs [
            | none ↦ refuse (put s invoice_id named) script_mismatch
            | some outs ↦
                elim (check_outputs (p2pk_script forms inv.merchant_pubkey) inv.amount outs) [
                  | err e ↦ refuse (put s invoice_id named) e
                  | ok _ ↦ (put s invoice_id (record named { status = paid }), ok tt)
                ]
          ])
]

abbrev with_status : ReceiptEpisode → ℕ → Invoice → InvoiceStatus → Outcome
with_status s invoice_id inv status = (put s invoice_id (record inv { status = status }), ok tt)

unfoldable pub execute :
    KeyForms → ReceiptEpisode → MerchantCommand → Option ℕ → PayloadMetadata → Outcome
execute forms s (create_invoice invoice_id amount memo guardian_keys) none metadata =
    (s, err invalid_signature)
execute forms s (create_invoice invoice_id amount memo guardian_keys) (some merchant) metadata = (
  put s invoice_id (record {
    id = invoice_id;
    amount = amount;
    memo = memo;
    status = opened;
    payer = none;
    merchant_pubkey = merchant;
    guardian_keys = guardian_keys;
  }),
  ok tt,
)
execute forms s (mark_paid invoice_id payer) authorization metadata =
    if not (is_signer authorization payer)
    then (s, err invalid_signature)
    else elim (lookup invoice_id s.invoices) [
      | none ↦ refuse s unknown_invoice
      | some inv ↦ pay forms s invoice_id payer inv metadata
    ]
execute forms s (ack_receipt invoice_id) authorization metadata =
    elim (lookup invoice_id s.invoices) [
      | none ↦ refuse s unknown_invoice
      | some inv ↦ elim inv.status [
        | paid ↦ with_status s invoice_id inv acked
        | opened ↦ refuse s invoice_not_paid
        | acked ↦ refuse s invoice_not_paid
        | canceled ↦ refuse s invoice_not_paid
      ]
    ]
execute forms s (cancel_invoice invoice_id) authorization metadata =
    elim (lookup invoice_id s.invoices) [
      | none ↦ refuse s unknown_invoice
      | some inv ↦ elim inv.status [
        | opened ↦ with_status s invoice_id inv canceled
        | paid ↦ refuse s invoice_not_open
        | acked ↦ refuse s invoice_not_open
        | canceled ↦ refuse s invoice_not_open
      ]
    ]
execute forms s (create_subscription subscription_id customer amount interval) authorization
      metadata =
    (s, ok tt)
execute forms s (process_subscription subscription_id) authorization metadata = (s, ok tt)
execute forms s (cancel_subscription subscription_id) authorization metadata = (s, ok tt)

abbrev pub rollback : ReceiptEpisode → Unit {0} → ReceiptEpisode × Bool
rollback s r = (s, true)
