-- ===== src/Merchant.antt =====
-- examples/kdapp-merchant/src/episode.rs: a merchant's invoices and subscriptions as an episode,
-- and the policy on confirmations of src/webhook.rs. The copy of the state that is written to the
-- database is left out.
pub mod Invoices
pub mod Execute
pub mod Rollback
pub mod Ledger
pub mod Spending
pub mod History
pub mod Undone
pub mod Undo
pub mod Restored
pub mod Total
pub mod Decided
use kdapp.Base.{
  ℕ, ◌+◌, ◌-◌, ◌*◌, ◌/◌, max, Bool, true, false, Option, none, some, List, [], ◌∷◌, Map, contains,
  leb, ◌==◌, if◌then◌else◌,
}
use kdapp.Episode.{EpisodeError, Result, TxStatus, PayloadMetadata}
use kdapp.Script.{KeyForms}

pub data MerchantCommand : Type 0 where
  create_invoice :
      (invoice_id amount : ℕ) (memo : Option (List ℕ)) (guardian_keys : List ℕ) → MerchantCommand
  mark_paid : (invoice_id payer : ℕ) → MerchantCommand
  ack_receipt : (invoice_id : ℕ) → MerchantCommand
  cancel_invoice : (invoice_id : ℕ) → MerchantCommand
  create_subscription : (subscription_id customer amount interval : ℕ) → MerchantCommand
  process_subscription : (subscription_id : ℕ) → MerchantCommand
  cancel_subscription : (subscription_id : ℕ) → MerchantCommand

pub data InvoiceStatus : Type 0 where
  opened paid acked canceled : InvoiceStatus

pub record Invoice : Type 0 where
  pub id : ℕ
  pub amount : ℕ
  pub memo : Option (List ℕ)
  pub created_at : ℕ
  pub last_update : ℕ
  pub status : InvoiceStatus
  pub payer : Option ℕ
  pub carrier_tx : Option ℕ
  pub guardian_keys : List ℕ

pub data SubStatus : Type 0 where
  active paused sub_canceled : SubStatus

pub record Subscription : Type 0 where
  pub sub_id : ℕ
  pub customer_id : ℕ
  pub merchant_pubkey : ℕ
  pub amount_sompi : ℕ
  pub period_secs : ℕ
  pub next_run_ts : ℕ
  pub status : SubStatus
  pub memo : Option (List ℕ)

pub data MerchantRollback : Type 0 where
  undo_create undo_paid undo_ack undo_cancel : (invoice_id : ℕ) → MerchantRollback
  undo_create_subscription : (subscription_id : ℕ) → MerchantRollback
  undo_process_subscription : (subscription_id prev_next_run : ℕ) → MerchantRollback
  undo_cancel_subscription : (subscription : Subscription) → MerchantRollback

pub data MerchantError : Type 0 where
  exists not_found invalid_amount already_paid already_acked already_canceled : MerchantError
  unknown_customer invalid_script duplicate_payment subscription_exists : MerchantError
  subscription_not_found insufficient_confirmations : MerchantError

pub record CustomerInfo : Type 0 where
  pub invoices : List ℕ
  pub subscriptions : List ℕ

-- The set of carrier transactions is a list without order.
pub record ReceiptEpisode : Type 0 where
  pub merchant_keys : List ℕ
  pub guardian_keys : List ℕ
  pub invoices : Map Invoice
  pub subscriptions : Map Subscription
  pub customers : Map CustomerInfo
  pub used_carrier_txs : List ℕ

-- What is read from the database when an episode starts.
pub record Stored : Type 0 where
  pub invoices : Map Invoice
  pub subscriptions : Map Subscription
  pub customers : Map CustomerInfo

abbrev pub carriers : Map Invoice → List ℕ
carriers [] = []
carriers ((id, inv) ∷ m) =
    let rest = carriers m in
    elim inv.carrier_tx [ none ↦ rest | some tx ↦ if contains rest tx then rest else tx ∷ rest ]

unfoldable pub initialize : Stored → List ℕ → PayloadMetadata → ReceiptEpisode
initialize stored participants metadata = record {
  merchant_keys = participants;
  guardian_keys = [];
  invoices = stored.invoices;
  subscriptions = stored.subscriptions;
  customers = stored.customers;
  used_carrier_txs = carriers stored.invoices;
}

-- `ConfirmationPolicy`
pub data ConfirmationPolicy : Type 0 where
  finalized : ConfirmationPolicy
  min_confirmations : (threshold : ℕ) → ConfirmationPolicy

unfoldable pub is_satisfied_by : ConfirmationPolicy → Option TxStatus → Bool
is_satisfied_by policy none = false
is_satisfied_by finalized (some status) = elim status.finality [ none ↦ false | some b ↦ b ]
is_satisfied_by (min_confirmations threshold) (some status) =
    leb threshold (elim status.confirmations [ none ↦ 0 | some n ↦ n ])

-- What an execution finds round it: the policy, the confirmations that the watcher stored, the
-- number that is drawn for a subscription's jitter, and the forms of keys.
pub record Surroundings : Type 0 where
  pub policy : ConfirmationPolicy
  pub confirmation : ℕ → Option TxStatus
  pub drawn : ℕ
  pub forms : KeyForms

-- `gen_range(-jitter..=jitter)` is the drawn number less the jitter. For times below
-- 2 ^ 62 and intervals below 2 ^ 60, where no cast to a signed word and no product wraps around.
unfoldable pub compute_next_run : ℕ → ℕ → ℕ → ℕ
compute_next_run drawn now interval =
    let jitter = max 1 (interval * 5 / 100) in max (now + interval + drawn - jitter) now

abbrev pub Outcome : Type 0
Outcome = ReceiptEpisode × Result (EpisodeError MerchantError) MerchantRollback
