-- ===== src/Merchant/Spending.antt =====
-- No transaction pays two invoices of examples/kdapp-merchant/src/episode.rs, whatever is executed
-- and rolled back.
use kdapp.Base.{
  ℕ, ◌≡◌, refl, sym, ap, subst, ◌∙◌, true, false, Option, none, some, List, Map, lookup, insert,
  lookup-insert, contains, ◌==◌, if◌then◌else◌, arith, Option-cases, inl, inr,
}
use kdapp.Episode.{EpisodeError, Result, ok, err, PayloadMetadata}
use kdapp.Merchant.{
  MerchantCommand, create_invoice, mark_paid, ack_receipt, cancel_invoice, create_subscription,
  process_subscription, cancel_subscription, InvoiceStatus, opened, acked, canceled, Invoice,
  MerchantRollback, MerchantError, ReceiptEpisode, CustomerInfo, Surroundings,
}
use kdapp.Merchant.Execute.{subscribe, process, unsubscribe, execute}
use kdapp.Merchant.Invoices.{create, acknowledge, cancel, pay, set_status, settled, paid_invoice}
use kdapp.Merchant.Ledger.{pay-IsPayment, pay_err}

-- The transaction that paid an invoice.
abbrev pub carrier_of : Map Invoice → ℕ → Option ℕ
carrier_of m i = elim (lookup i m) [ none ↦ none | some inv ↦ inv.carrier_tx ]

-- The transactions that paid are used, and each paid one invoice.
pub record IsLedger (s : ReceiptEpisode) : Type 0 where
  pub recorded :
      (i tx : ℕ) → carrier_of s.invoices i ≡ some tx → contains s.used_carrier_txs tx ≡ true
  pub once :
      (i j tx : ℕ) → carrier_of s.invoices i ≡ some tx → carrier_of s.invoices j ≡ some tx → i ≡ j

same_carriers :
    (s s' : ReceiptEpisode)
    → ((i : ℕ) → carrier_of s'.invoices i ≡ carrier_of s.invoices i)
    → s'.used_carrier_txs ≡ s.used_carrier_txs
    → IsLedger s
    → IsLedger s'
same_carriers s s' same used l = record {
  recorded = λ i tx h. ap (λ (u : List ℕ). contains u tx) used ∙ l.recorded i tx (sym (same i) ∙ h);
  once = λ i j tx h k. l.once i j tx (sym (same i) ∙ h) (sym (same j) ∙ k);
}

-- Writing an invoice with the carrier that stands there.
pub carrier_of-insert :
    (m : Map Invoice) (id : ℕ) (inv : Invoice) (i : ℕ)
    → carrier_of (insert id inv m) i ≡ (if id == i then inv.carrier_tx else carrier_of m i)
carrier_of-insert m id inv i = ground (arith, lookup-insert id i inv m)

pub carrier_of-keep :
    (m : Map Invoice) (id : ℕ) (inv : Invoice) (i : ℕ)
    → carrier_of m id ≡ inv.carrier_tx
    → carrier_of (insert id inv m) i ≡ carrier_of m i
carrier_of-keep m id inv i h = ground (arith, carrier_of-insert m id inv i)

-- A part of the ledger's state after a command, that is the same as before.
abbrev pub Kept : ReceiptEpisode → ReceiptEpisode → ℕ → Type 0
Kept s s' i =
    (carrier_of s'.invoices i ≡ carrier_of s.invoices i)
    × (s'.used_carrier_txs ≡ s.used_carrier_txs)

pub Kept-IsLedger : (s s' : ReceiptEpisode) → ((i : ℕ) → Kept s s' i) → IsLedger s → IsLedger s'
Kept-IsLedger s s' k l = same_carriers s s' (λ i. (k i).0) (k 0).1 l

create-Kept :
    (s : ReceiptEpisode) (id amount : ℕ) (memo : Option (List ℕ)) (keys : List ℕ) (auth : Option ℕ)
    (md : PayloadMetadata) (i : ℕ)
    → Kept s (create s id amount memo keys auth md).0 i
unfolding create
create-Kept s id amount memo keys auth md i = (
  ground (
    arith,
    lookup-insert id i
        (record {
          id = id;
          amount = amount;
          memo = memo;
          created_at = md.accepting_time;
          last_update = md.accepting_time;
          status = opened;
          payer = none;
          carrier_tx = none;
          guardian_keys = keys;
        })
        s.invoices,
  ),
  ground arith,
)

set_status-Kept :
    (s : ReceiptEpisode) (id : ℕ) (inv : Invoice) (status : InvoiceStatus) (md : PayloadMetadata)
    (i : ℕ)
    → lookup id s.invoices ≡ some inv
    → Kept s (set_status s id inv status md) i
set_status-Kept s id inv status md i h = (
  carrier_of-keep s.invoices id (record inv { status = status; last_update = md.accepting_time }) i
      (rw (h, carrier_of) refl),
  refl,
)

acknowledge-Kept :
    (env : Surroundings) (s : ReceiptEpisode) (id : ℕ) (md : PayloadMetadata) (i : ℕ)
    → Kept s (acknowledge env s id md).0 i
unfolding acknowledge
acknowledge-Kept env s id md i = elim (Option-cases (lookup id s.invoices)) [
  | inl h ↦ (ground (arith, h), ground (arith, h))
  | inr (inv, h) ↦
      let k = set_status-Kept s id inv acked md i h in (ground (arith, h, k.0), ground (arith, h))
]

cancel-Kept :
    (s : ReceiptEpisode) (id : ℕ) (md : PayloadMetadata) (i : ℕ) → Kept s (cancel s id md).0 i
unfolding cancel
cancel-Kept s id md i = elim (Option-cases (lookup id s.invoices)) [
  | inl h ↦ (ground (arith, h), ground (arith, h))
  | inr (inv, h) ↦
      let k = set_status-Kept s id inv canceled md i h in
      (ground (arith, h, k.0), ground (arith, h))
]

subscribe-Kept :
    (env : Surroundings) (s : ReceiptEpisode) (id customer amount interval : ℕ) (auth : Option ℕ)
    (md : PayloadMetadata) (i : ℕ)
    → Kept s (subscribe env s id customer amount interval auth md).0 i
unfolding subscribe
subscribe-Kept env s id customer amount interval none md i = (ground arith, ground arith)
subscribe-Kept env s id customer amount interval (some pk) md i = (ground arith, ground arith)

process-Kept :
    (env : Surroundings) (s : ReceiptEpisode) (id : ℕ) (md : PayloadMetadata) (i : ℕ)
    → Kept s (process env s id md).0 i
unfolding process
process-Kept env s id md i = (ground arith, ground arith)

unsubscribe-Kept : (s : ReceiptEpisode) (id i : ℕ) → Kept s (unsubscribe s id).0 i
unfolding unsubscribe
unsubscribe-Kept s id i = (ground arith, ground arith)

settled-IsLedger :
    (s : ReceiptEpisode) (id payer : ℕ) (inv : Invoice) (info : CustomerInfo) (md : PayloadMetadata)
    → contains s.used_carrier_txs md.tx_id ≡ false
    → IsLedger s
    → IsLedger (settled s id payer inv info md)
settled-IsLedger s id payer inv info md unused l = record {
  recorded = λ i tx h.
      ground
        (arith, l.recorded i tx, carrier_of-insert s.invoices id (paid_invoice inv payer md) i, h);
  once = λ i j tx h k. ground (
    arith,
    l.once i j tx,
    l.recorded i tx,
    l.recorded j tx,
    unused,
    carrier_of-insert s.invoices id (paid_invoice inv payer md) i,
    carrier_of-insert s.invoices id (paid_invoice inv payer md) j,
    h,
    k,
  );
}

pay-IsLedger :
    (env : Surroundings) (s s' : ReceiptEpisode) (id payer : ℕ) (auth : Option ℕ)
    (md : PayloadMetadata) (o : Result (EpisodeError MerchantError) MerchantRollback)
    → pay env s id payer auth md ≡ some (s', o)
    → IsLedger s
    → IsLedger s'
pay-IsLedger env s s' id payer auth md (err e) h l =
    subst IsLedger (sym (pay_err env s s' id payer auth md e h)) l
pay-IsLedger env s s' id payer auth md (ok r) h l =
    let p = pay-IsPayment env s s' id payer auth md r h in
    subst IsLedger (sym p.state) (settled-IsLedger s id payer p.inv p.info md p.unused l)

outcome_state :
    {s' : ReceiptEpisode} {o : Result (EpisodeError MerchantError) MerchantRollback}
    (out : ReceiptEpisode × Result (EpisodeError MerchantError) MerchantRollback)
    → ◌≡◌ {A = Option (ReceiptEpisode × Result (EpisodeError MerchantError) MerchantRollback)}
        (some out)
        (some (s', o))
    → out.0 ≡ s'
outcome_state out h = ground arith

pub execute-IsLedger :
    (env : Surroundings) (s s' : ReceiptEpisode) (cmd : MerchantCommand) (auth : Option ℕ)
    (md : PayloadMetadata) (o : Result (EpisodeError MerchantError) MerchantRollback)
    → execute env s cmd auth md ≡ some (s', o)
    → IsLedger s
    → IsLedger s'
unfolding execute
execute-IsLedger env s s' (create_invoice id amount memo keys) auth md o h l =
    subst IsLedger (outcome_state (create s id amount memo keys auth md) h) (
      Kept-IsLedger s (create s id amount memo keys auth md).0
        (create-Kept s id amount memo keys auth md) l)
execute-IsLedger env s s' (mark_paid id payer) auth md o h l =
    pay-IsLedger env s s' id payer auth md o h l
execute-IsLedger env s s' (ack_receipt id) auth md o h l =
    subst IsLedger (outcome_state (acknowledge env s id md) h)
      (Kept-IsLedger s (acknowledge env s id md).0 (acknowledge-Kept env s id md) l)
execute-IsLedger env s s' (cancel_invoice id) auth md o h l =
    subst IsLedger (outcome_state (cancel s id md) h)
      (Kept-IsLedger s (cancel s id md).0 (cancel-Kept s id md) l)
execute-IsLedger env s s' (create_subscription id customer amount interval) auth md o h l =
    subst IsLedger (outcome_state (subscribe env s id customer amount interval auth md) h) (
      Kept-IsLedger s (subscribe env s id customer amount interval auth md).0
        (subscribe-Kept env s id customer amount interval auth md) l)
execute-IsLedger env s s' (process_subscription id) auth md o h l =
    subst IsLedger (outcome_state (process env s id md) h)
      (Kept-IsLedger s (process env s id md).0 (process-Kept env s id md) l)
execute-IsLedger env s s' (cancel_subscription id) auth md o h l =
    subst IsLedger (outcome_state (unsubscribe s id) h)
      (Kept-IsLedger s (unsubscribe s id).0 (unsubscribe-Kept s id) l)
