-- ===== src/Merchant/Undo.antt =====
-- What a rollback of examples/kdapp-merchant/src/episode.rs restores of invoices.
use kdapp.Base.{
  ℕ, ◌≡◌, refl, sym, ap, ◌∙◌, true, false, Option, none, some, List, push_back, lookup, insert,
  insert-insert, insert_same, remove-insert, eq_none-contains_key, lookup-insert_self, contains_key,
  contains_key-eq_some, contains, arith,
}
use kdapp.Episode.{ok, PayloadMetadata}
use kdapp.Merchant.{
  opened, paid, acked, canceled, Invoice, Subscription, MerchantRollback, undo_create, undo_ack,
  undo_cancel, undo_process_subscription, ReceiptEpisode, CustomerInfo, Surroundings,
  compute_next_run,
}
use kdapp.Merchant.Execute.{process}
use kdapp.Merchant.Invoices.{
  retain_not, new_invoice, create, acknowledge, cancel, set_status, settled, paid_invoice,
  with_invoice,
}
use kdapp.Merchant.Rollback.{rollback, unpay, forget_invoice}
use kdapp.Merchant.Undone.{
  retain_not-push_back, retain_not-cons, stamped, touched, forget_invoice-insert,
}

pub payment_undone :
    (s : ReceiptEpisode) (id payer : ℕ) (inv : Invoice) (info : CustomerInfo) (md : PayloadMetadata)
    → inv.status ≡ opened
    → inv.payer ≡ none
    → inv.carrier_tx ≡ none
    → contains info.invoices id ≡ false
    → contains s.used_carrier_txs md.tx_id ≡ false
    → lookup payer s.customers ≡ some info
    → unpay (settled s id payer inv info md) id (paid_invoice inv payer md) ≡ stamped s id inv md
payment_undone s id payer inv info md o p c unlisted unused customer =
    let back : Invoice = record (paid_invoice inv payer md) {
      status = opened;
      payer = none;
      carrier_tx = none;
    } in
    let invs : insert id back (insert id (paid_invoice inv payer md) s.invoices)
        ≡ insert id (record inv { last_update = md.accepting_time }) s.invoices =
      insert-insert id (paid_invoice inv payer md) back s.invoices ∙ (λ i.
        insert id
          (record inv {
            last_update = md.accepting_time;
            status = sym o i;
            payer = sym p i;
            carrier_tx = sym c i;
          })
          s.invoices) in
    let listed : with_invoice info id ≡ record info { invoices = push_back info.invoices id } =
      rw (unlisted) refl in
    let restored : record (with_invoice info id) {
      invoices = retain_not id (with_invoice info id).invoices;
    }
        ≡ info =
      ap (λ (n : CustomerInfo). record n { invoices = retain_not id n.invoices }) listed
      ∙ (λ i. record info { invoices = retain_not-push_back id info.invoices unlisted i }) in
    let custs : forget_invoice (insert payer (with_invoice info id) s.customers) (some payer) id
        ≡ s.customers =
      forget_invoice-insert s.customers payer id (with_invoice info id) info restored customer in
    λ i. record s {
      invoices = invs i;
      customers = custs i;
      used_carrier_txs = retain_not-cons md.tx_id s.used_carrier_txs unused i;
    }

pub touched_found :
    (s : ReceiptEpisode) (id : ℕ) (inv : Invoice) (md : PayloadMetadata)
    → lookup id s.invoices ≡ some inv
    → stamped s id inv md ≡ touched s id md
touched_found s id inv md h = rw (h, touched) refl

-- How the other commands go through, and what their rollback does.
pub create_ok :
    (s s' : ReceiptEpisode) (id amount : ℕ) (memo : Option (List ℕ)) (keys : List ℕ)
    (auth : Option ℕ) (md : PayloadMetadata) (r : MerchantRollback)
    → create s id amount memo keys auth md ≡ (s', ok r)
    → (contains_key id s.invoices ≡ false)
      × (s' ≡ record s {
        invoices = insert id (new_invoice id amount memo keys md) s.invoices;
        guardian_keys = keys;
      })
      × (r ≡ undo_create id)
unfolding create
create_ok s s' id amount memo keys auth md r h = (ground arith, ground arith, ground arith)

pub creation_undone :
    (s : ReceiptEpisode) (id : ℕ) (inv : Invoice) (keys : List ℕ)
    → contains_key id s.invoices ≡ false
    → rollback
        (record s { invoices = insert id inv s.invoices; guardian_keys = keys })
        (undo_create id)
      ≡ (record s { guardian_keys = keys }, true)
unfolding rollback
creation_undone s id inv keys h = λ i. (
  record s {
    invoices = remove-insert id inv s.invoices (eq_none-contains_key id s.invoices h) i;
    guardian_keys = keys;
  },
  contains_key-eq_some id inv (insert id inv s.invoices) (lookup-insert_self id inv s.invoices) i,
)

pub process_ok :
    (env : Surroundings) (s s' : ReceiptEpisode) (id : ℕ) (md : PayloadMetadata)
    (r : MerchantRollback) (sub : Subscription)
    → lookup id s.subscriptions ≡ some sub
    → process env s id md ≡ (s', ok r)
    → (s' ≡ record s {
      subscriptions =
          insert id
            (record sub {
              next_run_ts = compute_next_run env.drawn md.accepting_time sub.period_secs;
            })
            s.subscriptions;
    })
      × (r ≡ undo_process_subscription id sub.next_run_ts)
unfolding process
process_ok env s s' id md r sub f h = (ground (arith, f), ground (arith, f))

pub process_missing :
    (env : Surroundings) (s s' : ReceiptEpisode) (id : ℕ) (md : PayloadMetadata)
    (r : MerchantRollback)
    → lookup id s.subscriptions ≡ none
    → ¬ (process env s id md ≡ (s', ok r))
unfolding process
process_missing env s s' id md r f h = ground arith

pub charge_undone :
    (s : ReceiptEpisode) (id time : ℕ) (sub : Subscription)
    → lookup id s.subscriptions ≡ some sub
    → rollback
        (record s { subscriptions = insert id (record sub { next_run_ts = time }) s.subscriptions })
        (undo_process_subscription id sub.next_run_ts)
      ≡ (s, true)
unfolding rollback
charge_undone s id time sub f =
    rw (lookup-insert_self id (record sub { next_run_ts = time }) s.subscriptions, rollback)
      (λ i. (
        record s {
          subscriptions =
              (insert-insert id (record sub { next_run_ts = time }) sub s.subscriptions
                  ∙ insert_same id sub s.subscriptions f)
                i;
        },
        true,
      ))

pub acknowledge_ok :
    (env : Surroundings) (s s' : ReceiptEpisode) (id : ℕ) (md : PayloadMetadata)
    (r : MerchantRollback) (inv : Invoice)
    → lookup id s.invoices ≡ some inv
    → acknowledge env s id md ≡ (s', ok r)
    → (inv.status ≡ paid) × (s' ≡ set_status s id inv acked md) × (r ≡ undo_ack id)
unfolding acknowledge
acknowledge_ok env s s' id md r inv f h = (ground (arith, f), ground (arith, f), ground (arith, f))

pub acknowledge_missing :
    (env : Surroundings) (s s' : ReceiptEpisode) (id : ℕ) (md : PayloadMetadata)
    (r : MerchantRollback)
    → lookup id s.invoices ≡ none
    → ¬ (acknowledge env s id md ≡ (s', ok r))
unfolding acknowledge
acknowledge_missing env s s' id md r f h = ground arith

pub cancel_ok :
    (s s' : ReceiptEpisode) (id : ℕ) (md : PayloadMetadata) (r : MerchantRollback) (inv : Invoice)
    → lookup id s.invoices ≡ some inv
    → cancel s id md ≡ (s', ok r)
    → (inv.status ≡ opened) × (s' ≡ set_status s id inv canceled md) × (r ≡ undo_cancel id)
unfolding cancel
cancel_ok s s' id md r inv f h = (ground (arith, f), ground (arith, f), ground (arith, f))

pub cancel_missing :
    (s s' : ReceiptEpisode) (id : ℕ) (md : PayloadMetadata) (r : MerchantRollback)
    → lookup id s.invoices ≡ none
    → ¬ (cancel s id md ≡ (s', ok r))
unfolding cancel
cancel_missing s s' id md r f h = ground arith
