-- ===== src/Merchant/Restored.antt =====
-- Rolling back an accepted command on an invoice or the charge of a subscription of
-- examples/kdapp-merchant/src/episode.rs.
use kdapp.Base.{
  ℕ, ◌≡◌, refl, ap, ap₂, ◌∙◌, true, Option, none, some, lookup, lookup-insert_self, Option-cases,
  inl, inr,
}
use kdapp.Episode.{EpisodeError, Result, ok, PayloadMetadata}
use kdapp.Merchant.{
  MerchantCommand, create_invoice, mark_paid, ack_receipt, cancel_invoice, create_subscription,
  process_subscription, cancel_subscription, InvoiceStatus, opened, paid, acked, canceled, Invoice,
  MerchantRollback, MerchantError, undo_paid, undo_ack, undo_cancel, ReceiptEpisode, Surroundings,
  compute_next_run,
}
use kdapp.Merchant.Execute.{execute}
use kdapp.Merchant.Invoices.{new_invoice, pay, set_status, settled, paid_invoice}
use kdapp.Merchant.Rollback.{rollback, with_status, unpay}
use kdapp.Merchant.Ledger.{pay-IsPayment, pay_undo}
use kdapp.Merchant.Undo.{
  payment_undone, touched_found, create_ok, creation_undone, process_ok, process_missing,
  charge_undone, acknowledge_ok, acknowledge_missing, cancel_ok, cancel_missing,
}
use kdapp.Merchant.Undone.{IsClean, touched, undone, with_status-set_status}

paid_rollback :
    (t : ReceiptEpisode) (id : ℕ) (inv : Invoice)
    → lookup id t.invoices ≡ some inv
    → rollback t (undo_paid id) ≡ (unpay t id inv, true)
unfolding rollback
paid_rollback t id inv h = rw (h, rollback) refl

undone_payment :
    (env : Surroundings) (s s' : ReceiptEpisode) (id payer : ℕ) (auth : Option ℕ)
    (md : PayloadMetadata) (r : MerchantRollback)
    → IsClean s
    → pay env s id payer auth md ≡ some (s', ok r)
    → r ≡ undo_paid id
    → rollback s' r ≡ (touched s id md, true)
undone_payment env s s' id payer auth md r clean h undo =
    let p = pay-IsPayment env s s' id payer auth md r h in
    let paid_inv = paid_invoice p.inv payer md in
    let after = settled s id payer p.inv p.info md in
    ap₂ rollback p.state undo
    ∙ paid_rollback after id paid_inv (lookup-insert_self id paid_inv s.invoices)
    ∙ ap (λ (u : ReceiptEpisode). (u, true))
        (payment_undone s id payer p.inv p.info md p.was_open
            (clean.no_payer id p.inv p.found p.was_open)
            (clean.no_carrier id p.inv p.found p.was_open)
            (clean.unlisted id payer p.inv p.info p.found p.was_open p.customer) p.unused p.customer
          ∙ touched_found s id p.inv md p.found)

some_eq : {a b : ReceiptEpisode} → ◌≡◌ {A = Option ReceiptEpisode} (some a) (some b) → a ≡ b
some_eq h = cc

nothing_undone : {u : ReceiptEpisode} → ¬ (◌≡◌ {A = Option ReceiptEpisode} none (some u))
nothing_undone h = cc

ack_rollback : (t : ReceiptEpisode) (id : ℕ) → rollback t (undo_ack id) ≡ with_status t id paid
unfolding rollback
ack_rollback t id = refl

cancel_rollback :
    (t : ReceiptEpisode) (id : ℕ) → rollback t (undo_cancel id) ≡ with_status t id opened
unfolding rollback
cancel_rollback t id = refl

-- A change of status is undone but for the time.
status_undone :
    (s s' u : ReceiptEpisode) (id : ℕ) (inv : Invoice) (new old : InvoiceStatus)
    (md : PayloadMetadata) (r undo : MerchantRollback)
    → s' ≡ set_status s id inv new md
    → r ≡ undo
    → ((t : ReceiptEpisode) → rollback t undo ≡ with_status t id old)
    → inv.status ≡ old
    → lookup id s.invoices ≡ some inv
    → touched s id md ≡ u
    → rollback s' r ≡ (u, true)
status_undone s s' u id inv new old md r undo state is step was f same =
    ap₂ rollback state is
    ∙ step (set_status s id inv new md)
    ∙ with_status-set_status s id inv new old md was
    ∙ ap (λ (v : ReceiptEpisode). (v, true)) (touched_found s id inv md f ∙ same)

outcome_eq :
    {a b : ReceiptEpisode × Result (EpisodeError MerchantError) MerchantRollback}
    → ◌≡◌ {A = Option (ReceiptEpisode × Result (EpisodeError MerchantError) MerchantRollback)}
        (some a)
        (some b)
    → a ≡ b
outcome_eq h = cc

-- Rolling back an accepted command on an invoice, or the charge of a subscription, succeeds. A
-- charge is undone; a payment, a receipt and a cancellation leave the time of the invoice, and
-- a creation leaves the guardians' keys; everything else is as it was, where open invoices have
-- no payer and no transaction, and stand on no customer's list.
pub rollback-execute_restored :
    (env : Surroundings) (s s' u : ReceiptEpisode) (cmd : MerchantCommand) (auth : Option ℕ)
    (md : PayloadMetadata) (r : MerchantRollback)
    → IsClean s
    → undone s cmd md ≡ some u
    → execute env s cmd auth md ≡ some (s', ok r)
    → rollback s' r ≡ (u, true)
unfolding execute
rollback-execute_restored env s s' u (create_invoice id amount memo keys) auth md r clean is h =
    let (free, state, undo) = create_ok s s' id amount memo keys auth md r (outcome_eq h) in
    rw (state, undo)
      (creation_undone s id (new_invoice id amount memo keys md) keys free
        ∙ ap (λ (v : ReceiptEpisode). (v, true)) (some_eq is))
rollback-execute_restored env s s' u (mark_paid id payer) auth md r clean is h =
    undone_payment env s s' id payer auth md r clean h (pay_undo env s s' id payer auth md r h)
    ∙ ap (λ (v : ReceiptEpisode). (v, true)) (some_eq is)
rollback-execute_restored env s s' u (ack_receipt id) auth md r clean is h =
    elim (Option-cases (lookup id s.invoices)) [
      | inl f ↦ absurd (acknowledge_missing env s s' id md r f (outcome_eq h))
      | inr (inv, f) ↦
          let (old, state, undo) = acknowledge_ok env s s' id md r inv f (outcome_eq h) in
          status_undone s s' u id inv acked paid md r (undo_ack id) state undo
            (λ t. ack_rollback t id) old f (some_eq is)
    ]
rollback-execute_restored env s s' u (cancel_invoice id) auth md r clean is h =
    elim (Option-cases (lookup id s.invoices)) [
      | inl f ↦ absurd (cancel_missing s s' id md r f (outcome_eq h))
      | inr (inv, f) ↦
          let (old, state, undo) = cancel_ok s s' id md r inv f (outcome_eq h) in
          status_undone s s' u id inv canceled opened md r (undo_cancel id) state undo
            (λ t. cancel_rollback t id) old f (some_eq is)
    ]
rollback-execute_restored env s s' u (create_subscription id c amount interval) auth md r clean is
      h =
    absurd (nothing_undone is)
rollback-execute_restored env s s' u (process_subscription id) auth md r clean is h =
    elim (Option-cases (lookup id s.subscriptions)) [
      | inl f ↦ absurd (process_missing env s s' id md r f (outcome_eq h))
      | inr (sub, f) ↦
          let (state, undo) = process_ok env s s' id md r sub f (outcome_eq h) in
          rw (state, undo)
            (charge_undone s id (compute_next_run env.drawn md.accepting_time sub.period_secs) sub f
              ∙ ap (λ (v : ReceiptEpisode). (v, true)) (some_eq is))
    ]
rollback-execute_restored env s s' u (cancel_subscription id) auth md r clean is h =
    absurd (nothing_undone is)
