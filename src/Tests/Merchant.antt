-- ===== src/Tests/Merchant.antt =====
-- An invoice of examples/kdapp-merchant/src/episode.rs, from its creation to its payment.
use kdapp.Base.{
  ℕ, ◌≡◌, refl, ap, true, none, some, List, [], ◌∷◌, ◌++◌, replicate, lookup, contains, arith,
}
use kdapp.Episode.{ok, PayloadMetadata}
use kdapp.Script.{
  item, normalize_from, normalize_script_bytes, matched, matches_p2pk, add_outputs,
  enforce_payment_policy,
}
use kdapp.Merchant.{
  CustomerInfo, create_invoice, mark_paid, Invoice, opened, undo_create, undo_paid, ReceiptEpisode,
  Stored, initialize, min_confirmations, Surroundings,
}
use kdapp.Merchant.Execute.{execute}
use kdapp.Merchant.Invoices.{create, pay, pay_open, settled}
use kdapp.Merchant.Rollback.{rollback}
use kdapp.Merchant.Decided.{Decision, pay-Decision}
use kdapp.Merchant.Undone.{IsClean}
use kdapp.Merchant.Restored.{rollback-execute_restored}
use kdapp.Merchant.Spending.{IsLedger}
use kdapp.Merchant.History.{started, executed, rolled_back, Reachable-IsLedger}

abbrev env : Surroundings
env = record {
  policy = min_confirmations 1;
  confirmation = λ id. none;
  drawn = 1;
  forms = record { serialize = λ key. key ∷ replicate 32 0; x_only = λ key. replicate 32 key };
}

-- Transaction 77 pays 600 to the merchant's key 5.
abbrev md : PayloadMetadata
md = record {
  accepting_hash = 1;
  accepting_daa = 0;
  accepting_time = 40;
  tx_id = 77;
  tx_outputs = some (
      record {
        value = 600;
        script_version = 0;
        script_bytes = some (33 ∷ ((5 ∷ replicate 32 0) ++ 172 ∷ []));
      }
      ∷ []);
  tx_status = none;
}

abbrev stored : Stored
stored = record {
  invoices = [];
  subscriptions = [];
  customers = (8, record { invoices = []; subscriptions = [] }) ∷ [];
}

abbrev opening : ReceiptEpisode
unfolding initialize
opening = initialize stored (5 ∷ []) md

abbrev invoice : Invoice
invoice = record {
  id = 3;
  amount = 500;
  memo = none;
  created_at = 40;
  last_update = 40;
  status = opened;
  payer = none;
  carrier_tx = none;
  guardian_keys = [];
}

abbrev billed : ReceiptEpisode
unfolding initialize
billed = record opening { invoices = (3, invoice) ∷ [] }

billing :
    execute env opening (create_invoice 3 500 none []) (some 5) md
    ≡ some (billed, ok (undo_create 3))
unfolding initialize execute create
billing = refl

abbrev done : ReceiptEpisode
unfolding initialize
done = settled billed 3 8 invoice (record { invoices = []; subscriptions = [] }) md

payment : pay env billed 3 8 (some 8) md ≡ some (done, ok (undo_paid 3))
unfolding initialize pay pay_open enforce_payment_policy add_outputs normalize_script_bytes
    normalize_from item matched matches_p2pk
payment = refl

paying : execute env billed (mark_paid 3 8) (some 8) md ≡ some (done, ok (undo_paid 3))
unfolding execute
paying = payment

Reachable-IsLedger_example : IsLedger (rollback done (undo_paid 3)).0
unfolding initialize
Reachable-IsLedger_example = Reachable-IsLedger (rollback done (undo_paid 3)).0 (
    rolled_back done (undo_paid 3) (
      executed env billed done (mark_paid 3 8) (some 8) md (ok (undo_paid 3))
        (executed env opening billed (create_invoice 3 500 none []) (some 5) md (ok (undo_create 3))
          (started stored (5 ∷ []) md refl) billing)
        paying))

billed_payer : (id : ℕ) (inv : Invoice) → lookup id billed.invoices ≡ some inv → inv.payer ≡ none
unfolding initialize
billed_payer id inv h = ground arith

billed_carrier :
    (id : ℕ) (inv : Invoice) → lookup id billed.invoices ≡ some inv → inv.carrier_tx ≡ none
unfolding initialize
billed_carrier id inv h = ground arith

billed_list :
    (payer : ℕ) (info : CustomerInfo)
    → lookup payer billed.customers ≡ some info
    → info.invoices ≡ []
unfolding initialize
billed_list payer info h = ground arith

billed-IsClean : IsClean billed
billed-IsClean = record {
  no_payer = λ id inv h o. billed_payer id inv h;
  no_carrier = λ id inv h o. billed_carrier id inv h;
  unlisted =
      λ id payer inv info h o c. ap (λ (l : List ℕ). contains l id) (billed_list payer info c);
}

-- The payment of the invoice is rolled back to the invoice as it was.
rollback-execute_restored_example : rollback done (undo_paid 3) ≡ (billed, true)
unfolding initialize
rollback-execute_restored_example =
    rollback-execute_restored env billed done billed (mark_paid 3 8) (some 8) md (undo_paid 3)
      billed-IsClean refl paying

-- The payment of the invoice is decided.
pay-Decision_example : Decision env billed 3 8 (some 8) md (pay env billed 3 8 (some 8) md)
pay-Decision_example = pay-Decision env billed 3 8 (some 8) md
