-- ===== src/Tests/Customer.antt =====
-- An invoice that examples/kdapp-customer/src/episode.rs and the merchant's episode both see paid.
use kdapp.Base.{ℕ, ◌≡◌, refl, Option, none, some, List, [], ◌∷◌, replicate, arith}
use kdapp.Episode.{ok, err, invalid_command, TxOutputInfo, PayloadMetadata}
use kdapp.Script.{normalize_script_bytes, normalize_from, item, matched, matches_p2pk}
use kdapp.Merchant.{mark_paid, opened, undo_paid, min_confirmations, CustomerInfo, Surroundings}
use kdapp.Merchant as Merchant
use kdapp.Merchant.Invoices.{settled}
use kdapp.Merchant.Execute as Execute
use kdapp.Customer.{
  Invoice, ReceiptEpisode, p2pk_script, check_outputs, pay, execute, insufficient_payment,
}
use kdapp.Customer.Agreed.{mark_paid-pay}

abbrev env : Surroundings
env = record {
  policy = min_confirmations 1;
  confirmation = λ id. none;
  drawn = 1;
  forms = record { serialize = λ key. key ∷ replicate 32 0; x_only = λ key. replicate 32 key };
}

-- The merchant has the key 5, the customer 9, and the invoice 1 is of 500.
abbrev md : ℕ → PayloadMetadata
md value = record {
  accepting_hash = 1;
  accepting_daa = 10;
  accepting_time = 100;
  tx_id = 77;
  tx_outputs = some (
      record { value = value; script_version = 0; script_bytes = some (p2pk_script env.forms 5) }
      ∷ []);
  tx_status = none;
}

abbrev outs : List TxOutputInfo
outs =
    record { value = 600; script_version = 0; script_bytes = some (p2pk_script env.forms 5) } ∷ []

abbrev seen : Option ℕ → Invoice
seen payer = record {
  id = 1;
  amount = 500;
  memo = none;
  status = opened;
  payer = payer;
  merchant_pubkey = 5;
  guardian_keys = [];
}

abbrev customer : Option ℕ → ReceiptEpisode
customer payer = record { invoices = (1, seen payer) ∷ []; subscriptions = [] }

abbrev invoice : Merchant.Invoice
invoice = record {
  id = 1;
  amount = 500;
  memo = none;
  created_at = 50;
  last_update = 50;
  status = opened;
  payer = none;
  carrier_tx = none;
  guardian_keys = [];
}

abbrev nine : CustomerInfo
nine = record { invoices = []; subscriptions = [] }

abbrev merchant : Merchant.ReceiptEpisode
merchant = record {
  merchant_keys = 5 ∷ [];
  guardian_keys = [];
  invoices = (1, invoice) ∷ [];
  subscriptions = [];
  customers = (9, nine) ∷ [];
  used_carrier_txs = [];
}

mark_paid-pay_example :
    Execute.execute env merchant (mark_paid 1 9) (some 9) (md 600)
    ≡ some (settled merchant 1 9 invoice nine (md 600), ok (undo_paid 1))
unfolding execute pay check_outputs normalize_script_bytes normalize_from item matched matches_p2pk
mark_paid-pay_example =
    mark_paid-pay env (customer none) _ merchant 1 9 (seen none) invoice nine (some 9) (md 600) outs
      refl refl refl refl refl (omega arith) refl refl refl refl refl refl

-- A payment that is refused leaves its payer.
short_paid :
    execute env.forms (customer none) (mark_paid 1 9) (some 9) (md 400)
    ≡ (customer (some 9), err (invalid_command insufficient_payment))
unfolding execute pay check_outputs
short_paid = refl
