-- ===== src/Merchant/History.antt =====
-- The histories of examples/kdapp-merchant/src/episode.rs: commands and rollbacks in any order.
use kdapp.Base.{
  ℕ, ◌≡◌, ◌≢◌, refl, sym, ap, ◌∙◌, false, Option, none, some, List, [], ◌∷◌, Map, lookup, insert,
  remove, lookup-remove, contains, ◌==◌, if◌then◌else◌, arith, Option-cases, inl, inr,
}
use kdapp.Episode.{EpisodeError, Result, PayloadMetadata}
use kdapp.Merchant.{
  MerchantCommand, InvoiceStatus, opened, paid, Invoice, MerchantRollback, undo_create, undo_paid,
  undo_ack, undo_cancel, undo_create_subscription, undo_process_subscription,
  undo_cancel_subscription, MerchantError, ReceiptEpisode, Stored, initialize, Surroundings,
}
use kdapp.Merchant.Execute.{execute}
use kdapp.Merchant.Invoices.{retain_not}
use kdapp.Merchant.Rollback.{rollback, with_status, unpay, free_tx}
use kdapp.Merchant.Spending.{
  carrier_of, carrier_of-insert, carrier_of-keep, IsLedger, Kept, Kept-IsLedger, execute-IsLedger,
}

self_apart : (a b : ℕ) → (a == b) ≡ false → a ≢ b
self_apart a b h e = ground arith

ne_some : {tx : ℕ} → ◌≢◌ {A = Option ℕ} none (some tx)
ne_some h = cc

with_status-Kept :
    (s : ReceiptEpisode) (id : ℕ) (status : InvoiceStatus) (i : ℕ)
    → Kept s (with_status s id status).0 i
with_status-Kept s id status i = elim (Option-cases (lookup id s.invoices)) [
  | inl h ↦ (ground (arith, h), ground (arith, h))
  | inr (inv, h) ↦
      let k : carrier_of (insert id (record inv { status = status }) s.invoices) i
          ≡ carrier_of s.invoices i =
        carrier_of-keep s.invoices id (record inv { status = status }) i
          (rw (h, carrier_of) refl) in
      (ground (arith, h, k), ground (arith, h))
]

contains-retain_not :
    (x y : ℕ) (xs : List ℕ)
    → contains (retain_not x xs) y ≡ (if x == y then false else contains xs y)
contains-retain_not x y [] = ground arith
contains-retain_not x y (z ∷ zs) = ground (arith, contains-retain_not x y zs)

contains-free_tx :
    (used : List ℕ) (c : Option ℕ) (tx : ℕ)
    → c ≢ some tx
    → contains (free_tx used c) tx ≡ contains used tx
contains-free_tx used none tx h = refl
contains-free_tx used (some t) tx h = ground (arith, contains-retain_not t tx used)

unpay-IsLedger :
    (s : ReceiptEpisode) (id : ℕ) (inv : Invoice)
    → lookup id s.invoices ≡ some inv
    → IsLedger s
    → IsLedger (unpay s id inv)
unpay-IsLedger s id inv h l =
    let opened_inv : Invoice = record inv { status = opened; payer = none; carrier_tx = none } in
    let at = λ (i : ℕ). carrier_of-insert s.invoices id opened_inv i in
    let own : carrier_of s.invoices id ≡ inv.carrier_tx = rw (h, carrier_of) refl in
    record {
      recorded = λ i tx k.
          let apart : (id == i) ≡ false = ground (arith, at i, k) in
          let held : carrier_of s.invoices i ≡ some tx = ground (arith, at i, k, apart) in
          let other : inv.carrier_tx ≢ some tx =
            λ q. self_apart id i apart (l.once id i tx (own ∙ q) held) in
          contains-free_tx s.used_carrier_txs inv.carrier_tx tx other ∙ l.recorded i tx held;
      once = λ i j tx k m. ground (arith, at i, at j, l.once i j tx, k, m);
    }

carrier_of-remove :
    (m : Map Invoice) (id i : ℕ)
    → carrier_of (remove id m) i ≡ (if id == i then none else carrier_of m i)
carrier_of-remove m id i = ground (arith, lookup-remove id i m)

nothing_paid : (m : Map Invoice) (i tx : ℕ) → m ≡ [] → ¬ (carrier_of m i ≡ some tx)
nothing_paid m i tx e h = ne_some (sym (ap (λ (n : Map Invoice). carrier_of n i) e) ∙ h)

removed-IsLedger :
    (s : ReceiptEpisode) (id : ℕ)
    → IsLedger s
    → IsLedger (record s { invoices = remove id s.invoices })
removed-IsLedger s id l =
    let at : (i : ℕ)
        → carrier_of (remove id s.invoices) i
          ≡ (if id == i then none else carrier_of s.invoices i) =
      carrier_of-remove s.invoices id in
    record {
      recorded = λ i tx k. ground (arith, at i, l.recorded i tx, k);
      once = λ i j tx k m. ground (arith, at i, at j, l.once i j tx, k, m);
    }

rollback-IsLedger :
    (s : ReceiptEpisode) (r : MerchantRollback) → IsLedger s → IsLedger (rollback s r).0
unfolding rollback
rollback-IsLedger s (undo_create id) l = removed-IsLedger s id l
rollback-IsLedger s (undo_paid id) l = elim (Option-cases (lookup id s.invoices)) [
  | inl h ↦ rw (h, rollback) l
  | inr (inv, h) ↦ rw (h, rollback) (unpay-IsLedger s id inv h l)
]
rollback-IsLedger s (undo_ack id) l =
    Kept-IsLedger s (with_status s id paid).0 (with_status-Kept s id paid) l
rollback-IsLedger s (undo_cancel id) l =
    Kept-IsLedger s (with_status s id opened).0 (with_status-Kept s id opened) l
rollback-IsLedger s (undo_create_subscription id) l =
    elim (Option-cases (lookup id s.subscriptions)) [
      | inl h ↦ rw (h, rollback) l
      | inr (sub, h) ↦ rw (h, rollback) (record { recorded = l.recorded; once = l.once })
    ]
rollback-IsLedger s (undo_process_subscription id prev) l =
    elim (Option-cases (lookup id s.subscriptions)) [
      | inl h ↦ rw (h, rollback) l
      | inr (sub, h) ↦ rw (h, rollback) (record { recorded = l.recorded; once = l.once })
    ]
rollback-IsLedger s (undo_cancel_subscription sub) l = record {
  recorded = l.recorded;
  once = l.once;
}

-- What an episode that started without stored invoices can become, in changing surroundings.
pub data Reachable : ReceiptEpisode → Type 0 where
  started :
      (stored : Stored) (participants : List ℕ) (metadata : PayloadMetadata)
      → stored.invoices ≡ []
      → Reachable (initialize stored participants metadata)
  executed :
      (env : Surroundings) (s s' : ReceiptEpisode) (cmd : MerchantCommand) (auth : Option ℕ)
      (metadata : PayloadMetadata) (o : Result (EpisodeError MerchantError) MerchantRollback)
      → Reachable s
      → execute env s cmd auth metadata ≡ some (s', o)
      → Reachable s'
  rolled_back :
      (s : ReceiptEpisode) (r : MerchantRollback) → Reachable s → Reachable (rollback s r).0

started-IsLedger :
    (stored : Stored) (participants : List ℕ) (metadata : PayloadMetadata)
    → stored.invoices ≡ []
    → IsLedger (initialize stored participants metadata)
unfolding initialize
started-IsLedger stored participants metadata e = record {
  recorded = λ i tx h. absurd (nothing_paid stored.invoices i tx e h);
  once = λ i j tx h k. absurd (nothing_paid stored.invoices i tx e h);
}

-- Whatever commands are executed and whatever is rolled back, in any order, no transaction has
-- paid two invoices, and each that has paid one is on the list of used transactions.
pub Reachable-IsLedger : (s : ReceiptEpisode) → Reachable s → IsLedger s
Reachable-IsLedger s (started stored participants metadata e) =
    started-IsLedger stored participants metadata e
Reachable-IsLedger s (executed env s0 s' cmd auth metadata o before h) =
    execute-IsLedger env s0 s' cmd auth metadata o h (Reachable-IsLedger s0 before)
Reachable-IsLedger s (rolled_back s0 r before) =
    rollback-IsLedger s0 r (Reachable-IsLedger s0 before)
