-- ===== src/Listener/Once.antt =====
-- Each transaction is delivered once: the loop over the engines in kdapp/src/proxy.rs.
use kdapp.Base.{
  ℕ, ◌+◌, ◌≡◌, refl, true, some, List, [], ◌∷◌, length, contains_key, ◌==◌, arith, Bool-cases, inl,
  inr, ==_iff, ==_self, contains,
}
use kdapp.Message.{AssociatedTx, EngineMsg, blk_accepted, blk_reverted, exit}
use kdapp.Generator.{PatternType}
use kdapp.Listener.{Required, AcceptingBlock, messages, append, dispatch}
use kdapp.Listener.Taken.{count, present, distinct, left, takes}
use kdapp.Listener.Owed.{wanted, owed, owed_engine, owed_none}

-- How often a transaction is delivered by messages.
unfoldable pub deliveries : ℕ → List (ℕ × EngineMsg) → ℕ
deliveries id [] = 0
deliveries id ((_, blk_accepted block) ∷ rest) = count id block.associated_txs + deliveries id rest
deliveries id ((_, blk_reverted hash) ∷ rest) = deliveries id rest
deliveries id ((_, exit) ∷ rest) = deliveries id rest

messages_len :
    (block : AcceptingBlock) (prefix : ℕ) (txs : List AssociatedTx) (j : ℕ)
    → deliveries j (messages block prefix txs) ≡ count j txs
unfolding deliveries messages count
messages_len block prefix [] j = refl
messages_len block prefix (tx ∷ txs) j = ground arith

append_cons :
    {A : Type 0} (x : A) (xs ys zs : List A)
    → append xs (some ys) ≡ some zs
    → append (x ∷ xs) (some ys) ≡ some (x ∷ zs)
append_cons x xs ys zs h = rw (h, append) refl

appended :
    (xs ys : List (ℕ × EngineMsg))
    → (zs : List (ℕ × EngineMsg)) × (append xs (some ys) ≡ some zs)
      × ((j : ℕ) → deliveries j zs ≡ deliveries j xs + deliveries j ys)
unfolding deliveries
appended [] ys = (ys, refl, λ j. omega arith)
appended ((p, blk_accepted b) ∷ xs) ys =
    let (zs, e, sum) = appended xs ys in
    (
      (p, blk_accepted b) ∷ zs,
      append_cons (p, blk_accepted b) xs ys zs e,
      λ j. let both = sum j in omega arith,
    )
appended ((p, blk_reverted h) ∷ xs) ys =
    let (zs, e, sum) = appended xs ys in
    ((p, blk_reverted h) ∷ zs, append_cons (p, blk_reverted h) xs ys zs e, sum)
appended ((p, exit) ∷ xs) ys =
    let (zs, e, sum) = appended xs ys in ((p, exit) ∷ zs, append_cons (p, exit) xs ys zs e, sum)

owed_nil : (ids : List ℕ) (req : Required) (j : ℕ) → deliveries j [] ≡ owed [] ids req j
unfolding deliveries owed wanted
owed_nil ids req j = ground arith

dispatched :
    (block : AcceptingBlock) (engines : List (ℕ × PatternType)) (ids : List ℕ) (req : Required)
    (consumed : ℕ)
    → distinct ids ≡ true
    → consumed + left ids req ≡ length ids
    → (sent : List (ℕ × EngineMsg)) × (dispatch block engines ids req consumed ≡ some sent)
      × ((j : ℕ) → deliveries j sent ≡ owed engines ids req j)
unfolding dispatch
dispatched block [] ids req consumed d h = ([], refl, λ j. owed_nil ids req j)
dispatched block ((prefix, pattern) ∷ engines) ids req consumed d h =
    let (txs, req', e, t) = takes pattern prefix ids req in
    let sum = t.sizes d in
    elim (Bool-cases (consumed + length txs == length ids)) [
      | inl all ↦
          let count_all = (==_iff (consumed + length txs) (length ids)).0 all in
          (
            messages block prefix txs,
            rw (e, dispatch) (rw (all, dispatch) refl),
            λ j.
                let now = messages_len block prefix txs j in
                let share = owed_engine pattern prefix engines ids req req' txs j t in
                let nothing = owed_none engines ids req' j (omega arith) in omega arith,
          )
      | inr some_left ↦
          let (later, f, rest) =
            dispatched block engines ids req' (consumed + length txs) d (omega arith) in
          let (sent, g, both) = appended (messages block prefix txs) later in
          (
            sent,
            rw (e, dispatch) (rw (some_left, dispatch) (rw f g)),
            λ j.
                let now = messages_len block prefix txs j in
                let share = owed_engine pattern prefix engines ids req req' txs j t in
                let total = both j in let part = rest j in omega arith,
          )
    ]

left_all :
    (ids : List ℕ) (req : Required)
    → ((j : ℕ) → contains ids j ≡ true → contains_key j req.payloads ≡ true)
    → left ids req ≡ length ids
unfolding left present
left_all [] req h = refl
left_all (id ∷ ids) req h =
    let here = h id (ground (arith, ==_self id)) in
    let rest = left_all ids req (λ j c. h j (ground arith)) in ground arith

-- The transactions of an accepting block, none of them listed twice and each with an entry among
-- the payloads, are handed out without a panic, and each is delivered to the engines exactly once if
-- some engine has its pattern and prefix, and never otherwise, however patterns and prefixes
-- overlap and though the loop stops early.
pub dispatch-deliveries :
    (block : AcceptingBlock) (engines : List (ℕ × PatternType)) (ids : List ℕ) (req : Required)
    → distinct ids ≡ true
    → ((j : ℕ) → contains ids j ≡ true → contains_key j req.payloads ≡ true)
    → (sent : List (ℕ × EngineMsg)) × (dispatch block engines ids req 0 ≡ some sent)
      × ((tx_id : ℕ) → deliveries tx_id sent ≡ owed engines ids req tx_id)
dispatch-deliveries block engines ids req d h =
    let all_left = left_all ids req h in dispatched block engines ids req 0 d (omega arith)
