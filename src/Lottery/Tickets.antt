-- ===== src/Lottery/Tickets.antt =====
-- The draw of examples/kas-draw/src/episode.rs: the winner is a ticket that was sold, and is paid
-- once.
use kdapp.Base.{
  ℕ, zero, suc, ◌%◌, ◌<◌, ◌≡◌, ◌≢◌, refl, sym, ap, ◌∙◌, subst, Bool, true, false, ◌||◌, some, List,
  [], ◌∷◌, map, length, get_elem?, contains, Map, contains_key, ◌==◌, arith, u64_mod,
}
use native.Mathlib.Nat.{mod-lt}
use kdapp.Episode.{invalid_command, ok, err, PayloadMetadata}
use kdapp.Lottery.{
  LotteryRollback, undo_claim_prize, no_ticket, LotteryEpisode, Ticket, insert_sorted, sort,
  pick_winner, with_winner, draw, claim,
}
use kdapp.Lottery.Play.{draw_ok}

contains-insert_sorted :
    (x w : ℕ) (ys : List ℕ) → contains (insert_sorted x ys) w ≡ (x == w || contains ys w)
contains-insert_sorted x w [] = refl
contains-insert_sorted x w (y ∷ ys) = ground (arith, contains-insert_sorted x w ys)

contains-sort : (w : ℕ) (xs : List ℕ) → contains (sort xs) w ≡ contains xs w
contains-sort w [] = refl
contains-sort w (x ∷ xs) =
    contains-insert_sorted x w (sort xs) ∙ ap (λ (b : Bool). x == w || b) (contains-sort w xs)

length-insert_sorted : (x : ℕ) (ys : List ℕ) → length (insert_sorted x ys) ≡ suc (length ys)
length-insert_sorted x [] = refl
length-insert_sorted x (y ∷ ys) = ground (arith, length-insert_sorted x ys)

length-sort : (xs : List ℕ) → length (sort xs) ≡ length xs
length-sort [] = refl
length-sort (x ∷ xs) = length-insert_sorted x (sort xs) ∙ ap suc (length-sort xs)

get_elem?-some :
    (xs : List ℕ) (i : ℕ)
    → i < length xs
    → (w : ℕ) × (get_elem? xs i ≡ some w) × (contains xs w ≡ true)
get_elem?-some [] i h = absurd (omega arith)
get_elem?-some (x ∷ xs) zero h = (x, refl, ground arith)
get_elem?-some (x ∷ xs) (suc i) h =
    let (w, e, c) = get_elem?-some xs i (omega arith) in (w, e, ground (arith, c))

contains-keys : (w : ℕ) (m : Map Ticket) → contains (map (λ t. t.0) m) w ≡ contains_key w m
contains-keys w [] = refl
contains-keys w ((k, t) ∷ m) = ground (arith, contains-keys w m)

-- The index that the hash gives stands for an id.
pick_winner-some :
    (ids : List ℕ) (hash : ℕ)
    → 0 < length ids
    → (w : ℕ) × (pick_winner ids hash ≡ some w) × (contains ids w ≡ true)
unfolding pick_winner
pick_winner-some ids hash h =
    let below : hash % u64_mod % length ids < length (sort ids) =
      subst (λ (n : ℕ). hash % u64_mod % length ids < n) (sym (length-sort ids))
        (mod-lt (hash % u64_mod) h) in
    let (w, e, c) = get_elem?-some (sort ids) (hash % u64_mod % length ids) below in
    (w, e, sym (contains-sort w ids) ∙ c)

with_winner-some :
    (s : LotteryEpisode) (ts : Map Ticket) (hash : ℕ)
    → 0 < length ts
    → (w : ℕ) × (with_winner s ts hash ≡ record s { last_winner = some w; winner_paid = false })
      × (contains_key w ts ≡ true)
with_winner-some s [] hash h = absurd (omega arith)
with_winner-some s (t ∷ ts) hash h =
    let (w, e, c) = pick_winner-some (map (λ (u : ℕ × Ticket). u.0) (t ∷ ts)) hash (omega arith) in
    (
      w,
      (λ i. record s { last_winner = e i; winner_paid = false }),
      sym (contains-keys w (t ∷ ts)) ∙ c,
    )

claim_winner :
    (s : LotteryEpisode) (w : ℕ)
    → s.last_winner ≡ some w
    → s.winner_paid ≡ false
    → contains_key w s.tickets ≡ true
    → claim s w ≡ (record s { prize_pool = 0; winner_paid = true }, ok (undo_claim_prize w))
unfolding claim
claim_winner s w won unpaid held = ground arith

claim_loser :
    (s : LotteryEpisode) (w id : ℕ)
    → s.last_winner ≡ some w
    → id ≢ w
    → claim s id ≡ (s, err (invalid_command no_ticket))
unfolding claim
claim_loser s w id won other = ground arith

claim_paid :
    (s : LotteryEpisode) (w id : ℕ)
    → s.last_winner ≡ some w
    → s.winner_paid ≡ true
    → claim s id ≡ (s, err (invalid_command no_ticket))
unfolding claim
claim_paid s w id won paid = ground arith

-- A draw that is accepted and finds tickets names a winner, whose ticket was sold. The winner's
-- claim is accepted and empties the pool, no other claim is accepted before it, and none after it.
pub draw-claim :
    (s s' : LotteryEpisode) (md : PayloadMetadata) (r : LotteryRollback)
    → 0 < length s.tickets
    → draw s md ≡ (s', ok r)
    → (w : ℕ) × (s'.last_winner ≡ some w)
      × (contains_key w s.tickets ≡ true)
      × (claim s' w ≡ (record s' { prize_pool = 0; winner_paid = true }, ok (undo_claim_prize w)))
      × ((id : ℕ) → id ≢ w → claim s' id ≡ (s', err (invalid_command no_ticket)))
      × ((id : ℕ)
          → let paid = record s' { prize_pool = 0; winner_paid = true } in
            claim paid id ≡ (paid, err (invalid_command no_ticket)))
draw-claim s s' md r sold h =
    let (state, undo, due) = draw_ok s s' md r h in
    let (w, won, held) = with_winner-some s s.tickets md.accepting_hash sold in
    let named : s'.last_winner ≡ some w =
      ap (λ (u : LotteryEpisode). u.last_winner) state
      ∙ ap (λ (u : LotteryEpisode). u.last_winner) won in
    let unpaid : s'.winner_paid ≡ false =
      ap (λ (u : LotteryEpisode). u.winner_paid) state
      ∙ ap (λ (u : LotteryEpisode). u.winner_paid) won in
    let kept : s'.tickets ≡ s.tickets =
      ap (λ (u : LotteryEpisode). u.tickets) state ∙ ap (λ (u : LotteryEpisode). u.tickets) won in
    (
      w,
      named,
      held,
      claim_winner s' w named unpaid (ap (contains_key w) kept ∙ held),
      λ id other. claim_loser s' w id named other,
      λ id. claim_paid (record s' { prize_pool = 0; winner_paid = true }) w id named refl,
    )
