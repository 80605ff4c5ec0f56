-- ===== src/Lottery/Play.antt =====
-- What a rollback restores of a lottery of examples/kas-draw/src/episode.rs, and what it does not.
use kdapp.Base.{
  ℕ, ◌+◌, ◌-◌, ◌%◌, ◌<◌, ◌≤◌, ◌≡◌, refl, sym, true, false, Option, none, some, List, [], ◌∷◌,
  contains, Map, lookup, insert, contains_key, remove-insert, contains_key-eq_some,
  lookup-insert_self, u64_mod, arith, Bool-cases, inl, inr,
}
use kdapp.Episode.{ok, PayloadMetadata}
use kdapp.Lottery.{
  LotteryCommand, buy_ticket, execute_draw, claim_prize, close_episode, LotteryRollback,
  undo_buy_ticket, undo_execute_draw, undo_claim_prize, undo_close, LotteryEpisode, Ticket, sell,
  with_winner, validate_numbers, buy, draw, claim, execute_open, execute, rollback, saturating_add,
}

-- How a sale goes through.
pub record IsSale (s : LotteryEpisode) (numbers : List ℕ) (amount : ℕ) (auth : Option ℕ)
    (s' : LotteryEpisode) (r : LotteryRollback) : Type 0 where
  pub player : ℕ
  pub signed : auth ≡ some player
  pub known : contains s.authorized player ≡ true
  pub valid : validate_numbers s numbers ≡ true
  pub price : amount ≡ s.ticket_price
  pub state : s' ≡ sell s numbers amount player
  pub undo : r ≡ undo_buy_ticket s.next_ticket_id

pub buy-IsSale :
    (s s' : LotteryEpisode) (numbers : List ℕ) (amount : ℕ) (auth : Option ℕ) (md : PayloadMetadata)
    (r : LotteryRollback)
    → buy s numbers amount auth md ≡ (s', ok r)
    → IsSale s numbers amount auth s' r
unfolding buy
buy-IsSale s s' numbers amount none md r h = absurd (ground arith)
buy-IsSale s s' numbers amount (some player) md r h = record {
  player = player;
  signed = refl;
  known = ground arith;
  valid = ground arith;
  price = ground arith;
  state = ground arith;
  undo = ground arith;
}

-- The lottery after a command was executed and rolled back.
abbrev pub undone : LotteryEpisode → LotteryCommand → PayloadMetadata → LotteryEpisode
undone s (buy_ticket numbers amount) md = record s {
  next_ticket_id = (s.next_ticket_id + 1) % u64_mod;
}
undone s (execute_draw entropy) md = record s {
  next_draw_time = (md.accepting_time + s.draw_interval_secs) % u64_mod;
  last_winner = none;
  winner_paid = false;
}
undone s (claim_prize ticket_id round) md = record s { prize_pool = s.ticket_price }
undone s close_episode md = s

rollback-buy :
    (s : LotteryEpisode) (numbers : List ℕ) (player : ℕ)
    → lookup s.next_ticket_id s.tickets ≡ none
    → s.prize_pool + s.ticket_price < u64_mod
    → rollback (sell s numbers s.ticket_price player) (undo_buy_ticket s.next_ticket_id)
      ≡ (record s { next_ticket_id = (s.next_ticket_id + 1) % u64_mod }, true)
unfolding rollback
rollback-buy s numbers player fresh room =
    let t : Ticket = record {
      ticket_id = s.next_ticket_id;
      player = player;
      numbers = numbers;
      round = s.current_round;
    } in
    let held : contains_key s.next_ticket_id (insert s.next_ticket_id t s.tickets) ≡ true =
      contains_key-eq_some s.next_ticket_id t (insert s.next_ticket_id t s.tickets)
        (lookup-insert_self s.next_ticket_id t s.tickets) in
    let pool : saturating_add s.prize_pool s.ticket_price - s.ticket_price ≡ s.prize_pool =
      omega (arith, room) in
    rw (held, pool, remove-insert s.next_ticket_id t s.tickets fresh) refl

draw_undone :
    (s : LotteryEpisode) (ts : Map Ticket) (hash time : ℕ)
    → rollback
        (record (with_winner s ts hash) { next_draw_time = time })
        (undo_execute_draw s.current_round s.prize_pool)
      ≡ (record s { next_draw_time = time; last_winner = none; winner_paid = false }, true)
unfolding rollback
draw_undone s [] hash time = refl
draw_undone s (t ∷ ts) hash time = refl

-- How a draw and a claim go through.
pub draw_ok :
    (s s' : LotteryEpisode) (md : PayloadMetadata) (r : LotteryRollback)
    → draw s md ≡ (s', ok r)
    → (s' ≡ record (with_winner s s.tickets md.accepting_hash) {
      next_draw_time = (md.accepting_time + s.draw_interval_secs) % u64_mod;
    })
      × (r ≡ undo_execute_draw s.current_round s.prize_pool)
      × (s.next_draw_time ≤ md.accepting_time)
unfolding draw
draw_ok s s' md r h = ground arith

pub claim_ok :
    (s s' : LotteryEpisode) (id : ℕ) (r : LotteryRollback)
    → claim s id ≡ (s', ok r)
    → (s' ≡ record s { prize_pool = 0; winner_paid = true })
      × (r ≡ undo_claim_prize id)
      × (s.winner_paid ≡ false)
      × (s.last_winner ≡ some id)
      × (contains_key id s.tickets ≡ true)
unfolding claim
claim_ok s s' id r h = ground arith

undo_open :
    (s s' : LotteryEpisode) (cmd : LotteryCommand) (auth : Option ℕ) (md : PayloadMetadata)
    (r : LotteryRollback)
    → lookup s.next_ticket_id s.tickets ≡ none
    → s.prize_pool + s.ticket_price < u64_mod
    → s.paused ≡ false
    → execute_open s cmd auth md ≡ (s', ok r)
    → rollback s' r ≡ (undone s cmd md, true)
unfolding execute_open rollback
undo_open s s' (buy_ticket numbers amount) auth md r fresh room running h =
    let sale = buy-IsSale s s' numbers amount auth md r h in
    rw (sale.state, sale.undo, sale.price) (rollback-buy s numbers sale.player fresh room)
undo_open s s' (execute_draw entropy) auth md r fresh room running h =
    let (state, undo, due) = draw_ok s s' md r h in
    rw (state, undo)
      (draw_undone s s.tickets md.accepting_hash
        ((md.accepting_time + s.draw_interval_secs) % u64_mod))
undo_open s s' (claim_prize id round) auth md r fresh room running h =
    let (state, undo, due, winner, held) = claim_ok s s' id r h in
    rw (state, undo)
      (λ i. (record s { prize_pool = s.ticket_price; winner_paid = sym due i }, true))
undo_open s s' close_episode auth md r fresh room running h =
    let state : s' ≡ record s { paused = true } = ground arith in
    let undo : r ≡ undo_close = ground arith in
    rw (state, undo) (λ i. (record s { paused = sym running i }, true))

-- Rolling back a command that was accepted succeeds. A close is undone. A sale leaves its ticket's
-- number spent. A draw leaves the time of the next draw, no winner, and no prize that counts as
-- paid. A claim leaves a pool of one ticket's price. Everything else is as it was, where the next number is free and the pool has
-- room for one price.
pub rollback-execute_undone :
    (s s' : LotteryEpisode) (cmd : LotteryCommand) (auth : Option ℕ) (md : PayloadMetadata)
    (r : LotteryRollback)
    → lookup s.next_ticket_id s.tickets ≡ none
    → s.prize_pool + s.ticket_price < u64_mod
    → execute s cmd auth md ≡ (s', ok r)
    → rollback s' r ≡ (undone s cmd md, true)
unfolding execute
rollback-execute_undone s s' cmd auth md r fresh room h = elim (Bool-cases s.paused) [
  | inl paused ↦ absurd (ground arith)
  | inr running ↦ undo_open s s' cmd auth md r fresh room running (ground arith)
]
