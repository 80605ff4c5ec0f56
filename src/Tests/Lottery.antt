-- ===== src/Tests/Lottery.antt =====
-- A round of the lottery of examples/kas-draw/src/episode.rs.
use kdapp.Base.{ℕ, ◌≡◌, ◌≢◌, refl, true, false, none, some, List, [], ◌∷◌, contains_key, arith}
use kdapp.Episode.{ok, err, invalid_command, PayloadMetadata}
use kdapp.Lottery.{
  buy_ticket, undo_buy_ticket, undo_execute_draw, undo_claim_prize, no_ticket, LotteryEpisode,
  validate_numbers, pays, initialize, sell, pick_winner, buy, draw, claim, execute_open, execute,
  rollback,
}
use kdapp.Lottery.Play.{undone, rollback-execute_undone}
use kdapp.Lottery.Tickets.{draw-claim}

abbrev at_time : ℕ → PayloadMetadata
at_time t = record {
  accepting_hash = 7;
  accepting_daa = 0;
  accepting_time = t;
  tx_id = 2;
  tx_outputs = none;
  tx_status = none;
}

abbrev start : LotteryEpisode
unfolding initialize
start = initialize (11 ∷ []) (at_time 100)

abbrev numbers : List ℕ
numbers = 7 ∷ 3 ∷ 35 ∷ 1 ∷ 12 ∷ []

abbrev sold : LotteryEpisode
sold = sell start numbers 100000000 11

sale :
    execute start (buy_ticket numbers 100000000) (some 11) (at_time 101)
    ≡ (sold, ok (undo_buy_ticket 1))
unfolding initialize execute execute_open buy validate_numbers pays
sale = refl

rollback-execute_undone_example :
    rollback sold (undo_buy_ticket 1)
    ≡ (undone start (buy_ticket numbers 100000000) (at_time 101), true)
unfolding initialize
rollback-execute_undone_example =
    rollback-execute_undone start sold (buy_ticket numbers 100000000) (some 11) (at_time 101)
      (undo_buy_ticket 1) refl (omega arith) sale

abbrev drawn : LotteryEpisode
drawn = record sold { next_draw_time = 215; last_winner = some 1; winner_paid = false }

drawing : draw sold (at_time 200) ≡ (drawn, ok (undo_execute_draw 0 100000000))
unfolding initialize draw pick_winner
drawing = refl

draw-claim_example :
    (w : ℕ) × (drawn.last_winner ≡ some w)
    × (contains_key w sold.tickets ≡ true)
    × (claim drawn w
        ≡ (record drawn { prize_pool = 0; winner_paid = true }, ok (undo_claim_prize w)))
    × ((id : ℕ) → id ≢ w → claim drawn id ≡ (drawn, err (invalid_command no_ticket)))
    × ((id : ℕ)
        → let paid = record drawn { prize_pool = 0; winner_paid = true } in
          claim paid id ≡ (paid, err (invalid_command no_ticket)))
unfolding initialize
draw-claim_example =
    draw-claim sold drawn (at_time 200) (undo_execute_draw 0 100000000) (omega arith) drawing
