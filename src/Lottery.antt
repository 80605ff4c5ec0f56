-- ===== src/Lottery.antt =====
-- examples/kas-draw/src/episode.rs: a lottery as an episode. The five numbers of a ticket are a
-- list, and sums of 64-bit words wrap around.
pub mod Tickets
pub mod Play
use kdapp.Base.{
  ℕ, zero, suc, ◌+◌, ◌-◌, ◌%◌, min, Bool, true, false, not, ◌&&◌, Option, none, some, List, [], ◌∷◌,
  map, length, get_elem?, all, any, contains, Map, lookup, insert, remove, contains_key, ◌==◌, ltb,
  leb, if◌then◌else◌, u64_mod,
}
use kdapp.Episode.{
  EpisodeError, unauthorized, invalid_command, Result, ok, err, TxOutputInfo, PayloadMetadata,
  Episode,
}

pub data LotteryCommand : Type 0 where
  buy_ticket : (numbers : List ℕ) (entry_amount : ℕ) → LotteryCommand
  execute_draw : (entropy_source : List ℕ) → LotteryCommand
  claim_prize : (ticket_id round : ℕ) → LotteryCommand
  close_episode : LotteryCommand

pub data LotteryRollback : Type 0 where
  undo_buy_ticket : (ticket_id : ℕ) → LotteryRollback
  undo_execute_draw : (round_before prize_pool_before : ℕ) → LotteryRollback
  undo_claim_prize : (ticket_id : ℕ) → LotteryRollback
  undo_close : LotteryRollback

pub data LotteryError : Type 0 where
  invalid_numbers incorrect_price no_ticket draw_not_ready lottery_unauthorized : LotteryError

pub record Ticket : Type 0 where
  pub ticket_id : ℕ
  pub player : ℕ
  pub numbers : List ℕ
  pub round : ℕ

pub record LotteryEpisode : Type 0 where
  pub ticket_price : ℕ
  pub numbers_range : ℕ × ℕ
  pub numbers_per_ticket : ℕ
  pub draw_interval_secs : ℕ
  pub current_round : ℕ
  pub round_start_time : ℕ
  pub next_draw_time : ℕ
  pub prize_pool : ℕ
  pub authorized : List ℕ
  pub tickets : Map Ticket
  pub next_ticket_id : ℕ
  pub last_winner : Option ℕ
  pub winner_paid : Bool
  pub paused : Bool

-- `sort_unstable`
abbrev pub insert_sorted : ℕ → List ℕ → List ℕ
insert_sorted x [] = x ∷ []
insert_sorted x (y ∷ ys) = let rest = insert_sorted x ys in if leb x y then x ∷ y ∷ ys else y ∷ rest

abbrev pub sort : List ℕ → List ℕ
sort [] = []
sort (x ∷ xs) = insert_sorted x (sort xs)

-- `windows(2).all(|w| w[0] < w[1])`
abbrev pub ascending : List ℕ → Bool
ascending [] = true
ascending (x ∷ []) = true
ascending (x ∷ y ∷ ys) = ltb x y && ascending (y ∷ ys)

unfoldable pub validate_numbers : LotteryEpisode → List ℕ → Bool
validate_numbers s numbers =
    if not (s.numbers_per_ticket == 5)
    then false
    else (let v = sort numbers in
        ascending v && all (λ n. leb s.numbers_range.0 n && leb n s.numbers_range.1) v)

unfoldable pub initialize : List ℕ → PayloadMetadata → LotteryEpisode
initialize participants metadata = record {
  ticket_price = 100000000;
  numbers_range = (1, 35);
  numbers_per_ticket = 5;
  draw_interval_secs = 15;
  current_round = 0;
  round_start_time = metadata.accepting_time;
  next_draw_time = (metadata.accepting_time + 15) % u64_mod;
  prize_pool = 0;
  authorized = participants;
  tickets = [];
  next_ticket_id = 1;
  last_winner = none;
  winner_paid = false;
  paused = false;
}

abbrev pub Outcome : Type 0
Outcome = LotteryEpisode × Result (EpisodeError LotteryError) LotteryRollback

abbrev pub saturating_add : ℕ → ℕ → ℕ
saturating_add a b = min (a + b) (u64_mod - 1)

-- Some output pays the price, where the transaction's outputs are known.
unfoldable pub pays : LotteryEpisode → Option (List TxOutputInfo) → Bool
pays s none = true
pays s (some outs) = any (λ o. leb s.ticket_price o.value) outs

abbrev pub sell : LotteryEpisode → List ℕ → ℕ → ℕ → LotteryEpisode
sell s numbers entry_amount player = record s {
  next_ticket_id = (s.next_ticket_id + 1) % u64_mod;
  tickets =
      insert s.next_ticket_id
        (record {
          ticket_id = s.next_ticket_id;
          player = player;
          numbers = numbers;
          round = s.current_round;
        })
        s.tickets;
  prize_pool = saturating_add s.prize_pool entry_amount;
}

unfoldable pub buy : LotteryEpisode → List ℕ → ℕ → Option ℕ → PayloadMetadata → Outcome
buy s numbers entry_amount none metadata = (s, err unauthorized)
buy s numbers entry_amount (some player) metadata =
    if not (contains s.authorized player)
    then (s, err unauthorized)
    else if not (validate_numbers s numbers)
    then (s, err (invalid_command invalid_numbers))
    else if not (entry_amount == s.ticket_price)
    then (s, err (invalid_command incorrect_price))
    else if not (pays s metadata.tx_outputs)
    then (s, err (invalid_command incorrect_price))
    else (sell s numbers entry_amount player, ok (undo_buy_ticket s.next_ticket_id))

-- The lowest eight bytes of the hash pick one of the ids in order.
unfoldable pub pick_winner : List ℕ → ℕ → Option ℕ
pick_winner ids hash = get_elem? (sort ids) (hash % u64_mod % length ids)

abbrev pub with_winner : LotteryEpisode → Map Ticket → ℕ → LotteryEpisode
with_winner s [] hash = s
with_winner s (t ∷ ts) hash = record s {
  last_winner = pick_winner (map (λ t. t.0) (t ∷ ts)) hash;
  winner_paid = false;
}

unfoldable pub draw : LotteryEpisode → PayloadMetadata → Outcome
draw s metadata =
    if ltb metadata.accepting_time s.next_draw_time
    then (s, err (invalid_command draw_not_ready))
    else (
      record (with_winner s s.tickets metadata.accepting_hash) {
        next_draw_time = (metadata.accepting_time + s.draw_interval_secs) % u64_mod;
      },
      ok (undo_execute_draw s.current_round s.prize_pool),
    )

unfoldable pub claim : LotteryEpisode → ℕ → Outcome
claim s ticket_id = elim s.last_winner [
  | none ↦ (s, err (invalid_command no_ticket))
  | some wid ↦
      if contains_key ticket_id s.tickets && wid == ticket_id && not s.winner_paid
      then (record s { prize_pool = 0; winner_paid = true }, ok (undo_claim_prize ticket_id))
      else (s, err (invalid_command no_ticket))
]

unfoldable pub execute_open : LotteryEpisode → LotteryCommand → Option ℕ → PayloadMetadata → Outcome
execute_open s (buy_ticket numbers entry_amount) authorization metadata =
    buy s numbers entry_amount authorization metadata
execute_open s (execute_draw entropy_source) authorization metadata = draw s metadata
execute_open s (claim_prize ticket_id round) authorization metadata = claim s ticket_id
execute_open s close_episode authorization metadata = (record s { paused = true }, ok undo_close)

unfoldable pub execute : LotteryEpisode → LotteryCommand → Option ℕ → PayloadMetadata → Outcome
execute s cmd authorization metadata =
    if s.paused
    then (s, err (invalid_command lottery_unauthorized))
    else execute_open s cmd authorization metadata

unfoldable pub rollback : LotteryEpisode → LotteryRollback → LotteryEpisode × Bool
rollback s (undo_buy_ticket ticket_id) =
    if contains_key ticket_id s.tickets
    then (
      record s { tickets = remove ticket_id s.tickets; prize_pool = s.prize_pool - s.ticket_price },
      true,
    )
    else (s, false)
rollback s (undo_execute_draw round_before prize_pool_before) = (
  record s {
    current_round = round_before;
    prize_pool = prize_pool_before;
    last_winner = none;
    winner_paid = false;
  },
  true,
)
rollback s (undo_claim_prize ticket_id) =
    (record s { prize_pool = s.ticket_price; winner_paid = false }, true)
rollback s undo_close = (record s { paused = false }, true)

-- The lottery as an episode, for the borsh form of its commands.
abbrev pub lottery : (LotteryCommand → List ℕ) → Episode
lottery to_vec = record {
  State = LotteryEpisode;
  Command = LotteryCommand;
  CommandRollback = LotteryRollback;
  CommandError = LotteryError;
  to_vec = to_vec;
  initialize = initialize;
  execute = λ s cmd authorization metadata. some (execute s cmd authorization metadata);
  rollback = λ s r. some (rollback s r);
}
