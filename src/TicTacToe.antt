-- ===== src/TicTacToe.antt =====
-- examples/tictactoe/src/game.rs: the game as an episode. A fixed array [[T; 3]; 3] is a function
-- of the row and the column; where the source would index it out of range, the call panics.
pub mod Board
pub mod Rules
pub mod Moves
pub mod Play
pub mod Draw
use kdapp.Base.{
  ℕ, ◌+◌, ◌%◌, Bool, true, false, ◌&&◌, ◌||◌, not, Option, none, some, List, [], ◌∷◌, length,
  get_elem?, push_back, ltb, ◌==◌, if◌then◌else◌, any, all,
}
use kdapp.Episode.{
  Episode, EpisodeError, unauthorized, invalid_command, Result, ok, err, PayloadMetadata,
}

abbrev pub Cells : Type 0
Cells = ℕ → ℕ → Option ℕ

pub data TttError : Type 0 where
  out_of_bounds occupied not_players_turn game_over no_new_players not_authorized : TttError

pub record TttMove : Type 0 where
  pub row : ℕ
  pub col : ℕ

pub record TttRollback : Type 0 where
  pub mv : TttMove
  pub removed_mv : Option TttMove
  pub prev_timestamp : ℕ

pub data TttGameStatus : Type 0 where
  in_progress winner : ℕ → TttGameStatus
  draw : TttGameStatus

pub record TttState : Type 0 where
  pub board : Cells
  pub first_player : ℕ
  pub status : TttGameStatus

-- The front of the deque is the head of the history.
pub record TicTacToe : Type 0 where
  pub board : Cells
  pub players : List ℕ
  pub current_index : ℕ
  pub timestamp : ℕ
  pub move_history : List (ℕ × ℕ)

abbrev pub is_some {ℓ} : {A : Type ℓ} → Option A → Bool
is_some none = false
is_some (some _) = true

abbrev pub at : ℕ → ℕ → ℕ → ℕ → Bool
at r c i j = r == i && c == j

abbrev pub set_cell : Cells → ℕ → ℕ → Option ℕ → Cells
set_cell b r c v i j = if at r c i j then v else b i j

abbrev pub pop_back {ℓ} : {A : Type ℓ} → List A → List A
pop_back [] = []
pop_back (x ∷ []) = []
pop_back (x ∷ y ∷ xs) = x ∷ pop_back (y ∷ xs)

unfoldable pub initialize : List ℕ → PayloadMetadata → TicTacToe
initialize participants md = record {
  board = λ _ _. none;
  players = participants;
  current_index = 0;
  timestamp = md.accepting_time;
  move_history = [];
}

abbrev pub in_bounds : ℕ → ℕ → Bool
in_bounds r c = ltb r 3 && ltb c 3

-- The board, the history and `removed_mv` after the oldest symbol has made room for a seventh.
abbrev pub make_room : Cells → List (ℕ × ℕ) → Cells × List (ℕ × ℕ) × Option TttMove
make_room b [] = (b, [], none)
make_room b ((r, c) ∷ h) =
    if length ((r, c) ∷ h) == 6
    then (set_cell b r c none, h, some (record { row = r; col = c }))
    else (b, (r, c) ∷ h, none)

abbrev pub place : TicTacToe → TttMove → ℕ → PayloadMetadata → TicTacToe × TttRollback
place s cmd player md =
    let (b, h, removed) = make_room s.board s.move_history in
    (
      record {
        board = set_cell b cmd.row cmd.col (some player);
        players = s.players;
        current_index = (s.current_index + 1) % length s.players;
        timestamp = md.accepting_time;
        move_history = push_back h (cmd.row, cmd.col);
      },
      record { mv = cmd; removed_mv = removed; prev_timestamp = s.timestamp },
    )

abbrev pub Executed : Type 0
Executed = Option (TicTacToe × Result (EpisodeError TttError) TttRollback)

abbrev refuse : TicTacToe → EpisodeError TttError → Executed
refuse s e = some (s, err e)

-- The arms after `self.players[self.current_index]`, which is out of range where it is `none`.
abbrev pub execute_turn : TicTacToe → TttMove → ℕ → PayloadMetadata → Option ℕ → Executed
execute_turn s cmd player md none = none
execute_turn s cmd player md (some expected) =
    if not (player == expected)
    then refuse s (invalid_command not_players_turn)
    else if not (in_bounds cmd.row cmd.col)
    then refuse s (invalid_command out_of_bounds)
    else if is_some (s.board cmd.row cmd.col)
    then refuse s (invalid_command occupied)
    else let (s', r) = place s cmd player md in some (s', ok r)

unfoldable pub execute : TicTacToe → TttMove → Option ℕ → PayloadMetadata → Executed
execute s cmd none md = refuse s unauthorized
execute s cmd (some player) md = execute_turn s cmd player md (get_elem? s.players s.current_index)

-- `if let Some(removed_mv) = rollback.removed_mv`: both indices are tested by the array accesses.
abbrev pub restore_removed : TicTacToe → Option TttMove → Option (TicTacToe × Bool)
restore_removed s none = some (s, true)
restore_removed s (some m) = elim (get_elem? s.players s.current_index) [
  | none ↦ none
  | some player ↦
      if in_bounds m.row m.col
      then some (
        record s {
          board = set_cell s.board m.row m.col (some player);
          move_history = (m.row, m.col) ∷ s.move_history;
        },
        true,
      )
      else none
]

unfoldable pub rollback : TicTacToe → TttRollback → Option (TicTacToe × Bool)
rollback s r =
    if not (in_bounds r.mv.row r.mv.col)
    then none
    else if not (is_some (s.board r.mv.row r.mv.col))
    then some (s, false)
    else if length s.players == 0
    then none
    else restore_removed
        (record {
          board = set_cell s.board r.mv.row r.mv.col none;
          players = s.players;
          current_index = (s.current_index + 1) % length s.players;
          timestamp = r.prev_timestamp;
          move_history = pop_back s.move_history;
        })
        r.removed_mv

-- `to_vec` is the borsh form of a move: two 64-bit words.
abbrev pub tic_tac_toe : (TttMove → List ℕ) → Episode
tic_tac_toe to_vec = record {
  State = TicTacToe;
  Command = TttMove;
  CommandRollback = TttRollback;
  CommandError = TttError;
  to_vec = to_vec;
  initialize = initialize;
  execute = execute;
  rollback = rollback;
}
