-- ===== src/TicTacToe/Board.antt =====
-- examples/tictactoe/src/game.rs: the winner of a board, the draw, and `poll`.
use kdapp.Base.{
  ℕ, Bool, ◌&&◌, Option, none, some, List, [], ◌∷◌, ◌==◌, if◌then◌else◌, get_elem?, all,
}
use kdapp.TicTacToe.{Cells, TttGameStatus, in_progress, winner, draw, TttState, TicTacToe, is_some}

pub record Line : Type 0 where
  pub r1 : ℕ
  pub c1 : ℕ
  pub r2 : ℕ
  pub c2 : ℕ
  pub r3 : ℕ
  pub c3 : ℕ

abbrev pub line : ℕ → ℕ → ℕ → ℕ → ℕ → ℕ → Line
line a b c d e f = record { r1 = a; c1 = b; r2 = c; c2 = d; r3 = e; c3 = f }

abbrev pub lines : List Line
lines =
    line 0 0 0 1 0 2
    ∷ line 1 0 1 1 1 2
    ∷ line 2 0 2 1 2 2
    ∷ line 0 0 1 0 2 0
    ∷ line 0 1 1 1 2 1
    ∷ line 0 2 1 2 2 2
    ∷ line 0 0 1 1 2 2
    ∷ line 0 2 1 1 2 0
    ∷ []

abbrev pub owner_of : Option ℕ → Option ℕ → Option ℕ → Option ℕ
owner_of (some a) (some b) (some c) = if a == b && b == c then some a else none
owner_of _ _ _ = none

unfoldable pub first_winner : Cells → List Line → Option ℕ
first_winner b [] = none
first_winner b (l ∷ ls) =
    let rest = first_winner b ls in
    elim (owner_of (b l.r1 l.c1) (b l.r2 l.c2) (b l.r3 l.c3)) [ none ↦ rest | some p ↦ some p ]

unfoldable pub check_winner : Cells → Option ℕ
unfolding first_winner
check_winner b = first_winner b lines

unfoldable pub is_draw : Cells → Bool
is_draw b = all (λ r. all (λ c. is_some (b r c)) (0 ∷ 1 ∷ 2 ∷ [])) (0 ∷ 1 ∷ 2 ∷ [])

abbrev in_turn : Option ℕ → Option TttGameStatus
in_turn none = none
in_turn (some p) = some (in_progress p)

-- `none` is the panic of an index that is out of range.
unfoldable pub status : TicTacToe → Option TttGameStatus
status s = elim (check_winner s.board) [
  | some p ↦ some (winner p)
  | none ↦ if is_draw s.board then some draw else in_turn (get_elem? s.players s.current_index)
]

unfoldable pub poll : TicTacToe → Option TttState
poll s = elim (get_elem? s.players 0) [
  | none ↦ none
  | some first ↦ elim (status s) [
    | none ↦ none
    | some st ↦ some (record { board = s.board; first_player = first; status = st })
  ]
]
