-- ===== src/Tests/TicTacToe.antt =====
-- Runs of examples/tictactoe/src/game.rs, after its own test: six moves, and a seventh.
use kdapp.Base.{ℕ, Bool, get_elem?, ◌≡◌, refl, true, none, some, List, [], ◌∷◌, ◌⊎◌}
use kdapp.Episode.{ok, PayloadMetadata}
use kdapp.TicTacToe.{TicTacToe, TttMove, initialize, execute, rollback, place, in_progress, winner}
use kdapp.TicTacToe.Rules.{IsGame}
use kdapp.TicTacToe.Play.{initialize-IsGame, execute-IsGame, rollback-execute}
use kdapp.TicTacToe.Board.{status, check_winner, first_winner, lines}
use kdapp.TicTacToe.Draw.{status_cases, Wins}
use mathlib.Core.Option.{map as option_map}

abbrev md : PayloadMetadata
md = record {
  accepting_hash = 1;
  accepting_daa = 0;
  accepting_time = 7;
  tx_id = 2;
  tx_outputs = none;
  tx_status = none;
}

abbrev move : ℕ → ℕ → TttMove
move r c = record { row = r; col = c }

-- The state after a list of moves, of players 11 and 12 in turn.
abbrev play : TicTacToe → List (ℕ × TttMove) → TicTacToe
play s [] = s
play s ((p, m) ∷ ms) = play (place s m p md).0 ms

abbrev opening : TicTacToe
unfolding initialize
opening = initialize (11 ∷ 12 ∷ []) md

abbrev six : List (ℕ × TttMove)
six =
    (11, move 0 0)
    ∷ (12, move 1 0)
    ∷ (11, move 1 1)
    ∷ (12, move 2 0)
    ∷ (11, move 0 2)
    ∷ (12, move 0 1)
    ∷ []

abbrev full : TicTacToe
full = play opening six

opening-IsGame : IsGame opening
unfolding initialize
opening-IsGame = initialize-IsGame (11 ∷ 12 ∷ []) md refl

-- Each move of the list is accepted.
abbrev Accepted : TicTacToe → List (ℕ × TttMove) → Type 0
Accepted s [] = Unit
Accepted s ((p, m) ∷ ms) =
    let (s', r) = place s m p md in (execute s m (some p) md ≡ some (s', ok r)) × Accepted s' ms

play-IsGame :
    (s : TicTacToe) (ms : List (ℕ × TttMove)) → IsGame s → Accepted s ms → IsGame (play s ms)
play-IsGame s [] g a = g
play-IsGame s ((p, m) ∷ ms) g a =
    play-IsGame (place s m p md).0 ms
      (execute-IsGame s (place s m p md).0 m (some p) md (place s m p md).1 g a.0) a.1

full-IsGame : IsGame full
unfolding initialize execute
full-IsGame =
    play-IsGame opening six opening-IsGame (refl, (refl, (refl, (refl, (refl, (refl, tt))))))

execute-IsGame_example : IsGame (place full (move 2 2) 11 md).0
unfolding execute initialize
execute-IsGame_example =
    execute-IsGame full (place full (move 2 2) 11 md).0 (move 2 2) (some 11) md
      (place full (move 2 2) 11 md).1 full-IsGame refl

-- The seventh move takes the first symbol off, and rolling it back puts it on again.
rollback-execute_example :
    rollback (place full (move 2 2) 11 md).0 (place full (move 2 2) 11 md).1 ≡ some (full, true)
unfolding execute initialize
rollback-execute_example =
    rollback-execute full (place full (move 2 2) 11 md).0 (move 2 2) (some 11) md
      (place full (move 2 2) 11 md).1 full-IsGame refl

seventh : (place full (move 2 2) 11 md).0.board 0 0 ≡ none
unfolding initialize
seventh = refl

status_cases_example :
    ((p : ℕ) × (status full ≡ some (winner p)) × Wins p full.board lines)
    ⊎ ((p : ℕ) × (status full ≡ some (in_progress p))
        × (get_elem? full.players full.current_index ≡ some p)
        × ((q : ℕ) → ¬ Wins q full.board lines))
status_cases_example = status_cases full full-IsGame

-- Nothing in `execute` asks whether the game is won: the loser may move on.
abbrev won : TicTacToe
won =
    play opening
      ((11, move 0 0) ∷ (12, move 1 0) ∷ (11, move 0 1) ∷ (12, move 1 1) ∷ (11, move 0 2) ∷ [])

won_goes_on :
    (status won ≡ some (winner 11))
    × (execute won (move 1 2) (some 12) md
        ≡ some ((place won (move 1 2) 12 md).0, ok (place won (move 1 2) 12 md).1))
unfolding status check_winner first_winner execute initialize
won_goes_on = (refl, refl)

-- Of three players the wrong one is to move after a rollback.
abbrev crowd : TicTacToe
unfolding initialize
crowd = initialize (11 ∷ 12 ∷ 13 ∷ []) md

crowd_rollback :
    option_map
      (λ (t : TicTacToe × Bool). t.0.current_index)
      (rollback (place crowd (move 0 0) 11 md).0 (place crowd (move 0 0) 11 md).1)
    ≡ some 2
unfolding initialize rollback
crowd_rollback = refl
