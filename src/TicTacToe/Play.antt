-- ===== src/TicTacToe/Play.antt =====
-- examples/tictactoe/src/game.rs keeps its promise to the engine: `execute` keeps a game of two
-- players valid, and `rollback` undoes it.
use kdapp.Base.{
  zero, suc, subst, ℕ, ◌+◌, ◌%◌, ◌<◌, ◌≡◌, ◌≢◌, refl, ap, ◌∙◌, Bool, true, Option, none, some, List,
  [], ◌∷◌, arith, length, get_elem?, ◌==◌, inl, inr, ==_iff, ==_self, Bool-cases,
}
use kdapp.Episode.{EpisodeError, ok, err, PayloadMetadata}
use kdapp.Engine.Lawful.{Lawful}
use kdapp.TicTacToe.{
  Cells, TicTacToe, TttMove, TttRollback, TttError, set_cell, in_bounds, make_room, place,
  initialize, execute, restore_removed, rollback, tic_tac_toe,
}
use kdapp.TicTacToe.Rules.{Owned, IsGame, pop_back-push_back, board_ext}
use kdapp.TicTacToe.Moves.{CanPlace, execute-CanPlace, execute-place, place-IsGame}

abbrev game : Cells → List ℕ → ℕ → ℕ → List (ℕ × ℕ) → TicTacToe
game b players current time h = record {
  board = b;
  players = players;
  current_index = current;
  timestamp = time;
  move_history = h;
}

abbrev on_board : List ℕ → ℕ → ℕ → List (ℕ × ℕ) → Cells → Option (TicTacToe × Bool)
on_board players current time h b = some (game b players current time h, true)

front_age : (current n : ℕ) → current < 2 → (n == 6) ≡ true → (current + n) % 2 ≡ current
front_age current n turn full = rw ((==_iff n 6).0 full) (omega arith)

in_bounds_lem : (r c : ℕ) → r < 3 → c < 3 → in_bounds r c ≡ true
in_bounds_lem r c hr hc = ground arith

-- Taking a symbol off again, and putting back the one that had made room for it.
restore_room :
    (b : Cells) (players : List ℕ) (current time r c : ℕ) (player : ℕ) (h : List (ℕ × ℕ))
    → Owned b players current h
    → current < 2
    → get_elem? players current ≡ some player
    → b r c ≡ none
    → let (b', h', removed) = make_room b h in
      restore_removed
        (game (set_cell (set_cell b' r c (some player)) r c none) players current time h')
        removed
      ≡ on_board players current time h b
restore_room b players current time r c player [] o turn own empty =
    ap (on_board players current time []) (board_ext _ b (λ i j. ground arith))
restore_room b players current time r c player ((i, j) ∷ h) o turn own empty =
    elim (Bool-cases (length ((i, j) ∷ h) == 6)) [
      | inl full ↦
          let mine : b i j ≡ some player =
            o.0 ∙ ap (get_elem? players) (front_age current _ turn full) ∙ own in
          rw (full, make_room)
            (rw (own, restore_removed)
              (rw (in_bounds_lem i j o.2 o.3) (
                ap (on_board players current time ((i, j) ∷ h))
                  (board_ext _ b (λ x y. ground (arith, mine))))))
      | inr space ↦
          rw (space, make_room)
            (ap (on_board players current time ((i, j) ∷ h)) (board_ext _ b (λ i j. ground arith)))
    ]

module _ (s : TicTacToe) (cmd : TttMove) (player : ℕ) (md : PayloadMetadata) where
  place-rollback :
      IsGame s
      → CanPlace s cmd player md
      → let (s', r) = place s cmd player md in rollback s' r ≡ some (s, true)
  unfolding rollback
  place-rollback g can = rw (in_bounds_lem cmd.row cmd.col can.row can.col) (
      rw (==_self cmd.row, ==_self cmd.col)
        (rw (g.two) (
          rw (pop_back-push_back (make_room s.board s.move_history).1 (cmd.row, cmd.col)) (
            rw (back_turn) (
              restore_room s.board s.players s.current_index s.timestamp cmd.row cmd.col player
                s.move_history g.owned g.turn can.turn can.empty)))))
    where
      back_turn : ((s.current_index + 1) % 2 + 1) % 2 ≡ s.current_index
      back_turn = omega (arith, g.turn)

pub initialize-IsGame :
    (ps : List ℕ) (md : PayloadMetadata) → length ps ≡ 2 → IsGame (initialize ps md)
unfolding initialize
initialize-IsGame ps md two = record {
  two = two;
  turn = omega arith;
  few = omega arith;
  owned = tt;
  only = λ r c n. absurd (n refl);
}

-- Every move that `execute` accepts leads to a valid game, in which at most six symbols stand,
-- the two players' turns alternate, and no cell has a symbol that the history does not name.
pub execute-IsGame :
    (s s' : TicTacToe) (cmd : TttMove) (auth : Option ℕ) (md : PayloadMetadata) (r : TttRollback)
    → IsGame s
    → execute s cmd auth md ≡ some (s', ok r)
    → IsGame s'
unfolding execute
execute-IsGame s s' cmd none md r g e = absurd (ground arith)
execute-IsGame s s' cmd (some player) md r g e =
    subst (λ (t : TicTacToe × TttRollback). IsGame t.0) (execute-place s cmd player md s' r e)
      (place-IsGame s cmd player md g (execute-CanPlace s cmd player md s' r e))

-- Rolling back a move that was just made restores the whole game: board, turn, history and time.
pub rollback-execute :
    (s s' : TicTacToe) (cmd : TttMove) (auth : Option ℕ) (md : PayloadMetadata) (r : TttRollback)
    → IsGame s
    → execute s cmd auth md ≡ some (s', ok r)
    → rollback s' r ≡ some (s, true)
unfolding execute
rollback-execute s s' cmd none md r g e = absurd (ground arith)
rollback-execute s s' cmd (some player) md r g e =
    subst (λ (t : TicTacToe × TttRollback). rollback t.0 t.1 ≡ some (s, true))
      (execute-place s cmd player md s' r e)
      (place-rollback s cmd player md g (execute-CanPlace s cmd player md s' r e))

pub get_elem?_two : (ps : List ℕ) (i : ℕ) → length ps ≡ 2 → i < 2 → get_elem? ps i ≢ none
get_elem?_two [] i two h = absurd (omega arith)
get_elem?_two (p ∷ []) i two h = absurd (omega arith)
get_elem?_two (p ∷ q ∷ ps) zero two h = λ e. cc
get_elem?_two (p ∷ q ∷ ps) (suc zero) two h = λ e. cc
get_elem?_two (p ∷ q ∷ ps) (suc (suc i)) two h = absurd (omega arith)

pub execute_total :
    (s : TicTacToe) (cmd : TttMove) (auth : Option ℕ) (md : PayloadMetadata)
    → IsGame s
    → execute s cmd auth md ≢ none
unfolding execute
execute_total s cmd none md g e = cc
execute_total s cmd (some player) md g e =
    ground (arith, get_elem?_two s.players s.current_index g.two g.turn)

pub execute_failed :
    (s s' : TicTacToe) (cmd : TttMove) (auth : Option ℕ) (md : PayloadMetadata)
    (x : EpisodeError TttError)
    → execute s cmd auth md ≡ some (s', err x)
    → s' ≡ s
unfolding execute
execute_failed s s' cmd none md x e = ground arith
execute_failed s s' cmd (some player) md x e = ground arith

-- The game keeps the engine's contract, for two players.
abbrev pub tic_tac_toe-Lawful : (to_vec : TttMove → List ℕ) → Lawful (tic_tac_toe to_vec)
tic_tac_toe-Lawful to_vec = record {
  Admits = λ ps. length ps ≡ 2;
  Inv = IsGame;
  initialize-Inv = initialize-IsGame;
  execute-Inv = execute-IsGame;
  execute-rollback = rollback-execute;
  execute_total = execute_total;
  execute_failed = λ s s' cmd auth md {e} g h. execute_failed s s' cmd auth md e h;
}
