-- ===== src/TicTacToe/Moves.antt =====
-- A move of examples/tictactoe/src/game.rs and its undoing.
use kdapp.Base.{
  ℕ, ◌≤◌, ◌<◌, ◌≡◌, ◌≢◌, ◌∙◌, true, false, none, some, List, [], ◌∷◌, arith, length, length-append,
  get_elem?, ◌==◌, inl, inr, Bool-cases,
}
use kdapp.Episode.{ok, PayloadMetadata}
use kdapp.TicTacToe.{Cells, TicTacToe, TttMove, TttRollback, make_room, place, execute}
use kdapp.TicTacToe.Rules.{
  placed, Owned, IsGame, placed-push_back, placed_empty, Owned-set_cell, Owned-push_back,
}

module _ (b : Cells) where
  pub room-Owned :
      (players : List ℕ) (current : ℕ) (h : List (ℕ × ℕ))
      → Owned b players current h
      → let (b', h', _) = make_room b h in Owned b' players current h'
  room-Owned players current [] o = tt
  room-Owned players current ((r, c) ∷ h) o = elim (Bool-cases (length ((r, c) ∷ h) == 6)) [
    | inl full ↦ rw (full, make_room) (Owned-set_cell b players current r c none h o.5 o.4)
    | inr space ↦ rw (space, make_room) o
  ]

  pub room_few : (h : List (ℕ × ℕ)) → length h ≤ 6 → length (make_room b h).1 ≤ 5
  room_few [] few = omega arith
  room_few ((r, c) ∷ h) few = ground arith

  pub room_empty : (i j : ℕ) (h : List (ℕ × ℕ)) → b i j ≡ none → (make_room b h).0 i j ≡ none
  room_empty i j [] e = e
  room_empty i j ((r, c) ∷ h) e = ground arith

  pub room_only :
      (h : List (ℕ × ℕ))
      → ((i j : ℕ) → b i j ≢ none → placed i j h ≡ true)
      → let (b', h', _) = make_room b h in (i j : ℕ) → b' i j ≢ none → placed i j h' ≡ true
  room_only [] only i j n = only i j n
  room_only ((r, c) ∷ h) only i j n = ground (arith, only i j)

module _ (s : TicTacToe) (cmd : TttMove) (player : ℕ) (md : PayloadMetadata) where
  -- What the guards of `execute` have tested when a symbol is placed.
  pub record CanPlace : Type 0 where
    pub turn : get_elem? s.players s.current_index ≡ some player
    pub row : cmd.row < 3
    pub col : cmd.col < 3
    pub empty : s.board cmd.row cmd.col ≡ none

  pub execute-CanPlace :
      (s' : TicTacToe) (r : TttRollback)
      → execute s cmd (some player) md ≡ some (s', ok r)
      → CanPlace
  unfolding execute
  execute-CanPlace s' r e = ground arith

  pub execute-place :
      (s' : TicTacToe) (r : TttRollback)
      → execute s cmd (some player) md ≡ some (s', ok r)
      → place s cmd player md ≡ (s', r)
  unfolding execute
  execute-place s' r e = ground arith

  pub place-IsGame : IsGame s → CanPlace → IsGame (place s cmd player md).0
  place-IsGame g can = record {
    two = g.two;
    turn = rw g.two (omega arith);
    few = omega (
      arith,
      room_few s.board s.move_history g.few,
      length-append (make_room s.board s.move_history).1 ((cmd.row, cmd.col) ∷ []),
    );
    owned = rw g.two (
        Owned-push_back _ s.players s.current_index cmd.row cmd.col
          (make_room s.board s.move_history).1 g.turn
          (Owned-set_cell (make_room s.board s.move_history).0 s.players s.current_index cmd.row
            cmd.col (some player) (make_room s.board s.move_history).1 roomy apart)
          (ground (arith, can.turn)) (ground arith) can.row can.col apart);
    only = λ i j n.
        placed-push_back cmd.row cmd.col i j (make_room s.board s.move_history).1
        ∙ ground (arith, room_only s.board s.move_history g.only i j);
  }
    where
      roomy :
          Owned
            (make_room s.board s.move_history).0
            s.players
            s.current_index
            (make_room s.board s.move_history).1
      roomy = room-Owned s.board s.players s.current_index s.move_history g.owned

      apart : placed cmd.row cmd.col (make_room s.board s.move_history).1 ≡ false
      apart =
          placed_empty _ s.players s.current_index cmd.row cmd.col
            (make_room s.board s.move_history).1 roomy
            (room_empty s.board cmd.row cmd.col s.move_history can.empty)
