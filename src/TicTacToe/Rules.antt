-- ===== src/TicTacToe/Rules.antt =====
-- The invariant of a game of two players, on examples/tictactoe/src/game.rs.
use mathlib.Core.Path.{fun_ext}
use kdapp.Base.{
  ℕ, ◌+◌, ◌%◌, ◌≤◌, ◌<◌, ◌≡◌, ◌≢◌, refl, ap, ◌∙◌, Bool, true, false, ◌||◌, Option, none, List, [],
  ◌∷◌, arith, length, length-append, get_elem?, push_back, any,
}
use kdapp.TicTacToe.{Cells, TicTacToe, at, set_cell, pop_back}

-- Whether the history names a cell.
abbrev pub placed : ℕ → ℕ → List (ℕ × ℕ) → Bool
placed r c h = any (λ m. at m.0 m.1 r c) h

-- The player whose turn was `age` turns ago, of two.
abbrev pub owner : List ℕ → ℕ → ℕ → Option ℕ
owner players current age = get_elem? players ((current + age) % 2)

-- Each cell of the history stands on the board, no other holds a symbol, and the two players
-- took turns, the last of them being the one who is not to move.
abbrev pub Owned : Cells → List ℕ → ℕ → List (ℕ × ℕ) → Type 0
Owned b players current [] = Unit
Owned b players current ((r, c) ∷ h) =
    (b r c ≡ owner players current (length ((r, c) ∷ h)))
    × (b r c ≢ none)
    × (r < 3)
    × (c < 3)
    × (placed r c h ≡ false)
    × Owned b players current h

pub record IsGame (s : TicTacToe) : Type 0 where
  pub two : length s.players ≡ 2
  pub turn : s.current_index < 2
  pub few : length s.move_history ≤ 6
  pub owned : Owned s.board s.players s.current_index s.move_history
  pub only : (r c : ℕ) → s.board r c ≢ none → placed r c s.move_history ≡ true

pub pop_back-push_back {ℓ} : {A : Type ℓ} (xs : List A) (x : A) → pop_back (push_back xs x) ≡ xs
pop_back-push_back [] x = refl
pop_back-push_back (y ∷ []) x = refl
pop_back-push_back (y ∷ z ∷ xs) x = rw (pop_back-push_back (z ∷ xs) x)

pub placed-push_back :
    (r c i j : ℕ) (h : List (ℕ × ℕ))
    → placed i j (push_back h (r, c)) ≡ (placed i j h || at r c i j)
placed-push_back r c i j [] = ground arith
placed-push_back r c i j ((a, b) ∷ h) = ground (arith, placed-push_back r c i j h)

-- An empty cell is not in the history.
pub placed_empty :
    (b : Cells) (players : List ℕ) (current r c : ℕ) (h : List (ℕ × ℕ))
    → Owned b players current h
    → b r c ≡ none
    → placed r c h ≡ false
placed_empty b players current r c [] o e = refl
placed_empty b players current r c ((i, j) ∷ h) o e =
    ground (arith, placed_empty b players current r c h o.5)

pub Owned-set_cell :
    (b : Cells) (players : List ℕ) (current r c : ℕ) (v : Option ℕ) (h : List (ℕ × ℕ))
    → Owned b players current h
    → placed r c h ≡ false
    → Owned (set_cell b r c v) players current h
Owned-set_cell b players current r c v [] o f = tt
Owned-set_cell b players current r c v ((i, j) ∷ h) o f =
    ground (arith, Owned-set_cell b players current r c v h o.5)

-- After a move the ages have grown by one, and the turn has passed on.
pub Owned-push_back :
    (b : Cells) (players : List ℕ) (current r c : ℕ) (h : List (ℕ × ℕ))
    → current < 2
    → Owned b players current h
    → b r c ≡ get_elem? players current
    → b r c ≢ none
    → r < 3
    → c < 3
    → placed r c h ≡ false
    → Owned b players ((current + 1) % 2) (push_back h (r, c))
Owned-push_back b players current r c [] t o e n hr hc f =
    (e ∙ ap (get_elem? players) (omega arith), n, hr, hc, refl, tt)
Owned-push_back b players current r c ((i, j) ∷ h) t o e n hr hc f = (
  o.0 ∙ ap (get_elem? players) (omega (arith, length-append h ((r, c) ∷ []))),
  o.1,
  o.2,
  o.3,
  placed-push_back r c i j h ∙ ground arith,
  Owned-push_back b players current r c h t o.5 e n hr hc (ground arith),
)

abbrev BoardEq : Cells → Cells → Type 0
BoardEq a b = (i j : ℕ) → a i j ≡ b i j

pub board_ext : (a b : Cells) → BoardEq a b → a ≡ b
board_ext a b h = fun_ext (λ i. fun_ext (λ j. h i j))
