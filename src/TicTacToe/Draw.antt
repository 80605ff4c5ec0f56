-- ===== src/TicTacToe/Draw.antt =====
-- At most six of the nine cells hold a symbol: `is_draw` of examples/tictactoe/src/game.rs is never
-- true of a valid game.
use kdapp.Base.{
  subst, ℕ, zero, suc, ◌+◌, ◌≤◌, ◌<◌, ◌≡◌, ◌≢◌, refl, Bool, true, false, ◌||◌, Option, none, some,
  List, [], ◌∷◌, ◌==◌, arith, length, get_elem?, ◌⊎◌, Option-cases, inl, inr, Bool-cases,
}
use kdapp.TicTacToe.{Cells, TicTacToe, at, winner, in_progress}
use kdapp.TicTacToe.Board.{Line, lines, owner_of, first_winner, is_draw, status, check_winner}
use kdapp.TicTacToe.Rules.{placed, IsGame}
use kdapp.TicTacToe.Play.{get_elem?_two}

abbrev to_ℕ : Bool → ℕ
to_ℕ true = 1
to_ℕ false = 0

-- How many of the nine cells pass a test.
abbrev count : (ℕ → ℕ → Bool) → ℕ
count p =
    to_ℕ (p 0 0)
    + to_ℕ (p 0 1)
    + to_ℕ (p 0 2)
    + (to_ℕ (p 1 0) + to_ℕ (p 1 1) + to_ℕ (p 1 2))
    + (to_ℕ (p 2 0) + to_ℕ (p 2 1) + to_ℕ (p 2 2))

or_le : (a b : Bool) → to_ℕ (a || b) ≤ to_ℕ a + to_ℕ b
or_le a b = ground arith

one_of_three : (c : ℕ) → to_ℕ (c == 0) + to_ℕ (c == 1) + to_ℕ (c == 2) ≤ 1
one_of_three c = ground arith

count-at : (r c : ℕ) → count (at r c) ≤ 1
count-at zero c = omega (arith, one_of_three c)
count-at (suc zero) c = omega (arith, one_of_three c)
count-at (suc (suc zero)) c = omega (arith, one_of_three c)
count-at (suc (suc (suc r))) c =
    rw (far 0 (omega arith), far 1 (omega arith), far 2 (omega arith)) (omega arith)
  where
    far : (k : ℕ) → k < 3 → (suc (suc (suc r)) == k) ≡ false
    far k h = ground arith

count_or : (p q : ℕ → ℕ → Bool) → count (λ r c. p r c || q r c) ≤ count p + count q
count_or p q = omega (arith, or_le)

count-placed : (h : List (ℕ × ℕ)) → count (λ r c. placed r c h) ≤ length h
count-placed [] = omega arith
count-placed (m ∷ h) =
    omega (arith, count_or (at m.0 m.1) (λ r c. placed r c h), count-at m.0 m.1, count-placed h)

all_placed : (p : ℕ → ℕ → Bool) → ((r c : ℕ) → r < 3 → c < 3 → p r c ≡ true) → count p ≡ 9
all_placed p h =
    rw
      (
        h 0 0 (omega arith) (omega arith),
        h 0 1 (omega arith) (omega arith),
        h 0 2 (omega arith) (omega arith),
      )
      (rw
        (
          h 1 0 (omega arith) (omega arith),
          h 1 1 (omega arith) (omega arith),
          h 1 2 (omega arith) (omega arith),
        )
        (rw (
          h 2 0 (omega arith) (omega arith),
          h 2 1 (omega arith) (omega arith),
          h 2 2 (omega arith) (omega arith),
        )))

all_some : (b : Cells) → is_draw b ≡ true → (r c : ℕ) → r < 3 → c < 3 → b r c ≢ none
unfolding is_draw
all_some b d zero zero hr hc = ground arith
all_some b d zero (suc zero) hr hc = ground arith
all_some b d zero (suc (suc zero)) hr hc = ground arith
all_some b d (suc zero) zero hr hc = ground arith
all_some b d (suc zero) (suc zero) hr hc = ground arith
all_some b d (suc zero) (suc (suc zero)) hr hc = ground arith
all_some b d (suc (suc zero)) zero hr hc = ground arith
all_some b d (suc (suc zero)) (suc zero) hr hc = ground arith
all_some b d (suc (suc zero)) (suc (suc zero)) hr hc = ground arith
all_some b d r (suc (suc (suc c))) hr hc = absurd (omega arith)
all_some b d (suc (suc (suc r))) c hr hc = absurd (omega arith)

not-is_draw : (s : TicTacToe) → IsGame s → is_draw s.board ≡ false
not-is_draw s g = elim (Bool-cases (is_draw s.board)) [
  | inl full ↦ absurd (
      omega (
        arith,
        all_placed (λ r c. placed r c s.move_history)
            (λ r c hr hc. g.only r c (all_some s.board full r c hr hc)),
        count-placed s.move_history,
        g.few,
      ))
  | inr free ↦ free
]

-- One of the lines holds three symbols of the player.
abbrev pub Wins : ℕ → Cells → List Line → Type 0
Wins p b [] = ⊥
Wins p b (l ∷ ls) =
    ((b l.r1 l.c1 ≡ some p) × (b l.r2 l.c2 ≡ some p) × (b l.r3 l.c3 ≡ some p)) ⊎ Wins p b ls

abbrev pub Decides : Cells → List Line → Option ℕ → Type 0
Decides b ls (some p) = Wins p b ls
Decides b ls none = (p : ℕ) → ¬ Wins p b ls

abbrev Same : ℕ → Option ℕ → Option ℕ → Option ℕ → Type 0
Same p x y z = (x ≡ some p) × (y ≡ some p) × (z ≡ some p)

owner_of-some : (x y z : Option ℕ) (p : ℕ) → owner_of x y z ≡ some p → Same p x y z
owner_of-some x y z p h = ground arith

owner_of-none : (x y z : Option ℕ) → owner_of x y z ≡ none → (p : ℕ) → ¬ Same p x y z
owner_of-none x y z h p same = ground arith

Decides-cons :
    (b : Cells) (l : Line) (ls : List Line) (o : Option ℕ)
    → ((p : ℕ) → ¬ Same p (b l.r1 l.c1) (b l.r2 l.c2) (b l.r3 l.c3))
    → Decides b ls o
    → Decides b (l ∷ ls) o
Decides-cons b l ls none free d = λ p w. elim w [ inl same ↦ free p same | inr later ↦ d p later ]
Decides-cons b l ls (some p) free d = inr d

first_winner-Decides : (b : Cells) (ls : List Line) → Decides b ls (first_winner b ls)
unfolding first_winner
first_winner-Decides b [] = λ p w. w
first_winner-Decides b (l ∷ ls) =
    elim (Option-cases (owner_of (b l.r1 l.c1) (b l.r2 l.c2) (b l.r3 l.c3))) [
      | inl free ↦
          rw (free, first_winner)
            (Decides-cons b l ls (first_winner b ls)
              (owner_of-none (b l.r1 l.c1) (b l.r2 l.c2) (b l.r3 l.c3) free)
              (first_winner-Decides b ls))
      | inr (p, full) ↦
          rw (full, first_winner)
            (inl (owner_of-some (b l.r1 l.c1) (b l.r2 l.c2) (b l.r3 l.c3) p full))
    ]

check_winner-Decides : (b : Cells) → Decides b lines (check_winner b)
unfolding check_winner
check_winner-Decides b = first_winner-Decides b lines

-- A valid game is never a draw: its status is the winner's, who holds a line, or, when nobody
-- holds one, that of the player whose turn it is; and it does not panic.
pub status_cases :
    (s : TicTacToe)
    → IsGame s
    → ((p : ℕ) × (status s ≡ some (winner p)) × Wins p s.board lines)
      ⊎ ((p : ℕ) × (status s ≡ some (in_progress p))
          × (get_elem? s.players s.current_index ≡ some p)
          × ((q : ℕ) → ¬ Wins q s.board lines))
unfolding status
status_cases s g =
    go (check_winner s.board) refl (get_elem? s.players s.current_index) refl
      (check_winner-Decides s.board)
  where
    go :
        (o : Option ℕ)
        → check_winner s.board ≡ o
        → (mover : Option ℕ) → get_elem? s.players s.current_index ≡ mover
        → Decides s.board lines (check_winner s.board)
        → ((p : ℕ) × (status s ≡ some (winner p)) × Wins p s.board lines)
          ⊎ ((p : ℕ) × (status s ≡ some (in_progress p))
              × (get_elem? s.players s.current_index ≡ some p)
              × ((q : ℕ) → ¬ Wins q s.board lines))
    go (some p) e mover m d =
        inl (p, rw (e, status), subst (λ (o : Option ℕ). Decides s.board lines o) e d)
    go none e (some p) m d = inr (
      p,
      rw (e, status) (rw (not-is_draw s g) (rw m)),
      m,
      subst (λ (o : Option ℕ). Decides s.board lines o) e d,
    )
    go none e none m d = absurd (get_elem?_two s.players s.current_index g.two g.turn m)
