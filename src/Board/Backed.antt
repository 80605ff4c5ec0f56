-- ===== src/Board/Backed.antt =====
-- The comments of a board, and the bonds that back them, against a stack of rollbacks:
-- examples/comment-board/src/episode/board_with_contract.rs.
use kdapp.Base.{
  ℕ, suc, ◌+◌, ◌≤◌, ◌≡◌, ◌≢◌, subst, ◌⊎◌, refl, sym, ap, Option, none, some, List, [], ◌∷◌,
  push_back, length, ==_self, arith, inl, inr,
}
use kdapp.Board.{
  OperationType, joined, challenged, authenticated, commented, ContractRollback, EconomicComment,
}
use kdapp.Board.Rollback.{retain_not}

-- Numbers that rise from a first one and stay below the next.
abbrev pub Rising : ℕ → List EconomicComment → ℕ → Type 0
Rising from [] next = from ≤ next
Rising from (c ∷ comments) next = (from ≤ c.id) × Rising (suc c.id) comments next

pub Rising-push_back :
    (from : ℕ) (comments : List EconomicComment) (next : ℕ) (c : EconomicComment)
    → Rising from comments next
    → c.id ≡ next
    → Rising from (push_back comments c) (suc next)
Rising-push_back from [] next c h e = (omega arith, omega arith)
Rising-push_back from (d ∷ comments) next c (h, t) e =
    (h, Rising-push_back (suc d.id) comments next c t e)

pub length-Rising :
    (from : ℕ) (comments : List EconomicComment) (next : ℕ)
    → Rising from comments next
    → from + length comments ≤ next
length-Rising from [] next h = omega arith
length-Rising from (c ∷ comments) next (h, t) =
    let later = length-Rising (suc c.id) comments next t in omega arith

Rising-le :
    (from : ℕ) (comments : List EconomicComment) (next : ℕ)
    → Rising from comments next
    → from ≤ next
Rising-le from [] next h = h
Rising-le from (c ∷ comments) next (h, t) =
    let later = Rising-le (suc c.id) comments next t in omega arith

-- The newest comment is the only one of its number, so removing its number removes it alone.
pub retain_not-push_back :
    (from : ℕ) (comments : List EconomicComment) (next : ℕ) (c : EconomicComment)
    → Rising from (push_back comments c) next
    → (retain_not c.id (push_back comments c) ≡ comments)
      × Rising from comments next
      × (from ≤ c.id)
retain_not-push_back from [] next c (h, t) = (ground (arith, ==_self c.id), omega arith, h)
retain_not-push_back from (d ∷ comments) next c (h, t) =
    let (same, rising, below) = retain_not-push_back (suc d.id) comments next c t in
    (ground (arith, same), (h, rising), omega arith)

pub length-push_back :
    (comments : List EconomicComment) (c : EconomicComment)
    → length (push_back comments c) ≡ suc (length comments)
length-push_back [] c = refl
length-push_back (d ∷ comments) c = ap suc (length-push_back comments c)

abbrev pub bonds : List EconomicComment → ℕ
bonds [] = 0
bonds (c ∷ comments) = c.bond_amount + bonds comments

pub bonds-push_back :
    (comments : List EconomicComment) (c : EconomicComment)
    → bonds (push_back comments c) ≡ bonds comments + c.bond_amount
bonds-push_back [] c = omega arith
bonds-push_back (d ∷ comments) c = omega (arith, bonds-push_back comments c)

abbrev or_zero : Option ℕ → ℕ
or_zero none = 0
or_zero (some n) = n

-- The bonds of those who joined.
abbrev join_bond_of : OperationType → ContractRollback → ℕ
join_bond_of joined r = or_zero r.bond_amount
join_bond_of commented r = 0
join_bond_of challenged r = 0
join_bond_of authenticated r = 0

abbrev pub join_bonds : List ContractRollback → ℕ
join_bonds [] = 0
join_bonds (r ∷ stack) = join_bond_of r.operation_type r + join_bonds stack

-- What a rollback undoes, where the rest of the stack undoes the comments that are left.
abbrev pub UndoesBy :
    OperationType
    → ContractRollback
    → (List EconomicComment → Type 0)
    → List EconomicComment
    → Type 0
UndoesBy commented r Rest comments =
    (older : List EconomicComment) × (c : EconomicComment) × (comments ≡ push_back older c)
    × (r.comment_id ≡ some c.id)
    × (r.bond_amount ≡ some c.bond_amount)
    × Rest older
UndoesBy joined r Rest comments = (bond : ℕ) × (r.bond_amount ≡ some bond) × Rest comments
UndoesBy challenged r Rest comments = Rest comments
UndoesBy authenticated r Rest comments = Rest comments

-- The stack undoes the comments from the newest to the first.
abbrev pub Undoes : List ContractRollback → List EconomicComment → Type 0
Undoes [] comments = comments ≡ []
Undoes (r ∷ stack) comments = UndoesBy r.operation_type r (Undoes stack) comments

pub Undoes-joined :
    (r : ContractRollback) (stack : List ContractRollback) (comments : List EconomicComment)
    (bond : ℕ)
    → r.operation_type ≡ joined
    → r.bond_amount ≡ some bond
    → Undoes stack comments
    → Undoes (r ∷ stack) comments
Undoes-joined r stack comments bond e b u =
    subst (λ (o : OperationType). UndoesBy o r (Undoes stack) comments) (sym e) (bond, b, u)

pub Undoes-same :
    (r : ContractRollback) (stack : List ContractRollback) (comments : List EconomicComment)
    → (r.operation_type ≡ challenged) ⊎ (r.operation_type ≡ authenticated)
    → Undoes stack comments
    → Undoes (r ∷ stack) comments
Undoes-same r stack comments (inl e) u =
    subst (λ (o : OperationType). UndoesBy o r (Undoes stack) comments) (sym e) u
Undoes-same r stack comments (inr e) u =
    subst (λ (o : OperationType). UndoesBy o r (Undoes stack) comments) (sym e) u

pub Undoes-commented :
    (r : ContractRollback) (stack : List ContractRollback) (comments : List EconomicComment)
    (c : EconomicComment)
    → r.operation_type ≡ commented
    → r.comment_id ≡ some c.id
    → r.bond_amount ≡ some c.bond_amount
    → Undoes stack comments
    → Undoes (r ∷ stack) (push_back comments c)
Undoes-commented r stack comments c e i b u =
    subst (λ (o : OperationType). UndoesBy o r (Undoes stack) (push_back comments c)) (sym e)
      (comments, c, refl, i, b, u)

pub join_bonds-joined :
    (r : ContractRollback) (stack : List ContractRollback) (bond : ℕ)
    → r.operation_type ≡ joined
    → r.bond_amount ≡ some bond
    → join_bonds (r ∷ stack) ≡ bond + join_bonds stack
join_bonds-joined r stack bond e b = ground arith

pub join_bonds-other :
    (r : ContractRollback) (stack : List ContractRollback)
    → r.operation_type ≢ joined
    → join_bonds (r ∷ stack) ≡ join_bonds stack
join_bonds-other r stack e = ground arith
