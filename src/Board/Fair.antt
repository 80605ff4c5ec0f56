-- ===== src/Board/Fair.antt =====
-- The comments and the locked value of examples/comment-board/src/episode/board_with_contract.rs.
use kdapp.Base.{ℕ, ◌+◌, ◌≤◌, ◌≡◌, ◌≢◌, ◌⊎◌, List, [], ◌∷◌, push_back, length, inl, inr}
use kdapp.Board.{
  ContractCommand, join_room, request_challenge, submit_response, submit_comment, joined,
  challenged, authenticated, commented, ContractRollback, EconomicComment, ContractCommentBoard,
}
use kdapp.Board.Backed.{Rising, bonds, join_bonds, Undoes}

-- The bond that a command locks.
abbrev pub bond_of : ContractCommand → ℕ
bond_of (join_room bond) = bond
bond_of request_challenge = 0
bond_of (submit_response signature nonce) = 0
bond_of (submit_comment text bond index script) = bond

-- Each comment has no bond or at least the smallest one.
abbrev pub AllFair : ℕ → List EconomicComment → Type 0
AllFair min_bond [] = Unit {0}
AllFair min_bond (c ∷ comments) =
    ((c.bond_amount ≡ 0) ⊎ (min_bond ≤ c.bond_amount)) × AllFair min_bond comments

pub AllFair-push_back :
    (min_bond : ℕ) (comments : List EconomicComment) (c : EconomicComment)
    → AllFair min_bond comments
    → (c.bond_amount ≡ 0) ⊎ (min_bond ≤ c.bond_amount)
    → AllFair min_bond (push_back comments c)
AllFair-push_back min_bond [] c h f = (f, tt)
AllFair-push_back min_bond (d ∷ comments) c (h, t) f =
    (h, AllFair-push_back min_bond comments c t f)

pub AllFair-older :
    (min_bond : ℕ) (comments : List EconomicComment) (c : EconomicComment)
    → AllFair min_bond (push_back comments c)
    → AllFair min_bond comments
AllFair-older min_bond [] c h = tt
AllFair-older min_bond (d ∷ comments) c (h, t) = (h, AllFair-older min_bond comments c t)

pub no_join :
    (r : ContractRollback)
    → (r.operation_type ≡ challenged) ⊎ (r.operation_type ≡ authenticated)
    → r.operation_type ≢ joined
no_join r (inl e) f = cc
no_join r (inr e) f = cc

pub no_join_commented :
    (r : ContractRollback) → r.operation_type ≡ commented → r.operation_type ≢ joined
no_join_commented r e f = cc

pub record IsBacked (s : ContractCommentBoard) (stack : List ContractRollback) : Type 0 where
  pub counted : s.contract.total_comments ≡ length s.contract.comments
  pub locked : s.contract.total_locked_value ≡ bonds s.contract.comments + join_bonds stack
  pub rising : Rising 1 s.contract.comments s.next_comment_id
  pub fair : AllFair s.contract.min_bond s.contract.comments
  pub undoes : Undoes stack s.contract.comments
