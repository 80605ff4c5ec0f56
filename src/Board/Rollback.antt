-- ===== src/Board/Rollback.antt =====
-- The rollbacks of examples/comment-board/src/episode/board_with_contract.rs.
use kdapp.Base.{
  ℕ, ◌-◌, Bool, true, ◌&&◌, Option, none, some, List, [], ◌∷◌, length, Map, insert, remove, ◌==◌,
  ltb, if◌then◌else◌,
}
use kdapp.Board.{
  OperationType, joined, challenged, authenticated, commented, ContractRollback, EconomicComment,
  CommentRoomContract, ContractCommentBoard,
}

abbrev pub reverse_utxos : List (ℕ × ℕ) → Map ℕ → Map ℕ
reverse_utxos [] locked = locked
reverse_utxos ((utxo, amount) ∷ changes) locked =
    reverse_utxos changes (if ltb 0 amount then remove utxo locked else insert utxo amount locked)

-- `comments.retain(|c| c.id != cid)`
abbrev pub retain_not : ℕ → List EconomicComment → List EconomicComment
retain_not id [] = []
retain_not id (c ∷ comments) =
    let rest = retain_not id comments in if c.id == id then rest else c ∷ rest

-- `saturating_sub`
abbrev pub unlock : Option ℕ → ℕ → ℕ
unlock none locked = locked
unlock (some bond) locked = locked - bond

unfoldable pub forget_comment : CommentRoomContract → Option ℕ → Option ℕ → CommentRoomContract
forget_comment contract none bond = contract
forget_comment contract (some id) bond =
    let comments = retain_not id contract.comments in
    record contract {
      comments = comments;
      total_comments =
          if ltb 0 contract.total_comments && ltb (length comments) (length contract.comments)
          then contract.total_comments - 1
          else contract.total_comments;
      total_locked_value = unlock bond contract.total_locked_value;
    }

unfoldable pub revert_contract :
    OperationType → CommentRoomContract → ContractRollback → CommentRoomContract
revert_contract commented contract r = forget_comment contract r.comment_id r.bond_amount
revert_contract joined contract r = record contract {
  total_locked_value = unlock r.bond_amount contract.total_locked_value;
}
revert_contract challenged contract r = contract
revert_contract authenticated contract r = contract

unfoldable pub rollback : ContractCommentBoard → ContractRollback → ContractCommentBoard × Bool
unfolding revert_contract
rollback s r = (
  record s {
    contract = revert_contract r.operation_type s.contract r;
    locked_utxos = reverse_utxos r.utxo_changes s.locked_utxos;
  },
  true,
)
