-- ===== src/Board/History.antt =====
-- Every history of a board (examples/comment-board/src/episode/board_with_contract.rs).
use kdapp.Base.{
  ℕ, suc, ◌+◌, ◌-◌, ◌<◌, ◌≡◌, ◌⊎◌, refl, sym, ap, ◌∙◌, Bool, Option, none, some, List, [], ◌∷◌,
  push_back, length, u64_mod, arith, inl, inr,
}
use kdapp.Episode.{EpisodeError, ok, err, PayloadMetadata}
use kdapp.Board.{
  ContractCommand, join_room, request_challenge, submit_response, submit_comment, OperationType,
  joined, challenged, authenticated, commented, ContractRollback, ContractError, EconomicComment,
  CommentRoomContract, ContractCommentBoard, Surroundings, initialize,
}
use kdapp.Board.Execute.{
  execute_join_room, execute_request_challenge, execute_submit_response, post,
  execute_submit_comment, dispatch, execute,
}
use kdapp.Board.Rollback.{retain_not, forget_comment, revert_contract, rollback}
use kdapp.Board.Backed.{
  retain_not-push_back, length-push_back, bonds, bonds-push_back, join_bonds, join_bonds-joined,
  join_bonds-other, Undoes, UndoesBy,
}
use kdapp.Board.Accepted.{execute-IsBacked}
use kdapp.Board.Fair.{bond_of, AllFair-older, no_join, no_join_commented, IsBacked}

forgotten :
    (contract : CommentRoomContract) (older : List EconomicComment) (c : EconomicComment)
    → contract.comments ≡ push_back older c
    → retain_not c.id (push_back older c) ≡ older
    → contract.total_comments ≡ suc (length older)
    → forget_comment contract (some c.id) (some c.bond_amount) ≡ record contract {
      comments = older;
      total_comments = length older;
      total_locked_value = contract.total_locked_value - c.bond_amount;
    }
unfolding forget_comment
forgotten contract older c same removed count =
    let rest : retain_not c.id contract.comments ≡ older =
      ap (λ (x : List EconomicComment). retain_not c.id x) same ∙ removed in
    let longer : length contract.comments ≡ suc (length older) =
      ap (λ (x : List EconomicComment). length x) same ∙ length-push_back older c in
    ground (arith, rest, longer, count)

reverted :
    (s : ContractCommentBoard) (r : ContractRollback) (c : EconomicComment)
    → r.operation_type ≡ commented
    → r.comment_id ≡ some c.id
    → r.bond_amount ≡ some c.bond_amount
    → revert_contract r.operation_type s.contract r
      ≡ forget_comment s.contract (some c.id) (some c.bond_amount)
unfolding revert_contract
reverted s r c op id bond = ground arith

kept_contract :
    (s : ContractCommentBoard) (r : ContractRollback)
    → (r.operation_type ≡ challenged) ⊎ (r.operation_type ≡ authenticated)
    → revert_contract r.operation_type s.contract r ≡ s.contract
unfolding revert_contract
kept_contract s r op = ground arith

join_contract :
    (s : ContractCommentBoard) (r : ContractRollback) (bond : ℕ)
    → r.operation_type ≡ joined
    → r.bond_amount ≡ some bond
    → revert_contract r.operation_type s.contract r
      ≡ record s.contract { total_locked_value = s.contract.total_locked_value - bond }
unfolding revert_contract
join_contract s r bond op paid = ground arith

comment_undone :
    (s : ContractCommentBoard) (stack : List ContractRollback) (r : ContractRollback)
    (older : List EconomicComment) (c : EconomicComment)
    → r.operation_type ≡ commented
    → s.contract.comments ≡ push_back older c
    → r.comment_id ≡ some c.id
    → r.bond_amount ≡ some c.bond_amount
    → Undoes stack older
    → IsBacked s (r ∷ stack)
    → IsBacked (rollback s r).0 stack
unfolding rollback
comment_undone s stack r older c op same id bond undoes l =
    let (removed, rising, first) =
      retain_not-push_back 1 older s.next_comment_id c (rw same at l.rising) in
    let count : s.contract.total_comments ≡ suc (length older) =
      l.counted ∙ ap (λ (x : List EconomicComment). length x) same ∙ length-push_back older c in
    let value : s.contract.total_locked_value ≡ bonds (push_back older c) + join_bonds (r ∷ stack) =
      l.locked ∙ ap (λ (x : List EconomicComment). bonds x + join_bonds (r ∷ stack)) same in
    let others = join_bonds-other r stack (no_join_commented r op) in
    let sum = bonds-push_back older c in
    let forgot = forgotten s.contract older c same removed count in
    let back = reverted s r c op id bond in
    rw (back, forgot)
      (record {
        counted = refl;
        locked = omega arith;
        rising = rising;
        fair = AllFair-older s.contract.min_bond older c (rw same at l.fair);
        undoes = undoes;
      })

kept_undone :
    (s : ContractCommentBoard) (stack : List ContractRollback) (r : ContractRollback)
    → (r.operation_type ≡ challenged) ⊎ (r.operation_type ≡ authenticated)
    → Undoes stack s.contract.comments
    → IsBacked s (r ∷ stack)
    → IsBacked (rollback s r).0 stack
unfolding rollback
kept_undone s stack r op undoes l =
    let same = kept_contract s r op in
    let others = join_bonds-other r stack (no_join r op) in
    rw same (record {
      counted = l.counted;
      locked = l.locked ∙ omega arith;
      rising = l.rising;
      fair = l.fair;
      undoes = undoes;
    })

join_undone :
    (s : ContractCommentBoard) (stack : List ContractRollback) (r : ContractRollback) (bond : ℕ)
    → r.operation_type ≡ joined
    → r.bond_amount ≡ some bond
    → Undoes stack s.contract.comments
    → IsBacked s (r ∷ stack)
    → IsBacked (rollback s r).0 stack
unfolding rollback
join_undone s stack r bond op paid undoes l =
    let same = join_contract s r bond op paid in
    let sum = join_bonds-joined r stack bond op paid in
    rw same (record {
      counted = l.counted;
      locked = let was = l.locked in omega arith;
      rising = l.rising;
      fair = l.fair;
      undoes = undoes;
    })

rollback_by :
    (o : OperationType) (s : ContractCommentBoard) (stack : List ContractRollback)
    (r : ContractRollback)
    → r.operation_type ≡ o
    → UndoesBy o r (Undoes stack) s.contract.comments
    → IsBacked s (r ∷ stack)
    → IsBacked (rollback s r).0 stack
rollback_by joined s stack r op (bond, paid, undoes) l = join_undone s stack r bond op paid undoes l
rollback_by challenged s stack r op undoes l = kept_undone s stack r (inl op) undoes l
rollback_by authenticated s stack r op undoes l = kept_undone s stack r (inr op) undoes l
rollback_by commented s stack r op (older, c, same, id, bond, undoes) l =
    comment_undone s stack r older c op same id bond undoes l

refused_same :
    (env : Surroundings) (s s' : ContractCommentBoard) (cmd : ContractCommand)
    (authorization : Option ℕ) (md : PayloadMetadata) (e : EpisodeError ContractError)
    → execute env s cmd authorization md ≡ (s', err e)
    → s ≡ s'
unfolding execute dispatch execute_join_room execute_request_challenge execute_submit_response
    execute_submit_comment post
refused_same env s s' cmd none md e h = ground arith
refused_same env s s' (join_room bond) (some p) md e h = ground arith
refused_same env s s' request_challenge (some p) md e h = ground arith
refused_same env s s' (submit_response signature nonce) (some p) md e h = ground arith
refused_same env s s' (submit_comment text bond index script) (some p) md e h = ground arith

module _ (env : Surroundings) where
  -- The engine keeps the rollback of what it executed, and takes the newest one first.
  pub data Reachable : ContractCommentBoard → List ContractRollback → Type 0 where
    started :
        (s : ContractCommentBoard) (participants : List ℕ) (md : PayloadMetadata)
        → s ≡ initialize env participants md
        → Reachable s []
    executed :
        (s s' : ContractCommentBoard) (stack : List ContractRollback) (cmd : ContractCommand)
        (authorization : Option ℕ) (md : PayloadMetadata) (r : ContractRollback)
        → execute env s cmd authorization md ≡ (s', ok r)
        → s.next_comment_id + 1 < u64_mod
        → s.contract.total_locked_value + bond_of cmd < u64_mod
        → Reachable s stack
        → Reachable s' (r ∷ stack)
    refused :
        (s s' : ContractCommentBoard) (stack : List ContractRollback) (cmd : ContractCommand)
        (authorization : Option ℕ) (md : PayloadMetadata) (e : EpisodeError ContractError)
        → execute env s cmd authorization md ≡ (s', err e)
        → Reachable s stack
        → Reachable s' stack
    undone :
        (s s' : ContractCommentBoard) (stack : List ContractRollback) (r : ContractRollback)
        (done : Bool)
        → rollback s r ≡ (s', done)
        → Reachable s (r ∷ stack)
        → Reachable s' stack

  -- In every history of a board in which fewer than 2 ^ 64 - 2 comments are made and the bonds that are
  -- locked stay below 2 ^ 64, the count of comments is right; their numbers rise and stay below the
  -- next; each has no bond or at least the smallest one; and the locked value is exactly the sum of the
  -- bonds of the comments that stand and of the joins that were not rolled back.
  pub Reachable-IsBacked :
      (s : ContractCommentBoard) (stack : List ContractRollback)
      → Reachable s stack
      → IsBacked s stack
  unfolding initialize
  Reachable-IsBacked _ _ (started s participants md e) =
      rw e
        (record { counted = refl; locked = refl; rising = omega arith; fair = tt; undoes = refl })
  Reachable-IsBacked _ _ (executed s s' stack cmd authorization md r h next room reach) =
      execute-IsBacked env s s' stack cmd authorization md r h next room
        (Reachable-IsBacked s stack reach)
  Reachable-IsBacked _ _ (refused s s' stack cmd authorization md e h reach) =
      rw⁻¹ (refused_same env s s' cmd authorization md e h) (Reachable-IsBacked s stack reach)
  Reachable-IsBacked _ _ (undone s s' stack r done h reach) =
      let l = Reachable-IsBacked s (r ∷ stack) reach in
      rw (ap (λ (x : ContractCommentBoard × Bool). x.0) (sym h))
        (rollback_by r.operation_type s stack r refl l.undoes l)
