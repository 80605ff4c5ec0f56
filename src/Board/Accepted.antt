-- ===== src/Board/Accepted.antt =====
-- What an accepted command adds to a board: examples/comment-board/src/episode.
use kdapp.Base.{
  ℕ, suc, ◌+◌, ◌%◌, ◌≤◌, ◌<◌, ◌≡◌, ◌≢◌, ◌⊎◌, refl, Option, none, some, List, ◌∷◌, push_back, ◌==◌,
  u64_mod, arith, Bool-cases, Option-cases, inl, inr,
}
use kdapp.Episode.{ok, TxOutputInfo, PayloadMetadata}
use kdapp.Board.{
  ContractCommand, join_room, request_challenge, submit_response, submit_comment, joined,
  challenged, authenticated, commented, ContractRollback, EconomicComment, CommentRoomContract,
  ContractCommentBoard, Surroundings,
}
use kdapp.Board.Descriptor.{BondScriptKind}
use kdapp.Board.Bond.{check_bond}
use kdapp.Board.Execute.{
  execute_join_room, execute_request_challenge, execute_submit_response, post,
  execute_submit_comment, dispatch, execute,
}
use kdapp.Board.Backed.{
  Rising-push_back, length-Rising, length-push_back, bonds-push_back, join_bonds-joined,
  join_bonds-other, Undoes-joined, Undoes-same, Undoes-commented,
}
use kdapp.Board.Fair.{bond_of, AllFair-push_back, no_join, no_join_commented, IsBacked}

module _ (env : Surroundings) where
  join-IsBacked :
      (s s' : ContractCommentBoard) (stack : List ContractRollback) (p bond : ℕ)
      (md : PayloadMetadata) (r : ContractRollback)
      → execute_join_room env s p bond md ≡ (s', ok r)
      → s.contract.total_locked_value + bond < u64_mod
      → IsBacked s stack
      → IsBacked s' (r ∷ stack)
  unfolding execute_join_room
  join-IsBacked s s' stack p bond md r h room l =
      let op : r.operation_type ≡ joined = ground arith in
      let paid : r.bond_amount ≡ some bond = ground arith in
      let same : s'.contract.comments ≡ s.contract.comments = ground arith in
      let total : s'.contract.total_locked_value ≡ s.contract.total_locked_value + bond =
        ground arith in
      record {
        counted = ground (arith, l.counted);
        locked =
            rw same (let sum = join_bonds-joined r stack bond op paid in omega (arith, l.locked));
        rising = ground (arith, l.rising);
        fair = ground (arith, l.fair);
        undoes = rw same (Undoes-joined r stack s.contract.comments bond op paid l.undoes);
      }

  -- What keeps the comments, their number and the locked value.
  kept-IsBacked :
      (s s' : ContractCommentBoard) (stack : List ContractRollback) (r : ContractRollback)
      → (r.operation_type ≡ challenged) ⊎ (r.operation_type ≡ authenticated)
      → s'.contract.comments ≡ s.contract.comments
      → s'.contract.total_comments ≡ s.contract.total_comments
      → s'.contract.total_locked_value ≡ s.contract.total_locked_value
      → s'.contract.min_bond ≡ s.contract.min_bond
      → s'.next_comment_id ≡ s.next_comment_id
      → IsBacked s stack
      → IsBacked s' (r ∷ stack)
  kept-IsBacked s s' stack r op comments total value min next l =
      let other : r.operation_type ≢ joined = no_join r op in
      record {
        counted = rw (total, comments) l.counted;
        locked =
            rw (value, comments)
              (let sum = join_bonds-other r stack other in omega (arith, l.locked));
        rising = rw (comments, next) l.rising;
        fair = rw (min, comments) l.fair;
        undoes = rw comments (Undoes-same r stack s.contract.comments op l.undoes);
      }

  challenge-IsBacked :
      (s s' : ContractCommentBoard) (stack : List ContractRollback) (md : PayloadMetadata)
      (r : ContractRollback)
      → execute_request_challenge env s md ≡ (s', ok r)
      → IsBacked s stack
      → IsBacked s' (r ∷ stack)
  unfolding execute_request_challenge
  challenge-IsBacked s s' stack md r h l =
      kept-IsBacked s s' stack r (inl (ground arith)) (ground arith) (ground arith) (ground arith)
        (ground arith) (ground arith) l

  respond-IsBacked :
      (s s' : ContractCommentBoard) (stack : List ContractRollback) (p : ℕ)
      (signature nonce : List ℕ) (md : PayloadMetadata) (r : ContractRollback)
      → execute_submit_response env s p signature nonce md ≡ (s', ok r)
      → IsBacked s stack
      → IsBacked s' (r ∷ stack)
  unfolding execute_submit_response
  respond-IsBacked s s' stack p signature nonce md r h l =
      kept-IsBacked s s' stack r (inr (ground arith)) (ground arith) (ground arith) (ground arith)
        (ground arith) (ground arith) l

  fair_bond :
      (contract : CommentRoomContract) (bond : ℕ) (index : Option ℕ)
      (script : Option BondScriptKind) (outputs : Option (List TxOutputInfo))
      → check_bond contract bond index script outputs ≡ none
      → (bond ≡ 0) ⊎ (contract.min_bond ≤ bond)
  unfolding check_bond
  fair_bond contract bond index script outputs h = elim (Bool-cases (bond == 0)) [
    | inl free ↦ inl (ground arith)
    | inr some_bond ↦ inr (ground arith)
  ]

  post-IsBacked :
      (s s' : ContractCommentBoard) (stack : List ContractRollback) (p : ℕ) (text : List ℕ)
      (bond : ℕ) (md : PayloadMetadata) (r : ContractRollback)
      → post env s p text bond md ≡ (s', ok r)
      → (bond ≡ 0) ⊎ (s.contract.min_bond ≤ bond)
      → s.next_comment_id + 1 < u64_mod
      → s.contract.total_locked_value + bond < u64_mod
      → IsBacked s stack
      → IsBacked s' (r ∷ stack)
  unfolding post
  post-IsBacked s s' stack p text bond md r h fair next room l =
      let c : EconomicComment = record {
        id = s.next_comment_id;
        text = text;
        author = env.print p;
        timestamp = md.accepting_time;
        bond_amount = bond;
      } in
      let op : r.operation_type ≡ commented = ground arith in
      let id : r.comment_id ≡ some s.next_comment_id = ground arith in
      let paid : r.bond_amount ≡ some bond = ground arith in
      let added : s'.contract.comments ≡ push_back s.contract.comments c = ground arith in
      let min : s'.contract.min_bond ≡ s.contract.min_bond = ground arith in
      let value : s'.contract.total_locked_value ≡ s.contract.total_locked_value + bond =
        ground arith in
      let following : s'.next_comment_id ≡ suc s.next_comment_id = ground arith in
      let few = length-Rising 1 s.contract.comments s.next_comment_id l.rising in
      let count : s'.contract.total_comments ≡ (s.contract.total_comments + 1) % u64_mod =
        ground arith in
      record {
        counted =
            rw (added, length-push_back s.contract.comments c) (let was = l.counted in omega arith);
        locked =
            rw (added, bonds-push_back s.contract.comments c, value)
              (let sum = join_bonds-other r stack (no_join_commented r op) in
                let was = l.locked in omega arith);
        rising =
            rw (added, following)
              (Rising-push_back 1 s.contract.comments s.next_comment_id c l.rising refl);
        fair =
            rw (added, min)
              (AllFair-push_back s.contract.min_bond s.contract.comments c l.fair fair);
        undoes = rw added (Undoes-commented r stack s.contract.comments c op id paid l.undoes);
      }

  comment-IsBacked :
      (s s' : ContractCommentBoard) (stack : List ContractRollback) (p : ℕ) (text : List ℕ)
      (bond : ℕ) (index : Option ℕ) (script : Option BondScriptKind) (md : PayloadMetadata)
      (r : ContractRollback)
      → execute_submit_comment env s p text bond index script md ≡ (s', ok r)
      → s.next_comment_id + 1 < u64_mod
      → s.contract.total_locked_value + bond < u64_mod
      → IsBacked s stack
      → IsBacked s' (r ∷ stack)
  unfolding execute_submit_comment
  comment-IsBacked s s' stack p text bond index script md r h next room l =
      elim (Option-cases (check_bond s.contract bond index script md.tx_outputs)) [
        | inr (e, wrong) ↦ absurd (ground arith)
        | inl right ↦
            post-IsBacked s s' stack p text bond md r (ground arith)
              (fair_bond s.contract bond index script md.tx_outputs right) next room l
      ]

  pub execute-IsBacked :
      (s s' : ContractCommentBoard) (stack : List ContractRollback) (cmd : ContractCommand)
      (authorization : Option ℕ) (md : PayloadMetadata) (r : ContractRollback)
      → execute env s cmd authorization md ≡ (s', ok r)
      → s.next_comment_id + 1 < u64_mod
      → s.contract.total_locked_value + bond_of cmd < u64_mod
      → IsBacked s stack
      → IsBacked s' (r ∷ stack)
  unfolding execute dispatch
  execute-IsBacked s s' stack cmd none md r h next room l = cc
  execute-IsBacked s s' stack (join_room bond) (some p) md r h next room l =
      join-IsBacked s s' stack p bond md r (ground arith) room l
  execute-IsBacked s s' stack request_challenge (some p) md r h next room l =
      challenge-IsBacked s s' stack md r (ground arith) l
  execute-IsBacked s s' stack (submit_response signature nonce) (some p) md r h next room l =
      respond-IsBacked s s' stack p signature nonce md r (ground arith) l
  execute-IsBacked s s' stack (submit_comment text bond index script) (some p) md r h next room l =
      comment-IsBacked s s' stack p text bond index script md r (ground arith) next room l
