-- ===== src/Board/Execute.antt =====
-- The commands of examples/comment-board/src/episode/board_with_contract.rs.
use kdapp.Base.{
  ℕ, ◌+◌, ◌%◌, not, ◌&&◌, Option, none, some, List, [], ◌∷◌, push_back, length, insert, ◌==◌, ltb,
  bytes_eq, if◌then◌else◌, u64_mod,
}
use kdapp.Episode.{unauthorized, ok, err, PayloadMetadata}
use kdapp.Text.{is_blank}
use kdapp.Board.Descriptor.{BondScriptKind}
use kdapp.Board.{
  ContractCommand, join_room, request_challenge, submit_response, submit_comment, joined,
  challenged, authenticated, commented, contract_expired, user_not_authenticated, empty_comment,
  ContractCommentBoard, Surroundings, Executed, refuse, entry,
}
use kdapp.Board.Bond.{check_bond}

module _ (env : Surroundings) where
  unfoldable pub execute_join_room : ContractCommentBoard → ℕ → ℕ → PayloadMetadata → Executed
  execute_join_room s participant bond md = (
    record s {
      contract = record s.contract {
        room_members = push_back s.contract.room_members (env.print participant);
        total_locked_value = (s.contract.total_locked_value + bond) % u64_mod;
      };
    },
    ok (entry joined none (some bond) md ((env.join_bond participant, bond) ∷ [])),
  )

  unfoldable pub execute_request_challenge : ContractCommentBoard → PayloadMetadata → Executed
  execute_request_challenge s md = (
    record s {
      contract = record s.contract { current_challenge = some (env.challenge_text md.tx_id) };
    },
    ok (entry challenged none none md []),
  )

  unfoldable pub execute_submit_response :
      ContractCommentBoard → ℕ → List ℕ → List ℕ → PayloadMetadata → Executed
  execute_submit_response s participant signature nonce md = elim s.contract.current_challenge [
    | none ↦ refuse s user_not_authenticated
    | some challenge ↦
        if bytes_eq nonce challenge && not (length signature == 0)
        then (
          record s {
            contract = record s.contract {
              authenticated_users =
                  push_back s.contract.authenticated_users (env.print participant);
              current_challenge = none;
            };
          },
          ok (entry authenticated none none md []),
        )
        else refuse s user_not_authenticated
  ]

  -- The new comment, once the text and the bond are right.
  unfoldable pub post : ContractCommentBoard → ℕ → List ℕ → ℕ → PayloadMetadata → Executed
  post s participant text bond md =
      let id = s.next_comment_id in
      let utxo = env.comment_bond id md.tx_id in
      (
        record s {
          contract = record s.contract {
            comments = push_back s.contract.comments (record {
              id = id;
              text = text;
              author = env.print participant;
              timestamp = md.accepting_time;
              bond_amount = bond;
            });
            total_comments = (s.contract.total_comments + 1) % u64_mod;
            total_locked_value = (s.contract.total_locked_value + bond) % u64_mod;
          };
          locked_utxos = insert utxo bond s.locked_utxos;
          next_comment_id = (id + 1) % u64_mod;
        },
        ok (entry commented (some id) (some bond) md ((utxo, bond) ∷ [])),
      )

  unfoldable pub execute_submit_comment :
      ContractCommentBoard
      → ℕ
      → List ℕ
      → ℕ
      → Option ℕ
      → Option BondScriptKind
      → PayloadMetadata
      → Executed
  execute_submit_comment s participant text bond index script md =
      if is_blank text
      then refuse s empty_comment
      else elim (check_bond s.contract bond index script md.tx_outputs) [
        | some e ↦ refuse s e
        | none ↦ post s participant text bond md
      ]

  unfoldable pub dispatch : ContractCommentBoard → ContractCommand → ℕ → PayloadMetadata → Executed
  dispatch s (join_room bond) participant md = execute_join_room s participant bond md
  dispatch s request_challenge participant md = execute_request_challenge s md
  dispatch s (submit_response signature nonce) participant md =
      execute_submit_response s participant signature nonce md
  dispatch s (submit_comment text bond index script) participant md =
      execute_submit_comment s participant text bond index script md

  unfoldable pub execute :
      ContractCommentBoard → ContractCommand → Option ℕ → PayloadMetadata → Executed
  execute s cmd none md = (s, err unauthorized)
  execute s cmd (some participant) md =
      if ltb s.contract_expires_at md.accepting_time
      then refuse s contract_expired
      else dispatch s cmd participant md
