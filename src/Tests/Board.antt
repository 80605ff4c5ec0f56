-- ===== src/Tests/Board.antt =====
-- A member joins, comments with a bond and is rolled back: examples/comment-board/src.
use kdapp.Base.{ℕ, ◌+◌, ◌≡◌, refl, true, none, some, List, [], ◌∷◌, replicate, arith}
use kdapp.Episode.{ok, PayloadMetadata}
use kdapp.Text.{is_whitespace, is_blank}
use kdapp.Board.{
  join_room, submit_comment, joined, commented, ContractRollback, CommentRoomContract,
  ContractCommentBoard, Surroundings, initialize,
}
use kdapp.Board.Descriptor.{
  p2pk, time_or_moderator, encode_bond_descriptor, skip_bytes, decode_bond_descriptor, kind_eq,
}
use kdapp.Board.Codec.{decode_bond_descriptor-encode_bond_descriptor}
use kdapp.Board.Bond.{check_bond, check_outputs, check_script}
use kdapp.Board.Execute.{execute_join_room, execute_submit_comment, post, dispatch, execute}
use kdapp.Board.Fair.{IsBacked}
use kdapp.Board.History.{started, executed, Reachable-IsBacked}

abbrev env : Surroundings
env = record {
  dev_pk = 1;
  print = λ key. key;
  challenge_text = λ tx. tx ∷ [];
  comment_bond = λ id tx. id;
  join_bond = λ key. key + 1000;
}

-- The second output carries the bond, and its script is the descriptor of P2PK.
abbrev md : PayloadMetadata
md = record {
  accepting_hash = 1;
  accepting_daa = 2;
  accepting_time = 50;
  tx_id = 3;
  tx_outputs = some (
      record { value = 4; script_version = 0; script_bytes = none }
      ∷ record { value = 200000000; script_version = 0; script_bytes = some (1 ∷ replicate 33 2) }
      ∷ []);
  tx_status = none;
}

abbrev board : ContractCommentBoard
unfolding initialize
board = initialize env (7 ∷ []) md

abbrev room : CommentRoomContract
room = record {
  room_creator = 7;
  min_bond = 100000000;
  bonds_enabled = true;
  total_locked_value = 5;
  comments = [];
  room_members = 8 ∷ [];
  authenticated_users = [];
  current_challenge = none;
  total_comments = 0;
}

abbrev inhabited : ContractCommentBoard
inhabited = record {
  contract = room;
  locked_utxos = [];
  next_comment_id = 1;
  contract_created_at = 50;
  contract_expires_at = 2000000000;
}

abbrev text : List ℕ
text = 72 ∷ 105 ∷ []

abbrev discussed : ContractCommentBoard
discussed = record inhabited {
  contract = record room {
    total_locked_value = 200000005;
    comments =
        record { id = 1; text = text; author = 8; timestamp = 50; bond_amount = 200000000 } ∷ [];
    total_comments = 1;
  };
  locked_utxos = (1, 200000000) ∷ [];
  next_comment_id = 2;
}

abbrev undo_join : ContractRollback
undo_join = record {
  operation_type = joined;
  comment_id = none;
  bond_amount = some 5;
  prev_timestamp = 50;
  utxo_changes = (1008, 5) ∷ [];
}

abbrev undo_comment : ContractRollback
undo_comment = record {
  operation_type = commented;
  comment_id = some 1;
  bond_amount = some 200000000;
  prev_timestamp = 50;
  utxo_changes = (1, 200000000) ∷ [];
}

joining : execute env board (join_room 5) (some 8) md ≡ (inhabited, ok undo_join)
unfolding execute initialize dispatch execute_join_room
joining = refl

commenting :
    execute env inhabited (submit_comment text 200000000 (some 1) (some p2pk)) (some 8) md
    ≡ (discussed, ok undo_comment)
unfolding execute dispatch execute_submit_comment is_blank is_whitespace check_bond check_outputs
    check_script decode_bond_descriptor skip_bytes kind_eq post
commenting = refl

Reachable-IsBacked_example : IsBacked discussed (undo_comment ∷ undo_join ∷ [])
unfolding initialize
Reachable-IsBacked_example = Reachable-IsBacked env discussed (undo_comment ∷ undo_join ∷ []) (
    executed inhabited discussed (undo_join ∷ [])
      (submit_comment text 200000000 (some 1) (some p2pk)) (some 8) md undo_comment commenting
      (omega arith) (omega arith)
      (executed board inhabited [] (join_room 5) (some 8) md undo_join joining (omega arith)
        (omega arith) (started board (7 ∷ []) md refl)))

decode_bond_descriptor-encode_bond_descriptor_example :
    decode_bond_descriptor (
      encode_bond_descriptor
        (time_or_moderator 70000 1 2)
        (replicate 33 2)
        (some (replicate 33 3 ∷ replicate 33 4 ∷ [])))
    ≡ some (time_or_moderator 70000 1 2)
decode_bond_descriptor-encode_bond_descriptor_example =
    decode_bond_descriptor-encode_bond_descriptor (time_or_moderator 70000 1 2) (replicate 33 2)
      (replicate 33 3 ∷ replicate 33 4 ∷ []) refl (refl, (refl, tt)) (omega arith) (omega arith)
