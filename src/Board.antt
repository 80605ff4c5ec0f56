-- ===== src/Board.antt =====
-- examples/comment-board/src/episode: a room whose comments carry bonds, as an episode
-- (board_with_contract.rs, contract.rs, commands.rs), in the default build. The fields that no
-- operation of that build writes are left out, and floating-point rules with them.
pub mod Descriptor
pub mod Codec
pub mod Bond
pub mod Execute
pub mod Rollback
pub mod Backed
pub mod Fair
pub mod Accepted
pub mod History
use kdapp.Base.{
  ℕ, ◌+◌, ◌-◌, ◌%◌, max, Bool, true, false, not, ◌&&◌, Option, none, some, List, [], ◌∷◌, ◌++◌,
  push_back, any, length, get_elem?, Map, insert, remove, ◌==◌, ltb, leb, bytes_eq, if◌then◌else◌,
  u64_mod,
}
use kdapp.Episode.{
  EpisodeError, unauthorized, invalid_command, Result, ok, err, TxOutputInfo, PayloadMetadata,
  Episode,
}
use kdapp.Text.{is_blank}
use kdapp.Board.Descriptor.{BondScriptKind, decode_bond_descriptor, kind_eq}

pub data ContractCommand : Type 0 where
  join_room : (bond_amount : ℕ) → ContractCommand
  request_challenge : ContractCommand
  submit_response : (signature nonce : List ℕ) → ContractCommand
  submit_comment :
      (text : List ℕ) (bond_amount : ℕ) (bond_output_index : Option ℕ)
      (bond_script : Option BondScriptKind)
      → ContractCommand

-- The texts of `operation_type`.
pub data OperationType : Type 0 where
  joined challenged authenticated commented : OperationType

pub record ContractRollback : Type 0 where
  pub operation_type : OperationType
  pub comment_id : Option ℕ
  pub bond_amount : Option ℕ
  pub prev_timestamp : ℕ
  pub utxo_changes : List (ℕ × ℕ)

-- The errors that `execute` returns; `empty_comment` and `bonds_disabled` are the rules of
-- `RoomRulesViolation`, and `descriptor_mismatch` is its `InvalidCommand`.
pub data ContractError : Type 0 where
  contract_expired user_not_authenticated empty_comment bonds_disabled : ContractError
  insufficient_bond : (required provided : ℕ) → ContractError
  descriptor_mismatch : ContractError

pub record EconomicComment : Type 0 where
  pub id : ℕ
  pub text : List ℕ
  pub author : ℕ
  pub timestamp : ℕ
  pub bond_amount : ℕ

pub record CommentRoomContract : Type 0 where
  pub room_creator : ℕ
  pub min_bond : ℕ
  pub bonds_enabled : Bool
  pub total_locked_value : ℕ
  pub comments : List EconomicComment
  pub room_members : List ℕ
  pub authenticated_users : List ℕ
  pub current_challenge : Option (List ℕ)
  pub total_comments : ℕ

pub record ContractCommentBoard : Type 0 where
  pub contract : CommentRoomContract
  pub locked_utxos : Map ℕ
  pub next_comment_id : ℕ
  pub contract_created_at : ℕ
  pub contract_expires_at : ℕ

-- The key of the registration stub, and printed forms: of a key and of the names of locked outputs as
-- numbers, and of a challenge for a transaction.
pub record Surroundings : Type 0 where
  pub dev_pk : ℕ
  pub print : ℕ → ℕ
  pub challenge_text : ℕ → List ℕ
  pub comment_bond : ℕ → ℕ → ℕ
  pub join_bond : ℕ → ℕ

-- `CommentRoomContract::new` with the default rules.
unfoldable pub new : ℕ → CommentRoomContract
new creator = record {
  room_creator = creator;
  min_bond = 100000000;
  bonds_enabled = true;
  total_locked_value = 0;
  comments = [];
  room_members = [];
  authenticated_users = [];
  current_challenge = none;
  total_comments = 0;
}

abbrev creator_of : Surroundings → List ℕ → ℕ
creator_of env [] = env.dev_pk
creator_of env (creator ∷ _) = creator

unfoldable pub initialize : Surroundings → List ℕ → PayloadMetadata → ContractCommentBoard
unfolding new
initialize env participants md = record {
  contract = new (creator_of env participants);
  locked_utxos = [];
  next_comment_id = 1;
  contract_created_at = md.accepting_time;
  contract_expires_at = max ((md.accepting_time + 7776000) % u64_mod) 2000000000;
}

abbrev pub Executed : Type 0
Executed = ContractCommentBoard × Result (EpisodeError ContractError) ContractRollback

abbrev pub refuse : ContractCommentBoard → ContractError → Executed
refuse s e = (s, err (invalid_command e))

-- What an operation returns: the bond and the outputs apart, only its name and the time.
abbrev pub entry :
    OperationType → Option ℕ → Option ℕ → PayloadMetadata → List (ℕ × ℕ) → ContractRollback
entry operation id bond md changes = record {
  operation_type = operation;
  comment_id = id;
  bond_amount = bond;
  prev_timestamp = md.accepting_time;
  utxo_changes = changes;
}
