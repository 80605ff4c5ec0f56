-- ===== src/Message.antt =====
-- kdapp/src/engine.rs: the messages of episodes (`EpisodeMessage`) and of the listener (`EngineMsg`).
use kdapp.Base.{ℕ, Option, List}
use kdapp.Pki.{Secp, to_message, sign_message}
use kdapp.Episode.{Episode, TxOutputInfo, TxStatus}

pub data EpisodeMessage (G : Episode) : Type 0 where
  new_episode : (episode_id : ℕ) (participants : List ℕ) → EpisodeMessage G
  signed_command : (episode_id : ℕ) (cmd : G.Command) (pubkey : ℕ) (sig : List ℕ) → EpisodeMessage G
  unsigned_command : (episode_id : ℕ) (cmd : G.Command) → EpisodeMessage G
  revert : (episode_id : ℕ) → EpisodeMessage G

pub record AssociatedTx : Type 0 where
  pub tx_id : ℕ
  pub payload : List ℕ
  pub tx_outputs : Option (List TxOutputInfo)
  pub tx_status : Option TxStatus

pub record Block : Type 0 where
  pub accepting_hash : ℕ
  pub accepting_daa : ℕ
  pub accepting_time : ℕ
  pub associated_txs : List AssociatedTx

pub data EngineMsg : Type 0 where
  blk_accepted : Block → EngineMsg
  blk_reverted : (accepting_hash : ℕ) → EngineMsg
  exit : EngineMsg

-- What the engine uses and does not implement: the curve, and the borsh parser of a message.
pub record Env (G : Episode) : Type 0 where
  pub secp : Secp
  pub from_slice : List ℕ → Option (EpisodeMessage G)

unfoldable pub episode_id : {G : Episode} → EpisodeMessage G → ℕ
episode_id (EpisodeMessage.new_episode i ps) = i
episode_id (EpisodeMessage.signed_command i c pk sig) = i
episode_id (EpisodeMessage.unsigned_command i c) = i
episode_id (EpisodeMessage.revert i) = i

module _ {G : Episode} where
  unfoldable pub new_signed_command : Secp → ℕ → G.Command → List ℕ → ℕ → EpisodeMessage G
  unfolding to_message sign_message
  new_signed_command c i cmd sk pk =
      let msg = to_message c (G.to_vec cmd) in
      EpisodeMessage.signed_command i cmd pk (sign_message c sk msg)
