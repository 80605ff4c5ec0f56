-- ===== src/Episode.antt =====
-- kdapp/src/episode.rs: what an episode developer implements, and what the engine hands over.
-- A call that can panic returns an `Option`, where `none` is the panic.
use kdapp.Base.{ℕ, Bool, Option, List}

pub data EpisodeError (E : Type 0) : Type 0 where
  unauthorized invalid_signature delete_episode : EpisodeError E
  invalid_command : E → EpisodeError E

pub data Result (E A : Type 0) : Type 0 where
  ok : A → Result E A
  err : E → Result E A

pub record TxOutputInfo : Type 0 where
  pub value : ℕ
  pub script_version : ℕ
  pub script_bytes : Option (List ℕ)

-- Of kdapp/src/proxy.rs.
pub record TxStatus : Type 0 where
  pub acceptance_height : Option ℕ
  pub confirmations : Option ℕ
  pub finality : Option Bool

-- A hash is a number below 2 ^ 256, its bytes read with the least significant first.
pub record PayloadMetadata : Type 0 where
  pub accepting_hash : ℕ
  pub accepting_daa : ℕ
  pub accepting_time : ℕ
  pub tx_id : ℕ
  pub tx_outputs : Option (List TxOutputInfo)
  pub tx_status : Option TxStatus

-- `to_vec` is the borsh form of a command, which a derive macro generates.
-- `execute` returns the state with an error too: `&mut self` may have changed before it.
pub record Episode : Type 1 where
  pub State : Type 0
  pub Command : Type 0
  pub CommandRollback : Type 0
  pub CommandError : Type 0
  pub to_vec : Command → List ℕ
  pub initialize : List ℕ → PayloadMetadata → State
  pub execute :
      State
      → Command
      → Option ℕ
      → PayloadMetadata
      → Option (State × Result (EpisodeError CommandError) CommandRollback)
  pub rollback : State → CommandRollback → Option (State × Bool)
