-- ===== src/Tests/Engine.antt =====
-- Runs of kdapp/src/engine.rs with games of examples/tictactoe/src/game.rs as its episodes.
use mathlib.Core.Option.{some-injective, map as option_map}
use kdapp.Base.{
  subst, ℕ, zero, suc, ◌≡◌, refl, Bool, true, Option, none, some, List, [], ◌∷◌, ◌++◌, arith,
  length, lookup,
}
use kdapp.Pki.{Secp}
use kdapp.Episode.{Episode, PayloadMetadata}
use kdapp.Message.{
  EpisodeMessage, AssociatedTx, Block, blk_accepted, blk_reverted, exit, Env, episode_id,
}
use kdapp.Engine.{Store, Event, handle_message}
use kdapp.Engine.Start.{
  Engine, metadata, new, start, block_accepted, with_events, filter_old_episodes,
}
use kdapp.Engine.Lawful.{Lawful, AdmitsMessage}
use kdapp.Engine.Undo.{Handles, Reverts, handle_message-Handles, revert-Reverts}
use kdapp.Engine.Reorg.{reorg, AcceptedBlock, block_accepted-reverted, start-reorg}
use kdapp.Engine.Run.{Ends, start-Ends, new-IsValid}
use kdapp.Engine.Blocks.{AdmitsTxs}
use kdapp.Engine.Filter.{filter_old_episodes-lookup}
use kdapp.TicTacToe.{tic_tac_toe, TttMove, initialize, execute}
use kdapp.TicTacToe.Play.{tic_tac_toe-Lawful}

abbrev to_vec : TttMove → List ℕ
to_vec m = m.row ∷ m.col ∷ []

abbrev G : Episode
G = tic_tac_toe to_vec

abbrev L : Lawful G
L = tic_tac_toe-Lawful to_vec

-- A curve on which every signature is the key's own number.
abbrev secp : Secp
secp = record {
  sha256 = λ bytes. bytes;
  public_key = λ sk. length sk;
  sign_ecdsa = λ msg sk. sk;
  verify_ecdsa = λ msg sig pk. true;
}

-- A form of the messages that is easy to write down.
abbrev parse : List ℕ → Option (EpisodeMessage G)
parse (zero ∷ i ∷ ps) = some (EpisodeMessage.new_episode i ps)
parse (suc zero ∷ i ∷ r ∷ c ∷ pk ∷ []) =
    some (EpisodeMessage.signed_command i (record { row = r; col = c }) pk [])
parse (suc (suc zero) ∷ i ∷ []) = some (EpisodeMessage.revert i)
parse _ = none

abbrev env : Env G
env = record { secp = secp; from_slice = parse }

abbrev tx : ℕ → List ℕ → AssociatedTx
tx id payload = record { tx_id = id; payload = payload; tx_outputs = none; tx_status = none }

-- A new game of two, a move, an unparsable payload, a `Revert` and a move out of turn.
abbrev first_block : Block
first_block = record {
  accepting_hash = 101;
  accepting_daa = 10;
  accepting_time = 7;
  associated_txs =
      tx 1 (0 ∷ 5 ∷ 11 ∷ 12 ∷ [])
      ∷ tx 2 (1 ∷ 5 ∷ 0 ∷ 0 ∷ 11 ∷ [])
      ∷ tx 3 (9 ∷ [])
      ∷ tx 4 (2 ∷ 5 ∷ [])
      ∷ tx 5 (1 ∷ 5 ∷ 0 ∷ 1 ∷ 11 ∷ [])
      ∷ [];
}

abbrev second_block : Block
second_block = record {
  accepting_hash = 102;
  accepting_daa = 11;
  accepting_time = 8;
  associated_txs = tx 6 (1 ∷ 5 ∷ 1 ∷ 1 ∷ 12 ∷ []) ∷ [];
}

abbrev md : PayloadMetadata
md = metadata first_block (tx 1 [])

abbrev handlers : List Bool
handlers = true ∷ []

abbrev engine : Engine G
engine = new

first_admits : AdmitsTxs L env Bool first_block.associated_txs
first_admits = (
  (λ action e. subst (AdmitsMessage L) (some-injective _ _ e) refl),
  (
    (λ action e. subst (AdmitsMessage L) (some-injective _ _ e) tt),
    (
      (λ action e. cc),
      ((λ action e. cc), ((λ action e. subst (AdmitsMessage L) (some-injective _ _ e) tt), tt)),
    ),
  ),
)

second_admits : AdmitsTxs L env Bool second_block.associated_txs
second_admits = ((λ action e. subst (AdmitsMessage L) (some-injective _ _ e) tt), tt)

block_accepted-reverted_example : AcceptedBlock L env handlers engine first_block
block_accepted-reverted_example =
    block_accepted-reverted L env handlers engine first_block (new-IsValid L) first_admits

start-reorg_example :
    (events : List (Event G Bool)) × (start env handlers
        (reorg (first_block ∷ second_block ∷ []) ++ exit ∷ [])
        engine
      ≡ with_events events (start env handlers (exit ∷ []) engine))
unfolding new
start-reorg_example =
    start-reorg L env handlers (first_block ∷ second_block ∷ []) (exit ∷ []) engine (new-IsValid L)
      (first_admits, (second_admits, tt))
      (refl, omega arith, (omega arith, tt), (refl, omega arith, tt, tt))

start-Ends_example : Ends L env Bool (
    start env handlers
      (blk_accepted first_block
        ∷ blk_reverted 77
        ∷ blk_reverted 101
        ∷ blk_accepted second_block
        ∷ [])
      engine)
start-Ends_example =
    start-Ends L env Bool handlers
      (blk_accepted first_block
        ∷ blk_reverted 77
        ∷ blk_reverted 101
        ∷ blk_accepted second_block
        ∷ [])
      engine (new-IsValid L) (first_admits, (second_admits, tt))

abbrev store : Store G
store = engine.store

handle_message-Handles_example :
    Handles L env Bool store 5 md
      (handle_message env store (EpisodeMessage.new_episode 5 (11 ∷ 12 ∷ [])) md handlers)
unfolding episode_id
handle_message-Handles_example =
    handle_message-Handles L env Bool store (EpisodeMessage.new_episode 5 (11 ∷ 12 ∷ [])) md
      handlers tt refl (new-IsValid L)

revert-Reverts_example :
    Reverts L env Bool (handle_message env store (EpisodeMessage.revert 5) md handlers)
revert-Reverts_example = revert-Reverts L env Bool store 5 md handlers (new-IsValid L)

-- Five episodes, two of them older than a lifetime.
abbrev aged : Engine G
aged = record {
  store = record { episodes = []; episode_creation_times = (1, 10) ∷ (2, 900000) ∷ (3, 20) ∷ [] };
  revert_map = [];
  next_filtering = 0;
}

filter_old_episodes-lookup_example :
    (lookup 3 (filter_old_episodes aged 3000000).episodes ≡ none)
    × (lookup 3 (filter_old_episodes aged 3000000).episode_creation_times ≡ none)
    × ((filter_old_episodes aged 3000000).next_filtering ≡ 3000000)
filter_old_episodes-lookup_example =
    filter_old_episodes-lookup aged 3000000 3 (refl, (refl, (refl, tt)))

-- The first block: the callbacks of a creation and of one move, and two entries to revert.
first_block_runs :
    option_map {B = ℕ × ℕ}
      (λ (r : Engine G × List (Event G Bool)). (length r.1, length r.0.revert_map))
      (block_accepted env handlers first_block engine)
    ≡ some (2, 1)
unfolding block_accepted handle_message new initialize execute
first_block_runs = refl
