-- ===== src/Engine/Start.antt =====
-- kdapp/src/engine.rs: `Engine::new`, `Engine::start` and `Engine::filter_old_episodes`.
use kdapp.Base.{
  ℕ, ◌+◌, ◌-◌, ◌%◌, Option, none, some, List, [], ◌∷◌, ◌++◌, reverse, ltb, if◌then◌else◌, Map,
  lookup, insert, remove, push_back, u64_mod,
}
use kdapp.Episode.{Episode, PayloadMetadata}
use kdapp.Message.{
  EpisodeMessage, AssociatedTx, Block, EngineMsg, blk_accepted, blk_reverted, exit, Env,
}
use kdapp.Engine.{Store, Event, Handled, handle_message, remove_entry}

abbrev pub episode_lifetime : ℕ
episode_lifetime = 2592000

abbrev pub sample_removal_time : ℕ
sample_removal_time = 432000

pub record Engine (G : Episode) : Type 0 where
  pub store : Store G
  pub open store use *
  pub revert_map : Map (List (ℕ × PayloadMetadata))
  pub next_filtering : ℕ

-- The variables of the loop over a block's transactions.
pub record Accepted (G : Episode) (H : Type 0) : Type 0 where
  pub store : Store G
  pub events : List (Event G H)
  pub revert_vec : List (ℕ × PayloadMetadata)

abbrev pub metadata : Block → AssociatedTx → PayloadMetadata
metadata b tx = record {
  accepting_hash = b.accepting_hash;
  accepting_daa = b.accepting_daa;
  accepting_time = b.accepting_time;
  tx_id = tx.tx_id;
  tx_outputs = tx.tx_outputs;
  tx_status = tx.tx_status;
}

abbrev pub push_revert :
    List (ℕ × PayloadMetadata) → Option (ℕ × PayloadMetadata) → List (ℕ × PayloadMetadata)
push_revert vec none = vec
push_revert vec (some r) = push_back vec r

-- The ids that `filter_old_episodes` collects.
unfoldable pub remove_ids : ℕ → Map ℕ → List ℕ
remove_ids daa_score [] = []
remove_ids daa_score ((i, creation_time) ∷ times) =
    let rest = remove_ids daa_score times in
    if ltb creation_time (daa_score - episode_lifetime) then i ∷ rest else rest

module _ {G : Episode} where
  -- A payload that does not parse, and a `Revert` that a transaction carries, are skipped.
  abbrev pub skip_revert : Option (EpisodeMessage G) → Option (EpisodeMessage G)
  skip_revert none = none
  skip_revert (some (EpisodeMessage.revert _)) = none
  skip_revert (some action) = some action

  abbrev pub parse_action : Env G → AssociatedTx → Option (EpisodeMessage G)
  parse_action env tx = skip_revert (env.from_slice tx.payload)

  unfoldable pub new : Engine G
  new = record {
    store = record { episodes = []; episode_creation_times = [] };
    revert_map = [];
    next_filtering = 0;
  }

  unfoldable pub remove_all : List ℕ → Store G → Store G
  remove_all [] st = st
  remove_all (i ∷ ids) st = remove_all ids (remove_entry st i)

  -- The sum is one of 64-bit words.
  unfoldable pub filter_old_episodes : Engine G → ℕ → Engine G
  unfolding remove_ids remove_all
  filter_old_episodes e daa_score =
      if ltb ((e.next_filtering + sample_removal_time) % u64_mod) daa_score
      then record e {
        store = remove_all (remove_ids daa_score e.episode_creation_times) e.store;
        next_filtering = daa_score;
      }
      else e

  module _ {H : Type 0} where
    -- What the loop over a block's transactions goes on with, after one of them.
    abbrev pub next_tx :
        (Accepted G H → Option (Accepted G H))
        → Accepted G H
        → Option (Handled G H)
        → Option (Accepted G H)
    next_tx rest acc none = none
    next_tx rest acc (some h) = rest (record {
      store = h.store;
      events = acc.events ++ h.events;
      revert_vec = push_revert acc.revert_vec h.revert_id;
    })

    unfoldable pub accept_txs :
        Env G → Block → List H → List AssociatedTx → Accepted G H → Option (Accepted G H)
    accept_txs env b handlers [] acc = some acc
    accept_txs env b handlers (tx ∷ txs) acc = elim (parse_action env tx) [
      | none ↦ accept_txs env b handlers txs acc
      | some action ↦
          next_tx (accept_txs env b handlers txs) acc
            (handle_message env acc.store action (metadata b tx) handlers)
    ]

    -- The loop over a reverted block's entries, the newest first. The `assert_eq!` panics where
    -- `handle_message` returns an entry.
    unfoldable pub revert_each :
        Env G
        → ℕ
        → List H
        → List (ℕ × PayloadMetadata)
        → Store G
        → List (Event G H)
        → Option (Store G × List (Event G H))
    revert_each env hash handlers [] st events = some (st, events)
    revert_each env hash handlers ((i, md) ∷ rest) st events =
        elim (handle_message env st (EpisodeMessage.revert i) (record md { accepting_hash = hash })
          handlers) [
            | none ↦ none
            | some h ↦ elim h.revert_id [
              | some _ ↦ none
              | none ↦ revert_each env hash handlers rest h.store (events ++ h.events)
            ]
          ]

    unfoldable pub block_accepted :
        Env G → List H → Block → Engine G → Option (Engine G × List (Event G H))
    unfolding accept_txs filter_old_episodes
    block_accepted env handlers b e =
        let filtered = filter_old_episodes e b.accepting_daa in
        elim (accept_txs env b handlers b.associated_txs
          (record { store = filtered.store; events = []; revert_vec = [] })) [
            | none ↦ none
            | some acc ↦ some (
              record filtered {
                store = acc.store;
                revert_map = insert b.accepting_hash acc.revert_vec e.revert_map;
              },
              acc.events,
            )
          ]

    unfoldable pub block_reverted :
        Env G → List H → ℕ → Engine G → Option (Engine G × List (Event G H))
    unfolding revert_each
    block_reverted env handlers hash e = elim (lookup hash e.revert_map) [
      | none ↦ some (e, [])
      | some entry ↦ elim (revert_each env hash handlers (reverse entry) e.store []) [
        | none ↦ none
        | some (st, events) ↦
            some (record e { store = st; revert_map = remove hash e.revert_map }, events)
      ]
    ]

    -- The events of a message, before those of the messages that follow it.
    abbrev pub with_events :
        List (Event G H)
        → Option (Engine G × List (Event G H))
        → Option (Engine G × List (Event G H))
    with_events events none = none
    with_events events (some (last, later)) = some (last, events ++ later)

    -- The loop of `start`: it ends at `Exit`, or when the channel is closed.
    unfoldable pub start :
        Env G → List H → List EngineMsg → Engine G → Option (Engine G × List (Event G H))
    start env handlers [] e = some (e, [])
    start env handlers (exit ∷ msgs) e = some (e, [])
    start env handlers (blk_accepted b ∷ msgs) e = elim (block_accepted env handlers b e) [
      | none ↦ none
      | some (e', events) ↦ with_events events (start env handlers msgs e')
    ]
    start env handlers (blk_reverted hash ∷ msgs) e = elim (block_reverted env handlers hash e) [
      | none ↦ none
      | some (e', events) ↦ with_events events (start env handlers msgs e')
    ]
