-- ===== src/Engine.antt =====
-- kdapp/src/engine.rs: episodes of one type, a stack of rollback objects for each, and the
-- messages of the listener. A `Store` is the part of `Engine` that `handle_message` reads and
-- writes. The receiver is the list of the messages that it will yield; a handler's callbacks are
-- the events that a call returns, in their order.
pub mod Start
pub mod Lawful
pub mod Undo
pub mod Blocks
pub mod Reorg
pub mod Run
pub mod Filter
use kdapp.Base.{
  ℕ, Option, none, some, List, [], ◌∷◌, map, if◌then◌else◌, Map, lookup, insert, remove,
  contains_key,
}
use kdapp.Pki.{to_message, verify_signature}
use kdapp.Episode.{
  Episode, EpisodeError, invalid_signature, delete_episode, Result, ok, err, PayloadMetadata,
}
use kdapp.Message.{EpisodeMessage, Env}

-- The head of the stack is the end of the source's vector.
pub record EpisodeWrapper (G : Episode) : Type 0 where
  pub episode : G.State
  pub rollback_stack : List G.CommandRollback

pub record Store (G : Episode) : Type 0 where
  pub episodes : Map (EpisodeWrapper G)
  pub episode_creation_times : Map ℕ

-- The callbacks of `EpisodeEventHandler`, with the handler that is called.
pub data Event (G : Episode) (H : Type 0) : Type 0 where
  on_initialize : H → ℕ → G.State → Event G H
  on_command : H → ℕ → G.State → G.Command → Option ℕ → PayloadMetadata → Event G H
  on_rollback : H → ℕ → G.State → Event G H

pub record Handled (G : Episode) (H : Type 0) : Type 0 where
  pub store : Store G
  pub events : List (Event G H)
  pub revert_id : Option (ℕ × PayloadMetadata)

abbrev pub Outcome : Episode → Type 0
Outcome G = Result (EpisodeError G.CommandError) (Unit {0})

module _ {G : Episode} where
  unfoldable pub initialize : List ℕ → PayloadMetadata → EpisodeWrapper G
  initialize participants md = record {
    episode = G.initialize participants md;
    rollback_stack = [];
  }

  -- `let rollback = G::execute(..)?; self.rollback_stack.push(rollback); Ok(())`
  abbrev pub push_rollback :
      List G.CommandRollback
      → Option (G.State × Result (EpisodeError G.CommandError) G.CommandRollback)
      → Option (EpisodeWrapper G × Outcome G)
  push_rollback stack none = none
  push_rollback stack (some (s, ok r)) =
      some (record { episode = s; rollback_stack = r ∷ stack }, ok tt)
  push_rollback stack (some (s, err e)) =
      some (record { episode = s; rollback_stack = stack }, err e)

  unfoldable pub execute_unsigned :
      EpisodeWrapper G → G.Command → PayloadMetadata → Option (EpisodeWrapper G × Outcome G)
  execute_unsigned w cmd md = push_rollback w.rollback_stack (G.execute w.episode cmd none md)

  unfoldable pub execute_signed :
      Env G
      → EpisodeWrapper G
      → G.Command
      → ℕ
      → List ℕ
      → PayloadMetadata
      → Option (EpisodeWrapper G × Outcome G)
  unfolding verify_signature to_message
  execute_signed env w cmd pk sig md =
      if verify_signature env.secp pk (to_message env.secp (G.to_vec cmd)) sig
      then push_rollback w.rollback_stack (G.execute w.episode cmd (some pk) md)
      else some (w, err invalid_signature)

  -- That the episode's own `rollback` fails is only logged.
  abbrev pub pop_rollback :
      EpisodeWrapper G → List G.CommandRollback → Option (EpisodeWrapper G × Outcome G)
  pop_rollback w [] = some (w, err delete_episode)
  pop_rollback w (r ∷ rest) = elim (G.rollback w.episode r) [
    | none ↦ none
    | some (s, _) ↦ some (record { episode = s; rollback_stack = rest }, ok tt)
  ]

  unfoldable pub rollback : EpisodeWrapper G → Option (EpisodeWrapper G × Outcome G)
  rollback w = pop_rollback w w.rollback_stack

  abbrev pub set_wrapper : Store G → ℕ → EpisodeWrapper G → Store G
  set_wrapper st i w = record st { episodes = insert i w st.episodes }

  abbrev pub remove_entry : Store G → ℕ → Store G
  remove_entry st i = record {
    episodes = remove i st.episodes;
    episode_creation_times = remove i st.episode_creation_times;
  }

  module _ {H : Type 0} where
    abbrev pub nothing : Store G → Option (Handled G H)
    nothing st = some (record { store = st; events = []; revert_id = none })

    new_episode : Store G → ℕ → List ℕ → PayloadMetadata → List H → Option (Handled G H)
    unfolding initialize
    new_episode st i participants md handlers =
        let w = initialize participants md in
        if contains_key i st.episodes
        then nothing st
        else some (record {
          store = record {
            episodes = insert i w st.episodes;
            episode_creation_times = insert i md.accepting_daa st.episode_creation_times;
          };
          events = map (λ h. on_initialize h i w.episode) handlers;
          revert_id = some (i, md);
        })

    -- The tail that the two command arms share: the `match` on the wrapper's result.
    abbrev after_command :
        Store G
        → ℕ
        → G.Command
        → Option ℕ
        → PayloadMetadata
        → List H
        → Option (EpisodeWrapper G × Outcome G)
        → Option (Handled G H)
    after_command st i cmd auth md handlers none = none
    after_command st i cmd auth md handlers (some (w, ok _)) = some (record {
      store = set_wrapper st i w;
      events = map (λ h. on_command h i w.episode cmd auth md) handlers;
      revert_id = some (i, md);
    })
    after_command st i cmd auth md handlers (some (w, err _)) = nothing (set_wrapper st i w)

    abbrev after_rollback :
        Store G → ℕ → List H → Option (EpisodeWrapper G × Outcome G) → Option (Handled G H)
    after_rollback st i handlers none = none
    after_rollback st i handlers (some (w, result)) = some (record {
      store = elim result [ err delete_episode ↦ remove_entry st i | _ ↦ set_wrapper st i w ];
      events = map (λ h. on_rollback h i w.episode) handlers;
      revert_id = none;
    })

    unfoldable pub handle_message :
        Env G → Store G → EpisodeMessage G → PayloadMetadata → List H → Option (Handled G H)
    unfolding new_episode execute_signed execute_unsigned rollback
    handle_message env st (EpisodeMessage.new_episode i participants) md handlers =
        new_episode st i participants md handlers
    handle_message env st (EpisodeMessage.signed_command i cmd pk sig) md handlers =
        elim (lookup i st.episodes) [
          | none ↦ nothing st
          | some w ↦
              after_command st i cmd (some pk) md handlers (execute_signed env w cmd pk sig md)
        ]
    handle_message env st (EpisodeMessage.unsigned_command i cmd) md handlers =
        elim (lookup i st.episodes) [
          | none ↦ nothing st
          | some w ↦ after_command st i cmd none md handlers (execute_unsigned w cmd md)
        ]
    handle_message env st (EpisodeMessage.revert i) md handlers = elim (lookup i st.episodes) [
      | none ↦ nothing st
      | some w ↦ after_rollback st i handlers (rollback w)
    ]
