-- ===== src/Engine/Undo.antt =====
-- What one message does to the store of a lawful episode type: a message that the engine
-- records can be undone by a `Revert`, and one that it does not record changes nothing.
use kdapp.Base.{
  ℕ, ◌≡◌, refl, sym, ap, ap₂, ◌∙◌, inl, inr, true, Option, none, some, List, [], ◌∷◌, map,
  Bool-cases, Option-cases, Map, lookup, insert, contains_key, eq_none-contains_key,
  lookup-insert_self, remove-insert, insert-insert, insert_same,
}
use kdapp.Pki.{verify_signature, to_message}
use kdapp.Episode.{Episode, EpisodeError, Result, ok, err, PayloadMetadata}
use kdapp.Message.{EpisodeMessage, Env, episode_id}
use kdapp.Engine.{
  EpisodeWrapper, Store, Handled, Event, on_rollback, handle_message, after_command, push_rollback,
  after_rollback, pop_rollback, rollback, set_wrapper, execute_signed, new_episode, initialize,
}
use kdapp.Engine.Lawful.{
  Lawful, IsValid, insert-IsValid, AdmitsMessage, WrapperIsValid, Undoable, set_wrapper-IsValid,
  remove_entry-IsValid,
}

-- A message that is not recorded, with its callbacks.
abbrev pub quiet : {G : Episode} {H : Type 0} → Store G → List (Event G H) → Option (Handled G H)
quiet st events = some (record { store = st; events = events; revert_id = none })

abbrev pub IsForward : {G : Episode} → EpisodeMessage G → Type 0
IsForward (EpisodeMessage.revert _) = ⊥
IsForward _ = Unit

module _ {G : Episode} (L : Lawful G) (env : Env G) (H : Type 0) where
  -- A `Revert` of the id leads from the store `after` to the store `before`.
  abbrev pub Undone : Store G → Store G → ℕ → Type 0
  Undone before after i =
      (md : PayloadMetadata) (handlers : List H)
      → (events : List (Event G H)) × (handle_message env after (EpisodeMessage.revert i) md
            handlers
          ≡ quiet before events)

  abbrev pub Recorded :
      Store G → Store G → ℕ → PayloadMetadata → Option (ℕ × PayloadMetadata) → Type 0
  Recorded before after i md none = after ≡ before
  Recorded before after i md (some r) = Undone before after i × (r ≡ (i, md))

  abbrev pub Handles : Store G → ℕ → PayloadMetadata → Option (Handled G H) → Type 0
  Handles st i md none = ⊥
  Handles st i md (some h) = IsValid L h.store × Recorded st h.store i md h.revert_id

  -- A `Revert` after a command was written: the wrapper is back, and so is the whole store.
  revert_recorded :
      (st : Store G) (i : ℕ) (w : EpisodeWrapper G) (s : G.State) (r : G.CommandRollback)
      (md : PayloadMetadata) (handlers : List H)
      → lookup i st.episodes ≡ some w
      → G.rollback s r ≡ some (w.episode, true)
      → handle_message env
          (set_wrapper st i (record { episode = s; rollback_stack = r ∷ w.rollback_stack }))
          (EpisodeMessage.revert i)
          md
          handlers
        ≡ quiet st (map (λ h. on_rollback h i w.episode) handlers)
  unfolding handle_message
  revert_recorded st i w s r md handlers found undo =
      rw (lookup-insert_self i _ st.episodes, handle_message)
        (rw (undo, after_rollback, rollback, pop_rollback)
          (ap
            (λ (m : Map (EpisodeWrapper G)).
              quiet (record st { episodes = m }) (map (λ h. on_rollback h i w.episode) handlers))
            (insert-insert i _ w st.episodes ∙ insert_same i w st.episodes found)))

  -- A `Revert` after a creation: the episode is deleted.
  revert_created :
      (st : Store G) (i : ℕ) (s : G.State) (time : ℕ) (md : PayloadMetadata) (handlers : List H)
      → lookup i st.episodes ≡ none
      → lookup i st.episode_creation_times ≡ none
      → handle_message env
          (record {
            episodes = insert i (record { episode = s; rollback_stack = [] }) st.episodes;
            episode_creation_times = insert i time st.episode_creation_times;
          })
          (EpisodeMessage.revert i)
          md
          handlers
        ≡ quiet st (map (λ h. on_rollback h i s) handlers)
  unfolding handle_message
  revert_created st i s time md handlers absent untimed =
      rw (lookup-insert_self i _ st.episodes, handle_message)
        (ap₂
          (λ (m : Map (EpisodeWrapper G)) (times : Map ℕ).
            quiet (record { episodes = m; episode_creation_times = times })
              (map (λ h. on_rollback h i s) handlers))
          (remove-insert i (record { episode = s; rollback_stack = [] }) st.episodes absent)
          (remove-insert i time st.episode_creation_times untimed))

  -- The two command arms of `handle_message`.
  command-Handles :
      (st : Store G) (i : ℕ) (w : EpisodeWrapper G) (cmd : G.Command) (auth : Option ℕ)
      (md : PayloadMetadata) (handlers : List H)
      (run : Option (G.State × Result (EpisodeError G.CommandError) G.CommandRollback))
      → IsValid L st
      → lookup i st.episodes ≡ some w
      → G.execute w.episode cmd auth md ≡ run
      → Handles st i md
          (after_command st i cmd auth md handlers (push_rollback w.rollback_stack run))
  unfolding handle_message
  command-Handles st i w cmd auth md handlers none v found e =
      L.execute_total w.episode cmd auth md (v.wrappers i w found).0 e
  command-Handles st i w cmd auth md handlers (some (s, err x)) v found e =
      let same : s ≡ w.episode =
        L.execute_failed w.episode s cmd auth md (v.wrappers i w found).0 e in
      rw same (rw (insert_same i w st.episodes found) (v, refl))
  command-Handles st i w cmd auth md handlers (some (s, ok r)) v found e =
      let old : WrapperIsValid L w = v.wrappers i w found in
      (
        set_wrapper-IsValid L st i w _ v found (
          L.execute-Inv w.episode s cmd auth md r old.0 e,
          (w.episode, L.execute-rollback w.episode s cmd auth md r old.0 e, old.0, old.1),
        ),
        (
          λ md' handlers'. (
            map (λ h. on_rollback h i w.episode) handlers',
            revert_recorded st i w s r md' handlers' found
                (L.execute-rollback w.episode s cmd auth md r old.0 e),
          ),
          refl,
        ),
      )

  found-Handles :
      (st : Store G) (i : ℕ) (cmd : G.Command) (auth : Option ℕ) (md : PayloadMetadata)
      (handlers : List H) (w : EpisodeWrapper G)
      → IsValid L st
      → lookup i st.episodes ≡ some w
      → Handles st i md (
          after_command st i cmd auth md handlers
            (push_rollback w.rollback_stack (G.execute w.episode cmd auth md)))
  found-Handles st i cmd auth md handlers w v found =
      command-Handles st i w cmd auth md handlers (G.execute w.episode cmd auth md) v found refl

  new_episode-Handles :
      (st : Store G) (i : ℕ) (ps : List ℕ) (md : PayloadMetadata) (handlers : List H)
      → IsValid L st
      → L.Admits ps
      → Handles st i md (new_episode st i ps md handlers)
  unfolding new_episode initialize
  new_episode-Handles st i ps md handlers v admits =
      elim (Bool-cases (contains_key i st.episodes)) [
        | inl present ↦ rw (present, new_episode) (v, refl)
        | inr absent ↦
            rw (absent, new_episode)
              (
                insert-IsValid L st i md.accepting_daa _ v (L.initialize-Inv ps md admits, tt),
                ((
                  λ md' handlers'. (
                    map (λ h. on_rollback h i (G.initialize ps md)) handlers',
                    revert_created st i _ md.accepting_daa md' handlers'
                        (eq_none-contains_key i st.episodes absent)
                        (eq_none-contains_key i st.episode_creation_times
                          (sym (v.timed i) ∙ absent)),
                  ),
                  refl,
                )),
              )
      ]

  -- Every message but `Revert`, on a valid store, where a new episode has participants that the
  -- lawful episode type admits: the engine does not panic, the store stays valid, and either the
  -- message is recorded under its own id and metadata, and a `Revert` of the id restores the store
  -- that was there before it, or it is not recorded and the store is as it was.
  pub handle_message-Handles :
      (st : Store G) (action : EpisodeMessage G) (md : PayloadMetadata) (handlers : List H)
      → IsForward action
      → AdmitsMessage L action
      → IsValid L st
      → Handles st (episode_id action) md (handle_message env st action md handlers)
  unfolding handle_message episode_id
  handle_message-Handles st (EpisodeMessage.new_episode i ps) md handlers f admits v =
      new_episode-Handles st i ps md handlers v admits
  handle_message-Handles st (EpisodeMessage.signed_command i cmd pk sig) md handlers f admits v =
      elim (Option-cases (lookup i st.episodes)) [
        | inl absent ↦ rw (absent, handle_message) (v, refl)
        | inr (w, found) ↦
            rw (found, handle_message)
              (elim (Bool-cases
                (verify_signature env.secp pk (to_message env.secp (G.to_vec cmd)) sig)) [
                  | inl verified ↦
                      rw (verified, execute_signed)
                        (found-Handles st i cmd (some pk) md handlers w v found)
                  | inr forged ↦
                      rw (forged, execute_signed) (rw (insert_same i w st.episodes found) (v, refl))
                ])
      ]
  handle_message-Handles st (EpisodeMessage.unsigned_command i cmd) md handlers f admits v =
      elim (Option-cases (lookup i st.episodes)) [
        | inl absent ↦ rw (absent, handle_message) (v, refl)
        | inr (w, found) ↦
            rw (found, handle_message) (found-Handles st i cmd none md handlers w v found)
      ]
  handle_message-Handles st (EpisodeMessage.revert i) md handlers f admits v = absurd f

  abbrev pub Reverts : Option (Handled G H) → Type 0
  Reverts none = ⊥
  Reverts (some h) = IsValid L h.store × (h.revert_id ≡ none)

  popped-Reverts :
      (st : Store G) (i : ℕ) (w : EpisodeWrapper G) (handlers : List H)
      (stack : List G.CommandRollback)
      → IsValid L st
      → lookup i st.episodes ≡ some w
      → Undoable L w.episode stack
      → Reverts (after_rollback st i handlers (pop_rollback w stack))
  popped-Reverts st i w handlers [] v found u = (remove_entry-IsValid L st i v, refl)
  popped-Reverts st i w handlers (r ∷ rest) v found (s, undo, inv, below) =
      rw (undo, pop_rollback) (set_wrapper-IsValid L st i w _ v found (inv, below), refl)

  -- A `Revert` of any id, known or not: it does not panic, it keeps the store valid, and it
  -- returns nothing, as `assert_eq!` in `start` demands.
  pub revert-Reverts :
      (st : Store G) (i : ℕ) (md : PayloadMetadata) (handlers : List H)
      → IsValid L st
      → Reverts (handle_message env st (EpisodeMessage.revert i) md handlers)
  unfolding handle_message
  revert-Reverts st i md handlers v = elim (Option-cases (lookup i st.episodes)) [
    | inl absent ↦ rw (absent, handle_message) (v, refl)
    | inr (w, found) ↦
        rw (found, handle_message)
          (popped-Reverts st i w handlers w.rollback_stack v found (v.wrappers i w found).1)
  ]
