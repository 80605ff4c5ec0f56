-- ===== src/Engine/Blocks.antt =====
-- Whole blocks: what `start` does for `BlkAccepted` and, after it, for `BlkReverted`.
use mathlib.Core.List.{reverse-append}
use mathlib.Core.Option.{some-injective}
use kdapp.Base.{
  ℕ, ◌≡◌, subst, inl, inr, Option, none, some, List, [], ◌∷◌, ◌++◌, reverse, Option-cases,
  Bool-cases, ltb, u64_mod, ◌%◌, ◌+◌,
}
use kdapp.Episode.{Episode, PayloadMetadata}
use kdapp.Message.{EpisodeMessage, AssociatedTx, Block, Env, episode_id}
use kdapp.Engine.{Store, Event, Handled, handle_message, remove_entry}
use kdapp.Engine.Start.{
  Engine, Accepted, metadata, push_revert, skip_revert, parse_action, next_tx, accept_txs,
  revert_each, filter_old_episodes, remove_all, remove_ids, sample_removal_time,
}
use kdapp.Engine.Lawful.{Lawful, IsValid, AdmitsMessage, remove_entry-IsValid}
use kdapp.Engine.Undo.{IsForward, Undone, Recorded, Handles, handle_message-Handles}

module _ {G : Episode} (L : Lawful G) where
  remove_all-IsValid : (ids : List ℕ) (st : Store G) → IsValid L st → IsValid L (remove_all ids st)
  unfolding remove_all
  remove_all-IsValid [] st v = v
  remove_all-IsValid (i ∷ ids) st v =
      remove_all-IsValid ids (remove_entry st i) (remove_entry-IsValid L st i v)

  pub filter_old_episodes-IsValid :
      (e : Engine G) (daa : ℕ) → IsValid L e.store → IsValid L (filter_old_episodes e daa).store
  unfolding filter_old_episodes
  filter_old_episodes-IsValid e daa v =
      elim (Bool-cases (ltb ((e.next_filtering + sample_removal_time) % u64_mod) daa)) [
        | inl due ↦
            rw (due, filter_old_episodes)
              (remove_all-IsValid (remove_ids daa e.episode_creation_times) e.store v)
        | inr early ↦ rw (early, filter_old_episodes) v
      ]

skip_revert-IsForward :
    {G : Episode} (parsed : Option (EpisodeMessage G)) (action : EpisodeMessage G)
    → skip_revert parsed ≡ some action
    → IsForward action
skip_revert-IsForward none action e = cc
skip_revert-IsForward (some (EpisodeMessage.new_episode i ps)) action e =
    subst IsForward (some-injective _ _ e) tt
skip_revert-IsForward (some (EpisodeMessage.signed_command i c pk sig)) action e =
    subst IsForward (some-injective _ _ e) tt
skip_revert-IsForward (some (EpisodeMessage.unsigned_command i c)) action e =
    subst IsForward (some-injective _ _ e) tt
skip_revert-IsForward (some (EpisodeMessage.revert i)) action e = cc

module _ {G : Episode} (L : Lawful G) (env : Env G) (H : Type 0) where
  abbrev pub AdmitsTx : AssociatedTx → Type 0
  AdmitsTx tx =
      (action : EpisodeMessage G) → parse_action env tx ≡ some action → AdmitsMessage L action

  abbrev pub AdmitsTxs : List AssociatedTx → Type 0
  AdmitsTxs [] = Unit
  AdmitsTxs (tx ∷ txs) = AdmitsTx tx × AdmitsTxs txs

  -- Reverting the entries, the newest first, leads from the store `after` to `before`.
  abbrev pub UndoesAll : Store G → Store G → List (ℕ × PayloadMetadata) → Type 0
  UndoesAll before after entries =
      (hash : ℕ) (handlers : List H) (events : List (Event G H))
      → (later : List (Event G H)) × (revert_each env hash handlers entries after events
          ≡ some (before, later))

  undo_first :
      (before middle after : Store G) (r : ℕ × PayloadMetadata)
      (entries : List (ℕ × PayloadMetadata))
      → Undone L env H middle after r.0
      → UndoesAll before middle entries
      → UndoesAll before after (r ∷ entries)
  unfolding revert_each
  undo_first before middle after (i, md) entries first rest hash handlers events =
      let (ev, p) = first (record md { accepting_hash = hash }) handlers in
      let (later, q) = rest hash handlers (events ++ ev) in (later, rw (p, revert_each) q)

  abbrev pub Accepts : Store G → Option (Accepted G H) → Type 0
  Accepts base none = ⊥
  Accepts base (some acc) = IsValid L acc.store × UndoesAll base acc.store (reverse acc.revert_vec)

  -- The entry of one message that the engine handles, on top of the entries so far.
  push_revert-UndoesAll :
      (base middle after : Store G) (entries : List (ℕ × PayloadMetadata)) (i : ℕ)
      (md : PayloadMetadata) (r : Option (ℕ × PayloadMetadata))
      → UndoesAll base middle (reverse entries)
      → Recorded L env H middle after i md r
      → UndoesAll base after (reverse (push_revert entries r))
  push_revert-UndoesAll base middle after entries i md none undo same = rw same undo
  push_revert-UndoesAll base middle after entries i md (some r) undo (undone, e) =
      rw (reverse-append entries (r ∷ []))
        (undo_first base middle after r (reverse entries) (rw e undone) undo)

  next_tx-Accepts :
      (base : Store G) (rest : Accepted G H → Option (Accepted G H)) (acc : Accepted G H) (i : ℕ)
      (md : PayloadMetadata) (o : Option (Handled G H))
      → UndoesAll base acc.store (reverse acc.revert_vec)
      → Handles L env H acc.store i md o
      → ((acc' : Accepted G H)
          → IsValid L acc'.store
          → UndoesAll base acc'.store (reverse acc'.revert_vec)
          → Accepts base (rest acc'))
      → Accepts base (next_tx rest acc o)
  next_tx-Accepts base rest acc i md none undo handled go = absurd handled
  next_tx-Accepts base rest acc i md (some h) undo handled go =
      go _ handled.0 (
        push_revert-UndoesAll base acc.store h.store acc.revert_vec i md h.revert_id undo handled.1)

  pub accept_txs-Accepts :
      (b : Block) (handlers : List H) (txs : List AssociatedTx) (base : Store G)
      (acc : Accepted G H)
      → AdmitsTxs txs
      → IsValid L acc.store
      → UndoesAll base acc.store (reverse acc.revert_vec)
      → Accepts base (accept_txs env b handlers txs acc)
  unfolding accept_txs
  accept_txs-Accepts b handlers [] base acc admits v undo = (v, undo)
  accept_txs-Accepts b handlers (tx ∷ txs) base acc admits v undo =
      elim (Option-cases (parse_action env tx)) [
        | inl skipped ↦
            rw (skipped, accept_txs) (accept_txs-Accepts b handlers txs base acc admits.1 v undo)
        | inr (action, parsed) ↦
            rw (parsed, accept_txs)
              (next_tx-Accepts base (accept_txs env b handlers txs) acc (episode_id action)
                (metadata b tx) (handle_message env acc.store action (metadata b tx) handlers) undo
                (handle_message-Handles L env H acc.store action (metadata b tx) handlers
                  (skip_revert-IsForward (env.from_slice tx.payload) action parsed)
                  (admits.0 action parsed) v)
                (λ acc' v' undo'. accept_txs-Accepts b handlers txs base acc' admits.1 v' undo'))
      ]
