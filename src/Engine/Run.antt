-- ===== src/Engine/Run.antt =====
-- The loop of `start` as a whole: it ends without a panic, whatever the listener sends.
use kdapp.Base.{
  ◌≡◌, refl, none, some, Option, List, [], ◌∷◌, ◌++◌, reverse, ℕ, inl, inr, Option-cases, lookup,
  remove,
}
use kdapp.Episode.{Episode, PayloadMetadata}
use kdapp.Message.{EpisodeMessage, Env, EngineMsg, blk_accepted, blk_reverted, exit}
use kdapp.Engine.{Store, Event, Handled, handle_message}
use kdapp.Engine.Start.{Engine, revert_each, block_reverted, new, start, with_events}
use kdapp.Engine.Lawful.{Lawful, IsValid}
use kdapp.Engine.Undo.{Reverts, revert-Reverts}
use kdapp.Engine.Blocks.{AdmitsTxs}
use kdapp.Engine.Reorg.{block_accepted-reverted}

pub new-IsValid : {G : Episode} (L : Lawful G) → IsValid L (new {G = G}).store
unfolding new
new-IsValid L = record { wrappers = λ i w e. cc; timed = λ i. refl }

module _ {G : Episode} (L : Lawful G) (env : Env G) (H : Type 0) where
  -- The participants of every new episode that a block carries are such as the episode admits.
  abbrev pub AdmitsMsgs : List EngineMsg → Type 0
  AdmitsMsgs [] = Unit
  AdmitsMsgs (blk_accepted b ∷ msgs) = AdmitsTxs L env H b.associated_txs × AdmitsMsgs msgs
  AdmitsMsgs (blk_reverted _ ∷ msgs) = AdmitsMsgs msgs
  AdmitsMsgs (exit ∷ msgs) = Unit

  abbrev StoreEnds : Option (Store G × List (Event G H)) → Type 0
  StoreEnds none = ⊥
  StoreEnds (some (st, _)) = IsValid L st

  abbrev pub Ends : Option (Engine G × List (Event G H)) → Type 0
  Ends none = ⊥
  Ends (some (e, _)) = IsValid L e.store

  revert_each-StoreEnds :
      (hash : ℕ) (handlers : List H) (entries : List (ℕ × PayloadMetadata)) (st : Store G)
      (events : List (Event G H))
      → IsValid L st
      → StoreEnds (revert_each env hash handlers entries st events)
  unfolding revert_each
  revert_each-StoreEnds hash handlers [] st events v = v
  revert_each-StoreEnds hash handlers ((i, md) ∷ rest) st events v =
      let md' : PayloadMetadata = record md { accepting_hash = hash } in
      go (handle_message env st (EpisodeMessage.revert i) md' handlers) refl
        (revert-Reverts L env H st i md' handlers v)
        (λ h v'. revert_each-StoreEnds hash handlers rest h.store (events ++ h.events) v')
    where
      go :
          (o : Option (Handled G H))
          → handle_message env st
              (EpisodeMessage.revert i)
              (record md { accepting_hash = hash })
              handlers
            ≡ o
          → Reverts L env H o
          → ((h : Handled G H)
              → IsValid L h.store
              → StoreEnds (revert_each env hash handlers rest h.store (events ++ h.events)))
          → StoreEnds (revert_each env hash handlers ((i, md) ∷ rest) st events)
      go none p r ih = absurd r
      go (some h) p r ih = rw (p, revert_each) (rw (r.1, revert_each) (ih h r.0))

  block_reverted-Ends :
      (handlers : List H) (hash : ℕ) (e : Engine G)
      → IsValid L e.store
      → Ends (block_reverted env handlers hash e)
  unfolding block_reverted
  block_reverted-Ends handlers hash e v = elim (Option-cases (lookup hash e.revert_map)) [
    | inl unknown ↦ rw (unknown, block_reverted) v
    | inr (entry, known) ↦
        rw (known, block_reverted)
          (go entry (revert_each env hash handlers (reverse entry) e.store []) refl
            (revert_each-StoreEnds hash handlers (reverse entry) e.store [] v))
  ]
    where
      go :
          (entry : List (ℕ × PayloadMetadata)) (o : Option (Store G × List (Event G H)))
          → revert_each env hash handlers (reverse entry) e.store [] ≡ o
          → StoreEnds o
          → Ends (elim (revert_each env hash handlers (reverse entry) e.store []) [
            | none ↦ none
            | some (st, events) ↦
                some (record e { store = st; revert_map = remove hash e.revert_map }, events)
          ])
      go entry none p r = absurd r
      go entry (some (st, events)) p r = rw p r

  with_events-Ends :
      (events : List (Event G H)) (o : Option (Engine G × List (Event G H)))
      → Ends o
      → Ends (with_events events o)
  with_events-Ends events none h = absurd h
  with_events-Ends events (some (e, later)) h = h

  -- For any sequence of messages, reverts of unknown blocks and unparsable payloads included:
  -- the loop ends without a panic, and leaves a valid store.
  pub start-Ends :
      (handlers : List H) (msgs : List EngineMsg) (e : Engine G)
      → IsValid L e.store
      → AdmitsMsgs msgs
      → Ends (start env handlers msgs e)
  unfolding start
  start-Ends handlers [] e v admits = v
  start-Ends handlers (exit ∷ msgs) e v admits = v
  start-Ends handlers (blk_accepted b ∷ msgs) e v admits =
      let first = block_accepted-reverted L env handlers e b v admits.0 in
      rw (first.accepts, start)
        (with_events-Ends first.events _
          (start-Ends handlers msgs first.engine first.valid admits.1))
  start-Ends handlers (blk_reverted hash ∷ msgs) e v admits =
      go (block_reverted env handlers hash e) refl (block_reverted-Ends handlers hash e v)
        (λ e' v'. start-Ends handlers msgs e' v' admits)
    where
      go :
          (o : Option (Engine G × List (Event G H)))
          → block_reverted env handlers hash e ≡ o
          → Ends o
          → ((e' : Engine G) → IsValid L e'.store → Ends (start env handlers msgs e'))
          → Ends (start env handlers (blk_reverted hash ∷ msgs) e)
      go none p r ih = absurd r
      go (some (e', events)) p r ih = rw (p, start) (with_events-Ends events _ (ih e' r))
