-- ===== src/Engine/Reorg.antt =====
-- Reorganisations: blocks that `start` accepts and then reverts, the newest first.
use mathlib.Core.List.{append_assoc}
use kdapp.Base.{
  ltb, false, ℕ, ◌≡◌, ◌≢◌, refl, sym, ap, ◌∙◌, ◌≤◌, ◌+◌, ◌%◌, none, some, Option, List, [], ◌∷◌,
  ◌++◌, reverse, lookup, insert, Map, remove, remove-insert_any, remove_fresh, lookup-insert_ne,
  lookup-insert_self, u64_mod, arith,
}
use kdapp.Episode.{Episode, PayloadMetadata}
use kdapp.Message.{Block, Env, EngineMsg, blk_accepted, blk_reverted}
use kdapp.Engine.{Event, Store}
use kdapp.Engine.Start.{
  Engine, Accepted, accept_txs, block_accepted, block_reverted, filter_old_episodes, start,
  with_events, sample_removal_time,
}
use kdapp.Engine.Lawful.{Lawful, IsValid}
use kdapp.Engine.Blocks.{
  AdmitsTxs, Accepts, UndoesAll, accept_txs-Accepts, filter_old_episodes-IsValid,
}

abbrev with_map : {G : Episode} → Engine G → Map (List (ℕ × PayloadMetadata)) → Engine G
with_map e m = record e { revert_map = m }

not_due : (a b : ℕ) → b ≤ a → ltb a b ≡ false
not_due a b h = ground arith

-- The engine after `BlkAccepted` and `BlkReverted` of one block.
abbrev pub reverted : {G : Episode} → Engine G → Block → Engine G
reverted e b = record (filter_old_episodes e b.accepting_daa) {
  revert_map = remove b.accepting_hash e.revert_map;
}

abbrev engine_with :
    {G : Episode} {H : Type 0} → Engine G → List (Event G H) → Option (Engine G × List (Event G H))
engine_with e events = some (e, events)

module _ {G : Episode} (L : Lawful G) (env : Env G) {H : Type 0} where
  reverted_entry :
      (st base : Store G) (entries : Map (List (ℕ × PayloadMetadata))) (hash next : ℕ)
      (vec : List (ℕ × PayloadMetadata)) (handlers : List H)
      → UndoesAll L env H base st (reverse vec)
      → (later : List (Event G H)) × (block_reverted env handlers hash
            (record { store = st; revert_map = insert hash vec entries; next_filtering = next })
          ≡ some (
            record { store = base; revert_map = remove hash entries; next_filtering = next },
            later,
          ))
  unfolding block_reverted
  reverted_entry st base entries hash next vec handlers undo =
      let (later, p) = undo hash handlers [] in
      (
        later,
        rw (lookup-insert_self hash vec entries, block_reverted)
            (rw (p, block_reverted)
              (ap
                (λ (m : Map (List (ℕ × PayloadMetadata))).
                  engine_with (record { store = base; revert_map = m; next_filtering = next })
                    later)
                (remove-insert_any hash vec entries))),
      )

  pub record AcceptedBlock (handlers : List H) (e : Engine G) (b : Block) : Type 0 where
    pub engine : Engine G
    pub events : List (Event G H)
    pub accepts : block_accepted env handlers b e ≡ some (engine, events)
    pub valid : IsValid L engine.store
    pub filtering : engine.next_filtering ≡ (filter_old_episodes e b.accepting_daa).next_filtering
    pub mapped :
        (hash : ℕ)
        → b.accepting_hash ≢ hash
        → lookup hash engine.revert_map ≡ lookup hash e.revert_map
    pub reverts :
        (handlers' : List H)
        → (later : List (Event G H)) × (block_reverted env handlers' b.accepting_hash engine
            ≡ some (reverted e b, later))

  -- A block of transactions whose new episodes have participants that the lawful episode type
  -- admits, on an engine with a valid store: the engine does not panic on it, its store stays valid,
  -- and reverting the block gives the engine as the filter of old episodes left it, with no entry
  -- for the block.
  pub block_accepted-reverted :
      (handlers : List H) (e : Engine G) (b : Block)
      → IsValid L e.store
      → AdmitsTxs L env H b.associated_txs
      → AcceptedBlock handlers e b
  unfolding block_accepted block_reverted
  block_accepted-reverted handlers e b v admits =
      go (accept_txs env b handlers b.associated_txs first) refl (
        accept_txs-Accepts L env H b handlers b.associated_txs filtered.store first admits
          (filter_old_episodes-IsValid L e b.accepting_daa v) (λ hash hs events. (events, refl)))
    where
      filtered : Engine G
      filtered = filter_old_episodes e b.accepting_daa

      first : Accepted G H
      first = record { store = filtered.store; events = []; revert_vec = [] }

      go :
          (o : Option (Accepted G H))
          → accept_txs env b handlers b.associated_txs first ≡ o
          → Accepts L env H filtered.store o
          → AcceptedBlock handlers e b
      go none q a = absurd a
      go (some acc) q (valid, undo) = record {
        engine = record filtered {
          store = acc.store;
          revert_map = insert b.accepting_hash acc.revert_vec e.revert_map;
        };
        events = acc.events;
        accepts = rw (q, block_accepted);
        valid = valid;
        filtering = refl;
        mapped = λ hash ne. lookup-insert_ne b.accepting_hash hash acc.revert_vec e.revert_map ne;
        reverts = λ handlers'.
            reverted_entry acc.store filtered.store e.revert_map b.accepting_hash
              filtered.next_filtering acc.revert_vec handlers' undo;
      }

-- The messages of a reorganisation of a chain of blocks: all are accepted, and then all are
-- reverted, the newest first.
abbrev pub reorg : List Block → List EngineMsg
reorg [] = []
reorg (b ∷ bs) = blk_accepted b ∷ (reorg bs ++ blk_reverted b.accepting_hash ∷ [])

abbrev DiffersFrom : ℕ → List Block → Type 0
DiffersFrom hash [] = Unit
DiffersFrom hash (b ∷ bs) = (b.accepting_hash ≢ hash) × DiffersFrom hash bs

-- No two blocks of the chain have one hash, none is known to the engine, and none is so far in
-- the future that old episodes are filtered.
abbrev pub IsNewChain : Map (List (ℕ × PayloadMetadata)) → ℕ → List Block → Type 0
IsNewChain entries next [] = Unit
IsNewChain entries next (b ∷ bs) =
    (lookup b.accepting_hash entries ≡ none)
    × (b.accepting_daa ≤ (next + sample_removal_time) % u64_mod)
    × DiffersFrom b.accepting_hash bs
    × IsNewChain entries next bs

IsNewChain-mono :
    (entries entries' : Map (List (ℕ × PayloadMetadata))) (next hash : ℕ) (bs : List Block)
    → ((j : ℕ) → hash ≢ j → lookup j entries' ≡ lookup j entries)
    → DiffersFrom hash bs
    → IsNewChain entries next bs
    → IsNewChain entries' next bs
IsNewChain-mono entries entries' next hash [] same d n = tt
IsNewChain-mono entries entries' next hash (b ∷ bs) same d n = (
  same b.accepting_hash (λ p. d.0 (sym p)) ∙ n.0,
  n.1,
  n.2,
  IsNewChain-mono entries entries' next hash bs same d.1 n.3,
)

module _ {G : Episode} (L : Lawful G) (env : Env G) (H : Type 0) where
  abbrev pub AdmitsChain : List Block → Type 0
  AdmitsChain [] = Unit
  AdmitsChain (b ∷ bs) = AdmitsTxs L env H b.associated_txs × AdmitsChain bs

filter_early :
    {G : Episode} (e : Engine G) (b : Block)
    → b.accepting_daa ≤ (e.next_filtering + sample_removal_time) % u64_mod
    → filter_old_episodes e b.accepting_daa ≡ e
unfolding filter_old_episodes
filter_early e b early = rw (not_due _ b.accepting_daa early, filter_old_episodes)

reverted_new :
    {G : Episode} (e : Engine G) (b : Block)
    → lookup b.accepting_hash e.revert_map ≡ none
    → b.accepting_daa ≤ (e.next_filtering + sample_removal_time) % u64_mod
    → reverted e b ≡ e
unfolding filter_old_episodes
reverted_new e b fresh early =
    rw (not_due _ b.accepting_daa early, filter_old_episodes)
      (ap (λ (m : Map (List (ℕ × PayloadMetadata))). with_map e m)
        (remove_fresh b.accepting_hash e.revert_map fresh))

module _ {G : Episode} (L : Lawful G) (env : Env G) {H : Type 0} where
  with_events-with_events :
      (xs ys : List (Event G H)) (o : Option (Engine G × List (Event G H)))
      → with_events xs (with_events ys o) ≡ with_events (xs ++ ys) o
  with_events-with_events xs ys none = refl
  with_events-with_events xs ys (some (e, zs)) = rw (append_assoc xs ys zs)

  with_events_nil : (o : Option (Engine G × List (Event G H))) → o ≡ with_events [] o
  with_events_nil none = refl
  with_events_nil (some (e, zs)) = refl

  start_accepted :
      (handlers : List H) (msgs : List EngineMsg) (b : Block) (e e' : Engine G)
      (events : List (Event G H))
      → block_accepted env handlers b e ≡ some (e', events)
      → start env handlers (blk_accepted b ∷ msgs) e
        ≡ with_events events (start env handlers msgs e')
  unfolding start
  start_accepted handlers msgs b e e' events p = rw (p, start)

  start_reverted :
      (handlers : List H) (msgs : List EngineMsg) (hash : ℕ) (e e' : Engine G)
      (events : List (Event G H))
      → block_reverted env handlers hash e ≡ some (e', events)
      → start env handlers (blk_reverted hash ∷ msgs) e
        ≡ with_events events (start env handlers msgs e')
  unfolding start
  start_reverted handlers msgs hash e e' events p = rw (p, start)

  -- A reorganisation leaves no trace: when the engine accepts a chain of new blocks and then
  -- reverts it, the newest block first, it goes on with the very state that it had before.
  pub start-reorg :
      (handlers : List H) (bs : List Block) (msgs : List EngineMsg) (e : Engine G)
      → IsValid L e.store
      → AdmitsChain L env H bs
      → IsNewChain e.revert_map e.next_filtering bs
      → (events : List (Event G H)) × (start env handlers (reorg bs ++ msgs) e
          ≡ with_events events (start env handlers msgs e))
  start-reorg handlers [] msgs e v admits chain = ([], with_events_nil (start env handlers msgs e))
  start-reorg handlers (b ∷ bs) msgs e v admits (fresh, early, differs, chain) =
      let first = block_accepted-reverted L env handlers e b v admits.0 in
      let (middle, p) =
        start-reorg handlers bs (blk_reverted b.accepting_hash ∷ msgs) first.engine first.valid
          admits.1 (later_chain first) in
      let (last, q) = first.reverts handlers in
      (
        first.events ++ (middle ++ last),
        ap (λ (ms : List EngineMsg). start env handlers (blk_accepted b ∷ ms) e)
              (append_assoc (reorg bs) (blk_reverted b.accepting_hash ∷ []) msgs)
            ∙ start_accepted handlers _ b e first.engine first.events first.accepts
            ∙ ap (with_events first.events) (
                p
                ∙ ap (with_events middle) (
                    start_reverted handlers msgs b.accepting_hash first.engine (reverted e b) last
                      q))
            ∙ ap (λ (o : Option (Engine G × List (Event G H))). with_events first.events o)
                (with_events-with_events middle last (start env handlers msgs (reverted e b)))
            ∙ with_events-with_events first.events (middle ++ last)
                (start env handlers msgs (reverted e b))
            ∙ ap
                (λ (d : Engine G).
                  with_events (first.events ++ (middle ++ last)) (start env handlers msgs d))
                (reverted_new e b fresh early),
      )
    where
      later_chain :
          (first : AcceptedBlock L env handlers e b)
          → IsNewChain first.engine.revert_map first.engine.next_filtering bs
      later_chain first =
          rw (first.filtering ∙ ap (λ (d : Engine G). d.next_filtering) (filter_early e b early)) (
            IsNewChain-mono e.revert_map first.engine.revert_map e.next_filtering b.accepting_hash
              bs first.mapped differs chain)
