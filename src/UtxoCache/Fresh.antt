-- ===== src/UtxoCache/Fresh.antt =====
-- How old an answer of the cache of kdapp/src/utils/utxo_cache.rs can be, however its calls
-- interleave.
use kdapp.Base.{
  ℕ, ◌≤◌, ◌≡◌, sym, subst, some, List, [], ◌∷◌, Map, lookup, remove, lookup-insert, lookup-remove,
  arith, Bool-cases, inl, inr, ◌==◌,
}
use kdapp.UtxoCache.{
  Entry, UtxoCache, new, store, invalidate_address, to_invalidate, remove_all, invalidate_outpoint,
  set_ttl_ms,
}

-- What the node answered, and when.
pub record Answer : Type 0 where
  pub at : ℕ
  pub address : ℕ
  pub entries : List Entry

-- The node gave these entries for an address at a time between the two.
pub data Answered (key since now : ℕ) (entries : List Entry) : List Answer → Type 0 where
  here :
      (a : Answer) (log : List Answer)
      → a.address ≡ key
      → a.entries ≡ entries
      → since ≤ a.at
      → a.at ≤ now
      → Answered key since now entries (a ∷ log)
  there :
      (a : Answer) (log : List Answer)
      → Answered key since now entries log
      → Answered key since now entries (a ∷ log)

pub record System : Type 0 where
  pub cache : UtxoCache
  pub clock : ℕ
  pub log : List Answer

-- A call that missed stores, at any later time, an answer that came after it had asked.
pub data Reachable : System → Type 0 where
  started : (s : System) (ttl_ms : ℕ) → s.cache ≡ new ttl_ms → Reachable s
  ticked :
      (s s' : System)
      → s'.cache ≡ s.cache
      → s'.log ≡ s.log
      → s.clock ≤ s'.clock
      → Reachable s
      → Reachable s'
  answered :
      (s s' : System) (address : ℕ) (entries : List Entry)
      → s'.cache ≡ s.cache
      → s'.clock ≡ s.clock
      → s'.log ≡ record { at = s.clock; address = address; entries = entries } ∷ s.log
      → Reachable s
      → Reachable s'
  stored :
      (s s' : System) (asked_at key : ℕ) (fresh : List Entry)
      → Answered key asked_at s.clock fresh s.log
      → s'.cache ≡ store s.cache asked_at key fresh
      → s'.clock ≡ s.clock
      → s'.log ≡ s.log
      → Reachable s
      → Reachable s'
  address_dropped :
      (s s' : System) (key : ℕ)
      → s'.cache ≡ invalidate_address s.cache key
      → s'.clock ≡ s.clock
      → s'.log ≡ s.log
      → Reachable s
      → Reachable s'
  outpoint_dropped :
      (s s' : System) (txid index : ℕ)
      → s'.cache ≡ invalidate_outpoint s.cache txid index
      → s'.clock ≡ s.clock
      → s'.log ≡ s.log
      → Reachable s
      → Reachable s'
  ttl_set :
      (s s' : System) (ttl_ms : ℕ)
      → s'.cache ≡ set_ttl_ms s.cache ttl_ms
      → s'.clock ≡ s.clock
      → s'.log ≡ s.log
      → Reachable s
      → Reachable s'

pub record IsFresh (s : System) : Type 0 where
  pub ttl : (100 ≤ s.cache.ttl_ms) × (s.cache.ttl_ms ≤ 2000)
  pub known :
      (key t : ℕ) (entries : List Entry)
      → lookup key s.cache.inner ≡ some (t, entries)
      → Answered key t s.clock entries s.log

Answered-later :
    (key since now later : ℕ) (entries : List Entry) (log : List Answer)
    → now ≤ later
    → Answered key since now entries log
    → Answered key since later entries log
Answered-later key since now later entries _ h (here a log k e l u) = here a log k e l (omega arith)
Answered-later key since now later entries _ h (there a log x) =
    there a log (Answered-later key since now later entries log h x)

pub lookup-remove_all :
    (key : ℕ) (ks : List ℕ) (m : Map (ℕ × List Entry)) (v : ℕ × List Entry)
    → lookup key (remove_all ks m) ≡ some v
    → lookup key m ≡ some v
lookup-remove_all key [] m v h = h
lookup-remove_all key (k ∷ ks) m v h =
    let kept = lookup-remove_all key ks (remove k m) v h in ground (arith, lookup-remove k key m)

-- A state whose entries are among those of a fresh one, at the same or a later time.
shrunk-IsFresh :
    (s s' : System)
    → (100 ≤ s'.cache.ttl_ms) × (s'.cache.ttl_ms ≤ 2000)
    → s.clock ≤ s'.clock
    → s'.log ≡ s.log
    → ((key : ℕ) (v : ℕ × List Entry)
        → lookup key s'.cache.inner ≡ some v
        → lookup key s.cache.inner ≡ some v)
    → IsFresh s
    → IsFresh s'
shrunk-IsFresh s s' ttl later same among f = record {
  ttl = ttl;
  known = λ key t entries e.
      subst (λ (log : List Answer). Answered key t s'.clock entries log) (sym same)
        (Answered-later key t s.clock s'.clock entries s.log later
          (f.known key t entries (among key (t, entries) e)));
}

stored-known :
    (s s' : System) (asked_at key : ℕ) (fresh : List Entry)
    → IsFresh s
    → Answered key asked_at s.clock fresh s.log
    → s'.cache ≡ store s.cache asked_at key fresh
    → s'.clock ≡ s.clock
    → s'.log ≡ s.log
    → (key' t : ℕ) (found : List Entry) → lookup key' s'.cache.inner ≡ some (t, found)
    → Answered key' t s'.clock found s'.log
stored-known s s' asked_at key fresh f came c k l key' t found e =
    let split = lookup-insert key key' (asked_at, fresh) s.cache.inner in
    elim (Bool-cases (key == key')) [
      | inl same ↦
          let key_is : key' ≡ key = ground arith in
          let t_is : t ≡ asked_at = ground arith in
          let found_is : found ≡ fresh = ground arith in rw (l, k, key_is, t_is, found_is) came
      | inr other ↦ rw (l, k) (f.known key' t found (ground arith))
    ]

-- Every entry is an answer that the node gave for its address, no earlier than the time that it is
-- kept under.
pub Reachable-IsFresh : (s : System) → Reachable s → IsFresh s
unfolding invalidate_outpoint
Reachable-IsFresh _ (started s ttl_ms e) = record {
  ttl = ground arith;
  known = λ key t entries f. absurd (ground arith);
}
Reachable-IsFresh _ (ticked s s' c l h before) =
    let f = Reachable-IsFresh s before in
    shrunk-IsFresh s s' (ground (arith, f.ttl)) h l (λ key v e. ground arith) f
Reachable-IsFresh _ (answered s s' address entries c k l before) =
    let f = Reachable-IsFresh s before in
    record {
      ttl = ground (arith, f.ttl);
      known = λ key t found e. rw (l, k) (there _ s.log (f.known key t found (ground arith)));
    }
Reachable-IsFresh _ (stored s s' asked_at key fresh came c k l before) =
    let f = Reachable-IsFresh s before in
    record {
      ttl = ground (arith, f.ttl);
      known = λ key' t found e. stored-known s s' asked_at key fresh f came c k l key' t found e;
    }
Reachable-IsFresh _ (address_dropped s s' key c k l before) =
    let f = Reachable-IsFresh s before in
    shrunk-IsFresh s s' (ground (arith, f.ttl)) (omega arith) l
      (λ j v e. ground (arith, lookup-remove key j s.cache.inner)) f
Reachable-IsFresh _ (outpoint_dropped s s' txid index c k l before) =
    let f = Reachable-IsFresh s before in
    shrunk-IsFresh s s' (ground (arith, f.ttl)) (omega arith) l
      (λ j v e.
        lookup-remove_all j (to_invalidate txid index s.cache.inner) s.cache.inner v (ground arith))
      f
Reachable-IsFresh _ (ttl_set s s' ttl_ms c k l before) =
    let f = Reachable-IsFresh s before in
    shrunk-IsFresh s s' (ground arith) (omega arith) l (λ j v e. ground arith) f
