-- ===== src/UtxoCache/Hits.antt =====
-- What the cache of kdapp/src/utils/utxo_cache.rs answers.
use kdapp.Base.{
  ℕ, ◌+◌, contains, ◌-◌, ◌<◌, ◌≤◌, ◌≡◌, Bool, true, false, Option, none, some, List, [], ◌∷◌, any,
  Map, lookup, remove, lookup-remove, arith, Bool-cases, Option-cases, inl, inr, ◌==◌,
}
use kdapp.UtxoCache.{
  Entry, UtxoCache, hit, is_outpoint, to_invalidate, remove_all, invalidate_outpoint,
}
use kdapp.UtxoCache.Fresh.{Answered, System, Reachable, lookup-remove_all, Reachable-IsFresh}

-- Whether an answer has the outpoint.
abbrev pub holds : ℕ → ℕ → Option (List Entry) → Bool
holds txid index none = false
holds txid index (some entries) = any (is_outpoint txid index) entries

to_invalidate-contains :
    (txid index key t : ℕ) (entries : List Entry) (m : Map (ℕ × List Entry))
    → lookup key m ≡ some (t, entries)
    → any (is_outpoint txid index) entries ≡ true
    → contains (to_invalidate txid index m) key ≡ true
to_invalidate-contains txid index key t entries [] h k = absurd (ground arith)
to_invalidate-contains txid index key t entries ((j, (u, es)) ∷ m) h k =
    ground (arith, to_invalidate-contains txid index key t entries m)

remove_all-none :
    (key : ℕ) (ks : List ℕ) (m : Map (ℕ × List Entry))
    → lookup key m ≡ none
    → lookup key (remove_all ks m) ≡ none
remove_all-none key [] m h = h
remove_all-none key (k ∷ ks) m h =
    remove_all-none key ks (remove k m) (ground (arith, lookup-remove k key m))

remove_all-contains :
    (key : ℕ) (ks : List ℕ) (m : Map (ℕ × List Entry))
    → contains ks key ≡ true
    → lookup key (remove_all ks m) ≡ none
remove_all-contains key [] m h = absurd (ground arith)
remove_all-contains key (k ∷ ks) m h = elim (Bool-cases (k == key)) [
  | inl same ↦ remove_all-none key ks (remove k m) (ground (arith, lookup-remove k key m))
  | inr other ↦ remove_all-contains key ks (remove k m) (ground arith)
]

invalidate_outpoint-holds :
    (cache : UtxoCache) (now txid index key : ℕ)
    → holds txid index (hit (invalidate_outpoint cache txid index) now key) ≡ false
unfolding hit invalidate_outpoint
invalidate_outpoint-holds cache now txid index key =
    let gone = to_invalidate txid index cache.inner in
    elim (Option-cases (lookup key (remove_all gone cache.inner))) [
      | inl missing ↦ ground arith
      | inr ((t, entries), found) ↦ elim (Bool-cases (any (is_outpoint txid index) entries)) [
        | inl has ↦
            let was = lookup-remove_all key gone cache.inner (t, entries) found in
            let named = to_invalidate-contains txid index key t entries cache.inner was has in
            let lost = remove_all-contains key gone cache.inner named in absurd (ground arith)
        | inr has_not ↦ ground arith
      ]
    ]

hit-known :
    (cache : UtxoCache) (now key : ℕ) (entries : List Entry)
    → hit cache now key ≡ some entries
    → (t : ℕ) × (lookup key cache.inner ≡ some (t, entries)) × (now - t < cache.ttl_ms)
unfolding hit
hit-known cache now key entries h = elim (Option-cases (lookup key cache.inner)) [
  | inl missing ↦ absurd (ground arith)
  | inr ((t, found), e) ↦ (t, ground arith, ground arith)
]

-- However the calls of `get`, the invalidations and the changes of the time to live interleave: what
-- is answered from the cache for an address, to a call that read the clock now or at any earlier
-- time, is what the node itself answered for it, and the call read the clock less than two seconds
-- after the node was asked for that; and right after an outpoint was invalidated, the cache answers
-- no address with it.
pub hit-Answered :
    (s : System) (now key : ℕ) (entries : List Entry) (txid index : ℕ)
    → Reachable s
    → now ≤ s.clock
    → hit s.cache now key ≡ some entries
    → ((since : ℕ) × (now < since + 2000) × Answered key since s.clock entries s.log)
      × (holds txid index (hit (invalidate_outpoint s.cache txid index) now key) ≡ false)
hit-Answered s now key entries txid index reached earlier h =
    let f = Reachable-IsFresh s reached in
    let (t, known, young) = hit-known s.cache now key entries h in
    let (low, high) = f.ttl in
    (
      (t, omega arith, f.known key t entries known),
      invalidate_outpoint-holds s.cache now txid index key,
    )
