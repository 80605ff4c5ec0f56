-- ===== src/UtxoCache.antt =====
-- kdapp/src/utils/utxo_cache.rs: what a node answered for an address is kept for a short time. An
-- address is its printed form as a number, and times are milliseconds. A poisoned lock, which needs a
-- panic under it, is left out.
pub mod Fresh
pub mod Hits
use kdapp.Base.{
  ℕ, ◌-◌, ◌&&◌, Bool, true, false, Option, none, some, List, [], ◌∷◌, any, Map, lookup, insert,
  remove, min, max, ◌==◌, ltb, if◌then◌else◌,
}

pub record Outpoint : Type 0 where
  pub transaction_id : ℕ
  pub index : ℕ

-- An entry of the node's answer: its outpoint, and the rest of it.
pub record Entry : Type 0 where
  pub outpoint : Outpoint
  pub amount : ℕ

pub record UtxoCache : Type 0 where
  pub ttl_ms : ℕ
  pub inner : Map (ℕ × List Entry)

abbrev clamped : ℕ → ℕ
clamped ttl_ms = max 100 (min ttl_ms 2000)

abbrev pub new : ℕ → UtxoCache
new ttl_ms = record { ttl_ms = clamped ttl_ms; inner = [] }

-- The first section of `get`: an entry that is young enough.
unfoldable pub hit : UtxoCache → ℕ → ℕ → Option (List Entry)
hit cache now key = elim (lookup key cache.inner) [
  | none ↦ none
  | some (t, cached) ↦ if ltb (now - t) cache.ttl_ms then some cached else none
]

-- The second: the answer is kept under the time at which it was asked for.
abbrev pub store : UtxoCache → ℕ → ℕ → List Entry → UtxoCache
store cache now key fresh = record cache { inner = insert key (now, fresh) cache.inner }

-- The whole of `get`, with the node's answer if it is asked; `none` is its error.
unfoldable pub get : Option (List Entry) → UtxoCache → ℕ → ℕ → UtxoCache × Option (List Entry)
get answer cache now key = elim (hit cache now key) [
  | some cached ↦ (cache, some cached)
  | none ↦ elim answer [
    | none ↦ (cache, none)
    | some fresh ↦ (store cache now key fresh, some fresh)
  ]
]

-- One call of `get` for each address, up to the first error; the node answers by address.
unfoldable pub get_many :
    (ℕ → Option (List Entry))
    → UtxoCache
    → ℕ
    → List ℕ
    → Map (List Entry)
    → UtxoCache × Option (Map (List Entry))
get_many client cache now [] out = (cache, some out)
get_many client cache now (addr ∷ addrs) out =
    let (cache', found) = get (client addr) cache now addr in
    elim found [
      | none ↦ (cache', none)
      | some v ↦ get_many client cache' now addrs (insert addr v out)
    ]

abbrev pub invalidate_address : UtxoCache → ℕ → UtxoCache
invalidate_address cache key = record cache { inner = remove key cache.inner }

abbrev pub is_outpoint : ℕ → ℕ → Entry → Bool
is_outpoint txid index e = (e.outpoint.transaction_id == txid) && (e.outpoint.index == index)

abbrev pub to_invalidate : ℕ → ℕ → Map (ℕ × List Entry) → List ℕ
to_invalidate txid index [] = []
to_invalidate txid index ((k, (t, entries)) ∷ m) =
    let rest = to_invalidate txid index m in
    if any (is_outpoint txid index) entries then k ∷ rest else rest

abbrev pub remove_all : List ℕ → Map (ℕ × List Entry) → Map (ℕ × List Entry)
remove_all [] m = m
remove_all (k ∷ ks) m = remove_all ks (remove k m)

unfoldable pub invalidate_outpoint : UtxoCache → ℕ → ℕ → UtxoCache
invalidate_outpoint cache txid index = record cache {
  inner = remove_all (to_invalidate txid index cache.inner) cache.inner;
}

abbrev pub set_ttl_ms : UtxoCache → ℕ → UtxoCache
set_ttl_ms cache ttl_ms = record cache { ttl_ms = clamped ttl_ms }
