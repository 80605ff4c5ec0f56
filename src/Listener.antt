-- ===== src/Listener.antt =====
-- kdapp/src/proxy.rs: how the listener hands the transactions of an accepting block to the engines.
pub mod Taken
pub mod Owed
pub mod Once
pub mod Search
pub mod Found
use kdapp.Base.{
  ℕ, ◌+◌, ◌/◌, Bool, true, false, not, Option, none, some, List, [], ◌∷◌, length, Map, lookup,
  remove, ◌==◌, if◌then◌else◌,
}
use kdapp.Episode.{TxOutputInfo, TxStatus}
use kdapp.Message.{AssociatedTx, EngineMsg, blk_accepted}
use kdapp.Generator.{PatternType, check_pattern, check_header, strip_header}

-- The maps `required_payloads`, `required_outputs` and `required_statuses`.
pub record Required : Type 0 where
  pub payloads : Map (Option (List ℕ))
  pub outputs : Map (Option (List TxOutputInfo))
  pub statuses : Map (Option TxStatus)

pub record AcceptingBlock : Type 0 where
  pub hash : ℕ
  pub daa_score : ℕ
  pub timestamp : ℕ

abbrev pub flatten : {A : Type 0} → Option (Option A) → Option A
flatten (some o) = o
flatten none = none

-- The payload of a transaction that the engine of this pattern and prefix consumes.
unfoldable pub consumable : PatternType → ℕ → ℕ → Required → Option (List ℕ)
consumable pattern prefix id req =
    if not (check_pattern id pattern) then none else elim (flatten (lookup id req.payloads)) [
      | none ↦ none
      | some payload ↦ if check_header payload prefix then some payload else none
    ]

unfoldable pub without : ℕ → Required → Required
without id req = record {
  payloads = remove id req.payloads;
  outputs = remove id req.outputs;
  statuses = remove id req.statuses;
}

abbrev pub associated : ℕ → List ℕ → Required → AssociatedTx
associated id payload req = record {
  tx_id = id;
  payload = payload;
  tx_outputs = flatten (lookup id req.outputs);
  tx_status = flatten (lookup id req.statuses);
}

-- The `filter_map` over the required transactions; `none` is a panic of `strip_header`.
unfoldable pub associated_txs :
    PatternType → ℕ → List ℕ → Required → Option (List AssociatedTx × Required)
associated_txs pattern prefix [] req = some ([], req)
associated_txs pattern prefix (id ∷ ids) req = elim (consumable pattern prefix id req) [
  | none ↦ associated_txs pattern prefix ids req
  | some payload ↦ elim (strip_header payload) [
    | none ↦ none
    | some inner ↦ elim (associated_txs pattern prefix ids (without id req)) [
      | none ↦ none
      | some (txs, req') ↦ some (associated id inner req ∷ txs, req')
    ]
  ]
]

-- The message to an engine, with its prefix, unless it has no transaction.
unfoldable pub messages : AcceptingBlock → ℕ → List AssociatedTx → List (ℕ × EngineMsg)
messages block prefix [] = []
messages block prefix (tx ∷ txs) =
    (
      prefix,
      blk_accepted (record {
        accepting_hash = block.hash;
        accepting_daa = block.daa_score;
        accepting_time = block.timestamp / 1000;
        associated_txs = tx ∷ txs;
      }),
    )
    ∷ []

abbrev pub append : {A : Type 0} → List A → Option (List A) → Option (List A)
append xs none = none
append [] (some ys) = some ys
append (x ∷ xs) (some ys) = elim (append xs (some ys)) [ none ↦ none | some zs ↦ some (x ∷ zs) ]

-- The loop over the engines, with `consumed_txs`.
unfoldable pub dispatch :
    AcceptingBlock → List (ℕ × PatternType) → List ℕ → Required → ℕ → Option (List (ℕ × EngineMsg))
dispatch block [] ids req consumed_txs = some []
dispatch block ((prefix, pattern) ∷ engines) ids req consumed_txs =
    elim (associated_txs pattern prefix ids req) [
      | none ↦ none
      | some (txs, req') ↦ elim (consumed_txs + length txs == length ids) [
        | true ↦ some (messages block prefix txs)
        | false ↦
            append (messages block prefix txs)
              (dispatch block engines ids req' (consumed_txs + length txs))
      ]
    ]
