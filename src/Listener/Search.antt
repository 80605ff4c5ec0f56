-- ===== src/Listener/Search.antt =====
-- kdapp/src/proxy.rs: the search for the payloads of the required transactions in the merged blocks.
use kdapp.Base.{
  ℕ, ◌-◌, true, Option, none, some, List, [], ◌∷◌, length, Map, lookup, insert, contains_key, ◌==◌,
  if◌then◌else◌, false,
}
use kdapp.Episode.{TxOutputInfo, TxStatus}
use kdapp.Message.{EngineMsg}
use kdapp.Generator.{PatternType}
use kdapp.Listener.{Required, AcceptingBlock, dispatch}

-- The id stands in the verbose data, which may be missing. The outputs are what the cache of
-- outputs gives for them.
pub record MergedTx : Type 0 where
  pub transaction_id : Option ℕ
  pub payload : List ℕ
  pub outputs : List TxOutputInfo

unfoldable pub empty_slots : {A : Type 0} → Option A → List ℕ → Map (Option A)
empty_slots slot [] = []
empty_slots slot (id ∷ ids) = insert id slot (empty_slots slot ids)

-- What one transaction of a merged block adds, if it is required and still without a payload.
unfoldable pub fill : MergedTx → ℕ → Required → Required
fill tx id req = record {
  payloads = insert id (some tx.payload) req.payloads;
  outputs =
      if contains_key id req.outputs then insert id (some tx.outputs) req.outputs else req.outputs;
  statuses = req.statuses;
}

unfoldable pub needs : MergedTx → Required → Option ℕ
needs tx req = elim tx.transaction_id [
  | none ↦ none
  | some id ↦ elim (lookup id req.payloads) [
    | none ↦ none
    | some (some _) ↦ none
    | some none ↦ some id
  ]
]

-- The loop over the transactions of a block, with `required_num`; at 0 it breaks.
unfoldable pub search_block : List MergedTx → Required → ℕ → Required × ℕ
search_block [] req required_num = (req, required_num)
search_block (tx ∷ txs) req required_num = elim (needs tx req) [
  | none ↦ search_block txs req required_num
  | some id ↦ elim (required_num - 1 == 0) [
    | true ↦ (fill tx id req, required_num - 1)
    | false ↦ search_block txs (fill tx id req) (required_num - 1)
  ]
]

abbrev pub skip_coinbase : List MergedTx → List MergedTx
skip_coinbase [] = []
skip_coinbase (coinbase ∷ txs) = txs

-- The loop over the merged blocks; `none` is a block that the node did not give.
unfoldable pub search_blocks : List (Option (List MergedTx)) → Required → ℕ → Required × ℕ
search_blocks [] req required_num = (req, required_num)
search_blocks (none ∷ blocks) req required_num = search_blocks blocks req required_num
search_blocks (some txs ∷ blocks) req required_num =
    let (req', left_num) = search_block (skip_coinbase txs) req required_num in
    elim (left_num == 0) [ true ↦ (req', left_num) | false ↦ search_blocks blocks req' left_num ]

unfoldable pub required : TxStatus → List ℕ → Required
required status ids = record {
  payloads = empty_slots none ids;
  outputs = empty_slots none ids;
  statuses = empty_slots (some status) ids;
}

unfoldable pub searched : TxStatus → List ℕ → List (Option (List MergedTx)) → Required × ℕ
unfolding required
searched status ids blocks =
    search_blocks blocks (required status ids) (length (required status ids).payloads)

-- What follows the choice of the required transactions of an accepting block.
unfoldable pub deliver :
    AcceptingBlock
    → TxStatus
    → List (ℕ × PatternType)
    → List ℕ
    → List (Option (List MergedTx))
    → Option (List (ℕ × EngineMsg))
unfolding required
deliver block status engines ids blocks = elim (length (required status ids).payloads == 0) [
  | true ↦ some []
  | false ↦ elim ((searched status ids blocks).1 == 0) [
    | true ↦ dispatch block engines ids (searched status ids blocks).0 0
    | false ↦ some []
  ]
]
