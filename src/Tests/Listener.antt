-- ===== src/Tests/Listener.antt =====
-- Two transactions of an accepting block and two engines whose patterns overlap: kdapp/src/proxy.rs.
use kdapp.Base.{
  ℕ, Option, none, ◌==◌, if◌then◌else◌, ◌≡◌, refl, true, some, List, [], ◌∷◌, contains,
  contains_key, arith,
}
use kdapp.Generator.{PatternType}
use kdapp.Message.{EngineMsg}
use kdapp.Listener.{Required, AcceptingBlock, dispatch}
use kdapp.Listener.Search.{
  MergedTx, empty_slots, fill, needs, search_block, search_blocks, required, searched, deliver,
}
use kdapp.Listener.Found.{missing, deliver-deliveries}
use kdapp.Episode.{TxStatus}
use kdapp.Listener.Taken.{distinct}
use kdapp.Listener.Owed.{owed}
use kdapp.Listener.Once.{deliveries, dispatch-deliveries}

abbrev block : AcceptingBlock
block = record { hash = 100; daa_score = 50; timestamp = 9000 }

abbrev engines : List (ℕ × PatternType)
engines = (7, (0, 1) ∷ []) ∷ (7, []) ∷ (8, []) ∷ []

-- The payload of prefix 7, an empty nonce, and one byte.
abbrev payload : ℕ → List ℕ
payload byte = 7 ∷ 0 ∷ 0 ∷ 0 ∷ 0 ∷ 0 ∷ 0 ∷ 0 ∷ byte ∷ []

abbrev ids : List ℕ
ids = 1 ∷ 2 ∷ []

abbrev found : Required
found = record {
  payloads = (1, some (payload 31)) ∷ (2, some (payload 32)) ∷ [];
  outputs = (1, some []) ∷ (2, some []) ∷ [];
  statuses = [];
}

found_all : (j : ℕ) → contains ids j ≡ true → contains_key j found.payloads ≡ true
found_all j h = ground arith

dispatch-deliveries_example :
    (sent : List (ℕ × EngineMsg)) × (dispatch block engines ids found 0 ≡ some sent)
    × ((tx_id : ℕ) → deliveries tx_id sent ≡ owed engines ids found tx_id)
unfolding distinct
dispatch-deliveries_example = dispatch-deliveries block engines ids found refl found_all

-- The merged block: its coinbase, and the two transactions.
abbrev merged : List (Option (List MergedTx))
merged =
    none
    ∷ some (
        record { transaction_id = some 90; payload = []; outputs = [] }
        ∷ record { transaction_id = some 2; payload = payload 32; outputs = [] }
        ∷ record { transaction_id = some 1; payload = payload 31; outputs = [] }
        ∷ [])
    ∷ []

abbrev status : TxStatus
status = record { acceptance_height = some 1; confirmations = some 1; finality = some true }

deliver-deliveries_example :
    (sent : List (ℕ × EngineMsg)) × (deliver block status engines ids merged ≡ some sent)
    × ((tx_id : ℕ)
        → deliveries tx_id sent ≡ (
            if missing (searched status ids merged).0.payloads == 0
            then owed engines ids (searched status ids merged).0 tx_id
            else 0))
unfolding distinct
deliver-deliveries_example = deliver-deliveries block status engines ids merged refl

-- No payload is missing after the search.
merged_all : missing (searched status ids merged).0.payloads ≡ 0
unfolding missing searched search_blocks search_block required needs fill empty_slots
merged_all = refl
