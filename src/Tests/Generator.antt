-- ===== src/Tests/Generator.antt =====
-- Runs of kdapp/src/generator.rs with a hash that shows the nonce.
use kdapp.Base.{
  ℕ, zero, suc, ◌≤◌, ◌<◌, ◌≡◌, refl, true, false, some, List, [], ◌∷◌, length, take, drop, arith,
  from_le_bytes,
}
use kdapp.Generator.{
  PatternType, check_pattern, pack_header, check_header, set_nonce, strip_header, Outpoint,
  UtxoEntry, Transaction, TransactionInput, Consensus, IsSegregated, unsigned, build_transaction,
}
use kdapp.Generator.Header.{set_nonce-pack_header}
use kdapp.Generator.Mining.{at_nonce, fits, total, build_transaction-first}

set_nonce-pack_header_example :
    (payload : List ℕ) × (set_nonce (pack_header (9 ∷ 8 ∷ []) 858598618) 300 ≡ some payload)
    × (strip_header payload ≡ some (9 ∷ 8 ∷ []))
    × (check_header payload 858598618 ≡ true)
    × ((q : ℕ) → q < 4294967296 → check_header payload q ≡ true → 858598618 ≡ q)
set_nonce-pack_header_example = set_nonce-pack_header (9 ∷ 8 ∷ []) 858598618 300 (omega arith)

abbrev signed_input : TransactionInput → TransactionInput
signed_input i = record i { signature_script = 65 ∷ [] }

abbrev sign_all : List TransactionInput → List TransactionInput
sign_all [] = []
sign_all (i ∷ is) = signed_input i ∷ sign_all is

-- The id is the nonce, and signing writes the scripts of the inputs.
abbrev consensus : Consensus
consensus = record {
  id = λ tx. from_le_bytes (take 4 (drop 4 tx.payload));
  sign = λ tx es. record tx { inputs = sign_all tx.inputs };
  pay_to_address_script = λ address. 32 ∷ address;
}

consensus-IsSegregated : IsSegregated consensus
consensus-IsSegregated = record {
  id-sign = λ tx es. refl;
  outputs-sign = λ tx es. refl;
  payload-sign = λ tx es. refl;
}

-- The second bit of the id is one: nonce 2 is the first that fits.
abbrev pattern : PatternType
pattern = (1, 1) ∷ []

abbrev utxos : List (Outpoint × UtxoEntry)
utxos =
    (
      record { transaction_id = 5; index = 0 },
      record {
        amount = 1000;
        script_public_key = 32 ∷ [];
        block_daa_score = 0;
        is_coinbase = false;
      },
    )
    ∷ []

abbrev start_tx : Transaction
start_tx = unsigned consensus pattern utxos 900 2 (7 ∷ []) (pack_header (9 ∷ []) 17)

early : (k : ℕ) → k < 2 → fits consensus pattern start_tx 17 (9 ∷ []) k ≡ false
unfolding check_pattern pack_header
early zero h = refl
early (suc zero) h = refl
early (suc (suc k)) h = absurd (omega arith)

third : fits consensus pattern start_tx 17 (9 ∷ []) 2 ≡ true
unfolding check_pattern pack_header
third = refl

build_transaction-first_example :
    (signed : Transaction) × (build_transaction consensus pattern 17 utxos 900 2 (7 ∷ []) (9 ∷ [])
      ≡ some signed)
    × (consensus.id signed ≡ consensus.id (at_nonce start_tx 17 (9 ∷ []) 2))
    × (check_pattern (consensus.id signed) pattern ≡ true)
    × (check_header signed.payload 17 ≡ true)
    × (strip_header signed.payload ≡ some (9 ∷ []))
    × (length signed.outputs ≡ 2)
    × (total signed.outputs ≤ 900)
build_transaction-first_example =
    build_transaction-first consensus pattern 17 utxos 900 2 (7 ∷ []) (9 ∷ []) 2
      consensus-IsSegregated (omega arith) third early
