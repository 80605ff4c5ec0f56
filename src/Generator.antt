-- ===== src/Generator.antt =====
-- kdapp/src/generator.rs: carrier transactions, whose payload has a header and whose id follows a
-- pattern. A hash is the number that its 32 bytes read as, the least significant byte first.
pub mod Header
pub mod Mining
use kdapp.Base.{
  ◌≡◌, ℕ, zero, suc, ◌+◌, ◌-◌, ◌/◌, ◌%◌, ◌^◌, Bool, true, false, not, Option, none, some, List, [],
  ◌∷◌, ◌++◌, map, length, take, drop, replicate, ltb, ◌==◌, if◌then◌else◌, to_le_bytes, bytes_eq,
  u32_mod, u64_mod,
}

abbrev pub PatternType : Type 0
PatternType = List (ℕ × ℕ)

-- `tx_id.as_bytes()[i]`
abbrev pub byte_at : ℕ → ℕ → ℕ
byte_at hash i = hash / 256 ^ i % 256

unfoldable pub check_pattern : ℕ → PatternType → Bool
check_pattern tx_id [] = true
check_pattern tx_id ((pos, val) ∷ pattern) =
    let word = byte_at tx_id (pos / 8) in
    let rest = check_pattern tx_id pattern in
    if not (word / 2 ^ (pos % 8) % 2 == val) then false else rest

-- 4 byte prefix | 4 byte nonce | inner data
unfoldable pub pack_header : List ℕ → ℕ → List ℕ
pack_header inner_data prefix = to_le_bytes 4 prefix ++ (to_le_bytes 4 0 ++ inner_data)

unfoldable pub check_header : List ℕ → ℕ → Bool
check_header payload prefix =
    if ltb (length payload) 8 then false else bytes_eq (take 4 payload) (to_le_bytes 4 prefix)

-- The slices of the next two panic where the payload is shorter than a header.
unfoldable pub set_nonce : List ℕ → ℕ → Option (List ℕ)
set_nonce payload nonce =
    if ltb (length payload) 8
    then none
    else some (take 4 payload ++ (to_le_bytes 4 nonce ++ drop 8 payload))

unfoldable pub strip_header : List ℕ → Option (List ℕ)
strip_header payload = if ltb (length payload) 8 then none else some (drop 8 payload)

pub record Outpoint : Type 0 where
  pub transaction_id : ℕ
  pub index : ℕ

pub record UtxoEntry : Type 0 where
  pub amount : ℕ
  pub script_public_key : List ℕ
  pub block_daa_score : ℕ
  pub is_coinbase : Bool

pub record TransactionInput : Type 0 where
  pub previous_outpoint : Outpoint
  pub signature_script : List ℕ
  pub sequence : ℕ
  pub sig_op_count : ℕ

pub record TransactionOutput : Type 0 where
  pub value : ℕ
  pub script_public_key : List ℕ

-- The fields that the generator sets; version, lock time, subnetwork and gas are constants.
pub record Transaction : Type 0 where
  pub inputs : List TransactionInput
  pub outputs : List TransactionOutput
  pub payload : List ℕ

-- kaspa-consensus-core and kaspa-txscript: the id of a finalised transaction, the signing of all
-- inputs, and the script that pays to an address.
pub record Consensus : Type 0 where
  pub id : Transaction → ℕ
  pub sign : Transaction → List UtxoEntry → Transaction
  pub pay_to_address_script : List ℕ → List ℕ

-- Signing fills the signature scripts, which the id does not cover, and nothing else.
pub record IsSegregated (c : Consensus) : Type 0 where
  pub id-sign : (tx : Transaction) (es : List UtxoEntry) → c.id (c.sign tx es) ≡ c.id tx
  pub outputs-sign : (tx : Transaction) (es : List UtxoEntry) → (c.sign tx es).outputs ≡ tx.outputs
  pub payload-sign : (tx : Transaction) (es : List UtxoEntry) → (c.sign tx es).payload ≡ tx.payload

module _ (c : Consensus) (pattern : PatternType) where
  -- The `while` loop, on the number of nonces that are left: `checked_add(1).unwrap()` panics
  -- after the last.
  unfoldable pub mine : ℕ → ℕ → Transaction → Option Transaction
  mine zero nonce tx = if check_pattern (c.id tx) pattern then some tx else none
  mine (suc left) nonce tx = elim (check_pattern (c.id tx) pattern) [
    | true ↦ some tx
    | false ↦ elim (set_nonce tx.payload (nonce + 1)) [
      | none ↦ none
      | some payload ↦ mine left (nonce + 1) (record tx { payload = payload })
    ]
  ]

  abbrev pub unsigned : List (Outpoint × UtxoEntry) → ℕ → ℕ → List ℕ → List ℕ → Transaction
  unsigned utxos send_amount num_outs recipient payload = record {
    inputs =
        map
          (λ u. record {
            previous_outpoint = u.0;
            signature_script = [];
            sequence = 0;
            sig_op_count = 1;
          })
          utxos;
    outputs = replicate num_outs (record {
      value = send_amount / num_outs;
      script_public_key = c.pay_to_address_script recipient;
    });
    payload = payload;
  }

  unfoldable pub build_transaction :
      ℕ → List (Outpoint × UtxoEntry) → ℕ → ℕ → List ℕ → List ℕ → Option Transaction
  build_transaction prefix utxos send_amount num_outs recipient payload =
      let tx = unsigned utxos send_amount num_outs recipient (pack_header payload prefix) in
      elim (mine (u32_mod - 1) 0 tx) [
        | none ↦ none
        | some mined ↦ some (c.sign mined (map (λ u. u.1) utxos))
      ]

  -- `utxo.1.amount - fee` is one of 64-bit words.
  unfoldable pub build_command_transaction :
      ℕ → Outpoint × UtxoEntry → List ℕ → List ℕ → ℕ → Option Transaction
  build_command_transaction prefix utxo recipient cmd fee =
      build_transaction prefix (utxo ∷ []) ((utxo.1.amount + u64_mod - fee) % u64_mod) 1 recipient
        cmd

  -- `tx.outputs[0]` panics where there is no output.
  unfoldable pub get_first_output_utxo : Transaction → Option (Outpoint × UtxoEntry)
  get_first_output_utxo tx = elim tx.outputs [
    | [] ↦ none
    | out ∷ _ ↦ some (
      record { transaction_id = c.id tx; index = 0 },
      record {
        amount = out.value;
        script_public_key = out.script_public_key;
        block_daa_score = 0;
        is_coinbase = false;
      },
    )
  ]
