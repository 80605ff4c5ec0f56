-- ===== src/Generator/Mining.antt =====
-- The search for a nonce in kdapp/src/generator.rs, and the transactions that it builds.
use kdapp.Base.{
  ℕ, zero, suc, ◌+◌, ◌-◌, ◌≤◌, ◌<◌, ◌≡◌, ◌≢◌, subst, refl, sym, ap, ◌∙◌, Bool, true, false, some,
  List, [], ◌∷◌, map, arith, length, replicate, ◌⊎◌, inl, inr, Bool-cases, u32_mod, ◌*◌, ◌/◌,
  to_le_bytes, bytes_eq_self, length-replicate,
}
use native.Mathlib.Nat.{mul-div-le}
use kdapp.Generator.{
  PatternType, check_pattern, pack_header, check_header, strip_header, Outpoint, UtxoEntry,
  Transaction, TransactionOutput, Consensus, IsSegregated, mine, unsigned, build_transaction,
}
use kdapp.Generator.Header.{framed, set_nonce-framed, strip_header-framed, check_header-framed}

le_cases : (m n : ℕ) → m ≤ n → (m ≡ n) ⊎ (m < n)
le_cases m n h = ground arith

true_ne_false : true ≢ false
true_ne_false h = cc

-- The transaction whose payload has the nonce.
abbrev pub at_nonce : Transaction → ℕ → List ℕ → ℕ → Transaction
at_nonce tx prefix inner nonce = record tx { payload = framed prefix nonce inner }

module _ (c : Consensus) (pattern : PatternType) (tx : Transaction) (prefix : ℕ)
    (inner : List ℕ) where
  abbrev pub fits : ℕ → Bool
  fits nonce = check_pattern (c.id (at_nonce tx prefix inner nonce)) pattern

  mine_here :
      (left nonce : ℕ)
      → fits nonce ≡ true
      → mine c pattern left nonce (at_nonce tx prefix inner nonce)
        ≡ some (at_nonce tx prefix inner nonce)
  unfolding mine
  mine_here zero nonce h = rw (h, mine) refl
  mine_here (suc left) nonce h = rw (h, mine) refl

  mine_next :
      (left nonce : ℕ)
      → fits nonce ≡ false
      → mine c pattern (suc left) nonce (at_nonce tx prefix inner nonce)
        ≡ mine c pattern left (nonce + 1) (at_nonce tx prefix inner (nonce + 1))
  unfolding mine
  mine_next left nonce h =
      rw (h, mine) (rw (set_nonce-framed prefix nonce (nonce + 1) inner, mine) refl)

  -- The loop stops at the first nonce that fits, if one is left.
  mine-first :
      (left nonce n : ℕ)
      → nonce ≤ n
      → n ≤ nonce + left
      → fits n ≡ true
      → ((k : ℕ) → nonce ≤ k → k < n → fits k ≡ false)
      → mine c pattern left nonce (at_nonce tx prefix inner nonce)
        ≡ some (at_nonce tx prefix inner n)
  mine-first zero nonce n lo hi h before =
      let e : nonce ≡ n = omega arith in
      subst
        (λ (m : ℕ).
          mine c pattern zero nonce (at_nonce tx prefix inner nonce)
          ≡ some (at_nonce tx prefix inner m))
        e (mine_here zero nonce (ap fits e ∙ h))
  mine-first (suc left) nonce n lo hi h before = elim (Bool-cases (fits nonce)) [
    | inl here ↦ elim (le_cases nonce n lo) [
      | inl e ↦
          subst
            (λ (m : ℕ).
              mine c pattern (suc left) nonce (at_nonce tx prefix inner nonce)
              ≡ some (at_nonce tx prefix inner m))
            e (mine_here (suc left) nonce here)
      | inr later ↦ absurd (true_ne_false (sym here ∙ before nonce (omega arith) later))
    ]
    | inr not_here ↦ elim (le_cases nonce n lo) [
      | inl e ↦ absurd (true_ne_false (sym (ap fits e ∙ h) ∙ not_here))
      | inr later ↦
          mine_next left nonce not_here
          ∙ mine-first left (nonce + 1) n (omega arith) (omega arith) h
              (λ k lo' hi'. before k (omega arith) hi')
    ]
  ]

-- What the outputs take together.
abbrev pub total : List TransactionOutput → ℕ
total [] = 0
total (o ∷ os) = o.value + total os

total-replicate : (n : ℕ) (o : TransactionOutput) → total (replicate n o) ≡ n * o.value
total-replicate zero o = omega arith
total-replicate (suc n) o =
    let e : suc n * o.value ≡ o.value + n * o.value = omega arith in
    omega (arith, e, total-replicate n o)

total_le :
    (amount n : ℕ) (script : List ℕ) (os : List TransactionOutput)
    → os ≡ replicate n (record { value = amount / n; script_public_key = script })
    → total os ≤ amount
total_le amount n script os e =
    subst (λ (t : ℕ). t ≤ amount)
      (sym (
        ap total e ∙ total-replicate n (record { value = amount / n; script_public_key = script })))
      (mul-div-le amount n)

-- Where some 32-bit nonce gives an id that follows the pattern, a transaction is built: its id
-- follows the pattern, its payload has the generator's prefix and carries the data, it is the one
-- at the first such nonce, and its outputs take no more than the amount that is sent.
pub build_transaction-first :
    (c : Consensus) (pattern : PatternType) (prefix : ℕ) (utxos : List (Outpoint × UtxoEntry))
    (send_amount num_outs : ℕ) (recipient inner : List ℕ) (n : ℕ)
    → IsSegregated c
    → let tx = unsigned c pattern utxos send_amount num_outs recipient (pack_header inner prefix) in
      n < u32_mod
      → fits c pattern tx prefix inner n ≡ true
      → ((k : ℕ) → k < n → fits c pattern tx prefix inner k ≡ false)
      → (signed : Transaction) × (build_transaction c pattern prefix utxos send_amount num_outs
            recipient inner
          ≡ some signed)
        × (c.id signed ≡ c.id (at_nonce tx prefix inner n))
        × (check_pattern (c.id signed) pattern ≡ true)
        × (check_header signed.payload prefix ≡ true)
        × (strip_header signed.payload ≡ some inner)
        × (length signed.outputs ≡ num_outs)
        × (total signed.outputs ≤ send_amount)
unfolding build_transaction pack_header
build_transaction-first c pattern prefix utxos send_amount num_outs recipient inner n seg hn h
      before =
    let tx = unsigned c pattern utxos send_amount num_outs recipient (pack_header inner prefix) in
    let mined = at_nonce tx prefix inner n in
    let entries = map (λ (u : Outpoint × UtxoEntry). u.1) utxos in
    let signed = c.sign mined entries in
    let same : c.id signed ≡ c.id mined = seg.id-sign mined entries in
    let outs : signed.outputs ≡ mined.outputs = seg.outputs-sign mined entries in
    let carried : signed.payload ≡ framed prefix n inner = seg.payload-sign mined entries in
    (
      signed,
      rw
          (
            mine-first c pattern tx prefix inner (u32_mod - 1) 0 n (omega arith) (omega arith) h
                (λ k lo hi. before k hi),
            build_transaction,
          )
          refl,
      same,
      ap (λ (i : ℕ). check_pattern i pattern) same ∙ h,
      ap (λ (p : List ℕ). check_header p prefix) carried
          ∙ check_header-framed prefix n prefix inner
          ∙ bytes_eq_self (to_le_bytes 4 prefix),
      ap strip_header carried ∙ strip_header-framed prefix n inner,
      ap length outs ∙ length-replicate num_outs _,
      total_le send_amount num_outs (c.pay_to_address_script recipient) signed.outputs outs,
    )
