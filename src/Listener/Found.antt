-- ===== src/Listener/Found.antt =====
-- The count of missing payloads is right: the search of kdapp/src/proxy.rs.
use kdapp.Base.{
  ℕ, suc, ◌-◌, ◌≡◌, refl, true, Option, none, some, List, [], ◌∷◌, length, Map, lookup, insert,
  contains, contains_key, contains_key-insert, ◌==◌, if◌then◌else◌, arith, Bool-cases, Option-cases,
  inl, inr, ==_iff, sym, ◌≤◌, ◌∙◌, ap,
}
use kdapp.Episode.{TxStatus}
use kdapp.Message.{EngineMsg}
use kdapp.Generator.{PatternType}
use kdapp.Listener.{Required, AcceptingBlock}
use kdapp.Listener.Taken.{distinct}
use kdapp.Listener.Owed.{owed}
use kdapp.Listener.Once.{deliveries, dispatch-deliveries}
use kdapp.Listener.Search.{
  MergedTx, empty_slots, fill, needs, search_block, skip_coinbase, search_blocks, required,
  searched, deliver,
}

unfoldable pub missing : Map (Option (List ℕ)) → ℕ
missing [] = 0
missing ((_, none) ∷ m) = suc (missing m)
missing ((_, some _) ∷ m) = missing m

missing-insert :
    (id : ℕ) (payload : List ℕ) (m : Map (Option (List ℕ)))
    → lookup id m ≡ some none
    → missing m ≡ suc (missing (insert id (some payload) m))
unfolding missing
missing-insert id payload [] h = ground arith
missing-insert id payload ((i, none) ∷ m) h = ground (arith, missing-insert id payload m)
missing-insert id payload ((i, some p) ∷ m) h = ground (arith, missing-insert id payload m)

needs-lookup :
    (tx : MergedTx) (req : Required) (id : ℕ)
    → needs tx req ≡ some id
    → lookup id req.payloads ≡ some none
unfolding needs
needs-lookup tx req id h = ground arith

-- The state of the search that began with these payloads.
record IsCounted (start : Required) (found : Required × ℕ) : Type 0 where
  counted : found.1 ≡ missing found.0.payloads
  keys : (j : ℕ) → contains_key j found.0.payloads ≡ contains_key j start.payloads

IsCounted-fill :
    (start req : Required) (n : ℕ) (tx : MergedTx) (id : ℕ)
    → needs tx req ≡ some id
    → IsCounted start (req, n)
    → IsCounted start (fill tx id req, n - 1)
unfolding fill
IsCounted-fill start req n tx id h c =
    let slot = needs-lookup tx req id h in
    let less = missing-insert id tx.payload req.payloads slot in
    let sum = c.counted in
    record {
      counted = omega arith;
      keys = λ j.
          let same = c.keys j in
          ground (arith, contains_key-insert id j (some tx.payload) req.payloads);
    }

search_block-IsCounted :
    (start req : Required) (n : ℕ) (txs : List MergedTx)
    → IsCounted start (req, n)
    → IsCounted start (search_block txs req n)
unfolding search_block
search_block-IsCounted start req n [] c = c
search_block-IsCounted start req n (tx ∷ txs) c = elim (Option-cases (needs tx req)) [
  | inl h ↦ rw (h, search_block) (search_block-IsCounted start req n txs c)
  | inr (id, h) ↦
      let next = IsCounted-fill start req n tx id h c in
      elim (Bool-cases (n - 1 == 0)) [
        | inl stop ↦ rw (h, search_block) (rw (stop, search_block) next)
        | inr on ↦
            rw (h, search_block)
              (rw (on, search_block)
                (search_block-IsCounted start (fill tx id req) (n - 1) txs next))
      ]
]

search_blocks-IsCounted :
    (start req : Required) (n : ℕ) (blocks : List (Option (List MergedTx)))
    → IsCounted start (req, n)
    → IsCounted start (search_blocks blocks req n)
unfolding search_blocks
search_blocks-IsCounted start req n [] c = c
search_blocks-IsCounted start req n (none ∷ blocks) c = search_blocks-IsCounted start req n blocks c
search_blocks-IsCounted start req n (some txs ∷ blocks) c =
    let next = search_block-IsCounted start req n (skip_coinbase txs) c in
    elim (Bool-cases ((search_block (skip_coinbase txs) req n).1 == 0)) [
      | inl stop ↦ rw (stop, search_blocks) next
      | inr on ↦
          rw (on, search_blocks)
            (search_blocks-IsCounted start (search_block (skip_coinbase txs) req n).0
              (search_block (skip_coinbase txs) req n).1 blocks next)
    ]

missing_le : (m : Map (Option (List ℕ))) → missing m ≤ length m
unfolding missing
missing_le [] = omega arith
missing_le ((i, none) ∷ m) = let rest = missing_le m in omega arith
missing_le ((i, some p) ∷ m) = let rest = missing_le m in omega arith

empty_insert :
    (id : ℕ) (m : Map (Option (List ℕ)))
    → missing m ≡ length m
    → missing (insert id none m) ≡ length (insert id none m)
unfolding missing
empty_insert id [] h = refl
empty_insert id ((i, none) ∷ m) h = ground (arith, empty_insert id m)
empty_insert id ((i, some p) ∷ m) h = let few = missing_le m in absurd (omega arith)

missing-empty_slots :
    (ids : List ℕ)
    → missing (empty_slots {A = List ℕ} none ids) ≡ length (empty_slots {A = List ℕ} none ids)
unfolding missing empty_slots
missing-empty_slots [] = refl
missing-empty_slots (id ∷ ids) = empty_insert id (empty_slots none ids) (missing-empty_slots ids)

contains_key-empty_slots :
    {A : Type 0} (slot : Option A) (ids : List ℕ) (j : ℕ)
    → contains_key j (empty_slots slot ids) ≡ contains ids j
unfolding empty_slots
contains_key-empty_slots slot [] j = refl
contains_key-empty_slots slot (id ∷ ids) j =
    let rest = contains_key-empty_slots slot ids j in
    ground (arith, contains_key-insert id j slot (empty_slots slot ids))

required-IsCounted :
    (status : TxStatus) (ids : List ℕ)
    → IsCounted (required status ids) (required status ids, length (required status ids).payloads)
unfolding required
required-IsCounted status ids = record { counted = sym (missing-empty_slots ids); keys = λ j. refl }

none_missing :
    (start : Required) (found : Required × ℕ)
    → IsCounted start found
    → (found.1 == 0) ≡ (missing found.0.payloads == 0)
none_missing start found c = ap (λ (n : ℕ). n == 0) c.counted

nothing_owed :
    (engines : List (ℕ × PatternType)) (ids : List ℕ) (req : Required) (j : ℕ)
    → length ids ≡ 0
    → owed engines ids req j ≡ 0
unfolding owed
nothing_owed engines [] req j h = refl
nothing_owed engines (id ∷ ids) req j h = absurd (omega arith)

length-insert : (id : ℕ) (m : Map (Option (List ℕ))) → 1 ≤ length (insert id none m)
length-insert id [] = omega arith
length-insert id ((i, v) ∷ m) = ground arith

slots_none : (ids : List ℕ) → length (empty_slots {A = List ℕ} none ids) ≡ 0 → length ids ≡ 0
unfolding empty_slots
slots_none [] h = refl
slots_none (id ∷ ids) h =
    let some_slot = length-insert id (empty_slots {A = List ℕ} none ids) in absurd (omega arith)

-- Handing out an accepting block whose required transactions are listed once never panics. If after
-- the search no payload is missing, each required transaction is delivered exactly once where some
-- engine has its pattern and prefix, and no other is delivered; if one is missing, nothing is
-- delivered at all.
pub deliver-deliveries :
    (block : AcceptingBlock) (status : TxStatus) (engines : List (ℕ × PatternType)) (ids : List ℕ)
    (blocks : List (Option (List MergedTx)))
    → distinct ids ≡ true
    → (sent : List (ℕ × EngineMsg)) × (deliver block status engines ids blocks ≡ some sent)
      × ((tx_id : ℕ)
          → deliveries tx_id sent ≡ (
              if missing (searched status ids blocks).0.payloads == 0
              then owed engines ids (searched status ids blocks).0 tx_id
              else 0))
unfolding deliver deliveries required searched
deliver-deliveries block status engines ids blocks d =
    let start = required-IsCounted status ids in
    let c =
      search_blocks-IsCounted (required status ids) (required status ids)
        (length (required status ids).payloads) blocks start in
    let same = none_missing (required status ids) (searched status ids blocks) c in
    elim (Bool-cases (length (required status ids).payloads == 0)) [
      | inl empty ↦
          let no_ids =
            slots_none ids ((==_iff (length (required status ids).payloads) 0).0 empty) in
          (
            [],
            rw (empty, deliver) refl,
            λ j.
                let zero_owed = nothing_owed engines ids (searched status ids blocks).0 j no_ids in
                ground arith,
          )
      | inr some_slots ↦ elim (Bool-cases ((searched status ids blocks).1 == 0)) [
        | inr lacking ↦ (
          [],
          rw (some_slots, deliver) (rw (lacking, deliver) refl),
          λ j. let no = sym same ∙ lacking in rw (no) refl,
        )
        | inl complete ↦
            let (sent, e, exact) =
              dispatch-deliveries block engines ids (searched status ids blocks).0 d
                (λ j h. c.keys j ∙ contains_key-empty_slots none ids j ∙ h) in
            (
              sent,
              rw (some_slots, deliver) (rw (complete, deliver) e),
              λ j. let yes = sym same ∙ complete in rw (yes) (exact j),
            )
      ]
    ]
