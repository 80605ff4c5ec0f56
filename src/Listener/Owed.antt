-- ===== src/Listener/Owed.antt =====
-- Which transactions are to be delivered by the loop over the engines in kdapp/src/proxy.rs.
use kdapp.Base.{
  ℕ, ◌+◌, ◌≡◌, refl, Bool, true, false, none, some, List, [], ◌∷◌, lookup, if◌then◌else◌, arith,
  Bool-cases, Option-cases, inl, inr, ◌∙◌, ◌&&◌, sym, contains,
}
use kdapp.Message.{AssociatedTx}
use kdapp.Generator.{PatternType}
use kdapp.Listener.{Required, consumable}
use kdapp.Listener.Taken.{count, present, left, Taken, consumable-present}

-- Some engine consumes the transaction.
unfoldable pub wanted : List (ℕ × PatternType) → ℕ → Required → Bool
wanted [] id req = false
wanted ((prefix, pattern) ∷ engines) id req =
    let rest = wanted engines id req in
    elim (consumable pattern prefix id req) [ none ↦ rest | some _ ↦ true ]

-- How often a transaction is to be delivered.
unfoldable pub owed : List (ℕ × PatternType) → List ℕ → Required → ℕ → ℕ
owed engines ids req id = if contains ids id && wanted engines id req then 1 else 0

consumable_same :
    (pattern : PatternType) (prefix j : ℕ) (req req' : Required)
    → lookup j req'.payloads ≡ lookup j req.payloads
    → consumable pattern prefix j req' ≡ consumable pattern prefix j req
unfolding consumable
consumable_same pattern prefix j req req' h = rw (h) refl

wanted_same :
    (engines : List (ℕ × PatternType)) (j : ℕ) (req req' : Required)
    → lookup j req'.payloads ≡ lookup j req.payloads
    → wanted engines j req' ≡ wanted engines j req
unfolding wanted
wanted_same [] j req req' h = refl
wanted_same ((prefix, pattern) ∷ engines) j req req' h =
    let same = consumable_same pattern prefix j req req' h in
    let rest = wanted_same engines j req req' h in ground arith

wanted_absent :
    (engines : List (ℕ × PatternType)) (j : ℕ) (req : Required)
    → present j req ≡ 0
    → wanted engines j req ≡ false
unfolding wanted
wanted_absent [] j req h = refl
wanted_absent ((prefix, pattern) ∷ engines) j req h =
    elim (Option-cases (consumable pattern prefix j req)) [
      | inl c ↦ rw (c, wanted) (wanted_absent engines j req h)
      | inr (payload, c) ↦
          let (here, _) = consumable-present pattern prefix j req payload c in absurd (ground arith)
    ]

present-none : (j : ℕ) (req : Required) → lookup j req.payloads ≡ none → present j req ≡ 0
unfolding present
present-none j req h = ground arith

left-present :
    (ids : List ℕ) (req : Required) (j : ℕ)
    → left ids req ≡ 0
    → contains ids j ≡ true
    → present j req ≡ 0
unfolding left
left-present [] req j h c = absurd (ground arith)
left-present (id ∷ ids) req j h c = ground (arith, left-present ids req j)

-- What an engine leaves is owed to the transactions that it does not consume.
wanted_rest :
    (pattern : PatternType) (prefix : ℕ) (engines : List (ℕ × PatternType)) (ids : List ℕ)
    (req req' : Required) (txs : List AssociatedTx) (j : ℕ)
    → Taken pattern prefix ids req txs req'
    → consumable pattern prefix j req ≡ none
    → wanted engines j req' ≡ wanted engines j req
wanted_rest pattern prefix engines ids req req' txs j t n = elim (t.kept j) [
  | inr same ↦ wanted_same engines j req req' same
  | inl gone ↦
      let sum = t.exact j in
      let untaken = t.never j n in
      let absent = present-none j req' gone in
      wanted_absent engines j req' absent ∙ sym (wanted_absent engines j req (omega arith))
]

pub owed_engine :
    (pattern : PatternType) (prefix : ℕ) (engines : List (ℕ × PatternType)) (ids : List ℕ)
    (req req' : Required) (txs : List AssociatedTx) (j : ℕ)
    → Taken pattern prefix ids req txs req'
    → count j txs + owed engines ids req' j ≡ owed ((prefix, pattern) ∷ engines) ids req j
unfolding owed wanted
owed_engine pattern prefix engines ids req req' txs j t = elim (Bool-cases (contains ids j)) [
  | inr out ↦ let zero_here = t.only j out in ground arith
  | inl within ↦ elim (Option-cases (consumable pattern prefix j req)) [
    | inl n ↦
        let untaken = t.never j n in
        let rest = wanted_rest pattern prefix engines ids req req' txs j t n in ground arith
    | inr (payload, c) ↦
        let (here, _) = consumable-present pattern prefix j req payload c in
        let taken = t.first j payload within c in
        let sum = t.exact j in let rest = wanted_absent engines j req' (omega arith) in ground arith
  ]
]

pub owed_none :
    (engines : List (ℕ × PatternType)) (ids : List ℕ) (req : Required) (j : ℕ)
    → left ids req ≡ 0
    → owed engines ids req j ≡ 0
unfolding owed
owed_none engines ids req j h = elim (Bool-cases (contains ids j)) [
  | inr out ↦ ground arith
  | inl within ↦
      let absent = wanted_absent engines j req (left-present ids req j h within) in ground arith
]
