-- ===== src/Listener/Taken.antt =====
-- What one engine consumes of the transactions of a block in kdapp/src/proxy.rs, and leaves to others.
use kdapp.Base.{
  ℕ, suc, ◌+◌, ◌≤◌, ◌≡◌, refl, Bool, true, false, none, some, List, [], ◌∷◌, length, lookup,
  contains_key, contains_key-remove, ◌==◌, if◌then◌else◌, arith, Bool-cases, Option-cases, inl, inr,
  ◌⊎◌, ◌∙◌, ==_iff, sym, ap, contains, lookup-remove, ltb, drop,
}
use kdapp.Message.{AssociatedTx}
use kdapp.Generator.{PatternType, check_header, strip_header}
use kdapp.Listener.{Required, consumable, without, associated, associated_txs}

unfoldable pub count : ℕ → List AssociatedTx → ℕ
count id [] = 0
count id (tx ∷ txs) = let rest = count id txs in if tx.tx_id == id then suc rest else rest

unfoldable pub present : ℕ → Required → ℕ
present id req = if contains_key id req.payloads then 1 else 0

present-without :
    (id j : ℕ) (req : Required)
    → present j (without id req) ≡ (if id == j then 0 else present j req)
unfolding present without
present-without id j req = ground (arith, contains_key-remove id j req.payloads)

pub consumable-present :
    (pattern : PatternType) (prefix id : ℕ) (req : Required) (payload : List ℕ)
    → consumable pattern prefix id req ≡ some payload
    → (present id req ≡ 1) × (check_header payload prefix ≡ true)
unfolding present consumable
consumable-present pattern prefix id req payload h = ground arith

strip_total :
    (payload : List ℕ) (prefix : ℕ)
    → check_header payload prefix ≡ true
    → (inner : List ℕ) × (strip_header payload ≡ some inner)
unfolding check_header strip_header
strip_total payload prefix h = elim (Bool-cases (ltb (length payload) 8)) [
  | inl short ↦ absurd (ground arith)
  | inr long ↦ (drop 8 payload, rw long refl)
]

unfoldable pub distinct : List ℕ → Bool
distinct [] = true
distinct (id ∷ ids) = let rest = distinct ids in if contains ids id then false else rest

-- How many of the transactions are still to be consumed.
unfoldable pub left : List ℕ → Required → ℕ
unfolding present
left [] req = 0
left (id ∷ ids) req = present id req + left ids req

left-without :
    (id : ℕ) (ids : List ℕ) (req : Required)
    → contains ids id ≡ false
    → left ids (without id req) ≡ left ids req
unfolding left
left-without id [] req h = refl
left-without id (i ∷ ids) req h = ground (arith, left-without id ids req, present-without id i req)

consumable-without :
    (pattern : PatternType) (prefix id j : ℕ) (req : Required)
    → (id == j) ≡ false
    → consumable pattern prefix j (without id req) ≡ consumable pattern prefix j req
unfolding consumable without
consumable-without pattern prefix id j req h = rw (lookup-remove id j req.payloads, h) refl

-- What one engine takes away from what is left for the others.
pub record Taken (pattern : PatternType) (prefix : ℕ) (ids : List ℕ) (req : Required)
    (txs : List AssociatedTx) (req' : Required) : Type 0 where
  pub exact : (j : ℕ) → count j txs + present j req' ≡ present j req
  pub only : (j : ℕ) → contains ids j ≡ false → count j txs ≡ 0
  pub first :
      (j : ℕ) (payload : List ℕ)
      → contains ids j ≡ true
      → consumable pattern prefix j req ≡ some payload
      → 1 ≤ count j txs
  pub never : (j : ℕ) → consumable pattern prefix j req ≡ none → count j txs ≡ 0
  pub kept :
      (j : ℕ) → (lookup j req'.payloads ≡ none) ⊎ (lookup j req'.payloads ≡ lookup j req.payloads)
  pub sizes : distinct ids ≡ true → left ids req' + length txs ≡ left ids req

Taken-nil :
    (pattern : PatternType) (prefix : ℕ) (req : Required) → Taken pattern prefix [] req [] req
unfolding count distinct left
Taken-nil pattern prefix req = record {
  exact = λ j. omega arith;
  only = λ j h. refl;
  first = λ j payload h c. absurd (ground arith);
  never = λ j c. refl;
  kept = λ j. inr refl;
  sizes = λ d. omega arith;
}

Taken-skip :
    (pattern : PatternType) (prefix id : ℕ) (ids : List ℕ) (req : Required)
    (txs : List AssociatedTx) (req' : Required)
    → consumable pattern prefix id req ≡ none
    → Taken pattern prefix ids req txs req'
    → Taken pattern prefix (id ∷ ids) req txs req'
unfolding count distinct left
Taken-skip pattern prefix id ids req txs req' none_here t = record {
  exact = t.exact;
  only = λ j h. t.only j (ground arith);
  first = λ j payload h c. elim (Bool-cases (id == j)) [
    | inl here ↦ absurd (ground arith)
    | inr other ↦ t.first j payload (ground arith) c
  ];
  never = t.never;
  kept = t.kept;
  sizes = λ d.
      let rest = t.sizes (ground arith) in
      let zero_here = t.only id (ground arith) in let same = t.exact id in omega arith;
}

kept_without :
    (id j : ℕ) (req req' : Required)
    → (lookup j req'.payloads ≡ none)
      ⊎ (lookup j req'.payloads ≡ lookup j (without id req).payloads)
    → (lookup j req'.payloads ≡ none) ⊎ (lookup j req'.payloads ≡ lookup j req.payloads)
unfolding without
kept_without id j req req' (inl gone) = inl gone
kept_without id j req req' (inr same) = elim (Bool-cases (id == j)) [
  | inl here ↦ inl (same ∙ rw (lookup-remove id j req.payloads, here) refl)
  | inr other ↦ inr (same ∙ rw (lookup-remove id j req.payloads, other) refl)
]

clash :
    (pattern : PatternType) (prefix id j : ℕ) (req : Required) (payload : List ℕ)
    → consumable pattern prefix id req ≡ some payload
    → consumable pattern prefix j req ≡ none
    → (id == j) ≡ true
    → true ≡ false
clash pattern prefix id j req payload c n same =
    let e = (==_iff id j).0 same in
    let equal = sym c ∙ ap (λ (i : ℕ). consumable pattern prefix i req) e ∙ n in cc

Taken-take :
    (pattern : PatternType) (prefix id : ℕ) (ids : List ℕ) (req : Required) (payload inner : List ℕ)
    (txs : List AssociatedTx) (req' : Required)
    → present id req ≡ 1
    → consumable pattern prefix id req ≡ some payload
    → Taken pattern prefix ids (without id req) txs req'
    → Taken pattern prefix (id ∷ ids) req (associated id inner req ∷ txs) req'
unfolding count distinct left
Taken-take pattern prefix id ids req payload inner txs req' here c t = record {
  exact = λ j. ground (arith, t.exact j, present-without id j req);
  only = λ j h. ground (arith, t.only j);
  first = λ j p h k. elim (Bool-cases (id == j)) [
    | inl same ↦ ground arith
    | inr other ↦
        let later =
          t.first j p (ground arith) (consumable-without pattern prefix id j req other ∙ k) in
        ground arith
  ];
  never = λ j n. elim (Bool-cases (id == j)) [
    | inl same ↦ let bad = clash pattern prefix id j req payload c n same in absurd (ground arith)
    | inr other ↦
        let zero_later = t.never j (consumable-without pattern prefix id j req other ∙ n) in
        ground arith
  ];
  kept = λ j. kept_without id j req req' (t.kept j);
  sizes = λ d.
      let rest = t.sizes (ground arith) in
      let gone = t.exact id in
      let none_left = present-without id id req in
      let others = left-without id ids req (ground arith) in ground arith;
}

pub takes :
    (pattern : PatternType) (prefix : ℕ) (ids : List ℕ) (req : Required)
    → (txs : List AssociatedTx) × (req' : Required) × (associated_txs pattern prefix ids req
        ≡ some (txs, req'))
      × Taken pattern prefix ids req txs req'
unfolding associated_txs
takes pattern prefix [] req = ([], req, refl, Taken-nil pattern prefix req)
takes pattern prefix (id ∷ ids) req = elim (Option-cases (consumable pattern prefix id req)) [
  | inl c ↦
      let (txs, req', e, t) = takes pattern prefix ids req in
      (txs, req', rw (c, associated_txs) e, Taken-skip pattern prefix id ids req txs req' c t)
  | inr (payload, c) ↦
      let (here, headed) = consumable-present pattern prefix id req payload c in
      let (inner, f) = strip_total payload prefix headed in
      let (txs, req', e, t) = takes pattern prefix ids (without id req) in
      (
        associated id inner req ∷ txs,
        req',
        rw (c, associated_txs) (rw (f, associated_txs) (rw (e, associated_txs) refl)),
        Taken-take pattern prefix id ids req payload inner txs req' here c t,
      )
]
