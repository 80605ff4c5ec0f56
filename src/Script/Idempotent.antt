-- ===== src/Script/Idempotent.antt =====
-- Normalising a script of examples/kdapp-merchant/src/script.rs twice is normalising it once.
use native.Mathlib.Nat.{pow-suc, pow-le-pow_right}
use kdapp.Base.{
  ℕ, zero, suc, ◌*◌, ◌≤◌, ◌<◌, ◌^◌, ◌≡◌, refl, sym, ap, subst, ◌∙◌, Bool, true, false, ◌&&◌, Option,
  none, some, List, [], ◌∷◌, ◌++◌, length, take, drop, all, length-append, length-take, leb, ltb,
  ◌==◌, arith, Bool-cases, Option-cases, inl, inr, from_le_bytes,
}
use kdapp.Episode.{Result, ok, err}
use kdapp.Script.{
  ScriptError, malformed_script, canonicalize_push, sized_push, item, prepend, normalize_from,
  normalize_script_bytes,
}
use kdapp.Script.Normal.{
  normalize_from-cons, normalize_from-malformed, normalize_from_total, more_fuel,
}
use kdapp.Script.Canonical.{IsItem, item_of, short_push, canonicalize_push-IsItem}

-- Every number of the list is a byte.
abbrev pub are_bytes : List ℕ → Bool
are_bytes = all (λ b. ltb b 256)

are_bytes-take : (n : ℕ) (xs : List ℕ) → are_bytes xs ≡ true → are_bytes (take n xs) ≡ true
are_bytes-take zero xs h = refl
are_bytes-take (suc n) [] h = refl
are_bytes-take (suc n) (x ∷ xs) h = ground (arith, are_bytes-take n xs)

are_bytes-drop : (n : ℕ) (xs : List ℕ) → are_bytes xs ≡ true → are_bytes (drop n xs) ≡ true
are_bytes-drop zero xs h = h
are_bytes-drop (suc n) [] h = refl
are_bytes-drop (suc n) (x ∷ xs) h = are_bytes-drop n xs (ground arith)

from_le_bytes_lt : (xs : List ℕ) → are_bytes xs ≡ true → from_le_bytes xs < 256 ^ length xs
from_le_bytes_lt [] h = omega arith
from_le_bytes_lt (x ∷ xs) h =
    let b : x < 256 = ground arith in
    let bs : are_bytes xs ≡ true = ground arith in
    let e : 256 ^ suc (length xs) ≡ 256 ^ length xs * 256 = pow-suc 256 (length xs) in
    omega (arith, b, e, from_le_bytes_lt xs bs)

-- How a sized push and a round go through.
sized_push_ok :
    (width : ℕ) (rest written left : List ℕ)
    → sized_push width rest ≡ some (written, left)
    → (width ≤ length rest)
      × (written ≡ canonicalize_push (take (from_le_bytes (take width rest)) (drop width rest)))
      × (left ≡ drop (from_le_bytes (take width rest)) (drop width rest))
unfolding sized_push
sized_push_ok width rest written left h = ground arith

sized_push-IsItem :
    (width : ℕ) (rest written left : List ℕ)
    → width ≤ 4
    → are_bytes rest ≡ true
    → sized_push width rest ≡ some (written, left)
    → IsItem written × (are_bytes left ≡ true)
sized_push-IsItem width rest written left small bytes h =
    let (long, w, l) = sized_push_ok width rest written left h in
    let len = from_le_bytes (take width rest) in
    let body = drop width rest in
    let width_eq : length (take width rest) ≡ width = omega (arith, length-take width rest, long) in
    let below : len < 256 ^ width =
      subst (λ (k : ℕ). len < 256 ^ k) width_eq
        (from_le_bytes_lt (take width rest) (are_bytes-take width rest bytes)) in
    let most : 256 ^ width ≤ 256 ^ 4 = pow-le-pow_right (omega arith) small in
    let cut : length (take len body) ≤ len = omega (arith, length-take len body) in
    (
      subst IsItem (sym w)
          (canonicalize_push-IsItem (take len body) (omega (arith, below, cut, most))),
      subst (λ (x : List ℕ). are_bytes x ≡ true) (sym l)
          (are_bytes-drop len body (are_bytes-drop width rest bytes)),
    )

plain_left :
    (opcode : ℕ) (rest written left : List ℕ)
    → (leb 1 opcode && leb opcode 75) ≡ false
    → (opcode == 76) ≡ false
    → (opcode == 77) ≡ false
    → (opcode == 78) ≡ false
    → item opcode rest ≡ some (written, left)
    → rest ≡ left
unfolding item
plain_left opcode rest written left a b c d h = ground arith

short_push-IsItem :
    (opcode : ℕ) (rest written left : List ℕ)
    → are_bytes rest ≡ true
    → leb 1 opcode && leb opcode 75 ≡ true
    → opcode ≤ length rest
    → written ≡ opcode ∷ take opcode rest
    → left ≡ drop opcode rest
    → IsItem written × (are_bytes left ≡ true)
short_push-IsItem opcode rest written left bytes short long w l = (
  item_of written opcode (take opcode rest) w (λ t.
      short_push opcode (take opcode rest) t (omega (arith, length-take opcode rest, long)) short),
  subst (λ (x : List ℕ). are_bytes x ≡ true) (sym l) (are_bytes-drop opcode rest bytes),
)

item-IsItem :
    (opcode : ℕ) (rest written left : List ℕ)
    → are_bytes rest ≡ true
    → item opcode rest ≡ some (written, left)
    → IsItem written × (are_bytes left ≡ true)
unfolding item
item-IsItem opcode rest written left bytes h = elim (Bool-cases (leb 1 opcode && leb opcode 75)) [
  | inl short ↦
      short_push-IsItem opcode rest written left bytes short (ground (arith, short))
        (ground (arith, short)) (ground (arith, short))
  | inr a ↦ elim (Bool-cases (opcode == 76)) [
    | inl one ↦ sized_push-IsItem 1 rest written left (omega arith) bytes (ground (arith, a, one))
    | inr b ↦ elim (Bool-cases (opcode == 77)) [
      | inl two ↦
          sized_push-IsItem 2 rest written left (omega arith) bytes (ground (arith, a, b, two))
      | inr c ↦ elim (Bool-cases (opcode == 78)) [
        | inl four ↦
            sized_push-IsItem 4 rest written left (omega arith) bytes
              (ground (arith, a, b, c, four))
        | inr d ↦ (
          item_of written opcode [] (ground (arith, a, b, c, d)) (λ t. rw (a, b, c, d) refl),
          subst (λ (x : List ℕ). are_bytes x ≡ true) (plain_left opcode rest written left a b c d h)
              bytes,
        )
      ]
    ]
  ]
]

malformed_ne :
    {t : List ℕ}
    → ¬ (◌≡◌ {A = Option (Result ScriptError (List ℕ))} (some (err malformed_script)) (some (ok t)))
malformed_ne h = cc

prepend_ok :
    (written t : List ℕ) (r : Option (Result ScriptError (List ℕ)))
    → prepend written r ≡ some (ok t)
    → (more : List ℕ) × (r ≡ some (ok more)) × (t ≡ written ++ more)
prepend_ok written t none h = absurd (ground arith)
prepend_ok written t (some (err e)) h = absurd (ground arith)
prepend_ok written t (some (ok more)) h = (more, refl, ground arith)

-- A round that is written is read back as it is, before what is normal.
normalize_from-again :
    (written more : List ℕ)
    → IsItem written
    → normalize_from (length more) more ≡ some (ok more)
    → normalize_from (length (written ++ more)) (written ++ more) ≡ some (ok (written ++ more))
normalize_from-again written more it h =
    let same : written ++ more ≡ it.opcode ∷ (it.body ++ more) =
      ap (λ (w : List ℕ). w ++ more) it.whole in
    let shorter : length more ≤ length (it.body ++ more) =
      omega (arith, length-append it.body more) in
    ap (λ (bs : List ℕ). normalize_from (length bs) bs) same
    ∙ normalize_from-cons (length (it.body ++ more)) it.opcode (it.body ++ more) written more
        (it.again more)
    ∙ ap (prepend written)
        (more_fuel (length (it.body ++ more)) (length more) more shorter (omega arith) ∙ h)

normalize_from-twice :
    (fuel : ℕ) (bytes t : List ℕ)
    → are_bytes bytes ≡ true
    → normalize_from fuel bytes ≡ some (ok t)
    → normalize_from (length t) t ≡ some (ok t)
unfolding normalize_from
normalize_from-twice zero [] t b h = let e : t ≡ [] = ground arith in rw e refl
normalize_from-twice (suc fuel) [] t b h = let e : t ≡ [] = ground arith in rw e refl
normalize_from-twice zero (opcode ∷ rest) t b h = absurd (ground arith)
normalize_from-twice (suc fuel) (opcode ∷ rest) t b h = elim (Option-cases (item opcode rest)) [
  | inl bad ↦ absurd (malformed_ne (sym (normalize_from-malformed fuel opcode rest bad) ∙ h))
  | inr ((written, left), good) ↦
      let (it, lb) = item-IsItem opcode rest written left (ground (arith, b)) good in
      let (more, e, w) =
        prepend_ok written t (normalize_from fuel left)
          (sym (normalize_from-cons fuel opcode rest written left good) ∙ h) in
      subst (λ (x : List ℕ). normalize_from (length x) x ≡ some (ok x)) (sym w)
        (normalize_from-again written more it (normalize_from-twice fuel left more lb e))
]

-- Normalising any bytes ends, and a script that it gives is normal: normalising it again gives
-- the same script.
pub normalize_script_bytes-normalize_script_bytes :
    (bytes : List ℕ)
    → are_bytes bytes ≡ true
    → (r : Result ScriptError (List ℕ)) × (normalize_script_bytes bytes ≡ some r)
      × ((t : List ℕ) → r ≡ ok t → normalize_script_bytes t ≡ some (ok t))
unfolding normalize_script_bytes
normalize_script_bytes-normalize_script_bytes bytes b =
    let (r, e) = normalize_from_total (length bytes) bytes (omega arith) in
    (
      r,
      e,
      λ t h.
          normalize_from-twice (length bytes) bytes t b
            (e ∙ ap (λ (x : Result ScriptError (List ℕ)). some x) h),
    )
