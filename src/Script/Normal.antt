-- ===== src/Script/Normal.antt =====
-- `normalize_script_bytes` of examples/kdapp-merchant/src/script.rs ends, and gives a normal form.
use kdapp.Base.{
  ℕ, zero, suc, ◌≤◌, ◌≡◌, refl, sym, ap, ◌∙◌, none, some, List, [], ◌∷◌, ◌++◌, length, take, drop,
  length-drop, arith, Option-cases, inl, inr, from_le_bytes,
}
use kdapp.Episode.{Result, ok, err}
use kdapp.Script.{ScriptError, malformed_script, sized_push, item, prepend, normalize_from}

sized_push-left :
    (width : ℕ) (rest written left : List ℕ)
    → sized_push width rest ≡ some (written, left)
    → length left ≤ length rest
unfolding sized_push
sized_push-left width rest written left h =
    let len = from_le_bytes (take width rest) in
    let short : left ≡ drop len (drop width rest) = ground arith in
    omega (arith, ap length short, length-drop len (drop width rest), length-drop width rest)

-- A round leaves no more than what it found.
pub item-left :
    (opcode : ℕ) (rest written left : List ℕ)
    → item opcode rest ≡ some (written, left)
    → length left ≤ length rest
unfolding item
item-left opcode rest written left h = ground (
  arith,
  length-drop opcode rest,
  sized_push-left 1 rest written left,
  sized_push-left 2 rest written left,
  sized_push-left 4 rest written left,
)

pub normalize_from-cons :
    (fuel opcode : ℕ) (rest written left : List ℕ)
    → item opcode rest ≡ some (written, left)
    → normalize_from (suc fuel) (opcode ∷ rest) ≡ prepend written (normalize_from fuel left)
unfolding normalize_from
normalize_from-cons fuel opcode rest written left h = rw (h, normalize_from) refl

pub normalize_from-malformed :
    (fuel opcode : ℕ) (rest : List ℕ)
    → item opcode rest ≡ none
    → normalize_from (suc fuel) (opcode ∷ rest) ≡ some (err malformed_script)
unfolding normalize_from
normalize_from-malformed fuel opcode rest h = rw (h, normalize_from) refl

prepend_total :
    (written : List ℕ) (r : Result ScriptError (List ℕ))
    → (r' : Result ScriptError (List ℕ)) × (prepend written (some r) ≡ some r')
prepend_total written (ok more) = (ok (written ++ more), refl)
prepend_total written (err e) = (err e, refl)

-- Enough fuel gives a result.
pub normalize_from_total :
    (fuel : ℕ) (bytes : List ℕ)
    → length bytes ≤ fuel
    → (r : Result ScriptError (List ℕ)) × (normalize_from fuel bytes ≡ some r)
unfolding normalize_from
normalize_from_total zero [] h = (ok [], refl)
normalize_from_total (suc fuel) [] h = (ok [], refl)
normalize_from_total zero (opcode ∷ rest) h = absurd (omega arith)
normalize_from_total (suc fuel) (opcode ∷ rest) h = elim (Option-cases (item opcode rest)) [
  | inl bad ↦ (err malformed_script, normalize_from-malformed fuel opcode rest bad)
  | inr ((written, left), good) ↦
      let (r, e) =
        normalize_from_total fuel left
          (omega (arith, item-left opcode rest written left good, h)) in
      let (r', e') = prepend_total written r in
      (r', normalize_from-cons fuel opcode rest written left good ∙ ap (prepend written) e ∙ e')
]

-- Any fuel that is enough gives the same.
pub more_fuel :
    (f g : ℕ) (bytes : List ℕ)
    → length bytes ≤ f
    → length bytes ≤ g
    → normalize_from f bytes ≡ normalize_from g bytes
unfolding normalize_from
more_fuel zero zero [] h k = refl
more_fuel (suc f) zero [] h k = refl
more_fuel zero (suc g) [] h k = refl
more_fuel (suc f) (suc g) [] h k = refl
more_fuel zero g (opcode ∷ rest) h k = absurd (omega arith)
more_fuel (suc f) zero (opcode ∷ rest) h k = absurd (omega arith)
more_fuel (suc f) (suc g) (opcode ∷ rest) h k = elim (Option-cases (item opcode rest)) [
  | inl bad ↦
      normalize_from-malformed f opcode rest bad ∙ sym (normalize_from-malformed g opcode rest bad)
  | inr ((written, left), good) ↦
      let shorter : length left ≤ length rest = item-left opcode rest written left good in
      normalize_from-cons f opcode rest written left good
      ∙ ap (prepend written)
          (more_fuel f g left (omega (arith, shorter, h)) (omega (arith, shorter, k)))
      ∙ sym (normalize_from-cons g opcode rest written left good)
]
