-- ===== src/Script/Canonical.antt =====
-- What `normalize_script_bytes` of examples/kdapp-merchant/src/script.rs writes it reads back.
use kdapp.Base.{
  ℕ, ◌≤◌, ◌<◌, ◌^◌, ◌≡◌, refl, sym, ap, ◌∙◌, true, false, ◌&&◌, some, List, [], ◌∷◌, ◌++◌, length,
  take, drop, length-append, length-to_le_bytes, take-append, drop-append, leb, ltb, ◌==◌, arith,
  Bool-cases, inl, inr, to_le_bytes, from_le_bytes, from_le_bytes-to_le_bytes,
}
use kdapp.Script.{canonicalize_push, sized_push, item}

sized_push-read :
    (width : ℕ) (rest : List ℕ) (n : ℕ) (d t : List ℕ)
    → width ≤ length rest
    → from_le_bytes (take width rest) ≡ n
    → drop width rest ≡ d ++ t
    → length d ≡ n
    → sized_push width rest ≡ some (canonicalize_push d, t)
unfolding sized_push
sized_push-read width rest n d t long read body len =
    let enough : ltb (length rest) width ≡ false = ground arith in
    let fits : ltb (length (d ++ t)) n ≡ false = ground (arith, length-append d t) in
    rw (enough, read, body, fits, take-append d t n len, drop-append d t n len) refl

sized_push-again :
    (width : ℕ) (d t : List ℕ)
    → length d < 256 ^ width
    → sized_push width (to_le_bytes width (length d) ++ (d ++ t)) ≡ some (canonicalize_push d, t)
sized_push-again width d t h =
    let w : length (to_le_bytes width (length d)) ≡ width = length-to_le_bytes width (length d) in
    sized_push-read width (to_le_bytes width (length d) ++ (d ++ t)) (length d) d t
      (omega (arith, length-append (to_le_bytes width (length d)) (d ++ t), w))
      (ap from_le_bytes (take-append (to_le_bytes width (length d)) (d ++ t) width w)
        ∙ from_le_bytes-to_le_bytes width (length d) h)
      (drop-append (to_le_bytes width (length d)) (d ++ t) width w) refl

-- What is written for a round: an opcode and its bytes, which one round reads back whatever comes
-- next.
pub record IsItem (written : List ℕ) : Type 0 where
  pub opcode : ℕ
  pub body : List ℕ
  pub whole : written ≡ opcode ∷ body
  pub again : (t : List ℕ) → item opcode (body ++ t) ≡ some (written, t)

pub short_push :
    (n : ℕ) (d t : List ℕ)
    → length d ≡ n
    → leb 1 n && leb n 75 ≡ true
    → item n (d ++ t) ≡ some (n ∷ d, t)
unfolding item
short_push n d t len h =
    let fits : ltb (length (d ++ t)) n ≡ false = ground (arith, length-append d t) in
    rw (h, fits, take-append d t n len, drop-append d t n len) refl

-- An item in the form that it is written in, and read back.
pub item_of :
    (written : List ℕ) (opcode : ℕ) (body : List ℕ)
    → written ≡ opcode ∷ body
    → ((t : List ℕ) → item opcode (body ++ t) ≡ some (opcode ∷ body, t))
    → IsItem written
item_of written opcode body whole again = record {
  opcode = opcode;
  body = body;
  whole = whole;
  again = λ t. again t ∙ ap (λ (w : List ℕ). some (w, t)) (sym whole);
}

-- The same for a push whose size is written out.
push_of :
    (d : List ℕ) (opcode : ℕ) (body : List ℕ)
    → canonicalize_push d ≡ opcode ∷ body
    → ((t : List ℕ) → item opcode (body ++ t) ≡ some (canonicalize_push d, t))
    → IsItem (canonicalize_push d)
push_of d opcode body whole again = record {
  opcode = opcode;
  body = body;
  whole = whole;
  again = again;
}

pub canonicalize_push-IsItem : (d : List ℕ) → length d < 256 ^ 4 → IsItem (canonicalize_push d)
unfolding canonicalize_push item
canonicalize_push-IsItem d h = elim (Bool-cases (length d == 0)) [
  | inl empty ↦ item_of (canonicalize_push d) 0 [] (rw empty refl) (λ t. refl)
  | inr more ↦ elim (Bool-cases (leb (length d) 75)) [
    | inl a ↦
        item_of (canonicalize_push d) (length d) d (rw (more, a) refl)
          (λ t. short_push (length d) d t refl (ground (arith, more, a)))
    | inr a ↦ elim (Bool-cases (leb (length d) 255)) [
      | inl b ↦ push_of d 76 (length d ∷ d) (rw (more, a, b) refl) (λ t.
          sized_push-read 1 (length d ∷ (d ++ t)) (length d) d t (omega arith) (omega arith) refl
            refl)
      | inr b ↦ elim (Bool-cases (leb (length d) 65535)) [
        | inl c ↦
            push_of d 77 (to_le_bytes 2 (length d) ++ d) (rw (more, a, b, c) refl)
              (λ t. sized_push-again 2 d t (ground (arith, c)))
        | inr c ↦
            push_of d 78 (to_le_bytes 4 (length d) ++ d) (rw (more, a, b, c) refl)
              (λ t. sized_push-again 4 d t h)
      ]
    ]
  ]
]
