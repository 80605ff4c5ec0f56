-- ===== src/Text/Decimal.antt =====
-- Printing a number and parsing it, in the standard library.
use kdapp.Base.{
  ℕ, zero, suc, ◌+◌, ◌-◌, ◌*◌, ◌/◌, ◌%◌, ◌<◌, ◌≡◌, ◌≤◌, refl, ap, ◌∙◌, length, length-append, true,
  false, ◌&&◌, Option, none, some, List, [], ◌∷◌, ◌++◌, ltb, ◌==◌, u64_mod, arith, Bool-cases, inl,
  inr,
}
use kdapp.Text.{is_digit, decimal, print_u64, parse_digits, parse_u64, until}

abbrev bind : Option ℕ → (ℕ → Option ℕ) → Option ℕ
bind none f = none
bind (some n) f = f n

parse_digits-append :
    (acc : ℕ) (text : List ℕ) (c : ℕ)
    → parse_digits acc (text ++ c ∷ [])
      ≡ bind (parse_digits acc text) (λ n. parse_digits n (c ∷ []))
unfolding parse_digits
parse_digits-append acc [] c = refl
parse_digits-append acc (d ∷ text) c =
    elim (Bool-cases (is_digit d && ltb (acc * 10 + (d - 48)) u64_mod)) [
      | inl fits ↦ rw fits (parse_digits-append (acc * 10 + (d - 48)) text c)
      | inr bad ↦ rw bad refl
    ]

parse_last :
    (n d : ℕ) → d < 10 → n * 10 + d < u64_mod → parse_digits n ((48 + d) ∷ []) ≡ some (n * 10 + d)
unfolding parse_digits is_digit
parse_last n d h k = ground arith

abbrev pow_ten : ℕ → ℕ
pow_ten zero = 1
pow_ten (suc k) = 10 * pow_ten k

parse_digits-decimal :
    (fuel n : ℕ) → n < pow_ten fuel → n < u64_mod → parse_digits 0 (decimal fuel n) ≡ some n
unfolding decimal parse_digits
parse_digits-decimal zero n h k = ap some (omega arith)
parse_digits-decimal (suc fuel) n h k = elim (Bool-cases (ltb n 10)) [
  | inl small ↦ rw small (parse_last 0 n (ground arith) (omega arith) ∙ ap some (omega arith))
  | inr large ↦
      let front = parse_digits-decimal fuel (n / 10) (omega arith) (omega arith) in
      let last = parse_last (n / 10) (n % 10) (omega arith) (omega arith) in
      let whole : n / 10 * 10 + n % 10 ≡ n = omega arith in
      rw large (
        parse_digits-append 0 (decimal fuel (n / 10)) (48 + n % 10)
        ∙ rw front (last ∙ ap some whole))
]

-- The digits of a number: none of them is a separator or a sign.
AllDigits : List ℕ → Type 0
AllDigits [] = Unit {0}
AllDigits (c ∷ text) = (is_digit c ≡ true) × AllDigits text

AllDigits-append :
    (text : List ℕ) (c : ℕ) → AllDigits text → is_digit c ≡ true → AllDigits (text ++ c ∷ [])
unfolding AllDigits
AllDigits-append [] c h d = (d, tt)
AllDigits-append (e ∷ text) c (h, t) d = (h, AllDigits-append text c t d)

decimal-AllDigits : (fuel n : ℕ) → AllDigits (decimal fuel n)
unfolding decimal AllDigits is_digit
decimal-AllDigits zero n = tt
decimal-AllDigits (suc fuel) n = elim (Bool-cases (ltb n 10)) [
  | inl small ↦ rw small (ground arith, tt)
  | inr large ↦ rw large (
      AllDigits-append (decimal fuel (n / 10)) (48 + n % 10) (decimal-AllDigits fuel (n / 10))
        (ground arith))
]

until-AllDigits : (text rest : List ℕ) → AllDigits text → until 95 (text ++ 95 ∷ rest) ≡ text
unfolding until AllDigits is_digit
until-AllDigits [] rest h = refl
until-AllDigits (c ∷ text) rest (h, t) = ground (arith, until-AllDigits text rest t)

parse_u64-AllDigits :
    (text : List ℕ) (n : ℕ)
    → AllDigits text
    → 1 ≤ length text
    → parse_digits 0 text ≡ some n
    → parse_u64 text ≡ some n
unfolding parse_u64 AllDigits is_digit
parse_u64-AllDigits [] n h l e = absurd (omega arith)
parse_u64-AllDigits (c ∷ []) n h l e = e
parse_u64-AllDigits (c ∷ d ∷ text) n (h, t) l e =
    let plain : (c == 43) ≡ false = ground arith in rw plain e

length-decimal : (fuel n : ℕ) → 1 ≤ length (decimal (suc fuel) n)
unfolding decimal
length-decimal fuel n = elim (Bool-cases (ltb n 10)) [
  | inl small ↦ rw small (omega arith)
  | inr large ↦
      rw large (rw (length-append (decimal fuel (n / 10)) ((48 + n % 10) ∷ [])) (omega arith))
]

-- A 64-bit number that was printed before an underscore is found and read back.
pub parse_u64-print_u64 :
    (n : ℕ) (rest : List ℕ) → n < u64_mod → parse_u64 (until 95 (print_u64 n ++ 95 ∷ rest)) ≡ some n
unfolding print_u64
parse_u64-print_u64 n rest h =
    let digits = decimal-AllDigits 20 n in
    rw (until-AllDigits (decimal 20 n) rest digits) (
      parse_u64-AllDigits (decimal 20 n) n digits (length-decimal 19 n)
        (parse_digits-decimal 20 n (omega arith) h))
