-- ===== src/Text.antt =====
-- The standard library's strings, as the lists of their code points.
pub mod Decimal
use kdapp.Base.{
  zero, suc, ◌-◌, ◌*◌, ◌/◌, ◌%◌, Option, none, some, ◌++◌, u64_mod, ℕ, ◌+◌, Bool, ◌&&◌, ◌||◌, List,
  [], ◌∷◌, all, ltb, leb, ◌==◌, if◌then◌else◌,
}

-- The property White_Space of Unicode.
unfoldable pub is_whitespace : ℕ → Bool
is_whitespace c =
    leb 9 c && leb c 13
    || (c == 32
        || (c == 133
            || (c == 160
                || (c == 5760
                    || (leb 8192 c && leb c 8202
                        || (c == 8232
                            || (c == 8233 || (c == 8239 || (c == 8287 || c == 12288)))))))))

-- `s.trim().is_empty()`
unfoldable pub is_blank : List ℕ → Bool
is_blank text = all is_whitespace text

unfoldable pub len_utf8 : ℕ → ℕ
len_utf8 c = if ltb c 128 then 1 else if ltb c 2048 then 2 else if ltb c 65536 then 3 else 4

-- `s.len()`, in bytes.
unfoldable pub byte_len : List ℕ → ℕ
byte_len [] = 0
byte_len (c ∷ text) = len_utf8 c + byte_len text

unfoldable pub is_digit : ℕ → Bool
is_digit c = leb b'0' c && leb c b'9'

-- `{}` of a number below 10 ^ fuel: the digits, the last one first to be split off.
unfoldable pub decimal : ℕ → ℕ → List ℕ
decimal zero n = []
decimal (suc fuel) n =
    let front = decimal fuel (n / 10) in
    if ltb n 10 then (b'0' + n) ∷ [] else front ++ (b'0' + n % 10) ∷ []

-- A 64-bit number has at most 20 digits.
unfoldable pub print_u64 : ℕ → List ℕ
unfolding decimal
print_u64 n = decimal 20 n

unfoldable pub parse_digits : ℕ → List ℕ → Option ℕ
unfolding is_digit
parse_digits acc [] = some acc
parse_digits acc (c ∷ text) =
    let value = acc * 10 + (c - b'0') in
    let rest = parse_digits value text in if is_digit c && ltb value u64_mod then rest else none

-- `s.parse::<u64>()`: a plus sign may stand first.
unfoldable pub parse_u64 : List ℕ → Option ℕ
parse_u64 [] = none
parse_u64 (c ∷ []) = parse_digits 0 (c ∷ [])
parse_u64 (c ∷ d ∷ text) = parse_digits 0 (if c == b'+' then d ∷ text else c ∷ d ∷ text)

unfoldable pub strip_prefix : List ℕ → List ℕ → Option (List ℕ)
strip_prefix [] text = some text
strip_prefix (p ∷ prefix) [] = none
strip_prefix (p ∷ prefix) (c ∷ text) =
    let rest = strip_prefix prefix text in if p == c then rest else none

-- `s.split(separator).next()`
unfoldable pub until : ℕ → List ℕ → List ℕ
until separator [] = []
until separator (c ∷ text) =
    let rest = until separator text in if c == separator then [] else c ∷ rest
