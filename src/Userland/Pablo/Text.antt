-- ===== src/Userland/Pablo/Text.antt =====
-- userland/pablo/src/text.c. A C string is its bytes before the terminator; `none` is a result of -1.
pub mod Number
pub mod Trim
use narc_os.Common.{
  ℕ, ◌+◌, ◌-◌, ◌*◌, ◌/◌, ◌%◌, ◌^◌, Bool, true, false, ◌&&◌, ◌||◌, not, Option, none, some,
}
use narc_os.Common.{
  List, [], ◌∷◌, ◌++◌, ◌==◌, leb, ltb, if◌then◌else◌, length, take, drop, bytes_eq,
}

abbrev pub space : ℕ → Bool
space c = c == b' ' || c == 9 || c == 13 || c == 10

-- `while (space(*text)) text++`.
unfoldable pub trim_start : List ℕ → List ℕ
trim_start [] = []
trim_start (c ∷ r) = let rest = trim_start r in if space c then rest else c ∷ r

-- `while (length && space(text[length - 1])) text[--length] = 0`: what is left before the spaces at
-- the end.
abbrev pub put_front : ℕ → List ℕ → List ℕ
put_front c [] = if space c then [] else c ∷ []
put_front c (d ∷ r) = c ∷ d ∷ r

unfoldable pub trim_end : List ℕ → List ℕ
trim_end [] = []
trim_end (c ∷ r) = put_front c (trim_end r)

unfoldable pub pablo_trim : List ℕ → List ℕ
pablo_trim text = trim_end (trim_start text)

-- What is copied into a destination of `capacity` bytes.
unfoldable pub pablo_copy : ℕ → List ℕ → Option (List ℕ)
pablo_copy capacity source = if leb capacity (length source) then none else some source

unfoldable pub pablo_has_suffix : List ℕ → List ℕ → Bool
pablo_has_suffix text suffix =
    if ltb (length text) (length suffix)
    then false
    else bytes_eq (drop (length text - length suffix) text) suffix

abbrev pub uint_max : ℕ
uint_max = 2 ^ 32 - 1

unfoldable pub parse_digits : List ℕ → ℕ → Option ℕ
parse_digits [] result = some result
parse_digits (c ∷ r) result =
    let digit = c - b'0' in
    let rest = parse_digits r (result * 10 + digit) in
    if ltb c b'0' || ltb b'9' c
    then none
    else if ltb ((uint_max - digit) / 10) result
    then none
    else rest

unfoldable pub pablo_parse_unsigned : List ℕ → Option ℕ
pablo_parse_unsigned [] = none
pablo_parse_unsigned (c ∷ r) = parse_digits (c ∷ r) 0
