-- ===== src/Libc/Format.antt =====
-- lib/libc/src/stdio/format.c: __stdio_format. The stream is what was written to it, so `total` is its
-- length; whether fwrite takes more bytes is an argument, a function of what was written before and
-- of those bytes. `none` is a result of -1; errno is left out.
pub mod Digits
pub mod Layout
mod Tests
use narc_os.Common.{ℕ, zero, suc, ◌+◌, ◌-◌, ◌*◌, ◌/◌, ◌%◌, ◌^◌, Bool, true, false, ◌&&◌, ◌||◌, not}
use narc_os.Common.{
  Option, none, some, List, [], ◌∷◌, ◌++◌, ◌==◌, ltb, leb, if◌then◌else◌, length, replicate,
}
use narc_os.Common.Text.{codes}
use mathlib.Core.List.{reverse}

-- `enum length_kind`.
pub data LengthKind : Type 0 where
  int long long_long size : LengthKind

-- An argument: a word, as its bits, or a pointer to a string, `none` the null pointer.
pub data Argument : Type 0 where
  word : ℕ → Argument
  text : Option (List ℕ) → Argument

abbrev pub Fwrite : Type 0
Fwrite = List ℕ → List ℕ → Bool

abbrev pub int_max : ℕ
int_max = 2 ^ 31 - 1

abbrev pub bind {ℓ κ} : {A : Type ℓ} {B : Type κ} → Option A → (A → Option B) → Option B
bind none f = none
bind (some a) f = f a

unfoldable pub emit : Fwrite → List ℕ → List ℕ → Option (List ℕ)
emit fwrite out bytes =
    if ltb (int_max - length out) (length bytes)
    then none
    else if fwrite out bytes
    then some (out ++ bytes)
    else none

-- A loop that emits one byte after the other.
unfoldable pub emit_each : Fwrite → List ℕ → List ℕ → Option (List ℕ)
emit_each fwrite out [] = some out
emit_each fwrite out (c ∷ r) = bind (emit fwrite out (c ∷ [])) λ next. emit_each fwrite next r

abbrev pub digit_char : Bool → ℕ → ℕ
digit_char uppercase d =
    if ltb d 10 then b'0' + d else if uppercase then b'A' + (d - 10) else b'a' + (d - 10)

-- The loop that fills `buffer`, the last digit first. Sixty-four rounds suffice for 64 bits.
unfoldable pub digits : ℕ → Bool → ℕ → ℕ → List ℕ
digits zero uppercase base value = []
digits (suc fuel) uppercase base value =
    let more = digits fuel uppercase base (value / base) in
    digit_char uppercase (value % base) ∷ (if value / base == 0 then [] else more)

abbrev pub marker : Bool → Bool → ℕ
marker negative prefix = if negative then 1 else if prefix then 2 else 0

abbrev pub sign : Bool → Bool → Bool → Bool → Fwrite → List ℕ → Option (List ℕ)
sign uppercase negative prefix zero_pad fwrite out =
    bind (if negative then emit fwrite out (b'-' ∷ []) else some out)
      λ o. if prefix then emit fwrite o (if uppercase then codes "0X" else codes "0x") else some o

unfoldable pub emit_number :
    Fwrite
    → List ℕ
    → (value base : ℕ) (uppercase negative prefix : Bool) (width : ℕ) (zero_pad : Bool)
    → Option (List ℕ)
emit_number fwrite out value base uppercase negative prefix width zero_pad =
    let buffer = digits 64 uppercase base value in
    let missing = width - (length buffer + marker negative prefix) in
    let spaces = if zero_pad then [] else replicate missing b' ' in
    let zeros = if zero_pad then replicate missing b'0' else [] in
    bind (emit_each fwrite out spaces) λ a.
      bind (sign uppercase negative prefix zero_pad fwrite a)
        λ b. bind (emit_each fwrite b zeros) λ c. emit_each fwrite c (reverse buffer)

abbrev pub bits : LengthKind → ℕ
bits int = 32
bits _ = 64

unfoldable pub unsigned_argument : LengthKind → ℕ → ℕ
unsigned_argument kind w = w % 2 ^ bits kind

-- signed_argument with what __stdio_format makes of it: is it negative, and the magnitude.
unfoldable pub signed_argument : LengthKind → ℕ → Bool × ℕ
signed_argument kind w =
    let v = w % 2 ^ bits kind in
    if leb (2 ^ (bits kind - 1)) v then (true, 2 ^ bits kind - v) else (false, v)

abbrev pub is_digit : ℕ → Bool
is_digit c = leb b'0' c && leb c b'9'

-- The bytes before the next `%`, and those from it on.
unfoldable pub plain : List ℕ → List ℕ
plain [] = []
plain (c ∷ r) = let rest = plain r in if c == b'%' then [] else c ∷ rest

unfoldable pub from_percent : List ℕ → List ℕ
from_percent [] = []
from_percent (c ∷ r) = let rest = from_percent r in if c == b'%' then c ∷ r else rest

-- `if (*format == '0')`.
unfoldable pub zero_flag : List ℕ → Bool × List ℕ
zero_flag [] = (false, [])
zero_flag (c ∷ r) = if c == b'0' then (true, r) else (false, c ∷ r)

unfoldable pub read_width : ℕ → List ℕ → ℕ × List ℕ
read_width width [] = (width, [])
read_width width (c ∷ r) =
    let digit = c - b'0' in
    let next = if leb width ((int_max - digit) / 10) then width * 10 + digit else int_max in
    let rest = read_width next r in if is_digit c then rest else (width, c ∷ r)

unfoldable pub read_kind : List ℕ → LengthKind × List ℕ
read_kind [] = (int, [])
read_kind (c ∷ []) =
    if c == b'l' then (long, []) else if c == b'z' then (size, []) else (int, c ∷ [])
read_kind (c ∷ d ∷ r) =
    if c == b'l'
    then (if d == b'l' then (long_long, r) else (long, d ∷ r))
    else if c == b'z'
    then (size, d ∷ r)
    else (int, c ∷ d ∷ r)

-- A conversion: its specifier, 0 at the end of the format, and the format behind it.
pub record Conversion : Type 0 where
  pub zero_pad : Bool
  pub width : ℕ
  pub kind : LengthKind
  pub specifier : ℕ
  pub rest : List ℕ

abbrev pub specifier_of : List ℕ → ℕ × List ℕ
specifier_of [] = (0, [])
specifier_of (c ∷ r) = (c, r)

-- What stands behind a `%`.
unfoldable pub conversion : List ℕ → Conversion
conversion format =
    let (zero_pad, a) = zero_flag format in
    let (width, b) = read_width 0 a in
    let (kind, c) = read_kind b in
    let (specifier, rest) = specifier_of c in
    record { zero_pad = zero_pad; width = width; kind = kind; specifier = specifier; rest = rest }

abbrev pub base_of : ℕ → ℕ
base_of specifier = if specifier == b'o' then 8 else if specifier == b'u' then 10 else 16

-- A conversion of a word.
unfoldable pub emit_word : Fwrite → List ℕ → Conversion → ℕ → Option (List ℕ)
emit_word fwrite out c w =
    let s = c.specifier in
    let (negative, magnitude) = signed_argument c.kind w in
    let n = unsigned_argument c.kind w in
    if s == b'c'
    then emit fwrite out (w % 256 ∷ [])
    else if s == b'd' || s == b'i'
    then emit_number fwrite out magnitude 10 false negative false c.width c.zero_pad
    else if s == b'u' || s == b'o' || s == b'x' || s == b'X'
    then emit_number fwrite out n (base_of s) (s == b'X') false false c.width c.zero_pad
    else if s == b'p'
    then emit_number fwrite out (w % 2 ^ 64) 16 false false true c.width c.zero_pad
    else none

abbrev pub shown : Option (List ℕ) → List ℕ
shown none = codes "(null)"
shown (some s) = s

-- One conversion, with the arguments that are left; an argument that is missing or of the other sort,
-- which C leaves undefined, is a failure here.
unfoldable pub convert :
    Fwrite → List ℕ → Conversion → List Argument → Option (List ℕ × List Argument)
convert fwrite out c [] =
    if c.specifier == b'%' then bind (emit fwrite out (b'%' ∷ [])) (λ o. some (o, [])) else none
convert fwrite out c (word w ∷ r) =
    if c.specifier == b'%'
    then bind (emit fwrite out (b'%' ∷ [])) (λ o. some (o, word w ∷ r))
    else bind (emit_word fwrite out c w) (λ o. some (o, r))
convert fwrite out c (text s ∷ r) =
    if c.specifier == b'%'
    then bind (emit fwrite out (b'%' ∷ [])) (λ o. some (o, text s ∷ r))
    else if c.specifier == b's'
    then bind (emit fwrite out (shown s)) (λ o. some (o, r))
    else none

abbrev pub emit_plain : Fwrite → List ℕ → List ℕ → Option (List ℕ)
emit_plain fwrite out [] = some out
emit_plain fwrite out (c ∷ r) = emit fwrite out (c ∷ r)

-- The loop over the format. Every round but the last takes a `%` from it.
unfoldable pub format_loop : ℕ → Fwrite → List ℕ → List ℕ → List Argument → Option (List ℕ)
format_loop zero fwrite out format args = none
format_loop (suc fuel) fwrite out format args = bind (emit_plain fwrite out (plain format)) λ o.
    elim (from_percent format) [
      | [] ↦ some o
      | p ∷ behind ↦
          let c = conversion behind in
          bind (convert fwrite o c args) λ next. format_loop fuel fwrite next.0 c.rest next.1
    ]

-- What is written, the number of its bytes being the result.
unfoldable pub stdio_format : Fwrite → List ℕ → List Argument → Option (List ℕ)
stdio_format fwrite format args = format_loop (suc (length format)) fwrite [] format args
