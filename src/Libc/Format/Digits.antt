-- ===== src/Libc/Format/Digits.antt =====
-- lib/libc/src/stdio/format.c: the digits of emit_number, and the numbers they stand for.
use narc_os.Common.{
  ℕ, zero, suc, ◌+◌, ◌-◌, ◌*◌, ◌/◌, ◌%◌, ◌^◌, ◌≤◌, ◌<◌, ◌≡◌, refl, ap, sym, ◌∙◌, ◌⊎◌, inl, inr,
}
use narc_os.Common.{
  Bool, true, false, List, [], ◌∷◌, ◌++◌, leb, ◌==◌, if◌then◌else◌, length, replicate, arith,
}
use narc_os.Common.{if_elim, ==_iff}
use narc_os.Libc.Format.{digit_char, digits}
use mathlib.Core.List.{reverse, reverse-cons}

-- The bases of the conversions.
abbrev pub IsBase : ℕ → Type 0
IsBase base = (base ≡ 8) ⊎ (base ≡ 10) ⊎ (base ≡ 16)

-- The value of a digit, upper and lower case.
unfoldable pub digit_value : ℕ → ℕ
digit_value c = if leb c b'9' then c - b'0' else if leb c b'Z' then c - b'A' + 10 else c - b'a' + 10

-- The number that a numeral stands for, its first digit being the highest.
unfoldable pub numeral_value : ℕ → ℕ → List ℕ → ℕ
numeral_value base high [] = high
numeral_value base high (c ∷ r) = numeral_value base (high * base + digit_value c) r

-- The same, the first digit being the lowest.
unfoldable low_first : ℕ → List ℕ → ℕ
low_first base [] = 0
low_first base (c ∷ r) = digit_value c + low_first base r * base

digit_value-digit_char : (upper : Bool) (d : ℕ) → d < 16 → digit_value (digit_char upper d) ≡ d
unfolding digit_value
digit_value-digit_char true d h = ground arith
digit_value-digit_char false d h = ground arith

unfoldable eights : ℕ → ℕ
eights zero = 1
eights (suc n) = 8 * eights n

small_digit : (base v : ℕ) → IsBase base → v % base < 16
small_digit base v (inl e) = rw (e) omega arith
small_digit base v (inr (inl e)) = rw (e) omega arith
small_digit base v (inr (inr e)) = rw (e) omega arith

recombine : (base v : ℕ) → IsBase base → v % base + (v / base) * base ≡ v
recombine base v (inl e) = rw (e) omega arith
recombine base v (inr (inl e)) = rw (e) omega arith
recombine base v (inr (inr e)) = rw (e) omega arith

smaller : (base v n : ℕ) → IsBase base → v < 8 * n → v / base < n
smaller base v n (inl e) h = rw (e) omega arith
smaller base v n (inr (inl e)) h = rw (e) omega arith
smaller base v n (inr (inr e)) h = rw (e) omega arith

low_step :
    (upper : Bool) (base v : ℕ) (l : List ℕ)
    → IsBase base
    → low_first base l ≡ v / base
    → low_first base (digit_char upper (v % base) ∷ (if v / base == 0 then [] else l)) ≡ v
unfolding low_first
low_step upper base v l b h =
    rw (digit_value-digit_char upper (v % base) (small_digit base v b))
      (ap (λ x. v % base + x * base) rest ∙ recombine base v b)
  where
    rest : low_first base (if v / base == 0 then [] else l) ≡ v / base
    rest =
        if_elim (λ k. low_first base k ≡ v / base) (v / base == 0) [] l
          (λ z. sym ((==_iff (v / base) 0).0 z)) (λ z. h)

low_first-digits :
    (fuel : ℕ) (upper : Bool) (base v : ℕ)
    → IsBase base
    → v < eights fuel
    → low_first base (digits fuel upper base v) ≡ v
unfolding digits eights low_first
low_first-digits zero upper base v b h = zero_value
  where
    zero_value : low_first base [] ≡ v
    zero_value = ground arith
low_first-digits (suc fuel) upper base v b h =
    low_step upper base v (digits fuel upper base (v / base)) b
      (low_first-digits fuel upper base (v / base) b (smaller base v (eights fuel) b h))

pub numeral_value-append :
    (base high : ℕ) (x y : List ℕ)
    → numeral_value base high (x ++ y) ≡ numeral_value base (numeral_value base high x) y
unfolding numeral_value
numeral_value-append base high [] y = refl
numeral_value-append base high (c ∷ x) y =
    numeral_value-append base (high * base + digit_value c) x y

value-reverse : (base : ℕ) (l : List ℕ) → numeral_value base 0 (reverse l) ≡ low_first base l
unfolding low_first numeral_value
value-reverse base [] = refl
value-reverse base (c ∷ r) =
    ap (numeral_value base 0) (reverse-cons c r)
    ∙ numeral_value-append base 0 (reverse r) (c ∷ [])
    ∙ rw (value-reverse base r) omega arith

-- Zeros in front of a numeral leave its number.
pub value-zeros :
    (base n : ℕ) (l : List ℕ)
    → numeral_value base 0 (replicate n b'0' ++ l) ≡ numeral_value base 0 l
unfolding numeral_value digit_value
value-zeros base zero l = refl
value-zeros base (suc n) l =
    ap (λ h. numeral_value base h (replicate n b'0' ++ l)) none_yet ∙ value-zeros base n l
  where
    none_yet : 0 * base + 0 ≡ 0
    none_yet = omega arith

length_step :
    (base v n : ℕ) (c : ℕ) (l : List ℕ)
    → IsBase base
    → (v / base == 0 ≡ false → length l ≤ n)
    → length (c ∷ (if v / base == 0 then [] else l)) ≤ suc n
length_step base v n c l b h = ground arith

-- Twenty-two octal digits hold 64 bits.
length-digits :
    (fuel n : ℕ) (upper : Bool) (base v : ℕ)
    → IsBase base
    → v < eights (suc n)
    → length (digits fuel upper base v) ≤ suc n
unfolding digits eights
length-digits zero n upper base v b h = omega arith
length-digits (suc fuel) zero upper base v b h =
    let less : v / base < 1 = smaller base v 1 b (omega arith) in
    length_step base v 0 (digit_char upper (v % base)) (digits fuel upper base (v / base)) b
      (λ ne. ground (arith, less))
length-digits (suc fuel) (suc n) upper base v b h =
    length_step base v (suc n) (digit_char upper (v % base)) (digits fuel upper base (v / base)) b
      (λ ne. length-digits fuel n upper base (v / base) b (smaller base v (eights (suc n)) b h))

-- The digits of a 64-bit word, in the order in which they are written, are a numeral of the word.
pub numeral_value-digits :
    (upper : Bool) (base v : ℕ)
    → IsBase base
    → v < 2 ^ 64
    → numeral_value base 0 (reverse (digits 64 upper base v)) ≡ v
unfolding eights
numeral_value-digits upper base v b h =
    value-reverse base (digits 64 upper base v) ∙ low_first-digits 64 upper base v b (omega arith)

-- The digits of a 64-bit word in base 8, 10 or 16 fill at most 22 of the 32 bytes of `buffer`.
pub digits_fit :
    (upper : Bool) (base v : ℕ) → IsBase base → v < 2 ^ 64 → length (digits 64 upper base v) ≤ 22
unfolding eights
digits_fit upper base v b h = length-digits 64 21 upper base v b (omega arith)
