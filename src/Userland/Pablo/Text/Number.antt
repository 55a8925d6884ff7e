-- ===== src/Userland/Pablo/Text/Number.antt =====
-- pablo_parse_unsigned: which texts it accepts, and their values.
use narc_os.Common.{ℕ, ◌+◌, ◌-◌, ◌*◌, ◌^◌, ◌≤◌, ◌<◌, ◌≡◌, refl, ◌≢◌, ◌↔◌, arith, some}
use narc_os.Common.{List, [], ◌∷◌, All}
use narc_os.Userland.Pablo.Text.{parse_digits, pablo_parse_unsigned}

-- The value of decimal digits behind those that make `n`.
abbrev pub value_from : ℕ → List ℕ → ℕ
value_from n [] = n
value_from n (c ∷ r) = value_from (n * 10 + (c - b'0')) r

abbrev pub IsDigit : ℕ → Type 0
IsDigit c = (b'0' ≤ c) × (c ≤ b'9')

le-value_from : (n : ℕ) (r : List ℕ) → n ≤ value_from n r
le-value_from n [] = omega arith
le-value_from n (c ∷ r) = omega (arith, le-value_from (n * 10 + (c - b'0')) r)

parse_digits-some :
    (text : List ℕ) (n m : ℕ)
    → n < 2 ^ 32
    → parse_digits text n ≡ some m
    → All IsDigit text × (value_from n text ≡ m) × (m < 2 ^ 32)
unfolding parse_digits
parse_digits-some [] n m small h = (tt, ground arith, ground arith)
parse_digits-some (c ∷ r) n m small h =
    let rest = parse_digits-some r (n * 10 + (c - b'0')) m (ground arith) (ground arith) in
    ((ground arith, rest.0), rest.1, rest.2)

some-parse_digits :
    (text : List ℕ) (n m : ℕ)
    → All IsDigit text
    → value_from n text ≡ m
    → m < 2 ^ 32
    → parse_digits text n ≡ some m
unfolding parse_digits
some-parse_digits [] n m digits e small = ground arith
some-parse_digits (c ∷ r) n m digits e small = ground (
  arith,
  digits.0,
  le-value_from (n * 10 + (c - b'0')) r,
  some-parse_digits r (n * 10 + (c - b'0')) m digits.1 e small,
)

-- pablo_parse_unsigned accepts a text exactly if it is not empty, all its bytes are decimal digits,
-- and the number that they write fits in 32 bits; it yields that number.
pub pablo_parse_unsigned_iff :
    (text : List ℕ) (m : ℕ)
    → (pablo_parse_unsigned text ≡ some m)
      ↔ ((text ≢ []) × All IsDigit text × (value_from 0 text ≡ m) × (m < 2 ^ 32))
unfolding pablo_parse_unsigned
pablo_parse_unsigned_iff [] m = (λ h. cc, λ h. absurd (h.0 refl))
pablo_parse_unsigned_iff (c ∷ r) m = (
  λ h. let p = parse_digits-some (c ∷ r) 0 m (omega arith) h in (λ e. cc, p.0, p.1, p.2),
  λ h. some-parse_digits (c ∷ r) 0 m h.1 h.2 h.3,
)
