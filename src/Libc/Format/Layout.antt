-- ===== src/Libc/Format/Layout.antt =====
-- lib/libc/src/stdio/format.c: what emit_number writes when the stream takes every byte.
use narc_os.Common.{ℕ, ◌+◌, ◌-◌, ◌^◌, ◌≤◌, ◌<◌, ◌≡◌, refl, ap, sym, ◌∙◌}
use narc_os.Common.{Bool, true, false, some, List, [], ◌∷◌, ◌++◌, if◌then◌else◌}
use narc_os.Common.{length, length-append, length-replicate, replicate, arith}
use narc_os.Common.Text.{codes}
use narc_os.Libc.Format.{Fwrite, int_max, bind, emit, emit_each, digits, marker, sign, emit_number}
use narc_os.Libc.Format.Digits.{
  IsBase, numeral_value, numeral_value-digits, digits_fit, value-zeros,
}
use mathlib.Core.List.{reverse, reverse-cons, append_assoc, append-nil}

-- The stream takes every byte.
abbrev pub Accepts : Fwrite → Type 0
Accepts fwrite = (out bytes : List ℕ) → fwrite out bytes ≡ true

emit_accepted :
    (fwrite : Fwrite) (out bytes : List ℕ)
    → Accepts fwrite
    → length out + length bytes ≤ int_max
    → emit fwrite out bytes ≡ some (out ++ bytes)
unfolding emit
emit_accepted fwrite out bytes a h = rw (a out bytes) ground arith

pub emit_each_accepted :
    (fwrite : Fwrite) (out bytes : List ℕ)
    → Accepts fwrite
    → length out + length bytes ≤ int_max
    → emit_each fwrite out bytes ≡ some (out ++ bytes)
unfolding emit_each
emit_each_accepted fwrite out [] a h = ap some (sym (append-nil out))
emit_each_accepted fwrite out (c ∷ r) a h = rw (emit_accepted fwrite out (c ∷ []) a (omega arith)) (
    emit_each_accepted fwrite (out ++ (c ∷ [])) r a (omega (arith, length-append out (c ∷ [])))
    ∙ ap some (append_assoc out (c ∷ []) r))

-- The sign or the marker of the base.
abbrev pub sign_text : (uppercase negative prefix : Bool) → List ℕ
sign_text uppercase negative prefix =
    (if negative then b'-' ∷ [] else [])
    ++ (if prefix then if uppercase then codes "0X" else codes "0x" else [])

length-reverse : (l : List ℕ) → length (reverse l) ≡ length l
length-reverse [] = refl
length-reverse (c ∷ r) =
    ap length (reverse-cons c r)
    ∙ length-append (reverse r) (c ∷ [])
    ∙ omega (arith, length-reverse r)

sign_accepted :
    (fwrite : Fwrite) (out : List ℕ) (uppercase negative prefix zero_pad : Bool)
    → Accepts fwrite
    → length out + 3 ≤ int_max
    → sign uppercase negative prefix zero_pad fwrite out
      ≡ some (out ++ sign_text uppercase negative prefix)
sign_accepted fwrite out true true true zero_pad a h =
    rw (emit_accepted fwrite out (b'-' ∷ []) a (omega arith)) (
      emit_accepted fwrite (out ++ (b'-' ∷ [])) (codes "0X") a
        (omega (arith, length-append out (b'-' ∷ [])))
      ∙ ap some (append_assoc out (b'-' ∷ []) (codes "0X")))
sign_accepted fwrite out false true true zero_pad a h =
    rw (emit_accepted fwrite out (b'-' ∷ []) a (omega arith)) (
      emit_accepted fwrite (out ++ (b'-' ∷ [])) (codes "0x") a
        (omega (arith, length-append out (b'-' ∷ [])))
      ∙ ap some (append_assoc out (b'-' ∷ []) (codes "0x")))
sign_accepted fwrite out uppercase true false zero_pad a h =
    rw (emit_accepted fwrite out (b'-' ∷ []) a (omega arith)) refl
sign_accepted fwrite out true false true zero_pad a h =
    emit_accepted fwrite out (codes "0X") a (omega arith)
sign_accepted fwrite out false false true zero_pad a h =
    emit_accepted fwrite out (codes "0x") a (omega arith)
sign_accepted fwrite out uppercase false false zero_pad a h = ap some (sym (append-nil out))

length-sign_text :
    (uppercase negative prefix : Bool) → length (sign_text uppercase negative prefix) ≤ 3
length-sign_text true true true = omega arith
length-sign_text false true true = omega arith
length-sign_text uppercase true false = omega arith
length-sign_text true false true = omega arith
length-sign_text false false true = omega arith
length-sign_text uppercase false false = omega arith

-- The four runs that emit_number writes, one behind the other.
all_accepted :
    (fwrite : Fwrite) (out spaces : List ℕ) (uppercase negative prefix zero_pad : Bool)
    (zeros numeral : List ℕ)
    → Accepts fwrite
    → length out + (length spaces + (3 + (length zeros + length numeral))) ≤ int_max
    → (bind (emit_each fwrite out spaces) λ a.
        bind
          (sign uppercase negative prefix zero_pad fwrite a)
          λ b. bind (emit_each fwrite b zeros) λ c. emit_each fwrite c numeral)
      ≡ some (out ++ (spaces ++ (sign_text uppercase negative prefix ++ (zeros ++ numeral))))
all_accepted fwrite out spaces uppercase negative prefix zero_pad zeros numeral t h =
    let signs = sign_text uppercase negative prefix in
    let short : length signs ≤ 3 = length-sign_text uppercase negative prefix in
    let a = out ++ spaces in
    let a_len : length a ≡ length out + length spaces = length-append out spaces in
    let b = a ++ signs in
    let b_len : length b ≡ length a + length signs = length-append a signs in
    let c_len : length (b ++ zeros) ≡ length b + length zeros = length-append b zeros in
    rw (emit_each_accepted fwrite out spaces t (omega arith)) (
      rw (sign_accepted fwrite a uppercase negative prefix zero_pad t (omega (arith, a_len))) (
        rw (emit_each_accepted fwrite b zeros t (omega (arith, a_len, b_len, short))) (
          emit_each_accepted fwrite (b ++ zeros) numeral t
            (omega (arith, a_len, b_len, c_len, short))
          ∙ ap some (
              append_assoc b zeros numeral
              ∙ append_assoc a signs (zeros ++ numeral)
              ∙ append_assoc out spaces (signs ++ (zeros ++ numeral))))))

-- When the stream takes every byte and the total stays clear of INT_MAX, emit_number writes, behind
-- what was written before, spaces, then the sign or the marker of the base, then a numeral whose value
-- in that base is `value`. There are no spaces with zero_pad, and the whole is as wide as it was
-- asked to be.
pub emit_number_writes :
    (fwrite : Fwrite) (out : List ℕ) (value base : ℕ) (uppercase negative prefix : Bool) (width : ℕ)
    (zero_pad : Bool)
    → Accepts fwrite
    → IsBase base
    → value < 2 ^ 64
    → length out + (width + 25) ≤ int_max
    → let buffer = digits 64 uppercase base value in
      let missing : ℕ = width - (length buffer + marker negative prefix) in
      let spaces : List ℕ = if zero_pad then [] else replicate missing b' ' in
      let zeros : List ℕ = if zero_pad then replicate missing b'0' else [] in
      let numeral = zeros ++ reverse buffer in
      (emit_number fwrite out value base uppercase negative prefix width zero_pad
        ≡ some (out ++ (spaces ++ (sign_text uppercase negative prefix ++ numeral))))
      × (numeral_value base 0 numeral ≡ value)
      × (width ≤ length spaces + marker negative prefix + length numeral)
unfolding emit_number
emit_number_writes fwrite out value base uppercase negative prefix width true t b h room =
    let buffer = digits 64 uppercase base value in
    let missing : ℕ = width - (length buffer + marker negative prefix) in
    let n : length buffer ≤ 22 = digits_fit uppercase base value b h in
    let r : length (reverse buffer) ≡ length buffer = length-reverse buffer in
    let z : length {A = ℕ} (replicate missing b'0') ≡ missing = length-replicate missing b'0' in
    let l : length {A = ℕ} (replicate missing b'0' ++ reverse buffer) ≡ missing + length buffer =
      length-append (replicate missing b'0') (reverse buffer) ∙ omega (arith, z, r) in
    (
      all_accepted fwrite out [] uppercase negative prefix true (replicate missing b'0')
          (reverse buffer) t (omega (arith, n, r, z)),
      value-zeros base missing (reverse buffer) ∙ numeral_value-digits uppercase base value b h,
      omega (arith, l),
    )
emit_number_writes fwrite out value base uppercase negative prefix width false t b h room =
    let buffer = digits 64 uppercase base value in
    let missing : ℕ = width - (length buffer + marker negative prefix) in
    let n : length buffer ≤ 22 = digits_fit uppercase base value b h in
    let r : length (reverse buffer) ≡ length buffer = length-reverse buffer in
    let z : length {A = ℕ} (replicate missing b' ') ≡ missing = length-replicate missing b' ' in
    (
      all_accepted fwrite out (replicate missing b' ') uppercase negative prefix false []
          (reverse buffer) t (omega (arith, n, r, z)),
      numeral_value-digits uppercase base value b h,
      omega (arith, r, z),
    )
