-- ===== src/Libc/Format/Tests.antt =====
-- A negative number in decimal, padded with zeros to eight places.
use narc_os.Common.{◌≡◌, ◌≤◌, refl, true, false, some, inl, inr, arith}
use narc_os.Common.Text.{codes}
use narc_os.Libc.Format.{emit_number, digits}
use narc_os.Libc.Format.Digits.{numeral_value}
use narc_os.Libc.Format.Layout.{emit_number_writes}

emit_number_writes_example :
    (emit_number (λ o b. true) (codes "x=") 1250 10 false true false 8 true
      ≡ some (codes "x=-0001250"))
    × (numeral_value 10 0 (codes "0001250") ≡ 1250)
    × (8 ≤ 8)
unfolding digits
emit_number_writes_example =
    emit_number_writes (λ o b. true) (codes "x=") 1250 10 false true false 8 true (λ o b. refl)
      (inr (inl refl)) (omega arith) (omega arith)
