-- ===== src/Libc/Strings/Tests.antt =====
-- The string "ab" at address 100, and copies of it, also onto itself.
use narc_os.Common.{ℕ, ◌+◌, ◌≡◌, ◌≤◌, ◌↔◌, refl, ◌==◌, if◌then◌else◌, arith}
use narc_os.Common.{some}
use narc_os.Kernel.String.{Memory}
use narc_os.Libc.Strings.{memmove, strcmp}
use narc_os.Libc.Strings.Move.{memmove_at}
use narc_os.Libc.Strings.Terminated.{IsString, strcmp_lem}

abbrev ram : Memory
ram a = if a == 100 then b'a' else if a == 101 then b'b' else 0

ram-IsString : IsString ram 100 2
ram-IsString = (λ i lt. ground arith, refl)

memmove_at_example : memmove ram 101 100 2 102 ≡ b'b'
memmove_at_example = memmove_at ram 101 100 2 102

strcmp_lem_example :
    (x : ℕ) × (y : ℕ) × (strcmp 3 ram 100 200 ≡ some (x, y))
    × ((x ≡ y) ↔ ((i : ℕ) → i ≤ 2 → ram (100 + i) ≡ ram (200 + i)))
strcmp_lem_example = strcmp_lem ram 100 200 2 3 ram-IsString (omega arith)
