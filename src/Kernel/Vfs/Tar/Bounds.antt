-- ===== src/Kernel/Vfs/Tar/Bounds.antt =====
-- The archive is read within its bounds, and its headers run out.
use narc_os.Common.{ℕ, zero, suc, ◌+◌, ◌-◌, ◌*◌, ◌/◌, ◌%◌, ◌^◌, ◌≤◌, ◌<◌, ◌≡◌, arith}
use narc_os.Common.{true}
use narc_os.Kernel.Vfs.State.{Vfs}
use narc_os.Kernel.Vfs.Tar.{octal_loop, octal, next_offset, header_at, tar_block, size_field}

-- `bound * 8 ^ n`.
abbrev scaled : ℕ → ℕ → ℕ
scaled zero bound = bound
scaled (suc n) bound = scaled n (bound * 8)

le-scaled : (n bound : ℕ) → bound ≤ scaled n bound
le-scaled zero bound = omega arith
le-scaled (suc n) bound = omega (arith, le-scaled n (bound * 8))

-- Every digit multiplies the bound by eight.
octal_loop-lt :
    (bytes : ℕ → ℕ) (i n value bound : ℕ)
    → value < bound
    → scaled n bound ≤ 2 ^ 64
    → octal_loop bytes i n value < scaled n bound
unfolding octal_loop
octal_loop-lt bytes i zero value bound h k = omega arith
octal_loop-lt bytes i (suc n) value bound h k = ground (
  arith,
  le-scaled n (bound * 8),
  octal_loop-lt bytes (i + 1) n value (bound * 8),
  octal_loop-lt bytes (i + 1) n ((value * 8 + (bytes i - 48)) % 2 ^ 64) (bound * 8),
)

size-lt : (bytes : ℕ → ℕ) (i : ℕ) → octal bytes i 12 < 2 ^ 36
unfolding octal
size-lt bytes i = octal_loop-lt bytes i 12 0 1 (omega arith) (omega arith)

next_offset-eq :
    (bytes : ℕ → ℕ) (offset : ℕ)
    → offset < 2 ^ 63
    → next_offset bytes offset
      ≡ offset + tar_block + (octal bytes (offset + size_field) 12 + 511) / tar_block * tar_block
unfolding next_offset
next_offset-eq bytes offset h = omega (arith, size-lt bytes (offset + size_field))

-- A header that header_at accepts lies in the archive with all of its contents, whose length is the
-- size field rounded up to blocks, and the next offset lies behind it.
pub header_at_bounds :
    (s : Vfs) (offset : ℕ)
    → s.tar_size < 2 ^ 63
    → header_at s offset ≡ true
    → let next = next_offset s.tar_data offset in
      (next
        ≡ offset
          + tar_block
          + (octal s.tar_data (offset + size_field) 12 + 511) / tar_block * tar_block)
      × (offset + tar_block ≤ next)
      × (next ≤ s.tar_size)
unfolding header_at
header_at_bounds s offset small h = ground (arith, next_offset-eq s.tar_data offset)

next_offset-grows :
    (s : Vfs) (offset : ℕ)
    → s.tar_size < 2 ^ 63
    → header_at s offset ≡ true
    → (offset + tar_block ≤ next_offset s.tar_data offset)
      × (next_offset s.tar_data offset ≤ s.tar_size)
next_offset-grows s offset small h = ground (arith, header_at_bounds s offset small h)
