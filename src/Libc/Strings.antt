-- ===== src/Libc/Strings.antt =====
-- lib/libc/src/string: memcmp, memcpy, memmove, memset, strchr, strcmp, strcpy, strlen, strncpy, strnlen
-- over a memory of bytes. The pointer that a function returns is left out where it is its argument.
-- A loop that only a byte ends has fuel, and `none` is out of fuel.
pub mod Move
pub mod Terminated
mod Tests
use narc_os.Common.{ℕ, zero, suc, ◌+◌, ◌-◌, ◌%◌, Bool, true, false, ◌&&◌, not, Option, none, some}
use narc_os.Common.{◌==◌, ◌!=◌, ltb, if◌then◌else◌}
use narc_os.Common.Int.{ℤ, pos, negsuc}
use narc_os.Kernel.String.{Memory, poke}

-- `n` rounds from index `i` on.
unfoldable pub compare_from : Memory → ℕ → ℕ → ℕ → ℕ → ℤ
compare_from m a b i zero = pos 0
compare_from m a b i (suc n) =
    let rest = compare_from m a b (i + 1) n in
    if m (a + i) != m (b + i)
    then (if ltb (m (a + i)) (m (b + i)) then negsuc 0 else pos 1)
    else rest

unfoldable pub memcmp : Memory → ℕ → ℕ → ℕ → ℤ
memcmp m left right length = compare_from m left right 0 length

unfoldable pub copy_up : Memory → ℕ → ℕ → ℕ → ℕ → Memory
copy_up m out from i zero = m
copy_up m out from i (suc n) = copy_up (poke m (out + i) (m (from + i))) out from (i + 1) n

unfoldable pub copy_down : Memory → ℕ → ℕ → ℕ → Memory
copy_down m out from zero = m
copy_down m out from (suc n) = copy_down (poke m (out + n) (m (from + n))) out from n

unfoldable pub memcpy : Memory → ℕ → ℕ → ℕ → Memory
memcpy m dst src length = copy_up m dst src 0 length

unfoldable pub memmove : Memory → ℕ → ℕ → ℕ → Memory
memmove m dst src length =
    if ltb dst src
    then copy_up m dst src 0 length
    else if ltb src dst
    then copy_down m dst src length
    else m

unfoldable pub set_from : Memory → ℕ → ℕ → ℕ → ℕ → Memory
set_from m out value i zero = m
set_from m out value i (suc n) = set_from (poke m (out + i) (value % 256)) out value (i + 1) n

unfoldable pub memset : Memory → ℕ → ℕ → ℕ → Memory
memset m dst value length = set_from m dst value 0 length

-- The pointer to the first such character, `some none` for the null pointer.
unfoldable pub chr_loop : ℕ → Memory → ℕ → ℕ → Option (Option ℕ)
chr_loop zero m string value = none
chr_loop (suc fuel) m string value =
    let rest = chr_loop fuel m (string + 1) value in
    if m string == value then some (some string) else if m string == 0 then some none else rest

unfoldable pub strchr : ℕ → Memory → ℕ → ℕ → Option (Option ℕ)
strchr fuel m string character = chr_loop fuel m string (character % 256)

-- The two bytes whose difference is the result.
unfoldable pub strcmp : ℕ → Memory → ℕ → ℕ → Option (ℕ × ℕ)
strcmp zero m left right = none
strcmp (suc fuel) m left right =
    let rest = strcmp fuel m (left + 1) (right + 1) in
    if m left != 0 && m left == m right then rest else some (m left, m right)

unfoldable pub strcpy : ℕ → Memory → ℕ → ℕ → Option Memory
strcpy zero m dst src = none
strcpy (suc fuel) m dst src =
    let next = poke m dst (m src) in
    let rest = strcpy fuel next (dst + 1) (src + 1) in if m src == 0 then some next else rest

unfoldable pub length_from : ℕ → Memory → ℕ → ℕ → Option ℕ
length_from zero m string length = none
length_from (suc fuel) m string length =
    let rest = length_from fuel m string (length + 1) in
    if m (string + length) == 0 then some length else rest

unfoldable pub strlen : ℕ → Memory → ℕ → Option ℕ
strlen fuel m string = length_from fuel m string 0

-- Both loops of strncpy, `n` rounds from index `i` on; `ended` says that the second one runs.
unfoldable pub ncpy_from : Memory → ℕ → ℕ → Bool → ℕ → ℕ → Memory
ncpy_from m dst src ended i zero = m
ncpy_from m dst src ended i (suc n) =
    let over = if ended then true else m (src + i) == 0 in
    ncpy_from (poke m (dst + i) (if over then 0 else m (src + i))) dst src over (i + 1) n

unfoldable pub strncpy : Memory → ℕ → ℕ → ℕ → Memory
strncpy m dst src length = ncpy_from m dst src false 0 length

-- `n` rounds from `length` on.
unfoldable pub nlen_from : Memory → ℕ → ℕ → ℕ → ℕ
nlen_from m string length zero = length
nlen_from m string length (suc n) =
    let rest = nlen_from m string (length + 1) n in
    if m (string + length) == 0 then length else rest

unfoldable pub strnlen : Memory → ℕ → ℕ → ℕ
strnlen m string limit = nlen_from m string 0 limit
