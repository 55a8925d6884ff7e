-- ===== src/Kernel/String.antt =====
-- kernel/lib/string.c. Memory is a function from addresses to bytes; a source that the destination
-- does not overlap is a function of its own, read from offset 0.
use narc_os.Common.{ℕ, zero, suc, ◌+◌, ◌-◌, ◌%◌, ◌≡◌, Bool, ◌&&◌, arith}
use narc_os.Common.{ltb, leb, ◌==◌, if◌then◌else◌}

abbrev pub Memory : Type 0
Memory = ℕ → ℕ

abbrev pub poke : Memory → ℕ → ℕ → Memory
poke m p v a = if a == p then v else m a

-- `while (n--) *p++ = (unsigned char)c;`
pub memset : Memory → ℕ → ℕ → ℕ → Memory
memset m p c zero = m
memset m p c (suc n) = memset (poke m p (c % 256)) (p + 1) c n

-- `while (n--) *d++ = *s++;`, with `source i` the byte at `s + i`.
pub memcpy_from : Memory → ℕ → (ℕ → ℕ) → ℕ → ℕ → Memory
memcpy_from m d source i zero = m
memcpy_from m d source i (suc n) = memcpy_from (poke m d (source i)) (d + 1) source (i + 1) n

pub memcpy : Memory → ℕ → (ℕ → ℕ) → ℕ → Memory
memcpy m d source n = memcpy_from m d source 0 n

abbrev pub inside : ℕ → ℕ → ℕ → Bool
inside p n a = leb p a && ltb a (p + n)

pub memset_at :
    (m : Memory) (p c n a : ℕ) → memset m p c n a ≡ (if inside p n a then c % 256 else m a)
unfolding memset
memset_at m p c zero a = ground arith
memset_at m p c (suc n) a = ground (arith, memset_at (poke m p (c % 256)) (p + 1) c n a)

pub memcpy_from_at :
    (m : Memory) (d : ℕ) (source : ℕ → ℕ) (i n a : ℕ)
    → memcpy_from m d source i n a ≡ (if inside d n a then source (i + (a - d)) else m a)
unfolding memcpy_from
memcpy_from_at m d source i zero a = ground arith
memcpy_from_at m d source i (suc n) a =
    ground (arith, memcpy_from_at (poke m d (source i)) (d + 1) source (i + 1) n a)

pub memcpy_at :
    (m : Memory) (d : ℕ) (source : ℕ → ℕ) (n a : ℕ)
    → memcpy m d source n a ≡ (if inside d n a then source (a - d) else m a)
unfolding memcpy
memcpy_at m d source n a = ground (arith, memcpy_from_at m d source 0 n a)
