-- ===== src/Libc/Strings/Move.antt =====
-- lib/libc/src/string: what memmove, memcmp and memset do to the bytes of the memory.
use narc_os.Common.{
  ℕ, zero, suc, ◌+◌, ◌-◌, ◌≤◌, ◌<◌, ◌≡◌, ◌↔◌, refl, ◌∙◌, ltb, ◌==◌, if◌then◌else◌, arith,
}
use narc_os.Common.{Bool-cases, inl, inr}
use narc_os.Common.Int.{pos}
use narc_os.Kernel.String.{Memory, poke, inside}
use narc_os.Libc.Strings.{copy_up, copy_down, memmove, compare_from, memcmp}

copy_down_at :
    (m : Memory) (out from n a : ℕ)
    → from < out
    → copy_down m out from n a ≡ (if inside out n a then m (from + (a - out)) else m a)
unfolding copy_down
copy_down_at m out from zero a h = ground arith
copy_down_at m out from (suc n) a h =
    ground (arith, copy_down_at (poke m (out + n) (m (from + n))) out from n a h)

copy_up_at :
    (m : Memory) (out from i n a : ℕ)
    → out < from
    → copy_up m out from i n a ≡ (if inside (out + i) n a then m (from + (a - out)) else m a)
unfolding copy_up
copy_up_at m out from i zero a h = ground arith
copy_up_at m out from i (suc n) a h =
    ground (arith, copy_up_at (poke m (out + i) (m (from + i))) out from (i + 1) n a h)

-- memmove leaves at the destination the bytes that stood at the source before, whether or not the two
-- overlap, and changes nothing else.
pub memmove_at :
    (m : Memory) (dst src length a : ℕ)
    → memmove m dst src length a ≡ (if inside dst length a then m (src + (a - dst)) else m a)
unfolding memmove
memmove_at m dst src length a = elim (Bool-cases (ltb dst src)) [
  | inl lower ↦ rw lower (copy_up_at m dst src 0 length a (ground arith) ∙ ground arith)
  | inr not_lower ↦ elim (Bool-cases (ltb src dst)) [
    | inl higher ↦ rw (not_lower, higher) (copy_down_at m dst src length a (ground arith))
    | inr not_higher ↦
        let same : src ≡ dst = ground arith in rw (not_lower, not_higher) (ground (arith, same))
  ]
]

compare_from_iff :
    (m : Memory) (a b i n : ℕ)
    → (compare_from m a b i n ≡ pos 0) ↔ ((j : ℕ) → i ≤ j → j < i + n → m (a + j) ≡ m (b + j))
unfolding compare_from
compare_from_iff m a b i zero = (λ h j le lt. absurd (omega arith), λ h. refl)
compare_from_iff m a b i (suc n) =
    let ih = compare_from_iff m a b (i + 1) n in
    (
      λ h j le lt. elim (Bool-cases (j == i)) [
        | inl here ↦
            let e : j ≡ i = ground arith in
            let same : m (a + i) ≡ m (b + i) = ground (arith, h) in rw e same
        | inr behind ↦
            let rest : compare_from m a b (i + 1) n ≡ pos 0 = ground (arith, h) in
            ih.0 rest j (ground (arith, behind)) (omega arith)
      ],
      λ h.
          let here = h i (omega arith) (omega arith) in
          let rest = ih.1 (λ j le lt. h j (omega arith) (omega arith)) in
          ground (arith, here, rest),
    )

-- memcmp yields 0 exactly when the two ranges hold the same bytes.
pub memcmp_iff :
    (m : Memory) (left right length : ℕ)
    → (memcmp m left right length ≡ pos 0) ↔ ((i : ℕ) → i < length → m (left + i) ≡ m (right + i))
unfolding memcmp
memcmp_iff m left right length =
    let both = compare_from_iff m left right 0 length in
    (λ h i lt. both.0 h i (omega arith) (omega arith), λ h. both.1 λ j le lt. h j (omega arith))
