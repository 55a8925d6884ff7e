-- ===== src/Libc/Allocator/Tiles.antt =====
-- The blocks tile their arena.
use narc_os.Common.{ℕ, ◌+◌, ◌-◌, ◌%◌, ◌^◌, ◌≤◌, ◌<◌, ◌≡◌, refl, arith}
use narc_os.Common.{Bool, true, false, ◌&&◌, Option, none, some, List, [], ◌∷◌, ltb, leb}
use narc_os.Common.{if_elim, Bool-cases, inl, inr, ◌⊎◌}
use narc_os.Libc.Allocator.{Block, block_header, alignment, merge_next, split_block, use_first}
use narc_os.Libc.Allocator.{after_block, take_block}

-- The blocks lie one behind the other from `a` up to `e`, at addresses and with sizes that are
-- multiples of the alignment, and of two neighbours one is in use.
abbrev pub Tiles : ℕ → List Block → ℕ → Type 0
Tiles a [] e = a ≡ e
Tiles a (b ∷ r) e =
    (b.at ≡ a)
    × (a % alignment ≡ 0)
    × (b.size % alignment ≡ 0)
    × Tiles (a + block_header + b.size) r e

abbrev pub first_free : List Block → Bool
first_free [] = false
first_free (b ∷ r) = b.free

abbrev pub Coalesced : List Block → Type 0
Coalesced [] = Unit
Coalesced (b ∷ r) = ((b.free && first_free r) ≡ false) × Coalesced r

pub Tiles-le : (a : ℕ) (l : List Block) (e : ℕ) → Tiles a l e → a ≤ e
Tiles-le a [] e h = omega (arith, h)
Tiles-le a (b ∷ r) e h = omega (arith, Tiles-le (a + block_header + b.size) r e h.3)

merge_next-Tiles :
    (a : ℕ) (b : Block) (r : List Block) (e : ℕ)
    → Tiles a (b ∷ r) e
    → e < 2 ^ 64
    → Tiles a (merge_next b r) e
unfolding merge_next
merge_next-Tiles a b [] e h small = h
merge_next-Tiles a b (n ∷ r) e h small = elim (Bool-cases n.free) [
  | inr used ↦ rw used h
  | inl free ↦
      let le = Tiles-le (a + block_header + b.size + block_header + n.size) r e h.3.3 in
      let s : a + block_header + (b.size + (block_header + n.size)) % 2 ^ 64
          ≡ a + block_header + b.size + block_header + n.size =
        omega (arith, le) in
      rw free (h.0, h.1, omega (arith, le, h.2, h.3.2), rw s h.3.3)
]

split_block-Tiles :
    (a : ℕ) (b : Block) (r : List Block) (size e : ℕ)
    → Tiles a (b ∷ r) e
    → e < 2 ^ 64
    → size ≤ b.size
    → size % alignment ≡ 0
    → Tiles a (split_block b r size) e
unfolding split_block
split_block-Tiles a b r size e h small le unit =
    let below = Tiles-le (a + block_header + b.size) r e h.3 in
    let remaining : (b.size + 2 ^ 64 - size) % 2 ^ 64 ≡ b.size - size = omega (arith, below) in
    elim (Bool-cases (ltb (b.size - size) (block_header + alignment))) [
      | inl whole ↦ rw (remaining, whole) h
      | inr rest ↦
          let wide : block_header + alignment ≤ b.size - size = ground arith in
          let there : a + block_header + size + block_header + (b.size - size - block_header)
              ≡ a + block_header + b.size =
            omega arith in
          let split : Block = record {
            at = b.at + block_header + size;
            size = b.size - size - block_header;
            free = true;
          } in
          rw (remaining, rest)
            (
              h.0,
              h.1,
              unit,
              merge_next-Tiles (a + block_header + size) split r e
                  (omega (arith, h.0), omega (arith, h.1), omega (arith, h.2), rw there h.3) small,
            )
    ]

-- Splitting or merging leaves no two free neighbours where there were none.
merge_next-Coalesced : (b : Block) (r : List Block) → Coalesced r → Coalesced (merge_next b r)
unfolding merge_next
merge_next-Coalesced b [] h = (ground arith, tt)
merge_next-Coalesced b (n ∷ r) h =
    if_elim Coalesced n.free _ _ (λ free. (ground arith, h.1)) (λ used. (ground arith, h))

use_split-Coalesced :
    (b : Block) (r : List Block) (size : ℕ)
    → Coalesced r
    → Coalesced (use_first (split_block b r size))
unfolding split_block
use_split-Coalesced b r size h =
    if_elim (λ l. Coalesced (use_first l))
      (ltb ((b.size + 2 ^ 64 - size) % 2 ^ 64) (block_header + alignment)) _ _ (λ _. (refl, h))
      (λ _. (refl, merge_next-Coalesced _ r h))

use_first-Tiles : (a : ℕ) (l : List Block) (e : ℕ) → Tiles a l e → Tiles a (use_first l) e
use_first-Tiles a [] e h = h
use_first-Tiles a (b ∷ r) e h = h

-- Where an allocation comes from.
abbrev pub Given : List Block → ℕ → ℕ → Type 0
Given [] p size = ⊥
Given (b ∷ r) p size =
    ((b.at + block_header ≡ p) × (size ≤ b.size) × (b.free ≡ false)) ⊎ Given r p size

-- The first block of the list is not free if it was not.
abbrev pub Better : List Block → List Block → Type 0
Better l l' = first_free l' ≡ true → first_free l ≡ true

use_split-Better :
    (b : Block) (r : List Block) (size : ℕ) → Better (b ∷ r) (use_first (split_block b r size))
unfolding split_block
use_split-Better b r size =
    if_elim (λ l. Better (b ∷ r) (use_first l))
      (ltb ((b.size + 2 ^ 64 - size) % 2 ^ 64) (block_header + alignment)) _ _ (λ _ h. cc)
      (λ _ h. cc)

use_split-Given :
    (b : Block) (r : List Block) (size : ℕ)
    → size ≤ b.size
    → Given (use_first (split_block b r size)) (b.at + block_header) size
unfolding split_block
use_split-Given b r size le =
    if_elim (λ l. Given (use_first l) (b.at + block_header) size)
      (ltb ((b.size + 2 ^ 64 - size) % 2 ^ 64) (block_header + alignment)) _ _
      (λ _. inl (refl, le, refl)) (λ _. inl (refl, omega arith, refl))

-- An allocation in an arena keeps its blocks one behind the other from its start to its end, with no
-- two free neighbours, begins with a free block only if it did before, and yields an aligned address
-- at which a block of that size or more begins, which is in use.
pub take_block-Tiles :
    (l : List Block) (a e size p : ℕ) (l' : List Block)
    → Tiles a l e
    → Coalesced l
    → e < 2 ^ 64
    → size % alignment ≡ 0
    → take_block l size ≡ some (p, l')
    → Tiles a l' e × Coalesced l' × Better l l' × Given l' p size × (p % alignment ≡ 0)
unfolding take_block
take_block-Tiles [] a e size p l' h c small unit k = cc
take_block-Tiles (b ∷ r) a e size p l' h c small unit k =
    elim (Bool-cases (b.free && leb size b.size)) [
      | inl fits ↦
          let at : p ≡ b.at + block_header = ground (arith, k) in
          let made : l' ≡ use_first (split_block b r size) = ground (arith, k) in
          let le : size ≤ b.size = ground arith in
          rw (made, at)
            (
              use_first-Tiles a (split_block b r size) e
                  (split_block-Tiles a b r size e h small le unit),
              use_split-Coalesced b r size c.1,
              use_split-Better b r size,
              use_split-Given b r size le,
              omega (arith, h.0, h.1),
            )
      | inr full ↦
          go (take_block r size) refl (ground (arith, k))
            (λ q s. take_block-Tiles r (a + block_header + b.size) e size q s h.3 c.1 small unit)
    ]
  where
    go :
        (o : Option (ℕ × List Block))
        → take_block r size ≡ o
        → after_block b o ≡ some (p, l')
        → ((q : ℕ) (s : List Block)
            → take_block r size ≡ some (q, s)
            → Tiles (a + block_header + b.size) s e
              × Coalesced s
              × Better r s
              × Given s q size
              × (q % alignment ≡ 0))
        → Tiles a l' e × Coalesced l' × Better (b ∷ r) l' × Given l' p size × (p % alignment ≡ 0)
    go none f g ih = cc
    go (some (q, s)) f g ih =
        let at : q ≡ p = ground (arith, g) in
        let made : l' ≡ b ∷ s = ground (arith, g) in
        let (tiles, coalesced, better, given, aligned) = ih q s f in
        rw (made, ← at)
          (
            (h.0, h.1, h.2, tiles),
            (ground (arith, c.0, better), coalesced),
            λ free. free,
            inr given,
            aligned,
          )
