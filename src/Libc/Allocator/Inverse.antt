-- ===== src/Libc/Allocator/Inverse.antt =====
-- Releasing what was allocated undoes the allocation.
use narc_os.Common.{ℕ, ◌+◌, ◌-◌, ◌%◌, ◌^◌, ◌≤◌, ◌<◌, ◌≡◌, refl, ap, ◌∙◌, arith}
use narc_os.Common.{Bool, true, false, ◌&&◌, Option, none, some, List, [], ◌∷◌, ◌==◌, ltb, leb}
use narc_os.Common.{Bool-cases, inl, inr, add64}
use narc_os.Libc.Allocator.{Block, block_header, alignment, merge_next, split_block, use_first}
use narc_os.Libc.Allocator.{after_block, take_block, join_previous, release_block}
use narc_os.Libc.Allocator.Tiles.{Tiles, Tiles-le, Coalesced, first_free}

-- A block is not merged with one that is in use.
merge_next_used : (b : Block) (r : List Block) → first_free r ≡ false → merge_next b r ≡ b ∷ r
unfolding merge_next
merge_next_used b [] h = refl
merge_next_used b (n ∷ r) h = ground arith

merge_next_free :
    (b n : Block) (r : List Block)
    → n.free ≡ true
    → merge_next b (n ∷ r) ≡ record b { size = add64 b.size (block_header + n.size) } ∷ r
unfolding merge_next
merge_next_free b n r h = ground (arith, h)

first_free-merge_next : (b : Block) (r : List Block) → first_free (merge_next b r) ≡ b.free
unfolding merge_next
first_free-merge_next b [] = refl
first_free-merge_next b (n ∷ r) = ground arith

-- A block that is released first in the list is free there.
release_first_free :
    (l : List Block) (at : ℕ) (r : List Block)
    → release_block l at ≡ some (true, r)
    → first_free r ≡ true
unfolding release_block
release_first_free [] at r h = cc
release_first_free (b ∷ l) at r h = elim (Bool-cases (b.at == at)) [
  | inl here ↦
      let e : r ≡ merge_next (record b { free = true }) l = ground (arith, h) in
      rw e (first_free-merge_next (record b { free = true }) l)
  | inr later ↦ absurd (not_first (release_block l at) (ground (arith, h)))
]
  where
    not_first : (o : Option (Bool × List Block)) → join_previous b o ≡ some (true, r) → ⊥
    not_first none k = cc
    not_first (some (true, s)) k = ground (arith, k)
    not_first (some (false, s)) k = ground (arith, k)

release_behind :
    (b : Block) (l : List Block) (at : ℕ) (first : Bool) (r : List Block)
    → (b.at == at) ≡ false
    → (b.free && first_free r) ≡ false
    → release_block l at ≡ some (first, r)
    → release_block (b ∷ l) at ≡ some (false, b ∷ r)
unfolding release_block
release_behind b l at true r other apart h =
    let free = release_first_free l at r h in
    let used : b.free ≡ false = ground arith in rw (other, h, used) (ground (arith, used))
release_behind b l at false r other apart h = rw (other, h) refl

release_first :
    (b : Block) (r : List Block)
    → release_block (b ∷ r) b.at ≡ some (true, merge_next (record b { free = true }) r)
unfolding release_block
release_first b r = ground arith

take-le :
    (l : List Block) (a e size p : ℕ) (l' : List Block)
    → Tiles a l e
    → take_block l size ≡ some (p, l')
    → a + block_header ≤ p
unfolding take_block
take-le [] a e size p l' h k = cc
take-le (b ∷ r) a e size p l' h k = elim (Bool-cases (b.free && leb size b.size)) [
  | inl fits ↦ ground (arith, k)
  | inr full ↦
      go (take_block r size) refl (ground (arith, k))
        (λ q s. take-le r (a + block_header + b.size) e size q s h.3)
]
  where
    go :
        (o : Option (ℕ × List Block))
        → take_block r size ≡ o
        → after_block b o ≡ some (p, l')
        → ((q : ℕ) (s : List Block)
            → take_block r size ≡ some (q, s)
            → a + block_header + b.size + block_header ≤ q)
        → a + block_header ≤ p
    go none f g ih = cc
    go (some (q, s)) f g ih = ground (arith, ih q s f, g)

-- The first block, used and released.
release-use_split :
    (a : ℕ) (b : Block) (r : List Block) (size e : ℕ)
    → Tiles a (b ∷ r) e
    → e < 2 ^ 64
    → b.free ≡ true
    → first_free r ≡ false
    → size ≤ b.size
    → release_block (use_first (split_block b r size)) b.at ≡ some (true, b ∷ r)
unfolding split_block
release-use_split a b r size e h small free used le =
    let below = Tiles-le (a + block_header + b.size) r e h.3 in
    let remaining : (b.size + 2 ^ 64 - size) % 2 ^ 64 ≡ b.size - size = omega (arith, below) in
    let whole : record b { free = true } ≡ b = ground (arith, free) in
    elim (Bool-cases (ltb (b.size - size) (block_header + alignment))) [
      | inl kept ↦
          rw (remaining, kept)
            (release_first (record b { free = false }) r
              ∙ ap (λ x. some (true, merge_next x r)) whole
              ∙ ap (λ x. some (true, x)) (merge_next_used b r used))
      | inr rest ↦
          let wide : block_header + alignment ≤ b.size - size = ground arith in
          let split : Block = record {
            at = b.at + block_header + size;
            size = b.size - size - block_header;
            free = true;
          } in
          let sum : (size + (block_header + (b.size - size - block_header))) % 2 ^ 64 ≡ b.size =
            omega (arith, below) in
          let whole_again : record b {
            size = (size + (block_header + (b.size - size - block_header))) % 2 ^ 64;
            free = true;
          }
              ≡ b =
            ground (arith, sum, free) in
          let merged =
            ap (λ x. some (true, x))
              (merge_next_free (record b { size = size; free = true }) split r refl
                ∙ ap (λ x. x ∷ r) whole_again) in
          rw (remaining, rest, merge_next_used split r used)
            (release_first (record b { size = size; free = false }) (split ∷ r) ∙ merged)
    ]

-- Releasing a block that was just allocated in an arena puts its blocks back as they were.
pub release-take_block :
    (l : List Block) (a e size p : ℕ) (l' : List Block)
    → Tiles a l e
    → Coalesced l
    → e < 2 ^ 64
    → take_block l size ≡ some (p, l')
    → (first : Bool) × (release_block l' (p - block_header) ≡ some (first, l))
unfolding take_block
release-take_block [] a e size p l' h c small k = cc
release-take_block (b ∷ r) a e size p l' h c small k =
    elim (Bool-cases (b.free && leb size b.size)) [
      | inl fits ↦
          let at : p - block_header ≡ b.at = ground (arith, k) in
          let made : l' ≡ use_first (split_block b r size) = ground (arith, k) in
          rw (made, at)
            (
              true,
              release-use_split a b r size e h small (ground arith) (ground (arith, c.0))
                  (ground arith),
            )
      | inr full ↦
          go (take_block r size) refl (ground (arith, k))
            (λ q s. release-take_block r (a + block_header + b.size) e size q s h.3 c.1 small)
            (λ q s. take-le r (a + block_header + b.size) e size q s h.3)
    ]
  where
    go :
        (o : Option (ℕ × List Block))
        → take_block r size ≡ o
        → after_block b o ≡ some (p, l')
        → ((q : ℕ) (s : List Block)
            → take_block r size ≡ some (q, s)
            → (first : Bool) × (release_block s (q - block_header) ≡ some (first, r)))
        → ((q : ℕ) (s : List Block)
            → take_block r size ≡ some (q, s)
            → a + block_header + b.size + block_header ≤ q)
        → (first : Bool) × (release_block l' (p - block_header) ≡ some (first, b ∷ r))
    go none f g ih far = cc
    go (some (q, s)) f g ih far =
        let at : q ≡ p = ground (arith, g) in
        let made : l' ≡ b ∷ s = ground (arith, g) in
        let other : (b.at == q - block_header) ≡ false = ground (arith, far q s f, h.0) in
        let (first, back) = ih q s f in
        rw (made, ← at) (false, release_behind b s (q - block_header) first r other c.0 back)
