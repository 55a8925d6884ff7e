-- ===== src/Libc/Allocator.antt =====
-- lib/libc/src/stdlib: alloc.h, allocator.c, malloc.c, free.c, calloc.c, realloc.c. The blocks of an
-- arena, linked by `next` and `previous`, are a list; a pointer to a block is its address. What mmap
-- returns is an argument, `none` for MAP_FAILED. A null pointer that is returned is `none`; errno is
-- left out.
pub mod Tiles
pub mod Inverse
mod Tests
use narc_os.Common.{ℕ, zero, suc, ◌+◌, ◌-◌, ◌*◌, ◌/◌, ◌%◌, ◌^◌, Bool, true, false, ◌&&◌, ◌||◌, not}
use narc_os.Common.{
  Option, none, some, List, [], ◌∷◌, ◌==◌, ◌!=◌, ltb, leb, if◌then◌else◌, length, is_nil,
}
use narc_os.Common.{sub64, add64}
use narc_os.Kernel.String.{Memory, memset, memcpy}

-- PAGE_SIZE and ARENA_SIZE; sizeof(allocation_block_t), _Alignof(max_align_t) and
-- arena_header_size() as they are on the three architectures.
abbrev pub page_size : ℕ
page_size = 4096

abbrev pub arena_size : ℕ
arena_size = 64 * 1024

abbrev pub block_header : ℕ
block_header = 48

abbrev pub alignment : ℕ
alignment = 16

abbrev pub arena_header : ℕ
arena_header = 32

abbrev pub size_max : ℕ
size_max = 2 ^ 64 - 1

-- `union allocation_block`.
pub record Block : Type 0 where
  pub at : ℕ
  pub size : ℕ
  pub free : Bool

-- `struct allocation_arena`, at the address `base`.
pub record Arena : Type 0 where
  pub base : ℕ
  pub mapped : ℕ
  pub active : ℕ
  pub blocks : List Block

-- `(value + alignment - 1) & ~(alignment - 1)` for a power of two.
unfoldable pub align_up : ℕ → ℕ → ℕ
align_up value a = let v = (value + (a - 1)) % 2 ^ 64 in v - v % a

-- merge_next, with the blocks behind `b`.
unfoldable pub merge_next : Block → List Block → List Block
merge_next b [] = b ∷ []
merge_next b (next ∷ r) =
    if next.free
    then record b { size = add64 b.size (block_header + next.size) } ∷ r
    else b ∷ next ∷ r

-- split_block; its last steps are those of merge_next on the new block.
unfoldable pub split_block : Block → List Block → ℕ → List Block
split_block b r size =
    let remaining = sub64 b.size size in
    let split : Block = record {
      at = b.at + block_header + size;
      size = remaining - block_header;
      free = true;
    } in
    if ltb remaining (block_header + alignment)
    then b ∷ r
    else record b { size = size } ∷ merge_next split r

abbrev pub use_first : List Block → List Block
use_first [] = []
use_first (b ∷ r) = record b { free = false } ∷ r

abbrev pub after_block : Block → Option (ℕ × List Block) → Option (ℕ × List Block)
after_block b none = none
after_block b (some (p, r)) = some (p, b ∷ r)

-- find_block and the rest of __allocator_allocate in one arena's blocks.
unfoldable pub take_block : List Block → ℕ → Option (ℕ × List Block)
take_block [] size = none
take_block (b ∷ r) size =
    let later = after_block b (take_block r size) in
    if b.free && leb size b.size
    then some (b.at + block_header, use_first (split_block b r size))
    else later

-- The same over the list of arenas, from `arenas` on.
unfoldable pub take_arena : List Arena → ℕ → Option (ℕ × List Arena)
take_arena [] size = none
take_arena (a ∷ r) size = elim (take_block a.blocks size) [
  | some (p, blocks) ↦ some (p, record a { blocks = blocks; active = a.active + 1 } ∷ r)
  | none ↦ elim (take_arena r size) [ none ↦ none | some (p, s) ↦ some (p, a ∷ s) ]
]

abbrev pub overhead : ℕ
overhead = arena_header + block_header

-- The number of bytes that create_arena maps.
abbrev pub mapped_for : ℕ → ℕ
mapped_for size =
    let required = align_up (size + overhead) page_size in
    if ltb arena_size required then required else arena_size

abbrev pub fresh_arena : ℕ → ℕ → Arena
fresh_arena base mapped = record {
  base = base;
  mapped = mapped;
  active = 0;
  blocks = record { at = base + arena_header; size = mapped - overhead; free = true } ∷ [];
}

unfoldable pub create_arena : List Arena → ℕ → Option ℕ → Option (List Arena)
create_arena arenas size none = none
create_arena arenas size (some base) =
    if ltb (size_max - overhead - (page_size - 1)) size
    then none
    else some (fresh_arena base (mapped_for size) ∷ arenas)

-- The pointer and the arenas; the first block of a new arena is large enough.
unfoldable pub allocate : List Arena → ℕ → (mmap : Option ℕ) → Option (ℕ × List Arena)
allocate arenas requested mmap =
    let n = if requested == 0 then 1 else requested in
    let size = align_up n alignment in
    if ltb (size_max - (alignment - 1)) n then none else elim (take_arena arenas size) [
      | some r ↦ some r
      | none ↦ elim (create_arena arenas size mmap) [
        | none ↦ none
        | some more ↦ take_arena more size
      ]
    ]

-- The blocks behind one whose next one, with those behind it, is what the list holds: whether the
-- released block comes first in it.
abbrev pub join_previous : Block → Option (Bool × List Block) → Option (Bool × List Block)
join_previous b none = none
join_previous b (some (true, r)) = some (false, if b.free then merge_next b r else b ∷ r)
join_previous b (some (false, r)) = some (false, b ∷ r)

-- __allocator_release in the blocks of the arena; `none` if the block is not there.
unfoldable pub release_block : List Block → ℕ → Option (Bool × List Block)
release_block [] at = none
release_block (b ∷ r) at =
    let later = join_previous b (release_block r at) in
    if b.at == at then some (true, merge_next (record b { free = true }) r) else later

-- An arena that is not in use any more is unmapped unless it is the only one.
unfoldable pub release_arena : Bool → List Arena → ℕ → List Arena
release_arena alone [] at = []
release_arena alone (a ∷ r) at =
    let later = a ∷ release_arena false r at in
    elim (release_block a.blocks at) [
      | none ↦ later
      | some (_, blocks) ↦
          if a.active - 1 != 0 || (alone && is_nil r)
          then record a { active = a.active - 1; blocks = blocks } ∷ r
          else r
    ]

unfoldable pub release : List Arena → ℕ → List Arena
release arenas p = if p == 0 then arenas else release_arena true arenas (sub64 p block_header)

unfoldable pub size_in : List Block → ℕ → Option ℕ
size_in [] at = none
size_in (b ∷ r) at = let rest = size_in r at in if b.at == at then some b.size else rest

-- __allocator_resize on a block and those behind it: `none` is a result of -1.
unfoldable pub resize_here : Block → List Block → ℕ → Option (List Block)
resize_here b [] size = if leb size b.size then some (split_block b [] size) else none
resize_here b (next ∷ r) size =
    let merged = record b { size = add64 b.size (block_header + next.size) } in
    if leb size b.size
    then some (split_block b (next ∷ r) size)
    else if not next.free || ltb (add64 b.size (block_header + next.size)) size
    then none
    else some (split_block merged r size)

unfoldable pub resize_block : List Block → ℕ → ℕ → Option (List Block)
resize_block [] at size = none
resize_block (b ∷ r) at size =
    let later = elim (resize_block r at size) as (λ o. Option (List Block)) [
      | none ↦ none
      | some s ↦ some (b ∷ s)
    ] in
    if b.at == at then resize_here b r size else later

unfoldable pub resize_arena : List Arena → ℕ → ℕ → Option (List Arena)
resize_arena [] at size = none
resize_arena (a ∷ r) at size = elim (resize_block a.blocks at size) [
  | some blocks ↦ some (record a { blocks = blocks } ∷ r)
  | none ↦ elim (resize_arena r at size) [ none ↦ none | some s ↦ some (a ∷ s) ]
]

-- `none` is a result of -1.
unfoldable pub resize : List Arena → ℕ → ℕ → Option (List Arena)
resize arenas p size =
    if ltb (size_max - (alignment - 1)) size
    then none
    else resize_arena arenas (sub64 p block_header) (align_up size alignment)

-- __allocator_size; a pointer that is no block's has no size.
unfoldable pub allocated_size : List Arena → ℕ → Option ℕ
allocated_size [] p = none
allocated_size (a ∷ r) p =
    let rest = allocated_size r p in
    elim (size_in a.blocks (sub64 p block_header)) [ some n ↦ some n | none ↦ rest ]

-- The size that calloc asks for; `none` when the product does not fit.
unfoldable pub calloc_size : ℕ → ℕ → Option ℕ
calloc_size count size =
    if size != 0 && ltb (size_max / size) count then none else some (count * size % 2 ^ 64)

abbrev pub cleared : ℕ → Memory → Option (ℕ × List Arena) → Option (ℕ × List Arena × Memory)
cleared total ram none = none
cleared total ram (some (p, arenas)) = some (p, arenas, memset ram p 0 total)

unfoldable pub calloc :
    List Arena → Memory → ℕ → ℕ → (mmap : Option ℕ) → Option (ℕ × List Arena × Memory)
calloc arenas ram count size mmap = elim (calloc_size count size) [
  | none ↦ none
  | some total ↦ cleared total ram (allocate arenas total mmap)
]

abbrev pub moved :
    ℕ
    → ℕ
    → Memory
    → Option (ℕ × List Arena)
    → Option ℕ × List Arena × Memory
    → Option ℕ × List Arena × Memory
moved p old ram none failed = failed
moved p old ram (some (q, arenas)) failed =
    (some q, release arenas p, memcpy ram q (λ i. ram (p + i)) old)

abbrev pub old_size : Option ℕ → ℕ
old_size none = 0
old_size (some n) = n

-- The pointer that realloc returns, `none` for the null pointer, and what becomes of the arenas and
-- the memory.
unfoldable pub realloc :
    List Arena → Memory → ℕ → ℕ → (mmap : Option ℕ) → Option ℕ × List Arena × Memory
realloc arenas ram p size mmap =
    if p == 0
    then elim (allocate arenas size mmap) [
      | none ↦ (none, arenas, ram)
      | some (q, more) ↦ (some q, more, ram)
    ]
    else if size == 0
    then (none, release arenas p, ram)
    else elim (resize arenas p size) [
      | some same ↦ (some p, same, ram)
      | none ↦
          moved p (old_size (allocated_size arenas p)) ram (allocate arenas size mmap)
            (none, arenas, ram)
    ]
