-- ===== src/Libc/Allocator/Tests.antt =====
-- An arena with a free block of 4000 bytes, from which 96 bytes are taken.
use narc_os.Common.{◌%◌, ◌≡◌, refl, Bool, true, false, some, List, [], ◌∷◌, arith}
use narc_os.Libc.Allocator.{Block, alignment, take_block, merge_next, split_block, release_block}
use narc_os.Libc.Allocator.Tiles.{Tiles, Coalesced, Better, Given, take_block-Tiles}
use narc_os.Libc.Allocator.Inverse.{release-take_block}

abbrev before : List Block
before =
    record { at = 4128; size = 32; free = false }
    ∷ record { at = 4208; size = 4000; free = true }
    ∷ []

abbrev behind : List Block
behind =
    record { at = 4128; size = 32; free = false }
    ∷ record { at = 4208; size = 96; free = false }
    ∷ record { at = 4352; size = 3856; free = true }
    ∷ []

take_block-Tiles_example :
    Tiles 4128 behind 8256
    × Coalesced behind
    × Better before behind
    × Given behind 4256 96
    × (4256 % alignment ≡ 0)
unfolding take_block split_block merge_next
take_block-Tiles_example =
    take_block-Tiles before 4128 8256 96 4256 behind (refl, refl, refl, (refl, refl, refl, refl))
      (refl, (refl, tt)) (omega arith) refl refl

release-take_block_example : (first : Bool) × (release_block behind 4208 ≡ some (first, before))
unfolding take_block split_block merge_next
release-take_block_example =
    release-take_block before 4128 8256 96 4256 behind (refl, refl, refl, (refl, refl, refl, refl))
      (refl, (refl, tt)) (omega arith) refl
