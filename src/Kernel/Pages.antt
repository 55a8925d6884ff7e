-- ===== src/Kernel/Pages.antt =====
-- Physical pages in kernel/mm/mm.c: mm_init, pmm_alloc_page, pmm_free_page. `map` is the entries of the
-- memory map from `region_index` on; `word` is the 64-bit word at a physical address, and phys_to_virt
-- is the identity.
pub mod Fresh
pub mod Empty
mod Tests
use narc_os.Common.{ℕ, ◌+◌, ◌-◌, ◌%◌, ◌^◌, Bool, true, false, ◌&&◌, ◌||◌, not, List, [], ◌∷◌}
use narc_os.Kernel.String.{inside}
use narc_os.Common.{◌==◌, ◌!=◌, ltb, leb, add64, if◌then◌else◌}

abbrev pub page : ℕ
page = 4096

-- `struct limine_memmap_entry`; `usable` is a type of LIMINE_MEMMAP_USABLE.
pub record Region : Type 0 where
  pub base : ℕ
  pub length : ℕ
  pub usable : Bool

-- The variables for physical pages.
pub record Pages : Type 0 where
  pub map : List Region
  pub next_phys : ℕ
  pub region_end : ℕ
  pub free_head : ℕ
  pub word : ℕ → ℕ

abbrev pub align_up : ℕ → ℕ
align_up x = let v = (x + (page - 1)) % 2 ^ 64 in v - v % page

unfoldable pub mm_init : List Region → (ℕ → ℕ) → Pages
mm_init map word = record { map = map; next_phys = 0; region_end = 0; free_head = 0; word = word }

abbrev pub put_word : (ℕ → ℕ) → ℕ → ℕ → ℕ → ℕ
put_word word p v a = if a == p then v else word a

-- `memset(phys_to_virt(page), 0, PAGE_SIZE)`.
abbrev pub clear_page : (ℕ → ℕ) → ℕ → ℕ → ℕ
clear_page word p a = if inside p page a then 0 else word a

-- `next_phys && next_phys + PAGE_SIZE <= region_end`.
abbrev pub fits : Pages → Bool
fits k = k.next_phys != 0 && leb (add64 k.next_phys page) k.region_end

-- The page at next_phys.
abbrev pub take_next : Pages → ℕ × Pages
take_next k = (
  k.next_phys,
  record k { next_phys = add64 k.next_phys page; word = clear_page k.word k.next_phys },
)

-- The loop over the memory map: the next region that is usable and holds a page.
unfoldable pub enter_region : Pages → List Region → Pages
enter_region k [] = record k { map = [] }
enter_region k (e ∷ r) =
    let rest = enter_region k r in
    if not e.usable || ltb e.length page
    then rest
    else record k { map = r; next_phys = align_up e.base; region_end = add64 e.base e.length }

-- The loop of pmm_alloc_page: a second round comes only after the test that the first part repeats.
unfoldable pub alloc_next : Pages → ℕ × Pages
alloc_next k =
    let entered = enter_region k k.map in
    if fits k then take_next k else if fits entered then take_next entered else (0, entered)

-- The page, 0 on failure.
unfoldable pub pmm_alloc_page : Pages → ℕ × Pages
pmm_alloc_page k =
    if k.free_head != 0
    then (
      k.free_head,
      record k { free_head = k.word k.free_head; word = clear_page k.word k.free_head },
    )
    else alloc_next k

unfoldable pub pmm_free_page : Pages → ℕ → Pages
pmm_free_page k p =
    if p == 0 || p % page != 0
    then k
    else record k { free_head = p; word = put_word k.word p k.free_head }
