-- ===== src/Kernel/Paging.antt =====
-- The page tables of x86-64 in kernel/mm/mm.c: next_table, get_pte and the vmm_ functions. The tables
-- stand in the words of the physical pages, 0 is the null pointer, an address space is its root, and
-- a result of -1 is `false`. cr3 is a variable; invlpg is left out. What an entry joins by `|` has
-- no bit in common, so it is a sum.
pub mod Space
pub mod Walk
pub mod Frame
pub mod Grow
pub mod Step
pub mod Map
pub mod Range
mod Tests
use narc_os.Common.{ℕ, zero, suc, ◌+◌, ◌-◌, ◌*◌, ◌/◌, ◌%◌, ◌^◌, Bool, true, false, ◌&&◌, ◌||◌, not}
use narc_os.Common.{
  Option, none, some, List, [], ◌∷◌, ◌==◌, ◌!=◌, ltb, leb, if◌then◌else◌, bit, add64,
}
use narc_os.Kernel.Pages.{Pages, page, put_word, pmm_alloc_page, pmm_free_page}

-- `current` is current_space, the root of that space.
pub record Paging : Type 0 where
  pub pages : Pages
  pub cr3 : ℕ
  pub current : ℕ

-- PTE_PRESENT, PTE_WRITE, PTE_USER, PTE_HUGE.
abbrev pub pte_present : ℕ
pte_present = 2 ^ 0

abbrev pub pte_write : ℕ
pte_write = 2 ^ 1

abbrev pub pte_user : ℕ
pte_user = 2 ^ 2

abbrev pub present : ℕ → Bool
present e = bit e 0

abbrev pub writable : ℕ → Bool
writable e = bit e 1

abbrev pub user : ℕ → Bool
user e = bit e 2

abbrev pub huge : ℕ → Bool
huge e = bit e 7

-- `entry & ADDR_MASK`.
abbrev pub address : ℕ → ℕ
address e = e % 2 ^ 52 - e % 2 ^ 12

abbrev pub only_if : Bool → ℕ → ℕ
only_if b n = if b then n else 0

-- `e | flag` and `e & ~flag`, given whether the bit is set.
abbrev pub with_flag : Bool → ℕ → ℕ → ℕ
with_flag isset flag e = if isset then e else e + flag

abbrev pub without_flag : Bool → ℕ → ℕ → ℕ
without_flag isset flag e = if isset then e - flag else e

abbrev pub word_of : Paging → ℕ → ℕ
word_of k a = k.pages.word a

abbrev pub put : Paging → ℕ → ℕ → Paging
put k a v = record k { pages = record k.pages { word = put_word k.pages.word a v } }

abbrev pub slot : ℕ → ℕ → ℕ
slot table index = table + 8 * index

-- A new table in an entry that is not there yet.
abbrev pub fresh_table : Paging → ℕ → Bool → Option ℕ × Paging
fresh_table k at for_user =
    let (p, pages) = pmm_alloc_page k.pages in
    let l = record k { pages = pages } in
    if p == 0
    then (none, l)
    else (some p, put l at (p + (pte_present + pte_write + only_if for_user pte_user)))

unfoldable pub next_table : Paging → (table index : ℕ) (create for_user : Bool) → Option ℕ × Paging
next_table k table index create for_user =
    let at = slot table index in
    let entry = word_of k at in
    let marked = put k at (with_flag (user entry) pte_user entry) in
    if not (present entry)
    then (if not create then (none, k) else fresh_table k at for_user)
    else if huge entry
    then (none, k)
    else (some (address entry), if for_user && create then marked else k)

-- `(virt >> shift) & 0x1ff`.
abbrev pub index_at : ℕ → ℕ → ℕ
index_at virt shift = virt / 2 ^ shift % 512

-- The calls of next_table in get_pte, at the shifts that are left.
unfoldable pub walk_tables :
    List ℕ → Paging → (table virt : ℕ) (create for_user : Bool) → Option ℕ × Paging
walk_tables [] k table virt create for_user = (some table, k)
walk_tables (s ∷ r) k table virt create for_user =
    let (next, l) = next_table k table (index_at virt s) create for_user in
    elim next [ none ↦ (none, l) | some t ↦ walk_tables r l t virt create for_user ]

abbrev pub shifts : List ℕ
shifts = 39 ∷ 30 ∷ 21 ∷ []

abbrev pub entry_in : ℕ → Option ℕ × Paging → Option ℕ × Paging
entry_in virt (none, l) = (none, l)
entry_in virt (some pt, l) = (some (slot pt (index_at virt 12)), l)

-- The address of the entry, `none` for the null pointer.
unfoldable pub get_pte : Paging → (space virt : ℕ) (create for_user : Bool) → Option ℕ × Paging
get_pte k space virt create for_user =
    entry_in virt (walk_tables shifts k space virt create for_user)

abbrev pub leaf : ℕ → Bool → Bool → ℕ
leaf phys write for_user =
    address phys + (pte_present + only_if for_user pte_user + only_if write pte_write)

abbrev pub map_at : Option ℕ × Paging → ℕ → Bool → Bool → Bool × Paging
map_at (none, l) phys write for_user = (false, l)
map_at (some at, l) phys write for_user = (true, put l at (leaf phys write for_user))

-- `write` is `flags & VMM_WRITE`.
unfoldable pub vmm_map : Paging → (space virt phys : ℕ) (write for_user : Bool) → Bool × Paging
vmm_map k space virt phys write for_user =
    map_at (get_pte k space virt true for_user) phys write for_user

abbrev pub vmm_map_user : Paging → (space virt phys : ℕ) (write : Bool) → Bool × Paging
vmm_map_user k space virt phys write = vmm_map k space virt phys write true

abbrev pub vmm_map_kernel : Paging → (virt phys : ℕ) (write : Bool) → Bool × Paging
vmm_map_kernel k virt phys write = vmm_map k k.cr3 virt phys write false

-- The entry of a page and its address, where there is a table for it.
abbrev pub looked_up : Paging → ℕ → ℕ → Option ℕ
looked_up k space virt = (get_pte k space virt false false).0

abbrev pub unmapped : Paging → ℕ → ℕ × Paging
unmapped k at = if present (word_of k at) then (address (word_of k at), put k at 0) else (0, k)

unfoldable pub vmm_unmap_kernel : Paging → ℕ → ℕ × Paging
vmm_unmap_kernel k virt = elim (looked_up k k.cr3 virt) [ none ↦ (0, k) | some at ↦ unmapped k at ]

-- The window's base and size.
unfoldable pub vmm_kernel_window : Paging → (ℕ × ℕ) × Paging
vmm_kernel_window k =
    let base : ℕ = 0xffffe00000000000 in
    ((base, 2 ^ 39), (next_table k k.cr3 (index_at base 39) true false).1)

-- `*pte & PTE_PRESENT` and `*pte & PTE_USER`.
abbrev pub is_user_page : ℕ → Bool
is_user_page e = present e && user e

abbrev pub set_write : ℕ → Bool → ℕ
set_write e write =
    if write then with_flag (writable e) pte_write e else without_flag (writable e) pte_write e

abbrev pub protect_at : Paging → ℕ → Bool → Bool × Paging
protect_at k at write =
    if is_user_page (word_of k at)
    then (true, put k at (set_write (word_of k at) write))
    else (false, k)

unfoldable pub vmm_protect_user : Paging → (space virt : ℕ) (write : Bool) → Bool × Paging
vmm_protect_user k space virt write = elim (looked_up k space virt) [
  | none ↦ (false, k)
  | some at ↦ protect_at k at write
]

abbrev pub unmap_at : Paging → ℕ → Bool × Paging
unmap_at k at =
    let l = put k at 0 in
    if is_user_page (word_of k at)
    then (true, record l { pages = pmm_free_page l.pages (address (word_of k at)) })
    else (false, k)

unfoldable pub vmm_unmap_user : Paging → (space virt : ℕ) → Bool × Paging
vmm_unmap_user k space virt = elim (looked_up k space virt) [
  | none ↦ (false, k)
  | some at ↦ unmap_at k at
]

-- The entry's value, 0 where there is no table for it.
unfoldable pub pte_value : Paging → ℕ → ℕ → ℕ
pte_value k space virt = elim (looked_up k space virt) [ none ↦ 0 | some at ↦ word_of k at ]

-- 0 if the page is not mapped.
unfoldable pub vmm_user_phys : Paging → ℕ → ℕ → ℕ
vmm_user_phys k space virt =
    let e = pte_value k space virt in if is_user_page e then address e + virt % page else 0

abbrev pub user_end : ℕ
user_end = 0x00007fffffffffff

abbrev pub page_ok : ℕ → Bool → Bool
page_ok e write = is_user_page e && (if write then writable e else true)

-- The loop over the pages from `at` on, `n` of which come after the first.
unfoldable pub pages_ok : Paging → ℕ → ℕ → Bool → ℕ → Bool
pages_ok k space at write zero = page_ok (pte_value k space at) write
pages_ok k space at write (suc n) =
    let rest = pages_ok k space (at + page) write n in
    if page_ok (pte_value k space at) write then rest else false

unfoldable pub vmm_user_range_ok : Paging → (space virt len : ℕ) (write : Bool) → Bool
vmm_user_range_ok k space virt len write =
    let last = (virt + len - 1) / page in
    if len == 0
    then true
    else if ltb user_end virt
    then false
    else if ltb (user_end - virt) (len - 1)
    then false
    else pages_ok k space (virt / page * page) write (last - virt / page)
