-- ===== src/Kernel/Syscall/Mapping.antt =====
-- page_align, handle_map and handle_unmap of kernel/syscall.c, over the page tables.
use narc_os.Common.{ℕ, zero, suc, ◌+◌, ◌-◌, ◌*◌, ◌/◌, ◌%◌, ◌^◌, Bool, true, false, ◌||◌, not}
use narc_os.Common.{◌==◌, ◌!=◌, ltb, leb, if◌then◌else◌, bit, sub64}
use narc_os.Kernel.Pages.{page, pmm_alloc_page, pmm_free_page}
use narc_os.Kernel.Paging.{Paging, vmm_map_user, vmm_unmap_user, vmm_user_phys}
use narc_os.Kernel.String.{memset}
use narc_os.Kernel.Task.State.{put_fs}
use narc_os.Kernel.Task.State.{Kernel, user_mmap_base}
use narc_os.Kernel.Task.Life.{task_set_mmap_next}
use narc_os.Kernel.Syscall.{
  KernelResult, result_ok, result_error, narc_invalid_argument, narc_no_memory,
}

-- USER_MMAP_END.
abbrev pub user_mmap_end : ℕ
user_mmap_end = 0x140000000

unfoldable pub page_align : ℕ → ℕ
page_align value =
    if ltb (2 ^ 64 - 1 - (page - 1)) value then 0 else (value + page - 1) / page * page

-- pmm_alloc_page clears the page's bytes too.
abbrev pub cleared_page : Kernel → ℕ → Kernel
cleared_page k phys = put_fs k (record k.fs { ram = memset k.fs.ram phys 0 page })

-- The loop that maps, with the bytes mapped so far in `mapped`, and what it comes to.
unfoldable pub map_rounds :
    ℕ → Kernel → Paging → (base mapped size : ℕ) → Bool → ℕ × Kernel × Paging
map_rounds zero k t base mapped size write = (mapped, k, t)
map_rounds (suc n) k t base mapped size write =
    let (phys, pages) = pmm_alloc_page t.pages in
    let u = record t { pages = pages } in
    let l = cleared_page k phys in
    let (done, v) = vmm_map_user u k.active (base + mapped) phys write in
    let rest = map_rounds n l v base (mapped + page) size write in
    if not (ltb mapped size)
    then (mapped, k, t)
    else if phys == 0
    then (mapped, k, u)
    else if done
    then rest
    else (mapped, l, record v { pages = pmm_free_page v.pages phys })

-- `n` rounds of the loop that unmaps.
unfoldable pub unmap_rounds : ℕ → Paging → (space address : ℕ) → Paging
unmap_rounds zero t space address = t
unmap_rounds (suc n) t space address =
    unmap_rounds n (vmm_unmap_user t space address).1 space (address + page)

-- Are the pages of `n` rounds all mapped?
unfoldable pub all_mapped : ℕ → Paging → (space address : ℕ) → Bool
all_mapped zero t space address = true
all_mapped (suc n) t space address =
    let rest = all_mapped n t space (address + page) in
    if vmm_user_phys t space address == 0 then false else rest

-- The result, the kernel and the page tables.
abbrev pub map_pages : Kernel → Paging → (base size : ℕ) → Bool → KernelResult × Kernel × Paging
map_pages k t base size write =
    let (mapped, l, u) = map_rounds (size / page) k t base 0 size write in
    if mapped != size
    then (result_error narc_no_memory, l, unmap_rounds (mapped / page) u k.active base)
    else (result_ok base, task_set_mmap_next l (base + size), u)

-- NARC_MAP_READ and NARC_MAP_WRITE are bits 0 and 1.
unfoldable pub handle_map : Kernel → Paging → (len flags : ℕ) → KernelResult × Kernel × Paging
handle_map k t len flags =
    let size = page_align len in
    let base = page_align (k.task k.current).mmap_next in
    if len == 0 || leb (2 ^ 2) flags || not (bit flags 0)
    then (result_error narc_invalid_argument, k, t)
    else if size == 0 || ltb base user_mmap_base || ltb (sub64 user_mmap_end base) size
    then (result_error narc_no_memory, k, t)
    else map_pages k t base size (bit flags 1)

unfoldable pub handle_unmap : Kernel → Paging → (address len : ℕ) → KernelResult × Paging
handle_unmap k t address len =
    let size = page_align len in
    if len == 0 || address % page != 0
    then (result_error narc_invalid_argument, t)
    else if size == 0 || ltb address user_mmap_base || ltb (sub64 user_mmap_end address) size
    then (result_error narc_invalid_argument, t)
    else if all_mapped (size / page) t k.active address
    then (result_ok 0, unmap_rounds (size / page) t k.active address)
    else (result_error narc_invalid_argument, t)
