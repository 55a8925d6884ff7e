-- ===== src/Kernel/Paging/Space.antt =====
-- Address spaces in kernel/mm/mm.c: vmm_space_create, clone_table, vmm_space_clone, vmm_space_activate,
-- free_table, vmm_space_destroy. A loop over the entries of a table is a count of rounds.
use narc_os.Common.{ℕ, zero, suc, ◌+◌, ◌-◌, Bool, true, false, ◌||◌, not}
use narc_os.Common.{Option, none, some, ◌==◌, if◌then◌else◌}
use narc_os.Kernel.Pages.{page, pmm_alloc_page, pmm_free_page}
use narc_os.Kernel.String.{inside}
use narc_os.Kernel.Paging.{Paging, present, huge, address, word_of, put, slot}

-- `n` rounds from index `i` on, up to the first that fails.
unfoldable pub each_entry : (ℕ → Paging → Bool × Paging) → ℕ → ℕ → Paging → Bool × Paging
each_entry step zero i k = (true, k)
each_entry step (suc n) i k =
    let (done, l) = step i k in
    let rest = each_entry step n (i + 1) l in if done then rest else (false, l)

abbrev pub copy_entry : ℕ → ℕ → ℕ → Paging → Bool × Paging
copy_entry dst src i k = (true, put k (slot dst i) (word_of k (slot src i)))

-- The new root, `none` for -1.
unfoldable pub vmm_space_create : Paging → Option ℕ × Paging
vmm_space_create k =
    let (root, pages) = pmm_alloc_page k.pages in
    let l = record k { pages = pages } in
    if root == 0 then (none, l) else (some root, (each_entry (copy_entry root l.cr3) 256 256 l).1)

-- `memcpy` of a page.
abbrev pub copy_page : Paging → ℕ → ℕ → Paging
copy_page k dst src = record k {
  pages = record k.pages {
    word = λ a. if inside dst page a then k.pages.word (src + (a - dst)) else k.pages.word a;
  };
}

-- `page | (entry & ~ADDR_MASK)`.
abbrev pub moved_entry : ℕ → ℕ → ℕ
moved_entry p entry = p + (entry - address entry)

-- One entry, with what clones a table below; there is none at level 1.
abbrev pub clone_entry :
    Option (ℕ → ℕ → Paging → Bool × Paging) → ℕ → ℕ → ℕ → Paging → Bool × Paging
clone_entry below dst src i k =
    let entry = word_of k (slot src i) in
    let (p, pages) = pmm_alloc_page k.pages in
    let l = put (record k { pages = pages }) (slot dst i) (moved_entry p entry) in
    let copied = copy_page l p (address entry) in
    if not (present entry)
    then (true, k)
    else if p == 0
    then (false, record k { pages = pages })
    else elim below [
      | none ↦ (true, copied)
      | some table ↦ if huge entry then (true, copied) else table p (address entry) l
    ]

-- clone_table at level `level + 1`.
unfoldable pub clone_table : ℕ → ℕ → ℕ → Paging → Bool × Paging
clone_table zero dst src k = each_entry (clone_entry none dst src) 512 0 k
clone_table (suc level) dst src k =
    each_entry (clone_entry (some (clone_table level)) dst src) 512 0 k

-- An entry of the root; it is never taken for a huge page.
abbrev pub clone_root_entry : ℕ → ℕ → ℕ → Paging → Bool × Paging
clone_root_entry to from i k =
    let entry = word_of k (slot from i) in
    let (p, pages) = pmm_alloc_page k.pages in
    let l = put (record k { pages = pages }) (slot to i) (moved_entry p entry) in
    if not (present entry)
    then (true, k)
    else if p == 0
    then (false, record k { pages = pages })
    else clone_table 2 p (address entry) l

abbrev pub free_at : Paging → ℕ → Paging
free_at k p = record k { pages = pmm_free_page k.pages p }

-- Level 1 has nothing below.
abbrev pub free_entry : Option (ℕ → Paging → Paging) → ℕ → ℕ → Paging → Bool × Paging
free_entry below table i k =
    let entry = word_of k (slot table i) in
    if not (present entry) then (true, k) else elim below [
      | none ↦ (true, free_at k (address entry))
      | some free_below ↦
          if huge entry
          then (true, free_at k (address entry))
          else (true, free_below (address entry) k)
    ]

-- free_table at level `level + 1`.
unfoldable pub free_table : ℕ → ℕ → Paging → Paging
free_table zero table k = free_at (each_entry (free_entry none table) 512 0 k).1 table
free_table (suc level) table k =
    free_at (each_entry (free_entry (some (free_table level)) table) 512 0 k).1 table

abbrev pub free_root_entry : ℕ → ℕ → Paging → Bool × Paging
free_root_entry root i k =
    let entry = word_of k (slot root i) in
    (true, if present entry then free_table 2 (address entry) k else k)

-- The caller's root becomes 0 where the space is destroyed.
unfoldable pub vmm_space_destroy : Paging → ℕ → ℕ × Paging
vmm_space_destroy k root =
    if root == 0 || k.cr3 == root
    then (root, k)
    else (0, free_at (each_entry (free_root_entry root) 256 0 k).1 root)

abbrev pub clone_into : Paging → ℕ → ℕ → Option ℕ × Paging
clone_into k to from =
    let (done, l) = each_entry (clone_root_entry to from) 256 0 k in
    if done then (some to, l) else (none, (vmm_space_destroy l to).1)

unfoldable pub vmm_space_clone : Paging → ℕ → Option ℕ × Paging
vmm_space_clone k from =
    let (to, l) = vmm_space_create k in
    elim to [ none ↦ (none, l) | some root ↦ clone_into l root from ]

unfoldable pub vmm_space_activate : Paging → ℕ → Paging
vmm_space_activate k space = record k { current = space; cr3 = space }
