-- ===== src/Kernel/Paging/Tests.antt =====
-- An empty address space with four free pages, and one in which the page of address 0 is mapped.
use narc_os.Common.{ℕ, ◌+◌, ◌≤◌, ◌<◌, ◌≡◌, ◌↔◌, refl, arith}
use narc_os.Common.{true, false, [], ◌∷◌, ◌==◌, if◌then◌else◌, has}
use narc_os.Kernel.Pages.{Pages}
use narc_os.Kernel.Pages.Fresh.{HasPages}
use narc_os.Kernel.Paging.{
  Paging, pte_value, page_ok, user_end, vmm_user_range_ok, pages_ok, vmm_map_user, get_pte,
  walk_tables, next_table,
}
use narc_os.Kernel.Paging.Walk.{HasTables}
use narc_os.Kernel.Paging.Grow.{IsMapped}
use narc_os.Kernel.Paging.Map.{Translates, vmm_map_user-vmm_user_phys}
use narc_os.Kernel.Paging.Range.{vmm_user_range_ok_iff}

abbrev four_free : Pages
four_free = record { map = []; next_phys = 8192; region_end = 24576; free_head = 0; word = λ a. 0 }

four_free-HasPages : HasPages four_free [] (4096 ∷ [])
unfolding has
four_free-HasPages = record {
  linked = refl;
  distinct = tt;
  once = (refl, tt);
  apart = λ p h. absurd (ground (arith, h));
  known = λ p h. ground (arith, h);
  aligned = refl;
  in_range = (omega arith, omega arith);
  ascending = tt;
}

abbrev empty_space : Paging
empty_space = record { pages = four_free; cr3 = 0; current = 0 }

abbrev root_role : ℕ → ℕ
root_role t = if t == 4096 then 39 else 0

empty_space-HasTables : HasTables (λ a. 0) root_role (λ t. 0)
empty_space-HasTables = record {
  aligned = λ t h. ground (arith, h);
  child = λ t i hi deep go. absurd (ground (arith, go));
}

empty_space-IsMapped : IsMapped empty_space root_role (λ t. 0) [] (4096 ∷ [])
unfolding has
empty_space-IsMapped = record {
  tables = empty_space-HasTables;
  pages = four_free-HasPages;
  low = (omega arith, tt);
  in_use = λ t h. ground (arith, h);
}

vmm_map_user-vmm_user_phys_example :
    Translates empty_space 4096 0x400123 0x7000 (vmm_map_user empty_space 4096 0x400123 0x7000 true)
vmm_map_user-vmm_user_phys_example =
    vmm_map_user-vmm_user_phys empty_space 4096 0x400123 0x7000 true root_role (λ t. 0) []
      (4096 ∷ []) empty_space-IsMapped (refl, refl) (omega arith)

abbrev one_page : Paging
one_page = record {
  pages = record four_free {
    word = λ a.
        if a == 4096
        then 8199
        else if a == 8192
        then 12295
        else if a == 12288
        then 16391
        else if a == 16384
        then 20487
        else 0;
  };
  cr3 = 0;
  current = 0;
}

mapped_page_ok : vmm_user_range_ok one_page 4096 100 3996 true ≡ true
unfolding vmm_user_range_ok pages_ok pte_value get_pte walk_tables next_table
mapped_page_ok = refl

next_page_refused : vmm_user_range_ok one_page 4096 100 3997 true ≡ false
unfolding vmm_user_range_ok pages_ok pte_value get_pte walk_tables next_table
next_page_refused = refl

vmm_user_range_ok_iff_example : (vmm_user_range_ok one_page 4096 100 3996 true ≡ true) ↔ (
    (a : ℕ)
    → 100 ≤ a
    → a < 100 + 3996
    → (a ≤ user_end) × (page_ok (pte_value one_page 4096 a) true ≡ true))
vmm_user_range_ok_iff_example = vmm_user_range_ok_iff one_page 4096 100 3996 true
