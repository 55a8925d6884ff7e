-- ===== src/Kernel/Pages/Tests.antt =====
-- A memory map with a region too short and one of three pages, and pages taken from it.
use narc_os.Common.{refl, true, List, [], ◌∷◌, has, arith}
use narc_os.Kernel.Vfs.Nodes.{unlist}
use narc_os.Kernel.Pages.{
  Region, Pages, mm_init, pmm_alloc_page, alloc_next, enter_region, pmm_free_page,
}
use narc_os.Kernel.Pages.Fresh.{
  HasPages, Allocated, pmm_alloc_page-Allocated, pmm_free_page-HasPages,
}

abbrev regions : List Region
regions =
    record { base = 0; length = 100; usable = true }
    ∷ record { base = 5000; length = 12384; usable = true }
    ∷ []

abbrev started : Pages
started = mm_init regions (λ a. 0)

started-HasPages : HasPages started [] []
unfolding has mm_init
started-HasPages = record {
  linked = refl;
  distinct = tt;
  once = tt;
  apart = λ p h. refl;
  known = λ p h. absurd (ground (arith, h));
  aligned = refl;
  in_range = (omega arith, omega arith);
  ascending = (λ u. (omega arith, omega arith), ((λ u. (omega arith, omega arith)), tt));
}

pmm_alloc_page-Allocated_example : Allocated 8192 (pmm_alloc_page started).1 []
unfolding mm_init pmm_alloc_page alloc_next enter_region
pmm_alloc_page-Allocated_example = pmm_alloc_page-Allocated started [] [] started-HasPages

abbrev running : Pages
running = record { map = []; next_phys = 16384; region_end = 17384; free_head = 0; word = λ a. 0 }

running-HasPages : HasPages running [] (8192 ∷ 12288 ∷ [])
unfolding has
running-HasPages = record {
  linked = refl;
  distinct = tt;
  once = (refl, (refl, tt));
  apart = λ p h. absurd (ground (arith, h));
  known = λ p h. ground (arith, h);
  aligned = refl;
  in_range = (omega arith, omega arith);
  ascending = tt;
}

pmm_free_page-HasPages_example :
    HasPages (pmm_free_page running 12288) (12288 ∷ []) (unlist 12288 (8192 ∷ 12288 ∷ []))
unfolding has
pmm_free_page-HasPages_example =
    pmm_free_page-HasPages running [] (8192 ∷ 12288 ∷ []) 12288 running-HasPages refl
