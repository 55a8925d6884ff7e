-- ===== src/Kernel/Heap/Tests.antt =====
-- A window of sixteen pages: the third one is free, and those from the fifth on were never used.
use narc_os.Common.{ℕ, ◌*◌, ◌≡◌, refl, arith, true, ◌&&◌, ◌||◌, not, List, [], ◌∷◌}
use narc_os.Kernel.String.{inside}
use narc_os.Kernel.Vfs.State.{page_size}
use narc_os.Kernel.Heap.Window.{Range, Window, range, window_alloc, range_alloc, window_free}
use narc_os.Kernel.Heap.Window.Free.{IsWindow, is_free, covers, window_alloc-is_free}
use narc_os.Kernel.Heap.Window.Release.{covers-window_free}

abbrev ranges : List Range
ranges = range (4096 * 18) 1 ∷ []

abbrev window : Window
window = record { ranges = ranges; next = 4096 * 20; end = 4096 * 32 }

window-IsWindow : IsWindow window
window-IsWindow = record {
  ordered = (omega arith, omega arith, omega arith);
  inside_end = omega arith;
  bounded = omega arith;
}

abbrev used : Window
used = record { ranges = ranges; next = 4096 * 22; end = 4096 * 32 }

window_alloc-is_free_example :
    IsWindow used
    × ((a : ℕ)
        → (is_free used a ≡ (is_free window a && not (inside 81920 (2 * page_size) a)))
          × (inside 81920 (2 * page_size) a ≡ true → is_free window a ≡ true))
unfolding window_alloc range_alloc
window_alloc-is_free_example =
    window_alloc-is_free window 2 81920 used window-IsWindow (omega arith) refl

covers-window_free_example :
    covers (window_free true ranges (4096 * 19) 1) 77824
    ≡ (covers ranges 77824 || inside (4096 * 19) (1 * page_size) 77824)
covers-window_free_example =
    covers-window_free ranges 0 (4096 * 20) (4096 * 19) 1 77824
      (omega arith, omega arith, omega arith) (omega arith) (omega arith)
