-- ===== src/Kernel/Heap/Window/Release.antt =====
-- window_free: what becomes free.
use narc_os.Common.{ℕ, ◌+◌, ◌*◌, ◌^◌, ◌<◌, ◌≡◌, arith}
use narc_os.Common.{true, ◌||◌, List, [], ◌∷◌}
use narc_os.Kernel.String.{inside}
use narc_os.Kernel.Vfs.State.{page_size}
use narc_os.Kernel.Heap.Window.{Range, free_behind, window_free}
use narc_os.Kernel.Heap.Window.Free.{covers, InOrder, InOrder-le}

covers-free_behind :
    (low : ℕ) (prev : Range) (rs : List Range) (top base pages a : ℕ)
    → InOrder low (prev ∷ rs) top
    → top < 2 ^ 64
    → base + pages * page_size < 2 ^ 64
    → covers (free_behind true prev rs base pages) a
      ≡ (covers (prev ∷ rs) a || inside base (pages * page_size) a)
unfolding free_behind covers
covers-free_behind low prev [] top base pages a h small fits =
    ground (arith, InOrder-le low (prev ∷ []) top h)
covers-free_behind low prev (next ∷ rs) top base pages a h small fits = ground (
  arith,
  h.2.0,
  InOrder-le (next.base + next.pages * page_size) rs top h.2.2,
  covers-free_behind (prev.base + prev.pages * page_size) next rs top base pages a h.2 small fits,
)

-- Freeing a run of pages makes the addresses in it free, and no other address is free that was not,
-- or ceases to be, however the run is merged with its neighbours, as long as the list's ranges are in
-- order and a record for a new one is there if it is needed.
pub covers-window_free :
    (rs : List Range) (low top base pages a : ℕ)
    → InOrder low rs top
    → top < 2 ^ 64
    → base + pages * page_size < 2 ^ 64
    → covers (window_free true rs base pages) a ≡ (covers rs a || inside base (pages * page_size) a)
unfolding window_free covers
covers-window_free [] low top base pages a h small fits = ground arith
covers-window_free (next ∷ rs) low top base pages a h small fits =
    ground (arith, covers-free_behind low next rs top base pages a h small fits)
