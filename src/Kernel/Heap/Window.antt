-- ===== src/Kernel/Heap/Window.antt =====
-- The address ranges of large allocations in kernel/mm/heap.c: window_alloc and window_free. The list
-- of free ranges, which the source links through `next`, is the list of their bases and page counts.
-- That a range's own record is freed, and where it lies, is left out; whether kmalloc yields one is
-- an argument of window_free.
pub mod Free
pub mod Release
use narc_os.Common.{ℕ, ◌+◌, ◌-◌, ◌*◌, ◌/◌, ◌%◌, ◌^◌, Bool, true, false, Option, none, some}
use narc_os.Common.{List, [], ◌∷◌, ◌==◌, ltb, if◌then◌else◌}
use narc_os.Kernel.Vfs.State.{page_size}

-- `struct range`.
pub record Range : Type 0 where
  pub base : ℕ
  pub pages : ℕ

-- `free_ranges`, `window_next` and `window_end`.
pub record Window : Type 0 where
  pub ranges : List Range
  pub next : ℕ
  pub end : ℕ

abbrev pub range : ℕ → ℕ → Range
range base pages = record { base = base; pages = pages }

-- `base + pages * PAGE_SIZE` on 64 bits.
abbrev pub past : ℕ → ℕ → ℕ
past base pages = (base + pages * page_size) % 2 ^ 64

-- A range with `pages` taken from its front; one that is used up leaves the list.
abbrev pub shrink : Range → ℕ → List Range → List Range
shrink r pages rs =
    if r.pages == pages then rs else range (past r.base pages) (r.pages - pages) ∷ rs

abbrev pub behind : Range → Option (ℕ × List Range) → Option (ℕ × List Range)
behind r none = none
behind r (some (base, rs)) = some (base, r ∷ rs)

-- The loop of window_alloc: the first range that is large enough.
unfoldable pub range_alloc : List Range → ℕ → Option (ℕ × List Range)
range_alloc [] pages = none
range_alloc (r ∷ rs) pages =
    let rest = behind r (range_alloc rs pages) in
    if ltb r.pages pages then rest else some (r.base, shrink r pages rs)

-- `none` is the null address.
unfoldable pub window_alloc : Window → ℕ → Option (ℕ × Window)
window_alloc w pages =
    let fresh = some (w.next, record w { next = past w.next pages }) in
    elim (range_alloc w.ranges pages) [
      | some (base, rs) ↦ some (base, record w { ranges = rs })
      | none ↦ if ltb ((w.end - w.next) / page_size) pages then none else fresh
    ]

-- window_free with `prev` not null and the ranges behind it; `room` says that kmalloc succeeds.
unfoldable pub free_behind : Bool → Range → List Range → ℕ → ℕ → List Range
free_behind room prev [] base pages =
    if past prev.base prev.pages == base
    then range prev.base (prev.pages + pages) ∷ []
    else if room
    then prev ∷ range base pages ∷ []
    else prev ∷ []
free_behind room prev (next ∷ rs) base pages =
    let later = prev ∷ free_behind room next rs base pages in
    let grown = prev.pages + pages in
    if ltb next.base base
    then later
    else if past prev.base prev.pages == base
    then (if past prev.base grown == next.base
        then range prev.base (grown + next.pages) ∷ rs
        else range prev.base grown ∷ next ∷ rs)
    else if past base pages == next.base
    then prev ∷ range base (next.pages + pages) ∷ rs
    else if room
    then prev ∷ range base pages ∷ next ∷ rs
    else prev ∷ next ∷ rs

unfoldable pub window_free : Bool → List Range → ℕ → ℕ → List Range
window_free room [] base pages = if room then range base pages ∷ [] else []
window_free room (next ∷ rs) base pages =
    if ltb next.base base
    then free_behind room next rs base pages
    else if past base pages == next.base
    then range base (next.pages + pages) ∷ rs
    else if room
    then range base pages ∷ next ∷ rs
    else next ∷ rs
