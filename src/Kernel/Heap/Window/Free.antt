-- ===== src/Kernel/Heap/Window/Free.antt =====
-- Which addresses of the window are free.
use narc_os.Common.{ℕ, ◌+◌, ◌-◌, ◌*◌, ◌/◌, ◌^◌, ◌≤◌, ◌<◌, ◌≡◌, refl, arith}
use narc_os.Common.{
  Bool, true, false, ◌&&◌, ◌||◌, not, Option, none, some, List, [], ◌∷◌, ◌==◌, ltb, if◌then◌else◌,
}
use narc_os.Common.{Bool-cases, inl, inr}
use narc_os.Kernel.String.{inside}
use narc_os.Kernel.Vfs.State.{page_size}
use narc_os.Kernel.Heap.Window.{Range, Window, past, shrink, behind, range_alloc, window_alloc}

-- Is the address in one of the ranges?
unfoldable pub covers : List Range → ℕ → Bool
covers [] a = false
covers (r ∷ rs) a = inside r.base (r.pages * page_size) a || covers rs a

-- The ranges are not empty and follow each other between two addresses.
abbrev pub InOrder : ℕ → List Range → ℕ → Type 0
InOrder low [] top = low ≤ top
InOrder low (r ∷ rs) top =
    (low ≤ r.base) × (1 ≤ r.pages) × InOrder (r.base + r.pages * page_size) rs top

-- A window whose free ranges lie below the part that was never used.
pub record IsWindow (w : Window) : Type 0 where
  pub ordered : InOrder 0 w.ranges w.next
  pub inside_end : w.next ≤ w.end
  pub bounded : w.end < 2 ^ 64

abbrev pub is_free : Window → ℕ → Bool
is_free w a = covers w.ranges a || inside w.next (w.end - w.next) a

pub InOrder-le : (low : ℕ) (rs : List Range) (top : ℕ) → InOrder low rs top → low ≤ top
InOrder-le low [] top h = h
InOrder-le low (r ∷ rs) top h = omega (arith, InOrder-le (r.base + r.pages * page_size) rs top h.2)

InOrder-low :
    (low low' : ℕ) (rs : List Range) (top : ℕ)
    → low ≤ low'
    → InOrder low' rs top
    → InOrder low rs top
InOrder-low low low' [] top h k = omega (arith, k)
InOrder-low low low' (r ∷ rs) top h k = (omega (arith, k.0), k.1, k.2)

InOrder-top :
    (low : ℕ) (rs : List Range) (top top' : ℕ)
    → top ≤ top'
    → InOrder low rs top
    → InOrder low rs top'
InOrder-top low [] top top' h k = omega (arith, k)
InOrder-top low (r ∷ rs) top top' h k =
    (k.0, k.1, InOrder-top (r.base + r.pages * page_size) rs top top' h k.2)

-- Nothing below the ranges is in them, and nothing from their top on.
covers_outside :
    (low : ℕ) (rs : List Range) (top a : ℕ)
    → InOrder low rs top
    → covers rs a ≡ true
    → (low ≤ a) × (a < top)
unfolding covers
covers_outside low [] top a h k = cc
covers_outside low (r ∷ rs) top a h k =
    let le = InOrder-le (r.base + r.pages * page_size) rs top h.2 in
    elim (Bool-cases (inside r.base (r.pages * page_size) a)) [
      | inl e ↦ (ground arith, ground arith)
      | inr e ↦
          let rest = covers_outside (r.base + r.pages * page_size) rs top a h.2 (ground arith) in
          (omega (arith, rest.0), rest.1)
    ]

-- An allocation from the ranges takes addresses that are in them, and leaves the others.
abbrev Taken : ℕ → ℕ → ℕ → List Range → ℕ → List Range → Type 0
Taken low top pages rs base left =
    InOrder low left top
    × ((a : ℕ)
        → (covers left a ≡ (covers rs a && not (inside base (pages * page_size) a)))
          × (inside base (pages * page_size) a ≡ true → covers rs a ≡ true))

shrink-Taken :
    (low : ℕ) (r : Range) (rs : List Range) (top pages : ℕ)
    → InOrder low (r ∷ rs) top
    → top < 2 ^ 64
    → 1 ≤ pages
    → pages ≤ r.pages
    → Taken low top pages (r ∷ rs) r.base (shrink r pages rs)
unfolding covers
shrink-Taken low r rs top pages h small some_pages fits =
    let end = r.base + r.pages * page_size in
    let le = InOrder-le end rs top h.2 in
    let out = (λ (a : ℕ) (c : covers rs a ≡ true). covers_outside end rs top a h.2 c) in
    elim (Bool-cases (r.pages == pages)) [
      | inl e ↦
          let same : r.pages ≡ pages = ground arith in
          rw e (
            InOrder-low low end rs top (omega (arith, h.0)) h.2,
            λ a. (ground (arith, out a), ground arith),
          )
      | inr e ↦
          let same : past r.base pages + (r.pages - pages) * page_size ≡ end = omega (arith, le) in
          rw e (
            (omega (arith, h.0), ground arith, rw same h.2),
            λ a. (ground (arith, out a), ground (arith, out a)),
          )
    ]

range_alloc-Taken :
    (low : ℕ) (rs : List Range) (top pages base : ℕ) (left : List Range)
    → InOrder low rs top
    → top < 2 ^ 64
    → 1 ≤ pages
    → range_alloc rs pages ≡ some (base, left)
    → Taken low top pages rs base left
unfolding range_alloc covers
range_alloc-Taken low [] top pages base left h small some_pages k = cc
range_alloc-Taken low (r ∷ rs) top pages base left h small some_pages k =
    elim (Bool-cases (ltb r.pages pages)) [
      | inr fits ↦
          let b : base ≡ r.base = ground (arith, k) in
          let l : left ≡ shrink r pages rs = ground (arith, k) in
          rw (b, l) (shrink-Taken low r rs top pages h small some_pages (ground arith))
      | inl short ↦ go (range_alloc rs pages) refl (ground (arith, k)) (λ b l e.
          range_alloc-Taken (r.base + r.pages * page_size) rs top pages b l h.2 small some_pages e)
    ]
  where
    go :
        (o : Option (ℕ × List Range))
        → range_alloc rs pages ≡ o
        → behind r o ≡ some (base, left)
        → ((b : ℕ) (l : List Range)
            → range_alloc rs pages ≡ some (b, l)
            → Taken (r.base + r.pages * page_size) top pages rs b l)
        → Taken low top pages (r ∷ rs) base left
    go none e f ih = cc
    go (some (b, l)) e f ih =
        let same : b ≡ base = ground (arith, f) in
        let kept : left ≡ r ∷ l = ground (arith, f) in
        let end = r.base + r.pages * page_size in
        let rest = ih b l e in
        rw (kept, ← same)
          (
            (h.0, h.1, rest.0),
            λ a. (
              ground
                  (arith, rest.1 a, λ (c : covers rs a ≡ true). covers_outside end rs top a h.2 c),
              ground (arith, rest.1 a),
            ),
          )

-- An allocation of some pages from the window returns the base of a run of so many pages that were
-- all free. Behind it these are not free, every other address is free if it was before, and the
-- window is still in shape.
pub window_alloc-is_free :
    (w : Window) (pages base : ℕ) (v : Window)
    → IsWindow w
    → 1 ≤ pages
    → window_alloc w pages ≡ some (base, v)
    → IsWindow v
      × ((a : ℕ)
          → (is_free v a ≡ (is_free w a && not (inside base (pages * page_size) a)))
            × (inside base (pages * page_size) a ≡ true → is_free w a ≡ true))
unfolding window_alloc
window_alloc-is_free w pages base v shape some_pages h = go (range_alloc w.ranges pages) refl h
  where
    go :
        (o : Option (ℕ × List Range))
        → range_alloc w.ranges pages ≡ o
        → ◌≡◌ {A = Option (ℕ × Window)}
            (elim o [
              | some (b, rs) ↦ some (b, record w { ranges = rs })
              | none ↦
                  if ltb ((w.end - w.next) / page_size) pages
                  then none
                  else some (w.next, record w { next = past w.next pages })
            ])
            (some (base, v))
        → IsWindow v
          × ((a : ℕ)
              → (is_free v a ≡ (is_free w a && not (inside base (pages * page_size) a)))
                × (inside base (pages * page_size) a ≡ true → is_free w a ≡ true))
    go (some (b, rs)) e f =
        let same : b ≡ base = ground (arith, f) in
        let kept : v ≡ record w { ranges = rs } = ground (arith, f) in
        let (ordered, at) =
          range_alloc-Taken 0 w.ranges w.next pages b rs shape.ordered
            (omega (arith, shape.inside_end, shape.bounded)) some_pages e in
        rw (kept, ← same)
          (
            record { ordered = ordered; inside_end = shape.inside_end; bounded = shape.bounded },
            λ a. (
              ground (
                arith,
                at a,
                λ (c : covers w.ranges a ≡ true).
                    covers_outside 0 w.ranges w.next a shape.ordered c,
              ),
              ground (arith, at a),
            ),
          )
    go none e f = elim (Bool-cases (ltb ((w.end - w.next) / page_size) pages)) [
      | inl short ↦ ground (arith, f)
      | inr fits ↦
          let same : base ≡ w.next = ground (arith, f) in
          let kept : v ≡ record w { next = past w.next pages } = ground (arith, f) in
          let upper = shape.inside_end in
          let bound = shape.bounded in
          let moved : past w.next pages ≡ w.next + pages * page_size = ground arith in
          rw (kept, same, moved)
            (
              record {
                ordered =
                    InOrder-top 0 w.ranges w.next (w.next + pages * page_size) (omega arith)
                      shape.ordered;
                inside_end = ground arith;
                bounded = shape.bounded;
              },
              λ a. (
                ground (
                  arith,
                  λ (c : covers w.ranges a ≡ true).
                      covers_outside 0 w.ranges w.next a shape.ordered c,
                ),
                ground arith,
              ),
            )
    ]
