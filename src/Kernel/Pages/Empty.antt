-- ===== src/Kernel/Pages/Empty.antt =====
-- kernel/mm/mm.c: what an allocation does to the memory, and where the pages lie.
use narc_os.Common.{ℕ, ◌+◌, ◌^◌, ◌≤◌, ◌≡◌, refl, true, false, not, ◌||◌, List, [], ◌∷◌, arith}
use narc_os.Common.{◌==◌, ◌!=◌, ltb, if◌then◌else◌, Bool-cases, inl, inr, has, ◌*◌, ◌<◌, ap}
use narc_os.Kernel.Pages.{
  Region, Pages, page, put_word, clear_page, fits, enter_region, alloc_next, pmm_alloc_page,
}
use narc_os.Kernel.Pages.Fresh.{HasPages, Linked-put_word}

-- All memory that is handed out ends below 2 ^ 52, the width of a physical address.
abbrev pub LowRegions : List Region → Type 0
LowRegions [] = Unit
LowRegions (e ∷ r) = (e.usable ≡ true → e.base + e.length ≤ 2 ^ 52) × LowRegions r

abbrev pub IsLow : Pages → Type 0
IsLow k = (k.region_end ≤ 2 ^ 52) × LowRegions k.map

enter_region-IsLow :
    (k : Pages) (m : List Region) → k.region_end ≤ 2 ^ 52 → LowRegions m → IsLow (enter_region k m)
unfolding enter_region
enter_region-IsLow k [] h l = (h, tt)
enter_region-IsLow k (e ∷ r) h l = elim (Bool-cases (not e.usable || ltb e.length page)) [
  | inl skipped ↦ rw skipped (enter_region-IsLow k r h l.1)
  | inr entered ↦
      let usable : e.usable ≡ true = ground (arith, entered) in
      let low = l.0 usable in rw entered (omega (arith, low), l.1)
]

enter_region-word : (k : Pages) (m : List Region) → (enter_region k m).word ≡ k.word
unfolding enter_region
enter_region-word k [] = refl
enter_region-word k (e ∷ r) = elim (Bool-cases (not e.usable || ltb e.length page)) [
  | inl skipped ↦ rw skipped (enter_region-word k r)
  | inr entered ↦ rw entered refl
]

pub pmm_alloc_page-IsLow : (k : Pages) → IsLow k → IsLow (pmm_alloc_page k).1
unfolding pmm_alloc_page alloc_next
pmm_alloc_page-IsLow k h = elim (Bool-cases (k.free_head != 0)) [
  | inl listed ↦ rw listed h
  | inr none_free ↦
      let v = enter_region-IsLow k k.map h.0 h.1 in
      elim (Bool-cases (fits k)) [
        | inl now ↦ rw (none_free, now) h
        | inr full ↦ elim (Bool-cases (fits (enter_region k k.map))) [
          | inl later ↦ rw (none_free, full, later) v
          | inr never ↦ rw (none_free, full, never) v
        ]
      ]
]

-- A page that is handed out is empty, and no other word changes.
pub pmm_alloc_page-word :
    (k : Pages)
    → (pmm_alloc_page k).1.word
      ≡ (if (pmm_alloc_page k).0 == 0 then k.word else clear_page k.word (pmm_alloc_page k).0)
unfolding pmm_alloc_page alloc_next
pmm_alloc_page-word k = elim (Bool-cases (k.free_head != 0)) [
  | inl listed ↦
      let ne : (k.free_head == 0) ≡ false = ground (arith, listed) in rw (listed, ne) refl
  | inr none_free ↦ elim (Bool-cases (fits k)) [
    | inl now ↦
        let ne : (k.next_phys == 0) ≡ false = ground (arith, now) in rw (none_free, now, ne) refl
    | inr full ↦
        let entered = enter_region k k.map in
        elim (Bool-cases (fits entered)) [
          | inl later ↦
              let ne : (entered.next_phys == 0) ≡ false = ground (arith, later) in
              rw (none_free, full, later, ne)
                (ap (λ f. clear_page f entered.next_phys) (enter_region-word k k.map))
          | inr never ↦ rw (none_free, full, never) (enter_region-word k k.map)
        ]
  ]
]

-- A write to a page that is in use.
pub put_word-HasPages :
    (k : Pages) (free used : List ℕ) (t i v : ℕ)
    → HasPages k free used
    → has t used ≡ true
    → i < 512
    → HasPages (record k { word = put_word k.word (t + 8 * i) v }) free used
put_word-HasPages k free used t i v w there hi = record {
  linked = Linked-put_word k.word (t + 8 * i) v k.free_head free unlisted w.linked;
  distinct = w.distinct;
  once = w.once;
  apart = w.apart;
  known = w.known;
  aligned = w.aligned;
  in_range = w.in_range;
  ascending = w.ascending;
}
  where
    unlisted : has (t + 8 * i) free ≡ false
    unlisted = elim (Bool-cases (has (t + 8 * i) free)) as (λ x. has (t + 8 * i) free ≡ false) [
      | inr absent ↦ absent
      | inl listed ↦
          let first : i ≡ 0 =
            omega (arith, hi, (w.known (t + 8 * i) (inl listed)).1, (w.known t (inr there)).1) in
          let same : t + 8 * i ≡ t = omega (arith, first) in
          absurd (ground (arith, w.apart t (rw same at listed), there))
    ]
