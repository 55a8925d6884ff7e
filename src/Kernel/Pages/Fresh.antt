-- ===== src/Kernel/Pages/Fresh.antt =====
-- kernel/mm/mm.c: no page is handed out twice.
use narc_os.Common.{
  ℕ, ◌+◌, ◌-◌, ◌%◌, ◌^◌, ◌≤◌, ◌<◌, ◌≡◌, ◌≢◌, refl, sym, ◌∙◌, true, false, List, [], ◌∷◌,
}
use narc_os.Common.{
  ◌==◌, ◌!=◌, ltb, ==_refl, ◌||◌, if◌then◌else◌, has, Bool-cases, inl, inr, ◌⊎◌, arith,
}
use narc_os.Kernel.Vfs.Nodes.{unlist}
use narc_os.Kernel.Vfs.Tree.Siblings.{Distinct, has-unlist, Distinct-unlist}
use narc_os.Kernel.Pages.{
  Region, Pages, page, put_word, clear_page, fits, take_next, enter_region, alloc_next,
}
use narc_os.Kernel.Pages.{pmm_alloc_page, pmm_free_page}

-- The list of free pages that the words of the pages link.
abbrev pub Linked : (ℕ → ℕ) → ℕ → List ℕ → Type 0
Linked word head [] = head ≡ 0
Linked word head (p ∷ r) = (head ≡ p) × (p ≢ 0) × Linked word (word p) r

-- The usable regions come in ascending order from `low` on, and end below 2 ^ 64 by a page at least.
abbrev pub Ascending : ℕ → List Region → Type 0
Ascending low [] = Unit
Ascending low (e ∷ r) =
    (e.usable ≡ true → (low ≤ e.base) × (e.base + e.length + page < 2 ^ 64))
    × Ascending (if e.usable then e.base + e.length else low) r

-- `free` are the pages in the list of free pages, `used` those handed out: none is in both, none twice
-- in the list, and all are page-aligned and lie below what is still to be handed out.
pub record HasPages (k : Pages) (free used : List ℕ) : Type 0 where
  pub linked : Linked k.word k.free_head free
  pub distinct : Distinct free
  pub once : Distinct used
  pub apart : (p : ℕ) → has p free ≡ true → has p used ≡ false
  pub known :
      (p : ℕ)
      → (has p free ≡ true) ⊎ (has p used ≡ true)
      → (p ≢ 0) × (p % page ≡ 0) × (p + page ≤ k.next_phys) × (p + page ≤ k.region_end)
  pub aligned : k.next_phys % page ≡ 0
  pub in_range : (k.region_end + page < 2 ^ 64) × (k.next_phys + page < 2 ^ 64)
  pub ascending : Ascending k.region_end k.map

-- A word of a page that is not in the list does not matter.
pub Linked-put_word :
    (word : ℕ → ℕ) (q v head : ℕ) (l : List ℕ)
    → has q l ≡ false
    → Linked word head l
    → Linked (put_word word q v) head l
unfolding has
Linked-put_word word q v head [] h k = k
Linked-put_word word q v head (p ∷ r) h k =
    let same : put_word word q v p ≡ word p = ground (arith, h) in
    (k.0, k.1, rw same (Linked-put_word word q v (word p) r (ground (arith, h)) k.2))

-- Nor does a page that is not in the list.
pub Linked-clear_page :
    (word : ℕ → ℕ) (q head : ℕ) (l : List ℕ)
    → has q l ≡ false
    → q % page ≡ 0
    → ((p : ℕ) → has p l ≡ true → p % page ≡ 0)
    → Linked word head l
    → Linked (clear_page word q) head l
unfolding has
Linked-clear_page word q head [] h u g k = k
Linked-clear_page word q head (p ∷ r) h u g k =
    let unit : p % page ≡ 0 = g p (ground arith) in
    let same : clear_page word q p ≡ word p = ground (arith, h, unit, u) in
    (
      k.0,
      k.1,
      rw same (
          Linked-clear_page word q (word p) r (ground (arith, h)) u
            (λ x hx. g x (ground (arith, hx))) k.2),
    )

Ascending-le : (low high : ℕ) (m : List Region) → low ≤ high → Ascending high m → Ascending low m
Ascending-le low high [] le h = tt
Ascending-le low high (e ∷ r) le h = elim (Bool-cases e.usable) [
  | inl yes_use ↦
      (λ u. (omega (arith, (h.0 yes_use).0), (h.0 yes_use).1), rw yes_use (rw yes_use at h.1))
  | inr no_use ↦ (
    λ u. absurd (ground (arith, no_use, u)),
    rw no_use (Ascending-le low high r le (rw no_use at h.1)),
  )
]

-- What is still to be handed out is not known.
not_known :
    (k : Pages) (free used : List ℕ)
    → HasPages k free used
    → (has k.next_phys free ≡ false) × (has k.next_phys used ≡ false)
not_known k free used w = (
  elim (Bool-cases (has k.next_phys free)) as (λ x. has k.next_phys free ≡ false) [
    | inr absent ↦ absent
    | inl there ↦ absurd (omega (arith, (w.known k.next_phys (inl there)).2))
  ],
  elim (Bool-cases (has k.next_phys used)) as (λ x. has k.next_phys used ≡ false) [
    | inr absent ↦ absent
    | inl there ↦ absurd (omega (arith, (w.known k.next_phys (inr there)).2))
  ],
)

-- The page at next_phys.
take_next-HasPages :
    (k : Pages) (free used : List ℕ)
    → HasPages k free used
    → fits k ≡ true
    → let (p, l) = take_next k in
      (has p free ≡ false) × (has p used ≡ false) × (p ≢ 0) × HasPages l free (p ∷ used)
unfolding has
take_next-HasPages k free used w h =
    let (a, b) = not_known k free used w in
    let ne : k.next_phys ≢ 0 = ground (arith, h) in
    let sum : (k.next_phys + page) % 2 ^ 64 ≡ k.next_phys + page = omega (arith, w.in_range.1) in
    let room : k.next_phys + page ≤ k.region_end = ground (arith, h, sum) in
    (
      a,
      b,
      ne,
      record {
        linked =
            Linked-clear_page k.word k.next_phys k.free_head free a w.aligned
              (λ p hp. (w.known p (inl hp)).1) w.linked;
        distinct = w.distinct;
        once = (b, w.once);
        apart = λ p hp. ground (arith, hp, a, w.apart p hp);
        known = λ p hp. rw sum (taken p hp ne room);
        aligned = rw sum (omega (arith, w.aligned));
        in_range = (w.in_range.0, rw sum (omega (arith, room, w.in_range.0)));
        ascending = w.ascending;
      },
    )
  where
    taken :
        (p : ℕ)
        → (has p free ≡ true) ⊎ (has p (k.next_phys ∷ used) ≡ true)
        → k.next_phys ≢ 0
        → k.next_phys + page ≤ k.region_end
        → (p ≢ 0) × (p % page ≡ 0) × (p + page ≤ k.next_phys + page) × (p + page ≤ k.region_end)
    taken p (inl there) ne room =
        let (x, y, z, t) = w.known p (inl there) in (x, y, omega (arith, z), t)
    taken p (inr there) ne room = elim (Bool-cases (p == k.next_phys)) [
      | inl same ↦ let e : p ≡ k.next_phys = ground arith in rw e (ne, w.aligned, omega arith, room)
      | inr other ↦
          let before : has p used ≡ true = ground (arith, there, other) in
          let (x, y, z, t) = w.known p (inr before) in (x, y, omega (arith, z), t)
    ]

-- Entering a region.
enter_region-HasPages :
    (k : Pages) (m : List Region) (free used : List ℕ)
    → HasPages k free used
    → Ascending k.region_end m
    → HasPages (enter_region k m) free used
unfolding enter_region
enter_region-HasPages k [] free used w h = record {
  linked = w.linked;
  distinct = w.distinct;
  once = w.once;
  apart = w.apart;
  known = w.known;
  aligned = w.aligned;
  in_range = w.in_range;
  ascending = tt;
}
enter_region-HasPages k (e ∷ r) free used w h = elim (Bool-cases e.usable) [
  | inr no_use ↦ rw no_use (enter_region-HasPages k r free used w (rw no_use at h.1))
  | inl yes_use ↦
      let (above, below) = h.0 yes_use in
      let rest : Ascending (e.base + e.length) r = rw yes_use at h.1 in
      elim (Bool-cases (ltb e.length page)) [
        | inl short ↦
            rw (yes_use, short)
              (enter_region-HasPages k r free used w
                (Ascending-le k.region_end (e.base + e.length) r (omega (arith, above)) rest))
        | inr long ↦
            let long_enough : page ≤ e.length = ground arith in
            let sum : (e.base + e.length) % 2 ^ 64 ≡ e.base + e.length = omega (arith, below) in
            let up : (e.base + (page - 1)) % 2 ^ 64 ≡ e.base + (page - 1) = omega (arith, below) in
            rw (yes_use, long, up, sum)
              (record {
                linked = w.linked;
                distinct = w.distinct;
                once = w.once;
                apart = w.apart;
                known = λ p hp.
                    let (x, y, z, t) = w.known p hp in
                    (x, y, omega (arith, y, t, above), omega (arith, t, above));
                aligned = omega arith;
                in_range = (below, omega (arith, below));
                ascending = rest;
              })
      ]
]

null_unused : (k : Pages) (free used : List ℕ) → HasPages k free used → has 0 used ≡ false
null_unused k free used w = elim (Bool-cases (has 0 used)) as (λ x. has 0 used ≡ false) [
  | inr absent ↦ absent
  | inl there ↦ absurd ((w.known 0 (inr there)).0 refl)
]

-- What an allocation promises, from the pages used before.
abbrev pub Allocated : ℕ → Pages → List ℕ → Type 0
Allocated p l used =
    (has p used ≡ false) × ((free : List ℕ) × HasPages l free (if p == 0 then used else p ∷ used))

taken-Allocated :
    (k : Pages) (free used : List ℕ)
    → HasPages k free used
    → fits k ≡ true
    → Allocated (take_next k).0 (take_next k).1 used
taken-Allocated k free used w h =
    let (a, b, ne, t) = take_next-HasPages k free used w h in
    let some_page : (k.next_phys == 0) ≡ false = ground (arith, ne) in (b, (free, rw some_page t))

alloc_next-Allocated :
    (k : Pages) (free used : List ℕ)
    → HasPages k free used
    → Allocated (alloc_next k).0 (alloc_next k).1 used
unfolding alloc_next
alloc_next-Allocated k free used w =
    let entered = enter_region k k.map in
    let v = enter_region-HasPages k k.map free used w w.ascending in
    elim (Bool-cases (fits k)) [
      | inl now ↦ rw now (taken-Allocated k free used w now)
      | inr full ↦ elim (Bool-cases (fits entered)) [
        | inl later ↦ rw (full, later) (taken-Allocated entered free used v later)
        | inr never ↦ rw (full, never) (null_unused k free used w, (free, v))
      ]
    ]

has_head : (p : ℕ) (r : List ℕ) → has p (p ∷ r) ≡ true
unfolding has
has_head p r = ground arith

-- A page from the list.
relinked-HasPages :
    (k : Pages) (p : ℕ) (r used : List ℕ)
    → HasPages k (p ∷ r) used
    → HasPages (record k { free_head = k.word p; word = clear_page k.word p }) r (p ∷ used)
unfolding has
relinked-HasPages k p r used w = record {
  linked =
      Linked-clear_page k.word p (k.word p) r w.distinct.0 (w.known p (inl (ground arith))).1
        (λ q hq. (w.known q (inl (ground (arith, hq)))).1) w.linked.2;
  distinct = w.distinct.1;
  once = (w.apart p (ground arith), w.once);
  apart = λ q hq.
      let listed : has q (p ∷ r) ≡ true = ground (arith, hq) in
      ground (arith, hq, w.distinct.0, w.apart q listed);
  known = λ q hq. w.known q (before q hq);
  aligned = w.aligned;
  in_range = w.in_range;
  ascending = w.ascending;
}
  where
    before :
        (q : ℕ)
        → (has q r ≡ true) ⊎ (has q (p ∷ used) ≡ true)
        → (has q (p ∷ r) ≡ true) ⊎ (has q used ≡ true)
    before q (inl there) = inl (ground (arith, there))
    before q (inr there) = elim (Bool-cases (q == p)) [
      | inl same ↦ inl (ground (arith, same))
      | inr other ↦ inr (ground (arith, there, other))
    ]

-- As long as the pages that are in use, those in the list of free pages and those still to be handed
-- out are kept apart, which pmm_alloc_page keeps so, it yields no page that is in use; what it yields,
-- unless it is the null address, counts as in use from then on.
pub pmm_alloc_page-Allocated :
    (k : Pages) (free used : List ℕ)
    → HasPages k free used
    → let (p, l) = pmm_alloc_page k in Allocated p l used
unfolding pmm_alloc_page
pmm_alloc_page-Allocated k [] used w =
    let none_free : (k.free_head != 0) ≡ false = ground (arith, w.linked) in
    rw none_free (alloc_next-Allocated k [] used w)
pmm_alloc_page-Allocated k (p ∷ r) used w =
    let v = coe 0 1 (i. HasPages k (sym w.linked.0 i ∷ r) used) w in
    let ne : (k.free_head == 0) ≡ false = ground (arith, v.linked.1) in
    let some_page : (k.free_head != 0) ≡ true = ground (arith, v.linked.1) in
    rw some_page (
      v.apart k.free_head (has_head k.free_head r),
      (r, rw ne (relinked-HasPages k k.free_head r used v)),
    )

-- Giving back a page that is in use puts it at the head of the list of free pages, and the pages stay
-- apart.
pub pmm_free_page-HasPages :
    (k : Pages) (free used : List ℕ) (p : ℕ)
    → HasPages k free used
    → has p used ≡ true
    → HasPages (pmm_free_page k p) (p ∷ free) (unlist p used)
unfolding pmm_free_page has
pmm_free_page-HasPages k free used p w h =
    let (ne, unit, below, inner) = w.known p (inr h) in
    let valid : (p == 0 || p % page != 0) ≡ false = ground (arith, ne, unit) in
    let unlisted : has p free ≡ false = not_free p h in
    rw valid (record {
      linked = (
        refl,
        ne,
        rw (==_refl p) (Linked-put_word k.word p k.free_head k.free_head free unlisted w.linked),
      );
      distinct = (unlisted, w.distinct);
      once = Distinct-unlist p used w.once;
      apart = λ q hq. left_apart q hq;
      known = λ q hq. w.known q (before q hq);
      aligned = w.aligned;
      in_range = w.in_range;
      ascending = w.ascending;
    })
  where
    not_free : (q : ℕ) → has q used ≡ true → has q free ≡ false
    not_free q hq = elim (Bool-cases (has q free)) as (λ x. has q free ≡ false) [
      | inr absent ↦ absent
      | inl there ↦ absurd (ground (arith, w.apart q there, hq))
    ]

    before :
        (q : ℕ)
        → (has q (p ∷ free) ≡ true) ⊎ (has q (unlist p used) ≡ true)
        → (has q free ≡ true) ⊎ (has q used ≡ true)
    before q (inl there) = elim (Bool-cases (q == p)) [
      | inl same ↦ let e : q ≡ p = ground (arith, same) in inr (rw e h)
      | inr other ↦ inl (ground (arith, there, other))
    ]
    before q (inr there) = inr (ground (arith, there, has-unlist q p used w.once))

    left_apart : (q : ℕ) → has q (p ∷ free) ≡ true → has q (unlist p used) ≡ false
    left_apart q hq =
        let u = has-unlist q p used w.once in
        elim (Bool-cases (q == p)) [
          | inl same ↦ u ∙ rw same refl
          | inr other ↦ u ∙ rw other (w.apart q (ground (arith, hq, other)))
        ]
