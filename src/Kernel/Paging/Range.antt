-- ===== src/Kernel/Paging/Range.antt =====
-- kernel/mm/mm.c on x86-64: the loop of vmm_user_range_ok over the pages of a range.
use narc_os.Common.{ℕ, zero, suc, ◌+◌, ◌-◌, ◌*◌, ◌/◌, ◌^◌, ◌≤◌, ◌<◌, ◌≡◌, refl, sym, ap, ◌∙◌, arith}
use narc_os.Common.{Bool, true, ◌↔◌, inl, inr, Bool-cases, Option, none, some, ltb, ◌==◌}
use narc_os.Kernel.Pages.{page}
use narc_os.Kernel.Paging.{
  Paging, pte_value, page_ok, pages_ok, user_end, vmm_user_range_ok, word_of, shifts, index_at,
}
use narc_os.Kernel.Paging.Walk.{find, read_at, find_congr, pte_value-value}

-- Addresses on one page have one entry.
pub pte_value_same :
    (k : Paging) (space v v' : ℕ)
    → v / page ≡ v' / page
    → pte_value k space v ≡ pte_value k space v'
pte_value_same k space v v' h =
    let high : v / 2 ^ 21 ≡ v' / 2 ^ 21 = omega (arith, h) in
    let last : index_at v 12 ≡ index_at v' 12 = omega (arith, h) in
    pte_value-value k space v
    ∙ ap (read_at (word_of k) v) (
        find_congr shifts (word_of k) 39 space v v'
          (refl, inl refl, (refl, inr (inl refl), (refl, inr (inr refl), refl))) high)
    ∙ at_index (find shifts (word_of k) space v') last
    ∙ sym (pte_value-value k space v')
  where
    at_index :
        (o : Option ℕ)
        → index_at v 12 ≡ index_at v' 12
        → read_at (word_of k) v o ≡ read_at (word_of k) v' o
    at_index none e = refl
    at_index (some pt) e = rw e refl

-- The pages that the loop looks at.
pages_ok-first :
    (k : Paging) (space at : ℕ) (write : Bool) (n : ℕ)
    → pages_ok k space at write n ≡ true
    → (i : ℕ) → i ≤ n
    → page_ok (pte_value k space (at + i * page)) write ≡ true
unfolding pages_ok
pages_ok-first k space at write zero h i le =
    let e : at + i * page ≡ at = omega (arith, le) in rw e h
pages_ok-first k space at write (suc n) h zero le = ground (arith, h)
pages_ok-first k space at write (suc n) h (suc i) le =
    let e : at + suc i * page ≡ at + page + i * page = omega arith in
    rw e (pages_ok-first k space (at + page) write n (ground (arith, h)) i (omega (arith, le)))

pages_ok-all :
    (k : Paging) (space at : ℕ) (write : Bool) (n : ℕ)
    → ((i : ℕ) → i ≤ n → page_ok (pte_value k space (at + i * page)) write ≡ true)
    → pages_ok k space at write n ≡ true
unfolding pages_ok
pages_ok-all k space at write zero h =
    let e : at ≡ at + 0 * page = omega arith in rw e (h 0 (omega arith))
pages_ok-all k space at write (suc n) h =
    let first : at ≡ at + 0 * page = omega arith in
    let here : page_ok (pte_value k space at) write ≡ true =
      ap (λ a. page_ok (pte_value k space a) write) first ∙ h 0 (omega arith) in
    let later = pages_ok-all k space (at + page) write n λ i le.
      let e : at + page + i * page ≡ at + suc i * page = omega arith in
      rw e (h (suc i) (omega (arith, le))) in
    rw (here, later) refl

-- The first address of a page in the range, or the start of the range.
at_page :
    (virt len i : ℕ)
    → 0 < len
    → i ≤ (virt + len - 1) / page - virt / page
    → (a : ℕ) × (virt ≤ a) × (a < virt + len) × (a / page ≡ (virt / page * page + i * page) / page)
at_page virt len zero pos le = (virt, omega arith, omega (arith, pos), omega arith)
at_page virt len (suc i) pos le =
    (virt / page * page + suc i * page, omega arith, omega (arith, le, pos), refl)

-- vmm_user_range_ok answers 1 just where each address of the range is at most 0x7fffffffffff and has
-- an entry that is present, for the user and, if `write` is asked for, writable.
pub vmm_user_range_ok_iff :
    (k : Paging) (space virt len : ℕ) (write : Bool)
    → (vmm_user_range_ok k space virt len write ≡ true) ↔ (
        (a : ℕ)
        → virt ≤ a
        → a < virt + len
        → (a ≤ user_end) × (page_ok (pte_value k space a) write ≡ true))
unfolding vmm_user_range_ok
vmm_user_range_ok_iff k space virt len write = elim (Bool-cases (len == 0)) [
  | inl none_asked ↦
      let e : len ≡ 0 = ground (arith, none_asked) in
      (λ h a from to. absurd (omega (arith, e, from, to)), λ h. rw e refl)
  | inr some_asked ↦
      let pos : 0 < len = ground (arith, some_asked) in
      elim (Bool-cases (ltb user_end virt)) [
        | inl high ↦ (
          λ h. absurd (ground (arith, h, high, some_asked)),
          λ h.
              absurd
                (let x = (h virt (omega arith) (omega (arith, pos))).0 in ground (arith, x, high)),
        )
        | inr low ↦ elim (Bool-cases (ltb (user_end - virt) (len - 1))) [
          | inl long ↦ (
            λ h. absurd (ground (arith, h, low, long, some_asked)),
            λ h. absurd (
                let x = (h (virt + len - 1) (omega (arith, pos)) (omega (arith, pos))).0 in
                ground (arith, x, low, long, pos)),
          )
          | inr short ↦
              rw (some_asked, low, short)
                (
                  λ h a from to. (
                    ground (arith, low, short, from, to, pos),
                    ap (λ e. page_ok e write)
                          (pte_value_same k space a
                            (virt / page * page + (a / page - virt / page) * page)
                            (omega (arith, from)))
                        ∙ pages_ok-first k space (virt / page * page) write
                            ((virt + len - 1) / page - virt / page) h (a / page - virt / page)
                            (omega (arith, from, to)),
                  ),
                  λ h.
                      pages_ok-all k space (virt / page * page) write
                        ((virt + len - 1) / page - virt / page)
                        λ i le.
                          let (a, from, to, same) = at_page virt len i pos le in
                          ap (λ e. page_ok e write)
                            (sym (pte_value_same k space a (virt / page * page + i * page) same))
                          ∙ (h a from to).1,
                )
        ]
      ]
]
