-- ===== src/Kernel/Syscall/Tables.antt =====
-- kernel/syscall.c over kernel/mm/mm.c: the page tables of x86-64 keep what the transfers rely on.
use narc_os.Common.{ℕ, ◌+◌, ◌*◌, ◌^◌, ◌%◌, ◌/◌, ◌<◌, ◌≡◌, ◌≢◌, refl, arith}
use narc_os.Common.{Bool, true, false, Option, none, some, inl, inr, Bool-cases}
use narc_os.Kernel.Pages.{page}
use narc_os.Kernel.Paging.{Paging, word_of, address, is_user_page, pte_value, vmm_user_phys, shifts}
use narc_os.Kernel.Paging.Walk.{read_at, find, pte_value-value}
use narc_os.Kernel.Paging.Range.{pte_value_same, vmm_user_range_ok_iff}
use narc_os.Kernel.Syscall.Copy.Bytes.{IsMmu}
use narc_os.Kernel.Syscall.Dispatch.{mmu_of}

-- No entry for a user leads to the physical page 0.
abbrev pub SparesZero : Paging → Type 0
SparesZero t = (a : ℕ) → is_user_page (word_of t a) ≡ true → address (word_of t a) ≢ 0

entry-ne-zero :
    (t : Paging) (space v : ℕ)
    → SparesZero t
    → is_user_page (pte_value t space v) ≡ true
    → address (pte_value t space v) ≢ 0
entry-ne-zero t space v spares h =
    let e = pte_value-value t space v in
    rw e (by_found (find shifts (word_of t) space v) (rw e at h))
  where
    by_found :
        (o : Option ℕ)
        → is_user_page (read_at (word_of t) v o) ≡ true
        → address (read_at (word_of t) v o) ≢ 0
    by_found none g = absurd (ground (arith, g))
    by_found (some pt) g = spares (pt + 8 * (v / 2 ^ 12 % 512)) g

user_phys-contiguous :
    (t : Paging) (space a j : ℕ)
    → vmm_user_phys t space a ≢ 0
    → a % page + j < page
    → vmm_user_phys t space (a + j) ≡ vmm_user_phys t space a + j
unfolding vmm_user_phys
user_phys-contiguous t space a j h lt =
    let same : pte_value t space (a + j) ≡ pte_value t space a =
      pte_value_same t space (a + j) a (omega (arith, lt)) in
    elim (Bool-cases (is_user_page (pte_value t space a))) [
      | inl user ↦ rw (same, user) (omega (arith, lt))
      | inr other ↦ absurd (h (rw other refl))
    ]

user_phys-ne-zero :
    (t : Paging) (space a n i : ℕ) (write : Bool)
    → SparesZero t
    → (mmu_of t).range_ok space a n write ≡ true
    → i < n
    → vmm_user_phys t space (a + i) ≢ 0
unfolding vmm_user_phys
user_phys-ne-zero t space a n i write spares h lt =
    let (_, good) =
      (vmm_user_range_ok_iff t space a n write).0 h (a + i) (omega arith) (omega (arith, lt)) in
    let user : is_user_page (pte_value t space (a + i)) ≡ true = ground (arith, good) in
    let there = entry-ne-zero t space (a + i) spares user in rw user (omega (arith, there))

range_ok-readable :
    (t : Paging) (space a n : ℕ)
    → (mmu_of t).range_ok space a n true ≡ true
    → (mmu_of t).range_ok space a n false ≡ true
range_ok-readable t space a n h = (vmm_user_range_ok_iff t space a n false).1 λ b from to.
    let (low, good) = (vmm_user_range_ok_iff t space a n true).0 h b from to in
    (low, ground (arith, good))

pub mmu_of-IsMmu : (t : Paging) → SparesZero t → IsMmu (mmu_of t)
mmu_of-IsMmu t spares = record {
  mapped = λ space a n i write h lt. user_phys-ne-zero t space a n i write spares h lt;
  readable = λ space a n h. range_ok-readable t space a n h;
  contiguous = λ space a j h lt. user_phys-contiguous t space a j h lt;
}
