-- ===== src/Kernel/Syscall/Copy/Bytes.antt =====
-- kernel/syscall.c: what copy_from_user reads, over the page tables of kernel/mm/mm.c.
use narc_os.Common.{ℕ, zero, suc, ◌+◌, ◌-◌, ◌%◌, ◌≤◌, ◌<◌, ◌≡◌, ◌≢◌, refl, sym, ap, ◌∙◌, arith}
use narc_os.Common.{Bool, true, false, none, some, List, ◌==◌, if◌then◌else◌}
use narc_os.Common.{inl, inr, Bool-cases}
use narc_os.Common.Ranges.{bytes_from, bytes_from-append, bytes_from-congr}
use narc_os.Kernel.String.{Memory}
use narc_os.Kernel.Pages.{page}
use narc_os.Kernel.Vfs.Content.{chunk_at}
use narc_os.Kernel.Task.State.{Kernel, Mmu}
use narc_os.Kernel.Syscall.Copy.{from_pages, copy_from_user}

-- What the page tables promise: an accepted range is mapped, what may be written may be read, and a page is contiguous in memory.
pub record IsMmu (mmu : Mmu) : Type 0 where
  pub mapped :
      (space a n i : ℕ) (write : Bool)
      → mmu.range_ok space a n write ≡ true
      → i < n
      → mmu.phys space (a + i) ≢ 0
  pub readable :
      (space a n : ℕ) → mmu.range_ok space a n true ≡ true → mmu.range_ok space a n false ≡ true
  pub contiguous :
      (space a j : ℕ)
      → mmu.phys space a ≢ 0
      → a % page + j < page
      → mmu.phys space (a + j) ≡ mmu.phys space a + j

-- A user's bytes, at their places in memory.
abbrev pub user_bytes : Mmu → (space : ℕ) → Memory → (src len : ℕ) → List ℕ
user_bytes mmu space ram src len = bytes_from (λ i. ram (mmu.phys space (src + i))) 0 len

pub chunk_fits :
    (a n : ℕ) → 0 < n → (0 < chunk_at a n) × (chunk_at a n ≤ n) × (a % page + chunk_at a n ≤ page)
chunk_fits a n h = ground (arith, h)

from_pages-user_bytes :
    (fuel : ℕ) (mmu : Mmu) (space : ℕ) (ram : Memory) (src len : ℕ)
    → IsMmu mmu
    → len ≤ fuel
    → ((i : ℕ) → i < len → mmu.phys space (src + i) ≢ 0)
    → from_pages fuel mmu space ram src len ≡ some (user_bytes mmu space ram src len)
unfolding from_pages bytes_from
from_pages-user_bytes zero mmu space ram src len w le h =
    let e : len ≡ 0 = omega (arith, le) in rw e refl
from_pages-user_bytes (suc fuel) mmu space ram src len w le h = elim (Bool-cases (len == 0)) [
  | inl nothing ↦ let e : len ≡ 0 = ground (arith, nothing) in rw e refl
  | inr something ↦
      let c = chunk_at src len in
      let g = λ (i : ℕ). ram (mmu.phys space (src + i)) in
      let (pos, le_len, in_page) = chunk_fits src len (ground (arith, something)) in
      let first : src + 0 ≡ src = omega arith in
      let here : mmu.phys space src ≢ 0 =
        λ e. h 0 (omega (arith, pos, le_len)) (ap (mmu.phys space) first ∙ e) in
      let there : (mmu.phys space src == 0) ≡ false = ground (arith, here) in
      let rest =
        from_pages-user_bytes fuel mmu space ram (src + c) (len - c) w (omega (arith, le, pos))
          λ i lt.
            let e : src + c + i ≡ src + (c + i) = omega arith in
            rw e (h (c + i) (omega (arith, lt, le_len))) in
      let chunk : bytes_from (λ i. ram (mmu.phys space src + i)) 0 c ≡ bytes_from g 0 c =
        bytes_from-congr (λ i. ram (mmu.phys space src + i)) g 0 0 c
          λ i lt.
            let e : 0 + i ≡ i = omega arith in
            rw e (ap ram (sym (w.contiguous space src i here (omega (arith, lt, in_page))))) in
      let later : user_bytes mmu space ram (src + c) (len - c) ≡ bytes_from g c (len - c) =
        bytes_from-congr (λ i. ram (mmu.phys space (src + c + i))) g 0 c (len - c)
          λ i lt. ap (λ a. ram (mmu.phys space a)) (omega arith) in
      let all : c + (len - c) ≡ len = omega (arith, le_len) in
      rw (something, there, rest, chunk, later)
        (ap some (bytes_from-append g 0 c c (len - c) (omega arith) ∙ ap (bytes_from g 0) all))
]

-- Where the page tables map every address of an accepted range, let what may be written be read too, and
-- map each page to contiguous memory, copy_from_user fails exactly if vmm_user_range_ok refuses the
-- range. Else it fills the buffer with the `len` bytes that the addresses from `src` on are
-- translated to, across page boundaries too.
pub copy_from_user-user_bytes :
    (mmu : Mmu) (k : Kernel) (src len : ℕ)
    → IsMmu mmu
    → copy_from_user mmu k src len ≡ (
        if mmu.range_ok k.active src len false
        then some (user_bytes mmu k.active k.fs.ram src len)
        else none)
unfolding copy_from_user
copy_from_user-user_bytes mmu k src len w =
    elim (Bool-cases (mmu.range_ok k.active src len false)) [
      | inr refused ↦ rw refused refl
      | inl accepted ↦ rw accepted (
          from_pages-user_bytes len mmu k.active k.fs.ram src len w (omega arith)
            λ i lt. w.mapped k.active src len i false accepted lt)
    ]
