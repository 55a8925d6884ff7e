-- ===== src/Kernel/Syscall/Copy/Back.antt =====
-- kernel/syscall.c: what copy_to_user writes, and copy_from_user after it.
use narc_os.Common.{ℕ, zero, suc, ◌+◌, ◌-◌, ◌≤◌, ◌<◌, ◌≡◌, ◌≢◌, refl, sym, ap, ◌∙◌, arith}
use narc_os.Common.{Bool, true, false, some, List, [], ◌∷◌, ◌==◌, ltb}
use narc_os.Common.{inl, inr, Bool-cases, length, get_or}
use narc_os.Common.Ranges.{bytes_from, bytes_from-congr}
use narc_os.Kernel.String.{Memory, memcpy, memcpy_at, inside}
use narc_os.Kernel.Vfs.Content.{chunk_at}
use narc_os.Kernel.Task.State.{Kernel, Mmu, put_fs}
use narc_os.Kernel.Syscall.Copy.{to_pages, copy_to_user, copy_from_user}
use narc_os.Kernel.Syscall.Copy.Bytes.{IsMmu, chunk_fits, copy_from_user-user_bytes}

-- No two addresses of the range are one place in memory.
abbrev pub IsUnshared : Mmu → (space a n : ℕ) → Type 0
IsUnshared mmu space a n =
    (i j : ℕ) → i < n → j < n → mmu.phys space (a + i) ≡ mmu.phys space (a + j) → i ≡ j

-- The memory once the bytes are written to the addresses from `dst` on: there, and elsewhere.
abbrev Written : Mmu → (space dst : ℕ) → (ℕ → ℕ) → (len : ℕ) → Memory → Bool × Memory → Type 0
Written mmu space dst source len ram (done, m) =
    (done ≡ true)
    × ((i : ℕ) → i < len → m (mmu.phys space (dst + i)) ≡ source i)
    × ((a : ℕ) → ((i : ℕ) → i < len → mmu.phys space (dst + i) ≢ a) → m a ≡ ram a)

memcpy-first :
    (ram : Memory) (p : ℕ) (source : ℕ → ℕ) (c i : ℕ)
    → i < c
    → memcpy ram p source c (p + i) ≡ source i
memcpy-first ram p source c i lt =
    let here : inside p c (p + i) ≡ true = ground (arith, lt) in
    memcpy_at ram p source c (p + i) ∙ rw here (ap source (omega arith))

memcpy-outside :
    (ram : Memory) (p : ℕ) (source : ℕ → ℕ) (c a : ℕ)
    → ((i : ℕ) → i < c → p + i ≢ a)
    → memcpy ram p source c a ≡ ram a
memcpy-outside ram p source c a other =
    memcpy_at ram p source c a ∙ elim (Bool-cases (inside p c a)) [
      | inr outside ↦ rw outside refl
      | inl there ↦
          let from : p ≤ a = ground (arith, there) in
          let to : a < p + c = ground (arith, there) in
          absurd (other (a - p) (omega (arith, from, to)) (omega (arith, from)))
    ]

to_pages-Written :
    (fuel : ℕ) (mmu : Mmu) (space dst : ℕ) (source : ℕ → ℕ) (len : ℕ) (ram : Memory)
    → IsMmu mmu
    → len ≤ fuel
    → ((i : ℕ) → i < len → mmu.phys space (dst + i) ≢ 0)
    → IsUnshared mmu space dst len
    → Written mmu space dst source len ram (to_pages fuel mmu space dst source len ram)
unfolding to_pages
to_pages-Written zero mmu space dst source len ram w le h apart =
    (refl, λ i lt. absurd (omega (arith, lt, le)), λ a other. refl)
to_pages-Written (suc fuel) mmu space dst source len ram w le h apart =
    elim (Bool-cases (len == 0)) [
      | inl nothing ↦
          let e : len ≡ 0 = ground (arith, nothing) in
          rw nothing (refl, λ i lt. absurd (omega (arith, lt, e)), λ a other. refl)
      | inr something ↦
          let c = chunk_at dst len in
          let p = mmu.phys space dst in
          let (pos, le_len, in_page) = chunk_fits dst len (ground (arith, something)) in
          let first : dst + 0 ≡ dst = omega arith in
          let here : p ≢ 0 =
            λ e. h 0 (omega (arith, pos, le_len)) (ap (mmu.phys space) first ∙ e) in
          let there : (p == 0) ≡ false = ground (arith, here) in
          let next = memcpy ram p source c in
          let shift = λ (i : ℕ). ap (mmu.phys space) (the_shift dst c i) in
          let (done, at, elsewhere) =
            to_pages-Written fuel mmu space (dst + c) (λ i. source (c + i)) (len - c) next w
              (omega (arith, le, pos)) (λ i lt e. h (c + i) (omega (arith, lt)) (sym (shift i) ∙ e))
              (λ i j li lj e.
                let q =
                  apart (c + i) (c + j) (omega (arith, li)) (omega (arith, lj))
                    (sym (shift i) ∙ e ∙ shift j) in
                omega (arith, q)) in
          rw (something, there)
            (
              done,
              λ i lt. elim (Bool-cases (ltb i c)) [
                | inl early ↦
                    let q : mmu.phys space (dst + i) ≡ p + i =
                      w.contiguous space dst i here (omega (arith, in_page, early_lt i c early)) in
                    elsewhere (mmu.phys space (dst + i)) (λ j lj e.
                      let same = apart (c + j) i (omega (arith, lj)) lt (sym (shift j) ∙ e) in
                      absurd (omega (arith, same, early_lt i c early)))
                    ∙ ap next q
                    ∙ memcpy-first ram p source c i (early_lt i c early)
                | inr late ↦
                    let back : c + (i - c) ≡ i = late_le i c late in
                    ap
                      (λ j.
                        (to_pages fuel mmu space (dst + c) (λ n. source (c + n)) (len - c) next).1
                          (mmu.phys space (dst + j)))
                      (sym back)
                    ∙ ap (to_pages fuel mmu space (dst + c) (λ n. source (c + n)) (len - c) next).1
                        (sym (shift (i - c)))
                    ∙ at (i - c) (omega (arith, lt, back, pos))
                    ∙ ap source back
              ],
              λ a other.
                  elsewhere a (λ j lj e. other (c + j) (omega (arith, lj)) (sym (shift j) ∙ e))
                  ∙ memcpy-outside ram p source c a λ i lt e.
                    other i (omega (arith, lt, le_len))
                      (w.contiguous space dst i here (omega (arith, lt, in_page)) ∙ e),
            )
    ]
  where
    the_shift : (d c i : ℕ) → d + c + i ≡ d + (c + i)
    the_shift d c i = omega arith

    early_lt : (i c : ℕ) → ltb i c ≡ true → i < c
    early_lt i c e = ground (arith, e)

    late_le : (i c : ℕ) → ltb i c ≡ false → c + (i - c) ≡ i
    late_le i c e = ground (arith, e)

-- The bytes of a list, by their indices.
bytes_from-get_or : (bytes : List ℕ) → bytes_from (λ i. get_or bytes i 0) 0 (length bytes) ≡ bytes
unfolding bytes_from
bytes_from-get_or [] = refl
bytes_from-get_or (b ∷ r) =
    ap (λ l. b ∷ l)
      (bytes_from-congr (λ i. get_or (b ∷ r) i 0) (λ i. get_or r i 0) 1 0 (length r)
          (λ k lt.
            let e : 1 + k ≡ suc k = omega arith in
            let f : 0 + k ≡ k = omega arith in rw (e, f) refl)
        ∙ bytes_from-get_or r)

-- Where the page tables map every address of an accepted range, let what may be written be read too, and map
-- each page to contiguous memory: if the range may be written and no two of its addresses are one place,
-- copy_to_user succeeds, and copy_from_user then yields the bytes that it wrote, across page boundaries too.
pub copy_from_user-copy_to_user :
    (mmu : Mmu) (k : Kernel) (dst : ℕ) (bytes : List ℕ)
    → IsMmu mmu
    → mmu.range_ok k.active dst (length bytes) true ≡ true
    → IsUnshared mmu k.active dst (length bytes)
    → let (done, l) = copy_to_user mmu k dst bytes in
      (done ≡ true) × (copy_from_user mmu l dst (length bytes) ≡ some bytes)
unfolding copy_to_user
copy_from_user-copy_to_user mmu k dst bytes w ok apart =
    let source = λ (i : ℕ). get_or bytes i 0 in
    let (done, at, _) =
      to_pages-Written (length bytes) mmu k.active dst source (length bytes) k.fs.ram w
        (omega arith) (λ i lt. w.mapped k.active dst (length bytes) i true ok lt) apart in
    let m = (to_pages (length bytes) mmu k.active dst source (length bytes) k.fs.ram).1 in
    let l = put_fs k (record k.fs { ram = m }) in
    let readable = w.readable k.active dst (length bytes) ok in
    rw ok (
      done,
      copy_from_user-user_bytes mmu l dst (length bytes) w
          ∙ rw readable (
              ap some (
                bytes_from-congr (λ i. m (mmu.phys k.active (dst + i))) source 0 0 (length bytes)
                  (λ i lt. let e : 0 + i ≡ i = omega arith in rw e (at i lt))
                ∙ bytes_from-get_or bytes)),
    )
