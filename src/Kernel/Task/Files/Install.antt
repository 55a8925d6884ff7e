-- ===== src/Kernel/Task/Files/Install.antt =====
-- fd_install: the lowest free descriptor, in a table that grows.
use narc_os.Common.{ℕ, zero, suc, ◌+◌, ◌-◌, ◌*◌, ◌≤◌, ◌<◌, ◌≡◌, refl, ◌∙◌, ◌≢◌, arith}
use narc_os.Common.{true, ◌&&◌, some, inl, inr}
use narc_os.Common.{
  List, [], ◌∷◌, ◌++◌, ◌==◌, ◌!=◌, ltb, if◌then◌else◌, length, get_or, set, replicate,
}
use narc_os.Common.{length-append, length-replicate, get_or-set_self, get_or-set_ne, Bool-cases}
use narc_os.Kernel.Vfs.State.{answer, answered}
use narc_os.Kernel.Task.State.{Kernel, int_max, put_fs}
use narc_os.Kernel.Task.Files.{grow, initial_count, set_fds, fd_reserve, skip_used, fd_install}

abbrev doubled : ℕ → ℕ → ℕ
doubled zero n = n
doubled (suc f) n = doubled f (n * 2)

le-doubled : (f n : ℕ) → n ≤ doubled f n
le-doubled zero n = omega arith
le-doubled (suc f) n = omega (arith, le-doubled f (n * 2))

-- Enough doublings take the count past the descriptor.
grow_bounds :
    (f count fd : ℕ)
    → fd < int_max
    → count ≤ int_max
    → int_max ≤ doubled f count
    → (fd < grow f count fd) × (count ≤ grow f count fd) × (grow f count fd ≤ int_max)
unfolding grow
grow_bounds zero count fd h small enough = (omega (arith, enough), omega arith, small)
grow_bounds (suc f) count fd h small enough =
    ground (arith, grow_bounds f (count * 2) fd h, grow_bounds f int_max fd h, le-doubled f int_max)

get_or-append_zeros : (xs : List ℕ) (n j : ℕ) → get_or (xs ++ replicate n 0) j 0 ≡ get_or xs j 0
get_or-append_zeros [] zero j = refl
get_or-append_zeros [] (suc n) zero = refl
get_or-append_zeros [] (suc n) (suc j) = get_or-append_zeros [] n j
get_or-append_zeros (x ∷ xs) n zero = refl
get_or-append_zeros (x ∷ xs) n (suc j) = get_or-append_zeros xs n j

pub get_or_past : (xs : List ℕ) (j : ℕ) → length xs ≤ j → get_or xs j 0 ≡ 0
get_or_past [] j h = refl
get_or_past (x ∷ xs) zero h = absurd (omega arith)
get_or_past (x ∷ xs) (suc j) h = get_or_past xs j (omega arith)

-- The table after a reservation that succeeds, and the rest of the state.
pub data Reserved (k : Kernel) (t fd : ℕ) (l : Kernel) : Type 0 where
  same : fd < length (k.task t).fds → l ≡ k → Reserved k t fd l
  larger :
      (n : ℕ)
      → fd < length (k.task t).fds + n
      → l ≡ set_fds (put_fs k (answered k.fs)) t ((k.task t).fds ++ replicate n 0)
      → Reserved k t fd l

pub fd_reserve-Reserved :
    (k : Kernel) (t fd : ℕ)
    → length (k.task t).fds ≤ int_max
    → fd ≤ int_max
    → (fd_reserve k t fd).0 ≡ true
    → Reserved k t fd (fd_reserve k t fd).1
unfolding fd_reserve
fd_reserve-Reserved k t fd small low h =
    let fds = (k.task t).fds in
    let n = grow 32 (initial_count fds) fd - length fds in
    elim (Bool-cases (ltb fd (length fds))) [
      | inl inside ↦ rw inside (same (ground arith) refl)
      | inr outside ↦ elim (Bool-cases (fd == int_max)) [
        | inl top ↦ absurd (ground (arith, h))
        | inr below ↦ elim (Bool-cases (answer k.fs == 0)) [
          | inl null ↦ absurd (ground (arith, h))
          | inr block ↦
              rw (outside, below, block)
                (larger n (ground (arith, grow_bounds 32 (initial_count fds) fd)) refl)
        ]
      ]
    ]

-- The loop passes used descriptors only, and stops at one that is free or lies past the table.
skip_used_lem :
    (f : ℕ) (fds : List ℕ) (fd : ℕ)
    → length fds ≤ f + fd
    → (fd ≤ skip_used f fds fd)
      × (get_or fds (skip_used f fds fd) 0 ≡ 0)
      × ((j : ℕ) → fd ≤ j → j < skip_used f fds fd → get_or fds j 0 ≢ 0)
unfolding skip_used
skip_used_lem zero fds fd enough =
    (omega arith, get_or_past fds fd (omega arith), λ j a b. absurd (omega arith))
skip_used_lem (suc f) fds fd enough =
    elim (Bool-cases (ltb fd (length fds) && get_or fds fd 0 != 0)) [
      | inr stop ↦
          rw stop (omega arith, ground (arith, get_or_past fds fd), λ j a b. absurd (omega arith))
      | inl used ↦
          let rest = skip_used_lem f fds (fd + 1) (omega arith) in
          rw used (
            omega (arith, rest.0),
            rest.1,
            λ j a b. elim (Bool-cases (j == fd)) [
              | inl e ↦ let s : j ≡ fd = ground arith in rw s (ground arith)
              | inr ne ↦ rest.2 j (ground arith) b
            ],
          )
    ]

skip_used-le : (f : ℕ) (fds : List ℕ) (fd n : ℕ) → fd ≤ n → length fds ≤ n → skip_used f fds fd ≤ n
unfolding skip_used
skip_used-le zero fds fd n h k = h
skip_used-le (suc f) fds fd n h k = ground (arith, skip_used-le f fds (fd + 1) n)

-- What fd_install comes to when it succeeds.
pub fd_install-Reserved :
    (k : Kernel) (t p minimum fd : ℕ)
    → length (k.task t).fds ≤ int_max
    → minimum ≤ int_max
    → (fd_install k t p minimum).0 ≡ some fd
    → (m : Kernel) × Reserved k t fd m
      × ((fd_install k t p minimum).1 ≡ set_fds m t (set (m.task t).fds fd p))
      × (fd ≡ skip_used (length (k.task t).fds) (k.task t).fds minimum)
unfolding fd_install
fd_install-Reserved k t p minimum fd small low h =
    let fds = (k.task t).fds in
    let n = skip_used (length fds) fds minimum in
    elim (Bool-cases (fd_reserve k t n).0) [
      | inr full ↦ absurd (ground (arith, h))
      | inl done ↦
          let e : fd ≡ n = ground (arith, h) in
          let r =
            fd_reserve-Reserved k t n small
              (skip_used-le (length fds) fds minimum int_max low small) done in
          rw (done, e) ((fd_reserve k t n).1, r, refl, refl)
    ]

-- The lowest descriptor from `minimum` on that is free.
abbrev pub Lowest : List ℕ → ℕ → ℕ → Type 0
Lowest fds minimum fd =
    (minimum ≤ fd) × (get_or fds fd 0 ≡ 0) × ((j : ℕ) → minimum ≤ j → j < fd → get_or fds j 0 ≢ 0)

-- A table that is reserved reads as it did, and has room for the descriptor.
pub Reserved-get_or :
    (k : Kernel) (t fd : ℕ) (m : Kernel)
    → Reserved k t fd m
    → (fd < length (m.task t).fds)
      × ((j : ℕ) → get_or (m.task t).fds j 0 ≡ get_or (k.task t).fds j 0)
Reserved-get_or k t fd m (same h e) = rw e (h, λ j. refl)
Reserved-get_or k t fd m (larger n h e) =
    let fds = (k.task t).fds in
    let here : ((set_fds (put_fs k (answered k.fs)) t (fds ++ replicate n 0)).task t).fds
        ≡ fds ++ replicate n 0 =
      ground arith in
    rw (e, here)
      (
        omega
            (arith, h, length-append fds (replicate n 0), length-replicate n (let z : ℕ = 0 in z)),
        λ j. get_or-append_zeros fds n j,
      )

-- fd_install in a table of at most INT32_MAX entries gives the lowest descriptor from the minimum on
-- that is free; the open file then stands there, and every other descriptor stands for what it did.
pub fd_install-Lowest :
    (k : Kernel) (t p minimum fd : ℕ)
    → length (k.task t).fds ≤ int_max
    → minimum ≤ int_max
    → (fd_install k t p minimum).0 ≡ some fd
    → Lowest (k.task t).fds minimum fd
      × ((j : ℕ)
          → get_or ((fd_install k t p minimum).1.task t).fds j 0
            ≡ (if j == fd then p else get_or (k.task t).fds j 0))
fd_install-Lowest k t p minimum fd small low h =
    let fds = (k.task t).fds in
    let (m, reserved, e, at) = fd_install-Reserved k t p minimum fd small low h in
    let free = skip_used_lem (length fds) fds minimum (omega arith) in
    let (room, kept) = Reserved-get_or k t fd m reserved in
    let here : ((set_fds m t (set (m.task t).fds fd p)).task t).fds ≡ set (m.task t).fds fd p =
      ground arith in
    (
      rw at free,
      λ j.
          rw (e, here)
            (elim (Bool-cases (j == fd)) [
              | inl eq ↦
                  let s : j ≡ fd = ground arith in
                  rw (eq, s) (get_or-set_self (m.task t).fds fd p 0 room)
              | inr ne ↦
                  rw ne (
                    get_or-set_ne (m.task t).fds fd j p 0 (λ s. absurd (ground (arith, s)))
                    ∙ kept j)
            ]),
    )
