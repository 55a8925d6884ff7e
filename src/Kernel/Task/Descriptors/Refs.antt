-- ===== src/Kernel/Task/Descriptors/Refs.antt =====
-- The counts of open files agree with the descriptor tables.
use narc_os.Common.{ℕ, ◌+◌, ◌^◌, ◌≤◌, ◌<◌, ◌≡◌, refl, sym, ap, ◌∙◌, ◌≢◌, arith}
use narc_os.Common.{true, false, Option, none, some, ◌++◌, ◌==◌}
use narc_os.Common.{get_or, set, length, has, Bool-cases, inl, inr, replicate, ltb}
use narc_os.Common.Int.{ℤ, pos, negsuc}
use narc_os.Kernel.Vfs.State.{answer, answered}
use narc_os.Kernel.Vfs.Tree.Siblings.{Distinct}
use narc_os.Kernel.Task.State.{Kernel, int_max, put_fs}
use narc_os.Kernel.Task.Files.{file_put, fd_get, set_fds, fd_install, fd_reserve, skip_used}
use narc_os.Kernel.Task.Files.Install.{Reserved, fd_install-Reserved, Reserved-get_or}
use narc_os.Kernel.Task.Files.Install.{get_or_past, fd_install-Lowest}
use narc_os.Kernel.Task.Files.Table.{
  one_if, slots, count-set, count-append_zeros, slots-put, file_put_refs,
}
use narc_os.Kernel.Task.Descriptors.{task_fd_close, task_fd_dup, set_fd, add_ref, installed}

-- Every open file that stands in a table counts its descriptors, which are fewer than an `int` holds;
-- the current task is one of the list, and the list has no task twice.
pub record HasRefs (k : Kernel) : Type 0 where
  pub counted :
      (p : ℕ)
      → p ≢ 0
      → slots k.task k.task_list p ≢ 0
      → (k.open_file p).refs ≡ slots k.task k.task_list p
  pub bounded : (p : ℕ) → p ≢ 0 → slots k.task k.task_list p < 2 ^ 31
  pub distinct : Distinct k.task_list
  pub running : has k.current k.task_list ≡ true

-- The tables with one entry of the current task's changed.
slots-set :
    (k : Kernel) (fd v q : ℕ)
    → HasRefs k
    → fd < length (k.task k.current).fds
    → slots (set_fd k fd v).task k.task_list q + one_if (get_or (k.task k.current).fds fd 0 == q)
      ≡ slots k.task k.task_list q + one_if (v == q)
slots-set k fd v q w room =
    let fds = (k.task k.current).fds in
    let put =
      slots-put k.task k.current (let t = k.task k.current in record t { fds = set fds fd v })
        k.task_list q w.distinct w.running in
    omega (arith, put, count-set q fds fd v room)

-- One pointer fewer to `p`, and `p` put.
put-HasRefs :
    (k l : Kernel) (p : ℕ)
    → HasRefs k
    → l.task_list ≡ k.task_list
    → l.current ≡ k.current
    → ((q : ℕ) → (l.open_file q).refs ≡ (k.open_file q).refs)
    → ((q : ℕ)
        → slots l.task k.task_list q + one_if (p == q)
          ≡ slots k.task k.task_list q + one_if (0 == q))
    → p ≢ 0
    → HasRefs (file_put l p)
put-HasRefs k l p w list cur refs change ne =
    let (_, t, s, c) = file_put_refs l p 0 in
    record {
      counted = λ q hq some_slot.
          let (r, _, _, _) = file_put_refs l p q in
          let now : slots (file_put l p).task (file_put l p).task_list q
              ≡ slots l.task k.task_list q =
            rw (t, s, list) refl in
          rw now
            (ground (arith, r, refs q, change q, w.counted q hq, w.bounded q hq, some_slot, now));
      bounded = λ q hq. rw (t, s, list) (ground (arith, change q, w.bounded q hq));
      distinct = rw (s, list) w.distinct;
      running = rw (s, c, list, cur) w.running;
    }

-- task_fd_close keeps the counts right.
pub task_fd_close-HasRefs : (k : Kernel) (fd : ℤ) → HasRefs k → HasRefs (task_fd_close k fd).1
unfolding task_fd_close fd_get
task_fd_close-HasRefs k (negsuc n) w = w
task_fd_close-HasRefs k (pos fd) w = elim (Bool-cases (fd_get k (pos fd) == 0)) [
  | inl null ↦ rw null w
  | inr some_file ↦
      let fds = (k.task k.current).fds in
      let p = get_or fds fd 0 in
      let room : fd < length fds = ground (arith, get_or_past fds fd) in
      rw some_file (
        put-HasRefs k (set_fd k fd 0) p w refl refl (λ q. refl) (λ q. slots-set k fd 0 q w room)
          (ground arith))
]

put_fs-HasRefs : (k : Kernel) → HasRefs k → HasRefs (put_fs k (answered k.fs))
put_fs-HasRefs k w = record {
  counted = w.counted;
  bounded = w.bounded;
  distinct = w.distinct;
  running = w.running;
}

-- A larger table has the same pointers in it.
Reserved-HasRefs :
    (k : Kernel) (fd : ℕ) (m : Kernel)
    → HasRefs k
    → Reserved k k.current fd m
    → HasRefs m
      × ((q : ℕ) → q ≢ 0 → slots m.task m.task_list q ≡ slots k.task k.task_list q)
      × (m.open_file ≡ k.open_file)
      × (m.current ≡ k.current)
Reserved-HasRefs k fd m w (Reserved.same h e) = rw e (w, λ q hq. refl, refl, refl)
Reserved-HasRefs k fd m w (Reserved.larger n h e) =
    let fds = (k.task k.current).fds in
    let l = set_fds (put_fs k (answered k.fs)) k.current (fds ++ replicate n 0) in
    let kept : (q : ℕ) → q ≢ 0 → slots l.task k.task_list q ≡ slots k.task k.task_list q = λ q hq.
      omega (
        arith,
        slots-put k.task k.current
            (let t = k.task k.current in record t { fds = fds ++ replicate n 0 }) k.task_list q
            w.distinct w.running,
        count-append_zeros q fds n hq,
      ) in
    rw e (
      record {
        counted = λ q hq some_slot. rw (kept q hq) (w.counted q hq (rw (kept q hq) at some_slot));
        bounded = λ q hq. rw (kept q hq) (w.bounded q hq);
        distinct = w.distinct;
        running = w.running;
      },
      kept,
      refl,
      refl,
    )

fd_reserve-none :
    (k : Kernel) (t fd : ℕ)
    → (fd_reserve k t fd).0 ≡ false
    → HasRefs k
    → HasRefs (fd_reserve k t fd).1
unfolding fd_reserve
fd_reserve-none k t fd h w = elim (Bool-cases (ltb fd (length (k.task t).fds))) [
  | inl inside ↦ absurd (ground (arith, h))
  | inr outside ↦ elim (Bool-cases (fd == int_max)) [
    | inl top ↦ rw (outside, top) w
    | inr below ↦ elim (Bool-cases (answer k.fs == 0)) [
      | inl null ↦ rw (outside, below, null) (put_fs-HasRefs k w)
      | inr block ↦ absurd (ground (arith, h))
    ]
  ]
]

-- One pointer more to `p`, in the place of a null pointer, and one more in its count.
add-HasRefs :
    (k l : Kernel) (p : ℕ)
    → HasRefs k
    → slots k.task k.task_list p + 1 < 2 ^ 31
    → slots k.task k.task_list p ≢ 0
    → l.task_list ≡ k.task_list
    → l.current ≡ k.current
    → l.open_file ≡ k.open_file
    → ((q : ℕ) → q ≢ 0 → slots l.task k.task_list q ≡ slots k.task k.task_list q + one_if (p == q))
    → p ≢ 0
    → HasRefs (add_ref l p)
add-HasRefs k l p w room old list cur files change ne = record {
  counted = λ q hq some_slot.
      rw (list, files)
        (ground
          (arith, change q hq, w.counted q hq, w.counted p ne old, some_slot, list, ap one_if));
  bounded = λ q hq. rw list (ground (arith, change q hq, w.bounded q hq));
  distinct = rw list w.distinct;
  running = rw (list, cur) w.running;
}

-- A descriptor that stands for an open file counts.
slots-fd_get :
    (k : Kernel) (fd : ℤ) → HasRefs k → fd_get k fd ≢ 0 → slots k.task k.task_list (fd_get k fd) ≢ 0
unfolding fd_get
slots-fd_get k (negsuc n) w ne = absurd (ne refl)
slots-fd_get k (pos fd) w ne =
    let fds = (k.task k.current).fds in
    let room : fd < length fds = ground (arith, get_or_past fds fd) in
    λ none_there. absurd (ground (arith, slots-set k fd 0 (get_or fds fd 0) w room, none_there))

fd_install-none :
    (k : Kernel) (t p minimum : ℕ)
    → (fd_install k t p minimum).0 ≡ none
    → HasRefs k
    → HasRefs (fd_install k t p minimum).1
unfolding fd_install
fd_install-none k t p minimum h w =
    let fd = skip_used (length (k.task t).fds) (k.task t).fds minimum in
    elim (Bool-cases (fd_reserve k t fd).0) [
      | inl done ↦ absurd (ground (arith, h))
      | inr full ↦ rw full (fd_reserve-none k t fd full w)
    ]

replace-HasRefs :
    (m : Kernel) (c fd p : ℕ)
    → c ≡ m.current
    → HasRefs m
    → fd < length (m.task c).fds
    → get_or (m.task c).fds fd 0 ≡ 0
    → slots m.task m.task_list p + 1 < 2 ^ 31
    → slots m.task m.task_list p ≢ 0
    → p ≢ 0
    → HasRefs (add_ref (set_fds m c (set (m.task c).fds fd p)) p)
replace-HasRefs m c fd p cur w space null room old ne = rw cur (
    add-HasRefs m (set_fd m fd p) p w room old refl refl refl
      (λ q hq. ground (arith, slots-set m fd p q w (rw cur at space), (rw cur at null))) ne)

installed-HasRefs :
    (k : Kernel) (p minimum : ℕ) (o : Option ℕ)
    → HasRefs k
    → length (k.task k.current).fds ≤ int_max
    → minimum ≤ int_max
    → slots k.task k.task_list p + 1 < 2 ^ 31
    → slots k.task k.task_list p ≢ 0
    → p ≢ 0
    → (fd_install k k.current p minimum).0 ≡ o
    → HasRefs (installed o (fd_install k k.current p minimum).1 p).1
installed-HasRefs k p minimum none w small low room old ne e =
    fd_install-none k k.current p minimum e w
installed-HasRefs k p minimum (some fd) w small low room old ne e =
    let (m, reserved, made, at) = fd_install-Reserved k k.current p minimum fd small low e in
    let (free, _) = fd_install-Lowest k k.current p minimum fd small low e in
    let (wm, kept, files, cur) = Reserved-HasRefs k fd m w reserved in
    let (space, alike) = Reserved-get_or k k.current fd m reserved in
    rw made (
      replace-HasRefs m k.current fd p (sym cur) wm space (alike fd ∙ free.1)
        (omega (arith, kept p ne)) (λ f. old (sym (kept p ne) ∙ f)) ne)

-- task_fd_dup keeps the counts right, whether it succeeds or not.
pub task_fd_dup-HasRefs :
    (k : Kernel) (oldfd : ℤ) (minimum : ℕ)
    → HasRefs k
    → length (k.task k.current).fds ≤ int_max
    → minimum ≤ int_max
    → slots k.task k.task_list (fd_get k oldfd) + 1 < 2 ^ 31
    → HasRefs (task_fd_dup k oldfd (pos minimum)).1
unfolding task_fd_dup
task_fd_dup-HasRefs k oldfd minimum w small low room = elim (Bool-cases (fd_get k oldfd == 0)) [
  | inl null ↦ rw null w
  | inr some_file ↦
      let ne : fd_get k oldfd ≢ 0 = ground arith in
      rw some_file (
        installed-HasRefs k (fd_get k oldfd) minimum
          (fd_install k k.current (fd_get k oldfd) minimum).0 w small low room
          (slots-fd_get k oldfd w ne) ne refl)
]
