-- ===== src/Kernel/Task/Schedule/Pids.antt =====
-- Process ids: the loop of alloc_pid ends, and no two tasks have the same id.
use narc_os.Common.{ℕ, zero, suc, ◌+◌, ◌-◌, ◌%◌, ◌≤◌, ◌<◌, ◌≡◌, refl, ◌≢◌, arith, true, false}
use narc_os.Common.{Option, some, List, [], ◌∷◌, ◌++◌, ◌==◌, if◌then◌else◌, length, length-append}
use narc_os.Common.{has, Bool-cases, inl, inr, ap, ◌∙◌}
use narc_os.Kernel.Vfs.Nodes.{unlist}
use narc_os.Kernel.Vfs.State.{answer, answered}
use narc_os.Kernel.Vfs.Tree.Siblings.{Distinct, Distinct-append_one, has-append_one}
use narc_os.Kernel.Task.State.{Task, Kernel, zero_task, int_max, put_task, put_fs}
use narc_os.Kernel.Task.Schedule.{find_in, find_task, pid_after, pid_loop, alloc_pid, task_alloc}

-- The process ids of the tasks in a list.
abbrev pub pids : (ℕ → Task) → List ℕ → List ℕ
pids task [] = []
pids task (t ∷ r) = (task t).pid ∷ pids task r

length-pids : (task : ℕ → Task) (l : List ℕ) → length (pids task l) ≡ length l
length-pids task [] = refl
length-pids task (t ∷ r) = ap suc (length-pids task r)

-- find_task finds nothing exactly for the ids that no task has.
find_in-has :
    (task : ℕ → Task) (l : List ℕ) (pid : ℕ)
    → has 0 l ≡ false
    → (find_in task l pid == 0) ≡ (if has pid (pids task l) then false else true)
unfolding find_in has
find_in-has task [] pid z = refl
find_in-has task (t ∷ r) pid z = ground (arith, find_in-has task r pid)

-- The id tried in round `i`, from `pid` on.
abbrev tried : ℕ → ℕ → ℕ
tried pid i = (pid - 1 + i) % int_max + 1

has-unlist_ne : (a c : ℕ) (l : List ℕ) → a ≢ c → has a (unlist c l) ≡ has a l
unfolding has unlist
has-unlist_ne a c [] ne = refl
has-unlist_ne a c (x ∷ l) ne = ground (arith, has-unlist_ne a c l)

length-unlist : (c : ℕ) (l : List ℕ) → has c l ≡ true → suc (length (unlist c l)) ≡ length l
unfolding has unlist
length-unlist c [] h = cc
length-unlist c (x ∷ l) h = ground (arith, length-unlist c l)

abbrev Free : Kernel → ℕ → Option (ℕ × ℕ) → Type 0
Free k p o =
    (pid : ℕ) × (o ≡ some (pid, pid_after pid))
    × (find_task k pid ≡ 0)
    × (1 ≤ pid)
    × (pid ≤ int_max)

-- There are fewer ids in use than rounds, and no round tries an id again: one of them is free.
pid_loop-Free :
    (fuel b p : ℕ) (k : Kernel) (l : List ℕ)
    → length l < fuel
    → b + fuel ≤ int_max
    → 1 ≤ p
    → ((i : ℕ)
        → i < fuel
        → (find_task k (tried p (b + i)) == 0) ≡ false
        → has (tried p (b + i)) l ≡ true)
    → Free k p (pid_loop fuel k (tried p b))
unfolding pid_loop
pid_loop-Free zero b p k l short small low h = absurd (omega arith)
pid_loop-Free (suc fuel) b p k l short small low h =
    let c = tried p b in
    elim (Bool-cases (find_task k c == 0)) [
      | inl free ↦ rw free (c, refl, ground arith, omega arith, omega arith)
      | inr taken ↦
          let next : pid_after c ≡ tried p (b + 1) = ground arith in
          let zeroth : tried p (b + 0) ≡ c = omega arith in
          let hit : has c l ≡ true = rw zeroth at (h 0 (omega arith) (rw zeroth taken)) in
          rw (taken, next)
            (pid_loop-Free fuel (b + 1) p k (unlist c l) (omega (arith, length-unlist c l hit))
              (omega arith) low
              (λ i lt e.
                let s : tried p (b + 1 + i) ≡ tried p (b + suc i) = omega arith in
                let ne : tried p (b + 1 + i) ≢ c = (λ f. absurd (omega arith)) in
                has-unlist_ne (tried p (b + 1 + i)) c l ne
                ∙ rw s (h (suc i) (omega arith) (rw s at e))))
    ]

-- The loop of alloc_pid ends within its fuel, at an id that no task has.
alloc_pid-Free :
    (k : Kernel)
    → has 0 k.task_list ≡ false
    → 1 ≤ k.next_pid
    → k.next_pid ≤ int_max
    → length k.task_list < int_max
    → Free k k.next_pid (alloc_pid k)
unfolding alloc_pid find_task
alloc_pid-Free k z low high small =
    let start : tried k.next_pid 0 ≡ k.next_pid = omega arith in
    rw start at (
      pid_loop-Free (suc (length k.task_list)) 0 k.next_pid k (pids k.task k.task_list)
        (omega (arith, length-pids k.task k.task_list)) (omega arith) low
        (λ i lt e. ground (arith, find_in-has k.task k.task_list (tried k.next_pid (0 + i)) z)))

pids-put :
    (task : ℕ → Task) (t : ℕ) (v : Task) (l : List ℕ)
    → has t l ≡ false
    → pids (λ q. if q == t then v else task q) l ≡ pids task l
unfolding has
pids-put task t v [] h = refl
pids-put task t v (x ∷ l) h = ground (arith, pids-put task t v l)

pids-append :
    (task : ℕ → Task) (l : List ℕ) (t : ℕ)
    → pids task (l ++ t ∷ []) ≡ pids task l ++ (task t).pid ∷ []
pids-append task [] t = refl
pids-append task (x ∷ l) t = ap (λ r. (task x).pid ∷ r) (pids-append task l t)

-- The list holds no null pointer, the process ids in it are distinct, and the next id to be tried is
-- in range.
pub record HasPids (k : Kernel) : Type 0 where
  pub no_null : has 0 k.task_list ≡ false
  pub distinct : Distinct (pids k.task k.task_list)
  pub low : 1 ≤ k.next_pid
  pub high : k.next_pid ≤ int_max

-- The task that is made, its id set.
abbrev listed : Kernel → ℕ → Kernel
listed k t =
    let k' = put_fs k (answered k.fs) in
    put_task (record k' { task_list = k'.task_list ++ t ∷ [] }) t zero_task

abbrev numbered : Kernel → ℕ → ℕ → Kernel
numbered k t pid =
    let l = listed k t in
    record (put_task l t (let v = l.task t in record v { pid = pid })) { next_pid = pid_after pid }

numbered-HasPids :
    (k : Kernel) (t pid : ℕ)
    → HasPids k
    → t ≢ 0
    → has t k.task_list ≡ false
    → find_task (listed k t) pid ≡ 0
    → 1 ≤ pid
    → pid ≤ int_max
    → HasPids (numbered k t pid)
unfolding find_task
numbered-HasPids k t pid w ne fresh unused low high =
    let l = listed k t in
    let old = pids-put k.task t zero_task k.task_list fresh in
    let all = pids-append l.task k.task_list t in
    let null = has-append_one 0 t k.task_list in
    let no_null : has 0 l.task_list ≡ false = ground (arith, null, w.no_null) in
    let absent = find_in-has l.task l.task_list pid no_null in
    let one = has-append_one pid (l.task t).pid (pids l.task k.task_list) in
    let apart : has pid (pids l.task k.task_list) ≡ false =
      ground (arith, absent, all, one, unused) in
    let new = (numbered k t pid).task in
    let kept : pids new k.task_list ≡ pids k.task k.task_list =
      pids-put l.task t (let v = l.task t in record v { pid = pid }) k.task_list fresh ∙ old in
    let mine : (new t).pid ≡ pid = ground arith in
    record {
      no_null = no_null;
      distinct =
          rw (pids-append new k.task_list t, kept, mine)
            (Distinct-append_one pid (pids k.task k.task_list) w.distinct (rw old at apart));
      low = ground arith;
      high = ground arith;
    }

-- task_alloc comes to an end as long as there are fewer tasks than process ids. A null answer of the
-- allocator makes no task; a block that is no task yet becomes the last one of the list, and no two
-- tasks in it have the same id.
pub task_alloc-HasPids :
    (k : Kernel)
    → HasPids k
    → suc (length k.task_list) < int_max
    → has (answer k.fs) k.task_list ≡ false
    → (l : Kernel) × (task_alloc k ≡ some (answer k.fs, l))
      × HasPids l
      × (l.task_list ≡ (if answer k.fs == 0 then k.task_list else k.task_list ++ answer k.fs ∷ []))
unfolding task_alloc
task_alloc-HasPids k w small fresh = elim (Bool-cases (answer k.fs == 0)) [
  | inl null ↦ rw null (
    put_fs k (answered k.fs),
    ground arith,
    record { no_null = w.no_null; distinct = w.distinct; low = w.low; high = w.high },
    refl,
  )
  | inr block ↦
      let t = answer k.fs in
      let l = listed k t in
      let no_null : has 0 l.task_list ≡ false =
        ground (arith, has-append_one 0 t k.task_list, w.no_null) in
      let (pid, found, unused, low, high) =
        alloc_pid-Free l no_null w.low w.high
          (omega (arith, small, length-append k.task_list (t ∷ []))) in
      rw block (
        numbered k t pid,
        rw found refl,
        numbered-HasPids k t pid w (ground arith) fresh unused low high,
        refl,
      )
]
