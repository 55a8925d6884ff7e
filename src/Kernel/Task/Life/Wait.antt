-- ===== src/Kernel/Task/Life/Wait.antt =====
-- How a parent learns of a child's end.
use narc_os.Common.{ℕ, ◌*◌, ◌%◌, ◌^◌, ◌≡◌, refl, ◌∙◌, ◌≢◌, arith}
use narc_os.Common.{
  Bool, true, false, ◌&&◌, ◌||◌, not, List, [], ◌∷◌, ◌==◌, ◌!=◌, if◌then◌else◌, has,
}
use narc_os.Common.{Bool-cases, inl, inr}
use narc_os.Common.Int.{ℤ, pos}
use narc_os.Kernel.Vfs.Tree.Siblings.{Distinct, has-unlist}
use narc_os.Kernel.Task.State.{Task, Kernel, Arch, Mmu, runnable, zombie, is_blocked, is_zombie}
use narc_os.Kernel.Task.Schedule.{task_free, find_task, find_in}
use narc_os.Kernel.Task.Files.{put_all, close_all, file_put}
use narc_os.Kernel.Task.Files.Table.{file_put_refs}
use narc_os.Kernel.Task.Life.{matches, find_zombie, done, wait_blocked, task_wait}
use narc_os.Kernel.Task.Life.{copy_status, awaits, wake, end_task, make_zombie}

-- The zombie that the loop finds.
find_zombie_lem :
    (k : Kernel) (l : List ℕ) (pid : ℤ) (found : Bool)
    → has 0 l ≡ false
    → (find_zombie k l pid found).0 ≢ 0
    → let t = (find_zombie k l pid found).0 in
      (has t l ≡ true)
      × (is_zombie (k.task t) ≡ true)
      × (matches (k.task t) (k.task k.current) pid ≡ true)
unfolding find_zombie has
find_zombie_lem k [] pid found z ne = absurd (ne refl)
find_zombie_lem k (t ∷ r) pid found z ne =
    let hit = matches (k.task t) (k.task k.current) pid in
    elim (Bool-cases (hit && is_zombie (k.task t))) [
      | inl yes_hit ↦ rw yes_hit (ground arith, ground arith, ground arith)
      | inr no_hit ↦
          let rest = find_zombie_lem k r pid (found || hit) (ground arith) (rw no_hit at ne) in
          rw no_hit (ground (arith, rest.0), rest.1, rest.2)
    ]

copy_status_tasks :
    (mmu : Mmu) (k : Kernel) (t dst status : ℕ)
    → ((copy_status mmu k t dst status).1.task ≡ k.task)
      × ((copy_status mmu k t dst status).1.task_list ≡ k.task_list)
      × ((copy_status mmu k t dst status).1.current ≡ k.current)
unfolding copy_status
copy_status_tasks mmu k t dst status = ground arith

wait_blocked_result :
    (k : Kernel) (frame : ℕ) (pid : ℤ) (status n : ℕ)
    → (wait_blocked k frame pid status).0 ≢ done (pos n)
unfolding wait_blocked
wait_blocked_result k frame pid status n h = ground arith

-- When task_wait returns a process id, it is that of a child of the current task which had ended and
-- which the call asked for; that task is then off the list, and no other.
pub task_wait_reaps :
    (mmu : Mmu) (k : Kernel) (frame : ℕ) (pid : ℤ) (status options n : ℕ)
    → has 0 k.task_list ≡ false
    → Distinct k.task_list
    → n ≢ 0
    → (task_wait mmu k frame pid status options).0 ≡ done (pos n)
    → (t : ℕ) × (has t k.task_list ≡ true)
      × ((k.task t).pid ≡ n)
      × (is_zombie (k.task t) ≡ true)
      × (matches (k.task t) (k.task k.current) pid ≡ true)
      × ((q : ℕ)
          → has q (task_wait mmu k frame pid status options).1.task_list
            ≡ (if q == t then false else has q k.task_list))
unfolding task_wait task_free
task_wait_reaps mmu k frame pid status options n z d ne h =
    let t = (find_zombie k k.task_list pid false).0 in
    elim (Bool-cases (status != 0 && not (mmu.range_ok (k.task k.current).space status 4 true))) [
      | inl fault ↦ absurd (ground (arith, h))
      | inr fine ↦ elim (Bool-cases (t != 0)) [
        | inl ended ↦
            let (there, dead, fits) = find_zombie_lem k k.task_list pid false z (ground arith) in
            let copied =
              copy_status_tasks mmu k k.current status ((k.task t).exit_status * 256 % 2 ^ 32) in
            (
              t,
              there,
              ground (arith, h),
              dead,
              fits,
              λ q. rw (fine, ended, copied.1) (has-unlist q t k.task_list d),
            )
        | inr running ↦ absurd (ground (arith, h, wait_blocked_result k frame pid status n))
      ]
    ]

put_all_tasks :
    (k : Kernel) (l : List ℕ)
    → ((put_all k l).task ≡ k.task)
      × ((put_all k l).task_list ≡ k.task_list)
      × ((put_all k l).current ≡ k.current)
unfolding put_all
put_all_tasks k [] = (refl, refl, refl)
put_all_tasks k (p ∷ r) =
    let (a, b, c) = put_all_tasks (file_put k p) r in
    let (_, x, y, w) = file_put_refs k p 0 in (a ∙ x, b ∙ y, c ∙ w)

-- The current task as task_exit leaves it.
abbrev pub ended : Kernel → ℕ → Task
ended k status =
    let v = k.task k.current in record v { fds = []; state = zombie; exit_status = status % 256 }

make_zombie_task :
    (k : Kernel) (status q : ℕ)
    → ((make_zombie k status).task q ≡ (if q == k.current then ended k status else k.task q))
      × ((make_zombie k status).task_list ≡ k.task_list)
unfolding make_zombie close_all
make_zombie_task k status q =
    let (tasks, list, _) = put_all_tasks k (k.task k.current).fds in (rw tasks (ground arith), list)

find_in-congr :
    (task task' : ℕ → Task) (l : List ℕ) (pid : ℕ)
    → ((q : ℕ) → (task q).pid ≡ (task' q).pid)
    → find_in task l pid ≡ find_in task' l pid
unfolding find_in
find_in-congr task task' [] pid h = refl
find_in-congr task task' (t ∷ r) pid h = ground (arith, h t, find_in-congr task task' r pid h)

wake_task :
    (arch : Arch) (mmu : Mmu) (k : Kernel) (parent q : ℕ) (v : Task)
    → (wake arch mmu k parent v).task q ≡ (
        if q == parent
        then (let w = k.task parent in
            record w { frame = arch.return2 w.frame v.pid 0; state = runnable })
        else k.task q)
unfolding wake
wake_task arch mmu k parent q v =
    let (tasks, _, _) =
      copy_status_tasks mmu k parent (k.task parent).wait_status (v.exit_status * 256 % 2 ^ 32) in
    rw tasks refl

-- A task that ends while its parent waits for it becomes a zombie with the low byte of its status and
-- no descriptors; the parent can run again and gets the process id as the result of its wait; and the
-- ended task is to be taken off the list at once. All other tasks are as they were.
pub end_task_wakes :
    (arch : Arch) (mmu : Mmu) (k : Kernel) (status parent : ℕ)
    → find_task k (k.task k.current).ppid ≡ parent
    → parent ≢ 0
    → parent ≢ k.current
    → is_blocked (k.task parent) ≡ true
    → ((k.task parent).wait_any || (k.task parent).wait_pid == (k.task k.current).pid) ≡ true
    → let (reap, l) = end_task arch mmu k status in
      (reap ≡ true)
      × ((q : ℕ)
          → l.task q ≡ (
              if q == k.current
              then ended k status
              else if q == parent
              then (let w = k.task parent in
                  record w {
                    frame = arch.return2 w.frame (k.task k.current).pid 0;
                    state = runnable;
                  })
              else k.task q))
unfolding end_task find_task
end_task_wakes arch mmu k status parent up block apart waits for =
    let l = make_zombie k status in
    let (mine, list) = make_zombie_task k status k.current in
    let me : l.task k.current ≡ ended k status = ground (arith, mine) in
    let theirs : l.task parent ≡ k.task parent =
      ground (arith, (make_zombie_task k status parent).0) in
    let same : (q : ℕ) → (l.task q).pid ≡ (k.task q).pid =
      λ q. ground (arith, (make_zombie_task k status q).0) in
    let found : find_in l.task l.task_list (k.task k.current).ppid ≡ parent =
      rw list (find_in-congr l.task k.task k.task_list (k.task k.current).ppid same ∙ up) in
    let woken : awaits l parent (ended k status) ≡ true = rw theirs (ground arith) in
    rw (me, found, woken)
      (
        refl,
        λ q.
            rw (wake_task arch mmu l parent q (ended k status), theirs)
              (ground (arith, (make_zombie_task k status q).0)),
      )
