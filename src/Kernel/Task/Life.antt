-- ===== src/Kernel/Task/Life.antt =====
-- Tasks from their creation to their end in kernel/task.c: task_create, task_space, task_set_entry,
-- task_fork, task_wait, task_exec, task_exit and the small functions on the current task. The results
-- of vmm_space_create and vmm_space_clone are arguments, `none` a failure. `int` results are
-- integers.
pub mod Wait
use narc_os.Common.{
  ℕ, zero, suc, ◌+◌, ◌-◌, ◌*◌, ◌/◌, ◌%◌, ◌^◌, Bool, true, false, ◌&&◌, ◌||◌, not, Option, none,
  some,
}
use narc_os.Common.{List, [], ◌∷◌, ◌++◌, ◌==◌, ◌!=◌, ltb, leb, if◌then◌else◌, length, bit}
use narc_os.Common.Int.{ℤ, pos, negsuc}
use narc_os.Kernel.String.{Memory, poke}
use narc_os.Kernel.Vfs.State.{Vfs, answer, answered}
use narc_os.Kernel.Task.State.{
  Task, TaskState, Kernel, OpenFile, Arch, Mmu, put_task, put_fs, put_file,
}
use narc_os.Kernel.Task.State.{
  unused, runnable, blocked, zombie, is_blocked, is_zombie, user_mmap_base, succ32,
}
use narc_os.Kernel.Task.Schedule.{task_alloc, task_free, find_task, next_task, switch_to}
use narc_os.Kernel.Task.Files.{init_fds, close_all}

abbrev pub destroy : Kernel → ℕ → Kernel
destroy k space = record k { destroyed = space ∷ k.destroyed }

-- What a step with the loop of alloc_pid inside comes to; `none` is that the loop does not end.
abbrev pub Allocated : Type 0
Allocated = Option (ℕ × Kernel)

abbrev pub prepared : Arch → Kernel → ℕ → ℕ → Kernel
prepared arch k t space = put_task k t (
    let v = k.task t in
    record v {
      space = space;
      state = runnable;
      mmap_next = user_mmap_base;
      frame = arch.frame_init;
      arch_state = arch.state_init;
    })

abbrev pub create_in : Arch → Kernel → ℕ → Option ℕ → ℕ × Kernel
create_in arch k t none = (0, task_free k t)
create_in arch k t (some space) =
    let (done, l) = init_fds (prepared arch k t space) t in
    if done then (t, l) else (0, task_free (destroy l space) t)

-- The new task, null on failure.
unfoldable pub task_create : Arch → Kernel → Option ℕ → Allocated
task_create arch k space = elim (task_alloc k) [
  | none ↦ none
  | some (t, l) ↦ if t == 0 then some (0, l) else some (create_in arch l t space)
]

unfoldable pub task_set_entry : Arch → Kernel → ℕ → ℕ → ℕ → Kernel
task_set_entry arch k t pc sp =
    put_task k t (let v = k.task t in record v { frame = arch.set_entry v.frame pc sp })

-- The loop of task_fork over the descriptors: each open file counts the child's pointer.
unfoldable pub share : Kernel → List ℕ → Kernel
share k [] = k
share k (p ∷ r) =
    let v = k.open_file p in
    share (if p == 0 then k else put_file k p (record v { refs = succ32 v.refs })) r

abbrev pub child_of : Arch → Kernel → ℕ → ℕ → ℕ → List ℕ → Task
child_of arch k t space frame fds =
    let v = k.task t in
    let parent = k.task k.current in
    record v {
      space = space;
      fds = fds;
      ppid = parent.pid;
      state = runnable;
      mmap_next = parent.mmap_next;
      fs_base = parent.fs_base;
      frame = arch.return2 frame 0 0;
      arch_state = k.cpu;
    }

-- arch_task_state_save puts the registers into the parent's state, which the child copies.
abbrev pub save_state : Kernel → Kernel
save_state k = put_task k k.current (let v = k.task k.current in record v { arch_state = k.cpu })

abbrev pub fork_in : Arch → Kernel → ℕ → Option ℕ → ℕ → Option ℕ × Kernel
fork_in arch k t none frame = (none, task_free k t)
fork_in arch k t (some space) frame =
    let l = put_fs k (answered k.fs) in
    let fds = (k.task k.current).fds in
    let shared = save_state (share l fds) in
    let child = child_of arch shared t space frame fds in
    if answer k.fs == 0
    then (none, task_free (destroy l space) t)
    else (some child.pid, put_task shared t child)

-- The child's process id, `none` for -1. The outer `none` is that alloc_pid does not end.
unfoldable pub task_fork : Arch → Kernel → Option ℕ → ℕ → Option (Option ℕ × Kernel)
task_fork arch k space frame = elim (task_alloc k) [
  | none ↦ none
  | some (t, l) ↦ if t == 0 then some (none, l) else some (fork_in arch l t space frame)
]

-- The loop of copy_status: the bytes of the status, low byte first, while the pages are there.
unfoldable pub copy_bytes : Mmu → ℕ → ℕ → ℕ → ℕ → Memory → Bool × Memory
copy_bytes mmu space dst status zero ram = (true, ram)
copy_bytes mmu space dst status (suc n) ram =
    let p = mmu.phys space dst in
    let rest = copy_bytes mmu space (dst + 1) (status / 256) n (poke ram p (status % 256)) in
    if p == 0 then (false, ram) else rest

unfoldable pub copy_status : Mmu → Kernel → ℕ → ℕ → ℕ → Bool × Kernel
copy_status mmu k t dst status =
    let space = (k.task t).space in
    let (done, ram) = copy_bytes mmu space dst status 4 k.fs.ram in
    if dst == 0
    then (true, k)
    else if not (mmu.range_ok space dst 4 true)
    then (false, k)
    else (done, put_fs k (record k.fs { ram = ram }))

-- A `pid` of -1 is every child.
unfoldable pub matches : Task → Task → ℤ → Bool
matches child parent (pos pid) = child.ppid == parent.pid && child.pid == pid
matches child parent (negsuc zero) = child.ppid == parent.pid
matches child parent (negsuc (suc n)) = false

-- The loop of task_wait: the first zombie, null if there is none, and whether a child was found.
unfoldable pub find_zombie : Kernel → List ℕ → ℤ → Bool → ℕ × Bool
find_zombie k [] pid found = (0, found)
find_zombie k (t ∷ r) pid found =
    let v = k.task t in
    let hit = matches v (k.task k.current) pid in
    if hit && is_zombie v then (t, true) else find_zombie k r pid (found || hit)

-- 0 with the result, or 1 with the frame to return to.
pub data Waited : Type 0 where
  done : ℤ → Waited
  switched : ℕ → Waited

abbrev pub waiting : Task → ℤ → ℕ → Task
waiting v (pos n) status = record v {
  state = blocked;
  wait_any = false;
  wait_pid = n;
  wait_status = status;
}
waiting v (negsuc n) status = record v {
  state = blocked;
  wait_any = n == 0;
  wait_pid = 0;
  wait_status = status;
}

-- task_wait once no zombie is there to reap.
unfoldable pub wait_blocked : Kernel → ℕ → ℤ → ℕ → Waited × Kernel
wait_blocked k frame pid status =
    let v = k.task k.current in
    let l = put_task k k.current (waiting v pid status) in
    let next = next_task l in
    let (f, m) = switch_to l next frame in
    let w = l.task k.current in
    if next == 0
    then (done (negsuc 0), put_task l k.current (record w { state = runnable }))
    else (switched f, m)

unfoldable pub task_wait : Mmu → Kernel → ℕ → ℤ → ℕ → ℕ → Waited × Kernel
task_wait mmu k frame pid status options =
    let (child, found) = find_zombie k k.task_list pid false in
    let v = k.task child in
    let copied = (copy_status mmu k k.current status (v.exit_status * 256 % 2 ^ 32)).1 in
    if status != 0 && not (mmu.range_ok (k.task k.current).space status 4 true)
    then (done (negsuc 0), k)
    else if child != 0
    then (done (pos v.pid), task_free copied child)
    else if not found
    then (done (negsuc 0), k)
    else if bit options 0
    then (done (pos 0), k)
    else wait_blocked k frame pid status

-- The frame to return to.
unfoldable pub task_exec : Arch → Kernel → ℕ → ℕ → ℕ → ℕ × Kernel
task_exec arch k space pc sp =
    let v = k.task k.current in
    let l = put_task k k.current (record v {
      space = space;
      fs_base = 0;
      mmap_next = user_mmap_base;
      arch_state = arch.state_init;
    }) in
    (
      arch.set_entry arch.frame_init pc sp,
      destroy (record l { cpu = arch.state_init; active = space; tls = 0 }) v.space,
    )

-- Is the parent blocked in a wait for this child?
abbrev pub awaits : Kernel → ℕ → Task → Bool
awaits k parent v =
    let w = k.task parent in parent != 0 && is_blocked w && (w.wait_any || w.wait_pid == v.pid)

-- The parent gets the child's status and goes on.
unfoldable pub wake : Arch → Mmu → Kernel → ℕ → Task → Kernel
wake arch mmu k parent v =
    let w = k.task parent in
    let l = (copy_status mmu k parent w.wait_status (v.exit_status * 256 % 2 ^ 32)).1 in
    let u = l.task parent in
    put_task l parent (record u { frame = arch.return2 u.frame v.pid 0; state = runnable })

-- The first part of task_exit: the current task without descriptors, a zombie.
unfoldable pub make_zombie : Kernel → ℕ → Kernel
make_zombie k status =
    let closed = close_all k k.current in
    put_task closed k.current
      (let v = closed.task k.current in record v { state = zombie; exit_status = status % 256 })

-- task_exit up to the choice of the next task: is a waiting parent to reap the task at once?
unfoldable pub end_task : Arch → Mmu → Kernel → ℕ → Bool × Kernel
end_task arch mmu k status =
    let l = make_zombie k status in
    let z = l.task k.current in
    let parent = find_task l z.ppid in
    if awaits l parent z then (true, wake arch mmu l parent z) else (false, l)

-- The frame to return to; `none` is the halt when no task is left to run.
unfoldable pub task_exit : Arch → Mmu → Kernel → ℕ → ℕ → Option ℕ × Kernel
task_exit arch mmu k frame status =
    let old = k.current in
    let (reap, l) = end_task arch mmu k status in
    let next = next_task l in
    let (f, m) = switch_to l next frame in
    let d = destroy m (m.task old).space in
    if next == 0
    then (none, record l { halted = true })
    else (some f, if reap then task_free d old else d)

unfoldable pub task_pid : Kernel → ℕ
task_pid k = (k.task k.current).pid

unfoldable pub task_set_fs_base : Kernel → ℕ → Kernel
task_set_fs_base k value =
    record (put_task k k.current (let v = k.task k.current in record v { fs_base = value })) {
      tls = value;
    }

unfoldable pub task_set_mmap_next : Kernel → ℕ → Kernel
task_set_mmap_next k value =
    put_task k k.current (let v = k.task k.current in record v { mmap_next = value })
