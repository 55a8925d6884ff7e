-- ===== src/Kernel/Task/Schedule.antt =====
-- Scheduling in kernel/task.c: after, next_task, find_task, alloc_pid, task_alloc, task_free, switch_to,
-- task_yield, task_preempt, task_start. A frame that a function changes through its pointer is an
-- argument and a result.
pub mod Rotation
pub mod Pids
use narc_os.Common.{ℕ, zero, suc, ◌+◌, Bool, true, false, ◌&&◌, not, Option, none, some}
use narc_os.Common.{List, [], ◌∷◌, ◌++◌, ◌==◌, ◌!=◌, if◌then◌else◌, length, get_or}
use narc_os.Kernel.Vfs.State.{Vfs, answer, answered}
use narc_os.Kernel.Vfs.Nodes.{unlist}
use narc_os.Kernel.Task.State.{Task, Kernel, put_task, put_fs, zero_task, int_max, is_runnable}

-- `task->next`, the null pointer for the last task.
unfoldable pub next_in : List ℕ → ℕ → ℕ
next_in [] t = 0
next_in (x ∷ r) t = if x == t then get_or r 0 0 else next_in r t

abbrev pub first : List ℕ → ℕ
first list = get_or list 0 0

unfoldable pub after : List ℕ → ℕ → ℕ
after list t = let next = next_in list t in if t != 0 && next != 0 then next else first list

-- The loop of next_task. It meets no task twice, so the length of the list is fuel enough.
unfoldable pub next_loop : ℕ → (ℕ → Task) → List ℕ → ℕ → ℕ → ℕ
next_loop zero task list start t = 0
next_loop (suc fuel) task list start t =
    let u = after list t in
    let rest = next_loop fuel task list start u in
    if t == 0 then 0 else if is_runnable (task t) then t else if u == start then 0 else rest

unfoldable pub next_task : Kernel → ℕ
next_task k =
    let start = after k.task_list k.current in
    next_loop (length k.task_list) k.task k.task_list start start

unfoldable pub find_in : (ℕ → Task) → List ℕ → ℕ → ℕ
find_in task [] pid = 0
find_in task (t ∷ r) pid = if (task t).pid == pid then t else find_in task r pid

unfoldable pub find_task : Kernel → ℕ → ℕ
find_task k pid = find_in k.task k.task_list pid

abbrev pub pid_after : ℕ → ℕ
pid_after pid = if pid == int_max then 1 else pid + 1

-- The process id, and the next one; `none` is out of fuel.
unfoldable pub pid_loop : ℕ → Kernel → ℕ → Option (ℕ × ℕ)
pid_loop zero k pid = none
pid_loop (suc fuel) k pid =
    let rest = pid_loop fuel k (pid_after pid) in
    if find_task k pid == 0 then some (pid, pid_after pid) else rest

-- The loop ends at the first id that is free, before it has tried more ids than there are tasks.
unfoldable pub alloc_pid : Kernel → Option (ℕ × ℕ)
alloc_pid k = pid_loop (suc (length k.task_list)) k k.next_pid

abbrev pub with_pid : Kernel → ℕ → Option (ℕ × ℕ) → Option Kernel
with_pid k t none = none
with_pid k t (some (pid, next)) =
    some (record (put_task k t (let v = k.task t in record v { pid = pid })) { next_pid = next })

-- The task, null on failure, at the end of the list; `none` if the loop of alloc_pid does not end.
unfoldable pub task_alloc : Kernel → Option (ℕ × Kernel)
task_alloc k =
    let t = answer k.fs in
    let k' = put_fs k (answered k.fs) in
    let listed = put_task (record k' { task_list = k'.task_list ++ t ∷ [] }) t zero_task in
    if t == 0
    then some (0, k')
    else elim (with_pid listed t (alloc_pid listed)) [ none ↦ none | some l ↦ some (t, l) ]

unfoldable pub task_free : Kernel → ℕ → Kernel
task_free k t = record k { task_list = unlist t k.task_list }

-- The tasks' frames and states are swapped; the result is the frame to return to.
unfoldable pub switch_to : Kernel → ℕ → ℕ → ℕ × Kernel
switch_to k next frame =
    let v = k.task k.current in
    let saved =
      if k.current == 0
      then k
      else put_task k k.current (record v { frame = frame; arch_state = k.cpu }) in
    let w = saved.task next in
    (
      w.frame,
      record saved { current = next; active = w.space; tls = w.fs_base; cpu = w.arch_state },
    )

unfoldable pub task_yield : Kernel → ℕ → ℕ × Kernel
task_yield k frame =
    let next = next_task k in
    if next != 0 && next != k.current then switch_to k next frame else (frame, k)

unfoldable pub task_preempt : Kernel → ℕ → ℕ × Kernel
task_preempt k frame = task_yield k frame

-- The frame that is entered; `none` is the halt.
unfoldable pub task_start : Kernel → Option ℕ × Kernel
task_start k =
    let next = next_task k in
    let v = k.task next in
    if next == 0 then (none, record k { current = 0; halted = true }) else (
      some v.frame,
      record k { current = next; active = v.space; tls = v.fs_base; cpu = v.arch_state },
    )
