-- ===== src/Kernel/Syscall/Dispatch.antt =====
-- handle_exec, return_result, dispatch and syscall_dispatch of kernel/syscall.c. user_exec and
-- what serial_getc yields are arguments, and so is what the stack holds in handle_read_dir.
use narc_os.Common.{◌-◌, length, take}
use narc_os.Common.{ℕ, ◌-◌, ◌%◌, ◌^◌, Bool, true, false, ◌&&◌, not}
use narc_os.Common.{Option, none, some, List, [], ◌∷◌, ◌==◌, ◌!=◌, if◌then◌else◌}
use narc_os.Common.Int.{pos, negsuc}
use narc_os.Kernel.Paging.{Paging, vmm_user_range_ok, vmm_user_phys}
use narc_os.Kernel.Paging.Space.{vmm_space_clone, vmm_space_destroy, vmm_space_activate}
use narc_os.Kernel.Task.State.{Kernel, Arch, Mmu}
use narc_os.Kernel.Task.Schedule.{task_yield, task_alloc}
use narc_os.Kernel.Task.Life.{task_fork, task_wait, task_exit, task_pid, Waited, done, switched}
use narc_os.Kernel.Syscall.{KernelResult, result_ok, result_error, narc_bad_address, narc_not_found}
use narc_os.Kernel.Syscall.{narc_try_again, narc_no_child, narc_not_supported}
use narc_os.Kernel.Syscall.Copy.{copy_string, copy_string_list, vfs_path_max}
use narc_os.Kernel.Syscall.Handlers.{
  Handled, handle_read, handle_write, handle_open, handle_mkdir, handle_unlink, handle_rename,
  handle_close, handle_seek, handle_file_info, handle_read_dir, to_int,
}
use narc_os.Kernel.Syscall.Mapping.{handle_map, handle_unmap}

-- The kernel with the page tables of its address spaces.
pub record System : Type 0 where
  pub kernel : Kernel
  pub paging : Paging

-- vmm_space_destroy on the spaces that task.c gives up, the first one first.
unfoldable pub destroy_all : List ℕ → Paging → Paging
destroy_all [] t = t
destroy_all (space ∷ r) t = (vmm_space_destroy (destroy_all r t) space).1

-- What a call of task.c does to the page tables: a switch activates a space before one is destroyed.
abbrev pub settled : Paging → Kernel → Kernel → Paging
settled t k l =
    destroy_all (take (length l.destroyed - length k.destroyed) l.destroyed)
      (if l.active == k.active then t else vmm_space_activate t l.active)

abbrev pub with_kernel : System → Kernel → System
with_kernel s l = record { kernel = l; paging = settled s.paging s.kernel l }

-- The page tables as the handlers and task.c see them.
abbrev pub mmu_of : Paging → Mmu
mmu_of t = record { range_ok = vmm_user_range_ok t; phys = vmm_user_phys t }

-- user_exec: the new frame and the system, `none` for -1.
abbrev pub Exec : Type 0
Exec = System → (path : List ℕ) (arguments environment : List (List ℕ)) → Option ℕ × System

-- What the calls take from outside; `depth` bounds the depth of the file system's tree.
pub record Outside : Type 0 where
  pub exec : Exec
  pub typed : List (List ℕ)
  pub stale : List ℕ
  pub depth : ℕ

-- The frame to return to with the system; the halt when no task is left; or a call that does not end.
pub data Outcome : Type 0 where
  returned : ℕ → System → Outcome
  halted : System → Outcome
  endless : Outcome

abbrev pub return_result : Arch → ℕ → KernelResult → ℕ
return_result arch frame result = arch.return2 frame result.value result.status

abbrev pub answered_by : Arch → System → ℕ → Handled → Outcome
answered_by arch s frame (result, k) = returned (return_result arch frame result) (with_kernel s k)

abbrev pub result_outcome : Arch → System → ℕ → KernelResult → Outcome
result_outcome arch s frame result = returned (return_result arch frame result) s

-- Without arguments the path is the only one.
abbrev pub arguments_or : List ℕ → List (List ℕ) → List (List ℕ)
arguments_or path [] = path ∷ []
arguments_or path (a ∷ l) = a ∷ l

abbrev pub exec_outcome : Arch → ℕ → Option ℕ × System → Outcome
exec_outcome arch frame (none, s) = result_outcome arch s frame (result_error narc_not_found)
exec_outcome arch frame (some new, s) = returned new s

-- handle_exec on what it copied, with the return of its status.
abbrev pub exec_copied :
    Arch
    → Exec
    → System
    → ℕ
    → Option (List ℕ)
    → (arguments environment : Option (List (List ℕ))) → Outcome
exec_copied arch exec s frame (some path) (some arguments) (some environment) =
    exec_outcome arch frame (exec s path (arguments_or path arguments) environment)
exec_copied arch exec s frame _ _ _ = result_outcome arch s frame (result_error narc_bad_address)

unfoldable pub handle_exec : Arch → Exec → System → (frame path argv envp : ℕ) → Outcome
handle_exec arch exec s frame path argv envp =
    let mmu = mmu_of s.paging in
    exec_copied arch exec s frame (copy_string mmu s.kernel path vfs_path_max)
      (copy_string_list mmu s.kernel argv) (copy_string_list mmu s.kernel envp)

-- task_fork clones the address space once it has a task for the child.
abbrev pub clones : Kernel → Bool
clones k = elim (task_alloc k) [ none ↦ false | some (t, l) ↦ t != 0 ]

abbrev pub fork_result : Option ℕ → KernelResult
fork_result none = result_error narc_try_again
fork_result (some pid) = result_ok pid

unfoldable pub dispatch_fork : Arch → System → ℕ → Outcome
dispatch_fork arch s frame =
    let k = s.kernel in
    let (space, tables) = vmm_space_clone s.paging (k.task k.current).space in
    elim (task_fork arch k space frame) [
      | none ↦ endless
      | some (pid, l) ↦
          result_outcome arch
            (record { kernel = l; paging = settled (if clones k then tables else s.paging) k l })
            frame (fork_result pid)
    ]

abbrev pub wait_outcome : Arch → System → ℕ → Waited × Kernel → Outcome
wait_outcome arch s frame (switched f, k) = returned f (with_kernel s k)
wait_outcome arch s frame (done (pos value), k) = answered_by arch s frame (result_ok value, k)
wait_outcome arch s frame (done (negsuc n), k) =
    answered_by arch s frame (result_error narc_no_child, k)

unfoldable pub dispatch_wait : Arch → System → (frame pid status options : ℕ) → Outcome
dispatch_wait arch s frame pid status options =
    let mmu = mmu_of s.paging in
    if status != 0 && not (mmu.range_ok s.kernel.active status 4 true)
    then result_outcome arch s frame (result_error narc_bad_address)
    else wait_outcome arch s frame
        (task_wait mmu s.kernel frame (to_int pid) status (options % 2 ^ 32))

abbrev pub exit_outcome : System → Option ℕ × Kernel → Outcome
exit_outcome s (none, k) = halted (with_kernel s k)
exit_outcome s (some f, k) = returned f (with_kernel s k)

abbrev pub yield_outcome : System → ℕ × Kernel → Outcome
yield_outcome s (f, k) = returned f (with_kernel s k)

abbrev pub map_outcome : Arch → ℕ → KernelResult × Kernel × Paging → Outcome
map_outcome arch frame (result, k, t) =
    returned (return_result arch frame result) (record { kernel = k; paging = t })

-- The calls on processes, `none` for any other number.
abbrev pub process_call : Arch → Outside → System → ℕ → (id a1 a2 a3 : ℕ) → Option Outcome
process_call arch o s frame id a1 a2 a3 =
    if id == 0x0
    then some (result_outcome arch s frame (result_ok 1))
    else if id == 0x1
    then some (exit_outcome s (task_exit arch (mmu_of s.paging) s.kernel frame (a1 % 2 ^ 32)))
    else if id == 0x2
    then some (result_outcome arch s frame (result_ok (task_pid s.kernel)))
    else if id == 0x3
    then some (yield_outcome s (task_yield s.kernel (return_result arch frame (result_ok 0))))
    else if id == 0x4
    then some (dispatch_fork arch s frame)
    else if id == 0x5
    then some (dispatch_wait arch s frame a1 a2 a3)
    else if id == 0x6
    then some (handle_exec arch o.exec s frame a1 a2 a3)
    else none

-- The calls on files.
abbrev pub file_call : Outside → Mmu → Kernel → (id a1 a2 a3 a4 : ℕ) → Option Handled
file_call o mmu k id a1 a2 a3 a4 =
    if id == 0x100
    then some (handle_open mmu k a1 a2 a3)
    else if id == 0x101
    then some (handle_close k a1)
    else if id == 0x102
    then some (handle_read mmu k a1 a2 a3 o.typed)
    else if id == 0x103
    then some (handle_write mmu k a1 a2 a3)
    else if id == 0x104
    then some (handle_seek k a1 a2 a3)
    else if id == 0x105
    then some (handle_file_info mmu k a1 a2)
    else if id == 0x106
    then some (handle_read_dir mmu k o.stale a1 a2)
    else if id == 0x107
    then some (handle_mkdir mmu k a1 a2 a3)
    else if id == 0x108
    then some (handle_unlink mmu k a1 a2 false)
    else if id == 0x109
    then some (handle_unlink mmu k a1 a2 true)
    else if id == 0x10a
    then some (handle_rename o.depth mmu k a1 a2 a3 a4)
    else none

abbrev pub unmap_outcome : Arch → System → ℕ → KernelResult × Paging → Outcome
unmap_outcome arch s frame (result, t) =
    returned (return_result arch frame result) (record s { paging = t })

-- The calls on memory, and numbers that no call has.
abbrev pub memory_call : Arch → System → ℕ → (id a1 a2 : ℕ) → Outcome
memory_call arch s frame id a1 a2 =
    if id == 0x200
    then map_outcome arch frame (handle_map s.kernel s.paging a1 a2)
    else if id == 0x201
    then unmap_outcome arch s frame (handle_unmap s.kernel s.paging a1 a2)
    else result_outcome arch s frame (result_error narc_not_supported)

-- `argument i` is arch_syscall_arg(frame, i).
unfoldable pub dispatch : Arch → Outside → System → ℕ → (argument : ℕ → ℕ) → ℕ → Outcome
dispatch arch o s frame argument id =
    elim (process_call arch o s frame id (argument 0) (argument 1) (argument 2)) [
      | some outcome ↦ outcome
      | none ↦
          elim (file_call o (mmu_of s.paging) s.kernel id (argument 0) (argument 1) (argument 2)
            (argument 3)) [
              | some handled ↦ answered_by arch s frame handled
              | none ↦ memory_call arch s frame id (argument 0) (argument 1)
            ]
    ]

-- NARC_SYSCALL_TAG in the high half of the number, the id in the low half.
abbrev pub narc_syscall_tag : ℕ
narc_syscall_tag = 0x4e41524300000000

unfoldable pub syscall_dispatch :
    Arch → Outside → System → ℕ → (argument : ℕ → ℕ) (number : ℕ) → Outcome
syscall_dispatch arch o s frame argument number =
    if number - number % 2 ^ 32 == narc_syscall_tag
    then dispatch arch o s frame argument (number % 2 ^ 32)
    else result_outcome arch s frame (result_error narc_not_supported)
