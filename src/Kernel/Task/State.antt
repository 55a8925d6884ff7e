-- ===== src/Kernel/Task/State.antt =====
-- The data of kernel/task.c. Pointers to tasks, open files and pipes are addresses, 0 the null
-- pointer; `task_list` and the `next` fields are the list of the tasks' addresses, `fds` and
-- `fd_count` the list of the pointers in the table. What the allocators return are the answers of
-- the file system's state, in the order of the calls. A frame, and what arch_task_state_save saves,
-- are opaque numbers.
use narc_os.Common.{ℕ, ◌+◌, ◌-◌, ◌%◌, ◌^◌, Bool, true, false, List, [], ◌==◌, if◌then◌else◌}
use narc_os.Kernel.Vfs.State.{Vfs, File}
use narc_os.Kernel.Task.Pipe.{Pipe}

-- TASK_UNUSED, TASK_RUNNABLE, TASK_BLOCKED, TASK_ZOMBIE.
pub data TaskState : Type 0 where
  unused runnable blocked zombie : TaskState

-- FD_CONSOLE, FD_VFS, FD_PIPE_R, FD_PIPE_W.
pub data FileType : Type 0 where
  console vfs pipe_read pipe_write : FileType

-- `struct open_file`.
pub record OpenFile : Type 0 where
  pub refs : ℕ
  pub type : FileType
  pub pipe : ℕ
  pub file : File

-- `struct task`. The `int` fields are numbers; `wait_any` stands for a `wait_pid` of -1.
pub record Task : Type 0 where
  pub pid : ℕ
  pub ppid : ℕ
  pub state : TaskState
  pub exit_status : ℕ
  pub wait_any : Bool
  pub wait_pid : ℕ
  pub wait_status : ℕ
  pub space : ℕ
  pub frame : ℕ
  pub fs_base : ℕ
  pub mmap_next : ℕ
  pub arch_state : ℕ
  pub fds : List ℕ

-- The variables of task.c with the stores that its pointers lead to, and the registers: the active
-- address space, the thread pointer, and what arch_task_state_save would save. `halted` holds once
-- arch_halt was called. `input` is the console's bytes from `input_pos` up to `input_count`, and
-- `destroyed` the address spaces given to vmm_space_destroy, the latest first.
pub record Kernel : Type 0 where
  pub task : ℕ → Task
  pub task_list : List ℕ
  pub next_pid : ℕ
  pub current : ℕ
  pub open_file : ℕ → OpenFile
  pub pipe : ℕ → Pipe
  pub fs : Vfs
  pub active : ℕ
  pub tls : ℕ
  pub cpu : ℕ
  pub halted : Bool
  pub input : List ℕ
  pub destroyed : List ℕ

-- The architecture's functions on frames and saved states (kernel/arch).
pub record Arch : Type 0 where
  pub frame_init : ℕ
  pub set_entry : ℕ → ℕ → ℕ → ℕ
  pub return2 : ℕ → ℕ → ℕ → ℕ
  pub state_init : ℕ

-- The functions on address spaces that task.c calls: vmm_user_range_ok and vmm_user_phys.
pub record Mmu : Type 0 where
  pub range_ok : ℕ → ℕ → ℕ → Bool → Bool
  pub phys : ℕ → ℕ → ℕ

abbrev pub put_task : Kernel → ℕ → Task → Kernel
put_task k t v = record k { task = λ q. if q == t then v else k.task q }

abbrev pub put_file : Kernel → ℕ → OpenFile → Kernel
put_file k p v = record k { open_file = λ q. if q == p then v else k.open_file q }

abbrev pub put_pipe : Kernel → ℕ → Pipe → Kernel
put_pipe k p v = record k { pipe = λ q. if q == p then v else k.pipe q }

abbrev pub put_fs : Kernel → Vfs → Kernel
put_fs k s = record k { fs = s }

-- What kzalloc leaves in a task.
abbrev pub zero_task : Task
zero_task = record {
  pid = 0;
  ppid = 0;
  state = unused;
  exit_status = 0;
  wait_any = false;
  wait_pid = 0;
  wait_status = 0;
  space = 0;
  frame = 0;
  fs_base = 0;
  mmap_next = 0;
  arch_state = 0;
  fds = [];
}

-- INT32_MAX, and `USER_MMAP_BASE`.
abbrev pub int_max : ℕ
int_max = 2 ^ 31 - 1

abbrev pub user_mmap_base : ℕ
user_mmap_base = 2 ^ 32

-- `++n` and `--n` on an `int`, as its bits.
abbrev pub succ32 : ℕ → ℕ
succ32 n = (n + 1) % 2 ^ 32

abbrev pub pred32 : ℕ → ℕ
pred32 n = (n + 2 ^ 32 - 1) % 2 ^ 32

abbrev pub is_runnable : Task → Bool
is_runnable t = elim t.state [ runnable ↦ true | _ ↦ false ]

abbrev pub is_blocked : Task → Bool
is_blocked t = elim t.state [ blocked ↦ true | _ ↦ false ]

abbrev pub is_zombie : Task → Bool
is_zombie t = elim t.state [ zombie ↦ true | _ ↦ false ]
