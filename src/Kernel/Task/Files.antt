-- ===== src/Kernel/Task/Files.antt =====
-- Open files and descriptor tables in kernel/task.c: file_new, pipe_put, file_put, fd_reserve,
-- fd_install, close_all, init_fds, fd_get. `none` is a result of -1. A descriptor that is an `int`
-- argument of a system call is an integer.
pub mod Install
pub mod Table
use narc_os.Common.{
  ℕ, zero, suc, ◌+◌, ◌-◌, ◌*◌, ◌/◌, Bool, true, false, ◌&&◌, not, Option, none, some,
}
use narc_os.Common.{
  List, [], ◌∷◌, ◌++◌, ◌==◌, ◌!=◌, ltb, leb, if◌then◌else◌, length, get_or, set, replicate,
}
use narc_os.Common.Int.{ℤ, pos, negsuc}
use narc_os.Kernel.Vfs.State.{Vfs, answer, answered}
use narc_os.Kernel.Vfs.Ops.{vfs_close}
use narc_os.Kernel.Task.Pipe.{Pipe}
use narc_os.Kernel.Task.State.{
  Task, Kernel, OpenFile, FileType, console, vfs, pipe_read, pipe_write,
}
use narc_os.Kernel.Task.State.{put_task, put_file, put_pipe, put_fs, int_max, pred32}

abbrev pub opened : FileType → OpenFile
opened type = record {
  refs = 1;
  type = type;
  pipe = 0;
  file = record { node = 0; offset = 0; flags = 0 };
}

-- Null on failure.
unfoldable pub file_new : Kernel → FileType → ℕ × Kernel
file_new k type =
    let p = answer k.fs in
    let k' = put_fs k (answered k.fs) in
    if p == 0 then (0, k') else (p, put_file k' p (opened type))

-- The page goes back; that the pipe's own memory does is left out.
unfoldable pub pipe_put : Kernel → ℕ → Kernel
pipe_put k p =
    let v = k.pipe p in
    let refs = pred32 v.refs in
    let k' = put_pipe k p (record v { refs = refs }) in
    if refs == 0 then put_fs k' (record k'.fs { freed = v.page ∷ k'.fs.freed }) else k'

abbrev pub close_vfs : Kernel → ℕ → FileType → Kernel
close_vfs k p vfs =
    let v = k.open_file p in
    let (f, s) = vfs_close k.fs v.file in put_fs (put_file k p (record v { file = f })) s
close_vfs k p _ = k

unfoldable pub file_put : Kernel → ℕ → Kernel
file_put k p =
    let v = k.open_file p in
    let refs = pred32 v.refs in
    let k' = put_file k p (record v { refs = refs }) in
    let closed = close_vfs k' p v.type in
    if p == 0
    then k
    else if refs != 0
    then k'
    else if v.pipe == 0
    then closed
    else pipe_put closed v.pipe

-- `while (count <= fd)`: thirty-two rounds take any count to INT32_MAX.
unfoldable pub grow : ℕ → ℕ → ℕ → ℕ
grow zero count fd = count
grow (suc fuel) count fd =
    let rest = grow fuel (if ltb (int_max / 2) count then int_max else count * 2) fd in
    if leb count fd then rest else count

abbrev pub initial_count : List ℕ → ℕ
initial_count fds = if length fds != 0 then length fds else 8

abbrev pub set_fds : Kernel → ℕ → List ℕ → Kernel
set_fds k t fds = put_task k t (let v = k.task t in record v { fds = fds })

-- The table with null pointers up to the new count. krealloc's result is an answer.
unfoldable pub fd_reserve : Kernel → ℕ → ℕ → Bool × Kernel
fd_reserve k t fd =
    let fds = (k.task t).fds in
    let count = grow 32 (initial_count fds) fd in
    let k' = put_fs k (answered k.fs) in
    if ltb fd (length fds)
    then (true, k)
    else if fd == int_max
    then (false, k)
    else if answer k.fs == 0
    then (false, k')
    else (true, set_fds k' t (fds ++ replicate (count - length fds) 0))

-- `while (fd < task->fd_count && task->fds[fd]) fd++`, with the table's length as fuel.
unfoldable pub skip_used : ℕ → List ℕ → ℕ → ℕ
skip_used zero fds fd = fd
skip_used (suc fuel) fds fd =
    let rest = skip_used fuel fds (fd + 1) in
    if ltb fd (length fds) && get_or fds fd 0 != 0 then rest else fd

unfoldable pub fd_install : Kernel → ℕ → ℕ → ℕ → Option ℕ × Kernel
fd_install k t p minimum =
    let fd = skip_used (length (k.task t).fds) (k.task t).fds minimum in
    let (done, k') = fd_reserve k t fd in
    if done then (some fd, set_fds k' t (set (k'.task t).fds fd p)) else (none, k')

-- The loop of close_all, over the table's entries.
unfoldable pub put_all : Kernel → List ℕ → Kernel
put_all k [] = k
put_all k (p ∷ r) = put_all (file_put k p) r

unfoldable pub close_all : Kernel → ℕ → Kernel
close_all k t = set_fds (put_all k (k.task t).fds) t []

-- `n` rounds from descriptor `fd` on; the last argument says that the rounds before went well.
unfoldable pub init_from : ℕ → ℕ → Kernel → ℕ → Bool × Kernel
init_from zero fd k t = (true, k)
init_from (suc n) fd k t =
    let (p, k') = file_new k console in
    let (installed, l) = fd_install k' t p fd in
    let failed = if p == 0 then k' else l in
    let rest = init_from n (fd + 1) l t in
    if p == 0 then (false, close_all (file_put failed p) t) else elim installed [
      | none ↦ (false, close_all (file_put failed p) t)
      | some at ↦ if at == fd then rest else (false, close_all (file_put failed p) t)
    ]

unfoldable pub init_fds : Kernel → ℕ → Bool × Kernel
init_fds k t = init_from 3 0 k t

-- The open file behind a descriptor of the current task, null if there is none.
unfoldable pub fd_get : Kernel → ℤ → ℕ
fd_get k (pos fd) = get_or (k.task k.current).fds fd 0
fd_get k (negsuc n) = 0
