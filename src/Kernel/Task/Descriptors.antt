-- ===== src/Kernel/Task/Descriptors.antt =====
-- The descriptor operations of kernel/task.c on the current task. `none` is a result of -1. The bytes
-- that a read puts into the buffer are part of its result. What serial_getc yields is an argument;
-- what goes to the console's screen is left out.
pub mod Refs
use narc_os.Common.{
  ℕ, zero, suc, ◌+◌, ◌-◌, ◌%◌, ◌^◌, Bool, true, false, ◌&&◌, ◌||◌, not, Option, none, some,
}
use narc_os.Common.{
  List, [], ◌∷◌, ◌++◌, ◌==◌, ◌!=◌, ltb, leb, if◌then◌else◌, length, get_or, set, take, drop,
}
use narc_os.Common.Int.{ℤ, pos, negsuc}
use narc_os.Kernel.Vfs.State.{Vfs, File, Status, ok, answer, answered, alloc_page}
use narc_os.Kernel.Vfs.Ops.{vfs_open, Opened}
use narc_os.Kernel.Vfs.Content.{vfs_read, vfs_write}
use narc_os.Kernel.Task.Pipe
use narc_os.Kernel.Task.Pipe.{Pipe, smaller}
use narc_os.Kernel.Task.State.{
  Task, Kernel, OpenFile, FileType, console, vfs, pipe_read, pipe_write,
}
use narc_os.Kernel.Task.State.{put_file, put_pipe, put_fs, int_max, succ32}
use narc_os.Kernel.Task.Files.{file_new, file_put, fd_install, fd_reserve, fd_get, set_fds, opened}

-- -2 (no memory or descriptor), -1 with the file system's status, or the descriptor.
pub data OpenResult : Type 0 where
  no_memory : OpenResult
  refused : Status → OpenResult
  descriptor : ℕ → OpenResult

abbrev pub installed_or_put : Kernel → ℕ → OpenResult × Kernel
installed_or_put k p =
    let (fd, l) = fd_install k k.current p 3 in
    elim fd [ none ↦ (no_memory, file_put l p) | some n ↦ (descriptor n, l) ]

abbrev pub keep_open : Kernel → ℕ → Opened → OpenResult × Kernel
keep_open k p (status, none, s) = (refused status, put_fs k s)
keep_open k p (status, some f, s) =
    installed_or_put (put_fs (put_file k p (let v = k.open_file p in record v { file = f })) s) p

-- vfs_open fills in a file exactly when its status is VFS_OK.
unfoldable pub task_fd_open : Kernel → Option (List ℕ) → ℕ → OpenResult × Kernel
task_fd_open k path flags =
    let (p, k') = file_new k vfs in
    if p == 0 then (no_memory, k') else keep_open k' p (vfs_open k'.fs path flags)

abbrev pub vfs_file : OpenFile → Option File
vfs_file v = elim v.type [ vfs ↦ some v.file | _ ↦ none ]

unfoldable pub task_fd_file : Kernel → ℤ → Option File
task_fd_file k fd = let p = fd_get k fd in if p == 0 then none else vfs_file (k.open_file p)

-- What is typed: the bytes of the line so far, at most 256, with erasure. The line ends with a
-- newline, or when it is full; the bytes not yet read from the device come second.
unfoldable pub read_line : List ℕ → List ℕ → List ℕ × List ℕ
read_line line [] = (line, [])
read_line line (c ∷ r) =
    let b = if c == 13 then 10 else c in
    let erase = b == 8 || b == 127 in
    let next = if erase then take (length line - 1) line else line ++ b ∷ [] in
    let rest = read_line next r in
    if leb 256 (length line)
    then (line, c ∷ r)
    else if not erase && b == 10
    then (next, r)
    else rest

abbrev pub refill : List ℕ → List ℕ → List ℕ
refill [] typed = (read_line [] typed).0
refill (c ∷ r) typed = c ∷ r

-- The console's branch of task_fd_read.
unfoldable pub console_read : Kernel → ℕ → List ℕ → List ℕ × Kernel
console_read k len typed =
    let filled = refill k.input typed in
    let done = smaller len (length filled) in
    (take done filled, record k { input = drop done filled })

abbrev pub read_vfs : Kernel → ℕ → ℕ → Option (List ℕ × Kernel)
read_vfs k p len =
    let v = k.open_file p in
    elim (vfs_read k.fs v.file len) [
      | none ↦ none
      | some (bytes, f) ↦ some (bytes, put_file k p (record v { file = f }))
    ]

abbrev pub read_pipe : Kernel → ℕ → ℕ → List ℕ × Kernel
read_pipe k p len =
    let q = (k.open_file p).pipe in
    let (bytes, v) = Pipe.pipe_read (k.pipe q) len in (bytes, put_pipe k q v)

-- `typed` is what serial_getc yields.
unfoldable pub task_fd_read : Kernel → ℤ → ℕ → (typed : List ℕ) → Option (List ℕ × Kernel)
task_fd_read k fd len typed =
    let p = fd_get k fd in
    if p == 0 then none else elim (k.open_file p).type [
      | vfs ↦ read_vfs k p len
      | console ↦ some (console_read k len typed)
      | pipe_read ↦ some (read_pipe k p len)
      | pipe_write ↦ none
    ]

abbrev pub write_vfs : Kernel → ℕ → (ℕ → ℕ) → ℕ → Option ℕ × Kernel
write_vfs k p buffer len =
    let v = k.open_file p in
    let (count, f, s) = vfs_write k.fs v.file buffer len in
    (count, put_fs (put_file k p (record v { file = f })) s)

abbrev pub write_pipe : Kernel → ℕ → (ℕ → ℕ) → ℕ → Option ℕ × Kernel
write_pipe k p buffer len =
    let q = (k.open_file p).pipe in
    let (count, v) = Pipe.pipe_write (k.pipe q) buffer len in (some count, put_pipe k q v)

unfoldable pub task_fd_write : Kernel → ℤ → (ℕ → ℕ) → ℕ → Option ℕ × Kernel
task_fd_write k fd buffer len =
    let p = fd_get k fd in
    if p == 0 then (none, k) else elim (k.open_file p).type [
      | console ↦ (some len, k)
      | vfs ↦ write_vfs k p buffer len
      | pipe_write ↦ write_pipe k p buffer len
      | pipe_read ↦ (none, k)
    ]

abbrev pub set_fd : Kernel → ℕ → ℕ → Kernel
set_fd k fd p = set_fds k k.current (set (k.task k.current).fds fd p)

-- `true` is a result of 0.
unfoldable pub task_fd_close : Kernel → ℤ → Bool × Kernel
task_fd_close k (negsuc n) = (false, k)
task_fd_close k (pos fd) =
    let p = fd_get k (pos fd) in if p == 0 then (false, k) else (true, file_put (set_fd k fd 0) p)

unfoldable pub task_fd_valid : Kernel → ℤ → Bool
task_fd_valid k fd = fd_get k fd != 0

abbrev pub add_ref : Kernel → ℕ → Kernel
add_ref k p = put_file k p (let v = k.open_file p in record v { refs = succ32 v.refs })

abbrev pub installed : Option ℕ → Kernel → ℕ → Option ℕ × Kernel
installed none l p = (none, l)
installed (some n) l p = (some n, add_ref l p)

unfoldable pub task_fd_dup : Kernel → ℤ → ℤ → Option ℕ × Kernel
task_fd_dup k oldfd (negsuc n) = (none, k)
task_fd_dup k oldfd (pos minimum) =
    let p = fd_get k oldfd in
    let (fd, l) = fd_install k k.current p minimum in if p == 0 then (none, k) else installed fd l p

-- The descriptor's old file is put before the new one takes its place.
unfoldable pub dup_to : Kernel → ℕ → ℕ → Option ℕ × Kernel
dup_to k p newfd =
    let (done, l) = fd_reserve k k.current newfd in
    let m = add_ref l p in
    if done
    then (some newfd, set_fd (file_put m (get_or (m.task m.current).fds newfd 0)) newfd p)
    else (none, l)

abbrev pub is_fd : ℤ → ℕ → Bool
is_fd (pos n) fd = n == fd
is_fd (negsuc n) fd = false

unfoldable pub task_fd_dup2 : Kernel → ℤ → ℤ → Option ℕ × Kernel
task_fd_dup2 k oldfd (negsuc n) = (none, k)
task_fd_dup2 k oldfd (pos newfd) =
    let p = fd_get k oldfd in
    let (fd, l) = dup_to k p newfd in
    let same = is_fd oldfd newfd in
    if p == 0 then (none, k) else if same then (some newfd, k) else (fd, l)

abbrev pub set_pipe : Kernel → ℕ → ℕ → Kernel
set_pipe k p q = put_file k p (let v = k.open_file p in record v { pipe = q })

-- task_fd_pipe once everything is allocated: the descriptors for reading and writing.
unfoldable pub install_pipe : Kernel → (q r w : ℕ) → Option (ℕ × ℕ) × Kernel
install_pipe k q r w =
    let linked = set_pipe (set_pipe k r q) w q in
    let (a, l) = fd_install linked linked.current r 0 in
    elim a [
      | none ↦ (none, file_put (file_put l r) w)
      | some in_fd ↦
          let (b, m) = fd_install l l.current w 0 in
          elim b [
            | none ↦ (none, file_put (file_put (set_fd m in_fd 0) r) w)
            | some out_fd ↦ (some (in_fd, out_fd), m)
          ]
    ]

abbrev pub empty_pipe : ℕ → Pipe
empty_pipe page = record { refs = 2; head = 0; count = 0; page = page; bytes = λ i. 0 }

-- The allocations come in the order of the declarations: the pipe, both files, then the page.
unfoldable pub task_fd_pipe : Kernel → Option (ℕ × ℕ) × Kernel
task_fd_pipe k =
    let q = answer k.fs in
    let (r, k1) = file_new (put_fs k (answered k.fs)) pipe_read in
    let (w, k2) = file_new k1 pipe_write in
    let page = if q == 0 then 0 else answer k2.fs in
    let k3 = if q == 0 then k2 else put_fs k2 (alloc_page k2.fs) in
    let freed = if page == 0 then k3 else put_fs k3 (record k3.fs { freed = page ∷ k3.fs.freed }) in
    if q == 0 || page == 0 || r == 0 || w == 0
    then (none, freed)
    else install_pipe (put_pipe k3 q (empty_pipe page)) q r w
