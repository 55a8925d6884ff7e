-- ===== src/Kernel/Syscall/Handlers.antt =====
-- The handlers of kernel/syscall.c over the file system and the descriptors: handle_read to
-- handle_read_dir. What serial_getc yields in each call of task_fd_read is an argument.
use narc_os.Common.{ℕ, zero, suc, ◌+◌, ◌-◌, ◌*◌, ◌%◌, ◌^◌, Bool, true, false, ◌&&◌, ◌||◌, not}
use narc_os.Common.{Option, none, some, List, [], ◌∷◌, ◌++◌, ◌==◌, ◌!=◌, ltb, leb, if◌then◌else◌}
use narc_os.Common.{get_or, length, drop, replicate, bit}
use narc_os.Common.Int.{ℤ, pos, negsuc}
use narc_os.Kernel.Vfs.State.{Vfs, File, Status, NodeType, is_dir, ok}
use narc_os.Kernel.Vfs.Content.{chunk_at, vfs_seek}
use narc_os.Kernel.Vfs.Ops.{
  vfs_file_info, vfs_readdir, Readdir, not_a_directory, at_end, entry, Dirent,
}
use narc_os.Kernel.Vfs.Ops.{vfs_mkdir, vfs_unlink, vfs_rename}
use narc_os.Kernel.Task.State.{Kernel, Mmu, put_fs, put_file}
use narc_os.Kernel.Task.Files.{fd_get}
use narc_os.Kernel.Task.Descriptors.{OpenResult, no_memory, refused, descriptor}
use narc_os.Kernel.Task.Descriptors.{
  task_fd_open, task_fd_file, task_fd_read, task_fd_write, task_fd_close, task_fd_valid,
}
use narc_os.Kernel.Syscall.{
  KernelResult, result_ok, result_error, vfs_error, narc_ok, narc_invalid_argument,
}
use narc_os.Kernel.Syscall.{
  narc_bad_handle, narc_not_found, narc_io_error, narc_bad_address, narc_no_memory,
}
use narc_os.Kernel.Syscall.{narc_is_directory, narc_not_directory}
use narc_os.Kernel.Syscall.Copy.{copy_to_user, copy_path, bytes_of}

-- `(int)w` and `(int64_t)w`.
abbrev pub signed : ℕ → ℕ → ℤ
signed half w = if ltb w half then pos w else negsuc (2 * half - 1 - w)

abbrev pub to_int : ℕ → ℤ
to_int w = signed (2 ^ 31) (w % 2 ^ 32)

-- What a handler leaves: its result and the kernel.
abbrev pub Handled : Type 0
Handled = KernelResult × Kernel

-- The result of a transfer that stops at an error.
abbrev pub stopped : ℕ → KernelResult
stopped done = if done != 0 then result_ok done else result_error narc_io_error

-- The calls' input, the first call's first.
abbrev pub typed_now : List (List ℕ) → List ℕ
typed_now [] = []
typed_now (t ∷ r) = t

abbrev pub typed_later : List (List ℕ) → List (List ℕ)
typed_later [] = []
typed_later (t ∷ r) = r

-- The loop of handle_read, with chunks of 512 bytes.
unfoldable pub read_rounds : ℕ → Mmu → Kernel → ℤ → (buffer done len : ℕ) → List (List ℕ) → Handled
read_rounds zero mmu k fd buffer done len typed = (result_ok done, k)
read_rounds (suc fuel) mmu k fd buffer done len typed =
    let want = if ltb 512 (len - done) then 512 else len - done in
    if not (ltb done len)
    then (result_ok done, k)
    else elim (task_fd_read k fd want (typed_now typed)) [
      | none ↦ (stopped done, k)
      | some (bytes, l) ↦
          let got = length bytes in
          let (copied, m) = copy_to_user mmu l (buffer + done) bytes in
          let rest = read_rounds fuel mmu m fd buffer (done + got) len (typed_later typed) in
          if got == 0
          then (result_ok done, l)
          else if not copied
          then (result_error narc_bad_address, m)
          else if ltb got want
          then (result_ok (done + got), m)
          else rest
    ]

-- Does the descriptor stand for a directory?
abbrev pub is_directory_fd : Kernel → ℤ → Bool
is_directory_fd k fd = elim (task_fd_file k fd) [
  | none ↦ false
  | some f ↦ is_dir (vfs_file_info k.fs f).type
]

unfoldable pub handle_read : Mmu → Kernel → (fd buffer len : ℕ) → List (List ℕ) → Handled
handle_read mmu k fd buffer len typed =
    if not (task_fd_valid k (to_int fd))
    then (result_error narc_bad_handle, k)
    else if is_directory_fd k (to_int fd)
    then (result_error narc_is_directory, k)
    else if not (mmu.range_ok k.active buffer len true)
    then (result_error narc_bad_address, k)
    else read_rounds len mmu k (to_int fd) buffer 0 len typed

-- The loop of handle_write, a chunk of a page in each round, from the page itself.
unfoldable pub write_rounds : ℕ → Mmu → Kernel → ℤ → (buffer done len : ℕ) → Handled
write_rounds zero mmu k fd buffer done len = (result_ok done, k)
write_rounds (suc fuel) mmu k fd buffer done len =
    let ptr = buffer + done in
    let p = mmu.phys k.active ptr in
    let chunk = chunk_at ptr (len - done) in
    let (wrote, l) = task_fd_write k fd (λ i. k.fs.ram (p + i)) chunk in
    if not (ltb done len)
    then (result_ok done, k)
    else if p == 0
    then (result_error narc_bad_address, k)
    else elim wrote [
      | none ↦ (stopped done, l)
      | some n ↦
          let rest = write_rounds fuel mmu l fd buffer (done + n) len in
          if ltb n chunk then (result_ok (done + n), l) else rest
    ]

unfoldable pub handle_write : Mmu → Kernel → (fd buffer len : ℕ) → Handled
handle_write mmu k fd buffer len =
    if not (task_fd_valid k (to_int fd))
    then (result_error narc_bad_handle, k)
    else if not (mmu.range_ok k.active buffer len false)
    then (result_error narc_bad_address, k)
    else write_rounds len mmu k (to_int fd) buffer 0 len

-- Flags outside the known seven, no access asked for, or a truncation without writing.
abbrev pub bad_flags : ℕ → Bool
bad_flags flags =
    leb (2 ^ 7) flags || not (bit flags 0 || bit flags 1) || (bit flags 4 && not (bit flags 1))

abbrev pub flag_of : ℕ → ℕ → ℕ
flag_of flags n = if bit flags n then 2 ^ n else 0

-- NARC_OPEN_ and VFS_OPEN_ number the same bits.
abbrev pub native_flags : ℕ → ℕ
native_flags flags =
    flag_of flags 0
    + flag_of flags 1
    + flag_of flags 2
    + flag_of flags 3
    + flag_of flags 4
    + flag_of flags 5
    + flag_of flags 6

abbrev pub open_result : OpenResult × Kernel → Handled
open_result (no_memory, k) = (result_error narc_no_memory, k)
open_result (refused status, k) = (result_error (vfs_error status), k)
open_result (descriptor fd, k) = (result_ok fd, k)

unfoldable pub handle_open : Mmu → Kernel → (address len flags : ℕ) → Handled
handle_open mmu k address len flags =
    let (status, path) = copy_path mmu k address len in
    if len == 0 || leb 128 len || bad_flags flags
    then (result_error narc_invalid_argument, k)
    else if status != narc_ok
    then (result_error status, k)
    else if get_or path 0 0 != b'/'
    then (result_error narc_not_found, k)
    else open_result (task_fd_open k (some path) (native_flags flags))

-- What a status of the file system becomes.
unfoldable pub status_result : Status → KernelResult
status_result ok = result_ok 0
status_result e = result_error (vfs_error e)

abbrev pub after_vfs : Kernel → Status × Vfs → Handled
after_vfs k (status, s) = (status_result status, put_fs k s)

unfoldable pub handle_mkdir : Mmu → Kernel → (address len mode : ℕ) → Handled
handle_mkdir mmu k address len mode =
    let (status, path) = copy_path mmu k address len in
    if status != narc_ok
    then (result_error status, k)
    else after_vfs k (vfs_mkdir k.fs (some path) (mode % 2 ^ 32))

unfoldable pub handle_unlink : Mmu → Kernel → (address len : ℕ) → Bool → Handled
handle_unlink mmu k address len remove_directory =
    let (status, path) = copy_path mmu k address len in
    if status != narc_ok
    then (result_error status, k)
    else after_vfs k (vfs_unlink k.fs (some path) remove_directory)

-- `depth` bounds the tree's depth for vfs_rename.
unfoldable pub handle_rename :
    (depth : ℕ) → Mmu → Kernel → (old_address old_len new_address new_len : ℕ) → Handled
handle_rename depth mmu k old_address old_len new_address new_len =
    let (old_status, old_path) = copy_path mmu k old_address old_len in
    let (new_status, new_path) = copy_path mmu k new_address new_len in
    if old_status != narc_ok
    then (result_error old_status, k)
    else if new_status != narc_ok
    then (result_error new_status, k)
    else after_vfs k (vfs_rename depth k.fs (some old_path) (some new_path))

unfoldable pub handle_close : Kernel → ℕ → Handled
handle_close k fd =
    let (closed, l) = task_fd_close k (to_int fd) in
    if closed then (result_ok 0, l) else (result_error narc_bad_handle, l)

-- The file of an open file, written back.
abbrev pub set_file : Kernel → ℤ → File → Kernel
set_file k fd f =
    let p = fd_get k fd in put_file k p (let v = k.open_file p in record v { file = f })

unfoldable pub handle_seek : Kernel → (fd offset origin : ℕ) → Handled
handle_seek k fd offset origin =
    if ltb 2 origin
    then (result_error narc_invalid_argument, k)
    else elim (task_fd_file k (to_int fd)) [
      | none ↦ (result_error narc_bad_handle, k)
      | some f ↦ elim (vfs_seek k.fs f (signed (2 ^ 63) offset) origin) [
        | none ↦ (result_error narc_invalid_argument, k)
        | some (value, g) ↦ (result_ok value, set_file k (to_int fd) g)
      ]
    ]

-- NARC_FILE_REGULAR, NARC_FILE_DIRECTORY, NARC_FILE_CHARACTER.
abbrev pub file_type : NodeType → ℕ
file_type t = if is_dir t then 2 else 1

abbrev pub file_character : ℕ
file_character = 3

-- The bytes of a narc_file_info_t.
abbrev pub file_info_bytes : (inode size mode type : ℕ) → List ℕ
file_info_bytes inode size mode type =
    bytes_of 8 inode ++ bytes_of 8 size ++ bytes_of 4 mode ++ type ∷ replicate 3 0

abbrev pub info_of : Kernel → Option File → List ℕ
info_of k none = file_info_bytes 0 0 (0o20000 + 0o666) file_character
info_of k (some f) =
    let info = vfs_file_info k.fs f in
    file_info_bytes info.ino info.size info.mode (file_type info.type)

unfoldable pub handle_file_info : Mmu → Kernel → (fd address : ℕ) → Handled
handle_file_info mmu k fd address =
    let (copied, l) = copy_to_user mmu k address (info_of k (task_fd_file k (to_int fd))) in
    if not (task_fd_valid k (to_int fd))
    then (result_error narc_bad_handle, k)
    else if copied
    then (result_ok 0, l)
    else (result_error narc_bad_address, l)

-- The bytes of a narc_dir_entry_t. vfs_readdir fills in the name with its terminator; the rest of the
-- 64 bytes is `stale`, what the stack held.
abbrev pub entry_bytes : List ℕ → Dirent → List ℕ
entry_bytes stale e =
    bytes_of 8 e.ino
    ++ file_type e.type ∷ (e.name ++ 0 ∷ drop (length e.name + 1) stale)
    ++ replicate 7 0

abbrev pub read_entry : Mmu → Kernel → List ℕ → ℕ → ℕ → Readdir → Handled
read_entry mmu k stale fd address not_a_directory = (result_error narc_io_error, k)
read_entry mmu k stale fd address at_end = (result_ok 0, k)
read_entry mmu k stale fd address (entry e f) =
    let (copied, l) = copy_to_user mmu (set_file k (to_int fd) f) address (entry_bytes stale e) in
    if copied then (result_ok 1, l) else (result_error narc_bad_address, l)

unfoldable pub handle_read_dir : Mmu → Kernel → List ℕ → (fd address : ℕ) → Handled
handle_read_dir mmu k stale fd address = elim (task_fd_file k (to_int fd)) [
  | none ↦ (
    result_error (if task_fd_valid k (to_int fd) then narc_not_directory else narc_bad_handle),
    k,
  )
  | some f ↦
      if is_dir (vfs_file_info k.fs f).type
      then read_entry mmu k stale fd address (vfs_readdir k.fs f)
      else (result_error narc_not_directory, k)
]
