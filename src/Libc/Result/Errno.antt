-- ===== src/Libc/Result/Errno.antt =====
-- What a C program sees of mkdir, unlink and rmdir: kernel/syscall.c and lib/libc/src/internal/result.c
-- together, with the numbers of lib/libc/include/errno.h.
use narc_os.Common.{ℕ, ◌≡◌, refl, arith, Bool, false, ◌||◌, Option, none, some, List, []}
use narc_os.Common.{◌==◌, ◌!=◌, leb, has, ◌%◌, ◌^◌, if◌then◌else◌, inl, inr, Bool-cases}
use narc_os.Common.Int.{ℤ, pos, negsuc}
use narc_os.Kernel.Vfs.State
use narc_os.Kernel.Vfs.State.{Vfs, Status}
use narc_os.Kernel.Vfs.Ops.{vfs_mkdir, vfs_unlink}
use narc_os.Kernel.Task.State.{Kernel, Mmu}
use narc_os.Kernel.Syscall.{
  KernelResult, vfs_error, result_ok, result_error, narc_ok, narc_invalid_argument,
  narc_bad_address,
}
use narc_os.Kernel.Syscall.Copy.{copy_path}
use narc_os.Kernel.Syscall.Copy.Bytes.{IsMmu, user_bytes, copy_from_user-user_bytes}
use narc_os.Kernel.Syscall.Handlers.{status_result, after_vfs, handle_mkdir, handle_unlink}
use narc_os.Libc.Result.{status_errno, libc_result}

abbrev pub enoent : ℕ
enoent = 2

abbrev pub efault : ℕ
efault = 14

abbrev pub eexist : ℕ
eexist = 17

abbrev pub enotdir : ℕ
enotdir = 20

abbrev pub eisdir : ℕ
eisdir = 21

abbrev pub einval : ℕ
einval = 22

abbrev pub enospc : ℕ
enospc = 28

abbrev pub enotempty : ℕ
enotempty = 39

-- What the C library returns, and errno where it is set.
abbrev pub Seen : Type 0
Seen = ℤ × Option ℕ

-- -1 with that errno.
abbrev pub failed_with : ℕ → Seen
failed_with errno = (negsuc 0, some errno)

-- The outcome of an operation of the file system, as POSIX has it.
abbrev pub outcome : Status → Seen
outcome State.ok = (pos 0, none)
outcome State.not_found = failed_with enoent
outcome State.exists = failed_with eexist
outcome State.not_directory = failed_with enotdir
outcome State.is_directory = failed_with eisdir
outcome State.no_space = failed_with enospc
outcome State.not_empty = failed_with enotempty
outcome State.invalid = failed_with einval

-- The outcome of a call with a path in the user's memory: `call` is done on the path's bytes.
abbrev pub path_call : Mmu → Kernel → (address len : ℕ) → (List ℕ → Status) → Seen
path_call mmu k address len call =
    let path = user_bytes mmu k.active k.fs.ram address len in
    if len == 0 || leb 128 len
    then failed_with einval
    else if mmu.range_ok k.active address len false
    then (if has 0 path then failed_with einval else outcome (call path))
    else failed_with efault

-- A system call's result as the C library hands it on.
abbrev pub seen : KernelResult → Seen
seen r = libc_result (pos r.value) r.status

seen-status_result : (e : Status) → seen (status_result e) ≡ outcome e
unfolding libc_result status_errno vfs_error result_ok result_error status_result
seen-status_result State.ok = refl
seen-status_result State.not_found = refl
seen-status_result State.exists = refl
seen-status_result State.not_directory = refl
seen-status_result State.is_directory = refl
seen-status_result State.no_space = refl
seen-status_result State.not_empty = refl
seen-status_result State.invalid = refl

copy_path-eq :
    (mmu : Mmu) (k : Kernel) (address len : ℕ)
    → IsMmu mmu
    → let path = user_bytes mmu k.active k.fs.ram address len in
      copy_path mmu k address len ≡ (
        if len == 0 || leb 128 len
        then (narc_invalid_argument, [])
        else if mmu.range_ok k.active address len false
        then (if has 0 path then (narc_invalid_argument, []) else (narc_ok, path))
        else (narc_bad_address, []))
unfolding copy_path
copy_path-eq mmu k address len w =
    rw (copy_from_user-user_bytes mmu k address len w)
      (elim (Bool-cases (mmu.range_ok k.active address len false)) [
        | inl accepted ↦ rw accepted (ground arith)
        | inr refused ↦ rw refused (ground arith)
      ])

-- A handler that copies a path and then calls the file system.
path_handled :
    (mmu : Mmu) (k : Kernel) (address len : ℕ) (call : List ℕ → Status × Vfs)
    → IsMmu mmu
    → let (status, path) = copy_path mmu k address len in
      seen (if status != narc_ok then (result_error status, k) else after_vfs k (call path)).0
      ≡ path_call mmu k address len (λ path. (call path).0)
unfolding libc_result status_errno result_error
path_handled mmu k address len call w =
    let path = user_bytes mmu k.active k.fs.ram address len in
    rw (copy_path-eq mmu k address len w) (elim (Bool-cases (len == 0 || leb 128 len)) [
      | inl outside ↦ rw outside refl
      | inr inside ↦ elim (Bool-cases (mmu.range_ok k.active address len false)) [
        | inr refused ↦ rw (inside, refused) refl
        | inl accepted ↦ elim (Bool-cases (has 0 path)) [
          | inl cut ↦ rw (inside, accepted, cut) refl
          | inr whole ↦ rw (inside, accepted, whole) (seen-status_result (call path).0)
        ]
      ]
    ])

-- Where the page tables map every address of an accepted range, let what may be written be read too, and
-- map each page to contiguous memory, mkdir, unlink and rmdir return 0 or -1 with an errno: EINVAL for
-- a path that is empty, of 128 bytes or more, or with a zero byte in it, EFAULT for one in memory that
-- may not be read, and else what the file system answers for the path's bytes: ENOENT, EEXIST,
-- ENOTDIR, EISDIR, ENOSPC, ENOTEMPTY or EINVAL.
pub libc_result-path_call :
    (mmu : Mmu) (k : Kernel) (address len mode : ℕ) (remove_directory : Bool)
    → IsMmu mmu
    → (seen (handle_mkdir mmu k address len mode).0
        ≡ path_call mmu k address len (λ path. (vfs_mkdir k.fs (some path) (mode % 2 ^ 32)).0))
      × (seen (handle_unlink mmu k address len remove_directory).0
          ≡ path_call mmu k address len (λ path. (vfs_unlink k.fs (some path) remove_directory).0))
unfolding handle_mkdir handle_unlink
libc_result-path_call mmu k address len mode remove_directory w = (
  path_handled mmu k address len (λ path. vfs_mkdir k.fs (some path) (mode % 2 ^ 32)) w,
  path_handled mmu k address len (λ path. vfs_unlink k.fs (some path) remove_directory) w,
)
