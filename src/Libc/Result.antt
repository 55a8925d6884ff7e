-- ===== src/Libc/Result.antt =====
-- lib/libc/src/internal/result.c, with the numbers of lib/libc/include/errno.h: how a system call's
-- result becomes a C library function's result and errno.
pub mod Errno
use narc_os.Common.{ℕ, ◌==◌, if◌then◌else◌, Option, none, some}
use narc_os.Common.Int.{ℤ, negsuc}
use narc_os.Kernel.Syscall.{narc_invalid_argument, narc_bad_handle, narc_not_found, narc_io_error}
use narc_os.Kernel.Syscall.{narc_bad_address, narc_no_memory, narc_too_many_handles, narc_not_a_tty}
use narc_os.Kernel.Syscall.{
  narc_is_directory, narc_not_directory, narc_read_only, narc_not_supported,
}
use narc_os.Kernel.Syscall.{narc_no_child, narc_try_again, narc_exists, narc_no_space}
use narc_os.Kernel.Syscall.{narc_not_empty}
use narc_os.Kernel.Syscall.{narc_ok}

unfoldable pub status_errno : ℕ → ℕ
status_errno status =
    if status == narc_invalid_argument
    then 22
    else if status == narc_bad_handle
    then 9
    else if status == narc_not_found
    then 2
    else if status == narc_io_error
    then 5
    else if status == narc_bad_address
    then 14
    else if status == narc_no_memory
    then 12
    else if status == narc_too_many_handles
    then 24
    else if status == narc_not_a_tty
    then 25
    else if status == narc_is_directory
    then 21
    else if status == narc_not_directory
    then 20
    else if status == narc_read_only
    then 30
    else if status == narc_not_supported
    then 38
    else if status == narc_no_child
    then 10
    else if status == narc_try_again
    then 11
    else if status == narc_exists
    then 17
    else if status == narc_no_space
    then 28
    else if status == narc_not_empty
    then 39
    else 5

-- The result, and errno where it is set. `value` is narc_result_t's, on which `long` is 64 bits wide.
unfoldable pub libc_result : ℤ → ℕ → ℤ × Option ℕ
libc_result value status =
    if status == narc_ok then (value, none) else (negsuc 0, some (status_errno status))
