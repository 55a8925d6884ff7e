-- ===== src/Kernel/Syscall.antt =====
-- kernel/syscall.c: here the results of system calls, vfs_error, result_ok and result_error, with
-- `enum narc_status` of include/narc/abi.h.
pub mod Copy
pub mod Handlers
pub mod Mapping
pub mod Dispatch
pub mod Tables
mod Tests
use narc_os.Common.{ℕ}
use narc_os.Kernel.Vfs.State
use narc_os.Kernel.Vfs.State.{Status}

abbrev pub narc_ok : ℕ
narc_ok = 0

abbrev pub narc_invalid_argument : ℕ
narc_invalid_argument = 1

abbrev pub narc_bad_handle : ℕ
narc_bad_handle = 2

abbrev pub narc_not_found : ℕ
narc_not_found = 3

abbrev pub narc_io_error : ℕ
narc_io_error = 4

abbrev pub narc_bad_address : ℕ
narc_bad_address = 5

abbrev pub narc_no_memory : ℕ
narc_no_memory = 6

abbrev pub narc_too_many_handles : ℕ
narc_too_many_handles = 7

abbrev pub narc_not_a_tty : ℕ
narc_not_a_tty = 8

abbrev pub narc_is_directory : ℕ
narc_is_directory = 9

abbrev pub narc_not_directory : ℕ
narc_not_directory = 10

abbrev pub narc_read_only : ℕ
narc_read_only = 11

abbrev pub narc_not_supported : ℕ
narc_not_supported = 12

abbrev pub narc_no_child : ℕ
narc_no_child = 13

abbrev pub narc_try_again : ℕ
narc_try_again = 14

abbrev pub narc_exists : ℕ
narc_exists = 15

abbrev pub narc_no_space : ℕ
narc_no_space = 16

abbrev pub narc_not_empty : ℕ
narc_not_empty = 17

-- `struct kernel_result`.
pub record KernelResult : Type 0 where
  pub value : ℕ
  pub status : ℕ

unfoldable pub result_ok : ℕ → KernelResult
result_ok value = record { value = value; status = narc_ok }

unfoldable pub result_error : ℕ → KernelResult
result_error status = record { value = 0; status = status }

unfoldable pub vfs_error : Status → ℕ
vfs_error State.not_found = narc_not_found
vfs_error State.exists = narc_exists
vfs_error State.not_directory = narc_not_directory
vfs_error State.is_directory = narc_is_directory
vfs_error State.no_space = narc_no_space
vfs_error State.not_empty = narc_not_empty
vfs_error State.ok = narc_invalid_argument
vfs_error State.invalid = narc_invalid_argument
