-- ===== src/Kernel/Syscall/Tests.antt =====
-- A system with one page of a user: address 0 is mapped to the physical page at 20480.
use narc_os.Common.{bytes_eq, has}
use narc_os.Common.Int.{negsuc}
use narc_os.Kernel.Vfs.Path.{
  lookup_parent, lookup_parent_at, trim_end, name_start, walk, walk_loop, step, child_named,
  child_in, name_eq, skip_slashes, component, after_component,
}
use narc_os.Kernel.Vfs.Nodes.{new_node, attach}
use narc_os.Kernel.Vfs.Ops.{vfs_mkdir, mkdir_in, vfs_unlink, unlink_in}
use narc_os.Kernel.Syscall.Handlers.{handle_mkdir, handle_unlink}
use narc_os.Libc.Result.Errno.{seen, libc_result-path_call}
use narc_os.Common.{◌+◌, ℕ, true, ◌%◌, ◌≤◌, ◌≢◌}
use narc_os.Kernel.Pages.{page}
use narc_os.Kernel.Task.State.{Mmu}
use narc_os.Kernel.Syscall.Copy.{copy_to_user}
use narc_os.Kernel.Syscall.Copy.Back.{IsUnshared, copy_from_user-copy_to_user}
use narc_os.Common.{◌≡◌, refl, arith, false, none, some, [], ◌∷◌, ◌==◌, if◌then◌else◌}
use narc_os.Common.Ranges.{bytes_from}
use narc_os.Kernel.Paging.{
  Paging, get_pte, next_table, pages_ok, pte_value, vmm_user_phys, vmm_user_range_ok, walk_tables,
}
use narc_os.Kernel.Vfs.State.{Vfs, dir, fresh_node}
use narc_os.Kernel.Task.State.{Kernel, console, zero_task}
use narc_os.Kernel.Syscall.Copy.{copy_from_user, from_pages, copy_string}
use narc_os.Kernel.Syscall.Copy.Bytes.{IsMmu, user_bytes, copy_from_user-user_bytes}
use narc_os.Kernel.Syscall.Dispatch.{mmu_of}
use narc_os.Kernel.Syscall.Tables.{SparesZero, mmu_of-IsMmu}

abbrev tables : Paging
tables = record {
  pages = record {
    map = [];
    next_phys = 24576;
    region_end = 24576;
    free_head = 0;
    word = λ a.
        if a == 4096
        then 8199
        else if a == 8192
        then 12295
        else if a == 12288
        then 16391
        else if a == 16384
        then 20487
        else 0;
  };
  cr3 = 4096;
  current = 4096;
}

abbrev files : Vfs
files = record {
  node = λ p. fresh_node [] 1 dir 0o40755;
  live = λ p. p == 1;
  root = 1;
  next_inode = 2;
  tar_data = λ i. 0;
  tar_size = 0;
  ram = λ a. if a == 20482 then b'/' else if a == 20483 then b'a' else 0;
  freed = [];
  answers = [];
}

abbrev running : Kernel
running = record {
  task = λ t. zero_task;
  task_list = [];
  next_pid = 1;
  current = 0;
  open_file = λ p. record {
    refs = 0;
    type = console;
    pipe = 0;
    file = record { node = 0; offset = 0; flags = 0 };
  };
  pipe = λ p. record { refs = 0; head = 0; count = 0; page = 0; bytes = λ i. 0 };
  fs = files;
  active = 4096;
  tls = 0;
  cpu = 0;
  halted = false;
  input = [];
  destroyed = [];
}

tables-SparesZero : SparesZero tables
tables-SparesZero a h = ground (arith, h)

copy_from_user-user_bytes_example : copy_from_user (mmu_of tables) running 2 2 ≡ (
    if vmm_user_range_ok tables 4096 2 2 false
    then some (user_bytes (mmu_of tables) 4096 files.ram 2 2)
    else none)
copy_from_user-user_bytes_example =
    copy_from_user-user_bytes (mmu_of tables) running 2 2 (mmu_of-IsMmu tables tables-SparesZero)

path_copied : copy_string (mmu_of tables) running 2 128 ≡ some (b'/' ∷ b'a' ∷ [])
unfolding copy_string copy_from_user from_pages vmm_user_range_ok vmm_user_phys pages_ok pte_value
    get_pte walk_tables next_table bytes_from
path_copied = refl

-- Addresses on one page are different places.
on_page-IsUnshared :
    (mmu : Mmu) (space a n : ℕ)
    → IsMmu mmu
    → mmu.phys space a ≢ 0
    → a % page + n ≤ page
    → IsUnshared mmu space a n
on_page-IsUnshared mmu space a n w here fits i j li lj e =
    let x = w.contiguous space a i here (omega (arith, li, fits)) in
    let y = w.contiguous space a j here (omega (arith, lj, fits)) in omega (arith, x, y, e)

writable_range : vmm_user_range_ok tables 4096 2 2 true ≡ true
unfolding vmm_user_range_ok pages_ok pte_value get_pte walk_tables next_table
writable_range = refl

phys_of_two : vmm_user_phys tables 4096 2 ≡ 20482
unfolding vmm_user_phys pte_value get_pte walk_tables next_table
phys_of_two = refl

copy_from_user-copy_to_user_example :
    let (done, l) = copy_to_user (mmu_of tables) running 2 (b'o' ∷ b'k' ∷ []) in
    (done ≡ true) × (copy_from_user (mmu_of tables) l 2 2 ≡ some (b'o' ∷ b'k' ∷ []))
copy_from_user-copy_to_user_example =
    copy_from_user-copy_to_user (mmu_of tables) running 2 (b'o' ∷ b'k' ∷ [])
      (mmu_of-IsMmu tables tables-SparesZero) writable_range
      (on_page-IsUnshared (mmu_of tables) 4096 2 2 (mmu_of-IsMmu tables tables-SparesZero)
        (λ e. absurd (omega (arith, e, phys_of_two))) (omega arith))

-- mkdir of /a finds no memory for a vnode, and unlink of /a finds no such file.
libc_result-path_call_example :
    (seen (handle_mkdir (mmu_of tables) running 2 2 0o755).0 ≡ (negsuc 0, some 28))
    × (seen (handle_unlink (mmu_of tables) running 2 2 false).0 ≡ (negsuc 0, some 2))
unfolding vfs_mkdir mkdir_in lookup_parent lookup_parent_at trim_end name_start walk walk_loop step
    child_named child_in name_eq bytes_eq skip_slashes component after_component new_node attach
    vfs_unlink unlink_in vmm_user_range_ok vmm_user_phys pages_ok pte_value get_pte walk_tables
    next_table bytes_from has
libc_result-path_call_example =
    libc_result-path_call (mmu_of tables) running 2 2 0o755 false
      (mmu_of-IsMmu tables tables-SparesZero)
