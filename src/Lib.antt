-- ===== src/Lib.antt =====
-- narcOs, a small kernel for three architectures with its C library and its first process.
--
-- The kernel keeps a file system in memory that starts from a tar archive (kernel/fs/vfs.c); system
-- calls reach it through paths and open files. The first process is Pablo (userland/pablo), which
-- reads a configuration, validates the services in it and keeps them running.
--
-- Kernel/Vfs models kernel/fs/vfs.c with kernel/include/kernel/vfs.h. State has `struct vnode`,
-- `struct file` and the file system's variables: a vnode pointer is an address, 0 the null pointer,
-- and the store maps addresses to vnodes, so that directories, open files and the root share them.
-- A list of siblings is the list of its addresses; `live` says which addresses are allocated. The
-- results of kzalloc, kmalloc and pmm_alloc_page are a list of answers, taken in the order of the
-- calls, 0 for a failure: that an allocator hands out vnodes that are not in use is a hypothesis of
-- the theorems that need it. Path has name_eq, dot_name, child_named, walk, lookup and lookup_parent;
-- Nodes has attach, detach, new_node, release_pages, release_node and remove_node; Content has
-- ensure_pages, vfs_read, vfs_write and vfs_seek; Ops has vfs_open, vfs_close, vfs_file_info,
-- vfs_readdir, vfs_mkdir, vfs_unlink and vfs_rename; Tar has the archive functions and vfs_init. Tree
-- has the well-formedness of the tree, the chains of parents up to the root, and what keeps them.
-- Kernel/String models kernel/lib/string.c: memset and memcpy over a memory of bytes.
-- Kernel/Task models kernel/task.c. State has the tasks, the open files and the variables of the file;
-- pointers are addresses into stores, as in the file system, whose state is a part of the kernel's
-- and whose list of answers serves the allocations here too. Schedule has the list of tasks, process
-- ids and the switch from one task to the next; Files the counts of open files and the descriptor
-- tables; Descriptors the operations on the current task's descriptors; Life the creation, fork, wait,
-- exec and exit of tasks; Pipe the pipes, as rings in a page. Frames, saved registers and address
-- spaces are opaque numbers, and what the architecture does with them is a record of functions.
-- Kernel/Pages models the physical pages of kernel/mm/mm.c: the entries of the memory map that are not
-- yet used, and the list of free pages that the pages' first words link; the offset at which physical
-- memory is mapped is left out. Kernel/Paging models the page tables of x86-64 in kernel/mm/mm.c, which
-- stand in the words of those pages: next_table, get_pte and the vmm_ functions on entries, and in Space
-- those on whole address spaces. cr3 is a variable, an address space is its root, and invlpg is left
-- out. Kernel/Heap/Window models the address ranges of large allocations in
-- kernel/mm/heap.c.
-- Kernel/Syscall models kernel/syscall.c with the statuses of include/narc/abi.h: Copy has the
-- transfers to and from a user's memory, Handlers the calls on files, Mapping those on memory, and
-- Dispatch handle_exec and the choice of the call by its number, over the tasks and the page tables
-- together; the spaces that task.c gives up and activates reach the page tables after the call. The
-- bytes of a user's pages are the file system's `ram`, the words of the tables those of
-- Kernel/Paging; that vmm_space_clone copies a page shows in the words only. user_exec, the arguments
-- in the frame, the console's input and the stack's stale bytes are arguments.
--
-- Libc/Result is the way of statuses into errno (lib/libc/src/internal/result.c), with Errno for what
-- a program sees of the calls with one path. Libc/Allocator models
-- lib/libc/src/stdlib: arenas as lists of blocks, with the allocation, release and resizing of blocks,
-- calloc and realloc; what mmap returns is an argument. Libc/Format models lib/libc/src/stdio/format.c;
-- the stream's fwrite is an argument, and so what is written is a list of bytes. Libc/Strings models
-- the functions of lib/libc/src/string.
--
-- Userland/Pablo models Pablo's text.c (Text), service.c (Service), config.c (Config) and supervisor.c
-- (Supervisor), all under userland/pablo/src. What fork, waitpid, readdir and reads of files yield are
-- arguments; the log is left out.
--
-- Loops are structural recursion, or recursion on fuel: `walk` and `tar_node` have one more than the
-- path's length, of which each round takes a byte; the loop over the archive has one more than its
-- number of blocks, of which each header takes one; reads, writes and unpacking have the length in
-- bytes, of which each round moves one at least; the lines of a configuration have the text's length;
-- the visit of dependencies has one more than the number of services, since each step marks one. The
-- ancestors of vfs_rename have a fuel that the caller chooses and that bounds the tree's depth; out of
-- fuel the rename is refused. The loop of next_task has the number of tasks, none of which it meets
-- twice; that of alloc_pid has one more, since the ids it tries are distinct; the growth of a
-- descriptor table has 32 rounds, each of which doubles it up to INT32_MAX; the digits of a number
-- have 64 rounds, of which a 64-bit word takes 22 at most; a format has one more than its length,
-- since each round but the last takes a `%`; strlen, strcmp, strcpy and strchr have a fuel that the
-- caller chooses, of which one more than the string's length is enough; the loops over page tables and
-- over the pages of a range count their rounds, and the transfers of system calls have the length in
-- bytes, of which each round moves one at least. Words wrap at 2 ^ 64 or 2 ^ 32 where the source
-- computes on them.
--
-- Not modelled: the page tables of riscv64 and aarch64 (kernel/arch), the size classes of
-- kernel/mm/heap.c, program loading (kernel/user.c), the architectures,
-- console and boot code, the streams and the wrappers of system calls of the C
-- library and the stubs of system calls; of Pablo, its I/O, log and entry point, which only call the
-- system.

pub mod Common
pub mod Kernel
pub mod Libc
pub mod Userland
