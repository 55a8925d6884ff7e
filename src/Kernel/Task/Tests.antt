-- ===== src/Kernel/Task/Tests.antt =====
-- A pipe whose head stands at the end of its page, so that reads and writes wrap, and four tasks, of
-- which the second runs, the first waits for it, and the third has ended.
use narc_os.Common.{
  ℕ, ◌+◌, ◌≡◌, ◌++◌, ◌∷◌, [], length, arith, refl, true, false, none, some, ◌==◌, if◌then◌else◌,
}
use narc_os.Common.{get_or, has}
use narc_os.Common.Int.{pos, negsuc}
use narc_os.Common.Ranges.{bytes_from}
use narc_os.Kernel.Task.Pipe.{Pipe, pipe_read, pipe_write}
use narc_os.Kernel.Vfs.State.{Vfs, dir}
use narc_os.Kernel.Task.State.{
  Task, Kernel, Arch, Mmu, runnable, blocked, zombie, console, zero_task, is_zombie,
}
use narc_os.Kernel.Task.Schedule.{next_task, task_alloc, find_task, find_in}
use narc_os.Kernel.Task.Schedule.Rotation.{next_task-first_runnable}
use narc_os.Kernel.Task.Schedule.Pids.{HasPids, task_alloc-HasPids}
use narc_os.Kernel.Task.Files.{fd_install, fd_reserve, skip_used, fd_get}
use narc_os.Kernel.Task.Files.Install.{Lowest, fd_install-Lowest}
use narc_os.Kernel.Task.Descriptors.{task_fd_close, task_fd_dup}
use narc_os.Kernel.Task.Descriptors.Refs.{HasRefs, task_fd_close-HasRefs, task_fd_dup-HasRefs}
use narc_os.Kernel.Task.Life.{task_wait, find_zombie, matches, end_task}
use narc_os.Kernel.Task.Life.Wait.{task_wait_reaps, end_task_wakes, ended}
use narc_os.Kernel.Task.Pipe.Fifo.{IsPipe, queue, queue-pipe_write, queue-pipe_read}

abbrev wrapped : Pipe
wrapped = record { refs = 2; head = 4095; count = 3; page = 8192; bytes = λ i. i }

wrapped-IsPipe : IsPipe wrapped
wrapped-IsPipe = record { head_in = omega arith; count_in = omega arith }

queue-pipe_write_example :
    let (done, q) = pipe_write wrapped (λ i. 7 + i) 5000 in
    (done ≡ 4093) × (queue q ≡ queue wrapped ++ bytes_from (λ i. 7 + i) 0 done) × IsPipe q
queue-pipe_write_example = queue-pipe_write wrapped (λ i. 7 + i) 5000 wrapped-IsPipe

queue-pipe_read_example :
    let (got, q) = pipe_read wrapped 2 in
    (queue wrapped ≡ got ++ queue q) × (length got ≡ 2) × IsPipe q
queue-pipe_read_example = queue-pipe_read wrapped 2 wrapped-IsPipe

abbrev empty_fs : Vfs
empty_fs = record {
  node = λ p. record {
    parent = 0;
    children = [];
    name = [];
    linked = true;
    refs = 0;
    size = 0;
    ino = 1;
    mode = 0o40755;
    type = dir;
    archive = none;
    pages = [];
  };
  live = λ p. p == 1;
  root = 1;
  next_inode = 2;
  tar_data = λ i. 0;
  tar_size = 0;
  ram = λ a. 0;
  freed = [];
  answers = 50 ∷ 60 ∷ [];
}

abbrev task_at : ℕ → Task
task_at p =
    if p == 10
    then record zero_task { pid = 1; state = blocked; wait_any = true }
    else if p == 20
    then record zero_task { pid = 2; ppid = 1; state = runnable; fds = 100 ∷ 0 ∷ 100 ∷ [] }
    else if p == 30
    then record zero_task { pid = 3; ppid = 2; state = zombie; exit_status = 7 }
    else record zero_task { pid = 4; ppid = 1; state = runnable }

abbrev four : Kernel
four = record {
  task = task_at;
  task_list = 10 ∷ 20 ∷ 30 ∷ 40 ∷ [];
  next_pid = 2;
  current = 20;
  open_file = λ p. record {
    refs = 2;
    type = console;
    pipe = 0;
    file = record { node = 0; offset = 0; flags = 0 };
  };
  pipe = λ p. wrapped;
  fs = empty_fs;
  active = 0;
  tls = 0;
  cpu = 0;
  halted = false;
  input = [];
  destroyed = [];
}

abbrev plain_arch : Arch
plain_arch = record {
  frame_init = 0;
  set_entry = λ f pc sp. pc;
  return2 = λ f value second. value;
  state_init = 0;
}

abbrev plain_mmu : Mmu
plain_mmu = record { range_ok = λ s a n w. true; phys = λ s a. a }

next_task-first_runnable_example : next_task four ≡ 40
unfolding has
next_task-first_runnable_example =
    next_task-first_runnable four (10 ∷ []) (30 ∷ 40 ∷ []) refl (refl, (refl, (refl, (refl, tt))))
      refl

task_alloc-HasPids_example :
    (l : Kernel) × (task_alloc four ≡ some (50, l))
    × HasPids l
    × (l.task_list ≡ 10 ∷ 20 ∷ 30 ∷ 40 ∷ 50 ∷ [])
unfolding has
task_alloc-HasPids_example =
    task_alloc-HasPids four
      (record {
        no_null = refl;
        distinct = (refl, (refl, (refl, (refl, tt))));
        low = omega arith;
        high = omega arith;
      })
      (omega arith) refl

fd_install-Lowest_example :
    Lowest (100 ∷ 0 ∷ 100 ∷ []) 0 1
    × ((j : ℕ)
        → get_or ((fd_install four 20 200 0).1.task 20).fds j 0
          ≡ (if j == 1 then 200 else get_or (100 ∷ 0 ∷ 100 ∷ []) j 0))
unfolding fd_install fd_reserve skip_used
fd_install-Lowest_example = fd_install-Lowest four 20 200 0 1 (omega arith) (omega arith) refl

four-HasRefs : HasRefs four
unfolding has
four-HasRefs = record {
  counted = λ p ne h. ground arith;
  bounded = λ p ne. ground arith;
  distinct = (refl, (refl, (refl, (refl, tt))));
  running = refl;
}

task_fd_close-HasRefs_example : HasRefs (task_fd_close four (pos 2)).1
task_fd_close-HasRefs_example = task_fd_close-HasRefs four (pos 2) four-HasRefs

task_fd_dup-HasRefs_example : HasRefs (task_fd_dup four (pos 0) (pos 0)).1
unfolding fd_get
task_fd_dup-HasRefs_example =
    task_fd_dup-HasRefs four (pos 0) 0 four-HasRefs (omega arith) (omega arith) (omega arith)

task_wait_reaps_example :
    (t : ℕ) × (has t (10 ∷ 20 ∷ 30 ∷ 40 ∷ []) ≡ true)
    × ((task_at t).pid ≡ 3)
    × (is_zombie (task_at t) ≡ true)
    × (matches (task_at t) (task_at 20) (negsuc 0) ≡ true)
    × ((q : ℕ)
        → has q (task_wait plain_mmu four 0 (negsuc 0) 0 0).1.task_list
          ≡ (if q == t then false else has q (10 ∷ 20 ∷ 30 ∷ 40 ∷ [])))
unfolding has task_wait find_zombie matches
task_wait_reaps_example =
    task_wait_reaps plain_mmu four 0 (negsuc 0) 0 0 3 refl (refl, (refl, (refl, (refl, tt))))
      (omega arith) refl

end_task_wakes_example :
    let (reap, l) = end_task plain_arch plain_mmu four 9 in
    (reap ≡ true)
    × ((q : ℕ)
        → l.task q ≡ (
            if q == 20
            then ended four 9
            else if q == 10
            then (let w = task_at 10 in record w { frame = 2; state = runnable })
            else task_at q))
unfolding find_task find_in
end_task_wakes_example =
    end_task_wakes plain_arch plain_mmu four 9 10 refl (omega arith) (omega arith) refl refl
