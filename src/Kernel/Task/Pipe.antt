-- ===== src/Kernel/Task/Pipe.antt =====
-- The pipes of kernel/task.c: the branches of task_fd_read and task_fd_write on them. The page that
-- `data` points to is the pipe's own, so its bytes are a function of the pipe.
pub mod Fifo
use narc_os.Common.{ℕ, zero, suc, ◌+◌, ◌-◌, ◌%◌, Bool, List, [], ◌∷◌, ◌==◌, ltb, if◌then◌else◌}

-- PIPE_SIZE.
abbrev pub pipe_size : ℕ
pipe_size = 4096

-- `struct pipe`.
pub record Pipe : Type 0 where
  pub refs : ℕ
  pub head : ℕ
  pub count : ℕ
  pub page : ℕ
  pub bytes : ℕ → ℕ

abbrev pub smaller : ℕ → ℕ → ℕ
smaller a b = if ltb a b then a else b

-- `n` rounds of the loop that reads: the bytes for the buffer, and where the head comes to stand.
unfoldable pub read_bytes : ℕ → (ℕ → ℕ) → ℕ → List ℕ × ℕ
read_bytes zero bytes head = ([], head)
read_bytes (suc n) bytes head =
    let (rest, last) = read_bytes n bytes ((head + 1) % pipe_size) in (bytes head ∷ rest, last)

-- The bytes read; their number is what task_fd_read returns.
unfoldable pub pipe_read : Pipe → ℕ → List ℕ × Pipe
pipe_read p len =
    let done = smaller len p.count in
    let (got, head) = read_bytes done p.bytes p.head in
    (got, record p { head = head; count = p.count - done })

abbrev pub store : (ℕ → ℕ) → ℕ → ℕ → ℕ → ℕ
store bytes i b j = if j == i then b else bytes j

-- The loop that writes, with `n` rounds left from index `i` on; `start` is `head + count`.
unfoldable pub write_bytes : ℕ → ℕ → ℕ → (ℕ → ℕ) → (ℕ → ℕ) → ℕ → ℕ
write_bytes zero i start buffer bytes = bytes
write_bytes (suc n) i start buffer bytes =
    write_bytes n (i + 1) start buffer (store bytes ((start + i) % pipe_size) (buffer i))

-- The number of bytes written, which is returned, and the pipe.
unfoldable pub pipe_write : Pipe → (ℕ → ℕ) → ℕ → ℕ × Pipe
pipe_write p buffer len =
    let done = smaller len (pipe_size - p.count) in
    let next = write_bytes done 0 (p.head + p.count) buffer p.bytes in
    (done, record p { count = p.count + done; bytes = next })
