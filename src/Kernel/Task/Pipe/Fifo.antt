-- ===== src/Kernel/Task/Pipe/Fifo.antt =====
-- A pipe is a queue of bytes.
use narc_os.Common.{ℕ, zero, suc, ◌+◌, ◌-◌, ◌%◌, ◌≤◌, ◌<◌, ◌≡◌, refl, sym, ap, ◌∙◌, arith}
use narc_os.Common.{List, [], ◌++◌, ltb, leb, ◌&&◌, if◌then◌else◌}
use narc_os.Common.{length}
use narc_os.Common.Ranges.{bytes_from, bytes_from-append, bytes_from-congr, length-bytes_from}
use narc_os.Kernel.Task.Pipe.{Pipe, pipe_size, smaller, read_bytes, pipe_read, store, write_bytes}
use narc_os.Kernel.Task.Pipe.{pipe_write}

-- The head stands in the page, and no more bytes wait than fit in it.
pub record IsPipe (p : Pipe) : Type 0 where
  pub head_in : p.head < pipe_size
  pub count_in : p.count ≤ pipe_size

-- The byte that waits at position `i`, and all that wait, the oldest first.
abbrev pub waiting : Pipe → ℕ → ℕ
waiting p i = p.bytes ((p.head + i) % pipe_size)

abbrev pub queue : Pipe → List ℕ
queue p = bytes_from (waiting p) 0 p.count

-- The loop that writes fills the places behind the `c` bytes that wait.
write_bytes_at :
    (n i head c : ℕ) (buffer bytes : ℕ → ℕ) (k : ℕ)
    → k < pipe_size
    → c + i + n ≤ pipe_size
    → write_bytes n i (head + c) buffer bytes ((head + k) % pipe_size) ≡ (
        if leb (c + i) k && ltb k (c + i + n)
        then buffer (k - c)
        else bytes ((head + k) % pipe_size))
unfolding write_bytes
write_bytes_at zero i head c buffer bytes k hk room = ground arith
write_bytes_at (suc n) i head c buffer bytes k hk room =
    let rest =
      write_bytes_at n (i + 1) head c buffer (store bytes ((head + c + i) % pipe_size) (buffer i)) k
        hk (omega arith) in
    ground (arith, rest)

-- What the loop that reads takes, and where it stops.
read_bytes_at :
    (n head i : ℕ) (bytes : ℕ → ℕ)
    → read_bytes n bytes ((head + i) % pipe_size)
      ≡ (bytes_from (λ k. bytes ((head + k) % pipe_size)) i n, (head + i + n) % pipe_size)
unfolding read_bytes bytes_from
read_bytes_at zero head i bytes = ap (λ m. ([], m)) (omega arith)
read_bytes_at (suc n) head i bytes =
    let e : ((head + i) % pipe_size + 1) % pipe_size ≡ (head + (i + 1)) % pipe_size = omega arith in
    let f : (head + (i + 1) + n) % pipe_size ≡ (head + i + suc n) % pipe_size = omega arith in
    rw (e, read_bytes_at n head (i + 1) bytes, f) refl

-- Writing to a pipe puts as many of the bytes as there is room for behind those that wait, in their
-- order, returns their number, and keeps the pipe in shape.
pub queue-pipe_write :
    (p : Pipe) (buffer : ℕ → ℕ) (len : ℕ)
    → IsPipe p
    → let (done, q) = pipe_write p buffer len in
      (done ≡ smaller len (pipe_size - p.count))
      × (queue q ≡ queue p ++ bytes_from buffer 0 done)
      × IsPipe q
unfolding pipe_write
queue-pipe_write p buffer len shape =
    let done = smaller len (pipe_size - p.count) in
    let at = write_bytes_at done 0 p.head p.count buffer p.bytes in
    let q = (pipe_write p buffer len).1 in
    let old =
      bytes_from-congr (waiting p) (waiting q) 0 0 p.count
        (λ k lt. ground (arith, at k, shape.count_in)) in
    let new =
      bytes_from-congr buffer (waiting q) 0 p.count done
        (λ k lt. ground (arith, at (p.count + k), shape.count_in)) in
    (
      refl,
      rw (old, new) (sym (bytes_from-append (waiting q) 0 p.count p.count done (omega arith))),
      record { head_in = shape.head_in; count_in = ground (arith, shape.count_in) },
    )

-- Reading from a pipe takes as many bytes as wait, up to the length asked for, the oldest first, and
-- leaves the others waiting in their order and the pipe in shape.
pub queue-pipe_read :
    (p : Pipe) (len : ℕ)
    → IsPipe p
    → let (got, q) = pipe_read p len in
      (queue p ≡ got ++ queue q) × (length got ≡ smaller len p.count) × IsPipe q
unfolding pipe_read
queue-pipe_read p len shape =
    let done = smaller len p.count in
    let left = p.count - done in
    let e : (p.head + 0) % pipe_size ≡ p.head = omega (arith, shape.head_in) in
    let f : (p.head + 0 + done) % pipe_size ≡ (p.head + done) % pipe_size = omega arith in
    let got =
      ap (read_bytes done p.bytes) (sym e)
      ∙ read_bytes_at done p.head 0 p.bytes
      ∙ ap (λ m. (bytes_from (waiting p) 0 done, m)) f in
    let later =
      bytes_from-congr (waiting p) (λ i. p.bytes (((p.head + done) % pipe_size + i) % pipe_size))
        done 0 left (λ k lt. ap p.bytes (omega arith)) in
    let all : done + left ≡ p.count = ground arith in
    rw got (
      ap (bytes_from (waiting p) 0) (sym all)
          ∙ sym (bytes_from-append (waiting p) 0 done done left (omega arith))
          ∙ ap (λ l. bytes_from (waiting p) 0 done ++ l) later,
      length-bytes_from (waiting p) 0 done,
      record { head_in = omega arith; count_in = omega (arith, shape.count_in) },
    )
