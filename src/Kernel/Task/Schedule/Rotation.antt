-- ===== src/Kernel/Task/Schedule/Rotation.antt =====
-- Whom next_task chooses: the list of tasks is gone through in a circle.
use mathlib.Core.List.{append_assoc, append-nil}
use narc_os.Common.{ℕ, zero, suc, ◌≤◌, ◌≡◌, refl, sym, ◌∙◌, ◌≢◌, arith, true, false}
use narc_os.Common.{List, [], ◌∷◌, ◌++◌, if◌then◌else◌, length, length-append, has}
use narc_os.Kernel.Vfs.Tree.Siblings.{Distinct}
use narc_os.Kernel.Task.State.{Task, Kernel, is_runnable}
use narc_os.Kernel.Task.Schedule.{next_in, after, first, next_loop, next_task}

-- The first task of a list that can run, null if none can.
abbrev pub first_runnable : (ℕ → Task) → List ℕ → ℕ
first_runnable task [] = 0
first_runnable task (t ∷ r) = if is_runnable (task t) then t else first_runnable task r

-- From each entry `f` leads to the one behind it, and from the last one to `s`.
abbrev Steps : (ℕ → ℕ) → List ℕ → ℕ → Type 0
Steps f [] s = Unit
Steps f (a ∷ []) s = f a ≡ s
Steps f (a ∷ b ∷ r) s = (f a ≡ b) × Steps f (b ∷ r) s

abbrev or_first : List ℕ → List ℕ → ℕ
or_first whole [] = first whole
or_first whole (a ∷ r) = a

next_loop-first_runnable :
    (fuel : ℕ) (task : ℕ → Task) (list : List ℕ) (start a : ℕ) (r : List ℕ)
    → length (a ∷ r) ≤ fuel
    → Steps (after list) (a ∷ r) start
    → has start r ≡ false
    → has 0 (a ∷ r) ≡ false
    → next_loop fuel task list start a ≡ first_runnable task (a ∷ r)
unfolding next_loop has
next_loop-first_runnable zero task list start a r le s h z = absurd (omega arith)
next_loop-first_runnable (suc fuel) task list start a [] le s h z = ground arith
next_loop-first_runnable (suc fuel) task list start a (b ∷ r) le (e, s) h z =
    let rest =
      next_loop-first_runnable fuel task list start b r (omega arith) s (ground arith)
        (ground arith) in
    rw e (ground (arith, rest))

next_in-append :
    (pre post : List ℕ) (a : ℕ) → has a pre ≡ false → next_in (pre ++ a ∷ post) a ≡ first post
unfolding next_in has
next_in-append [] post a h = ground arith
next_in-append (x ∷ pre) post a h = ground (arith, next_in-append pre post a)

after-append :
    (pre post : List ℕ) (a : ℕ)
    → has a pre ≡ false
    → has 0 (pre ++ a ∷ post) ≡ false
    → has 0 post ≡ false
    → a ≢ 0
    → after (pre ++ a ∷ post) a ≡ or_first (pre ++ a ∷ post) post
unfolding after has
after-append pre [] a h z w ne = ground (arith, next_in-append pre [] a h)
after-append pre (b ∷ post) a h z w ne = ground (arith, next_in-append pre (b ∷ post) a h)

has-append : (a : ℕ) (xs ys : List ℕ) → has a (xs ++ ys) ≡ (if has a xs then true else has a ys)
unfolding has
has-append a [] ys = refl
has-append a (x ∷ xs) ys = ground (arith, has-append a xs ys)

Distinct-append_right : (xs ys : List ℕ) → Distinct (xs ++ ys) → Distinct ys
Distinct-append_right [] ys d = d
Distinct-append_right (x ∷ xs) ys d = Distinct-append_right xs ys d.1

Distinct-apart : (xs ys : List ℕ) (a : ℕ) → Distinct (xs ++ a ∷ ys) → has a xs ≡ false
unfolding has
Distinct-apart [] ys a d = refl
Distinct-apart (x ∷ xs) ys a d =
    ground (arith, Distinct-apart xs ys a d.1, has-append x xs (a ∷ ys), d.0)

after-split :
    (whole pre : List ℕ) (a : ℕ) (post : List ℕ)
    → whole ≡ pre ++ a ∷ post
    → Distinct whole
    → has 0 whole ≡ false
    → after whole a ≡ or_first whole post
unfolding has
after-split whole pre a post e d z =
    let d' : Distinct (pre ++ a ∷ post) = rw (← e) d in
    let z' : has 0 (pre ++ a ∷ post) ≡ false = rw (← e) z in
    let apart = has-append 0 pre (a ∷ post) in
    rw e (
      after-append pre post a (Distinct-apart pre post a d') z' (ground (arith, apart))
        (ground (arith, apart)))

-- A stretch of the list.
Steps-append :
    (whole pre l post : List ℕ)
    → whole ≡ pre ++ (l ++ post)
    → Distinct whole
    → has 0 whole ≡ false
    → Steps (after whole) l (or_first whole post)
Steps-append whole pre [] post e d z = tt
Steps-append whole pre (a ∷ []) post e d z = after-split whole pre a post e d z
Steps-append whole pre (a ∷ b ∷ r) post e d z = (
  after-split whole pre a (b ∷ r ++ post) e d z,
  Steps-append whole (pre ++ a ∷ []) (b ∷ r) post
      (e ∙ sym (append_assoc pre (a ∷ []) (b ∷ r ++ post))) d z,
)

Steps-join :
    (f : ℕ → ℕ) (l : List ℕ) (a : ℕ) (r : List ℕ) (s : ℕ)
    → Steps f l a
    → Steps f (a ∷ r) s
    → Steps f (l ++ a ∷ r) s
Steps-join f [] a r s h k = k
Steps-join f (x ∷ []) a r s h k = (h, k)
Steps-join f (x ∷ y ∷ l) a r s h k = (h.0, Steps-join f (y ∷ l) a r s h.1 k)

-- In the circle that starts behind the current task, which comes last itself.
circle-Steps :
    (xs : List ℕ) (cur : ℕ) (ys : List ℕ)
    → Distinct (xs ++ cur ∷ ys)
    → has 0 (xs ++ cur ∷ ys) ≡ false
    → Steps (after (xs ++ cur ∷ ys)) (ys ++ (xs ++ cur ∷ [])) (after (xs ++ cur ∷ ys) cur)
circle-Steps xs cur ys d z =
    let whole = xs ++ cur ∷ ys in
    let e : whole ≡ (xs ++ cur ∷ []) ++ ys = sym (append_assoc xs (cur ∷ []) ys) in
    let e' : whole ≡ (xs ++ cur ∷ []) ++ (ys ++ []) = rw append-nil e in
    let tail = Steps-append whole (xs ++ cur ∷ []) ys [] e' d z in
    let start = Steps-append whole [] (xs ++ cur ∷ []) ys e d z in
    let back = after-split whole xs cur ys refl d z in rw back (join xs tail start)
  where
    join :
        (l : List ℕ)
        → Steps (after (xs ++ cur ∷ ys)) ys (first (l ++ cur ∷ ys))
        → Steps (after (xs ++ cur ∷ ys)) (l ++ cur ∷ []) (or_first (xs ++ cur ∷ ys) ys)
        → Steps (after (xs ++ cur ∷ ys)) (ys ++ (l ++ cur ∷ [])) (or_first (xs ++ cur ∷ ys) ys)
    join [] h k = Steps-join (after (xs ++ cur ∷ ys)) ys cur [] (or_first (xs ++ cur ∷ ys) ys) h k
    join (x ∷ l) h k =
        Steps-join (after (xs ++ cur ∷ ys)) ys x (l ++ cur ∷ []) (or_first (xs ++ cur ∷ ys) ys) h k

length-circle :
    (xs ys : List ℕ) (cur : ℕ) → length (ys ++ (xs ++ cur ∷ [])) ≡ length (xs ++ cur ∷ ys)
length-circle xs ys cur = omega (
  arith,
  length-append ys (xs ++ cur ∷ []),
  length-append xs (cur ∷ []),
  length-append xs (cur ∷ ys),
)

has-circle :
    (a : ℕ) (xs ys : List ℕ) (cur : ℕ) → has a (ys ++ (xs ++ cur ∷ [])) ≡ has a (xs ++ cur ∷ ys)
unfolding has
has-circle a xs ys cur = ground (
  arith,
  has-append a ys (xs ++ cur ∷ []),
  has-append a xs (cur ∷ []),
  has-append a xs (cur ∷ ys),
)

Distinct-insert :
    (a : ℕ) (ys m : List ℕ) → Distinct (ys ++ m) → has a (ys ++ m) ≡ false → Distinct (ys ++ a ∷ m)
unfolding has
Distinct-insert a [] m d h = (h, d)
Distinct-insert a (y ∷ ys) m d h = (
  ground (arith, has-append y ys m, has-append y ys (a ∷ m), d.0),
  Distinct-insert a ys m d.1 (ground arith),
)

Distinct-swap : (xs ys : List ℕ) → Distinct (xs ++ ys) → Distinct (ys ++ xs)
unfolding has
Distinct-swap [] ys d = rw append-nil d
Distinct-swap (x ∷ xs) ys d =
    Distinct-insert x ys xs (Distinct-swap xs ys d.1)
      (ground (arith, has-append x xs ys, has-append x ys xs, d.0))

Distinct-circle :
    (xs : List ℕ) (cur : ℕ) (ys : List ℕ)
    → Distinct (xs ++ cur ∷ ys)
    → Distinct (ys ++ (xs ++ cur ∷ []))
Distinct-circle xs cur ys d =
    Distinct-swap (xs ++ cur ∷ []) ys (rw (append_assoc xs (cur ∷ []) ys) d)

first-circle :
    (xs : List ℕ) (cur : ℕ) (ys : List ℕ)
    → or_first (xs ++ cur ∷ ys) ys ≡ first (ys ++ (xs ++ cur ∷ []))
first-circle xs cur [] = refl
first-circle xs cur (y ∷ ys) = refl

next_loop-circle :
    (task : ℕ → Task) (xs : List ℕ) (cur : ℕ) (ys : List ℕ)
    → Distinct (xs ++ cur ∷ ys)
    → has 0 (xs ++ cur ∷ ys) ≡ false
    → let whole = xs ++ cur ∷ ys in
      next_loop (length whole) task whole (after whole cur) (after whole cur)
      ≡ first_runnable task (ys ++ (xs ++ cur ∷ []))
next_loop-circle task xs cur ys d z =
    go (ys ++ (xs ++ cur ∷ [])) (length-circle xs ys cur) (circle-Steps xs cur ys d z)
      (Distinct-circle xs cur ys d) (has-circle 0 xs ys cur)
      (after-split (xs ++ cur ∷ ys) xs cur ys refl d z ∙ first-circle xs cur ys)
  where
    go :
        (c : List ℕ)
        → length c ≡ length (xs ++ cur ∷ ys)
        → Steps (after (xs ++ cur ∷ ys)) c (after (xs ++ cur ∷ ys) cur)
        → Distinct c
        → has 0 c ≡ has 0 (xs ++ cur ∷ ys)
        → after (xs ++ cur ∷ ys) cur ≡ first c
        → next_loop
            (length (xs ++ cur ∷ ys))
            task
            (xs ++ cur ∷ ys)
            (after (xs ++ cur ∷ ys) cur)
            (after (xs ++ cur ∷ ys) cur)
          ≡ first_runnable task c
    go [] l s dc zc f = absurd (omega (arith, l, length-append xs (cur ∷ ys)))
    go (a ∷ r) l s dc zc f = rw f (
        next_loop-first_runnable (length (xs ++ cur ∷ ys)) task (xs ++ cur ∷ ys) a a r
          (omega (arith, l)) (rw f at s) dc.0 (zc ∙ z))

-- next_task takes the tasks in a circle: from the one behind the current task to the end of the list,
-- then from its start up to the current task, which is asked last. It chooses the first that can run,
-- and null if none can.
pub next_task-first_runnable :
    (k : Kernel) (xs ys : List ℕ)
    → k.task_list ≡ xs ++ k.current ∷ ys
    → Distinct k.task_list
    → has 0 k.task_list ≡ false
    → next_task k ≡ first_runnable k.task (ys ++ (xs ++ k.current ∷ []))
unfolding next_task
next_task-first_runnable k xs ys e d z =
    rw e (next_loop-circle k.task xs k.current ys (rw (← e) d) (rw (← e) z))
