-- ===== src/Kernel/Task/Files/Table.antt =====
-- How often an open file stands in the descriptor tables, and what file_put does to its count.
use narc_os.Common.{ℕ, zero, suc, ◌+◌, ◌<◌, ◌≡◌, refl, ◌∙◌, ◌≢◌, arith}
use narc_os.Common.{
  Bool, true, false, List, [], ◌∷◌, ◌++◌, ◌==◌, ◌!=◌, if◌then◌else◌, get_or, set, length,
}
use narc_os.Common.{◌&&◌, replicate, has, Bool-cases, inl, inr}
use narc_os.Kernel.Vfs.Tree.Siblings.{Distinct}
use narc_os.Kernel.Task.State.{
  Task, Kernel, FileType, console, vfs, pipe_read, pipe_write, pred32, put_file,
}
use narc_os.Kernel.Task.Files.{file_put, pipe_put, close_vfs}

abbrev pub one_if : Bool → ℕ
one_if true = 1
one_if false = 0

abbrev pub count : ℕ → List ℕ → ℕ
count p [] = 0
count p (x ∷ r) = one_if (x == p) + count p r

-- The descriptors, over all tasks, that stand for an open file.
abbrev pub slots : (ℕ → Task) → List ℕ → ℕ → ℕ
slots task [] p = 0
slots task (t ∷ r) p = count p (task t).fds + slots task r p

pub count-set :
    (p : ℕ) (fds : List ℕ) (fd v : ℕ)
    → fd < length fds
    → count p (set fds fd v) + one_if (get_or fds fd 0 == p) ≡ count p fds + one_if (v == p)
count-set p [] fd v h = absurd (omega arith)
count-set p (x ∷ r) zero v h = omega arith
count-set p (x ∷ r) (suc fd) v h = omega (arith, count-set p r fd v (omega arith))

pub count-append_zeros :
    (p : ℕ) (fds : List ℕ) (n : ℕ) → p ≢ 0 → count p (fds ++ replicate n 0) ≡ count p fds
count-append_zeros p [] zero ne = refl
count-append_zeros p [] (suc n) ne = ground (arith, count-append_zeros p [] n ne)
count-append_zeros p (x ∷ r) n ne = omega (arith, count-append_zeros p r n ne)

pub slots_other :
    (task : ℕ → Task) (t : ℕ) (v : Task) (l : List ℕ) (p : ℕ)
    → has t l ≡ false
    → slots (λ q. if q == t then v else task q) l p ≡ slots task l p
unfolding has
slots_other task t v [] p h = refl
slots_other task t v (x ∷ l) p h = ground (arith, slots_other task t v l p)

-- A change to one task's table.
pub slots-put :
    (task : ℕ → Task) (t : ℕ) (v : Task) (l : List ℕ) (p : ℕ)
    → Distinct l
    → has t l ≡ true
    → slots (λ q. if q == t then v else task q) l p + count p (task t).fds
      ≡ slots task l p + count p v.fds
unfolding has
slots-put task t v [] p d h = cc
slots-put task t v (x ∷ l) p d h = elim (Bool-cases (x == t)) [
  | inl e ↦
      let s : x ≡ t = ground arith in
      let other = slots_other task t v l p (rw s at d.0) in ground (arith, e, s, other)
  | inr e ↦ ground (arith, e, slots-put task t v l p d.1)
]

close_vfs_refs :
    (k : Kernel) (p q : ℕ) (type : FileType)
    → (((close_vfs k p type).open_file q).refs ≡ (k.open_file q).refs)
      × ((close_vfs k p type).task ≡ k.task)
      × ((close_vfs k p type).task_list ≡ k.task_list)
      × ((close_vfs k p type).current ≡ k.current)
close_vfs_refs k p q vfs = (ground arith, refl, refl, refl)
close_vfs_refs k p q console = (refl, refl, refl, refl)
close_vfs_refs k p q pipe_read = (refl, refl, refl, refl)
close_vfs_refs k p q pipe_write = (refl, refl, refl, refl)

-- What pipe_put and file_put leave alone, and the count that file_put takes one from.
pipe_put_refs :
    (k : Kernel) (p q : ℕ)
    → (((pipe_put k p).open_file q).refs ≡ (k.open_file q).refs)
      × ((pipe_put k p).task ≡ k.task)
      × ((pipe_put k p).task_list ≡ k.task_list)
      × ((pipe_put k p).current ≡ k.current)
unfolding pipe_put
pipe_put_refs k p q = ground arith

pub file_put_refs :
    (k : Kernel) (p q : ℕ)
    → (((file_put k p).open_file q).refs
        ≡ (if p != 0 && q == p then pred32 (k.open_file q).refs else (k.open_file q).refs))
      × ((file_put k p).task ≡ k.task)
      × ((file_put k p).task_list ≡ k.task_list)
      × ((file_put k p).current ≡ k.current)
unfolding file_put
file_put_refs k p q = elim (Bool-cases (p == 0)) [
  | inl null ↦ rw null (ground arith, refl, refl, refl)
  | inr block ↦
      let v = k.open_file p in
      let l = put_file k p (record v { refs = pred32 v.refs }) in
      let closed = close_vfs l p v.type in
      let (r, t, s, c) = close_vfs_refs l p q v.type in
      let base : (l.open_file q).refs ≡ (if q == p then pred32 v.refs else (k.open_file q).refs) =
        ground arith in
      elim (Bool-cases (pred32 v.refs != 0)) [
        | inl more ↦ rw (block, more) (ground (arith, base), refl, refl, refl)
        | inr last ↦ elim (Bool-cases (v.pipe == 0)) [
          | inl no_pipe ↦ rw (block, last, no_pipe) (ground (arith, r, base), t, s, c)
          | inr piped ↦
              let (r', t', s', c') = pipe_put_refs closed v.pipe q in
              rw (block, last, piped) (ground (arith, r', r, base), t' ∙ t, s' ∙ s, c' ∙ c)
        ]
      ]
]
