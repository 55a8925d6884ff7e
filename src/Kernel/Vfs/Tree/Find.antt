-- ===== src/Kernel/Vfs/Tree/Find.antt =====
-- A vnode attached behind the children of a directory, as path resolution sees it.
use narc_os.Common.{ℕ, ◌≡◌, refl, ap, ◌≢◌, arith, true, false, List, [], ◌∷◌}
use narc_os.Common.{◌++◌, ◌==◌, if◌then◌else◌, has}
use narc_os.Common.{◌&&◌}
use narc_os.Kernel.Vfs.State.{Vfs, Vnode}
use narc_os.Kernel.Vfs.Path.{Found, found, failed, and_then, step, child_in, child_named}
use narc_os.Kernel.Vfs.Path.{name_eq}
use narc_os.Kernel.Vfs.Path.Resolve.{resolve}
use narc_os.Kernel.Vfs.Nodes.{attach, create}
use narc_os.Kernel.Vfs.Tree.WellFormed.{IsWellFormed}
use narc_os.Kernel.Vfs.Tree.Reach.{step-live}

pub resolve-append :
    (s : Vfs) (names rest : List (List ℕ)) (n m : ℕ)
    → resolve s n names ≡ found m
    → resolve s n (names ++ rest) ≡ resolve s m rest
resolve-append s [] rest n m h = ap (λ k. resolve s k rest) (ground arith)
resolve-append s (name ∷ names) rest n m h =
    go (step s n name) h (λ next. resolve-append s names rest next m)
  where
    go :
        (f : Found)
        → and_then f (λ next. resolve s next names) ≡ found m
        → ((next : ℕ)
            → resolve s next names ≡ found m
            → resolve s next (names ++ rest) ≡ resolve s m rest)
        → and_then f (λ next. resolve s next (names ++ rest)) ≡ resolve s m rest
    go (found next) k ih = ih next k
    go (failed e) k ih = cc

-- Only the names of the siblings matter.
child_in-congr :
    (node node' : ℕ → Vnode) (cs : List ℕ) (name : List ℕ)
    → ((c : ℕ) → has c cs ≡ true → (node' c).name ≡ (node c).name)
    → child_in node' cs name ≡ child_in node cs name
unfolding child_in has
child_in-congr node node' [] name same = refl
child_in-congr node node' (c ∷ cs) name same =
    ground (arith, same c, child_in-congr node node' cs name (λ a h. same a (ground arith)))

-- A sibling at the end is found where no other has the name.
child_in-append :
    (node : ℕ → Vnode) (cs : List ℕ) (p : ℕ) (name : List ℕ)
    → has 0 cs ≡ false
    → child_in node (cs ++ p ∷ []) name ≡ (
        if child_in node cs name == 0
        then (if name_eq (node p).name name then p else 0)
        else child_in node cs name)
unfolding child_in has
child_in-append node [] p name h = refl
child_in-append node (c ∷ cs) p name h = ground (arith, child_in-append node cs p name)

-- `t` is `s` with a new vnode `p` behind the children of `d`.
pub record Grown (s t : Vfs) (d p : ℕ) : Type 0 where
  pub root : t.root ≡ s.root
  pub old_name : (q : ℕ) → q ≢ p → (t.node q).name ≡ (s.node q).name
  pub old_type : (q : ℕ) → q ≢ p → (t.node q).type ≡ (s.node q).type
  pub old_up : (q : ℕ) → q ≢ p → (t.node q).parent ≡ (s.node q).parent
  pub others : (q : ℕ) → q ≢ p → q ≢ d → (t.node q).children ≡ (s.node q).children
  pub more : (t.node d).children ≡ (s.node d).children ++ p ∷ []

pub attach-Grown :
    (s : Vfs) (d p : ℕ) (v : Vnode) (answers : List ℕ)
    → d ≢ p
    → Grown s (attach (create (record s { answers = answers }) p v) d p) d p
unfolding attach
attach-Grown s d p v answers h = record {
  root = refl;
  old_name = λ q ne. ground arith;
  old_type = λ q ne. ground arith;
  old_up = λ q ne. ground arith;
  others = λ q ne nd. ground arith;
  more = ground arith;
}

module _ {s t : Vfs} (d p : ℕ) (w : IsWellFormed s) (g : Grown s t d p)
    (new : s.live p ≡ false) where
  -- In the old tree.
  members : (q c : ℕ) → s.live q ≡ true → has c (s.node q).children ≡ true → c ≢ p
  members q c here h = ground (arith, w.child_live q c here h)

  no_null : (q : ℕ) → s.live q ≡ true → has 0 (s.node q).children ≡ false
  no_null q here = ground (arith, w.child_live q 0 here, w.null_dead)

  pub child_named-Grown :
      (q : ℕ) (name : List ℕ)
      → s.live q ≡ true
      → child_named t q name ≡ (
          if child_named s q name == 0
          then (if q == d && name_eq (t.node p).name name then p else 0)
          else child_named s q name)
  unfolding child_named
  child_named-Grown q name here =
      let same =
        child_in-congr s.node t.node (s.node q).children name
          (λ c h. g.old_name c (members q c here h)) in
      ground (
        arith,
        same,
        g.others q,
        g.more,
        child_in-append t.node (s.node q).children p name (no_null q here),
      )

  -- A step that succeeds stays as it was.
  step-Grown :
      (q m : ℕ) (name : List ℕ)
      → s.live q ≡ true
      → step s q name ≡ found m
      → step t q name ≡ found m
  unfolding step
  step-Grown q m name here h =
      ground (arith, child_named-Grown q name here, g.old_type q, g.old_up q)

  pub resolve-Grown :
      (names : List (List ℕ)) (q m : ℕ)
      → s.live q ≡ true
      → resolve s q names ≡ found m
      → resolve t q names ≡ found m
  resolve-Grown [] q m here h = h
  resolve-Grown (name ∷ names) q m here h =
      go (step s q name) refl h (λ next. resolve-Grown names next m)
    where
      go :
          (f : Found)
          → step s q name ≡ f
          → and_then f (λ next. resolve s next names) ≡ found m
          → ((next : ℕ)
              → s.live next ≡ true
              → resolve s next names ≡ found m
              → resolve t next names ≡ found m)
          → and_then (step t q name) (λ next. resolve t next names) ≡ found m
      go (found next) e k ih =
          rw (step-Grown q next name here e) (ih next (step-live w q next name here e) k)
      go (failed e) _ k ih = cc
