-- ===== src/Kernel/Vfs/Tree/Rename.antt =====
-- vfs_rename keeps the tree.
use narc_os.Common.{
  ℕ, ◌≡◌, refl, sym, ◌∙◌, ◌≢◌, arith, Bool, true, false, List, [], Option, none, some,
}
use narc_os.Common.{◌==◌, if◌then◌else◌, if_elim}
use narc_os.Kernel.Vfs.State.{Vfs, answer, answered, put, Status}
use narc_os.Kernel.Vfs.Path.{Parent, parent, no_parent, child_named, lookup_parent}
use narc_os.Kernel.Vfs.Nodes.{attach, detach, remove_node, release_node, release_pages}
use narc_os.Kernel.Vfs.Ops.{on_chain, blocked, move, rename_to, rename_from, vfs_rename}
use narc_os.Kernel.Vfs.Tree.WellFormed.{IsWellFormed}
use narc_os.Kernel.Vfs.Tree.Edit.{attach-IsWellFormed, detach-IsWellFormed, put-IsWellFormed}
use narc_os.Kernel.Vfs.Tree.Keep.{is_empty→nil, answered-IsWellFormed, remove_node-IsWellFormed}
use narc_os.Kernel.Vfs.Tree.Keep.{up-ne}
use narc_os.Kernel.Vfs.Tree.Reach.{child_named-live, lookup_parent-live}
use narc_os.Kernel.Vfs.Tree.Rooted.{
  IsTree, Under, live-ne-zero, same-IsRooted, moved-IsRooted, lookup_parent-Under,
}

abbrev Kept : Status × Vfs → Type 0
Kept r = IsTree r.1

-- Removing `t` leaves the others allocated, and their parents.
remove_node-others :
    (s : Vfs) (t q : ℕ)
    → q ≢ t
    → ((remove_node s t).live q ≡ s.live q)
      × (((remove_node s t).node q).parent ≡ (s.node q).parent)
      × ((remove_node s t).root ≡ s.root)
unfolding remove_node release_node release_pages detach
remove_node-others s t q h = (ground arith, ground arith, ground arith)

-- What a target that gives way is.
record GivesWay (s : Vfs) (d target : ℕ) : Type 0 where
  here : s.live target ≡ true
  up : (s.node target).parent ≡ d
  childless : (s.node target).children ≡ []

module _ {s : Vfs} (p d : ℕ) (name : List ℕ) (w : IsWellFormed s) (p_live : s.live p ≡ true)
    (up : (s.node p).parent ≢ 0) (d_live : s.live d ≡ true) where
  relink-IsWellFormed :
      let u = detach s p in
      IsWellFormed (attach (put u p (let v = u.node p in record v { name = name })) d p)
  relink-IsWellFormed =
      let u = detach s p in
      attach-IsWellFormed d p
        (put-IsWellFormed p (let v = u.node p in record v { name = name })
          (detach-IsWellFormed p w p_live up) refl refl refl)
        (unfold detach in d_live) (unfold detach in p_live) (unfold detach in ground arith)
        (unfold detach in ground (arith, w.root_top))

-- What moving `p` to `d` does to the parents.
relink-parents :
    (u : Vfs) (p d : ℕ) (name : List ℕ)
    → let v = detach u p in
      let t = attach (put v p (let x = v.node p in record x { name = name })) d p in
      (t.root ≡ u.root)
      × ((q : ℕ) → t.live q ≡ u.live q)
      × ((t.node p).parent ≡ d)
      × ((q : ℕ) → q ≢ p → (t.node q).parent ≡ (u.node q).parent)
unfolding attach detach
relink-parents u p d name = (refl, λ q. refl, ground arith, λ q ne. ground (arith, ne))

remove_node-parent : (s : Vfs) (t : ℕ) → ((remove_node s t).node t).parent ≡ 0
unfolding remove_node release_node release_pages detach
remove_node-parent s t = ground arith

remove_node-lives : (s : Vfs) (t q : ℕ) → (remove_node s t).live q ≡ true → s.live q ≡ true
unfolding remove_node release_node release_pages detach
remove_node-lives s t q h = ground (arith, h)

move-Good :
    {s : Vfs} (fuel p target d : ℕ) (name : List ℕ)
    → IsTree s
    → s.live p ≡ true
    → (s.node p).parent ≢ 0
    → s.live d ≡ true
    → Under s d
    → on_chain fuel s.node p d ≡ false
    → target ≢ p
    → (target ≢ 0 → GivesWay s d target)
    → Kept (move s p target d name)
unfolding move
move-Good {s} fuel p target d name g p_live up d_live u off apart gives =
    let t = answered s in
    let gt : IsTree t = record {
      formed = answered-IsWellFormed g.formed;
      rooted = same-IsRooted g.rooted refl (λ q. refl) (λ q. refl);
    } in
    if_elim Kept (answer s == 0) _ _ (λ _. gt) λ _. go (target == 0) refl gt.formed
  where
    d_apart : d ≢ target
    d_apart e =
        let gone = gives (λ z. live-ne-zero g d d_live (e ∙ z)) in
        up-ne g.formed target gone.here (λ z. live-ne-zero g d d_live (sym gone.up ∙ z))
          gone.childless (gone.up ∙ e)

    go :
        (b : Bool)
        → (target == 0) ≡ b
        → IsWellFormed (answered s)
        → let u = if b then answered s else remove_node (answered s) target in
          let v = detach u p in
          IsTree (attach (put v p (let x = v.node p in record x { name = name })) d p)
    go true e wt =
        let (roots, lives, moved, kept) = relink-parents (answered s) p d name in
        record {
          formed = relink-IsWellFormed p d name wt p_live up d_live;
          rooted =
              moved-IsRooted p d target g d_live (λ h. (gives h).childless) d_apart roots
                (λ q h. sym (lives q) ∙ h) moved (λ h. absurd (ground (arith, e, h)))
                (λ q ne _. kept q ne) fuel off u;
        }
    go false e wt =
        let gone = gives (ground arith) in
        let ne = up-ne wt target gone.here (ground (arith, gone, wt.null_dead)) gone.childless in
        let p' = remove_node-others (answered s) target p (ground arith) in
        let d' = remove_node-others (answered s) target d (ground (arith, gone)) in
        let (roots, lives, moved, kept) =
          relink-parents (remove_node (answered s) target) p d name in
        record {
          formed =
              relink-IsWellFormed p d name
                (remove_node-IsWellFormed target wt gone.here (ground (arith, gone, wt.null_dead))
                  gone.childless)
                (ground (arith, p')) (ground (arith, p')) (ground (arith, d'));
          rooted =
              moved-IsRooted p d target g d_live (λ h. (gives h).childless) d_apart (roots ∙ p'.2)
                (λ q h. remove_node-lives (answered s) target q (sym (lives q) ∙ h)) moved
                (λ _. kept target apart ∙ remove_node-parent (answered s) target)
                (λ q ne other. kept q ne ∙ (remove_node-others (answered s) target q other).1) fuel
                off u;
        }

blocked→gives :
    {s : Vfs} (p target d : ℕ) (name : List ℕ)
    → IsWellFormed s
    → s.live d ≡ true
    → target ≡ child_named s d name
    → blocked s p target ≡ none
    → target ≢ 0
    → GivesWay s d target
unfolding blocked
blocked→gives {s} p target d name w d_live e b h =
    let c = child_named-live w d name d_live (ground arith) in
    record {
      here = ground (arith, c);
      up = ground (arith, c);
      childless = is_empty→nil (s.node target).children (ground arith);
    }

rename_to-Good :
    {s : Vfs} (fuel p : ℕ) (path : Option (List ℕ))
    → IsTree s
    → s.live p ≡ true
    → (s.node p).parent ≢ 0
    → Kept (rename_to fuel s p (lookup_parent s path))
rename_to-Good {s} fuel p path g p_live up = go (lookup_parent s path) refl
  where
    settle :
        (d : ℕ) (name : List ℕ) (o : Option Status)
        → s.live d ≡ true
        → Under s d
        → on_chain fuel s.node p d ≡ false
        → child_named s d name ≢ p
        → blocked s p (child_named s d name) ≡ o
        → Kept (elim o [ some e ↦ (e, s) | none ↦ move s p (child_named s d name) d name ])
    settle d name (some e) d_live u off apart b = g
    settle d name none d_live u off apart b =
        move-Good fuel p (child_named s d name) d name g p_live up d_live u off apart
          (blocked→gives p (child_named s d name) d name g.formed d_live refl b)

    go : (r : Parent) → lookup_parent s path ≡ r → Kept (rename_to fuel s p r)
    go (no_parent e) h = unfold rename_to in g
    go (parent d name) h =
        unfold rename_to in
        (let d_live = (lookup_parent-live g.formed path d name h).0 in
          let u = lookup_parent-Under g path d name h in
          let target = child_named s d name in
          if_elim Kept (on_chain fuel s.node p d) _ _ (λ _. g)
            λ off.
              if_elim Kept (target == p) _ _ (λ _. g)
                λ apart. settle d name (blocked s p target) d_live u off (ground arith) refl)

-- vfs_rename keeps the vnodes a tree, whatever it returns: the links up and down agree and lead to
-- allocated vnodes only, and from every vnode with a parent the chain of parents ends at the root, so that
-- no rename makes a cycle or cuts vnodes off.
pub vfs_rename-IsTree :
    {s : Vfs} (fuel : ℕ) (old_path new_path : Option (List ℕ))
    → IsTree s
    → IsTree (vfs_rename fuel s old_path new_path).1
unfolding vfs_rename
vfs_rename-IsTree {s} fuel old_path new_path g = go (lookup_parent s old_path) refl
  where
    go : (r : Parent) → lookup_parent s old_path ≡ r → Kept (rename_from fuel s new_path r)
    go (no_parent e) h = unfold rename_from in g
    go (parent d name) h =
        unfold rename_from in
        (let d_live = (lookup_parent-live g.formed old_path d name h).0 in
          let p = child_named s d name in
          if_elim Kept (p == 0) _ _ (λ _. g)
            λ found.
              let child = child_named-live g.formed d name d_live (ground arith) in
              rename_to-Good fuel p new_path g child.0
                (λ z. live-ne-zero g d d_live (sym child.1 ∙ z)))
