-- ===== src/Userland/Pablo/Config/Sort.antt =====
-- sort_names puts the names in order and loses none.
use mathlib.Core.List.{Perm, Pairwise, mem-cons, Pairwise-cons, Pairwise-reverse}
use mathlib.Core.List.{not-mem-nil, append-nil, perm_middle, reverse_perm}
use mathlib.Core.List.Perm
use mathlib.Core.Logic.Or
use narc_os.Common.{ℕ, ◌≡◌, refl, arith, true, false, List, [], ◌∷◌, ◌++◌, inl, inr, Bool-cases}
use narc_os.Userland.Pablo.Config.{strcmp, is_after, sink, sort_onto, sort_names}

is_after_asym : (a b : List ℕ) → is_after a b ≡ true → is_after b a ≡ false
unfolding strcmp
is_after_asym [] [] h = cc
is_after_asym [] (y ∷ b) h = cc
is_after_asym (x ∷ a) [] h = refl
is_after_asym (x ∷ a) (y ∷ b) h = ground (arith, is_after_asym a b)

is_after_trans :
    (a b c : List ℕ) → is_after a b ≡ false → is_after b c ≡ false → is_after a c ≡ false
unfolding strcmp
is_after_trans [] b [] h k = refl
is_after_trans [] b (z ∷ c) h k = refl
is_after_trans (x ∷ a) [] c h k = cc
is_after_trans (x ∷ a) (y ∷ b) [] h k = cc
is_after_trans (x ∷ a) (y ∷ b) (z ∷ c) h k = ground (arith, is_after_trans a b c)

-- In the order of the array, which is kept last name first.
abbrev NotBefore : List ℕ → List ℕ → Type 0
NotBefore a b = is_after b a ≡ false

not_after_prop : (a b : List ℕ) → IsProp (is_after a b ≡ false)
not_after_prop a b = hlevel

sink-perm : (c : List ℕ) (l : List (List ℕ)) → Perm (sink c l) (c ∷ l)
unfolding sink
sink-perm c [] = Perm.refl (c ∷ [])
sink-perm c (n ∷ r) = elim (Bool-cases (is_after n c)) [
  | inl e ↦ rw e (Perm.trans (Perm.cons n (sink-perm c r)) (Perm.swap c n r))
  | inr e ↦ rw e (Perm.refl (c ∷ n ∷ r))
]

sink-Pairwise :
    (c : List ℕ) (l : List (List ℕ)) → Pairwise NotBefore l → Pairwise NotBefore (sink c l)
unfolding sink
sink-Pairwise c [] h = Pairwise-cons.1 (λ m k. absurd (not-mem-nil k), h)
sink-Pairwise c (n ∷ r) h = elim (Bool-cases (is_after n c)) [
  | inl e ↦ rw e (
      Pairwise-cons.1 (
        λ m k.
            Or.elim (not_after_prop m n) (mem-cons.0 ((Perm.mem_iff (sink-perm c r)).0 k))
              (λ f. rw f (is_after_asym n c e)) (λ k'. (Pairwise-cons.0 h).0 m k'),
        sink-Pairwise c r (Pairwise-cons.0 h).1,
      ))
  | inr e ↦ rw e (
      Pairwise-cons.1 (
        λ m k.
            Or.elim (not_after_prop m c) (mem-cons.0 k) (λ f. rw f e)
              (λ k'. is_after_trans m n c ((Pairwise-cons.0 h).0 m k') e),
        h,
      ))
]

sort_onto_lem :
    (sorted names : List (List ℕ))
    → Pairwise NotBefore sorted
    → Pairwise NotBefore (sort_onto sorted names) × Perm (sort_onto sorted names) (sorted ++ names)
unfolding sort_onto
sort_onto_lem sorted [] h = (h, rw append-nil (Perm.refl sorted))
sort_onto_lem sorted (n ∷ r) h =
    let rest = sort_onto_lem (sink n sorted) r (sink-Pairwise n sorted h) in
    (
      rest.0,
      Perm.trans rest.1 (
          Perm.trans (Perm.append_right r (sink-perm n sorted)) (Perm.symm (perm_middle sorted r))),
    )

-- sort_names yields the same names, as often, none of them after a later one in the order of strcmp.
pub sort_names_lem :
    (names : List (List ℕ))
    → Pairwise (λ a b. is_after a b ≡ false) (sort_names names) × Perm (sort_names names) names
unfolding sort_names
sort_names_lem names =
    let r = sort_onto_lem [] names Pairwise.nil in
    (
      (Pairwise-reverse (λ a b. not_after_prop a b)).1 r.0,
      Perm.trans (reverse_perm (sort_onto [] names)) r.1,
    )
