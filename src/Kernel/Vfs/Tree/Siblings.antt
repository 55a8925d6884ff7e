-- ===== src/Kernel/Vfs/Tree/Siblings.antt =====
-- Lists of siblings: membership, and no address twice.
use narc_os.Common.{ℕ, ◌≡◌, refl, arith, true, false, List, [], ◌∷◌, ◌++◌}
use narc_os.Common.{Bool-cases, inl, inr, ◌==◌, if◌then◌else◌, has}
use narc_os.Kernel.Vfs.Nodes.{unlist}

abbrev pub Distinct : List ℕ → Type 0
Distinct [] = Unit
Distinct (x ∷ xs) = (has x xs ≡ false) × Distinct xs

pub has-append_one :
    (a c : ℕ) (xs : List ℕ) → has a (xs ++ c ∷ []) ≡ (if a == c then true else has a xs)
unfolding has
has-append_one a c [] = ground arith
has-append_one a c (x ∷ xs) = ground (arith, has-append_one a c xs)

pub Distinct-append_one :
    (c : ℕ) (xs : List ℕ) → Distinct xs → has c xs ≡ false → Distinct (xs ++ c ∷ [])
unfolding has
Distinct-append_one c [] d h = (refl, tt)
Distinct-append_one c (x ∷ xs) d h =
    (ground (arith, has-append_one x c xs, d.0), Distinct-append_one c xs d.1 (ground arith))

pub has-unlist :
    (a p : ℕ) (xs : List ℕ)
    → Distinct xs
    → has a (unlist p xs) ≡ (if a == p then false else has a xs)
unfolding has unlist
has-unlist a p [] d = ground arith
has-unlist a p (x ∷ xs) d = ground (arith, has-unlist a p xs d.1, d.0)

pub Distinct-unlist : (p : ℕ) (xs : List ℕ) → Distinct xs → Distinct (unlist p xs)
unfolding unlist
Distinct-unlist p [] d = tt
Distinct-unlist p (x ∷ xs) d = elim (Bool-cases (x == p)) [
  | inl e ↦ rw e d.1
  | inr e ↦ rw e (ground (arith, has-unlist x p xs d.1, d.0), Distinct-unlist p xs d.1)
]
