-- ===== src/Userland/Pablo/Text/Trim.antt =====
-- pablo_trim: what it takes away.
use narc_os.Common.{ℕ, ◌≡◌, refl, ap, ◌∙◌, true, false, List, [], ◌∷◌, ◌++◌, All}
use narc_os.Common.{inl, inr, Bool-cases}
use narc_os.Userland.Pablo.Text.{space, trim_start, trim_end, put_front, pablo_trim}

abbrev pub IsSpace : ℕ → Type 0
IsSpace c = space c ≡ true

-- Neither the first nor the last byte is a space.
abbrev pub NoSpaceFirst : List ℕ → Type 0
NoSpaceFirst [] = Unit
NoSpaceFirst (c ∷ r) = space c ≡ false

abbrev pub NoSpaceLast : List ℕ → Type 0
NoSpaceLast [] = Unit
NoSpaceLast (c ∷ []) = space c ≡ false
NoSpaceLast (c ∷ d ∷ r) = NoSpaceLast (d ∷ r)

trim_start_lem :
    (t : List ℕ)
    → (before : List ℕ) × (t ≡ before ++ trim_start t)
      × All IsSpace before
      × NoSpaceFirst (trim_start t)
unfolding trim_start
trim_start_lem [] = ([], refl, tt, tt)
trim_start_lem (c ∷ r) = elim (Bool-cases (space c)) [
  | inl e ↦ let h = trim_start_lem r in rw e (c ∷ h.0, ap (λ l. c ∷ l) h.1, (e, h.2), h.3)
  | inr e ↦ rw e ([], refl, tt, e)
]

trim_end_lem :
    (t : List ℕ)
    → (behind : List ℕ) × (t ≡ trim_end t ++ behind) × All IsSpace behind × NoSpaceLast (trim_end t)
unfolding trim_end
trim_end_lem [] = ([], refl, tt, tt)
trim_end_lem (c ∷ r) = go (trim_end r) (trim_end_lem r)
  where
    go :
        (k : List ℕ)
        → (behind : List ℕ) × (r ≡ k ++ behind) × All IsSpace behind × NoSpaceLast k
        → (behind : List ℕ) × (c ∷ r ≡ put_front c k ++ behind)
          × All IsSpace behind
          × NoSpaceLast (put_front c k)
    go [] h = elim (Bool-cases (space c)) [
      | inl e ↦ rw e (c ∷ h.0, ap (λ l. c ∷ l) h.1, (e, h.2), tt)
      | inr e ↦ rw e (h.0, ap (λ l. c ∷ l) h.1, h.2, e)
    ]
    go (d ∷ k) h = (h.0, ap (λ l. c ∷ l) h.1, h.2, h.3)

NoSpaceFirst-append : (a b : List ℕ) → NoSpaceFirst (a ++ b) → NoSpaceFirst a
NoSpaceFirst-append [] b h = tt
NoSpaceFirst-append (c ∷ a) b h = h

-- pablo_trim takes away nothing but spaces at the two ends, and leaves none there.
pub pablo_trim_lem :
    (t : List ℕ)
    → (before behind : List ℕ) × (t ≡ before ++ (pablo_trim t ++ behind))
      × All IsSpace before
      × All IsSpace behind
      × NoSpaceFirst (pablo_trim t)
      × NoSpaceLast (pablo_trim t)
unfolding pablo_trim
pablo_trim_lem t =
    let a = trim_start_lem t in
    let b = trim_end_lem (trim_start t) in
    (
      a.0,
      b.0,
      a.1 ∙ ap (λ l. a.0 ++ l) b.1,
      a.2,
      b.2,
      NoSpaceFirst-append (trim_end (trim_start t)) b.0 (rw b.1 at a.3),
      b.3,
    )
