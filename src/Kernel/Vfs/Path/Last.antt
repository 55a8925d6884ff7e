-- ===== src/Kernel/Vfs/Path/Last.antt =====
-- lookup_parent finds the vnode of all components but the last.
use narc_os.Common.{ℕ, zero, suc, ◌-◌, ◌≤◌, ◌<◌, ◌≡◌, refl, sym, ap, ap₂, ◌∙◌, ◌≢◌, arith}
use narc_os.Common.{◌||◌, List, [], ◌∷◌, ◌++◌, ◌==◌, if◌then◌else◌, length}
use narc_os.Common.{
  ◌⊎◌, inl, inr, get_or, take, drop, leb, length-take, length-drop, take-nil, Bool-cases, ==_iff,
  some,
}
use mathlib.Core.List.{append-nil, append_assoc}
use narc_os.Kernel.Vfs.State.{Vfs, invalid, name_max}
use narc_os.Kernel.Vfs.Path.{Parent, no_parent, dot_name, parent_of, trim_end, name_start}
use narc_os.Kernel.Vfs.Path.{slice, lookup_parent_at, lookup_parent}
use narc_os.Kernel.Vfs.Path.Resolve.{keep, split, components, resolve, walk-resolve}

abbrev pub parent_from : Vfs → List (List ℕ) → List ℕ → Parent
parent_from s names name =
    if dot_name name || leb name_max (length name)
    then no_parent invalid
    else parent_of s name (resolve s s.root names)

-- The last of the components, behind those of `names`.
abbrev pub parent_spec : Vfs → List (List ℕ) → List (List ℕ) → Parent
parent_spec s names [] = no_parent invalid
parent_spec s names (name ∷ []) = parent_from s names name
parent_spec s names (name ∷ next ∷ rest) = parent_spec s (names ++ name ∷ []) (next ∷ rest)

pub parent_spec-append :
    (s : Vfs) (pre names : List (List ℕ)) (name : List ℕ)
    → parent_spec s pre (names ++ name ∷ []) ≡ parent_from s (pre ++ names) name
parent_spec-append s pre [] name = rw append-nil refl
parent_spec-append s pre (n ∷ []) name = refl
parent_spec-append s pre (n ∷ m ∷ names) name =
    parent_spec-append s (pre ++ n ∷ []) (m ∷ names) name
    ∙ ap (λ l. parent_from s l name) (append_assoc pre (n ∷ []) (m ∷ names))

trim_end-le : (p : List ℕ) (n : ℕ) → trim_end p n ≤ n
unfolding trim_end
trim_end-le p zero = omega arith
trim_end-le p (suc n) = ground (arith, trim_end-le p n)

trim_end_tail : (p : List ℕ) (n i : ℕ) → trim_end p n ≤ i → i < n → get_or p i 0 ≡ b'/'
unfolding trim_end
trim_end_tail p zero i h k = absurd (omega arith)
trim_end_tail p (suc n) i h k = ground (arith, trim_end_tail p n i)

trim_end_stop : (p : List ℕ) (n : ℕ) → (trim_end p n ≡ 0) ⊎ (get_or p (trim_end p n - 1) 0 ≢ b'/')
unfolding trim_end
trim_end_stop p zero = inl refl
trim_end_stop p (suc n) = ground (arith, trim_end_stop p n)

name_start-le : (p : List ℕ) (n : ℕ) → name_start p n ≤ n
unfolding name_start
name_start-le p zero = omega arith
name_start-le p (suc n) = ground (arith, name_start-le p n)

name_start_tail : (p : List ℕ) (n i : ℕ) → name_start p n ≤ i → i < n → get_or p i 0 ≢ b'/'
unfolding name_start
name_start_tail p zero i h k = absurd (omega arith)
name_start_tail p (suc n) i h k = ground (arith, name_start_tail p n i)

name_start_stop :
    (p : List ℕ) (n : ℕ) → (name_start p n ≡ 0) ⊎ (get_or p (name_start p n - 1) 0 ≡ b'/')
unfolding name_start
name_start_stop p zero = inl refl
name_start_stop p (suc n) = ground (arith, name_start_stop p n)

-- Slashes at the end make no component.
split-take :
    (p : List ℕ) (e : ℕ)
    → ((i : ℕ) → e ≤ i → i < length p → get_or p i 0 ≡ b'/')
    → split p ≡ split (take e p)
split-take [] zero h = refl
split-take [] (suc e) h = refl
split-take (c ∷ r) zero h =
    ground (arith, h 0, split-take r zero (λ i a b. h (suc i) (omega arith) (omega arith)))
split-take (c ∷ r) (suc e) h =
    ground (arith, split-take r e (λ i a b. h (suc i) (omega arith) (omega arith)))

keep-append : (n : List ℕ) (a b : List (List ℕ)) → keep n (a ++ b) ≡ keep n a ++ b
keep-append [] a b = refl
keep-append (x ∷ n) a b = refl

split_no_slash : (q : List ℕ) → ((i : ℕ) → i < length q → get_or q i 0 ≢ b'/') → split q ≡ (q, [])
split_no_slash [] h = refl
split_no_slash (c ∷ r) h = ground (arith, h 0, split_no_slash r (λ i k. h (suc i) (omega arith)))

-- Behind a slash a run without slashes is the last component.
split_last :
    (q : List ℕ) (st : ℕ)
    → st < length q
    → get_or q st 0 ≡ b'/'
    → ((i : ℕ) → st < i → i < length q → get_or q i 0 ≢ b'/')
    → ((split q).0 ≡ (split (take (suc st) q)).0)
      × ((split q).1 ≡ (split (take (suc st) q)).1 ++ keep (drop (suc st) q) [])
split_last [] st lt e h = absurd (omega arith)
split_last (c ∷ r) zero lt e h =
    ground (arith, split_no_slash r (λ i k. h (suc i) (omega arith) (omega arith)))
split_last (c ∷ r) (suc st) lt e h =
    let ih = split_last r st (omega arith) e (λ i a b. h (suc i) (omega arith) (omega arith)) in
    ground (
      arith,
      ih,
      keep-append (split (take (suc st) r)).0 (split (take (suc st) r)).1
          (keep (drop (suc st) r) []),
    )

components_last :
    (q : List ℕ) (st : ℕ)
    → st ≤ length q
    → (st ≡ 0) ⊎ (get_or q (st - 1) 0 ≡ b'/')
    → ((i : ℕ) → st ≤ i → i < length q → get_or q i 0 ≢ b'/')
    → components q ≡ components (take st q) ++ keep (drop st q) []
components_last q zero le stop h = ground (arith, split_no_slash q (λ i k. h i (omega arith) k))
components_last q (suc st) le (inl e) h = absurd (omega arith)
components_last q (suc st) le (inr e) h =
    let e' : suc st - 1 ≡ st = omega arith in
    let parts = split_last q st (omega arith) (rw e' at e) (λ i a b. h i (omega arith) b) in
    ground (
      arith,
      parts,
      keep-append (split (take (suc st) q)).0 (split (take (suc st) q)).1
          (keep (drop (suc st) q) []),
    )

drop-take : (p : List ℕ) (st e : ℕ) → drop st (take e p) ≡ take (e - st) (drop st p)
drop-take p zero e = ap (λ k. take k p) (omega arith)
drop-take [] (suc st) zero = sym (take-nil (0 - suc st))
drop-take [] (suc st) (suc e) = sym (take-nil (suc e - suc st))
drop-take (c ∷ r) (suc st) zero = let e : 0 - suc st ≡ 0 = omega arith in rw e refl
drop-take (c ∷ r) (suc st) (suc e) = drop-take r st e ∙ ap (λ k. take k (drop st r)) (omega arith)

take-take : (p : List ℕ) (st e : ℕ) → st ≤ e → take st (take e p) ≡ take st p
take-take p zero e h = refl
take-take p (suc st) zero h = absurd (omega arith)
take-take [] (suc st) (suc e) h = refl
take-take (c ∷ r) (suc st) (suc e) h = ap (λ l. c ∷ l) (take-take r st e (omega arith))

get_or-take : (p : List ℕ) (e i : ℕ) → i < e → get_or (take e p) i 0 ≡ get_or p i 0
get_or-take p zero i h = absurd (omega arith)
get_or-take [] (suc e) i h = refl
get_or-take (c ∷ r) (suc e) zero h = refl
get_or-take (c ∷ r) (suc e) (suc i) h = get_or-take r e i (omega arith)

-- The components of a path, by the ends that lookup_parent finds.
components_ends :
    (p : List ℕ)
    → let e = trim_end p (length p) in
      let st = name_start p e in components p ≡ components (take st p) ++ keep (slice p st e) []
components_ends p =
    let e = trim_end p (length p) in
    let st = name_start p e in
    let low = trim_end-le p (length p) in
    let mid = name_start-le p e in
    let len : length (take e p) ≡ e = omega (arith, length-take e p) in
    ap (λ c. keep c.0 c.1) (split-take p e (trim_end_tail p (length p)))
    ∙ components_last (take e p) st (omega arith) (stop (name_start_stop p e))
        (λ i a b. rw (get_or-take p e i (omega arith)) (name_start_tail p e i a (omega arith)))
    ∙ ap₂ (λ x y. components x ++ keep y []) (take-take p st e mid) (drop-take p st e)
  where
    stop :
        (name_start p (trim_end p (length p)) ≡ 0)
          ⊎ (get_or p (name_start p (trim_end p (length p)) - 1) 0 ≡ b'/')
        → (name_start p (trim_end p (length p)) ≡ 0)
          ⊎ (get_or (take (trim_end p (length p)) p) (name_start p (trim_end p (length p)) - 1) 0
              ≡ b'/')
    stop h = ground (
      arith,
      h,
      name_start-le p (trim_end p (length p)),
      get_or-take p (trim_end p (length p)) (name_start p (trim_end p (length p)) - 1),
    )

-- No name stands between the two ends only if there is no component.
none_between :
    (p : List ℕ) → name_start p (trim_end p (length p)) ≡ trim_end p (length p) → components p ≡ []
none_between p same =
    let e = trim_end p (length p) in
    let start : e ≡ 0 = ground (arith, trim_end_stop p (length p), name_start_stop p e, same) in
    components_ends p ∙ rw (same, start) refl

keep_one : (n : List ℕ) → 0 < length n → keep n [] ≡ n ∷ []
keep_one [] h = elim h [ ]
keep_one (c ∷ n) h = refl

lookup_parent_at-spec :
    (s : Vfs) (p : List ℕ)
    → get_or p 0 0 ≡ b'/'
    → let e = trim_end p (length p) in
      lookup_parent_at s p (name_start p e) e ≡ parent_spec s [] (components p)
unfolding lookup_parent_at
lookup_parent_at-spec s p slash =
    let e = trim_end p (length p) in
    let st = name_start p e in
    elim (Bool-cases (st == e)) [
      | inl same ↦ rw (same, none_between p ((==_iff st e).0 same)) refl
      | inr other ↦
          let le = name_start-le p e in
          let top = trim_end-le p (length p) in
          let lt : st < e = ground arith in
          let some_slash : 0 < st = ground (arith, name_start_tail p e 0) in
          let len : length (slice p st e) ≡ e - st =
            omega (arith, length-take (e - st) (drop st p), length-drop st p) in
          rw
            (
              other,
              components_ends p,
              keep_one (slice p st e) (omega arith),
              parent_spec-append s [] (components (take st p)) (slice p st e),
            )
            (ground (arith, walk-resolve s (take st p), get_or-take p st 0 some_slash))
    ]

-- lookup_parent on a path that begins with a slash splits off the last component, whatever the
-- slashes behind it: a path with no component, and a last component that is `.` or `..` or has 64
-- bytes or more, are invalid; otherwise the other components are followed from the root, and must
-- lead to a directory.
pub lookup_parent-spec :
    (s : Vfs) (path : List ℕ)
    → lookup_parent s (some path)
      ≡ (if get_or path 0 0 == b'/' then parent_spec s [] (components path) else no_parent invalid)
unfolding lookup_parent
lookup_parent-spec s path = ground (arith, lookup_parent_at-spec s path)
