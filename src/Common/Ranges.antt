-- ===== src/Common/Ranges.antt =====
-- Runs of consecutive values of a function, and the sequences that they make.
use Prim.Native.Nat.{ℕ, zero, suc, ◌+◌, ◌<◌}
use mathlib.Core.Path.{◌≡◌, refl, sym, ap, ap₂, ◌∙◌}
use mathlib.Core.List.{List, [], ◌∷◌, ◌++◌}
use native.Mathlib.Omega.{arith}
use native.Mathlib.Nat.{add-zero}
use narc_os.Common.Lists.{length}

-- The `n` bytes that `f` holds from `i` on.
unfoldable pub bytes_from : (ℕ → ℕ) → ℕ → ℕ → List ℕ
bytes_from f i zero = []
bytes_from f i (suc n) = f i ∷ bytes_from f (i + 1) n

pub length-bytes_from : (f : ℕ → ℕ) (i n : ℕ) → length (bytes_from f i n) ≡ n
unfolding bytes_from
length-bytes_from f i zero = refl
length-bytes_from f i (suc n) = ap suc (length-bytes_from f (i + 1) n)

pub bytes_from-append :
    (f : ℕ → ℕ) (i j n m : ℕ)
    → j ≡ i + n
    → bytes_from f i n ++ bytes_from f j m ≡ bytes_from f i (n + m)
unfolding bytes_from
bytes_from-append f i j zero m e =
    let e' : j ≡ i = omega arith in ap₂ (λ a b. bytes_from f a b) e' (omega arith)
bytes_from-append f i j (suc n) m e =
    let s : suc n + m ≡ suc (n + m) = omega arith in
    ap (λ l. f i ∷ l) (bytes_from-append f (i + 1) j n m (omega arith))
    ∙ ap (bytes_from f i) (sym s)

-- Only the values in the run matter.
pub bytes_from-congr :
    (f g : ℕ → ℕ) (i j n : ℕ)
    → ((k : ℕ) → k < n → f (i + k) ≡ g (j + k))
    → bytes_from f i n ≡ bytes_from g j n
unfolding bytes_from
bytes_from-congr f g i j zero h = refl
bytes_from-congr f g i j (suc n) h = ap₂ ◌∷◌ (rw (← add-zero i, ← add-zero j) (h 0 (omega arith))) (
    bytes_from-congr f g (i + 1) (j + 1) n λ k lt.
      let e : (a : ℕ) → a + 1 + k ≡ a + suc k = (λ a. omega arith) in
      rw (e i, e j) (h (suc k) (omega arith)))
