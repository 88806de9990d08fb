-- ===== src/Prelude/Lists.antt =====
-- Lists measured by native numbers, and functions updated at one point.
use Prim.Native.Nat.{ℕ, suc, ◌+◌}
use mathlib.Core.Path.{◌≡◌, fun_ext}
use mathlib.Core.List.{List, [], ◌∷◌, ◌++◌}
use native.Mathlib.Omega.{arith}
use cs170lab.Prelude.Tests.{◌==◌, if◌then◌else◌}

module _ {ℓ} {A : Type ℓ} where
  abbrev pub length : List A → ℕ
  length [] = 0
  length (x ∷ xs) = suc (length xs)

  pub length-append : (xs ys : List A) → length (xs ++ ys) ≡ length xs + length ys
  length-append [] ys = omega arith
  length-append (x ∷ xs) ys = omega (arith, length-append xs ys)

  -- `f`, but `v` at `p`: a store into an array, or into the memory at a pointer.
  abbrev pub update : (ℕ → A) → ℕ → A → ℕ → A
  update f p v q = if p == q then v else f q

module _ {ℓ} {A : Type ℓ} where
  -- The second of two stores at one point is what counts.
  pub update-update : (f : ℕ → A) (p : ℕ) (v w : A) → update (update f p v) p w ≡ update f p w
  update-update f p v w = fun_ext λ q. ground arith

  -- Storing what is there changes nothing.
  pub update_same : (f : ℕ → A) (p : ℕ) (v : A) → f p ≡ v → update f p v ≡ f
  update_same f p v e = fun_ext λ q. ground arith
