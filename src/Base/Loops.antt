-- ===== src/Base/Loops.antt =====
-- Counted loops whose body may fault, with the rule that proves them.
use Prim.Native.Nat.{ℕ, zero, suc, ◌+◌, ◌≤◌, ◌<◌}
use mathlib.Core.Path.{◌≡◌, refl, subst}
use mathlib.Core.Option.{Option, none, some}
use native.Mathlib.Omega.{arith}

module _ {ℓ} {S : Type ℓ} (body : ℕ → S → Option S) where
  -- `for (i = start; i < start + n; ++i)`; a fault of the body ends the loop.
  pub for_from : ℕ → ℕ → S → Option S
  for_from i zero s = some s
  for_from i (suc n) s = elim (body i s) [ none ↦ none | some t ↦ for_from (i + 1) n t ]

  pub for_from_inv {κ} :
      (P : ℕ → S → Type κ) (i n : ℕ) (s : S)
      → ((j : ℕ) (t : S) → i ≤ j → j < i + n → P j t → (u : S) × (body j t ≡ some u) × P (j + 1) u)
      → P i s
      → (u : S) × (for_from i n s ≡ some u) × P (i + n) u
  unfolding for_from
  for_from_inv P i zero s step p = (s, refl, subst (λ k. P k s) (omega arith) p)
  for_from_inv P i (suc n) s step p =
      let (t, run, q) = step i s (omega arith) (omega arith) p in
      let (u, rest, r) =
        for_from_inv P (i + 1) n t (λ j v lo hi. step j v (omega arith) (omega arith)) q in
      (u, rw (run, for_from) rest, subst (λ k. P k u) (omega arith) r)
