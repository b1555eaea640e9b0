-- ===== src/Base/Index.antt =====
-- Row-major indices of an image.
use Prim.Native.Nat.{ℕ, ◌+◌, ◌*◌, ◌<◌}
use mathlib.Core.Path.{◌≡◌, ap}
use native.Mathlib.Omega.{arith}
use native.Mathlib.Decide.{dec_lt}

-- A cell of row `t` lies before every cell of a later row.
row_before : (w c t c' t' : ℕ) → c < w → t < t' → t * w + c < t' * w + c'
row_before w c t c' t' h lt = grind arith

pub index_injective :
    (w c t c' t' : ℕ) → c < w → c' < w → t * w + c ≡ t' * w + c' → (c ≡ c') × (t ≡ t')
index_injective w c t c' t' h h' e = elim (dec_lt t t') [
  | yes lt ↦ absurd (omega (arith, row_before w c t c' t' h lt))
  | no ge ↦ elim (dec_lt t' t) [
    | yes lt ↦ absurd (omega (arith, row_before w c' t' c t h' lt))
    | no le ↦ let same : t ≡ t' = omega arith in (omega (arith, ap (λ k. k * w) same), same)
  ]
]

pub index-lt : (w h c t : ℕ) → c < w → t < h → t * w + c < w * h
index-lt w h c t hc ht = grind arith
