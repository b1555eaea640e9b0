-- ===== src/Base/Int.antt =====
-- Signed integers over the native numbers, under the library's names. The C++ `int` values of the
-- program are modelled by them.
use Prim.Native.Nat.{ℕ, suc, ◌+◌, ◌-◌, ◌*◌, ◌≤◌, ◌<◌}
use mathlib.Core.Path.{◌≡◌, refl, ap}
use mathlib.Core.Logic.{◌≢◌, ◌⊎◌, inl, inr}
use mathlib.Core.Bool.{Bool, true, false}
use native.Mathlib.Omega.{arith}
use rmcast.Base.Tests.{ltb, leb, if◌then◌else◌, ◌==◌}

-- `negsuc n` is -(n + 1).
pub data ℤ : Type 0 where
  pos : ℕ → ℤ
  negsuc : ℕ → ℤ

abbrev pub pos_part : ℤ → ℕ
pos_part (pos n) = n
pos_part (negsuc n) = 0

abbrev pub neg_part : ℤ → ℕ
neg_part (pos n) = 0
neg_part (negsuc n) = suc n

-- a - b, as an integer.
abbrev pub sub_ℕ : ℕ → ℕ → ℤ
sub_ℕ a b = if leb b a then pos (a - b) else negsuc (b - a - 1)

infixl 65 ◌+ℤ◌ ◌-ℤ◌
infixl 70 ◌*ℤ◌
infix 50 ◌≤ℤ◌ ◌<ℤ◌
unfoldable pub ◌+ℤ◌ : ℤ → ℤ → ℤ
a +ℤ b = sub_ℕ (pos_part a + pos_part b) (neg_part a + neg_part b)

unfoldable pub ◌-ℤ◌ : ℤ → ℤ → ℤ
a -ℤ b = sub_ℕ (pos_part a + neg_part b) (neg_part a + pos_part b)

unfoldable pub ◌*ℤ◌ : ℤ → ℤ → ℤ
a *ℤ b =
    sub_ℕ (pos_part a * pos_part b + neg_part a * neg_part b)
      (pos_part a * neg_part b + neg_part a * pos_part b)

abbrev pub ◌≤ℤ◌ : ℤ → ℤ → Type 0
a ≤ℤ b = pos_part a + neg_part b ≤ pos_part b + neg_part a

abbrev pub ◌<ℤ◌ : ℤ → ℤ → Type 0
a <ℤ b = pos_part a + neg_part b < pos_part b + neg_part a

-- The comparisons of the source, as tests.
unfoldable pub ltb_ℤ : ℤ → ℤ → Bool
ltb_ℤ a b = ltb (pos_part a + neg_part b) (pos_part b + neg_part a)

unfoldable pub leb_ℤ : ℤ → ℤ → Bool
leb_ℤ a b = leb (pos_part a + neg_part b) (pos_part b + neg_part a)

unfoldable pub eq_ℤ : ℤ → ℤ → Bool
eq_ℤ a b = pos_part a + neg_part b == pos_part b + neg_part a

pub ltb_ℤ-cases : (a b : ℤ) → ((ltb_ℤ a b ≡ true) × (a <ℤ b)) ⊎ ((ltb_ℤ a b ≡ false) × (b ≤ℤ a))
unfolding ltb_ℤ
ltb_ℤ-cases a b = ground arith

pub leb_ℤ-cases : (a b : ℤ) → ((leb_ℤ a b ≡ true) × (a ≤ℤ b)) ⊎ ((leb_ℤ a b ≡ false) × (b <ℤ a))
unfolding leb_ℤ
leb_ℤ-cases a b = ground arith

pub eq_of_parts : (a b : ℤ) → pos_part a + neg_part b ≡ pos_part b + neg_part a → a ≡ b
eq_of_parts a b h = ground arith

pub eq_ℤ-cases :
    (a b : ℤ) → ((eq_ℤ a b ≡ true) × (a ≡ b)) ⊎ ((eq_ℤ a b ≡ false) × ((a <ℤ b) ⊎ (b <ℤ a)))
unfolding eq_ℤ
eq_ℤ-cases a b = ground (arith, eq_of_parts a b)

pub +ℤ_parts :
    (a b : ℤ)
    → pos_part (a +ℤ b) + neg_part a + neg_part b ≡ neg_part (a +ℤ b) + pos_part a + pos_part b
unfolding ◌+ℤ◌
+ℤ_parts a b = ground arith

pub -ℤ_parts :
    (a b : ℤ)
    → pos_part (a -ℤ b) + neg_part a + pos_part b ≡ neg_part (a -ℤ b) + pos_part a + neg_part b
unfolding ◌-ℤ◌
-ℤ_parts a b = ground arith

pub ruleset int_laws = (arith, +ℤ_parts, -ℤ_parts, eq_of_parts)

-- `std::min` and `std::max`.
unfoldable pub min_ℤ : ℤ → ℤ → ℤ
min_ℤ a b = if ltb_ℤ b a then b else a

unfoldable pub max_ℤ : ℤ → ℤ → ℤ
max_ℤ a b = if ltb_ℤ a b then b else a

pub min_ℤ_parts :
    (a b : ℤ)
    → (min_ℤ a b ≤ℤ a)
      × (min_ℤ a b ≤ℤ b)
      × ((pos_part (min_ℤ a b) + neg_part a ≡ pos_part a + neg_part (min_ℤ a b))
          ⊎ (pos_part (min_ℤ a b) + neg_part b ≡ pos_part b + neg_part (min_ℤ a b)))
unfolding min_ℤ
min_ℤ_parts a b = elim (ltb_ℤ-cases b a) [
  | inl (e, h) ↦ rw e (omega arith, omega arith, inr (omega arith))
  | inr (e, h) ↦ rw e (omega arith, omega arith, inl (omega arith))
]

pub max_ℤ_parts :
    (a b : ℤ)
    → (a ≤ℤ max_ℤ a b)
      × (b ≤ℤ max_ℤ a b)
      × ((pos_part (max_ℤ a b) + neg_part a ≡ pos_part a + neg_part (max_ℤ a b))
          ⊎ (pos_part (max_ℤ a b) + neg_part b ≡ pos_part b + neg_part (max_ℤ a b)))
unfolding max_ℤ
max_ℤ_parts a b = elim (ltb_ℤ-cases a b) [
  | inl (e, h) ↦ rw e (omega arith, omega arith, inr (omega arith))
  | inr (e, h) ↦ rw e (omega arith, omega arith, inl (omega arith))
]

-- At most one part of an integer is not 0.
pub parts_disjoint : (a : ℤ) → (pos_part a ≡ 0) ⊎ (neg_part a ≡ 0)
parts_disjoint (pos n) = inr refl
parts_disjoint (negsuc n) = inl refl

pub sub_cancel : (a b c : ℤ) → a -ℤ b ≡ a -ℤ c → b ≡ c
sub_cancel a b c e = omega (int_laws, ap pos_part e, ap neg_part e)

pub pos_mul : (a b : ℕ) → pos a *ℤ pos b ≡ pos (a * b)
unfolding ◌*ℤ◌
pos_mul a b = ground arith

pub eq_ℤ_self : (a : ℤ) → eq_ℤ a a ≡ true
unfolding eq_ℤ
eq_ℤ_self a = ground arith

-- The cases of a test for equality, with inequality as such.
pub eq_ℤ-split : (a b : ℤ) → ((eq_ℤ a b ≡ true) × (a ≡ b)) ⊎ ((eq_ℤ a b ≡ false) × (a ≢ b))
eq_ℤ-split a b = elim (eq_ℤ-cases a b) [
  | inl h ↦ inl h
  | inr (e, apart) ↦ inr (e, λ same. differ same e)
]
  where
    differ : a ≡ b → eq_ℤ a b ≡ false → ⊥
    differ same e = cc (same, e, eq_ℤ_self a)

pub eq_ℤ_apart : (n k : ℕ) → eq_ℤ (pos n) (negsuc k) ≡ false
unfolding eq_ℤ
eq_ℤ_apart n k = ground arith
