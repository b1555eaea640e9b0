-- ===== src/Manager/Maps.antt =====
-- Laws of the maps of the framebuffer manager.
use rmcast.Base.{ℕ, ◌≡◌, ◌≢◌, ◌⊎◌, inl, inr, refl, Option, arith, ◌==◌, ==_iff, Bool-cases}
use rmcast.Base.Int.{ℤ, eq_ℤ-split, eq_ℤ_self}
use rmcast.Manager.{Keyed, put, update}

module _ {ℓ} {V : Type ℓ} where
  pub update_self : (f : ℕ → V) (i : ℕ) (v : V) → update f i v i ≡ v
  unfolding update
  update_self f i v = ground arith

  pub update_ne : (f : ℕ → V) (i : ℕ) (v : V) (j : ℕ) → j ≢ i → update f i v j ≡ f j
  unfolding update
  update_ne f i v j h = ground arith

  pub update-cases :
      (f : ℕ → V) (i : ℕ) (v : V) (j : ℕ)
      → ((j ≡ i) × (update f i v j ≡ v)) ⊎ ((j ≢ i) × (update f i v j ≡ f j))
  unfolding update
  update-cases f i v j = elim (Bool-cases (j == i)) [
    | inl e ↦ inl ((==_iff j i).0 e, rw e refl)
    | inr e ↦ inr (λ h. ground arith, rw e refl)
  ]

  pub put_self : (m : Keyed V) (k : ℤ) (v : Option V) → put m k v k ≡ v
  unfolding put
  put_self m k v = rw eq_ℤ_self refl

  pub put-cases :
      (m : Keyed V) (k : ℤ) (v : Option V) (j : ℤ)
      → ((j ≡ k) × (put m k v j ≡ v)) ⊎ ((j ≢ k) × (put m k v j ≡ m j))
  unfolding put
  put-cases m k v j = elim (eq_ℤ-split j k) [
    | inl (e, h) ↦ inl (h, rw e refl)
    | inr (e, h) ↦ inr (h, rw e refl)
  ]

  pub put_ne : (m : Keyed V) (k : ℤ) (v : Option V) (j : ℤ) → j ≢ k → put m k v j ≡ m j
  put_ne m k v j apart = elim (put-cases m k v j) [ inl (h, e) ↦ absurd (apart h) | inr (h, e) ↦ e ]
