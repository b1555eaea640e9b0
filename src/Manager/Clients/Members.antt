-- ===== src/Manager/Clients/Members.antt =====
-- The lists of clients that share a framebuffer: `push_back`, and `std::find` with `erase`, on lists
-- without repetition.
use rmcast.Base.{
  ℕ, ◌≡◌, ◌⊎◌, inl, inr, sym, subst, List, [], ◌∷◌, ◌++◌, ◌==◌, ==_iff, arith, Bool-cases,
}
use rmcast.Manager.Clients.{erase}

abbrev pub In : ℕ → List ℕ → Type 0
In c [] = ⊥
In c (d ∷ ds) = (d ≡ c) ⊎ In c ds

abbrev pub IsNodup : List ℕ → Type 0
IsNodup [] = Unit
IsNodup (d ∷ ds) = (¬ In d ds) × IsNodup ds

pub In-append : (c d : ℕ) (ds : List ℕ) → In c (ds ++ d ∷ []) → In c ds ⊎ (d ≡ c)
In-append c d [] (inl e) = inr e
In-append c d [] (inr h) = elim h [ ]
In-append c d (x ∷ ds) (inl e) = inl (inl e)
In-append c d (x ∷ ds) (inr h) = elim (In-append c d ds h) [ inl k ↦ inl (inr k) | inr e ↦ inr e ]

pub append-IsNodup : (c : ℕ) (ds : List ℕ) → IsNodup ds → ¬ In c ds → IsNodup (ds ++ c ∷ [])
append-IsNodup c [] n new = (λ h. h, tt)
append-IsNodup c (d ∷ ds) (apart, n) new = (
  λ h. elim (In-append d c ds h) [ inl k ↦ apart k | inr e ↦ new (inl (sym e)) ],
  append-IsNodup c ds n (λ h. new (inr h)),
)

pub erase-In : (c d : ℕ) (ds : List ℕ) → In d (erase c ds) → In d ds
unfolding erase
erase-In c d [] h = h
erase-In c d (x ∷ ds) h = elim (Bool-cases (x == c)) [
  | inl e ↦ inr (rw e at h)
  | inr e ↦
      let g : In d (x ∷ erase c ds) = rw e at h in
      elim g [ inl f ↦ inl f | inr k ↦ inr (erase-In c d ds k) ]
]

pub erase-IsNodup : (c : ℕ) (ds : List ℕ) → IsNodup ds → IsNodup (erase c ds)
unfolding erase
erase-IsNodup c [] n = tt
erase-IsNodup c (x ∷ ds) (apart, n) = elim (Bool-cases (x == c)) [
  | inl e ↦ rw e n
  | inr e ↦ rw e (λ h. apart (erase-In c x ds h), erase-IsNodup c ds n)
]

pub erase_gone : (c : ℕ) (ds : List ℕ) → IsNodup ds → ¬ In c (erase c ds)
unfolding erase
erase_gone c [] n h = h
erase_gone c (x ∷ ds) (apart, n) h = elim (Bool-cases (x == c)) [
  | inl e ↦ let same = (==_iff x c).0 e in apart (subst (λ y. In y ds) (sym same) (rw e at h))
  | inr e ↦
      let g : In c (x ∷ erase c ds) = rw e at h in
      elim g [ inl f ↦ absurd (ground (arith, e, f)) | inr k ↦ erase_gone c ds n k ]
]
