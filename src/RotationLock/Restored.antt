-- ===== src/RotationLock/Restored.antt =====
-- What the rotation guard gives back.
use rmcast.Base.{
  ℕ, ◌≡◌, refl, sym, ap, ◌∙◌, inl, inr, List, [], ◌∷◌, some, Bool, true, false, not, ◌&&◌,
  if◌then◌else◌, ◌==◌, ==_iff, Bool-cases, arith, subst,
}
use rmcast.Base.Int.{ℤ, pos, ltb_ℤ, ltb_ℤ-cases, int_laws}
use rmcast.RotationLock.{
  Files, iio_paths, hall, read_int, write_int, silence, inhibit_hall, lock, write_back, restore,
}

absent : ℕ → List ℕ → Bool
absent q [] = true
absent q (p ∷ ps) = if p == q then false else absent q ps

IsApart : List ℕ → Type 0
IsApart [] = Unit
IsApart (p ∷ ps) = (absent p ps ≡ true) × IsApart ps

write_int-other :
    (p q : ℕ) (v : ℤ) (f : Files) → (p == q) ≡ false → (write_int p v f).0.number q ≡ f.number q
unfolding write_int
write_int-other p q v f e = ground (arith, e)

write_int-writable : (p : ℕ) (v : ℤ) (f : Files) → (write_int p v f).0.is_writable ≡ f.is_writable
unfolding write_int
write_int-writable p v f = elim (Bool-cases (f.is_writable p)) [
  | inl e ↦ rw (write_int, e) refl
  | inr e ↦ rw (write_int, e) refl
]

write_int_self :
    (p : ℕ) (v : ℤ) (f : Files) → f.is_writable p ≡ true → (write_int p v f).0.number p ≡ some v
unfolding write_int
write_int_self p v f e = simp (write_int, e, (==_iff p p).1 refl) refl

-- The files that are not in the list keep their number, when they are silenced and afterwards.
silence-other :
    (q : ℕ) (ps : List ℕ) (f : Files) → absent q ps ≡ true → (silence ps f).0.number q ≡ f.number q
unfolding silence absent
silence-other q [] f a = refl
silence-other q (p ∷ ps) f a = elim (Bool-cases (p == q)) [
  | inl e ↦ absurd (differ (rw e at a))
  | inr e ↦
      silence-other q ps (write_int p (pos 0) f).0 (rw e at a) ∙ write_int-other p q (pos 0) f e
]
  where
    differ : false ≡ true → ⊥
    differ h = cc

module _ (q : ℕ) where
  step_back : ℕ → ℤ → Files → Files
  step_back p prior h = if ltb_ℤ prior (pos 0) then h else (write_int p prior h).0

  step_back-other :
      (p : ℕ) (prior : ℤ) (h : Files)
      → (p == q) ≡ false
      → (step_back p prior h).number q ≡ h.number q
  unfolding step_back
  step_back-other p prior h e = elim (Bool-cases (ltb_ℤ prior (pos 0))) [
    | inl f ↦ rw (step_back, f) refl
    | inr f ↦ rw (step_back, f) (write_int-other p q prior h e)
  ]

  write_back-other :
      (ps : List ℕ) (f h : Files)
      → absent q ps ≡ true
      → (write_back (silence ps f).1 h).number q ≡ h.number q
  unfolding silence absent write_back step_back
  write_back-other [] f h a = refl
  write_back-other (p ∷ ps) f h a = elim (Bool-cases (p == q)) [
    | inl e ↦ absurd (differ (rw e at a))
    | inr e ↦
        let rest = rw e at a in
        let g = (write_int p (pos 0) f).0 in
        let prior = read_int p f in
        elim (Bool-cases (write_int p (pos 0) f).1) [
          | inl w ↦
              rw w (write_back-other ps g (step_back p prior h) rest ∙ step_back-other p prior h e)
          | inr w ↦ rw w (write_back-other ps g h rest)
        ]
  ]
    where
      differ : false ≡ true → ⊥
      differ h = cc

write_int-worked : (p : ℕ) (v : ℤ) (f : Files) → (write_int p v f).1 ≡ f.is_writable p
unfolding write_int
write_int-worked p v f = elim (Bool-cases (f.is_writable p)) [
  | inl e ↦ rw (write_int, e) refl
  | inr e ↦ rw (write_int, e) refl
]

write_int-failed : (p : ℕ) (v : ℤ) (f : Files) → f.is_writable p ≡ false → (write_int p v f).0 ≡ f
unfolding write_int
write_int-failed p v f e = rw (write_int, e) refl

silence-writable : (ps : List ℕ) (f : Files) → (silence ps f).0.is_writable ≡ f.is_writable
unfolding silence
silence-writable [] f = refl
silence-writable (p ∷ ps) f =
    silence-writable ps (write_int p (pos 0) f).0 ∙ write_int-writable p (pos 0) f

step_back-writable :
    (p : ℕ) (prior : ℤ) (h : Files)
    → (if ltb_ℤ prior (pos 0) then h else (write_int p prior h).0).is_writable ≡ h.is_writable
step_back-writable p prior h = elim (Bool-cases (ltb_ℤ prior (pos 0))) [
  | inl e ↦ rw e refl
  | inr e ↦ rw e (write_int-writable p prior h)
]

write_back-writable :
    (saved : List (ℕ × ℤ)) (h : Files) → (write_back saved h).is_writable ≡ h.is_writable
unfolding write_back
write_back-writable [] h = refl
write_back-writable ((p, prior) ∷ saved) h =
    write_back-writable saved _ ∙ step_back-writable p prior h

read_int_lem : (p n : ℕ) (f : Files) → f.number p ≡ some (pos n) → read_int p f ≡ pos n
unfolding read_int
read_int_lem p n f e = rw (read_int, e) refl

module _ (q n : ℕ) where
  step_back_self :
      (prior : ℤ) (h : Files)
      → prior ≡ pos n
      → h.is_writable q ≡ true
      → (if ltb_ℤ prior (pos 0) then h else (write_int q prior h).0).number q ≡ some (pos n)
  step_back_self prior h e w = rw e (elim (ltb_ℤ-cases (pos n) (pos 0)) [
    | inl (low, below) ↦ absurd (omega int_laws)
    | inr (low, below) ↦ rw low (write_int_self q (pos n) h w)
  ])

  -- A number that was there before the files were silenced is there again, if nothing else has
  -- written to its file in between.
  write_back-silence :
      (ps : List ℕ) (f h : Files)
      → IsApart ps
      → h.is_writable ≡ f.is_writable
      → f.number q ≡ some (pos n)
      → h.number q ≡ (silence ps f).0.number q
      → (write_back (silence ps f).1 h).number q ≡ some (pos n)
  unfolding silence write_back IsApart step_back
  write_back-silence [] f h apart w e same = same ∙ e
  write_back-silence (p ∷ ps) f h (first, apart) w e same =
      let g = (write_int p (pos 0) f).0 in
      let prior = read_int p f in
      let worked = write_int-worked p (pos 0) f in
      elim (Bool-cases (f.is_writable p)) [
        | inr u ↦
            let idle = write_int-failed p (pos 0) f u in
            rw (worked ∙ u) (
              write_back-silence ps g h apart (w ∙ sym (write_int-writable p (pos 0) f))
                (ap (λ (x : Files). x.number q) idle ∙ e) same)
        | inl u ↦ rw (worked ∙ u) (elim (Bool-cases (p == q)) [
          | inr d ↦
              write_back-silence ps g (step_back q p prior h) apart
                (step_back-writable p prior h ∙ w ∙ sym (write_int-writable p (pos 0) f))
                (write_int-other p q (pos 0) f d ∙ e) (step_back-other q p prior h d ∙ same)
          | inl d ↦
              let at = (==_iff p q).0 d in
              write_back-other q ps g (step_back q p prior h)
                (subst (λ x. absent x ps ≡ true) at first)
              ∙ subst (λ x. (step_back q x (read_int x f) h).number q ≡ some (pos n)) (sym at)
                  (step_back_self (read_int q f) h (read_int_lem q n f e)
                    (ap (λ (k : ℕ → Bool). k q) w ∙ subst (λ x. f.is_writable x ≡ true) at u))
        ])
      ]

iio_paths-IsApart : IsApart iio_paths
unfolding IsApart absent
iio_paths-IsApart = (refl, (refl, (refl, (refl, tt))))

both_right : (a b : Bool) → (a && b) ≡ true → b ≡ true
both_right true b e = e
both_right false b e = cc

restored_others :
    (q n : ℕ) (f h : Files)
    → h.is_writable ≡ f.is_writable
    → f.number q ≡ some (pos n)
    → h.number q ≡ (silence iio_paths f).0.number q
    → (write_back (silence iio_paths f).1 h).number q ≡ some (pos n)
restored_others q n f h = write_back-silence q n iio_paths f h iio_paths-IsApart

-- Every one of the five files that held a number of at least 0 when the client started holds that
-- number again after the guard has given them back, whichever of them could be written and read, if
-- nothing else has written to them in between. Giving them back a second time, as the destructor does
-- after a signal handler, changes nothing.
pub restore-lock :
    (f : Files) (q n : ℕ)
    → f.number q ≡ some (pos n)
    → ((restore (lock f)).0.number q ≡ some (pos n))
      × (restore (restore (lock f)) ≡ restore (lock f))
unfolding restore lock inhibit_hall write_back absent
restore-lock f q n e =
    let g = (silence iio_paths f).0 in
    let saved = (silence iio_paths f).1 in
    let prior = read_int hall g in
    let kept = silence-writable iio_paths f in
    let engages = not (ltb_ℤ prior (pos 0)) && (write_int hall (pos 1) g).1 in
    elim (Bool-cases engages) [
      | inr u ↦ rw (inhibit_hall, u) (restored_others q n f g kept e refl, refl)
      | inl u ↦
          let h = (write_int hall (pos 1) g).0 in
          let k = write_back saved h in
          let able = write_int-writable hall (pos 1) g in
          rw (inhibit_hall, u)
            (
              elim (Bool-cases (hall == q)) [
                | inr d ↦
                    write_int-other hall q prior k d
                    ∙ restored_others q n f h (able ∙ kept) e (write_int-other hall q (pos 1) g d)
                | inl d ↦
                    let at = (==_iff hall q).0 d in
                    let at_hall = subst (λ x. f.number x ≡ some (pos n)) (sym at) e in
                    let alike = write_back-writable saved h ∙ able in
                    let worked = sym (write_int-worked hall (pos 1) g) ∙ both_right _ _ u in
                    subst (λ x. (write_int hall prior k).0.number x ≡ some (pos n)) at
                      (write_int_self hall prior k (ap (λ (w : ℕ → Bool). w hall) alike ∙ worked)
                        ∙ ap (λ x. some x)
                            (read_int_lem hall n g (silence-other hall iio_paths f refl ∙ at_hall)))
              ],
              refl,
            )
    ]
