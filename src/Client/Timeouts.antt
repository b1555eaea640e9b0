-- ===== src/Client/Timeouts.antt =====
-- `client::event_loop` of src/app/client.cpp: how the statuses of the handlers give the time that
-- the next poll may wait.
use rmcast.Base.{
  ℕ, ◌≡◌, ◌⊎◌, inl, inr, refl, List, [], ◌∷◌, Option, none, some, Bool, true, false, if◌then◌else◌,
  arith, ◌∙◌,
}
use rmcast.Base.Int.{ℤ, pos, negsuc, ◌≤ℤ◌, ◌<ℤ◌, eq_ℤ, eq_ℤ-cases, min_ℤ, min_ℤ_parts, eq_of_parts}
use rmcast.Screen.{Screen}
use rmcast.Screen.Blit.Region.{IsSized}
use rmcast.Screen.Repaint.{Status, event_loop}
use rmcast.Screen.Repaint.Correct.{event_loop_total}

-- The variables `timeout` and `quit`.
pub record Waiting : Type 0 where
  pub timeout : ℤ
  pub quit : Bool

abbrev pub forever : ℤ
forever = negsuc 0

-- The lambda `handle_status`.
pub handle_status : Waiting → Status → Waiting
handle_status v st =
    if st.quit
    then record v { quit = true }
    else if eq_ℤ v.timeout forever
    then record v { timeout = st.timeout }
    else if eq_ℤ st.timeout forever
    then v
    else record v { timeout = min_ℤ v.timeout st.timeout }

-- How one round of the loop ends: it goes on with a screen and a timeout, the connection is lost,
-- or a handler has faulted.
pub data Round : Type 0 where
  goes_on : Screen → Waiting → Round
  lost faulted : Round

-- One round after the poll; `message` is what `HandleRFBServerMessage` does to the screen by the
-- callbacks, `none` where it fails.
pub round : (Screen → Option Screen) → ℕ → ℕ → Bool → Screen → Round
unfolding handle_status
round message now later is_readable s = elim (if is_readable then message s else some s) [
  | none ↦ lost
  | some t ↦ elim (event_loop now later t) [
    | none ↦ faulted
    | some (u, st) ↦ goes_on u (handle_status (record { timeout = forever; quit = false }) st)
  ]
]

pub handle_statuses : Waiting → List Status → Waiting
unfolding handle_status
handle_statuses v [] = v
handle_statuses v (st ∷ sts) = handle_statuses (handle_status v st) sts

-- No status quits, and each timeout is forever or not negative.
unfoldable pub IsCalm : List Status → Type 0
IsCalm [] = Unit
IsCalm (st ∷ sts) =
    (st.quit ≡ false) × ((st.timeout ≡ forever) ⊎ (pos 0 ≤ℤ st.timeout)) × IsCalm sts

-- `t` is no longer than `u`, with `forever` the longest.
abbrev pub Within : ℤ → ℤ → Type 0
Within t u = (u ≡ forever) ⊎ ((pos 0 ≤ℤ t) × (t ≤ℤ u))

pub IsBound : ℤ → List Status → Type 0
IsBound t [] = Unit
IsBound t (st ∷ sts) = Within t st.timeout × IsBound t sts

abbrev Natural : ℤ → Type 0
Natural t = (t ≡ forever) ⊎ (pos 0 ≤ℤ t)

-- One status: the new timeout is within both, and is one of them.
status_step :
    (v : Waiting) (st : Status)
    → Natural v.timeout
    → Natural st.timeout
    → st.quit ≡ false
    → let u = handle_status v st in
      (u.quit ≡ v.quit)
      × Natural u.timeout
      × Within u.timeout v.timeout
      × Within u.timeout st.timeout
unfolding handle_status
status_step v st a b calm = elim (eq_ℤ-cases v.timeout forever) [
  | inl (e, same) ↦ rw (calm, e) (refl, b, inl same, reflexive st.timeout b)
  | inr (e, apart) ↦ elim (eq_ℤ-cases st.timeout forever) [
    | inl (f, same) ↦ rw (calm, e, f) (refl, a, reflexive v.timeout a, inl same)
    | inr (f, apart') ↦
        let least = min_ℤ_parts v.timeout st.timeout in
        let p = positive v.timeout a apart in
        let q = positive st.timeout b apart' in
        rw (calm, e, f)
          (refl, inr (omega arith), inr (omega arith, omega arith), inr (omega arith, omega arith))
  ]
]
  where
    reflexive : (t : ℤ) → Natural t → Within t t
    reflexive t (inl e) = inl e
    reflexive t (inr h) = inr (h, omega arith)

    positive : (t : ℤ) → Natural t → (t <ℤ forever) ⊎ (forever <ℤ t) → pos 0 ≤ℤ t
    positive t (inl e) h = absurd (ground (arith, e, h))
    positive t (inr g) h = g

status_choice :
    (v : Waiting) (st : Status)
    → st.quit ≡ false
    → ((handle_status v st).timeout ≡ v.timeout) ⊎ ((handle_status v st).timeout ≡ st.timeout)
unfolding handle_status
status_choice v st calm = elim (eq_ℤ-cases v.timeout forever) [
  | inl (e, same) ↦ rw (calm, e) (inr refl)
  | inr (e, apart) ↦ elim (eq_ℤ-cases st.timeout forever) [
    | inl (f, same) ↦ rw (calm, e, f) (inl refl)
    | inr (f, apart') ↦
        rw (calm, e, f)
          (elim (min_ℤ_parts v.timeout st.timeout).2 [
            | inl g ↦ inl (eq_of_parts _ _ g)
            | inr g ↦ inr (eq_of_parts _ _ g)
          ])
  ]
]

-- The time is that of one of the statuses.
pub IsAmong : ℤ → List Status → Type 0
IsAmong t [] = ⊥
IsAmong t (st ∷ sts) = (t ≡ st.timeout) ⊎ IsAmong t sts

Within-trans : (t u x : ℤ) → Within t u → Within u x → Within t x
Within-trans t u x a (inl e) = inl e
Within-trans t u x (inr (p, q)) (inr (p', q')) = inr (p, omega arith)
Within-trans t u x (inl e) (inr (p', q')) = absurd (ground (arith, e, p'))

Within-self : (t : ℤ) → Natural t → Within t t
Within-self t (inl e) = inl e
Within-self t (inr h) = inr (h, omega arith)

-- From a timeout, calm statuses give one that is at most each of them and the first, and that is
-- one of them or the first.
handle_statuses_from :
    (v : Waiting) (sts : List Status)
    → Natural v.timeout
    → IsCalm sts
    → let u = handle_statuses v sts in
      (u.quit ≡ v.quit)
      × Within u.timeout v.timeout
      × IsBound u.timeout sts
      × ((u.timeout ≡ v.timeout) ⊎ IsAmong u.timeout sts)
unfolding handle_statuses IsCalm IsBound IsAmong
handle_statuses_from v [] a calm = (refl, Within-self v.timeout a, tt, inl refl)
handle_statuses_from v (st ∷ sts) a (quiet, b, calm) =
    let (q, n, old, new) = status_step v st a b quiet in
    let (q', w, bound, among) = handle_statuses_from (handle_status v st) sts n calm in
    let t = (handle_statuses (handle_status v st) sts).timeout in
    (
      q' ∙ q,
      Within-trans t (handle_status v st).timeout v.timeout w old,
      (Within-trans t (handle_status v st).timeout st.timeout w new, bound),
      choose among (status_choice v st quiet),
    )
  where
    choose :
        {t u : ℤ}
        → (t ≡ u) ⊎ IsAmong t sts
        → (u ≡ v.timeout) ⊎ (u ≡ st.timeout)
        → (t ≡ v.timeout) ⊎ ((t ≡ st.timeout) ⊎ IsAmong t sts)
    choose (inr h) c = inr (inr h)
    choose (inl e) (inl f) = inl (e ∙ f)
    choose (inl e) (inr f) = inr (inl (e ∙ f))

-- Statuses that do not quit, handled one after the other from `-1`: the loop does not quit, and the
-- next poll waits for the least of their timeouts, where `-1` counts as the longest.
pub handle_statuses_least :
    (sts : List Status)
    → IsCalm sts
    → let u = handle_statuses (record { timeout = forever; quit = false }) sts in
      (u.quit ≡ false) × IsBound u.timeout sts × ((u.timeout ≡ forever) ⊎ IsAmong u.timeout sts)
handle_statuses_least sts calm =
    let (q, w, bound, among) =
      handle_statuses_from (record { timeout = forever; quit = false }) sts (inl refl) calm in
    (q, bound, among)

-- A round after the callbacks have left a screen `t` whose buffers fit goes on: it does not quit, and
-- the next poll waits for as long as the screen's event loop asks.
pub round_goes_on :
    (message : Screen → Option Screen) (now later : ℕ) (s t : Screen)
    → message s ≡ some t
    → IsSized t
    → (u : Screen) × (st : Status) × (event_loop now later t ≡ some (u, st))
      × (round message now later true s ≡ goes_on u (record { timeout = st.timeout; quit = false }))
unfolding round eq_ℤ
round_goes_on message now later s t e sized =
    let (u, st, run, calm) = event_loop_total now later t sized in
    (u, st, run, rw (e, run, calm, round) refl)
