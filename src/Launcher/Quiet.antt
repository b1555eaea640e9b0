-- ===== src/Launcher/Quiet.antt =====
-- What the signals of a session say last, and the operations that leave that as it is.
use rmcast.Base.{
  ◌≡◌, refl, sym, ap, ◌∙◌, inl, inr, List, [], ◌∷◌, ◌++◌, Option, none, some, Bool, true, false,
  Bool-cases, Option-cases,
}
use Prim.Native.String.{String}
use text.Mathlib.Text.{◌==◌ as same_text}
use rmcast.Base.Int.{ℤ}
use rmcast.Settings.{same_bool}
use rmcast.Launcher.{
  Launcher, SessionSignal, session_started, overlay_open_changed, qtfb_server_changed,
  session_status_changed, session_ended, CastServer, Spawn, emit, set_overlay_open, open_overlay,
  close_overlay, set_status, give_up, set_waveform,
}

-- Whether the last signal about the session says that it has started.
unfoldable pub noted : Bool → SessionSignal → Bool
noted b session_started = true
noted b (session_ended code) = false
noted b overlay_open_changed = b
noted b qtfb_server_changed = b
noted b session_status_changed = b

unfoldable pub noted_from : Bool → List SessionSignal → Bool
noted_from b [] = b
noted_from b (x ∷ xs) = noted_from (noted b x) xs

pub noted_from-append :
    (b : Bool) (xs : List SessionSignal) (x : SessionSignal)
    → noted_from b (xs ++ x ∷ []) ≡ noted (noted_from b xs) x
unfolding noted_from
noted_from-append b [] x = refl
noted_from-append b (y ∷ xs) x = noted_from-append (noted b y) xs x

unfoldable pub says_started : List SessionSignal → Bool
says_started = noted_from false

unfoldable pub runs : Launcher → Bool
runs l = elim l.proc [ none ↦ false | some _ ↦ true ]

-- The last signal about the session is true of the process.
unfoldable pub IsHonest : Launcher → Type 0
IsHonest l = says_started l.signals ≡ runs l

-- A step that leaves the process, and of the signals about the session what they say last.
pub record Quiet (l t : Launcher) : Type 0 where
  pub proc : t.proc ≡ l.proc
  pub says : says_started t.signals ≡ says_started l.signals

pub Quiet-refl : (l : Launcher) → Quiet l l
Quiet-refl l = record { proc = refl; says = refl }

pub Quiet-trans : {l t u : Launcher} → Quiet l t → Quiet t u → Quiet l u
Quiet-trans a b = record { proc = b.proc ∙ a.proc; says = b.says ∙ a.says }

pub Quiet-IsHonest : {l t : Launcher} → Quiet l t → IsHonest l → IsHonest t
unfolding IsHonest runs
Quiet-IsHonest q h =
    q.says
    ∙ h
    ∙ ap (λ (o : Option Spawn). elim o as (λ x. Bool) [ none ↦ false | some _ ↦ true ]) (sym q.proc)

-- The signals that say nothing of the session.
unfoldable pub IsMinor : SessionSignal → Type 0
IsMinor x = (b : Bool) → noted b x ≡ b

pub emit-Quiet : (x : SessionSignal) (l : Launcher) → IsMinor x → Quiet l (emit x l)
unfolding emit IsMinor says_started
emit-Quiet x l minor = record { proc = refl; says = noted_from-append false l.signals x ∙ minor _ }

pub set_status-Quiet : (s : String) (l : Launcher) → Quiet l (set_status s l)
unfolding set_status IsMinor noted
set_status-Quiet s l = elim (Bool-cases (same_text l.status s)) [
  | inl e ↦ rw (set_status, e) (Quiet-refl l)
  | inr e ↦
      let q = emit-Quiet session_status_changed (record l { status = s }) (λ b. refl) in
      rw (set_status, e) (record { proc = q.proc; says = q.says })
]

pub set_overlay_open-Quiet : (v : Bool) (l : Launcher) → Quiet l (set_overlay_open v l)
unfolding set_overlay_open IsMinor noted
set_overlay_open-Quiet v l = elim (Bool-cases (same_bool l.overlay_open v)) [
  | inl e ↦ rw (set_overlay_open, e) (Quiet-refl l)
  | inr e ↦
      let q = emit-Quiet overlay_open_changed (record l { overlay_open = v }) (λ b. refl) in
      rw (set_overlay_open, e) (record { proc = q.proc; says = q.says })
]

pub open_overlay-Quiet : (l : Launcher) → Quiet l (open_overlay l)
unfolding open_overlay
open_overlay-Quiet l = elim (Option-cases l.overlay) [
  | inl e ↦ rw (open_overlay, e) (record { proc = refl; says = refl })
  | inr (x, e) ↦
      let q = set_overlay_open-Quiet true (record l { overlay = some true }) in
      rw (open_overlay, e) (record { proc = q.proc; says = q.says })
]

pub close_overlay-Quiet : (l : Launcher) → Quiet l (close_overlay l)
unfolding close_overlay
close_overlay-Quiet l = elim (Option-cases l.overlay) [
  | inl e ↦ rw (close_overlay, e) (record { proc = refl; says = refl })
  | inr (x, e) ↦
      let q = set_overlay_open-Quiet false (record l { overlay = some false }) in
      rw (close_overlay, e) (record { proc = q.proc; says = q.says })
]

pub give_up-Quiet : (l : Launcher) → Quiet l (give_up l)
unfolding give_up IsMinor noted
give_up-Quiet l = elim (Option-cases l.server) [
  | inl e ↦ rw (give_up, e) (record { proc = refl; says = refl })
  | inr (s, e) ↦ elim (Bool-cases s.has_shm) [
    | inr f ↦ rw (give_up, e, f) (record { proc = refl; says = refl })
    | inl f ↦
        let q = emit-Quiet qtfb_server_changed (record l { server = none }) (λ b. refl) in
        rw (give_up, e, f) (record { proc = q.proc; says = q.says })
  ]
]

pub set_waveform-Quiet : (w : String) (l : Launcher) → Quiet l (set_waveform w l)
unfolding set_waveform
set_waveform-Quiet w l = elim (Option-cases l.server) [
  | inl e ↦ rw (set_waveform, e) (record { proc = refl; says = refl })
  | inr (s, e) ↦ rw (set_waveform, e) (record { proc = refl; says = refl })
]

-- With its server field put aside, which is no part of what `Quiet` says.
pub server-Quiet :
    (s : Option CastServer) {l t : Launcher} → Quiet l t → Quiet l (record t { server = s })
server-Quiet s q = record { proc = q.proc; says = q.says }

pub ended-IsHonest :
    (code : ℤ) (l : Launcher) → l.proc ≡ none → IsHonest (emit (session_ended code) l)
unfolding emit IsHonest says_started runs noted
ended-IsHonest code l e =
    noted_from-append false l.signals (session_ended code) ∙ (rw (runs, e) refl)

pub started-IsHonest :
    (s : Spawn) (l : Launcher) → l.proc ≡ some s → IsHonest (emit session_started l)
unfolding emit IsHonest says_started runs noted
started-IsHonest s l e = noted_from-append false l.signals session_started ∙ (rw (runs, e) refl)
