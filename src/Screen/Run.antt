-- ===== src/Screen/Run.antt =====
-- Everything that happens to `app::screen`, in any order: the callbacks of the VNC library, the event
-- loop, the change of the repaint mode by the touch handler and the sensor's change of the
-- orientation.
use rmcast.Base.{
  ℕ, ◌*◌, ◌≡◌, ◌∙◌, refl, sym, ap, subst, inl, inr, List, length, some, some-injective, false,
  Bool-cases, Bool, ◌&&◌,
}
use rmcast.Base.Int.{ℤ, pos, pos_part, ltb_ℤ}
use rmcast.Orientation.{Orientation, auto, is_same}
use rmcast.Screen.{Rect, Device, Screen, RepaintMode, device_update}
use rmcast.Screen.Blit.{is_empty}
use rmcast.Screen.Blit.Region.{IsSized}
use rmcast.Screen.Repaint.{Status, set_repaint_mode, start_repaint, refresh, repaint, event_loop}
use rmcast.Screen.Repaint.Correct.{redrawn, repaint-redrawn, event_loop_cases, event_loop_total}
use rmcast.Screen.Damage.{set_pending, is_bad_merge, commit_updates}
use rmcast.Screen.Setup.{Env, create, create_framebuf, set_effective_orientation}
use rmcast.Screen.Setup.Oriented.{
  IsOriented, create-IsOriented, resolve-IsOriented, set_effective_orientation-IsOriented,
}
use rmcast.Screen.Setup.Resize.{create_framebuf-IsSized}

-- The screens that can come about. The library writes pixels into the source buffer and never
-- changes its length.
pub data Reached : Screen → Type 0 where
  created :
      (d : Device) (is_vncast : Bool) (o : Orientation) (env : Env)
      → length d.pixels ≡ pos_part d.xres * pos_part d.yres
      → Reached (create d is_vncast o env)
  resized : (s t : Screen) (sw sh : ℤ) → Reached s → create_framebuf s sw sh ≡ some t → Reached t
  received :
      (s : Screen) (pixels : List ℕ)
      → Reached s
      → length pixels ≡ length s.src_buffer
      → Reached (record s { src_buffer = pixels })
  committed : (s : Screen) (r : Rect) → Reached s → Reached (commit_updates s r)
  looped :
      (s t : Screen) (st : Status) (now later : ℕ)
      → Reached s
      → event_loop now later s ≡ some (t, st)
      → Reached t
  repainted : (s t : Screen) (now : ℕ) → Reached s → repaint now s ≡ some t → Reached t
  switched : (s : Screen) (mode : RepaintMode) → Reached s → Reached (set_repaint_mode s mode)
  turned : (s : Screen) (o : Orientation) → Reached s → Reached (set_effective_orientation s o)

-- The buffers fit, and the orientation is a definite one.
pub record IsWell (s : Screen) : Type 0 where
  pub sized : IsSized s
  pub oriented : IsOriented s

redrawn-IsWell :
    (now : ℕ) (s : Screen) (dst : List ℕ) (q : Rect)
    → length dst ≡ length s.device.pixels
    → IsWell s
    → IsWell (redrawn now s dst q)
unfolding refresh start_repaint device_update
redrawn-IsWell now s dst q same h = elim (Bool-cases (is_empty q)) [
  | inl e ↦ rw e (record {
    sized = record { source = h.sized.source; panel = same ∙ h.sized.panel };
    oriented = h.oriented;
  })
  | inr e ↦ rw e (record {
    sized = record { source = h.sized.source; panel = same ∙ h.sized.panel };
    oriented = h.oriented;
  })
]

repaint-IsWell : (now : ℕ) (s t : Screen) → repaint now s ≡ some t → IsWell s → IsWell t
repaint-IsWell now s t run h =
    let (dst, q, run', shows, covers) = repaint-redrawn now s h.sized in
    subst IsWell (some-injective _ _ (sym run' ∙ run))
      (redrawn-IsWell now s dst q shows.same_length h)

event_loop-IsWell :
    (now later : ℕ) (s t : Screen) (st : Status)
    → event_loop now later s ≡ some (t, st)
    → IsWell s
    → IsWell t
event_loop-IsWell now later s t st run h = elim (event_loop_cases now later s h.sized) [
  | inl (e, run') ↦ same run' h
  | inr (inl (e, due, (u, shown, run'))) ↦ same run' (repaint-IsWell later s u shown h)
  | inr (inr (e, early, (wait, some_time, within, run'))) ↦ same run' h
]
  where
    same : {u : Screen} {su : Status} → event_loop now later s ≡ some (u, su) → IsWell u → IsWell t
    same run' w = subst IsWell (ap (λ p. p.0) (some-injective _ _ (sym run' ∙ run))) w

commit_updates-IsWell : (s : Screen) (r : Rect) → IsWell s → IsWell (commit_updates s r)
unfolding commit_updates set_pending device_update
commit_updates-IsWell s r h = elim (Bool-cases s.update_info.has_update) [
  | inr e ↦ rw e (record {
    sized = record { source = h.sized.source; panel = h.sized.panel };
    oriented = h.oriented;
  })
  | inl e ↦ elim (Bool-cases (is_bad_merge s.update_info.rect r)) [
    | inl f ↦
        rw (e, f)
          (record {
            sized = record { source = h.sized.source; panel = h.sized.panel };
            oriented = h.oriented;
          })
    | inr f ↦
        rw (e, f)
          (record {
            sized = record { source = h.sized.source; panel = h.sized.panel };
            oriented = h.oriented;
          })
  ]
]

set_effective_orientation-IsSized :
    (s : Screen) (o : Orientation) → IsSized s → IsSized (set_effective_orientation s o)
unfolding set_effective_orientation
set_effective_orientation-IsSized s o h = elim (Bool-cases (is_same o auto)) [
  | inl e ↦ rw e h
  | inr e ↦ elim (Bool-cases (is_same s.effective o)) [
    | inl f ↦ rw (e, f) h
    | inr f ↦ elim (Bool-cases (ltb_ℤ (pos 0) s.src_width && ltb_ℤ (pos 0) s.src_height)) [
      | inl g ↦ rw (e, f, g) (record { source = h.source; panel = h.panel })
      | inr g ↦ rw (e, f, g) (record { source = h.source; panel = h.panel })
    ]
  ]
]

create_framebuf-IsWell :
    (s t : Screen) (sw sh : ℤ) → create_framebuf s sw sh ≡ some t → IsWell s → IsWell t
create_framebuf-IsWell s t sw sh run h = elim (create_framebuf-IsSized s sw sh h.sized.panel) [
  | inl (small, refused) ↦ absurd (cc (run, refused))
  | inr (hw, hh, (u, run', sized, w, v, d, o)) ↦
      subst IsWell (some-injective _ _ (sym run' ∙ run)) (record {
        sized = sized;
        oriented = ap (λ x. is_same x auto) o ∙ resolve-IsOriented s sw sh h.oriented;
      })
]

created-IsWell :
    (d : Device) (b : Bool) (o : Orientation) (env : Env)
    → length d.pixels ≡ pos_part d.xres * pos_part d.yres
    → IsWell (create d b o env)
unfolding create
created-IsWell d b o env panel = record {
  sized = record { source = refl; panel = panel };
  oriented = create-IsOriented d b o env;
}

switched-IsWell : (s : Screen) (mode : RepaintMode) → IsWell s → IsWell (set_repaint_mode s mode)
unfolding set_repaint_mode
switched-IsWell s mode h = record {
  sized = record { source = h.sized.source; panel = h.sized.panel };
  oriented = h.oriented;
}

pub Reached-IsWell : (s : Screen) → Reached s → IsWell s
Reached-IsWell _ (created d b o env panel) = created-IsWell d b o env panel
Reached-IsWell _ (resized s t sw sh r run) =
    create_framebuf-IsWell s t sw sh run (Reached-IsWell s r)
Reached-IsWell _ (received s pixels r same) =
    let h = Reached-IsWell s r in
    record {
      sized = record { source = same ∙ h.sized.source; panel = h.sized.panel };
      oriented = h.oriented;
    }
Reached-IsWell _ (committed s rect r) = commit_updates-IsWell s rect (Reached-IsWell s r)
Reached-IsWell _ (looped s t st now later r run) =
    event_loop-IsWell now later s t st run (Reached-IsWell s r)
Reached-IsWell _ (repainted s t now r run) = repaint-IsWell now s t run (Reached-IsWell s r)
Reached-IsWell _ (switched s mode r) = switched-IsWell s mode (Reached-IsWell s r)
Reached-IsWell _ (turned s o r) =
    let h = Reached-IsWell s r in
    record {
      sized = set_effective_orientation-IsSized s o h.sized;
      oriented = set_effective_orientation-IsOriented s o h.oriented;
    }

-- Whatever has happened to a screen, in any order and at any times: its orientation is a definite
-- one, its buffers have the sizes of their images, the next repaint and the next call of the event
-- loop do not fault, and the event loop does not quit.
pub reached_never_faults :
    (s : Screen) (now later : ℕ)
    → Reached s
    → (is_same s.effective auto ≡ false)
      × IsSized s
      × ((t : Screen) × (repaint now s ≡ some t))
      × ((t : Screen) × (st : Status) × (event_loop now later s ≡ some (t, st)) × (st.quit ≡ false))
reached_never_faults s now later r =
    let h = Reached-IsWell s r in
    let (dst, q, run, shows, covers) = repaint-redrawn now s h.sized in
    (h.oriented, h.sized, (redrawn now s dst q, run), event_loop_total now later s h.sized)
