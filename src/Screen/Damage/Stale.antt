-- ===== src/Screen/Damage/Stale.antt =====
-- What a repaint leaves pending, by the repaint mode.
use rmcast.Base.{ℕ, ◌≡◌, refl, ap, List, some, Bool, true, false, ◌∙◌, Bool-cases, inl, inr}
use rmcast.Screen.{Rect, Screen, RepaintMode, standard, fast, device_update}
use rmcast.Screen.Blit.{is_empty}
use rmcast.Screen.Blit.Region.{IsSized}
use rmcast.Screen.Repaint.{by_mode, repaint, refresh, start_repaint}
use rmcast.Screen.Repaint.Correct.{redrawn, repaint-redrawn}
use rmcast.Screen.Damage.{merge, is_bad_merge, commit_updates, set_pending}

redrawn_update :
    (now : ℕ) (s : Screen) (dst : List ℕ) (q : Rect)
    → (redrawn now s dst q).update_info ≡ record {
      rect = s.update_info.rect;
      has_update = by_mode s.repaint_mode false s.update_info.has_update;
    }
unfolding refresh start_repaint device_update
redrawn_update now s dst q = elim (Bool-cases (is_empty q)) [
  | inl e ↦ rw e refl
  | inr e ↦ rw e refl
]

next_damage :
    (t : Screen) (r new : Rect) (mode : RepaintMode)
    → t.update_info ≡ record { rect = r; has_update = by_mode mode false true }
    → is_bad_merge r new ≡ false
    → (commit_updates t new).update_info.rect ≡ by_mode mode new (merge r new)
unfolding commit_updates set_pending by_mode
next_damage t r new standard e fine =
    let off : t.update_info.has_update ≡ false = ap (λ u. u.has_update) e in
    rw (off, commit_updates) refl
next_damage t r new fast e fine =
    let on : t.update_info.has_update ≡ true = ap (λ u. u.has_update) e in
    let same : t.update_info.rect ≡ r = ap (λ u. u.rect) e in
    rw (on, same, fine, commit_updates) refl

-- With buffers of the sizes of their images, an update after a repaint of a pending rectangle
-- that it merges well with: in the standard mode only the new rectangle is pending, while in the
-- fast mode the one that was repainted is still part of it.
pub damage_after_repaint :
    (now : ℕ) (s : Screen) (new : Rect)
    → IsSized s
    → s.update_info.has_update ≡ true
    → is_bad_merge s.update_info.rect new ≡ false
    → (t : Screen) × (repaint now s ≡ some t)
      × ((commit_updates t new).update_info.rect
          ≡ by_mode s.repaint_mode new (merge s.update_info.rect new))
damage_after_repaint now s new sized pending fine =
    let (dst, q, run, shows, covers) = repaint-redrawn now s sized in
    (
      redrawn now s dst q,
      run,
      next_damage (redrawn now s dst q) s.update_info.rect new s.repaint_mode
          (redrawn_update now s dst q
            ∙ ap
                (λ (b : Bool). record {
                  rect = s.update_info.rect;
                  has_update = by_mode s.repaint_mode false b;
                })
                pending)
          fine,
    )
