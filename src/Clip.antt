-- ===== src/Clip.antt =====
-- The clipping of one axis of a rectangle, as `screen::blit_rotated` (src/app/screen.cpp) and
-- `ClientConnection::blit_rect_to_shm` (src/rmioc/vncast_client.cpp) write it out.
use rmcast.Base.{◌≡◌, refl, sym, subst, ◌↔◌, inl, inr, if◌then◌else◌}
use rmcast.Base.Int.{ℤ, pos, ◌+ℤ◌, ◌-ℤ◌, ◌≤ℤ◌, ◌<ℤ◌, ltb_ℤ, ltb_ℤ-cases, int_laws}

-- A start and a length.
pub record Span : Type 0 where
  pub start : ℤ
  pub size : ℤ

-- `if (s < 0) { n += s; s = 0; }`
clip_low : Span → Span
clip_low a = if ltb_ℤ a.start (pos 0) then record { start = pos 0; size = a.size +ℤ a.start } else a

-- `if (s + n > limit) n = limit - s;`
clip_high : ℤ → Span → Span
clip_high limit a =
    if ltb_ℤ limit (a.start +ℤ a.size) then record a { size = limit -ℤ a.start } else a

pub clip : ℤ → Span → Span
unfolding clip_low clip_high
clip limit a = clip_high limit (clip_low a)

-- `k` lies in the span.
abbrev pub Within : Span → ℤ → Type 0
Within a k = (a.start ≤ℤ k) × (k <ℤ a.start +ℤ a.size)

clip_low-Within : (a : Span) (k : ℤ) → Within (clip_low a) k ↔ (Within a k × (pos 0 ≤ℤ k))
unfolding clip_low
clip_low-Within a k = elim (ltb_ℤ-cases a.start (pos 0)) [
  | inl (e, h) ↦ rw e (omega int_laws)
  | inr (e, h) ↦ rw e (omega int_laws)
]

clip_high-Within :
    (limit : ℤ) (a : Span) (k : ℤ) → Within (clip_high limit a) k ↔ (Within a k × (k <ℤ limit))
unfolding clip_high
clip_high-Within limit a k = elim (ltb_ℤ-cases limit (a.start +ℤ a.size)) [
  | inl (e, h) ↦ rw e (omega int_laws)
  | inr (e, h) ↦ rw e (omega int_laws)
]

-- Clipping an axis to `limit` keeps exactly the points of the span that lie from 0 up to `limit`.
pub clip-Within :
    (limit : ℤ) (a : Span) (k : ℤ)
    → Within (clip limit a) k ↔ (Within a k × (pos 0 ≤ℤ k) × (k <ℤ limit))
unfolding clip
clip-Within limit a k =
    let high = clip_high-Within limit (clip_low a) k in
    let low = clip_low-Within a k in
    (
      λ h. ((low.0 (high.0 h).0).0, (low.0 (high.0 h).0).1, (high.0 h).1),
      λ h. high.1 (low.1 (h.0, h.1), h.2),
    )

clip_low-nonneg : (a : Span) → pos 0 ≤ℤ (clip_low a).start
unfolding clip_low
clip_low-nonneg a = elim (ltb_ℤ-cases a.start (pos 0)) [
  | inl (e, h) ↦ rw e (omega int_laws)
  | inr (e, h) ↦ rw e (omega int_laws)
]

clip_high_bounds :
    (limit : ℤ) (a : Span)
    → ((clip_high limit a).start ≡ a.start)
      × ((clip_high limit a).start +ℤ (clip_high limit a).size ≤ℤ limit)
unfolding clip_high
clip_high_bounds limit a = elim (ltb_ℤ-cases limit (a.start +ℤ a.size)) [
  | inl (e, h) ↦ rw e (refl, omega int_laws)
  | inr (e, h) ↦ rw e (refl, omega int_laws)
]

-- A clipped span starts at 0 or above and does not reach past the limit.
pub clip_bounds :
    (limit : ℤ) (a : Span)
    → (pos 0 ≤ℤ (clip limit a).start) × ((clip limit a).start +ℤ (clip limit a).size ≤ℤ limit)
unfolding clip
clip_bounds limit a =
    let (same, within) = clip_high_bounds limit (clip_low a) in
    (subst (λ (z : ℤ). pos 0 ≤ℤ z) (sym same) (clip_low-nonneg a), within)
