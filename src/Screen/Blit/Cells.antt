-- ===== src/Screen/Blit/Cells.antt =====
-- What one painted pixel changes.
use rmcast.Base.{
  ℕ, ◌*◌, ◌<◌, ◌≡◌, ◌≢◌, refl, ap, List, some, arith, length, get_elem?, set, inl, inr, length-set,
  get_elem?-set_self, get_elem?-set_ne, get_elem?_of_lt, lt→ltb,
}
use rmcast.Base.Index.{index_injective, index-lt}
use rmcast.Base.Int.{
  ℤ, pos, pos_part, ◌≤ℤ◌, ◌<ℤ◌, ltb_ℤ-cases, leb_ℤ-cases, parts_disjoint, int_laws, sub_cancel,
}
use rmcast.Orientation.{Orientation, portrait, landscape_cw, inverted_portrait, landscape_ccw, auto}
use rmcast.Screen.{Device}
use rmcast.Screen.Blit.{index, copy_cell, put, place}

-- A column and a row of the panel.
abbrev pub OnPanel : Device → ℤ → ℤ → Type 0
OnPanel d c t = (pos 0 ≤ℤ c) × (c <ℤ d.xres) × (pos 0 ≤ℤ t) × (t <ℤ d.yres)

index-OnPanel_injective :
    (d : Device) (c t c' t' : ℤ)
    → OnPanel d c t
    → OnPanel d c' t'
    → index d.xres t c ≡ index d.xres t' c'
    → (c ≡ c') × (t ≡ t')
index-OnPanel_injective d c t c' t' h h' e =
    let (same_c, same_t) =
      index_injective (pos_part d.xres) (pos_part c) (pos_part t) (pos_part c') (pos_part t')
        (omega (arith, parts_disjoint c, parts_disjoint d.xres))
        (omega (arith, parts_disjoint c', parts_disjoint d.xres)) e in
    (
      omega (int_laws, parts_disjoint c, parts_disjoint c'),
      omega (int_laws, parts_disjoint t, parts_disjoint t'),
    )

-- Two source pixels do not land on one place.
pub place_injective :
    (o : Orientation) (w h row col row' col' : ℤ)
    → place o w h row col ≡ place o w h row' col'
    → (row ≡ row') × (col ≡ col')
unfolding place
place_injective portrait w h row col row' col' e = (ap (λ p. p.1) e, ap (λ p. p.0) e)
place_injective auto w h row col row' col' e = (ap (λ p. p.1) e, ap (λ p. p.0) e)
place_injective inverted_portrait w h row col row' col' e =
    (sub_cancel _ row row' (ap (λ p. p.1) e), sub_cancel _ col col' (ap (λ p. p.0) e))
place_injective landscape_cw w h row col row' col' e =
    (sub_cancel _ row row' (ap (λ p. p.0) e), ap (λ p. p.1) e)
place_injective landscape_ccw w h row col row' col' e =
    (ap (λ p. p.0) e, sub_cancel _ col col' (ap (λ p. p.1) e))

-- What a copy into cell `j` does.
record Copied (src : List ℕ) (i j : ℕ) (dst dst' : List ℕ) : Type 0 where
  pub same_length : length dst' ≡ length dst
  pub shown : get_elem? dst' j ≡ get_elem? src i
  pub kept : (k : ℕ) → j ≢ k → get_elem? dst' k ≡ get_elem? dst k

copy_cell-Copied :
    (src : List ℕ) (i j : ℕ) (dst : List ℕ)
    → i < length src
    → j < length dst
    → (dst' : List ℕ) × (copy_cell src i j dst ≡ some dst') × Copied src i j dst dst'
unfolding copy_cell
copy_cell-Copied src i j dst hi hj =
    let (p, e) = get_elem?_of_lt src i hi in
    (
      set dst j p,
      rw (e, copy_cell) (rw (lt→ltb j (length dst) hj)),
      record {
        same_length = length-set dst j p;
        shown = rw e (get_elem?-set_self dst j p hj);
        kept = λ k ne. get_elem?-set_ne dst p ne;
      },
    )

-- What `put` of source pixel `p` at a column and a row does.
pub record Put (d : Device) (src : List ℕ) (c t : ℤ) (p : ℕ) (dst dst' : List ℕ) : Type 0 where
  pub same_length : length dst' ≡ length dst
  pub shown : OnPanel d c t → get_elem? dst' (index d.xres t c) ≡ get_elem? src p
  pub kept :
      (c' t' : ℤ)
      → OnPanel d c' t'
      → ((c ≡ c') × (t ≡ t') → ⊥)
      → get_elem? dst' (index d.xres t' c') ≡ get_elem? dst (index d.xres t' c')

Put-outside :
    (d : Device) (src : List ℕ) (c t : ℤ) (p : ℕ) (dst : List ℕ)
    → (OnPanel d c t → ⊥)
    → Put d src c t p dst dst
Put-outside d src c t p dst out = record {
  same_length = refl;
  shown = λ h. absurd (out h);
  kept = λ c' t' h ne. refl;
}

module _ (d : Device) (src : List ℕ) (c t : ℤ) (p : ℕ) (dst : List ℕ) where
  -- A copy into a cell of the panel.
  pub Put-inside :
      p < length src
      → length dst ≡ pos_part d.xres * pos_part d.yres
      → OnPanel d c t
      → (dst' : List ℕ) × (copy_cell src p (index d.xres t c) dst ≡ some dst')
        × Put d src c t p dst dst'
  Put-inside hp hd h =
      let inside : index d.xres t c < length dst = rw hd (
        index-lt (pos_part d.xres) (pos_part d.yres) (pos_part c) (pos_part t)
          (omega (arith, parts_disjoint c, parts_disjoint d.xres))
          (omega (arith, parts_disjoint t, parts_disjoint d.yres))) in
      let (dst', run, copied) = copy_cell-Copied src p (index d.xres t c) dst hp inside in
      (
        dst',
        run,
        record {
          same_length = copied.same_length;
          shown = λ _. copied.shown;
          kept = λ c' t' h' ne.
              copied.kept (index d.xres t' c')
                (λ e. ne (index-OnPanel_injective d c t c' t' h h' e));
        },
      )

  -- `put` never faults, and paints its pixel if the position is on the panel.
  pub put-Put :
      p < length src
      → length dst ≡ pos_part d.xres * pos_part d.yres
      → (dst' : List ℕ) × (put d src c t p dst ≡ some dst') × Put d src c t p dst dst'
  unfolding put
  put-Put hp hd = elim (ltb_ℤ-cases c (pos 0)) [
    | inl (e, h) ↦ (dst, rw e, Put-outside d src c t p dst (λ o. omega arith))
    | inr (e, h) ↦ elim (leb_ℤ-cases d.xres c) [
      | inl (e', h') ↦ (dst, rw (e, e'), Put-outside d src c t p dst (λ o. omega arith))
      | inr (e', h') ↦ elim (ltb_ℤ-cases t (pos 0)) [
        | inl (f, k) ↦ (dst, rw (e, e', f), Put-outside d src c t p dst (λ o. omega arith))
        | inr (f, k) ↦ elim (leb_ℤ-cases d.yres t) [
          | inl (f', k') ↦ (dst, rw (e, e', f, f'), Put-outside d src c t p dst (λ o. omega arith))
          | inr (f', k') ↦
              let (dst', run, done) = Put-inside hp hd (h, h', k, k') in
              (dst', rw (e, e', f, f') run, done)
        ]
      ]
    ]
  ]
