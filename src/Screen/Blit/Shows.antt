-- ===== src/Screen/Blit/Shows.antt =====
-- Panels that show a part of the source: the invariant of the paint loops of `blit_rotated`.
use rmcast.Base.{
  ℕ, ◌+◌, ◌≡◌, ◌≢◌, ◌⊎◌, inl, inr, refl, sym, ap, subst, List, length, get_elem?, arith, ◌∙◌,
}
use rmcast.Base.Int.{ℤ, pos_part, neg_part, eq_of_parts}
use rmcast.Screen.{Screen}
use rmcast.Screen.Blit.{index, place}
use rmcast.Screen.Blit.Cells.{OnPanel, Put, place_injective}

-- The place of a source pixel under the effective orientation.
abbrev pub placed : Screen → ℤ → ℤ → ℤ × ℤ
placed s row col = place s.effective s.src_width s.src_height row col

abbrev pub source_index : Screen → ℤ → ℤ → ℕ
source_index s row col = index s.src_width row col

-- The cell of the panel at a column and a row.
abbrev pub panel_index : Screen → ℤ → ℤ → ℕ
panel_index s c t = index s.device.xres t c

-- Equal integers, in the form that `omega` reads.
abbrev pub Same : ℤ → ℤ → Type 0
Same a b = pos_part a + neg_part b ≡ pos_part b + neg_part a

-- `dst` shows each source pixel of `Q` at its place, and elsewhere what the panel `before` showed.
pub record Shows (s : Screen) (Q : ℤ → ℤ → Type 0) (before dst : List ℕ) : Type 0 where
  pub same_length : length dst ≡ length before
  pub shown :
      (row col : ℤ)
      → Q row col
      → OnPanel s.device (placed s row col).0 (placed s row col).1
      → get_elem? dst (panel_index s (placed s row col).0 (placed s row col).1)
        ≡ get_elem? s.src_buffer (source_index s row col)
  pub kept :
      (c t : ℤ)
      → OnPanel s.device c t
      → ((row col : ℤ) → Q row col → placed s row col ≢ (c, t))
      → get_elem? dst (panel_index s c t) ≡ get_elem? before (panel_index s c t)

module _ (s : Screen) (before : List ℕ) where
  pub Shows-none : (Q : ℤ → ℤ → Type 0) → ((row col : ℤ) → Q row col → ⊥) → Shows s Q before before
  Shows-none Q none_in = record {
    same_length = refl;
    shown = λ row col q. absurd (none_in row col q);
    kept = λ c t o ne. refl;
  }

  pub Shows-iff :
      {Q Q' : ℤ → ℤ → Type 0} {dst : List ℕ}
      → ((row col : ℤ) → Q row col → Q' row col)
      → ((row col : ℤ) → Q' row col → Q row col)
      → Shows s Q before dst
      → Shows s Q' before dst
  Shows-iff to back h = record {
    same_length = h.same_length;
    shown = λ row col q. h.shown row col (back row col q);
    kept = λ c t o ne. h.kept c t o (λ row col q. ne row col (to row col q));
  }

  -- Pixels that do not land on the panel can be left out.
  pub Shows-crop :
      {Q Q' : ℤ → ℤ → Type 0} {dst : List ℕ}
      → ((row col : ℤ) → Q row col → Q' row col)
      → ((row col : ℤ)
          → Q' row col
          → OnPanel s.device (placed s row col).0 (placed s row col).1
          → Q row col)
      → Shows s Q before dst
      → Shows s Q' before dst
  Shows-crop to back h = record {
    same_length = h.same_length;
    shown = λ row col q o. h.shown row col (back row col q o) o;
    kept = λ c t o ne. h.kept c t o (λ row col q. ne row col (to row col q));
  }

  module _ (Q Q' : ℤ → ℤ → Type 0) (row₀ col₀ : ℤ) where
    abbrev IsHere : ℤ → ℤ → Type 0
    IsHere row col = Same row row₀ × Same col col₀

    -- Painting one more pixel.
    pub Shows-Put :
        (dst dst' : List ℕ)
        → ((row col : ℤ) → Q row col → Q' row col)
        → Q' row₀ col₀
        → ((row col : ℤ) → Q' row col → IsHere row col ⊎ (Q row col × (IsHere row col → ⊥)))
        → Shows s Q before dst
        → Put s.device s.src_buffer
            (placed s row₀ col₀).0
            (placed s row₀ col₀).1
            (source_index s row₀ col₀)
            dst
            dst'
        → Shows s Q' before dst'
    Shows-Put dst dst' more new split h put = record {
      same_length = put.same_length ∙ h.same_length;
      shown = λ row col q o. elim (split row col q) [
        | inl (e, f) ↦
            let row≡ : row₀ ≡ row = sym (eq_of_parts row row₀ e) in
            let col≡ : col₀ ≡ col = sym (eq_of_parts col col₀ f) in paint row col row≡ col≡ o
        | inr (old, ne) ↦
            put.kept (placed s row col).0 (placed s row col).1 o (λ same.
              let (e, f) =
                place_injective s.effective s.src_width s.src_height row col row₀ col₀
                  (sym (pair_path same.0 same.1)) in
              ne (numeric e, numeric f))
            ∙ h.shown row col old o
      ];
      kept = λ c t o ne.
          put.kept c t o (λ same. ne row₀ col₀ new (pair_path same.0 same.1))
          ∙ h.kept c t o (λ row col q. ne row col (more row col q));
    }
      where
        pair_path : {a b c d : ℤ} → a ≡ c → b ≡ d → ◌≡◌ {A = ℤ × ℤ} (a, b) (c, d)
        pair_path e f = λ i. (e i, f i)

        numeric : {a b : ℤ} → a ≡ b → Same a b
        numeric e = omega (arith, ap pos_part e, ap neg_part e)

        paint :
            (row col : ℤ)
            → row₀ ≡ row
            → col₀ ≡ col
            → OnPanel s.device (placed s row col).0 (placed s row col).1
            → get_elem? dst' (panel_index s (placed s row col).0 (placed s row col).1)
              ≡ get_elem? s.src_buffer (source_index s row col)
        paint row col e f =
            subst
              (λ (rc : ℤ × ℤ).
                OnPanel s.device (placed s rc.0 rc.1).0 (placed s rc.0 rc.1).1
                → get_elem? dst' (panel_index s (placed s rc.0 rc.1).0 (placed s rc.0 rc.1).1)
                  ≡ get_elem? s.src_buffer (source_index s rc.0 rc.1))
              (pair_path e f) put.shown
