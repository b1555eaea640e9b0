-- ===== src/Screen/Setup/Tuning.antt =====
-- The settings of the VNC connection.
use Prim.Native.String.{String}
use rmcast.Base.{◌≡◌, inl, inr, refl, List, [], ◌∷◌, Option, none, some, true, false, arith}
use rmcast.Base.Int.{ℤ, pos, negsuc, ◌≤ℤ◌, leb_ℤ-cases}
use rmcast.Screen.Setup.{
  pick_encoding, default_encodings, starts_with_one, Env, VncConfig, choose_encoding,
  compress_level_of, configure,
}

compress_level_of_bounds :
    (strtol : String → ℤ) (v : Option String)
    → (pos 0 ≤ℤ compress_level_of strtol v) × (compress_level_of strtol v ≤ℤ pos 9)
unfolding compress_level_of
compress_level_of_bounds strtol none = omega arith
compress_level_of_bounds strtol (some v) = elim (leb_ℤ-cases (pos 0) (strtol v)) [
  | inl (e, h) ↦ elim (leb_ℤ-cases (strtol v) (pos 9)) [
    | inl (f, k) ↦ rw (e, f) (h, k)
    | inr (f, k) ↦ rw (e, f) (omega arith)
  ]
  | inr (e, h) ↦ rw e (omega arith)
]

-- The values of `VNSEE_ENCODING`, with the list of encodings that each stands for.
abbrev pub known_encodings : List (String × String)
known_encodings =
    ("RAW", "raw")
    ∷ ("COPYRECT", "copyrect")
    ∷ ("TIGHT", "tight")
    ∷ ("HEXTILE", "hextile")
    ∷ ("ZLIB", "zlib")
    ∷ ("ZLIBHEX", "zlibhex")
    ∷ ("TRLE", "trle")
    ∷ ("ZRLE", "zrle")
    ∷ ("ZYWRLE", "zywrle")
    ∷ ("ULTRA", "ultra")
    ∷ ("ULTRAZIP", "ultrazip")
    ∷ ("CORRE", "corre")
    ∷ ("RRE", "rre")
    ∷ []

-- Each value of the list gives its encodings.
unfoldable pub Selects : (String → ℤ) → Env → VncConfig → List (String × String) → Type 0
Selects strtol env c [] = Unit
Selects strtol env c ((v, text) ∷ rest) =
    (env "VNSEE_ENCODING" ≡ some v → (configure strtol env c).encodings ≡ some text)
    × Selects strtol env c rest

-- Whatever the environment asks for, the compression level ends up from 0 to 9, and 0 without
-- VNCAST_COMPRESS_LEVEL; JPEG is off with no quality level, also where the chosen encoding sets other
-- values for the three. Each of the thirteen known values of VNSEE_ENCODING gives its encoding;
-- without that variable there is a list of five, with the two for monochrome before them exactly if
-- VNCAST_PREFER_MONO1 begins with 1.
pub configure_overrides :
    (strtol : String → ℤ) (env : Env) (c : VncConfig)
    → let d = configure strtol env c in
      (pos 0 ≤ℤ d.compress_level)
      × (d.compress_level ≤ℤ pos 9)
      × (env "VNCAST_COMPRESS_LEVEL" ≡ none → d.compress_level ≡ pos 0)
      × (d.quality_level ≡ negsuc 0)
      × (d.enable_jpeg ≡ false)
      × Selects strtol env c known_encodings
      × (env "VNSEE_ENCODING" ≡ none
          → ((starts_with_one (env "VNCAST_PREFER_MONO1") ≡ true
                → d.encodings ≡ some "rcastmono1z rcastmono1 copyrect tight zrle hextile raw")
              × (starts_with_one (env "VNCAST_PREFER_MONO1") ≡ false
                  → d.encodings ≡ some "copyrect tight zrle hextile raw")))
unfolding configure Selects choose_encoding pick_encoding default_encodings compress_level_of
configure_overrides strtol env c =
    let (low, high) = compress_level_of_bounds strtol (env "VNCAST_COMPRESS_LEVEL") in
    (
      low,
      high,
      λ e. rw e refl,
      refl,
      refl,
      (
        λ e. rw (configure, choose_encoding, e) refl,
        (
          λ e. rw (configure, choose_encoding, e) refl,
          (
            λ e. rw (configure, choose_encoding, e) refl,
            (
              λ e. rw (configure, choose_encoding, e) refl,
              (
                λ e. rw (configure, choose_encoding, e) refl,
                (
                  λ e. rw (configure, choose_encoding, e) refl,
                  (
                    λ e. rw (configure, choose_encoding, e) refl,
                    (
                      λ e. rw (configure, choose_encoding, e) refl,
                      (
                        λ e. rw (configure, choose_encoding, e) refl,
                        (
                          λ e. rw (configure, choose_encoding, e) refl,
                          (
                            λ e. rw (configure, choose_encoding, e) refl,
                            (
                              λ e. rw (configure, choose_encoding, e) refl,
                              (λ e. rw (configure, choose_encoding, e) refl, tt),
                            ),
                          ),
                        ),
                      ),
                    ),
                  ),
                ),
              ),
            ),
          ),
        ),
      ),
      λ e. (
        λ f. rw (configure, choose_encoding, e, default_encodings, f) refl,
        λ f. rw (configure, choose_encoding, e, default_encodings, f) refl,
      ),
    )
