-- ===== src/Settings/Stored.antt =====
-- What is stored is what is loaded, and what the setters change.
use Prim.Native.String.{String}
use text.Mathlib.Text.{◌==◌ as same_text}
use text.Mathlib.TextEquality.{eq_iff}
use rmcast.Base.{
  ◌≡◌, refl, sym, ap, subst, ◌∙◌, inl, inr, Option, none, Bool, true, false, if◌then◌else◌,
}
use rmcast.Base.Int.{ℤ, pos, ◌≤ℤ◌, eq_ℤ, eq_ℤ-split, ltb_ℤ-cases, int_laws}
use rmcast.Settings.{
  Settings, Json, load, load_file, save, object_of, to_string, to_int, to_bool, Setter, set_host,
  set_port, set_fps, set_waveform, set_orientation, set_encoding, set_grayscale, set_mono1,
  set_low_latency, set_compress_level, apply, bound_level, same_bool,
}

-- If the JSON library reads back the object that it has written, settings that have been written are
-- read back whole, whatever the settings and the file were before. If the file cannot be opened for writing it stays as it was. If it is opened and what
-- arrives in it is no object any more, the stored settings are lost: a load then changes nothing, no
-- matter what the file has held before.
pub load_file-save :
    {Bytes : Type 0} (json : Json Bytes) (arrives : Bytes → Bytes) (s t : Settings)
    (file : Option Bytes)
    → let bytes = json.to_json (object_of s) in
      (arrives bytes ≡ bytes → load_file json true (save json true arrives s file) t ≡ s)
      × (save json false arrives s file ≡ file)
      × (json.from_json (arrives bytes) ≡ none
          → load_file json true (save json true arrives s file) t ≡ t)
unfolding load_file save load object_of to_string to_int to_bool
load_file-save json arrives s t file =
    (λ whole. rw (whole, json.from-to) refl, refl, λ broken. rw broken refl)

-- A level between 0 and 9.
abbrev pub IsLevel : ℤ → Type 0
IsLevel v = (pos 0 ≤ℤ v) × (v ≤ℤ pos 9)

bound_level-IsLevel : (v : ℤ) → IsLevel (bound_level v)
unfolding bound_level
bound_level-IsLevel v = elim (ltb_ℤ-cases v (pos 0)) [
  | inl (e, h) ↦ rw (bound_level, e) (omega int_laws)
  | inr (e, h) ↦ elim (ltb_ℤ-cases (pos 9) v) [
    | inl (f, g) ↦ rw (bound_level, e, f) (omega int_laws)
    | inr (f, g) ↦ rw (bound_level, e, f) (h, g)
  ]
]

bound_level_lem : (v : ℤ) → IsLevel v → bound_level v ≡ v
unfolding bound_level
bound_level_lem v (low, high) = elim (ltb_ℤ-cases v (pos 0)) [
  | inl (e, h) ↦ absurd (omega int_laws)
  | inr (e, h) ↦ elim (ltb_ℤ-cases (pos 9) v) [
    | inl (f, g) ↦ absurd (omega int_laws)
    | inr (f, g) ↦ rw (bound_level, e, f) refl
  ]
]

-- The settings with the value of a setter, a level pulled into its range.
pub wanted : Setter → Settings → Settings
wanted (set_host v) s = record s { host = v }
wanted (set_port v) s = record s { port = v }
wanted (set_fps v) s = record s { fps = v }
wanted (set_waveform v) s = record s { waveform = v }
wanted (set_orientation v) s = record s { orientation = v }
wanted (set_encoding v) s = record s { encoding = v }
wanted (set_grayscale v) s = record s { grayscale = v }
wanted (set_mono1 v) s = record s { mono1 = v }
wanted (set_low_latency v) s = record s { low_latency = v }
wanted (set_compress_level v) s = record s { compress_level = bound_level v }

-- What a setter that tests for a change gives.
record Sets (s w : Settings) (r : Settings × Bool) : Type 0 where
  result : r.0 ≡ w
  silent : r.1 ≡ false → w ≡ s

parts :
    {s : Settings} (w : Settings) {r : Settings × Bool}
    → IsLevel w.compress_level
    → Sets s w r
    → (r.0 ≡ w) × (r.1 ≡ false → w ≡ s) × IsLevel r.0.compress_level
parts w level v =
    (v.result, v.silent, subst (λ (x : Settings). IsLevel x.compress_level) (sym v.result) level)

sets :
    (s w : Settings) (same : Bool)
    → (same ≡ true → w ≡ s)
    → Sets s w (if same then (s, false) else (w, true))
sets s w true h = record { result = sym (h refl); silent = λ e. h refl }
sets s w false h = record { result = refl; silent = λ e. absurd (differ e) }
  where
    differ : true ≡ false → ⊥
    differ e = cc

text_same : (v w : String) → same_text v w ≡ true → v ≡ w
text_same v w = (eq_iff v w).0

int_same : (v w : ℤ) → eq_ℤ v w ≡ true → v ≡ w
int_same v w e = elim (eq_ℤ-split v w) [ inl (f, h) ↦ h | inr (f, h) ↦ absurd (differ f) ]
  where
    differ : eq_ℤ v w ≡ false → ⊥
    differ f = cc

pub bool_same : (v w : Bool) → same_bool v w ≡ true → v ≡ w
unfolding same_bool
bool_same true w e = sym e
bool_same false true e = cc
bool_same false false e = refl

-- Every setter keeps the compression level in its range, if it was there before, and leaves the
-- settings that have its value in place of the old one. If it does not emit `changed`, they are those
-- that were there already.
pub apply-wanted :
    (x : Setter) (s : Settings)
    → IsLevel s.compress_level
    → ((apply x s).0 ≡ wanted x s)
      × ((apply x s).1 ≡ false → wanted x s ≡ s)
      × IsLevel (apply x s).0.compress_level
unfolding apply wanted
apply-wanted (set_host v) s level =
    parts _ level
      (sets s _ (same_text v s.host) (λ e. ap (λ x. record s { host = x }) (text_same v s.host e)))
apply-wanted (set_port v) s level =
    parts _ level
      (sets s _ (eq_ℤ v s.port) (λ e. ap (λ x. record s { port = x }) (int_same v s.port e)))
apply-wanted (set_fps v) s level =
    parts _ level
      (sets s _ (eq_ℤ v s.fps) (λ e. ap (λ x. record s { fps = x }) (int_same v s.fps e)))
apply-wanted (set_waveform v) s level = parts _ level (
    sets s _ (same_text v s.waveform)
      (λ e. ap (λ x. record s { waveform = x }) (text_same v s.waveform e)))
apply-wanted (set_orientation v) s level = parts _ level (
    sets s _ (same_text v s.orientation)
      (λ e. ap (λ x. record s { orientation = x }) (text_same v s.orientation e)))
apply-wanted (set_encoding v) s level = parts _ level (
    sets s _ (same_text v s.encoding)
      (λ e. ap (λ x. record s { encoding = x }) (text_same v s.encoding e)))
apply-wanted (set_grayscale v) s level = parts _ level (
    sets s _ (same_bool v s.grayscale)
      (λ e. ap (λ x. record s { grayscale = x }) (bool_same v s.grayscale e)))
apply-wanted (set_mono1 v) s level =
    parts _ level (
      sets s _ (same_bool v s.mono1)
        (λ e. ap (λ x. record s { mono1 = x }) (bool_same v s.mono1 e)))
apply-wanted (set_low_latency v) s level = parts _ level (
    sets s _ (same_bool v s.low_latency)
      (λ e. ap (λ x. record s { low_latency = x }) (bool_same v s.low_latency e)))
apply-wanted (set_compress_level v) s level = parts _ (bound_level-IsLevel v) (
    sets s _ (eq_ℤ v s.compress_level) (λ e.
      let same = int_same v s.compress_level e in
      ap (λ x. record s { compress_level = x })
        (bound_level_lem v (subst IsLevel (sym same) level) ∙ same)))
