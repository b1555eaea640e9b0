-- ===== src/Orientation.antt =====
-- src/orientation.hpp: the display orientations and their names.
use text.Mathlib.Text.{◌==◌ as str_eq}
use Prim.Native.String.{String}
use rmcast.Base.{◌≡◌, refl, if◌then◌else◌, Bool, true, false}

pub data Orientation : Type 0 where
  portrait landscape_cw inverted_portrait landscape_ccw auto : Orientation

Orientation-discrete : Discrete Orientation
Orientation-discrete = hlevel

unfoldable pub is_same : Orientation → Orientation → Bool
is_same portrait portrait = true
is_same landscape_cw landscape_cw = true
is_same inverted_portrait inverted_portrait = true
is_same landscape_ccw landscape_ccw = true
is_same auto auto = true
is_same _ _ = false

unfoldable pub orientation_from_string : String → Orientation
orientation_from_string s =
    if str_eq s "auto"
    then auto
    else if str_eq s "portrait"
    then portrait
    else if str_eq s "landscape"
    then landscape_cw
    else if str_eq s "landscape-cw"
    then landscape_cw
    else if str_eq s "landscape-ccw"
    then landscape_ccw
    else if str_eq s "inverted-landscape"
    then landscape_ccw
    else if str_eq s "inverted-portrait"
    then inverted_portrait
    else auto

pub orientation_to_string : Orientation → String
orientation_to_string portrait = "portrait"
orientation_to_string landscape_cw = "landscape-cw"
orientation_to_string landscape_ccw = "landscape-ccw"
orientation_to_string inverted_portrait = "inverted-portrait"
orientation_to_string auto = "auto"

-- Reading back the printed name of an orientation gives that orientation.
pub from_string-to_string :
    (o : Orientation) → orientation_from_string (orientation_to_string o) ≡ o
unfolding orientation_from_string orientation_to_string
from_string-to_string portrait = refl
from_string-to_string landscape_cw = refl
from_string-to_string inverted_portrait = refl
from_string-to_string landscape_ccw = refl
from_string-to_string auto = refl
