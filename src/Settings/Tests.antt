-- ===== src/Settings/Tests.antt =====
-- The theorems about the settings at small concrete values.
use rmcast.Base.{◌≡◌, refl, none, some, true, false, arith}
use rmcast.Base.Int.{pos}
use rmcast.Settings.{
  Settings, Json, JsonObject, default_settings, object_of, load_file, save, apply,
  set_compress_level,
}
use rmcast.Settings.Stored.{IsLevel, wanted, load_file-save, apply-wanted}

-- A store that keeps the object as it is.
abbrev plain : Json JsonObject
plain = record { to_json = λ o. o; from_json = λ o. some o; from-to = λ o. refl }

abbrev other_settings : Settings
other_settings = record default_settings { port = pos 5901; mono1 = true }

load_file-save_example :
    let bytes = plain.to_json (object_of other_settings) in
    (bytes ≡ bytes
      → load_file plain true (save plain true (λ o. o) other_settings none) default_settings
        ≡ other_settings)
    × (save plain false (λ o. o) other_settings none ≡ none)
    × (plain.from_json bytes ≡ none
        → load_file plain true (save plain true (λ o. o) other_settings none) default_settings
          ≡ default_settings)
load_file-save_example = load_file-save plain (λ o. o) other_settings default_settings none

apply-wanted_example :
    ((apply (set_compress_level (pos 12)) other_settings).0
      ≡ wanted (set_compress_level (pos 12)) other_settings)
    × ((apply (set_compress_level (pos 12)) other_settings).1 ≡ false
        → wanted (set_compress_level (pos 12)) other_settings ≡ other_settings)
    × IsLevel (apply (set_compress_level (pos 12)) other_settings).0.compress_level
unfolding default_settings
apply-wanted_example =
    apply-wanted (set_compress_level (pos 12)) other_settings (omega arith, omega arith)
