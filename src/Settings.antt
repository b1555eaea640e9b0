-- ===== src/Settings.antt =====
-- `Settings` (middleware/extension/src/settings.cpp, settings.h): the stored preferences.
pub mod Stored
pub mod Tests
use Prim.Native.String.{String}
use text.Mathlib.Text.{◌==◌ as same_text}
use rmcast.Base.{◌≡◌, Option, none, some, Bool, true, false, if◌then◌else◌}
use rmcast.Base.Int.{ℤ, pos, eq_ℤ, ltb_ℤ}

pub record Settings : Type 0 where
  pub host : String
  pub port : ℤ
  pub fps : ℤ
  pub waveform : String
  pub orientation : String
  pub encoding : String
  pub grayscale : Bool
  pub mono1 : Bool
  pub low_latency : Bool
  pub compress_level : ℤ

-- The initialisers of the members.
unfoldable pub default_settings : Settings
default_settings = record {
  host = "10.11.99.2";
  port = pos 5900;
  fps = pos 30;
  waveform = "A2";
  orientation = "auto";
  encoding = "COPYRECT";
  grayscale = true;
  mono1 = false;
  low_latency = false;
  compress_level = pos 0;
}

-- The keys of the stored object, and a `QJsonValue`: `int_value` is a number that is an `int`.
pub data Key : Type 0 where
  host port fps waveform orientation encoding grayscale mono1 low_latency compress_level : Key

pub data JsonValue : Type 0 where
  string_value : String → JsonValue
  int_value : ℤ → JsonValue
  bool_value : Bool → JsonValue
  other_value : JsonValue

-- A `QJsonObject`; `none` where it does not contain the key.
abbrev pub JsonObject : Type 0
JsonObject = Key → Option JsonValue

-- `if (o.contains(key)) m = o.value(key).toString(m)`, and so for the other types.
unfoldable pub to_string : Option JsonValue → String → String
to_string (some (string_value v)) m = v
to_string _ m = m

unfoldable pub to_int : Option JsonValue → ℤ → ℤ
to_int (some (int_value v)) m = v
to_int _ m = m

unfoldable pub to_bool : Option JsonValue → Bool → Bool
to_bool (some (bool_value v)) m = v
to_bool _ m = m

-- `load`, from what the file is parsed to: `none` where there is no file, it cannot be opened, or it
-- does not hold an object.
unfoldable pub load : Option JsonObject → Settings → Settings
load none s = s
load (some o) s = record {
  host = to_string (o host) s.host;
  port = to_int (o port) s.port;
  fps = to_int (o fps) s.fps;
  waveform = to_string (o waveform) s.waveform;
  orientation = to_string (o orientation) s.orientation;
  encoding = to_string (o encoding) s.encoding;
  grayscale = to_bool (o grayscale) s.grayscale;
  mono1 = to_bool (o mono1) s.mono1;
  low_latency = to_bool (o low_latency) s.low_latency;
  compress_level = to_int (o compress_level) s.compress_level;
}

-- The object that `save` writes.
unfoldable pub object_of : Settings → JsonObject
object_of s host = some (string_value s.host)
object_of s port = some (int_value s.port)
object_of s fps = some (int_value s.fps)
object_of s waveform = some (string_value s.waveform)
object_of s orientation = some (string_value s.orientation)
object_of s encoding = some (string_value s.encoding)
object_of s grayscale = some (bool_value s.grayscale)
object_of s mono1 = some (bool_value s.mono1)
object_of s low_latency = some (bool_value s.low_latency)
object_of s compress_level = some (int_value s.compress_level)

-- `QJsonDocument`: the bytes of an object and the object of some bytes.
pub record Json (Bytes : Type 0) : Type 0 where
  pub to_json : JsonObject → Bytes
  pub from_json : Bytes → Option JsonObject
  pub from-to : (o : JsonObject) → from_json (to_json o) ≡ some o

module _ {Bytes : Type 0} (json : Json Bytes) where
  -- The file: its bytes, if it is there. Opening it for writing empties it; `arrives` is what is in
  -- it in the end of the bytes that are written then, all of them or not.
  unfoldable pub save : Bool → (Bytes → Bytes) → Settings → Option Bytes → Option Bytes
  save opens arrives s file = if opens then some (arrives (json.to_json (object_of s))) else file

  unfoldable pub load_file : Bool → Option Bytes → Settings → Settings
  load_file opens none s = s
  load_file opens (some bytes) s = if opens then load (json.from_json bytes) s else s

-- `asMap`, as the configuration of a session; `none` where a map has no value for a key.
pub record Config : Type 0 where
  pub host : Option String
  pub port : Option ℤ
  pub fps : Option ℤ
  pub waveform : Option String
  pub orientation : Option String
  pub encoding : Option String
  pub grayscale : Option Bool
  pub mono1 : Option Bool
  pub low_latency : Option Bool
  pub compress_level : Option ℤ

unfoldable pub as_map : Settings → Config
as_map s = record {
  host = some s.host;
  port = some s.port;
  fps = some s.fps;
  waveform = some s.waveform;
  orientation = some s.orientation;
  encoding = some s.encoding;
  grayscale = some s.grayscale;
  mono1 = some s.mono1;
  low_latency = some s.low_latency;
  compress_level = some s.compress_level;
}

-- The setters, each with its argument.
pub data Setter : Type 0 where
  set_host set_waveform set_orientation set_encoding : String → Setter
  set_port set_fps set_compress_level : ℤ → Setter
  set_grayscale set_mono1 set_low_latency : Bool → Setter

unfoldable pub same_bool : Bool → Bool → Bool
same_bool true b = b
same_bool false true = false
same_bool false false = true

-- `qBound(0, v, 9)`
unfoldable pub bound_level : ℤ → ℤ
bound_level v = if ltb_ℤ v (pos 0) then pos 0 else if ltb_ℤ (pos 9) v then pos 9 else v

-- The settings after a setter, and whether it has emitted `changed`.
unfoldable pub apply : Setter → Settings → Settings × Bool
apply (set_host v) s = if same_text v s.host then (s, false) else (record s { host = v }, true)
apply (set_port v) s = if eq_ℤ v s.port then (s, false) else (record s { port = v }, true)
apply (set_fps v) s = if eq_ℤ v s.fps then (s, false) else (record s { fps = v }, true)
apply (set_waveform v) s =
    if same_text v s.waveform then (s, false) else (record s { waveform = v }, true)
apply (set_orientation v) s =
    if same_text v s.orientation then (s, false) else (record s { orientation = v }, true)
apply (set_encoding v) s =
    if same_text v s.encoding then (s, false) else (record s { encoding = v }, true)
apply (set_grayscale v) s =
    if same_bool v s.grayscale then (s, false) else (record s { grayscale = v }, true)
apply (set_mono1 v) s = if same_bool v s.mono1 then (s, false) else (record s { mono1 = v }, true)
apply (set_low_latency v) s =
    if same_bool v s.low_latency then (s, false) else (record s { low_latency = v }, true)
apply (set_compress_level v) s =
    if eq_ℤ v s.compress_level
    then (s, false)
    else (record s { compress_level = bound_level v }, true)
