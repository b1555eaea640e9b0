-- ===== src/CommandLine.antt =====
-- `main` (src/main.cpp): the checks of the command line, and what the client is started with. The
-- options and operands come from `options::parse`, a copy of another project's header.
pub mod Options
pub mod Checked
pub mod Server
pub mod Tests
use Prim.Native.String.{String}
use text.Mathlib.Text.{◌==◌ as same_text}
use rmcast.Base.{
  ℕ, zero, suc, ◌-◌, List, [], ◌∷◌, ◌++◌, map, Option, none, some, Bool, true, false, not, ◌&&◌,
  ◌||◌, if◌then◌else◌, ◌==◌, ltb, length, take, drop,
}
use rmcast.Base.Int.{ℤ, pos, ltb_ℤ}
use rmcast.Orientation.{Orientation, auto, portrait, is_same, orientation_from_string}
use rmcast.Sensor.{abs}

-- An operand, and the value of a variable of the environment, as bytes.
abbrev pub Text : Type 0
Text = List ℕ

-- `options::Dictionary`: each option once, with its values.
abbrev pub Dictionary : Type 0
Dictionary = List (String × List String)

unfoldable pub has : String → Dictionary → Bool
has k [] = false
has k ((j, vs) ∷ opts) = if same_text j k then true else has k opts

unfoldable pub erase : String → Dictionary → Dictionary
erase k [] = []
erase k ((j, vs) ∷ opts) = let rest = erase k opts in if same_text j k then rest else (j, vs) ∷ rest

unfoldable pub values : String → Dictionary → List String
values k [] = []
values k ((j, vs) ∷ opts) = if same_text j k then vs else values k opts

-- What `std::stoi` does.
pub data Parsed : Type 0 where
  parsed : ℤ → Parsed
  invalid_argument out_of_range : Parsed

pub record Request : Type 0 where
  pub buttons : Bool
  pub pen : Bool
  pub touch : Bool

pub record Start : Type 0 where
  pub server_ip : Text
  pub server_port : ℤ
  pub password : Text
  pub request : Request
  pub orientation : Orientation
  pub auto_rotate : Bool
  pub lock_rotation : Bool

-- How `main` goes on. `terminates` is an exception that no handler catches.
pub data Outcome : Type 0 where
  shows_help shows_version : Outcome
  too_many_operands no_server no_port_number : Outcome
  bad_port : ℤ → Outcome
  no_orientation : Outcome
  unknown_options : List String → Outcome
  terminates : Outcome
  starts : Start → Outcome

-- `std::find(…, ' ')`, as a distance from the beginning.
unfoldable pub find_space : Text → ℕ
find_space [] = 0
find_space (c ∷ cs) = if c == 32 then 0 else suc (find_space cs)

-- `std::strncmp(prefix, text, std::strlen(prefix)) == 0`
unfoldable pub has_prefix : Text → Text → Bool
has_prefix [] cs = true
has_prefix (p ∷ ps) [] = false
has_prefix (p ∷ ps) (c ∷ cs) = if p == c then has_prefix ps cs else false

-- "::ffff:"
abbrev pub ipv4_prefix : Text
ipv4_prefix = 58 ∷ 58 ∷ 102 ∷ 102 ∷ 102 ∷ 102 ∷ 58 ∷ []

-- The address in `SSH_CONNECTION`, from the end of the prefix to the first space.
unfoldable pub client_ip : Text → Text
client_ip ssh_conn =
    let start = if has_prefix ipv4_prefix ssh_conn then length ipv4_prefix else 0 in
    take (find_space ssh_conn - start) (drop start ssh_conn)

unfoldable pub server_of : List Text → Option Text → Option Text
server_of (ip ∷ _) ssh_conn = some ip
server_of [] none = none
server_of [] (some ssh_conn) = some (client_ip ssh_conn)

abbrev pub default_server_port : ℤ
default_server_port = pos 5900

abbrev pub min_port : ℤ
min_port = pos 1

abbrev pub max_port : ℤ
max_port = pos 65535

-- The second operand: a port, or the end of the program.
pub data Port : Type 0 where
  port : ℤ → Port
  stops : Outcome → Port

unfoldable pub checked_port : Parsed → Port
checked_port invalid_argument = stops no_port_number
checked_port out_of_range = stops terminates
checked_port (parsed n) =
    if ltb_ℤ n min_port || ltb_ℤ max_port n then stops (bad_port n) else port n

unfoldable pub port_of : (Text → Parsed) → List Text → Port
port_of stoi (_ ∷ text ∷ _) = checked_port (stoi text)
port_of stoi _ = port default_server_port

unfoldable pub password_of : List Text → Text
password_of (_ ∷ _ ∷ password ∷ []) = password
password_of _ = []

-- The devices, with the options that switch one off taken out.
unfoldable pub devices_of : Dictionary → Request × Dictionary
devices_of opts =
    let without_buttons = if has "no-buttons" opts then erase "no-buttons" opts else opts in
    let without_pen =
      if has "no-pen" without_buttons then erase "no-pen" without_buttons else without_buttons in
    let rest = if has "no-touch" without_pen then erase "no-touch" without_pen else without_pen in
    (
      record {
        buttons = not (has "no-buttons" opts);
        pen = not (has "no-pen" without_buttons);
        touch = not (has "no-touch" without_pen);
      },
      rest,
    )

-- The orientation; `none` where the option has no value.
unfoldable pub orientation_of : Dictionary → Option (Orientation × Dictionary)
orientation_of opts =
    if has "orientation" opts
    then elim (values "orientation" opts) [
      | [] ↦ none
      | v ∷ _ ↦ some (orientation_from_string v, erase "orientation" opts)
    ]
    else some (auto, opts)

-- The last two options, and the test that no other is left.
unfoldable pub finish : Text → ℤ → Text → Request → Orientation → Dictionary → Outcome
finish ip number password request orientation opts =
    let auto_rotate = has "auto-rotate" opts in
    let turned = if auto_rotate then erase "auto-rotate" opts else opts in
    let rest = erase "no-lock-rotation" turned in
    elim rest [
      | [] ↦ starts (record {
        server_ip = ip;
        server_port = number;
        password = password;
        request = request;
        orientation = orientation;
        auto_rotate = auto_rotate;
        lock_rotation = not (has "no-lock-rotation" turned);
      })
      | o ∷ os ↦ unknown_options (map (λ (p : String × List String). p.0) (o ∷ os))
    ]

unfoldable pub with_server : Text → ℤ → Text → Dictionary → Outcome
with_server ip number password opts =
    let (request, rest) = devices_of opts in
    elim (orientation_of rest) [
      | none ↦ no_orientation
      | some (orientation, left) ↦ finish ip number password request orientation left
    ]

unfoldable pub with_operands : (Text → Parsed) → Dictionary → List Text → Option Text → Outcome
with_operands stoi opts oper ssh_conn = elim (server_of oper ssh_conn) [
  | none ↦ no_server
  | some ip ↦ elim (port_of stoi oper) [
    | stops outcome ↦ outcome
    | port number ↦ with_server ip number (password_of oper) opts
  ]
]

-- `main`, up to the start of the client.
unfoldable pub read_arguments : (Text → Parsed) → Dictionary → List Text → Option Text → Outcome
read_arguments stoi opts oper ssh_conn =
    if has "help" opts || has "h" opts
    then shows_help
    else if has "version" opts || has "v" opts
    then shows_version
    else if ltb 3 (length oper)
    then too_many_operands
    else with_operands stoi opts oper ssh_conn

-- `initial_device_is_landscape`, from the three readings.
unfoldable pub initial_device_is_landscape : ℤ → ℤ → ℤ → Bool
initial_device_is_landscape x y z =
    if ltb (abs x) (abs z) && ltb (abs y) (abs z) then false else ltb (abs y) (abs x)

-- The orientation that the client starts with, and whether the resolution 2160x1620 is asked for.
unfoldable pub choose_start : Orientation → Bool → Bool → Bool → Orientation × Bool
choose_start orientation using_vncast start_landscape has_resolution =
    if is_same orientation auto && not using_vncast && start_landscape
    then (portrait, not has_resolution)
    else (orientation, false)
