-- ===== src/CommandLine/Tests.antt =====
-- The theorems about the command line at small concrete values.
use rmcast.Base.{◌≡◌, ◌≤◌, refl, [], ◌∷◌, ◌++◌, none, some, true, false, length}
use rmcast.Base.Int.{ltb_ℤ, pos, ◌≤ℤ◌}
use rmcast.Orientation.{landscape_cw, orientation_from_string}
use rmcast.CommandLine.{
  Text, Dictionary, Parsed, parsed, out_of_range, Start, port, port_of, server_of, ipv4_prefix,
  read_arguments, with_operands, with_server, finish, devices_of, orientation_of, has, erase,
  values, checked_port, password_of, has_prefix,
}
use rmcast.CommandLine.Options.{Follows}
use rmcast.CommandLine.Checked.{read_arguments-starts}
use rmcast.CommandLine.Server.{is_word, server_of_connection}

-- "10.0", "59" and the options of a run.
abbrev host : Text
host = 49 ∷ 48 ∷ 46 ∷ 48 ∷ []

abbrev fifty_nine : Text
fifty_nine = 53 ∷ 57 ∷ []

abbrev two_digits : Text → Parsed
two_digits (a ∷ b ∷ []) = parsed (pos 59)
two_digits _ = out_of_range

abbrev opts : Dictionary
opts = ("no-pen", []) ∷ ("orientation", "landscape" ∷ []) ∷ []

abbrev start : Start
start = record {
  server_ip = host;
  server_port = pos 59;
  password = [];
  request = record { buttons = true; pen = false; touch = true };
  orientation = landscape_cw;
  auto_rotate = false;
  lock_rotation = true;
}

read_arguments-starts_example :
    (length (host ∷ fifty_nine ∷ []) ≤ 3)
    × (server_of (host ∷ fifty_nine ∷ []) none ≡ some host)
    × (port_of two_digits (host ∷ fifty_nine ∷ []) ≡ port (pos 59))
    × (pos 1 ≤ℤ pos 59)
    × (pos 59 ≤ℤ pos 65535)
    × Follows opts start
unfolding read_arguments orientation_from_string with_operands with_server finish devices_of
    orientation_of has erase values checked_port port_of server_of password_of ltb_ℤ
read_arguments-starts_example =
    read_arguments-starts two_digits opts (host ∷ fifty_nine ∷ []) none start refl

server_of_connection_example :
    (server_of [] (some (host ++ 32 ∷ fifty_nine)) ≡ some host)
    × (server_of [] (some (ipv4_prefix ++ host ++ 32 ∷ fifty_nine)) ≡ some host)
unfolding is_word has_prefix
server_of_connection_example = server_of_connection host fifty_nine refl refl
