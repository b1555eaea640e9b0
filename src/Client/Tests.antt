-- ===== src/Client/Tests.antt =====
-- The theorems on the client applied to a tap on a small screen and to three statuses.
use rmcast.Base.{◌≡◌, inl, inr, refl, List, [], ◌∷◌, ◌++◌, some, false, arith}
use rmcast.Base.Int.{pos, negsuc}
use rmcast.Orientation.{landscape_cw, auto}
use rmcast.Screen.{Screen, standard}
use rmcast.Screen.Blit.Region.{IsSized}
use rmcast.Screen.Repaint.{Status}
use rmcast.Client.{Client}
use rmcast.Client.Gesture.{Touch, handle_touches, all_pointers, mode_after, handle_touches_lem}
use rmcast.Client.Timeouts.{IsCalm}

abbrev turned_screen : Screen
turned_screen = record {
  device = record { xres = pos 1; yres = pos 2; pixels = 0 ∷ 0 ∷ []; updates = [] };
  update_info = record {
    rect = record { x = pos 0; y = pos 0; w = pos 2; h = pos 1 };
    has_update = false;
  };
  last_repaint = 0;
  repaint_mode = standard;
  standard_repaint_delay = 500;
  fast_repaint_delay = 16;
  standard_waveform_mode = 4;
  fast_waveform_mode = 2;
  requested = auto;
  effective = landscape_cw;
  src_buffer = 7 ∷ 9 ∷ [];
  src_width = pos 2;
  src_height = pos 1;
}

turned_screen-IsSized : IsSized turned_screen
turned_screen-IsSized = record { source = refl; panel = refl }

abbrev idle_client : Client
idle_client = record {
  screen = turned_screen;
  pointers = [];
  keys = [];
  full_updates = 0;
  has_exited = false;
}

abbrev tap : List Touch
tap =
    record { now = 5; type = 0x10; x = pos 0; y = pos 1 }
    ∷ record { now = 9; type = 0x11; x = pos 0; y = pos 1 }
    ∷ []

handle_touches_lem_example :
    (d : Client) × (handle_touches idle_client tap ≡ some d)
    × (d.pointers ≡ [] ++ all_pointers turned_screen tap)
    × (d.screen.repaint_mode ≡ mode_after standard tap)
    × IsSized d.screen
handle_touches_lem_example = handle_touches_lem idle_client tap turned_screen-IsSized

abbrev statuses : List Status
statuses =
    record { quit = false; timeout = pos 40 }
    ∷ record { quit = false; timeout = negsuc 0 }
    ∷ record { quit = false; timeout = pos 16 }
    ∷ []

statuses-IsCalm : IsCalm statuses
unfolding IsCalm
statuses-IsCalm = (refl, inr (omega arith), (refl, inl refl, (refl, inr (omega arith), tt)))
