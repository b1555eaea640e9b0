-- ===== src/Manager/Tests.antt =====
-- The theorems about the framebuffer manager at small concrete values.
use rmcast.Base.{
  ◌+◌, ◌*◌, ◌^◌, ◌≤◌, ◌<◌, ◌≡◌, ◌≢◌, ◌⊎◌, inl, refl, List, [], ◌∷◌, ◌++◌, none, some, true, false,
  not, ◌&&◌, if◌then◌else◌, arith,
}
use rmcast.Protocol.{to_int32, of_int32}
use rmcast.Base.Int.{◌*ℤ◌, ℤ, pos, negsuc, eq_ℤ}
use rmcast.Manager.{
  Manager, System, ClientBackend, ClientConnection, FbController, Image, rgb16, QRect, put, update,
  UserInputContents, user_input, ClientMessage, custom_initialize,
}
use rmcast.Manager.Memory.{
  shm_size_of, to_size, Answers, layout_of, create_shm, destroy, new_backend,
}
use rmcast.Manager.Memory.Sizes.{Made, span, create_shm-covers}
use rmcast.Manager.Memory.Released.{released, can_create, released_lem}
use rmcast.Manager.Registry.{
  Request, handle_initialize, create_for, forward_user_input, set_framebuffer_id,
}
use rmcast.Manager.Registry.Initialize.{Joins, Refuses, Fits, rekeyed, handle_initialize_cases}
use rmcast.Manager.Clients.{accept, dispatch}
use rmcast.Manager.Clients.System.{
  State, Reach, Step, starts, steps, initial, accepts, talks, IsPolite, IsPoliteStep, IsPoliteRun,
}
use rmcast.Manager.Clients.Groups.{members}
use rmcast.Manager.Clients.Runs.{deliveries}
use rmcast.Manager.Clients.Refines.{Expected, Step-Expected}
use rmcast.Manager.Clients.Hangups.{hang_up, forward-reaches, second_initialize_dangles}
use rmcast.Manager.Clients.Lifetime.{Vanished, open-hang_up}
use rmcast.Manager.Clients.Images.{Orphans, hang_up-images}
use rmcast.Manager.Controller.{marked_update, empty_rect}
use rmcast.Manager.Controller.Scaling.{marked_update-scaled}
use rmcast.Manager.Input.{PointF, EventPoint, updated, is_bound}
use rmcast.Manager.Input.Touches.{
  refreshes, touch_events, has_five, IsCrowded, touch_events-refreshes,
}

abbrev blank : System
blank = record { linked = λ k. false; open_descriptors = 0; memory = λ a. none }

abbrev granted : Answers
granted = record { random = 5; opens = true; fd = 7; truncates = true; mapping = some 4096 }

abbrev starved : Answers
starved = record { random = 5; opens = true; fd = 7; truncates = true; mapping = none }

abbrev quiet : Manager
quiet = (initial blank).manager

abbrev caller : ClientConnection
caller = record { client_fd = 9; fb_key = negsuc 0 }

-- A small picture of two bytes per pixel.
create_shm-covers_example :
    let r = create_shm granted blank new_backend 0 (pos 4) (pos 3) in
    Made granted blank 0 4 3 (2, rgb16) 4096 r
    × (3 * 4 * 2 ≡ span 4 3 2)
    × (3 * 4 * 2 < 2 ^ 31 → r.1.shm_size ≡ 3 * 4 * 2)
    × (2 ^ 31 ≤ 3 * 4 * 2 → r.1.shm_size < 3 * 4 * 2)
unfolding layout_of shm_size_of to_size to_int32 of_int32 ◌*ℤ◌
create_shm-covers_example =
    create_shm-covers granted blank new_backend 0 4 3 (2, rgb16) 4096 refl refl refl refl
      (omega arith) (omega arith)

-- A picture that the wrapped product makes too short: 46341 by 46341 pixels.
wrapped_size_is_short :
    (create_shm granted blank new_backend 0 (pos 46341) (pos 46341)).1.shm_size < 46341 * 46341 * 2
unfolding layout_of shm_size_of to_size to_int32 of_int32 ◌*ℤ◌
wrapped_size_is_short =
    (create_shm-covers granted blank new_backend 0 46341 46341 (2, rgb16) 4096 refl refl refl refl
        (omega arith) (omega arith)).3
      (omega arith)

released_lem_example :
    (layout_of 0 ≡ none → released starved blank 0 (pos 4) (pos 3) ≡ blank)
    × ((create_shm starved blank new_backend 0 (pos 4) (pos 3)).2 ≡ false
        → layout_of 0 ≢ none
        → ((released starved blank 0 (pos 4) (pos 3)).memory ≡ blank.memory)
          × ((j : ℤ)
              → (released starved blank 0 (pos 4) (pos 3)).linked j
                ≡ (if eq_ℤ j (pos 5) then false else false)))
    × ((create_shm starved blank new_backend 0 (pos 4) (pos 3)).2
        ≡ can_create starved 0 (pos 4) (pos 3))
released_lem_example = released_lem starved blank 0 (pos 4) (pos 3)

abbrev asked : Request
asked = record { key = pos 3; type = 0; size = some (4, 3) }

handle_initialize_cases_example :
    let (t, done) = handle_initialize granted 1 caller asked quiet in
    let (system, made, created) = create_for granted blank asked in
    let own = rekeyed caller asked in
    ((b : ClientBackend)
      → quiet.connections (pos 3) ≡ some b
      → ((done ≡ true) × Fits asked b × Joins 1 own b quiet t × (t.system ≡ blank))
        ⊎ ((done ≡ false) × (¬ Fits asked b) × Refuses 1 own quiet t × (t.system ≡ blank)))
    × (quiet.connections (pos 3) ≡ none
        → ((done ≡ true) × (created ≡ true) × Joins 1 own made quiet t × (t.system ≡ system))
          ⊎ ((done ≡ false)
              × (created ≡ false)
              × Refuses 1 own quiet t
              × (t.system ≡ destroy made system)))
unfolding initial
handle_initialize_cases_example = handle_initialize_cases granted 1 caller asked quiet

open-hang_up_example :
    Vanished 1 4096 5 quiet
      (hang_up 1 (rekeyed caller asked) (handle_initialize granted 1 caller asked quiet).0)
unfolding layout_of initial shm_size_of to_size to_int32 of_int32 ◌*ℤ◌
open-hang_up_example =
    open-hang_up granted 1 caller quiet (pos 3) 0 4 3 4096 (2, rgb16) (λ e. cc) refl refl refl refl
      refl (omega arith) (omega arith)

abbrev begun : Reach blank (initial blank)
begun = starts

abbrev joiner : Step (initial blank) (record (initial blank) { manager = accept 1 9 quiet })
unfolding initial
joiner = accepts 1 9 refl

-- The state with one client that has not initialised.
abbrev connected : State
connected = record (initial blank) { manager = accept 1 9 quiet }

abbrev hello : ClientMessage
hello = custom_initialize (pos 3) 0 4 3

abbrev served : State
served = record connected { manager = (dispatch granted 1 caller hello connected.manager).0 }

abbrev initialises : Step connected served
unfolding accept update initial
initialises = talks granted 1 caller hello refl (inl refl)

abbrev joined_run : Reach blank connected
joined_run = steps begun joiner

Step-Expected_example : Expected initialises (members connected.manager) (members served.manager)
unfolding IsPoliteRun IsPoliteStep IsPolite joiner initialises
Step-Expected_example = Step-Expected joined_run initialises (tt, tt) (refl, λ e. cc)

abbrev tap : UserInputContents
tap = record { input_type = 16; dev_id = pos 0; x = pos 2; y = pos 1; d = pos 0 }

forward-reaches_example :
    forward_user_input (pos 3) tap served.manager
    ≡ some (record served.manager {
      sent =
          served.manager.sent
          ++ deliveries served.manager.clients (members served.manager (pos 3)) (user_input tap);
    })
unfolding IsPoliteRun IsPoliteStep IsPolite joiner initialises
forward-reaches_example =
    forward-reaches (pos 3) tap (steps joined_run initialises) ((tt, tt), (refl, λ e. cc))

abbrev picture : Image
picture = record {
  bits = 4096;
  width = pos 4;
  height = pos 3;
  bytes_per_line = pos 8;
  format = rgb16;
}

abbrev pixels : ClientBackend
pixels = record {
  shm_fd = pos 7;
  shm_key = pos 5;
  shm = some 4096;
  image = some picture;
  shm_type = pos 0;
  shm_size = 24;
  connections = 1 ∷ [];
}

abbrev bound_caller : ClientConnection
bound_caller = record { client_fd = 9; fb_key = pos 3 }

abbrev viewer : FbController
viewer = record {
  framebuffer_id = pos 3;
  refresh_mode = pos 4;
  is_active = true;
  allow_scaling = true;
  is_mid_paint = false;
  checking_gesture_drag_down = false;
  refreshed_screen_already = false;
  image = some picture;
  item_width = pos 40;
  item_height = pos 30;
  emitted = [];
  updates = [];
}

abbrev busy : Manager
busy = record {
  framebuffers = put (λ k. none) (pos 3) (some 2);
  connections = put (λ k. none) (pos 3) (some pixels);
  clients = update (λ c. none) 1 (some bound_caller);
  controllers = update (λ i. none) 2 (some viewer);
  posted = [];
  sent = [];
  system = blank;
}

abbrev elsewhere : Request
elsewhere = record { key = pos 8; type = 0; size = none }

second_initialize_dangles_example :
    forward_user_input (pos 3) tap (
      hang_up 1
        (rekeyed bound_caller elsewhere)
        (handle_initialize granted 1 bound_caller elsewhere busy).0)
    ≡ none
unfolding put eq_ℤ
second_initialize_dangles_example =
    second_initialize_dangles granted 1 bound_caller elsewhere busy pixels refl (λ e. cc) [] tap
      refl

hang_up-images_example :
    Orphans 2 none true 4096 (hang_up 1 bound_caller busy)
    × Orphans 2
        (some picture)
        true
        4096
        (hang_up 1 bound_caller (set_framebuffer_id 2 (pos 8) busy))
unfolding put update eq_ℤ
hang_up-images_example =
    hang_up-images 2 (pos 8) viewer picture 1 bound_caller busy pixels 5 (λ e. cc) refl refl refl
      refl refl refl refl refl (λ e. cc) refl

-- A point in halves of a pixel.
abbrev half_way : PointF
half_way = record { x = pos 27; y = pos 59; unit = 2 }

abbrev spot : QRect
spot = record { x = pos 1; y = pos 2; width = pos 2; height = pos 1 }

marked_update-scaled_example :
    (true ≡ true → (marked_update spot viewer).updates ≡ [] ++ empty_rect ∷ [])
    × (true ≡ false → (marked_update spot viewer).updates ≡ [] ++ spot ∷ [])
    × ((marked_update spot viewer).is_mid_paint ≡ true)
marked_update-scaled_example =
    marked_update-scaled viewer picture 4 3 1 2 2 1 refl refl refl (omega arith) (omega arith)
      (omega arith) (omega arith)

abbrev finger : ℤ → EventPoint
finger i = record { id = i; position = half_way; pressure = 50; state = updated }

abbrev hand : List EventPoint
hand = finger (pos 1) ∷ finger (pos 2) ∷ finger (pos 3) ∷ finger (pos 4) ∷ finger (pos 5) ∷ []

touch_events-refreshes_example :
    refreshes (touch_events (hand ∷ hand ∷ []) viewer).emitted
    ≡ refreshes [] + (if has_five (hand ∷ hand ∷ []) && not false then 1 else 0)
unfolding IsCrowded is_bound eq_ℤ
touch_events-refreshes_example =
    touch_events-refreshes (hand ∷ hand ∷ []) viewer (refl, (refl, tt)) refl
