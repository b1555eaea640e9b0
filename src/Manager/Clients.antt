-- ===== src/Manager/Clients.antt =====
-- The thread of a client of the framebuffer manager
-- (`managementClientThread` of middleware/extension/src/qtfb/fbmanagement.cpp), and the event loop
-- of the interface that runs what it posts.
pub mod Members
pub mod System
pub mod Kept
pub mod Groups
pub mod Sound
pub mod Leave
pub mod Invariant
pub mod Runs
pub mod Refines
pub mod Hangups
pub mod Lifetime
pub mod Images
use rmcast.Base.{
  ℕ, List, [], ◌∷◌, ◌++◌, Option, none, some, Bool, true, false, not, ◌||◌, if◌then◌else◌, ◌==◌,
}
use rmcast.Base.Int.{ℤ, pos, negsuc, eq_ℤ, ltb_ℤ}
use rmcast.Manager.{
  Manager, ClientBackend, ClientConnection, FbController, Posted, marked_update, refresh_mode_set,
  full_refresh, shm_associated, put, update, QRect, UpdateRegion, ClientMessage, initialize,
  custom_initialize, update_region, terminate, set_refresh_mode, request_full_refresh, other,
  request_full_refresh as full_refresh_asked,
}
use rmcast.Manager.Controller as Controller
use rmcast.Manager.Memory.{Answers, destroy}
use rmcast.Manager.Registry.{Request, handle_initialize, associate_shm, is_controller_associated}

unfoldable pub post : Posted → Manager → Manager
post p m = record m { posted = m.posted ++ p ∷ [] }

-- `handleUpdateRegion` for the controller `i`: an update of an unknown type is ignored.
unfoldable pub handle_update_region : ℕ → UpdateRegion → Manager → Manager
handle_update_region i u m =
    if eq_ℤ u.type (pos 0)
    then post (marked_update i Controller.empty_rect) m
    else if eq_ℤ u.type (pos 1)
    then post (marked_update i (record { x = u.x; y = u.y; width = u.w; height = u.h })) m
    else m

-- `invokeOnConnectedFramebuffer`, and whether it answers RESP_OK.
unfoldable pub invoke_on_connected_framebuffer :
    ClientConnection → (ℕ → Manager → Manager × Bool) → Manager → Manager × Bool
invoke_on_connected_framebuffer connection consumer m =
    if eq_ℤ connection.fb_key (negsuc 0)
    then (m, false)
    else elim (m.framebuffers connection.fb_key) [
      | none ↦ (m, true)
      | some i ↦ elim (m.controllers i) [ none ↦ (m, true) | some _ ↦ consumer i m ]
    ]

-- The switch of the thread's loop for the client `c`, and whether the loop goes on.
unfoldable pub dispatch : Answers → ℕ → ClientConnection → ClientMessage → Manager → Manager × Bool
dispatch answers c connection (initialize key type) m =
    handle_initialize answers c connection (record { key = key; type = type; size = none }) m
dispatch answers c connection (custom_initialize key type width height) m =
    handle_initialize answers c connection
      (record { key = key; type = type; size = some (width, height) }) m
dispatch answers c connection (update_region u) m =
    invoke_on_connected_framebuffer connection (λ i t. (handle_update_region i u t, true)) m
dispatch answers c connection terminate m = (m, false)
dispatch answers c connection (set_refresh_mode refresh) m =
    invoke_on_connected_framebuffer connection
      (λ i t.
        if ltb_ℤ (pos 4) refresh || ltb_ℤ refresh (pos 0)
        then (t, false)
        else (post (refresh_mode_set i refresh) t, true))
      m
dispatch answers c connection request_full_refresh m =
    invoke_on_connected_framebuffer connection (λ i t. (post (full_refresh i) t, true)) m
dispatch answers c connection (other type) m = (m, false)

-- `std::find` and `erase`: the first entry that is `c`, if there is one.
unfoldable pub erase : ℕ → List ℕ → List ℕ
erase c [] = []
erase c (d ∷ ds) = let rest = erase c ds in if d == c then ds else d ∷ rest

-- The close section up to the backend that is to go: the client is taken off its backend, and a
-- backend with no client left is taken out of the map and handed on.
unfoldable pub leave : ℕ → ClientConnection → Manager → Manager × Option ClientBackend
leave c connection m =
    if eq_ℤ connection.fb_key (negsuc 0)
    then (m, none)
    else elim (m.connections connection.fb_key) [
      | none ↦ (m, none)
      | some b ↦
          let left = record b { connections = erase c b.connections } in
          elim left.connections [
            | [] ↦ (record m { connections = put m.connections connection.fb_key none }, some left)
            | _ ∷ _ ↦
                (record m { connections = put m.connections connection.fb_key (some left) }, none)
          ]
    ]

-- The controller that the close section takes the image from, if any; it is found before the wait.
unfoldable pub controller_of : ClientConnection → Manager → Option ℕ
controller_of connection m = elim (m.framebuffers connection.fb_key) [
  | none ↦ none
  | some i ↦ elim (m.controllers i) [ none ↦ none | some _ ↦ some i ]
]

-- The test of the loop that waits for a paint to end.
unfoldable pub must_wait : Option ℕ → Manager → Bool
must_wait none m = false
must_wait (some i) m = elim (m.controllers i) [ none ↦ false | some d ↦ d.is_mid_paint ]

-- The close section after that loop: the image is taken from the controller that was found before
-- it, if that is still there, the backend destroyed, and the thread ends with its connection.
unfoldable pub finish_close : ℕ → Option ℕ → Option ClientBackend → Manager → Manager
finish_close c found none m = record m { clients = update m.clients c none }
finish_close c none (some b) m = record m {
  clients = update m.clients c none;
  system = destroy b m.system;
}
finish_close c (some i) (some b) m =
    let t = associate_shm i none m in
    record t { clients = update t.clients c none; system = destroy b t.system }

-- A call that the event loop of the interface makes; one for a destroyed controller is dropped.
unfoldable pub on_controller : ℕ → (FbController → FbController) → Manager → Manager
on_controller i f m = elim (m.controllers i) [
  | none ↦ m
  | some c ↦ record m { controllers = update m.controllers i (some (f c)) }
]

unfoldable pub run_posted : Posted → Manager → Manager
run_posted (marked_update i r) m = on_controller i (Controller.marked_update r) m
run_posted (refresh_mode_set i mode) m = on_controller i (Controller.set_refresh_mode mode) m
run_posted (full_refresh i) m = on_controller i (Controller.emit full_refresh_asked) m
run_posted (shm_associated i key) m =
    on_controller i (Controller.finish_association (is_controller_associated key m)) m

-- `accept`: a thread with a new connection.
unfoldable pub accept : ℕ → ℕ → Manager → Manager
accept c fd m = record m {
  clients = update m.clients c (some (record { client_fd = fd; fb_key = negsuc 0 }));
}
