-- ===== src/Manager/Registry.antt =====
-- The two maps of the framebuffer manager (middleware/extension/src/qtfb/fbmanagement.cpp):
-- controllers that register, and clients that initialise and get input.
pub mod Initialize
use rmcast.Base.{
  ℕ, List, [], ◌∷◌, ◌++◌, Option, none, some, Bool, true, false, not, ◌||◌, if◌then◌else◌, take,
}
use rmcast.Base.Int.{ℤ, pos, negsuc, eq_ℤ}
use rmcast.Manager.{
  Manager, System, ClientBackend, ClientConnection, FbController, Image, Posted, shm_associated,
  put, update, ServerMessage, initialized, user_input, UserInputContents, ClientMessage, initialize,
  custom_initialize,
}
use rmcast.Manager.Controller.{finish_association}
use rmcast.Manager.Memory.{Answers, new_backend, create_shm, create_default_shm, destroy}

-- `controller->associateSHM(image)`: the image is set at once, the rest waits in the event loop.
unfoldable pub associate_shm : ℕ → Option Image → Manager → Manager
associate_shm i image m = elim (m.controllers i) [
  | none ↦ m
  | some c ↦ record m {
    controllers = update m.controllers i (some (record c { image = image }));
    posted = m.posted ++ shm_associated i c.framebuffer_id ∷ [];
  }
]

-- `associateSHM` is reached only if the backend has its memory; a null controller takes no call.
unfoldable pub try_to_match_up : ℤ → Manager → Manager
try_to_match_up key m = elim (m.connections key) [
  | none ↦ m
  | some b ↦ elim (m.framebuffers key) [
    | none ↦ m
    | some i ↦ elim b.shm [ none ↦ m | some _ ↦ associate_shm i b.image m ]
  ]
]

unfoldable pub register_controller : ℤ → ℕ → Manager → Manager
register_controller key i m = if eq_ℤ key (negsuc 0) then m else elim (m.framebuffers key) [
  | some _ ↦ m
  | none ↦ try_to_match_up key (record m { framebuffers = put m.framebuffers key (some i) })
]

unfoldable pub is_controller_associated : ℤ → Manager → Bool
is_controller_associated key m = elim (m.connections key) [ none ↦ false | some _ ↦ true ]

unfoldable pub unregister_controller : ℤ → Manager → Manager
unregister_controller key m = record m { framebuffers = put m.framebuffers key none }

-- `FBController::setFramebufferID`
unfoldable pub set_framebuffer_id : ℕ → ℤ → Manager → Manager
set_framebuffer_id i id m = elim (m.controllers i) [
  | none ↦ m
  | some c ↦
      let t =
        if not (eq_ℤ c.framebuffer_id id) then unregister_controller c.framebuffer_id m else m in
      register_controller id i (record t {
        controllers = update t.controllers i (some (record c { framebuffer_id = id }));
      })
]

-- `~FBController`
unfoldable pub destroy_controller : ℕ → Manager → Manager
destroy_controller i m = elim (m.controllers i) [
  | none ↦ m
  | some c ↦
      let t = unregister_controller c.framebuffer_id m in
      record t { controllers = update t.controllers i none }
]

-- `SEND`
unfoldable pub send : ClientConnection → ServerMessage → Manager → Manager
send c message m = record m { sent = m.sent ++ (c.client_fd, message) ∷ [] }

-- What `inbound->init` and `inbound->customInit` ask for: a type, and a size or the type's own.
pub record Request : Type 0 where
  pub key : ℤ
  pub type : ℕ
  pub size : Option (ℕ × ℕ)

-- The test of the parameters for a key that has a backend.
unfoldable pub is_mismatch : Request → ClientBackend → Bool
is_mismatch r b = elim r.size [
  | none ↦ not (eq_ℤ b.shm_type (pos r.type))
  | some size ↦ elim b.image [
    | none ↦ true
    | some image ↦
        not (eq_ℤ b.shm_type (pos r.type))
        || (not (eq_ℤ image.width (pos size.0)) || not (eq_ℤ image.height (pos size.1)))
  ]
]

unfoldable pub create_for : Answers → System → Request → System × ClientBackend × Bool
create_for answers s r = elim r.size [
  | none ↦ create_default_shm answers s new_backend r.type
  | some size ↦ create_shm answers s new_backend r.type (pos size.0) (pos size.1)
]

-- The backend's connection list with one more client, and the answer to that client.
unfoldable pub admit : ℕ → ClientConnection → ℤ → ClientBackend → Manager → Manager
admit c connection key b m =
    let t = send connection (initialized b.shm_key b.shm_size) m in
    record t {
      connections =
          put t.connections key (some (record b { connections = b.connections ++ c ∷ [] }));
    }

-- `handleInitialize` for the client `c`, and whether it answers RESP_OK.
unfoldable pub handle_initialize :
    Answers → ℕ → ClientConnection → Request → Manager → Manager × Bool
handle_initialize answers c connection r m =
    let own = record connection { fb_key = r.key } in
    let t = record m { clients = update m.clients c (some own) } in
    elim (t.connections r.key) [
      | some b ↦ if is_mismatch r b then (t, false) else (admit c own r.key b t, true)
      | none ↦
          let (system, b, done) = create_for answers t.system r in
          if done
          then (try_to_match_up r.key (admit c own r.key b (record t { system = system })), true)
          else (record t { system = destroy b system }, false)
    ]

-- The loop of `forwardUserInput`; `none` is a read of a connection that is gone.
unfoldable pub send_all : List ℕ → ServerMessage → Manager → Option Manager
send_all [] message m = some m
send_all (c ∷ cs) message m = elim (m.clients c) [
  | none ↦ none
  | some connection ↦ send_all cs message (send connection message m)
]

unfoldable pub forward_user_input : ℤ → UserInputContents → Manager → Option Manager
forward_user_input key input m = elim (m.connections key) [
  | none ↦ some m
  | some b ↦ send_all b.connections (user_input input) m
]

-- `forwardUserInput` for each packet of an event of the controller `i`.
unfoldable pub forward_packets : ℤ → List UserInputContents → Manager → Option Manager
forward_packets key [] m = some m
forward_packets key (p ∷ ps) m = elim (forward_user_input key p m) [
  | none ↦ none
  | some t ↦ forward_packets key ps t
]
