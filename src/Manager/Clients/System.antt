-- ===== src/Manager/Clients/System.antt =====
-- The framebuffer manager with all its threads: those of the clients, one of which at a time may be
-- in its close section, and that of the interface. A step is what one of them does between taking
-- and letting go of the lock, or without it.
use rmcast.Base.{ℕ, ◌≡◌, ◌≢◌, ◌⊎◌, List, [], ◌∷◌, Option, none, some, false}
use rmcast.Base.Int.{ℤ, negsuc}
use rmcast.Manager.{
  Manager, ClientBackend, ClientConnection, FbController, Posted, System, UserInputContents,
  ClientMessage, initialize, custom_initialize, update,
}
use rmcast.Manager.Memory.{Answers}
use rmcast.Manager.Registry.{forward_user_input, set_framebuffer_id, destroy_controller}
use rmcast.Manager.Clients.{
  dispatch, leave, controller_of, must_wait, finish_close, on_controller, run_posted, accept,
}

-- `closing` is the thread that holds the lock over its close section, and `found` the controller that
-- it has found there.
pub record State : Type 0 where
  pub manager : Manager
  pub closing : Option (ℕ × ClientConnection × Option ClientBackend)
  pub found : Option ℕ

-- A client keeps to the protocol if it initialises once, with a key other than -1.
unfoldable pub IsPolite : ClientConnection → ClientMessage → Type 0
IsPolite connection (initialize key type) = (connection.fb_key ≡ negsuc 0) × (key ≢ negsuc 0)
IsPolite connection (custom_initialize key type width height) =
    (connection.fb_key ≡ negsuc 0) × (key ≢ negsuc 0)
IsPolite connection _ = Unit

-- The messages whose handling takes no lock.
unfoldable pub IsLockFree : ClientMessage → Type 0
IsLockFree (initialize key type) = ⊥
IsLockFree (custom_initialize key type width height) = ⊥
IsLockFree _ = Unit

-- What the interface does without the lock: controllers are made, bound and destroyed, they paint,
-- and the event loop runs what has been posted.
pub data Interface (m : Manager) : Manager → Type 0 where
  made :
      (i : ℕ) (c : FbController)
      → m.controllers i ≡ none
      → Interface m (record m { controllers = update m.controllers i (some c) })
  bound : (i : ℕ) (id : ℤ) → Interface m (set_framebuffer_id i id m)
  destroyed : (i : ℕ) → Interface m (destroy_controller i m)
  changed : (i : ℕ) (f : FbController → FbController) → Interface m (on_controller i f m)
  ran :
      (p : Posted) (ps : List Posted)
      → m.posted ≡ p ∷ ps
      → Interface m (run_posted p (record m { posted = ps }))

pub data Step (s : State) : State → Type 0 where
  accepts :
      (c fd : ℕ)
      → s.manager.clients c ≡ none
      → Step s (record s { manager = accept c fd s.manager })
  talks :
      (answers : Answers) (c : ℕ) (connection : ClientConnection) (message : ClientMessage)
      → s.manager.clients c ≡ some connection
      → (s.closing ≡ none) ⊎ IsLockFree message
      → Step s (record s { manager = (dispatch answers c connection message s.manager).0 })
  leaves :
      (c : ℕ) (connection : ClientConnection)
      → s.manager.clients c ≡ some connection
      → s.closing ≡ none
      → Step s (record {
        manager = (leave c connection s.manager).0;
        closing = some (c, connection, (leave c connection s.manager).1);
        found = controller_of connection (leave c connection s.manager).0;
      })
  closes :
      (c : ℕ) (connection : ClientConnection) (backend : Option ClientBackend)
      → s.closing ≡ some (c, connection, backend)
      → (backend ≡ none) ⊎ (must_wait s.found s.manager ≡ false)
      → Step s (record {
        manager = finish_close c s.found backend s.manager;
        closing = none;
        found = none;
      })
  forwards :
      (key : ℤ) (input : UserInputContents) (t : Manager)
      → s.closing ≡ none
      → forward_user_input key input s.manager ≡ some t
      → Step s (record s { manager = t })
  shows : (t : Manager) → Interface s.manager t → Step s (record s { manager = t })

-- The manager when it starts: no controller, no client.
unfoldable pub initial : System → State
initial system = record {
  manager = record {
    framebuffers = λ k. none;
    connections = λ k. none;
    clients = λ c. none;
    controllers = λ i. none;
    posted = [];
    sent = [];
    system = system;
  };
  closing = none;
  found = none;
}

pub data Reach (system : System) : State → Type 0 where
  starts : Reach system (initial system)
  steps : {s t : State} → Reach system s → Step s t → Reach system t

-- No client initialises a second time, or with the key -1, at this step.
unfoldable pub IsPoliteStep : {s t : State} → Step s t → Type 0
IsPoliteStep (talks answers c connection message here free) = IsPolite connection message
IsPoliteStep (accepts c fd free) = Unit
IsPoliteStep (leaves c connection here free) = Unit
IsPoliteStep (closes c connection backend holds over) = Unit
IsPoliteStep (forwards key input t free e) = Unit
IsPoliteStep (shows t change) = Unit

-- All steps of a run are polite.
unfoldable pub IsPoliteRun : {system : System} {s : State} → Reach system s → Type 0
IsPoliteRun starts = Unit
IsPoliteRun (steps r st) = IsPoliteRun r × IsPoliteStep st
