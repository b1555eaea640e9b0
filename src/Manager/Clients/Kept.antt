-- ===== src/Manager/Clients/Kept.antt =====
-- The calls that leave the clients, their groups and what has been sent as they were: all that the
-- interface does, and all messages but the two that initialise.
use rmcast.Base.{
  ℕ, inl, inr, refl, ◌∙◌, Option, some, Bool, not, ◌||◌, if◌then◌else◌, Option-cases, Bool-cases,
}
use rmcast.Base.Int.{ℤ, pos, negsuc, eq_ℤ, ltb_ℤ}
use rmcast.Manager.{
  Manager, ClientConnection, put, update, ClientMessage, initialize, custom_initialize,
  update_region, terminate, set_refresh_mode, request_full_refresh, other, Posted, marked_update,
  refresh_mode_set, full_refresh, shm_associated, FbController, UpdateRegion,
}
use rmcast.Manager.Memory.{Answers}
use rmcast.Manager.Registry.{
  register_controller, unregister_controller, set_framebuffer_id, destroy_controller,
}
use rmcast.Manager.Registry.Initialize.{Keeps, try_to_match_up-Keeps}
use rmcast.Manager.Clients.{
  dispatch, invoke_on_connected_framebuffer, handle_update_region, post, on_controller, run_posted,
}
use rmcast.Manager.Clients.System.{IsLockFree}

Keeps-refl : (m : Manager) → Keeps m m
Keeps-refl m = record { clients = refl; connections = refl; sent = refl; system = refl }

Keeps-trans : {m t u : Manager} → Keeps m t → Keeps t u → Keeps m u
Keeps-trans a b = record {
  clients = b.clients ∙ a.clients;
  connections = b.connections ∙ a.connections;
  sent = b.sent ∙ a.sent;
  system = b.system ∙ a.system;
}

register_controller-Keeps : (key : ℤ) (i : ℕ) (m : Manager) → Keeps m (register_controller key i m)
unfolding register_controller
register_controller-Keeps key i m = elim (Bool-cases (eq_ℤ key (negsuc 0))) [
  | inl e ↦ rw (register_controller, e) (Keeps-refl m)
  | inr e ↦ elim (Option-cases (m.framebuffers key)) [
    | inr (d, f) ↦ rw (register_controller, e, f) (Keeps-refl m)
    | inl f ↦
        let t = record m { framebuffers = put m.framebuffers key (some i) } in
        let keeps = try_to_match_up-Keeps key t in
        rw (register_controller, e, f)
          (record {
            clients = keeps.clients;
            connections = keeps.connections;
            sent = keeps.sent;
            system = keeps.system;
          })
  ]
]

pub set_framebuffer_id-Keeps : (i : ℕ) (id : ℤ) (m : Manager) → Keeps m (set_framebuffer_id i id m)
unfolding set_framebuffer_id unregister_controller
set_framebuffer_id-Keeps i id m = elim (Option-cases (m.controllers i)) [
  | inl e ↦ rw (set_framebuffer_id, e) (Keeps-refl m)
  | inr (c, e) ↦
      rw (set_framebuffer_id, e)
        (Keeps-trans (freed c.framebuffer_id (some (record c { framebuffer_id = id })))
          (register_controller-Keeps id i _))
]
  where
    freed :
        (old : ℤ) (d : Option FbController)
        → let t = if not (eq_ℤ old id) then unregister_controller old m else m in
          Keeps m (record t { controllers = update t.controllers i d })
    freed old d = elim (Bool-cases (eq_ℤ old id)) [
      | inl f ↦ rw f (record { clients = refl; connections = refl; sent = refl; system = refl })
      | inr f ↦ rw f (record { clients = refl; connections = refl; sent = refl; system = refl })
    ]

pub destroy_controller-Keeps : (i : ℕ) (m : Manager) → Keeps m (destroy_controller i m)
unfolding destroy_controller unregister_controller
destroy_controller-Keeps i m = elim (Option-cases (m.controllers i)) [
  | inl e ↦ rw (destroy_controller, e) (Keeps-refl m)
  | inr (c, e) ↦
      rw (destroy_controller, e)
        (record { clients = refl; connections = refl; sent = refl; system = refl })
]

pub on_controller-Keeps :
    (i : ℕ) (f : FbController → FbController) (m : Manager) → Keeps m (on_controller i f m)
unfolding on_controller
on_controller-Keeps i f m = elim (Option-cases (m.controllers i)) [
  | inl e ↦ rw (on_controller, e) (Keeps-refl m)
  | inr (c, e) ↦
      rw (on_controller, e)
        (record { clients = refl; connections = refl; sent = refl; system = refl })
]

pub run_posted-Keeps : (p : Posted) (m : Manager) → Keeps m (run_posted p m)
unfolding run_posted
run_posted-Keeps (marked_update i r) m = on_controller-Keeps i _ m
run_posted-Keeps (refresh_mode_set i mode) m = on_controller-Keeps i _ m
run_posted-Keeps (full_refresh i) m = on_controller-Keeps i _ m
run_posted-Keeps (shm_associated i key) m = on_controller-Keeps i _ m

invoke_on_connected_framebuffer-Keeps :
    (connection : ClientConnection) (consumer : ℕ → Manager → Manager × Bool) (m : Manager)
    → ((i : ℕ) → Keeps m (consumer i m).0)
    → Keeps m (invoke_on_connected_framebuffer connection consumer m).0
unfolding invoke_on_connected_framebuffer
invoke_on_connected_framebuffer-Keeps connection consumer m keeps =
    elim (Bool-cases (eq_ℤ connection.fb_key (negsuc 0))) [
      | inl e ↦ rw (invoke_on_connected_framebuffer, e) (Keeps-refl m)
      | inr e ↦ elim (Option-cases (m.framebuffers connection.fb_key)) [
        | inl f ↦ rw (invoke_on_connected_framebuffer, e, f) (Keeps-refl m)
        | inr (i, f) ↦ elim (Option-cases (m.controllers i)) [
          | inl g ↦ rw (invoke_on_connected_framebuffer, e, f, g) (Keeps-refl m)
          | inr (d, g) ↦ rw (invoke_on_connected_framebuffer, e, f, g) (keeps i)
        ]
      ]
    ]

post-Keeps : (p : Posted) (m : Manager) → Keeps m (post p m)
unfolding post
post-Keeps p m = record { clients = refl; connections = refl; sent = refl; system = refl }

handle_update_region-Keeps :
    (i : ℕ) (u : UpdateRegion) (m : Manager) → Keeps m (handle_update_region i u m)
unfolding handle_update_region
handle_update_region-Keeps i u m = elim (Bool-cases (eq_ℤ u.type (pos 0))) [
  | inl e ↦ rw (handle_update_region, e) (post-Keeps _ m)
  | inr e ↦ elim (Bool-cases (eq_ℤ u.type (pos 1))) [
    | inl f ↦ rw (handle_update_region, e, f) (post-Keeps _ m)
    | inr f ↦ rw (handle_update_region, e, f) (Keeps-refl m)
  ]
]

pub dispatch-Keeps :
    (answers : Answers) (c : ℕ) (connection : ClientConnection) (message : ClientMessage)
    (m : Manager)
    → IsLockFree message
    → Keeps m (dispatch answers c connection message m).0
unfolding dispatch IsLockFree
dispatch-Keeps answers c connection (initialize key type) m h = elim h [ ]
dispatch-Keeps answers c connection (custom_initialize key type w w') m h = elim h [ ]
dispatch-Keeps answers c connection (update_region u) m h =
    invoke_on_connected_framebuffer-Keeps connection _ m (λ i. handle_update_region-Keeps i u m)
dispatch-Keeps answers c connection terminate m h = Keeps-refl m
dispatch-Keeps answers c connection (set_refresh_mode refresh) m h =
    invoke_on_connected_framebuffer-Keeps connection _ m (λ i.
      elim (Bool-cases (ltb_ℤ (pos 4) refresh || ltb_ℤ refresh (pos 0))) [
        | inl e ↦ rw e (Keeps-refl m)
        | inr e ↦ rw e (post-Keeps _ m)
      ])
dispatch-Keeps answers c connection request_full_refresh m h =
    invoke_on_connected_framebuffer-Keeps connection _ m (λ i. post-Keeps _ m)
dispatch-Keeps answers c connection (other type) m h = Keeps-refl m
