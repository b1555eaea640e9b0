-- ===== src/Manager/Clients/Invariant.antt =====
-- The invariant over all runs of the framebuffer manager.
use rmcast.Base.{
  ℕ, ◌≡◌, ◌≢◌, inl, inr, refl, sym, subst, ◌∙◌, ap, Option, none, some, Option-cases,
  some-injective,
}
use rmcast.Base.Int.{negsuc}
use rmcast.Manager.{Manager, ClientBackend, ClientConnection}
use rmcast.Manager.Registry.Initialize.{Keeps}
use rmcast.Manager.Clients.Members.{In}
use rmcast.Manager.Clients.Groups.{members, members_of, members_same}
use rmcast.Manager.Clients.Sound.{
  Sound, Keeps-Sound, joins-Sound, IsOutside, unbound-IsOutside, outside-Sound,
}
use rmcast.Manager.Clients.Kept.{
  set_framebuffer_id-Keeps, destroy_controller-Keeps, on_controller-Keeps, run_posted-Keeps,
  dispatch-Keeps,
}
use rmcast.Manager.Clients.System.{
  State, Interface, IsPolite, IsLockFree, made, bound, destroyed, changed, ran,
}
use rmcast.Manager.Memory.{Answers}
use rmcast.Manager.{
  ClientMessage, initialize, custom_initialize, update_region, terminate, set_refresh_mode,
  request_full_refresh, other,
}
use rmcast.Manager.Registry.{Request, handle_initialize, create_for}
use rmcast.Manager.Registry.Initialize.{handle_initialize_cases, create_for-connections, rekeyed}
use rmcast.Manager.Clients.{dispatch}

pub Interface-Keeps : {m t : Manager} → Interface m t → Keeps m t
Interface-Keeps {m} (made i c free) = record {
  clients = refl;
  connections = refl;
  sent = refl;
  system = refl;
}
Interface-Keeps {m} (bound i id) = set_framebuffer_id-Keeps i id m
Interface-Keeps {m} (destroyed i) = destroy_controller-Keeps i m
Interface-Keeps {m} (changed i f) = on_controller-Keeps i f m
Interface-Keeps {m} (ran p ps e) =
    let keeps = run_posted-Keeps p (record m { posted = ps }) in
    record {
      clients = keeps.clients;
      connections = keeps.connections;
      sent = keeps.sent;
      system = keeps.system;
    }

-- The thread in its close section still has its connection, and is in no list.
pub record Inv (s : State) : Type 0 where
  pub sound : Sound s.manager
  pub parted :
      (c : ℕ) (connection : ClientConnection) (backend : Option ClientBackend)
      → s.closing ≡ some (c, connection, backend)
      → (s.manager.clients c ≡ some connection) × IsOutside c s.manager

pub IsOutside-Keeps : {m t : Manager} (c : ℕ) → Keeps m t → IsOutside c m → IsOutside c t
IsOutside-Keeps {m} {t} c keeps out k h =
    out k (subst (In c) (members_same m t keeps.connections k) h)

-- What keeps the clients and their groups keeps the invariant.
pub Keeps-Inv :
    (s : State) (t : Manager) → Keeps s.manager t → Inv s → Inv (record s { manager = t })
Keeps-Inv s t keeps inv = record {
  sound = Keeps-Sound keeps inv.sound;
  parted = λ c connection backend e.
      let (here, out) = inv.parted c connection backend e in
      (
        ap (λ (f : ℕ → Option ClientConnection). f c) keeps.clients ∙ here,
        IsOutside-Keeps c keeps out,
      );
}

module _ (answers : Answers) (c : ℕ) (connection : ClientConnection) (r : Request) (m : Manager)
    (sound : Sound m) (here : m.clients c ≡ some connection)
    (free : connection.fb_key ≡ negsuc 0) where
  pub unbound : IsOutside c m
  unbound = unbound-IsOutside m c sound (λ own found.
      ap (λ (x : ClientConnection). x.fb_key) (some-injective own connection (sym found ∙ here))
      ∙ free)

  -- The group that a client with this key is added to.
  pub group_of :
      (o : Option ClientBackend) → m.connections r.key ≡ o → members_of o ≡ members m r.key
  unfolding members
  group_of o e = sym (ap members_of e)

  -- A client without a key that initialises with one keeps the invariant.
  pub initialize-Sound : r.key ≢ negsuc 0 → Sound (handle_initialize answers c connection r m).0
  initialize-Sound named =
      let own = rekeyed connection r in
      let (joining, making) = handle_initialize_cases answers c connection r m in
      let made = create_for answers m.system r in
      elim (Option-cases (m.connections r.key)) [
        | inr (b, e) ↦ elim (joining b e) [
          | inl (d, fits, joins, memory) ↦
              joins-Sound c own b unbound named (group_of (some b) e) joins sound
          | inr (d, misfit, refuses, system) ↦
              outside-Sound c (some own) unbound refuses.clients refuses.connections sound
        ]
        | inl e ↦ elim (making e) [
          | inl (d, done, joins, memory) ↦
              joins-Sound c own made.1 unbound named
                (create_for-connections answers m.system r ∙ group_of none e) joins sound
          | inr (d, failed, refuses, system) ↦
              outside-Sound c (some own) unbound refuses.clients refuses.connections sound
        ]
      ]

pub dispatch-Sound :
    (answers : Answers) (c : ℕ) (connection : ClientConnection) (message : ClientMessage)
    (m : Manager)
    → Sound m
    → m.clients c ≡ some connection
    → IsPolite connection message
    → Sound (dispatch answers c connection message m).0
unfolding dispatch IsPolite IsLockFree
dispatch-Sound answers c connection (initialize key type) m sound here (free, named) =
    initialize-Sound answers c connection _ m sound here free named
dispatch-Sound answers c connection (custom_initialize key type w h) m sound here (free, named) =
    initialize-Sound answers c connection _ m sound here free named
dispatch-Sound answers c connection (update_region u) m sound here p =
    Keeps-Sound (dispatch-Keeps answers c connection (update_region u) m tt) sound
dispatch-Sound answers c connection terminate m sound here p = sound
dispatch-Sound answers c connection (set_refresh_mode refresh) m sound here p =
    Keeps-Sound (dispatch-Keeps answers c connection (set_refresh_mode refresh) m tt) sound
dispatch-Sound answers c connection request_full_refresh m sound here p =
    Keeps-Sound (dispatch-Keeps answers c connection request_full_refresh m tt) sound
dispatch-Sound answers c connection (other type) m sound here p = sound
