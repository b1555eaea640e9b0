-- ===== src/Manager/Clients/Images.antt =====
-- The image of a controller when the last client of its key hangs up.
use rmcast.Base.{
  ℕ, ◌≡◌, ◌≢◌, inl, inr, refl, sym, subst, ◌∙◌, ap, [], ◌∷◌, Option, none, some, Bool, true,
  Option-cases, Bool-cases,
}
use rmcast.Base.Int.{ℤ, pos, negsuc, eq_ℤ, eq_ℤ-split}
use rmcast.Manager.{Manager, ClientBackend, ClientConnection, Image, Keyed, put, update}
use rmcast.Manager.Maps.{put_self, put_ne, put_ne, update_self}
use rmcast.Manager.Clients.{finish_close, controller_of}
use rmcast.Manager.Clients.Kept.{set_framebuffer_id-Keeps}
use rmcast.Manager.{System}
use rmcast.Manager.Registry.{associate_shm}
use rmcast.Manager.Clients.Hangups.{hang_up}
use rmcast.Manager.Registry.{try_to_match_up}
use rmcast.Manager.{FbController}
use rmcast.Manager.Controller.{paint}
use rmcast.Manager.Registry.{set_framebuffer_id, register_controller, unregister_controller}
use rmcast.Manager.Clients.Lifetime.{leave_last, finish_close-system, destroy_mapped}

-- What an active controller with the image `o` draws.
abbrev pub drawn : Option Image → Bool → Option (Image × Bool)
drawn none stretches = none
drawn (some image) stretches = some (image, stretches)

-- The memory of a backend is gone, and the controller `i` has the image `o`, which it draws if it is
-- `active`.
pub record Orphans (i : ℕ) (o : Option Image) (active : Bool) (address : ℕ) (t : Manager)
    : Type 0 where
  pub controller : FbController
  pub here : t.controllers i ≡ some controller
  pub image : controller.image ≡ o
  pub paints : active ≡ true → (paint controller).1 ≡ drawn o controller.allow_scaling
  pub memory : t.system.memory address ≡ none

associate_shm-image :
    (i : ℕ) (image : Option Image) (m : Manager) (d : FbController)
    → m.controllers i ≡ some d
    → (associate_shm i image m).controllers i ≡ some (record d { image = image })
unfolding associate_shm
associate_shm-image i image m d e = rw (associate_shm, e) (update_self m.controllers i _)

try_free : (key : ℤ) (m : Manager) → m.connections key ≡ none → try_to_match_up key m ≡ m
unfolding try_to_match_up
try_free key m e = rw (try_to_match_up, e) refl

-- A controller that registers with a key that has no clients.
register_free :
    (key : ℤ) (i : ℕ) (m : Manager)
    → m.connections key ≡ none
    → let t = register_controller key i m in
      (t.controllers ≡ m.controllers) × ((k : ℤ) → k ≢ key → t.framebuffers k ≡ m.framebuffers k)
unfolding register_controller
register_free key i m e = elim (Bool-cases (eq_ℤ key (negsuc 0))) [
  | inl f ↦ rw (register_controller, f) (refl, λ k apart. refl)
  | inr f ↦ elim (Option-cases (m.framebuffers key)) [
    | inr (j, g) ↦ rw (register_controller, f, g) (refl, λ k apart. refl)
    | inl g ↦
        let t = record m { framebuffers = put m.framebuffers key (some i) } in
        rw (register_controller, f, g)
          (
            ap (λ (x : Manager). x.controllers) (try_free key t e),
            λ k apart.
                ap (λ (x : Manager). x.framebuffers k) (try_free key t e)
                ∙ put_ne m.framebuffers key (some i) k apart,
          )
  ]
]

-- A controller that has taken another key before the last client of its old one hangs up.
rebound :
    (i : ℕ) (id : ℤ) (d : FbController) (m : Manager)
    → m.controllers i ≡ some d
    → id ≢ d.framebuffer_id
    → m.connections id ≡ none
    → let t = set_framebuffer_id i id m in
      (t.controllers i ≡ some (record d { framebuffer_id = id }))
      × (t.framebuffers d.framebuffer_id ≡ none)
unfolding set_framebuffer_id unregister_controller
rebound i id d m e apart free = elim (eq_ℤ-split d.framebuffer_id id) [
  | inl (f, same) ↦ absurd (apart (sym same))
  | inr (f, moved) ↦
      let bound = record d { framebuffer_id = id } in
      let t = record m {
        framebuffers = put m.framebuffers d.framebuffer_id none;
        controllers = update m.controllers i (some bound);
      } in
      let (controllers, framebuffers) = register_free id i t free in
      rw (set_framebuffer_id, e, f)
        (
          ap (λ (x : ℕ → Option FbController). x i) controllers
              ∙ update_self m.controllers i (some bound),
          framebuffers d.framebuffer_id moved ∙ put_self m.framebuffers d.framebuffer_id none,
        )
]

module _ (c : ℕ) (own : ClientConnection) (m : Manager) (b : ClientBackend) (address n : ℕ)
    (named : own.fb_key ≢ negsuc 0) (e : m.connections own.fb_key ≡ some b)
    (alone : b.connections ≡ c ∷ []) (mapped : b.shm ≡ some address)
    (keyed : b.shm_key ≡ pos n) where
  unmapped :
      (u : Manager)
      → (found : Option ℕ) → u.system ≡ m.system
      → let bare = record b { connections = [] } in
        (finish_close c found (some bare) u).system.memory address ≡ none
  unmapped u found same =
      let bare = record b { connections = [] } in
      ap (λ (x : System). x.memory address) (finish_close-system c found bare u)
      ∙ (destroy_mapped bare u.system address n mapped keyed).0

  emptied : Manager
  emptied = record m { connections = put m.connections own.fb_key none }

  ended :
      hang_up c own m
      ≡ finish_close c (controller_of own emptied) (some (record b { connections = [] })) emptied
  unfolding hang_up emptied
  ended =
      ap (λ (x : Manager × Option ClientBackend). finish_close c (controller_of own x.0) x.1 x.0)
        (leave_last c own m b named e alone)

  -- The controller is still bound to the key: it loses the image.
  bound_loses :
      (i : ℕ) (d : FbController)
      → m.framebuffers own.fb_key ≡ some i
      → m.controllers i ≡ some d
      → Orphans i none d.is_active address (hang_up c own m)
  unfolding finish_close controller_of emptied paint
  bound_loses i d f g = subst (Orphans i none d.is_active address) (sym ended) (record {
    controller = record d { image = none };
    here = rw (finish_close, controller_of, f, g) (associate_shm-image i none emptied d g);
    image = refl;
    paints = λ a. refl;
    memory = unmapped emptied (controller_of own emptied) refl;
  })

  -- The controller is bound to the key no more: it keeps the image.
  unbound_keeps :
      (i : ℕ) (d : FbController) (image : Image)
      → m.framebuffers own.fb_key ≡ none
      → m.controllers i ≡ some d
      → d.image ≡ some image
      → Orphans i (some image) d.is_active address (hang_up c own m)
  unfolding finish_close controller_of emptied paint
  unbound_keeps i d image f g h =
      subst (Orphans i (some image) d.is_active address) (sym ended) (record {
        controller = d;
        here = rw (finish_close, controller_of, f) g;
        image = h;
        paints = λ a. rw (paint, h, a) refl;
        memory = unmapped emptied (controller_of own emptied) refl;
      })

-- The last client of a key hangs up while a controller that is bound to the key has its image. If
-- the controller is still bound to the key, it has no image afterwards and draws nothing. If it has
-- meanwhile been bound to another key, one that no client has, it keeps the image, although the
-- memory under that image is gone, and if it was active its next paint draws that image.
pub hang_up-images :
    (i : ℕ) (id : ℤ) (d : FbController) (image : Image) (c : ℕ) (own : ClientConnection)
    (m : Manager) (b : ClientBackend) (n : ℕ)
    → own.fb_key ≢ negsuc 0
    → m.connections own.fb_key ≡ some b
    → b.connections ≡ c ∷ []
    → b.shm ≡ some image.bits
    → b.shm_key ≡ pos n
    → m.framebuffers own.fb_key ≡ some i
    → m.controllers i ≡ some d
    → d.framebuffer_id ≡ own.fb_key
    → d.image ≡ some image
    → id ≢ d.framebuffer_id
    → m.connections id ≡ none
    → Orphans i none d.is_active image.bits (hang_up c own m)
      × Orphans i (some image) d.is_active image.bits (hang_up c own (set_framebuffer_id i id m))
hang_up-images i id d image c own m b n named e alone mapped keyed f g same shown apart free =
    let t = set_framebuffer_id i id m in
    let keeps = set_framebuffer_id-Keeps i id m in
    let (here, empty) = rebound i id d m g apart free in
    (
      bound_loses c own m b image.bits n named e alone mapped keyed i d f g,
      unbound_keeps c own t b image.bits n named
          (ap (λ (x : Keyed ClientBackend). x own.fb_key) keeps.connections ∙ e) alone mapped keyed
          i (record d { framebuffer_id = id }) image (ap t.framebuffers (sym same) ∙ empty) here
          shown,
    )
