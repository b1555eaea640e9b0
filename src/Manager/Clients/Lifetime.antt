-- ===== src/Manager/Clients/Lifetime.antt =====
-- A framebuffer from its first client to its last: what opening it and hanging up leaves.
use rmcast.Base.{
  ℕ, ◌+◌, ◌%◌, ◌^◌, ◌<◌, ◌≡◌, ◌≢◌, inl, inr, refl, sym, subst, ◌∙◌, ap, List, [], ◌∷◌, ◌++◌, Option,
  none, some, Bool, true, false, Option-cases, Bool-cases, ==_iff,
}
use rmcast.Base.Int.{ℤ, pos, negsuc, eq_ℤ-split, eq_ℤ_self, eq_ℤ_apart}
use rmcast.Manager.{Manager, Image, ClientBackend, ClientConnection, Format, Keyed, put}
use rmcast.Manager.Maps.{put-cases, put_self, put_ne, put_ne, update_self}
use rmcast.Manager.Registry.Initialize.{Joins}
use rmcast.Manager.Clients.{leave, erase, finish_close, controller_of}
use rmcast.Manager.Memory.{Answers}
use rmcast.Manager.{System}
use rmcast.Manager.Registry.{
  Request, handle_initialize, create_for, associate_shm, try_to_match_up, admit, send, is_mismatch,
}
use rmcast.Manager.Registry.Initialize.{
  handle_initialize_cases, create_for-connections, rekeyed, associate_shm-Keeps,
}
use rmcast.Manager.Clients.Runs.{finish_close_lem}
use rmcast.Manager.Memory.{destroy}
use rmcast.Manager.Clients.Hangups.{hang_up}
use rmcast.Manager.Memory.Sizes.{create_shm-Made}
use rmcast.Manager.Memory.{shm_size_of, new_backend, layout_of, link}

-- The last client of a key takes the backend with it.
pub leave_last :
    (c : ℕ) (connection : ClientConnection) (m : Manager) (b : ClientBackend)
    → connection.fb_key ≢ negsuc 0
    → m.connections connection.fb_key ≡ some b
    → b.connections ≡ c ∷ []
    → leave c connection m ≡ (
      record m { connections = put m.connections connection.fb_key none },
      some (record b { connections = [] }),
    )
unfolding leave erase
leave_last c connection m b named e group = elim (eq_ℤ-split connection.fb_key (negsuc 0)) [
  | inl (f, same) ↦ absurd (named same)
  | inr (f, apart) ↦
      rw (leave, f, e, empty)
        (ap
          (λ (ds : List ℕ). (
            record m { connections = put m.connections connection.fb_key none },
            some (record b { connections = ds }),
          ))
          empty)
]
  where
    empty : erase c b.connections ≡ []
    empty = rw (group, erase, (==_iff c c).1 refl) refl

pub finish_close-system :
    (c : ℕ) (found : Option ℕ) (b : ClientBackend) (m : Manager)
    → (finish_close c found (some b) m).system ≡ destroy b m.system
unfolding finish_close
finish_close-system c none b m = refl
finish_close-system c (some i) b m = ap (destroy b) (associate_shm-Keeps i none m).system

associate_shm_framebuffers :
    (i : ℕ) (image : Option Image) (m : Manager)
    → (associate_shm i image m).framebuffers ≡ m.framebuffers
unfolding associate_shm
associate_shm_framebuffers i image m = elim (Option-cases (m.controllers i)) [
  | inl e ↦ rw (associate_shm, e) refl
  | inr (d, e) ↦ rw (associate_shm, e) refl
]

finish_close_framebuffers :
    (c : ℕ) (found : Option ℕ) (backend : Option ClientBackend) (m : Manager)
    → (finish_close c found backend m).framebuffers ≡ m.framebuffers
unfolding finish_close
finish_close_framebuffers c found none m = refl
finish_close_framebuffers c none (some b) m = refl
finish_close_framebuffers c (some i) (some b) m = associate_shm_framebuffers i none m

try_to_match_up_framebuffers :
    (key : ℤ) (m : Manager) → (try_to_match_up key m).framebuffers ≡ m.framebuffers
unfolding try_to_match_up
try_to_match_up_framebuffers key m = elim (Option-cases (m.connections key)) [
  | inl e ↦ rw (try_to_match_up, e) refl
  | inr (b, e) ↦ elim (Option-cases (m.framebuffers key)) [
    | inl f ↦ rw (try_to_match_up, e, f) refl
    | inr (i, f) ↦ elim (Option-cases b.shm) [
      | inl g ↦ rw (try_to_match_up, e, f, g) refl
      | inr (p, g) ↦ rw (try_to_match_up, e, f, g) (associate_shm_framebuffers i b.image m)
    ]
  ]
]

handle_initialize_framebuffers :
    (answers : Answers) (c : ℕ) (connection : ClientConnection) (r : Request) (m : Manager)
    → (handle_initialize answers c connection r m).0.framebuffers ≡ m.framebuffers
unfolding handle_initialize admit send
handle_initialize_framebuffers answers c connection r m =
    elim (Option-cases (m.connections r.key)) [
      | inr (b, e) ↦ elim (Bool-cases (is_mismatch r b)) [
        | inl f ↦ rw (handle_initialize, e, f) refl
        | inr f ↦ rw (handle_initialize, e, f) refl
      ]
      | inl e ↦ elim (Bool-cases (create_for answers m.system r).2) [
        | inl f ↦ rw (handle_initialize, e, f) (try_to_match_up_framebuffers r.key _)
        | inr f ↦ rw (handle_initialize, e, f) refl
      ]
    ]

-- The destructor of a backend with memory unmaps it, frees its name and closes nothing.
pub destroy_mapped :
    (b : ClientBackend) (s : System) (address n : ℕ)
    → b.shm ≡ some address
    → b.shm_key ≡ pos n
    → let t = destroy b s in
      (t.memory address ≡ none)
      × (t.linked (pos n) ≡ false)
      × (t.open_descriptors ≡ s.open_descriptors)
unfolding destroy link
destroy_mapped b s address n e f =
    rw (destroy, e, f, eq_ℤ_apart n 0) (update_self s.memory address none, rw eq_ℤ_self refl, refl)

-- What a client leaves that has opened a framebuffer at `address` under the name `n` alone.
pub record Vanished (c address n : ℕ) (m t : Manager) : Type 0 where
  pub framebuffers : t.framebuffers ≡ m.framebuffers
  pub connections : (k : ℤ) → t.connections k ≡ m.connections k
  pub memory : t.system.memory address ≡ none
  pub name : t.system.linked (pos n) ≡ false
  pub descriptors : t.system.open_descriptors ≡ m.system.open_descriptors + 1
  pub client : t.clients c ≡ none

-- The end of the only client of a backend that is new in `m`.
last_hang_up :
    (c : ℕ) (own : ClientConnection) (b : ClientBackend) (address n : ℕ) (m t : Manager)
    → own.fb_key ≢ negsuc 0
    → m.connections own.fb_key ≡ none
    → b.connections ≡ []
    → Joins c own b m t
    → b.shm ≡ some address
    → b.shm_key ≡ pos n
    → t.system.open_descriptors ≡ m.system.open_descriptors + 1
    → t.framebuffers ≡ m.framebuffers
    → Vanished c address n m (hang_up c own t)
unfolding hang_up
last_hang_up c own b address n m t named free fresh joins mapped keyed opened still =
    let grown = record b { connections = b.connections ++ c ∷ [] } in
    let at =
      ap (λ (x : Keyed ClientBackend). x own.fb_key) joins.connections
      ∙ put_self m.connections own.fb_key (some grown) in
    let bare = record grown { connections = [] } in
    let u = record t { connections = put t.connections own.fb_key none } in
    let left = leave_last c own t grown named at (ap (λ (ds : List ℕ). ds ++ c ∷ []) fresh) in
    let found = controller_of own u in
    let (clients, connections, sent) = finish_close_lem c found (some bare) u in
    let system = finish_close-system c found bare u in
    let (memory, name, descriptors) = destroy_mapped bare t.system address n mapped keyed in
    subst (Vanished c address n m)
      (sym (
        ap (λ (x : Manager × Option ClientBackend). finish_close c (controller_of own x.0) x.1 x.0)
          left))
      (record {
        framebuffers = finish_close_framebuffers c found (some bare) u ∙ still;
        connections = λ k. ap (λ (x : Keyed ClientBackend). x k) connections ∙ restored k;
        memory = ap (λ (x : System). x.memory address) system ∙ memory;
        name = ap (λ (x : System). x.linked (pos n)) system ∙ name;
        descriptors = ap (λ (x : System). x.open_descriptors) system ∙ descriptors ∙ opened;
        client =
            ap (λ (f : ℕ → Option ClientConnection). f c) clients ∙ update_self u.clients c none;
      })
  where
    restored : (k : ℤ) → put t.connections own.fb_key none k ≡ m.connections k
    restored k = elim (put-cases t.connections own.fb_key none k) [
      | inl (same, e) ↦ e ∙ sym (ap m.connections same ∙ free)
      | inr (apart, e) ↦
          e
          ∙ ap (λ (x : Keyed ClientBackend). x k) joins.connections
          ∙ put_ne m.connections own.fb_key _ k apart
    ]

-- The first client of a key asks for a size, every call of the system succeeds, with a size
-- that is neither 0 nor negative as an `off_t`, and the client hangs up before any other has joined: both maps are as they were, the memory is unmapped and its name
-- free, and the client is gone, but one more descriptor is open than before.
pub open-hang_up :
    (answers : Answers) (c : ℕ) (connection : ClientConnection) (m : Manager) (key : ℤ)
    (type width height address : ℕ) (layout : ℕ × Format)
    → key ≢ negsuc 0
    → m.connections key ≡ none
    → layout_of type ≡ some layout
    → answers.opens ≡ true
    → answers.truncates ≡ true
    → answers.mapping ≡ some address
    → 0 < shm_size_of (pos width) (pos height) layout.0
    → shm_size_of (pos width) (pos height) layout.0 < 2 ^ 63
    → let r : Request = record { key = key; type = type; size = some (width, height) } in
      Vanished c address
        (answers.random % 2 ^ 31)
        m
        (hang_up c (rekeyed connection r) (handle_initialize answers c connection r m).0)
unfolding create_for
open-hang_up answers c connection m key type width height address layout named free e opens
      truncates maps some_size sane =
    let r : Request = record { key = key; type = type; size = some (width, height) } in
    let made =
      create_shm-Made answers m.system new_backend type width height layout address e opens
        truncates maps some_size sane in
    let b = (create_for answers m.system r).1 in
    let t = (handle_initialize answers c connection r m).0 in
    elim ((handle_initialize_cases answers c connection r m).1 free) [
      | inr (d, failed, refuses, memory) ↦ absurd (differ made.done failed)
      | inl (d, done, joins, memory) ↦
          last_hang_up c (rekeyed connection r) b address (answers.random % 2 ^ 31) m t named free
            (create_for-connections answers m.system r) joins made.shm made.shm_key
            (ap (λ (x : System). x.open_descriptors) memory ∙ made.descriptor)
            (handle_initialize_framebuffers answers c connection r m)
    ]
  where
    differ : {x : Bool} → x ≡ true → x ≡ false → ⊥
    differ f g = cc
