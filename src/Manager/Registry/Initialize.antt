-- ===== src/Manager/Registry/Initialize.antt =====
-- What `handleInitialize` (middleware/extension/src/qtfb/fbmanagement.cpp) leaves on each branch.
use rmcast.Base.{
  ℕ, ◌≡◌, ◌⊎◌, inl, inr, refl, ◌∙◌, [], ◌∷◌, ◌++◌, Option, none, some, Bool, true, false, not, ◌||◌,
  Bool-cases, Option-cases, ◌↔◌,
}
use rmcast.Base.Int.{ℤ, pos, eq_ℤ, eq_ℤ-split}
use rmcast.Manager.{
  Manager, System, ClientBackend, ClientConnection, Image, Format, initialized, put, update,
}
use rmcast.Manager.Memory.{
  grants, Answers, destroy, map_shm, create_shm, create_default_shm, layout_of, new_backend,
  prepare, shm_size_of,
}
use rmcast.Manager.Registry.{
  Request, associate_shm, try_to_match_up, is_mismatch, create_for, admit, send, handle_initialize,
}

-- The clients, their connections, the memory and what has been sent are as they were.
pub record Keeps (m t : Manager) : Type 0 where
  pub clients : t.clients ≡ m.clients
  pub connections : t.connections ≡ m.connections
  pub sent : t.sent ≡ m.sent
  pub system : t.system ≡ m.system

Keeps-refl : (m : Manager) → Keeps m m
Keeps-refl m = record { clients = refl; connections = refl; sent = refl; system = refl }

pub associate_shm-Keeps :
    (i : ℕ) (image : Option Image) (m : Manager) → Keeps m (associate_shm i image m)
unfolding associate_shm
associate_shm-Keeps i image m = elim (Option-cases (m.controllers i)) [
  | inl e ↦ rw (associate_shm, e) (Keeps-refl m)
  | inr (d, e) ↦
      rw (associate_shm, e)
        (record { clients = refl; connections = refl; sent = refl; system = refl })
]

pub try_to_match_up-Keeps : (key : ℤ) (m : Manager) → Keeps m (try_to_match_up key m)
unfolding try_to_match_up
try_to_match_up-Keeps key m = elim (Option-cases (m.connections key)) [
  | inl e ↦ rw (try_to_match_up, e) (Keeps-refl m)
  | inr (b, e) ↦ elim (Option-cases (m.framebuffers key)) [
    | inl f ↦ rw (try_to_match_up, e, f) (Keeps-refl m)
    | inr (i, f) ↦ elim (Option-cases b.shm) [
      | inl n ↦ rw (try_to_match_up, e, f, n) (Keeps-refl m)
      | inr (p, n) ↦ rw (try_to_match_up, e, f, n) (associate_shm-Keeps i b.image m)
    ]
  ]
]

abbrev pub HasSize : Option (ℕ × ℕ) → Option Image → Type 0
HasSize none image = Unit
HasSize (some size) none = ⊥
HasSize (some size) (some image) = (image.width ≡ pos size.0) × (image.height ≡ pos size.1)

-- The request names the type of a backend and, if it names a size, the size of its image.
abbrev pub Fits : Request → ClientBackend → Type 0
Fits r b = (b.shm_type ≡ pos r.type) × HasSize r.size b.image

eq_ℤ-decides : (a b : ℤ) → (not (eq_ℤ a b) ≡ false) ↔ (a ≡ b)
eq_ℤ-decides a b = elim (eq_ℤ-split a b) [
  | inl (e, h) ↦ rw e (λ _. h, λ _. refl)
  | inr (e, h) ↦ rw e (λ f. absurd (differ f), λ f. absurd (h f))
]
  where
    differ : true ≡ false → ⊥
    differ f = cc

or-false : (a b : Bool) → ((a || b) ≡ false) ↔ ((a ≡ false) × (b ≡ false))
or-false true b = (λ h. (h, cc), λ h. h.0)
or-false false b = (λ h. (refl, h), λ h. h.1)

is_mismatch-Fits : (r : Request) (b : ClientBackend) → (is_mismatch r b ≡ false) ↔ Fits r b
unfolding is_mismatch
is_mismatch-Fits r b = elim (Option-cases r.size) [
  | inl e ↦
      let type = eq_ℤ-decides b.shm_type (pos r.type) in
      rw (is_mismatch, e) (λ h. (type.0 h, tt), λ f. type.1 f.0)
  | inr (size, e) ↦ elim (Option-cases b.image) [
    | inl n ↦ rw (is_mismatch, e, n) (λ f. absurd (differ f), λ f. absurd f.1)
    | inr (image, n) ↦
        let type = eq_ℤ-decides b.shm_type (pos r.type) in
        let width = eq_ℤ-decides image.width (pos size.0) in
        let height = eq_ℤ-decides image.height (pos size.1) in
        rw (is_mismatch, e, n)
          (
            λ f.
                let (a, g) = (or-false _ _).0 f in
                let (x, y) = (or-false _ _).0 g in (type.0 a, (width.0 x, height.0 y)),
            λ f. (or-false _ _).1 (type.1 f.0, (or-false _ _).1 (width.1 f.1.0, height.1 f.1.1)),
          )
  ]
]
  where
    differ : true ≡ false → ⊥
    differ f = cc

-- The client `c` has been added to the end of the list of `b`, under the key that it asked for, and
-- has been sent the backend's shared memory.
pub record Joins (c : ℕ) (own : ClientConnection) (b : ClientBackend) (m t : Manager) : Type 0 where
  pub clients : t.clients ≡ update m.clients c (some own)
  pub connections :
      t.connections
      ≡ put m.connections own.fb_key (some (record b { connections = b.connections ++ c ∷ [] }))
  pub sent : t.sent ≡ m.sent ++ (own.client_fd, initialized b.shm_key b.shm_size) ∷ []

-- The client has its key, and nothing else has changed for any client.
pub record Refuses (c : ℕ) (own : ClientConnection) (m t : Manager) : Type 0 where
  pub clients : t.clients ≡ update m.clients c (some own)
  pub connections : t.connections ≡ m.connections
  pub sent : t.sent ≡ m.sent

abbrev pub rekeyed : ClientConnection → Request → ClientConnection
rekeyed connection r = record connection { fb_key = r.key }

-- The manager at the time that the client `c` is let in.
abbrev admitting : ℕ → ClientConnection → Manager → System → Manager
admitting c own m s = record m { clients = update m.clients c (some own); system = s }

admit-Joins :
    (c : ℕ) (own : ClientConnection) (b : ClientBackend) (m : Manager) (s : System)
    → Joins c own b m (admit c own own.fb_key b (admitting c own m s))
unfolding admit send
admit-Joins c own b m s = record { clients = refl; connections = refl; sent = refl }

admit-system :
    (c : ℕ) (own : ClientConnection) (b : ClientBackend) (m : Manager) (s : System)
    → (admit c own own.fb_key b (admitting c own m s)).system ≡ s
unfolding admit send
admit-system c own b m s = refl

-- A client whose key has a backend joins it exactly if its request fits that backend. A client whose
-- key has none gets the one that `createSHM` makes, and joins it, exactly if that succeeds. In every
-- other case it is refused, no list has changed and nothing is sent; but in each case the client
-- has the new key.
pub handle_initialize_cases :
    (answers : Answers) (c : ℕ) (connection : ClientConnection) (r : Request) (m : Manager)
    → let (t, done) = handle_initialize answers c connection r m in
      let (system, made, created) = create_for answers m.system r in
      let own = rekeyed connection r in
      ((b : ClientBackend)
        → m.connections r.key ≡ some b
        → ((done ≡ true) × Fits r b × Joins c own b m t × (t.system ≡ m.system))
          ⊎ ((done ≡ false) × (¬ Fits r b) × Refuses c own m t × (t.system ≡ m.system)))
      × (m.connections r.key ≡ none
          → ((done ≡ true) × (created ≡ true) × Joins c own made m t × (t.system ≡ system))
            ⊎ ((done ≡ false)
                × (created ≡ false)
                × Refuses c own m t
                × (t.system ≡ destroy made system)))
unfolding handle_initialize
handle_initialize_cases answers c connection r m = (
  λ b e. elim (Bool-cases (is_mismatch r b)) [
    | inl f ↦ rw (handle_initialize, e, f) (inr (refl, misfit b f, refused, refl))
    | inr f ↦
        rw (handle_initialize, e, f)
          (inl (
            refl,
            (is_mismatch-Fits r b).0 f,
            admit-Joins c (rekeyed connection r) b m m.system,
            admit-system c (rekeyed connection r) b m m.system,
          ))
  ],
  λ e. elim (Bool-cases (create_for answers m.system r).2) [
    | inl f ↦
        let own = rekeyed connection r in
        let (system, made, created) = create_for answers m.system r in
        let joins = admit-Joins c own made m system in
        let keeps =
          try_to_match_up-Keeps r.key (admit c own r.key made (admitting c own m system)) in
        rw (handle_initialize, e, f)
          (inl (
            refl,
            refl,
            record {
              clients = keeps.clients ∙ joins.clients;
              connections = keeps.connections ∙ joins.connections;
              sent = keeps.sent ∙ joins.sent;
            },
            keeps.system ∙ admit-system c own made m system,
          ))
    | inr f ↦ rw (handle_initialize, e, f) (inr (refl, refl, refused, refl))
  ],
)
  where
    refused :
        {s : System} → Refuses c (rekeyed connection r) m (admitting c (rekeyed connection r) m s)
    refused = record { clients = refl; connections = refl; sent = refl }

    differ : {x : Bool} → x ≡ true → x ≡ false → ⊥
    differ f g = cc

    misfit : (b : ClientBackend) → is_mismatch r b ≡ true → ¬ Fits r b
    misfit b f fits = absurd (differ f ((is_mismatch-Fits r b).1 fits))

map_shm-connections :
    (answers : Answers) (s : System) (b : ClientBackend) (layout : ℕ × Format) (w h : ℤ)
    → (map_shm answers s b layout w h).1.connections ≡ b.connections
unfolding map_shm
map_shm-connections answers s b layout w h = elim (Bool-cases answers.opens) [
  | inr o ↦ rw (map_shm, o) refl
  | inl o ↦ elim (Bool-cases answers.truncates) [
    | inr c ↦ rw (map_shm, o, c) refl
    | inl c ↦ elim (Option-cases answers.mapping) [
      | inl n ↦ rw (map_shm, o, c, n) refl
      | inr (x, n) ↦ rw (map_shm, o, c, n) refl
    ]
  ]
]

create_shm-connections :
    (answers : Answers) (s : System) (b : ClientBackend) (type : ℕ) (w h : ℤ)
    → (create_shm answers s b type w h).1.connections ≡ b.connections
unfolding create_shm
create_shm-connections answers s b type w h = elim (Option-cases (layout_of type)) [
  | inl e ↦ rw (create_shm, e) refl
  | inr (layout, e) ↦
      rw (create_shm, e)
        (map_shm-connections (grants answers (shm_size_of w h layout.0)) s
          (prepare answers b type (shm_size_of w h layout.0)) layout w h)
]

-- A new backend has no client yet.
pub create_for-connections :
    (answers : Answers) (s : System) (r : Request) → (create_for answers s r).1.connections ≡ []
unfolding create_for create_default_shm
create_for-connections answers s r = elim (Option-cases r.size) [
  | inl e ↦ rw (create_for, e) (fresh r.type _ _)
  | inr (size, e) ↦ rw (create_for, e) (fresh r.type _ _)
]
  where
    fresh : (type : ℕ) (w h : ℤ) → (create_shm answers s new_backend type w h).1.connections ≡ []
    fresh type w h =
        create_shm-connections answers s new_backend type w h ∙ (unfold new_backend in refl)
