-- ===== src/Manager/Memory/Released.antt =====
-- What the system keeps of a framebuffer whose memory could not be set up: nothing but, where the
-- memory had been opened, a descriptor.
use rmcast.Base.{
  ℕ, ◌%◌, ◌^◌, ◌≡◌, ◌≢◌, ◌⊎◌, refl, ◌∙◌, inl, inr, Option, none, some, Bool, true, false, ◌&&◌,
  if◌then◌else◌, Bool-cases, Option-cases,
}
use rmcast.Base.Int.{ℤ, pos, negsuc, eq_ℤ, eq_ℤ-split}
use rmcast.Manager.{ClientBackend, Format, System}
use rmcast.Manager.Memory.{
  grants, Answers, layout_of, map_shm, create_shm, link, destroy, new_backend, prepare, shm_size_of,
}

abbrev pub is_some {ℓ} : {A : Type ℓ} → Option A → Bool
is_some none = false
is_some (some _) = true

abbrev key_of : Answers → ℤ
key_of answers = pos (answers.random % 2 ^ 31)

-- A backend without memory under the given key, or under none, on a system where the key's name is
-- free.
record Refused (key : ℤ) (s : System) (r : System × ClientBackend × Bool) : Type 0 where
  failed : r.2 ≡ false
  shm : r.1.shm ≡ none
  memory : r.0.memory ≡ s.memory
  linked : (j : ℤ) → r.0.linked j ≡ (if eq_ℤ j key then false else s.linked j)
  owned : (r.1.shm_key ≡ key) ⊎ (r.1.shm_key ≡ negsuc 0)

relinked :
    (s : System) (key j : ℤ)
    → (if eq_ℤ j key then false else (link s key true).linked j)
      ≡ (if eq_ℤ j key then false else s.linked j)
unfolding link
relinked s key j = elim (Bool-cases (eq_ℤ j key)) [ inl e ↦ rw e refl | inr e ↦ rw e refl ]

map_shm-cases :
    (answers : Answers) (s : System) (b : ClientBackend) (layout : ℕ × Format) (w h : ℤ)
    → b.shm ≡ none
    → let r = map_shm answers s b layout w h in
      (r.2 ≡ answers.opens && (answers.truncates && is_some answers.mapping))
      × (r.2 ≡ false → Refused b.shm_key s r)
unfolding map_shm link
map_shm-cases answers s b layout w h e = elim (Bool-cases answers.opens) [
  | inr o ↦
      rw (map_shm, o)
        (
          refl,
          λ f. record {
            failed = refl;
            shm = e;
            memory = refl;
            linked = λ j. refl;
            owned = inl refl;
          },
        )
  | inl o ↦ elim (Bool-cases answers.truncates) [
    | inr c ↦
        rw (map_shm, o, c)
          (
            refl,
            λ f. record {
              failed = refl;
              shm = e;
              memory = refl;
              linked = relinked s b.shm_key;
              owned = inl refl;
            },
          )
    | inl c ↦ elim (Option-cases answers.mapping) [
      | inl n ↦
          rw (map_shm, o, c, n)
            (
              refl,
              λ f. record {
                failed = refl;
                shm = refl;
                memory = refl;
                linked = relinked s b.shm_key;
                owned = inr refl;
              },
            )
      | inr (x, n) ↦ rw (map_shm, o, c, n) (refl, λ f. absurd (differ f))
    ]
  ]
]
  where
    differ : true ≡ false → ⊥
    differ f = cc

destroy-Refused :
    (key : ℤ) (s : System) (r : System × ClientBackend × Bool)
    → Refused key s r
    → ((destroy r.1 r.0).memory ≡ s.memory)
      × ((j : ℤ) → (destroy r.1 r.0).linked j ≡ (if eq_ℤ j key then false else s.linked j))
unfolding destroy link
destroy-Refused key s r v = elim (eq_ℤ-split r.1.shm_key (negsuc 0)) [
  | inl (e, h) ↦ rw (v.shm, e) (v.memory, v.linked)
  | inr (e, h) ↦
      rw (v.shm, e)
        (
          v.memory,
          elim v.owned [ inl k ↦ freed key r.0 v.linked r.1.shm_key k | inr k ↦ absurd (h k) ],
        )
]
  where
    freed :
        (key : ℤ) (t : System)
        → ((j : ℤ) → t.linked j ≡ (if eq_ℤ j key then false else s.linked j))
        → (k : ℤ) → k ≡ key
        → (j : ℤ)
        → (if eq_ℤ j k then false else t.linked j) ≡ (if eq_ℤ j key then false else s.linked j)
    freed key t all k same j = elim (Bool-cases (eq_ℤ j key)) [
      | inl e ↦ rw (same, e) refl
      | inr e ↦ rw (same, e) (all j ∙ rw e refl)
    ]

-- Whether `createSHM` succeeds.
unfoldable pub can_create : Answers → ℕ → ℤ → ℤ → Bool
can_create answers type w h = elim (layout_of type) [
  | none ↦ false
  | some layout ↦
      let granted = grants answers (shm_size_of w h layout.0) in
      answers.opens && (granted.truncates && is_some granted.mapping)
]

create_unknown :
    (answers : Answers) (s : System) (type : ℕ) (w h : ℤ)
    → layout_of type ≡ none
    → create_shm answers s new_backend type w h ≡ (s, new_backend, false)
unfolding create_shm
create_unknown answers s type w h e = rw (create_shm, e) refl

create_known :
    (answers : Answers) (s : System) (type : ℕ) (w h : ℤ) (layout : ℕ × Format)
    → layout_of type ≡ some layout
    → let r = create_shm answers s new_backend type w h in
      let granted = grants answers (shm_size_of w h layout.0) in
      (r.2 ≡ answers.opens && (granted.truncates && is_some granted.mapping))
      × (r.2 ≡ false → Refused (key_of answers) s r)
unfolding create_shm grants
create_known answers s type w h layout e =
    rw (create_shm, e)
      (map_shm-cases (grants answers (shm_size_of w h layout.0)) s
        (prepare answers new_backend type (shm_size_of w h layout.0)) layout w h new_unmapped)
  where
    new_unmapped : new_backend.shm ≡ none
    new_unmapped = unfold new_backend in refl

destroy_new : (s : System) → destroy new_backend s ≡ s
unfolding destroy new_backend eq_ℤ
destroy_new s = refl

-- What `createSHM` and then the destructor of a backend that it could not set up leave.
unfoldable pub released : Answers → System → ℕ → ℤ → ℤ → System
released answers s type width height =
    let r = create_shm answers s new_backend type width height in destroy r.1 r.0

-- When `createSHM` does not succeed, the memory that is mapped is what it was and no other name is
-- touched; for a known type its own name is free afterwards, and for an unknown one nothing has
-- changed at all. It succeeds exactly if the type is known and no call of the system fails, which for a size of 0
-- or one that is negative as an `off_t` one does.
pub released_lem :
    (answers : Answers) (s : System) (type : ℕ) (width height : ℤ)
    → let key = pos (answers.random % 2 ^ 31) in
      (layout_of type ≡ none → released answers s type width height ≡ s)
      × ((create_shm answers s new_backend type width height).2 ≡ false
          → layout_of type ≢ none
          → ((released answers s type width height).memory ≡ s.memory)
            × ((j : ℤ)
                → (released answers s type width height).linked j
                  ≡ (if eq_ℤ j key then false else s.linked j)))
      × ((create_shm answers s new_backend type width height).2
          ≡ can_create answers type width height)
unfolding released can_create
released_lem answers s type width height = elim (Option-cases (layout_of type)) [
  | inl e ↦
      rw (e, can_create, create_unknown answers s type width height e)
        (λ h. destroy_new s, λ f ne. absurd (ne refl), refl)
  | inr (layout, e) ↦
      let (same, refused) = create_known answers s type width height layout e in
      rw (e, can_create)
        (λ h. absurd (differ h), λ f ne. destroy-Refused (key_of answers) s _ (refused f), same)
]
  where
    differ : {layout : ℕ × Format} → some layout ≡ none → ⊥
    differ h = cc
