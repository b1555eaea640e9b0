-- ===== src/Manager/Clients/Refines.antt =====
-- The framebuffer manager refines a service that knows nothing but groups of clients: a client joins
-- the end of a group, or leaves the group that it is in.
use rmcast.Base.{
  ℕ, ◌≡◌, ◌≢◌, ◌⊎◌, inl, inr, refl, sym, subst, ◌∙◌, ap, List, [], ◌∷◌, ◌++◌, Option, none, some,
  Bool, true, false, Option-cases, Bool-cases, ◌==◌, ==_iff, if◌then◌else◌, some-injective,
}
use rmcast.Base.Int.{ℤ, negsuc, eq_ℤ, eq_ℤ-split}
use rmcast.Manager.{Manager, ClientBackend, ClientConnection}
use rmcast.Manager.Registry.Initialize.{Keeps, Joins}
use rmcast.Manager.Clients.{leave, erase, finish_close}
use rmcast.Manager.Clients.Members.{In, IsNodup}
use rmcast.Manager.Clients.Groups.{members, members-put, members_same, Groups}
use rmcast.Manager.Clients.Sound.{Sound, IsOutside, unbound-IsOutside}
use rmcast.Manager.Clients.Leave.{leave-Left, leave_unbound}
use rmcast.Manager.Clients.Kept.{dispatch-Keeps}
use rmcast.Manager.Clients.System.{
  State, Step, Reach, IsPoliteStep, IsPoliteRun, IsPolite, IsLockFree, accepts, talks, leaves,
  closes, forwards, shows,
}
use rmcast.Manager.Memory.{Answers}
use rmcast.Manager.{
  System, ClientMessage, initialize, custom_initialize, update_region, terminate, set_refresh_mode,
  request_full_refresh, other,
}
use rmcast.Manager.Registry.{Request, handle_initialize, create_for}
use rmcast.Manager.Registry.Initialize.{handle_initialize_cases, create_for-connections, rekeyed}
use rmcast.Manager.Clients.{dispatch, accept}
use rmcast.Manager.Clients.Invariant.{Inv, Interface-Keeps, unbound, group_of}
use rmcast.Manager.Clients.Runs.{forward_user_input-delivers, finish_close_lem, Reach-Inv}
use mathlib.Core.Path.{fun_ext}

-- The list without a client.
pub without : ℕ → List ℕ → List ℕ
without c [] = []
without c (d ∷ ds) = if d == c then without c ds else d ∷ without c ds

without_absent : (c : ℕ) (ds : List ℕ) → ¬ In c ds → without c ds ≡ ds
unfolding without
without_absent c [] out = refl
without_absent c (d ∷ ds) out = elim (Bool-cases (d == c)) [
  | inl e ↦ absurd (out (inl ((==_iff d c).0 e)))
  | inr e ↦ rw e (ap (λ (xs : List ℕ). d ∷ xs) (without_absent c ds (λ h. out (inr h))))
]

erase-without : (c : ℕ) (ds : List ℕ) → IsNodup ds → erase c ds ≡ without c ds
unfolding without erase
erase-without c [] n = refl
erase-without c (d ∷ ds) (apart, n) = elim (Bool-cases (d == c)) [
  | inl e ↦
      let same = (==_iff d c).0 e in
      rw e (sym (without_absent c ds (λ h. apart (subst (λ x. In x ds) (sym same) h))))
  | inr e ↦ rw e (ap (λ (xs : List ℕ). d ∷ xs) (erase-without c ds n))
]

-- The groups of the service: `c` has joined the group `k`; `c` has left.
pub join : Groups → ℤ → ℕ → Groups
join g k c j = if eq_ℤ j k then g j ++ c ∷ [] else g j

pub part : Groups → ℕ → Groups
part g c j = without c (g j)

-- The key that a message asks for.
pub asks : ClientMessage → Option ℤ
asks (initialize key type) = some key
asks (custom_initialize key type width height) = some key
asks _ = none

abbrev pub Answered : Bool → Type 0 → Groups → Groups → Groups → Type 0
Answered true P g h joined = P × (h ≡ joined)
Answered false P g h joined = h ≡ g

-- What the service does at a step of the manager: a client that asks for a key and is accepted has
-- been in no group and joins the one of that key, a client that leaves is taken out of all groups,
-- and at every other step all groups stay as they are.
pub Expected : {s t : State} → Step s t → Groups → Groups → Type 0
Expected {s} (talks answers c connection message here free) g h = elim (asks message) [
  | none ↦ h ≡ g
  | some key ↦
      Answered (dispatch answers c connection message s.manager).1 ((j : ℤ) → ¬ In c (g j)) g h
        (join g key c)
]
Expected (leaves c connection here free) g h = h ≡ part g c
Expected (accepts c fd free) g h = h ≡ g
Expected (closes c connection backend holds over) g h = h ≡ g
Expected (forwards key input t free e) g h = h ≡ g
Expected (shows t change) g h = h ≡ g

pub leave-part :
    (c : ℕ) (connection : ClientConnection) (m : Manager)
    → Sound m
    → m.clients c ≡ some connection
    → members (leave c connection m).0 ≡ part (members m) c
unfolding part
leave-part c connection m sound here = fun_ext λ k. elim (eq_ℤ-split connection.fb_key (negsuc 0)) [
  | inl (e, free) ↦
      ap (λ (r : Manager × Option ClientBackend). members r.0 k) (leave_unbound c connection m free)
      ∙ sym (without_absent c (members m k) (unbound-IsOutside m c sound (alone free) k))
  | inr (e, named) ↦
      let left = leave-Left c connection m named in
      elim (eq_ℤ-split k connection.fb_key) [
        | inl (f, same) ↦
            subst (λ x. members (leave c connection m).0 x ≡ without c (members m x)) (sym same)
              (left.group
                ∙ erase-without c (members m connection.fb_key) (sound.nodup connection.fb_key))
        | inr (f, apart) ↦
            left.others k apart ∙ sym (without_absent c (members m k) (elsewhere k apart))
      ]
]
  where
    alone :
        connection.fb_key ≡ negsuc 0
        → (own : ClientConnection) → m.clients c ≡ some own
        → own.fb_key ≡ negsuc 0
    alone free own found =
        ap (λ (x : ClientConnection). x.fb_key) (some-injective own connection (sym found ∙ here))
        ∙ free

    elsewhere : (k : ℤ) → k ≢ connection.fb_key → ¬ In c (members m k)
    elsewhere k apart h =
        let (named, own, found, key) = sound.bound k c h in
        apart (
          sym key
          ∙ ap (λ (x : ClientConnection). x.fb_key)
              (some-injective own connection (sym found ∙ here)))

joined :
    (c : ℕ) (own : ClientConnection) (b : ClientBackend) (m t : Manager)
    → b.connections ≡ members m own.fb_key
    → Joins c own b m t
    → members t ≡ join (members m) own.fb_key c
unfolding join
joined c own b m t group joins = fun_ext λ j. elim (eq_ℤ-split j own.fb_key) [
  | inl (e, same) ↦ rw e (
      subst (λ x. members t x ≡ members m x ++ c ∷ []) (sym same)
        ((members-put m own.fb_key _ t joins.connections).0
          ∙ ap (λ (ds : List ℕ). ds ++ c ∷ []) group))
  | inr (e, apart) ↦ rw e ((members-put m own.fb_key _ t joins.connections).1 j apart)
]

pub initialize-join :
    (answers : Answers) (c : ℕ) (connection : ClientConnection) (r : Request) (m : Manager)
    → Sound m
    → m.clients c ≡ some connection
    → connection.fb_key ≡ negsuc 0
    → let (t, accepted) = handle_initialize answers c connection r m in
      Answered accepted (IsOutside c m) (members m) (members t) (join (members m) r.key c)
initialize-join answers c connection r m sound here free =
    let own = rekeyed connection r in
    let t = (handle_initialize answers c connection r m).0 in
    let (joining, making) = handle_initialize_cases answers c connection r m in
    let made = create_for answers m.system r in
    let out = unbound answers c connection r m sound here free in
    let group = group_of answers c connection r m sound here free in
    elim (Option-cases (m.connections r.key)) [
      | inr (b, e) ↦ elim (joining b e) [
        | inl (d, fits, joins, memory) ↦ rw d (out, joined c own b m t (group (some b) e) joins)
        | inr (d, misfit, refuses, system) ↦ rw d (fun_ext (members_same m t refuses.connections))
      ]
      | inl e ↦ elim (making e) [
        | inl (d, done, joins, memory) ↦ rw d (
          out,
          joined c own made.1 m t (create_for-connections answers m.system r ∙ group none e) joins,
        )
        | inr (d, failed, refuses, system) ↦ rw d (fun_ext (members_same m t refuses.connections))
      ]
    ]

kept : (s : State) {t : Manager} → Keeps s.manager t → members t ≡ members s.manager
kept s {t} keeps = fun_ext (members_same s.manager t keeps.connections)

dispatch-join :
    (answers : Answers) (c : ℕ) (connection : ClientConnection) (message : ClientMessage)
    (s : State) (here : s.manager.clients c ≡ some connection)
    (polite : IsPolite connection message) (free : (s.closing ≡ none) ⊎ IsLockFree message)
    → Inv s
    → let st : Step s (record s { manager = (dispatch answers c connection message s.manager).0 }) =
        talks answers c connection message here free in
      Expected st (members s.manager) (members (dispatch answers c connection message s.manager).0)
unfolding Expected asks dispatch IsPolite IsLockFree
dispatch-join answers c connection (initialize key type) s here polite free inv =
    initialize-join answers c connection _ s.manager inv.sound here polite.0
dispatch-join answers c connection (custom_initialize key type w h) s here polite free inv =
    initialize-join answers c connection _ s.manager inv.sound here polite.0
dispatch-join answers c connection (update_region u) s here polite free inv =
    kept s (dispatch-Keeps answers c connection (update_region u) s.manager tt)
dispatch-join answers c connection terminate s here polite free inv = refl
dispatch-join answers c connection (set_refresh_mode refresh) s here polite free inv =
    kept s (dispatch-Keeps answers c connection (set_refresh_mode refresh) s.manager tt)
dispatch-join answers c connection request_full_refresh s here polite free inv =
    kept s (dispatch-Keeps answers c connection request_full_refresh s.manager tt)
dispatch-join answers c connection (other type) s here polite free inv = refl

expected :
    {s t : State} (st : Step s t)
    → IsPoliteStep st
    → Inv s
    → Expected st (members s.manager) (members t.manager)
unfolding Expected accept members IsPoliteStep
expected {s} (accepts c fd free) polite inv = refl
expected {s} {t} (talks answers c connection message here free) polite inv =
    dispatch-join answers c connection message s here polite free inv
expected {s} (leaves c connection here free) polite inv =
    leave-part c connection s.manager inv.sound here
expected {s} (closes c connection backend holds over) polite inv = fun_ext (
    members_same s.manager (finish_close c s.found backend s.manager)
      (finish_close_lem c s.found backend s.manager).1)
expected {s} (forwards key input t free e) polite inv =
    ap members (
      sym
        (some-injective _ _ (sym (forward_user_input-delivers key input s.manager inv.sound) ∙ e)))
expected {s} (shows t change) polite inv = kept s (Interface-Keeps change)

-- As long as no client initialises a second time or with the key -1, neither before nor at the step,
-- every step of the manager is one of the service: the groups after it are those that the service
-- expects.
pub Step-Expected :
    {system : System} {s t : State} (reach : Reach system s) (st : Step s t)
    → IsPoliteRun reach
    → IsPoliteStep st
    → Expected st (members s.manager) (members t.manager)
unfolding Expected
Step-Expected reach st before polite = expected st polite (Reach-Inv reach before)
