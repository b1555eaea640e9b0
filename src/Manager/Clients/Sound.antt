-- ===== src/Manager/Clients/Sound.antt =====
-- The invariant of the framebuffer manager: whoever is in a list is a connected client with the key
-- of that list.
use rmcast.Base.{
  ℕ, ◌≡◌, ◌≢◌, inl, inr, sym, subst, ◌∙◌, ap, List, [], ◌∷◌, ◌++◌, Option, some, some-injective,
}
use rmcast.Base.Int.{ℤ, negsuc, eq_ℤ-split}
use rmcast.Manager.{Manager, ClientBackend, ClientConnection, Keyed, update}
use rmcast.Manager.Maps.{put-cases, update_ne, update_self}
use rmcast.Manager.Registry.Initialize.{Keeps, Joins}
use rmcast.Manager.Clients.Members.{In, IsNodup, In-append, append-IsNodup}
use rmcast.Manager.Clients.Groups.{members, members-put, members_same}

-- The client `c` is connected under the key `k`.
abbrev pub IsBound : (ℕ → Option ClientConnection) → ℤ → ℕ → Type 0
IsBound clients k c =
    (k ≢ negsuc 0)
    × (connection : ClientConnection) × (clients c ≡ some connection)
    × (connection.fb_key ≡ k)

pub record Sound (m : Manager) : Type 0 where
  pub bound : (k : ℤ) (c : ℕ) → In c (members m k) → IsBound m.clients k c
  pub nodup : (k : ℤ) → IsNodup (members m k)
  pub inhabited : (k : ℤ) (b : ClientBackend) → m.connections k ≡ some b → b.connections ≢ []

-- The client `c` is in no list.
abbrev pub IsOutside : ℕ → Manager → Type 0
IsOutside c m = (k : ℤ) → ¬ In c (members m k)

pub unbound-IsOutside :
    (m : Manager) (c : ℕ)
    → Sound m
    → ((connection : ClientConnection)
        → m.clients c ≡ some connection
        → connection.fb_key ≡ negsuc 0)
    → IsOutside c m
unbound-IsOutside m c sound free k h =
    let (named, connection, e, same) = sound.bound k c h in named (sym same ∙ free connection e)

pub IsBound-update :
    (clients : ℕ → Option ClientConnection) (c : ℕ) (v : Option ClientConnection) (k : ℤ) (d : ℕ)
    → d ≢ c
    → IsBound clients k d
    → IsBound (update clients c v) k d
IsBound-update clients c v k d apart (named, connection, e, same) =
    (named, connection, update_ne clients c v d apart ∙ e, same)

-- What one client's connection is changed to does not matter while the client is in no list.
pub outside-Sound :
    {m t : Manager} (c : ℕ) (v : Option ClientConnection)
    → IsOutside c m
    → t.clients ≡ update m.clients c v
    → t.connections ≡ m.connections
    → Sound m
    → Sound t
outside-Sound {m} {t} c v out e f sound = record {
  bound = λ k d h.
      let old = same k d h in
      subst (λ clients. IsBound clients k d) (sym e)
        (IsBound-update m.clients c v k d (apart k d old) (sound.bound k d old));
  nodup = λ k. subst IsNodup (sym (groups k)) (sound.nodup k);
  inhabited = λ k b g. sound.inhabited k b (sym (ap (λ (x : Keyed ClientBackend). x k) f) ∙ g);
}
  where
    groups : (k : ℤ) → members t k ≡ members m k
    groups = members_same m t f

    same : (k : ℤ) (d : ℕ) → In d (members t k) → In d (members m k)
    same k d h = subst (In d) (groups k) h

    apart : (k : ℤ) (d : ℕ) → In d (members m k) → d ≢ c
    apart k d h eq = out k (subst (λ x. In x (members m k)) eq h)

pub Keeps-Sound : {m t : Manager} → Keeps m t → Sound m → Sound t
Keeps-Sound {m} {t} keeps sound = record {
  bound = λ k d h.
      subst (λ clients. IsBound clients k d) (sym keeps.clients)
        (sound.bound k d (subst (In d) (groups k) h));
  nodup = λ k. subst IsNodup (sym (groups k)) (sound.nodup k);
  inhabited = λ k b g.
      sound.inhabited k b (sym (ap (λ (x : Keyed ClientBackend). x k) keeps.connections) ∙ g);
}
  where
    groups : (k : ℤ) → members t k ≡ members m k
    groups = members_same m t keeps.connections

append-ne-nil : (ds : List ℕ) (c : ℕ) → ds ++ c ∷ [] ≢ []
append-ne-nil [] c e = cc
append-ne-nil (d ∷ ds) c e = cc

module _ {m t : Manager} (c : ℕ) (own : ClientConnection) (b : ClientBackend) (out : IsOutside c m)
    (named : own.fb_key ≢ negsuc 0) (group : b.connections ≡ members m own.fb_key)
    (joins : Joins c own b m t) where
  pub joined_group : members t own.fb_key ≡ members m own.fb_key ++ c ∷ []
  joined_group =
      (members-put m own.fb_key _ t joins.connections).0 ∙ ap (λ (ds : List ℕ). ds ++ c ∷ []) group

  pub other_groups : (j : ℤ) → j ≢ own.fb_key → members t j ≡ members m j
  other_groups = (members-put m own.fb_key _ t joins.connections).1

  joins-IsBound :
      Sound m → (k : ℤ) (d : ℕ) → In d (members t k) → IsBound (update m.clients c (some own)) k d
  joins-IsBound sound k d h = elim (eq_ℤ-split k own.fb_key) [
    | inl (e, same) ↦
        let there = subst (In d) (ap (members t) same ∙ joined_group) h in
        elim (In-append d c (members m own.fb_key) there) [
          | inl old ↦
              IsBound-update m.clients c (some own) k d (apart own.fb_key old)
                (sound.bound k d (subst (λ x. In d (members m x)) (sym same) old))
          | inr new ↦
              subst (λ x. IsBound (update m.clients c (some own)) k x) new
                (λ e. named (sym same ∙ e), own, update_self m.clients c (some own), sym same)
        ]
    | inr (e, other) ↦
        let old = subst (In d) (other_groups k other) h in
        IsBound-update m.clients c (some own) k d (apart k old) (sound.bound k d old)
  ]
    where
      apart : (j : ℤ) → In d (members m j) → d ≢ c
      apart j h eq = out j (subst (λ x. In x (members m j)) eq h)

  abbrev grown : ClientBackend
  grown = record b { connections = b.connections ++ c ∷ [] }

  pub joins-Sound : Sound m → Sound t
  joins-Sound sound = record {
    bound = λ k d h.
        subst (λ clients. IsBound clients k d) (sym joins.clients) (joins-IsBound sound k d h);
    nodup = λ k. elim (eq_ℤ-split k own.fb_key) [
      | inl (e, same) ↦
          subst (λ x. IsNodup (members t x)) (sym same)
            (subst IsNodup (sym joined_group)
              (append-IsNodup c (members m own.fb_key) (sound.nodup own.fb_key) (out own.fb_key)))
      | inr (e, other) ↦ subst IsNodup (sym (other_groups k other)) (sound.nodup k)
    ];
    inhabited = λ k b' g.
        let f = sym (ap (λ (x : Keyed ClientBackend). x k) joins.connections) ∙ g in
        elim (put-cases m.connections own.fb_key (some grown) k) [
          | inl (same, at) ↦
              subst (λ (x : ClientBackend). x.connections ≢ [])
                (some-injective grown b' (sym at ∙ f)) (append-ne-nil b.connections c)
          | inr (other, at) ↦ sound.inhabited k b' (sym at ∙ f)
        ];
  }
