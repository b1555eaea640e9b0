-- ===== src/Manager/Clients/Leave.antt =====
-- The close section of a client (`managementClientThread` of
-- middleware/extension/src/qtfb/fbmanagement.cpp).
use rmcast.Base.{
  ℕ, ◌≡◌, ◌≢◌, ◌⊎◌, inl, inr, refl, sym, subst, ◌∙◌, ap, List, [], ◌∷◌, Option, none, some,
  Option-cases, some-injective,
}
use rmcast.Base.Int.{ℤ, negsuc, eq_ℤ-split, eq_ℤ_self}
use rmcast.Manager.{Manager, ClientBackend, ClientConnection, put}
use rmcast.Manager.Maps.{put_self, put_ne}
use rmcast.Manager.Clients.{leave, erase}
use rmcast.Manager.Clients.Members.{In, IsNodup, erase-In, erase-IsNodup, erase_gone}
use rmcast.Manager.Clients.Groups.{members, members_of, members-put}
use rmcast.Manager.Clients.Sound.{Sound, IsBound, IsOutside, unbound-IsOutside}

-- What `leave` does for a client that is in the list of its key: it is taken out of that list, and
-- if it was the last one the key is free.
pub record Left (c : ℕ) (connection : ClientConnection) (m : Manager)
    (r : Manager × Option ClientBackend) : Type 0 where
  pub clients : r.0.clients ≡ m.clients
  pub sent : r.0.sent ≡ m.sent
  pub group : members r.0 connection.fb_key ≡ erase c (members m connection.fb_key)
  pub others : (j : ℤ) → j ≢ connection.fb_key → members r.0 j ≡ members m j
  pub inhabited :
      (b : ClientBackend) → r.0.connections connection.fb_key ≡ some b → b.connections ≢ []
  pub rest : (j : ℤ) → j ≢ connection.fb_key → r.0.connections j ≡ m.connections j
  pub gone : (b : ClientBackend) → r.1 ≡ some b → r.0.connections connection.fb_key ≡ none

List-cases {ℓ} : {A : Type ℓ} (xs : List A) → (xs ≡ []) ⊎ ((x : A) × (ys : List A) × (xs ≡ x ∷ ys))
List-cases [] = inl refl
List-cases (x ∷ ys) = inr (x, ys, refl)

module _ (c : ℕ) (connection : ClientConnection) (m : Manager) where
  absent-Left : m.connections connection.fb_key ≡ none → Left c connection m (m, none)
  unfolding members erase
  absent-Left f = record {
    clients = refl;
    sent = refl;
    group = rw f refl;
    others = λ j apart. refl;
    inhabited = λ b g. absurd (differ b (sym f ∙ g));
    rest = λ j apart. refl;
    gone = λ b g. absurd (differ b g);
  }
    where
      differ : (b : ClientBackend) → none ≡ some b → ⊥
      differ b e = cc

  changed-Left :
      (o dead : Option ClientBackend)
      → members_of o ≡ erase c (members m connection.fb_key)
      → ((b : ClientBackend) → o ≡ some b → b.connections ≢ [])
      → ((b : ClientBackend) → dead ≡ some b → o ≡ none)
      → Left c connection m (record m { connections = put m.connections connection.fb_key o }, dead)
  changed-Left o dead group filled last =
      let t = record m { connections = put m.connections connection.fb_key o } in
      let (here, there) = members-put m connection.fb_key o t refl in
      let at = put_self m.connections connection.fb_key o in
      record {
        clients = refl;
        sent = refl;
        group = here ∙ group;
        others = there;
        inhabited = λ b g. filled b (sym at ∙ g);
        rest = λ j apart. put_ne m.connections connection.fb_key o j apart;
        gone = λ b g. at ∙ last b g;
      }

  pub leave-Left : connection.fb_key ≢ negsuc 0 → Left c connection m (leave c connection m)
  unfolding leave members
  leave-Left named = elim (eq_ℤ-split connection.fb_key (negsuc 0)) [
    | inl (e, same) ↦ absurd (named same)
    | inr (e, other) ↦ elim (Option-cases (m.connections connection.fb_key)) [
      | inl f ↦ rw (leave, e, f) (absent-Left f)
      | inr (b, f) ↦
          let group = sym (ap (λ (o : Option ClientBackend). erase c (members_of o)) f) in
          elim (List-cases (erase c b.connections)) [
            | inl g ↦
                rw (leave, e, f, g)
                  (changed-Left none _ (sym g ∙ group) (λ b h. absurd (differ b h)) (λ b h. refl))
            | inr (d, ds, g) ↦
                rw (leave, e, f, g)
                  (changed-Left (some (record b { connections = erase c b.connections })) none group
                    (λ b' h.
                      let same = some-injective _ _ h in
                      subst (λ (x : ClientBackend). x.connections ≢ []) same
                        (λ empty. unequal d ds (sym g ∙ empty)))
                    (λ b' h. absurd (differ b' h)))
          ]
    ]
  ]
    where
      differ : (b : ClientBackend) → none ≡ some b → ⊥
      differ b e = cc

      unequal : (d : ℕ) (ds : List ℕ) → d ∷ ds ≡ [] → ⊥
      unequal d ds e = cc

pub leave_unbound :
    (c : ℕ) (connection : ClientConnection) (m : Manager)
    → connection.fb_key ≡ negsuc 0
    → leave c connection m ≡ (m, none)
unfolding leave
leave_unbound c connection m e = rw (leave, e, eq_ℤ_self) refl

-- Leaving keeps the invariant, and whoever has left is in no list.
module _ (c : ℕ) (connection : ClientConnection) (m : Manager) (sound : Sound m)
    (here : m.clients c ≡ some connection) where
  Left-Sound :
      (r : Manager × Option ClientBackend) → Left c connection m r → Sound r.0 × IsOutside c r.0
  Left-Sound r left = (
    record {
      bound = λ k d h.
          subst (λ clients. IsBound clients k d) (sym left.clients) (sound.bound k d (was k d h));
      nodup = λ k. elim (eq_ℤ-split k connection.fb_key) [
        | inl (e, same) ↦
            subst (λ x. IsNodup (members r.0 x)) (sym same)
              (subst IsNodup (sym left.group)
                (erase-IsNodup c (members m connection.fb_key) (sound.nodup connection.fb_key)))
        | inr (e, other) ↦ subst IsNodup (sym (left.others k other)) (sound.nodup k)
      ];
      inhabited = λ k b g. elim (eq_ℤ-split k connection.fb_key) [
        | inl (e, same) ↦ left.inhabited b (sym (ap r.0.connections same) ∙ g)
        | inr (e, other) ↦ sound.inhabited k b (sym (left.rest k other) ∙ g)
      ];
    },
    λ k h. elim (eq_ℤ-split k connection.fb_key) [
      | inl (e, same) ↦
          erase_gone c (members m connection.fb_key) (sound.nodup connection.fb_key)
            (subst (In c) (ap (members r.0) same ∙ left.group) h)
      | inr (e, other) ↦
          let (named, own, found, key) = sound.bound k c (was k c h) in
          other (
            sym key
            ∙ ap (λ (x : ClientConnection). x.fb_key)
                (some-injective own connection (sym found ∙ here)))
    ],
  )
    where
      was : (k : ℤ) (d : ℕ) → In d (members r.0 k) → In d (members m k)
      was k d h = elim (eq_ℤ-split k connection.fb_key) [
        | inl (e, same) ↦
            subst (λ x. In d (members m x)) (sym same)
              (erase-In c d (members m connection.fb_key)
                (subst (In d) (ap (members r.0) same ∙ left.group) h))
        | inr (e, other) ↦ subst (In d) (left.others k other) h
      ]

  pub leave-Sound : Sound (leave c connection m).0 × IsOutside c (leave c connection m).0
  leave-Sound = elim (eq_ℤ-split connection.fb_key (negsuc 0)) [
    | inl (e, free) ↦ rw (leave_unbound c connection m free) (
      sound,
      unbound-IsOutside m c sound (λ own found.
          ap (λ (x : ClientConnection). x.fb_key) (some-injective own connection (sym found ∙ here))
          ∙ free),
    )
    | inr (e, named) ↦ Left-Sound (leave c connection m) (leave-Left c connection m named)
  ]

  pub leave_clients : (leave c connection m).0.clients ≡ m.clients
  leave_clients = elim (eq_ℤ-split connection.fb_key (negsuc 0)) [
    | inl (e, free) ↦ rw (leave_unbound c connection m free) refl
    | inr (e, named) ↦ (leave-Left c connection m named).clients
  ]
