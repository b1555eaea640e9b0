-- ===== src/Manager/Clients/Runs.antt =====
-- Input that is forwarded, and the invariant over all runs of the framebuffer manager.
use rmcast.Base.{
  ℕ, ◌≡◌, inl, inr, refl, sym, subst, ◌∙◌, ap, List, [], ◌∷◌, ◌++◌, Option, none, some,
  Option-cases, append-nil, append_assoc, some-injective,
}
use rmcast.Base.Int.{ℤ, negsuc}
use rmcast.Manager.{Manager, ClientBackend, ClientConnection, update}
use rmcast.Manager.Maps.{update_ne}
use rmcast.Manager.Clients.{leave, finish_close}
use rmcast.Manager.Clients.Members.{In}
use rmcast.Manager.Clients.Groups.{members, members_of}
use rmcast.Manager.Clients.Sound.{Sound, IsOutside, unbound-IsOutside, outside-Sound}
use rmcast.Manager.Clients.Leave.{leave-Sound, leave_clients}
use rmcast.Manager.Clients.Kept.{dispatch-Keeps}
use rmcast.Manager.Clients.System.{
  State, Step, Reach, IsPoliteStep, IsPoliteRun, accepts, talks, leaves, closes, forwards, shows,
  starts, steps, initial,
}
use rmcast.Manager.{System, ServerMessage, user_input, UserInputContents}
use rmcast.Manager.Registry.{send, send_all, forward_user_input}
use rmcast.Manager.Registry.Initialize.{associate_shm-Keeps}
use rmcast.Manager.Clients.{accept}
use rmcast.Manager.Clients.Invariant.{Inv, Interface-Keeps, Keeps-Inv, dispatch-Sound}

-- Sending input changes nothing but what has been sent.
pub send_all-keeps :
    (cs : List ℕ) (message : ServerMessage) (m t : Manager)
    → send_all cs message m ≡ some t
    → (t.clients ≡ m.clients) × (t.connections ≡ m.connections)
unfolding send_all send
send_all-keeps [] message m t e =
    let same = some-injective m t e in
    (ap (λ (x : Manager). x.clients) (sym same), ap (λ (x : Manager). x.connections) (sym same))
send_all-keeps (c ∷ cs) message m t e = elim (Option-cases (m.clients c)) [
  | inl f ↦ absurd (differ (rw (send_all, f) at e))
  | inr (connection, f) ↦
      send_all-keeps cs message (send connection message m) t (rw (send_all, f) at e)
]
  where
    differ : none ≡ some t → ⊥
    differ h = cc

-- The message, to each client of a list in order, as the clients' sockets take it.
pub deliveries : (ℕ → Option ClientConnection) → List ℕ → ServerMessage → List (ℕ × ServerMessage)
deliveries clients [] message = []
deliveries clients (c ∷ cs) message = elim (clients c) [
  | none ↦ deliveries clients cs message
  | some connection ↦ (connection.client_fd, message) ∷ deliveries clients cs message
]

-- If every client of the list is connected, each is sent the message, in order, and none is read
-- that is gone.
send_all-delivers :
    (cs : List ℕ) (message : ServerMessage) (m : Manager)
    → ((c : ℕ) → In c cs → (connection : ClientConnection) × (m.clients c ≡ some connection))
    → send_all cs message m ≡ some (record m { sent = m.sent ++ deliveries m.clients cs message })
unfolding send_all send deliveries
send_all-delivers [] message m there =
    ap (λ (x : List (ℕ × ServerMessage)). some (record m { sent = x })) (sym (append-nil m.sent))
send_all-delivers (c ∷ cs) message m there =
    let (connection, f) = there c (inl refl) in
    let t = record m { sent = m.sent ++ (connection.client_fd, message) ∷ [] } in
    rw (send_all, deliveries, f)
      (send_all-delivers cs message t (λ d h. there d (inr h))
        ∙ ap (λ (x : List (ℕ × ServerMessage)). some (record m { sent = x }))
            (append_assoc m.sent ((connection.client_fd, message) ∷ [])
              (deliveries m.clients cs message)))

pub forward_user_input-delivers :
    (key : ℤ) (input : UserInputContents) (m : Manager)
    → Sound m
    → forward_user_input key input m
      ≡ some (record m { sent = m.sent ++ deliveries m.clients (members m key) (user_input input) })
unfolding forward_user_input members send_all deliveries
forward_user_input-delivers key input m sound = elim (Option-cases (m.connections key)) [
  | inl e ↦
      rw (forward_user_input, members, e)
        (send_all-delivers [] (user_input input) m (λ c h. absurd h))
  | inr (b, e) ↦
      rw (forward_user_input, members, e)
        (send_all-delivers b.connections (user_input input) m (λ c h.
          let (named, connection, found, same) =
            sound.bound key c (subst (In c) (sym (ap members_of e)) h) in
          (connection, found)))
]

-- The end of a close section takes the client off, and changes no group.
pub finish_close_lem :
    (c : ℕ) (found : Option ℕ) (backend : Option ClientBackend) (m : Manager)
    → let t = finish_close c found backend m in
      (t.clients ≡ update m.clients c none) × (t.connections ≡ m.connections) × (t.sent ≡ m.sent)
unfolding finish_close
finish_close_lem c found none m = (refl, refl, refl)
finish_close_lem c none (some b) m = (refl, refl, refl)
finish_close_lem c (some i) (some b) m =
    let keeps = associate_shm-Keeps i none m in
    (
      ap (λ (f : ℕ → Option ClientConnection). update f c none) keeps.clients,
      keeps.connections,
      keeps.sent,
    )

pub Step-Inv : {s t : State} (st : Step s t) → IsPoliteStep st → Inv s → Inv t
unfolding accept members IsPoliteStep
Step-Inv {s} (accepts c fd free) polite inv =
    let own : ClientConnection = record { client_fd = fd; fb_key = negsuc 0 } in
    record {
      sound =
          outside-Sound c (some own)
            (unbound-IsOutside s.manager c inv.sound
              (λ x found. absurd (differ (sym free ∙ found))))
            refl refl inv.sound;
      parted = λ d connection backend e.
          let (here, out) = inv.parted d connection backend e in
          (
            update_ne s.manager.clients c (some own) d
                  (λ same. differ (sym free ∙ ap s.manager.clients (sym same) ∙ here))
                ∙ here,
            out,
          );
    }
  where
    differ : {x : ClientConnection} → none ≡ some x → ⊥
    differ h = cc
Step-Inv {s} (talks answers c connection message here (inl free)) polite inv = record {
  sound = dispatch-Sound answers c connection message s.manager inv.sound here polite;
  parted = λ d own backend e. absurd (differ (sym free ∙ e));
}
  where
    differ : {x : ℕ × ClientConnection × Option ClientBackend} → none ≡ some x → ⊥
    differ h = cc
Step-Inv {s} (talks answers c connection message here (inr calm)) polite inv =
    Keeps-Inv s _ (dispatch-Keeps answers c connection message s.manager calm) inv
Step-Inv {s} (leaves c connection here free) polite inv =
    let (sound, out) = leave-Sound c connection s.manager inv.sound here in
    record {
      sound = sound;
      parted = λ d own backend e.
          subst
            (λ (x : ℕ × ClientConnection × Option ClientBackend).
              ((leave c connection s.manager).0.clients x.0 ≡ some x.1)
              × IsOutside x.0 (leave c connection s.manager).0)
            (some-injective _ _ e)
            (
              ap (λ (f : ℕ → Option ClientConnection). f c)
                    (leave_clients c connection s.manager inv.sound here)
                  ∙ here,
              out,
            );
    }
Step-Inv {s} (closes c connection backend holds over) polite inv =
    let (here, out) = inv.parted c connection backend holds in
    let (clients, connections, sent) = finish_close_lem c s.found backend s.manager in
    record {
      sound = outside-Sound c none out clients connections inv.sound;
      parted = λ d own b e. absurd (differ e);
    }
  where
    differ : {x : ℕ × ClientConnection × Option ClientBackend} → none ≡ some x → ⊥
    differ h = cc
Step-Inv {s} (forwards key input t free e) polite inv =
    let same =
      some-injective _ _ (sym (forward_user_input-delivers key input s.manager inv.sound) ∙ e) in
    record {
      sound = subst Sound same (sent_more s.manager _ inv.sound);
      parted = λ d own backend h. absurd (differ (sym free ∙ h));
    }
  where
    differ : {x : ℕ × ClientConnection × Option ClientBackend} → none ≡ some x → ⊥
    differ h = cc

    sent_more :
        (m : Manager) (x : List (ℕ × ServerMessage)) → Sound m → Sound (record m { sent = x })
    sent_more m x v = record { bound = v.bound; nodup = v.nodup; inhabited = v.inhabited }
Step-Inv {s} (shows t change) polite inv = Keeps-Inv s t (Interface-Keeps change) inv

-- Every state that the manager can reach from its start, whatever the threads do, satisfies the
-- invariant, if no client initialises twice or with the key -1.
pub Reach-Inv : {system : System} {s : State} (r : Reach system s) → IsPoliteRun r → Inv s
unfolding initial members IsPoliteRun
Reach-Inv starts polite = record {
  sound = record {
    bound = λ k c h. absurd h;
    nodup = λ k. tt;
    inhabited = λ k b e. absurd (differ e);
  };
  parted = λ c connection backend e. absurd (unequal e);
}
  where
    differ : {x : ClientBackend} → none ≡ some x → ⊥
    differ h = cc

    unequal : {x : ℕ × ClientConnection × Option ClientBackend} → none ≡ some x → ⊥
    unequal h = cc
Reach-Inv (steps r st) (before, polite) = Step-Inv st polite (Reach-Inv r before)
