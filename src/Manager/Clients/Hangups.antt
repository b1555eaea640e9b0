-- ===== src/Manager/Clients/Hangups.antt =====
-- What clients that hang up leave behind, and whom input reaches.
use rmcast.Base.{
  ℕ, ◌≡◌, ◌≢◌, inl, inr, refl, ◌∙◌, ap, List, ◌∷◌, ◌++◌, Option, none, some, Option-cases,
}
use rmcast.Base.Int.{ℤ, negsuc, eq_ℤ-split}
use rmcast.Manager.{Manager, ClientBackend, ClientConnection, Keyed}
use rmcast.Manager.Maps.{put_ne, put_ne, update_self}
use rmcast.Manager.Clients.{leave, finish_close, controller_of}
use rmcast.Manager.Clients.Groups.{members}
use rmcast.Manager.Clients.Leave.{leave-Left, leave_unbound}
use rmcast.Manager.Clients.System.{State, Reach, IsPoliteRun}
use rmcast.Manager.Memory.{Answers}
use rmcast.Manager.{System, user_input, UserInputContents}
use rmcast.Manager.Registry.{Request, handle_initialize, send_all, forward_user_input}
use rmcast.Manager.Registry.Initialize.{handle_initialize_cases, rekeyed}
use rmcast.Manager.Clients.Runs.{
  deliveries, forward_user_input-delivers, finish_close_lem, Reach-Inv,
}

-- In every state that the manager reaches while no client initialises a second time or with the key
-- -1, forwarding input to a key is safe: it sends the input to each client of that key's group, in
-- the order in which they have joined, to nobody else, and changes nothing but that. Input for a key
-- without a group goes nowhere.
pub forward-reaches :
    {system : System} {s : State} (key : ℤ) (input : UserInputContents) (reach : Reach system s)
    → IsPoliteRun reach
    → forward_user_input key input s.manager
      ≡ some (record s.manager {
        sent =
            s.manager.sent
            ++ deliveries s.manager.clients (members s.manager key) (user_input input);
      })
forward-reaches {system} {s} key input reach polite =
    forward_user_input-delivers key input s.manager (Reach-Inv reach polite).sound

-- The whole close section, when no paint has to be waited for.
unfoldable pub hang_up : ℕ → ClientConnection → Manager → Manager
hang_up c connection m =
    let (t, backend) = leave c connection m in finish_close c (controller_of connection t) backend t

module _ (c : ℕ) (connection : ClientConnection) (m : Manager) (b : ClientBackend) where
  leave-keeps :
      (k : ℤ)
      → m.connections k ≡ some b
      → k ≢ connection.fb_key
      → (leave c connection m).0.connections k ≡ some b
  leave-keeps k e apart = elim (eq_ℤ-split connection.fb_key (negsuc 0)) [
    | inl (f, free) ↦ rw (leave_unbound c connection m free) e
    | inr (f, named) ↦ (leave-Left c connection m named).rest k apart ∙ e
  ]

  hang_up-keeps :
      (k : ℤ)
      → m.connections k ≡ some b
      → k ≢ connection.fb_key
      → ((hang_up c connection m).connections k ≡ some b)
        × ((hang_up c connection m).clients c ≡ none)
  unfolding hang_up
  hang_up-keeps k e apart =
      let (t, backend) = leave c connection m in
      let (clients, connections, sent) =
        finish_close_lem c (controller_of connection t) backend t in
      (
        ap (λ (f : Keyed ClientBackend). f k) connections ∙ leave-keeps k e apart,
        ap (λ (f : ℕ → Option ClientConnection). f c) clients ∙ update_self t.clients c none,
      )

module _ (answers : Answers) (c : ℕ) (connection : ClientConnection) (r : Request) (m : Manager)
    (b : ClientBackend) (here : m.connections connection.fb_key ≡ some b)
    (apart : connection.fb_key ≢ r.key) where
  initialize-keeps :
      (handle_initialize answers c connection r m).0.connections connection.fb_key ≡ some b
  initialize-keeps =
      let (t, done) = handle_initialize answers c connection r m in
      let (joining, making) = handle_initialize_cases answers c connection r m in
      let at = λ (x : Keyed ClientBackend). x connection.fb_key in
      elim (Option-cases (m.connections r.key)) [
        | inr (d, e) ↦ elim (joining d e) [
          | inl (f, fits, joins, memory) ↦
              ap at joins.connections ∙ put_ne m.connections r.key _ connection.fb_key apart ∙ here
          | inr (f, misfit, refuses, system) ↦ ap at refuses.connections ∙ here
        ]
        | inl e ↦ elim (making e) [
          | inl (f, fits, joins, memory) ↦
              ap at joins.connections ∙ put_ne m.connections r.key _ connection.fb_key apart ∙ here
          | inr (f, misfit, refuses, system) ↦ ap at refuses.connections ∙ here
        ]
      ]

  -- A client that is the first of its group, and then initialises once more with another key, accepted
  -- or not, and hangs up: it stays in the list of its first key, so the next input for that key reads
  -- a connection that is gone.
  pub second_initialize_dangles :
      (rest : List ℕ) (input : UserInputContents)
      → b.connections ≡ c ∷ rest
      → forward_user_input connection.fb_key input
          (hang_up c (rekeyed connection r) (handle_initialize answers c connection r m).0)
        ≡ none
  unfolding forward_user_input send_all
  second_initialize_dangles rest input group =
      let t = (handle_initialize answers c connection r m).0 in
      let (kept, gone) =
        hang_up-keeps c (rekeyed connection r) t b connection.fb_key initialize-keeps apart in
      rw (forward_user_input, kept, group, send_all, gone) refl
