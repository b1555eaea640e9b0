-- ===== src/CommandLine/Checked.antt =====
-- What the client is started with, in terms of the options as they were given.
use Prim.Native.String.{String}
use text.Mathlib.Text.{◌==◌ as same_text}
use rmcast.Base.{
  ℕ, ◌≤◌, ◌≡◌, ◌⊎◌, refl, sym, ap, subst, ◌∙◌, inl, inr, List, [], ◌∷◌, Option, some, true, false,
  not, ◌||◌, ltb, length, Bool-cases, Option-cases, arith,
}
use rmcast.Base.Int.{int_laws, ℤ, pos, ltb_ℤ-cases, ◌≤ℤ◌}
use rmcast.Orientation.{Orientation, auto, orientation_from_string}
use rmcast.CommandLine.{
  Text, Dictionary, has, erase, values, Parsed, parsed, invalid_argument, out_of_range, Request,
  Start, Outcome, shows_help, shows_version, too_many_operands, no_server, no_port_number, bad_port,
  no_orientation, unknown_options, terminates, starts, server_of, Port, port, stops, checked_port,
  port_of, password_of, devices_of, orientation_of, with_server, with_operands, read_arguments,
}
use rmcast.CommandLine.Options.{
  differ, has-erase, Agrees, erase_given-Agrees, devices_of-Agrees, neither, is_known, Follows,
  Satisfies, Remains, Ends, List-cases, finish-Ends,
}

weaken_outcome :
    {P Q : Start → Type 0} (o : Outcome) → ((s : Start) → P s → Q s) → Satisfies P o → Satisfies Q o
unfolding Satisfies
weaken_outcome (starts s) f h = f s h
weaken_outcome shows_help f h = tt
weaken_outcome shows_version f h = tt
weaken_outcome too_many_operands f h = tt
weaken_outcome no_server f h = tt
weaken_outcome no_port_number f h = tt
weaken_outcome (bad_port n) f h = tt
weaken_outcome no_orientation f h = tt
weaken_outcome (unknown_options ks) f h = tt
weaken_outcome terminates f h = tt

-- The server of a start, and its options.
record Served (opts : Dictionary) (ip : Text) (number : ℤ) (s : Start) : Type 0 where
  ip_kept : s.server_ip ≡ ip
  number_kept : s.server_port ≡ number
  follows : Follows opts s

module _ (opts : Dictionary) (ip password : Text) (number : ℤ) where
  rest : Dictionary
  rest = (devices_of opts).1

  request : Request
  request = (devices_of opts).0

  Ends-Served :
      (o : Orientation) (s : Start)
      → (has "orientation" opts ≡ false → o ≡ auto)
      → (has "orientation" opts ≡ true
          → (v : String) × (vs : List String) × (values "orientation" opts ≡ v ∷ vs)
            × (o ≡ orientation_from_string v))
      → Ends opts ip number request o s
      → Served opts ip number s
  unfolding request devices_of
  Ends-Served o s default chosen e = record {
    ip_kept = e.ip_kept;
    number_kept = e.number_kept;
    follows = record {
      buttons = ap (λ (r : Request). r.buttons) e.request_kept;
      pen =
          ap (λ (r : Request). r.pen) e.request_kept
          ∙ ap (λ b. not b) (erase_given-Agrees "no-pen" "no-buttons" opts refl).given;
      touch =
          ap (λ (r : Request). r.touch) e.request_kept
          ∙ ap (λ b. not b)
              ((erase_given-Agrees "no-touch" "no-pen" _ refl).given
                ∙ (erase_given-Agrees "no-touch" "no-buttons" opts refl).given);
      by_default = λ h. e.orientation_kept ∙ default h;
      by_option = λ h. let (v, vs, f, g) = chosen h in (v, vs, f, e.orientation_kept ∙ g);
      auto_rotate = e.rotates;
      lock_rotation = e.locks;
      known = e.known;
    };
  }

  unknown-Agrees : (k : String) → is_known k ≡ false → Agrees k rest opts
  unfolding is_known rest
  unknown-Agrees k e =
      let (a, e1) = neither (same_text "no-buttons" k) _ e in
      let (b, e2) = neither (same_text "no-pen" k) _ e1 in
      let (c, e3) = neither (same_text "no-touch" k) _ e2 in devices_of-Agrees k opts a b c

  rest-Remains : Remains opts rest
  unfolding rest
  rest-Remains = record {
    rotate = (devices_of-Agrees "auto-rotate" opts refl refl refl).given;
    lock = (devices_of-Agrees "no-lock-rotation" opts refl refl refl).given;
    others = λ k e. (unknown-Agrees k e).given;
  }

  oriented-Remains : Remains opts (erase "orientation" rest)
  unfolding is_known
  oriented-Remains = record {
    rotate = has-erase "auto-rotate" "orientation" rest refl ∙ rest-Remains.rotate;
    lock = has-erase "no-lock-rotation" "orientation" rest refl ∙ rest-Remains.lock;
    others = λ k e.
        let (a, e1) = neither (same_text "no-buttons" k) _ e in
        let (b, e2) = neither (same_text "no-pen" k) _ e1 in
        let (c, e3) = neither (same_text "no-touch" k) _ e2 in
        let (d, e4) = neither (same_text "orientation" k) _ e3 in
        has-erase k "orientation" rest d ∙ rest-Remains.others k e;
  }

  with_server-Served : Satisfies (Served opts ip number) (with_server ip number password opts)
  unfolding with_server orientation_of rest request Satisfies
  with_server-Served =
      let agrees = devices_of-Agrees "orientation" opts refl refl refl in
      elim (Bool-cases (has "orientation" rest)) [
        | inr e ↦
            rw (with_server, orientation_of, e)
              (weaken_outcome _
                (λ s.
                  Ends-Served auto s (λ h. refl) (λ h. absurd (differ h (sym agrees.given ∙ e))))
                (finish-Ends opts rest ip password number request auto rest-Remains))
        | inl e ↦ elim (List-cases (values "orientation" rest)) [
          | inl f ↦ rw (with_server, orientation_of, e, f) tt
          | inr (v, vs, f) ↦
              rw (with_server, orientation_of, e, f)
                (weaken_outcome _
                  (λ s.
                    Ends-Served (orientation_from_string v) s
                      (λ h. absurd (differ (sym agrees.given ∙ e) h))
                      (λ h. (v, vs, sym agrees.same ∙ f, refl)))
                  (finish-Ends opts (erase "orientation" rest) ip password number request
                    (orientation_from_string v) oriented-Remains))
        ]
      ]

-- A port that `main` goes on with; what it stops with is no start.
Allowed : Port → Type 0
Allowed (port n) = (pos 1 ≤ℤ n) × (n ≤ℤ pos 65535)
Allowed (stops o) = Satisfies (λ s. ⊥) o

checked_port-Allowed : (p : Parsed) → Allowed (checked_port p)
unfolding Allowed checked_port Satisfies
checked_port-Allowed invalid_argument = tt
checked_port-Allowed out_of_range = tt
checked_port-Allowed (parsed n) = elim (ltb_ℤ-cases n (pos 1)) [
  | inl (e, h) ↦ rw (checked_port, e) tt
  | inr (e, h) ↦ elim (ltb_ℤ-cases (pos 65535) n) [
    | inl (f, g) ↦ rw (checked_port, e, f) tt
    | inr (f, g) ↦ rw (checked_port, e, f) (h, g)
  ]
]

port_of-Allowed : (stoi : Text → Parsed) (oper : List Text) → Allowed (port_of stoi oper)
unfolding Allowed port_of
port_of-Allowed stoi [] = (omega int_laws, omega int_laws)
port_of-Allowed stoi (a ∷ []) = (omega int_laws, omega int_laws)
port_of-Allowed stoi (a ∷ b ∷ cs) = checked_port-Allowed (stoi b)

-- What the operands and the options say of a start.
record Checks (stoi : Text → Parsed) (opts : Dictionary) (oper : List Text) (ssh_conn : Option Text)
    (s : Start) : Type 0 where
  few : length oper ≤ 3
  from : server_of oper ssh_conn ≡ some s.server_ip
  to : port_of stoi oper ≡ port s.server_port
  range : (pos 1 ≤ℤ s.server_port) × (s.server_port ≤ℤ pos 65535)
  follows : Follows opts s

at_most : (a b : ℕ) → ltb a b ≡ false → b ≤ a
at_most a b e = ground arith

Port-cases : (p : Port) → ((n : ℤ) × (p ≡ port n)) ⊎ ((o : Outcome) × (p ≡ stops o))
Port-cases (port n) = inl (n, refl)
Port-cases (stops o) = inr (o, refl)

module _ (stoi : Text → Parsed) (opts : Dictionary) (oper : List Text)
    (ssh_conn : Option Text) where
  with_operands-Checks :
      length oper ≤ 3
      → Satisfies (Checks stoi opts oper ssh_conn) (with_operands stoi opts oper ssh_conn)
  unfolding with_operands Satisfies Allowed
  with_operands-Checks few = elim (Option-cases (server_of oper ssh_conn)) [
    | inl e ↦ rw (with_operands, e) tt
    | inr (ip, e) ↦ elim (Port-cases (port_of stoi oper)) [
      | inr (o, f) ↦
          rw (with_operands, e, f)
            (weaken_outcome o (λ s h. absurd h) (subst Allowed f (port_of-Allowed stoi oper)))
      | inl (n, f) ↦
          let range = subst Allowed f (port_of-Allowed stoi oper) in
          rw (with_operands, e, f)
            (weaken_outcome {P = Served opts ip n} {Q = Checks stoi opts oper ssh_conn} _
              (λ s h. record {
                few = few;
                from = e ∙ ap (λ x. some x) (sym h.ip_kept);
                to = f ∙ ap (λ x. port x) (sym h.number_kept);
                range = subst (λ x. (pos 1 ≤ℤ x) × (x ≤ℤ pos 65535)) (sym h.number_kept) range;
                follows = h.follows;
              })
              (with_server-Served opts ip (password_of oper) n))
    ]
  ]

  read_arguments-Checks :
      Satisfies (Checks stoi opts oper ssh_conn) (read_arguments stoi opts oper ssh_conn)
  unfolding read_arguments Satisfies
  read_arguments-Checks = elim (Bool-cases (has "help" opts || has "h" opts)) [
    | inl e ↦ rw (read_arguments, e) tt
    | inr e ↦ elim (Bool-cases (has "version" opts || has "v" opts)) [
      | inl f ↦ rw (read_arguments, e, f) tt
      | inr f ↦ elim (Bool-cases (ltb 3 (length oper))) [
        | inl g ↦ rw (read_arguments, e, f, g) tt
        | inr g ↦ rw (read_arguments, e, f, g) (with_operands-Checks (at_most 3 (length oper) g))
      ]
    ]
  ]

  -- If the client starts, it has got at most three operands and no option that it does not know; its
  -- server is the first operand, or the one of the SSH connection if there is none, and its port lies
  -- between 1 and 65535 and is the second operand's, or the default. A device is asked for unless
  -- its option is given, and the orientation and the two options about rotation are the given ones,
  -- although each option is taken out of the dictionary as soon as it has been looked at.
  pub read_arguments-starts :
      (s : Start)
      → read_arguments stoi opts oper ssh_conn ≡ starts s
      → (length oper ≤ 3)
        × (server_of oper ssh_conn ≡ some s.server_ip)
        × (port_of stoi oper ≡ port s.server_port)
        × (pos 1 ≤ℤ s.server_port)
        × (s.server_port ≤ℤ pos 65535)
        × Follows opts s
  unfolding Satisfies
  read_arguments-starts s e =
      let c = subst (Satisfies (Checks stoi opts oper ssh_conn)) e read_arguments-Checks in
      (c.few, c.from, c.to, c.range.0, c.range.1, c.follows)
