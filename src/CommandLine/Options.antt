-- ===== src/CommandLine/Options.antt =====
-- The options that are left when some have been taken out, and the end of the checks.
use Prim.Native.String.{String}
use text.Mathlib.Text.{◌==◌ as same_text}
use text.Mathlib.TextEquality.{eq_iff}
use rmcast.Base.{
  ◌≡◌, ◌⊎◌, refl, sym, ap, subst, ◌∙◌, inl, inr, List, [], ◌∷◌, Bool, true, false, not, ◌||◌,
  if◌then◌else◌, Bool-cases,
}
use rmcast.Base.Int.{ℤ}
use rmcast.Orientation.{Orientation, auto, orientation_from_string}
use rmcast.CommandLine.{
  Text, Dictionary, has, erase, values, Request, Start, Outcome, starts, devices_of, finish,
}

pub differ : {b : Bool} → b ≡ true → b ≡ false → ⊥
differ e f = cc

pub text_same : (v w : String) → same_text v w ≡ true → v ≡ w
text_same v w = (eq_iff v w).0

pub has-erase :
    (k j : String) (opts : Dictionary) → same_text j k ≡ false → has k (erase j opts) ≡ has k opts
unfolding has erase
has-erase k j [] e = refl
has-erase k j ((i, vs) ∷ opts) e =
    let rest = has-erase k j opts e in
    elim (Bool-cases (same_text i j)) [
      | inl f ↦
          let same = subst (λ x. same_text x k ≡ false) (sym (text_same i j f)) e in
          rw (f, same) rest
      | inr f ↦
          rw (f) (elim (Bool-cases (same_text i k)) [ inl g ↦ rw (g) refl | inr g ↦ rw (g) rest ])
    ]

pub values-erase :
    (k j : String) (opts : Dictionary)
    → same_text j k ≡ false
    → values k (erase j opts) ≡ values k opts
unfolding values erase
values-erase k j [] e = refl
values-erase k j ((i, vs) ∷ opts) e =
    let rest = values-erase k j opts e in
    elim (Bool-cases (same_text i j)) [
      | inl f ↦
          let same = subst (λ x. same_text x k ≡ false) (sym (text_same i j f)) e in
          rw (f, same) rest
      | inr f ↦
          rw (f) (elim (Bool-cases (same_text i k)) [ inl g ↦ rw (g) refl | inr g ↦ rw (g) rest ])
    ]

-- Two dictionaries that agree on an option.
pub record Agrees (k : String) (a b : Dictionary) : Type 0 where
  pub given : has k a ≡ has k b
  pub same : values k a ≡ values k b

pub Agrees-trans : {k : String} {a b c : Dictionary} → Agrees k a b → Agrees k b c → Agrees k a c
Agrees-trans x y = record { given = x.given ∙ y.given; same = x.same ∙ y.same }

pub erase-Agrees :
    (k j : String) (opts : Dictionary) → same_text j k ≡ false → Agrees k (erase j opts) opts
erase-Agrees k j opts e = record { given = has-erase k j opts e; same = values-erase k j opts e }

pub erase_given-Agrees :
    (k j : String) (opts : Dictionary)
    → same_text j k ≡ false
    → Agrees k (if has j opts then erase j opts else opts) opts
erase_given-Agrees k j opts e = elim (Bool-cases (has j opts)) [
  | inl f ↦ rw (f) (erase-Agrees k j opts e)
  | inr f ↦ rw (f) (record { given = refl; same = refl })
]

pub devices_of-Agrees :
    (k : String) (opts : Dictionary)
    → same_text "no-buttons" k ≡ false
    → same_text "no-pen" k ≡ false
    → same_text "no-touch" k ≡ false
    → Agrees k (devices_of opts).1 opts
unfolding devices_of
devices_of-Agrees k opts e f g =
    Agrees-trans (erase_given-Agrees k "no-touch" _ g)
      (Agrees-trans (erase_given-Agrees k "no-pen" _ f) (erase_given-Agrees k "no-buttons" opts e))

pub neither : (a b : Bool) → (a || b) ≡ false → (a ≡ false) × (b ≡ false)
neither false b e = (refl, e)
neither true b e = cc

-- The options of the client that starts.
unfoldable pub is_known : String → Bool
is_known k =
    same_text "no-buttons" k
    || (same_text "no-pen" k
        || (same_text "no-touch" k
            || (same_text "orientation" k
                || (same_text "auto-rotate" k || same_text "no-lock-rotation" k))))

-- What a start says of the options that it was given.
pub record Follows (opts : Dictionary) (s : Start) : Type 0 where
  pub buttons : s.request.buttons ≡ not (has "no-buttons" opts)
  pub pen : s.request.pen ≡ not (has "no-pen" opts)
  pub touch : s.request.touch ≡ not (has "no-touch" opts)
  pub by_default : has "orientation" opts ≡ false → s.orientation ≡ auto
  pub by_option :
      has "orientation" opts ≡ true
      → (v : String) × (vs : List String) × (values "orientation" opts ≡ v ∷ vs)
        × (s.orientation ≡ orientation_from_string v)
  pub auto_rotate : s.auto_rotate ≡ has "auto-rotate" opts
  pub lock_rotation : s.lock_rotation ≡ not (has "no-lock-rotation" opts)
  pub known : (k : String) → has k opts ≡ true → is_known k ≡ true

unfoldable pub Satisfies : (Start → Type 0) → Outcome → Type 0
Satisfies P (starts s) = P s
Satisfies P _ = Unit

-- What the options that are left say of those that were given.
pub record Remains (opts left : Dictionary) : Type 0 where
  pub rotate : has "auto-rotate" left ≡ has "auto-rotate" opts
  pub lock : has "no-lock-rotation" left ≡ has "no-lock-rotation" opts
  pub others : (k : String) → is_known k ≡ false → has k left ≡ has k opts

pub known_of :
    (opts left rest : Dictionary)
    → Remains opts left
    → rest
      ≡ erase "no-lock-rotation" (if has "auto-rotate" left then erase "auto-rotate" left else left)
    → rest ≡ []
    → (k : String) → has k opts ≡ true
    → is_known k ≡ true
unfolding is_known has
known_of opts left rest r from empty k h = elim (Bool-cases (is_known k)) [
  | inl e ↦ e
  | inr e ↦
      let (a, e1) = neither (same_text "no-buttons" k) _ e in
      let (b, e2) = neither (same_text "no-pen" k) _ e1 in
      let (c, e3) = neither (same_text "no-touch" k) _ e2 in
      let (d, e4) = neither (same_text "orientation" k) _ e3 in
      let (u, v) = neither (same_text "auto-rotate" k) _ e4 in
      let turned = if has "auto-rotate" left then erase "auto-rotate" left else left in
      let none_left = ap (λ o. has k o) (sym from ∙ empty) in
      absurd (
        differ h (
          sym (r.others k e)
          ∙ sym (erase_given-Agrees k "auto-rotate" left u).given
          ∙ sym (has-erase k "no-lock-rotation" turned v)
          ∙ none_left))
]

-- What `finish` adds to what it is given.
pub record Ends (opts : Dictionary) (ip : Text) (number : ℤ) (request : Request) (o : Orientation)
    (s : Start) : Type 0 where
  pub ip_kept : s.server_ip ≡ ip
  pub number_kept : s.server_port ≡ number
  pub request_kept : s.request ≡ request
  pub orientation_kept : s.orientation ≡ o
  pub rotates : s.auto_rotate ≡ has "auto-rotate" opts
  pub locks : s.lock_rotation ≡ not (has "no-lock-rotation" opts)
  pub known : (k : String) → has k opts ≡ true → is_known k ≡ true

pub List-cases : {A : Type 0} (xs : List A) → (xs ≡ []) ⊎ ((x : A) × (ys : List A) × (xs ≡ x ∷ ys))
List-cases [] = inl refl
List-cases (x ∷ ys) = inr (x, ys, refl)

pub finish-Ends :
    (opts left : Dictionary) (ip password : Text) (number : ℤ) (request : Request) (o : Orientation)
    → Remains opts left
    → Satisfies (Ends opts ip number request o) (finish ip number password request o left)
unfolding finish Satisfies
finish-Ends opts left ip password number request o r =
    let turned = if has "auto-rotate" left then erase "auto-rotate" left else left in
    let lock = (erase_given-Agrees "no-lock-rotation" "auto-rotate" left refl).given ∙ r.lock in
    elim (List-cases (erase "no-lock-rotation" turned)) [
      | inr (x, xs, e) ↦ rw (finish, e) tt
      | inl e ↦
          rw (finish, e)
            (record {
              ip_kept = refl;
              number_kept = refl;
              request_kept = refl;
              orientation_kept = refl;
              rotates = r.rotate;
              locks = ap (λ b. not b) lock;
              known = known_of opts left (erase "no-lock-rotation" turned) r refl e;
            })
    ]
