-- ===== src/Manager/Clients/Groups.antt =====
-- The groups of clients that share a key, and what each kind of call leaves of them.
use rmcast.Base.{ℕ, ◌≡◌, ◌≢◌, inl, inr, ◌∙◌, ap, List, [], Option, none, some}
use rmcast.Base.Int.{ℤ}
use rmcast.Manager.{Manager, ClientBackend, Keyed, put}
use rmcast.Manager.Maps.{put-cases, put_self}

abbrev pub members_of : Option ClientBackend → List ℕ
members_of none = []
members_of (some b) = b.connections

abbrev pub Groups : Type 0
Groups = ℤ → List ℕ

-- The clients that share the key `k`, in the order in which they have come.
unfoldable pub members : Manager → Groups
members m k = members_of (m.connections k)

pub members-put :
    (m : Manager) (k : ℤ) (o : Option ClientBackend) (t : Manager)
    → t.connections ≡ put m.connections k o
    → (members t k ≡ members_of o) × ((j : ℤ) → j ≢ k → members t j ≡ members m j)
unfolding members
members-put m k o t e = (
  ap members_of (ap (λ (f : Keyed ClientBackend). f k) e ∙ put_self m.connections k o),
  λ j apart. ap members_of (ap (λ (f : Keyed ClientBackend). f j) e ∙ other_key j apart),
)
  where
    other_key : (j : ℤ) → j ≢ k → put m.connections k o j ≡ m.connections j
    other_key j apart = elim (put-cases m.connections k o j) [
      | inl (h, g) ↦ absurd (apart h)
      | inr (h, g) ↦ g
    ]

pub members_same :
    (m t : Manager) → t.connections ≡ m.connections → (j : ℤ) → members t j ≡ members m j
unfolding members
members_same m t e j = ap (λ (f : Keyed ClientBackend). members_of (f j)) e
