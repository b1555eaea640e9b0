-- ===== src/Vncast/Convert/Block.antt =====
-- Blocks of bytes written one after the other by the nested loops of `blit_rect_to_shm`.
use rmcast.Base.{
  ℕ, zero, suc, ◌+◌, ◌-◌, ◌<◌, ◌≤◌, ◌≡◌, ◌≢◌, ◌⊎◌, inl, inr, refl, List, [], ◌∷◌, Option, some,
  length, get_elem?, set, length-set, get_elem?-set_self, get_elem?-set_ne, arith, ◌∙◌, subst,
  dec_lt, lt→ltb,
}
use rmcast.Base.Loops.{for_from, for_from_inv}
use rmcast.Vncast.Convert.{write_bytes}

-- `dst'` is `dst` with the bytes `bs` at `p`.
pub record Written (bs : List ℕ) (p : ℕ) (dst dst' : List ℕ) : Type 0 where
  pub same_length : length dst' ≡ length dst
  pub new : (k : ℕ) → k < length bs → get_elem? dst' (p + k) ≡ get_elem? bs k
  pub old : (i : ℕ) → (i < p) ⊎ (p + length bs ≤ i) → get_elem? dst' i ≡ get_elem? dst i

Written-more :
    (b : ℕ) (bs : List ℕ) (p : ℕ) (dst dst' : List ℕ)
    → p < length dst
    → Written bs (p + 1) (set dst p b) dst'
    → Written (b ∷ bs) p dst dst'
Written-more b bs p dst dst' h done = record {
  same_length = done.same_length ∙ length-set dst p b;
  new = fresh;
  old = λ i out. done.old i (omega arith) ∙ get_elem?-set_ne dst b (λ e. omega arith);
}
  where
    fresh : (k : ℕ) → k < suc (length bs) → get_elem? dst' (p + k) ≡ get_elem? (b ∷ bs) k
    fresh zero lt =
        subst (λ (i : ℕ). get_elem? dst' i ≡ some b) (omega arith)
          (done.old p (inl (omega arith)) ∙ get_elem?-set_self dst p b h)
    fresh (suc k) lt =
        subst (λ (i : ℕ). get_elem? dst' i ≡ get_elem? bs k) (omega arith)
          (done.new k (omega arith))

pub write_bytes-Written :
    (bs : List ℕ) (p : ℕ) (dst : List ℕ)
    → p + length bs ≤ length dst
    → (dst' : List ℕ) × (write_bytes bs p dst ≡ some dst') × Written bs p dst dst'
unfolding write_bytes
write_bytes-Written [] p dst h = (
  dst,
  refl,
  record { same_length = refl; new = λ k lt. absurd (omega arith); old = λ i out. refl },
)
write_bytes-Written (b ∷ bs) p dst h =
    let (dst', run, done) =
      write_bytes-Written bs (p + 1) (set dst p b) (omega (arith, length-set dst p b)) in
    (
      dst',
      rw (lt→ltb p (length dst) (omega arith)) run,
      Written-more b bs p dst dst' (omega arith) done,
    )

-- A rectangle of `wide` by `high` blocks of `n` bytes at `address`, from the block (y0, x0) on.
module _ (n x0 y0 wide high : ℕ) (address : ℕ → ℕ → ℕ) (bytes : ℕ → ℕ → List ℕ) (start : List ℕ)
    (size : (row col : ℕ) → length (bytes row col) ≡ n)
    (apart : (row col row' col' : ℕ)
      → col < x0 + wide
      → col' < x0 + wide
      → (row < row') ⊎ ((row ≡ row') × (col < col'))
      → address row col + n ≤ address row' col') where
  -- The blocks that are written after `y` whole rows and `x` blocks of the next.
  abbrev pub Reached : ℕ → ℕ → ℕ → ℕ → Type 0
  Reached y x row col =
      (y0 ≤ row)
      × (x0 ≤ col)
      × (col < x0 + wide)
      × ((row < y0 + y) ⊎ ((row ≡ y0 + y) × (col < x0 + x)))

  pub record Filled (Q : ℕ → ℕ → Type 0) (dst : List ℕ) : Type 0 where
    pub same_length : length dst ≡ length start
    pub new :
        (row col k : ℕ)
        → Q row col
        → k < n
        → get_elem? dst (address row col + k) ≡ get_elem? (bytes row col) k
    pub old :
        (i : ℕ)
        → ((row col k : ℕ) → Q row col → k < n → i ≢ address row col + k)
        → get_elem? dst i ≡ get_elem? start i

  fill_here :
      (y x row col : ℕ)
      → Reached y (x + 1) row col
      → Reached y x row col ⊎ ((row ≡ y0 + y) × (col ≡ x0 + x))
  fill_here y x row col (a, b, c, inl above) = inl (a, b, c, inl above)
  fill_here y x row col (a, b, c, inr (e, h)) = elim (dec_lt col (x0 + x)) [
    | yes before ↦ inl (a, b, c, inr (e, before))
    | no here ↦ inr (e, omega arith)
  ]

  before_here :
      (y x row col : ℕ)
      → x < wide
      → Reached y x row col
      → address row col + n ≤ address (y0 + y) (x0 + x)
  before_here y x row col hx (a, b, c, inl above) =
      apart row col (y0 + y) (x0 + x) c (omega arith) (inl above)
  before_here y x row col hx (a, b, c, inr (e, h)) =
      apart row col (y0 + y) (x0 + x) c (omega arith) (inr (e, h))

  reached_more : (y x row col : ℕ) → Reached y x row col → Reached y (x + 1) row col
  reached_more y x row col (a, b, c, inl above) = (a, b, c, inl above)
  reached_more y x row col (a, b, c, inr (e, h)) = (a, b, c, inr (e, omega arith))

  fill_step :
      (y x : ℕ) (dst dst' : List ℕ)
      → x < wide
      → Filled (Reached y x) dst
      → Written (bytes (y0 + y) (x0 + x)) (address (y0 + y) (x0 + x)) dst dst'
      → Filled (Reached y (x + 1)) dst'
  fill_step y x dst dst' hx inv done = record {
    same_length = done.same_length ∙ inv.same_length;
    new = λ row col k q lt. elim (fill_here y x row col q) [
      | inl before ↦
          done.old (address row col + k) (inl (omega (arith, before_here y x row col hx before)))
          ∙ inv.new row col k before lt
      | inr (e, f) ↦ rw (e, f) (done.new k (omega (arith, size (y0 + y) (x0 + x))))
    ];
    old = λ i out.
        done.old i (outside i out)
        ∙ inv.old i (λ row col k q lt. out row col k (reached_more y x row col q) lt);
  }
    where
      outside :
          (i : ℕ)
          → ((row col k : ℕ) → Reached y (x + 1) row col → k < n → i ≢ address row col + k)
          → (i < address (y0 + y) (x0 + x))
            ⊎ (address (y0 + y) (x0 + x) + length (bytes (y0 + y) (x0 + x)) ≤ i)
      outside i out = elim (dec_lt i (address (y0 + y) (x0 + x))) [
        | yes low ↦ inl low
        | no ge ↦ elim (dec_lt i (address (y0 + y) (x0 + x) + n)) [
          | yes inside ↦ absurd (
              out (y0 + y) (x0 + x) (i - address (y0 + y) (x0 + x))
                (omega arith, omega arith, omega arith, inr (refl, omega arith)) (omega arith)
                (omega arith))
          | no high_up ↦ inr (omega (arith, size (y0 + y) (x0 + x)))
        ]
      ]

  Filled-iff :
      {Q R : ℕ → ℕ → Type 0} {dst : List ℕ}
      → ((row col : ℕ) → Q row col → R row col)
      → ((row col : ℕ) → R row col → Q row col)
      → Filled Q dst
      → Filled R dst
  Filled-iff there back h = record {
    same_length = h.same_length;
    new = λ row col k r lt. h.new row col k (back row col r) lt;
    old = λ i out. h.old i (λ row col k q lt. out row col k (there row col q) lt);
  }

  Filled-none : {Q : ℕ → ℕ → Type 0} → ((row col : ℕ) → Q row col → ⊥) → Filled Q start
  Filled-none never = record {
    same_length = refl;
    new = λ row col k q lt. absurd (never row col q);
    old = λ i out. refl;
  }

  -- The blocks of the rectangle.
  abbrev pub InBlocks : ℕ → ℕ → Type 0
  InBlocks row col = (y0 ≤ row) × (row < y0 + high) × (x0 ≤ col) × (col < x0 + wide)

  module _ (cell : ℕ → ℕ → List ℕ → Option (List ℕ))
      (cell-Written : (y x : ℕ) (dst : List ℕ)
        → y < high
        → x < wide
        → length dst ≡ length start
        → (dst' : List ℕ) × (cell y x dst ≡ some dst')
          × Written (bytes (y0 + y) (x0 + x)) (address (y0 + y) (x0 + x)) dst dst') where
    row-Filled :
        (y : ℕ) (dst : List ℕ)
        → y < high
        → Filled (Reached y 0) dst
        → (dst' : List ℕ) × (for_from (cell y) 0 wide dst ≡ some dst')
          × Filled (Reached (y + 1) 0) dst'
    row-Filled y dst hy h =
        let (dst', run, done) =
          for_from_inv (cell y) (λ x d. Filled (Reached y x) d) 0 wide dst
            (λ x d lo hi inv.
              let (d', one, put) = cell-Written y x d hy (omega arith) inv.same_length in
              (d', one, fill_step y x d d' (omega arith) inv put))
            h in
        (dst', run, Filled-iff (λ row col q. there row col q) (λ row col q. back row col q) done)
      where
        there : (row col : ℕ) → Reached y (0 + wide) row col → Reached (y + 1) 0 row col
        there row col (a, b, c, inl above) = (a, b, c, inl (omega arith))
        there row col (a, b, c, inr (e, g)) = (a, b, c, inl (omega arith))

        back : (row col : ℕ) → Reached (y + 1) 0 row col → Reached y (0 + wide) row col
        back row col (a, b, c, inr (e, g)) = absurd (omega arith)
        back row col (a, b, c, inl above) = elim (dec_lt row (y0 + y)) [
          | yes before ↦ (a, b, c, inl before)
          | no here ↦ (a, b, c, inr (omega arith, omega arith))
        ]

    -- The loops do not fault, write each block of the rectangle, and keep every other byte.
    pub rows-Filled :
        (dst : List ℕ) × (for_from (λ y. for_from (cell y) 0 wide) 0 high start ≡ some dst)
        × Filled InBlocks dst
    rows-Filled =
        let (dst, run, done) =
          for_from_inv (λ y. for_from (cell y) 0 wide) (λ y d. Filled (Reached y 0) d) 0 high start
            (λ y d lo hi inv. row-Filled y d (omega arith) inv)
            (Filled-none (λ row col q. never row col q)) in
        (dst, run, Filled-iff (λ row col q. there row col q) (λ row col q. back row col q) done)
      where
        never : (row col : ℕ) → Reached 0 0 row col → ⊥
        never row col (a, b, c, inl above) = omega arith
        never row col (a, b, c, inr (e, g)) = omega arith

        there : (row col : ℕ) → Reached (0 + high) 0 row col → InBlocks row col
        there row col (a, b, c, inl above) = (a, omega arith, b, c)
        there row col (a, b, c, inr (e, g)) = absurd (omega arith)

        back : (row col : ℕ) → InBlocks row col → Reached (0 + high) 0 row col
        back row col (a, b, c, d) = (a, c, d, inl (omega arith))
