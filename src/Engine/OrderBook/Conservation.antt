-- ===== src/Engine/OrderBook/Conservation.antt =====
-- src/app/engine/order_book.cpp: the quantities that matching one level moves.
use fix4_0_demo.Prelude.{
  ℕ, ◌≡◌, refl, sym, ◌∙◌, ap, ◌⊎◌, inl, inr, true, false, Bool-cases, List, [], ◌∷◌, ◌++◌, ℤ, pos,
  ◌+ℤ◌, ◌-ℤ◌, ◌≤ℤ◌, ◌<ℤ◌, min_ℤ, min_ℤ_bounds, eqb_ℤ, Text, Double, arith, int_laws, All, int_eq,
  eqb_ℤ_iff, ltb_ℤ→le,
}
use fix4_0_demo.Engine.OrderBook.Terms.{SameTerms, SameTerms-refl, SameTerms-trans}
use fix4_0_demo.Engine.Order.{Order, is_buy}
use fix4_0_demo.Engine.OrderBook.{
  Trade, Matching, fill, match_order, match_orders, is_zero, is_pos, make_trade,
}

module _ {W : Type 0} where
  abbrev pub sum_leaves : List (Order W) → ℤ
  sum_leaves [] = pos 0
  sum_leaves (o ∷ os) = o.leaves_qty +ℤ sum_leaves os

  abbrev pub sum_trades : List (Trade W) → ℤ
  sum_trades [] = pos 0
  sum_trades (t ∷ ts) = t.qty +ℤ sum_trades ts

  -- A resting order still has something to fill.
  abbrev pub IsOpen : Order W → Type 0
  IsOpen o = pos 0 <ℤ o.leaves_qty

min_ℤ_nonneg : (a b : ℤ) → pos 0 ≤ℤ a → pos 0 ≤ℤ b → pos 0 ≤ℤ min_ℤ a b
unfolding min_ℤ
min_ℤ_nonneg a b h k = ground arith

-- The smaller of two quantities, taken from the second, leaves nothing or was the first.
min_ℤ-left :
    (a b : ℤ)
    → eqb_ℤ (b -ℤ min_ℤ a b) (pos 0) ≡ false
    → (a -ℤ min_ℤ a b ≡ pos 0) × (pos 0 <ℤ b -ℤ min_ℤ a b)
unfolding min_ℤ ◌-ℤ◌
min_ℤ-left a b h = ground arith

sum_trades-append :
    {W : Type 0} (xs ys : List (Trade W)) → sum_trades (xs ++ ys) ≡ sum_trades xs +ℤ sum_trades ys
sum_trades-append [] ys = omega int_laws
sum_trades-append (x ∷ xs) ys = omega (int_laws, int_eq (sum_trades-append xs ys))

module _ {W : Type 0} ⦃d : Double W⦄ (symbol : Text) where
  -- What one step of matching, or a whole loop, keeps of the taker and the trades.
  pub record Keeps (m m' : Matching W) : Type 0 where
    pub terms : SameTerms m.taker m'.taker
    pub whole : m'.taker.cum_qty +ℤ m'.taker.leaves_qty ≡ m.taker.cum_qty +ℤ m.taker.leaves_qty
    pub traded :
        sum_trades m'.trades +ℤ m'.taker.leaves_qty ≡ sum_trades m.trades +ℤ m.taker.leaves_qty
    pub nonneg : pos 0 ≤ℤ m'.taker.leaves_qty
    pub falls : m'.taker.leaves_qty ≤ℤ m.taker.leaves_qty

  pub Keeps-refl : (m : Matching W) → pos 0 ≤ℤ m.taker.leaves_qty → Keeps m m
  Keeps-refl m h = record {
    terms = SameTerms-refl m.taker;
    whole = refl;
    traded = refl;
    nonneg = h;
    falls = omega arith;
  }

  pub Keeps-trans : {a b c : Matching W} → Keeps a b → Keeps b c → Keeps a c
  Keeps-trans p q = record {
    terms = SameTerms-trans p.terms q.terms;
    whole = q.whole ∙ p.whole;
    traded = q.traded ∙ p.traded;
    nonneg = q.nonneg;
    falls = omega (arith, p.falls, q.falls);
  }

  abbrev step_qty : Order W → Matching W → ℤ
  step_qty maker m = min_ℤ m.taker.leaves_qty maker.leaves_qty

  make_trade-qty :
      (n : ℕ) (price : W) (qty : ℤ) (taker maker : Order W)
      → (make_trade symbol n price qty taker maker).qty ≡ qty
  make_trade-qty n price qty taker maker = elim (Bool-cases (is_buy taker.side)) [
    | inl e ↦ rw e
    | inr e ↦ rw e
  ]

  -- One trade takes the same quantity from both orders.
  match_order-leaves :
      (maker : Order W) (m : Matching W)
      → ((match_order symbol maker m).1.taker.leaves_qty ≡ m.taker.leaves_qty -ℤ step_qty maker m)
        × ((match_order symbol maker m).0.leaves_qty ≡ maker.leaves_qty -ℤ step_qty maker m)
        × ((match_order symbol maker m).1.taker.cum_qty ≡ m.taker.cum_qty +ℤ step_qty maker m)
        × (sum_trades (match_order symbol maker m).1.trades
            ≡ sum_trades m.trades +ℤ step_qty maker m)
  unfolding match_order fill
  match_order-leaves maker m = (
    refl,
    refl,
    refl,
    sum_trades-append m.trades _
        ∙ omega (
          int_laws,
          int_eq (
              make_trade-qty m.next_trade_id maker.price (step_qty maker m)
                (fill (step_qty maker m) maker.price m.taker)
                (fill (step_qty maker m) maker.price maker)),
        ),
  )

  match_order-terms :
      (maker : Order W) (m : Matching W) → SameTerms m.taker (match_order symbol maker m).1.taker
  unfolding match_order fill
  match_order-terms maker m = record {
    cl_ord_id = refl;
    side = refl;
    ord_type = refl;
    time_in_force = refl;
    order_qty = refl;
    price = refl;
  }

  match_order-Keeps :
      (maker : Order W) (m : Matching W)
      → pos 0 ≤ℤ m.taker.leaves_qty
      → IsOpen maker
      → Keeps m (match_order symbol maker m).1
  match_order-Keeps maker m h ho =
      let (leaves, _, cum, traded) = match_order-leaves maker m in
      let bounds = min_ℤ_bounds m.taker.leaves_qty maker.leaves_qty in
      record {
        terms = match_order-terms maker m;
        whole = omega (int_laws, int_eq leaves, int_eq cum);
        traded = omega (int_laws, int_eq leaves, int_eq traded);
        nonneg = omega (int_laws, int_eq leaves, bounds.0);
        falls = omega (
          int_laws,
          int_eq leaves,
          min_ℤ_nonneg m.taker.leaves_qty maker.leaves_qty h (omega arith),
        );
      }

  -- What the loop over one level does.
  pub record LevelMatched (makers : List (Order W)) (total : ℤ) (m : Matching W)
      (kept : List (Order W)) (total' : ℤ) (m' : Matching W) : Type 0 where
    pub keeps : Keeps m m'
    -- the makers lose what the taker gains, and the level's total with them
    pub moved : sum_leaves kept +ℤ m.taker.leaves_qty ≡ sum_leaves makers +ℤ m'.taker.leaves_qty
    pub total_moved : total' +ℤ m.taker.leaves_qty ≡ total +ℤ m'.taker.leaves_qty
    pub open_kept : All IsOpen kept
    -- the loop ends when one of the two runs out
    pub ends : (m'.taker.leaves_qty ≡ pos 0) ⊎ (kept ≡ [])

  module _ (maker : Order W) (makers : List (Order W)) (total : ℤ) (m : Matching W)
      (kept : List (Order W)) (total' : ℤ) (m'' : Matching W) (h : pos 0 ≤ℤ m.taker.leaves_qty)
      (ho : IsOpen maker)
      (rest : LevelMatched makers
        (total -ℤ step_qty maker m)
        (match_order symbol maker m).1
        kept
        total'
        m'') where
    -- The maker is filled, and leaves the level.
    LevelMatched-drop :
        is_zero (match_order symbol maker m).0.leaves_qty ≡ true
        → LevelMatched (maker ∷ makers) total m kept total' m''
    LevelMatched-drop gone =
        let (leaves, left, _, _) = match_order-leaves maker m in
        let empty = (eqb_ℤ_iff (match_order symbol maker m).0.leaves_qty (pos 0)).0 gone in
        record {
          keeps = Keeps-trans (match_order-Keeps maker m h ho) rest.keeps;
          moved = omega (int_laws, int_eq leaves, int_eq left, int_eq empty, int_eq rest.moved);
          total_moved = omega (int_laws, int_eq leaves, int_eq rest.total_moved);
          open_kept = rest.open_kept;
          ends = rest.ends;
        }

    -- The maker has something left, so the taker has nothing.
    LevelMatched-stay :
        is_zero (match_order symbol maker m).0.leaves_qty ≡ false
        → LevelMatched (maker ∷ makers) total m ((match_order symbol maker m).0 ∷ kept) total' m''
    LevelMatched-stay some_left =
        let (leaves, left, _, _) = match_order-leaves maker m in
        let some_left' : eqb_ℤ (maker.leaves_qty -ℤ step_qty maker m) (pos 0) ≡ false =
          ap (λ (x : ℤ). eqb_ℤ x (pos 0)) (sym left) ∙ some_left in
        let out = min_ℤ-left m.taker.leaves_qty maker.leaves_qty some_left' in
        record {
          keeps = Keeps-trans (match_order-Keeps maker m h ho) rest.keeps;
          moved = omega (int_laws, int_eq leaves, int_eq left, int_eq rest.moved);
          total_moved = omega (int_laws, int_eq leaves, int_eq rest.total_moved);
          open_kept = (omega (int_laws, int_eq left, out.1), rest.open_kept);
          ends =
              inl (
                omega (int_laws, int_eq leaves, int_eq out.0, rest.keeps.falls, rest.keeps.nonneg));
        }

  pub match_orders-LevelMatched :
      (makers : List (Order W)) (total : ℤ) (m : Matching W)
      → pos 0 ≤ℤ m.taker.leaves_qty
      → All IsOpen makers
      → let r = match_orders symbol makers total m in LevelMatched makers total m r.0 r.1 r.2
  unfolding match_orders
  match_orders-LevelMatched [] total m h os = record {
    keeps = Keeps-refl m h;
    moved = refl;
    total_moved = refl;
    open_kept = tt;
    ends = inr refl;
  }
  match_orders-LevelMatched (maker ∷ makers) total m h os =
      let one = match_order-Keeps maker m h os.0 in
      let rest =
        match_orders-LevelMatched makers (total -ℤ step_qty maker m) (match_order symbol maker m).1
          one.nonneg os.1 in
      elim (Bool-cases (is_pos m.taker.leaves_qty)) [
        | inr e ↦ rw e (record {
          keeps = Keeps-refl m h;
          moved = refl;
          total_moved = refl;
          open_kept = os;
          ends = inl (omega (int_laws, ltb_ℤ→le (pos 0) m.taker.leaves_qty e));
        })
        | inl e ↦ rw e (elim (Bool-cases (is_zero (match_order symbol maker m).0.leaves_qty)) [
          | inl gone ↦ rw gone (LevelMatched-drop maker makers total m _ _ _ h os.0 rest gone)
          | inr left ↦ rw left (LevelMatched-stay maker makers total m _ _ _ h os.0 rest left)
        ])
      ]
