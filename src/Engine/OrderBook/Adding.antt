-- ===== src/Engine/OrderBook/Adding.antt =====
-- `OrderBook::addOrder` as a whole: what it does to the order, the trades and the book.
use fix4_0_demo.Prelude.{
  ◌≡◌, refl, sym, ◌∙◌, ap, subst, ◌⊎◌, inl, inr, Bool, false, not, ◌&&◌, ◌||◌, Bool-cases, List, [],
  ◌∷◌, ◌++◌, if◌then◌else◌, pos, ◌+ℤ◌, ◌≤ℤ◌, Double, int_laws, All, int_eq, ltb_ℤ→lt, is_empty,
  &&_left,
}
use fix4_0_demo.Engine.Order.{
  Order, OrderStatus, OrderSide, is_buy, is_fok, is_ioc, is_market, is_terminal,
}
use fix4_0_demo.Engine.OrderBook.{
  OrderBook, PriceLevel, Levels, Matching, match_levels, is_pos, is_zero,
}
use fix4_0_demo.Engine.OrderBook.Operations.{
  Added, match_taker, matching_of, with_match, other_side, add_to_side, insert_level, settle_rest,
  before, push_order, with_status,
}
use fix4_0_demo.Engine.OrderBook.Terms.{SameTerms, SameTerms-refl}
use fix4_0_demo.Engine.OrderBook.Conservation.{sum_leaves, sum_trades, IsOpen}
use fix4_0_demo.Engine.OrderBook.Levels.{
  AreValid, IsValidLevel, LevelsMatched, match_levels-LevelsMatched, sum_levels, HeadStops,
}

module _ {W : Type 0} where
  pub record IsValid (b : OrderBook W) : Type 0 where
    pub bids : AreValid b.bids
    pub asks : AreValid b.asks

  -- The side of the book that an order rests on.
  abbrev pub own_side : OrderBook W → OrderSide → Levels W
  own_side b side = if is_buy side then b.bids else b.asks

  -- An order that does not rest: fill or kill, immediate or cancel, at the market.
  abbrev pub never_rests : Order W → Bool
  never_rests o = is_fok o.time_in_force || is_ioc o.time_in_force || is_market o.ord_type

  -- What handling an order keeps of it.
  pub record Handled (o : Order W) (a : Added W) : Type 0 where
    pub terms : SameTerms o a.order
    pub whole : a.order.cum_qty +ℤ a.order.leaves_qty ≡ o.cum_qty +ℤ o.leaves_qty
    pub traded : sum_trades a.trades +ℤ a.order.leaves_qty ≡ o.leaves_qty

module _ {W : Type 0} ⦃d : Double W⦄ where
  pub other_side-AreValid :
      (b : OrderBook W) (side : OrderSide) → IsValid b → AreValid (other_side b side)
  other_side-AreValid b side v = elim (Bool-cases (is_buy side)) [
    | inl e ↦ rw e v.asks
    | inr e ↦ rw e v.bids
  ]

  -- What matching a taker does to a book.
  pub record TakerMatched (b : OrderBook W) (o : Order W) (a : Added W) : Type 0 where
    pub handled : Handled o a
    pub nonneg : pos 0 ≤ℤ a.order.leaves_qty
    pub valid : IsValid a.book
    pub own_kept : own_side a.book o.side ≡ own_side b o.side
    pub other_moved :
        sum_levels (other_side a.book o.side) +ℤ sum_trades a.trades
        ≡ sum_levels (other_side b o.side)
    pub ends : (a.order.leaves_qty ≡ pos 0) ⊎ HeadStops a.order (other_side a.book o.side)

  module _ (b : OrderBook W) (o : Order W) (levels : Levels W) (m : Matching W) (v : IsValid b)
      (h : LevelsMatched b.symbol (other_side b o.side) (matching_of b o) levels m) where
    with_match-IsValid : IsValid (with_match b o.side levels m)
    with_match-IsValid = elim (Bool-cases (is_buy o.side)) [
      | inl e ↦ rw e (record { bids = v.bids; asks = h.valid })
      | inr e ↦ rw e (record { bids = h.valid; asks = v.asks })
    ]

    with_match-own : own_side (with_match b o.side levels m) o.side ≡ own_side b o.side
    with_match-own = elim (Bool-cases (is_buy o.side)) [ inl e ↦ rw e refl | inr e ↦ rw e refl ]

    with_match-other : other_side (with_match b o.side levels m) o.side ≡ levels
    with_match-other = elim (Bool-cases (is_buy o.side)) [ inl e ↦ rw e refl | inr e ↦ rw e refl ]

  pub match_taker-TakerMatched :
      (b : OrderBook W) (o : Order W)
      → IsValid b
      → pos 0 ≤ℤ o.leaves_qty
      → TakerMatched b o (match_taker b o)
  unfolding match_taker
  match_taker-TakerMatched b o v h =
      let r = match_levels b.symbol (other_side b o.side) (matching_of b o) in
      let done =
        match_levels-LevelsMatched b.symbol (other_side b o.side) (matching_of b o) h
          (other_side-AreValid b o.side v) in
      let other = with_match-other b o r.0 r.1 v done in
      record {
        handled = record {
          terms = done.keeps.terms;
          whole = done.keeps.whole;
          traded = omega (int_laws, int_eq done.keeps.traded);
        };
        nonneg = done.keeps.nonneg;
        valid = with_match-IsValid b o r.0 r.1 v done;
        own_kept = with_match-own b o r.0 r.1 v done;
        other_moved =
            ap (λ (x : Levels W). sum_levels x +ℤ sum_trades r.1.trades) other
            ∙ omega (int_laws, int_eq done.moved, int_eq done.keeps.traded);
        ends = elim done.ends [
          | inl e ↦ inl e
          | inr e ↦ inr (subst (λ (x : Levels W). HeadStops r.1.taker x) (sym other) e)
        ];
      }

  sum_leaves-push :
      (os : List (Order W)) (o : Order W)
      → sum_leaves (os ++ (o ∷ [])) ≡ sum_leaves os +ℤ o.leaves_qty
  sum_leaves-push [] o = omega int_laws
  sum_leaves-push (x ∷ os) o = omega (int_laws, int_eq (sum_leaves-push os o))

  IsOpen-push :
      (os : List (Order W)) (o : Order W) → All IsOpen os → IsOpen o → All IsOpen (os ++ (o ∷ []))
  IsOpen-push [] o hs h = (h, tt)
  IsOpen-push (x ∷ os) o (hx, hs) h = (hx, IsOpen-push os o hs h)

  is_empty-push : (os : List (Order W)) (o : Order W) → is_empty (os ++ (o ∷ [])) ≡ false
  is_empty-push [] o = refl
  is_empty-push (x ∷ os) o = refl

  push_order-IsValidLevel :
      (o : Order W) (key : W) (level : PriceLevel W)
      → IsOpen o
      → IsValidLevel (key, level)
      → IsValidLevel (key, push_order o level)
  push_order-IsValidLevel o key level h v = record {
    key_price = rw v.occupied v.key_price;
    occupied = is_empty-push level.orders o;
    open_orders = IsOpen-push level.orders o v.open_orders h;
    total = omega (int_laws, int_eq v.total, int_eq (sum_leaves-push level.orders o));
  }

  insert_level-AreValid :
      (side : OrderSide) (o : Order W) (levels : Levels W)
      → IsOpen o
      → AreValid levels
      → AreValid (insert_level side o levels)
  unfolding insert_level
  insert_level-AreValid side o [] h vs = (
    record { key_price = refl; occupied = refl; open_orders = (h, tt); total = omega int_laws },
    tt,
  )
  insert_level-AreValid side o ((key, level) ∷ levels) h (v, vs) =
      elim (Bool-cases (before side o.price key)) [
        | inl e ↦ rw e (
          record {
            key_price = refl;
            occupied = refl;
            open_orders = (h, tt);
            total = omega int_laws;
          },
          (v, vs),
        )
        | inr e ↦ elim (Bool-cases (before side key o.price)) [
          | inl f ↦ rw (e, f) (v, insert_level-AreValid side o levels h vs)
          | inr f ↦ rw (e, f) (push_order-IsValidLevel o key level h v, vs)
        ]
      ]

  pub add_to_side-IsValid :
      (b : OrderBook W) (o : Order W) → IsOpen o → IsValid b → IsValid (add_to_side b o)
  unfolding add_to_side
  add_to_side-IsValid b o h v = elim (Bool-cases (is_buy o.side)) [
    | inl e ↦ rw e (record { bids = insert_level-AreValid o.side o b.bids h v.bids; asks = v.asks })
    | inr e ↦ rw e (record { bids = v.bids; asks = insert_level-AreValid o.side o b.asks h v.asks })
  ]

  pub SameTerms-status : (o : Order W) (s : OrderStatus) → SameTerms o (with_status s o)
  SameTerms-status o s = record {
    cl_ord_id = refl;
    side = refl;
    ord_type = refl;
    time_in_force = refl;
    order_qty = refl;
    price = refl;
  }

  -- What becomes of the rest of an order.
  pub record Settled (a a' : Added W) : Type 0 where
    pub trades : a'.trades ≡ a.trades
    pub cum_qty : a'.order.cum_qty ≡ a.order.cum_qty
    pub leaves_qty : a'.order.leaves_qty ≡ a.order.leaves_qty
    pub terms : SameTerms a.order a'.order
    pub rests :
        (a'.book ≡ a.book)
        ⊎ (IsOpen a.order × (never_rests a.order ≡ false) × (a'.book ≡ add_to_side a.book a.order))

  pub settle_rest-Settled : (a : Added W) → Settled a (settle_rest a)
  unfolding settle_rest
  settle_rest-Settled a =
      elim (Bool-cases (is_pos a.order.leaves_qty && not (is_terminal a.order))) [
        | inr e ↦ rw e (record {
          trades = refl;
          cum_qty = refl;
          leaves_qty = refl;
          terms = SameTerms-refl a.order;
          rests = inl refl;
        })
        | inl e ↦ elim (Bool-cases (never_rests a.order)) [
          | inl f ↦
              rw (e, f)
                (record {
                  trades = refl;
                  cum_qty = refl;
                  leaves_qty = refl;
                  terms = SameTerms-status a.order _;
                  rests = inl refl;
                })
          | inr f ↦ elim (Bool-cases (is_zero a.order.cum_qty)) [
            | inl g ↦
                rw (e, f, g)
                  (record {
                    trades = refl;
                    cum_qty = refl;
                    leaves_qty = refl;
                    terms = SameTerms-status a.order _;
                    rests = inr (ltb_ℤ→lt (pos 0) a.order.leaves_qty (&&_left _ _ e), f, refl);
                  })
            | inr g ↦
                rw (e, f, g)
                  (record {
                    trades = refl;
                    cum_qty = refl;
                    leaves_qty = refl;
                    terms = SameTerms-refl a.order;
                    rests = inr (ltb_ℤ→lt (pos 0) a.order.leaves_qty (&&_left _ _ e), f, refl);
                  })
          ]
        ]
      ]
