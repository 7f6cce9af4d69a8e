-- ===== src/Engine/OrderBook/Uncrossed.antt =====
-- src/app/engine/order_book.cpp: the prices of the two sides of a book beside each other.
use fix4_0_demo.Prelude.{
  ◌≡◌, refl, sym, subst, ◌⊎◌, inl, inr, true, false, ||_right, [], ◌∷◌, Double, IsOrdered, int_laws,
  int_eq,
}
use fix4_0_demo.Engine.Order.{Order, OrderSide, OrderType, is_limit, is_market}
use fix4_0_demo.Engine.OrderBook.{OrderBook, Levels}
use fix4_0_demo.Engine.OrderBook.Operations.{
  Added, other_side, add_to_side, match_taker, settle_rest, add_order,
}
use fix4_0_demo.Engine.OrderBook.Levels.{HeadStops}
use fix4_0_demo.Engine.OrderBook.Adding.{
  IsValid, TakerMatched, match_taker-TakerMatched, settle_rest-Settled,
}
use fix4_0_demo.Engine.OrderBook.Outcomes.{
  add_order-cases, next_book-IsValid, refused_not-IsOpen, numbered, next_book,
}
use fix4_0_demo.Engine.OrderBook.Crossing.{
  AllPrices, IsSorted, match_levels-AllPrices, match_levels-IsSorted, insert_level-AllPrices,
  insert_level-IsSorted, AllPrices-before,
}

AllPrices-map :
    {W : Type 0} (P Q : W → Type 0) (levels : Levels W)
    → ((x : W) → P x → Q x)
    → AllPrices P levels
    → AllPrices Q levels
AllPrices-map P Q [] f hs = tt
AllPrices-map P Q ((key, level) ∷ levels) f (h, hs) = (f key h, AllPrices-map P Q levels f hs)

side-cases : (s : OrderSide) → (s ≡ OrderSide.buy) ⊎ (s ≡ OrderSide.sell)
side-cases OrderSide.buy = inl refl
side-cases OrderSide.sell = inr refl

is_market-is_limit : (t : OrderType) → is_market t ≡ false → is_limit t ≡ true
is_market-is_limit OrderType.limit e = refl
is_market-is_limit OrderType.market e = sym e

module _ {W : Type 0} ⦃d : Double W⦄ where
  abbrev pub IsBelow : W → Levels W → Type 0
  IsBelow price asks = AllPrices (λ ask. d.lt price ask ≡ true) asks

  -- Both sides are sorted, and every bid is below every ask.
  pub record IsOrderly (b : OrderBook W) : Type 0 where
    pub bids : IsSorted OrderSide.buy b.bids
    pub asks : IsSorted OrderSide.sell b.asks
    pub uncrossed : AllPrices (λ bid. IsBelow bid b.asks) b.bids

  match_taker-IsOrderly :
      (b : OrderBook W) (o : Order W) → IsOrderly b → IsOrderly (match_taker b o).book
  unfolding match_taker
  match_taker-IsOrderly b o v = elim (side-cases o.side) [
    | inl e ↦ rw e (record {
      bids = v.bids;
      asks = match_levels-IsSorted OrderSide.sell b.symbol b.asks _ v.asks;
      uncrossed =
          AllPrices-map (λ bid. IsBelow bid b.asks) _ b.bids
            (λ bid below.
              match_levels-AllPrices (λ ask. d.lt bid ask ≡ true) b.symbol b.asks _ below)
            v.uncrossed;
    })
    | inr e ↦ rw e (record {
      bids = match_levels-IsSorted OrderSide.buy b.symbol b.bids _ v.bids;
      asks = v.asks;
      uncrossed = match_levels-AllPrices (λ bid. IsBelow bid b.asks) b.symbol b.bids _ v.uncrossed;
    })
  ]

module _ {W : Type 0} ⦃d : Double W⦄ (laws : IsOrdered W) where
  -- If the best level is too dear for a limit order, so are the others.
  HeadStops-buy :
      (o : Order W) (asks : Levels W)
      → is_limit o.ord_type ≡ true
      → o.side ≡ OrderSide.buy
      → IsSorted OrderSide.sell asks
      → HeadStops o asks
      → IsBelow o.price asks
  HeadStops-buy o [] l s hs e = tt
  HeadStops-buy o ((key, level) ∷ asks) l s (h, hs) e =
      let first : d.lt o.price key ≡ true = rw (l, s) at e in
      (first, AllPrices-before laws OrderSide.sell o.price key asks first h)

  HeadStops-sell :
      (o : Order W) (bids : Levels W)
      → is_limit o.ord_type ≡ true
      → o.side ≡ OrderSide.sell
      → IsSorted OrderSide.buy bids
      → HeadStops o bids
      → AllPrices (λ bid. d.lt bid o.price ≡ true) bids
  HeadStops-sell o [] l s hs e = tt
  HeadStops-sell o ((key, level) ∷ bids) l s (h, hs) e =
      let first : d.lt key o.price ≡ true = rw (l, s) at e in
      (first, AllPrices-before laws OrderSide.buy o.price key bids first h)

  both :
      (P Q R : W → Type 0) (levels : Levels W)
      → ((x : W) → P x → Q x → R x)
      → AllPrices P levels
      → AllPrices Q levels
      → AllPrices R levels
  both P Q R [] f ps qs = tt
  both P Q R ((key, level) ∷ levels) f (p, ps) (q, qs) = (f key p q, both P Q R levels f ps qs)

  add_to_side-IsOrderly :
      (b : OrderBook W) (o : Order W)
      → is_limit o.ord_type ≡ true
      → HeadStops o (other_side b o.side)
      → IsOrderly b
      → IsOrderly (add_to_side b o)
  unfolding add_to_side
  add_to_side-IsOrderly b o l stops v = elim (side-cases o.side) [
    | inl e ↦
        let below =
          HeadStops-buy o b.asks l e v.asks
            (subst (λ (s : OrderSide). HeadStops o (other_side b s)) e stops) in
        simp e (record {
          bids = insert_level-IsSorted laws OrderSide.buy o b.bids v.bids;
          asks = v.asks;
          uncrossed =
              insert_level-AllPrices (λ bid. IsBelow bid b.asks) OrderSide.buy o b.bids below
                v.uncrossed;
        })
    | inr e ↦
        let above =
          HeadStops-sell o b.bids l e v.bids
            (subst (λ (s : OrderSide). HeadStops o (other_side b s)) e stops) in
        simp e (record {
          bids = v.bids;
          asks = insert_level-IsSorted laws OrderSide.sell o b.asks v.asks;
          uncrossed =
              both (λ bid. d.lt bid o.price ≡ true) (λ bid. IsBelow bid b.asks) _ b.bids
                (λ bid lt below.
                  insert_level-AllPrices (λ ask. d.lt bid ask ≡ true) OrderSide.sell o b.asks lt
                    below)
                above v.uncrossed;
        })
  ]

  settle_rest-IsOrderly :
      (b : OrderBook W) (o : Order W) (a : Added W)
      → TakerMatched b o a
      → IsOrderly a.book
      → IsOrderly (settle_rest a).book
  settle_rest-IsOrderly b o a t v = elim (settle_rest-Settled a).rests [
    | inl kept ↦ subst (λ (x : OrderBook W). IsOrderly x) (sym kept) v
    | inr (some_left, rests, added) ↦
        subst (λ (x : OrderBook W). IsOrderly x) (sym added)
          (elim t.ends [
            | inl none_left ↦ absurd (omega (int_laws, int_eq none_left))
            | inr stops ↦
                add_to_side-IsOrderly a.book a.order
                  (is_market-is_limit a.order.ord_type
                    (||_right _ (is_market a.order.ord_type) rests))
                  (subst (λ (s : OrderSide). HeadStops a.order (other_side a.book s))
                    (sym t.handled.terms.side) stops)
                  v
          ])
  ]

  -- Adding an order, whatever it is, to a valid book whose sides are sorted and do not cross,
  -- leaves them sorted and every bid below every ask, for prices that are ordered as numbers are.
  pub add_order-IsOrderly :
      (b : OrderBook W) (o : Order W) → IsValid b → IsOrderly b → IsOrderly (add_order b o).book
  add_order-IsOrderly b o v w = elim (add_order-cases b o) [
    | inl (_, e) ↦ rw e w
    | inr (inl (_, e)) ↦ rw e (record { bids = w.bids; asks = w.asks; uncrossed = w.uncrossed })
    | inr (inr (ok, _, e)) ↦
        let b' = next_book b o in
        let o' = numbered b o in
        let t =
          match_taker-TakerMatched b' o' (next_book-IsValid b o v)
            (omega (int_laws, refused_not-IsOpen b o ok)) in
        let w' : IsOrderly b' = record { bids = w.bids; asks = w.asks; uncrossed = w.uncrossed } in
        rw e (settle_rest-IsOrderly b' o' (match_taker b' o') t (match_taker-IsOrderly b' o' w'))
  ]
