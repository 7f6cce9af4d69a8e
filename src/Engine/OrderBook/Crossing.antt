-- ===== src/Engine/OrderBook/Crossing.antt =====
-- src/app/engine/order_book.cpp: the prices of one side of a book, under matching and adding.
use fix4_0_demo.Prelude.{
  ◌≡◌, inl, inr, true, not, ◌&&◌, Bool-cases, [], ◌∷◌, Text, Double, IsOrdered, All, is_empty,
}
use fix4_0_demo.Engine.Order.{Order, OrderSide}
use fix4_0_demo.Engine.OrderBook.{Levels, Matching, match_orders, match_levels, is_pos, stops_at}
use fix4_0_demo.Engine.OrderBook.Operations.{before, insert_level}

-- What holds of every price at which a side has a level.
abbrev pub AllPrices : {W : Type 0} → (W → Type 0) → Levels W → Type 0
AllPrices P levels = All (λ e. P e.0) levels

module _ {W : Type 0} ⦃d : Double W⦄ where
  -- Each price stands before the ones behind it.
  abbrev pub IsSorted : OrderSide → Levels W → Type 0
  IsSorted side [] = Unit
  IsSorted side ((key, level) ∷ levels) =
      AllPrices (λ k. before side key k ≡ true) levels × IsSorted side levels

  -- Matching only takes levels away.
  pub match_levels-AllPrices :
      (P : W → Type 0) (symbol : Text) (levels : Levels W) (m : Matching W)
      → AllPrices P levels
      → AllPrices P (match_levels symbol levels m).0
  unfolding match_levels
  match_levels-AllPrices P symbol [] m hs = tt
  match_levels-AllPrices P symbol ((key, level) ∷ levels) m (h, hs) =
      let rest =
        match_levels-AllPrices P symbol levels
          (match_orders symbol level.orders level.total_qty m).2 hs in
      elim (Bool-cases (is_pos m.taker.leaves_qty && not (stops_at m.taker level.price))) [
        | inr e ↦ rw e (h, hs)
        | inl e ↦
            elim (Bool-cases (is_empty (match_orders symbol level.orders level.total_qty m).0)) [
              | inl g ↦ rw (e, g) rest
              | inr g ↦ rw (e, g) (h, rest)
            ]
      ]

  pub match_levels-IsSorted :
      (side : OrderSide) (symbol : Text) (levels : Levels W) (m : Matching W)
      → IsSorted side levels
      → IsSorted side (match_levels symbol levels m).0
  unfolding match_levels
  match_levels-IsSorted side symbol [] m hs = tt
  match_levels-IsSorted side symbol ((key, level) ∷ levels) m (h, hs) =
      let m' = (match_orders symbol level.orders level.total_qty m).2 in
      let rest = match_levels-IsSorted side symbol levels m' hs in
      let behind = match_levels-AllPrices (λ k. before side key k ≡ true) symbol levels m' h in
      elim (Bool-cases (is_pos m.taker.leaves_qty && not (stops_at m.taker level.price))) [
        | inr e ↦ rw e (h, hs)
        | inl e ↦
            elim (Bool-cases (is_empty (match_orders symbol level.orders level.total_qty m).0)) [
              | inl g ↦ rw (e, g) rest
              | inr g ↦ rw (e, g) (behind, rest)
            ]
      ]

  pub insert_level-AllPrices :
      (P : W → Type 0) (side : OrderSide) (o : Order W) (levels : Levels W)
      → P o.price
      → AllPrices P levels
      → AllPrices P (insert_level side o levels)
  unfolding insert_level
  insert_level-AllPrices P side o [] h hs = (h, tt)
  insert_level-AllPrices P side o ((key, level) ∷ levels) h (hk, hs) =
      elim (Bool-cases (before side o.price key)) [
        | inl e ↦ rw e (h, (hk, hs))
        | inr e ↦ elim (Bool-cases (before side key o.price)) [
          | inl f ↦ rw (e, f) (hk, insert_level-AllPrices P side o levels h hs)
          | inr f ↦ rw (e, f) (hk, hs)
        ]
      ]

module _ {W : Type 0} ⦃d : Double W⦄ (laws : IsOrdered W) where
  before_trans :
      (side : OrderSide) (x y z : W)
      → before side x y ≡ true
      → before side y z ≡ true
      → before side x z ≡ true
  before_trans OrderSide.buy x y z h k = laws.lt_trans z y x k h
  before_trans OrderSide.sell x y z h k = laws.lt_trans x y z h k

  pub AllPrices-before :
      (side : OrderSide) (x y : W) (levels : Levels W)
      → before side x y ≡ true
      → AllPrices (λ k. before side y k ≡ true) levels
      → AllPrices (λ k. before side x k ≡ true) levels
  AllPrices-before side x y [] h ks = tt
  AllPrices-before side x y ((key, level) ∷ levels) h (k, ks) =
      (before_trans side x y key h k, AllPrices-before side x y levels h ks)

  -- A new order keeps a side sorted.
  pub insert_level-IsSorted :
      (side : OrderSide) (o : Order W) (levels : Levels W)
      → IsSorted side levels
      → IsSorted side (insert_level side o levels)
  unfolding insert_level
  insert_level-IsSorted side o [] hs = (tt, tt)
  insert_level-IsSorted side o ((key, level) ∷ levels) (h, hs) =
      elim (Bool-cases (before side o.price key)) [
        | inl e ↦ rw e ((e, AllPrices-before side o.price key levels e h), (h, hs))
        | inr e ↦ elim (Bool-cases (before side key o.price)) [
          | inl f ↦
              rw (e, f)
                (
                  insert_level-AllPrices (λ k. before side key k ≡ true) side o levels f h,
                  insert_level-IsSorted side o levels hs,
                )
          | inr f ↦ rw (e, f) (h, hs)
        ]
      ]
