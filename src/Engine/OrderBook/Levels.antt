-- ===== src/Engine/OrderBook/Levels.antt =====
-- src/app/engine/order_book.cpp: the loop over the levels of a side, its quantities, and where it ends.
use mathlib.Core.Bool.{true≢false, false≢true}
use fix4_0_demo.Prelude.{
  ◌≡◌, refl, sym, ◌∙◌, ap, ◌⊎◌, inl, inr, true, false, Bool-cases, List, [], ◌∷◌, ℤ, pos, ◌+ℤ◌,
  ◌≤ℤ◌, Text, Double, int_laws, All, int_eq, ltb_ℤ→le, is_empty,
}
use fix4_0_demo.Engine.Order.{Order}
use fix4_0_demo.Engine.OrderBook.{
  PriceLevel, Levels, Matching, match_orders, match_levels, is_pos, stops_at,
}
use fix4_0_demo.Engine.OrderBook.Terms.{SameTerms}
use fix4_0_demo.Engine.OrderBook.Conservation.{
  sum_leaves, IsOpen, Keeps, Keeps-refl, Keeps-trans, LevelMatched, match_orders-LevelMatched,
}

module _ {W : Type 0} where
  abbrev pub sum_levels : Levels W → ℤ
  sum_levels [] = pos 0
  sum_levels ((key, level) ∷ levels) = level.total_qty +ℤ sum_levels levels

  -- A level stands under its own price, is never empty, and knows its total.
  pub record IsValidLevel (entry : W × PriceLevel W) : Type 0 where
    pub key_price : entry.0 ≡ entry.1.price
    pub occupied : is_empty entry.1.orders ≡ false
    pub open_orders : All IsOpen entry.1.orders
    pub total : entry.1.total_qty ≡ sum_leaves entry.1.orders

  abbrev pub AreValid : Levels W → Type 0
  AreValid levels = All IsValidLevel levels

pub sum_leaves-is_empty :
    {W : Type 0} (os : List (Order W)) → is_empty os ≡ true → sum_leaves os ≡ pos 0
sum_leaves-is_empty [] e = refl
sum_leaves-is_empty (o ∷ os) e = absurd (false≢true e)

-- A level that keeps orders was not emptied by the taker.
pub ends_occupied :
    {W : Type 0} (q : ℤ) (os : List (Order W))
    → is_empty os ≡ false
    → (q ≡ pos 0) ⊎ (os ≡ [])
    → q ≡ pos 0
ends_occupied {W = W} q os e (inl h) = h
ends_occupied {W = W} q os e (inr h) =
    absurd (true≢false (ap (λ (x : List (Order W)). is_empty x) (sym h) ∙ e))

module _ {W : Type 0} ⦃d : Double W⦄ where
  -- The first level left, if any, is too dear for the taker.
  abbrev pub HeadStops : Order W → Levels W → Type 0
  HeadStops taker [] = Unit
  HeadStops taker ((key, level) ∷ levels) = stops_at taker key ≡ true

  pub stops_at-SameTerms : (o o' : Order W) (p : W) → SameTerms o o' → stops_at o' p ≡ stops_at o p
  stops_at-SameTerms o o' p s = rw (s.ord_type, s.side, s.price)

  pub HeadStops-SameTerms :
      (o o' : Order W) (levels : Levels W)
      → SameTerms o o'
      → HeadStops o levels
      → HeadStops o' levels
  HeadStops-SameTerms o o' [] s e = tt
  HeadStops-SameTerms o o' ((key, level) ∷ levels) s e = stops_at-SameTerms o o' key s ∙ e

module _ {W : Type 0} ⦃d : Double W⦄ (symbol : Text) where
  pub record LevelsMatched (levels : Levels W) (m : Matching W) (rest : Levels W) (m' : Matching W)
      : Type 0 where
    pub keeps : Keeps symbol m m'
    pub moved : sum_levels rest +ℤ m.taker.leaves_qty ≡ sum_levels levels +ℤ m'.taker.leaves_qty
    pub valid : AreValid rest
    pub ends : (m'.taker.leaves_qty ≡ pos 0) ⊎ HeadStops m'.taker rest

  -- The loop stops at once.
  LevelsMatched-refl :
      (levels : Levels W) (m : Matching W)
      → pos 0 ≤ℤ m.taker.leaves_qty
      → AreValid levels
      → (m.taker.leaves_qty ≡ pos 0) ⊎ HeadStops m.taker levels
      → LevelsMatched levels m levels m
  LevelsMatched-refl levels m h vs e = record {
    keeps = Keeps-refl symbol m h;
    moved = refl;
    valid = vs;
    ends = e;
  }

  module _ (key : W) (level : PriceLevel W) (levels : Levels W) (m : Matching W)
      (v : IsValidLevel (key, level))
      (one : let r = match_orders symbol level.orders level.total_qty m in
        LevelMatched symbol level.orders level.total_qty m r.0 r.1 r.2)
      (rest : let m' = (match_orders symbol level.orders level.total_qty m).2 in
        let r = match_levels symbol levels m' in LevelsMatched levels m' r.0 r.1) where
    LevelsMatched-emptied :
        let r = match_orders symbol level.orders level.total_qty m in
        is_empty r.0 ≡ true
        → let r' = match_levels symbol levels r.2 in
          LevelsMatched ((key, level) ∷ levels) m r'.0 r'.1
    LevelsMatched-emptied e =
        let none_left = sum_leaves-is_empty _ e in
        record {
          keeps = Keeps-trans symbol one.keeps rest.keeps;
          moved =
              omega
                (int_laws, int_eq v.total, int_eq one.moved, int_eq none_left, int_eq rest.moved);
          valid = rest.valid;
          ends = rest.ends;
        }

    LevelsMatched-left :
        let r = match_orders symbol level.orders level.total_qty m in
        is_empty r.0 ≡ false
        → let r' = match_levels symbol levels r.2 in
          let level' : PriceLevel W = record level { orders = r.0; total_qty = r.1 } in
          LevelsMatched ((key, level) ∷ levels) m ((key, level') ∷ r'.0) r'.1
    LevelsMatched-left e =
        let out = ends_occupied _ _ e one.ends in
        record {
          keeps = Keeps-trans symbol one.keeps rest.keeps;
          moved = omega (int_laws, int_eq one.total_moved, int_eq rest.moved);
          valid = (
            record {
              key_price = v.key_price;
              occupied = e;
              open_orders = one.open_kept;
              total = omega (int_laws, int_eq v.total, int_eq one.moved, int_eq one.total_moved);
            },
            rest.valid,
          );
          ends = inl (omega (int_laws, int_eq out, rest.keeps.falls, rest.keeps.nonneg));
        }

  pub match_levels-LevelsMatched :
      (levels : Levels W) (m : Matching W)
      → pos 0 ≤ℤ m.taker.leaves_qty
      → AreValid levels
      → let r = match_levels symbol levels m in LevelsMatched levels m r.0 r.1
  unfolding match_levels
  match_levels-LevelsMatched [] m h vs = LevelsMatched-refl [] m h vs (inr tt)
  match_levels-LevelsMatched ((key, level) ∷ levels) m h (v, vs) =
      let one = match_orders-LevelMatched symbol level.orders level.total_qty m h v.open_orders in
      let rest = match_levels-LevelsMatched levels _ one.keeps.nonneg vs in
      elim (Bool-cases (is_pos m.taker.leaves_qty)) [
        | inr e ↦ rw e (
            LevelsMatched-refl _ m h (v, vs)
              (inl (omega (int_laws, ltb_ℤ→le (pos 0) m.taker.leaves_qty e))))
        | inl e ↦ elim (Bool-cases (stops_at m.taker level.price)) [
          | inl s ↦
              rw (e, s)
                (LevelsMatched-refl _ m h (v, vs)
                  (inr (ap (λ (p : W). stops_at m.taker p) v.key_price ∙ s)))
          | inr s ↦
              elim (Bool-cases (is_empty (match_orders symbol level.orders level.total_qty m).0)) [
                | inl g ↦ rw (e, s, g) (LevelsMatched-emptied key level levels m v one rest g)
                | inr g ↦ rw (e, s, g) (LevelsMatched-left key level levels m v one rest g)
              ]
        ]
      ]
