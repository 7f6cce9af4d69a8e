-- ===== src/Engine/OrderBook/Fok.antt =====
-- `OrderBook::calculateMatchableQty` beside the matching loops.
use fix4_0_demo.Prelude.{
  ◌≡◌, refl, sym, ◌∙◌, ap, ◌⊎◌, inl, inr, Bool, true, false, Bool-cases, List, [], ◌∷◌,
  if◌then◌else◌, ℤ, pos, ◌+ℤ◌, ◌-ℤ◌, ◌≤ℤ◌, ltb_ℤ, leb_ℤ, Text, Double, int_laws, int_eq, ltb_ℤ→lt,
  ltb_ℤ→le, leb_ℤ→le, is_empty,
}
use fix4_0_demo.Engine.Order.{Order}
use fix4_0_demo.Engine.OrderBook.{
  PriceLevel, Levels, Matching, match_orders, match_levels, is_pos, stops_at,
}
use fix4_0_demo.Engine.OrderBook.Operations.{matchable}
use fix4_0_demo.Engine.OrderBook.Terms.{SameTerms, SameTerms-trans}
use fix4_0_demo.Engine.OrderBook.Conservation.{sum_leaves, LevelMatched, match_orders-LevelMatched}
use fix4_0_demo.Engine.OrderBook.Levels.{AreValid, match_levels-LevelsMatched, stops_at-SameTerms}

module _ {W : Type 0} ⦃d : Double W⦄ (symbol : Text) where
  -- After one level the taker wants no more than what is still missing.
  level_rest :
      (level : PriceLevel W) (m : Matching W) (q : ℤ)
      → level.total_qty ≡ sum_leaves level.orders
      → (let r = match_orders symbol level.orders level.total_qty m in
          LevelMatched symbol level.orders level.total_qty m r.0 r.1 r.2)
      → m.taker.leaves_qty ≤ℤ q
      → let m' = (match_orders symbol level.orders level.total_qty m).2 in
        (m'.taker.leaves_qty ≡ pos 0) ⊎ (m'.taker.leaves_qty ≤ℤ q -ℤ level.total_qty)
  level_rest level m q total one h = elim one.ends [
    | inl e ↦ inl e
    | inr e ↦ inr (
        omega (
          int_laws,
          int_eq total,
          int_eq one.moved,
          int_eq (ap (λ (os : List (Order W)). sum_leaves os) e),
        ))
  ]

  -- Past a level that the taker does not stop at, matching goes on with the next ones.
  match_levels-goes_on :
      (key : W) (level : PriceLevel W) (levels : Levels W) (m : Matching W)
      → is_pos m.taker.leaves_qty ≡ true
      → stops_at m.taker level.price ≡ false
      → let m' = (match_orders symbol level.orders level.total_qty m).2 in
        (match_levels symbol ((key, level) ∷ levels) m).1 ≡ (match_levels symbol levels m').1
  unfolding match_levels
  match_levels-goes_on key level levels m p s =
      elim (Bool-cases (is_empty (match_orders symbol level.orders level.total_qty m).0)) [
        | inl g ↦ rw (p, s, g) refl
        | inr g ↦ rw (p, s, g) refl
      ]

  -- What a promise of the whole quantity says of the first level and of those behind it.
  matchable-step :
      (o : Order W) (key : W) (level : PriceLevel W) (levels : Levels W) (sum : ℤ)
      → ltb_ℤ (matchable o ((key, level) ∷ levels) sum) o.order_qty ≡ false
      → (o.order_qty ≤ℤ sum)
        ⊎ ((stops_at o key ≡ false)
            × ((o.order_qty ≤ℤ sum +ℤ level.total_qty)
                ⊎ (ltb_ℤ (matchable o levels (sum +ℤ level.total_qty)) o.order_qty ≡ false)))
  unfolding matchable
  matchable-step o key level levels sum e =
      let rest = matchable o levels (sum +ℤ level.total_qty) in
      let short : ℤ → Bool = λ x. ltb_ℤ x o.order_qty in
      let whole : Bool → Bool → ℤ = λ s l. if s then sum else if l then o.order_qty else rest in
      elim (Bool-cases (stops_at o key)) [
        | inl s ↦ inl (
            ltb_ℤ→le sum o.order_qty (
              ap (λ (x : Bool). short (whole x (leb_ℤ o.order_qty (sum +ℤ level.total_qty))))
                (sym s)
              ∙ e))
        | inr s ↦ elim (Bool-cases (leb_ℤ o.order_qty (sum +ℤ level.total_qty))) [
          | inl l ↦ inr (s, inl (leb_ℤ→le o.order_qty (sum +ℤ level.total_qty) l))
          | inr l ↦ inr (
            s,
            inr (
                ap (λ (x : Bool). short (whole false x)) (sym l)
                ∙ ap (λ (x : Bool). short (whole x (leb_ℤ o.order_qty (sum +ℤ level.total_qty))))
                    (sym s)
                ∙ e),
          )
        ]
      ]

  -- The taker starts with no more than the order asked for is short of, after the sum so far.
  pub match_levels-fills :
      (o : Order W) (levels : Levels W) (sum : ℤ) (m : Matching W)
      → SameTerms o m.taker
      → pos 0 ≤ℤ m.taker.leaves_qty
      → m.taker.leaves_qty ≤ℤ o.order_qty -ℤ sum
      → AreValid levels
      → ltb_ℤ (matchable o levels sum) o.order_qty ≡ false
      → (match_levels symbol levels m).1.taker.leaves_qty ≡ pos 0
  unfolding match_levels matchable
  match_levels-fills o [] sum m s h le vs e = omega (int_laws, ltb_ℤ→le sum o.order_qty e)
  match_levels-fills o ((key, level) ∷ levels) sum m s h le (v, vs) e =
      let one = match_orders-LevelMatched symbol level.orders level.total_qty m h v.open_orders in
      let rest =
        match_levels-LevelsMatched symbol levels
          (match_orders symbol level.orders level.total_qty m).2 one.keeps.nonneg vs in
      let same = stops_at-SameTerms o m.taker level.price s in
      elim (Bool-cases (is_pos m.taker.leaves_qty)) [
        | inr p ↦ rw p (omega (int_laws, ltb_ℤ→le (pos 0) m.taker.leaves_qty p))
        | inl p ↦ elim (matchable-step o key level levels sum e) [
          | inl short ↦ absurd (omega (int_laws, ltb_ℤ→lt (pos 0) m.taker.leaves_qty p))
          | inr (go, more) ↦
              let on =
                match_levels-goes_on key level levels m p
                  (same ∙ ap (λ (x : W). stops_at o x) (sym v.key_price) ∙ go) in
              ap (λ (r : Matching W). r.taker.leaves_qty) on
              ∙ elim (level_rest level m (o.order_qty -ℤ sum) v.total one le) [
                | inl none_left ↦
                    omega (int_laws, int_eq none_left, rest.keeps.falls, rest.keeps.nonneg)
                | inr fewer ↦ elim more [
                  | inl enough ↦ omega (int_laws, rest.keeps.falls, rest.keeps.nonneg)
                  | inr promised ↦
                      match_levels-fills o levels (sum +ℤ level.total_qty) _
                        (SameTerms-trans s one.keeps.terms) one.keeps.nonneg (omega int_laws) vs
                        promised
                ]
              ]
        ]
      ]
