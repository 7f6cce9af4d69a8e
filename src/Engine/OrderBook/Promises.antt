-- ===== src/Engine/OrderBook/Promises.antt =====
-- `OrderBook::addOrder`: the order types and the times in force.
use fix4_0_demo.Prelude.{
  ◌≡◌, refl, sym, ◌∙◌, ap, ◌⊎◌, inl, inr, Bool, true, false, ◌&&◌, Bool-cases, List, [], pos, ◌+ℤ◌,
  ◌≤ℤ◌, ltb_ℤ, Double, int_laws, int_eq,
}
use mathlib.Core.Bool.{true≢false}
use fix4_0_demo.Engine.Order.{Order, OrderStatus, is_buy, is_fok}
use fix4_0_demo.Engine.OrderBook.{OrderBook, Trade}
use fix4_0_demo.Engine.OrderBook.Operations.{
  Added, match_taker, matching_of, other_side, add_to_side, is_refused, settle_rest, add_order,
  calculate_matchable_qty,
}
use fix4_0_demo.Engine.OrderBook.Terms.{SameTerms, SameTerms-refl, SameTerms-trans, SameTerms-sym}
use fix4_0_demo.Engine.OrderBook.Conservation.{sum_trades}
use fix4_0_demo.Engine.OrderBook.Levels.{sum_levels, HeadStops, HeadStops-SameTerms}
use fix4_0_demo.Engine.OrderBook.Fok.{match_levels-fills}
use fix4_0_demo.Engine.OrderBook.Adding.{
  IsValid, own_side, never_rests, TakerMatched, match_taker-TakerMatched, settle_rest-Settled,
  other_side-AreValid,
}
use fix4_0_demo.Engine.OrderBook.Outcomes.{
  add_order-cases, refused_not-IsOpen, next_book-IsValid, numbered, next_book, is_killed,
  SameTerms-numbered,
}

-- Neither side of the book changes.
pub record SidesKept {W : Type 0} (b b' : OrderBook W) : Type 0 where
  pub bids : b'.bids ≡ b.bids
  pub asks : b'.asks ≡ b.asks

never_rests-SameTerms :
    {W : Type 0} {o o' : Order W} → SameTerms o o' → never_rests o ≡ never_rests o'
never_rests-SameTerms s = rw (s.time_in_force, s.ord_type) refl

add_to_side-other :
    {W : Type 0} ⦃d : Double W⦄ (b : OrderBook W) (o : Order W)
    → other_side (add_to_side b o) o.side ≡ other_side b o.side
unfolding add_to_side
add_to_side-other b o = elim (Bool-cases (is_buy o.side)) [ inl e ↦ rw e refl | inr e ↦ rw e refl ]

module _ {W : Type 0} ⦃d : Double W⦄ (b : OrderBook W) (o : Order W) where
  taken :
      IsValid b
      → is_refused b o ≡ false
      → TakerMatched (next_book b o) (numbered b o) (match_taker (next_book b o) (numbered b o))
  taken v ok =
      match_taker-TakerMatched (next_book b o) (numbered b o) (next_book-IsValid b o v)
        (omega (int_laws, refused_not-IsOpen b o ok))

  -- The check before a fill or kill order leaves nothing to chance: matching then fills it.
  not_killed-fills :
      IsValid b
      → o.leaves_qty ≤ℤ o.order_qty
      → is_fok o.time_in_force ≡ true
      → is_refused b o ≡ false
      → is_killed b o ≡ false
      → (match_taker (next_book b o) (numbered b o)).order.leaves_qty ≡ pos 0
  unfolding match_taker
  not_killed-fills v le fok ok kept =
      match_levels-fills b.symbol (numbered b o) (other_side b o.side) (pos 0)
        (matching_of (next_book b o) (numbered b o)) (SameTerms-refl (numbered b o))
        (omega (int_laws, refused_not-IsOpen b o ok)) (omega int_laws)
        (other_side-AreValid b o.side v)
        (ap
            (λ (x : Bool).
              x && ltb_ℤ (calculate_matchable_qty (next_book b o) (numbered b o)) o.order_qty)
            (sym fok)
          ∙ kept)

  -- A fill or kill order that is given to a valid book, with no more left than it asked for, is
  -- filled whole, or it is rejected with no trade and neither side of the book changed.
  pub add_order-fok :
      IsValid b
      → o.leaves_qty ≤ℤ o.order_qty
      → is_fok o.time_in_force ≡ true
      → let a = add_order b o in
        ((a.order.leaves_qty ≡ pos 0) × (sum_trades a.trades ≡ o.leaves_qty))
        ⊎ ((a.order.status ≡ OrderStatus.rejected) × (a.trades ≡ []) × SidesKept b a.book)
  add_order-fok v le fok = elim (add_order-cases b o) [
    | inl (_, e) ↦ rw e (inr (refl, refl, record { bids = refl; asks = refl }))
    | inr (inl (_, e)) ↦ rw e (inr (refl, refl, record { bids = refl; asks = refl }))
    | inr (inr (ok, kept, e)) ↦
        let a = match_taker (next_book b o) (numbered b o) in
        let filled = not_killed-fills v le fok ok kept in
        let s = settle_rest-Settled a in
        rw e (
          inl (
            s.leaves_qty ∙ filled,
            ap (λ (ts : List (Trade W)). sum_trades ts) s.trades
                ∙ omega (int_laws, int_eq filled, int_eq (taken v ok).handled.traded),
          ))
  ]

  -- In a valid book, an order that is fill or kill, immediate or cancel or at the market leaves its
  -- own side as it was, and takes exactly the traded quantity off the other side.
  pub add_order-never_rests :
      IsValid b
      → never_rests o ≡ true
      → let a = add_order b o in
        (own_side a.book o.side ≡ own_side b o.side)
        × (sum_levels (other_side a.book o.side) +ℤ sum_trades a.trades
            ≡ sum_levels (other_side b o.side))
  add_order-never_rests v never = elim (add_order-cases b o) [
    | inl (_, e) ↦ rw e (refl, omega int_laws)
    | inr (inl (_, e)) ↦ rw e (refl, omega int_laws)
    | inr (inr (ok, _, e)) ↦
        let a = match_taker (next_book b o) (numbered b o) in
        let t = taken v ok in
        let s = settle_rest-Settled a in
        rw e (elim s.rests [
          | inl kept ↦ rw (kept, s.trades) (t.own_kept, t.other_moved)
          | inr (_, rests, _) ↦
              absurd (true≢false (sym never ∙ never_rests-SameTerms t.handled.terms ∙ rests))
        ])
  ]

  settle_rest-other :
      (a : Added W)
      → a.order.side ≡ o.side
      → other_side (settle_rest a).book o.side ≡ other_side a.book o.side
  settle_rest-other a side = elim (settle_rest-Settled a).rests [
    | inl kept ↦ rw kept refl
    | inr (_, _, added) ↦ rw (added, sym side) (add_to_side-other a.book a.order)
  ]

  -- An order that a valid book takes, and does not kill, is filled, or the best level left on the
  -- other side, if there is one, is beyond its limit.
  pub add_order-takes_all :
      IsValid b
      → is_refused b o ≡ false
      → is_killed b o ≡ false
      → let a = add_order b o in
        (a.order.leaves_qty ≡ pos 0) ⊎ HeadStops o (other_side a.book o.side)
  unfolding add_order
  add_order-takes_all v ok kept =
      let a = match_taker (next_book b o) (numbered b o) in
      let t = taken v ok in
      let other = settle_rest-other a t.handled.terms.side in
      rw (ok, kept)
        (elim t.ends [
          | inl e ↦ inl ((settle_rest-Settled a).leaves_qty ∙ e)
          | inr e ↦ inr (
              rw other (
                HeadStops-SameTerms a.order o _
                  (SameTerms-sym (SameTerms-trans (SameTerms-numbered b o) t.handled.terms)) e))
        ])
