-- ===== src/Engine/OrderBook/Outcomes.antt =====
-- `OrderBook::addOrder` on every branch.
use fix4_0_demo.Prelude.{
  ◌≡◌, refl, sym, ◌∙◌, ap, subst, ◌⊎◌, inl, inr, Bool, true, false, ◌&&◌, Bool-cases, List, pos,
  ◌+ℤ◌, ltb_ℤ, Double, int_laws, int_eq, leb_ℤ→lt, ◌+◌, ||_left, ||_right,
}
use fix4_0_demo.Engine.Order.{Order, is_fok}
use fix4_0_demo.Engine.OrderBook.{OrderBook, Trade}
use fix4_0_demo.Engine.OrderBook.Operations.{
  Added, match_taker, is_refused, refused, settle_rest, add_order, calculate_matchable_qty,
  generate_order_id,
}
use fix4_0_demo.Engine.OrderBook.Terms.{SameTerms, SameTerms-trans}
use fix4_0_demo.Engine.OrderBook.Conservation.{sum_trades, IsOpen}
use fix4_0_demo.Engine.OrderBook.Adding.{
  IsValid, Handled, match_taker-TakerMatched, Settled, settle_rest-Settled, add_to_side-IsValid,
  SameTerms-status,
}

module _ {W : Type 0} ⦃d : Double W⦄ (b : OrderBook W) (o : Order W) where
  -- The order with its id, and the book with the id taken.
  abbrev pub numbered : Order W
  numbered = record o { order_id = generate_order_id b }

  abbrev pub next_book : OrderBook W
  next_book = record b { next_order_id = b.next_order_id + 1 }

  abbrev pub is_killed : Bool
  is_killed =
      is_fok o.time_in_force && ltb_ℤ (calculate_matchable_qty next_book numbered) o.order_qty

  pub add_order-cases :
      ((is_refused b o ≡ true) × (add_order b o ≡ refused b o))
      ⊎ ((is_killed ≡ true) × (add_order b o ≡ refused next_book numbered))
      ⊎ ((is_refused b o ≡ false)
          × (is_killed ≡ false)
          × (add_order b o ≡ settle_rest (match_taker next_book numbered)))
  unfolding add_order
  add_order-cases = elim (Bool-cases (is_refused b o)) [
    | inl e ↦ inl (e, rw e refl)
    | inr e ↦ inr (elim (Bool-cases is_killed) [
      | inl f ↦ inl (f, rw (e, f) refl)
      | inr f ↦ inr (e, f, rw (e, f) refl)
    ])
  ]

  -- An order that passes the checks has something to fill.
  pub refused_not-IsOpen : is_refused b o ≡ false → IsOpen o
  refused_not-IsOpen e =
      leb_ℤ→lt o.leaves_qty (pos 0)
        (||_right _ _ (||_left _ _ (||_left _ _ (||_left _ _ (||_left _ _ e)))))

  pub SameTerms-numbered : SameTerms o numbered
  SameTerms-numbered = record {
    cl_ord_id = refl;
    side = refl;
    ord_type = refl;
    time_in_force = refl;
    order_qty = refl;
    price = refl;
  }

  refused-Handled : (b' : OrderBook W) → Handled o (refused b' o)
  refused-Handled b' = record {
    terms = SameTerms-status o _;
    whole = refl;
    traded = omega int_laws;
  }

  killed-Handled : (b' : OrderBook W) → Handled o (refused b' numbered)
  killed-Handled b' = record {
    terms = SameTerms-trans SameTerms-numbered (SameTerms-status numbered _);
    whole = refl;
    traded = omega int_laws;
  }

  pub next_book-IsValid : IsValid b → IsValid next_book
  next_book-IsValid v = record { bids = v.bids; asks = v.asks }

  Settled-Handled : (a a' : Added W) → Handled numbered a → Settled a a' → Handled o a'
  Settled-Handled a a' h s = record {
    terms = SameTerms-trans SameTerms-numbered (SameTerms-trans h.terms s.terms);
    whole = omega (int_laws, int_eq s.cum_qty, int_eq s.leaves_qty, int_eq h.whole);
    traded =
        ap (λ (ts : List (Trade W)). sum_trades ts +ℤ a'.order.leaves_qty) s.trades
        ∙ omega (int_laws, int_eq s.leaves_qty, int_eq h.traded);
  }

  Settled-IsValid : (a a' : Added W) → IsValid a.book → Settled a a' → IsValid a'.book
  Settled-IsValid a a' v s = elim s.rests [
    | inl e ↦ subst (λ (x : OrderBook W). IsValid x) (sym e) v
    | inr (h, _, e) ↦
        subst (λ (x : OrderBook W). IsValid x) (sym e) (add_to_side-IsValid a.book a.order h v)
  ]

  -- On every branch, adding an order to a valid book keeps the order's terms and the sum of what is
  -- filled and left of it, and its quantity left before is what was traded and what is left after.
  pub add_order-Handled : IsValid b → Handled o (add_order b o)
  add_order-Handled v = elim add_order-cases [
    | inl (_, e) ↦ subst (λ (x : Added W). Handled o x) (sym e) (refused-Handled b)
    | inr (inl (_, e)) ↦ subst (λ (x : Added W). Handled o x) (sym e) (killed-Handled next_book)
    | inr (inr (ok, _, e)) ↦
        let done =
          match_taker-TakerMatched next_book numbered (next_book-IsValid v)
            (omega (int_laws, refused_not-IsOpen ok)) in
        subst (λ (x : Added W). Handled o x) (sym e)
          (Settled-Handled (match_taker next_book numbered) _ done.handled
            (settle_rest-Settled (match_taker next_book numbered)))
  ]

  -- Adding an order, whatever it is, keeps a valid book valid: each level is found under its own
  -- price, is not empty, has only orders with something left, and knows the sum of what they have left.
  pub add_order-IsValid : IsValid b → IsValid (add_order b o).book
  add_order-IsValid v = elim add_order-cases [
    | inl (_, e) ↦ subst (λ (x : Added W). IsValid x.book) (sym e) v
    | inr (inl (_, e)) ↦ subst (λ (x : Added W). IsValid x.book) (sym e) (next_book-IsValid v)
    | inr (inr (ok, _, e)) ↦
        let done =
          match_taker-TakerMatched next_book numbered (next_book-IsValid v)
            (omega (int_laws, refused_not-IsOpen ok)) in
        subst (λ (x : Added W). IsValid x.book) (sym e)
          (Settled-IsValid (match_taker next_book numbered) _ done.valid
            (settle_rest-Settled (match_taker next_book numbered)))
  ]
