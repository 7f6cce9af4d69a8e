-- ===== src/Manager/Risk/Checks.antt =====
-- src/app/manager/risk_manager.cpp: the checks together, and the operations that follow them.
use fix4_0_demo.Prelude.{
  ◌≡◌, refl, sym, ◌∙◌, inl, inr, Bool, true, false, not, ◌&&◌, ◌||◌, Bool-cases, some,
  if◌then◌else◌, Text, Double, ℤ, pos, ◌-ℤ◌, ◌≤ℤ◌, &&_left, &&_right, ltb_ℤ, leb_ℤ, lookup,
  lookup-put_self, ltb_ℤ→le, leb_ℤ→le, int_laws,
}
use fix4_0_demo.Engine.Order.{Order, OrderSide, is_buy, is_limit, is_market}
use fix4_0_demo.Manager.Accounts.{Account, AccountManager, freeze_margin}
use fix4_0_demo.Manager.Positions.{Position, close_side, close_long, close_short}
use fix4_0_demo.Manager.Risk.{
  Instrument, MarketDataSnapshot, OffsetFlag, CheckResult, RejectReason, success, failure, and_then,
  when, closable, calculate_required_margin, check_margin, check_price, check_position,
  check_counter_party, check_order, is_open, is_close, is_price_valid, has_limits, has_ask, has_bid,
}

and_then-passed : (r next : CheckResult) → (and_then r next).passed ≡ (r.passed && next.passed)
and_then-passed r next = elim (Bool-cases r.passed) [ inl e ↦ rw e refl | inr e ↦ rw e refl ]

not-true : (b : Bool) → not b ≡ true → b ≡ false
not-true true h = sym h
not-true false h = refl

close_side-closable :
    {W : Type 0} ⦃d : Double W⦄ (side : OrderSide) (volume : ℤ) (p : Position W)
    → volume ≤ℤ closable side p
    → closable side (close_side side volume p) ≡ closable side p -ℤ volume
unfolding close_long close_short
close_side-closable side volume p h = elim (Bool-cases (is_buy side)) [
  | inl b ↦ elim (Bool-cases (leb_ℤ (p.short_position -ℤ volume) (pos 0))) [
    | inl e ↦
        rw (b, e) (omega (int_laws, rw b at h, leb_ℤ→le (p.short_position -ℤ volume) (pos 0) e))
    | inr e ↦ rw (b, e) refl
  ]
  | inr b ↦ elim (Bool-cases (leb_ℤ (p.long_position -ℤ volume) (pos 0))) [
    | inl e ↦
        rw (b, e) (omega (int_laws, rw b at h, leb_ℤ→le (p.long_position -ℤ volume) (pos 0) e))
    | inr e ↦ rw (b, e) refl
  ]
]

when-passed :
    (condition : Bool) (r : CheckResult) → (when condition r).passed ≡ (not condition || r.passed)
when-passed true r = refl
when-passed false r = refl

failure_if :
    (bad : Bool) (reason : RejectReason)
    → (if bad then failure reason else success).passed ≡ not bad
failure_if true reason = refl
failure_if false reason = refl

module _ {W : Type 0} ⦃d : Double W⦄ (o : Order W) (i : Instrument W) where
  -- The price of a limit order, if the instrument has limits, lies within them.
  abbrev pub price_fits : Bool
  price_fits = is_market o.ord_type || not (has_limits i) || is_price_valid i o.price

  check_price-passed : (check_price o i).passed ≡ price_fits
  unfolding check_price
  check_price-passed = elim (Bool-cases (is_market o.ord_type)) [
    | inl e ↦ rw e refl
    | inr e ↦ elim (Bool-cases (has_limits i)) [
      | inr f ↦ rw (e, f) refl
      | inl f ↦ elim (Bool-cases (is_price_valid i o.price)) [
        | inl g ↦ rw (e, f, g) refl
        | inr g ↦ rw (e, f, g) refl
      ]
    ]
  ]

  abbrev pub has_counter_party : MarketDataSnapshot W → Bool
  has_counter_party s = is_limit o.ord_type || (if is_buy o.side then has_ask s else has_bid s)

  check_counter_party-passed :
      (s : MarketDataSnapshot W) → (check_counter_party o s).passed ≡ has_counter_party s
  unfolding check_counter_party
  check_counter_party-passed s = elim (Bool-cases (is_limit o.ord_type)) [
    | inl e ↦ rw e refl
    | inr e ↦ elim (Bool-cases (if is_buy o.side then has_ask s else has_bid s)) [
      | inl g ↦ rw (e, g) refl
      | inr g ↦ rw (e, g) refl
    ]
  ]

  check_margin-passed :
      (a : Account W)
      → (check_margin o a i).passed ≡ not (d.lt a.available (calculate_required_margin o i))
  unfolding check_margin
  check_margin-passed a =
      failure_if (d.lt a.available (calculate_required_margin o i)) RejectReason.insufficient_funds

  check_position-passed :
      (p : Position W) → (check_position o p).passed ≡ not (ltb_ℤ (closable o.side p) o.order_qty)
  unfolding check_position
  check_position-passed p =
      failure_if (ltb_ℤ (closable o.side p) o.order_qty) RejectReason.insufficient_position

  abbrev pub price_ok : Bool
  price_ok = not (is_limit o.ord_type) || price_fits

  abbrev pub funds_ok : Account W → OffsetFlag → Bool
  funds_ok a offset = not (is_open offset) || not (d.lt a.available (calculate_required_margin o i))

  abbrev pub position_ok : Position W → OffsetFlag → Bool
  position_ok p offset = not (is_close offset) || not (ltb_ℤ (closable o.side p) o.order_qty)

  abbrev pub counter_party_ok : MarketDataSnapshot W → Bool
  counter_party_ok s = not (is_market o.ord_type) || has_counter_party s

  -- An order passes the checks exactly when each check that applies to it does: a limit order is
  -- priced within the limits of the instrument, an order that opens is covered by the available
  -- funds, one that closes by the position, and a market order finds someone on the other side.
  pub check_order-passed :
      (a : Account W) (p : Position W) (s : MarketDataSnapshot W) (offset : OffsetFlag)
      → (check_order o a p i s offset).passed ≡ (
          price_ok && (funds_ok a offset && (position_ok p offset && (counter_party_ok s && true))))
  unfolding check_order
  check_order-passed a p s offset = simp (
    and_then-passed,
    when-passed,
    check_price-passed,
    check_margin-passed a,
    check_position-passed p,
    check_counter_party-passed s,
  )

module _ {W : Type 0} ⦃d : Double W⦄ (o : Order W) (a : Account W) (p : Position W)
    (i : Instrument W) (s : MarketDataSnapshot W) where
  -- An order that opens a position and passes the checks against an account that the account
  -- manager knows can have its margin frozen there, and the manager then holds the account with
  -- that much less available and more frozen.
  pub check_order-freezes :
      (m : AccountManager W) (id : Text)
      → lookup id m.accounts ≡ some a
      → (check_order o a p i s OffsetFlag.open_position).passed ≡ true
      → let margin = calculate_required_margin o i in
        let r = freeze_margin m id margin in
        (r.1 ≡ true)
        × (lookup id r.0.accounts
            ≡ some (record a {
              available = d.sub a.available margin;
              frozen_margin = d.add a.frozen_margin margin;
            }))
  unfolding freeze_margin
  check_order-freezes m id e h =
      let whole = sym (check_order-passed o i a p s OffsetFlag.open_position) ∙ h in
      let funds = not-true (d.lt a.available (calculate_required_margin o i)) (
        &&_left (funds_ok o i a OffsetFlag.open_position)
          (position_ok o i p OffsetFlag.open_position && (counter_party_ok o i s && true))
          (&&_right (price_ok o i) _ whole)) in
      rw (e, freeze_margin, funds) (refl, lookup-put_self id _ m.accounts)

  -- An order that closes a position and passes the checks takes exactly its quantity off the side
  -- that it closes.
  pub check_order-closes :
      (check_order o a p i s OffsetFlag.close_position).passed ≡ true
      → pos 0 ≤ℤ o.order_qty
      → closable o.side (close_side o.side o.order_qty p) ≡ closable o.side p -ℤ o.order_qty
  check_order-closes h q =
      let whole = sym (check_order-passed o i a p s OffsetFlag.close_position) ∙ h in
      let enough = not-true (ltb_ℤ (closable o.side p) o.order_qty) (
        &&_left (position_ok o i p OffsetFlag.close_position) (counter_party_ok o i s && true) (
          &&_right (funds_ok o i a OffsetFlag.close_position) _
            (&&_right (price_ok o i) _ whole))) in
      close_side-closable o.side o.order_qty p (ltb_ℤ→le (closable o.side p) o.order_qty enough)
