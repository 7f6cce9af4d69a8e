-- ===== src/Simulation/Netting.antt =====
-- src/app/simulation_app.cpp: what a fill does to the volumes of a position.
use fix4_0_demo.Prelude.{
  false, ◌≡◌, refl, sym, ◌∙◌, ap, Option-cases, inl, inr, by_test_of, by_option, Option, none, some,
  if◌then◌else◌, Text, ℤ, pos, ltb_ℤ, leb_ℤ, ◌+ℤ◌, ◌-ℤ◌, ◌≤ℤ◌, ◌<ℤ◌, min_ℤ, int_laws, int_eq,
  ltb_ℤ→lt, ltb_ℤ→le, leb_ℤ→le, Double, lookup, lookup-put_self, arith,
}
use fix4_0_demo.Engine.Order.{OrderSide, is_buy}
use fix4_0_demo.Engine.Events.{ExecutionReport}
use fix4_0_demo.Manager.Positions.{
  Position, PositionManager, make_key, get_position, new_position, open_side, close_side,
  close_long, close_short, open_position, close_position,
}
use fix4_0_demo.Manager.Risk.{Instrument, calculate_margin}
use fix4_0_demo.Simulation.{SimulationApp}
use fix4_0_demo.Simulation.Fills.{
  close_qty, position_or_new, take_frozen, book_open, book_close, book_if, book_fill,
}

-- A bought quantity counts up, a sold one down.
abbrev pub signed : OrderSide → ℤ → ℤ
signed OrderSide.buy qty = qty
signed OrderSide.sell qty = pos 0 -ℤ qty

module _ {W : Type 0} where
  abbrev pub net : Position W → ℤ
  net p = p.long_position -ℤ p.short_position

  close_qty_bounds :
      (side : OrderSide) (shares : ℤ) (p : Position W)
      → pos 0 ≤ℤ shares
      → (pos 0 ≤ℤ close_qty side shares p) × (close_qty side shares p ≤ℤ shares)
  unfolding close_qty min_ℤ
  close_qty_bounds OrderSide.buy shares p h = ground arith
  close_qty_bounds OrderSide.sell shares p h = ground arith

module _ {W : Type 0} ⦃d : Double W⦄ where
  net-open_side :
      (side : OrderSide) (qty : ℤ) (price margin : W) (p : Position W)
      → net (open_side side qty price margin p) ≡ net p +ℤ signed side qty
  unfolding open_side
  net-open_side OrderSide.buy qty price margin p = omega int_laws
  net-open_side OrderSide.sell qty price margin p = omega int_laws

  net-close_short :
      (qty : ℤ) (p : Position W) → qty ≤ℤ p.short_position → net (close_short qty p) ≡ net p +ℤ qty
  unfolding close_short
  net-close_short qty p h =
      by_test_of (λ (x : Position W). net x ≡ net p +ℤ qty)
        (leb_ℤ (p.short_position -ℤ qty) (pos 0))
        (λ e. omega (int_laws, leb_ℤ→le (p.short_position -ℤ qty) (pos 0) e)) (λ e. omega int_laws)

  net-close_long :
      (qty : ℤ) (p : Position W)
      → qty ≤ℤ p.long_position
      → net (close_long qty p) ≡ net p +ℤ (pos 0 -ℤ qty)
  unfolding close_long
  net-close_long qty p h =
      by_test_of (λ (x : Position W). net x ≡ net p +ℤ (pos 0 -ℤ qty))
        (leb_ℤ (p.long_position -ℤ qty) (pos 0))
        (λ e. omega (int_laws, leb_ℤ→le (p.long_position -ℤ qty) (pos 0) e)) (λ e. omega int_laws)

  -- What closes is held.
  close_qty-held :
      (side : OrderSide) (shares : ℤ) (p : Position W)
      → pos 0 <ℤ close_qty side shares p
      → close_qty side shares p ≤ℤ (if is_buy side then p.short_position else p.long_position)
  unfolding close_qty min_ℤ
  close_qty-held OrderSide.buy shares p h = ground arith
  close_qty-held OrderSide.sell shares p h = ground arith

  net-close_side :
      (side : OrderSide) (shares : ℤ) (p : Position W)
      → pos 0 <ℤ close_qty side shares p
      → net (close_side side (close_qty side shares p) p)
        ≡ net p +ℤ signed side (close_qty side shares p)
  net-close_side OrderSide.buy shares p h =
      net-close_short (close_qty OrderSide.buy shares p) p (close_qty-held OrderSide.buy shares p h)
  net-close_side OrderSide.sell shares p h =
      net-close_long (close_qty OrderSide.sell shares p) p
        (close_qty-held OrderSide.sell shares p h)

  abbrev or_new : Text → Text → Option (Position W) → Position W
  or_new account_id symbol o = elim o [ none ↦ new_position account_id symbol | some p ↦ p ]

  opened :
      (m : PositionManager W) (account_id symbol : Text) (side : OrderSide) (qty : ℤ)
      (price margin : W)
      → or_new account_id symbol
          (get_position (open_position m account_id symbol side qty price margin) account_id symbol)
        ≡ open_side side qty price margin
            (or_new account_id symbol (get_position m account_id symbol))
  unfolding open_position
  opened m account_id symbol side qty price margin =
      let key = make_key account_id symbol in
      elim (Option-cases (lookup key m.positions)) [
        | inl e ↦
            rw (e, open_position)
              (ap (or_new account_id symbol) (lookup-put_self key _ m.positions))
        | inr (p, e) ↦
            rw (e, open_position)
              (ap (or_new account_id symbol) (lookup-put_self key _ m.positions))
      ]

-- A new position has nothing to close.
close_qty-new :
    (W : Type 0) ⦃d : Double W⦄ (side : OrderSide) (shares : ℤ) (account_id symbol : Text)
    → close_qty {W = W} side shares (new_position account_id symbol) ≡ pos 0
unfolding close_qty new_position
close_qty-new W OrderSide.buy shares account_id symbol = refl
close_qty-new W OrderSide.sell shares account_id symbol = refl

add_signed_zero : (side : OrderSide) (n qty : ℤ) → qty ≡ pos 0 → n ≡ n +ℤ signed side qty
add_signed_zero OrderSide.buy n qty h = omega (int_laws, int_eq h)
add_signed_zero OrderSide.sell n qty h = omega (int_laws, int_eq h)

add_signed-signed :
    (side : OrderSide) (n a b : ℤ)
    → (n +ℤ signed side a) +ℤ signed side (b -ℤ a) ≡ n +ℤ signed side b
add_signed-signed OrderSide.buy n a b = omega int_laws
add_signed-signed OrderSide.sell n a b = omega int_laws

zero_of_bounds : (qty : ℤ) → pos 0 ≤ℤ qty → ltb_ℤ (pos 0) qty ≡ false → qty ≡ pos 0
zero_of_bounds qty h e = omega (int_laws, ltb_ℤ→le (pos 0) qty e)

module _ {W T : Type 0} ⦃d : Double W⦄ (account_id : Text) (r : ExecutionReport W)
    (i : Instrument W) where
  positions-take_frozen :
      (id : Text) (qty : ℤ) (app : SimulationApp W T)
      → (take_frozen id qty app).1.positions ≡ app.positions
  unfolding take_frozen
  positions-take_frozen id qty app =
      by_option (λ (x : W × SimulationApp W T). x.1.positions ≡ app.positions)
        (lookup id app.order_margin_info_map) refl (λ info. refl)

  -- The position that the report is about.
  abbrev pub held_in : SimulationApp W T → Position W
  held_in app = position_or_new account_id r.symbol app

  held_in-book_close :
      (qty : ℤ) (app : SimulationApp W T) (p : Position W)
      → get_position app.positions account_id r.symbol ≡ some p
      → held_in (book_close account_id r i qty app) ≡ close_side r.side qty p
  unfolding book_close close_position
  held_in-book_close qty app p h =
      rw (h, close_position)
        (ap (or_new account_id r.symbol)
          (lookup-put_self (make_key account_id r.symbol) _ app.positions.positions))

  held_in-book_open :
      (qty : ℤ) (app : SimulationApp W T)
      → held_in (book_open account_id r i qty app)
        ≡ open_side r.side qty r.last_px (calculate_margin i r.last_px qty) (held_in app)
  unfolding book_open
  held_in-book_open qty app =
      opened (take_frozen r.cl_ord_id qty app).1.positions account_id r.symbol r.side qty r.last_px
        (calculate_margin i r.last_px qty)
      ∙ ap
          (λ m.
            open_side r.side qty r.last_px (calculate_margin i r.last_px qty)
              (or_new account_id r.symbol (get_position m account_id r.symbol)))
          (positions-take_frozen r.cl_ord_id qty app)

  net-book_close :
      (app : SimulationApp W T)
      → pos 0 ≤ℤ r.last_shares
      → let closed = close_qty r.side r.last_shares (held_in app) in
        net (held_in (book_if (book_close account_id r i) closed app))
        ≡ net (held_in app) +ℤ signed r.side closed
  net-book_close app h =
      let side = r.side in
      let p = held_in app in
      let closed = close_qty side r.last_shares p in
      let N : SimulationApp W T → Type 0 = λ x. net (held_in x) ≡ net p +ℤ signed side closed in
      by_test_of N (ltb_ℤ (pos 0) closed)
        (λ more. elim (Option-cases (get_position app.positions account_id r.symbol)) [
          | inl e ↦
              let held : p ≡ new_position account_id r.symbol = ap (or_new account_id r.symbol) e in
              let nothing =
                ap (close_qty side r.last_shares) held
                ∙ close_qty-new W side r.last_shares account_id r.symbol in
              absurd (omega (int_laws, ltb_ℤ→lt (pos 0) closed more, int_eq nothing))
          | inr (q, e) ↦
              let held : p ≡ q = ap (or_new account_id r.symbol) e in
              ap net (held_in-book_close closed app q e ∙ ap (close_side side closed) (sym held))
              ∙ net-close_side side r.last_shares p (ltb_ℤ→lt (pos 0) closed more)
        ])
        (λ none_left.
          add_signed_zero side (net p) closed
            (zero_of_bounds closed (close_qty_bounds side r.last_shares p h).0 none_left))

  net-book_open :
      (qty : ℤ) (app : SimulationApp W T)
      → pos 0 ≤ℤ qty
      → net (held_in (book_if (book_open account_id r i) qty app))
        ≡ net (held_in app) +ℤ signed r.side qty
  net-book_open qty app h =
      let p = held_in app in
      by_test_of (λ (x : SimulationApp W T). net (held_in x) ≡ net p +ℤ signed r.side qty)
        (ltb_ℤ (pos 0) qty)
        (λ _. ap net (held_in-book_open qty app) ∙ net-open_side r.side qty _ _ p)
        (λ e. add_signed_zero r.side (net p) qty (zero_of_bounds qty h e))

  -- A fill of a quantity that is not negative moves the net volume of the account's position in the
  -- instrument by that quantity, up for a buyer and down for a seller, however it is split into a
  -- part that closes and a part that opens.
  pub net-book_fill :
      (app : SimulationApp W T)
      → pos 0 ≤ℤ r.last_shares
      → net (held_in (book_fill account_id r i app))
        ≡ net (held_in app) +ℤ signed r.side r.last_shares
  unfolding book_fill
  net-book_fill app h =
      let closed = close_qty r.side r.last_shares (held_in app) in
      let bounds = close_qty_bounds r.side r.last_shares (held_in app) h in
      net-book_open (r.last_shares -ℤ closed) (book_if (book_close account_id r i) closed app)
        (omega (int_laws, bounds.1))
      ∙ ap (λ n. n +ℤ signed r.side (r.last_shares -ℤ closed)) (net-book_close app h)
      ∙ add_signed-signed r.side (net (held_in app)) closed r.last_shares
