-- ===== src/Engine/OrderBook/Cancelling.antt =====
-- `OrderBook::cancelOrder`: what a cancelled order takes off the book.
use fix4_0_demo.Prelude.{
  ℕ, ◌-◌, Option, ◌++◌, true, false, ◌≡◌, refl, sym, ◌∙◌, ap, subst, ◌⊎◌, inl, inr, ◌||◌,
  Bool-cases, Option-cases, none, some, List, [], ◌∷◌, if◌then◌else◌, ℤ, ◌+ℤ◌, ◌-ℤ◌, Text, text_eq,
  is_empty, Double, int_laws, int_eq, All,
}
use fix4_0_demo.Engine.Order.{Order, OrderSide, OrderStatus, is_buy}
use fix4_0_demo.Engine.OrderBook.{OrderBook, PriceLevel, Levels, OrderLocation, find_index}
use fix4_0_demo.Engine.OrderBook.Operations.{before, with_status}
use fix4_0_demo.Engine.OrderBook.Removal.{
  find_in, erase_in, find_level, erase_from_level, side_levels, without_order, cancel_order,
  find_order,
}
use fix4_0_demo.Engine.OrderBook.Conservation.{sum_leaves, IsOpen}
use fix4_0_demo.Engine.OrderBook.Levels.{AreValid, IsValidLevel, sum_levels, sum_leaves-is_empty}
use fix4_0_demo.Engine.OrderBook.Adding.{IsValid}
use fix4_0_demo.Engine.OrderBook.Taking.{
  Taken, Taken-here, Taken-there, Taken-append, append-Taken, empty_append, resting,
  find_index-erase_index, find_index-erase_index_ne,
}
use mathlib.Core.Option.{none-ne-some, some-injective}

module _ {W : Type 0} where
  pub record Erased (id : Text) (os os' : List (Order W)) (o : Order W) : Type 0 where
    pub kept : All IsOpen os'
    pub taken : Taken os os' o
    pub sum : sum_leaves os' +ℤ o.leaves_qty ≡ sum_leaves os
    pub was_open : IsOpen o
    pub found : text_eq o.cl_ord_id id ≡ true

module _ {W : Type 0} ⦃d : Double W⦄ where
  erase_in-Erased :
      (id : Text) (o : Order W) (os : List (Order W))
      → All IsOpen os
      → find_in id os ≡ some o
      → Erased id os (erase_in id os) o
  unfolding find_in erase_in
  erase_in-Erased id o [] hs e = absurd (none-ne-some o e)
  erase_in-Erased id o (x ∷ os) (h, hs) e = elim (Bool-cases (text_eq x.cl_ord_id id)) [
    | inl f ↦
        let same : x ≡ o = some-injective x o (rw f at e) in
        rw f (
          subst (λ (y : Order W). Erased id (x ∷ os) os y) same
            (record {
              kept = hs;
              taken = Taken-here x os;
              sum = omega int_laws;
              was_open = h;
              found = f;
            }))
    | inr f ↦
        let rest = erase_in-Erased id o os hs (rw f at e) in
        rw f (record {
          kept = (h, rest.kept);
          taken = Taken-there x o os (erase_in id os) rest.taken;
          sum = omega (int_laws, int_eq rest.sum);
          was_open = rest.was_open;
          found = rest.found;
        })
  ]

  pub record LevelErased (id : Text) (levels levels' : Levels W) (o : Order W) : Type 0 where
    pub valid : AreValid levels'
    pub taken : Taken (resting levels) (resting levels') o
    pub sum : sum_levels levels' +ℤ o.leaves_qty ≡ sum_levels levels
    pub was_open : IsOpen o
    pub found : text_eq o.cl_ord_id id ≡ true

  -- The level that is found loses the order, or goes if it was the last one.
  level-LevelErased :
      (id : Text) (o : Order W) (key : W) (level : PriceLevel W) (levels : Levels W)
      → IsValidLevel (key, level)
      → AreValid levels
      → Erased id level.orders (erase_in id level.orders) o
      → let level' : PriceLevel W = record level {
        orders = erase_in id level.orders;
        total_qty = level.total_qty -ℤ o.leaves_qty;
      } in
        LevelErased id
          ((key, level) ∷ levels)
          (if is_empty (erase_in id level.orders) then levels else (key, level') ∷ levels)
          o
  level-LevelErased id o key level levels v vs g =
      elim (Bool-cases (is_empty (erase_in id level.orders))) [
        | inl e ↦ rw e (record {
          valid = vs;
          taken =
              subst (λ (x : List (Order W)). Taken (level.orders ++ resting levels) x o)
                (empty_append (erase_in id level.orders) (resting levels) e)
                (Taken-append o level.orders (erase_in id level.orders) (resting levels) g.taken);
          sum = omega (
            int_laws,
            int_eq v.total,
            int_eq g.sum,
            int_eq (sum_leaves-is_empty (erase_in id level.orders) e),
          );
          was_open = g.was_open;
          found = g.found;
        })
        | inr e ↦ rw e (record {
          valid = (
            record {
              key_price = v.key_price;
              occupied = e;
              open_orders = g.kept;
              total = omega (int_laws, int_eq v.total, int_eq g.sum);
            },
            vs,
          );
          taken = Taken-append o level.orders (erase_in id level.orders) (resting levels) g.taken;
          sum = omega int_laws;
          was_open = g.was_open;
          found = g.found;
        })
      ]

  erase_from_level-LevelErased :
      (side : OrderSide) (price : W) (id : Text) (o : Order W) (level : PriceLevel W)
      (levels : Levels W)
      → AreValid levels
      → find_level side price levels ≡ some level
      → find_in id level.orders ≡ some o
      → LevelErased id levels (erase_from_level side price id o levels) o
  unfolding find_level erase_from_level
  erase_from_level-LevelErased side price id o level [] vs e f = absurd (none-ne-some level e)
  erase_from_level-LevelErased side price id o level ((key, l) ∷ levels) (v, vs) e f =
      elim (Bool-cases (before side price key || before side key price)) [
        | inl g ↦
            let rest = erase_from_level-LevelErased side price id o level levels vs (rw g at e) f in
            rw g (record {
              valid = (v, rest.valid);
              taken = append-Taken o l.orders (resting levels) _ rest.taken;
              sum = omega (int_laws, int_eq rest.sum);
              was_open = rest.was_open;
              found = rest.found;
            })
        | inr g ↦
            let same : level ≡ l = sym (some-injective l level (rw g at e)) in
            rw g (
              level-LevelErased id o key l levels v vs (
                erase_in-Erased id o l.orders v.open_orders
                  (ap (λ (x : PriceLevel W). find_in id x.orders) (sym same) ∙ f)))
      ]

  abbrev pub sum_book : OrderBook W → ℤ
  sum_book b = sum_levels b.bids +ℤ sum_levels b.asks

  side-AreValid : (b : OrderBook W) (side : OrderSide) → IsValid b → AreValid (side_levels b side)
  side-AreValid b side v = elim (Bool-cases (is_buy side)) [
    | inl e ↦ rw e v.bids
    | inr e ↦ rw e v.asks
  ]

  abbrev pub other_levels : OrderBook W → OrderSide → Levels W
  other_levels b side = if is_buy side then b.asks else b.bids

  abbrev pub side_count : OrderBook W → OrderSide → ℕ
  side_count b side = if is_buy side then b.bid_order_count else b.ask_order_count

  abbrev pub other_count : OrderBook W → OrderSide → ℕ
  other_count b side = if is_buy side then b.ask_order_count else b.bid_order_count

  -- What a book is after the order that `at` locates is gone: its side has lost that order alone,
  -- and counts one less, the other side is the same, and the index has lost that id alone.
  pub record Without (id : Text) (at : OrderLocation W) (b b' : OrderBook W) (o : Order W)
      : Type 0 where
    pub valid : IsValid b'
    pub sum : sum_book b' +ℤ o.leaves_qty ≡ sum_book b
    pub was_open : IsOpen o
    pub found : text_eq o.cl_ord_id id ≡ true
    pub taken : Taken (resting (side_levels b at.side)) (resting (side_levels b' at.side)) o
    pub counted : side_count b' at.side ≡ side_count b at.side - 1
    pub other_side : other_levels b' at.side ≡ other_levels b at.side
    pub other_counted : other_count b' at.side ≡ other_count b at.side
    pub forgotten : find_index id b'.order_index ≡ none
    pub others :
        (other : Text)
        → text_eq id other ≡ false
        → find_index other b'.order_index ≡ find_index other b.order_index

  without_order-Without :
      (b : OrderBook W) (id : Text) (at : OrderLocation W) (o : Order W) (level : PriceLevel W)
      → IsValid b
      → find_level at.side at.price (side_levels b at.side) ≡ some level
      → find_in id level.orders ≡ some o
      → Without id at b (without_order b id at o) o
  without_order-Without b id at o level v e f =
      let gone =
        erase_from_level-LevelErased at.side at.price id o level (side_levels b at.side)
          (side-AreValid b at.side v) e f in
      elim (Bool-cases (is_buy at.side)) [
        | inl s ↦
            let bids = rw s at gone in
            rw s (record {
              valid = record { bids = bids.valid; asks = v.asks };
              sum = omega (int_laws, int_eq bids.sum);
              was_open = gone.was_open;
              found = gone.found;
              taken = rw (s, side_levels) bids.taken;
              counted = rw (s, side_count) refl;
              other_side = rw (s, other_levels) refl;
              other_counted = rw (s, other_count) refl;
              forgotten = find_index-erase_index id b.order_index;
              others = λ other h. find_index-erase_index_ne id other b.order_index h;
            })
        | inr s ↦
            let asks = rw s at gone in
            rw s (record {
              valid = record { bids = v.bids; asks = asks.valid };
              sum = omega (int_laws, int_eq asks.sum);
              was_open = gone.was_open;
              found = gone.found;
              taken = rw (s, side_levels) asks.taken;
              counted = rw (s, side_count) refl;
              other_side = rw (s, other_levels) refl;
              other_counted = rw (s, other_count) refl;
              forgotten = find_index-erase_index id b.order_index;
              others = λ other h. find_index-erase_index_ne id other b.order_index h;
            })
      ]

  -- What cancelling an id does, which is exactly what looking the order up promises: where that
  -- finds no order, nothing, and otherwise the order that it finds is handed out as canceled.
  abbrev pub Cancels : OrderBook W → Text → OrderBook W × Option (Order W) → Type 0
  Cancels b id r =
      ((find_order b id ≡ none) × (r ≡ (b, none)))
      ⊎ ((o : Order W) × (at : OrderLocation W) × (find_order b id ≡ some o)
          × (find_index id b.order_index ≡ some at)
          × Without id at b r.0 o
          × (r.1 ≡ some (with_status OrderStatus.canceled o)))

  -- Cancelling in a valid book does nothing if looking the order up finds none. If it finds one,
  -- cancelling hands out that order, which has that id and something left, with the status
  -- canceled. It leaves a valid book: the side on which the index has the order has lost this order
  -- alone, all others keep their places, and its count is one less; the other side is the same; and
  -- the index has lost this id alone.
  pub cancel_order-Without :
      (b : OrderBook W) (id : Text) → IsValid b → Cancels b id (cancel_order b id)
  unfolding cancel_order find_order
  cancel_order-Without b id v = elim (Option-cases (find_index id b.order_index)) [
    | inl e ↦ rw (e, cancel_order, find_order) (inl (refl, refl))
    | inr (at, e) ↦ elim (Option-cases (find_level at.side at.price (side_levels b at.side))) [
      | inl f ↦ rw (e, cancel_order, find_order, f) (inl (refl, refl))
      | inr (level, f) ↦ elim (Option-cases (find_in id level.orders)) [
        | inl g ↦ rw (e, cancel_order, find_order, f, g) (inl (refl, refl))
        | inr (o, g) ↦
            rw (e, cancel_order, find_order, f, g)
              (inr (o, at, refl, refl, without_order-Without b id at o level v f g, refl))
      ]
    ]
  ]
