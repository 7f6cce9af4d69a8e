-- ===== src/Engine/OrderBook/Terms.antt =====
-- The terms of an order: the fields that filling it, and giving it a status, leave alone.
use fix4_0_demo.Prelude.{◌≡◌, refl, sym, ◌∙◌}
use fix4_0_demo.Engine.Order.{Order}

module _ {W : Type 0} where
  -- The parts of an order that matching never touches.
  pub record SameTerms (o o' : Order W) : Type 0 where
    pub cl_ord_id : o'.cl_ord_id ≡ o.cl_ord_id
    pub side : o'.side ≡ o.side
    pub ord_type : o'.ord_type ≡ o.ord_type
    pub time_in_force : o'.time_in_force ≡ o.time_in_force
    pub order_qty : o'.order_qty ≡ o.order_qty
    pub price : o'.price ≡ o.price

  pub SameTerms-trans : {a b c : Order W} → SameTerms a b → SameTerms b c → SameTerms a c
  SameTerms-trans p q = record {
    cl_ord_id = q.cl_ord_id ∙ p.cl_ord_id;
    side = q.side ∙ p.side;
    ord_type = q.ord_type ∙ p.ord_type;
    time_in_force = q.time_in_force ∙ p.time_in_force;
    order_qty = q.order_qty ∙ p.order_qty;
    price = q.price ∙ p.price;
  }

  pub SameTerms-refl : (a : Order W) → SameTerms a a
  SameTerms-refl a = record {
    cl_ord_id = refl;
    side = refl;
    ord_type = refl;
    time_in_force = refl;
    order_qty = refl;
    price = refl;
  }

pub SameTerms-sym : {W : Type 0} {a b : Order W} → SameTerms a b → SameTerms b a
SameTerms-sym p = record {
  cl_ord_id = sym p.cl_ord_id;
  side = sym p.side;
  ord_type = sym p.ord_type;
  time_in_force = sym p.time_in_force;
  order_qty = sym p.order_qty;
  price = sym p.price;
}
