-- ===== src/Simulation/Authority/Reading.antt =====
-- src/app/simulation_app.cpp: what every order is that was read from a message.
use fix4_0_demo.Prelude.{
  leb_ℤ, leb_ℤ→lt, int_laws, stoll, ℤ, pos, ◌<ℤ◌, ◌≡◌, refl, subst, by_test_of, by_option, Text,
  codes, Double, DoubleText,
}
use fix4_0_demo.Fix.Tags
use fix4_0_demo.Fix.Message.{FixMessage, find_field}
use fix4_0_demo.Engine.Order.{Order, SessionId}
use fix4_0_demo.Simulation.Parsing.{
  ParseResult, ◌>>=◌, required, read_side, read_quantity, read_price, read_type,
  parse_new_order_single,
}

module _ {W : Type 0} where
  -- An order of the session, for some quantity, on which nothing has been filled.
  abbrev pub IsReady : SessionId → Order W → Type 0
  IsReady session_id o = (o.session_id ≡ session_id) × (o.cum_qty ≡ pos 0) × (pos 0 <ℤ o.order_qty)

  -- An order that was read is of the session that it came from.
  abbrev pub IsOf : SessionId → ParseResult (Order W) → Type 0
  IsOf session_id (ParseResult.parsed o) = IsReady session_id o
  IsOf session_id (ParseResult.failed error) = Unit

  bind-IsOf :
      {A : Type 0} (session_id : SessionId) (m : ParseResult A) (f : A → ParseResult (Order W))
      → ((a : A) → m ≡ ParseResult.parsed a → IsOf session_id (f a))
      → IsOf session_id (m >>= f)
  bind-IsOf session_id (ParseResult.parsed a) f h = h a refl
  bind-IsOf session_id (ParseResult.failed error) f h = tt

abbrev IsPositive : ParseResult ℤ → Type 0
IsPositive (ParseResult.parsed n) = pos 0 <ℤ n
IsPositive (ParseResult.failed error) = Unit

read_quantity-positive :
    (value : Text) (n : ℤ) → read_quantity value ≡ ParseResult.parsed n → pos 0 <ℤ n
read_quantity-positive value n h = subst IsPositive h (
    by_option IsPositive (stoll value) tt (λ m.
      by_test_of IsPositive (leb_ℤ m (pos 0)) (λ _. tt)
        (λ e. omega (int_laws, leb_ℤ→lt m (pos 0) e))))

pub parse_new_order_single-IsOf :
    (W : Type 0) ⦃d : Double W⦄ ⦃t : DoubleText W⦄ (msg : FixMessage) (session_id : SessionId)
    → IsOf session_id (parse_new_order_single {W = W} msg session_id)
unfolding parse_new_order_single
parse_new_order_single-IsOf W msg session_id =
    bind-IsOf {W = W} session_id (required Tags.cl_ord_id (codes "ClOrdID(11)") msg) _
      (λ cl_ord_id _.
        bind-IsOf {W = W} session_id (required Tags.symbol (codes "Symbol(55)") msg) _ (λ symbol _.
          bind-IsOf {W = W} session_id (required Tags.side (codes "Side(54)") msg) _ (λ side_text _.
            bind-IsOf {W = W} session_id (read_side side_text) _ (λ side _.
              bind-IsOf {W = W} session_id (required Tags.order_qty (codes "OrderQty(38)") msg) _
                (λ qty_text _. bind-IsOf {W = W} session_id (read_quantity qty_text) _ (λ qty q.
                  bind-IsOf {W = W} session_id (required Tags.ord_type (codes "OrdType(40)") msg) _
                    (λ type_text _.
                      bind-IsOf {W = W} session_id
                        (read_price {W = W} (read_type type_text) (find_field Tags.price msg)) _
                        (λ price _. (refl, refl, read_quantity-positive qty_text qty q)))))))))
