-- ===== src/Simulation/Margins.antt =====
-- src/app/simulation_app.cpp: the margin that is frozen for an order, in whole cents.
use fix4_0_demo.Prelude.{
  Bool, true, ◌≡◌, refl, sym, ◌∙◌, ap, subst, Bool-cases, Option-cases, inl, inr, by_test,
  by_test_of, some, Text, ℤ, pos, ltb_ℤ, ltb_ℤ→le, ◌+ℤ◌, ◌-ℤ◌, ◌≤ℤ◌, int_laws, int_eq, Double,
  ticks_double, lookup, put, lookup-put_self,
}
use fix4_0_demo.Engine.Order.{Order}
use fix4_0_demo.Engine.Events.{ExecutionReport}
use fix4_0_demo.Manager.Accounts.{
  Account, AccountManager, get_account, change, freeze_margin, unfreeze_margin,
}
use fix4_0_demo.Manager.Risk.{Instrument, calculate_required_margin}
use fix4_0_demo.Simulation.{SimulationApp, OrderMarginInfo, new_margin_info, get_remaining_frozen}
use fix4_0_demo.Simulation.Fills.{unfreeze_for, handle_reject, handle_cancel}
use fix4_0_demo.Simulation.Orders.{freeze_for_order}

instance abbrev pub cents : Double ℤ
cents = ticks_double

abbrev with_frozen : ℤ → Account ℤ → Account ℤ
with_frozen m a = record a { available = a.available -ℤ m; frozen_margin = a.frozen_margin +ℤ m }

abbrev without_frozen : ℤ → Account ℤ → Account ℤ
without_frozen m a = record a { frozen_margin = a.frozen_margin -ℤ m; available = a.available +ℤ m }

without-with_frozen : (m : ℤ) (a : Account ℤ) → without_frozen m (with_frozen m a) ≡ a
without-with_frozen m a =
    let frozen : (a.frozen_margin +ℤ m) -ℤ m ≡ a.frozen_margin = omega int_laws in
    let available : (a.available -ℤ m) +ℤ m ≡ a.available = omega int_laws in cc

with_frozen-zero : (m : ℤ) (a : Account ℤ) → m ≡ pos 0 → with_frozen m a ≡ a
with_frozen-zero m a h =
    let frozen : a.frozen_margin +ℤ m ≡ a.frozen_margin = omega (int_laws, int_eq h) in
    let available : a.available -ℤ m ≡ a.available = omega (int_laws, int_eq h) in cc

freeze_margin-lookup :
    (m : AccountManager ℤ) (id : Text) (amount : ℤ)
    → (freeze_margin m id amount).1 ≡ true
    → (a : Account ℤ) × (get_account m id ≡ some a)
      × (get_account (freeze_margin m id amount).0 id ≡ some (with_frozen amount a))
unfolding freeze_margin
freeze_margin-lookup m id amount h = elim (Option-cases (lookup id m.accounts)) [
  | inl e ↦ cc (rw (e, freeze_margin) at h)
  | inr (a, e) ↦
      let F : AccountManager ℤ × Bool → Type 0 =
        λ x. x.1 ≡ true → get_account x.0 id ≡ some (with_frozen amount a) in
      let found : F (freeze_margin m id amount) =
        rw (e, freeze_margin)
          (by_test F (ltb_ℤ a.available amount) (λ k. cc) (λ k. lookup-put_self id _ m.accounts)) in
      (a, e, found h)
]

unfreeze_margin-lookup :
    (m : AccountManager ℤ) (id : Text) (amount : ℤ) (a : Account ℤ)
    → get_account m id ≡ some a
    → get_account (unfreeze_margin m id amount).0 id ≡ some (without_frozen amount a)
unfolding unfreeze_margin change
unfreeze_margin-lookup m id amount a e = rw (e, change) (lookup-put_self id _ m.accounts)

-- Whether the order is rejected or canceled, an amount that is still frozen for it is given back.
unfreeze_for-lookup :
    {T : Type 0} (amount : OrderMarginInfo ℤ → ℤ) (user_id id : Text) (info : OrderMarginInfo ℤ)
    (m : ℤ) (a : Account ℤ) (app : SimulationApp ℤ T)
    → lookup id app.order_margin_info_map ≡ some info
    → amount info ≡ m
    → pos 0 ≤ℤ m
    → get_account app.accounts user_id ≡ some (with_frozen m a)
    → get_account (unfreeze_for amount user_id id app).accounts user_id ≡ some a
unfolding unfreeze_for
unfreeze_for-lookup {T} amount user_id id info m a app i s h e =
    rw (i, unfreeze_for)
      (rw s (
        by_test_of (λ (x : SimulationApp ℤ T). get_account x.accounts user_id ≡ some a)
          (ltb_ℤ (pos 0) m)
          (λ _.
            unfreeze_margin-lookup app.accounts user_id m (with_frozen m a) e
            ∙ ap (λ x. some x) (without-with_frozen m a))
          (λ z.
            e ∙ ap (λ x. some x) (with_frozen-zero m a (omega (int_laws, ltb_ℤ→le (pos 0) m z))))))

-- In whole cents, a margin that is frozen for an order, and is not negative, is given back when a
-- report with the id of the order says that it is rejected or canceled, before anything of it was
-- filled.
pub freeze_for_order-returned :
    {T : Type 0} (o : Order ℤ) (user_id : Text) (i : Instrument ℤ) (app app' : SimulationApp ℤ T)
    (r : ExecutionReport ℤ)
    → freeze_for_order o user_id i app ≡ some app'
    → r.cl_ord_id ≡ o.cl_ord_id
    → pos 0 ≤ℤ calculate_required_margin o i
    → (get_account (handle_reject user_id r app').accounts user_id
        ≡ get_account app.accounts user_id)
      × (get_account (handle_cancel user_id r app').accounts user_id
          ≡ get_account app.accounts user_id)
unfolding freeze_for_order handle_reject handle_cancel
freeze_for_order-returned {T} o user_id i app app' r f c h =
    let m = calculate_required_margin o i in
    let info = new_margin_info m o.order_qty in
    let frozen = freeze_margin app.accounts user_id m in
    let x : SimulationApp ℤ T = record app {
      accounts = frozen.0;
      order_margin_info_map = put o.cl_ord_id info app.order_margin_info_map;
    } in
    let found : lookup r.cl_ord_id x.order_margin_info_map ≡ some info =
      rw c (lookup-put_self o.cl_ord_id info app.order_margin_info_map) in
    let G : SimulationApp ℤ T → Type 0 = λ y.
      (get_account (handle_reject user_id r y).accounts user_id ≡ get_account app.accounts user_id)
      × (get_account (handle_cancel user_id r y).accounts user_id
          ≡ get_account app.accounts user_id) in
    elim (Bool-cases frozen.1) [
      | inl t ↦
          let (a, before, after) = freeze_margin-lookup app.accounts user_id m t in
          let same : x ≡ app' = cc (rw t at f) in
          let rest : get_remaining_frozen info ≡ m = omega int_laws in
          subst G same (
            unfreeze_for-lookup (λ y. y.original_frozen_margin) user_id r.cl_ord_id info m a x found
                  refl h after
                ∙ sym before,
            unfreeze_for-lookup get_remaining_frozen user_id r.cl_ord_id info m a x found rest h
                  after
                ∙ sym before,
          )
      | inr t ↦ cc (rw t at f)
    ]
