-- ===== src/Manager/Positions/Volumes.antt =====
-- src/app/manager/position_manager.cpp: the volumes of the positions under its operations.
use fix4_0_demo.Prelude.{
  ◌≡◌, List, [], ◌∷◌, some, Text, text_eq, Bool-cases, Option-cases, inl, inr, Double, Map, lookup,
  put, AllValues, AllValues-put, AllValues-lookup, ℤ, pos, ◌-ℤ◌, ◌≤ℤ◌, leb_ℤ, leb_ℤ→lt, int_laws,
  arith,
}
use fix4_0_demo.Engine.Order.{OrderSide, is_buy}
use fix4_0_demo.Manager.Positions.{
  Position, PositionManager, make_key, new_position, mark, mark_all, open_side, open_position,
  close_long, close_short, close_side, close_position, update_all_profits, update_profit, clear,
}

pub record HasVolumes {W : Type 0} (p : Position W) : Type 0 where
  pub long : pos 0 ≤ℤ p.long_position
  pub short : pos 0 ≤ℤ p.short_position

abbrev pub HaveVolumes : {W : Type 0} → PositionManager W → Type 0
HaveVolumes m = AllValues HasVolumes m.positions

-- The operations that change positions.
pub data Call (W : Type 0) : Type 0 where
  open_volume : Text → Text → OrderSide → (volume : ℤ) → pos 0 ≤ℤ volume → W → W → Call W
  close_volume : Text → Text → OrderSide → ℤ → W → ℤ → Call W
  mark_instrument : Text → W → ℤ → Call W
  mark_position : Text → Text → W → ℤ → Call W
  clear_all : Call W

module _ {W : Type 0} ⦃d : Double W⦄ where
  abbrev pub perform : Call W → PositionManager W → PositionManager W
  perform (open_volume account instrument side volume _ price margin) m =
      open_position m account instrument side volume price margin
  perform (close_volume account instrument side volume price multiple) m =
      (close_position m account instrument side volume price multiple).0
  perform (mark_instrument instrument price multiple) m =
      update_all_profits m instrument price multiple
  perform (mark_position account instrument price multiple) m =
      (update_profit m account instrument price multiple).0
  perform clear_all m = clear m

  abbrev pub perform_all : List (Call W) → PositionManager W → PositionManager W
  perform_all [] m = m
  perform_all (c ∷ cs) m = perform_all cs (perform c m)

  open_side-HasVolumes :
      (side : OrderSide) (volume : ℤ) (price margin : W) (p : Position W)
      → pos 0 ≤ℤ volume
      → HasVolumes p
      → HasVolumes (open_side side volume price margin p)
  unfolding open_side
  open_side-HasVolumes side volume price margin p h v = elim (Bool-cases (is_buy side)) [
    | inl e ↦ rw e (record { long = omega (int_laws, v.long); short = v.short })
    | inr e ↦ rw e (record { long = v.long; short = omega (int_laws, v.short) })
  ]

  close_side-HasVolumes :
      (side : OrderSide) (volume : ℤ) (p : Position W)
      → HasVolumes p
      → HasVolumes (close_side side volume p)
  unfolding close_long close_short
  close_side-HasVolumes side volume p v = elim (Bool-cases (is_buy side)) [
    | inl b ↦ rw b (elim (Bool-cases (leb_ℤ (p.short_position -ℤ volume) (pos 0))) [
      | inl e ↦ rw e (record { long = v.long; short = omega arith })
      | inr e ↦ rw e (record {
        long = v.long;
        short = omega (arith, leb_ℤ→lt (p.short_position -ℤ volume) (pos 0) e);
      })
    ])
    | inr b ↦ rw b (elim (Bool-cases (leb_ℤ (p.long_position -ℤ volume) (pos 0))) [
      | inl e ↦ rw e (record { long = omega arith; short = v.short })
      | inr e ↦ rw e (record {
        long = omega (arith, leb_ℤ→lt (p.long_position -ℤ volume) (pos 0) e);
        short = v.short;
      })
    ])
  ]

  mark-HasVolumes :
      (price : W) (multiple : ℤ) (p : Position W)
      → HasVolumes p
      → HasVolumes (mark price multiple p)
  unfolding mark
  mark-HasVolumes price multiple p v = record { long = v.long; short = v.short }

  mark_all-HasVolumes :
      (instrument : Text) (price : W) (multiple : ℤ) (m : Map (Position W))
      → AllValues HasVolumes m
      → AllValues HasVolumes (mark_all instrument price multiple m)
  unfolding mark_all
  mark_all-HasVolumes instrument price multiple [] vs = tt
  mark_all-HasVolumes instrument price multiple ((key, p) ∷ m) (v, vs) =
      let rest = mark_all-HasVolumes instrument price multiple m vs in
      elim (Bool-cases (text_eq p.instrument_id instrument)) [
        | inl e ↦ rw e (mark-HasVolumes price multiple p v, rest)
        | inr e ↦ rw e (v, rest)
      ]

  new_position-HasVolumes :
      (account instrument : Text) → HasVolumes {W = W} (new_position account instrument)
  unfolding new_position
  new_position-HasVolumes account instrument = record { long = omega arith; short = omega arith }

  -- A position of the manager replaced by one with volumes.
  replaced :
      (m : PositionManager W) (key : Text) (f : Position W → Position W) (p : Position W)
      → ((q : Position W) → HasVolumes q → HasVolumes (f q))
      → HaveVolumes m
      → lookup key m.positions ≡ some p
      → AllValues HasVolumes (put key (f p) m.positions)
  replaced m key f p keeps vs e =
      AllValues-put HasVolumes key (f p) m.positions
        (keeps p (AllValues-lookup HasVolumes key p m.positions vs e)) vs

  module _ (m : PositionManager W) (account instrument : Text) (vs : HaveVolumes m) where
    open_position-HaveVolumes :
        (side : OrderSide) (volume : ℤ) (price margin : W)
        → pos 0 ≤ℤ volume
        → HaveVolumes (open_position m account instrument side volume price margin)
    unfolding open_position
    open_position-HaveVolumes side volume price margin h =
        let key = make_key account instrument in
        let opened = λ (q : Position W) (v : HasVolumes q).
          open_side-HasVolumes side volume price margin q h v in
        elim (Option-cases (lookup key m.positions)) [
          | inl e ↦
              rw (e, open_position)
                (AllValues-put HasVolumes key _ m.positions
                  (opened (new_position account instrument)
                    (new_position-HasVolumes account instrument))
                  vs)
          | inr (p, e) ↦ rw (e, open_position) (replaced m key _ p opened vs e)
        ]

    close_position-HaveVolumes :
        (side : OrderSide) (volume : ℤ) (price : W) (multiple : ℤ)
        → HaveVolumes (close_position m account instrument side volume price multiple).0
    unfolding close_position
    close_position-HaveVolumes side volume price multiple =
        let key = make_key account instrument in
        elim (Option-cases (lookup key m.positions)) [
          | inl e ↦ rw (e, close_position) vs
          | inr (p, e) ↦
              rw (e, close_position)
                (replaced m key (λ q. close_side side volume q) p
                  (λ q v. close_side-HasVolumes side volume q v) vs e)
        ]

    update_profit-HaveVolumes :
        (price : W) (multiple : ℤ)
        → HaveVolumes (update_profit m account instrument price multiple).0
    unfolding update_profit
    update_profit-HaveVolumes price multiple =
        let key = make_key account instrument in
        elim (Option-cases (lookup key m.positions)) [
          | inl e ↦ rw (e, update_profit) vs
          | inr (p, e) ↦
              rw (e, update_profit)
                (replaced m key (mark price multiple) p (λ q v. mark-HasVolumes price multiple q v)
                  vs e)
        ]

  pub perform-HaveVolumes :
      (c : Call W) (m : PositionManager W) → HaveVolumes m → HaveVolumes (perform c m)
  unfolding update_all_profits clear
  perform-HaveVolumes (Call.open_volume account instrument side volume h price margin) m vs =
      open_position-HaveVolumes m account instrument vs side volume price margin h
  perform-HaveVolumes (Call.close_volume account instrument side volume price multiple) m vs =
      close_position-HaveVolumes m account instrument vs side volume price multiple
  perform-HaveVolumes (Call.mark_instrument instrument price multiple) m vs =
      mark_all-HasVolumes instrument price multiple m.positions vs
  perform-HaveVolumes (Call.mark_position account instrument price multiple) m vs =
      update_profit-HaveVolumes m account instrument vs price multiple
  perform-HaveVolumes Call.clear_all m vs = tt

  -- Whatever sequence of operations is performed, as long as no negative volume is opened, no
  -- position is ever long or short by less than nothing.
  pub perform_all-HaveVolumes :
      (calls : List (Call W)) (m : PositionManager W)
      → HaveVolumes m
      → HaveVolumes (perform_all calls m)
  perform_all-HaveVolumes [] m vs = vs
  perform_all-HaveVolumes (c ∷ cs) m vs =
      perform_all-HaveVolumes cs (perform c m) (perform-HaveVolumes c m vs)
