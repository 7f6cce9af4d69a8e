-- ===== src/Manager/Positions.antt =====
-- include/app/model/position.hpp and src/app/manager/position_manager.cpp. The store, if there is
-- one, is the list of the positions that were saved to it. Time stamps are left out. Volumes are
-- integers whose sums are exact, as those of the program's `int64_t` are below 2 ^ 63.
pub mod Volumes
pub mod Keys
pub mod Restart
use fix4_0_demo.Prelude.{
  ℕ, Bool, true, false, ◌||◌, List, [], ◌∷◌, ◌++◌, Option, none, some, if◌then◌else◌, Text, codes,
  text_eq, length, map, Double, nought, Map, lookup, put, ℤ, pos, ◌+ℤ◌, ◌-ℤ◌, ltb_ℤ, leb_ℤ,
}
use fix4_0_demo.Engine.Order.{OrderSide, is_buy}

pub record Position (W : Type 0) : Type 0 where
  pub account_id : Text
  pub instrument_id : Text
  pub long_position : ℤ
  pub long_avg_price : W
  pub long_profit : W
  pub long_margin : W
  pub short_position : ℤ
  pub short_avg_price : W
  pub short_profit : W
  pub short_margin : W

pub record PositionManager (W : Type 0) : Type 0 where
  pub positions : Map (Position W)
  pub store : Option (List (Position W))

abbrev pub make_key : Text → Text → Text
make_key account_id instrument_id = account_id ++ codes "_" ++ instrument_id

module _ {W : Type 0} where
  abbrev pub persist : Option (List (Position W)) → Position W → Option (List (Position W))
  persist none p = none
  persist (some saved) p = some (saved ++ (p ∷ []))

  abbrev pub store_position : PositionManager W → Text → Position W → PositionManager W
  store_position m key p = record { positions = put key p m.positions; store = persist m.store p }

  abbrev pub get_position : PositionManager W → Text → Text → Option (Position W)
  get_position m account_id instrument_id = lookup (make_key account_id instrument_id) m.positions

  abbrev pub has_volume : Position W → Bool
  has_volume p = ltb_ℤ (pos 0) p.long_position || ltb_ℤ (pos 0) p.short_position

  abbrev pub has_position : PositionManager W → Text → Text → Bool
  has_position m account_id instrument_id =
      elim (lookup (make_key account_id instrument_id) m.positions) [
        | none ↦ false
        | some p ↦ has_volume p
      ]

  unfoldable pub clear : PositionManager W → PositionManager W
  clear m = record m { positions = [] }

module _ {W : Type 0} ⦃d : Double W⦄ where
  unfoldable pub new_position : Text → Text → Position W
  new_position account_id instrument_id = record {
    account_id = account_id;
    instrument_id = instrument_id;
    long_position = pos 0;
    long_avg_price = nought;
    long_profit = nought;
    long_margin = nought;
    short_position = pos 0;
    short_avg_price = nought;
    short_profit = nought;
    short_margin = nought;
  }

  -- `Position::updateProfit`
  unfoldable pub mark : W → ℤ → Position W → Position W
  mark last_price multiple p = record p {
    long_profit =
        d.mul (d.mul (d.sub last_price p.long_avg_price) (d.of_int p.long_position))
          (d.of_int multiple);
    short_profit =
        d.mul (d.mul (d.sub p.short_avg_price last_price) (d.of_int p.short_position))
          (d.of_int multiple);
  }

  abbrev pub total_profit : Position W → W
  total_profit p = d.add p.long_profit p.short_profit

  -- The average price of a position that grows.
  abbrev pub new_average : W → ℤ → W → ℤ → W
  new_average average held price volume =
      if ltb_ℤ (pos 0) (held +ℤ volume)
      then d.div (d.add (d.mul average (d.of_int held)) (d.mul price (d.of_int volume)))
          (d.of_int (held +ℤ volume))
      else nought

  -- The sums of volumes are those of `int64_t` as long as they stay below 2 ^ 63: the program adds
  -- without a check.
  unfoldable pub open_side : OrderSide → ℤ → W → W → Position W → Position W
  open_side side volume price margin p =
      if is_buy side
      then record p {
        long_position = p.long_position +ℤ volume;
        long_avg_price = new_average p.long_avg_price p.long_position price volume;
        long_margin = d.add p.long_margin margin;
      }
      else record p {
        short_position = p.short_position +ℤ volume;
        short_avg_price = new_average p.short_avg_price p.short_position price volume;
        short_margin = d.add p.short_margin margin;
      }

  unfoldable pub open_position :
      PositionManager W → Text → Text → OrderSide → ℤ → W → W → PositionManager W
  open_position m account_id instrument_id side volume price margin =
      let key = make_key account_id instrument_id in
      elim (lookup key m.positions) [
        | none ↦
            store_position m key
              (open_side side volume price margin (new_position account_id instrument_id))
        | some p ↦ store_position m key (open_side side volume price margin p)
      ]

  -- Selling closes the long side.
  unfoldable pub close_long : ℤ → Position W → Position W
  close_long volume p =
      let left = p.long_position -ℤ volume in
      if leb_ℤ left (pos 0)
      then record p {
        long_position = pos 0;
        long_avg_price = nought;
        long_profit = nought;
        long_margin = nought;
      }
      else record p {
        long_position = left;
        long_margin =
            d.sub p.long_margin
              (d.mul p.long_margin (d.div (d.of_int volume) (d.of_int p.long_position)));
        long_profit = d.mul p.long_profit (d.div (d.of_int left) (d.of_int p.long_position));
      }

  unfoldable pub close_short : ℤ → Position W → Position W
  close_short volume p =
      let left = p.short_position -ℤ volume in
      if leb_ℤ left (pos 0)
      then record p {
        short_position = pos 0;
        short_avg_price = nought;
        short_profit = nought;
        short_margin = nought;
      }
      else record p {
        short_position = left;
        short_margin =
            d.sub p.short_margin
              (d.mul p.short_margin (d.div (d.of_int volume) (d.of_int p.short_position)));
        short_profit = d.mul p.short_profit (d.div (d.of_int left) (d.of_int p.short_position));
      }

  abbrev pub close_side : OrderSide → ℤ → Position W → Position W
  close_side side volume p = if is_buy side then close_short volume p else close_long volume p

  -- What closing earns.
  unfoldable pub realised : OrderSide → ℤ → W → ℤ → Position W → W
  realised side volume price multiple p =
      if is_buy side
      then d.mul (d.mul (d.sub p.short_avg_price price) (d.of_int volume)) (d.of_int multiple)
      else d.mul (d.mul (d.sub price p.long_avg_price) (d.of_int volume)) (d.of_int multiple)

  unfoldable pub close_position :
      PositionManager W → Text → Text → OrderSide → ℤ → W → ℤ → PositionManager W × W
  close_position m account_id instrument_id side volume price multiple =
      let key = make_key account_id instrument_id in
      elim (lookup key m.positions) [
        | none ↦ (m, nought)
        | some p ↦
            (store_position m key (close_side side volume p), realised side volume price multiple p)
      ]

  unfoldable pub mark_all : Text → W → ℤ → Map (Position W) → Map (Position W)
  mark_all instrument_id last_price multiple [] = []
  mark_all instrument_id last_price multiple ((key, p) ∷ positions) =
      let rest = mark_all instrument_id last_price multiple positions in
      if text_eq p.instrument_id instrument_id
      then (key, mark last_price multiple p) ∷ rest
      else (key, p) ∷ rest

  unfoldable pub update_all_profits : PositionManager W → Text → W → ℤ → PositionManager W
  update_all_profits m instrument_id last_price multiple = record m {
    positions = mark_all instrument_id last_price multiple m.positions;
  }

  unfoldable pub update_profit : PositionManager W → Text → Text → W → ℤ → PositionManager W × W
  update_profit m account_id instrument_id last_price multiple =
      let key = make_key account_id instrument_id in
      elim (lookup key m.positions) [
        | none ↦ (m, nought)
        | some p ↦ (
          record m { positions = put key (mark last_price multiple p) m.positions },
          total_profit (mark last_price multiple p),
        )
      ]

  unfoldable pub sum_profits : Text → Map (Position W) → W → W
  sum_profits account_id [] total = total
  sum_profits account_id ((key, p) ∷ positions) total =
      let grown = sum_profits account_id positions (d.add total (total_profit p)) in
      let same = sum_profits account_id positions total in
      if text_eq p.account_id account_id then grown else same

  abbrev pub get_total_profit : PositionManager W → Text → W
  get_total_profit m account_id = sum_profits account_id m.positions nought
