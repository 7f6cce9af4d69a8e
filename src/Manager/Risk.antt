-- ===== src/Manager/Risk.antt =====
-- src/app/manager/risk_manager.cpp, with the parts of include/app/model/instrument.hpp and
-- include/app/model/market_data_snapshot.hpp that it reads. The texts of the reasons are left out.
pub mod Checks
use fix4_0_demo.Prelude.{
  ℕ, Bool, true, false, not, ◌&&◌, ◌||◌, if◌then◌else◌, Text, Double, nought, ℤ, pos, ltb_ℤ,
}
use fix4_0_demo.Engine.Order.{Order, OrderSide, OrderType, is_buy, is_limit, is_market}
use fix4_0_demo.Manager.Accounts.{Account}
use fix4_0_demo.Manager.Positions.{Position}

pub record Instrument (W : Type 0) : Type 0 where
  pub instrument_id : Text
  pub exchange_id : Text
  pub product_id : Text
  pub price_tick : W
  pub volume_multiple : ℤ
  pub margin_rate : W
  pub upper_limit_price : W
  pub lower_limit_price : W
  pub pre_settlement_price : W

pub record MarketDataSnapshot (W : Type 0) : Type 0 where
  pub instrument_id : Text
  pub last_price : W
  pub bid_price : W
  pub bid_volume : ℤ
  pub ask_price : W
  pub ask_volume : ℤ
  pub upper_limit_price : W
  pub lower_limit_price : W

pub data OffsetFlag : Type 0 where
  open_position close_position : OffsetFlag

pub data RejectReason : Type 0 where
  none instrument_not_found insufficient_funds price_out_of_limit insufficient_position :
      RejectReason
  no_counter_party order_not_found : RejectReason

pub record CheckResult : Type 0 where
  pub passed : Bool
  pub reject_reason : RejectReason

abbrev pub success : CheckResult
success = record { passed = true; reject_reason = RejectReason.none }

abbrev pub failure : RejectReason → CheckResult
failure reason = record { passed = false; reject_reason = reason }

abbrev pub is_open : OffsetFlag → Bool
is_open OffsetFlag.open_position = true
is_open OffsetFlag.close_position = false

abbrev pub is_close : OffsetFlag → Bool
is_close OffsetFlag.open_position = false
is_close OffsetFlag.close_position = true

-- `if (!result.passed) return result;` before the next check.
abbrev pub and_then : CheckResult → CheckResult → CheckResult
and_then r next = if r.passed then next else r

-- A check that is made only under a condition.
abbrev pub when : Bool → CheckResult → CheckResult
when condition r = if condition then r else success

module _ {W : Type 0} ⦃d : Double W⦄ where
  unfoldable pub calculate_margin : Instrument W → W → ℤ → W
  calculate_margin i price volume =
      d.mul (d.mul (d.mul price (d.of_int volume)) (d.of_int i.volume_multiple)) i.margin_rate

  abbrev pub has_limits : Instrument W → Bool
  has_limits i = not (d.le i.lower_limit_price nought && d.le i.upper_limit_price nought)

  unfoldable pub is_price_valid : Instrument W → W → Bool
  is_price_valid i price =
      if has_limits i
      then d.le i.lower_limit_price price && d.le price i.upper_limit_price
      else true

  abbrev pub has_bid : MarketDataSnapshot W → Bool
  has_bid s = d.lt nought s.bid_price && ltb_ℤ (pos 0) s.bid_volume

  abbrev pub has_ask : MarketDataSnapshot W → Bool
  has_ask s = d.lt nought s.ask_price && ltb_ℤ (pos 0) s.ask_volume

  abbrev pub or_settlement : Instrument W → W → W
  or_settlement i price = if d.le price nought then i.pre_settlement_price else price

  -- The worst price that a market order may get; a limit order gets its own at worst.
  abbrev pub margin_price : Order W → Instrument W → W
  margin_price o i =
      if is_market o.ord_type
      then (if is_buy o.side
          then or_settlement i i.upper_limit_price
          else or_settlement i i.lower_limit_price)
      else o.price

  abbrev pub calculate_required_margin : Order W → Instrument W → W
  calculate_required_margin o i = calculate_margin i (margin_price o i) o.order_qty

  unfoldable pub check_margin : Order W → Account W → Instrument W → CheckResult
  check_margin o a i =
      if d.lt a.available (calculate_required_margin o i)
      then failure RejectReason.insufficient_funds
      else success

  unfoldable pub check_price : Order W → Instrument W → CheckResult
  check_price o i =
      if is_market o.ord_type
      then success
      else if not (has_limits i)
      then success
      else if not (is_price_valid i o.price)
      then failure RejectReason.price_out_of_limit
      else success

  -- Buying closes the short side.
  abbrev pub closable : OrderSide → Position W → ℤ
  closable side p = if is_buy side then p.short_position else p.long_position

  unfoldable pub check_position : Order W → Position W → CheckResult
  check_position o p =
      if ltb_ℤ (closable o.side p) o.order_qty
      then failure RejectReason.insufficient_position
      else success

  unfoldable pub check_counter_party : Order W → MarketDataSnapshot W → CheckResult
  check_counter_party o s =
      if is_limit o.ord_type
      then success
      else if not (if is_buy o.side then has_ask s else has_bid s)
      then failure RejectReason.no_counter_party
      else success

  unfoldable pub check_order :
      Order W
      → Account W
      → Position W
      → Instrument W
      → MarketDataSnapshot W
      → OffsetFlag
      → CheckResult
  check_order o a p i s offset = and_then (when (is_limit o.ord_type) (check_price o i)) (
      and_then (when (is_open offset) (check_margin o a i)) (
        and_then (when (is_close offset) (check_position o p))
          (and_then (when (is_market o.ord_type) (check_counter_party o s)) success)))
