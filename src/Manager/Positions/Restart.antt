-- ===== src/Manager/Positions/Restart.antt =====
-- The constructor of PositionManager with a store, and the queries that copy positions
-- (src/app/manager/position_manager.cpp).
pub mod Filed
use fix4_0_demo.Prelude.{
  ℕ, Bool, ◌||◌, List, [], ◌∷◌, Option, none, some, if◌then◌else◌, Text, text_eq, is_empty, length,
  map, Map, put,
}
use fix4_0_demo.Manager.Positions.{Position, PositionManager, make_key}

module _ {W : Type 0} where
  -- A loaded position without an account or an instrument is left out.
  unfoldable pub restore_positions : List (Position W) → Map (Position W) → Map (Position W)
  restore_positions [] positions = positions
  restore_positions (p ∷ loaded) positions =
      if is_empty p.account_id || is_empty p.instrument_id
      then restore_positions loaded positions
      else restore_positions loaded (put (make_key p.account_id p.instrument_id) p positions)

  -- The constructors: without a store, and with one that loads these positions.
  unfoldable pub init : Option (List (Position W)) → PositionManager W
  init none = record { positions = []; store = none }
  init (some loaded) = record { positions = restore_positions loaded []; store = some [] }

  unfoldable pub of_account : Text → Map (Position W) → List (Position W)
  of_account account_id [] = []
  of_account account_id ((key, p) ∷ positions) =
      let rest = of_account account_id positions in
      if text_eq p.account_id account_id then p ∷ rest else rest

  abbrev pub get_positions_by_account : PositionManager W → Text → List (Position W)
  get_positions_by_account m account_id = of_account account_id m.positions

  abbrev pub get_all_positions : PositionManager W → List (Position W)
  get_all_positions m = map (λ e. e.1) m.positions

  abbrev pub size : PositionManager W → ℕ
  size m = length m.positions
