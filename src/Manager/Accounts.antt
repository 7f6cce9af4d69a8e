-- ===== src/Manager/Accounts.antt =====
-- include/app/model/account.hpp and src/app/manager/account_manager.cpp. The store, if there is
-- one, is the list of the accounts that were saved to it, in order. Time stamps are left out, and
-- each operation runs whole, as under its mutex.
pub mod Balance
use fix4_0_demo.Prelude.{
  ℕ, Bool, true, false, List, [], ◌∷◌, ◌++◌, Option, none, some, if◌then◌else◌, Text, length, map,
  is_some, is_empty, Double, nought, Map, lookup, put,
}

pub record Account (W : Type 0) : Type 0 where
  pub account_id : Text
  pub balance : W
  pub available : W
  pub frozen_margin : W
  pub used_margin : W
  pub position_profit : W
  pub close_profit : W

pub record AccountManager (W : Type 0) : Type 0 where
  pub accounts : Map (Account W)
  pub store : Option (List (Account W))

module _ {W : Type 0} ⦃d : Double W⦄ where
  unfoldable pub new_account : Text → W → Account W
  new_account id initial = record {
    account_id = id;
    balance = initial;
    available = initial;
    frozen_margin = nought;
    used_margin = nought;
    position_profit = nought;
    close_profit = nought;
  }

  abbrev pub get_dynamic_equity : Account W → W
  get_dynamic_equity a = d.add a.balance a.position_profit

  abbrev pub get_risk_ratio : Account W → W
  get_risk_ratio a =
      if d.lt nought (get_dynamic_equity a)
      then d.div a.used_margin (get_dynamic_equity a)
      else nought

  unfoldable pub recalculate_available : Account W → Account W
  recalculate_available a = record a {
    available = d.sub (d.sub (d.add a.balance a.position_profit) a.frozen_margin) a.used_margin;
  }

module _ {W : Type 0} where
  -- `persistAccount`
  abbrev pub persist : Option (List (Account W)) → Account W → Option (List (Account W))
  persist none a = none
  persist (some saved) a = some (saved ++ (a ∷ []))

  abbrev pub store_account : AccountManager W → Text → Account W → AccountManager W
  store_account m id a = record { accounts = put id a m.accounts; store = persist m.store a }

  -- What every operation on one account shares: find it, change it, save it.
  unfoldable pub change :
      AccountManager W → Text → (Account W → Account W) → AccountManager W × Bool
  change m id f = elim (lookup id m.accounts) [
    | none ↦ (m, false)
    | some a ↦ (store_account m id (f a), true)
  ]

  unfoldable pub restore_accounts : List (Account W) → Map (Account W) → Map (Account W)
  restore_accounts [] accounts = accounts
  restore_accounts (a ∷ loaded) accounts =
      if is_empty a.account_id
      then restore_accounts loaded accounts
      else restore_accounts loaded (put a.account_id a accounts)

  -- The constructors: without a store, and with one that loads these accounts.
  unfoldable pub init : Option (List (Account W)) → AccountManager W
  init none = record { accounts = []; store = none }
  init (some loaded) = record { accounts = restore_accounts loaded []; store = some [] }

  abbrev pub get_account : AccountManager W → Text → Option (Account W)
  get_account m id = lookup id m.accounts

  abbrev pub has_account : AccountManager W → Text → Bool
  has_account m id = is_some (lookup id m.accounts)

  abbrev pub get_all_account_ids : AccountManager W → List Text
  get_all_account_ids m = map (λ e. e.0) m.accounts

  abbrev pub size : AccountManager W → ℕ
  size m = length m.accounts

  unfoldable pub clear : AccountManager W → AccountManager W
  clear m = record m { accounts = [] }

module _ {W : Type 0} ⦃d : Double W⦄ where
  unfoldable pub create_account : AccountManager W → Text → W → AccountManager W × Account W
  create_account m id initial = elim (lookup id m.accounts) [
    | some a ↦ (m, a)
    | none ↦ (store_account m id (new_account id initial), new_account id initial)
  ]

  unfoldable pub freeze_margin : AccountManager W → Text → W → AccountManager W × Bool
  freeze_margin m id amount = elim (lookup id m.accounts) [
    | none ↦ (m, false)
    | some a ↦
        let frozen : Account W = record a {
          available = d.sub a.available amount;
          frozen_margin = d.add a.frozen_margin amount;
        } in
        if d.lt a.available amount then (m, false) else (store_account m id frozen, true)
  ]

  unfoldable pub unfreeze_margin : AccountManager W → Text → W → AccountManager W × Bool
  unfreeze_margin m id amount = change m id (λ a. record a {
    frozen_margin = d.sub a.frozen_margin amount;
    available = d.add a.available amount;
  })

  -- A filled order's margin, no longer frozen but used; what was frozen in excess is given back.
  abbrev pub confirmed : W → W → Account W → Account W
  confirmed frozen used a = record a {
    frozen_margin = d.sub a.frozen_margin frozen;
    used_margin = d.add a.used_margin used;
    available =
        if d.lt nought (d.sub frozen used)
        then d.add a.available (d.sub frozen used)
        else a.available;
  }

  unfoldable pub confirm_margin : AccountManager W → Text → W → W → AccountManager W × Bool
  confirm_margin m id frozen used = change m id (confirmed frozen used)

  unfoldable pub release_margin : AccountManager W → Text → W → AccountManager W × Bool
  release_margin m id amount = change m id (λ a. record a {
    used_margin = d.sub a.used_margin amount;
    available = d.add a.available amount;
  })

  unfoldable pub update_position_profit : AccountManager W → Text → W → AccountManager W × Bool
  update_position_profit m id profit = change m id (λ a. record a {
    position_profit = profit;
    available = d.add a.available (d.sub profit a.position_profit);
  })

  unfoldable pub add_close_profit : AccountManager W → Text → W → AccountManager W × Bool
  add_close_profit m id profit = change m id (λ a. record a {
    balance = d.add a.balance profit;
    close_profit = d.add a.close_profit profit;
    available = d.add a.available profit;
  })
