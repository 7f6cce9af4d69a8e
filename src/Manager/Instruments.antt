-- ===== src/Manager/Instruments.antt =====
-- include/app/manager/instrument_manager.hpp and src/app/manager/instrument_manager.cpp, but for the
-- reader of the configuration file. The unordered map is an association list (Prelude/Maps); the
-- mutex is left out.
pub mod Queries
use fix4_0_demo.Prelude.{
  ℕ, ltb, ◌==◌, Bool, true, false, ◌&&◌, List, [], ◌∷◌, Option, none, some, if◌then◌else◌, is_some,
  length, take, map, Text, text_eq, is_empty, starts_with, Map, lookup, put,
}
use fix4_0_demo.Manager.Risk.{Instrument}

-- `std::string` compared as bytes, and `std::sort` on strings.
unfoldable pub text_leb : Text → Text → Bool
text_leb [] b = true
text_leb (x ∷ a) [] = false
text_leb (x ∷ a) (y ∷ b) =
    let rest = text_leb a b in if ltb x y then true else if x == y then rest else false

unfoldable pub insert_text : Text → List Text → List Text
insert_text a [] = a ∷ []
insert_text a (b ∷ texts) = if text_leb a b then a ∷ b ∷ texts else b ∷ insert_text a texts

unfoldable pub sort_texts : List Text → List Text
sort_texts [] = []
sort_texts (a ∷ texts) = insert_text a (sort_texts texts)

abbrev pub Instruments : Type 0 → Type 0
Instruments W = Map (Instrument W)

module _ {W : Type 0} where
  abbrev pub add_instrument : Instrument W → Instruments W → Instruments W
  add_instrument instrument m = put instrument.instrument_id instrument m

  abbrev pub add_instruments : List (Instrument W) → Instruments W → Instruments W
  add_instruments [] m = m
  add_instruments (instrument ∷ instruments) m =
      add_instruments instruments (add_instrument instrument m)

  -- `getInstrument` and `getInstrumentCopy`
  abbrev pub get_instrument : Text → Instruments W → Option (Instrument W)
  get_instrument id m = lookup id m

  abbrev pub has_instrument : Text → Instruments W → Bool
  has_instrument id m = is_some (lookup id m)

  abbrev pub get_all_instrument_ids : Instruments W → List Text
  get_all_instrument_ids m = map (λ e. e.0) m

  abbrev pub size : Instruments W → ℕ
  size m = length m

  -- An update of the instrument that is found; whether there was one.
  abbrev pub update_instrument :
      (Instrument W → Instrument W) → Text → Instruments W → Bool × Instruments W
  update_instrument f id m = elim (lookup id m) [
    | none ↦ (false, m)
    | some instrument ↦ (true, put id (f instrument) m)
  ]

  abbrev pub update_limit_prices : Text → W → W → Instruments W → Bool × Instruments W
  update_limit_prices id upper lower =
      update_instrument (λ i. record i { upper_limit_price = upper; lower_limit_price = lower }) id

  abbrev pub update_pre_settlement_price : Text → W → Instruments W → Bool × Instruments W
  update_pre_settlement_price id price =
      update_instrument (λ i. record i { pre_settlement_price = price }) id

  abbrev pub clear : Instruments W → Instruments W
  clear m = []

  -- The ids of the instruments that pass a test.
  unfoldable pub ids_where : (Text → Instrument W → Bool) → Instruments W → List Text
  ids_where test [] = []
  ids_where test ((id, instrument) ∷ m) =
      let rest = ids_where test m in if test id instrument then id ∷ rest else rest

  unfoldable pub search_by_prefix : Text → ℕ → Instruments W → List Text
  search_by_prefix prefix limit m =
      if is_empty prefix
      then []
      else take limit (sort_texts (ids_where (λ id _. starts_with prefix id) m))

  unfoldable pub get_instruments_by_product : Text → Instruments W → List Text
  get_instruments_by_product product_id m =
      sort_texts (ids_where (λ _ i. text_eq i.product_id product_id) m)

  unfoldable pub get_instruments_by_exchange : Text → Instruments W → List Text
  get_instruments_by_exchange exchange_id m =
      sort_texts (ids_where (λ _ i. text_eq i.exchange_id exchange_id) m)
