-- ===== src/Manager/Positions/Restart/Filed.antt =====
-- src/app/manager/position_manager.cpp: each position lies under the key of its account and its
-- instrument.
use fix4_0_demo.Prelude.{
  ◌≡◌, refl, ◌||◌, List, [], ◌∷◌, Option, none, some, Bool-cases, Option-cases, inl, inr, by_test,
  Text, text_eq, is_empty, Double, Map, lookup, put, AllEntries, AllEntries-put, AllEntries-lookup,
  ℤ, pos, ◌-ℤ◌, leb_ℤ,
}
use fix4_0_demo.Engine.Order.{OrderSide, is_buy}
use fix4_0_demo.Manager.Positions.{
  Position, PositionManager, make_key, new_position, mark, mark_all, open_side, open_position,
  close_long, close_short, close_side, close_position, update_all_profits, update_profit, clear,
  get_position,
}
use fix4_0_demo.Manager.Positions.Volumes.{Call, perform, perform_all}
use fix4_0_demo.Manager.Positions.Keys.{HasNoUnderscore, make_key-injective}
use fix4_0_demo.Manager.Positions.Restart.{restore_positions, init}

module _ {W : Type 0} where
  abbrev key_of : Position W → Text
  key_of p = make_key p.account_id p.instrument_id

  abbrev LiesAt : Text → Position W → Type 0
  LiesAt key p = key_of p ≡ key

  abbrev AreFiled : Map (Position W) → Type 0
  AreFiled positions = AllEntries LiesAt positions

  AreFiled-restore_positions :
      (loaded : List (Position W)) (m : Map (Position W))
      → AreFiled m
      → AreFiled (restore_positions loaded m)
  unfolding restore_positions
  AreFiled-restore_positions [] m hs = hs
  AreFiled-restore_positions (p ∷ loaded) m hs =
      by_test AreFiled (is_empty p.account_id || is_empty p.instrument_id)
        (AreFiled-restore_positions loaded m hs)
        (AreFiled-restore_positions loaded (put (key_of p) p m)
          (AllEntries-put LiesAt (key_of p) p m refl hs))

  init-AreFiled : (loaded : Option (List (Position W))) → AreFiled (init loaded).positions
  unfolding init
  init-AreFiled none = tt
  init-AreFiled (some loaded) = AreFiled-restore_positions loaded [] tt

module _ {W : Type 0} ⦃d : Double W⦄ where
  key_of-open_side :
      (side : OrderSide) (volume : ℤ) (price margin : W) (p : Position W)
      → key_of (open_side side volume price margin p) ≡ key_of p
  unfolding open_side
  key_of-open_side side volume price margin p = elim (Bool-cases (is_buy side)) [
    | inl e ↦ rw e refl
    | inr e ↦ rw e refl
  ]

  key_of-close_side :
      (side : OrderSide) (volume : ℤ) (p : Position W)
      → key_of (close_side side volume p) ≡ key_of p
  unfolding close_long close_short
  key_of-close_side side volume p = elim (Bool-cases (is_buy side)) [
    | inl b ↦ rw b (elim (Bool-cases (leb_ℤ (p.short_position -ℤ volume) (pos 0))) [
      | inl e ↦ rw e refl
      | inr e ↦ rw e refl
    ])
    | inr b ↦ rw b (elim (Bool-cases (leb_ℤ (p.long_position -ℤ volume) (pos 0))) [
      | inl e ↦ rw e refl
      | inr e ↦ rw e refl
    ])
  ]

  AreFiled-mark_all :
      (instrument : Text) (price : W) (multiple : ℤ) (m : Map (Position W))
      → AreFiled m
      → AreFiled (mark_all instrument price multiple m)
  unfolding mark_all mark
  AreFiled-mark_all instrument price multiple [] hs = tt
  AreFiled-mark_all instrument price multiple ((k, p) ∷ m) (h, hs) =
      let rest = AreFiled-mark_all instrument price multiple m hs in
      by_test AreFiled (text_eq p.instrument_id instrument) (h, rest) (h, rest)

  -- A position of the manager replaced by one of the same key.
  AreFiled-replaced :
      (m : PositionManager W) (key : Text) (f : Position W → Position W) (p : Position W)
      → key_of (f p) ≡ key_of p
      → AreFiled m.positions
      → lookup key m.positions ≡ some p
      → AreFiled (put key (f p) m.positions)
  AreFiled-replaced m key f p same hs e =
      AllEntries-put LiesAt key (f p) m.positions
        (cc (same, AllEntries-lookup LiesAt key p m.positions hs e)) hs

  module _ (m : PositionManager W) (account instrument : Text) (hs : AreFiled m.positions) where
    open_position-AreFiled :
        (side : OrderSide) (volume : ℤ) (price margin : W)
        → AreFiled (open_position m account instrument side volume price margin).positions
    unfolding open_position new_position
    open_position-AreFiled side volume price margin =
        let key = make_key account instrument in
        elim (Option-cases (lookup key m.positions)) [
          | inl e ↦
              rw (e, open_position)
                (AllEntries-put LiesAt key _ m.positions
                  (key_of-open_side side volume price margin (new_position account instrument)) hs)
          | inr (p, e) ↦
              rw (e, open_position)
                (AreFiled-replaced m key (open_side side volume price margin) p
                  (key_of-open_side side volume price margin p) hs e)
        ]

    close_position-AreFiled :
        (side : OrderSide) (volume : ℤ) (price : W) (multiple : ℤ)
        → AreFiled (close_position m account instrument side volume price multiple).0.positions
    unfolding close_position
    close_position-AreFiled side volume price multiple =
        let key = make_key account instrument in
        elim (Option-cases (lookup key m.positions)) [
          | inl e ↦ rw (e, close_position) hs
          | inr (p, e) ↦
              rw (e, close_position)
                (AreFiled-replaced m key (λ q. close_side side volume q) p
                  (key_of-close_side side volume p) hs e)
        ]

    update_profit-AreFiled :
        (price : W) (multiple : ℤ)
        → AreFiled (update_profit m account instrument price multiple).0.positions
    unfolding update_profit mark
    update_profit-AreFiled price multiple =
        let key = make_key account instrument in
        elim (Option-cases (lookup key m.positions)) [
          | inl e ↦ rw (e, update_profit) hs
          | inr (p, e) ↦
              rw (e, update_profit) (AreFiled-replaced m key (mark price multiple) p refl hs e)
        ]

  perform-AreFiled :
      (c : Call W) (m : PositionManager W) → AreFiled m.positions → AreFiled (perform c m).positions
  unfolding update_all_profits clear
  perform-AreFiled (Call.open_volume account instrument side volume _ price margin) m hs =
      open_position-AreFiled m account instrument hs side volume price margin
  perform-AreFiled (Call.close_volume account instrument side volume price multiple) m hs =
      close_position-AreFiled m account instrument hs side volume price multiple
  perform-AreFiled (Call.mark_instrument instrument price multiple) m hs =
      AreFiled-mark_all instrument price multiple m.positions hs
  perform-AreFiled (Call.mark_position account instrument price multiple) m hs =
      update_profit-AreFiled m account instrument hs price multiple
  perform-AreFiled Call.clear_all m hs = tt

  perform_all-AreFiled :
      (calls : List (Call W)) (m : PositionManager W)
      → AreFiled m.positions
      → AreFiled (perform_all calls m).positions
  perform_all-AreFiled [] m hs = hs
  perform_all-AreFiled (c ∷ cs) m hs =
      perform_all-AreFiled cs (perform c m) (perform-AreFiled c m hs)

  -- Whatever a manager loads at its start, and whatever is done to it then, the position that it
  -- finds for an account and an instrument is of this account and this instrument, if neither the
  -- instrument asked for nor the one of the position has an underscore in its name.
  pub get_position-perform_all :
      (loaded : Option (List (Position W))) (calls : List (Call W)) (account instrument : Text)
      (p : Position W)
      → HasNoUnderscore instrument
      → HasNoUnderscore p.instrument_id
      → get_position (perform_all calls (init loaded)) account instrument ≡ some p
      → (p.account_id ≡ account) × (p.instrument_id ≡ instrument)
  get_position-perform_all loaded calls account instrument p hi hp e =
      make_key-injective p.account_id account p.instrument_id instrument hp hi (
        AllEntries-lookup LiesAt (make_key account instrument) p _
          (perform_all-AreFiled calls (init loaded) (init-AreFiled loaded)) e)
