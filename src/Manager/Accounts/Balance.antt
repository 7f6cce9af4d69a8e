-- ===== src/Manager/Accounts/Balance.antt =====
-- src/app/manager/account_manager.cpp: the available funds beside what
-- `Account::recalculateAvailable` computes, in whole cents, where sums are exact.
use fix4_0_demo.Prelude.{
  ◌≡◌, List, [], ◌∷◌, some, if◌then◌else◌, Text, Bool-cases, Option-cases, inl, inr, Double,
  ticks_double, lookup, AllValues, AllValues-put, AllValues-lookup, lookup-put_self, ℤ, pos, ◌+ℤ◌,
  ◌-ℤ◌, ◌≤ℤ◌, ltb_ℤ, max_ℤ, int_laws, int_eq, arith, ltb_ℤ→le,
}
use fix4_0_demo.Manager.Accounts.{
  Account, AccountManager, new_account, recalculate_available, change, create_account,
  freeze_margin, unfreeze_margin, confirm_margin, release_margin, update_position_profit,
  add_close_profit, clear, confirmed,
}

instance cents : Double ℤ
cents = ticks_double

-- What `recalculateAvailable` would set.
abbrev pub IsBalanced : Account ℤ → Type 0
IsBalanced a = a.available ≡ (recalculate_available ⦃d = ticks_double⦄ a).available

abbrev pub AreBalanced : AccountManager ℤ → Type 0
AreBalanced m = AllValues IsBalanced m.accounts

-- The operations that change accounts.
pub data Call : Type 0 where
  create : Text → ℤ → Call
  freeze : Text → ℤ → Call
  unfreeze : Text → ℤ → Call
  -- used no more than was frozen
  confirm : Text → (frozen used : ℤ) → used ≤ℤ frozen → Call
  release : Text → ℤ → Call
  position_profit : Text → ℤ → Call
  close_profit : Text → ℤ → Call
  clear_all : Call

abbrev pub perform : Call → AccountManager ℤ → AccountManager ℤ
perform (create id initial) m = (create_account ⦃d = ticks_double⦄ m id initial).0
perform (freeze id amount) m = (freeze_margin ⦃d = ticks_double⦄ m id amount).0
perform (unfreeze id amount) m = (unfreeze_margin ⦃d = ticks_double⦄ m id amount).0
perform (confirm id frozen used _) m = (confirm_margin ⦃d = ticks_double⦄ m id frozen used).0
perform (release id amount) m = (release_margin ⦃d = ticks_double⦄ m id amount).0
perform (position_profit id profit) m = (update_position_profit ⦃d = ticks_double⦄ m id profit).0
perform (close_profit id profit) m = (add_close_profit ⦃d = ticks_double⦄ m id profit).0
perform clear_all m = clear m

abbrev pub perform_all : List Call → AccountManager ℤ → AccountManager ℤ
perform_all [] m = m
perform_all (c ∷ cs) m = perform_all cs (perform c m)

change-AreBalanced :
    (m : AccountManager ℤ) (id : Text) (f : Account ℤ → Account ℤ)
    → ((a : Account ℤ) → IsBalanced a → IsBalanced (f a))
    → AreBalanced m
    → AreBalanced (change m id f).0
unfolding change
change-AreBalanced m id f keeps hs = elim (Option-cases (lookup id m.accounts)) [
  | inl e ↦ rw (e, change) hs
  | inr (a, e) ↦
      rw (e, change)
        (AllValues-put IsBalanced id (f a) m.accounts
          (keeps a (AllValues-lookup IsBalanced id a m.accounts hs e)) hs)
]

freeze_margin-AreBalanced :
    (m : AccountManager ℤ) (id : Text) (amount : ℤ)
    → AreBalanced m
    → AreBalanced (freeze_margin ⦃d = ticks_double⦄ m id amount).0
unfolding freeze_margin recalculate_available
freeze_margin-AreBalanced m id amount hs = elim (Option-cases (lookup id m.accounts)) [
  | inl e ↦ rw (e, freeze_margin) hs
  | inr (a, e) ↦
      rw (e, freeze_margin)
        (elim (Bool-cases (ltb_ℤ a.available amount)) [
          | inl short ↦ rw short hs
          | inr enough ↦ rw enough (
              AllValues-put IsBalanced id _ m.accounts
                (omega (int_laws, int_eq (AllValues-lookup IsBalanced id a m.accounts hs e))) hs)
        ])
]

create_account-AreBalanced :
    (m : AccountManager ℤ) (id : Text) (initial : ℤ)
    → AreBalanced m
    → AreBalanced (create_account ⦃d = ticks_double⦄ m id initial).0
unfolding create_account new_account recalculate_available
create_account-AreBalanced m id initial hs = elim (Option-cases (lookup id m.accounts)) [
  | inl e ↦ rw (e, create_account) (AllValues-put IsBalanced id _ m.accounts (omega int_laws) hs)
  | inr (a, e) ↦ rw (e, create_account) hs
]

perform-AreBalanced : (c : Call) (m : AccountManager ℤ) → AreBalanced m → AreBalanced (perform c m)
unfolding unfreeze_margin confirm_margin release_margin update_position_profit add_close_profit
    clear recalculate_available
perform-AreBalanced (Call.create id initial) m hs = create_account-AreBalanced m id initial hs
perform-AreBalanced (Call.freeze id amount) m hs = freeze_margin-AreBalanced m id amount hs
perform-AreBalanced (Call.unfreeze id amount) m hs =
    change-AreBalanced m id _ (λ a h. omega (int_laws, int_eq h)) hs
perform-AreBalanced (Call.confirm id frozen used le) m hs =
    change-AreBalanced m id _
      (λ a h. elim (Bool-cases (ltb_ℤ (pos 0) (frozen -ℤ used))) [
        | inl e ↦ rw e (omega (int_laws, int_eq h))
        | inr e ↦ rw e (omega (int_laws, int_eq h, ltb_ℤ→le (pos 0) (frozen -ℤ used) e))
      ])
      hs
perform-AreBalanced (Call.release id amount) m hs =
    change-AreBalanced m id _ (λ a h. omega (int_laws, int_eq h)) hs
perform-AreBalanced (Call.position_profit id profit) m hs =
    change-AreBalanced m id _ (λ a h. omega (int_laws, int_eq h)) hs
perform-AreBalanced (Call.close_profit id profit) m hs =
    change-AreBalanced m id _ (λ a h. omega (int_laws, int_eq h)) hs
perform-AreBalanced Call.clear_all m hs = tt

-- When all amounts are whole cents, whose sums are exact (sums of the program's `double`s are
-- rounded): whatever sequence of operations is performed, as long as a confirmed margin is no larger
-- than what was frozen for it, the available funds of every account stay its balance and its
-- position profit less its frozen and its used margin.
pub perform_all-AreBalanced :
    (calls : List Call) (m : AccountManager ℤ) → AreBalanced m → AreBalanced (perform_all calls m)
perform_all-AreBalanced [] m hs = hs
perform_all-AreBalanced (c ∷ cs) m hs =
    perform_all-AreBalanced cs (perform c m) (perform-AreBalanced c m hs)

max_ℤ-excess :
    (frozen used : ℤ)
    → max_ℤ (pos 0) (used -ℤ frozen)
      ≡ (if ltb_ℤ (pos 0) (frozen -ℤ used) then pos 0 else used -ℤ frozen)
unfolding max_ℤ ◌-ℤ◌
max_ℤ-excess frozen used = ground arith

-- When all amounts are whole cents, whose sums are exact (sums of the program's `double`s are
-- rounded): confirming a margin for a known account whose available funds are its balance and
-- position profit less its margins leaves them too high by as much as the used margin exceeds the
-- frozen one.
pub confirm_margin-excess :
    (m : AccountManager ℤ) (id : Text) (frozen used : ℤ) (a : Account ℤ)
    → lookup id m.accounts ≡ some a
    → IsBalanced a
    → (b : Account ℤ) × (lookup id (confirm_margin ⦃d = ticks_double⦄ m id frozen used).0.accounts
        ≡ some b)
      × (b.available
          ≡ (recalculate_available ⦃d = ticks_double⦄ b).available
            +ℤ max_ℤ (pos 0) (used -ℤ frozen))
unfolding confirm_margin change recalculate_available
confirm_margin-excess m id frozen used a e h = (
  confirmed ⦃d = ticks_double⦄ frozen used a,
  rw (e, change) (lookup-put_self id _ m.accounts),
  rw (max_ℤ-excess frozen used) (elim (Bool-cases (ltb_ℤ (pos 0) (frozen -ℤ used))) [
    | inl f ↦ rw f (omega (int_laws, int_eq h))
    | inr f ↦ rw f (omega (int_laws, int_eq h))
  ]),
)
