-- ===== src/Engine/OrderBook/Taking.antt =====
-- src/app/engine/order_book.cpp: one order taken out of the orders that rest, and one id out of
-- `orderIndex_`.
use fix4_0_demo.Prelude.{
  true, false, ◌≡◌, refl, ◌∙◌, ap, inl, inr, Bool-cases, none, List, [], ◌∷◌, ◌++◌, append_assoc,
  Text, text_eq, text_eq_iff, is_empty, arith,
}
use mathlib.Core.Bool.{false≢true}
use fix4_0_demo.Engine.Order.{Order}
use fix4_0_demo.Engine.OrderBook.{Levels, Index, find_index, erase_index}

-- One order is gone, and all others stand as they stood.
pub record Taken {A : Type 0} (xs xs' : List A) (x : A) : Type 0 where
  pub before : List A
  pub after : List A
  pub was : xs ≡ before ++ (x ∷ after)
  pub left : xs' ≡ before ++ after

module _ {A : Type 0} where
  pub Taken-here : (x : A) (xs : List A) → Taken (x ∷ xs) xs x
  Taken-here x xs = record { before = []; after = xs; was = refl; left = refl }

  pub Taken-there : (y x : A) (xs xs' : List A) → Taken xs xs' x → Taken (y ∷ xs) (y ∷ xs') x
  Taken-there y x xs xs' t = record {
    before = y ∷ t.before;
    after = t.after;
    was = ap (λ (l : List A). y ∷ l) t.was;
    left = ap (λ (l : List A). y ∷ l) t.left;
  }

  -- With more behind.
  pub Taken-append : (x : A) (xs xs' ys : List A) → Taken xs xs' x → Taken (xs ++ ys) (xs' ++ ys) x
  Taken-append x xs xs' ys t = record {
    before = t.before;
    after = t.after ++ ys;
    was = ap (λ (l : List A). l ++ ys) t.was ∙ append_assoc t.before (x ∷ t.after) ys;
    left = ap (λ (l : List A). l ++ ys) t.left ∙ append_assoc t.before t.after ys;
  }

  -- With more in front.
  pub append-Taken : (x : A) (ys xs xs' : List A) → Taken xs xs' x → Taken (ys ++ xs) (ys ++ xs') x
  append-Taken x [] xs xs' t = t
  append-Taken x (y ∷ ys) xs xs' t =
      Taken-there y x (ys ++ xs) (ys ++ xs') (append-Taken x ys xs xs' t)

  pub empty_append : (xs ys : List A) → is_empty xs ≡ true → xs ++ ys ≡ ys
  empty_append [] ys e = refl
  empty_append (x ∷ xs) ys e = absurd (false≢true e)

module _ {W : Type 0} where
  -- The orders that rest on a side, best price first, and by their age at a price.
  abbrev pub resting : Levels W → List (Order W)
  resting [] = []
  resting ((key, level) ∷ levels) = level.orders ++ resting levels

  pub find_index-erase_index :
      (id : Text) (index : Index W) → find_index id (erase_index id index) ≡ none
  unfolding find_index erase_index
  find_index-erase_index id [] = refl
  find_index-erase_index id ((k, l) ∷ index) = elim (Bool-cases (text_eq k id)) [
    | inl e ↦ rw e (find_index-erase_index id index)
    | inr e ↦ rw (e, e) (find_index-erase_index id index)
  ]

  pub find_index-erase_index_ne :
      (id other : Text) (index : Index W)
      → text_eq id other ≡ false
      → find_index other (erase_index id index) ≡ find_index other index
  unfolding find_index erase_index
  find_index-erase_index_ne id other [] h = refl
  find_index-erase_index_ne id other ((k, l) ∷ index) h =
      ground (arith, text_eq_iff k id, find_index-erase_index_ne id other index h)
