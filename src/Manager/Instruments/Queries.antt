-- ===== src/Manager/Instruments/Queries.antt =====
-- src/app/manager/instrument_manager.cpp: what the queries answer.
use fix4_0_demo.Prelude.{
  ℕ, zero, suc, ◌≤◌, ◌≡◌, refl, Bool, true, false, inl, inr, by_test, by_test_of, List, [], ◌∷◌,
  Option, none, some, Option-cases, if◌then◌else◌, All, length, take, Text, is_empty, starts_with,
  arith, lookup, lookup-put, text_eq, text_eq_iff,
}
use fix4_0_demo.Manager.Risk.{Instrument}
use fix4_0_demo.Manager.Instruments.{
  text_leb, insert_text, sort_texts, Instruments, ids_where, search_by_prefix, update_limit_prices,
  get_instrument, has_instrument,
}

text_leb_total : (a b : Text) → text_leb a b ≡ false → text_leb b a ≡ true
unfolding text_leb
text_leb_total [] b h = ground arith
text_leb_total (x ∷ a) [] h = refl
text_leb_total (x ∷ a) (y ∷ b) h = ground (arith, text_leb_total a b)

abbrev IsBelow : Text → List Text → Type 0
IsBelow a [] = Unit
IsBelow a (b ∷ _) = text_leb a b ≡ true

-- Each text is at most the next.
abbrev pub IsSorted : List Text → Type 0
IsSorted [] = Unit
IsSorted (a ∷ texts) = IsBelow a texts × IsSorted texts

IsBelow-insert_text :
    (a b : Text) (texts : List Text)
    → text_leb b a ≡ true
    → IsBelow b texts
    → IsBelow b (insert_text a texts)
unfolding insert_text
IsBelow-insert_text a b [] h l = h
IsBelow-insert_text a b (c ∷ texts) h l = by_test (IsBelow b) (text_leb a c) h l

IsSorted-insert_text :
    (a : Text) (texts : List Text) → IsSorted texts → IsSorted (insert_text a texts)
unfolding insert_text
IsSorted-insert_text a [] s = (tt, tt)
IsSorted-insert_text a (b ∷ texts) (l, s) =
    by_test_of IsSorted (text_leb a b) (λ h. (h, (l, s)))
      (λ h.
        (IsBelow-insert_text a b texts (text_leb_total a b h) l, IsSorted-insert_text a texts s))

IsSorted-sort_texts : (texts : List Text) → IsSorted (sort_texts texts)
unfolding sort_texts
IsSorted-sort_texts [] = tt
IsSorted-sort_texts (a ∷ texts) =
    IsSorted-insert_text a (sort_texts texts) (IsSorted-sort_texts texts)

IsBelow-take : (a : Text) (n : ℕ) (texts : List Text) → IsBelow a texts → IsBelow a (take n texts)
IsBelow-take a zero texts l = tt
IsBelow-take a (suc n) [] l = tt
IsBelow-take a (suc n) (b ∷ texts) l = l

IsSorted-take : (n : ℕ) (texts : List Text) → IsSorted texts → IsSorted (take n texts)
IsSorted-take zero texts s = tt
IsSorted-take (suc n) [] s = tt
IsSorted-take (suc n) (a ∷ texts) (l, s) = (IsBelow-take a n texts l, IsSorted-take n texts s)

length-take_le : (n : ℕ) (texts : List Text) → length (take n texts) ≤ n
length-take_le zero texts = omega arith
length-take_le (suc n) [] = omega arith
length-take_le (suc n) (a ∷ texts) = omega (arith, length-take_le n texts)

module _ (P : Text → Type 0) where
  All-insert_text : (a : Text) (texts : List Text) → P a → All P texts → All P (insert_text a texts)
  unfolding insert_text
  All-insert_text a [] h hs = (h, tt)
  All-insert_text a (b ∷ texts) h (hb, hs) =
      by_test (All P) (text_leb a b) (h, (hb, hs)) (hb, All-insert_text a texts h hs)

  All-sort_texts : (texts : List Text) → All P texts → All P (sort_texts texts)
  unfolding sort_texts
  All-sort_texts [] hs = tt
  All-sort_texts (a ∷ texts) (h, hs) =
      All-insert_text a (sort_texts texts) h (All-sort_texts texts hs)

  All-take : (n : ℕ) (texts : List Text) → All P texts → All P (take n texts)
  All-take zero texts hs = tt
  All-take (suc n) [] hs = tt
  All-take (suc n) (a ∷ texts) (h, hs) = (h, All-take n texts hs)

module _ {W : Type 0} where
  ids_where-prefix :
      (prefix : Text) (m : Instruments W)
      → All (λ id. starts_with prefix id ≡ true) (ids_where (λ id _. starts_with prefix id) m)
  unfolding ids_where
  ids_where-prefix prefix [] = tt
  ids_where-prefix prefix ((id, i) ∷ m) =
      by_test_of (All (λ x. starts_with prefix x ≡ true)) (starts_with prefix id)
        (λ h. (h, ids_where-prefix prefix m)) (λ _. ids_where-prefix prefix m)

  -- A search by prefix answers, in the order of the texts, with ids that begin with the prefix, at
  -- most as many as the limit.
  pub search_by_prefix-IsSorted :
      (prefix : Text) (limit : ℕ) (m : Instruments W)
      → IsSorted (search_by_prefix prefix limit m)
        × All (λ id. starts_with prefix id ≡ true) (search_by_prefix prefix limit m)
        × (length (search_by_prefix prefix limit m) ≤ limit)
  unfolding search_by_prefix
  search_by_prefix-IsSorted prefix limit m =
      let found = ids_where (λ id _. starts_with prefix id) m in
      let P : List Text → Type 0 = λ texts.
        IsSorted texts × All (λ id. starts_with prefix id ≡ true) texts × (length texts ≤ limit) in
      by_test P (is_empty prefix) (tt, tt, omega arith)
        (
          IsSorted-take limit (sort_texts found) (IsSorted-sort_texts found),
          All-take (λ id. starts_with prefix id ≡ true) limit (sort_texts found)
              (All-sort_texts (λ id. starts_with prefix id ≡ true) found
                (ids_where-prefix prefix m)),
          length-take_le limit (sort_texts found),
        )

  -- What an update of the limit prices of `id` does to an instrument.
  abbrev pub with_limits : Bool → W → W → Option (Instrument W) → Option (Instrument W)
  with_limits same upper lower none = none
  with_limits same upper lower (some i) =
      some (if same then record i { upper_limit_price = upper; lower_limit_price = lower } else i)

  -- Updating the limit prices says whether the instrument is known, and changes these two prices of
  -- this instrument and nothing else.
  pub update_limit_prices-get_instrument :
      (id k : Text) (upper lower : W) (m : Instruments W)
      → ((update_limit_prices id upper lower m).0 ≡ has_instrument id m)
        × (get_instrument k (update_limit_prices id upper lower m).1
            ≡ with_limits (text_eq id k) upper lower (get_instrument k m))
  update_limit_prices-get_instrument id k upper lower m = elim (Option-cases (lookup id m)) [
    | inl n ↦ (grind (arith, n), grind (arith, n, text_eq_iff id k))
    | inr (i, h) ↦ (grind (arith, h), grind (arith, h, text_eq_iff id k, lookup-put id k _ m))
  ]
