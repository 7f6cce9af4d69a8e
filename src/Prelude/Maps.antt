-- ===== src/Prelude/Maps.antt =====
-- An unordered map from texts, as an association list with one entry for each key.
use mathlib.Core.Path.{◌≡◌, refl, sym, subst}
use mathlib.Core.Logic.{inl, inr}
use mathlib.Core.List.{List, [], ◌∷◌}
use mathlib.Core.Option.{Option, none, some}
use fix4_0_demo.Prelude.Tests.{if◌then◌else◌, Bool-cases}
use fix4_0_demo.Prelude.Lists.{All}
use fix4_0_demo.Prelude.Bytes.{Text, text_eq, text_eq_iff, text_eq_refl}
use native.Mathlib.Omega.{arith}

abbrev pub Map : Type 0 → Type 0
Map V = List (Text × V)

module _ {V : Type 0} where
  unfoldable pub lookup : Text → Map V → Option V
  lookup key [] = none
  lookup key ((k, v) ∷ entries) = if text_eq k key then some v else lookup key entries

  unfoldable pub put : Text → V → Map V → Map V
  put key value [] = (key, value) ∷ []
  put key value ((k, v) ∷ entries) =
      if text_eq k key then (k, value) ∷ entries else (k, v) ∷ put key value entries

  pub lookup-put_self :
      (key : Text) (value : V) (m : Map V) → lookup key (put key value m) ≡ some value
  unfolding lookup put
  lookup-put_self key value [] = rw (text_eq_refl key) refl
  lookup-put_self key value ((k, v) ∷ m) = elim (Bool-cases (text_eq k key)) [
    | inl e ↦ rw (e, lookup, e) refl
    | inr e ↦ rw (e, lookup, e) (lookup-put_self key value m)
  ]

  unfoldable pub remove : Text → Map V → Map V
  remove key [] = []
  remove key ((k, v) ∷ entries) =
      let kept = remove key entries in if text_eq k key then kept else (k, v) ∷ kept

  pub lookup-put :
      (k key : Text) (value : V) (m : Map V)
      → lookup key (put k value m) ≡ (if text_eq k key then some value else lookup key m)
  unfolding lookup put
  lookup-put k key value [] = refl
  lookup-put k key value ((j, v) ∷ m) =
      ground
        (arith, text_eq_iff j k, text_eq_iff j key, text_eq_iff k key, lookup-put k key value m)

  pub lookup-remove :
      (k key : Text) (m : Map V)
      → lookup key (remove k m) ≡ (if text_eq k key then none else lookup key m)
  unfolding lookup remove
  lookup-remove k key [] = ground arith
  lookup-remove k key ((j, v) ∷ m) =
      ground (arith, text_eq_iff j k, text_eq_iff j key, text_eq_iff k key, lookup-remove k key m)

  -- What holds of every value in a map.
  abbrev pub AllValues : (V → Type 0) → Map V → Type 0
  AllValues P m = All (λ e. P e.1) m

  pub AllValues-put :
      (P : V → Type 0) (key : Text) (value : V) (m : Map V)
      → P value
      → AllValues P m
      → AllValues P (put key value m)
  unfolding put
  AllValues-put P key value [] h hs = (h, tt)
  AllValues-put P key value ((k, v) ∷ m) h (hv, hs) = elim (Bool-cases (text_eq k key)) [
    | inl e ↦ rw e (h, hs)
    | inr e ↦ rw e (hv, AllValues-put P key value m h hs)
  ]

  abbrev pub IfSome : (V → Type 0) → Option V → Type 0
  IfSome P none = Unit
  IfSome P (some v) = P v

  IfSome-lookup :
      (P : V → Type 0) (key : Text) (m : Map V) → AllValues P m → IfSome P (lookup key m)
  unfolding lookup
  IfSome-lookup P key [] hs = tt
  IfSome-lookup P key ((k, v) ∷ m) (hv, hs) = elim (Bool-cases (text_eq k key)) [
    | inl f ↦ rw f hv
    | inr f ↦ rw f (IfSome-lookup P key m hs)
  ]

  pub AllValues-lookup :
      (P : V → Type 0) (key : Text) (value : V) (m : Map V)
      → AllValues P m
      → lookup key m ≡ some value
      → P value
  AllValues-lookup P key value m hs e =
      subst (λ (o : Option V). IfSome P o) e (IfSome-lookup P key m hs)

  -- What holds of every key with its value.
  abbrev pub AllEntries : (Text → V → Type 0) → Map V → Type 0
  AllEntries P m = All (λ e. P e.0 e.1) m

  pub AllEntries-put :
      (P : Text → V → Type 0) (key : Text) (value : V) (m : Map V)
      → P key value
      → AllEntries P m
      → AllEntries P (put key value m)
  unfolding put
  AllEntries-put P key value [] h hs = (h, tt)
  AllEntries-put P key value ((k, v) ∷ m) h (hv, hs) = elim (Bool-cases (text_eq k key)) [
    | inl e ↦ rw e (subst (λ x. P x value) (sym ((text_eq_iff k key).0 e)) h, hs)
    | inr e ↦ rw e (hv, AllEntries-put P key value m h hs)
  ]

  pub AllEntries-remove :
      (P : Text → V → Type 0) (key : Text) (m : Map V)
      → AllEntries P m
      → AllEntries P (remove key m)
  unfolding remove
  AllEntries-remove P key [] hs = tt
  AllEntries-remove P key ((k, v) ∷ m) (hv, hs) = elim (Bool-cases (text_eq k key)) [
    | inl e ↦ rw e (AllEntries-remove P key m hs)
    | inr e ↦ rw e (hv, AllEntries-remove P key m hs)
  ]

  AllEntries-IfSome :
      (P : Text → V → Type 0) (key : Text) (m : Map V)
      → AllEntries P m
      → IfSome (P key) (lookup key m)
  unfolding lookup
  AllEntries-IfSome P key [] hs = tt
  AllEntries-IfSome P key ((k, v) ∷ m) (hv, hs) = elim (Bool-cases (text_eq k key)) [
    | inl e ↦ rw e (subst (λ x. P x v) ((text_eq_iff k key).0 e) hv)
    | inr e ↦ rw e (AllEntries-IfSome P key m hs)
  ]

  pub AllEntries-lookup :
      (P : Text → V → Type 0) (key : Text) (value : V) (m : Map V)
      → AllEntries P m
      → lookup key m ≡ some value
      → P key value
  AllEntries-lookup P key value m hs e =
      subst (λ (o : Option V). IfSome (P key) o) e (AllEntries-IfSome P key m hs)
