-- ===== src/Timer/Counting.antt =====
-- How often an id stands in a list or a slot, and the arithmetic of slots and laps.
use native.Mathlib.Nat.{mod-add-mod, div-add-mod, mul-mod_right, mul-sub, add-mul-mod_self_left}
use fix4_0_demo.Prelude.{
  ltb, ◌&&◌, ℕ, suc, ◌+◌, ◌-◌, ◌*◌, ◌/◌, ◌%◌, ◌<◌, ◌≡◌, ◌≢◌, refl, List, [], ◌∷◌, ◌++◌, arith, ◌==◌,
  if◌then◌else◌, length, get_or, set, get_or-set_self, get_or-set_ne, replicate, ◌∙◌, sym, ap,
}
use fix4_0_demo.Timer.{push_back}

abbrev pub count : ℕ → List ℕ → ℕ
count i [] = 0
count i (x ∷ xs) = (if x == i then 1 else 0) + count i xs

pub count-append : (i : ℕ) (xs ys : List ℕ) → count i (xs ++ ys) ≡ count i xs + count i ys
count-append i [] ys = omega arith
count-append i (x ∷ xs) ys = ground (arith, count-append i xs ys)

-- How often the id stands in the slot.
abbrev pub slot_count : ℕ → List (List ℕ) → ℕ → ℕ
slot_count i wheel s = count i (get_or wheel s [])

pub slot_count-replicate : (i n s : ℕ) → slot_count i (replicate n []) s ≡ 0
slot_count-replicate i ℕ.zero s = refl
slot_count-replicate i (suc n) ℕ.zero = refl
slot_count-replicate i (suc n) (suc s) = slot_count-replicate i n s

pub slot_count-set_self :
    (i : ℕ) (wheel : List (List ℕ)) (s : ℕ) (v : List ℕ)
    → s < length wheel
    → slot_count i (set wheel s v) s ≡ count i v
slot_count-set_self i wheel s v h = ap (count i) (get_or-set_self wheel s v [] h)

pub slot_count-set_ne :
    (i : ℕ) (wheel : List (List ℕ)) (s s' : ℕ) (v : List ℕ)
    → s ≢ s'
    → slot_count i (set wheel s v) s' ≡ slot_count i wheel s'
slot_count-set_ne i wheel s s' v h = ap (count i) (get_or-set_ne wheel s s' v [] h)

pub slot_count-push :
    (i : ℕ) (wheel : List (List ℕ)) (s id s' : ℕ)
    → slot_count i (push_back wheel s id) s'
      ≡ slot_count i wheel s' + (if s == s' && ltb s (length wheel) && id == i then 1 else 0)
slot_count-push i [] s id s' = ground arith
slot_count-push i (x ∷ xs) ℕ.zero id ℕ.zero = ground (arith, count-append i x (id ∷ []))
slot_count-push i (x ∷ xs) ℕ.zero id (suc s') = ground arith
slot_count-push i (x ∷ xs) (suc s) id ℕ.zero = ground arith
slot_count-push i (x ∷ xs) (suc s) id (suc s') = ground (arith, slot_count-push i xs s id s')

-- A push of another id is not seen.
pub slot_count-push_ne :
    (i : ℕ) (wheel : List (List ℕ)) (s id s' : ℕ)
    → id ≢ i
    → slot_count i (push_back wheel s id) s' ≡ slot_count i wheel s'
slot_count-push_ne i wheel s id s' h = ground (arith, slot_count-push i wheel s id s')

module _ (size : ℕ) (size_pos : 0 < size) where
  pub slot_after_tick : (cur n : ℕ) → ((cur + 1) % size + n) % size ≡ (cur + (n + 1)) % size
  slot_after_tick cur n = mod-add-mod (cur + 1) size n ∙ ap (λ (x : ℕ). x % size) (omega arith)

  -- The slot comes up only when a whole number of laps is left.
  pub laps_left : (cur m : ℕ) → (cur + 1) % size ≡ (cur + (m + 1)) % size → m % size ≡ 0
  laps_left cur m e =
      ap (λ (x : ℕ). x % size) whole
      ∙ mul-mod_right size ((cur + (m + 1)) / size - (cur + 1) / size)
    where
      whole : m ≡ size * ((cur + (m + 1)) / size - (cur + 1) / size)
      whole = omega (
        arith,
        mul-sub size ((cur + (m + 1)) / size) ((cur + 1) / size),
        div-add-mod (cur + 1) size,
        div-add-mod (cur + (m + 1)) size,
        e,
      )

  pub slot_now : (cur m : ℕ) → m % size ≡ 0 → (cur + 1) % size ≡ (cur + (m + 1)) % size
  slot_now cur m e =
      sym (add-mul-mod_self_left (cur + 1) size (m / size))
      ∙ ap (λ (x : ℕ). x % size) (omega (arith, div-add-mod m size, e))

  pub laps_fall : (m : ℕ) → suc m % size ≡ 0 → (0 < suc m / size) × (suc m / size - 1 ≡ m / size)
  laps_fall m e = grind arith

  pub laps_stay : (m : ℕ) → suc m % size ≢ 0 → suc m / size ≡ m / size
  laps_stay m e = grind arith
