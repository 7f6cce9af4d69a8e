-- ===== src/Fix/FrameDecoder/Cutting.antt =====
-- src/fix/fix_frame_decoder.cpp: where `next_message` cuts the buffer, and what becomes of its bytes.
use fix4_0_demo.Prelude.{
  ℕ, zero, suc, ◌+◌, ◌-◌, ◌≤◌, ◌<◌, ◌≡◌, refl, sym, ◌∙◌, ap, subst, ◌⊎◌, inl, inr, true, Bool-cases,
  Option-cases, [], ◌∷◌, ◌++◌, Option, none, some, arith, Text, length, length-append, take, drop,
  take-append-drop, take-append_length, length-take, append_assoc, stoi, find, find_from,
  starts_with, ℤ, pos, negsuc, ltb, is_empty, int_laws, int_eq, pos_part,
}
use mathlib.Core.Option.{none-ne-some, some-injective}
use mathlib.Core.Bool.{false≢true}
use mathlib.Core.Option
use fix4_0_demo.Fix.Codec.{soh}
use fix4_0_demo.Fix.FrameDecoder.{
  FixFrameDecoder, Frame, message, incomplete, invalid_length, next_message, cut_message,
  read_length, read_frame, with_buffer, begin_mark, length_mark, trailer_length,
}

-- A cut behind a known prefix.
cut-append :
    (xs ys : Text) (m : ℕ)
    → (take (length xs + m) (xs ++ ys) ≡ xs ++ take m ys)
      × (drop (length xs + m) (xs ++ ys) ≡ drop m ys)
cut-append [] ys m = let e : 0 + m ≡ m = omega arith in rw e (refl, refl)
cut-append (x ∷ xs) ys m =
    let e : suc (length xs) + m ≡ suc (length xs + m) = omega arith in
    rw e (ap (◌∷◌ x) (cut-append xs ys m).0, (cut-append xs ys m).1)

starts_with-split : (pat s : Text) → starts_with pat s ≡ true → s ≡ pat ++ drop (length pat) s
unfolding starts_with
starts_with-split [] s h = refl
starts_with-split (p ∷ pat) [] h = absurd (false≢true h)
starts_with-split (p ∷ pat) (c ∷ s) h =
    let head : c ≡ p = ground arith in rw head (ap (◌∷◌ p) (starts_with-split pat s (ground arith)))

find_zero : (pat s : Text) → find pat s ≡ some 0 → starts_with pat s ≡ true
unfolding find
find_zero pat [] h = ground arith
find_zero pat (c ∷ s) h = elim (Bool-cases (starts_with pat (c ∷ s))) [
  | inl e ↦ e
  | inr e ↦ absurd (map_suc (find pat s) (rw e at h))
]
  where
    map_suc : (o : Option ℕ) → Option.map suc o ≡ some 0 → ⊥
    map_suc none h = none-ne-some _ h
    map_suc (some n) h = let e = some-injective _ _ h in omega arith

find_behind :
    (pat : Text) (c : ℕ) (s : Text) (n : ℕ) → find pat (c ∷ s) ≡ some (suc n) → find pat s ≡ some n
unfolding find
find_behind pat c s n h = elim (Bool-cases (starts_with pat (c ∷ s))) [
  | inl e ↦ let f = some-injective _ _ (rw e at h) in absurd (omega arith)
  | inr e ↦ map_suc (find pat s) (rw e at h)
]
  where
    map_suc : (o : Option ℕ) → Option.map suc o ≡ some (suc n) → o ≡ some n
    map_suc none h = absurd (none-ne-some _ h)
    map_suc (some m) h = let e = some-injective _ _ h in ap some (omega arith)

find_nil : (pat : Text) (n : ℕ) → find pat [] ≡ some (suc n) → ⊥
unfolding find
find_nil pat n h = elim (Bool-cases (starts_with pat [])) [
  | inl e ↦ let f = some-injective _ _ (rw e at h) in omega arith
  | inr e ↦ none-ne-some _ (rw e at h)
]

-- What is found stands there.
find-split :
    (pat s : Text) (n : ℕ)
    → find pat s ≡ some n
    → (s ≡ take n s ++ (pat ++ drop (n + length pat) s)) × (length (take n s) ≡ n)
find-split pat s zero h =
    let e : 0 + length pat ≡ length pat = omega arith in
    rw e (starts_with-split pat s (find_zero pat s h), refl)
find-split pat [] (suc n) h = absurd (find_nil pat n h)
find-split pat (c ∷ s) (suc n) h =
    let e : suc n + length pat ≡ suc (n + length pat) = omega arith in
    let rest = find-split pat s n (find_behind pat c s n h) in
    rw e (ap (◌∷◌ c) rest.0, ap suc rest.1)

-- A text whose first BodyLength field has the value `digits`: what stands before the field, and
-- what stands behind it.
pub record HasLength (b head digits body : Text) : Type 0 where
  pub whole : b ≡ head ++ (length_mark ++ (digits ++ (soh ∷ body)))
  pub first : find length_mark b ≡ some (length head)
  pub ends : find (soh ∷ []) (digits ++ (soh ∷ body)) ≡ some (length digits)

-- A text that is the beginning of a message: the BodyLength field is not there, or not at its end,
-- or the body and the trailer are shorter than it says.
abbrev pub IsPartial : ℕ → Text → Type 0
IsPartial limit b =
    (find length_mark b ≡ none)
    ⊎ ((head : Text) × (tail : Text) × (b ≡ head ++ (length_mark ++ tail))
        × (find length_mark b ≡ some (length head))
        × (find (soh ∷ []) tail ≡ none))
    ⊎ ((head : Text) × (digits : Text) × (body : Text) × (n : ℕ) × HasLength b head digits body
        × (stoi digits ≡ some (pos n))
        × (n ≤ limit)
        × (length body < n + trailer_length))

-- What may be read of a text that starts with the first bytes of a message.
abbrev pub Reads : ℕ → Text → FixFrameDecoder × Frame → Type 0
Reads limit b (d, message m) =
    (head : Text) × (digits : Text) × (body : Text) × (n : ℕ) × HasLength b head digits
      (body ++ d.buffer)
    × (m ≡ head ++ (length_mark ++ (digits ++ (soh ∷ body))))
    × (stoi digits ≡ some (pos n))
    × (n ≤ limit)
    × (length body ≡ n + trailer_length)
Reads limit b (d, incomplete) = (d.buffer ≡ b) × IsPartial limit b
Reads limit b (d, invalid_length) =
    (d.buffer ≡ [])
    × (head : Text) × (digits : Text) × (body : Text) × HasLength b head digits body
    × ((n : ℕ) → stoi digits ≡ some (pos n) → limit < n)

not_pos : (n m : ℕ) → negsuc n ≡ pos m → ⊥
not_pos n m e = omega (int_laws, int_eq e)

same_pos : (n m limit : ℕ) → pos n ≡ pos m → ltb limit n ≡ true → limit < m
same_pos n m limit e h = let f : n ≡ m = ap pos_part e in rw (sym f) (ground arith)

module _ (d : FixFrameDecoder) (head digits body : Text)
    (h : HasLength d.buffer head digits body) where
  abbrev end_pos : ℕ
  end_pos = length head + 3 + length digits

  -- Everything up to the body.
  abbrev preamble : Text
  preamble = head ++ (length_mark ++ (digits ++ (soh ∷ [])))

  length-preamble : length preamble ≡ end_pos + 1
  length-preamble = omega (
    arith,
    length-append head (length_mark ++ (digits ++ (soh ∷ []))),
    length-append digits (soh ∷ []),
  )

  preamble-append : (x : Text) → preamble ++ x ≡ head ++ (length_mark ++ (digits ++ (soh ∷ x)))
  preamble-append x =
      append_assoc head (length_mark ++ (digits ++ (soh ∷ []))) x
      ∙ ap (λ (t : Text). head ++ (length_mark ++ t)) (append_assoc digits (soh ∷ []) x)

  buffer-split : d.buffer ≡ preamble ++ body
  buffer-split = h.whole ∙ sym (preamble-append body)

  length-buffer : length d.buffer ≡ end_pos + 1 + length body
  length-buffer =
      omega (arith, ap length buffer-split, length-append preamble body, length-preamble)

  -- The buffer cut so many bytes behind the preamble.
  buffer-cut :
      (n m : ℕ)
      → n ≡ end_pos + 1 + m
      → (take n d.buffer ≡ head ++ (length_mark ++ (digits ++ (soh ∷ take m body))))
        × (drop n d.buffer ≡ drop m body)
  buffer-cut n m e =
      let e' : n ≡ length preamble + m = omega (arith, length-preamble) in
      rw (e', buffer-split)
        (
          (cut-append preamble body m).0 ∙ preamble-append (take m body),
          (cut-append preamble body m).1,
        )

  cut_message-Reads :
      (n : ℕ)
      → stoi digits ≡ some (pos n)
      → n ≤ d.max_body_length
      → Reads d.max_body_length d.buffer (cut_message d end_pos n)
  unfolding cut_message
  cut_message-Reads n value fits =
      elim (Bool-cases (ltb (length d.buffer) (end_pos + 1 + n + trailer_length))) [
        | inl e ↦
            rw e (
              refl,
              inr (inr (head, digits, body, n, h, value, fits, ground (arith, length-buffer))),
            )
        | inr e ↦
            let cut =
              buffer-cut (end_pos + 1 + n + trailer_length) (n + trailer_length) (omega arith) in
            rw e (
              head,
              digits,
              take (n + trailer_length) body,
              n,
              subst (HasLength d.buffer head digits)
                  (sym (take-append-drop (n + trailer_length) body)
                    ∙ ap (λ (t : Text). take (n + trailer_length) body ++ t) (sym cut.1))
                  h,
              cut.0,
              value,
              fits,
              ground (arith, length-take (n + trailer_length) body, length-buffer),
            )
      ]

  value_read : take (end_pos - (length head + 3)) (drop (length head + 3) d.buffer) ≡ digits
  value_read =
      let n : end_pos - (length head + 3) ≡ length digits = omega arith in
      rw (n, h.whole, (cut-append head (length_mark ++ (digits ++ (soh ∷ body))) 3).1)
        (take-append_length digits (soh ∷ body))

  read_length-Reads : Reads d.max_body_length d.buffer (read_length d (length head + 3) end_pos)
  unfolding read_length
  read_length-Reads = go (stoi digits) refl
    where
      go :
          (o : Option ℤ)
          → stoi digits ≡ o
          → Reads d.max_body_length d.buffer (read_length d (length head + 3) end_pos)
      go none e =
          rw (value_read, read_length)
            (rw (e, read_length)
              ((refl, head, digits, body, h, λ n f. absurd (none-ne-some _ (sym e ∙ f)))))
      go (some (negsuc n)) e =
          rw (value_read, read_length)
            (rw (e, read_length)
              ((
                refl,
                head,
                digits,
                body,
                h,
                λ m f. absurd (not_pos n m (some-injective _ _ (sym e ∙ f))),
              )))
      go (some (pos n)) e = elim (Bool-cases (ltb d.max_body_length n)) [
        | inl big ↦
            rw (value_read, read_length)
              (rw (e, read_length, big)
                ((
                  refl,
                  head,
                  digits,
                  body,
                  h,
                  λ m f. same_pos n m d.max_body_length (some-injective _ _ (sym e ∙ f)) big,
                )))
        | inr fits ↦
            rw (value_read, read_length)
              (rw (e, read_length, fits) (cut_message-Reads n e (ground arith)))
      ]

  read_length-found :
      (v e : ℕ)
      → v ≡ length head + 3
      → e ≡ end_pos
      → Reads d.max_body_length d.buffer (read_length d v e)
  read_length-found v e f g = rw (f, g) read_length-Reads

no_mark : find begin_mark [] ≡ none
unfolding find starts_with
no_mark = refl

empty_text : (s : Text) → is_empty s ≡ true → s ≡ []
empty_text [] e = refl
empty_text (c ∷ s) e = absurd (false≢true e)

-- With the buffer at the start of a message.
module _ (d : FixFrameDecoder) where
  -- The field that the two searches find.
  found-HasLength :
      (p k : ℕ)
      → find length_mark d.buffer ≡ some p
      → find (soh ∷ []) (drop (p + 3) d.buffer) ≡ some k
      → let tail = drop (p + 3) d.buffer in
        HasLength d.buffer (take p d.buffer) (take k tail) (drop (k + 1) tail)
        × (length (take p d.buffer) ≡ p)
        × (length (take k tail) ≡ k)
  found-HasLength p k e f =
      let mark = find-split length_mark d.buffer p e in
      let tail = drop (p + 3) d.buffer in
      let field = find-split (soh ∷ []) tail k f in
      (
        record {
          whole = mark.0 ∙ ap (λ (t : Text). take p d.buffer ++ (length_mark ++ t)) field.0;
          first = e ∙ ap some (sym mark.1);
          ends = ap (find (soh ∷ [])) (sym field.0) ∙ f ∙ ap some (sym field.1);
        },
        mark.1,
        field.1,
      )

  read_frame-Reads : Reads d.max_body_length d.buffer (read_frame d)
  unfolding read_frame find_from
  read_frame-Reads = elim (Option-cases (find length_mark d.buffer)) [
    | inl none' ↦ rw (none', read_frame) (refl, inl none')
    | inr (p, e) ↦
        let tail = drop (p + 3) d.buffer in
        rw (e, read_frame)
          (elim (Option-cases (find (soh ∷ []) tail)) [
            | inl none' ↦
                rw (none', read_frame)
                  (let mark = find-split length_mark d.buffer p e in
                    (
                      refl,
                      inr (inl (take p d.buffer, tail, mark.0, e ∙ ap some (sym mark.1), none')),
                    ))
            | inr (k, f) ↦
                rw (f, read_frame)
                  (let field = found-HasLength p k e f in
                    read_length-found d (take p d.buffer) (take k tail) (drop (k + 1) tail) field.0
                      (p + 3) (p + 3 + k) (omega (arith, field.1))
                      (omega (arith, field.1, field.2)))
          ])
  ]

-- What becomes of the bytes in the buffer, for each outcome.
abbrev pub Accounts : ℕ → Text → FixFrameDecoder × Frame → Type 0
Accounts limit old r =
    ((find begin_mark old ≡ none) × (r.0.buffer ≡ []) × (r.1 ≡ incomplete))
    ⊎ ((junk : Text) × (b : Text) × (old ≡ junk ++ b)
        × (find begin_mark old ≡ some (length junk))
        × Reads limit b r)

-- Without the first bytes of a message in it, the buffer is emptied. Otherwise what stands before
-- their first occurrence is dropped, and nothing else: if the BodyLength field is whole and its
-- value is a number within the limit, and that many bytes and a trailer of seven follow, the message
-- handed out ends behind them, and what follows stays; if bytes are missing, all stays; and if the
-- value is no such number, the buffer is emptied.
pub next_message-Accounts :
    (d : FixFrameDecoder) → Accounts d.max_body_length d.buffer (next_message d)
unfolding next_message find
next_message-Accounts d = elim (Bool-cases (is_empty d.buffer)) [
  | inl e ↦
      let nothing = empty_text d.buffer e in
      inl (ap (find begin_mark) nothing ∙ no_mark, rw e nothing, rw e refl)
  | inr e ↦ rw e (elim (Option-cases (find begin_mark d.buffer)) [
    | inl none' ↦ rw (none', next_message) (inl (refl, refl, refl))
    | inr (start, e') ↦
        let mark = find-split begin_mark d.buffer start e' in
        rw (e', next_message)
          (inr (
            take start d.buffer,
            drop start d.buffer,
            sym (take-append-drop start d.buffer),
            ap some (sym mark.1),
            read_frame-Reads (with_buffer d (drop start d.buffer)),
          ))
  ])
]
