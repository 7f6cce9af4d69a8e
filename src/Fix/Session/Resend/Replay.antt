-- ===== src/Fix/Session/Resend/Replay.antt =====
-- src/fix/session.cpp, `handleResendRequest`: what its replies do to the peer that asked.
use fix4_0_demo.Prelude.{
  ◌≡◌, ◌⊎◌, inl, refl, sym, ◌∙◌, ap, subst, Bool, true, false, not, ◌&&◌, List, [], ◌∷◌, Option,
  none, some, if◌then◌else◌, ℤ, pos, negsuc, ◌+ℤ◌, ◌-ℤ◌, ◌≤ℤ◌, ◌<ℤ◌, max_ℤ, ltb_ℤ, eqb_ℤ,
  eqb_ℤ_refl, int_laws, arith,
}
use fix4_0_demo.Fix.Builders.{is_admin_message}
use fix4_0_demo.Fix.Session.{StoredMessage}
use fix4_0_demo.Fix.Session.Resend.{Reply, gap_fill, resend, gap_fill_if, resend_replies}

abbrev and_message :
    StoredMessage → Option (List StoredMessage × ℤ) → Option (List StoredMessage × ℤ)
and_message m none = none
and_message m (some (messages, n)) = some (m ∷ messages, n)

-- The peer, with the number that it expects: a gap fill moves the number on, and a message has to
-- have it. What it takes, and the number at the end.
unfoldable pub replay : ℤ → List Reply → Option (List StoredMessage × ℤ)
replay n [] = some ([], n)
replay n (gap_fill _ new_seq_no ∷ replies) = replay (max_ℤ n new_seq_no) replies
replay n (resend m ∷ replies) =
    let rest = replay (n +ℤ pos 1) replies in if eqb_ℤ m.seq_num n then and_message m rest else none

unfoldable pub business : List StoredMessage → List StoredMessage
business [] = []
business (m ∷ messages) =
    let rest = business messages in if is_admin_message m.msg_type then rest else m ∷ rest

-- The numbers rise from above `last_seq` up to the end.
abbrev pub AreWithin : ℤ → ℤ → List StoredMessage → Type 0
AreWithin last_seq end_seq_no [] = last_seq ≤ℤ end_seq_no
AreWithin last_seq end_seq_no (m ∷ messages) =
    (last_seq <ℤ m.seq_num) × AreWithin m.seq_num end_seq_no messages

-- What the loop has sent so far, by what the peer expects.
abbrev IsPending : ℤ → ℤ → ℤ → Type 0
IsPending start last_seq n =
    (pos 0 ≤ℤ n)
    × (((start ≡ negsuc 0) × (n ≡ last_seq +ℤ pos 1)) ⊎ ((start ≡ n) × (n ≤ℤ last_seq)))

max_ℤ_lt : (a b : ℤ) → a ≤ℤ b → max_ℤ a b ≡ b
unfolding max_ℤ
max_ℤ_lt a b l = ground arith

nonneg-ne : (n : ℤ) → pos 0 ≤ℤ n → eqb_ℤ n (negsuc 0) ≡ false
nonneg-ne n l = ground arith

-- The start of the gap, once the next number is looked at.
abbrev gap_start : ℤ → ℤ → ℤ → ℤ
gap_start start last_seq seq_num =
    if ltb_ℤ (last_seq +ℤ pos 1) seq_num && eqb_ℤ start (negsuc 0) then last_seq +ℤ pos 1 else start

gap_start-cases :
    (start last_seq n seq_num : ℤ)
    → IsPending start last_seq n
    → last_seq <ℤ seq_num
    → ((gap_start start last_seq seq_num ≡ negsuc 0) × (n ≡ seq_num))
      ⊎ ((gap_start start last_seq seq_num ≡ n) × (n ≤ℤ seq_num))
unfolding ◌+ℤ◌
gap_start-cases start last_seq n seq_num (z, h) l = ground arith

replay-gap_fill_if :
    (n seq_num new_seq_no : ℤ) (replies : List Reply) (condition : Bool)
    → replay n (gap_fill_if condition seq_num new_seq_no replies)
      ≡ replay (if condition then max_ℤ n new_seq_no else n) replies
unfolding replay
replay-gap_fill_if n a b replies true = refl
replay-gap_fill_if n a b replies false = refl

end_lem :
    (end_seq_no start last_seq n : ℤ)
    → IsPending start last_seq n
    → last_seq ≤ℤ end_seq_no
    → (let first : ℤ = if not (eqb_ℤ start (negsuc 0)) then max_ℤ n (end_seq_no +ℤ pos 1) else n in
        if ltb_ℤ last_seq end_seq_no then max_ℤ first (end_seq_no +ℤ pos 1) else first)
      ≡ end_seq_no +ℤ pos 1
unfolding ◌+ℤ◌ max_ℤ
end_lem end_seq_no start last_seq n (z, h) l = ground arith

replay_end :
    (end_seq_no start last_seq n : ℤ)
    → IsPending start last_seq n
    → last_seq ≤ℤ end_seq_no
    → replay n (resend_replies end_seq_no start last_seq []) ≡ some ([], end_seq_no +ℤ pos 1)
unfolding replay resend_replies
replay_end end_seq_no start last_seq n p l =
    replay-gap_fill_if n start (end_seq_no +ℤ pos 1) _ (not (eqb_ℤ start (negsuc 0)))
    ∙ replay-gap_fill_if _ (last_seq +ℤ pos 1) (end_seq_no +ℤ pos 1) [] (ltb_ℤ last_seq end_seq_no)
    ∙ ap (λ x. some ([], x)) (end_lem end_seq_no start last_seq n p l)

skipped_lem :
    (g n seq_num : ℤ)
    → pos 0 ≤ℤ n
    → ((g ≡ negsuc 0) × (n ≡ seq_num)) ⊎ ((g ≡ n) × (n ≤ℤ seq_num))
    → IsPending (if eqb_ℤ g (negsuc 0) then seq_num else g) seq_num n
skipped_lem g n seq_num z h = ground arith

filled_lem :
    (g n seq_num : ℤ)
    → pos 0 ≤ℤ n
    → ((g ≡ negsuc 0) × (n ≡ seq_num)) ⊎ ((g ≡ n) × (n ≤ℤ seq_num))
    → (if not (eqb_ℤ g (negsuc 0)) then max_ℤ n seq_num else n) ≡ seq_num
unfolding max_ℤ
filled_lem g n seq_num z h = ground arith

above_lem :
    (g n seq_num : ℤ)
    → pos 0 ≤ℤ n
    → ((g ≡ negsuc 0) × (n ≡ seq_num)) ⊎ ((g ≡ n) × (n ≤ℤ seq_num))
    → pos 0 ≤ℤ seq_num +ℤ pos 1
unfolding ◌+ℤ◌
above_lem g n seq_num z h = ground arith

-- The message itself, once what is before it is filled.
replay-resend :
    (n : ℤ) (m : StoredMessage) (replies : List Reply) (messages : List StoredMessage) (last : ℤ)
    → n ≡ m.seq_num
    → replay (m.seq_num +ℤ pos 1) replies ≡ some (messages, last)
    → replay n (resend m ∷ replies) ≡ some (m ∷ messages, last)
unfolding replay
replay-resend n m replies messages last e h =
    subst (λ x. replay x (resend m ∷ replies) ≡ some (m ∷ messages, last)) (sym e)
      (rw (eqb_ℤ_refl m.seq_num, h) refl)

replay-resend_replies_lem :
    (end_seq_no start last_seq n : ℤ) (messages : List StoredMessage)
    → IsPending start last_seq n
    → AreWithin last_seq end_seq_no messages
    → replay n (resend_replies end_seq_no start last_seq messages)
      ≡ some (business messages, end_seq_no +ℤ pos 1)
unfolding business resend_replies
replay-resend_replies_lem end_seq_no start last_seq n [] p w =
    replay_end end_seq_no start last_seq n p w
replay-resend_replies_lem end_seq_no start last_seq n (m ∷ messages) p (l, w) =
    let seq_num = m.seq_num in
    let g = gap_start start last_seq seq_num in
    let from = if eqb_ℤ g (negsuc 0) then seq_num else g in
    let cases = gap_start-cases start last_seq n seq_num p l in
    let skipped = resend_replies end_seq_no from seq_num messages in
    let resent = resend_replies end_seq_no (negsuc 0) seq_num messages in
    let filled = gap_fill_if (not (eqb_ℤ g (negsuc 0))) g seq_num (resend m ∷ resent) in
    let P : Bool → Type 0 = λ b.
      replay n (if b then skipped else filled)
      ≡ some (if b then business messages else m ∷ business messages, end_seq_no +ℤ pos 1) in
    elim (is_admin_message m.msg_type) as P [
      | true ↦
          replay-resend_replies_lem end_seq_no from seq_num n messages
            (skipped_lem g n seq_num p.0 cases) w
      | false ↦
          replay-gap_fill_if n g seq_num (resend m ∷ resent) (not (eqb_ℤ g (negsuc 0)))
          ∙ replay-resend _ m resent (business messages) (end_seq_no +ℤ pos 1)
              (filled_lem g n seq_num p.0 cases)
              (replay-resend_replies_lem end_seq_no (negsuc 0) seq_num (seq_num +ℤ pos 1) messages
                (above_lem g n seq_num p.0 cases, inl (refl, refl)) w)
    ]

-- Of stored messages whose numbers rise from `begin_seq_no`, at least 1, up to `end_seq_no`, a peer
-- that expects `begin_seq_no` and takes the replies in their order takes each message of the
-- application once, in order and under its own number, and no other; and it expects the number
-- behind `end_seq_no` at the end.
pub replay-resend_replies :
    (begin_seq_no end_seq_no : ℤ) (messages : List StoredMessage)
    → pos 1 ≤ℤ begin_seq_no
    → AreWithin (begin_seq_no -ℤ pos 1) end_seq_no messages
    → replay begin_seq_no (resend_replies end_seq_no (negsuc 0) (begin_seq_no -ℤ pos 1) messages)
      ≡ some (business messages, end_seq_no +ℤ pos 1)
replay-resend_replies begin_seq_no end_seq_no messages l w =
    replay-resend_replies_lem end_seq_no (negsuc 0) (begin_seq_no -ℤ pos 1) begin_seq_no messages
      (omega int_laws, inl (refl, omega int_laws)) w
