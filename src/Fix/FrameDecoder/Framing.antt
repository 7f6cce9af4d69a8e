-- ===== src/Fix/FrameDecoder/Framing.antt =====
-- src/fix/fix_frame_decoder.cpp on what `FixCodec::encode` writes.
use fix4_0_demo.Prelude.{
  ℕ, ◌+◌, ◌-◌, ◌≤◌, ◌≡◌, ◌≢◌, refl, ◌∙◌, ap, sym, [], ◌∷◌, ◌++◌, some, arith, Text, length,
  length-append, take, drop, stoi, find, find_from, pos, append_assoc, codes, print_ℕ, print_ℤ, All,
  find-skip, find-append, take-append_length, drop-append_length, IsDigits, IsDigits-print_ℕ,
  stoi-print_ℕ, int_max, starts_with,
}
use fix4_0_demo.Fix.Tags
use fix4_0_demo.Fix.Message.{FixMessage, set}
use fix4_0_demo.Fix.Codec.{
  encode, field_text, content_of, prefix_of, calculate_checksum, fix_version, soh,
}
use fix4_0_demo.Fix.Codec.Checksum.{length-calculate_checksum}
use fix4_0_demo.Fix.FrameDecoder.{
  FixFrameDecoder, Frame, message, next_message, cut_message, read_length, read_frame, with_buffer,
  begin_mark, length_mark,
}

-- A message as it stands on the wire: its length as written, its content and its trailer.
abbrev frame : Text → Text → Text → Text
frame digits content trailer =
    codes "8=FIX.4.0" ++ length_mark ++ (digits ++ (soh ∷ (content ++ trailer)))

cut_message-append :
    (d : FixFrameDecoder) (raw rest : Text) (end_pos n : ℕ)
    → d.buffer ≡ raw ++ rest
    → end_pos + 1 + n + 7 ≡ length raw
    → cut_message d end_pos n ≡ (with_buffer d rest, message raw)
unfolding cut_message
cut_message-append d raw rest end_pos n e k =
    rw (k, e, take-append_length raw rest, drop-append_length raw rest)
      (ground (arith, ap length e, length-append raw rest))

not_soh : (s : Text) → IsDigits s → All (λ c. c ≢ soh) s
not_soh [] h = tt
not_soh (c ∷ s) h = (ground arith, not_soh s h.1)

length_mark-found :
    (rest : Text) → find length_mark (codes "8=FIX.4.0" ++ length_mark ++ rest) ≡ some 9
unfolding find starts_with
length_mark-found rest = refl

module _ (d : FixFrameDecoder) (digits tail : Text) (dig : IsDigits digits)
    (e : d.buffer ≡ codes "8=FIX.4.0" ++ length_mark ++ (digits ++ soh ∷ tail)) where
  begin_found : find begin_mark d.buffer ≡ some 0
  begin_found =
      ap (find begin_mark) e ∙ find-append begin_mark (codes "9=" ++ (digits ++ soh ∷ tail))

  tag_found : find length_mark d.buffer ≡ some 9
  tag_found = ap (find length_mark) e ∙ length_mark-found (digits ++ soh ∷ tail)

  end_found : find_from (soh ∷ []) d.buffer (9 + 3) ≡ some (12 + length digits)
  unfolding find_from
  end_found = rw e (rw (find-skip soh digits tail (not_soh digits dig)))

  length_read : take (12 + length digits - (9 + 3)) (drop (9 + 3) d.buffer) ≡ digits
  length_read =
      let n : 12 + length digits - (9 + 3) ≡ length digits = omega arith in
      rw (n, e) (take-append_length digits (soh ∷ tail))

  -- The length field is read as it was written.
  read_frame-cut :
      (n : ℕ)
      → stoi digits ≡ some (pos n)
      → n ≤ d.max_body_length
      → read_frame d ≡ cut_message d (12 + length digits) n
  unfolding read_frame
  read_frame-cut n value fits =
      rw (tag_found, read_frame)
        (rw (end_found, read_frame)
          (rw (length_read, read_length) (rw (value, read_length) (ground arith))))

  next_message-read : next_message d ≡ read_frame d
  unfolding next_message
  next_message-read = rw (begin_found, next_message) (rw e)

-- The decoder on a buffer that starts with a frame whose written length is right.
next_message-frame :
    (d : FixFrameDecoder) (digits content trailer rest : Text)
    → IsDigits digits
    → stoi digits ≡ some (pos (length content))
    → length content ≤ d.max_body_length
    → length trailer ≡ 7
    → d.buffer ≡ frame digits content trailer ++ rest
    → next_message d ≡ (with_buffer d rest, message (frame digits content trailer))
next_message-frame d digits content trailer rest dig value fits seven e =
    next_message-read d digits ((content ++ trailer) ++ rest) dig e'
    ∙ read_frame-cut d digits ((content ++ trailer) ++ rest) dig e' (length content) value fits
    ∙ cut_message-append d (frame digits content trailer) rest (12 + length digits) (length content)
        e
        (omega (
          arith,
          length-append digits (soh ∷ (content ++ trailer)),
          length-append content trailer,
          seven,
        ))
  where
    e' :
        d.buffer
        ≡ codes "8=FIX.4.0" ++ length_mark ++ (digits ++ soh ∷ ((content ++ trailer) ++ rest))
    e' =
        e
        ∙ ap (λ (t : Text). codes "8=FIX.4.0" ++ length_mark ++ t)
            (append_assoc digits (soh ∷ (content ++ trailer)) rest)

begin_field : field_text Tags.begin_string fix_version ≡ begin_mark
unfolding print_ℤ
begin_field = refl

length_field :
    (digits : Text) → field_text Tags.body_length digits ≡ codes "9=" ++ (digits ++ soh ∷ [])
unfolding print_ℤ
length_field digits = refl

prefix_of-frame :
    (content trailer : Text)
    → prefix_of content ++ trailer ≡ frame (print_ℕ (length content)) content trailer
prefix_of-frame content trailer =
    rw (begin_field, length_field (print_ℕ (length content)))
      (ap (λ (t : Text). codes "8=FIX.4.0" ++ length_mark ++ t)
        (append_assoc (print_ℕ (length content) ++ soh ∷ []) content trailer
          ∙ append_assoc (print_ℕ (length content)) (soh ∷ []) (content ++ trailer)))

check_field : (v : Text) → field_text Tags.check_sum v ≡ codes "10=" ++ (v ++ soh ∷ [])
unfolding print_ℤ
check_field v = refl

trailer_of : Text → Text
trailer_of content = field_text Tags.check_sum (calculate_checksum (prefix_of content))

length-trailer_of : (content : Text) → length (trailer_of content) ≡ 7
unfolding trailer_of
length-trailer_of content = omega (
  arith,
  ap length (check_field (calculate_checksum (prefix_of content))),
  length-append (calculate_checksum (prefix_of content)) (soh ∷ []),
  length-calculate_checksum (prefix_of content),
)

encode-prefix :
    (now : Text) (msg : FixMessage)
    → (encode now msg).0
      ≡ prefix_of (content_of (set Tags.sending_time now msg))
        ++ trailer_of (content_of (set Tags.sending_time now msg))
unfolding encode trailer_of
encode-prefix now msg = refl

-- With a buffer that starts with a message that the encoder wrote, whose body is within the limit
-- of the decoder, which is itself an `int`, the decoder hands out exactly the encoder's text, and
-- keeps what follows it.
pub next_message-encode :
    (d : FixFrameDecoder) (now : Text) (msg : FixMessage) (rest : Text)
    → length (content_of (set Tags.sending_time now msg)) ≤ d.max_body_length
    → d.max_body_length ≤ int_max
    → d.buffer ≡ (encode now msg).0 ++ rest
    → next_message d ≡ (with_buffer d rest, message (encode now msg).0)
next_message-encode d now msg rest fits small e =
    next_message-frame d (print_ℕ (length content)) content (trailer_of content) rest
      (IsDigits-print_ℕ (length content)) (stoi-print_ℕ (length content) (omega arith)) fits
      (length-trailer_of content) (e ∙ ap (λ (t : Text). t ++ rest) written)
    ∙ ap
        (λ (t : Text). (let out : FixFrameDecoder × Frame = (with_buffer d rest, message t) in out))
        (sym written)
  where
    content : Text
    content = content_of (set Tags.sending_time now msg)

    written : (encode now msg).0 ≡ frame (print_ℕ (length content)) content (trailer_of content)
    written = encode-prefix now msg ∙ prefix_of-frame content (trailer_of content)
