-- ===== src/Fix/FrameDecoder.antt =====
-- src/fix/fix_frame_decoder.cpp: cutting a byte stream into whole messages.
pub mod Bounds
pub mod Framing
pub mod Cutting
use fix4_0_demo.Prelude.{
  ℕ, ◌+◌, ◌-◌, Bool, true, false, ◌&&◌, ◌||◌, not, List, [], ◌∷◌, ◌++◌, Option, none, some, ltb,
  leb, if◌then◌else◌, ℤ, pos, negsuc, Text, codes, length, take, drop, stoi, find, find_from,
  is_empty,
}
use fix4_0_demo.Fix.Message.{Result, ok, err, buffer_limit_exceeded}
use fix4_0_demo.Fix.Codec.{soh}

pub record FixFrameDecoder : Type 0 where
  pub buffer : Text
  pub max_buffer_size : ℕ
  pub max_body_length : ℕ

unfoldable pub init : ℕ → ℕ → FixFrameDecoder
init max_buffer_size max_body_length = record {
  buffer = [];
  max_buffer_size = max_buffer_size;
  max_body_length = max_body_length;
}

unfoldable pub can_append : FixFrameDecoder → ℕ → Bool
can_append d len =
    if leb d.max_buffer_size (length d.buffer)
    then false
    else if ltb (d.max_buffer_size - length d.buffer) len
    then false
    else true

unfoldable pub append : FixFrameDecoder → Text → Result FixFrameDecoder
append d bytes =
    if leb d.max_buffer_size (length d.buffer)
      || ltb (d.max_buffer_size - length d.buffer) (length bytes)
    then err buffer_limit_exceeded
    else ok (record d { buffer = d.buffer ++ bytes })

pub data Frame : Type 0 where
  -- a whole message
  message : Text → Frame
  -- more bytes are needed
  incomplete : Frame
  -- the exception for a bad BodyLength
  invalid_length : Frame

abbrev pub begin_mark : Text
begin_mark = codes "8=FIX.4.0" ++ soh ∷ []

abbrev pub length_mark : Text
length_mark = soh ∷ codes "9="

-- `"10=NNN\x01"`
abbrev pub trailer_length : ℕ
trailer_length = 7

abbrev pub with_buffer : FixFrameDecoder → Text → FixFrameDecoder
with_buffer d buffer = record d { buffer = buffer }

-- Behind the BodyLength field, which ends at `end_pos`.
unfoldable pub cut_message : FixFrameDecoder → ℕ → ℕ → FixFrameDecoder × Frame
cut_message d end_pos body_length =
    let total_msg_len = end_pos + 1 + body_length + trailer_length in
    if ltb (length d.buffer) total_msg_len
    then (d, incomplete)
    else (with_buffer d (drop total_msg_len d.buffer), message (take total_msg_len d.buffer))

-- From the value of BodyLength on; a value that is no number, or out of range, empties the buffer.
unfoldable pub read_length : FixFrameDecoder → ℕ → ℕ → FixFrameDecoder × Frame
unfolding cut_message
read_length d val_pos end_pos = elim (stoi (take (end_pos - val_pos) (drop val_pos d.buffer))) [
  | none ↦ (with_buffer d [], invalid_length)
  | some (negsuc n) ↦ (with_buffer d [], invalid_length)
  | some (pos n) ↦
      if ltb d.max_body_length n
      then (with_buffer d [], invalid_length)
      else cut_message d end_pos n
]

-- With the buffer at the start of a message.
unfoldable pub read_frame : FixFrameDecoder → FixFrameDecoder × Frame
unfolding read_length find find_from
read_frame d = elim (find length_mark d.buffer) [
  | none ↦ (d, incomplete)
  | some tag_pos ↦ elim (find_from (soh ∷ []) d.buffer (tag_pos + 3)) [
    | none ↦ (d, incomplete)
    | some end_pos ↦ read_length d (tag_pos + 3) end_pos
  ]
]

unfoldable pub next_message : FixFrameDecoder → FixFrameDecoder × Frame
unfolding read_frame find
next_message d = if is_empty d.buffer then (d, incomplete) else elim (find begin_mark d.buffer) [
  | none ↦ (with_buffer d [], incomplete)
  | some start ↦ read_frame (with_buffer d (drop start d.buffer))
]
