-- ===== src/Fix/Tests.antt =====
-- A heartbeat written, framed and decoded, and the laws at concrete inputs.
use fix4_0_demo.Prelude.{
  ◌≡◌, refl, ◌≤◌, ◌%◌, print_ℕ, print_ℤ, [], ◌∷◌, ◌++◌, Text, codes, length, arith,
}
use fix4_0_demo.Fix.Tags
use fix4_0_demo.Fix.Message.{FixMessage, set, find_field}
use fix4_0_demo.Fix.Codec.{
  encode, fields_text, build_body_from_message, body_tags, sort, insert_tag, calculate_checksum,
  zero_padded, content_of,
}
use fix4_0_demo.Fix.Codec.Checksum.{calculate_checksum_lem, sum}
use fix4_0_demo.Fix.FrameDecoder.{FixFrameDecoder, message, init, append, next_message, with_buffer}
use fix4_0_demo.Fix.FrameDecoder.Bounds.{append-IsBounded, IsBounded}
use fix4_0_demo.Fix.FrameDecoder.Cutting.{next_message-Accounts, Accounts}
use fix4_0_demo.Fix.FrameDecoder.Framing.{next_message-encode}

abbrev heartbeat : FixMessage
heartbeat =
    (Tags.msg_type, codes "0")
    ∷ (Tags.sender_comp_id, codes "A")
    ∷ (Tags.target_comp_id, codes "B")
    ∷ (Tags.msg_seq_num, codes "7")
    ∷ (Tags.test_req_id, codes "T1")
    ∷ []

abbrev now : Text
now = codes "20240101-00:00:00.000"

-- The heartbeat, and the start of what comes next.
abbrev arrived : FixFrameDecoder
arrived = record {
  buffer = (encode now heartbeat).0 ++ codes "8=FIX";
  max_buffer_size = 1048576;
  max_body_length = 4096;
}

heartbeat_fits : length (content_of (set Tags.sending_time now heartbeat)) ≤ 4096
unfolding fields_text build_body_from_message set find_field body_tags sort insert_tag print_ℕ
    print_ℤ
heartbeat_fits = omega arith

next_message-encode_example :
    next_message arrived ≡ (with_buffer arrived (codes "8=FIX"), message (encode now heartbeat).0)
next_message-encode_example =
    next_message-encode arrived now heartbeat (codes "8=FIX") heartbeat_fits (omega arith) refl

next_message-Accounts_example : Accounts 4096 arrived.buffer (next_message arrived)
next_message-Accounts_example = next_message-Accounts arrived

calculate_checksum_lem_example :
    calculate_checksum (codes "8=FIX.4.0") ≡ zero_padded 3 (sum (codes "8=FIX.4.0") % 256)
calculate_checksum_lem_example = calculate_checksum_lem (codes "8=FIX.4.0") (ground arith)

append-IsBounded_example :
    IsBounded (with_buffer (init 8 4) (codes "8=FIX")) × (codes "8=FIX" ≡ codes "8=FIX")
unfolding init append
append-IsBounded_example =
    append-IsBounded (init 8 4) (with_buffer (init 8 4) (codes "8=FIX")) (codes "8=FIX") refl
