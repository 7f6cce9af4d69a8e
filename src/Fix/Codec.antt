-- ===== src/Fix/Codec.antt =====
-- include/fix/fix_codec.hpp, class FixCodec. The time stamp comes from the clock of the host, so
-- `encode` takes it as an argument.
pub mod Checksum
use fix4_0_demo.Prelude.{
  ℕ, zero, suc, ◌+◌, ◌-◌, ◌%◌, ◌^◌, Bool, true, false, not, ◌&&◌, ◌||◌, List, [], ◌∷◌, ◌++◌, Option,
  none, some, ltb, leb, ◌==◌, if◌then◌else◌, ℤ, pos, negsuc, eqb_ℤ, leb_ℤ, Text, codes, text_eq,
  length, replicate, take, drop, print_ℕ, print_ℤ, stoi, find, find_from, rfind, is_empty, map,
}
use fix4_0_demo.Fix.Tags
use fix4_0_demo.Fix.Message.{
  FixMessage, Result, ok, err, ◌>>=◌, or_throw, Error, checksum_not_found, checksum_mismatch,
  invalid_field, bad_number, body_length_mismatch, find_field, set, set_int, get_string, get_int,
}

abbrev pub soh : ℕ
soh = 1

abbrev pub fix_version : Text
fix_version = codes "FIX.4.0"

-- `tag << "=" << value << SOH`
abbrev pub field_text : ℤ → Text → Text
field_text tag value = print_ℤ tag ++ b'=' ∷ value ++ soh ∷ []

abbrev pub std_header_order : List ℤ
std_header_order =
    Tags.msg_type ∷ Tags.sender_comp_id ∷ Tags.target_comp_id ∷ Tags.msg_seq_num ∷ Tags.sending_time
    ∷ []

-- The fields of `order` that the message has.
unfoldable pub fields_text : FixMessage → List ℤ → Text
fields_text msg [] = []
fields_text msg (tag ∷ order) =
    (elim (find_field tag msg) [ none ↦ [] | some value ↦ field_text tag value ])
    ++ fields_text msg order

abbrev pub mem_tag : ℤ → List ℤ → Bool
mem_tag tag [] = false
mem_tag tag (t ∷ ts) = eqb_ℤ t tag || mem_tag tag ts

abbrev pub is_framing : ℤ → Bool
is_framing tag =
    eqb_ℤ tag Tags.begin_string
    || eqb_ℤ tag Tags.body_length
    || eqb_ℤ tag Tags.check_sum
    || mem_tag tag std_header_order

unfoldable pub body_tags : FixMessage → List ℤ
body_tags [] = []
body_tags ((tag, value) ∷ fields) =
    if is_framing tag then body_tags fields else tag ∷ body_tags fields

-- `std::sort`
unfoldable pub insert_tag : ℤ → List ℤ → List ℤ
insert_tag tag [] = tag ∷ []
insert_tag tag (t ∷ ts) = if leb_ℤ tag t then tag ∷ t ∷ ts else t ∷ insert_tag tag ts

unfoldable pub sort : List ℤ → List ℤ
unfolding insert_tag
sort [] = []
sort (tag ∷ tags) = insert_tag tag (sort tags)

unfoldable pub build_body_from_message : FixMessage → Text
unfolding fields_text body_tags sort
build_body_from_message msg = fields_text msg (sort (body_tags msg))

-- `std::accumulate` over `char`s, which are signed, into a `uint32_t`.
abbrev pub widen_char : ℕ → ℕ
widen_char c = if ltb c 128 then c else c + 2 ^ 32 - 256

unfoldable pub accumulate : Text → ℕ → ℕ
accumulate [] sum = sum
accumulate (c ∷ cs) sum = accumulate cs ((sum + widen_char c) % 2 ^ 32)

-- `std::setfill('0') << std::setw(width)`
abbrev pub zero_padded : ℕ → ℕ → Text
zero_padded width n = replicate (width - length (print_ℕ n)) b'0' ++ print_ℕ n

unfoldable pub calculate_checksum : Text → Text
unfolding accumulate print_ℕ
calculate_checksum content = zero_padded 3 (accumulate content 0 % 256)

-- The header behind `8=` and `9=`, and the body.
abbrev pub content_of : FixMessage → Text
content_of msg = fields_text msg std_header_order ++ build_body_from_message msg

abbrev pub prefix_of : Text → Text
prefix_of content =
    field_text Tags.begin_string fix_version
    ++ field_text Tags.body_length (print_ℕ (length content))
    ++ content

-- The text and the message with the fields that encoding sets.
unfoldable pub encode : Text → FixMessage → Text × FixMessage
unfolding set_int set fields_text build_body_from_message calculate_checksum
encode now msg =
    let stamped = set Tags.sending_time now msg in
    let content = content_of stamped in
    let prefix = prefix_of content in
    (
      prefix ++ field_text Tags.check_sum (calculate_checksum prefix),
      set_int Tags.body_length (pos (length content)) stamped,
    )

-- The pieces that end in SOH; what follows the last one is not read.
unfoldable pub split_fields : Text → Text → List Text
split_fields field [] = []
split_fields field (c ∷ cs) =
    let ended = field ∷ split_fields [] cs in
    let longer = split_fields (field ++ c ∷ []) cs in if c == soh then ended else longer

unfoldable pub decode_field : Text → FixMessage → Result FixMessage
unfolding set find stoi
decode_field field msg = elim (find (b'=' ∷ []) field) [
  | none ↦ err (invalid_field field)
  | some eq_pos ↦ (do
    tag ← or_throw (stoi (take eq_pos field)) (bad_number (take eq_pos field))
    ok (set tag (drop (eq_pos + 1) field) msg))
]

unfoldable pub decode_fields : List Text → FixMessage → Result FixMessage
unfolding decode_field
decode_fields [] msg = ok msg
decode_fields (field ∷ fields) msg =
    if is_empty field
    then decode_fields fields msg
    else (decode_field field msg >>= decode_fields fields)

-- `static_cast<size_t>` of an `int`.
abbrev pub to_size : ℤ → ℕ
to_size (pos n) = n
to_size (negsuc n) = 2 ^ 64 - (n + 1)

-- `raw.find(SOH, raw.find("9=")) + 1`; a search that fails is `npos`, and one from there fails too.
abbrev pub body_start : Text → ℕ
body_start raw = elim (find (codes "9=") raw) [
  | none ↦ 0
  | some at ↦ elim (find_from (soh ∷ []) raw at) [ none ↦ 0 | some p ↦ p + 1 ]
]

abbrev pub checksum_tag : Text
checksum_tag = soh ∷ codes "10="

abbrev pub verify_checksum : Text → ℕ → Result (Unit {0})
verify_checksum raw checksum_pos =
    let expected = take 3 (drop (checksum_pos + length checksum_tag) raw) in
    let actual = calculate_checksum (take (checksum_pos + 1) raw) in
    if text_eq expected actual then ok tt else err (checksum_mismatch expected actual)

abbrev pub verify_body_length : Text → ℕ → FixMessage → Result FixMessage
verify_body_length raw checksum_pos msg = do
  stated ← get_int Tags.body_length msg
  let actual = (checksum_pos + 1 + 2 ^ 64 - body_start raw) % 2 ^ 64
  if to_size stated == actual then ok msg else err (body_length_mismatch stated actual)

unfoldable pub decode : Text → Result FixMessage
unfolding rfind calculate_checksum text_eq split_fields decode_fields get_int find find_from
decode raw = do
  checksum_pos ← or_throw (rfind checksum_tag raw) checksum_not_found
  _ ← verify_checksum raw checksum_pos
  msg ← decode_fields (split_fields [] raw) []
  verify_body_length raw checksum_pos msg
