-- ===== src/Fix/Builders.antt =====
-- include/fix/fix_messages.hpp: the session messages.
use fix4_0_demo.Prelude.{Bool, ◌||◌, [], ℤ, Text, codes, text_eq, is_empty, if◌then◌else◌}
use fix4_0_demo.Fix.Tags
use fix4_0_demo.Fix.Message.{FixMessage, set, set_int}

-- Every builder starts with the type, and sets the two identities and the number.
abbrev pub addressed : Text → Text → ℤ → FixMessage → FixMessage
addressed sender target seq_num msg =
    set_int Tags.msg_seq_num seq_num
      (set Tags.target_comp_id target (set Tags.sender_comp_id sender msg))

abbrev pub of_type : Text → FixMessage
of_type msg_type = set Tags.msg_type msg_type []

unfoldable pub create_logon_message : Text → Text → ℤ → ℤ → Bool → FixMessage
create_logon_message sender target seq_num heart_bt reset_seq_num =
    let logon = addressed sender target seq_num (
      set_int Tags.heart_bt_int heart_bt
        (set Tags.encrypt_method (codes "0") (of_type (codes "A")))) in
    if reset_seq_num then set Tags.reset_seq_num_flag (codes "Y") logon else logon

unfoldable pub create_heartbeat_message : Text → Text → ℤ → Text → FixMessage
create_heartbeat_message sender target seq_num test_req_id =
    let hb = addressed sender target seq_num (of_type (codes "0")) in
    if is_empty test_req_id then hb else set Tags.test_req_id test_req_id hb

unfoldable pub create_test_request_message : Text → Text → ℤ → Text → FixMessage
create_test_request_message sender target seq_num test_req_id =
    set Tags.test_req_id test_req_id (addressed sender target seq_num (of_type (codes "1")))

unfoldable pub create_logout_message : Text → Text → ℤ → Text → FixMessage
create_logout_message sender target seq_num text =
    let lo = addressed sender target seq_num (of_type (codes "5")) in
    if is_empty text then lo else set Tags.text text lo

unfoldable pub create_resend_request_message : Text → Text → ℤ → ℤ → ℤ → FixMessage
create_resend_request_message sender target seq_num begin_seq_no end_seq_no =
    set_int Tags.end_seq_no end_seq_no (
      set_int Tags.begin_seq_no begin_seq_no
        (addressed sender target seq_num (of_type (codes "2"))))

unfoldable pub create_sequence_reset_message : Text → Text → ℤ → ℤ → Bool → FixMessage
create_sequence_reset_message sender target seq_num new_seq_no gap_fill =
    set Tags.gap_fill_flag (if gap_fill then codes "Y" else codes "N")
      (set_int Tags.new_seq_no new_seq_no (addressed sender target seq_num (of_type (codes "4"))))

abbrev pub is_admin_message : Text → Bool
is_admin_message msg_type =
    text_eq msg_type (codes "0")
    || text_eq msg_type (codes "1")
    || text_eq msg_type (codes "2")
    || text_eq msg_type (codes "4")
    || text_eq msg_type (codes "5")
    || text_eq msg_type (codes "A")
