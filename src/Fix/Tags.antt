-- ===== src/Fix/Tags.antt =====
-- include/fix/fix_tags.hpp: the tags that the modelled code uses.
use fix4_0_demo.Prelude.{ℤ, pos}

abbrev pub begin_string : ℤ
begin_string = pos 8

abbrev pub body_length : ℤ
body_length = pos 9

abbrev pub msg_type : ℤ
msg_type = pos 35

abbrev pub sender_comp_id : ℤ
sender_comp_id = pos 49

abbrev pub target_comp_id : ℤ
target_comp_id = pos 56

abbrev pub msg_seq_num : ℤ
msg_seq_num = pos 34

abbrev pub sending_time : ℤ
sending_time = pos 52

abbrev pub encrypt_method : ℤ
encrypt_method = pos 98

abbrev pub heart_bt_int : ℤ
heart_bt_int = pos 108

abbrev pub reset_seq_num_flag : ℤ
reset_seq_num_flag = pos 141

abbrev pub test_req_id : ℤ
test_req_id = pos 112

abbrev pub text : ℤ
text = pos 58

abbrev pub check_sum : ℤ
check_sum = pos 10

abbrev pub begin_seq_no : ℤ
begin_seq_no = pos 7

abbrev pub end_seq_no : ℤ
end_seq_no = pos 16

abbrev pub new_seq_no : ℤ
new_seq_no = pos 36

abbrev pub gap_fill_flag : ℤ
gap_fill_flag = pos 123

abbrev pub poss_dup_flag : ℤ
poss_dup_flag = pos 43

abbrev pub orig_sending_time : ℤ
orig_sending_time = pos 122

abbrev pub cl_ord_id : ℤ
cl_ord_id = pos 11

abbrev pub order_id : ℤ
order_id = pos 37

abbrev pub exec_id : ℤ
exec_id = pos 17

abbrev pub orig_cl_ord_id : ℤ
orig_cl_ord_id = pos 41

abbrev pub symbol : ℤ
symbol = pos 55

abbrev pub side : ℤ
side = pos 54

abbrev pub order_qty : ℤ
order_qty = pos 38

abbrev pub price : ℤ
price = pos 44

abbrev pub ord_type : ℤ
ord_type = pos 40

abbrev pub transact_time : ℤ
transact_time = pos 60

abbrev pub time_in_force : ℤ
time_in_force = pos 59

abbrev pub ord_status : ℤ
ord_status = pos 39

abbrev pub exec_trans_type : ℤ
exec_trans_type = pos 20

abbrev pub cum_qty : ℤ
cum_qty = pos 14

abbrev pub avg_px : ℤ
avg_px = pos 6

abbrev pub last_shares : ℤ
last_shares = pos 32

abbrev pub last_px : ℤ
last_px = pos 31

abbrev pub ord_rej_reason : ℤ
ord_rej_reason = pos 103

abbrev pub account : ℤ
account = pos 1

abbrev pub request_id : ℤ
request_id = pos 10001

abbrev pub balance : ℤ
balance = pos 10002

abbrev pub available : ℤ
available = pos 10003

abbrev pub frozen_margin : ℤ
frozen_margin = pos 10004

abbrev pub used_margin : ℤ
used_margin = pos 10005

abbrev pub position_profit : ℤ
position_profit = pos 10006

abbrev pub close_profit : ℤ
close_profit = pos 10007

abbrev pub dynamic_equity : ℤ
dynamic_equity = pos 10008

abbrev pub risk_ratio : ℤ
risk_ratio = pos 10009

abbrev pub instrument_id : ℤ
instrument_id = pos 10010

abbrev pub long_position : ℤ
long_position = pos 10011

abbrev pub short_position : ℤ
short_position = pos 10012

abbrev pub long_avg_price : ℤ
long_avg_price = pos 10013

abbrev pub short_avg_price : ℤ
short_avg_price = pos 10014

abbrev pub no_positions : ℤ
no_positions = pos 10019

abbrev pub update_type : ℤ
update_type = pos 10020

abbrev pub update_reason : ℤ
update_reason = pos 10021

abbrev pub search_pattern : ℤ
search_pattern = pos 10022

abbrev pub max_results : ℤ
max_results = pos 10023

abbrev pub result_count : ℤ
result_count = pos 10024

abbrev pub instrument_list : ℤ
instrument_list = pos 10025
