-- ===== src/Util/OutMsg.antt =====
-- A message that a module hands to `SendOutMsg`: the receiver's module, the code and the data.
-- The identifiers of modules and codes of messages are those of src/dev/util/AoDef.h.
use aods.Base.{Bytes, c_str, ℕ}

pub record OutMsg : Type 0 where
  pub rmi : ℕ
  pub msg_code : ℕ
  pub msg : Bytes

abbrev pub module_broadcast : ℕ
module_broadcast = 0

abbrev pub module_commu : ℕ
module_commu = 3

abbrev pub channel_new : ℕ
channel_new = 17

abbrev pub channel_free : ℕ
channel_free = 21

abbrev pub channel_send_data : ℕ
channel_send_data = 24

abbrev pub channel_send_data_fail : ℕ
channel_send_data_fail = 25

-- EN_AO_MSG_CHANNEL_FREE with the name of a channel.
abbrev pub free_msg : Bytes → OutMsg
free_msg name = record { rmi = module_commu; msg_code = channel_free; msg = c_str name }
