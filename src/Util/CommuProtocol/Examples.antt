-- ===== src/Util/CommuProtocol/Examples.antt =====
-- A message of two bytes on its way through a receiver.
use aods.Base.{
  Bytes, [], ap, append-nil, arith, codes, length, length-append, none, refl, some, sym, take-of_le,
  ℕ, ◌*◌, ◌++◌, ◌+◌, ◌<◌, ◌^◌, ◌∙◌,
}
use aods.Util.CommuProtocol.{CommuProtocol, ao_msg_bytes, lay_out}
use aods.Util.CommuProtocol.Deliver.{Delivered, Ready, get_content-Frame}
use aods.Util.CommuProtocol.Frames.{Frame, lay_out-Frame, length-ao_msg_bytes}
use aods.Util.CommuProtocol.Receive.{frame_head}
use aods.Util.Encrypt.{default}
use aods.Util.Encrypt.Laws.{default-IsInverse}
use aods.Util.MemCache.{MemCache}

abbrev zeros : ℕ → ℕ
zeros n = 0

abbrev rolls : ℕ → ℕ
rolls n = 7 * n + 3

abbrev hi : Bytes
hi = codes "hi"

abbrev sent : Bytes
sent = (lay_out rolls hi (default zeros)).1

abbrev empty_cache : MemCache
empty_cache = record { append_step_size = 10240; cache_size = 0; cache_off = 0; cache = none }

abbrev receiver : CommuProtocol
receiver = record {
  decode_amc = record {
    append_step_size = 10240;
    cache_size = length sent;
    cache_off = length sent;
    cache = some sent;
  };
  encode_amc = empty_cache;
  ae = default zeros;
}

receiver-Ready : Ready (default zeros) receiver
receiver-Ready = record {
  valid = record { block = sent; allocated = refl; sized = refl; filled = omega arith };
  inverse = default-IsInverse zeros;
  agree = record { same_en = refl; same_de = refl };
}

sent-Frame : Frame (default zeros) hi sent
sent-Frame = lay_out-Frame rolls hi (default zeros) (omega arith)

length-sent : length sent < 2 ^ 31
length-sent = omega (
  arith,
  ap length sent-Frame.laid_out,
  length-append (ao_msg_bytes (frame_head sent-Frame.key_code sent-Frame.key hi))
      (sent-Frame.key ++ sent-Frame.body),
  length-append sent-Frame.key sent-Frame.body,
  length-ao_msg_bytes (frame_head sent-Frame.key_code sent-Frame.key hi),
  sent-Frame.key_len_fits,
  sent-Frame.length_body,
)

lay_out-Frame_example : Frame (default zeros) hi sent
lay_out-Frame_example = lay_out-Frame rolls hi (default zeros) (omega arith)

get_content-Frame_example : Delivered (default zeros) receiver hi []
get_content-Frame_example =
    get_content-Frame (default zeros) receiver hi sent [] receiver-Ready sent-Frame
      (take-of_le (length sent) sent (omega arith) ∙ sym (append-nil sent)) (omega arith)
      length-sent (omega arith)
