-- ===== src/Util/DbaCommuProtocol/Examples.antt =====
-- A message of two bytes behind its head, sent and taken.
use aods.Base.{
  Bytes, Option, [], arith, drop, le32, length-replicate, refl, replicate, some, ℕ, ◌∷◌,
}
use aods.Util.MemCache.Laws.{IsValid, Serves}
use aods.Util.CommuProtocol.{CommuProtocol}
use aods.Util.DbaCommuProtocol.{MsgHead}
use aods.Util.DbaCommuProtocol.Laws.{IsMessage}
use aods.Util.Encrypt.{default}
use aods.Util.MemCache.{MemCache}

abbrev head : MsgHead
head = record { msg_code = 1; len = 2 }

abbrev msg : Bytes
msg = 1 ∷ 0 ∷ 0 ∷ 0 ∷ 2 ∷ 0 ∷ 0 ∷ 0 ∷ 0 ∷ 5 ∷ 0 ∷ 0 ∷ 0 ∷ 7 ∷ 8 ∷ []

msg-IsMessage : IsMessage msg
unfolding le32
msg-IsMessage = record {
  head = head;
  tail = drop 8 msg;
  starts = refl;
  code_fits = omega arith;
  len_fits = omega arith;
  whole = refl;
}

abbrev zeros : ℕ → ℕ
zeros n = 0

abbrev zero_pages : ℕ → Option Bytes
zero_pages n = some (replicate n 0)

zero_pages-Serves : Serves zero_pages
zero_pages-Serves n = (replicate n 0, refl, length-replicate n 0)

abbrev holding : MemCache
holding = record { append_step_size = 10240; cache_size = 15; cache_off = 15; cache = some msg }

abbrev channel : CommuProtocol
channel = record { decode_amc = holding; encode_amc = holding; ae = default zeros }

holding-IsValid : IsValid holding
holding-IsValid = record { block = msg; allocated = refl; sized = refl; filled = omega arith }
