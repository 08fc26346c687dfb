-- ===== src/Util/SockChannel/Examples.antt =====
-- Two messages whose bytes arrive in two pieces, the first cut inside the first message.
use aods.Base.{
  Bytes, List, Option, [], ap, append-nil, arith, codes, drop, length, length-append,
  length-replicate, refl, replicate, some, suc, sym, take, take-append-drop, take-of_le, ℕ, ◌*◌,
  ◌++◌, ◌+◌, ◌∙◌, ◌∷◌, ◌≡◌, ◌≤◌,
}
use aods.Util.MemCache.Laws.{IsValid, Serves, length-cur_data}
use aods.Util.CommuProtocol.{AoMsg, CommuProtocol, ao_msg_bytes, lay_out, max_protocol_len}
use aods.Util.CommuProtocol.Deliver.{Ready}
use aods.Util.CommuProtocol.Frames.{lay_out-Frame, length-ao_msg_bytes}
use aods.Util.CommuProtocol.Receive.{frame_head}
use aods.Util.Encrypt.{Encrypt, default}
use aods.Util.Encrypt.Laws.{default-IsInverse}
use aods.Util.MemCache.{MemCache, cur_data}
use aods.Util.SockChannel.{encode_all, ran_out, read_all, read_loop, stream_of}
use aods.Util.SockChannel.Pieces.{AllDelivered, Sendable, read_all-encode_all}
use aods.Util.SockChannel.Faults.{Silent, empty_head, read_all-refused, read_loop-empty_head}

abbrev zeros : ℕ → ℕ
zeros n = 0

abbrev rolls : ℕ → ℕ → ℕ
rolls i n = 7 * n + i

abbrev zero_pages : ℕ → Option Bytes
zero_pages n = some (replicate n 0)

zero_pages-Serves : Serves zero_pages
zero_pages-Serves n = (replicate n 0, refl, length-replicate n 0)

abbrev messages : List Bytes
messages = codes "hi" ∷ codes "there" ∷ []

abbrev stream : Bytes
stream = encode_all rolls 0 messages (default zeros)

abbrev pieces : List Bytes
pieces = take 5 stream ∷ drop 5 stream ∷ []

abbrev cache : MemCache
cache = record {
  append_step_size = 10240;
  cache_size = 4;
  cache_off = 0;
  cache = some (replicate 4 0);
}

abbrev receiver : CommuProtocol
receiver = record { decode_amc = cache; encode_amc = cache; ae = default zeros }

receiver-Ready : Ready (default zeros) receiver
receiver-Ready = record {
  valid = record { block = replicate 4 0; allocated = refl; sized = refl; filled = omega arith };
  inverse = default-IsInverse zeros;
  agree = record { same_en = refl; same_de = refl };
}

messages-Sendable : Sendable messages
messages-Sendable = omega arith

length-lay_out :
    (rand : ℕ → ℕ) (s : Bytes) (ae : Encrypt)
    → length s + 32 ≤ max_protocol_len
    → length (lay_out rand s ae).1 ≤ length s + 32
length-lay_out rand s ae h =
    let f = lay_out-Frame rand s ae h in
    omega (
      arith,
      ap length f.laid_out,
      length-append (ao_msg_bytes (frame_head f.key_code f.key s)) (f.key ++ f.body),
      length-append f.key f.body,
      length-ao_msg_bytes (frame_head f.key_code f.key s),
      f.key_len_fits,
      f.length_body,
    )

length-stream : length stream ≤ 100
unfolding encode_all
length-stream =
    let one = lay_out (rolls 0) (codes "hi") (default zeros) in
    let two = lay_out (rolls 1) (codes "there") one.0 in
    omega (
      arith,
      length-append one.1 (two.1 ++ []),
      length-append two.1 [],
      length-lay_out (rolls 0) (codes "hi") (default zeros) (omega arith),
      length-lay_out (rolls 1) (codes "there") one.0 (omega arith),
    )

in_pieces : stream_of pieces ≡ stream
in_pieces = ap (λ z. take 5 stream ++ z) (append-nil (drop 5 stream)) ∙ take-append-drop 5 stream

read_all-encode_all_example :
    AllDelivered (default zeros) messages (read_all zero_pages 3 pieces receiver)
read_all-encode_all_example =
    read_all-encode_all zero_pages zero_pages-Serves rolls messages (default zeros) pieces 3
      receiver messages-Sendable in_pieces (omega (arith, ap length in_pieces, length-stream))
      (omega arith) receiver-Ready refl

abbrev holding : AoMsg → CommuProtocol
holding m = record receiver {
  decode_amc = record {
    append_step_size = 10240;
    cache_size = 12;
    cache_off = 12;
    cache = some (ao_msg_bytes m);
  };
}

holding-IsValid : (m : AoMsg) → IsValid (holding m).decode_amc
holding-IsValid m = record {
  block = ao_msg_bytes m;
  allocated = refl;
  sized = length-ao_msg_bytes m;
  filled = omega arith;
}

holding-here : (m : AoMsg) → cur_data (holding m).decode_amc ≡ ao_msg_bytes m ++ []
holding-here m =
    take-of_le 12 (ao_msg_bytes m) (omega (arith, length-ao_msg_bytes m))
    ∙ sym (append-nil (ao_msg_bytes m))

read_loop-empty_head_example : read_loop 1000 (holding (empty_head 1)) ≡ ran_out
read_loop-empty_head_example =
    read_loop-empty_head (holding (empty_head 1)) 1 [] (holding-IsValid (empty_head 1))
      (omega arith) (holding-here (empty_head 1)) (omega arith) 1000

abbrev too_long : AoMsg
too_long = record { data_len = 2000000; key_code = 1; key_len = 4 }

held_bytes : length (cur_data (holding too_long).decode_amc) ≡ 12
held_bytes = length-cur_data (holding too_long).decode_amc (holding-IsValid too_long)

length-pieces : length (stream_of pieces) ≤ 100
length-pieces = omega (arith, ap length in_pieces, length-stream)

read_all-refused_example :
    Silent too_long 10240
      (length (cur_data (holding too_long).decode_amc) + length (stream_of pieces))
      (read_all zero_pages (suc 5) pieces (holding too_long))
read_all-refused_example =
    read_all-refused zero_pages zero_pages-Serves too_long
      (record {
        data_len_fits = omega arith;
        key_code_fits = omega arith;
        key_len_fits = omega arith;
      })
      refl pieces 5 (holding too_long)
      (record { valid = holding-IsValid too_long; tail = []; here = holding-here too_long })
      (omega (arith, held_bytes, length-pieces))
