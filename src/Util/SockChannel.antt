-- ===== src/Util/SockChannel.antt =====
-- `CAoSockChannel::ReadData` (src/dev/util/AoSockChannel.cpp): what `Recv` returned is put behind
-- the bytes that are kept, and every message that is whole is delivered.
-- The deliveries are the list of the contents handed to `OnRecvedData`.
pub mod Waiting
pub mod Stream
pub mod Pieces
pub mod Faults
mod Examples
use aods.Base.{Bool, Bytes, List, Option, [], false, suc, true, zero, ℕ, ◌++◌, ◌+◌, ◌∷◌}
use aods.Util.CommuProtocol.{
  CommuProtocol, Content, append_decode_data, content, fault, format_error, get_content, lay_out,
  move_next, need_more,
}
use aods.Util.Encrypt.{Encrypt}

-- What reading comes to: the receiver and the deliveries, a fault, or a loop that has used up its
-- fuel.
pub data Reading : Type 0 where
  ended : CommuProtocol → List Bytes → Reading
  faulted : Reading
  ran_out : Reading

abbrev pub deliver : Bytes → Reading → Reading
deliver s (ended p ss) = ended p (s ∷ ss)
deliver s faulted = faulted
deliver s ran_out = ran_out

-- One round of the loop; `continue` is the rest of it.
abbrev pub after : (CommuProtocol → Reading) → CommuProtocol × Content → Reading
after continue (p, need_more) = ended p []
after continue (p, format_error) = ended p []
after continue (p, content s) = deliver s (continue (move_next p))
after continue (p, fault) = faulted

unfoldable pub read_loop : ℕ → CommuProtocol → Reading
read_loop zero p = ran_out
read_loop (suc fuel) p = after (read_loop fuel) (get_content p)

abbrev pub loop_if : Bool → ℕ → CommuProtocol → Reading
loop_if true fuel p = read_loop fuel p
loop_if false fuel p = ended p []

-- `ReadData`, with what `Recv` returned.
unfoldable pub read_data : (ℕ → Option Bytes) → ℕ → Bytes → CommuProtocol → Reading
read_data malloc fuel [] p = ended p []
read_data malloc fuel (b ∷ piece) p =
    let (p', done) = append_decode_data malloc (b ∷ piece) p in loop_if done fuel p'

-- What one call delivered, before what the calls after it deliver.
abbrev pub deliver_before : List Bytes → Reading → Reading
deliver_before ss (ended p ts) = ended p (ss ++ ts)
deliver_before ss faulted = faulted
deliver_before ss ran_out = ran_out

abbrev pub deliver_all : (CommuProtocol → Reading) → Reading → Reading
deliver_all continue (ended p ss) = deliver_before ss (continue p)
deliver_all continue faulted = faulted
deliver_all continue ran_out = ran_out

-- `ReadData` for each piece that the socket returns.
unfoldable pub read_all : (ℕ → Option Bytes) → ℕ → List Bytes → CommuProtocol → Reading
read_all malloc fuel [] p = ended p []
read_all malloc fuel (piece ∷ pieces) p =
    deliver_all (read_all malloc fuel pieces) (read_data malloc fuel piece p)

abbrev pub stream_of : List Bytes → Bytes
stream_of [] = []
stream_of (piece ∷ pieces) = piece ++ stream_of pieces

-- The bytes of messages that one sender encodes one after the other; `rand i` are the values of
-- `rand()` for message `i`.
unfoldable pub encode_all : (ℕ → ℕ → ℕ) → ℕ → List Bytes → Encrypt → Bytes
encode_all rand i [] ae = []
encode_all rand i (s ∷ ss) ae =
    let (ae', msg) = lay_out (rand i) s ae in msg ++ encode_all rand (i + 1) ss ae'
