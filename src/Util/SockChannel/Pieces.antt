-- ===== src/Util/SockChannel/Pieces.antt =====
-- A stream of messages that arrives in any pieces.
use mathlib.Core.Path.{subst}
use aods.Base.{
  All, Bool-cases, Bytes, IsBytes, List, Option, [], ap, append-nil, arith, inl, inr, length,
  length-append, ltb, refl, sym, ℕ, ◌++◌, ◌+◌, ◌<◌, ◌^◌, ◌∙◌, ◌∷◌, ◌≡◌, ◌≤◌,
}
use aods.Util.CommuProtocol.{CommuProtocol, ao_msg_bytes, lay_out, max_protocol_len, set_key_buf}
use aods.Util.CommuProtocol.Deliver.{Agree-trans, Ready}
use aods.Util.Encrypt.{Encrypt, encode}
use aods.Util.MemCache.{cur_data}
use aods.Util.MemCache.Laws.{Serves}
use aods.Util.SockChannel.{
  Reading, deliver_all, deliver_before, encode_all, ended, read_all, stream_of,
}
use aods.Util.SockChannel.Stream.{IsSent, Pending, read_data_lem}
use aods.Util.CommuProtocol.Frames.{
  Agree, Frame, encode-set_key_buf, lay_out-Frame, length-ao_msg_bytes, set_key_buf-Agree,
}
use aods.Util.CommuProtocol.Receive.{frame_head}

-- The outcome of reading all pieces: every message delivered in order, and the receiver ready
-- with nothing left.
pub record AllDelivered (ae : Encrypt) (ss : List Bytes) (o : Reading) : Type 0 where
  pub receiver : CommuProtocol
  pub returned : o ≡ ended receiver ss
  pub ready : Ready ae receiver
  pub nothing_left : cur_data receiver.decode_amc ≡ []

length-remaining :
    (ss delivered remaining : List Bytes)
    → ss ≡ delivered ++ remaining
    → length remaining ≤ length ss
length-remaining ss delivered remaining e =
    omega (arith, ap length e, length-append delivered remaining)

module _ (malloc : ℕ → Option Bytes) (serves : Serves malloc) (ae : Encrypt) (step fuel : ℕ) where
  read_pieces :
      (ss : List Bytes) (pieces : List Bytes) (p : CommuProtocol)
      → length ss < fuel
      → length (cur_data p.decode_amc ++ stream_of pieces) + step < 2 ^ 31
      → Pending ae ss (stream_of pieces) step p
      → (stream_of pieces ≡ [] → ss ≡ [])
      → AllDelivered ae ss (read_all malloc fuel pieces p)
  unfolding read_all IsSent
  read_pieces [] [] p k small y w = record {
    receiver = p;
    returned = refl;
    ready = y.ready;
    nothing_left = sym (append-nil (cur_data p.decode_amc)) ∙ y.sent;
  }
  read_pieces (s ∷ ss) [] p k small y w = absurd (omega (arith, ap length (w refl)))
  read_pieces ss (piece ∷ pieces) p k small y w =
      let d = read_data_lem malloc ae ss piece (stream_of pieces) step fuel p serves k small y w in
      let fewer = length-remaining ss d.delivered d.remaining d.together in
      let rest =
        read_pieces d.remaining pieces d.receiver (omega (arith, fewer))
          (omega (arith, d.no_longer)) d.pending d.waiting in
      record {
        receiver = rest.receiver;
        returned =
            ap (deliver_all (read_all malloc fuel pieces)) d.returned
            ∙ ap (deliver_before d.delivered) rest.returned
            ∙ ap (λ z. ended rest.receiver z) (sym d.together);
        ready = rest.ready;
        nothing_left = rest.nothing_left;
      }

IsSent-nil : (ae : Encrypt) (ss : List Bytes) → IsSent ae ss [] → ss ≡ []
unfolding IsSent
IsSent-nil ae [] h = refl
IsSent-nil ae (s ∷ ss) h =
    let (msg, rest, f, b, short, cut, others) = h in
    absurd (
      omega (
        arith,
        ap length cut,
        length-append msg rest,
        ap length f.laid_out,
        length-append (ao_msg_bytes (frame_head f.key_code f.key s)) (f.key ++ f.body),
        length-ao_msg_bytes (frame_head f.key_code f.key s),
      ))

-- Ciphers with the same tables frame a message alike.
Frame-Agree : (a b : Encrypt) (s msg : Bytes) → Agree a b → Frame b s msg → Frame a s msg
Frame-Agree a b s msg g f = record {
  key_code = f.key_code;
  key = f.key;
  body = f.body;
  laid_out = f.laid_out;
  code_set = f.code_set;
  code_fits = f.code_fits;
  key_len_fits = f.key_len_fits;
  keyed = f.keyed;
  length_body = f.length_body;
  enciphered = λ h.
      f.enciphered h
      ∙ sym (
          encode-set_key_buf a b f.key_code f.key [] s g (f.keyed h) (omega (arith, f.key_len_fits))
          ∙ ap (λ k. encode (set_key_buf f.key_code (length f.key) k b) s) (append-nil f.key));
}

lay_out-Agree : (rand : ℕ → ℕ) (s : Bytes) (ae : Encrypt) → Agree ae (lay_out rand s ae).0
unfolding lay_out
lay_out-Agree rand s ae = elim (Bool-cases (ltb (length s) 1)) [
  | inl e ↦ rw e (record { same_en = refl; same_de = refl })
  | inr e ↦ rw e (set_key_buf-Agree _ _ _ ae)
]

-- Messages that `EncodeMsg` may be given: bytes, each message of up to 1 MiB less 32 bytes.
abbrev pub Sendable : List Bytes → Type 0
Sendable = All (λ s. IsBytes s × (length s + 32 ≤ max_protocol_len))

encode_all-IsSent :
    (rand : ℕ → ℕ → ℕ) (i : ℕ) (ss : List Bytes) (a b : Encrypt)
    → Agree a b
    → Sendable ss
    → IsSent a ss (encode_all rand i ss b)
unfolding IsSent encode_all
encode_all-IsSent rand i [] a b g h = refl
encode_all-IsSent rand i (s ∷ ss) a b g h =
    let next = lay_out (rand i) s b in
    (
      next.1,
      encode_all rand (i + 1) ss next.0,
      Frame-Agree a b s next.1 g (lay_out-Frame (rand i) s b h.0.1),
      h.0.0,
      h.0.1,
      refl,
      encode_all-IsSent rand (i + 1) ss a next.0
          (Agree-trans a b next.0 g (lay_out-Agree (rand i) s b)) h.1,
    )

module _ (malloc : ℕ → Option Bytes) (serves : Serves malloc) where
  -- The messages that a sender lays out one after the other, each of up to 1 MiB less 32 bytes,
  -- are delivered by an empty receiver with the sender's tables in the order in which they were
  -- sent, whatever the pieces in which the stream arrives and whatever the keys that `rand` made;
  -- nothing is left behind and the receiver is ready for more. The stream and a growing step stay
  -- below 2 GiB, and each call may go round once more than there are messages.
  pub read_all-encode_all :
      (rand : ℕ → ℕ → ℕ) (ss : List Bytes) (ae : Encrypt) (pieces : List Bytes) (fuel : ℕ)
      (p : CommuProtocol)
      → Sendable ss
      → stream_of pieces ≡ encode_all rand 0 ss ae
      → length (stream_of pieces) + p.decode_amc.append_step_size < 2 ^ 31
      → length ss < fuel
      → Ready ae p
      → cur_data p.decode_amc ≡ []
      → AllDelivered ae ss (read_all malloc fuel pieces p)
  read_all-encode_all rand ss ae pieces fuel p h e small k y empty =
      let sent : IsSent ae ss (stream_of pieces) =
        subst (IsSent ae ss) (sym e)
          (encode_all-IsSent rand 0 ss ae ae (record { same_en = refl; same_de = refl }) h) in
      let all : cur_data p.decode_amc ++ stream_of pieces ≡ stream_of pieces =
        ap (λ z. z ++ stream_of pieces) empty in
      read_pieces malloc serves ae p.decode_amc.append_step_size fuel ss pieces p k
        (omega (arith, ap length all))
        (record { ready = y; sent = subst (IsSent ae ss) (sym all) sent; same_step = refl })
        (λ none_left. IsSent-nil ae ss (subst (IsSent ae ss) none_left sent))
