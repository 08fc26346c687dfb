-- ===== src/Util/SockChannel/Stream.antt =====
-- Messages on a byte stream: whatever the pieces in which a socket returns the bytes, the messages
-- are delivered in the order in which they were sent.
use mathlib.Core.Path.{subst}
use aods.Base.{
  Bool-cases, Bytes, IsBytes, List, Option, [], ap, append_assoc, append_inj_length, arith, drop,
  inl, inr, length, length-append, ltb, ltb_false→le, ltb→lt, lt→ltb, refl, suc, sym, zero, ℕ, ◌++◌,
  ◌+◌, ◌<◌, ◌^◌, ◌∙◌, ◌∷◌, ◌≡◌, ◌≤◌,
}
use aods.Util.CommuProtocol.{
  CommuProtocol, ao_msg_size, append_decode_data, content, get_content, max_protocol_len, move_next,
  need_more,
}
use aods.Util.CommuProtocol.Deliver.{Ready, get_content-Frame}
use aods.Util.CommuProtocol.Frames.{Frame}
use aods.Util.Encrypt.{Encrypt}
use aods.Util.MemCache.{append_buf, cur_data}
use aods.Util.MemCache.Laws.{Serves, append_buf_lem, append_step_size-append_buf, length-cur_data}
use aods.Util.SockChannel.{Reading, after, deliver, ended, read_data, read_loop}
use aods.Util.SockChannel.Waiting.{get_content-need_more, prefix_split}

-- The bytes of a sequence of messages, each of up to 1 MiB less 32 bytes.
unfoldable pub IsSent : Encrypt → List Bytes → Bytes → Type 0
IsSent ae [] stream = stream ≡ []
IsSent ae (s ∷ ss) stream =
    (msg : Bytes) × (rest : Bytes) × Frame ae s msg
    × IsBytes s
    × (length s + 32 ≤ max_protocol_len)
    × (stream ≡ msg ++ rest)
    × IsSent ae ss rest

-- The receiver after a round of reading, with the messages that it delivered and those whose
-- bytes, or the last of them, are still among what comes `later`.
pub record Pending (ae : Encrypt) (ss : List Bytes) (later : Bytes) (step : ℕ) (p : CommuProtocol)
    : Type 0 where
  pub ready : Ready ae p
  pub sent : IsSent ae ss (cur_data p.decode_amc ++ later)
  pub same_step : p.decode_amc.append_step_size ≡ step

pub record Delivery (ae : Encrypt) (ss : List Bytes) (later : Bytes) (step total : ℕ) (o : Reading)
    : Type 0 where
  pub receiver : CommuProtocol
  pub delivered : List Bytes
  pub remaining : List Bytes
  pub returned : o ≡ ended receiver delivered
  pub together : ss ≡ delivered ++ remaining
  pub no_longer : length (cur_data receiver.decode_amc ++ later) ≤ total
  pub pending : Pending ae remaining later step receiver
  pub waiting : later ≡ [] → remaining ≡ []

stop_here :
    (ae : Encrypt) (ss : List Bytes) (later : Bytes) (step fuel : ℕ) (p : CommuProtocol)
    → Pending ae ss later step p
    → get_content p ≡ (p, need_more)
    → (later ≡ [] → ss ≡ [])
    → Delivery ae ss later step (length (cur_data p.decode_amc ++ later)) (read_loop (suc fuel) p)
unfolding read_loop
stop_here ae ss later step fuel p y stuck w = record {
  receiver = p;
  delivered = [];
  remaining = ss;
  returned = ap (after (read_loop fuel)) stuck;
  together = refl;
  pending = y;
  no_longer = omega arith;
  waiting = w;
}

-- A message that is whole is delivered, and the loop goes on behind it.
deliver_first :
    (ae : Encrypt) (s : Bytes) (ss : List Bytes) (later : Bytes) (step fuel : ℕ) (p : CommuProtocol)
    (msg rest tail : Bytes)
    → Frame ae s msg
    → IsBytes s
    → length s + 32 ≤ max_protocol_len
    → cur_data p.decode_amc ++ later ≡ msg ++ rest
    → IsSent ae ss rest
    → length (cur_data p.decode_amc ++ later) < 2 ^ 31
    → Ready ae p
    → p.decode_amc.append_step_size ≡ step
    → cur_data p.decode_amc ≡ msg ++ tail
    → (length (cur_data (move_next (get_content p).0).decode_amc ++ later) < 2 ^ 31
        → Pending ae ss later step (move_next (get_content p).0)
        → Delivery ae ss later step
            (length (cur_data (move_next (get_content p).0).decode_amc ++ later))
            (read_loop fuel (move_next (get_content p).0)))
    → Delivery ae
        (s ∷ ss)
        later
        step
        (length (cur_data p.decode_amc ++ later))
        (read_loop (suc fuel) p)
unfolding read_loop
deliver_first ae s ss later step fuel p msg rest tail f b short cut others small y stay here go_on =
    let bound : p.decode_amc.cache_off < 2 ^ 31 =
      omega (
        arith,
        length-cur_data p.decode_amc y.valid,
        length-append (cur_data p.decode_amc) later,
      ) in
    let d = get_content-Frame ae p s msg tail y f here short bound b in
    let behind : tail ++ later ≡ rest =
      (append_inj_length msg msg refl
        (sym (append_assoc msg tail later) ∙ ap (λ z. z ++ later) (sym here) ∙ cut)).1 in
    let left : cur_data (move_next (get_content p).0).decode_amc ++ later ≡ rest =
      ap (λ z. z ++ later) d.left ∙ behind in
    let next =
      go_on (omega (arith, ap length left, ap length cut, length-append msg rest)) (record {
        ready = d.ready;
        sent = subst (IsSent ae ss) (sym left) others;
        same_step = d.same_step ∙ stay;
      }) in
    let opened : get_content p ≡ ((get_content p).0, content s) =
      ap (λ c. ((get_content p).0, c)) d.got in
    record {
      receiver = next.receiver;
      delivered = s ∷ next.delivered;
      remaining = next.remaining;
      returned = ap (after (read_loop fuel)) opened ∙ ap (deliver s) next.returned;
      together = ap (λ z. s ∷ z) next.together;
      pending = next.pending;
      no_longer =
          omega (arith, next.no_longer, ap length left, ap length cut, length-append msg rest);
      waiting = next.waiting;
    }

-- The loop with more rounds left than there are messages delivers those that are whole.
read_loop_lem :
    (ae : Encrypt) (ss : List Bytes) (later : Bytes) (step fuel : ℕ) (p : CommuProtocol)
    → length ss < fuel
    → length (cur_data p.decode_amc ++ later) < 2 ^ 31
    → Pending ae ss later step p
    → Delivery ae ss later step (length (cur_data p.decode_amc ++ later)) (read_loop fuel p)
unfolding IsSent get_content
read_loop_lem ae ss later step zero p k small y = absurd (omega arith)
read_loop_lem ae [] later step (suc fuel) p k small y =
    stop_here ae [] later step fuel p y
      (rw (
        lt→ltb p.decode_amc.cache_off ao_msg_size (
          omega (
            arith,
            length-cur_data p.decode_amc y.ready.valid,
            length-append (cur_data p.decode_amc) later,
            ap length y.sent,
          ))))
      (λ e. refl)
read_loop_lem ae (s ∷ ss) later step (suc fuel) p k small y =
    let (msg, rest, f, b, short, cut, others) = y.sent in
    elim (Bool-cases (ltb (length (cur_data p.decode_amc)) (length msg))) [
      | inl partial ↦
          let lt : length (cur_data p.decode_amc) < length msg = ltb→lt _ _ partial in
          stop_here ae (s ∷ ss) later step fuel p y
            (get_content-need_more ae p s msg rest later y.ready f short cut lt)
            (λ e. absurd (
              omega (
                arith,
                ap length e,
                ap length cut,
                length-append msg rest,
                length-append (cur_data p.decode_amc) later,
                lt,
              )))
      | inr whole ↦
          deliver_first ae s ss later step fuel p msg rest
            (drop (length msg) (cur_data p.decode_amc)) f b short cut others small y.ready
            y.same_step
            (prefix_split (cur_data p.decode_amc) later msg rest cut
              (ltb_false→le (length (cur_data p.decode_amc)) (length msg) whole))
            (read_loop_lem ae ss later step fuel (move_next (get_content p).0) (omega arith))
    ]

-- A piece that arrives on a receiver is put behind what it keeps, and read.
pub read_data_lem :
    (malloc : ℕ → Option Bytes) (ae : Encrypt) (ss : List Bytes) (piece later : Bytes)
    (step fuel : ℕ) (p : CommuProtocol)
    → Serves malloc
    → length ss < fuel
    → length (cur_data p.decode_amc ++ (piece ++ later)) + step < 2 ^ 31
    → Pending ae ss (piece ++ later) step p
    → (piece ++ later ≡ [] → ss ≡ [])
    → Delivery ae ss later step
        (length (cur_data p.decode_amc ++ (piece ++ later)))
        (read_data malloc fuel piece p)
unfolding read_data append_decode_data
read_data_lem malloc ae ss [] later step fuel p serves k small y w = record {
  receiver = p;
  delivered = [];
  remaining = ss;
  returned = refl;
  together = refl;
  pending = y;
  no_longer = omega arith;
  waiting = w;
}
read_data_lem malloc ae ss (b ∷ piece) later step fuel p serves k small y w =
    let c = p.decode_amc in
    let bound : length (b ∷ piece) + c.cache_off + c.append_step_size < 2 ^ 32 = omega (
      arith,
      length-cur_data c y.ready.valid,
      y.same_step,
      length-append (cur_data c) ((b ∷ piece) ++ later),
      length-append (b ∷ piece) later,
    ) in
    let (done, valid, holds) = append_buf_lem malloc serves (b ∷ piece) c y.ready.valid bound in
    let p' = record p { decode_amc = (append_buf malloc (b ∷ piece) c).0 } in
    let same : cur_data p'.decode_amc ++ later ≡ cur_data c ++ ((b ∷ piece) ++ later) =
      ap (λ z. z ++ later) holds ∙ append_assoc (cur_data c) (b ∷ piece) later in
    rw done (
      subst (λ n. Delivery ae ss later step n (read_loop fuel p')) (ap length same)
        (read_loop_lem ae ss later step fuel p' k (omega (arith, ap length same)) (record {
          ready = record { valid = valid; inverse = y.ready.inverse; agree = y.ready.agree };
          sent = subst (IsSent ae ss) (sym same) y.sent;
          same_step = append_step_size-append_buf malloc (b ∷ piece) c ∙ y.same_step;
        })))
