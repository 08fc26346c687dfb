-- ===== src/Util/Module/Queue.antt =====
-- The queue of a module: what is posted is what `Run` delivers, in order.
use mathlib.Core.Path.{subst}
use aods.Base.{
  Bool, Bool-cases, Bytes, List, [], ap, append-nil, append_assoc, arith, drop, drop-append_self,
  false, inl, inr, length, length-append, ltb, refl, some, suc, sym, take-append_self, true, u32,
  zero, ℕ, ◌&&◌, ◌++◌, ◌+◌, ◌<◌, ◌^◌, ◌∙◌, ◌∷◌, ◌≡◌,
}
use aods.Util.Module.{Payload, Post, absent, deliver_msgs, given, head_of, read_mt_msg, run_loop}
use aods.Util.Module.Message.{
  IsHead, MtMsg, head_bytes, length-head_bytes, mt_msg_head_size, read_head-head_bytes,
}

-- A message that counts its data.
pub record IsMsg (msg : MtMsg) : Type 0 where
  pub head_fits : IsHead msg.head
  pub counted : msg.head.data_len ≡ length msg.content

-- The bytes of a queue of messages.
unfoldable pub QueueOf : List MtMsg → Bytes → Type 0
QueueOf [] bytes = bytes ≡ []
QueueOf (msg ∷ msgs) bytes =
    (pad : ℕ) × (rest : Bytes) × (pad < 2 ^ 32)
    × IsMsg msg
    × (bytes ≡ head_bytes pad msg.head ++ (msg.content ++ rest))
    × QueueOf msgs rest

pub QueueOf-append :
    (msgs more : List MtMsg) (xs ys : Bytes)
    → QueueOf msgs xs
    → QueueOf more ys
    → QueueOf (msgs ++ more) (xs ++ ys)
unfolding QueueOf
QueueOf-append [] more xs ys e h = subst (λ z. QueueOf more (z ++ ys)) (sym e) h
QueueOf-append (msg ∷ msgs) more xs ys q h =
    let (pad, rest, small, is_msg, e, others) = q in
    (
      pad,
      rest ++ ys,
      small,
      is_msg,
      ap (λ z. z ++ ys) e
          ∙ append_assoc (head_bytes pad msg.head) (msg.content ++ rest) ys
          ∙ ap (λ z. head_bytes pad msg.head ++ z) (append_assoc msg.content rest ys),
      QueueOf-append msgs more rest ys others h,
    )

pub read_mt_msg-QueueOf :
    (msg : MtMsg) (pad : ℕ) (t : Bytes)
    → pad < 2 ^ 32
    → IsMsg msg
    → read_mt_msg (head_bytes pad msg.head ++ (msg.content ++ t)) ≡ some msg
unfolding read_mt_msg
read_mt_msg-QueueOf msg pad t small v =
    rw (read_head-head_bytes pad msg.head (msg.content ++ t) small v.head_fits) (
      ap (λ c. some (record msg { content = c }))
        (take-append_self msg.head.data_len msg.content t v.counted))

module _ {S : Type 0} (act : MtMsg → S → S) (running : S → Bool) where
  pub run_loop_lem :
      (msgs : List MtMsg) (fuel len off : ℕ) (block front bytes behind : Bytes) (st : S)
      → length msgs < fuel
      → block ≡ front ++ (bytes ++ behind)
      → off ≡ length front
      → len ≡ off + length bytes
      → len < 2 ^ 31
      → QueueOf msgs bytes
      → run_loop act running fuel block len off st ≡ some (deliver_msgs act running msgs st)
  unfolding run_loop deliver_msgs QueueOf
  run_loop_lem msgs zero len off block front bytes behind st k e o l small q = absurd (omega arith)
  run_loop_lem [] (suc fuel) len off block front bytes behind st k e o l small q =
      let past : (ltb off len && running st) ≡ false = ground (arith, ap length q) in rw past
  run_loop_lem (msg ∷ msgs) (suc fuel) len off block front bytes behind st k e o l small q =
      let (pad, rest, pad_small, is_msg, cut, others) = q in
      let size : length bytes ≡ mt_msg_head_size + msg.head.data_len + length rest = omega (
        arith,
        ap length cut,
        length-append (head_bytes pad msg.head) (msg.content ++ rest),
        length-append msg.content rest,
        length-head_bytes pad msg.head,
        is_msg.counted,
      ) in
      let front' = front ++ (head_bytes pad msg.head ++ msg.content) in
      let front_size : length front' ≡ off + msg.head.data_len + mt_msg_head_size = omega (
        arith,
        length-append front (head_bytes pad msg.head ++ msg.content),
        length-append (head_bytes pad msg.head) msg.content,
        length-head_bytes pad msg.head,
        is_msg.counted,
      ) in
      let laid : bytes ++ behind ≡ head_bytes pad msg.head ++ (msg.content ++ (rest ++ behind)) =
        ap (λ z. z ++ behind) cut
        ∙ append_assoc (head_bytes pad msg.head) (msg.content ++ rest) behind
        ∙ ap (λ z. head_bytes pad msg.head ++ z) (append_assoc msg.content rest behind) in
      let same : block ≡ front' ++ (rest ++ behind) =
        e
        ∙ ap (λ z. front ++ z)
            (laid ∙ sym (append_assoc (head_bytes pad msg.head) msg.content (rest ++ behind)))
        ∙ sym (append_assoc front (head_bytes pad msg.head ++ msg.content) (rest ++ behind)) in
      let there : drop off block ≡ head_bytes pad msg.head ++ (msg.content ++ (rest ++ behind)) =
        ap (drop off) e ∙ drop-append_self off front (bytes ++ behind) o ∙ laid in
      let no_wrap : u32 (off + msg.head.data_len + mt_msg_head_size)
          ≡ off + msg.head.data_len + mt_msg_head_size =
        omega arith in
      let before : ltb off len ≡ true = ground arith in
      elim (Bool-cases (running st)) [
        | inl on ↦
            rw
              (
                before,
                on,
                there,
                read_mt_msg-QueueOf msg pad (rest ++ behind) pad_small is_msg,
                no_wrap,
              )
              (run_loop_lem msgs fuel len (off + msg.head.data_len + mt_msg_head_size) block front'
                rest behind (act msg st) (omega arith) same (sym front_size) (omega arith) small
                others)
        | inr stopped ↦ rw (before, stopped)
      ]

-- The bytes of a message that is posted, and the message.
abbrev pub bytes_of : Payload → Bytes
bytes_of (absent n) = []
bytes_of (given s) = s

abbrev pub msg_of : ℕ → Post → MtMsg
msg_of this p = record { head = head_of this p; content = bytes_of p.payload }

-- A post with data, or with none and the length 0, in words that fit.
pub record IsPost (this : ℕ) (p : Post) : Type 0 where
  pub pad_fits : p.pad < 2 ^ 32
  pub is_msg : IsMsg (msg_of this p)

-- The queue of one message.
pub QueueOf-one :
    (p : Post) (this : ℕ)
    → IsPost this p
    → QueueOf (msg_of this p ∷ []) (head_bytes p.pad (head_of this p) ++ bytes_of p.payload)
unfolding QueueOf
QueueOf-one p this v = (
  p.pad,
  [],
  v.pad_fits,
  v.is_msg,
  ap (λ z. head_bytes p.pad (head_of this p) ++ z) (sym (append-nil (bytes_of p.payload))),
  refl,
)
