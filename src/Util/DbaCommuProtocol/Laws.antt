-- ===== src/Util/DbaCommuProtocol/Laws.antt =====
-- Messages behind MSG_HEAD: what is put on the stream is what is taken from it.
use mathlib.Core.Option
use aods.Base.{
  Bytes, Option, ap, append_assoc, arith, drop, drop-append_self, false, le32, length,
  length-append, ltb, read32-le32, refl, some, sym, take, take-append-drop, take-append_self, ℕ,
  ◌++◌, ◌+◌, ◌<◌, ◌^◌, ◌∙◌, ◌≡◌,
}
use aods.Util.MemCache.Laws.{
  IsValid, Serves, append_buf_lem, length-cur_data, remove_lem, reset_lem,
}
use aods.Util.CommuProtocol.{CommuProtocol, content}
use aods.Util.DbaCommuProtocol.{
  MsgHead, dba_encode_msg, dba_get_content, dba_move_next, msg_head_size, read_msg_head, whole_len,
}
use aods.Util.MemCache.{append_buf, block_of, cur_data, reset}

-- A message whose head gives its length.
pub record IsMessage (msg : Bytes) : Type 0 where
  pub head : MsgHead
  pub tail : Bytes
  pub starts : msg ≡ le32 head.msg_code ++ (le32 head.len ++ tail)
  pub code_fits : head.msg_code < 2 ^ 32
  pub len_fits : head.len + msg_head_size < 2 ^ 32
  pub whole : length msg ≡ head.len + msg_head_size

read_msg_head-le32 :
    (h : MsgHead) (t : Bytes)
    → h.msg_code < 2 ^ 32
    → h.len < 2 ^ 32
    → read_msg_head (le32 h.msg_code ++ (le32 h.len ++ t)) ≡ some h
unfolding read_msg_head
read_msg_head-le32 h t p q = rw (read32-le32 h.msg_code (le32 h.len ++ t) p, read32-le32 h.len t q)

module _ (p : CommuProtocol) (msg rest : Bytes) (v : IsValid p.decode_amc) (w : IsMessage msg)
    (here : cur_data p.decode_amc ≡ msg ++ rest) where
  the_block : block_of p.decode_amc.cache ≡ msg ++ (rest ++ drop p.decode_amc.cache_off v.block)
  the_block =
      ap block_of v.allocated
      ∙ sym (take-append-drop p.decode_amc.cache_off v.block)
      ∙ ap (λ z. z ++ drop p.decode_amc.cache_off v.block)
          (sym (ap (λ b. take p.decode_amc.cache_off (block_of b)) v.allocated) ∙ here)
      ∙ append_assoc msg rest _

  the_head : read_msg_head (block_of p.decode_amc.cache) ≡ some w.head
  the_head =
      ap read_msg_head (
        the_block
        ∙ ap (λ z. z ++ after_msg) w.starts
        ∙ append_assoc (le32 w.head.msg_code) _ _
        ∙ ap (λ z. le32 w.head.msg_code ++ z) (append_assoc (le32 w.head.len) _ _))
      ∙ read_msg_head-le32 w.head (w.tail ++ after_msg) w.code_fits (omega (arith, w.len_fits))
    where
      after_msg : Bytes
      after_msg = rest ++ drop p.decode_amc.cache_off v.block

  size : whole_len w.head ≡ length msg
  size = omega (arith, w.whole, w.len_fits)

  level : p.decode_amc.cache_off ≡ length msg + length rest
  level = omega (arith, length-cur_data p.decode_amc v, ap length here, length-append msg rest)

  -- A message whose head gives its length, whole at the front of a well-formed buffer, is returned as it
  -- stands, and passing it leaves a well-formed buffer with what follows.
  pub dba_get_content-dba_move_next :
      (dba_get_content p ≡ (p, content msg))
      × IsValid (dba_move_next p).decode_amc
      × (cur_data (dba_move_next p).decode_amc ≡ rest)
  unfolding dba_get_content dba_move_next
  dba_get_content-dba_move_next =
      let enough : ltb p.decode_amc.cache_off msg_head_size ≡ false =
        ground (arith, level, w.whole) in
      let there : ltb p.decode_amc.cache_off (length msg) ≡ false = ground (arith, level) in
      let taken : take (length msg) (block_of p.decode_amc.cache) ≡ msg =
        ap (take (length msg)) the_block ∙ take-append_self (length msg) msg _ refl in
      let gone = remove_lem (length msg) p.decode_amc v in
      rw (the_head, size)
        (
          rw (enough, there, taken),
          gone.0,
          gone.1 ∙ ap (drop (length msg)) here ∙ drop-append_self (length msg) msg rest refl,
        )

-- On an allocator that serves every request, `EncodeMsg` returns the message as it is, as
-- long as its length and a growing step stay within an `unsigned int`.
pub dba_encode_msg_lem :
    (malloc : ℕ → Option Bytes) (s : Bytes) (p : CommuProtocol)
    → Serves malloc
    → IsValid p.encode_amc
    → length s + p.encode_amc.append_step_size < 2 ^ 32
    → (dba_encode_msg malloc s p).1 ≡ some s
unfolding dba_encode_msg reset
dba_encode_msg_lem malloc s p serves v small =
    let r = reset_lem p.encode_amc v in
    let (done, valid, holds) =
      append_buf_lem malloc serves s (reset p.encode_amc) r.0 (omega arith) in
    let amc = (append_buf malloc s (reset p.encode_amc)).0 in
    let off : amc.cache_off ≡ length s =
      sym (length-cur_data amc valid) ∙ ap length (holds ∙ ap (λ z. z ++ s) r.1) in
    ap (Option.map (take (length s))) valid.allocated
    ∙ ap some (
        ap (λ n. take n valid.block) (sym off)
        ∙ sym (ap (λ b. take amc.cache_off (block_of b)) valid.allocated)
        ∙ holds
        ∙ ap (λ z. z ++ s) r.1)
