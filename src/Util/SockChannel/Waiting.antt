-- ===== src/Util/SockChannel/Waiting.antt =====
-- `GetContent` on a buffer that holds the beginning of a message.
use aods.Base.{
  Bool-cases, Bytes, ap, append_assoc, arith, drop, false, inl, inr, length, length-append, ltb,
  ltb_false→le, ltb→lt, lt→ltb, refl, sym, take, take-append-drop, take-append_le, take-append_self,
  true, ◌++◌, ◌+◌, ◌<◌, ◌∙◌, ◌≡◌, ◌≤◌,
}
use aods.Util.MemCache.Laws.{length-cur_data}
use aods.Util.CommuProtocol.{
  AoMsg, CommuProtocol, ao_msg_bytes, ao_msg_size, check_content, get_content, int_add, int_lt,
  max_protocol_len, need_more,
}
use aods.Util.CommuProtocol.Deliver.{Ready}
use aods.Util.CommuProtocol.Frames.{Fits, Frame, length-ao_msg_bytes, read_ao_msg-ao_msg_bytes}
use aods.Util.CommuProtocol.Receive.{frame_head}
use aods.Util.Encrypt.{Encrypt}
use aods.Util.MemCache.{block_of, cur_data}

-- The beginning of a list, seen in another way of cutting it.
pub prefix_split :
    (xs ys us vs : Bytes)
    → xs ++ ys ≡ us ++ vs
    → length us ≤ length xs
    → xs ≡ us ++ drop (length us) xs
prefix_split xs ys us vs e h =
    let front : take (length us) xs ≡ us =
      sym (take-append_le (length us) xs ys h)
      ∙ ap (take (length us)) e
      ∙ take-append_self (length us) us vs refl in
    sym (take-append-drop (length us) xs) ∙ ap (λ z. z ++ drop (length us) xs) front

get_content-short :
    (p : CommuProtocol) → p.decode_amc.cache_off < ao_msg_size → get_content p ≡ (p, need_more)
unfolding get_content
get_content-short p h = rw (lt→ltb p.decode_amc.cache_off ao_msg_size h)

-- A message whose end is still on its way is waited for, and the receiver is left as it is.
pub get_content-need_more :
    (ae : Encrypt) (p : CommuProtocol) (s msg rest later : Bytes)
    → Ready ae p
    → Frame ae s msg
    → length s + 32 ≤ max_protocol_len
    → cur_data p.decode_amc ++ later ≡ msg ++ rest
    → length (cur_data p.decode_amc) < length msg
    → get_content p ≡ (p, need_more)
unfolding get_content check_content
get_content-need_more ae p s msg rest later y f short e h =
    elim (Bool-cases (ltb p.decode_amc.cache_off ao_msg_size)) [
      | inl few ↦ get_content-short p (ltb→lt p.decode_amc.cache_off ao_msg_size few)
      | inr enough ↦
          let head_there : length (ao_msg_bytes head) ≤ length (cur_data p.decode_amc) = omega (
            arith,
            length-ao_msg_bytes head,
            level,
            ltb_false→le p.decode_amc.cache_off ao_msg_size enough,
          ) in
          let there : int_lt p.decode_amc.cache_off head.data_len ≡ true =
            ground (arith, f.key_len_fits, level, whole) in
          let len_ok : int_lt max_protocol_len head.data_len ≡ false =
            ground (arith, f.key_len_fits) in
          let key_ok : int_lt head.data_len (int_add head.key_len ao_msg_size) ≡ false =
            ground (arith, f.key_len_fits) in
          rw (
            enough,
            y.valid.allocated,
            the_block head_there,
            read_ao_msg-ao_msg_bytes head
                (drop (length (ao_msg_bytes head)) (cur_data p.decode_amc)
                  ++ drop p.decode_amc.cache_off y.valid.block)
                fits,
            len_ok,
            key_ok,
            there,
          )
    ]
  where
    head : AoMsg
    head = frame_head f.key_code f.key s

    level : length (cur_data p.decode_amc) ≡ p.decode_amc.cache_off
    level = length-cur_data p.decode_amc y.valid

    whole : length msg ≡ head.data_len
    whole = omega (
      arith,
      ap length f.laid_out,
      length-append (ao_msg_bytes head) (f.key ++ f.body),
      length-append f.key f.body,
      length-ao_msg_bytes head,
      f.length_body,
    )

    fits : Fits head
    fits = record {
      data_len_fits = omega (arith, f.key_len_fits);
      key_code_fits = f.code_fits;
      key_len_fits = omega (arith, f.key_len_fits);
    }

    the_block :
        length (ao_msg_bytes head) ≤ length (cur_data p.decode_amc)
        → y.valid.block
          ≡ ao_msg_bytes head
            ++ (drop (length (ao_msg_bytes head)) (cur_data p.decode_amc)
                ++ drop p.decode_amc.cache_off y.valid.block)
    the_block q =
        sym (take-append-drop p.decode_amc.cache_off y.valid.block)
        ∙ ap (λ z. z ++ drop p.decode_amc.cache_off y.valid.block)
            (sym (ap (λ c. take p.decode_amc.cache_off (block_of c)) y.valid.allocated)
              ∙ prefix_split (cur_data p.decode_amc) later (ao_msg_bytes head)
                  ((f.key ++ f.body) ++ rest)
                  (e ∙ ap (λ z. z ++ rest) f.laid_out ∙ append_assoc (ao_msg_bytes head) _ rest) q)
        ∙ append_assoc (ao_msg_bytes head) _ _
