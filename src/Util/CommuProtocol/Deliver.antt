-- ===== src/Util/CommuProtocol/Deliver.antt =====
-- A message that `EncodeMsg` lays out is what `GetContent` returns and `MoveNext` passes over.
use aods.Base.{
  Bytes, IsBytes, ap, append_assoc, ap₂, arith, drop, false, length, length-append, length-take,
  ltb, refl, some, sym, take, take-append-drop, take-append_self, take-drop, ◌++◌, ◌+◌, ◌<◌, ◌^◌,
  ◌∙◌, ◌≡◌, ◌≤◌,
}
use aods.Util.MemCache.Laws.{IsValid, append_step_size-remove, remove_lem}
use aods.Util.CommuProtocol.{
  AoMsg, CommuProtocol, ao_msg_bytes, ao_msg_size, check_content, content, get_content, int_add,
  int_lt, int_sub, max_protocol_len, move_next, move_past, open_content, read_ao_msg,
}
use aods.Util.CommuProtocol.Frames.{
  Agree, Fits, Frame, length-ao_msg_bytes, read_ao_msg-ao_msg_bytes,
}
use aods.Util.CommuProtocol.Receive.{
  Opened, drop-with_frame_all, frame_head, length-with_frame, open_content-Opened, with_frame,
}
use aods.Util.Encrypt.{Encrypt}
use aods.Util.Encrypt.Laws.{IsInverse}
use aods.Util.MemCache.{block_of, cur_data}

-- A receiver between two calls: the buffer and the cipher are well formed, and the cipher has the
-- sender's tables.
pub record Ready (ae : Encrypt) (p : CommuProtocol) : Type 0 where
  pub valid : IsValid p.decode_amc
  pub inverse : IsInverse p.ae
  pub agree : Agree ae p.ae

-- The receiver once a message is taken.
pub record Delivered (ae : Encrypt) (p : CommuProtocol) (s rest : Bytes) : Type 0 where
  pub got : (get_content p).1 ≡ content s
  pub same_step :
      (move_next (get_content p).0).decode_amc.append_step_size ≡ p.decode_amc.append_step_size
  pub ready : Ready ae (move_next (get_content p).0)
  pub left : cur_data (move_next (get_content p).0).decode_amc ≡ rest

pub Agree-trans : (a b c : Encrypt) → Agree a b → Agree b c → Agree a c
Agree-trans a b c f g = record { same_en = f.same_en ∙ g.same_en; same_de = f.same_de ∙ g.same_de }

module _ (ae : Encrypt) (p : CommuProtocol) (s msg rest : Bytes) (y : Ready ae p)
    (f : Frame ae s msg) (here : cur_data p.decode_amc ≡ msg ++ rest) where
  head : AoMsg
  head = frame_head f.key_code f.key s

  tail : Bytes
  tail = rest ++ drop p.decode_amc.cache_off y.valid.block

  the_block : y.valid.block ≡ with_frame head f.key f.body tail
  unfolding head tail
  the_block =
      sym (take-append-drop p.decode_amc.cache_off y.valid.block)
      ∙ ap (λ z. z ++ drop p.decode_amc.cache_off y.valid.block) front
      ∙ append_assoc _ rest _
      ∙ append_assoc (ao_msg_bytes (frame_head f.key_code f.key s)) _ _
      ∙ ap (λ z. ao_msg_bytes (frame_head f.key_code f.key s) ++ z) (append_assoc f.key f.body _)
    where
      front :
          take p.decode_amc.cache_off y.valid.block
          ≡ ao_msg_bytes (frame_head f.key_code f.key s) ++ (f.key ++ f.body) ++ rest
      front =
          sym (ap (λ c. take p.decode_amc.cache_off (block_of c)) y.valid.allocated)
          ∙ here
          ∙ ap (λ m. m ++ rest) f.laid_out

  fill_level : p.decode_amc.cache_off ≡ ao_msg_size + length f.key + length f.body + length rest
  fill_level = omega (
    arith,
    ap length here,
    ap length f.laid_out,
    ap (λ c. length (take p.decode_amc.cache_off (block_of c))) y.valid.allocated,
    length-take p.decode_amc.cache_off y.valid.block,
    y.valid.sized,
    y.valid.filled,
    length-append msg rest,
    length-append (ao_msg_bytes (frame_head f.key_code f.key s)) (f.key ++ f.body),
    length-append f.key f.body,
    length-ao_msg_bytes (frame_head f.key_code f.key s),
  )

  module _ (short : length s + 32 ≤ max_protocol_len)
      (small : p.decode_amc.cache_off < 2 ^ 31) where
    fits : Fits head
    unfolding head
    fits = record {
      data_len_fits = omega (arith, f.key_len_fits);
      key_code_fits = f.code_fits;
      key_len_fits = omega (arith, f.key_len_fits);
    }

    get_content-open_content :
        get_content p
        ≡ open_content p head
            (ao_msg_size + length f.key)
            (length s)
            (with_frame head f.key f.body tail)
    unfolding get_content check_content head
    get_content-open_content =
        let whole : ltb p.decode_amc.cache_off ao_msg_size ≡ false = ground (arith, fill_level) in
        let len_ok : int_lt max_protocol_len head.data_len ≡ false =
          ground (arith, f.key_len_fits) in
        let key_ok : int_lt head.data_len (int_add head.key_len ao_msg_size) ≡ false =
          ground (arith, f.key_len_fits) in
        let there : int_lt p.decode_amc.cache_off head.data_len ≡ false =
          ground (arith, f.key_len_fits, fill_level, f.length_body, small) in
        let off : int_add ao_msg_size head.key_len ≡ ao_msg_size + length f.key =
          omega (arith, f.key_len_fits) in
        let len : int_sub (int_sub head.data_len ao_msg_size) head.key_len ≡ length s =
          omega (arith, f.key_len_fits) in
        rw (
          y.valid.allocated,
          the_block,
          whole,
          read_ao_msg-ao_msg_bytes head (f.key ++ (f.body ++ tail)) fits,
          len_ok,
          key_ok,
          there,
          off,
          len,
        )

    opened : IsBytes s → Opened p head f.key s tail (get_content p)
    unfolding head
    opened h = rw get_content-open_content (
        open_content-Opened p ae f.key_code f.key f.body s tail
          (y.valid.allocated ∙ ap some the_block) f.code_set f.key_len_fits f.keyed f.length_body
          f.enciphered (omega arith) y.agree y.inverse h)

    -- A message of up to 1 MiB less 32 bytes, laid out by a sender with the receiver's tables and
    -- standing whole at the front of the receiver's buffer, is returned as it was sent; then the
    -- buffer holds what follows it and the receiver is ready for the next.
    pub get_content-Frame : IsBytes s → Delivered ae p s rest
    unfolding move_next head tail
    get_content-Frame h =
        let o = opened h in
        let r = (get_content p).0 in
        let size : length (with_frame head f.key s tail) ≡ p.decode_amc.cache_size = omega (
          arith,
          length-with_frame head f.key s tail,
          length-with_frame head f.key f.body tail,
          f.length_body,
          ap length the_block,
          y.valid.sized,
        ) in
        let v : IsValid r.decode_amc = record {
          block = with_frame head f.key s tail;
          allocated = o.block;
          sized = size ∙ sym o.same_size;
          filled = rw (o.same_size, o.same_off) y.valid.filled;
        } in
        let moved : move_past r (read_ao_msg (block_of r.decode_amc.cache))
            ≡ move_past r (some head) =
          ap (move_past r) (
            ap (λ c. read_ao_msg (block_of c)) o.block
            ∙ read_ao_msg-ao_msg_bytes head (f.key ++ (s ++ tail)) fits) in
        let gone = remove_lem head.data_len r.decode_amc v in
        record {
          got = o.got;
          same_step = rw moved (append_step_size-remove 0 head.data_len r.decode_amc ∙ o.same_step);
          ready = rw moved record {
            valid = gone.0;
            inverse = o.inverse;
            agree = Agree-trans ae p.ae r.ae y.agree o.agree;
          };
          left = rw moved (gone.1 ∙ following o);
        }
      where
        following :
            Opened p head f.key s tail (get_content p)
            → drop head.data_len (cur_data (get_content p).0.decode_amc) ≡ rest
        following o =
            ap (drop head.data_len) (ap₂ (λ n c. take n (block_of c)) (o.same_off ∙ off) o.block)
            ∙ sym (take-drop (length rest) head.data_len (with_frame head f.key s tail))
            ∙ ap (take (length rest)) (
                ap (λ n. drop n (with_frame head f.key s tail)) len
                ∙ drop-with_frame_all head f.key s tail)
            ∙ take-append_self (length rest) rest _ refl
          where
            len : head.data_len ≡ ao_msg_size + length f.key + length s
            len = omega arith

            off : p.decode_amc.cache_off ≡ head.data_len + length rest
            off = omega (arith, fill_level, f.length_body)
