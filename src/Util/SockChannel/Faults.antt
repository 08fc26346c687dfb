-- ===== src/Util/SockChannel/Faults.antt =====
-- What a malformed header does to `ReadData`.
use aods.Base.{
  Bytes, List, Option, [], ap, append_assoc, ap₂, arith, drop, false, length, length-append,
  length-take, ltb, lt→ltb, refl, some, suc, sym, take, take-append-drop, true, zero, ℕ, ◌++◌, ◌+◌,
  ◌-◌, ◌<◌, ◌^◌, ◌||◌, ◌∙◌, ◌∷◌, ◌≡◌, ◌≤◌,
}
use aods.Util.MemCache.Laws.{
  IsValid, Serves, append_buf_lem, append_step_size-append_buf, length-cur_data,
}
use aods.Util.CommuProtocol.{
  AoMsg, CommuProtocol, ao_msg_bytes, ao_msg_size, append_decode_data, check_content, content,
  format_error, get_content, int_add, int_lt, max_protocol_len, move_next, move_past, open_content,
  read_ao_msg,
}
use aods.Util.CommuProtocol.Frames.{Fits, length-ao_msg_bytes, read_ao_msg-ao_msg_bytes}
use aods.Util.MemCache.{MemCache, append_buf, block_of, cur_data, map_block, overwrite, remove}
use aods.Util.SockChannel.{
  Reading, after, deliver, deliver_all, deliver_before, ended, loop_if, ran_out, read_all,
  read_data, read_loop, stream_of,
}

-- The header at the front of the contents is the header at the front of the block.
read_ao_msg_front :
    (c : MemCache) (m : AoMsg) (t : Bytes)
    → IsValid c
    → Fits m
    → cur_data c ≡ ao_msg_bytes m ++ t
    → read_ao_msg (block_of c.cache) ≡ some m
read_ao_msg_front c m t v f here =
    ap (λ b. read_ao_msg (block_of b)) v.allocated
    ∙ ap read_ao_msg (
        sym (take-append-drop c.cache_off v.block)
        ∙ ap (λ z. z ++ drop c.cache_off v.block)
            (sym (ap (λ b. take c.cache_off (block_of b)) v.allocated) ∙ here)
        ∙ append_assoc (ao_msg_bytes m) t _)
    ∙ read_ao_msg-ao_msg_bytes m (t ++ drop c.cache_off v.block) f

-- Removing nothing leaves a buffer that holds something as it is.
remove_nothing : (c : MemCache) → IsValid c → 0 < c.cache_off → remove 0 0 c ≡ c
unfolding remove
remove_nothing c v h =
    rw (lt→ltb 0 c.cache_off h)
      (ap₂ (λ n b. record c { cache_off = n; cache = b }) same_off same_block)
  where
    same_off : c.cache_off - 0 ≡ c.cache_off
    same_off = omega arith

    same_block :
        map_block (λ block. overwrite 0 (take (c.cache_off - 0) (drop 0 block)) block) c.cache
        ≡ c.cache
    same_block =
        ap (map_block (λ block. overwrite 0 (take (c.cache_off - 0) (drop 0 block)) block))
          v.allocated
        ∙ ap some (rw (same_off, length-whole) (take-append-drop c.cache_off v.block))
        ∙ sym v.allocated
      where
        length-whole : 0 + length (take c.cache_off v.block) ≡ c.cache_off
        length-whole = omega (arith, length-take c.cache_off v.block, v.sized, v.filled)

-- The length of a header, and that of its key as -12.
abbrev pub empty_head : ℕ → AoMsg
empty_head code = record { data_len = 0; key_code = code; key_len = 2 ^ 32 - 12 }

module _ (p : CommuProtocol) (code : ℕ) (t : Bytes) (v : IsValid p.decode_amc)
    (fits : code < 2 ^ 32) (here : cur_data p.decode_amc ≡ ao_msg_bytes (empty_head code) ++ t)
    (small : p.decode_amc.cache_off < 2 ^ 31) where
  header : read_ao_msg (block_of p.decode_amc.cache) ≡ some (empty_head code)
  header =
      read_ao_msg_front p.decode_amc (empty_head code) t v
        (record { data_len_fits = omega arith; key_code_fits = fits; key_len_fits = omega arith })
        here

  level : ao_msg_size ≤ p.decode_amc.cache_off
  level = omega (
    arith,
    length-cur_data p.decode_amc v,
    ap length here,
    length-append (ao_msg_bytes (empty_head code)) t,
    length-ao_msg_bytes (empty_head code),
  )

  get_content-empty_head : get_content p ≡ (p, content [])
  unfolding get_content check_content open_content
  get_content-empty_head =
      let enough : ltb p.decode_amc.cache_off ao_msg_size ≡ false = ground (arith, level) in
      let there : int_lt p.decode_amc.cache_off 0 ≡ false = ground arith in
      rw (enough, header, there)

  move_next-empty_head : move_next p ≡ p
  unfolding move_next
  move_next-empty_head =
      ap (move_past p) header
      ∙ ap (λ c. record p { decode_amc = c }) (remove_nothing p.decode_amc v (omega (arith, level)))

  -- With a header whose length is 0 and whose key length is -12 at the front of the buffer, the
  -- loop of `ReadData` uses up its fuel, however much it has: it neither ends nor faults.
  pub read_loop-empty_head : (fuel : ℕ) → read_loop fuel p ≡ ran_out
  unfolding read_loop
  read_loop-empty_head zero = refl
  read_loop-empty_head (suc fuel) =
      ap (after (read_loop fuel)) get_content-empty_head
      ∙ ap (λ q. deliver [] (read_loop fuel q)) move_next-empty_head
      ∙ ap (deliver []) (read_loop-empty_head fuel)

-- A header that `GetContent` refuses.
abbrev pub IsRefused : AoMsg → Type 0
IsRefused m =
    (int_lt max_protocol_len m.data_len || int_lt m.data_len (int_add m.key_len ao_msg_size)) ≡ true

-- A receiver whose buffer starts with a header.
pub record StartsWith (m : AoMsg) (p : CommuProtocol) : Type 0 where
  pub valid : IsValid p.decode_amc
  pub tail : Bytes
  pub here : cur_data p.decode_amc ≡ ao_msg_bytes m ++ tail

-- The outcome of reading that delivers nothing and leaves the header where it was.
pub record Silent (m : AoMsg) (step total : ℕ) (o : Reading) : Type 0 where
  pub receiver : CommuProtocol
  pub returned : o ≡ ended receiver []
  pub starts : StartsWith m receiver
  pub same_step : receiver.decode_amc.append_step_size ≡ step
  pub held : length (cur_data receiver.decode_amc) ≡ total

module _ (malloc : ℕ → Option Bytes) (serves : Serves malloc) (m : AoMsg) (fits : Fits m)
    (bad : IsRefused m) where
  get_content-refused : (p : CommuProtocol) → StartsWith m p → get_content p ≡ (p, format_error)
  unfolding get_content check_content
  get_content-refused p w =
      let enough : ltb p.decode_amc.cache_off ao_msg_size ≡ false = ground (
        arith,
        length-cur_data p.decode_amc w.valid,
        ap length w.here,
        length-append (ao_msg_bytes m) w.tail,
        length-ao_msg_bytes m,
      ) in
      rw (enough, read_ao_msg_front p.decode_amc m w.tail w.valid fits w.here, bad)

  read_data-refused :
      (piece : Bytes) (fuel : ℕ) (p : CommuProtocol)
      → StartsWith m p
      → length (cur_data p.decode_amc) + length piece + p.decode_amc.append_step_size < 2 ^ 32
      → Silent m p.decode_amc.append_step_size
          (length (cur_data p.decode_amc) + length piece)
          (read_data malloc (suc fuel) piece p)
  unfolding read_data append_decode_data read_loop
  read_data-refused [] fuel p w small = record {
    receiver = p;
    returned = refl;
    starts = w;
    same_step = refl;
    held = omega arith;
  }
  read_data-refused (b ∷ piece) fuel p w small =
      let c = p.decode_amc in
      let (done, valid, holds) =
        append_buf_lem malloc serves (b ∷ piece) c w.valid
          (omega (arith, length-cur_data c w.valid)) in
      let p' = record p { decode_amc = (append_buf malloc (b ∷ piece) c).0 } in
      let w' : StartsWith m p' = record {
        valid = valid;
        tail = w.tail ++ (b ∷ piece);
        here =
            holds
            ∙ ap (λ z. z ++ (b ∷ piece)) w.here
            ∙ append_assoc (ao_msg_bytes m) w.tail (b ∷ piece);
      } in
      record {
        receiver = p';
        returned =
            ap (λ d. loop_if d (suc fuel) p') done
            ∙ ap (after (read_loop fuel)) (get_content-refused p' w');
        starts = w';
        same_step = append_step_size-append_buf malloc (b ∷ piece) c;
        held = ap length holds ∙ length-append (cur_data c) (b ∷ piece);
      }

  -- Once a header that `GetContent` refuses stands at the front of the buffer, `ReadData` delivers
  -- nothing more, whatever arrives, and the header stays where it is.
  pub read_all-refused :
      (pieces : List Bytes) (fuel : ℕ) (p : CommuProtocol)
      → StartsWith m p
      → length (cur_data p.decode_amc) + length (stream_of pieces) + p.decode_amc.append_step_size
        < 2 ^ 32
      → Silent m p.decode_amc.append_step_size
          (length (cur_data p.decode_amc) + length (stream_of pieces))
          (read_all malloc (suc fuel) pieces p)
  unfolding read_all
  read_all-refused [] fuel p w small = record {
    receiver = p;
    returned = refl;
    starts = w;
    same_step = refl;
    held = omega arith;
  }
  read_all-refused (piece ∷ pieces) fuel p w small =
      let total = length-append piece (stream_of pieces) in
      let one = read_data-refused piece fuel p w (omega (arith, total)) in
      let rest =
        read_all-refused pieces fuel one.receiver one.starts
          (omega (arith, total, one.held, one.same_step)) in
      record {
        receiver = rest.receiver;
        returned =
            ap (deliver_all (read_all malloc (suc fuel) pieces)) one.returned
            ∙ ap (deliver_before []) rest.returned;
        starts = rest.starts;
        same_step = rest.same_step ∙ one.same_step;
        held = omega (arith, rest.held, one.held, total);
      }
