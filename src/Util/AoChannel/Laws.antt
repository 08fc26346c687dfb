-- ===== src/Util/AoChannel/Laws.antt =====
-- What the modules get from a channel.
use aods.Base.{
  Bool, Bytes, Option, [], ap, append-nil, arith, c_str, drop, false, if◌then◌else◌, length,
  length-append, length-take, ltb, none, refl, some, sym, take, take-append_self, true, u32, ℕ,
  ◌++◌, ◌+◌, ◌<◌, ◌==◌, ◌^◌, ◌∙◌, ◌∷◌, ◌≡◌, ◌≤◌,
}
use aods.Util.AoChannel.{
  AoChannel, channel_recv_data, channel_send_out, grown, new_channel, on_recved_data,
}
use aods.Util.MemCache.{block_of, overwrite, realloc}
use aods.Util.MemCache.Laws.{Serves, length-overwrite, take-overwrite}
use aods.Util.OutMsg.{OutMsg, module_broadcast}

-- A channel whose buffer holds its name, in one block that both pointers are of.
pub record IsChannel (name : Bytes) (c : AoChannel) : Type 0 where
  pub block : Bytes
  pub allocated : c.temp_buf ≡ some block
  pub sized : length block ≡ c.temp_buf_len
  pub one_block : c.offset_block ≡ c.temp_block
  pub off : c.fixed_off_len ≡ length name + 1
  pub named : take c.fixed_off_len block ≡ c_str name
  pub room : c.fixed_off_len ≤ c.temp_buf_len
  pub small : c.temp_buf_len < 2 ^ 31

-- What a channel that is made is.
pub new_channel-IsChannel :
    (malloc : ℕ → Option Bytes) (name : Bytes)
    → Serves malloc
    → length name < 2 ^ 30
    → (c : AoChannel) × (new_channel malloc name ≡ some c) × IsChannel name c
unfolding new_channel
new_channel-IsChannel malloc name serves short =
    let off = length name + 1 in
    let len = if ltb off 256 then 10240 else off + 10240 in
    let enough : off ≤ len = ground arith in
    let few : len < 2 ^ 31 = ground arith in
    let (block, got, size) = serves len in
    let name_size : length (c_str name) ≡ off = length-append name (0 ∷ []) in
    let padded : 0 + length (c_str name) ≡ off = omega (arith, name_size) in
    let fits : 0 + length (c_str name) ≤ length block = omega (arith, size, name_size, enough) in
    (
      record {
        temp_buf = some (overwrite 0 (c_str name) block);
        temp_block = 0;
        offset_block = 0;
        fixed_off_len = off;
        temp_buf_len = len;
      },
      rw got,
      record {
        block = overwrite 0 (c_str name) block;
        allocated = refl;
        sized = length-overwrite 0 (c_str name) block fits ∙ size;
        one_block = refl;
        off = refl;
        named =
            ap (λ n. take n (overwrite 0 (c_str name) block)) (sym padded)
            ∙ take-overwrite 0 (c_str name) block fits;
        room = enough;
        small = few;
      },
    )

-- Received data as it is broadcast.
abbrev pub broadcast : Bytes → OutMsg
broadcast s = record { rmi = module_broadcast; msg_code = channel_recv_data; msg = s }

-- The data that a channel receives reaches the modules behind the channel's name, as long as both fit
-- into the buffer that the channel was made with, and the channel stays as it was but for the buffer.
pub on_recved_data-IsChannel :
    (malloc : ℕ → Option Bytes) (moves : Bool) (name s : Bytes) (c : AoChannel)
    → IsChannel name c
    → c.fixed_off_len + length s ≤ c.temp_buf_len
    → (after : AoChannel) × (on_recved_data malloc moves s c
        ≡ some (after, broadcast (c_str name ++ s) ∷ []))
      × IsChannel name after
unfolding on_recved_data channel_send_out grown
on_recved_data-IsChannel malloc moves name [] c v fits = (
  c,
  ap
        (λ o. some (
          c,
          record {
            rmi = module_broadcast;
            msg_code = channel_recv_data;
            msg = take c.fixed_off_len (block_of o);
          }
              ∷ [],
        ))
        v.allocated
      ∙ ap (λ z. some (c, broadcast z ∷ [])) (v.named ∙ sym (append-nil (c_str name))),
  v,
)
on_recved_data-IsChannel malloc moves name (b ∷ s) c v fits =
    let laid = overwrite c.fixed_off_len (b ∷ s) v.block in
    let stays : ltb c.temp_buf_len (u32 (c.fixed_off_len + length (b ∷ s))) ≡ false =
      ground (arith, fits, v.small) in
    let inside : c.fixed_off_len + length (b ∷ s) ≤ length v.block = omega (arith, fits, v.sized) in
    let same_block : (c.offset_block == c.temp_block) ≡ true = ground (arith, v.one_block) in
    let in_room : ltb (length v.block) (c.fixed_off_len + length (b ∷ s)) ≡ false =
      ground (arith, inside) in
    let front : take (length (b ∷ s) + c.fixed_off_len) laid ≡ c_str name ++ (b ∷ s) =
      ap (λ n. take n laid) (omega arith)
      ∙ take-overwrite c.fixed_off_len (b ∷ s) v.block inside
      ∙ ap (λ z. z ++ b ∷ s) v.named in
    let kept : take c.fixed_off_len laid ≡ c_str name =
      take-append_self c.fixed_off_len (take c.fixed_off_len v.block) _
        (omega (arith, length-take c.fixed_off_len v.block, inside))
      ∙ v.named in
    (
      record c { temp_buf = some laid },
      rw (stays, v.allocated, same_block, in_room)
          (ap (λ z. some (record c { temp_buf = some laid }, broadcast z ∷ [])) front),
      record {
        block = laid;
        allocated = refl;
        sized = length-overwrite c.fixed_off_len (b ∷ s) v.block inside ∙ v.sized;
        one_block = v.one_block;
        off = v.off;
        named = kept;
        room = v.room;
        small = v.small;
      },
    )

realloc_served :
    (malloc : ℕ → Option Bytes) (old new : Bytes) (n : ℕ)
    → malloc n ≡ some new
    → realloc malloc (some old) n ≡ some (take n old ++ drop (length old) new)
unfolding realloc
realloc_served malloc old new n got = rw (realloc, got)

-- Data of up to 1 GiB that does not fit makes the channel write into the block that it has given
-- back, where the allocator serves every request and the larger block is another one.
pub on_recved_data-grown :
    (malloc : ℕ → Option Bytes) (name s : Bytes) (c : AoChannel)
    → Serves malloc
    → IsChannel name c
    → c.temp_buf_len < c.fixed_off_len + length s
    → length s < 2 ^ 30
    → on_recved_data malloc true s c ≡ none
unfolding on_recved_data channel_send_out grown
on_recved_data-grown malloc name [] c serves v over short = absurd (omega (arith, v.room))
on_recved_data-grown malloc name (b ∷ s) c serves v over short =
    let grows : ltb c.temp_buf_len (u32 (c.fixed_off_len + length (b ∷ s))) ≡ true =
      ground (arith, over, v.small, v.room) in
    let (new, got, size) = serves (u32 (c.fixed_off_len + length (b ∷ s) + 1024)) in
    let other : (c.offset_block == c.temp_block + 1) ≡ false = ground (arith, v.one_block) in
    rw (grows, v.allocated, realloc_served malloc v.block new _ got, other) refl
