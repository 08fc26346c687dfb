-- ===== src/Util/MemCache/Laws.antt =====
-- The buffer as the list of the bytes that it holds.
use aods.Base.{
  Bool-cases, Bytes, Option, [], ap, append-nil, append_assoc, arith, drop, drop-of_le, inl, inr,
  length, length-append, length-drop, length-take, ltb, ltb_false→le, ltb→lt, none, refl, some, sym,
  take, take-append_le, take-append_self, take-drop, take-take, true, u32, ℕ, ◌++◌, ◌+◌, ◌-◌, ◌<◌,
  ◌^◌, ◌||◌, ◌∙◌, ◌∷◌, ◌≡◌, ◌≤◌,
}
use aods.Util.MemCache.{
  MemCache, append_buf, create, cur_data, not_allocated, overwrite, realloc, remove, reserve, reset,
  stored,
}

-- The block has the size that is kept beside it, and the fill level lies within.
pub record IsValid (c : MemCache) : Type 0 where
  pub block : Bytes
  pub allocated : c.cache ≡ some block
  pub sized : length block ≡ c.cache_size
  pub filled : c.cache_off ≤ c.cache_size

-- An allocator that serves every request with a block of the size asked for.
abbrev pub Serves : (ℕ → Option Bytes) → Type 0
Serves malloc = (n : ℕ) → (block : Bytes) × (malloc n ≡ some block) × (length block ≡ n)

pub length-overwrite :
    (off : ℕ) (s block : Bytes)
    → off + length s ≤ length block
    → length (overwrite off s block) ≡ length block
length-overwrite off s block h = omega (
  arith,
  length-append (take off block) (s ++ drop (off + length s) block),
  length-append s (drop (off + length s) block),
  length-take off block,
  length-drop (off + length s) block,
)

-- The front up to the end of what was written.
pub take-overwrite :
    (off : ℕ) (s block : Bytes)
    → off + length s ≤ length block
    → take (off + length s) (overwrite off s block) ≡ take off block ++ s
take-overwrite off s block h =
    rw (← append_assoc (take off block) s (drop (off + length s) block)) (
      take-append_self (off + length s) (take off block ++ s) (drop (off + length s) block)
        (omega (arith, length-append (take off block) s, length-take off block)))

-- What making room for `len` bytes keeps and gives.
record Reserved (len : ℕ) (c r : MemCache) : Type 0 where
  block : Bytes
  allocated : r.cache ≡ some block
  sized : length block ≡ r.cache_size
  same_off : r.cache_off ≡ c.cache_off
  room : len + c.cache_off ≤ r.cache_size
  kept : take c.cache_off block ≡ cur_data c

-- Reallocation keeps the front that is in use.
realloc_front :
    (off size : ℕ) (old new : Bytes)
    → off ≤ size
    → off ≤ length old
    → take off (take size old ++ drop (length old) new) ≡ take off old
realloc_front off size old new p q =
    take-append_le off (take size old) (drop (length old) new) (omega (arith, length-take size old))
    ∙ take-take off size old p

module _ (malloc : ℕ → Option Bytes) (serves : Serves malloc) where
  pub create-IsValid : (init_size step : ℕ) → 0 < init_size → IsValid (create malloc init_size step)
  unfolding create
  create-IsValid init_size step h =
      let (block, got, size) = serves init_size in
      record { block = block; allocated = ground arith; sized = size; filled = omega arith }

  reserve_lem :
      (len : ℕ) (c : MemCache)
      → IsValid c
      → len + c.cache_off + c.append_step_size < 2 ^ 32
      → Reserved len c (reserve malloc true len c)
  unfolding reserve realloc
  reserve_lem len c v h = elim (Bool-cases (ltb c.cache_size (u32 (len + c.cache_off)))) [
    | inl grows ↦
        let size = u32 (len + c.cache_off + c.append_step_size) in
        let (new, got, new_size) = serves size in
        record {
          block = take size v.block ++ drop (length v.block) new;
          allocated = ground (arith, v.allocated);
          sized = ground (
            arith,
            v.allocated,
            length-append (take size v.block) (drop (length v.block) new),
            length-take size v.block,
            length-drop (length v.block) new,
          );
          same_off = ground (arith, v.allocated);
          room = ground (arith, v.allocated);
          kept = rw v.allocated (
              realloc_front c.cache_off size v.block new (omega arith)
                (omega (arith, v.sized, v.filled)));
        }
    | inr fits ↦ record {
      block = v.block;
      allocated = ground (arith, v.allocated);
      sized = ground (arith, v.allocated);
      same_off = ground (arith, v.allocated);
      room = ground (arith, v.allocated);
      kept = rw v.allocated;
    }
  ]

  -- Appending succeeds and puts the data behind what is there, as long as the sizes stay within
  -- an `unsigned int`.
  pub append_buf_lem :
      (s : Bytes) (c : MemCache)
      → IsValid c
      → length s + c.cache_off + c.append_step_size < 2 ^ 32
      → ((append_buf malloc s c).1 ≡ true)
        × IsValid (append_buf malloc s c).0
        × (cur_data (append_buf malloc s c).0 ≡ cur_data c ++ s)
  unfolding append_buf
  append_buf_lem [] c v h = (refl, v, rw append-nil)
  append_buf_lem (b ∷ s) c v h =
      let q = reserve_lem (length (b ∷ s)) c v h in
      let r = reserve malloc true (length (b ∷ s)) c in
      let fits : c.cache_off + length (b ∷ s) ≤ length q.block = omega (arith, q.room, q.sized) in
      let no_wrap : u32 (c.cache_off + length (b ∷ s)) ≡ c.cache_off + length (b ∷ s) =
        omega arith in
      rw q.allocated (
        refl,
        record {
          block = overwrite r.cache_off (b ∷ s) q.block;
          allocated = refl;
          sized = rw q.same_off (length-overwrite c.cache_off (b ∷ s) q.block fits ∙ q.sized);
          filled = rw (q.same_off, no_wrap) (omega (arith, q.room));
        },
        rw (q.same_off, no_wrap, take-overwrite c.cache_off (b ∷ s) q.block fits, q.kept),
      )

-- Taking bytes off the front leaves the rest.
pub remove_lem :
    (to : ℕ) (c : MemCache)
    → IsValid c
    → IsValid (remove 0 to c) × (cur_data (remove 0 to c) ≡ drop to (cur_data c))
unfolding remove
remove_lem to c v = elim (Bool-cases (ltb to c.cache_off)) [
  | inl some_left ↦
      rw (some_left, v.allocated)
        (
          record {
            block = overwrite 0 (take (c.cache_off - to) (drop to v.block)) v.block;
            allocated = refl;
            sized =
                length-overwrite 0 (take (c.cache_off - to) (drop to v.block)) v.block
                  (omega (arith, moved, v.sized, v.filled))
                ∙ v.sized;
            filled = omega (arith, v.filled);
          },
          front some_left,
        )
  | inr all_gone ↦ rw all_gone (
    record { block = v.block; allocated = v.allocated; sized = v.sized; filled = omega arith },
    rw v.allocated (
        sym (
          drop-of_le to (take c.cache_off v.block) (
            omega (arith, length-take c.cache_off v.block, ltb_false→le to c.cache_off all_gone)))),
  )
]
  where
    moved : length (take (c.cache_off - to) (drop to v.block)) ≤ c.cache_off - to
    moved = omega (arith, length-take (c.cache_off - to) (drop to v.block))

    front :
        ltb to c.cache_off ≡ true
        → take (c.cache_off - to) (overwrite 0 (take (c.cache_off - to) (drop to v.block)) v.block)
          ≡ drop to (take c.cache_off v.block)
    front h =
        let below : to < c.cache_off = ltb→lt to c.cache_off h in
        let whole : to + (c.cache_off - to) ≡ c.cache_off = omega arith in
        take-append_self (c.cache_off - to) (take (c.cache_off - to) (drop to v.block)) _ (
          omega (
            arith,
            length-take (c.cache_off - to) (drop to v.block),
            length-drop to v.block,
            v.sized,
            v.filled,
          ))
        ∙ take-drop (c.cache_off - to) to v.block
        ∙ ap (λ n. drop to (take n v.block)) whole

-- `Reset` forgets the contents and keeps the block.
pub reset_lem : (c : MemCache) → IsValid c → IsValid (reset c) × (cur_data (reset c) ≡ [])
unfolding reset
reset_lem c v = (
  record { block = v.block; allocated = v.allocated; sized = v.sized; filled = omega arith },
  refl,
)

pub append_step_size-remove :
    (from to : ℕ) (c : MemCache) → (remove from to c).append_step_size ≡ c.append_step_size
unfolding remove
append_step_size-remove from to c = elim (Bool-cases (ltb to c.cache_off)) [
  | inl e ↦ rw e
  | inr e ↦ rw e
]

append_step_size-stored :
    (s : Bytes) (c : MemCache) (o : Option Bytes)
    → (stored s c o).0.append_step_size ≡ c.append_step_size
append_step_size-stored s c none = refl
append_step_size-stored s c (some block) = refl

append_step_size-reserve :
    (malloc : ℕ → Option Bytes) (len : ℕ) (c : MemCache)
    → (reserve malloc true len c).append_step_size ≡ c.append_step_size
unfolding reserve
append_step_size-reserve malloc len c =
    elim (Bool-cases (not_allocated c.cache || ltb c.cache_size (u32 (len + c.cache_off)))) [
      | inl e ↦ rw e
      | inr e ↦ rw e
    ]

pub append_step_size-append_buf :
    (malloc : ℕ → Option Bytes) (s : Bytes) (c : MemCache)
    → (append_buf malloc s c).0.append_step_size ≡ c.append_step_size
unfolding append_buf
append_step_size-append_buf malloc [] c = refl
append_step_size-append_buf malloc (b ∷ s) c =
    append_step_size-stored (b ∷ s) (reserve malloc true (length (b ∷ s)) c) _
    ∙ append_step_size-reserve malloc (length (b ∷ s)) c

-- The fill level is the number of bytes that the buffer holds.
pub length-cur_data : (c : MemCache) → IsValid c → length (cur_data c) ≡ c.cache_off
length-cur_data c v =
    rw v.allocated (omega (arith, length-take c.cache_off v.block, v.sized, v.filled))
