-- ===== src/Util/Module/Posting.antt =====
-- What `PostMsg` puts into the queue, and what `Run` then delivers.
use mathlib.Core.Path.{subst}
use aods.Base.{
  All, Bool, Bytes, List, Option, [], and_then, ap, append-nil, append_assoc, arith, drop, false,
  if◌then◌else◌, length, length-map, map, refl, some, sym, take, take-append-drop, true, ℕ, ◌++◌,
  ◌+◌, ◌<◌, ◌^◌, ◌∙◌, ◌∷◌, ◌≡◌, ◌≤◌,
}
use aods.Util.Module.{
  Module, Payload, Post, absent, deliver_msgs, given, head_of, post_all, post_msg, post_rest,
  posted, run_loop, swap,
}
use aods.Util.Module.Message.{MtMsg, head_bytes, length-head_bytes, mt_msg_head_size}
use aods.Util.Module.Queue.{
  IsPost, QueueOf, QueueOf-append, QueueOf-one, bytes_of, msg_of, run_loop_lem,
}
use aods.Util.ModuleData.{ModuleData, append_data, data_of, reset_data}
use aods.Util.ModuleData.Laws.{Appended, IsData, append_data-fits, append_data-full, length-data_of}
use aods.Util.MemCache.{block_of}

-- What posting one message that fits gives.
pub record Posted (p : Post) (m : Module) (o : Option (Module × Bool)) : Type 0 where
  pub after : Module
  pub returned : o ≡ some (after, true)
  pub valid : IsData after.product
  pub holds :
      data_of after.product
      ≡ data_of m.product ++ (head_bytes p.pad (head_of m.this p) ++ bytes_of p.payload)
  pub longer : after.product.len ≡ m.product.len + mt_msg_head_size + length (bytes_of p.payload)
  pub same_this : after.this ≡ m.this
  pub same_run : after.run ≡ m.run
  pub same_cus : after.cus ≡ m.cus
  pub same_capacity : after.product.capacity ≡ m.product.capacity

-- Appending the data behind the head.
post_rest-Appended :
    (payload : Payload) (d : ModuleData)
    → IsData d
    → d.capacity < 2 ^ 32
    → d.len + length (bytes_of payload) ≤ d.capacity
    → Appended (bytes_of payload) d (post_rest payload (some (d, true)))
post_rest-Appended (absent n) d v small fits = record {
  after = d;
  returned = refl;
  valid = v;
  holds = sym (append-nil (data_of d));
  same_capacity = refl;
  longer = omega arith;
}
post_rest-Appended (given []) d v small fits = record {
  after = d;
  returned = refl;
  valid = v;
  holds = sym (append-nil (data_of d));
  same_capacity = refl;
  longer = omega arith;
}
post_rest-Appended (given (b ∷ s)) d v small fits = append_data-fits (b ∷ s) d v small fits

opened :
    (p : Post) (m : Module)
    → m.run ≡ true
    → post_msg p m
      ≡ posted m (post_rest p.payload (append_data (head_bytes p.pad (head_of m.this p)) m.product))
unfolding post_msg
opened p m on =
    ap
      (λ b.
        if b
        then posted m
            (post_rest p.payload (append_data (head_bytes p.pad (head_of m.this p)) m.product))
        else some (m, false))
      on

pub post_msg-Posted :
    (p : Post) (m : Module)
    → m.run ≡ true
    → IsData m.product
    → m.product.capacity < 2 ^ 31
    → m.product.len + mt_msg_head_size + length (bytes_of p.payload) ≤ m.product.capacity
    → Posted p m (post_msg p m)
unfolding post_msg
post_msg-Posted p m on v small fits =
    let h = head_bytes p.pad (head_of m.this p) in
    let size : length h ≡ mt_msg_head_size = length-head_bytes p.pad (head_of m.this p) in
    let one = append_data-fits h m.product v (omega arith) (omega (arith, size)) in
    let two =
      post_rest-Appended p.payload one.after one.valid (omega (arith, one.same_capacity))
        (omega (arith, one.same_capacity, one.longer, size)) in
    record {
      after = record m { product = two.after };
      returned =
          opened p m on
          ∙ ap (λ o. posted m (post_rest p.payload o)) one.returned
          ∙ ap (posted m) two.returned;
      valid = two.valid;
      holds =
          two.holds
          ∙ ap (λ z. z ++ bytes_of p.payload) one.holds
          ∙ append_assoc (data_of m.product) h (bytes_of p.payload);
      longer = omega (arith, two.longer, one.longer, size);
      same_this = refl;
      same_run = refl;
      same_cus = refl;
      same_capacity = two.same_capacity ∙ one.same_capacity;
    }

-- A module that is not running takes no message.
post_msg-stopped : (p : Post) (m : Module) → m.run ≡ false → post_msg p m ≡ some (m, false)
unfolding post_msg
post_msg-stopped p m off = rw off

-- A head that does not fit is refused and the module stays as it is.
post_msg-full :
    (p : Post) (m : Module)
    → m.run ≡ true
    → m.product.capacity < 2 ^ 31
    → m.product.len ≤ m.product.capacity
    → m.product.capacity < m.product.len + mt_msg_head_size
    → post_msg p m ≡ some (m, false)
post_msg-full p m on small filled full =
    let h = head_bytes p.pad (head_of m.this p) in
    let size : length h ≡ mt_msg_head_size = length-head_bytes p.pad (head_of m.this p) in
    opened p m on
    ∙ ap (λ o. posted m (post_rest p.payload o))
        (append_data-full h m.product (omega (arith, size)) (omega (arith, size)))

-- In a module that runs, with a capacity below 2 GiB, data of up to 1 GiB that does not fit
-- behind its head is refused, but the head stays in the queue, where it counts data that is not
-- there.
pub post_msg-torn :
    (p : Post) (m : Module) (b : ℕ) (s : Bytes)
    → p.payload ≡ given (b ∷ s)
    → m.run ≡ true
    → IsData m.product
    → m.product.capacity < 2 ^ 31
    → length s < 2 ^ 30
    → m.product.len + mt_msg_head_size ≤ m.product.capacity
    → m.product.capacity < m.product.len + mt_msg_head_size + length (b ∷ s)
    → (after : Module) × (post_msg p m ≡ some (after, false))
      × (data_of after.product ≡ data_of m.product ++ head_bytes p.pad (head_of m.this p))
post_msg-torn p m b s e on v small short room full =
    let h = head_bytes p.pad (head_of m.this p) in
    let size : length h ≡ mt_msg_head_size = length-head_bytes p.pad (head_of m.this p) in
    let one = append_data-fits h m.product v (omega arith) (omega (arith, size)) in
    (
      record m { product = one.after },
      opened p m on
          ∙ ap (λ o. posted m (post_rest p.payload o)) one.returned
          ∙ ap (λ y. posted m (post_rest y (some (one.after, true)))) e
          ∙ ap (posted m) (
              append_data-full (b ∷ s) one.after (omega (arith, one.longer, size))
                (omega (arith, one.longer, one.same_capacity, size))),
      one.holds,
    )

-- The room that posts take.
abbrev pub room_of : List Post → ℕ
room_of [] = 0
room_of (p ∷ ps) = mt_msg_head_size + length (bytes_of p.payload) + room_of ps

-- What posting several messages gives: the queue holds their messages behind those it held.
record AllPosted (msgs : List MtMsg) (ps : List Post) (m : Module) (o : Option Module)
    : Type 0 where
  after : Module
  returned : o ≡ some after
  valid : IsData after.product
  queued : QueueOf (msgs ++ map (msg_of m.this) ps) (data_of after.product)
  same_capacity : after.product.capacity ≡ m.product.capacity

post_all-AllPosted :
    (ps : List Post) (msgs : List MtMsg) (m : Module)
    → m.run ≡ true
    → IsData m.product
    → m.product.capacity < 2 ^ 31
    → m.product.len + room_of ps ≤ m.product.capacity
    → All (IsPost m.this) ps
    → QueueOf msgs (data_of m.product)
    → AllPosted msgs ps m (post_all ps m)
unfolding post_all
post_all-AllPosted [] msgs m on v small fits h q = record {
  after = m;
  returned = refl;
  valid = v;
  queued = subst (λ z. QueueOf z (data_of m.product)) (sym (append-nil msgs)) q;
  same_capacity = refl;
}
post_all-AllPosted (p ∷ ps) msgs m on v small fits h q =
    let one = post_msg-Posted p m on v small (omega arith) in
    let held : QueueOf (msgs ++ msg_of m.this p ∷ []) (data_of one.after.product) =
      subst (QueueOf (msgs ++ msg_of m.this p ∷ [])) (sym one.holds) (
        QueueOf-append msgs (msg_of m.this p ∷ []) (data_of m.product) _ q
          (QueueOf-one p m.this h.0)) in
    let rest =
      post_all-AllPosted ps (msgs ++ msg_of m.this p ∷ []) one.after (one.same_run ∙ on) one.valid
        (omega (arith, one.same_capacity)) (omega (arith, one.same_capacity, one.longer))
        (subst (λ n. All (IsPost n) ps) (sym one.same_this) h.1) held in
    record {
      after = rest.after;
      returned = ap (λ o. and_then o λ (m', done). post_all ps m') one.returned ∙ rest.returned;
      valid = rest.valid;
      queued =
          subst (λ z. QueueOf z (data_of rest.after.product))
            (append_assoc msgs (msg_of m.this p ∷ []) (map (msg_of one.after.this) ps)
              ∙ ap (λ n. msgs ++ msg_of m.this p ∷ map (msg_of n) ps) one.same_this)
            rest.queued;
      same_capacity = rest.same_capacity ∙ one.same_capacity;
    }

-- What is posted to the empty queue of a module that runs, with room for it and a capacity below
-- 2 GiB, is delivered by the next turn of `Run`, which goes round more often than there are posts:
-- each message with its data, in the order of the posts, as long as the module runs; the queue that
-- new posts go to is empty then.
pub run_loop-post_all :
    {S : Type 0} (act : MtMsg → S → S) (running : S → Bool) (ps : List Post) (m : Module) (fuel : ℕ)
    (st : S)
    → m.run ≡ true
    → IsData m.product
    → m.product.capacity < 2 ^ 31
    → m.product.len ≡ 0
    → room_of ps ≤ m.product.capacity
    → All (IsPost m.this) ps
    → length ps < fuel
    → (after : Module) × (post_all ps m ≡ some after)
      × (run_loop act running fuel (block_of (swap after).cus.buf) (swap after).cus.len 0 st
          ≡ some (deliver_msgs act running (map (msg_of m.this) ps) st))
      × (data_of (swap after).product ≡ [])
unfolding swap reset_data QueueOf
run_loop-post_all act running ps m fuel st on v small empty room h enough =
    let a =
      post_all-AllPosted ps [] m on v small (omega arith) h
        (ap (λ n. take n (block_of m.product.buf)) empty) in
    let q = a.after.product in
    let size = length-data_of q a.valid in
    (
      a.after,
      a.returned,
      run_loop_lem act running (map (msg_of m.this) ps) fuel q.len 0 (block_of q.buf) [] (data_of q)
          (drop q.len (block_of q.buf)) st (omega (arith, length-map (msg_of m.this) ps))
          (sym (take-append-drop q.len (block_of q.buf))) refl (omega (arith, size))
          (omega (arith, a.valid.filled, a.same_capacity)) a.queued,
      refl,
    )
