-- ===== src/Util/ModuleDispatcher/Laws.antt =====
-- Which modules get a message that src/dev/util/ModuleDispatcher.cpp dispatches, and how often.
use mathlib.Core.Path.{subst}
use aods.Base.{
  ==_iff, Bool-cases, Bytes, List, [], and_then, ap, append-nil, append_assoc, arith, if◌then◌else◌,
  inl, inr, length, refl, some, suc, sym, true, zero, ℕ, ◌*◌, ◌++◌, ◌+◌, ◌<◌, ◌==◌, ◌^◌, ◌∙◌, ◌∷◌,
  ◌≡◌, ◌≤◌,
}
use aods.Util.Module.{Module, Post, head_of, post_msg}
use aods.Util.Module.Message.{head_bytes, mt_msg_head_size}
use aods.Util.Module.Posting.{post_msg-Posted}
use aods.Util.Module.Queue.{bytes_of}
use aods.Util.ModuleData.{data_of}
use aods.Util.ModuleData.Laws.{IsData}
use aods.Util.ModuleDispatcher.{ModuleDispatcher, Store, dispatch, post_at, post_each}
use aods.Util.OutMsg.{module_broadcast}

-- The times that a module stands in a map.
abbrev pub count : ℕ → List (ℕ × ℕ) → ℕ
count x [] = 0
count x ((id, module_ptr) ∷ ms) = if x == module_ptr then 1 + count x ms else count x ms

-- The bytes of a message in the queue of a module.
abbrev pub posted_bytes : Post → Module → Bytes
posted_bytes p m = head_bytes p.pad (head_of m.this p) ++ bytes_of p.payload

abbrev pub copies : ℕ → Bytes → Bytes
copies zero s = []
copies (suc n) s = s ++ copies n s

-- A module that runs and has room for a message `n` times.
pub record IsReady (p : Post) (n : ℕ) (m : Module) : Type 0 where
  pub on : m.run ≡ true
  pub valid : IsData m.product
  pub small : m.product.capacity < 2 ^ 31
  pub room :
      m.product.len + n * (mt_msg_head_size + length (bytes_of p.payload)) ≤ m.product.capacity

-- A module that has got a message `n` times, and has room for it `k` times more.
pub record Got (p : Post) (n k : ℕ) (m m' : Module) : Type 0 where
  pub ready : IsReady p k m'
  pub same_this : m'.this ≡ m.this
  pub holds : data_of m'.product ≡ data_of m.product ++ copies n (posted_bytes p m)

-- What posting once gives.
post_msg-Got :
    (p : Post) (k : ℕ) (m : Module)
    → IsReady p (1 + k) m
    → (m' : Module) × (post_msg p m ≡ some (m', true)) × Got p 1 k m m'
post_msg-Got p k m v =
    let one = post_msg-Posted p m v.on v.valid v.small (omega (arith, v.room)) in
    (
      one.after,
      one.returned,
      record {
        ready = record {
          on = one.same_run ∙ v.on;
          valid = one.valid;
          small = omega (arith, one.same_capacity, v.small);
          room = omega (arith, one.same_capacity, one.longer, v.room);
        };
        same_this = one.same_this;
        holds = one.holds ∙ ap (λ z. data_of m.product ++ z) (sym (append-nil (posted_bytes p m)));
      },
    )

-- Nothing, and first one and then the rest.
Got-zero : (p : Post) (k : ℕ) (m : Module) → IsReady p k m → Got p 0 k m m
Got-zero p k m v = record {
  ready = v;
  same_this = refl;
  holds = sym (append-nil (data_of m.product));
}

suc-add : (a b : ℕ) → suc (a + b) ≡ suc a + b
suc-add a b = omega arith

copies-add : (a b : ℕ) (s : Bytes) → copies a s ++ copies b s ≡ copies (a + b) s
copies-add zero b s = ap (λ n. copies n s) (omega arith)
copies-add (suc a) b s =
    append_assoc s (copies a s) (copies b s)
    ∙ ap (λ z. s ++ z) (copies-add a b s)
    ∙ ap (λ n. copies n s) (suc-add a b)

Got-add :
    (p : Post) (a b k : ℕ) (m m' m'' : Module)
    → Got p a (b + k) m m'
    → Got p b k m' m''
    → Got p (a + b) k m m''
Got-add p a b k m m' m'' g h = record {
  ready = h.ready;
  same_this = h.same_this ∙ g.same_this;
  holds =
      h.holds
      ∙ ap
          (λ n.
            data_of m'.product ++ copies b (head_bytes p.pad (head_of n p) ++ bytes_of p.payload))
          g.same_this
      ∙ ap (λ z. z ++ copies b (posted_bytes p m)) g.holds
      ∙ append_assoc (data_of m.product) (copies a (posted_bytes p m)) (copies b (posted_bytes p m))
      ∙ ap (λ z. data_of m.product ++ z) (copies-add a b (posted_bytes p m));
}

-- Numbers that are the same.
IsReady-cast : (p : Post) (m : Module) (a b : ℕ) → a ≡ b → IsReady p a m → IsReady p b m
IsReady-cast p m a b e v = subst (λ n. IsReady p n m) e v

Got-cast : (p : Post) (k : ℕ) (m m' : Module) (a b : ℕ) → a ≡ b → Got p a k m m' → Got p b k m m'
Got-cast p k m m' a b e g = subst (λ n. Got p n k m m') e g

Got-ready : (p : Post) (n a b : ℕ) (m m' : Module) → a ≡ b → Got p n a m m' → Got p n b m m'
Got-ready p n a b m m' e g = subst (λ k. Got p n k m m') e g

count-cons :
    (x id module_ptr : ℕ) (ms : List (ℕ × ℕ))
    → count x ((id, module_ptr) ∷ ms) ≡ count x ((0, module_ptr) ∷ []) + count x ms
count-cons x id module_ptr ms = ground arith

post_at-Got :
    (p : Post) (module_ptr : ℕ) (k : ℕ → ℕ) (st : Store)
    → ((x : ℕ) → IsReady p (count x ((0, module_ptr) ∷ []) + k x) (st x))
    → (st' : Store) × (post_at p module_ptr st ≡ some (st', true))
      × ((x : ℕ) → Got p (count x ((0, module_ptr) ∷ [])) (k x) (st x) (st' x))
post_at-Got p module_ptr k st v =
    let one =
      post_msg-Got p (k module_ptr) (st module_ptr)
        (IsReady-cast p (st module_ptr) _ _ (ground arith) (v module_ptr)) in
    let st' : Store = λ x. if x == module_ptr then one.0 else st x in
    (
      st',
      ap (λ o. and_then o λ (m, done). some (λ x. if x == module_ptr then m else st x, done)) one.1,
      λ x. elim (Bool-cases (x == module_ptr)) [
        | inl same ↦
            rw same
              (subst (λ y. Got p 1 (k y) (st y) one.0) (sym ((==_iff x module_ptr).0 same)) one.2)
        | inr other ↦
            rw other
              (Got-zero p (k x) (st x) (IsReady-cast p (st x) _ _ (ground (arith, other)) (v x)))
      ],
    )

post_each-Got :
    (p : Post) (ms : List (ℕ × ℕ)) (k : ℕ → ℕ) (st : Store)
    → ((x : ℕ) → IsReady p (count x ms + k x) (st x))
    → (st' : Store) × (post_each p ms st ≡ some st')
      × ((x : ℕ) → Got p (count x ms) (k x) (st x) (st' x))
unfolding post_each
post_each-Got p [] k st v = (
  st,
  refl,
  λ x. Got-zero p (k x) (st x) (IsReady-cast p (st x) (0 + k x) (k x) (omega arith) (v x)),
)
post_each-Got p ((id, module_ptr) ∷ ms) k st v =
    let one =
      post_at-Got p module_ptr (λ x. count x ms + k x) st
        (λ x. IsReady-cast p (st x) _ _ (omega (arith, count-cons x id module_ptr ms)) (v x)) in
    let rest = post_each-Got p ms k one.0 (λ x. (one.2 x).ready) in
    (
      rest.0,
      ap (λ o. and_then o λ (st', done). post_each p ms st') one.1 ∙ rest.1,
      λ x.
          Got-cast p (k x) (st x) (rest.0 x) _ _ (sym (count-cons x id module_ptr ms))
            (Got-add p _ _ (k x) (st x) (one.0 x) (rest.0 x) (one.2 x) (rest.2 x)),
    )

-- Where every module has room for the messages that it gets, a message to all modules comes to each
-- module as often as it stands in the two maps, and to no other, behind what its queue held.
pub dispatch-broadcast :
    (p : Post) (d : ModuleDispatcher) (st : Store)
    → ((x : ℕ) → IsReady p (count x d.mim + count x d.im) (st x))
    → (st' : Store) × (dispatch module_broadcast p d st ≡ some (st', true))
      × ((x : ℕ)
          → data_of (st' x).product
            ≡ data_of (st x).product
              ++ copies (count x d.mim + count x d.im) (posted_bytes p (st x)))
unfolding dispatch
dispatch-broadcast p d st v =
    let monitors = post_each-Got p d.mim (λ x. count x d.im) st v in
    let others =
      post_each-Got p d.im (λ x. 0) monitors.0
        (λ x. IsReady-cast p (monitors.0 x) _ _ (omega arith) (monitors.2 x).ready) in
    (
      others.0,
      ap (λ o. and_then o λ st'. and_then (post_each p d.im st') λ st''. some (st'', true))
            monitors.1
          ∙ ap (λ o. and_then o λ st''. some (st'', true)) others.1,
      λ x.
          (Got-add p (count x d.mim) (count x d.im) 0 (st x) (monitors.0 x) (others.0 x)
            (Got-ready p _ _ _ (st x) (monitors.0 x) (omega arith) (monitors.2 x))
            (others.2 x)).holds,
    )
