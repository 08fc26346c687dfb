-- ===== src/Aodc/ActiveModule/Laws.antt =====
-- Requests for activation and the channels that make them, along the messages of
-- src/dev/aodc/AodsActiveModule.cpp.
use aods.Base.{
  Bool, Bytes, Bytes-Key, IsText, Option, [], and_then, ap, arith, c_str, contains, erase, false,
  if◌then◌else◌, insert, leb, length, lookup, lookup-erase, lookup-insert, ltb, none, not, read32,
  refl, some, split_str, split_str-c_str, sym, true, ℕ, ℕ-Key, ◌+◌, ◌<◌, ◌==◌, ◌∙◌, ◌≡◌,
}
use aods.Aodc.ActiveModule.{
  ActiveInfo, ActiveModule, ActiveMsg, ActiveResult, AodsAodcActive, Inet, act_rlt_datainv,
  act_rlt_dbbusy, active_builded, active_data, active_freed, active_from_kafka, active_of,
  active_recv_channel_data, active_send_fail, aods_aodc_activate_size, aods_aodc_actv, ask_bus,
  before_colon, failed, last_byte, on_active_failed_result, on_channel_builded,
  on_recv_aods_channel, peer_addr, read_request, with_addr, with_ip,
}
use aods.Aodc.ActiveModule.Acks.{
  active_channel_freed, active_send_channel_data_fail, free_channel, free_request,
}
use aods.Aodc.AuthModule.{aods_aodc_msg_size, aods_channel_name, max_ip_addr_num}
use aods.Aodc.AuthModule.Changes.{contains-nonempty}
use aods.Util.Json.{JsonLib}

-- The channel of a request; empty where there is none.
abbrev pub name_of : Option ActiveInfo → Bytes
name_of none = []
name_of (some info) = info.channel_name

-- A channel with an identifier has a name, and the request of the identifier is its own.
pub record IsPaired (st : ActiveModule) : Type 0 where
  pub paired :
      (channel uuid : Bytes)
      → lookup channel st.cu ≡ some uuid
      → (name_of (lookup uuid st.uai) ≡ channel) × (0 < length channel)

-- The identifier that comes with a request is that of no other.
abbrev pub IsFresh : ActiveMsg → ActiveModule → Type 0
IsFresh (active_data uuid s) st = lookup uuid st.uai ≡ none
IsFresh (active_builded s) st = Unit
IsFresh (active_send_fail s) st = Unit
IsFresh (active_freed s) st = Unit
IsFresh (active_from_kafka s) st = Unit

-- What a handler that returns leaves is paired.
abbrev pub KeepsPaired : ActiveResult → Type 0
KeepsPaired none = Unit
KeepsPaired (some (st', out)) = IsPaired st'

pub KeepsPaired-and_then :
    {A : Type 0} (o : Option A) (f : A → ActiveResult)
    → ((x : A) → KeepsPaired (f x))
    → KeepsPaired (and_then o f)
KeepsPaired-and_then none f h = tt
KeepsPaired-and_then (some x) f h = h x

KeepsPaired-if :
    (b : Bool) (x y : ActiveResult)
    → (b ≡ true → KeepsPaired x)
    → (b ≡ false → KeepsPaired y)
    → KeepsPaired (if b then x else y)
KeepsPaired-if true x y h k = h refl
KeepsPaired-if false x y h k = k refl

-- A request that goes, with the channel that made it.
pub IsPaired-erase :
    (channel uuid : Bytes) (st st' : ActiveModule)
    → IsPaired st
    → name_of (lookup uuid st.uai) ≡ channel
    → st'.uai ≡ erase uuid st.uai
    → st'.cu ≡ erase channel st.cu
    → IsPaired st'
IsPaired-erase channel uuid st st' v h e f = record {
  paired = λ c u q. ground (
    arith,
    v.paired c u,
    lookup-erase c channel st.cu,
    lookup-erase u uuid st.uai,
    ap (lookup c) f,
    ap (lookup u) e,
    Bytes-Key.same_iff channel c,
    Bytes-Key.same_iff uuid u,
    h,
    q,
  );
}

-- A request that comes, with an identifier that is new.
IsPaired-insert :
    (channel uuid : Bytes) (info : ActiveInfo) (st st' : ActiveModule)
    → IsPaired st
    → 0 < length channel
    → info.channel_name ≡ channel
    → lookup uuid st.uai ≡ none
    → st'.uai ≡ insert uuid info st.uai
    → st'.cu ≡ insert channel uuid st.cu
    → IsPaired st'
IsPaired-insert channel uuid info st st' v n h fresh e f = record {
  paired = λ c u q. ground (
    arith,
    v.paired c u,
    lookup-insert c channel uuid st.cu,
    lookup-insert u uuid info st.uai,
    ap (lookup c) f,
    ap (lookup u) e,
    Bytes-Key.same_iff channel c,
    Bytes-Key.same_iff uuid u,
    h,
    n,
    fresh,
    q,
  );
}

-- The maps of the requests as they were.
pub IsPaired-same :
    (st st' : ActiveModule) → IsPaired st → st'.uai ≡ st.uai → st'.cu ≡ st.cu → IsPaired st'
IsPaired-same st st' v e f = record {
  paired = λ c u q. rw e (v.paired c u (ap (lookup c) (sym f) ∙ q));
}

pub KeepsPaired-failed :
    (channel : Bytes) (rlt : ℕ) (st : ActiveModule)
    → IsPaired st
    → KeepsPaired (failed channel rlt st)
KeepsPaired-failed channel rlt st v =
    KeepsPaired-and_then (on_active_failed_result channel rlt) _ λ out. v

KeepsPaired-free_request :
    (channel uuid : Bytes) (st : ActiveModule) (o : Option ActiveInfo)
    → IsPaired st
    → name_of o ≡ channel
    → lookup uuid st.uai ≡ o
    → KeepsPaired (free_request channel uuid st o)
KeepsPaired-free_request channel uuid st none v h e = tt
KeepsPaired-free_request channel uuid st (some info) v h e =
    IsPaired-erase channel uuid st _ v (ap name_of e ∙ h) refl refl

KeepsPaired-free_channel :
    (channel : Bytes) (st : ActiveModule) (o : Option Bytes)
    → IsPaired st
    → lookup channel st.cu ≡ o
    → KeepsPaired (free_channel channel st o)
KeepsPaired-free_channel channel st none v e = v
KeepsPaired-free_channel channel st (some uuid) v e =
    KeepsPaired-free_request channel uuid st (lookup uuid st.uai) v (v.paired channel uuid e).0 refl

pub KeepsPaired-active_channel_freed :
    (s : Bytes) (st : ActiveModule) → IsPaired st → KeepsPaired (active_channel_freed s st)
unfolding active_channel_freed
KeepsPaired-active_channel_freed s st v = KeepsPaired-and_then (split_str s) _ λ (channel, rest).
    KeepsPaired-if (contains aods_channel_name channel) _ _
      (λ e. KeepsPaired-free_channel channel st (lookup channel st.cu) v refl) (λ e. v)

pub KeepsPaired-active_send_channel_data_fail :
    (s : Bytes) (st : ActiveModule) → IsPaired st → KeepsPaired (active_send_channel_data_fail s st)
unfolding active_send_channel_data_fail
KeepsPaired-active_send_channel_data_fail s st v =
    KeepsPaired-and_then (split_str s) _ λ (channel, rest). v

KeepsPaired-peer_addr :
    (channel s : Bytes) (st : ActiveModule) → IsPaired st → KeepsPaired (peer_addr channel s st)
KeepsPaired-peer_addr channel s st v =
    KeepsPaired-if (leb (length s) 0) _ _ (λ e. v)
      λ e. KeepsPaired-and_then (split_str s) _ λ (local, rest).
        KeepsPaired-if (leb (length rest) 0) _ _ (λ f. v)
          λ f.
            KeepsPaired-and_then (split_str rest) _ λ (peer, behind). IsPaired-same st _ v refl refl

pub KeepsPaired-on_channel_builded :
    (s : Bytes) (st : ActiveModule) → IsPaired st → KeepsPaired (on_channel_builded s st)
unfolding on_channel_builded
KeepsPaired-on_channel_builded s st v = KeepsPaired-and_then (last_byte s) _ λ last.
    KeepsPaired-if (not (last == 0)) _ _ (λ e. v)
      λ e. KeepsPaired-and_then (split_str s) _ λ (channel, rest).
        KeepsPaired-if (contains aods_channel_name channel) _ _
          (λ f. KeepsPaired-peer_addr channel rest st v) (λ f. v)

module _ {J : Type 0} (lib : JsonLib J) (inet : Inet) where
  KeepsPaired-ask_bus :
      (channel uuid : Bytes) (a : AodsAodcActive) (con_ip : ℕ) (st : ActiveModule)
      → IsPaired st
      → 0 < length channel
      → lookup uuid st.uai ≡ none
      → KeepsPaired (ask_bus lib inet channel uuid a con_ip st)
  unfolding ask_bus
  KeepsPaired-ask_bus channel uuid a con_ip st v n fresh =
      KeepsPaired-if (con_ip == 0) _ _ (λ e. KeepsPaired-failed channel act_rlt_dbbusy st v)
        λ e.
          KeepsPaired-if (ltb max_ip_addr_num a.ip_num) _ _ (λ f. tt)
            λ f. IsPaired-insert channel uuid _ st _ v n refl fresh refl refl

  KeepsPaired-with_ip :
      (channel uuid : Bytes) (a : AodsAodcActive) (st : ActiveModule) (o : Option Bytes)
      → IsPaired st
      → 0 < length channel
      → lookup uuid st.uai ≡ none
      → KeepsPaired (with_ip lib inet channel uuid a st o)
  KeepsPaired-with_ip channel uuid a st none v n fresh =
      KeepsPaired-failed channel act_rlt_dbbusy st v
  KeepsPaired-with_ip channel uuid a st (some ip) v n fresh =
      KeepsPaired-ask_bus channel uuid a (inet.inet_addr ip) st v n fresh

  KeepsPaired-with_addr :
      (channel uuid : Bytes) (a : AodsAodcActive) (st : ActiveModule) (o : Option Bytes)
      → IsPaired st
      → 0 < length channel
      → lookup uuid st.uai ≡ none
      → KeepsPaired (with_addr lib inet channel uuid a st o)
  KeepsPaired-with_addr channel uuid a st none v n fresh =
      KeepsPaired-failed channel act_rlt_dbbusy st v
  KeepsPaired-with_addr channel uuid a st (some addr) v n fresh =
      KeepsPaired-if (leb 256 (length addr)) _ _ (λ e. tt)
        λ e. KeepsPaired-with_ip channel uuid a st (before_colon addr) v n fresh

  KeepsPaired-read_request :
      (channel uuid s : Bytes) (st : ActiveModule) (o : Option (ℕ × Bytes))
      → IsPaired st
      → 0 < length channel
      → lookup uuid st.uai ≡ none
      → KeepsPaired (read_request lib inet channel uuid s st o)
  KeepsPaired-read_request channel uuid s st none v n fresh =
      KeepsPaired-failed channel act_rlt_datainv st v
  KeepsPaired-read_request channel uuid s st (some (code, rest)) v n fresh =
      KeepsPaired-if (not (code == aods_aodc_actv)) _ _ (λ e. v)
        λ e.
          KeepsPaired-if (not (aods_aodc_msg_size + aods_aodc_activate_size == length s)) _ _
            (λ f. KeepsPaired-failed channel act_rlt_datainv st v)
            (λ f.
              KeepsPaired-with_addr channel uuid (active_of rest) st (lookup channel st.ca) v n
                fresh)

  pub KeepsPaired-active_recv_channel_data :
      (uuid s : Bytes) (st : ActiveModule)
      → IsPaired st
      → lookup uuid st.uai ≡ none
      → KeepsPaired (active_recv_channel_data lib inet uuid s st)
  unfolding active_recv_channel_data on_recv_aods_channel
  KeepsPaired-active_recv_channel_data uuid s st v fresh =
      KeepsPaired-and_then (split_str s) _ λ (channel, rest).
        KeepsPaired-if (contains aods_channel_name channel) _ _
          (λ e.
            KeepsPaired-read_request channel uuid rest st (read32 rest) v
              (contains-nonempty channel e) fresh)
          (λ e. v)

-- In maps that are paired, the end of a channel for hosts is always handled: the channel has no
-- identifier after it, and the handler does not take an end of a map for an element.
pub active_channel_freed-served :
    (channel : Bytes) (st : ActiveModule)
    → IsPaired st
    → IsText channel
    → contains aods_channel_name channel ≡ true
    → (after : ActiveModule) × (active_channel_freed (c_str channel) st ≡ some (after, []))
      × (lookup channel after.cu ≡ none)
unfolding active_channel_freed
active_channel_freed-served channel st v text aods =
    rw (split_str-c_str channel [] text, aods) (served (lookup channel st.cu) refl)
  where
    there :
        (uuid : Bytes) (o : Option ActiveInfo)
        → name_of o ≡ channel
        → 0 < length channel
        → lookup uuid st.uai ≡ o
        → (after : ActiveModule) × (free_request channel uuid st o ≡ some (after, []))
          × (lookup channel after.cu ≡ none)
    there uuid none h n e = absurd (omega (arith, n, ap length h))
    there uuid (some info) h n e = (
      record st { uai = erase uuid st.uai; cu = erase channel st.cu; ca = erase channel st.ca },
      refl,
      ground (arith, lookup-erase channel channel st.cu, Bytes-Key.same_iff channel channel),
    )

    served :
        (o : Option Bytes)
        → lookup channel st.cu ≡ o
        → (after : ActiveModule) × (free_channel channel st o ≡ some (after, []))
          × (lookup channel after.cu ≡ none)
    served none e = (st, refl, e)
    served (some uuid) e =
        there uuid (lookup uuid st.uai) (v.paired channel uuid e).0 (v.paired channel uuid e).1 refl
