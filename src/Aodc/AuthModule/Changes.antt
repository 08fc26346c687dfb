-- ===== src/Aodc/AuthModule/Changes.antt =====
-- What the messages of src/dev/aodc/AodsAuthModule.cpp may change in the two maps: nothing, or a
-- host joins, or a host leaves.
use mathlib.Core.Path.{subst}
use mathlib.Core.Option
use aods.Base.{
  Bool, Bytes, Bytes-Key, List, Option, [], and_then, arith, bytes_eq, bytes_eq_iff, codes,
  contains, erase, false, if◌then◌else◌, insert, leb, length, lookup, ltb, none, not, read32, refl,
  some, split_str, starts_with, sym, true, ℕ, ℕ-Key, ◌++◌, ◌+◌, ◌<◌, ◌==◌, ◌∷◌, ◌≡◌,
}
use aods.Aodc.AuthModule.{
  AodsAodcAuthen, AuthInfo, AuthModule, AuthMsg, ack_for, acknowledged, aods_aodc_auth,
  aods_aodc_authen_size, aods_aodc_msg_size, aods_channel_name, authen_of, authenticate,
  calc_active_code, channel_freed, check_code, drop_channel, drop_resource, find_info, on_auth_msg,
  on_recv_aods_msg, on_recv_channel_data, on_recv_from_kafka, recv_channel_data, recv_from_kafka,
  rejected, send_channel_data_fail, until_nul, with_auth_ack, with_json,
}
use aods.Util.Helper.{get_hex_string}
use aods.Util.Json.{JsonLib}
use aods.Util.OutMsg.{OutMsg}

-- The channel that a resource is registered for; empty where it is not.
abbrev pub name_at : Bytes → AuthModule → Bytes
name_at rid st = (find_info (lookup rid st.rc)).channel_name

-- The code of a message is that of its resource and its serial number.
abbrev pub HasCode : (ℕ → ℕ) → AodsAodcAuthen → Type 0
HasCode junk a = a.act_code ≡ calc_active_code junk (a.res_id ++ a.rd_serial)

pub data Change (junk : ℕ → ℕ) (st st' : AuthModule) : Type 0 where
  maps_kept : st'.rc ≡ st.rc → st'.cr ≡ st.cr → Change junk st st'
  host_joined :
      (channel : Bytes) (a : AodsAodcAuthen)
      → 0 < length channel
      → HasCode junk a
      → length (name_at (get_hex_string a.res_id) st) ≡ 0
      → st'.rc
        ≡ insert
            (get_hex_string a.res_id)
            (record { ip_num = a.ip_num; channel_name = channel; ip_addr = a.ip_addr })
            st.rc
      → st'.cr ≡ insert channel (get_hex_string a.res_id) st.cr
      → Change junk st st'
  host_left :
      (channel rid : Bytes)
      → lookup channel st.cr ≡ some rid
      → st'.rc ≡ erase rid st.rc
      → st'.cr ≡ erase channel st.cr
      → Change junk st st'

-- What a handler that returns has changed.
abbrev pub MayChange : (ℕ → ℕ) → AuthModule → Option (AuthModule × List OutMsg) → Type 0
MayChange junk st none = Unit
MayChange junk st (some (st', out)) = Change junk st st'

MayChange-and_then :
    {A : Type 0} (junk : ℕ → ℕ) (st : AuthModule) (o : Option A)
    (f : A → Option (AuthModule × List OutMsg))
    → ((x : A) → MayChange junk st (f x))
    → MayChange junk st (and_then o f)
MayChange-and_then junk st none f h = tt
MayChange-and_then junk st (some x) f h = h x

MayChange-if :
    (junk : ℕ → ℕ) (st : AuthModule) (b : Bool) (x y : Option (AuthModule × List OutMsg))
    → (b ≡ true → MayChange junk st x)
    → (b ≡ false → MayChange junk st y)
    → MayChange junk st (if b then x else y)
MayChange-if junk st true x y h k = h refl
MayChange-if junk st false x y h k = k refl

pub contains-nonempty :
    (channel : Bytes) → contains aods_channel_name channel ≡ true → 0 < length channel
unfolding contains starts_with
contains-nonempty [] h = ground arith
contains-nonempty (b ∷ channel) h = omega arith

MayChange-drop_resource :
    (junk : ℕ → ℕ) (channel : Bytes) (st : AuthModule) (o : Option Bytes)
    → lookup channel st.cr ≡ o
    → Change junk st (drop_resource channel st o)
MayChange-drop_resource junk channel st none e = maps_kept refl refl
MayChange-drop_resource junk channel st (some rid) e = host_left channel rid e refl refl

MayChange-drop_channel :
    (junk : ℕ → ℕ) (s : Bytes) (st : AuthModule) → MayChange junk st (drop_channel s st)
unfolding drop_channel
MayChange-drop_channel junk s st =
    MayChange-and_then junk st (split_str s) _
      λ (channel, rest). dropped (contains aods_channel_name channel) channel
  where
    dropped :
        (b : Bool) (channel : Bytes)
        → Change junk st (if b then drop_resource channel st (lookup channel st.cr) else st)
    dropped true channel = MayChange-drop_resource junk channel st (lookup channel st.cr) refl
    dropped false channel = maps_kept refl refl

MayChange-rejected :
    (malloc : ℕ → Option Bytes) (junk : ℕ → ℕ) (channel : Bytes) (info : AuthInfo) (st : AuthModule)
    (o : Option Bool)
    → MayChange junk st (Option.map (rejected malloc channel info st) o)
MayChange-rejected malloc junk channel info st none = tt
MayChange-rejected malloc junk channel info st (some true) = maps_kept refl refl
MayChange-rejected malloc junk channel info st (some false) = maps_kept refl refl

module _ {J : Type 0} (lib : JsonLib J) (malloc : ℕ → Option Bytes) (junk : ℕ → ℕ) where
  MayChange-authenticate :
      (channel : Bytes) (a : AodsAodcAuthen) (st : AuthModule)
      → 0 < length channel
      → HasCode junk a
      → MayChange junk st (authenticate lib malloc channel a st)
  unfolding authenticate
  MayChange-authenticate channel a st n h =
      MayChange-if junk st (ltb 0 (length (name_at (get_hex_string a.res_id) st))) _ _
        (λ e.
          MayChange-rejected malloc junk channel
            (find_info (lookup (get_hex_string a.res_id) st.rc)) st _)
        (λ e. host_joined channel a n h (ground (arith, e)) refl refl)

  MayChange-check_code :
      (channel : Bytes) (a : AodsAodcAuthen) (st : AuthModule)
      → 0 < length channel
      → MayChange junk st (check_code lib malloc junk channel a st)
  unfolding check_code
  MayChange-check_code channel a st n =
      MayChange-if junk st (bytes_eq (calc_active_code junk (a.res_id ++ a.rd_serial)) a.act_code) _
        _ (λ e. MayChange-authenticate channel a st n (sym ((bytes_eq_iff _ _).0 e)))
        (λ e. maps_kept refl refl)

  MayChange-on_recv_aods_msg :
      (channel s : Bytes) (st : AuthModule)
      → 0 < length channel
      → MayChange junk st (on_recv_aods_msg lib malloc junk channel s st)
  unfolding on_recv_aods_msg
  MayChange-on_recv_aods_msg channel s st n =
      MayChange-and_then junk st (read32 s) _ λ (code, rest).
        MayChange-if junk st (not (code == aods_aodc_auth)) _ _ (λ e. maps_kept refl refl)
          λ e.
            MayChange-if junk st (not (aods_aodc_authen_size + aods_aodc_msg_size == length s)) _ _
              (λ e. maps_kept refl refl) λ e. MayChange-check_code channel (authen_of rest) st n

  MayChange-on_recv_channel_data :
      (s : Bytes) (st : AuthModule) → MayChange junk st (on_recv_channel_data lib malloc junk s st)
  unfolding on_recv_channel_data
  MayChange-on_recv_channel_data s st =
      MayChange-and_then junk st (split_str s) _ λ (channel, rest).
        MayChange-if junk st (leb (length s) (length channel + 1)) _ _ (λ e. maps_kept refl refl)
          λ e.
            MayChange-if junk st (contains aods_channel_name channel) _ _
              (λ e. MayChange-on_recv_aods_msg channel rest st (contains-nonempty channel e))
              (λ e. maps_kept refl refl)

  MayChange-acknowledged :
      (rid : Bytes) (ack : ℕ) (info : AuthInfo) (st : AuthModule)
      → MayChange junk st (some (acknowledged lib malloc rid ack info st))
  MayChange-acknowledged rid ack info st = ground (arith, maps_kept)

  MayChange-ack_for :
      (auth : J) (rid : Bytes) (st : AuthModule) (o : Option AuthInfo)
      → MayChange junk st (ack_for lib malloc auth rid st o)
  MayChange-ack_for auth rid st none = maps_kept refl refl
  MayChange-ack_for auth rid st (some info) =
      MayChange-and_then junk st (lib.get_object_item auth (codes "ack")) _
        λ ack. MayChange-acknowledged rid (lib.value_int ack) info st

  MayChange-with_auth_ack :
      (st : AuthModule) (o : Option J) → MayChange junk st (with_auth_ack lib malloc st o)
  MayChange-with_auth_ack st none = maps_kept refl refl
  MayChange-with_auth_ack st (some auth) =
      MayChange-and_then junk st (lib.get_object_item auth (codes "rid")) _ λ rid.
        MayChange-and_then junk st (lib.value_string rid) _
          λ text. MayChange-ack_for auth text st (lookup text st.rc)

  MayChange-with_json :
      (st : AuthModule) (o : Option J) → MayChange junk st (with_json lib malloc st o)
  MayChange-with_json st none = maps_kept refl refl
  MayChange-with_json st (some obj) =
      MayChange-with_auth_ack st (lib.get_object_item obj (codes "auth_ack"))

  -- What holds of a message of any kind.
  pub MayChange-on_auth_msg :
      (msg : AuthMsg) (st : AuthModule) → MayChange junk st (on_auth_msg lib malloc junk msg st)
  unfolding on_auth_msg on_recv_from_kafka
  MayChange-on_auth_msg (recv_channel_data s) st = MayChange-on_recv_channel_data s st
  MayChange-on_auth_msg (send_channel_data_fail s) st = MayChange-drop_channel junk s st
  MayChange-on_auth_msg (channel_freed s) st = MayChange-drop_channel junk s st
  MayChange-on_auth_msg (recv_from_kafka s) st = MayChange-with_json st (lib.parse (until_nul s))

  -- Whatever message is handled, unless it makes the handler read past its data or use NULL: the
  -- maps are left as they are, or a host joins whose code is right and whose resource is not
  -- registered, or a registered host leaves.
  pub on_auth_msg-Change :
      (msg : AuthMsg) (st st' : AuthModule) (out : List OutMsg)
      → on_auth_msg lib malloc junk msg st ≡ some (st', out)
      → Change junk st st'
  on_auth_msg-Change msg st st' out done =
      subst (MayChange junk st) done (MayChange-on_auth_msg msg st)
