-- ===== src/Aodc/AuthModule/Linked.antt =====
-- What holds of the two maps of src/dev/aodc/AodsAuthModule.cpp along any messages.
use mathlib.Core.Option.{some-injective}
use mathlib.Core.Path.{subst}
use aods.Base.{
  Bytes, Bytes-Key, IsText, List, Option, [], and_then, ap, arith, c_str, contains, erase, length,
  lookup, lookup-erase, lookup-insert, none, refl, some, split_str-c_str, sym, true, ℕ, ℕ-Key, ◌<◌,
  ◌∙◌, ◌∷◌, ◌≡◌, ◌≢◌,
}
use aods.Aodc.AuthModule.{
  AodsAodcAuthen, AuthInfo, AuthModule, AuthMsg, aods_channel_name, check_code, drop_channel,
  on_auth_msg, registered, run_auth,
}
use aods.Aodc.AuthModule.Changes.{
  Change, HasCode, MayChange, MayChange-on_auth_msg, host_joined, host_left, maps_kept, name_at,
}
use aods.Util.Helper.{get_hex_string}
use aods.Aodc.AuthModule.Answers.{check_code-free}
use aods.Util.Json.{JsonLib}
use aods.Util.OutMsg.{OutMsg}

-- A channel that has a resource has a name, and the resource is registered for it; a resource that
-- is registered is so for a channel with a name.
pub record IsLinked (st : AuthModule) : Type 0 where
  pub linked :
      (channel rid : Bytes)
      → lookup channel st.cr ≡ some rid
      → (name_at rid st ≡ channel) × (0 < length channel)
  pub named :
      (rid : Bytes) (info : AuthInfo) → lookup rid st.rc ≡ some info → 0 < length info.channel_name

-- A resource that is registered, for a channel that does not have it any more.
pub record IsStale (rid : Bytes) (st : AuthModule) : Type 0 where
  pub registered_yet : 0 < length (name_at rid st)
  pub no_channel : (channel : Bytes) → lookup channel st.cr ≢ some rid

module _ (junk : ℕ → ℕ) (st st' : AuthModule) where
  IsLinked-step : IsLinked st → Change junk st st' → IsLinked st'
  IsLinked-step v (maps_kept e f) = record {
    linked = λ c r q. rw (e) (v.linked c r (ap (lookup c) (sym f) ∙ q));
    named = λ r info q. v.named r info (ap (lookup r) (sym e) ∙ q);
  }
  IsLinked-step v (host_joined channel a n h free e f) =
      let rid = get_hex_string a.res_id in
      let info : AuthInfo = record {
        ip_num = a.ip_num;
        channel_name = channel;
        ip_addr = a.ip_addr;
      } in
      record {
        linked = λ c r q. ground (
          arith,
          v.linked c r,
          lookup-insert c channel rid st.cr,
          lookup-insert r rid info st.rc,
          ap (lookup c) f,
          ap (lookup r) e,
          Bytes-Key.same_iff channel c,
          Bytes-Key.same_iff rid r,
          n,
          free,
          q,
        );
        named = λ r i q.
            ground (arith, v.named r i, lookup-insert r rid info st.rc, ap (lookup r) e, n, q);
      }
  IsLinked-step v (host_left channel rid h e f) = record {
    linked = λ c r q. ground (
      arith,
      v.linked c r,
      v.linked channel rid h,
      lookup-erase c channel st.cr,
      lookup-erase r rid st.rc,
      ap (lookup c) f,
      ap (lookup r) e,
      Bytes-Key.same_iff channel c,
      Bytes-Key.same_iff rid r,
      q,
    );
    named = λ r i q. ground (arith, v.named r i, lookup-erase r rid st.rc, ap (lookup r) e, q);
  }

  IsStale-step : (rid : Bytes) → IsStale rid st → Change junk st st' → IsStale rid st'
  IsStale-step rid v (maps_kept e f) = record {
    registered_yet = rw e v.registered_yet;
    no_channel = λ c q. v.no_channel c (ap (lookup c) (sym f) ∙ q);
  }
  IsStale-step rid v (host_joined channel a n h free e f) =
      let rid' = get_hex_string a.res_id in
      let info : AuthInfo = record {
        ip_num = a.ip_num;
        channel_name = channel;
        ip_addr = a.ip_addr;
      } in
      record {
        registered_yet =
            ground
              (arith, v.registered_yet, lookup-insert rid rid' info st.rc, ap (lookup rid) e, n);
        no_channel = λ c q. ground (
          arith,
          v.registered_yet,
          v.no_channel c,
          lookup-insert c channel rid' st.cr,
          ap (lookup c) f,
          free,
          q,
        );
      }
  IsStale-step rid v (host_left channel rid' h e f) = record {
    registered_yet = ground (
      arith,
      v.registered_yet,
      v.no_channel channel,
      h,
      lookup-erase rid rid' st.rc,
      ap (lookup rid) e,
      Bytes-Key.same_iff rid' rid,
    );
    no_channel =
        λ c q. ground (arith, v.no_channel c, lookup-erase c channel st.cr, ap (lookup c) f, q);
  }

-- What a message that is handled has changed, from the cases above.
MayChange-some :
    (junk : ℕ → ℕ) (st : AuthModule) (o : Option (AuthModule × List OutMsg)) (st' : AuthModule)
    (out : List OutMsg)
    → MayChange junk st o
    → o ≡ some (st', out)
    → Change junk st st'
MayChange-some junk st o st' out h e = subst (MayChange junk st) e h

module _ {J : Type 0} (lib : JsonLib J) (malloc : ℕ → Option Bytes) (junk : ℕ → ℕ)
    (P : AuthModule → Type 0)
    (keeps : (st st' : AuthModule) → P st → Change junk st st' → P st') where
  run_auth-keeps :
      (msgs : List AuthMsg) (st st' : AuthModule)
      → P st
      → run_auth lib malloc junk msgs st ≡ some st'
      → P st'
  unfolding run_auth
  run_auth-keeps [] st st' v e = subst P (some-injective st st' e) v
  run_auth-keeps (msg ∷ msgs) st st' v e =
      after (on_auth_msg lib malloc junk msg st) refl e (λ mid w. run_auth-keeps msgs mid st' w)
    where
      after :
          (o : Option (AuthModule × List OutMsg))
          → on_auth_msg lib malloc junk msg st ≡ o
          → and_then o (λ (mid, out). run_auth lib malloc junk msgs mid) ≡ some st'
          → ((mid : AuthModule) → P mid → run_auth lib malloc junk msgs mid ≡ some st' → P st')
          → P st'
      after none q r go = ground (arith, r)
      after (some (mid, out)) q r go =
          go mid
            (keeps st mid v
              (MayChange-some junk st _ mid out (MayChange-on_auth_msg lib malloc junk msg st) q))
            r

module _ {J : Type 0} (lib : JsonLib J) (malloc : ℕ → Option Bytes) (junk : ℕ → ℕ) where
  -- Maps that are linked stay so, whatever messages arrive, as long as none of them makes the
  -- module read past its data: a channel that has a resource is the channel that the resource
  -- is registered for, and no resource is registered without a channel.
  pub run_auth-IsLinked :
      (msgs : List AuthMsg) (st st' : AuthModule)
      → IsLinked st
      → run_auth lib malloc junk msgs st ≡ some st'
      → IsLinked st'
  run_auth-IsLinked = run_auth-keeps lib malloc junk IsLinked (IsLinked-step junk)

  -- A resource whose channel no longer has it stays registered and is never given up, whatever
  -- messages arrive and are handled.
  pub run_auth-IsStale :
      (rid : Bytes) (msgs : List AuthMsg) (st st' : AuthModule)
      → IsStale rid st
      → run_auth lib malloc junk msgs st ≡ some st'
      → IsStale rid st'
  run_auth-IsStale rid =
      run_auth-keeps lib malloc junk (IsStale rid) λ st st'. IsStale-step junk st st' rid

  -- In maps that are linked, a channel that authenticates a second resource, with its code and
  -- not registered, leaves the first one registered with no channel that could give it up.
  pub check_code-IsStale :
      (channel rid : Bytes) (a : AodsAodcAuthen) (st : AuthModule)
      → IsLinked st
      → 0 < length channel
      → name_at rid st ≡ channel
      → HasCode junk a
      → get_hex_string a.res_id ≢ rid
      → length (name_at (get_hex_string a.res_id) st) ≡ 0
      → (after : AuthModule) × (out : List OutMsg) × (check_code lib malloc junk channel a st
          ≡ some (after, out))
        × IsStale rid after
  check_code-IsStale channel rid a st v n h code other free =
      let rid' = get_hex_string a.res_id in
      let info : AuthInfo = record {
        ip_num = a.ip_num;
        channel_name = channel;
        ip_addr = a.ip_addr;
      } in
      (
        (registered lib channel rid' a st).0,
        (registered lib channel rid' a st).1,
        check_code-free lib malloc junk channel a st code free,
        record {
          registered_yet =
              ground (
                arith,
                h,
                n,
                lookup-insert rid rid' info st.rc,
                Bytes-Key.same_iff rid' rid,
                other,
              );
          no_channel = λ c q. ground (
            arith,
            v.linked c rid,
            h,
            q,
            lookup-insert c channel rid' st.cr,
            Bytes-Key.same_iff channel c,
            other,
          );
        },
      )

  -- In maps that are linked, once the channel of a registered resource, one of the channels
  -- for hosts, is freed or data cannot be sent to it, any host with the right code can
  -- register the resource.
  pub drop_channel-check_code :
      (channel channel' rid : Bytes) (a : AodsAodcAuthen) (st : AuthModule)
      → IsLinked st
      → IsText channel
      → contains aods_channel_name channel ≡ true
      → lookup channel st.cr ≡ some rid
      → HasCode junk a
      → get_hex_string a.res_id ≡ rid
      → (freed after : AuthModule) × (out : List OutMsg) × (drop_channel (c_str channel) st
          ≡ some (freed, []))
        × (check_code lib malloc junk channel' a freed ≡ some (after, out))
        × (name_at rid after ≡ channel')
        × (lookup channel' after.cr ≡ some rid)
  unfolding drop_channel
  drop_channel-check_code channel channel' rid a st v text aods h code same =
      let freed : AuthModule = record st { rc = erase rid st.rc; cr = erase channel st.cr } in
      let info : AuthInfo = record {
        ip_num = a.ip_num;
        channel_name = channel';
        ip_addr = a.ip_addr;
      } in
      let rid' = get_hex_string a.res_id in
      let gone : length (name_at rid' freed) ≡ 0 =
        ground (arith, lookup-erase rid' rid st.rc, Bytes-Key.same_iff rid rid', same) in
      (
        freed,
        (registered lib channel' rid' a freed).0,
        (registered lib channel' rid' a freed).1,
        rw (split_str-c_str channel [] text, aods, h),
        check_code-free lib malloc junk channel' a freed code gone,
        ground (arith, lookup-insert rid rid' info freed.rc, Bytes-Key.same_iff rid' rid, same),
        ground (
          arith,
          lookup-insert channel' channel' rid' freed.cr,
          Bytes-Key.same_iff channel' channel',
          same,
        ),
      )
