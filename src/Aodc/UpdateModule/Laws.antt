-- ===== src/Aodc/UpdateModule/Laws.antt =====
-- Updates on their way from the bus of src/dev/aodc/UpdateModule.cpp to the hosts that
-- src/dev/aodc/AodsAuthModule.cpp has let in.
use mathlib.Core.Path.{subst}
use aods.Base.{
  All, Bytes, Bytes-Key, IsText, List, Option, [], and_then, ap, append-nil, append_assoc, ap₂,
  arith, c_str, codes, contains, erase, false, last_byte, last_byte-append, le32, leb, length,
  length-append, length-le32, lookup, lookup-erase, lookup-insert, ltb, map, none, refl, some,
  split_str, split_str-c_str, sym, true, ℕ, ℕ-Key, ◌%◌, ◌++◌, ◌+◌, ◌<◌, ◌^◌, ◌∙◌, ◌∷◌, ◌≡◌, ◌≤◌,
}
use aods.Aodc.ActiveModule.Activation.{sent_data}
use aods.Aodc.AuthModule.{aods_channel_name, fill_cache, until_nul}
use aods.Aodc.AuthModule.Answers.{fill_cache_lem, step_of_fill_cache}
use aods.Aodc.UpdateModule.{
  UpdateModule, UpdateObj, aodc_aods_keepalive, aodc_aods_umi, copy_texts, entered, keep_alive,
  on_auth_suc, res_id_len, ti_keepalive, update_channel_freed, update_for, update_json, update_keys,
  update_on_timer, update_recv_from_kafka, with_update,
}
use aods.Util.Json.{JsonLib}
use aods.Util.MemCache.{MemCache}
use aods.Util.MemCache.Laws.{IsValid, Serves}
use aods.Util.OutMsg.{OutMsg, channel_send_data, module_commu}

-- Data for a channel.
abbrev pub data_msg : Bytes → Bytes → OutMsg
data_msg channel s = record {
  rmi = module_commu;
  msg_code = channel_send_data;
  msg = c_str channel ++ s;
}

-- The names of all channels fit into the cache.
abbrev pub NamesFit : ℕ → List (Bytes × UpdateObj) → Type 0
NamesFit step cuo = All (λ e. length e.0 + step + 5 < 2 ^ 32) cuo

keep_alive_lem :
    (malloc : ℕ → Option Bytes) (cuo : List (Bytes × UpdateObj)) (c : MemCache)
    → Serves malloc
    → IsValid c
    → NamesFit c.append_step_size cuo
    → (keep_alive malloc cuo c).1 ≡ map (λ e. data_msg e.0 (le32 aodc_aods_keepalive)) cuo
unfolding keep_alive
keep_alive_lem malloc [] c serves v small = refl
keep_alive_lem malloc ((channel, obj) ∷ cuo) c serves v small =
    let one =
      fill_cache_lem malloc (c_str channel) (le32 aodc_aods_keepalive) c serves v
        (omega (arith, small.0, length-append channel (0 ∷ []), length-le32 aodc_aods_keepalive)) in
    let amc = fill_cache malloc (c_str channel) (le32 aodc_aods_keepalive) c in
    let step = step_of_fill_cache malloc (c_str channel) (le32 aodc_aods_keepalive) c in
    ap₂ (λ x y. sent_data x ∷ y) one.1
      (keep_alive_lem malloc cuo amc serves one.0 (subst (λ n. NamesFit n cuo) (sym step) small.1))

-- On an allocator that serves every request, the timer sends each channel that is entered one
-- message to keep it alive, in the order of the map, and no other, as long as the sizes stay
-- within an unsigned int.
pub update_on_timer_lem :
    (malloc : ℕ → Option Bytes) (st : UpdateModule)
    → Serves malloc
    → IsValid st.amc
    → NamesFit st.amc.append_step_size st.cuo
    → (update_on_timer malloc ti_keepalive st).1
      ≡ map (λ e. data_msg e.0 (le32 aodc_aods_keepalive)) st.cuo
unfolding update_on_timer
update_on_timer_lem malloc st serves v small = keep_alive_lem malloc st.cuo st.amc serves v small

-- What the authentication of a resource enters.
on_auth_suc_lem :
    (rid channel : Bytes) (st : UpdateModule)
    → IsText rid
    → IsText channel
    → 6 ≤ length rid
    → length rid < 16
    → on_auth_suc (c_str rid ++ c_str channel) st ≡ some (entered rid channel st, [])
unfolding on_auth_suc
on_auth_suc_lem rid channel st text text' long short =
    let s = c_str rid ++ c_str channel in
    let enough : ltb (length s) res_id_len ≡ false =
      ground (arith, length-append (c_str rid) (c_str channel), length-append rid (0 ∷ []), long) in
    let ends : last_byte s ≡ some 0 =
      ap last_byte (sym (append_assoc (c_str rid) channel (0 ∷ [])))
      ∙ last_byte-append (c_str rid ++ channel) 0 in
    let cut : split_str s ≡ some (rid, c_str channel) =
      ap split_str (append_assoc rid (0 ∷ []) (c_str channel))
      ∙ split_str-c_str rid (c_str channel) text in
    let fits : leb 16 (length rid) ≡ false = ground (arith, short) in
    rw (enough, ends, cut, fits, split_str-c_str channel [] text')

-- The texts of an update.
pub record UpdateTexts : Type 0 where
  pub project : Bytes
  pub module_name : Bytes
  pub version : Bytes
  pub hash : Bytes
  pub url : Bytes
  pub code : Bytes

-- They stand one after the other, each with its terminator.
abbrev pub texts_in_order : UpdateTexts → Bytes
texts_in_order u =
    c_str u.project
    ++ (c_str u.module_name ++ (c_str u.version ++ (c_str u.hash ++ (c_str u.url ++ c_str u.code))))

-- An object has a text under a name.
abbrev pub HasText : {J : Type 0} → JsonLib J → J → Bytes → Bytes → Type 0
HasText lib obj key text =
    (item : _) × (lib.get_object_item obj key ≡ some item) × (lib.value_string item ≡ some text)

-- An update of the bus: its parts, as the library shows them.
pub record IsUpdate {J : Type 0} (lib : JsonLib J) (s rid : Bytes) (u : UpdateTexts) (force : ℕ)
    : Type 0 where
  pub root : J
  pub obj : J
  pub flag : J
  pub parsed : lib.parse (until_nul s) ≡ some root
  pub has_obj : lib.get_object_item root (codes "update") ≡ some obj
  pub has_rid : HasText lib obj (codes "rid") rid
  pub has_project : HasText lib obj (codes "project") u.project
  pub has_module : HasText lib obj (codes "module") u.module_name
  pub has_version : HasText lib obj (codes "version") u.version
  pub has_hash : HasText lib obj (codes "hash") u.hash
  pub has_url : HasText lib obj (codes "url") u.url
  pub has_code : HasText lib obj (codes "code") u.code
  pub has_flag : lib.get_object_item obj (codes "force") ≡ some flag
  pub is_force : lib.value_int flag ≡ force

copy_texts-IsUpdate :
    {J : Type 0} (lib : JsonLib J) (s rid : Bytes) (u : UpdateTexts) (force : ℕ)
    → (w : IsUpdate lib s rid u force) → copy_texts lib update_keys w.obj ≡ some (texts_in_order u)
copy_texts-IsUpdate lib s rid u force w =
    rw
      (
        w.has_project.1,
        w.has_project.2,
        w.has_module.1,
        w.has_module.2,
        w.has_version.1,
        w.has_version.2,
        w.has_hash.1,
        w.has_hash.2,
        w.has_url.1,
        w.has_url.2,
        w.has_code.1,
        w.has_code.2,
        append-nil (c_str u.code),
      )
      refl

module _ {J : Type 0} (lib : JsonLib J) (malloc : ℕ → Option Bytes) where
  -- The host that an update is for.
  update_recv_from_kafka-IsUpdate :
      (s rid : Bytes) (u : UpdateTexts) (force : ℕ) (st : UpdateModule)
      → (w : IsUpdate lib s rid u force)
      → update_recv_from_kafka lib malloc s st ≡ update_for lib malloc w.obj st (lookup rid st.ruo)
  unfolding update_recv_from_kafka
  update_recv_from_kafka-IsUpdate s rid u force st w =
      ap (update_json lib malloc st) w.parsed
      ∙ ap (with_update lib malloc st) w.has_obj
      ∙ ap
          (λ o. and_then o λ item.
            and_then (lib.value_string item) λ x. update_for lib malloc w.obj st (lookup x st.ruo))
          w.has_rid.1
      ∙ ap (λ o. and_then o λ x. update_for lib malloc w.obj st (lookup x st.ruo)) w.has_rid.2

  -- On an allocator that serves every request, once a resource of 6 to 15 characters is told
  -- to have authenticated on a channel, an update of the bus for it goes to that channel: its
  -- six texts in order, each with its terminator, and the flag, as long as they fit into 1024 bytes and the sizes stay within
  -- an unsigned int.
  pub on_auth_suc-update_recv_from_kafka :
      (s rid channel : Bytes) (u : UpdateTexts) (force : ℕ) (st : UpdateModule)
      → Serves malloc
      → IsValid st.amc
      → length channel + st.amc.append_step_size + 1030 < 2 ^ 32
      → IsText rid
      → IsText channel
      → 6 ≤ length rid
      → length rid < 16
      → IsUpdate lib s rid u force
      → length (texts_in_order u) + 5 ≤ 1024
      → (mid after : UpdateModule) × (on_auth_suc (c_str rid ++ c_str channel) st ≡ some (mid, []))
        × (update_recv_from_kafka lib malloc s mid
            ≡ some (
              after,
              data_msg channel (le32 aodc_aods_umi ++ (texts_in_order u ++ force % 256 ∷ [])) ∷ [],
            ))
  on_auth_suc-update_recv_from_kafka s rid channel u force st serves v small text text' long short w
        fits =
      let mid = entered rid channel st in
      let host : UpdateObj = record { channel_name = channel; res_id = rid } in
      let known : lookup rid mid.ruo ≡ some host =
        ground (arith, lookup-insert rid rid host st.ruo, Bytes-Key.same_iff rid rid) in
      let msg = le32 aodc_aods_umi ++ (texts_in_order u ++ force % 256 ∷ []) in
      let short_enough : ltb 1024 (length (texts_in_order u) + 5) ≡ false = ground (arith, fits) in
      let amc = fill_cache malloc (c_str channel) msg st.amc in
      let filled = fill_cache_lem malloc (c_str channel) msg st.amc serves v (
        omega (
          arith,
          length-append channel (0 ∷ []),
          length-append (le32 aodc_aods_umi) (texts_in_order u ++ force % 256 ∷ []),
          length-append (texts_in_order u) (force % 256 ∷ []),
          length-le32 aodc_aods_umi,
        )) in
      (
        mid,
        record mid { amc = amc },
        on_auth_suc_lem rid channel st text text' long short,
        update_recv_from_kafka-IsUpdate s rid u force mid w
            ∙ ap (update_for lib malloc w.obj mid) known
            ∙ rw (copy_texts-IsUpdate lib s rid u force w, w.has_flag, w.is_force, short_enough)
                (ap (λ z. some (record mid { amc = amc }, sent_data z ∷ [])) filled.1),
      )

  -- Once the channel of a resource, one of the channels for hosts, is freed or data cannot be
  -- sent to it, an update for the resource goes to nobody.
  pub update_channel_freed-update_recv_from_kafka :
      (s rid channel : Bytes) (u : UpdateTexts) (force : ℕ) (obj : UpdateObj) (st : UpdateModule)
      → IsText channel
      → contains aods_channel_name channel ≡ true
      → lookup channel st.cuo ≡ some obj
      → obj.res_id ≡ rid
      → IsUpdate lib s rid u force
      → (mid : UpdateModule) × (update_channel_freed (c_str channel) st ≡ some (mid, []))
        × (update_recv_from_kafka lib malloc s mid ≡ some (mid, []))
  unfolding update_channel_freed
  update_channel_freed-update_recv_from_kafka s rid channel u force obj st text aods there same w =
      let mid : UpdateModule = record st {
        ruo = erase obj.res_id st.ruo;
        cuo = erase channel st.cuo;
      } in
      let gone : lookup rid mid.ruo ≡ none =
        ground
          (arith, lookup-erase rid obj.res_id st.ruo, Bytes-Key.same_iff obj.res_id rid, same) in
      (
        mid,
        rw (split_str-c_str channel [] text, aods, there),
        update_recv_from_kafka-IsUpdate s rid u force mid w
            ∙ ap (update_for lib malloc w.obj mid) gone,
      )
