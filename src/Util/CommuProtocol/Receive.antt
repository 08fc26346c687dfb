-- ===== src/Util/CommuProtocol/Receive.antt =====
-- `GetContent` and `MoveNext` on a buffer that starts with a message of `EncodeMsg`.
use aods.Base.{
  Bytes, IsBytes, [], ap, append_assoc, arith, drop, drop-append_self, drop-drop, false, leb,
  length, length-append, ltb, refl, some, sym, take, take-append_self, ℕ, ◌++◌, ◌+◌, ◌<◌, ◌==◌, ◌^◌,
  ◌||◌, ◌∙◌, ◌∷◌, ◌≡◌, ◌≤◌,
}
use aods.Util.CommuProtocol.{
  AoMsg, CommuProtocol, Content, ao_msg_bytes, ao_msg_size, content, open_content, set_key_buf,
}
use aods.Util.CommuProtocol.Frames.{
  Agree, encode-set_key_buf, length-ao_msg_bytes, set_key_buf-Agree, set_key_buf-IsInverse,
}
use aods.Util.Encrypt.{Encrypt, decode, encode}
use aods.Util.Encrypt.Laws.{IsInverse, decode-encode}
use aods.Util.MemCache.{overwrite}

-- A block that starts with a message.
abbrev pub with_frame : AoMsg → Bytes → Bytes → Bytes → Bytes
with_frame m key body tail = ao_msg_bytes m ++ (key ++ (body ++ tail))

abbrev pub frame_head : ℕ → Bytes → Bytes → AoMsg
frame_head key_code key s = record {
  data_len = length s + ao_msg_size + length key;
  key_code = key_code;
  key_len = length key;
}

module _ (m : AoMsg) (key body tail : Bytes) where
  pub length-with_frame :
      length (with_frame m key body tail) ≡ ao_msg_size + length key + length body + length tail
  length-with_frame = omega (
    arith,
    length-append (ao_msg_bytes m) (key ++ (body ++ tail)),
    length-append key (body ++ tail),
    length-append body tail,
    length-ao_msg_bytes m,
  )

  drop-with_frame : drop ao_msg_size (with_frame m key body tail) ≡ key ++ (body ++ tail)
  drop-with_frame =
      drop-append_self ao_msg_size (ao_msg_bytes m) (key ++ (body ++ tail))
        (sym (length-ao_msg_bytes m))

  drop-with_frame_key : drop (ao_msg_size + length key) (with_frame m key body tail) ≡ body ++ tail
  drop-with_frame_key =
      sym (drop-drop (length key) ao_msg_size (with_frame m key body tail))
      ∙ ap (drop (length key)) drop-with_frame
      ∙ drop-append_self (length key) key (body ++ tail) refl

  take-with_frame_body :
      take (length body) (drop (ao_msg_size + length key) (with_frame m key body tail)) ≡ body
  take-with_frame_body =
      ap (take (length body)) drop-with_frame_key ∙ take-append_self (length body) body tail refl

  pub drop-with_frame_all :
      drop (ao_msg_size + length key + length body) (with_frame m key body tail) ≡ tail
  drop-with_frame_all =
      sym (drop-drop (length body) (ao_msg_size + length key) (with_frame m key body tail))
      ∙ ap (drop (length body)) drop-with_frame_key
      ∙ drop-append_self (length body) body tail refl

  take-with_frame_key :
      take (ao_msg_size + length key) (with_frame m key body tail) ≡ ao_msg_bytes m ++ key
  take-with_frame_key = rw (← append_assoc (ao_msg_bytes m) key (body ++ tail)) (
      take-append_self (ao_msg_size + length key) (ao_msg_bytes m ++ key) (body ++ tail)
        (omega (arith, length-append (ao_msg_bytes m) key, length-ao_msg_bytes m)))

  -- Deciphering in place changes the body alone.
  overwrite-with_frame :
      (s : Bytes)
      → length s ≡ length body
      → overwrite (ao_msg_size + length key) s (with_frame m key body tail)
        ≡ with_frame m key s tail
  overwrite-with_frame s h =
      rw (h, take-with_frame_key, drop-with_frame_all)
        (append_assoc (ao_msg_bytes m) key (s ++ tail))

-- What `GetContent` leaves once it has taken `s` from the front.
pub record Opened (p : CommuProtocol) (m : AoMsg) (key s tail : Bytes) (r : CommuProtocol × Content)
    : Type 0 where
  pub got : r.1 ≡ content s
  pub block : r.0.decode_amc.cache ≡ some (with_frame m key s tail)
  pub same_size : r.0.decode_amc.cache_size ≡ p.decode_amc.cache_size
  pub same_step : r.0.decode_amc.append_step_size ≡ p.decode_amc.append_step_size
  pub same_off : r.0.decode_amc.cache_off ≡ p.decode_amc.cache_off
  pub agree : Agree p.ae r.0.ae
  pub inverse : IsInverse r.0.ae

pub open_content-Opened :
    (p : CommuProtocol) (ae : Encrypt) (code : ℕ) (key body s tail : Bytes)
    → p.decode_amc.cache ≡ some (with_frame (frame_head code key s) key body tail)
    → 0 < code
    → length key ≤ 20
    → (0 < length s → 0 < length key)
    → length body ≡ length s
    → (0 < length s → body ≡ encode (set_key_buf code (length key) key ae) s)
    → length s < 2 ^ 31
    → Agree ae p.ae
    → IsInverse p.ae
    → IsBytes s
    → Opened p (frame_head code key s) key s tail (
        open_content p
          (frame_head code key s)
          (ao_msg_size + length key)
          (length s)
          (with_frame (frame_head code key s) key body tail))
unfolding open_content
open_content-Opened p ae code key [] [] tail q c k kp l e b g v h = record {
  got = refl;
  block = q;
  same_size = refl;
  same_step = refl;
  same_off = refl;
  agree = record { same_en = refl; same_de = refl };
  inverse = v;
}
open_content-Opened p ae code key (x ∷ body) [] tail q c k kp l e b g v h = absurd (omega arith)
open_content-Opened p ae code key body (x ∷ s) tail q c k kp l e b g v h =
    let m = frame_head code key (x ∷ s) in
    let whole = with_frame m key body tail in
    let some_key : 0 < length key = kp (omega arith) in
    let ae' = set_key_buf code (length key) (drop ao_msg_size whole) p.ae in
    let ae_key = set_key_buf code (length key) (key ++ (body ++ tail)) p.ae in
    let not_long : (leb (2 ^ 31) (length (x ∷ s))
          || ltb (length whole) (ao_msg_size + length key + length (x ∷ s)))
        ≡ false =
      ground (arith, length-with_frame m key body tail) in
    let code_set : (code == 0) ≡ false = ground arith in
    let key_set : (length key == 0) ≡ false = ground arith in
    let taken : take (length (x ∷ s)) (drop (ao_msg_size + length key) whole) ≡ body =
      ap (λ n. take n (drop (ao_msg_size + length key) whole)) (sym l)
      ∙ take-with_frame_body m key body tail in
    let plain : decode ae' (take (length (x ∷ s)) (drop (ao_msg_size + length key) whole)) ≡ x ∷ s =
      rw (taken, drop-with_frame m key body tail)
        (ap (decode ae_key) (
            e (omega arith)
            ∙ encode-set_key_buf ae p.ae code key (body ++ tail) (x ∷ s) g some_key (omega arith))
          ∙ decode-encode (set_key_buf-IsInverse code (length key) (key ++ (body ++ tail)) v)
              (x ∷ s) h) in
    let nonempty : (length (x ∷ s) == 0) ≡ false = ground arith in
    rw (nonempty, not_long, code_set, key_set, plain)
      record {
        got = refl;
        block = ap some (overwrite-with_frame m key body tail (x ∷ s) (sym l));
        same_size = refl;
        same_step = refl;
        same_off = refl;
        agree = set_key_buf-Agree code (length key) (drop ao_msg_size whole) p.ae;
        inverse = set_key_buf-IsInverse code (length key) (drop ao_msg_size whole) v;
      }
