-- ===== src/Util/Module/Message.antt =====
-- MT_MSG_HEAD and MT_MSG (src/dev/util/AoDef.h) as they stand in a queue: three words, four bytes
-- of padding and two pointers, the data behind them.
use aods.Base.{
  Bytes, Option, [], and_then, ap, append-nil, append_assoc, arith, le32, length, read32,
  read32-le32, refl, some, sym, ℕ, ◌%◌, ◌*◌, ◌++◌, ◌+◌, ◌/◌, ◌<◌, ◌^◌, ◌∙◌, ◌≡◌,
}

abbrev pub mt_msg_head_size : ℕ
mt_msg_head_size = 32

pub record MtMsgHead : Type 0 where
  pub smi : ℕ
  pub msg_code : ℕ
  pub data_len : ℕ
  pub recver : ℕ
  pub sender : ℕ

pub record MtMsg : Type 0 where
  pub head : MtMsgHead
  pub content : Bytes

-- A pointer.
pub le64 : ℕ → Bytes
le64 n = le32 (n % 2 ^ 32) ++ le32 (n / 2 ^ 32)

pub read64 : Bytes → Option (ℕ × Bytes)
read64 s =
    and_then (read32 s)
      λ (low, s1). and_then (read32 s1) λ (high, s2). some (low + 2 ^ 32 * high, s2)

-- The head as `AppendData` copies it; `pad` is what the padding holds.
pub head_bytes : ℕ → MtMsgHead → Bytes
head_bytes pad h =
    le32 h.smi
    ++ (le32 h.msg_code ++ (le32 h.data_len ++ (le32 pad ++ (le64 h.recver ++ le64 h.sender))))

-- The head at the front of a buffer and what follows it.
pub read_head : Bytes → Option (MtMsgHead × Bytes)
read_head s = and_then (read32 s) λ (smi, s1). and_then (read32 s1) λ (msg_code, s2).
    and_then (read32 s2) λ (data_len, s3). and_then (read32 s3) λ (pad, s4).
      and_then (read64 s4) λ (recver, s5). and_then (read64 s5) λ (sender, s6). some (
        record {
          smi = smi;
          msg_code = msg_code;
          data_len = data_len;
          recver = recver;
          sender = sender;
        },
        s6,
      )

-- Words and pointers that fit.
pub record IsHead (h : MtMsgHead) : Type 0 where
  pub smi_fits : h.smi < 2 ^ 32
  pub code_fits : h.msg_code < 2 ^ 32
  pub len_fits : h.data_len < 2 ^ 32
  pub recver_fits : h.recver < 2 ^ 64
  pub sender_fits : h.sender < 2 ^ 64

pub read64-le64 : (n : ℕ) (t : Bytes) → n < 2 ^ 64 → read64 (le64 n ++ t) ≡ some (n, t)
unfolding read64 le64
read64-le64 n t h =
    let whole : n % 2 ^ 32 + 2 ^ 32 * (n / 2 ^ 32) ≡ n = omega arith in
    rw (
      append_assoc (le32 (n % 2 ^ 32)) (le32 (n / 2 ^ 32)) t,
      read32-le32 (n % 2 ^ 32) (le32 (n / 2 ^ 32) ++ t) (omega arith),
      read32-le32 (n / 2 ^ 32) t (omega arith),
      whole,
    )

pub read64-le64_all : (n : ℕ) → n < 2 ^ 64 → read64 (le64 n) ≡ some (n, [])
read64-le64_all n h = ap read64 (sym (append-nil (le64 n))) ∙ read64-le64 n [] h

pub length-le64 : (n : ℕ) → length (le64 n) ≡ 8
unfolding le64 le32
length-le64 n = refl

pub read_head-head_bytes :
    (pad : ℕ) (h : MtMsgHead) (t : Bytes)
    → pad < 2 ^ 32
    → IsHead h
    → read_head (head_bytes pad h ++ t) ≡ some (h, t)
unfolding read_head head_bytes
read_head-head_bytes pad h t p v = rw (
  append_assoc (le32 h.smi)
      (le32 h.msg_code ++ (le32 h.data_len ++ (le32 pad ++ (le64 h.recver ++ le64 h.sender)))) t,
  append_assoc (le32 h.msg_code) (le32 h.data_len ++ (le32 pad ++ (le64 h.recver ++ le64 h.sender)))
      t,
  append_assoc (le32 h.data_len) (le32 pad ++ (le64 h.recver ++ le64 h.sender)) t,
  append_assoc (le32 pad) (le64 h.recver ++ le64 h.sender) t,
  append_assoc (le64 h.recver) (le64 h.sender) t,
  read32-le32 h.smi
      (le32 h.msg_code
        ++ (le32 h.data_len ++ (le32 pad ++ (le64 h.recver ++ (le64 h.sender ++ t)))))
      v.smi_fits,
  read32-le32 h.msg_code (le32 h.data_len ++ (le32 pad ++ (le64 h.recver ++ (le64 h.sender ++ t))))
      v.code_fits,
  read32-le32 h.data_len (le32 pad ++ (le64 h.recver ++ (le64 h.sender ++ t))) v.len_fits,
  read32-le32 pad (le64 h.recver ++ (le64 h.sender ++ t)) p,
  read64-le64 h.recver (le64 h.sender ++ t) v.recver_fits,
  read64-le64 h.sender t v.sender_fits,
)

pub length-head_bytes : (pad : ℕ) (h : MtMsgHead) → length (head_bytes pad h) ≡ mt_msg_head_size
unfolding head_bytes le64 le32
length-head_bytes pad h = refl
