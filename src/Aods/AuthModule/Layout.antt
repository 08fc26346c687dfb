-- ===== src/Aods/AuthModule/Layout.antt =====
-- The parts of the messages and of the file of src/dev/aods/AodsAuthModule.cpp, as they are laid out
-- and as they are read, and the addresses that `GetIpAddrs` takes.
use aods.Base.{
  Bool-cases, Bytes, List, Option, [], ap, append_assoc, arith, drop, drop-append_self, drop-drop,
  false, if◌then◌else◌, inl, inr, le32, leb, length, length-append, length-le32, none, refl, some,
  suc, sym, take, take-append_self, take-of_le, true, zero, ℕ, ◌%◌, ◌*◌, ◌++◌, ◌+◌, ◌<◌, ◌==◌, ◌∙◌,
  ◌∷◌, ◌≡◌, ◌≤◌,
}
use aods.Aodc.AuthModule.{AodsAodcAuthen, authen_of, max_ip_addr_num}
use aods.Aods.AuthModule.{af_inet, authen_bytes, write_addrs}
use aods.Util.MemCache.{overwrite}

-- The parts have their sizes.
pub record IsAuthen (a : AodsAodcAuthen) : Type 0 where
  pub num : a.ip_num < 256
  pub addrs : length a.ip_addr ≡ 64
  pub res : length a.res_id ≡ 6
  pub serial : length a.rd_serial ≡ 14
  pub code : length a.act_code ≡ 20

-- The parts of a buffer one after the other.
pub part :
    (n m : ℕ) (pre s rest : Bytes)
    → n ≡ length pre
    → m ≡ length s
    → take m (drop n (pre ++ (s ++ rest))) ≡ s
part n m pre s rest p q = rw (drop-append_self n pre (s ++ rest) p, take-append_self m s rest q)

pub last_part :
    (n m : ℕ) (pre s : Bytes) → n ≡ length pre → m ≡ length s → take m (drop n (pre ++ s)) ≡ s
last_part n m pre s p q = rw (drop-append_self n pre s p, take-of_le m s (omega arith))

pub authen_of-authen_bytes : (a : AodsAodcAuthen) → IsAuthen a → authen_of (authen_bytes a) ≡ a
authen_of-authen_bytes a w =
    let n = a.ip_num % 256 in
    let same : n ≡ a.ip_num = omega (arith, w.num) in
    let ip =
      take-append_self 64 a.ip_addr (a.res_id ++ (a.rd_serial ++ a.act_code)) (sym w.addrs) in
    let res = part 64 6 a.ip_addr a.res_id (a.rd_serial ++ a.act_code) (sym w.addrs) (sym w.res) in
    let serial =
      ap (λ z. take 14 (drop 70 z))
        (sym (append_assoc a.ip_addr a.res_id (a.rd_serial ++ a.act_code)))
      ∙ part 70 14 (a.ip_addr ++ a.res_id) a.rd_serial a.act_code
          (omega (arith, length-append a.ip_addr a.res_id, w.addrs, w.res)) (sym w.serial) in
    let code =
      ap (λ z. take 20 (drop 84 z))
        (sym (append_assoc a.ip_addr a.res_id (a.rd_serial ++ a.act_code))
          ∙ sym (append_assoc (a.ip_addr ++ a.res_id) a.rd_serial a.act_code))
      ∙ last_part 84 20 ((a.ip_addr ++ a.res_id) ++ a.rd_serial) a.act_code
          (omega (
            arith,
            length-append (a.ip_addr ++ a.res_id) a.rd_serial,
            length-append a.ip_addr a.res_id,
            w.addrs,
            w.res,
            w.serial,
          ))
          (sym w.code) in
    rw (same, ip, res, serial, code)

-- The addresses of the family AF_INET, in their order.
abbrev pub inet_only : List (Option (ℕ × ℕ)) → List ℕ
inet_only [] = []
inet_only (none ∷ ias) = inet_only ias
inet_only (some (family, s_addr) ∷ ias) =
    if family == af_inet then s_addr ∷ inet_only ias else inet_only ias

abbrev pub addr_bytes : List ℕ → Bytes
addr_bytes [] = []
addr_bytes (s_addr ∷ addrs) = le32 s_addr ++ addr_bytes addrs

-- An address behind those that are written.
overwrite-behind :
    (index s_addr : ℕ) (pre rest : Bytes)
    → length pre ≡ index * 4
    → overwrite (index * 4) (le32 s_addr) (pre ++ rest) ≡ (pre ++ le32 s_addr) ++ drop 4 rest
overwrite-behind index s_addr pre rest p =
    let front = take-append_self (index * 4) pre rest (sym p) in
    let behind : drop (index * 4 + length (le32 s_addr)) (pre ++ rest) ≡ drop 4 rest =
      sym (drop-drop (length (le32 s_addr)) (index * 4) (pre ++ rest))
      ∙ rw (length-le32 s_addr, drop-append_self (index * 4) pre rest (sym p)) in
    rw (front, behind, append_assoc pre (le32 s_addr) (drop 4 rest))

-- What is written behind `pre`, with room for `left` addresses more.
abbrev pub written_behind : ℕ → ℕ → Bytes → Bytes → List ℕ → Option (ℕ × Bytes)
written_behind index left pre rest addrs =
    let got = take left addrs in
    some (index + length got, pre ++ (addr_bytes got ++ drop (length got * 4) rest))

written_none :
    (index left : ℕ) (pre rest : Bytes) (addrs : List ℕ)
    → take left addrs ≡ []
    → written_behind index left pre rest addrs ≡ some (index, pre ++ rest)
written_none index left pre rest addrs e =
    let same : index + 0 ≡ index = omega arith in rw (e, same)

written_suc :
    (index left s_addr : ℕ) (pre rest : Bytes) (addrs : List ℕ)
    → written_behind (index + 1) left (pre ++ le32 s_addr) (drop 4 rest) addrs
      ≡ written_behind index (suc left) pre rest (s_addr ∷ addrs)
written_suc index left s_addr pre rest addrs =
    let got = take left addrs in
    let count : index + 1 + length got ≡ index + suc (length got) = omega arith in
    let off : 4 + length got * 4 ≡ suc (length got) * 4 = omega arith in
    rw (
      count,
      drop-drop (length got * 4) 4 rest,
      off,
      append_assoc pre (le32 s_addr),
      append_assoc (le32 s_addr) (addr_bytes got),
    )

pub write_addrs_behind :
    (ias : List (Option (ℕ × ℕ))) (index left num : ℕ) (pre rest : Bytes)
    → length pre ≡ index * 4
    → num ≡ index + left
    → num ≤ max_ip_addr_num
    → write_addrs ias index num (pre ++ rest) ≡ written_behind index left pre rest (inet_only ias)
unfolding write_addrs
write_addrs_behind [] index zero num pre rest p le few = sym (written_none index 0 pre rest [] refl)
write_addrs_behind [] index (suc left) num pre rest p le few =
    sym (written_none index (suc left) pre rest [] refl)
write_addrs_behind (none ∷ ias) index left num pre rest p le few =
    write_addrs_behind ias index left num pre rest p le few
write_addrs_behind (some (family, s_addr) ∷ ias) index zero num pre rest p le few =
    let skipped = write_addrs_behind ias index zero num pre rest p le few in
    let full : leb num index ≡ true = ground arith in
    elim (Bool-cases (family == af_inet)) [
      | inl inet ↦
          rw (inet, full) (sym (written_none index 0 pre rest (s_addr ∷ inet_only ias) refl))
      | inr other ↦ rw other skipped
    ]
write_addrs_behind (some (family, s_addr) ∷ ias) index (suc left) num pre rest p le few =
    let skipped = write_addrs_behind ias index (suc left) num pre rest p le few in
    let room : leb num index ≡ false = ground arith in
    let inside : leb max_ip_addr_num index ≡ false = ground arith in
    elim (Bool-cases (family == af_inet)) [
      | inl inet ↦
          rw (inet, room, inside, overwrite-behind index s_addr pre rest p)
            (write_addrs_behind ias (index + 1) left num (pre ++ le32 s_addr) (drop 4 rest)
                (omega (arith, length-append pre (le32 s_addr), length-le32 s_addr)) (omega arith)
                few
              ∙ written_suc index left s_addr pre rest (inet_only ias))
      | inr other ↦ rw other skipped
    ]
