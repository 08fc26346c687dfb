-- ===== src/Util/Hash/Crc/Reference.antt =====
-- The table-driven and unrolled `CalcCrc32` against CRC-32 by single bits, and over pieces.
use aods.Base.{
  Bytes, IsBytes, [], ap, arith, bit_xor, refl, suc, zero, ℕ, ◌%◌, ◌*◌, ◌++◌, ◌+◌, ◌/◌, ◌<◌, ◌∷◌,
  ◌≡◌,
}
use aods.Base.Bits.{
  bit_and_mask, bit_xor_self, bit_xor_zero, bit_xor_assoc, bit_xor_comm, bit_xor_fields,
  bit_xor_step,
}
use aods.Util.Hash.Crc.{calc_crc32, crc_do1, crc_do4, crc_octets, crc_tail}
use aods.Util.Hash.Crc.Table.{crc_table_lem, polynomial, shift1, shift8}

-- CRC-32 as it is defined: each byte is added to the register, which then shifts eight times.
pub crc_bits : ℕ → Bytes → ℕ
crc_bits crc [] = crc
crc_bits crc (b ∷ buf) = crc_bits (shift8 (bit_xor crc b)) buf

pub crc32 : ℕ → Bytes → ℕ
crc32 crc buf = bit_xor (crc_bits (bit_xor crc 0xffffffff) buf) 0xffffffff

crc_octets-eq-crc_tail : (crc : ℕ) (buf : Bytes) → crc_octets crc buf ≡ crc_tail crc buf
unfolding crc_octets crc_tail
crc_octets-eq-crc_tail crc (a ∷ b ∷ c ∷ d ∷ e ∷ f ∷ g ∷ h ∷ buf) =
    crc_octets-eq-crc_tail (crc_do4 (crc_do4 crc a b c d) e f g h) buf
crc_octets-eq-crc_tail crc _ = refl

crc_tail-append :
    (crc : ℕ) (xs ys : Bytes) → crc_tail crc (xs ++ ys) ≡ crc_tail (crc_tail crc xs) ys
unfolding crc_tail
crc_tail-append crc [] ys = refl
crc_tail-append crc (x ∷ xs) ys = crc_tail-append (crc_do1 crc x) xs ys

-- The checksum of a buffer is had by feeding its pieces one after the other.
pub calc_crc32-append :
    (crc : ℕ) (xs ys : Bytes) → calc_crc32 (calc_crc32 crc xs) ys ≡ calc_crc32 crc (xs ++ ys)
unfolding calc_crc32
calc_crc32-append crc xs ys = simp (crc_octets-eq-crc_tail, bit_xor_self, crc_tail-append)

pub calc_crc32-nil : (crc : ℕ) → calc_crc32 crc [] ≡ crc
unfolding calc_crc32 crc_octets crc_tail
calc_crc32-nil crc = bit_xor_self crc 0xffffffff

half-bit_xor : (a b : ℕ) → bit_xor a b / 2 ≡ bit_xor (a / 2) (b / 2)
half-bit_xor a b = omega (arith, bit_xor_step a b)

parity-bit_xor : (a b : ℕ) → bit_xor a b % 2 ≡ (a % 2 + b % 2) % 2
parity-bit_xor a b = omega (arith, bit_xor_step a b)

-- The part of the polynomial that a digit adds is linear in the digit.
polynomial-bit_xor :
    (x y : ℕ)
    → x < 2
    → y < 2
    → polynomial * ((x + y) % 2) ≡ bit_xor (polynomial * x) (polynomial * y)
polynomial-bit_xor zero zero p q = refl
polynomial-bit_xor zero (suc zero) p q = refl
polynomial-bit_xor (suc zero) zero p q = refl
polynomial-bit_xor (suc zero) (suc zero) p q = refl
polynomial-bit_xor zero (suc (suc y)) p q = absurd (omega arith)
polynomial-bit_xor (suc zero) (suc (suc y)) p q = absurd (omega arith)
polynomial-bit_xor (suc (suc x)) y p q = absurd (omega arith)

bit_xor_swap :
    (a b c d : ℕ) → bit_xor (bit_xor a b) (bit_xor c d) ≡ bit_xor (bit_xor a c) (bit_xor b d)
bit_xor_swap a b c d = cc (
  bit_xor_assoc a b (bit_xor c d),
  bit_xor_assoc b c d,
  bit_xor_comm b c,
  bit_xor_assoc c b d,
  bit_xor_assoc a c (bit_xor b d),
)

-- A shift is linear.
shift1-bit_xor : (a b : ℕ) → shift1 (bit_xor a b) ≡ bit_xor (shift1 a) (shift1 b)
unfolding shift1
shift1-bit_xor a b =
    rw
      (half-bit_xor, parity-bit_xor, polynomial-bit_xor (a % 2) (b % 2) (omega arith) (omega arith))
      (bit_xor_swap (a / 2) (b / 2) (polynomial * (a % 2)) (polynomial * (b % 2)))

shift8-bit_xor : (a b : ℕ) → shift8 (bit_xor a b) ≡ bit_xor (shift8 a) (shift8 b)
unfolding shift8
shift8-bit_xor a b = simp shift1-bit_xor

shift1-double : (x : ℕ) → shift1 (2 * x) ≡ x
unfolding shift1
shift1-double x =
    let half : 2 * x / 2 ≡ x = omega arith in
    let even : 2 * x % 2 ≡ 0 = omega arith in rw (half, even) (bit_xor_zero x)

shift8_high : (h : ℕ) → shift8 (h * 256) ≡ h
unfolding shift8
shift8_high h =
    let doubled : h * 256 ≡ 2 * (2 * (2 * (2 * (2 * (2 * (2 * (2 * h))))))) = omega arith in
    rw doubled (simp shift1-double)

-- The register is its high part and its low byte.
shift8-split : (t : ℕ) → shift8 t ≡ bit_xor (shift8 (t % 256)) (t / 256)
shift8-split t =
    let fields : bit_xor (t / 256 * 256) (t % 256) ≡ t / 256 * 256 + t % 256 =
      bit_xor_fields 8 (t / 256) (t % 256) (omega arith) in
    let whole : t ≡ bit_xor (t / 256 * 256) (t % 256) = omega (arith, fields) in
    cc (
      ap shift8 whole,
      shift8-bit_xor (t / 256 * 256) (t % 256),
      shift8_high (t / 256),
      bit_xor_comm (t / 256) (shift8 (t % 256)),
    )

high-bit_xor : (c b : ℕ) → b < 256 → bit_xor c b / 256 ≡ c / 256
high-bit_xor c b h = omega (
  arith,
  bit_xor_step c b,
  bit_xor_step (c / 2) (b / 2),
  bit_xor_step (c / 2 / 2) (b / 2 / 2),
  bit_xor_step (c / 2 / 2 / 2) (b / 2 / 2 / 2),
  bit_xor_step (c / 2 / 2 / 2 / 2) (b / 2 / 2 / 2 / 2),
  bit_xor_step (c / 2 / 2 / 2 / 2 / 2) (b / 2 / 2 / 2 / 2 / 2),
  bit_xor_step (c / 2 / 2 / 2 / 2 / 2 / 2) (b / 2 / 2 / 2 / 2 / 2 / 2),
  bit_xor_step (c / 2 / 2 / 2 / 2 / 2 / 2 / 2) (b / 2 / 2 / 2 / 2 / 2 / 2 / 2),
  top,
)
  where
    top : bit_xor (c / 2 / 2 / 2 / 2 / 2 / 2 / 2 / 2) (b / 2 / 2 / 2 / 2 / 2 / 2 / 2 / 2) ≡ c / 256
    top =
        let gone : b / 2 / 2 / 2 / 2 / 2 / 2 / 2 / 2 ≡ 0 = omega arith in
        rw gone (omega (arith, bit_xor_zero (c / 2 / 2 / 2 / 2 / 2 / 2 / 2 / 2)))

-- One table step is eight shifts.
crc_do1-eq-shift8 : (crc b : ℕ) → b < 256 → crc_do1 crc b ≡ shift8 (bit_xor crc b)
unfolding crc_do1
crc_do1-eq-shift8 crc b h =
    rw (shift8-split (bit_xor crc b), high-bit_xor crc b h, bit_and_mask 8 (bit_xor crc b))
      (ap (λ t. bit_xor t (crc / 256)) (crc_table_lem (bit_xor crc b % 256) (omega arith)))

crc_tail-eq-crc_bits : (crc : ℕ) (buf : Bytes) → IsBytes buf → crc_tail crc buf ≡ crc_bits crc buf
unfolding crc_tail crc_bits
crc_tail-eq-crc_bits crc [] h = refl
crc_tail-eq-crc_bits crc (b ∷ buf) h =
    rw (crc_do1-eq-shift8 crc b h.0) (crc_tail-eq-crc_bits (shift8 (bit_xor crc b)) buf h.1)

-- `CalcCrc32`, with its table and its unrolled loop, is CRC-32 by single bits.
pub calc_crc32-eq-crc32 : (crc : ℕ) (buf : Bytes) → IsBytes buf → calc_crc32 crc buf ≡ crc32 crc buf
unfolding calc_crc32 crc32
calc_crc32-eq-crc32 crc buf h =
    rw (crc_octets-eq-crc_tail (bit_xor crc 0xffffffff) buf)
      (ap (λ t. bit_xor t 0xffffffff) (crc_tail-eq-crc_bits (bit_xor crc 0xffffffff) buf h))
