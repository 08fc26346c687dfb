-- ===== src/Util/Helper/Laws.antt =====
-- The hexadecimal round trip, and what a search finds.
use mathlib.Core.Path.{subst}
use aods.Base.{
  ==_iff, Bool-cases, Bytes, IsBytes, Option, [], all_below, all_below_sound, ap, ap₂, arith,
  bit_and, drop, drop-drop, false, inl, inr, length, none, refl, some, starts_with, suc, sym,
  take-of_le, true, zero, ℕ, ◌%◌, ◌*◌, ◌+◌, ◌-◌, ◌/◌, ◌<◌, ◌==◌, ◌^◌, ◌∙◌, ◌∷◌, ◌≡◌, ◌≤◌,
}
use aods.Util.Helper.{
  Found, at, find_back, find_first_buf, find_from, find_last_buf, found, get_hex_data,
  get_hex_string, hex_char, hex_data, hex_pairs, no_pattern, not_found,
}

hex_table :
    all_below 256 (λ b.
      (hex_data (hex_char (bit_and (b / 2 ^ 4) 0xF)) * 2 ^ 4 + hex_data (hex_char (bit_and b 0xF)))
        % 256
      == b)
    ≡ true
unfolding all_below hex_data hex_char
hex_table = refl

hex_pairs-get_hex_string : (s : Bytes) → IsBytes s → hex_pairs (get_hex_string s) ≡ s
unfolding hex_pairs get_hex_string
hex_pairs-get_hex_string [] h = refl
hex_pairs-get_hex_string (b ∷ s) h =
    ap₂ ◌∷◌ ((==_iff _ b).0 (all_below_sound 256 _ b hex_table h.0))
      (hex_pairs-get_hex_string s h.1)

length-get_hex_string : (s : Bytes) → length (get_hex_string s) ≡ 2 * length s
unfolding get_hex_string
length-get_hex_string [] = omega arith
length-get_hex_string (b ∷ s) = omega (arith, length-get_hex_string s)

-- The bytes that are printed as hexadecimal digits are read back, up to 32767 of them.
pub get_hex_data-get_hex_string :
    (s : Bytes) → IsBytes s → length s < 2 ^ 15 → get_hex_data (get_hex_string s) ≡ s
unfolding get_hex_data
get_hex_data-get_hex_string s h short =
    let len : length (get_hex_string s) % 2 ^ 16 ≡ length (get_hex_string s) =
      omega (arith, length-get_hex_string s) in
    let even : (length (get_hex_string s) % 2 == 0) ≡ true =
      ground (arith, length-get_hex_string s) in
    rw (len, even, take-of_le (length (get_hex_string s)) (get_hex_string s) (omega arith))
      (hex_pairs-get_hex_string s h)

-- The pattern stands in a buffer at an index.
abbrev pub StandsAt : Bytes → Bytes → ℕ → Type 0
StandsAt find src n = starts_with find (drop n src) ≡ true

drop-suc : (i : ℕ) (src : Bytes) → drop i (drop 1 src) ≡ drop (suc i) src
drop-suc i src = drop-drop i 1 src ∙ ap (λ n. drop n src) one_more
  where
    one_more : 1 + i ≡ suc i
    one_more = omega arith

-- The pattern stands at none of the first `left` indices.
abbrev pub Nowhere : Bytes → Bytes → ℕ → Type 0
Nowhere find src left = (i : ℕ) → i < left → starts_with find (drop i src) ≡ false

Nowhere-suc :
    (find src : Bytes) (left : ℕ)
    → starts_with find src ≡ false
    → Nowhere find (drop 1 src) left
    → Nowhere find src (suc left)
Nowhere-suc find src left absent h zero p = absent
Nowhere-suc find src left absent h (suc i) p =
    ap (starts_with find) (sym (drop-suc i src)) ∙ h i (omega arith)

-- What a search of `left` places finds, counted from `n`: the first of them at which the pattern
-- stands.
abbrev pub FirstOf : Bytes → Bytes → ℕ → ℕ → Option ℕ → Type 0
FirstOf find src n left none = Nowhere find src left
FirstOf find src n left (some k) =
    (i : ℕ) × (k ≡ n + i) × (i < left) × StandsAt find src i × Nowhere find src i

FirstOf-suc :
    (find src : Bytes) (n left : ℕ) (o : Option ℕ)
    → starts_with find src ≡ false
    → FirstOf find (drop 1 src) (n + 1) left o
    → FirstOf find src n (suc left) o
FirstOf-suc find src n left none absent h = Nowhere-suc find src left absent h
FirstOf-suc find src n left (some k) absent h =
    let (i, e, below, here, before) = h in
    (
      suc i,
      omega arith,
      omega arith,
      ap (starts_with find) (sym (drop-suc i src)) ∙ here,
      Nowhere-suc find src i absent before,
    )

find_from-FirstOf :
    (find src : Bytes) (n left : ℕ) → FirstOf find src n left (find_from find src n left)
unfolding find_from
find_from-FirstOf find src n zero = λ i p. absurd (omega arith)
find_from-FirstOf find src n (suc left) = elim (Bool-cases (starts_with find src)) [
  | inl here ↦ rw here (0, omega arith, omega arith, here, λ i p. absurd (omega arith))
  | inr absent ↦
      rw absent
        (FirstOf-suc find src n left _ absent (find_from-FirstOf find (drop 1 src) (n + 1) left))
]

-- What `FindFirstBuf` promises for its result.
abbrev pub Finds : Bytes → Bytes → Found → Type 0
Finds src find (at k) = (k + length find ≤ length src) × StandsAt find src k × Nowhere find src k
Finds src find not_found = Nowhere find src (length src + 1 - length find)
Finds src find no_pattern = find ≡ []

found-Finds :
    (src find : Bytes) (o : Option ℕ)
    → 0 < length find
    → FirstOf find src 0 (length src + 1 - length find) o
    → Finds src find (found o)
found-Finds src find none some_find h = h
found-Finds src find (some k) some_find h =
    let (i, e, below, here, before) = h in
    let same : i ≡ k = omega arith in
    (omega arith, subst (StandsAt find src) same here, subst (Nowhere find src) same before)

-- An index that `FindFirstBuf` returns is the first at which the pattern stands, and the pattern
-- stands there whole; with -1 it stands nowhere, and -2 is for the empty pattern.
pub find_first_buf_lem : (src find : Bytes) → Finds src find (find_first_buf src find)
unfolding find_first_buf
find_first_buf_lem src [] = refl
find_first_buf_lem src (b ∷ find) =
    found-Finds src (b ∷ find) _ (omega arith)
      (find_from-FirstOf (b ∷ find) src 0 (length src + 1 - length (b ∷ find)))

-- What a search below `n` from the last index down finds.
abbrev pub LastOf : Bytes → Bytes → ℕ → Option ℕ → Type 0
LastOf find src n none = Nowhere find src n
LastOf find src n (some k) =
    (k < n)
    × StandsAt find src k
    × ((i : ℕ) → k < i → i < n → starts_with find (drop i src) ≡ false)

LastOf-suc :
    (find src : Bytes) (n : ℕ) (o : Option ℕ)
    → starts_with find (drop n src) ≡ false
    → LastOf find src n o
    → LastOf find src (suc n) o
LastOf-suc find src n none absent h = λ i p. elim (Bool-cases (i == n)) [
  | inl e ↦ subst (λ z. starts_with find (drop z src) ≡ false) (sym ((==_iff i n).0 e)) absent
  | inr e ↦ h i (ground arith)
]
LastOf-suc find src n (some k) absent h = (
  omega (arith, h.0),
  h.1,
  λ i p q. elim (Bool-cases (i == n)) [
    | inl e ↦ subst (λ z. starts_with find (drop z src) ≡ false) (sym ((==_iff i n).0 e)) absent
    | inr e ↦ h.2 i p (ground arith)
  ],
)

find_back-LastOf : (find src : Bytes) (n : ℕ) → LastOf find src n (find_back find src n)
unfolding find_back
find_back-LastOf find src zero = λ i p. absurd (omega arith)
find_back-LastOf find src (suc n) = elim (Bool-cases (starts_with find (drop n src))) [
  | inl here ↦ rw here (omega arith, here, λ i p q. absurd (omega arith))
  | inr absent ↦ rw absent (LastOf-suc find src n _ absent (find_back-LastOf find src n))
]

-- What `FindLastBuf` promises for its result.
abbrev pub FindsLast : Bytes → Bytes → Found → Type 0
FindsLast src find (at k) =
    (k + length find ≤ length src)
    × StandsAt find src k
    × ((i : ℕ) → k < i → i + length find ≤ length src → starts_with find (drop i src) ≡ false)
FindsLast src find not_found = Nowhere find src (length src + 1 - length find)
FindsLast src find no_pattern = ⊥

found-FindsLast :
    (src find : Bytes) (o : Option ℕ)
    → LastOf find src (length src + 1 - length find) o
    → FindsLast src find (found o)
found-FindsLast src find none h = h
found-FindsLast src find (some k) h = (omega (arith, h.0), h.1, λ i p q. h.2 i p (omega arith))

-- An index that `FindLastBuf` returns is the last at which the pattern stands whole; with -1 it
-- stands nowhere, and there is no other result.
pub find_last_buf_lem : (src find : Bytes) → FindsLast src find (find_last_buf src find)
unfolding find_last_buf
find_last_buf_lem src find = found-FindsLast src find _ (find_back-LastOf find src _)
