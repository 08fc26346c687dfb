-- ===== src/Util/Http/Body.antt =====
-- The loops of `ReadData` of src/dev/util/AoHttp.cpp.
use mathlib.Core.Path.{subst}
use aods.Base.{
  Bool, Bytes, List, [], ap, append_assoc, arith, drop, drop-of_le, if_cases, length, length-append,
  length-drop, ltb, not, refl, some, true, ℕ, ◌++◌, ◌+◌, ◌<◌, ◌==◌, ◌^◌, ◌||◌, ◌∙◌, ◌∷◌, ◌≡◌, ◌≤◌,
}
use aods.Util.FileControl.Crc3.{contents}
use aods.Util.Http.{Http, read_behind, read_body, u64}

-- A reading that is true has written the first part of `s`, and with `has` bytes before it at
-- least the length that the head gives; the offset has gone up by what is written.
abbrev pub IsRead : ℕ → Http → Bytes → Http → List Bytes → Type 0
IsRead has h s h' out =
    ((rest : Bytes) × (contents out ++ rest ≡ s))
    × (h.content_len ≤ has + length (contents out))
    × (h'.content_len ≡ h.content_len)
    × (h'.offset ≡ u64 (h.offset + length (contents out)))

abbrev pub IfTrue : ℕ → Http → Bytes → Bool × Http × List Bytes → Type 0
IfTrue has h s (ok, h', out) = ok ≡ true → IsRead has h s h' out

IsRead-stop :
    (has : ℕ) (h : Http) (s : Bytes) → h.content_len ≤ has → h.offset < 2 ^ 64 → IsRead has h s h []
IsRead-stop has h s le lt = ((s, refl), omega arith, refl, omega arith)

IsRead-more :
    (has : ℕ) (h : Http) (s t : Bytes) (h' : Http) (out : List Bytes)
    → IsRead (has + length s) (record h { offset = u64 (h.offset + length s) }) t h' out
    → IsRead has h (s ++ t) h' (s ∷ out)
IsRead-more has h s t h' out ((rest, e), le, same, off) =
    let size : length (s ++ contents out) ≡ length s + length (contents out) =
      length-append s (contents out) in
    (
      (rest, append_assoc s (contents out) rest ∙ ap (λ z. s ++ z) e),
      omega (arith, size),
      same,
      omega (arith, size, off),
    )

IfTrue-more :
    (n has : ℕ) (h : Http) (s t : Bytes) (r : Bool × Http × List Bytes)
    → n ≡ has + length s
    → IfTrue n (record h { offset = u64 (h.offset + length s) }) t r
    → IfTrue has h (s ++ t) (r.0, r.1, s ∷ r.2)
IfTrue-more n has h s t (ok, h', out) size f e =
    IsRead-more has h s t h' out
      (subst (λ m. IsRead m (record h { offset = u64 (h.offset + length s) }) t h' out) size (f e))

-- The loop that reads what is behind the first piece.
read_body_lem :
    (writes : Bytes → Bool) (has : ℕ) (ss : List Bytes) (h : Http)
    → has + length (contents ss) < 2 ^ 64
    → h.offset < 2 ^ 64
    → IfTrue has h (contents ss) (read_body writes has ss h)
unfolding read_body
read_body_lem writes has [] h small lt = λ e. IsRead-stop has h [] (ground arith) lt
read_body_lem writes has (s ∷ ss) h small lt =
    let here = IfTrue has h (contents (s ∷ ss)) in
    let sum : length (contents (s ∷ ss)) ≡ length s + length (contents ss) =
      length-append s (contents ss) in
    let h1 : Http = record h { offset = u64 (h.offset + length s) } in
    let rest =
      read_body_lem writes (u64 (has + length s)) ss h1 (omega (arith, sum)) (omega arith) in
    if_cases here (not (ltb has h.content_len))
      (λ e _. IsRead-stop has h (contents (s ∷ ss)) (ground arith) lt)
      λ _.
        if_cases here ((length s == 0) || not (writes s)) (λ _ e. ground arith)
          λ _.
            IfTrue-more (u64 (has + length s)) has h s (contents ss)
              (read_body writes (u64 (has + length s)) ss h1) (omega (arith, sum)) rest

behind_nothing :
    (writes : Bytes → Bool) (h : Http) (ss : List Bytes) (s : Bytes)
    → s ≡ []
    → length (contents ss) < 2 ^ 64
    → h.offset < 2 ^ 64
    → IfTrue 0 h (s ++ contents ss) (read_body writes 0 ss h)
behind_nothing writes h ss (c ∷ s) e small lt = absurd (omega (arith, ap length e))
behind_nothing writes h ss [] e small lt = read_body_lem writes 0 ss h (omega arith) lt

pub read_behind_lem :
    (writes : Bytes → Bool) (rep : Bytes) (ss : List Bytes) (n : ℕ) (h : Http)
    → length rep + length (contents ss) < 2 ^ 64
    → h.offset < 2 ^ 64
    → IfTrue 0 h (drop n rep ++ contents ss) (read_behind writes rep ss (some n, h))
read_behind_lem writes rep ss n h small lt =
    let s = drop n rep in
    let here = IfTrue 0 h (s ++ contents ss) in
    let h1 : Http = record h { offset = u64 (h.offset + length s) } in
    let short : length s ≤ length rep = omega (arith, length-drop n rep) in
    if_cases here (h.content_len == 0) (λ e _. IsRead-stop 0 h (s ++ contents ss) (ground arith) lt)
      λ _.
        if_cases here (not (ltb n (length rep)))
          (λ e. behind_nothing writes h ss s (drop-of_le n rep (ground arith)) (omega arith) lt)
          λ _.
            if_cases here (not (writes s)) (λ _ t. ground arith)
              λ _.
                IfTrue-more (length s) 0 h s (contents ss) (read_body writes (length s) ss h1)
                  (omega arith) (read_body_lem writes (length s) ss h1 (omega arith) (omega arith))
