-- ===== src/Util/Http/Laws.antt =====
-- What `ReadData` of src/dev/util/AoHttp.cpp has written when it is true.
use mathlib.Core.Path.{subst}
use aods.Base.{
  Bool, Bytes, List, Option, [], and_then, ap, arith, codes, drop, if_cases, leb, length, none,
  refl, some, suc, take, true, zero, ℕ, ◌++◌, ◌+◌, ◌<◌, ◌^◌, ◌∙◌, ◌∷◌, ◌≡◌, ◌≤◌,
}
use aods.Util.FileControl.Crc3.{contents}
use aods.Util.Helper.{Found, at, find_first_buf, no_pattern, not_found}
use aods.Util.Http.{
  Http, Scan, head_field, length_field, parse_head, parse_response, read_behind, read_http,
  status_code, status_line, u64, with_length,
}
use aods.Util.Http.Body.{IsRead, read_behind_lem}

abbrev Kept : ℕ → Http → Option (Option ℕ × Http) → Type 0
Kept n h none = n ≡ n
Kept n h (some (none, h')) = n ≡ n
Kept n h (some (some m, h')) = (m ≡ n) × (h'.offset ≡ h.offset)

with_length-offset : (len : Option ℕ) (h : Http) → (with_length len h).offset ≡ h.offset
with_length-offset none h = refl
with_length-offset (some len) h = refl

length_field-Kept :
    (scan : Scan) (n : ℕ) (s : Bytes) (h : Http) (i : Found) → Kept n h (length_field scan n s h i)
length_field-Kept scan n s h not_found = refl
length_field-Kept scan n s h no_pattern = refl
length_field-Kept scan n s h (at k) =
    if_cases (Kept n h) (leb 256 k) (λ _. refl)
      λ _. (refl, with_length-offset (scan.length_of (take k s)) h)

head_field-Kept :
    (scan : Scan) (head : Bytes) (h : Http) (i : Found)
    → Kept (length head) h (head_field scan head h i)
head_field-Kept scan head h not_found = refl
head_field-Kept scan head h no_pattern = refl
head_field-Kept scan head h (at k) =
    let s = drop (k + length (codes "Content-Length:")) head in
    length_field-Kept scan (length head) s h (find_first_buf s (codes "\r\n"))

status_code-Kept :
    (scan : Scan) (head : Bytes) (h : Http) (code : Option ℕ)
    → Kept (length head) h (status_code scan head h code)
status_code-Kept scan head h none = refl
status_code-Kept scan head h (some code) =
    head_field-Kept scan head (record h { errcode = code })
      (find_first_buf head (codes "Content-Length:"))

status_line-Kept :
    (scan : Scan) (head : Bytes) (h : Http) (i : Found)
    → Kept (length head) h (status_line scan head h i)
status_line-Kept scan head h not_found = refl
status_line-Kept scan head h no_pattern = refl
status_line-Kept scan head h (at k) =
    if_cases (Kept (length head) h) (leb 256 k) (λ _. refl)
      λ _. status_code-Kept scan head h (scan.status (take k head))

abbrev Parsed : Bytes → Http → Option (Option ℕ × Http) → Type 0
Parsed rep h none = rep ≡ rep
Parsed rep h (some (none, h')) = rep ≡ rep
Parsed rep h (some (some n, h')) =
    (k : ℕ) × (find_first_buf rep (codes "\r\n\r\n") ≡ at k)
    × (n ≡ length (take (k + 4) rep))
    × (h'.offset ≡ h.offset)

Parsed-Kept :
    (rep : Bytes) (k : ℕ) (h : Http) (r : Option (Option ℕ × Http))
    → find_first_buf rep (codes "\r\n\r\n") ≡ at k
    → Kept (length (take (k + 4) rep)) h r
    → Parsed rep h r
Parsed-Kept rep k h none e kept = refl
Parsed-Kept rep k h (some (none, h')) e kept = refl
Parsed-Kept rep k h (some (some n, h')) e (size, same) = (k, e, size, same)

parse_head-Parsed :
    (scan : Scan) (rep : Bytes) (h : Http) (i : Found)
    → find_first_buf rep (codes "\r\n\r\n") ≡ i
    → Parsed rep h (parse_head scan rep h i)
parse_head-Parsed scan rep h not_found e = refl
parse_head-Parsed scan rep h no_pattern e = refl
parse_head-Parsed scan rep h (at k) e =
    let head = take (k + 4) rep in
    Parsed-Kept rep k h _ e (status_line-Kept scan head h (find_first_buf head (codes "\r\n")))

drop-length-take : (k : ℕ) (s : Bytes) → drop (length (take k s)) s ≡ drop k s
drop-length-take zero s = refl
drop-length-take (suc k) [] = refl
drop-length-take (suc k) (c ∷ s) = drop-length-take k s

-- What `ReadData` has done with a response that it takes: the head ends at `k` with an empty
-- line, what is written is the first part of what follows it, and `h1` has what the head gives.
pub Answered : Scan → Bytes → List Bytes → Http → Http → List Bytes → Type 0
Answered scan rep ss h h' out =
    (k : ℕ) × (h1 : Http) × (parse_response scan rep h
      ≡ some (some (length (take (k + 4) rep)), h1))
    × (find_first_buf rep (codes "\r\n\r\n") ≡ at k)
    × ((rest : Bytes) × (contents out ++ rest ≡ drop (k + 4) rep ++ contents ss))
    × (h1.content_len ≤ length (contents out))
    × (h'.offset ≡ u64 (h.offset + length (contents out)))

abbrev IfAnswered : Scan → Bytes → List Bytes → Http → Option (Bool × Http × List Bytes) → Type 0
IfAnswered scan rep ss h none = rep ≡ rep
IfAnswered scan rep ss h (some (ok, h', out)) = ok ≡ true → Answered scan rep ss h h' out

IsRead-Answered :
    (scan : Scan) (rep : Bytes) (ss : List Bytes) (h h1 h' : Http) (out : List Bytes) (k n : ℕ)
    → find_first_buf rep (codes "\r\n\r\n") ≡ at k
    → parse_response scan rep h ≡ some (some n, h1)
    → n ≡ length (take (k + 4) rep)
    → h1.offset ≡ h.offset
    → IsRead 0 h1 (drop n rep ++ contents ss) h' out
    → Answered scan rep ss h h' out
unfolding Answered
IsRead-Answered scan rep ss h h1 h' out k n e parsed size same ((rest, whole), le, len, off) =
    let behind : drop n rep ≡ drop (k + 4) rep =
      ap (λ m. drop m rep) size ∙ drop-length-take (k + 4) rep in
    (
      k,
      h1,
      parsed ∙ ap (λ m. some (some m, h1)) size,
      e,
      (rest, whole ∙ ap (λ s. s ++ contents ss) behind),
      omega (arith, le),
      off ∙ ap (λ o. u64 (o + length (contents out))) same,
    )

read_behind-IfAnswered :
    (scan : Scan) (writes : Bytes → Bool) (rep : Bytes) (ss : List Bytes) (h : Http)
    (r : Option (Option ℕ × Http))
    → length rep + length (contents ss) < 2 ^ 64
    → h.offset < 2 ^ 64
    → parse_response scan rep h ≡ r
    → Parsed rep h r
    → IfAnswered scan rep ss h (and_then r λ q. some (read_behind writes rep ss q))
read_behind-IfAnswered scan writes rep ss h none small lt parsed p = refl
read_behind-IfAnswered scan writes rep ss h (some (none, h1)) small lt parsed p = λ t. ground arith
read_behind-IfAnswered scan writes rep ss h (some (some n, h1)) small lt parsed (k, e, size, same) =
    λ t.
      IsRead-Answered scan rep ss h h1 _ _ k n e parsed size same
        (read_behind_lem writes rep ss n h1 small (omega (arith, same)) t)

-- When `ReadData` takes a response, there is an empty line in its first piece. What is written is
-- what stands behind that line, in order and from its start, at least as long as the head
-- says; the offset has gone up by its length, modulo 2^64. The offset and the length of what arrives
-- are below 2^64.
pub read_http-Answered :
    (scan : Scan) (writes : Bytes → Bool) (rep : Bytes) (ss : List Bytes) (h h' : Http)
    (out : List Bytes)
    → length rep + length (contents ss) < 2 ^ 64
    → h.offset < 2 ^ 64
    → read_http scan writes (rep ∷ ss) h ≡ some (true, h', out)
    → Answered scan rep ss h h' out
unfolding read_http parse_response
read_http-Answered scan writes rep ss h h' out small lt e =
    let parsed = parse_head-Parsed scan rep h (find_first_buf rep (codes "\r\n\r\n")) refl in
    subst (IfAnswered scan rep ss h) e
      (read_behind-IfAnswered scan writes rep ss h _ small lt refl parsed) refl
