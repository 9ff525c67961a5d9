-- ===== src/Http/Response/Lines.antt =====
-- wing_http.go: a response as lines, and where a client finds the body.
use kruda.Base.{
  ℕ, suc, ◌+◌, ◌≡◌, ◌∙◌, refl, ap, sym, arith, Bool, true, false, not, ◌&&◌, List, [], ◌∷◌, ◌++◌,
  append_assoc, map, if◌then◌else◌, ltb, ◌==◌, Bytes, codes, All, drop, has_prefix, Option, none,
  some, Bool-cases, inl, inr,
}
use mathlib.Core.Option
use kruda.Http.Lexical.{every, is_digit}
use kruda.Http.HeaderMap.{WingHeader}
use kruda.Http.Request.{crlfcrlf, header_end}
use kruda.Http.Response.Serial.{
  crlf, itoa, text_of, status_texts, unknown_line, or_else, status_line, header_lines,
}
use kruda.Http.Response.Digits.{every-itoa}

-- What follows the first blank line.
abbrev pub after_head : Bytes → Option Bytes
after_head b = Option.map (λ e. drop (e + 4) b) (header_end b)

abbrev pub no_cr : Bytes → Bool
no_cr = every λ c. not (c == b'\r')

abbrev pub IsLine : Bytes → Type 0
IsLine [] = ⊥
IsLine (c ∷ cs) = no_cr (c ∷ cs) ≡ true

abbrev pub join_lines : List Bytes → Bytes
join_lines [] = []
join_lines (l ∷ ls) = l ++ (crlf ++ join_lines ls)

-- A byte at which no blank line starts is passed.
after_head-cons :
    (c : ℕ) (cs : Bytes)
    → has_prefix (c ∷ cs) crlfcrlf ≡ false
    → after_head (c ∷ cs) ≡ after_head cs
unfolding header_end
after_head-cons c cs h =
    rw h
      (elim (header_end cs)
        as (λ o.
          Option.map (λ e. drop (e + 4) (c ∷ cs)) (Option.map suc o)
          ≡ Option.map (λ e. drop (e + 4) cs) o) [
            | none ↦ refl
            | some e ↦ let shift : suc e + 4 ≡ suc (e + 4) = omega arith in ap some (rw shift refl)
          ])

after_head-append :
    (line tail : Bytes) → no_cr line ≡ true → after_head (line ++ tail) ≡ after_head tail
unfolding has_prefix
after_head-append [] tail h = refl
after_head-append (c ∷ cs) tail h =
    after_head-cons c (cs ++ tail) (ground (arith, h))
    ∙ after_head-append cs tail (ground (arith, h))

after_head-crlf :
    (c : ℕ) (cs : Bytes)
    → (c == b'\r') ≡ false
    → after_head (crlf ++ (c ∷ cs)) ≡ after_head (c ∷ cs)
unfolding has_prefix
after_head-crlf c cs h =
    after_head-cons b'\r' (b'\n' ∷ c ∷ cs) (ground (arith, h)) ∙ after_head-cons b'\n' (c ∷ cs) refl

after_head-blank : (body : Bytes) → after_head (crlf ++ (crlf ++ body)) ≡ some body
unfolding header_end has_prefix
after_head-blank body = refl

-- The body starts behind the first blank line, whatever the body is.
pub after_head-join_lines :
    (l : Bytes) (ls : List Bytes) (body : Bytes)
    → IsLine l
    → All IsLine ls
    → after_head (join_lines (l ∷ ls) ++ (crlf ++ body)) ≡ some body
after_head-join_lines [] ls body h hs = elim h [ ]
after_head-join_lines (c ∷ cs) [] body h hs =
    rw (append_assoc (c ∷ cs) crlf (crlf ++ body))
      (after_head-append (c ∷ cs) (crlf ++ (crlf ++ body)) h ∙ after_head-blank body)
after_head-join_lines (c ∷ cs) ([] ∷ ls) body h hs = elim hs.0 [ ]
after_head-join_lines (c ∷ cs) ((d ∷ ds) ∷ ls) body h hs =
    let tail = join_lines ((d ∷ ds) ∷ ls) ++ (crlf ++ body) in
    rw (append_assoc (c ∷ cs) (crlf ++ join_lines ((d ∷ ds) ∷ ls)) (crlf ++ body)) (
      after_head-append (c ∷ cs) (crlf ++ tail) h
      ∙ after_head-crlf d (ds ++ (crlf ++ join_lines ls) ++ (crlf ++ body)) (ground (arith, hs.0))
      ∙ after_head-join_lines (d ∷ ds) ls body hs.0 hs.1)

abbrev pub header_line : WingHeader → Bytes
header_line h = h.key ++ codes ": " ++ h.val

pub join_lines-append :
    (ls ms : List Bytes) → join_lines (ls ++ ms) ≡ join_lines ls ++ join_lines ms
join_lines-append [] ms = refl
join_lines-append (l ∷ ls) ms = simp (join_lines-append ls ms, append_assoc)

pub header_lines-join_lines :
    (hs : List WingHeader) → header_lines hs ≡ join_lines (map header_line hs)
unfolding header_lines
header_lines-join_lines [] = refl
header_lines-join_lines (h ∷ hs) = simp (header_lines-join_lines hs, append_assoc)

pub no_cr-append : (a b : Bytes) → no_cr a ≡ true → no_cr b ≡ true → no_cr (a ++ b) ≡ true
no_cr-append [] b ha hb = hb
no_cr-append (c ∷ cs) b ha hb = ground (arith, no_cr-append cs b)

no_cr-every : (b : Bytes) → every is_digit b ≡ true → no_cr b ≡ true
no_cr-every [] h = refl
no_cr-every (c ∷ cs) h = ground (arith, no_cr-every cs)

pub no_cr-itoa : (n : ℕ) → no_cr (itoa n) ≡ true
no_cr-itoa n = no_cr-every (itoa n) (every-itoa n)

IsLine-append : (a b : Bytes) → IsLine a → no_cr b ≡ true → IsLine (a ++ b)
IsLine-append [] b ha hb = elim ha [ ]
IsLine-append (c ∷ cs) b ha hb = no_cr-append (c ∷ cs) b ha hb

starts_with_key :
    (key rest : Bytes) → no_cr key ≡ true → no_cr rest ≡ true → IsLine rest → IsLine (key ++ rest)
starts_with_key [] rest k r h = h
starts_with_key (c ∷ cs) rest k r h = no_cr-append (c ∷ cs) rest k r

pub header_line-IsLine :
    (h : WingHeader) → no_cr h.key ≡ true → no_cr h.val ≡ true → IsLine (header_line h)
header_line-IsLine h k v =
    rw (append_assoc h.key (codes ": ") h.val)
      (starts_with_key h.key (codes ": " ++ h.val) k (ground (arith, v)) (ground (arith, v)))

clean_texts : List (ℕ × Bytes) → Bool
clean_texts [] = true
clean_texts ((code, text) ∷ texts) = no_cr text && clean_texts texts

text_of-no_cr :
    (status : ℕ) (texts : List (ℕ × Bytes)) (text : Bytes)
    → clean_texts texts ≡ true
    → text_of status texts ≡ some text
    → no_cr text ≡ true
unfolding text_of clean_texts
text_of-no_cr status [] text h e = absurd (ground arith)
text_of-no_cr status ((code, t) ∷ texts) text h e = elim (Bool-cases (code == status)) [
  | inl same ↦ ground (arith, same)
  | inr other ↦ ground (arith, other, text_of-no_cr status texts text)
]

-- A line of the protocol, and its end.
abbrev pub IsEnded : Bytes → Type 0
IsEnded b = (l : Bytes) × (IsLine l × (b ≡ l ++ crlf))

started :
    (status : ℕ) (text : Bytes)
    → no_cr text ≡ true
    → IsLine (codes "HTTP/1.1 " ++ itoa status ++ text)
started status text h =
    no_cr-append (codes "HTTP/1.1 " ++ itoa status) text
      (no_cr-append (codes "HTTP/1.1 ") (itoa status) refl (no_cr-itoa status)) h

ended :
    (text : Option Bytes) (known : Bool) (status : ℕ)
    → ((t : Bytes) → text ≡ some t → no_cr t ≡ true)
    → IsEnded (
        or_else
          (if known
            then Option.map (λ t. codes "HTTP/1.1 " ++ itoa status ++ codes " " ++ t ++ crlf) text
            else none)
          (unknown_line status))
unfolding or_else unknown_line
ended (some t) true status clean = (
  codes "HTTP/1.1 " ++ itoa status ++ codes " " ++ t,
  (
    no_cr-append (codes "HTTP/1.1 " ++ itoa status ++ codes " ") t (started status (codes " ") refl)
        (clean t refl),
    refl,
  ),
)
ended none true status clean = (
  codes "HTTP/1.1 " ++ itoa status ++ codes " Unknown",
  (
    started status (codes " Unknown") refl,
    sym (append_assoc (codes "HTTP/1.1 " ++ itoa status) (codes " Unknown") crlf),
  ),
)
ended text false status clean = (
  codes "HTTP/1.1 " ++ itoa status ++ codes " Unknown",
  (
    started status (codes " Unknown") refl,
    sym (append_assoc (codes "HTTP/1.1 " ++ itoa status) (codes " Unknown") crlf),
  ),
)

pub status_line-IsEnded : (status : ℕ) → IsEnded (status_line status)
unfolding status_line clean_texts
status_line-IsEnded status =
    ended (text_of status status_texts) (ltb 0 status && ltb status 600) status
      λ t. text_of-no_cr status status_texts t refl
