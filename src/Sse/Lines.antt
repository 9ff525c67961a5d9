-- ===== src/Sse/Lines.antt =====
-- sse.go: the lines of the data of an event.
use kruda.Base.{
  ℕ, ◌≡◌, ◌∙◌, refl, sym, ap, arith, Bool, true, false, not, inl, inr, List, [], ◌∷◌, ◌++◌,
  append_assoc, append-nil, map, ◌==◌, Bytes, codes, ◌=ᵇ◌, index_byte, split, push_head, All,
  Bool-cases,
}
use kruda.Http.Lexical.{every}
use kruda.Http.Response.Lines.{no_cr}
use kruda.Sse.{
  contains_newline, sanitize_sse, replace_crlf, replace_cr, normalize, join_data, format_data_field,
}
use kruda.Sse.Client.{chop, dispatched, receive_lines, closed_lines}

abbrev pub no_lf : Bytes → Bool
no_lf = every λ c. not (c == b'\n')

pub closed_lines-line :
    (a rest : Bytes) → no_lf a ≡ true → closed_lines (a ++ (b'\n' ∷ rest)) ≡ a ∷ closed_lines rest
closed_lines-line [] rest h = refl
closed_lines-line (c ∷ cs) rest h = ground (arith, closed_lines-line cs rest)

pub replace_crlf-no_cr : (b : Bytes) → no_cr b ≡ true → replace_crlf b ≡ b
unfolding replace_crlf
replace_crlf-no_cr [] h = refl
replace_crlf-no_cr (c ∷ []) h = refl
replace_crlf-no_cr (c ∷ d ∷ cs) h = ground (arith, replace_crlf-no_cr (d ∷ cs))

pub replace_cr-no_cr : (b : Bytes) → no_cr b ≡ true → replace_cr b ≡ b
unfolding replace_cr
replace_cr-no_cr [] h = refl
replace_cr-no_cr (c ∷ cs) h = ground (arith, replace_cr-no_cr cs)

pub normalize-no_cr : (b : Bytes) → no_cr b ≡ true → normalize b ≡ b
unfolding normalize
normalize-no_cr b h = rw (replace_crlf-no_cr b h) (replace_cr-no_cr b h)

pub no_cr-replace_cr : (b : Bytes) → no_cr (replace_cr b) ≡ true
unfolding replace_cr
no_cr-replace_cr [] = refl
no_cr-replace_cr (c ∷ cs) = ground (arith, no_cr-replace_cr cs)

pub no_cr-normalize : (b : Bytes) → no_cr (normalize b) ≡ true
unfolding normalize
no_cr-normalize b = no_cr-replace_cr (replace_crlf b)

-- A line without an end in it.
abbrev pub IsPiece : Bytes → Type 0
IsPiece l = (no_lf l ≡ true) × (no_cr l ≡ true)

pub sanitize_sse-IsPiece : (b : Bytes) → IsPiece (sanitize_sse b)
unfolding sanitize_sse
sanitize_sse-IsPiece [] = (refl, refl)
sanitize_sse-IsPiece (c ∷ cs) = ground (arith, sanitize_sse-IsPiece cs)

pub push_head-IsPiece :
    (c : ℕ) (ls : List Bytes)
    → (c == b'\n') ≡ false
    → (c == b'\r') ≡ false
    → All IsPiece ls
    → All IsPiece (push_head c ls)
push_head-IsPiece c [] f r h = ((ground (arith, f), ground (arith, r)), tt)
push_head-IsPiece c (l ∷ ls) f r h = ((ground (arith, f, h.0.0), ground (arith, r, h.0.1)), h.1)

pub split-IsPiece : (b : Bytes) → no_cr b ≡ true → All IsPiece (split b'\n' b)
unfolding split
split-IsPiece [] h = ((refl, refl), tt)
split-IsPiece (c ∷ cs) h = elim (Bool-cases (c == b'\n')) [
  | inl here ↦ rw here ((refl, refl), split-IsPiece cs (ground (arith, h)))
  | inr later ↦ rw later (
      push_head-IsPiece c (split b'\n' cs) later (ground (arith, h))
        (split-IsPiece cs (ground (arith, h))))
]

abbrev pub concat_lines : List Bytes → Bytes
concat_lines [] = []
concat_lines (l ∷ ls) = l ++ (b'\n' ∷ concat_lines ls)

pub split-cons : (b : Bytes) → (l : Bytes) × (ls : List Bytes) × (split b'\n' b ≡ l ∷ ls)
unfolding split
split-cons [] = ([], [], refl)
split-cons (c ∷ cs) = elim (Bool-cases (c == b'\n')) [
  | inl here ↦ ([], split b'\n' cs, rw here refl)
  | inr later ↦ let (l, ls, e) = split-cons cs in (c ∷ l, ls, rw (later, e) refl)
]

pub concat_lines-split : (b : Bytes) → concat_lines (split b'\n' b) ≡ b ++ b'\n' ∷ []
unfolding split
concat_lines-split [] = refl
concat_lines-split (c ∷ cs) = elim (Bool-cases (c == b'\n')) [
  | inl here ↦ ground (arith, concat_lines-split cs)
  | inr later ↦
      let (l, ls, e) = split-cons cs in
      let whole : concat_lines (l ∷ ls) ≡ cs ++ b'\n' ∷ [] =
        ap concat_lines (sym e) ∙ concat_lines-split cs in
      rw (later, e) (ap (◌∷◌ c) whole)
]

pub chop-snoc : (b : Bytes) → chop (b ++ b'\n' ∷ []) ≡ b
chop-snoc [] = refl
chop-snoc (c ∷ []) = refl
chop-snoc (c ∷ d ∷ cs) = ap (◌∷◌ c) (chop-snoc (d ∷ cs))

pub split-no_lf : (b : Bytes) → no_lf b ≡ true → split b'\n' b ≡ b ∷ []
unfolding split
split-no_lf [] h = refl
split-no_lf (c ∷ cs) h = ground (arith, split-no_lf cs)

pub contains_newline-IsPiece : (b : Bytes) → contains_newline b ≡ false → IsPiece b
unfolding contains_newline
contains_newline-IsPiece [] h = (refl, refl)
contains_newline-IsPiece (c ∷ cs) h = ground (arith, contains_newline-IsPiece cs)

pub format_data_field_lem :
    (b : Bytes) → format_data_field b ≡ join_data (split b'\n' (normalize b))
unfolding format_data_field
format_data_field_lem b = elim (Bool-cases (contains_newline b)) [
  | inl found ↦ rw found refl
  | inr clean ↦
      let piece = contains_newline-IsPiece b clean in
      rw clean
        (ap join_data (sym (ap (split b'\n') (normalize-no_cr b piece.1) ∙ split-no_lf b piece.0)))
]

-- The line of one piece of the data.
abbrev pub data_line : Bytes → Bytes
data_line l = codes "data: " ++ l

pub closed_lines-join_data :
    (l : Bytes) (ls : List Bytes) (rest : Bytes)
    → All IsPiece (l ∷ ls)
    → closed_lines (codes "data: " ++ (join_data (l ∷ ls) ++ (b'\n' ∷ rest)))
      ≡ map data_line (l ∷ ls) ++ closed_lines rest
unfolding join_data
closed_lines-join_data l [] rest h = closed_lines-line (data_line l) rest (ground (arith, h.0.0))
closed_lines-join_data l (m ∷ ms) rest h =
    rw (append_assoc l (codes "\ndata: " ++ join_data (m ∷ ms)) (b'\n' ∷ rest)) (
      closed_lines-line (data_line l) (codes "data: " ++ (join_data (m ∷ ms) ++ (b'\n' ∷ rest)))
        (ground (arith, h.0.0))
      ∙ ap (◌∷◌ (data_line l)) (closed_lines-join_data m ms rest h.1))

pub receive_lines-data :
    (id event content : Bytes) (ls more : List Bytes)
    → receive_lines
        (record { id = id; event = event; content = content })
        (map data_line ls ++ more)
      ≡ receive_lines (record { id = id; event = event; content = content ++ concat_lines ls }) more
unfolding index_byte ◌=ᵇ◌
receive_lines-data id event content [] more = rw (append-nil content) refl
receive_lines-data id event content (l ∷ ls) more =
    receive_lines-data id event (content ++ (l ++ b'\n' ∷ [])) ls more
    ∙ rw
        (
          append_assoc content (l ++ b'\n' ∷ []) (concat_lines ls),
          append_assoc l (b'\n' ∷ []) (concat_lines ls),
        )
        refl

pub dispatched-snoc :
    (id event b : Bytes)
    → dispatched (record { id = id; event = event; content = b ++ b'\n' ∷ [] })
      ≡ record { id = id; event = event; content = b } ∷ []
dispatched-snoc id event [] = refl
dispatched-snoc id event (c ∷ cs) =
    ap (λ x. record { id = id; event = event; content = x } ∷ []) (chop-snoc (c ∷ cs))
