-- ===== src/Sse/Heard.antt =====
-- sse.go: what a client hears of each kind of message.
use kruda.Base.{
  ℕ, ◌≡◌, ◌∙◌, refl, ap, arith, true, inl, inr, [], ◌∷◌, ◌++◌, append_assoc, map, if◌then◌else◌,
  Bytes, codes, ◌=ᵇ◌, index_byte, split, All, Bool-cases,
}
use kruda.Http.Lexical.{every, is_digit, contains_byte}
use kruda.Http.Response.Serial.{itoa}
use kruda.Http.Response.Digits.{every-itoa}
use kruda.Sse.{
  sanitize_sse, normalize, join_data, event_bytes, event_with_id_bytes, data_bytes, comment_bytes,
  retry_bytes,
}
use kruda.Sse.Client.{receive_lines, closed_lines, ready}
use kruda.Sse.Lines.{
  no_lf, closed_lines-line, no_cr-normalize, IsPiece, sanitize_sse-IsPiece, split-IsPiece,
  split-cons, concat_lines-split, format_data_field_lem, data_line, closed_lines-join_data,
  receive_lines-data, dispatched-snoc,
}

-- The bytes in terms of one another, with the data still shut.
pub data_bytes_lem :
    (b : Bytes)
    → data_bytes b ≡ codes "data: " ++ (join_data (split b'\n' (normalize b)) ++ codes "\n\n")
unfolding data_bytes
data_bytes_lem b = ap (λ x. codes "data: " ++ (x ++ codes "\n\n")) (format_data_field_lem b)

pub event_bytes_lem :
    (name b : Bytes)
    → event_bytes name b ≡ codes "event: " ++ (sanitize_sse name ++ (b'\n' ∷ data_bytes b))
unfolding event_bytes data_bytes
event_bytes_lem name b = refl

pub event_with_id_bytes_lem :
    (id name b : Bytes)
    → event_with_id_bytes id name b
      ≡ codes "id: " ++ (sanitize_sse id ++ (b'\n' ∷ event_bytes name b))
unfolding event_with_id_bytes
event_with_id_bytes_lem id name b = refl

pub comment_bytes_lem :
    (b : Bytes) → comment_bytes b ≡ codes ": " ++ (sanitize_sse b ++ codes "\n\n")
unfolding comment_bytes
comment_bytes_lem b = refl

pub retry_bytes_lem : (ms : ℕ) → retry_bytes ms ≡ codes "retry: " ++ (itoa ms ++ codes "\n\n")
unfolding retry_bytes
retry_bytes_lem ms = refl

data_lines :
    (b rest : Bytes)
    → closed_lines (data_bytes b ++ rest)
      ≡ map data_line (split b'\n' (normalize b)) ++ ([] ∷ closed_lines rest)
data_lines b rest =
    let (l, ls, e) = split-cons (normalize b) in
    let pieces : All IsPiece (l ∷ ls) = rw e at (split-IsPiece (normalize b) (no_cr-normalize b)) in
    rw (data_bytes_lem b, e, append_assoc (join_data (l ∷ ls)) (codes "\n\n") rest)
      (closed_lines-join_data l ls (b'\n' ∷ rest) pieces)

-- The lines of a field with data, and the blank line behind them.
pub data_block :
    (id event b rest : Bytes)
    → receive_lines
        (record { id = id; event = event; content = [] })
        (closed_lines (data_bytes b ++ rest))
      ≡ record { id = id; event = event; content = normalize b }
        ∷ receive_lines (ready id) (closed_lines rest)
data_block id event b rest = rw (data_lines b rest) (
    receive_lines-data id event [] (split b'\n' (normalize b)) ([] ∷ closed_lines rest)
    ∙ ap
        (λ c.
          receive_lines (record { id = id; event = event; content = c }) ([] ∷ closed_lines rest))
        (concat_lines-split (normalize b))
    ∙ ap (λ d. d ++ receive_lines (ready id) (closed_lines rest))
        (dispatched-snoc id event (normalize b)))

no_lf-append : (a b : Bytes) → no_lf a ≡ true → no_lf b ≡ true → no_lf (a ++ b) ≡ true
no_lf-append [] b ha hb = hb
no_lf-append (c ∷ cs) b ha hb = ground (arith, no_lf-append cs b)

no_lf-every : (b : Bytes) → every is_digit b ≡ true → no_lf b ≡ true
no_lf-every [] h = refl
no_lf-every (c ∷ cs) h = ground (arith, no_lf-every cs)

-- A field of one line with `name: ` before it.
field_line :
    (name v rest : Bytes)
    → no_lf name ≡ true
    → no_lf v ≡ true
    → closed_lines (name ++ (v ++ (b'\n' ∷ rest))) ≡ (name ++ v) ∷ closed_lines rest
field_line name v rest h g =
    rw (← append_assoc name v (b'\n' ∷ rest))
      (closed_lines-line (name ++ v) rest (no_lf-append name v h g))

pub event_block :
    (id name b rest : Bytes)
    → receive_lines (ready id) (closed_lines (event_bytes name b ++ rest))
      ≡ record { id = id; event = sanitize_sse name; content = normalize b }
        ∷ receive_lines (ready id) (closed_lines rest)
unfolding index_byte ◌=ᵇ◌
event_block id name b rest =
    rw
      (
        event_bytes_lem name b,
        append_assoc (sanitize_sse name) (b'\n' ∷ data_bytes b) rest,
        field_line (codes "event: ") (sanitize_sse name) (data_bytes b ++ rest) refl
            (sanitize_sse-IsPiece name).0,
      )
      (data_block id (sanitize_sse name) b rest)

-- An id with a zero byte is ignored.
abbrev pub next_id : Bytes → Bytes → Bytes
next_id old new = if contains_byte new 0 then old else new

id_line :
    (old v : Bytes)
    → (if contains_byte v 0 then ready old else record { id = v; event = []; content = [] })
      ≡ ready (next_id old v)
id_line old v = elim (Bool-cases (contains_byte v 0)) [
  | inl zeroed ↦ rw zeroed refl
  | inr clean ↦ rw clean refl
]

pub id_block :
    (old id name b rest : Bytes)
    → receive_lines (ready old) (closed_lines (event_with_id_bytes id name b ++ rest))
      ≡ record {
        id = next_id old (sanitize_sse id);
        event = sanitize_sse name;
        content = normalize b;
      }
        ∷ receive_lines (ready (next_id old (sanitize_sse id))) (closed_lines rest)
unfolding index_byte ◌=ᵇ◌
id_block old id name b rest =
    rw
      (
        event_with_id_bytes_lem id name b,
        append_assoc (sanitize_sse id) (b'\n' ∷ event_bytes name b) rest,
        field_line (codes "id: ") (sanitize_sse id) (event_bytes name b ++ rest) refl
            (sanitize_sse-IsPiece id).0,
      )
      (ap (λ r. receive_lines r (closed_lines (event_bytes name b ++ rest)))
          (id_line old (sanitize_sse id))
        ∙ event_block (next_id old (sanitize_sse id)) name b rest)

pub comment_block :
    (id b rest : Bytes)
    → receive_lines (ready id) (closed_lines (comment_bytes b ++ rest))
      ≡ receive_lines (ready id) (closed_lines rest)
unfolding index_byte ◌=ᵇ◌
comment_block id b rest =
    rw
      (
        comment_bytes_lem b,
        append_assoc (sanitize_sse b) (codes "\n\n") rest,
        field_line (codes ": ") (sanitize_sse b) (b'\n' ∷ rest) refl (sanitize_sse-IsPiece b).0,
      )
      refl

pub retry_block :
    (id : Bytes) (ms : ℕ) (rest : Bytes)
    → receive_lines (ready id) (closed_lines (retry_bytes ms ++ rest))
      ≡ receive_lines (ready id) (closed_lines rest)
unfolding index_byte ◌=ᵇ◌
retry_block id ms rest =
    rw
      (
        retry_bytes_lem ms,
        append_assoc (itoa ms) (codes "\n\n") rest,
        field_line (codes "retry: ") (itoa ms) (b'\n' ∷ rest) refl
            (no_lf-every (itoa ms) (every-itoa ms)),
      )
      refl
