-- ===== src/Sse.antt =====
-- sse.go: server-sent events. The context's error, the encoder and the writer's errors are parameters;
-- what a failed write delivered in part is not seen. An interval is a natural number.
pub mod Client
pub mod Lines
pub mod Heard
pub mod Stream
mod Tests
use kruda.Base.{
  ℕ, ◌+◌, ◌⊎◌, inl, inr, Bool, true, false, ◌||◌, List, [], ◌∷◌, ◌++◌, map, Option, none, some,
  if◌then◌else◌, ◌&&◌, ◌==◌, Bytes, codes, split,
}
use kruda.Http.Response.Serial.{itoa}

abbrev pub is_newline : ℕ → Bool
is_newline c = c == b'\r' || c == b'\n'

unfoldable pub contains_newline : Bytes → Bool
contains_newline [] = false
contains_newline (c ∷ cs) = is_newline c || contains_newline cs

-- Up to the first line end.
unfoldable pub sanitize_sse : Bytes → Bytes
sanitize_sse [] = []
sanitize_sse (c ∷ cs) = if is_newline c then [] else c ∷ sanitize_sse cs

-- `strings.ReplaceAll(s, "\r\n", "\n")`.
unfoldable pub replace_crlf : Bytes → Bytes
replace_crlf [] = []
replace_crlf (c ∷ []) = c ∷ []
replace_crlf (c ∷ d ∷ cs) =
    let joined = replace_crlf cs in
    let passed = replace_crlf (d ∷ cs) in
    if c == b'\r' && d == b'\n' then b'\n' ∷ joined else c ∷ passed

unfoldable pub replace_cr : Bytes → Bytes
replace_cr = map λ c. if c == b'\r' then b'\n' else c

unfoldable pub normalize : Bytes → Bytes
unfolding replace_crlf replace_cr
normalize s = replace_cr (replace_crlf s)

-- The lines with "\ndata: " between them.
unfoldable pub join_data : List Bytes → Bytes
join_data [] = []
join_data (l ∷ []) = l
join_data (l ∷ m ∷ ms) = l ++ (codes "\ndata: " ++ join_data (m ∷ ms))

unfoldable pub format_data_field : Bytes → Bytes
unfolding contains_newline join_data normalize split
format_data_field b = if contains_newline b then join_data (split b'\n' (normalize b)) else b

-- The bytes that each operation hands to the writer.
unfoldable pub event_bytes : Bytes → Bytes → Bytes
unfolding sanitize_sse format_data_field
event_bytes event b =
    codes "event: "
    ++ (sanitize_sse event ++ (codes "\ndata: " ++ (format_data_field b ++ codes "\n\n")))

unfoldable pub event_with_id_bytes : Bytes → Bytes → Bytes → Bytes
unfolding sanitize_sse event_bytes
event_with_id_bytes id event b = codes "id: " ++ (sanitize_sse id ++ (b'\n' ∷ event_bytes event b))

unfoldable pub data_bytes : Bytes → Bytes
unfolding format_data_field
data_bytes b = codes "data: " ++ (format_data_field b ++ codes "\n\n")

unfoldable pub comment_bytes : Bytes → Bytes
unfolding sanitize_sse
comment_bytes text = codes ": " ++ (sanitize_sse text ++ codes "\n\n")

unfoldable pub retry_bytes : ℕ → Bytes
unfolding itoa
retry_bytes ms = codes "retry: " ++ (itoa ms ++ codes "\n\n")

-- What was written and how often it was flushed. `calls` counts the operations.
pub record SseStream : Type 0 where
  pub written : Bytes
  pub flushes : ℕ
  pub calls : ℕ

-- A string or bytes, or any other value.
pub data Payload (V : Type 0) : Type 0 where
  verbatim : Bytes → Payload V
  value : V → Payload V

module _ {V E : Type 0} (ctx_err : ℕ → Option E) (encode : V → E ⊎ Bytes)
    (write_err : ℕ → Option E) where
  unfoldable pub encode_data : Payload V → E ⊎ Bytes
  encode_data (verbatim b) = inr b
  encode_data (value v) = encode v

  -- The write and the flush behind it.
  unfoldable pub emit : SseStream → Bytes → SseStream × Option E
  emit s bytes = elim (write_err s.calls) [
    | some e ↦ (record s { calls = s.calls + 1 }, some e)
    | none ↦ (
      record { written = s.written ++ bytes; flushes = s.flushes + 1; calls = s.calls + 1 },
      none,
    )
  ]

  -- Nothing is written once the context is done.
  unfoldable pub guarded : SseStream → E ⊎ Bytes → SseStream × Option E
  unfolding emit
  guarded s bytes = elim (ctx_err s.calls) [
    | some e ↦ (record s { calls = s.calls + 1 }, some e)
    | none ↦ elim bytes [ inl e ↦ (record s { calls = s.calls + 1 }, some e) | inr b ↦ emit s b ]
  ]

  abbrev pub formatted : (Bytes → Bytes) → E ⊎ Bytes → E ⊎ Bytes
  formatted f (inl e) = inl e
  formatted f (inr b) = inr (f b)

  unfoldable pub event : SseStream → Bytes → Payload V → SseStream × Option E
  unfolding guarded encode_data event_bytes
  event s name payload = guarded s (formatted (event_bytes name) (encode_data payload))

  unfoldable pub event_with_id : SseStream → Bytes → Bytes → Payload V → SseStream × Option E
  unfolding guarded encode_data event_with_id_bytes
  event_with_id s id name payload =
      guarded s (formatted (event_with_id_bytes id name) (encode_data payload))

  unfoldable pub data_event : SseStream → Payload V → SseStream × Option E
  unfolding guarded encode_data data_bytes
  data_event s payload = guarded s (formatted data_bytes (encode_data payload))

  unfoldable pub comment : SseStream → Bytes → SseStream × Option E
  unfolding guarded comment_bytes
  comment s text = guarded s (inr (comment_bytes text))

  unfoldable pub retry : SseStream → ℕ → SseStream × Option E
  unfolding guarded retry_bytes
  retry s ms = guarded s (inr (retry_bytes ms))
