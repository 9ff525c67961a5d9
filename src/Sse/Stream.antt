-- ===== src/Sse/Stream.antt =====
-- sse.go: a stream over its life: what the operations wrote, and what the client hears of it.
use kruda.Base.{
  ℕ, ◌≡◌, ◌∙◌, ◌⊎◌, inl, inr, refl, sym, ap, arith, true, List, [], ◌∷◌, ◌++◌, append_assoc,
  append-nil, Option, none, some, All, Bytes, codes, split,
}
use kruda.Http.Response.Lines.{no_cr, no_cr-append, no_cr-itoa}
use kruda.Http.Response.Serial.{itoa}
use kruda.Sse.{
  SseStream, Payload, verbatim, value, encode_data, formatted, sanitize_sse, normalize, join_data,
  event_bytes, event_with_id_bytes, data_bytes, comment_bytes, retry_bytes, guarded, event,
  event_with_id, data_event, comment, retry,
}
use kruda.Sse.Client.{Received, receive, receive_lines, closed_lines, ready}
use kruda.Sse.Lines.{normalize-no_cr, no_cr-normalize, split-IsPiece, sanitize_sse-IsPiece, IsPiece}
use kruda.Sse.Heard.{
  next_id, event_block, id_block, data_block, comment_block, retry_block, data_bytes_lem,
  event_bytes_lem, event_with_id_bytes_lem, comment_bytes_lem, retry_bytes_lem,
}

-- What a call sends, with its data as the bytes that a client is to hear.
pub data Message : Type 0 where
  named : Bytes → Bytes → Message
  with_id : Bytes → Bytes → Bytes → Message
  unnamed remark : Bytes → Message
  interval : ℕ → Message

-- A call of one of the operations with its arguments.
pub data SseCall (V : Type 0) : Type 0 where
  event_call : Bytes → Payload V → SseCall V
  id_call : Bytes → Bytes → Payload V → SseCall V
  data_call : Payload V → SseCall V
  comment_call : Bytes → SseCall V
  retry_call : ℕ → SseCall V

abbrev pub bytes_of : Message → Bytes
bytes_of (named name b) = event_bytes name b
bytes_of (with_id id name b) = event_with_id_bytes id name b
bytes_of (unnamed b) = data_bytes b
bytes_of (remark b) = comment_bytes b
bytes_of (interval ms) = retry_bytes ms

abbrev pub stream_of : List Message → Bytes
stream_of [] = []
stream_of (m ∷ ms) = bytes_of m ++ stream_of ms

-- The events that the messages are: names and ids up to their first line end, data with every line end
-- as a line feed, the last id kept.
abbrev pub heard : Bytes → List Message → List Received
heard id [] = []
heard id (named name b ∷ ms) =
    record { id = id; event = sanitize_sse name; content = normalize b } ∷ heard id ms
heard old (with_id id name b ∷ ms) =
    let id' = next_id old (sanitize_sse id) in
    record { id = id'; event = sanitize_sse name; content = normalize b } ∷ heard id' ms
heard id (unnamed b ∷ ms) = record { id = id; event = []; content = normalize b } ∷ heard id ms
heard id (remark b ∷ ms) = heard id ms
heard id (interval n ∷ ms) = heard id ms

receive_lines-stream_of :
    (id : Bytes) (ms : List Message)
    → receive_lines (ready id) (closed_lines (stream_of ms)) ≡ heard id ms
receive_lines-stream_of id [] = refl
receive_lines-stream_of id (named name b ∷ ms) =
    event_block id name b (stream_of ms) ∙ rw (receive_lines-stream_of id ms) refl
receive_lines-stream_of old (with_id id name b ∷ ms) =
    id_block old id name b (stream_of ms)
    ∙ rw (receive_lines-stream_of (next_id old (sanitize_sse id)) ms) refl
receive_lines-stream_of id (unnamed b ∷ ms) =
    data_block id [] b (stream_of ms) ∙ rw (receive_lines-stream_of id ms) refl
receive_lines-stream_of id (remark b ∷ ms) =
    comment_block id b (stream_of ms) ∙ receive_lines-stream_of id ms
receive_lines-stream_of id (interval n ∷ ms) =
    retry_block id n (stream_of ms) ∙ receive_lines-stream_of id ms

no_cr-join_data : (ls : List Bytes) → All IsPiece ls → no_cr (join_data ls) ≡ true
unfolding join_data
no_cr-join_data [] h = refl
no_cr-join_data (l ∷ []) h = h.0.1
no_cr-join_data (l ∷ m ∷ ms) h =
    no_cr-append l (codes "\ndata: " ++ join_data (m ∷ ms)) h.0.1 (no_cr-join_data (m ∷ ms) h.1)

no_cr-data_bytes : (b : Bytes) → no_cr (data_bytes b) ≡ true
no_cr-data_bytes b =
    let ls = split b'\n' (normalize b) in
    rw (data_bytes_lem b) (
      no_cr-append (join_data ls) (codes "\n\n")
        (no_cr-join_data ls (split-IsPiece (normalize b) (no_cr-normalize b))) refl)

no_cr-event_bytes : (name b : Bytes) → no_cr (event_bytes name b) ≡ true
no_cr-event_bytes name b = rw (event_bytes_lem name b) (
    no_cr-append (sanitize_sse name) (b'\n' ∷ data_bytes b) (sanitize_sse-IsPiece name).1
      (no_cr-data_bytes b))

no_cr-bytes_of : (m : Message) → no_cr (bytes_of m) ≡ true
no_cr-bytes_of (named name b) = no_cr-event_bytes name b
no_cr-bytes_of (with_id id name b) = rw (event_with_id_bytes_lem id name b) (
    no_cr-append (sanitize_sse id) (b'\n' ∷ event_bytes name b) (sanitize_sse-IsPiece id).1
      (no_cr-event_bytes name b))
no_cr-bytes_of (unnamed b) = no_cr-data_bytes b
no_cr-bytes_of (remark b) =
    rw (comment_bytes_lem b)
      (no_cr-append (sanitize_sse b) (codes "\n\n") (sanitize_sse-IsPiece b).1 refl)
no_cr-bytes_of (interval ms) =
    rw (retry_bytes_lem ms) (no_cr-append (itoa ms) (codes "\n\n") (no_cr-itoa ms) refl)

no_cr-stream_of : (ms : List Message) → no_cr (stream_of ms) ≡ true
no_cr-stream_of [] = refl
no_cr-stream_of (m ∷ ms) =
    no_cr-append (bytes_of m) (stream_of ms) (no_cr-bytes_of m) (no_cr-stream_of ms)

receive-stream_of :
    (id : Bytes) (ms : List Message) → receive (ready id) (stream_of ms) ≡ heard id ms
receive-stream_of id ms =
    ap (λ b. receive_lines (ready id) (closed_lines b))
      (normalize-no_cr (stream_of ms) (no_cr-stream_of ms))
    ∙ receive_lines-stream_of id ms

abbrev pub new_stream : SseStream
new_stream = record { written = []; flushes = 0; calls = 0 }

module _ {V E : Type 0} (ctx_err : ℕ → Option E) (encode : V → E ⊎ Bytes)
    (write_err : ℕ → Option E) where
  abbrev pub send : SseStream → SseCall V → SseStream × Option E
  send s (event_call name p) = event ctx_err encode write_err s name p
  send s (id_call id name p) = event_with_id ctx_err encode write_err s id name p
  send s (data_call p) = data_event ctx_err encode write_err s p
  send s (comment_call b) = comment ctx_err encode write_err s b
  send s (retry_call ms) = retry ctx_err encode write_err s ms

  -- A string or bytes as they are, any other value as the encoder writes it; nothing where it fails.
  abbrev pub heard_data : Payload V → Bytes
  heard_data (verbatim b) = b
  heard_data (value v) = elim (encode v) [ inl e ↦ [] | inr b ↦ b ]

  abbrev pub message_of : SseCall V → Message
  message_of (event_call name p) = named name (heard_data p)
  message_of (id_call id name p) = with_id id name (heard_data p)
  message_of (data_call p) = unnamed (heard_data p)
  message_of (comment_call b) = remark b
  message_of (retry_call ms) = interval ms

  -- The stream behind all calls, and the messages of the calls that gave no error.
  abbrev pub send_all : SseStream → List (SseCall V) → SseStream × List Message
  send_all s [] = (s, [])
  send_all s (m ∷ ms) =
      let (s', failed) = send s m in
      let (s'', sent) = send_all s' ms in
      (s'', elim failed [ none ↦ message_of m ∷ sent | some e ↦ sent ])

  guarded-written :
      (s : SseStream) (b : Bytes)
      → (guarded ctx_err encode write_err s (inr b)).0.written
        ≡ s.written ++ (elim (guarded ctx_err encode write_err s (inr b)).1 as (λ _. Bytes) [
          | none ↦ b
          | some e ↦ []
        ])
  unfolding guarded
  guarded-written s b = ground (arith, append-nil s.written)

  guarded_error-written :
      (s : SseStream) (e : E) (b : Bytes)
      → (guarded ctx_err encode write_err s (inl e)).0.written
        ≡ s.written ++ (elim (guarded ctx_err encode write_err s (inl e)).1 as (λ _. Bytes) [
          | none ↦ b
          | some e' ↦ []
        ])
  unfolding guarded
  guarded_error-written s e b = ground (arith, append-nil s.written)

  guarded_payload-written :
      (s : SseStream) (f : Bytes → Bytes) (p : Payload V)
      → (guarded ctx_err encode write_err s
          (formatted ctx_err encode write_err f (encode_data ctx_err encode write_err p))).0.written
        ≡ s.written
          ++ (elim (guarded ctx_err encode write_err s
                (formatted ctx_err encode write_err f (encode_data ctx_err encode write_err p))).1
              as (λ _. Bytes) [ none ↦ f (heard_data p) | some e ↦ [] ])
  unfolding encode_data
  guarded_payload-written s f (verbatim b) = guarded-written s (f b)
  guarded_payload-written s f (value v) =
      elim (encode v)
        as (λ r.
          (guarded ctx_err encode write_err s (formatted ctx_err encode write_err f r)).0.written
          ≡ s.written
            ++ (elim (guarded ctx_err encode write_err s (formatted ctx_err encode write_err f r)).1
                as (λ _. Bytes) [
                  | none ↦ f (elim r as (λ _. Bytes) [ inl e ↦ [] | inr b ↦ b ])
                  | some e ↦ []
                ])) [ inl e ↦ guarded_error-written s e (f []) | inr b ↦ guarded-written s (f b) ]

  send-written :
      (s : SseStream) (m : SseCall V)
      → (send s m).0.written
        ≡ s.written
          ++ (elim (send s m).1 as (λ _. Bytes) [ none ↦ bytes_of (message_of m) | some e ↦ [] ])
  unfolding event event_with_id data_event comment retry
  send-written s (event_call name p) = guarded_payload-written s (event_bytes name) p
  send-written s (id_call id name p) = guarded_payload-written s (event_with_id_bytes id name) p
  send-written s (data_call p) = guarded_payload-written s data_bytes p
  send-written s (comment_call b) = guarded-written s (comment_bytes b)
  send-written s (retry_call ms) = guarded-written s (retry_bytes ms)

  sent_or_not :
      (failed : Option E) (w : Bytes) (m : Message) (rest : List Message)
      → (w ++ (elim failed as (λ _. Bytes) [ none ↦ bytes_of m | some e ↦ [] ])) ++ stream_of rest
        ≡ w ++ stream_of (elim failed as (λ _. List Message) [ none ↦ m ∷ rest | some e ↦ rest ])
  sent_or_not none w m rest = append_assoc w (bytes_of m) (stream_of rest)
  sent_or_not (some e) w m rest = rw (append-nil w) refl

  send_all-written :
      (s : SseStream) (ms : List (SseCall V))
      → (send_all s ms).0.written ≡ s.written ++ stream_of (send_all s ms).1
  send_all-written s [] = sym (append-nil s.written)
  send_all-written s (m ∷ ms) =
      let rest = (send_all (send s m).0 ms).1 in
      send_all-written (send s m).0 ms
      ∙ ap (λ w. w ++ stream_of rest) (send-written s m)
      ∙ sent_or_not (send s m).1 s.written (message_of m) rest

  -- Whatever data the operations are called with, a string, bytes or a value for the encoder, and
  -- whichever calls fail by the context, the encoder or the writer, a client that reads the stream by the
  -- rules of the standard hears exactly the events of the calls that gave no error, in their order, each
  -- with its name and id up to the first line end and its data, or what the encoder made of it, line by
  -- line. A call of Retry has a natural number, and a failed write delivers nothing.
  pub receive-send_all :
      (ms : List (SseCall V))
      → receive (ready []) (send_all new_stream ms).0.written ≡ heard [] (send_all new_stream ms).1
  receive-send_all ms =
      ap (receive (ready [])) (send_all-written new_stream ms)
      ∙ receive-stream_of [] (send_all new_stream ms).1
