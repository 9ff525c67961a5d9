-- ===== src/Sse/Tests.antt =====
-- A stream at concrete events: an injection in the name and in the data, and a write that fails.
use kruda.Base.{
  ℕ, ◌≡◌, ◌==◌, refl, List, [], ◌∷◌, Option, none, some, inl, inr, ◌⊎◌, ◌++◌, Bytes, codes,
  if◌then◌else◌,
}
use kruda.Sse.{verbatim, value, event_bytes, sanitize_sse, normalize}
use kruda.Sse.Client.{receive, ready}
use kruda.Sse.Stream.{
  named, SseCall, event_call, id_call, data_call, comment_call, retry_call, heard, new_stream,
  send_all, receive-send_all,
}

abbrev messages : List (SseCall Bytes)
messages =
    event_call (codes "a\ndata: x\n\n") (verbatim (codes "1\r\n\r\nevent: b"))
    ∷ comment_call (codes "lost")
    ∷ id_call (codes "7") (codes "c") (value (codes "2"))
    ∷ retry_call 5
    ∷ data_call (value [])
    ∷ data_call (verbatim [])
    ∷ []

-- An encoder in quotes, which fails on nothing.
abbrev quoted : Bytes → ℕ ⊎ Bytes
quoted [] = inl 4
quoted (c ∷ cs) = inr (b'"' ∷ c ∷ cs ++ b'"' ∷ [])

-- The second write fails.
abbrev write_err : ℕ → Option ℕ
write_err n = if n == 1 then some 9 else none

receive-send_all_example :
    receive (ready []) (send_all (λ _. none) quoted write_err new_stream messages).0.written
    ≡ heard [] (send_all (λ _. none) quoted write_err new_stream messages).1
receive-send_all_example = receive-send_all (λ _. none) quoted write_err messages

two_lines : event_bytes (codes "a\nid: 1") (codes "x\ny") ≡ codes "event: a\ndata: x\ndata: y\n\n"
unfolding event_bytes
two_lines = refl

heard_once :
    heard [] (named (codes "a\ndata: x\n\n") (codes "1\r\n2") ∷ [])
    ≡ record { id = []; event = codes "a"; content = codes "1\n2" } ∷ []
unfolding sanitize_sse normalize
heard_once = refl
