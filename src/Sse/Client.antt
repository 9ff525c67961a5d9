-- ===== src/Sse/Client.antt =====
-- sse.go: how a client reads a stream of events, by the rules of the HTML standard.
use kruda.Base.{
  ℕ, ◌+◌, List, [], ◌∷◌, ◌++◌, none, some, if◌then◌else◌, ◌==◌, Bytes, codes, ◌=ᵇ◌, index_byte,
  take, drop, is_empty,
}
use kruda.Http.Lexical.{contains_byte}
use kruda.Sse.{normalize}

pub record Received : Type 0 where
  pub id : Bytes
  pub event : Bytes
  pub content : Bytes

-- The buffers: the last id, which is kept from event to event, the name and the data.
abbrev pub Buffers : Type 0
Buffers = Received

abbrev pub strip_space : Bytes → Bytes
strip_space [] = []
strip_space (c ∷ cs) = if c == b' ' then cs else c ∷ cs

abbrev pub take_field : Buffers → Bytes → Bytes → Buffers
take_field r field v =
    if field =ᵇ codes "event"
    then record r { event = v }
    else if field =ᵇ codes "data"
    then record r { content = r.content ++ (v ++ b'\n' ∷ []) }
    else if field =ᵇ codes "id"
    then (if contains_byte v 0 then r else record r { id = v })
    else r

abbrev pub take_line : Buffers → Bytes → Buffers
take_line r line = elim (index_byte line b':') [
  | some i ↦ take_field r (take i line) (strip_space (drop (i + 1) line))
  | none ↦ take_field r line []
]

-- The last byte off.
abbrev pub chop : Bytes → Bytes
chop [] = []
chop (c ∷ []) = []
chop (c ∷ d ∷ cs) = c ∷ chop (d ∷ cs)

abbrev pub dispatched : Buffers → List Received
dispatched r = if is_empty r.content then [] else record r { content = chop r.content } ∷ []

abbrev pub cleared : Buffers → Buffers
cleared r = record { id = r.id; event = []; content = [] }

-- A blank line dispatches the event; another line goes into the buffers.
abbrev pub receive_lines : Buffers → List Bytes → List Received
receive_lines r [] = []
receive_lines r ([] ∷ ls) = dispatched r ++ receive_lines (cleared r) ls
receive_lines r ((c ∷ cs) ∷ ls) = receive_lines (take_line r (c ∷ cs)) ls

abbrev pub push_open : ℕ → List Bytes → List Bytes
push_open c [] = []
push_open c (l ∷ ls) = (c ∷ l) ∷ ls

-- The lines that have their end.
abbrev pub closed_lines : Bytes → List Bytes
closed_lines [] = []
closed_lines (c ∷ cs) = let ls = closed_lines cs in if c == b'\n' then [] ∷ ls else push_open c ls

-- A line ends at a CR LF, a CR or an LF.
abbrev pub receive : Buffers → Bytes → List Received
receive r b = receive_lines r (closed_lines (normalize b))

-- Before the first event, or behind one.
abbrev pub ready : Bytes → Buffers
ready id = record { id = id; event = []; content = [] }
