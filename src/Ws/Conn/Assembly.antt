-- ===== src/Ws/Conn/Assembly.antt =====
-- contrib/ws/conn.go: what `ReadMessage` makes of a message that a client sends in fragments, with
-- pongs between them.
use kruda.Base.{
  ℕ, zero, suc, ◌+◌, ◌≤◌, ◌<◌, ◌^◌, ◌≡◌, refl, ap, ◌∙◌, arith, Bool, true, false, not, ◌&&◌, ◌⊎◌,
  List, [], ◌∷◌, ◌++◌, append_assoc, ltb, leb, ◌==◌, Bytes, IsByte, All, length, length-append, inl,
  inr,
}
use kruda.Ws.Frame as F
use kruda.Ws.Frame.{Frame, defined_opcode, read_frame}
use kruda.Ws.Frame.Encoding.{encode, IsAllowed, IsKey}
use kruda.Ws.Frame.RoundTrip.{read_frame-encode}
use kruda.Ws.Conn.{
  Env, Conn, Outcome, M, ◌>>◌, done, next_frame, require_mask, read_client_frame, control,
  finish_message, join_fragment, read_fragments, read_first, start_message, read_messages,
  read_message,
}

-- What stands between the first and the last frame of a message.
pub data Item : Type 0 where
  pong part : Bytes → Item

-- A frame as a client sends it.
abbrev pub client : Bool → ℕ → Bytes → Frame
client fin opcode payload = record { fin = fin; opcode = opcode; masked = true; payload = payload }

abbrev pub frame_of : Item → Frame
frame_of (pong p) = client true 10 p
frame_of (part p) = client false 0 p

abbrev pub joined : List Item → Bytes
joined [] = []
joined (pong p ∷ is) = joined is
joined (part p ∷ is) = p ++ joined is

abbrev pub wire : Bytes → List Item → Bytes → Bytes
wire key [] rest = rest
wire key (i ∷ is) rest = encode (frame_of i) key ++ wire key is rest

-- A message in one frame, or in more than one.
pub data Message : Type 0 where
  whole : Bytes → Message
  split : Bytes → List Item → Bytes → Message

abbrev pub content_of : Message → Bytes
content_of (whole p) = p
content_of (split first is last) = first ++ (joined is ++ last)

abbrev pub source_of : Bytes → ℕ → Message → Bytes → Bytes
source_of key type (whole p) rest = encode (client true type p) key ++ rest
source_of key type (split first is last) rest =
    encode (client false type first) key ++ wire key is (encode (client true 0 last) key ++ rest)

encode-pos : (f : Frame) (key : Bytes) → 0 < length (encode f key)
unfolding encode
encode-pos f key = omega arith

-- Bytes, and no more of them than a frame of the kind may have.
abbrev pub IsSendable : Item → Type 0
IsSendable (pong p) = All IsByte p × (length p ≤ 125)
IsSendable (part p) = All IsByte p

abbrev pub AllSendable : Message → Type 0
AllSendable (whole p) = All IsByte p
AllSendable (split first is last) = All IsByte first × (All IsSendable is × All IsByte last)

pub record IsMessage (env : Env) (type : ℕ) (message : Bytes) : Type 0 where
  pub data_type : (type ≡ 1) ⊎ (type ≡ 2)
  pub within_max : 0 < env.max_message_size → length message ≤ env.max_message_size
  pub length_fits : length message < 2 ^ 63
  pub text_valid : type ≡ 1 → env.utf8_valid message ≡ true

skip_control :
    {A : Type 0} (b : Bool) (x y : M A) (c : Conn) {r : Conn × Outcome A}
    → b ≡ false
    → y c ≡ r
    → (elim b as (λ _. M A) [ true ↦ x | false ↦ y ]) c ≡ r
skip_control true x y c e d = absurd (ground arith)
skip_control false x y c e d = d

-- A frame of a message that is within the limits is within them.
fragment-IsAllowed :
    {env : Env} {type : ℕ} {message : Bytes} (fin : Bool) (op : ℕ) (p : Bytes)
    → IsMessage env type message
    → (op ≡ 0) ⊎ (op ≡ type)
    → length p ≤ length message
    → IsAllowed env.max_message_size (client fin op p)
fragment-IsAllowed fin op p m kind h =
    let small : op < 3 = ground (arith, m.data_type) in
    let defined : defined_opcode op ≡ true = ground (arith, m.data_type) in
    record {
      opcode_defined = defined;
      length_fits = omega (arith, m.length_fits);
      within_max = λ given _. omega (arith, m.within_max given);
      control_whole = λ big. absurd (omega (arith, small));
      control_short = λ big. absurd (omega (arith, small));
    }

pong-IsAllowed : (max : ℕ) (p : Bytes) → length p ≤ 125 → IsAllowed max (client true 10 p)
pong-IsAllowed max p h = record {
  opcode_defined = refl;
  length_fits = omega arith;
  within_max = λ _ low. absurd (omega arith);
  control_whole = λ _. refl;
  control_short = λ _. h;
}

module _ (env : Env) (key : Bytes) (is_key : IsKey true key) where
  read_client_frame-encode :
      (f : Frame) (rest : Bytes) (c : Conn)
      → f.masked ≡ true
      → IsAllowed env.max_message_size f
      → All IsByte f.payload
      → c.source ≡ encode f key ++ rest
      → read_client_frame env c ≡ (record c { source = rest }, done f)
  unfolding read_client_frame next_frame
  read_client_frame-encode f rest c masked a bytes e =
      let k : IsKey f.masked key = rw masked is_key in
      let read : read_frame c.source env.max_message_size ≡ F.ok (f, rest) =
        rw e (read_frame-encode f env.max_message_size key rest a k bytes) in
      let next : next_frame env c ≡ (record c { source = rest }, done f) =
        rw (read, next_frame) refl in
      rw (next, read_client_frame) (unfold require_mask in rw masked refl)

  join-done :
      (fin : Bool) (p bytes : Bytes) (c : Conn)
      → (0 < env.max_message_size → length bytes + length p ≤ env.max_message_size)
      → join_fragment env (client fin 0 p) bytes c ≡ (c, done (bytes ++ p))
  unfolding join_fragment
  join-done fin p bytes c h =
      let fits : (ltb 0 env.max_message_size && ltb env.max_message_size (length bytes + length p))
          ≡ false =
        ground (arith, h) in
      rw fits refl

  finish-done :
      (type : ℕ) (message : Bytes) (c : Conn)
      → IsMessage env type message
      → finish_message env type message c ≡ (c, done (type, message))
  unfolding finish_message
  finish-done type message c m =
      let fine : (type == 1 && not (env.utf8_valid message)) ≡ false =
        ground (arith, m.text_valid) in
      rw fine refl

  -- The last frame and those before it, one by one.
  read_fragments-wire :
      (fuel : ℕ) (type : ℕ) (bytes last : Bytes) (is : List Item) (rest : Bytes) (c : Conn)
      → length is < fuel
      → All IsSendable is
      → All IsByte last
      → IsMessage env type (bytes ++ (joined is ++ last))
      → c.source ≡ wire key is (encode (client true 0 last) key ++ rest)
      → read_fragments env fuel type bytes c
        ≡ (record c { source = rest }, done (type, bytes ++ (joined is ++ last)))
  unfolding read_fragments
  read_fragments-wire zero type bytes last is rest c h ok b m e = absurd (omega arith)
  read_fragments-wire (suc fuel) type bytes last [] rest c h ok b m e =
      let short = length-append bytes last in
      let a = fragment-IsAllowed true 0 last m (inl refl) (omega (arith, short)) in
      let c' : Conn = record c { source = rest } in
      let read = read_client_frame-encode (client true 0 last) rest c refl a b e in
      let join = join-done true last bytes c' (λ given. omega (arith, m.within_max given, short)) in
      rw (read, read_fragments, join) (finish-done type (bytes ++ last) c' m)
  read_fragments-wire (suc fuel) type bytes last (pong p ∷ is) rest c h (o, os) b m e =
      let later = wire key is (encode (client true 0 last) key ++ rest) in
      let c' : Conn = record c { source = later } in
      let read =
        read_client_frame-encode (client true 10 p) later c refl (pong-IsAllowed _ p o.1) o.0 e in
      rw (read, read_fragments)
        (read_fragments-wire fuel type bytes last is rest c' (omega arith) os b m refl)
  read_fragments-wire (suc fuel) type bytes last (part p ∷ is) rest c h (o, os) b m e =
      let later = wire key is (encode (client true 0 last) key ++ rest) in
      let c' : Conn = record c { source = later } in
      let short = length-append bytes ((p ++ joined is) ++ last) in
      let short' = length-append (p ++ joined is) last in
      let short'' = length-append p (joined is) in
      let a = fragment-IsAllowed false 0 p m (inl refl) (omega (arith, short, short', short'')) in
      let regroup : (bytes ++ p) ++ (joined is ++ last) ≡ bytes ++ ((p ++ joined is) ++ last) =
        simp (append_assoc) in
      let read = read_client_frame-encode (client false 0 p) later c refl a o e in
      let join =
        join-done false p bytes c'
          (λ given. omega (arith, m.within_max given, short, short', short'')) in
      let m' : IsMessage env type ((bytes ++ p) ++ (joined is ++ last)) = rw regroup m in
      let rest_read =
        read_fragments-wire fuel type (bytes ++ p) last is rest c' (omega arith) os b m' refl in
      rw (read, read_fragments, join) (rw regroup at rest_read)

  -- The frames before the last are no more than the bytes.
  length-wire : (is : List Item) (rest : Bytes) → length is ≤ length (wire key is rest)
  unfolding encode
  length-wire [] rest = omega arith
  length-wire (i ∷ is) rest =
      omega (arith, length-wire is rest, length-append (encode (frame_of i) key) (wire key is rest))

  read_first-encode :
      (f : Frame) (rest : Bytes) (c : Conn)
      → f.masked ≡ true
      → IsAllowed env.max_message_size f
      → All IsByte f.payload
      → c.source ≡ encode f key ++ rest
      → read_first env c ≡ (record c { source = rest }, done f)
  unfolding read_first
  read_first-encode f rest c masked a bytes e =
      rw (read_client_frame-encode f rest c masked a bytes e) refl

  started :
      (fuel : ℕ) (type : ℕ) (f : Frame) (c c' : Conn) (y : Conn × Outcome (ℕ × Bytes))
      → (type ≡ 1) ⊎ (type ≡ 2)
      → f.opcode ≡ type
      → read_first env c ≡ (c', done f)
      → start_message env fuel f c' ≡ y
      → read_messages env (suc fuel) c ≡ y
  unfolding read_messages
  started fuel type f c c' y kind e read d =
      let low : leb 8 f.opcode ≡ false = ground (arith, kind, e) in
      rw (read, read_messages)
        (skip_control (leb 8 f.opcode) (control env f >> read_messages env fuel)
          (start_message env fuel f) c' low d)

  start_whole :
      (fuel : ℕ) (type : ℕ) (p : Bytes) (c : Conn)
      → (type ≡ 1) ⊎ (type ≡ 2)
      → start_message env fuel (client true type p) c ≡ finish_message env type p c
  unfolding start_message
  start_whole fuel type p c kind = ground (arith, kind)

  start_split :
      (fuel : ℕ) (type : ℕ) (p : Bytes) (c : Conn)
      → (type ≡ 1) ⊎ (type ≡ 2)
      → start_message env fuel (client false type p) c ≡ read_fragments env fuel type p c
  unfolding start_message
  start_split fuel type p c kind = ground (arith, kind)

  -- A message that a client sends, in one frame or in a first, some between and a last, each masked with
  -- the same key, and pongs between them, is read as the type and the bytes joined, if it is within the
  -- limit and, as text, UTF-8. Exactly the frames are taken from the reader; nothing else changes.
  pub read_message-source_of :
      (type : ℕ) (message : Message) (rest : Bytes) (c : Conn)
      → AllSendable message
      → IsMessage env type (content_of message)
      → c.source ≡ source_of key type message rest
      → read_message env c ≡ (record c { source = rest }, done (type, content_of message))
  unfolding read_message
  read_message-source_of type (whole p) rest c ok m e =
      let c' : Conn = record c { source = rest } in
      let a = fragment-IsAllowed true type p m (inr refl) (omega arith) in
      let read = read_first-encode (client true type p) rest c refl a ok e in
      started (length c.source) type _ c c' _ m.data_type refl read
        (start_whole (length c.source) type p c' m.data_type ∙ finish-done type p c' m)
  read_message-source_of type (split first is last) rest c (ok1, (ok2, ok3)) m e =
      let tail = encode (client true 0 last) key ++ rest in
      let later = wire key is tail in
      let c' : Conn = record c { source = later } in
      let short = length-append first (joined is ++ last) in
      let a = fragment-IsAllowed false type first m (inr refl) (omega (arith, short)) in
      let read = read_first-encode (client false type first) later c refl a ok1 e in
      let size : length c.source ≡ length (encode (client false type first) key ++ later) =
        ap length e in
      let enough : length is < length c.source = omega (
        arith,
        size,
        length-append (encode (client false type first) key) later,
        encode-pos (client false type first) key,
        length-wire is tail,
      ) in
      started (length c.source) type _ c c' _ m.data_type refl read (
        start_split (length c.source) type first c' m.data_type
        ∙ read_fragments-wire (length c.source) type first last is rest c' enough ok2 ok3 m refl)
