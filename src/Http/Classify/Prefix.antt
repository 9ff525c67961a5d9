-- ===== src/Http/Classify/Prefix.antt =====
-- wing_http.go: what `classifyIncomplete` says of the beginning of a request.
use kruda.Base.{
  ℕ, zero, suc, ◌+◌, ◌≤◌, ◌<◌, ◌≡◌, ◌⊎◌, ◌∙◌, refl, arith, Bool, true, false, Option, some, [], ◌∷◌,
  ◌++◌, ◌==◌, Bytes, index_byte, index_byte-append, index_byte-lt, has_prefix, length, length-take,
  length-drop, take, drop, take-append-drop, take_of_append, drop_of_append, append_assoc,
  Option-cases, Bool-cases, inl, inr,
}
use kruda.Http.Lexical.{max_content_length}
use kruda.Http.Headers as H
use kruda.Http.Headers.{Limits, Fields, no_fields, strip_cr}
use kruda.Http.Headers.Counts.{parse_lines-BlockSteps, lines_of, count_kind, is_length}
use kruda.Http.Request.{
  Request, RequestLine, skip_crlf, header_end, parse_request_line, parse_http_request_internal,
  parse_at,
}
use kruda.Http.Request.Stages.{Stages, parse_at-Stages, Finished, finish_request-Finished}
use kruda.Http.Request.Framing.{header_end-le, skip_crlf-le}
use kruda.Http.Request.Pipeline.{header_end-append, skip_crlf-append}
use kruda.Http.Classify.{
  need_header_more, need_body, Seen, nothing_seen, Step, go_on, ◌>>=◌, version_of, conclude,
  see_header, classify_incomplete,
}
use kruda.Http.Classify.Lines.{
  SameFields, ReadsDigits, see_lines-SameFields, declared-none, found-some, stop_if-false,
}

header_end-tail :
    (c : ℕ) (cs : Bytes) (end : ℕ) → header_end (c ∷ cs) ≡ some (suc end) → header_end cs ≡ some end
unfolding header_end
header_end-tail c cs end e = elim (Option-cases (header_end cs)) [
  | inl missing ↦ absurd (ground (arith, missing))
  | inr (later, there) ↦ ground (arith, there)
]

line_feed_there :
    (bytes : Bytes) (end : ℕ)
    → header_end bytes ≡ some end
    → (i : ℕ) × (index_byte (take (suc (suc end)) bytes) b'\n' ≡ some i)
unfolding header_end has_prefix index_byte
line_feed_there [] end e = absurd (ground arith)
line_feed_there (c ∷ []) zero e = absurd (ground arith)
line_feed_there (c ∷ d ∷ ds) zero e = elim (Option-cases (header_end (d ∷ ds))) [
  | inl missing ↦ (1, ground (arith, missing))
  | inr (later, there) ↦ (1, ground (arith, there))
]
line_feed_there (c ∷ cs) (suc end) e =
    let (i, there) = line_feed_there cs end (header_end-tail c cs end e) in
    elim (Bool-cases (c == b'\n')) [
      | inl here ↦ (0, ground (arith, here))
      | inr other ↦ (suc i, ground (arith, other, there))
    ]

-- The request line gives the classifier the version that it gives the parser.
version_of-line :
    (bytes : Bytes) (line : RequestLine)
    → parse_request_line bytes ≡ some line
    → version_of bytes ≡ go_on line.version
unfolding parse_request_line version_of
version_of-line bytes line e = elim (Option-cases (index_byte bytes b' ')) [
  | inl missing ↦ absurd (ground arith)
  | inr (sp1, first) ↦ elim (Option-cases (index_byte (drop (sp1 + 1) bytes) b' ')) [
    | inl missing ↦ absurd (ground arith)
    | inr (sp2, second) ↦ ground (arith, first, second)
  ]
]

-- The length that an accepted request still needs is one that the classifier asks for.
conclude-need_body :
    (limits : Limits) (line : RequestLine) (f : Fields) (s : Seen) (bytes : Bytes) (start : ℕ)
    (r : Request) (used : ℕ)
    → Finished limits line f bytes start r used
    → SameFields f s
    → f.length_seen ≡ true
    → 0 < f.length_value
    → conclude limits line.version s ≡ (need_body, (r.fields.length_value, s.expect_continue))
unfolding conclude
conclude-need_body limits line f s bytes start r used e same seen some_body = ground (
  arith, e.same_fields, e.host_given, e.not_encoded, e.body_bounded, same.same_encoding,
  same.same_length, same.same_host, same.same_value,
)

line_not_empty :
    (bytes : Bytes) (i : ℕ) (line : RequestLine)
    → parse_request_line (strip_cr (take i bytes)) ≡ some line
    → (i == 0) ≡ false
unfolding parse_request_line strip_cr index_byte
line_not_empty bytes zero line e = absurd (ground arith)
line_not_empty bytes (suc i) line e = ground arith

-- The values of the parser's stages that the header in `bytes` alone decides.
record Header (limits : Limits) (unsafe_path : Bool) (bytes : Bytes) (end i : ℕ)
    (line : RequestLine) (f : Fields) : Type 0 where
  line_there : index_byte (take (end + 2) bytes) b'\n' ≡ some i
  read_line : parse_request_line (strip_cr (take i bytes)) ≡ some line
  read_fields :
      H.parse_lines
        (length (drop (i + 1) (take end bytes)))
        limits
        unsafe_path
        b'\n'
        (drop (i + 1) (take end bytes))
        no_fields
      ≡ some f

Stages-Header :
    {limits : Limits} {unsafe_path : Bool} (bytes more : Bytes) {r : Request} {used : ℕ} (end : ℕ)
    → header_end bytes ≡ some end
    → (s : Stages limits unsafe_path (bytes ++ more) r used)
    → (s.end ≡ end) × ((i : ℕ) × Header limits unsafe_path bytes end i s.line s.fields)
Stages-Header {limits} {unsafe_path} bytes more end h s =
    let all : Bytes = bytes ++ more in
    let same_end : s.end ≡ end = ground (arith, header_end-append bytes more end h, s.found_end) in
    let (i, feed) = line_feed_there bytes end h in
    let two : suc (suc end) ≡ end + 2 = omega arith in
    let there : index_byte (take (end + 2) bytes) b'\n' ≡ some i = rw two at feed in
    let long = header_end-le bytes end h in
    let before : i < length bytes =
      omega
        (arith, index_byte-lt (take (end + 2) bytes) b'\n' i there, length-take (end + 2) bytes) in
    let whole : take (end + 2) bytes ++ (drop (end + 2) bytes ++ more) ≡ all = rw (
      ← append_assoc (take (end + 2) bytes) (drop (end + 2) bytes) more,
      take-append-drop (end + 2) bytes,
    ) in
    let in_all : index_byte all b'\n' ≡ some i =
      (let found =
          index_byte-append (take (end + 2) bytes) (drop (end + 2) bytes ++ more) b'\n' i there in
        rw whole at found) in
    let same_line : s.line_end ≡ i = ground (arith, in_all, s.found_line) in
    let cut_line : take i all ≡ take i bytes =
      take_of_append i bytes more (omega (arith, before)) in
    let cut_header : take end all ≡ take end bytes =
      take_of_append end bytes more (omega (arith, long)) in
    (
      same_end,
      (
        i,
        record {
          line_there = there;
          read_line = rw (same_line, cut_line) at s.read_line;
          read_fields = rw (same_line, same_end, cut_header) at s.read_fields;
        },
      ),
    )

-- A length that is not 0 was seen.
length_seen_of_value :
    {limits : Limits} {unsafe_path : Bool} {bytes : Bytes} {end i : ℕ} {line : RequestLine}
    {f : Fields}
    → Header limits unsafe_path bytes end i line f
    → 0 < f.length_value
    → f.length_seen ≡ true
length_seen_of_value {limits} {unsafe_path} {bytes} {end} {i} {f = f} h some_body =
    let window = drop (i + 1) (take end bytes) in
    let lines = lines_of (length window) window in
    let b =
      parse_lines-BlockSteps (length window) limits unsafe_path b'\n' window no_fields f
        (omega arith) h.read_fields in
    elim (Bool-cases f.length_seen) [
      | inl seen ↦ seen
      | inr unseen ↦
          let none_there : count_kind is_length lines ≡ 0 = ground (arith, b.lengths, unseen) in
          absurd (omega (arith, b.value, declared-none lines 0 none_there, some_body))
    ]

go_on-eq : {A B : Type 0} {m : Step A} {a : A} → m ≡ go_on a → (k : A → Step B) → (m >>= k) ≡ k a
go_on-eq e k = rw e refl

-- The parser on the whole request, from the bytes behind the empty lines on.
parse_from_rest :
    (limits : Limits) (unsafe_path : Bool) (input more : Bytes) (r : Request) (consumed : ℕ)
    → parse_http_request_internal limits unsafe_path (input ++ more) ≡ some (r, consumed)
    → 2 ≤ length (drop (skip_crlf input) input)
    → (used : ℕ) × (consumed ≡ skip_crlf input + used)
      × (parse_at limits unsafe_path (drop (skip_crlf input) input ++ more) ≡ some (r, used))
unfolding parse_http_request_internal
parse_from_rest limits unsafe_path input more r consumed e long =
    let rest = drop (skip_crlf input) input in
    let same = skip_crlf-append input more long in
    let cut = drop_of_append (skip_crlf input) input more (skip_crlf-le input) in
    let e1 = rw (same, cut) at e in
    elim (Option-cases (parse_at limits unsafe_path (rest ++ more))) [
      | inl refused ↦ absurd (ground (arith, e1, refused))
      | inr ((r', used), read) ↦ (used, ground (arith, e1, read), ground (arith, e1, read))
    ]

module _ (atoi : Bytes → Option ℕ) (reads : ReadsDigits atoi) where
  see_header-SameFields :
      (limits : Limits) (unsafe_path : Bool) (bytes : Bytes) (end i : ℕ) (line : RequestLine)
      (f : Fields)
      → Header limits unsafe_path bytes end i line f
      → f.length_value ≤ max_content_length
      → (s : Seen) × (see_header atoi limits bytes end ≡ go_on (line.version, s)) × SameFields f s
  unfolding see_header
  see_header-SameFields limits unsafe_path bytes end i line f h small =
      let window = drop (i + 1) (take end bytes) in
      let (s, seen, same) =
        see_lines-SameFields atoi reads (length window) limits unsafe_path b'\n' window no_fields f
          nothing_seen (omega arith) h.read_fields (λ _. small)
          (record {
            same_encoding = refl;
            same_length = refl;
            same_host = refl;
            same_value = refl;
          }) in
      (
        s,
        found-some h.line_there _
            ∙ stop_if-false (line_not_empty bytes i line h.read_line) _ _
            ∙ go_on-eq (version_of-line (strip_cr (take i bytes)) line h.read_line) _
            ∙ go_on-eq seen _,
        same,
      )

  -- Of the bytes with which a request begins that the parser accepts as a whole, fewer than the request
  -- has, `classifyIncomplete` says that more of the header is needed, or that a body of the request's
  -- content length is: it refuses none of them. It relies on `strconv.Atoi` to read digits that spell no
  -- more than the largest content length.
  pub classify_incomplete-prefix :
      (limits : Limits) (unsafe_path : Bool) (input more : Bytes) (r : Request) (consumed : ℕ)
      → parse_http_request_internal limits unsafe_path (input ++ more) ≡ some (r, consumed)
      → length input < consumed
      → (classify_incomplete atoi limits input ≡ (need_header_more, (0, false)))
        ⊎ ((expects : Bool) × (classify_incomplete atoi limits input
              ≡ (need_body, (r.fields.length_value, expects))))
  unfolding classify_incomplete
  classify_incomplete-prefix limits unsafe_path input more r consumed e short =
      let rest = drop (skip_crlf input) input in
      elim (Option-cases (header_end rest)) [
        | inl missing ↦ inl (rw (missing, classify_incomplete) refl)
        | inr (end, there) ↦
            let long = header_end-le rest end there in
            let (used, total, read) =
              parse_from_rest limits unsafe_path input more r consumed e (omega (arith, long)) in
            let s = parse_at-Stages limits unsafe_path (rest ++ more) r used read in
            let (same_end, (i, h)) = Stages-Header rest more end there s in
            let f =
              finish_request-Finished limits unsafe_path s.line s.fields (rest ++ more) (s.end + 4)
                r used s.finished in
            let some_body : 0 < s.fields.length_value = omega (
              arith,
              f.used_up,
              total,
              same_end,
              long,
              length-drop (skip_crlf input) input,
              skip_crlf-le input,
            ) in
            let (t, seen, same) =
              see_header-SameFields limits unsafe_path rest end i s.line s.fields h
                f.length_bounded in
            let given = length_seen_of_value h some_body in
            inr (
              t.expect_continue,
              rw (there, classify_incomplete, seen)
                  (conclude-need_body limits s.line s.fields t (rest ++ more) (s.end + 4) r used f
                    same given some_body),
            )
      ]
