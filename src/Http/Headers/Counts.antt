-- ===== src/Http/Headers/Counts.antt =====
-- How often each header occurs in the header block that the parser accepts.
use kruda.Base.{
  ℕ, zero, suc, ◌+◌, ◌≤◌, ◌<◌, ◌≡◌, refl, sym, inl, inr, arith, Bool, true, false, not, ◌||◌, List,
  [], ◌∷◌, Option, none, some, if◌then◌else◌, ◌==◌, Bytes, index_byte, length, take, drop, get_or,
  Bool-cases, Option-cases, length-drop,
}
use kruda.Http.Lexical.{
  HeaderKind, unknown, content_length, transfer_encoding, host, known_header, trim_http_spaces,
  btoi,
}
use kruda.Http.Headers.{
  Limits, Fields, ◌>>=◌, ◌>>◌, reject_if, set_field, is_known, strip_cr, parse_line, parse_lines,
}

-- What a header line's name stands for, and its value.
unfoldable pub value_of : Bytes → Bytes
value_of line = elim (index_byte line b':') [
  | none ↦ []
  | some i ↦ trim_http_spaces (drop (i + 1) line)
]

unfoldable pub kind_of : Bytes → HeaderKind
kind_of line = elim (index_byte line b':') [
  | none ↦ unknown
  | some i ↦
      if is_known (known_header (take i line))
      then known_header (take i line)
      else known_header (trim_http_spaces (take i line))
]

abbrev pub is_length : HeaderKind → Bool
is_length content_length = true
is_length _ = false

abbrev pub is_host : HeaderKind → Bool
is_host host = true
is_host _ = false

abbrev pub is_encoding : HeaderKind → Bool
is_encoding transfer_encoding = true
is_encoding _ = false

abbrev pub one : Bool → ℕ
one b = if b then 1 else 0

-- The lines in the order in which the loop takes them from the block.
unfoldable pub lines_of : ℕ → Bytes → List Bytes
lines_of zero w = []
lines_of (suc fuel) [] = []
lines_of (suc fuel) (c ∷ cs) = elim (index_byte (c ∷ cs) b'\n') [
  | none ↦ strip_cr (c ∷ cs) ∷ []
  | some zero ↦ [] ∷ lines_of fuel cs
  | some (suc nl) ↦ strip_cr (take (suc nl) (c ∷ cs)) ∷ lines_of fuel (drop (suc nl) cs)
]

abbrev pub count_kind : (HeaderKind → Bool) → List Bytes → ℕ
count_kind p [] = 0
count_kind p (l ∷ ls) = one (p (kind_of l)) + count_kind p ls

-- The number that the Content-Length lines leave, from `n` on.
abbrev pub declared : List Bytes → ℕ → ℕ
declared [] n = n
declared (l ∷ ls) n = declared ls (if is_length (kind_of l) then btoi (value_of l) else n)

-- One accepted line raises the flag of its kind, which was not raised before.
record Steps (kind : HeaderKind) (val : Bytes) (f f' : Fields) : Type 0 where
  length_step : one (is_length kind) + one f.length_seen ≡ one f'.length_seen
  host_step : one (is_host kind) + one f.host_seen ≡ one f'.host_seen
  encoding_step : f'.encoding_seen ≡ (f.encoding_seen || is_encoding kind)
  count_step : f'.header_count ≡ f.header_count
  value_step : f'.length_value ≡ (if is_length kind then btoi val else f.length_value)

set_field-Steps :
    (kind : HeaderKind) (unsafe_path : Bool) (key val : Bytes) (f f' : Fields)
    → set_field kind unsafe_path key val f ≡ some f'
    → Steps kind val f f'
unfolding set_field
set_field-Steps unknown unsafe_path key val f f' e = ground arith
set_field-Steps _ unsafe_path key val f f' e = ground arith

record LineSteps (limits : Limits) (line : Bytes) (f f' : Fields) : Type 0 where
  steps : Steps (kind_of line) (value_of line) f (record f' { header_count = f.header_count })
  counted : f'.header_count ≡ f.header_count + 1
  within_count : 0 < limits.max_header_count → f'.header_count ≤ limits.max_header_count
  within_size : 0 < limits.max_header_size → length line ≤ limits.max_header_size

set_field-LineSteps :
    (limits : Limits) (line : Bytes) (kind : HeaderKind) (unsafe_path : Bool) (key val : Bytes)
    (f f' : Fields)
    → kind_of line ≡ kind
    → value_of line ≡ val
    → set_field kind unsafe_path key val (record f { header_count = f.header_count + 1 }) ≡ some f'
    → (0 < limits.max_header_count → f.header_count + 1 ≤ limits.max_header_count)
    → (0 < limits.max_header_size → length line ≤ limits.max_header_size)
    → LineSteps limits line f f'
set_field-LineSteps limits line kind unsafe_path key val f f' same same_val set count size =
    let g : Fields = record f { header_count = f.header_count + 1 } in
    let s = set_field-Steps kind unsafe_path key val g f' set in
    record {
      steps =
          rw (same, same_val)
            (record {
              length_step = s.length_step;
              host_step = s.host_step;
              encoding_step = s.encoding_step;
              count_step = refl;
              value_step = s.value_step;
            });
      counted = s.count_step;
      within_count = rw s.count_step count;
      within_size = size;
    }

parse_line-LineSteps :
    (limits : Limits) (unsafe_path : Bool) (line : Bytes) (f f' : Fields)
    → parse_line limits unsafe_path line f ≡ some f'
    → LineSteps limits line f f'
unfolding parse_line kind_of value_of
parse_line-LineSteps limits unsafe_path line f f' e = elim (Option-cases (index_byte line b':')) [
  | inl missing ↦ absurd (ground arith)
  | inr (colon, found) ↦
      let key = take colon line in
      let val = trim_http_spaces (drop (colon + 1) line) in
      elim (Bool-cases (is_known (known_header key))) [
        | inl known ↦
            set_field-LineSteps limits line (known_header key) unsafe_path key val f f'
              (ground (arith, found, known)) (ground (arith, found)) (ground arith) (ground arith)
              (ground arith)
        | inr other ↦
            set_field-LineSteps limits line (known_header (trim_http_spaces key)) unsafe_path
              (trim_http_spaces key) val f f' (ground (arith, found, other)) (ground (arith, found))
              (ground arith) (ground arith) (ground arith)
      ]
]

-- What the loop says of the lines that it went through.
pub record BlockSteps (limits : Limits) (lines : List Bytes) (f f' : Fields) : Type 0 where
  pub lengths : count_kind is_length lines + one f.length_seen ≡ one f'.length_seen
  pub hosts : count_kind is_host lines + one f.host_seen ≡ one f'.host_seen
  pub encodings : f'.encoding_seen ≡ false → count_kind is_encoding lines ≡ 0
  pub encoding_kept : f'.encoding_seen ≡ false → f.encoding_seen ≡ false
  pub value : f'.length_value ≡ declared lines f.length_value
  pub counted : f'.header_count ≡ length lines + f.header_count
  pub within_count :
      f.header_count ≤ limits.max_header_count
      → 0 < limits.max_header_count
      → f'.header_count ≤ limits.max_header_count

BlockSteps-cons :
    {limits : Limits} {line : Bytes} {lines : List Bytes} {f g f' : Fields}
    → LineSteps limits line f g
    → BlockSteps limits lines g f'
    → BlockSteps limits (line ∷ lines) f f'
BlockSteps-cons l b = record {
  lengths = omega (arith, l.steps.length_step, b.lengths);
  hosts = omega (arith, l.steps.host_step, b.hosts);
  encodings = ground (arith, l.steps.encoding_step, b.encodings, b.encoding_kept);
  encoding_kept = ground (arith, l.steps.encoding_step, b.encoding_kept);
  value = rw (sym l.steps.value_step) b.value;
  counted = omega (arith, l.counted, b.counted);
  within_count = λ h p. b.within_count (l.within_count p) p;
}

BlockSteps-nil : (limits : Limits) (f : Fields) → BlockSteps limits [] f f
BlockSteps-nil limits f = record {
  lengths = omega arith;
  hosts = omega arith;
  encodings = λ _. refl;
  encoding_kept = λ e. e;
  value = refl;
  counted = omega arith;
  within_count = λ h _. h;
}

-- One line, then the lines of the rest.
BlockSteps-line :
    {limits : Limits} {lines : List Bytes} {f' : Fields} (unsafe_path : Bool) (line : Bytes)
    (f : Fields) (rest : Fields → Option Fields)
    → (parse_line limits unsafe_path line f >>= rest) ≡ some f'
    → ((g : Fields) → rest g ≡ some f' → BlockSteps limits lines g f')
    → BlockSteps limits (line ∷ lines) f f'
BlockSteps-line {limits} {f' = f'} unsafe_path line f rest e later =
    elim (Option-cases (parse_line limits unsafe_path line f)) [
      | inl bad ↦ absurd (ground arith)
      | inr (g, read) ↦
          BlockSteps-cons (parse_line-LineSteps limits unsafe_path line f g read)
            (later g (ground arith))
    ]

pub reject_if-eq-some :
    {A : Type 0} (b : Bool) (k : Option A) {a : A} → (reject_if b >> k) ≡ some a → k ≡ some a
reject_if-eq-some true k e = cc
reject_if-eq-some false k e = e

pub parse_lines-BlockSteps :
    (fuel : ℕ) (limits : Limits) (unsafe_path : Bool) (prev : ℕ) (window : Bytes) (f f' : Fields)
    → length window ≤ fuel
    → parse_lines fuel limits unsafe_path prev window f ≡ some f'
    → BlockSteps limits (lines_of fuel window) f f'
unfolding parse_lines lines_of
parse_lines-BlockSteps zero limits unsafe_path prev window f f' h e =
    let same : f ≡ f' = ground arith in rw same (BlockSteps-nil limits f')
parse_lines-BlockSteps (suc fuel) limits unsafe_path prev [] f f' h e =
    let same : f ≡ f' = ground arith in rw same (BlockSteps-nil limits f')
parse_lines-BlockSteps (suc fuel) limits unsafe_path prev (c ∷ cs) f f' h e =
    elim (Option-cases (index_byte (c ∷ cs) b'\n')) [
      | inl missing ↦
          let read : parse_line limits unsafe_path (strip_cr (c ∷ cs)) f ≡ some f' = ground arith in
          rw (missing, lines_of)
            (BlockSteps-cons (parse_line-LineSteps limits unsafe_path _ f f' read)
              (BlockSteps-nil limits f'))
      | inr (zero, found) ↦
          let read = reject_if-eq-some (not (prev == b'\r')) _ (rw (found, parse_lines) at e) in
          rw (found, lines_of)
            (BlockSteps-line unsafe_path [] f (parse_lines fuel limits unsafe_path b'\n' cs) read
              λ g later.
                parse_lines-BlockSteps fuel limits unsafe_path b'\n' cs g f' (omega arith) later)
      | inr (suc nl, found) ↦
          let line = strip_cr (take (suc nl) (c ∷ cs)) in
          let rest = drop (suc nl) cs in
          let read =
            reject_if-eq-some (not (get_or (c ∷ cs) nl 0 == b'\r')) _
              (rw (found, parse_lines) at e) in
          rw (found, lines_of)
            (BlockSteps-line unsafe_path line f (parse_lines fuel limits unsafe_path b'\n' rest)
              read
              λ g later.
                parse_lines-BlockSteps fuel limits unsafe_path b'\n' rest g f'
                  (omega (arith, length-drop (suc nl) cs)) later)
    ]
