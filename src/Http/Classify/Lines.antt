-- ===== src/Http/Classify/Lines.antt =====
-- wing_http.go: a header block that the parser accepts goes through the loop of `classifyIncomplete`
-- with the same fields seen.
use kruda.Base.{
  ℕ, zero, suc, ◌+◌, ◌≤◌, ◌≡◌, refl, ap, ◌∙◌, sym, arith, Bool, true, false, not, ◌&&◌, Option,
  some, List, [], ◌∷◌, if◌then◌else◌, ltb, ◌==◌, Bytes, codes, index_byte, length, take, drop,
  length-drop, Option-cases, Bool-cases, inl, inr, get_or,
}
use kruda.Http.Lexical.{
  HeaderKind, content_length, transfer_encoding, host, known_header, contains_byte,
  ascii_equal_fold, is_all_digits, trim_http_spaces, trim_front, trim_back, max_content_length,
  has_invalid_header_value_byte, is_valid_token_name, btoi,
}
use kruda.Http.Lexical.Decimal.{decimal_from, btoi-decimal_from}
use kruda.Http.Headers.{
  Limits, Fields, set_field, strip_cr, starts_with_space, ends_with_space, parse_line, parse_lines,
}
use kruda.Http.Headers.Counts.{
  reject_if-eq-some, BlockSteps, parse_lines-BlockSteps, count_kind, declared, is_length, kind_of,
}
use kruda.Http.Request.Stages.{>>=-eq-some}
use kruda.Http.Classify.{
  Seen, Status, Step, go_on, ◌>>=◌, ◌>>◌, stop_if, found, see_field, see_line, see_lines,
}

-- The parser's loop has seen what the classifier's loop has.
pub record SameFields (f : Fields) (s : Seen) : Type 0 where
  pub same_encoding : s.has_te ≡ f.encoding_seen
  pub same_length : s.has_cl ≡ f.length_seen
  pub same_host : s.host_seen ≡ f.host_seen
  pub same_value : s.cl ≡ f.length_value

expecting :
    {f : Fields} {s : Seen} (b : Bool)
    → SameFields f s
    → SameFields f (if b then record s { expect_continue = true } else s)
expecting true r = record {
  same_encoding = r.same_encoding;
  same_length = r.same_length;
  same_host = r.same_host;
  same_value = r.same_value;
}
expecting false r = r

pub stop_if-false :
    {A : Type 0} {b : Bool} → b ≡ false → (why : Status) (k : Step A) → (stop_if b why >> k) ≡ k
stop_if-false {b = true} e why k = absurd (ground arith)
stop_if-false {b = false} e why k = refl

pub found-some :
    {A B : Type 0} {o : Option A} {a : A} → o ≡ some a → (k : A → Step B) → (found o >>= k) ≡ k a
found-some e k = rw e refl

-- What `strconv.Atoi` does on digits that spell no more than the largest content length.
abbrev pub ReadsDigits : (Bytes → Option ℕ) → Type 0
ReadsDigits atoi =
    (b : Bytes)
    → is_all_digits b ≡ true
    → decimal_from 0 b ≤ max_content_length
    → atoi b ≡ some (decimal_from 0 b)

trim_front-id : (b : Bytes) → starts_with_space b ≡ false → trim_front b ≡ b
unfolding trim_front
trim_front-id [] h = refl
trim_front-id (c ∷ cs) h = ground arith

trim_back-id : (b : Bytes) → ends_with_space b ≡ false → trim_back b ≡ b
unfolding trim_back
trim_back-id [] h = refl
trim_back-id (c ∷ []) h = ground arith
trim_back-id (c ∷ d ∷ cs) h = rw (trim_back-id (d ∷ cs) h)

trim_http_spaces-id :
    (b : Bytes) → starts_with_space b ≡ false → ends_with_space b ≡ false → trim_http_spaces b ≡ b
unfolding trim_http_spaces
trim_http_spaces-id b h g = rw (trim_front-id b h, trim_back-id b g)

starts_with_space-take :
    (n : ℕ) (b : Bytes) → starts_with_space b ≡ false → starts_with_space (take n b) ≡ false
starts_with_space-take zero b h = refl
starts_with_space-take (suc n) [] h = refl
starts_with_space-take (suc n) (c ∷ cs) h = h

-- A line that the parser takes has a name.
named_of_line :
    (limits : Limits) (unsafe_path : Bool) (line : Bytes) (f g : Fields) (colon : ℕ)
    → index_byte line b':' ≡ some colon
    → parse_line limits unsafe_path line f ≡ some g
    → (colon == 0) ≡ false
unfolding parse_line known_header trim_http_spaces trim_front trim_back is_valid_token_name
named_of_line limits unsafe_path line f g zero sep e = absurd (ground (arith, sep))
named_of_line limits unsafe_path line f g (suc colon) sep e = ground arith

-- A content length that was seen does not change any more.
pub declared-none :
    (lines : List Bytes) (n : ℕ) → count_kind is_length lines ≡ 0 → declared lines n ≡ n
declared-none [] n h = refl
declared-none (l ∷ ls) n h = elim (Bool-cases (is_length (kind_of l))) [
  | inl here ↦ absurd (ground arith)
  | inr other ↦ rw other (declared-none ls n (ground arith))
]

length_kept :
    {limits : Limits} {lines : List Bytes} {g f' : Fields}
    → BlockSteps limits lines g f'
    → (f'.length_seen ≡ true → f'.length_value ≤ max_content_length)
    → g.length_seen ≡ true
    → g.length_value ≤ max_content_length
length_kept {lines = lines} {g} {f'} b h seen =
    let none_left : count_kind is_length lines ≡ 0 = ground (arith, b.lengths) in
    let still : f'.length_seen ≡ true = ground (arith, b.lengths) in
    omega (arith, h still, b.value, declared-none lines g.length_value none_left)

module _ (atoi : Bytes → Option ℕ) (reads : ReadsDigits atoi) where
  -- A field that the parser takes is one that the classifier takes.
  see_field-SameFields :
      (kind : HeaderKind) (unsafe_path : Bool) (name key val : Bytes) (f g : Fields) (s : Seen)
      → set_field kind unsafe_path key val f ≡ some g
      → (g.length_seen ≡ true → g.length_value ≤ max_content_length)
      → SameFields f s
      → (s' : Seen) × (see_field atoi kind name val s ≡ go_on s') × SameFields g s'
  unfolding set_field see_field
  see_field-SameFields content_length unsafe_path name key val f g s e h r =
      let digits : is_all_digits val ≡ true = ground arith in
      let value : g.length_value ≡ btoi val = ground arith in
      let small : btoi val ≤ max_content_length = ground (arith, value, h) in
      let n = decimal_from 0 val in
      let same : btoi val ≡ n = omega (arith, btoi-decimal_from val digits, small) in
      let read = reads val digits (omega (arith, same, small)) in
      (
        record s { has_cl = true; cl = n },
        ground (arith, read, r.same_length),
        record {
          same_encoding = ground (arith, r.same_encoding);
          same_length = ground arith;
          same_host = ground (arith, r.same_host);
          same_value = ground (arith, same, value);
        },
      )
  see_field-SameFields transfer_encoding unsafe_path name key val f g s e h r = (
    record s { has_te = true },
    refl,
    record {
      same_encoding = ground arith;
      same_length = ground (arith, r.same_length);
      same_host = ground (arith, r.same_host);
      same_value = ground (arith, r.same_value);
    },
  )
  see_field-SameFields host unsafe_path name key val f g s e h r = (
    record s { host_seen = true },
    ground (arith, r.same_host),
    record {
      same_encoding = ground (arith, r.same_encoding);
      same_length = ground (arith, r.same_length);
      same_host = ground arith;
      same_value = ground (arith, r.same_value);
    },
  )
  see_field-SameFields _ unsafe_path name key val f g s e h r =
      let expects =
        ascii_equal_fold name (codes "expect") && ascii_equal_fold val (codes "100-continue") in
      (
        if expects then record s { expect_continue = true } else s,
        refl,
        expecting expects (record {
          same_encoding = ground (arith, r.same_encoding);
          same_length = ground (arith, r.same_length);
          same_host = ground (arith, r.same_host);
          same_value = ground (arith, r.same_value);
        }),
      )

  -- What the classifier does with a line that passes its tests.
  see_line-see_field :
      (limits : Limits) (line : Bytes) (s : Seen) (colon : ℕ)
      → starts_with_space line ≡ false
      → (ltb 0 limits.max_header_size && ltb limits.max_header_size (length line)) ≡ false
      → index_byte line b':' ≡ some colon
      → (colon == 0) ≡ false
      → ends_with_space (take colon line) ≡ false
      → trim_http_spaces (take colon line) ≡ take colon line
      → has_invalid_header_value_byte (trim_http_spaces (drop (colon + 1) line)) ≡ false
      → see_line atoi limits line s
        ≡ see_field atoi
            (known_header (take colon line))
            (take colon line)
            (trim_http_spaces (drop (colon + 1) line))
            s
  unfolding see_line
  see_line-see_field limits line s colon clear size sep named closed name valid =
      stop_if-false clear _ _
      ∙ stop_if-false size _ _
      ∙ found-some sep _
      ∙ stop_if-false named _ _
      ∙ stop_if-false closed _ _
      ∙ stop_if-false valid _ _
      ∙ ap
          (λ key.
            see_field atoi (known_header key) key (trim_http_spaces (drop (colon + 1) line)) s)
          name

  -- A header line that the parser takes is one that the classifier takes.
  see_line-SameFields :
      (limits : Limits) (unsafe_path : Bool) (line : Bytes) (f g : Fields) (s : Seen)
      → parse_line limits unsafe_path line f ≡ some g
      → (g.length_seen ≡ true → g.length_value ≤ max_content_length)
      → SameFields f s
      → (s' : Seen) × (see_line atoi limits line s ≡ go_on s') × SameFields g s'
  unfolding parse_line see_line
  see_line-SameFields limits unsafe_path line f g s e h r =
      elim (Option-cases (index_byte line b':')) [
        | inl missing ↦ absurd (ground arith)
        | inr (colon, sep) ↦
            let key = take colon line in
            let val = trim_http_spaces (drop (colon + 1) line) in
            let f' : Fields = record f { header_count = f.header_count + 1 } in
            let clear : starts_with_space line ≡ false = ground arith in
            let closed : ends_with_space key ≡ false = ground (arith, sep) in
            let name : trim_http_spaces key ≡ key =
              trim_http_spaces-id key (starts_with_space-take colon line clear) closed in
            let size : (ltb 0 limits.max_header_size && ltb limits.max_header_size (length line))
                ≡ false =
              ground (arith, sep) in
            let invalid : has_invalid_header_value_byte val ≡ false = ground (arith, sep) in
            let set : set_field (known_header key) unsafe_path key val f' ≡ some g =
              ground (arith, sep, name) in
            let named : (colon == 0) ≡ false =
              named_of_line limits unsafe_path line f g colon sep e in
            let (s', seen, same) =
              see_field-SameFields (known_header key) unsafe_path key key val f' g s set h (record {
                same_encoding = r.same_encoding;
                same_length = r.same_length;
                same_host = r.same_host;
                same_value = r.same_value;
              }) in
            (
              s',
              ◌∙◌ {c = go_on s'}
                  (see_line-see_field limits line s colon clear size sep named closed name invalid)
                  seen,
              same,
            )
      ]

  -- A line, then the rest of the block.
  line-SameFields :
      {limits : Limits} {lines : List Bytes} {f g f' : Fields} (unsafe_path : Bool) (line : Bytes)
      (s : Seen) (next : Seen → Step Seen)
      → parse_line limits unsafe_path line f ≡ some g
      → BlockSteps limits lines g f'
      → (f'.length_seen ≡ true → f'.length_value ≤ max_content_length)
      → SameFields f s
      → ((t : Seen) → SameFields g t → (s' : Seen) × (next t ≡ go_on s') × SameFields f' s')
      → (s' : Seen) × ((see_line atoi limits line s >>= next) ≡ go_on s') × SameFields f' s'
  line-SameFields {limits} {f = f} {g} unsafe_path line s next read steps h r later =
      let (t, seen, same) =
        see_line-SameFields limits unsafe_path line f g s read (length_kept steps h) r in
      let (s', seen', same') = later t same in (s', rw seen seen', same')

  -- A block of header lines that the parser takes goes through the classifier's loop.
  pub see_lines-SameFields :
      (fuel : ℕ) (limits : Limits) (unsafe_path : Bool) (prev : ℕ) (window : Bytes) (f f' : Fields)
      (s : Seen)
      → length window ≤ fuel
      → parse_lines fuel limits unsafe_path prev window f ≡ some f'
      → (f'.length_seen ≡ true → f'.length_value ≤ max_content_length)
      → SameFields f s
      → (s' : Seen) × (see_lines atoi fuel limits window s ≡ go_on s') × SameFields f' s'
  unfolding parse_lines see_lines strip_cr
  see_lines-SameFields zero limits unsafe_path prev window f f' s l e h r =
      let same : f ≡ f' = ground arith in (s, refl, rw (sym same) r)
  see_lines-SameFields (suc fuel) limits unsafe_path prev [] f f' s l e h r =
      let same : f ≡ f' = ground arith in (s, refl, rw (sym same) r)
  see_lines-SameFields (suc fuel) limits unsafe_path prev (c ∷ cs) f f' s l e h r =
      elim (Option-cases (index_byte (c ∷ cs) b'\n')) [
        | inl missing ↦
            let clear : contains_byte (c ∷ cs) b'\r' ≡ false = ground (arith, missing) in
            let read : parse_line limits unsafe_path (strip_cr (c ∷ cs)) f ≡ some f' =
              ground (arith, missing) in
            let (s', seen, same) =
              see_line-SameFields limits unsafe_path (strip_cr (c ∷ cs)) f f' s read h r in
            (s', rw (missing, see_lines) (stop_if-false clear _ _ ∙ seen), same)
        | inr (zero, at_nl) ↦
            let read = reject_if-eq-some (not (prev == b'\r')) _ (rw (at_nl, parse_lines) at e) in
            let (g, one_line, later) = >>=-eq-some (parse_line limits unsafe_path [] f) _ read in
            rw (at_nl, see_lines)
              (line-SameFields unsafe_path [] s (see_lines atoi fuel limits cs) one_line
                (parse_lines-BlockSteps fuel limits unsafe_path b'\n' cs g f' (omega arith) later) h
                r
                λ t same.
                  see_lines-SameFields fuel limits unsafe_path b'\n' cs g f' t (omega arith) later h
                    same)
        | inr (suc nl, at_nl) ↦
            let line = strip_cr (take (suc nl) (c ∷ cs)) in
            let rest = drop (suc nl) cs in
            let short : length rest ≤ fuel = omega (arith, length-drop (suc nl) cs) in
            let read =
              reject_if-eq-some (not (get_or (c ∷ cs) nl 0 == b'\r')) _
                (rw (at_nl, parse_lines) at e) in
            let (g, one_line, later) = >>=-eq-some (parse_line limits unsafe_path line f) _ read in
            rw (at_nl, see_lines)
              (line-SameFields unsafe_path line s (see_lines atoi fuel limits rest) one_line
                (parse_lines-BlockSteps fuel limits unsafe_path b'\n' rest g f' short later) h r
                λ t same.
                  see_lines-SameFields fuel limits unsafe_path b'\n' rest g f' t short later h same)
      ]
