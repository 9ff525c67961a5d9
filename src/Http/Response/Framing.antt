-- ===== src/Http/Response/Framing.antt =====
-- wing_http.go: what a client reads of a response of the generic path.
use kruda.Base.{
  ℕ, ◌≡◌, ◌∙◌, refl, ap, true, false, List, [], ◌∷◌, ◌++◌, append_assoc, append-nil, map, ltb,
  Bytes, codes, All, length, none, some,
}
use kruda.Http.Lexical.{every, is_digit}
use kruda.Http.Lexical.Decimal.{decimal_from}
use kruda.Http.HeaderMap.{WingHeader}
use kruda.Http.HeaderMap.Laws.{entries}
use kruda.Http.Response.{WingResponse}
use kruda.Http.Response.Serial.{
  crlf, itoa, status_line, header_lines, has_content_length, append_content_length_value,
  build_zero_copy,
}
use kruda.Http.Response.Digits.{decimal_from-itoa, every-itoa, append_content_length_value_lem}
use kruda.Http.Response.Lines.{
  after_head, no_cr, IsLine, IsEnded, join_lines, join_lines-append, after_head-join_lines,
  header_line, header_lines-join_lines, header_line-IsLine, no_cr-itoa, status_line-IsEnded,
}

-- A response of the generic path whose headers have no carriage return and no Content-Length, and a
-- chunk with the date that is one line.
pub record IsGeneric (date : Bytes) (r : WingResponse) : Type 0 where
  pub not_static : r.static_resp ≡ none
  pub no_file : ltb 0 r.file_fd ≡ false
  pub no_string : r.string_fast ≡ false
  pub no_json : r.json_fast ≡ false
  pub no_length_slots : has_content_length r.headers.slots ≡ false
  pub no_length_extra : has_content_length r.headers.extra ≡ false
  pub clean : All (λ h. (no_cr h.key ≡ true) × (no_cr h.val ≡ true)) (entries r.headers)
  pub date_line : IsEnded date

-- The lines before the blank one are the status, the date, the headers in their order and the length of
-- the body in digits; what follows the first blank line is the body.
pub record IsFramed (date : Bytes) (r : WingResponse) (out : Bytes) : Type 0 where
  pub status : Bytes
  pub date_text : Bytes
  pub digits : Bytes
  pub status_ended : status_line r.status ≡ status ++ crlf
  pub date_ended : date ≡ date_text ++ crlf
  pub lines :
      out
      ≡ join_lines (
          status ∷ date_text ∷ map header_line (entries r.headers)
          ++ (codes "Content-Length: " ++ digits) ∷ [])
        ++ (crlf ++ r.body)
  pub digits_only : every is_digit digits ≡ true
  pub digits_spell : decimal_from 0 digits ≡ length r.body
  pub body_last : after_head out ≡ some r.body

header_lines-append :
    (hs gs : List WingHeader) → header_lines (hs ++ gs) ≡ header_lines hs ++ header_lines gs
unfolding header_lines
header_lines-append [] gs = refl
header_lines-append (h ∷ hs) gs = simp (header_lines-append hs gs, append_assoc)

headers-IsLine :
    (hs : List WingHeader) (last : Bytes)
    → All (λ h. (no_cr h.key ≡ true) × (no_cr h.val ≡ true)) hs
    → IsLine last
    → All IsLine (map header_line hs ++ last ∷ [])
headers-IsLine [] last h l = (l, tt)
headers-IsLine (g ∷ gs) last h l = (header_line-IsLine g h.0.0 h.0.1, headers-IsLine gs last h.1 l)

-- The pieces of a response, put together otherwise.
with_length :
    (line date slots extra body : Bytes) (n : ℕ)
    → append_content_length_value (line ++ date ++ slots ++ extra ++ codes "Content-Length: ") n
        ++ crlf
        ++ crlf
        ++ body
      ≡ (line ++ date ++ (slots ++ extra))
        ++ (codes "Content-Length: " ++ itoa n ++ crlf)
        ++ (crlf ++ body)
with_length line date slots extra body n = simp (append_content_length_value_lem, append_assoc)

as_lines :
    (line date status date_text last body : Bytes) (hs : List WingHeader)
    → line ≡ status ++ crlf
    → date ≡ date_text ++ crlf
    → (line ++ date ++ header_lines hs) ++ (last ++ crlf) ++ (crlf ++ body)
      ≡ join_lines (status ∷ date_text ∷ map header_line hs ++ last ∷ []) ++ (crlf ++ body)
as_lines line date status date_text last body hs e d =
    rw (e, d) (simp (header_lines-join_lines, join_lines-append, append_assoc, append-nil))

build_zero_copy-append_to :
    (date : Bytes) (r : WingResponse)
    → IsGeneric date r
    → build_zero_copy date r
      ≡ (status_line r.status ++ date ++ header_lines (entries r.headers))
        ++ (codes "Content-Length: " ++ itoa (length r.body) ++ crlf)
        ++ (crlf ++ r.body)
unfolding build_zero_copy
build_zero_copy-append_to date r g =
    rw
      (
        g.not_static,
        g.no_file,
        g.no_string,
        g.no_json,
        g.no_length_slots,
        g.no_length_extra,
        header_lines-append r.headers.slots r.headers.extra,
      )
      (with_length (status_line r.status) date (header_lines r.headers.slots)
        (header_lines r.headers.extra) r.body (length r.body))

module _ (date : Bytes) (r : WingResponse) (g : IsGeneric date r) where
  -- A response of the generic path whose headers have no carriage return and no Content-Length, sent
  -- with a date of one line, is a line for the status, the date, a line for each header in its order, the
  -- length of the body in digits that spell it, a blank line and the body; and the first blank line that
  -- a client finds is that one, so that what follows it is the body, whatever the headers and the body
  -- hold.
  pub build_zero_copy-IsFramed : IsFramed date r (build_zero_copy date r)
  build_zero_copy-IsFramed =
      let (status, (status_is_line, status_ended)) = status_line-IsEnded r.status in
      let (date_text, (date_is_line, date_ended)) = g.date_line in
      let last = codes "Content-Length: " ++ itoa (length r.body) in
      let headers = map header_line (entries r.headers) ++ last ∷ [] in
      let written : build_zero_copy date r
          ≡ join_lines (status ∷ date_text ∷ headers) ++ (crlf ++ r.body) =
        build_zero_copy-append_to date r g
        ∙ as_lines (status_line r.status) date status date_text last r.body (entries r.headers)
            status_ended date_ended in
      record {
        status = status;
        date_text = date_text;
        digits = itoa (length r.body);
        status_ended = status_ended;
        date_ended = date_ended;
        lines = written;
        digits_only = every-itoa (length r.body);
        digits_spell = decimal_from-itoa (length r.body);
        body_last =
            ap after_head written
            ∙ after_head-join_lines status (date_text ∷ headers) r.body status_is_line (
              date_is_line,
              headers-IsLine (entries r.headers) last g.clean (no_cr-itoa (length r.body)),
            );
      }
