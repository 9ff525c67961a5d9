-- ===== src/Http/Adapter.antt =====
-- wing_http.go: what a handler reads of a request: wingRequest.Header and QueryParam, and the interning
-- of the method. A header's name is ASCII.
pub mod Laws
pub mod Query
use kruda.Base.{
  ℕ, zero, suc, ◌+◌, ◌%◌, bit_xor, Bool, true, false, not, ◌&&◌, ◌||◌, List, [], ◌∷◌, map, Option,
  none, some, if◌then◌else◌, ◌==◌, Bytes, codes, ◌=ᵇ◌, index_byte, length, take, drop, is_empty,
}
use kruda.Http.Lexical.{lower, ascii_equal_fold}
use kruda.Http.Headers.{Fields}
use kruda.Http.Request.{Request}

unfoldable pub find_extra : Bytes → List (Bytes × Bytes) → Bytes
find_extra key [] = []
find_extra key ((k, v) ∷ hs) = if k =ᵇ key then v else find_extra key hs

-- With the request, in which a string that was read is no longer shared with the read buffer.
unfoldable pub header : Request → Bytes → Request × Bytes
unfolding find_extra
header r key =
    let f = r.fields in
    if key =ᵇ codes "Content-Type" || key =ᵇ codes "content-type"
    then (r, f.type_value)
    else if key =ᵇ codes "Cookie" || key =ᵇ codes "cookie"
    then (r, f.cookie_value)
    else if key =ᵇ codes "Host" || key =ᵇ codes "host"
    then (record r { fields = record f { host_unsafe = false } }, f.host_value)
    else if key =ᵇ codes "Accept" || key =ᵇ codes "accept"
    then (record r { fields = record f { accept_unsafe = false } }, f.accept_value)
    else if key =ᵇ codes "Connection" || key =ᵇ codes "connection"
    then (record r { fields = record f { connection_unsafe = false } }, f.connection_value)
    else if ascii_equal_fold key (codes "x-forwarded-for")
    then (r, f.forwarded_value)
    else if ascii_equal_fold key (codes "x-real-ip")
    then (r, f.real_ip_value)
    else (r, find_extra (map lower key) f.extra_hdrs)

-- The string up to a separator and behind it; all of it and nothing where there is none.
unfoldable pub cut : ℕ → Bytes → Bytes × Bytes
cut sep s = elim (index_byte s sep) [ some i ↦ (take i s, drop (i + 1) s) | none ↦ (s, []) ]

-- The value of `name=value`, if that is the name.
unfoldable pub value_of : Bytes → Bytes → Option Bytes
value_of name pair = elim (index_byte pair b'=') [
  | some i ↦ if take i pair =ᵇ name then some (drop (i + 1) pair) else none
  | none ↦ none
]

-- The loop; a round takes a byte at least.
unfoldable pub query_from : ℕ → Bytes → Bytes → Bytes
unfolding cut value_of
query_from zero q name = []
query_from (suc fuel) [] name = []
query_from (suc fuel) (c ∷ cs) name =
    let (kv, q') = cut b'&' (c ∷ cs) in
    elim (value_of name kv) [ some v ↦ v | none ↦ query_from fuel q' name ]

unfoldable pub query_param : Request → Bytes → Bytes
unfolding query_from
query_param r name = query_from (length r.query) r.query name

-- The table of the six methods, at the slots that `init` computes; a nil entry is empty.
unfoldable pub method_table : ℕ → Bytes
method_table i =
    if i == (bit_xor b'G' b'E' + b'T') % 256
    then codes "GET"
    else if i == (bit_xor b'P' b'U' + b'T') % 256
    then codes "PUT"
    else if i == (bit_xor b'P' b'O' + b'S') % 256
    then codes "POST"
    else if i == (bit_xor b'H' b'E' + b'A') % 256
    then codes "HEAD"
    else if i == (bit_xor b'P' b'A' + b'T') % 256
    then codes "PATCH"
    else if i == (bit_xor b'D' b'E' + b'L') % 256
    then codes "DELETE"
    else []

unfoldable pub wing_intern_method : Bytes → Bytes
unfolding method_table
wing_intern_method (b₀ ∷ b₁ ∷ b₂ ∷ bs) =
    let b = b₀ ∷ b₁ ∷ b₂ ∷ bs in
    let m = method_table ((bit_xor b₀ b₁ + b₂) % 256) in
    if not (is_empty m) && length m == length b && m =ᵇ b then m else b
wing_intern_method b = b
