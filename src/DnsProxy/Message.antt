-- ===== src/DnsProxy/Message.antt =====
-- internal/dnsproxy/dnsproxy.go and readiness.go: names, questions and the answers made from them.
-- A byte is a number below 256. Where the code masks bits, the same bits are written by `/` and `%`.
use zakop.Prelude.{
  ℕ, zero, suc, ◌+◌, ◌-◌, ◌*◌, ◌/◌, ◌%◌, Bool, false, not, ◌&&◌, ◌||◌, List, [], ◌∷◌, ◌++◌, Option,
  none, some, ltb, leb, ◌==◌, if◌then◌else◌, length, get_or, take, drop, set,
}
use zakop.Text.{Str, codes, join}

abbrev pub Bytes : Type 0
Bytes = List ℕ

abbrev pub byte_at : Bytes → ℕ → ℕ
byte_at msg i = get_or msg i 0

-- `msg[a:b]`, and `binary.BigEndian.Uint16(msg[i : i+2])`.
abbrev pub slice : Bytes → ℕ → ℕ → Bytes
slice msg a b = take (b - a) (drop a msg)

abbrev pub uint16 : Bytes → ℕ → ℕ
uint16 msg i = byte_at msg i * 256 + byte_at msg (i + 1)

-- `binary.BigEndian.PutUint16(b, v)`: the two bytes.
abbrev pub put_uint16 : ℕ → Bytes
put_uint16 v = v / 256 % 256 ∷ v % 256 ∷ []

-- `l & 0xc0`.
abbrev pub high_bits : ℕ → ℕ
high_bits l = l / 64 % 4 * 64

-- The text of the labels, to which the name behind a pointer is added unless it is empty.
abbrev pub with_suffix : List Bytes → Bytes → List Bytes
with_suffix labels [] = labels
with_suffix labels (c ∷ s) = labels ++ ((c ∷ s) ∷ [])

-- The loop of `decodeName`. The first argument is `9 - depth`, the second bounds the labels that
-- are read before the name ends or jumps. `none` is the result `false`.
unfoldable pub decode_labels : ℕ → ℕ → Bytes → ℕ → List Bytes → Option (Bytes × ℕ)
decode_labels zero f msg off labels = none
decode_labels (suc d) zero msg off labels = none
decode_labels (suc d) (suc f) msg off labels =
    let l = byte_at msg off in
    let ptr = l % 64 * 256 + byte_at msg (off + 1) in
    let jump = decode_labels d (length msg + 1) msg ptr [] in
    let next = off + 1 + l in
    let on = decode_labels (suc d) f msg next (labels ++ (slice msg (off + 1) next ∷ [])) in
    if leb (length msg) off
    then none
    else if l == 0
    then some (join labels (codes "."), off + 1)
    else if high_bits l == 0xc0
    then if leb (length msg) (off + 1) then none else elim jump [
      | none ↦ none
      | some (suffix, _) ↦ some (join (with_suffix labels suffix) (codes "."), off + 2)
    ]
    else if not (high_bits l == 0)
    then none
    else if ltb (length msg) next
    then none
    else on

-- `decodeName`: the name and the offset behind it.
unfoldable pub decode_name : Bytes → ℕ → ℕ → Option (Bytes × ℕ)
unfolding decode_labels join
decode_name msg off depth = decode_labels (9 - depth) (length msg + 1) msg off []

pub record Query : Type 0 where
  pub name : Str
  pub type : ℕ
  pub question_end : ℕ

-- The part of `ParseQuery` behind the name.
abbrev pub query_behind : Bytes → Option (Bytes × ℕ) → Option Query
query_behind msg none = none
query_behind msg (some (name, off)) =
    if ltb (length msg) (off + 4)
    then none
    else some (record { name = name; type = uint16 msg off; question_end = off + 4 })

-- `ParseQuery`.
unfoldable pub parse_query : Bytes → Option Query
parse_query msg =
    if ltb (length msg) 12
    then none
    else if not (uint16 msg 4 == 1)
    then none
    else query_behind msg (decode_name msg 12 0)

-- `QueryName`.
unfoldable pub query_name : Bytes → Option Str
unfolding parse_query
query_name msg = elim (parse_query msg) [ none ↦ none | some q ↦ some q.name ]

-- `b |= 0x01`, and `(b & 0xf0) | code` for a code below 16.
abbrev pub with_low_bit : ℕ → ℕ
with_low_bit b = b / 2 * 2 + 1

abbrev pub with_rcode : ℕ → ℕ → ℕ
with_rcode code b = b / 16 % 16 * 16 + code

abbrev pub put_at : Bytes → ℕ → ℕ → Bytes
put_at msg i v = set (set msg i (v / 256 % 256)) (i + 1) (v % 256)

-- `nodataResponse`.
unfoldable pub nodata_response : Bytes → ℕ → Bytes
nodata_response query question_end =
    let resp = set (set (take question_end query) 2 0x81) 3 0x80 in
    let asked =
      if leb 4 (length query) && byte_at query 2 % 2 == 1
      then set resp 2 (with_low_bit (byte_at resp 2))
      else resp in
    put_at (put_at (put_at asked 6 0) 8 0) 10 0

unfoldable pub nxdomain_response : Bytes → ℕ → Bytes
nxdomain_response query question_end =
    let resp = nodata_response query question_end in set resp 3 (with_rcode 3 (byte_at resp 3))

-- `servfailResponse`; `none` is nil.
unfoldable pub servfail_response : Bytes → Option Bytes
servfail_response query = elim (parse_query query) [
  | none ↦ none
  | some q ↦
      let resp = nodata_response query q.question_end in
      some (set resp 3 (with_rcode 2 (byte_at resp 3)))
]

-- A label behind its length, and the labels of a name in front of the final zero.
abbrev pub encode_labels : List Bytes → Bytes
encode_labels [] = 0 ∷ []
encode_labels (l ∷ ls) = length l ∷ (l ++ encode_labels ls)

-- `readinessQuery`.
unfoldable pub readiness_query : ℕ → Bytes
readiness_query id =
    put_uint16 id
    ++ (0x01
        ∷ 0x00
        ∷ 0x00
        ∷ 0x01
        ∷ 0
        ∷ 0
        ∷ 0
        ∷ 0
        ∷ 0
        ∷ 0
        ∷ (encode_labels (codes "example" ∷ codes "com" ∷ []) ++ (0 ∷ 1 ∷ 0 ∷ 1 ∷ [])))

-- The end of `probeDNS`: the response to the query with this id is good, and no error.
unfoldable pub response_ready : ℕ → Bytes → Bool
response_ready id response =
    if ltb (length response) 12
    then false
    else if not (uint16 response 0 == id) || byte_at response 2 / 128 % 2 == 0
    then false
    else byte_at response 3 % 16 == 0 || byte_at response 3 % 16 == 3
