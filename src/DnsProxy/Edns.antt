-- ===== src/DnsProxy/Edns.antt =====
-- internal/dnsproxy/dnsproxy.go: the EDNS client subnet, read and removed.
use zakop.Prelude.{
  ℕ, zero, suc, ◌+◌, ◌*◌, Bool, true, false, not, ◌&&◌, ◌||◌, [], ◌∷◌, ◌++◌, Option, none, some,
  ltb, leb, ◌==◌, if◌then◌else◌, length, take, drop,
}
use zakop.Text.{Str}
use zakop.Net.{ipv4_string}
use zakop.DnsProxy.Message.{Bytes, byte_at, slice, uint16, put_uint16, decode_name}

abbrev pub ecs_option : ℕ
ecs_option = 8

-- The loop of `stripEDNSClientSubnetOptions` at `rest = options[off:]`. The first argument bounds
-- the rounds; `none` is the result `nil, false, false`.
unfoldable pub strip_from : ℕ → Bytes → Bytes → Bool → Option (Bytes × Bool)
strip_from f [] out changed = some (out, changed)
strip_from zero (x ∷ r) out changed = none
strip_from (suc f) (x ∷ r) out changed =
    let rest = x ∷ r in
    let next = 4 + uint16 rest 2 in
    let is_ecs = uint16 rest 0 == ecs_option in
    let on =
      strip_from f (drop next rest) (if is_ecs then out else out ++ take next rest)
        (if is_ecs then true else changed) in
    if ltb (length rest) 4 then none else if ltb (length rest) next then none else on

-- `stripEDNSClientSubnetOptions`.
unfoldable pub strip_options : Bytes → Option (Bytes × Bool)
unfolding strip_from
strip_options options = strip_from (length options) options [] false

-- `net.IPv4(full[0], …).String()` of the bytes of an address, padded with zeros.
abbrev pub address_text : Bytes → Str
address_text addr = ipv4_string (
    byte_at addr 0 * 0x100_0000
    + byte_at addr 1 * 0x1_0000
    + byte_at addr 2 * 0x100
    + byte_at addr 3)

-- What one option of `ecsIPv4FromOptions` holds: the address text of a client subnet of family 1
-- with a prefix and an address.
unfoldable pub ecs_address : ℕ → Bytes → Option Str
ecs_address code value =
    if code == ecs_option && leb 8 (length value)
    then if uint16 value 0 == 1 && ltb 0 (byte_at value 2) && ltb 0 (length (drop 4 value))
      then some (address_text (drop 4 value))
      else none
    else none

-- The loop of `ecsIPv4FromOptions` at `rest = opts[off:]`.
unfoldable pub ecs_from : ℕ → Bytes → Str
ecs_from zero rest = []
ecs_from (suc f) rest =
    let len = uint16 rest 2 in
    let next = 4 + len in
    let on = ecs_from f (drop next rest) in
    if ltb (length rest) 4
    then []
    else if ltb (length rest) next
    then []
    else elim (ecs_address (uint16 rest 0) (slice rest 4 next)) [ some text ↦ text | none ↦ on ]

-- `ecsIPv4FromOptions`.
unfoldable pub ecs_ipv4_from_options : Bytes → Str
unfolding ecs_from ecs_address ipv4_string
ecs_ipv4_from_options opts = ecs_from (length opts + 1) opts

-- The fixed part of a resource record behind its name: the offset of the data and of the end.
abbrev pub record_data : Bytes → Option (Bytes × ℕ) → Option (ℕ × ℕ)
record_data msg none = none
record_data msg (some (_, off)) =
    let end = off + 10 + uint16 msg (off + 8) in
    if ltb (length msg) (off + 10)
    then none
    else if ltb (length msg) end
    then none
    else some (off, end)

-- `resourceRecordEnd`, with the offset behind the name: `none` is the result `0, false`.
unfoldable pub resource_record : Bytes → ℕ → Option (ℕ × ℕ)
unfolding decode_name
resource_record msg off = record_data msg (decode_name msg off 0)

-- The offset behind a question that starts at `off`.
unfoldable pub question_end_at : Bytes → ℕ → Option ℕ
unfolding decode_name
question_end_at msg off = elim (decode_name msg off 0) [
  | none ↦ none
  | some (_, next) ↦ if ltb (length msg) (next + 4) then none else some (next + 4)
]

-- The offset behind so many questions.
unfoldable pub skip_questions : ℕ → Bytes → ℕ → Option ℕ
unfolding question_end_at
skip_questions zero msg off = some off
skip_questions (suc n) msg off = elim (question_end_at msg off) [
  | none ↦ none
  | some next ↦ skip_questions n msg next
]

-- The loop over the additional records of `clientSubnetIPv4`, so many left.
unfoldable pub subnet_from : ℕ → Bytes → ℕ → Str
unfolding resource_record ecs_ipv4_from_options
subnet_from zero msg off = []
subnet_from (suc n) msg off = elim (resource_record msg off) [
  | none ↦ []
  | some (data', end) ↦
      let found = ecs_ipv4_from_options (slice msg (data' + 10) end) in
      let on = subnet_from n msg end in
      if uint16 msg data' == 41 then elim found [ [] ↦ on | c ∷ s ↦ c ∷ s ] else on
]

-- `clientSubnetIPv4`. The answer and authority records of a message are not skipped there.
unfoldable pub client_subnet_ipv4 : Bytes → Str
unfolding subnet_from skip_questions
client_subnet_ipv4 msg =
    if ltb (length msg) 12 then [] else elim (skip_questions (uint16 msg 4) msg 12) [
      | none ↦ []
      | some off ↦ subnet_from (uint16 msg 10) msg off
    ]

-- One additional record of `stripClientSubnetOption`: what is written for it, and whether it was
-- changed. `data` is the offset behind its name.
unfoldable pub strip_record : Bytes → ℕ → ℕ → ℕ → Option (Bytes × Bool)
unfolding strip_options
strip_record msg start data' end =
    let whole = slice msg start end in
    if not (uint16 msg data' == 41)
    then some (whole, false)
    else elim (strip_options (slice msg (data' + 10) end)) [
      | none ↦ none
      | some (options, changed) ↦
          if not changed
          then some (whole, false)
          else some (slice msg start (data' + 8) ++ (put_uint16 (length options) ++ options), true)
    ]

-- The loop over the additional records, so many left: the bytes written, the change, the offset.
unfoldable pub strip_records : ℕ → Bytes → ℕ → Bytes → Bool → Option (Bytes × Bool × ℕ)
unfolding resource_record strip_record
strip_records zero msg off out changed = some (out, changed, off)
strip_records (suc n) msg off out changed = elim (resource_record msg off) [
  | none ↦ none
  | some (data', end) ↦ elim (strip_record msg off data' end) [
    | none ↦ none
    | some (written, here) ↦ strip_records n msg end (out ++ written) (changed || here)
  ]
]

-- The offset behind so many records.
unfoldable pub skip_records : ℕ → Bytes → ℕ → Option ℕ
unfolding resource_record
skip_records zero msg off = some off
skip_records (suc n) msg off = elim (resource_record msg off) [
  | none ↦ none
  | some (_, end) ↦ skip_records n msg end
]

-- `stripClientSubnetOption`. The questions and the records in front of the additional ones are
-- copied as they stand, so what is written for them is the message up to their end.
unfoldable pub strip_client_subnet_option : Bytes → Bytes
unfolding skip_questions skip_records strip_records
strip_client_subnet_option msg =
    if ltb (length msg) 12 then msg else elim (skip_questions (uint16 msg 4) msg 12) [
      | none ↦ msg
      | some behind ↦ elim (skip_records (uint16 msg 6 + uint16 msg 8) msg behind) [
        | none ↦ msg
        | some off ↦ elim (strip_records (uint16 msg 10) msg off (take off msg) false) [
          | none ↦ msg
          | some (out, changed, end) ↦
              if not (end == length msg) then msg else if not changed then msg else out
        ]
      ]
    ]
