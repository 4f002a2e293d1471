-- ===== src/DnsProxy/Forward.antt =====
-- internal/dnsproxy/dnsproxy.go: the bounded pools of forwards, the two query handlers, and the
-- framing of messages over TCP. What an upstream replies is an argument of the handlers.
use zakop.Prelude.{
  ℕ, ◌+◌, ◌-◌, ◌++◌, Option, none, some, ltb, ◌==◌, if◌then◌else◌, length, take, drop,
}
use zakop.Text.{Str, str_eq}
use zakop.DnsProxy.Message.{Bytes, uint16, put_uint16, servfail_response}
use zakop.DnsProxy.Edns.{strip_client_subnet_option}
use zakop.DnsProxy.Routing.{Proxy, upstream_for, local_response}

-- A buffered channel: its capacity and how many values are in it.
pub record Slots : Type 0 where
  pub capacity : ℕ
  pub used : ℕ

-- `fakeForwardSlots` and `realForwardSlots`; `none` is a nil channel.
pub record Pools : Type 0 where
  pub fake : Option Slots
  pub real : Option Slots

abbrev pub max_fake_dns_forwards : ℕ
max_fake_dns_forwards = 32

abbrev pub max_real_dns_forwards : ℕ
max_real_dns_forwards = 96

-- The pools that `New` makes.
abbrev pub new_pools : Pools
new_pools = record {
  fake = some (record { capacity = max_fake_dns_forwards; used = 0 });
  real = some (record { capacity = max_real_dns_forwards; used = 0 });
}

-- `select { case slots <- struct{}{}: … default: … }`; `none` is the default.
unfoldable pub acquire : Option Slots → Option (Option Slots)
acquire none = some none
acquire (some s) =
    if ltb s.used s.capacity then some (some (record s { used = s.used + 1 })) else none

-- `<-slots`, by the function that `reserveForward` returns.
unfoldable pub give_back : Option Slots → Option Slots
give_back none = none
give_back (some s) = some (record s { used = s.used - 1 })

-- `reserveForward`: the pools with a slot taken, or `none` where none is free.
unfoldable pub reserve_forward : Proxy → Pools → Str → Option Pools
reserve_forward p pools upstream =
    if str_eq upstream p.fake_upstream
    then elim (acquire pools.fake) [ none ↦ none | some s ↦ some (record pools { fake = s }) ]
    else elim (acquire pools.real) [ none ↦ none | some s ↦ some (record pools { real = s }) ]

-- `release()` of the slot that was reserved for the upstream.
unfoldable pub release_forward : Proxy → Pools → Str → Pools
release_forward p pools upstream =
    if str_eq upstream p.fake_upstream
    then record pools { fake = give_back pools.fake }
    else record pools { real = give_back pools.real }

-- `forwardUDP` or `forwardTCP`, as the reply of an upstream to a message; `none` is an error.
abbrev pub Network : Type 0
Network = Bytes → Str → Option Bytes

abbrev reply_or_servfail : Bytes → Option Bytes → Option Bytes
reply_or_servfail msg none = servfail_response msg
reply_or_servfail msg (some resp) = some resp

-- `handleUDP` and `handleTCPQuery`, which differ in the transport only: the response, where `none`
-- is nil, and the pools afterwards.
unfoldable pub handle_query : Network → Proxy → Pools → Bytes → Str → Option Bytes × Pools
handle_query network p pools msg client_ip = elim (local_response p msg client_ip) [
  | some resp ↦ (some resp, pools)
  | none ↦
      let upstream = upstream_for p msg client_ip in
      elim (reserve_forward p pools upstream) [
        | none ↦ (servfail_response msg, pools)
        | some reserved ↦ (
          reply_or_servfail msg (network (strip_client_subnet_option msg) upstream),
          release_forward p reserved upstream,
        )
      ]
]

-- `io.ReadFull` of so many bytes: the bytes and what is left of the stream.
unfoldable pub read_full : ℕ → Bytes → Option (Bytes × Bytes)
read_full n stream = if ltb (length stream) n then none else some (take n stream, drop n stream)

abbrev read_body : Option (Bytes × Bytes) → Option (Bytes × Bytes)
read_body none = none
read_body (some (header, rest)) =
    if uint16 header 0 == 0 then none else read_full (uint16 header 0) rest

-- `readTCPDNS` on the bytes of the stream: the message and what is left, or an error.
unfoldable pub read_tcp_dns : Bytes → Option (Bytes × Bytes)
read_tcp_dns stream = read_body (read_full 2 stream)

-- `writeTCPDNS`: the bytes written, or an error.
unfoldable pub write_tcp_dns : Bytes → Option Bytes
write_tcp_dns msg = if ltb 65535 (length msg) then none else some (put_uint16 (length msg) ++ msg)
