-- ===== src/DnsProxy/Framing.antt =====
-- Messages over TCP come back as they were sent.
use zakop.Prelude.{
  ℕ, ◌+◌, ◌*◌, ◌/◌, ◌%◌, ◌≤◌, ◌<◌, ◌≡◌, refl, false, ◌++◌, some, arith, ltb-false, ◌==◌, length,
  length-append, take-append, drop-append,
}
use zakop.DnsProxy.Message.{Bytes, put_uint16}
use zakop.DnsProxy.Forward.{read_full, read_tcp_dns, write_tcp_dns}

read_full-append :
    (n : ℕ) (msg rest : Bytes) → n ≡ length msg → read_full n (msg ++ rest) ≡ some (msg, rest)
unfolding read_full
read_full-append n msg rest e = rw (
  ltb-false (length (msg ++ rest)) n (omega (arith, length-append msg rest)),
  take-append msg rest n e,
  drop-append msg rest n e,
)

-- A message of 1 to 65535 bytes is written by `writeTCPDNS`, and `readTCPDNS` reads it back from a
-- stream that begins with what was written, and leaves the rest of the stream.
pub read_tcp_dns-write_tcp_dns :
    (msg rest : Bytes)
    → 0 < length msg
    → length msg ≤ 65535
    → (sent : Bytes) × (write_tcp_dns msg ≡ some sent)
      × (read_tcp_dns (sent ++ rest) ≡ some (msg, rest))
unfolding write_tcp_dns read_tcp_dns
read_tcp_dns-write_tcp_dns msg rest pos fits =
    let back : length msg / 256 % 256 * 256 + length msg % 256 ≡ length msg = omega arith in
    let more : (length msg == 0) ≡ false = ground arith in
    (
      put_uint16 (length msg) ++ msg,
      rw (ltb-false 65535 (length msg) fits),
      rw (read_full-append 2 (put_uint16 (length msg)) (msg ++ rest) refl)
          (rw (back, more) (read_full-append (length msg) msg rest refl)),
    )
