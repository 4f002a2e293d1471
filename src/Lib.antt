-- ===== src/Lib.antt =====
-- A model of zakop, the split-routing daemon for OpenWrt: it decides for every DNS query of a LAN
-- client whether the name is answered by the FakeIP server, by a real server or not at all, and it
-- prepares the networks, routes and outbounds that the decision refers to.
--
-- The parts, from the repository's root:
--   * Config: internal/config/config.go. Config.Uci is `parseSections` with `stripComment` and
--     `splitUCIFields`; Config.Lists the parsers of one value and `cleanList`; Config.Dns the real DNS
--     upstream (`DNSUpstream`, `legacyDNSUpstream`, `syncLegacyDNSFields`); Config.ApplyMain,
--     Config.ParseSection and Config.ParseOutbound the sections; Config.Parse is `Parse` from the
--     sections up to `Validate`; Config.Validate is `Validate`, whose checks are in Main, Targets and Rules
--     below it in the order of the code, and the whole of `Parse`; Config.Fault the errors; Config.Types the records and Config.Access the accessors.
--   * Importer: internal/importer/uci.go. Importer.Chunks is `parseChunks` with the tags and the keys of
--     chunks, Importer.Apply is `ApplyNodes` on the text of the configuration, with the SHA-1 of a text
--     and the time as arguments. Importer.Format is `formatOutbound`; what it writes is read
--     back by Config.Uci and Config.ParseOutbound. Importer.Tag is `uniqueTag`, whose loop is bounded by
--     the number of used tags.
--   * Policy: internal/policy/cidr.go. Policy.Cidr is `NormalizeIPv4CIDRs` and `rangeToCIDRs`,
--     Policy.Parse is `ParseIPv4CIDR`, Policy.Load is `LoadIPv4CIDRsFile` on the text of the file,
--     whose lines are those of Text.Scanner.
--   * RuleEngine: internal/ruleengine/ruleengine.go, `MatchDomain` and `DomainDecision`.
--   * DnsProxy: internal/dnsproxy/dnsproxy.go and readiness.go. DnsProxy.Message has the names, the
--     questions and the answers, DnsProxy.Edns the client subnet options, DnsProxy.Routing the state of
--     the proxy (`Proxy`), the decision for a client (`domainDecision`) and the upstream
--     (`upstreamFor`), DnsProxy.Forward the pools and the handlers (`handleUDP`, `handleTCPQuery`).
--   * ProxyRoute: internal/proxyroute/proxyroute.go. TProxy: internal/tproxy/tproxy.go;
--     TProxy.Kernel describes the kernel's rules and routes, `ip`, and the texts that it prints, with
--     the notation of a mark and the preference of a new rule as arguments.
--   * OutboundPool: internal/outboundpool/manager.go, `Check` and the rounds of `runPool`. The controller
--     is a record of its three calls (`Api`); OutboundPool.Check states its contract (`Controller`).
--   * Nft: internal/nft/generator.go. Nft.Packet is `rulePacketMatches`, Nft.Sets `writeSet` and the
--     texts of the sets, Nft.Generate `Generate` down to the last line of the ruleset. The networks of
--     the rules, which `provider.LoadRuleCIDRs` reads from files, are an argument (`RuleCidrs`).
--   * Provider: internal/provider/update.go. Provider.Lists is `NormalizeDownloadedList` and the text of
--     `WriteCache`; Provider.Chunks is `parseChunks`, `setOption` and `UpdateMetadata`, with the time as
--     an argument and the text of the file in place of the file.
--   * Text, Net and Dict model what the code uses of the Go library: strings as lists of code points,
--     addresses and URLs, and maps as lists of pairs whose first pair is the one written last.
--
-- The configuration feeds the proxy (`new_proxy`), which asks the rule engine; the targets of
-- ProxyRoute number the outbounds of the same configuration, and the ruleset of Nft jumps to their chains.
--
-- State and effects. The mutable state of the proxy is the two buffered channels that bound its
-- forwards: they are a capacity and a count, passed through the handlers, and DnsProxy.Pools has them
-- as a step relation in which the queries interleave. What an upstream replies to a message is an
-- argument (`Network`). Parsers return `none` for an error; its text is not modelled. An error
-- of `Validate` is its format and the name in it (`Fault`). `Generate` returns a text, an error or a
-- panic (`Generated`). A loop is
-- recursion on its list or on a bound: `decode_labels` on the length of the message, of which a round
-- reads at least a byte; the nine jumps of a name are the code's own limit. `cut_range` is bounded by the addresses of its range, of which a round takes at least
-- one. The loops over EDNS options are bounded by the bytes left. Addresses and ports of the code's
-- fixed width keep their wrap-around where the code can wrap.
--
-- Bounds of the model: `ToLower` and letters are those of ASCII; `ParseUint` is for texts without
-- underscores; a network in IPv4-mapped notation is one that is not IPv4 where the code tests the
-- mask, and one of IPv4 where it asks `IPNet.Contains`, as for the clients of the LAN; `set` of a byte outside a message does nothing, where Go panics, but every message that
-- is changed has its header.
--
-- Not modelled: sockets, accept loops and timeouts, files and external commands, the
-- parsing of share links, the texts for sing-box and dnsmasq, the downloads and files of providers,
-- status and debug output, and the command line.
pub mod Prelude
pub mod Text
pub mod Policy
pub mod Config
pub mod RuleEngine
pub mod Net
pub mod DnsProxy
pub mod Dict
pub mod Importer
pub mod ProxyRoute
pub mod TProxy
pub mod Nft
pub mod Provider
pub mod OutboundPool
pub mod Examples
