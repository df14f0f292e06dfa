-- ===== src/Lib.antt =====
-- The network flow enricher: it reads flow messages, tells of each address its country, tenant,
-- device, user, hostname and threat, and stores the rows in ClickHouse. It follows the DHCP, NPS
-- and DNS logs to know which device, user and hostname stand behind an address.
--
-- The parts, and the files that model them:
--   Flow: main.go (FlowMessage, EnrichedFlow, enrich) and the row of batchwriter.go (FlowRow,
--     toFlowRow). The five tables are lookup functions, as those of Geo, Tenant, Identity and
--     DnsStore are.
--   Worker: the worker loop of main.go, from a message of the queue over Dedup and Flow to
--     BatchWriter. A run is one order in which messages are handled; the rows of other messages
--     that come in during an Add are an argument.
--   BatchWriter: batchwriter.go (drain, sendToClickHouse, Add, FinalDrain).
--   Geo, Addresses: geoip.go (isPrivate, Lookup), and the networks of Go's net.
--   Tenant: tenant.go (load, Lookup).
--   Dedup: dedup.go (IsDuplicate and its shards).
--   Identity: identity.go (applyDHCP, applyRADIUS, Lookup, evictExpired, chEventWriter), and
--     Identity/Poll the scan of its poller.
--   EventBuffer: what the event writers of identity.go and dnsstore.go share (capTail, flush).
--   Trace: cmd/trace/identity_join.go (dhcpBindingAt, radiusBindingAt), and of cmd/trace/main.go the
--     flags (Trace/Filter: buildFilter), the queries (Trace/Query) and runWho (Trace/Who).
--   LogFile: filepoller.go (readAppendedFile, scanAppendedDir). Its scans are what the pollers of
--     Identity and DnsStore run on; LogFile/Feeds gives their calls as one sequence.
--   LogLine: dhcplog.go and npslog.go (parseDHCPLine, parseNPSLine), whose events Identity takes.
--   DnsStore: dnsstore.go (applyDNS, selectEvictions, evictExpired, Lookup, chDNSWriter), and
--     DnsStore/Poll the scan of its poller over the parser of each file.
--   Bind, Dnstap, Tcpdump, DnsText: dnslog.go, dnstaplog.go and tcpdumplog.go, line by line. The
--     regular expressions are scanners that take the same alternatives first as Go's. Their events
--     are what applyDNS of DnsStore takes.
--   Pseudonym: pseudonym.go (normalizeMAC, normalizeUser, normalizeHost, the tokenizers).
--   Threat: threat.go (refresh, Lookup). IdentityMode: identity_config.go (decideIdentityMode), and
--     with logtz.go the identity section of main in main.go.
--   Prelude: texts, times, lists and sets that the parts share. Tests: runs of the parts.
--
-- A text is its list of bytes, and letters and white space are those of ASCII. An instant counts
-- nanoseconds from the zero time, and a duration is not negative. Counts of 64 bits wrap where the
-- source multiplies. A map is an association list or a function; where Go ranges over a map, the
-- order is an argument. The clock, the answers of ClickHouse and what other goroutines do in the
-- meantime are arguments too, so that a theorem holds for all of them.
--
-- Loops run on the structure of their list, or on fuel: the chunks of n rows are n at most; the
-- attempts of FinalDrain and FinalFlush are a number; `up` of the heap halves its index, and `down`
-- goes to a greater one below the length.
--
-- Arguments that stand for code outside the repository, or for a function of Go's library that is
-- not written out: the trie of cidranger, the LRU of golang-lru, the databases of geoip2,
-- net.ParseIP, time.Parse, xml.Unmarshal, the next midnight of a calendar, and the keyed digest.
--
-- Not modelled: the wiring of the process, the environment, timers, the system calls that list and
-- read files, the connection, the schema and the INSERT statements of ClickHouse, the gauges of
-- metrics.go, and the logger, which are input and output; and of cmd/trace/main.go
-- the printing of the rows. cmd/loadgen and cmd/dnsscan are tools beside the
-- program.
pub mod Prelude
pub mod EventBuffer
pub mod Identity
pub mod Trace
pub mod BatchWriter
pub mod Flow
pub mod Addresses
pub mod Geo
pub mod Tenant
pub mod DnsStore
pub mod Pseudonym
pub mod DnsText
pub mod Dnstap
pub mod Tcpdump
pub mod Bind
pub mod Dedup
pub mod Worker
pub mod Threat
pub mod IdentityMode
pub mod LogFile
pub mod LogLine
mod Tests
