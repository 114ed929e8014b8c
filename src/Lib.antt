-- ===== src/Lib.antt =====
-- numa is a DNS resolver for a home network. This library models its core in the language of the
-- proof checker and proves the model correct: the packet codec that every message goes through, the
-- policies and filters, the validation of DNSSEC, the cache of raw messages with the scanner that it
-- stands on, and the stores around them.
--
-- The codec, bottom up:
--   Error, Exec         the crate's `Result` and methods on `&mut self` that may fail: a state comes
--                       back beside a value or an error, so partial writes stay visible.
--   Buffer              src/buffer.rs: `BytePacketBuffer`. The 4096-byte array is a function from
--                       positions, touched only behind the bounds checks of the source.
--     Buffer.Codec      what it means that a writer appends bytes and a reader takes them.
--     Buffer.Words      the fixed-width fields.
--     Buffer.Name       `read_qname` and `write_qname`: labels, escapes, compression pointers.
--     Buffer.Trip       from writers and readers to the bytes sent and received.
--   Header              src/header.rs: `DnsHeader::read` and `write`, the flag bits, `ResultCode`.
--   Question            src/question.rs: `QueryType` and `DnsQuestion::read` and `write`.
--   Record              src/record.rs: `DnsRecord`. The fields that each variant has besides the
--                       domain and the TTL are the type `Rdata`; Record.Writer is `DnsRecord::write`.
--   Packet              src/packet.rs: `DnsPacket::from_buffer` and `write`, the OPT pseudo-record.
--   Wire                src/wire.rs: the offsets of TTL fields in a message's bytes, and the patches of
--                       the ID and the TTLs.
--   Map, Set            Rust's `HashMap` and `HashSet` as lists.
--   Text                what is used of `str`: a text is its characters, and the tables of the lower case
--                       are an instance argument.
-- The policies and filters:
--   Domain              src/blocklist.rs: `normalize` and `find_in_set`.
--     Domain.Match      which entry of a set covers a name.
--   DomainList          src/domain_list.rs: `PersistedDomainList`, a layer of the configuration and a layer
--                       that a file keeps.
--     DomainList.Layers, DomainList.Restart
--                       the layers under changes, and after the file is read again.
--   Blocklist           src/blocklist.rs: `BlocklistStore` over two domain lists, `parse_blocklist`.
--     Blocklist.Loads, Blocklist.Words, Blocklist.Parse
--                       what a line loads, as a relation, and that the parser loads it.
--   Acl                 src/acl.rs: `CidrMatcher` and `AllowFromAcl`; the networks of the crate `ipnet` are an
--                       instance argument.
--   ClientPolicy        src/client_policy.rs: rules, each a blocklist under a matcher.
--     ClientPolicy.Decides
--                       the decision as a relation on the rules, which `evaluate` implements.
--   Svcb                src/svcb.rs: the edits of the parameters of HTTPS and SVCB records.
--     Svcb.Params, Svcb.Passes
--                       the wire form of parameters and the two passes of an edit over it.
--   Rebind              src/rebind.rs: `RebindFilter`, over Acl, DomainList and Svcb.
-- DNSSEC, src/dnssec.rs:
--   Dnssec.Keys         key tags, times and signatures, over the primitives of the crate `ring`, an instance
--                       argument.
--   Dnssec.Canonical    names and records in canonical form, the data that a signature covers.
--   Dnssec.Chain        `verify_rrset_signed`, `verify_ds` and `validate_chain`.
--     Dnssec.Trust      the chain of trust as a relation.
--   Dnssec.Response     `validate_response` and the steps from a set of answers to a chain.
--     Dnssec.Proved     what its status rests on.
--   Dnssec.Order        the canonical order of names and `nsec_covers_name`.
--     Dnssec.Gap        the order reversed, and the ends of a gap.
--   Dnssec.Nsec         type bitmaps, `closest_encloser` and the hashes of NSEC3.
--   Dnssec.Denial       `verify_authority_rrsigs` and `validate_denial`; the keys that the cache holds are
--                       an argument.
--     Dnssec.Endorsed   the signatures that its status Secure rests on.
--     Dnssec.NsecProof, Dnssec.Hashed, Dnssec.Encloser, Dnssec.Nsec3Proof
--                       what NSEC and NSEC3 records have to say for it.
--     Dnssec.Denied     what the status Secure stands for.
-- The cache and the stores:
--   Cache               src/cache.rs: `DnsCache`, over the wire scanner: an entry keeps a message with
--                       the offsets that its scan found, and a lookup patches a copy of it.
--     Cache.Invariant, Cache.Serve, Cache.Life, Cache.Written
--                       the counter, the copies served, an entry's life, and what is kept of a message.
--   Srtt                src/srtt.rs: `SrttCache`, the smoothed round-trip times of upstream servers.
--   Override            src/override_store.rs: `OverrideStore`, temporary answers for a name.
--   Service             src/service_store.rs: `ServiceStore`, the services of the proxy; the file that
--                       `save_services` writes is a field, and what is read from it the argument of `load_services`.
--     Service.Route     the route that answers a request.
--   QueryLog            src/query_log.rs: `QueryLog`, the ring of the latest queries.
--   Tests               runs at concrete inputs, and each result below applied at one.
--
-- Conventions. Bytes, words and positions are natural numbers and every cast writes out its wrap
-- (`% 2 ^ 16` for `as u16`). A `String` of a message is its bytes, one of
-- a list or a policy its characters. A `DnsHeader` field that is set from a length
-- wraps as in a release build. An error message is a constructor of `Error`, the five that say that
-- the data of a record is too short are one; `out_of_fuel` is no value of the program. Instants and
-- durations are unbounded, so the panic of an instant past what the clock can hold, as for a pause or an
-- override of centuries, is left out, and so is a wrap of the 64-bit sums of the smoothed times.
--
-- Fuel. `read_qname` may jump at most six times, and between two jumps its position grows and stays
-- inside the buffer, so 40000 rounds are enough (Buffer.Name.Total); `write_qname` takes as many rounds
-- as its text has bytes (Buffer.Name.Flag). `skip_wire_name` moves forward inside the message, so one
-- round more than the message has bytes is enough (Wire.Scan), and so do `skip_target_name` and the passes
-- of `edit_svcparams` (Svcb.Strip) and `type_bitmap_contains` (a round moves on by two bytes at least). `validate_chain` takes the number of depths left, eleven at the start, in place of the depth.
--
-- Wire forms. `name_wire`, `header_wire`, `question_wire`, `record_wire` and `packet_wire` say
-- which bytes a value stands for, without a buffer; the two bytes of flags and the section counts are
-- the code's own `flags_high`, `flags_low` and `counted`, which the round trips pin. They go
-- with `IsName`, `IsHeader`, `IsQuestion`,
-- `IsRecord` and `IsPacket`, which say which values have a wire form: fields inside their width, names of one to
-- 63 bytes a label in the lower case that `read_qname` gives back, an unknown record's number not one
-- of a type that `read` parses.
--
-- The cache. A time is a count of nanoseconds and `Instant::now()` is an argument. A map iterates in
-- the order of its list, which stands for the order that Rust leaves open. An index past the end of a
-- message, a panic in Rust, is `none`. There `to_lowercase` on a domain is modelled on its ASCII letters,
-- which are the only ones in a text that `read_qname` gives. `clamp` gives a value also where the limits are
-- out of order, a panic in Rust; the theorems on an insertion ask for the order.
--
-- Not modelled: sockets, TLS, HTTP and the operating system (src/udp_listener.rs, src/tcp.rs,
-- src/tls.rs, src/doh.rs, src/dot.rs, src/odoh.rs, src/proxy.rs, src/relay.rs, src/api.rs,
-- src/system_dns.rs and others), which are calls of other crates; heap accounting and display.
pub mod Prelude
pub mod Error
pub mod Exec
pub mod Buffer
pub mod Header
pub mod Question
pub mod Record
pub mod Packet
pub mod Map
pub mod Text
pub mod Set
pub mod Domain
pub mod DomainList
pub mod Blocklist
pub mod Acl
pub mod ClientPolicy
pub mod Svcb
pub mod Rebind
pub mod Dnssec
pub mod Wire
pub mod Cache
pub mod Srtt
pub mod QueryLog
pub mod Override
pub mod Service
pub mod Tests
