-- ===== src/Lib.antt =====
-- tun2proxy: a tunnel interface for HTTP and SOCKS proxies.
--
-- tun2proxy turns the traffic of a tunnel interface into connections through a proxy. This library
-- models the parts of the Rust program under src/ (paths below are from the repository's root)
-- that decide what happens to a name, an address or a byte, and proves what a client of these
-- parts relies on.
--
-- VirtualDns.antt models src/virtual_dns.rs: the resolver that gives a fake address of a pool to
-- every name and finds the name again when a connection to the address arrives. Its state is the
-- record VirtualDns, with the fields of the Rust struct; the methods keep their names. The time-
-- ordered map and the hash map are the crates' code: Maps.antt states them as interfaces with
-- laws. Its children are about these parts: Increment (the byte loop of increment_ip), Views (the
-- two maps as functions), Invariant (the well-formed states), Pool and Scan (the cursor on its way
-- through the pool), Allocation and Mapping (find_or_allocate_ip), Lifecycle (new, clear_mappings,
-- resolve_ip), Restore (restore_mapping), Saved (the calls of the journal).
--
-- VirtualDns/Persistence.antt models src/virtual_dns/persistence.rs, the journal of the mappings,
-- over VirtualDns/Disk.antt: a disk with the two files and a list of the outcomes of the coming
-- system calls, of which each may fail after a part of its work. serde_json is the parameter
-- Codec. Its children are Format (the lines) and Files (rewriting and loading whole files). The
-- resolver saves a mapping by persist_mapping, which calls the journal and marks it dirty when
-- that fails.
--
-- Socks.antt models src/socks.rs: the client side of a SOCKS4 or SOCKS5 connection as a state
-- machine over four byte queues. The wire formats of SOCKS5 are code of the crate socks5_impl, and
-- are the parameter Protocol, whose laws say that a message that was read lies in the buffer. Its
-- children are Handshake (the recursion of state_change), Relay (what one step does with the
-- bytes), Order (the transitions between states, with what each reads and says), Talk (the
-- handshake message by message), Handler, Opening and Session (whole connections). Proxy.antt has
-- the types that the proxy clients share, from src/directions.rs, src/session_info.rs and
-- src/proxy_handler.rs, and Ip.antt the addresses of the standard library as numbers.
--
-- Tunnel.antt models src/proxy_handler.rs: the trait of a proxy connection as an interface with
-- the law of a step that its implementations share. Its children are Streams and Steps (the byte
-- streams of a step) and Session (every sequence of calls on a handler). src/socks.rs, src/http.rs
-- and src/no_proxy.rs implement it: Socks/Handler.antt, Http/Session.antt and NoProxy.antt fill
-- the interface.
--
-- Http.antt models src/http.rs: the client side of an HTTP CONNECT connection. httparse,
-- digest_auth, base64easy and the texts of addresses are the parameter HttpCrates, whose law is
-- that a parsed head lies in the buffer. The digest state that the connections of a manager share
-- is a field, as it is during a call. Its children are Reply (what is read of a reply), Requests,
-- Relay and Steps (the recursion of state_change), Opening (the reply that opens the tunnel) and
-- Session (whole connections). NoProxy.antt models src/no_proxy.rs, which passes bytes on without
-- a proxy.
--
-- Udpgw.antt models src/udpgw.rs: the packets of the UDP gateway, their codec, and the two readers
-- of frames; the wire format of addresses in socks5_impl is the parameter AddressCodec, with its
-- round trip as the law. Udpgw/Pool.antt has the queue of idle connections and a round of
-- heartbeat_task; what the sockets and the clock do in a round is an input. Frames and Codec are
-- about the round trips, Reader and Chunks about the reader that may be cancelled, Heartbeat and
-- Queue about the connections.
--
-- UdpBypass.antt models the pool of src/udp_bypass.rs: the physical sockets of applications, with
-- the routes to the peers that were contacted. The table of owners comes from the operating system
-- and is an input; endpoints that left the pool are kept in a list, since flows may still hold
-- them. Entries is about the map of endpoints, Limits about every order of calls, Active about
-- what opening and maintenance leave.
--
-- src/bin/udpgw_server.rs is in UdpgwServer and its children. UdpgwServer has the shared maps of a
-- client (ClientSessions) with replace_generation, close_session and the two halves of
-- process_udp, before and after the wait for the resolver; UdpgwServer/Tasks the relay task that
-- process_udp spawns and the dispatch of process_client_udp_req; UdpgwServer/Schedule
-- write_to_client, the end of a client and the steps of all tasks in any order; UdpgwServer/Client
-- the wait for a packet and mask_ip. A step is what a task does between two waits; a lock that is
-- held over several changes makes them one step, and a relay takes the lock of the sessions only,
-- whose changes do not meet those of the generations. The cells that a session shares with its
-- relay are named by its generation; this is right until the counter of generations wraps at 2^64,
-- and the process's other clients may take values of the counter at any time. UdpgwServer/Effects,
-- Sessions and Generations say what each step leaves as it is, Delivery, Tagged and Closing what
-- the writer lets through, Current, Reading, Requests, Adding, Relays, Supervised and Superseded
-- which sessions and relays there are, and Replies the packets of the relay.
--
-- src/icmp.rs is in Icmp and its children: Icmp has read_packet, write_packet, echo_endpoint and
-- the request of connect; Icmp/Flows EchoFlows with dispatch, where a channel is the list of the
-- requests in it, and Icmp/Limits its bounds; Icmp/Replies run_flow and packet_checksum, with the
-- checksum of internet_checksum as a parameter, and Icmp/Answers what run_flow lets through. The
-- deadlines and the results of reads and writes are inputs.
--
-- src/dns_routing.rs is in DnsRouting: the trait DnsOverride is a record of its two operations,
-- Upstream the bytes sent to the proxy and those that it is going to give, and tcp the loop over
-- the requests of a stream; DnsRouting/Questions and Routes say where each answer comes from, and
-- Fuel that the loop ends. The encoding of messages is a parameter besides those of Dns. The turns
-- of tcp are fuel; one more than the stream has bytes is enough.
--
-- src/process_bypass.rs is in ProcessBypass, and src/process_profile.rs in ProcessBypass/Profile:
-- a text is a list of characters there, a BTreeSet the list of its elements in order, and the
-- watch channel its revision. ProcessBypass/Sets says which set of names there is.
--
-- src/lib.rs is in MainLoop in part: MainLoop/Counts has SessionCounts and SessionPermit, where a
-- step is one change of one atomic counter, by any task; MainLoop/Setup handle_proxy_session and
-- handle_tcp_session over any handler of the interface in Tunnel, where the reads of the two
-- sockets are lists of bytes and an empty one is the end of the stream; MainLoop/Filter
-- copy_ipv4_dns_responses. SetUps and Sessions are about where the bytes of a session go, Direct
-- about a session without a proxy, and Cuts about streams that are cut into reads.
--
-- Dns.antt models the validation of queries and responses and the draining of frames of
-- src/dns.rs, and Dns/Transactions.antt src/dns_transactions.rs: the table of requests in flight
-- on one connection, with prepare and complete. hickory_proto's parser, its equality of names and
-- its change of a query into a response are the parameter Hickory. Dns/Answers.antt has the
-- building of responses and the lookups of src/dns.rs, and Lookup is about these. Frames is about
-- what is drained from a buffer, Identifiers about the search for a free identifier, Matching
-- about requests and their answers.
--
-- Prelude and its children have the names that all modules share. Tests and its children have
-- concrete inputs: Tests/Crate.antt has lists for the crates' containers and a codec.
--
-- Bounds and fuel: the loop of find_or_allocate_ip is given as many rounds as the pool has
-- addresses, and the theorem that it always succeeds shows that these are enough. The search for a
-- free DNS identifier is given one round more than there are requests in flight, and the draining
-- of frames one more than there are bytes. The calls of state_change are given two levels, and its
-- theorem shows that no more are used. The state_change of src/http.rs is given two levels for
-- each byte that the server has sent and three more; a theorem shows that these are enough where
-- the sum of content_length and len does not wrap (the sum is written modulo 2^64; a build with
-- overflow checks panics there). An IPv4 address is a number below 2^32 and an IPv6 address one
-- below 2^128; where a theorem needs the bound it is a condition. usize is taken to have 64 bits.
--
-- Not modelled: the rest of src/lib.rs (the accept loop, the UDP sessions, DNS over TCP to the
-- virtual resolver, and a relay that connects, times out or meets a write error), sockets, and
-- calls of the operating system (src/windows_network_config.rs, src/physical_dns.rs,
-- src/socket_transfer.rs, src/dns_routing/windows.rs, src/process/), the foreign-function glue
-- (src/general_api.rs, src/android.rs, src/bin/main.rs, src/traffic_status.rs), the accept loop
-- and start-up of src/bin/udpgw_server.rs, the tasks of src/udp_bypass.rs that move datagrams,
-- src/direct.rs, Upstream::forward of src/dns_routing.rs and src/args.rs. Locks, logging and error
-- texts are left out everywhere: an error is a constructor of the model's error type.
pub mod Prelude
pub mod Ip
pub mod Maps
pub mod VirtualDns
pub mod Proxy
pub mod Tunnel
pub mod NoProxy
pub mod Socks
pub mod Dns
pub mod Http
pub mod Udpgw
pub mod UdpBypass
pub mod UdpgwServer
pub mod Icmp
pub mod DnsRouting
pub mod ProcessBypass
pub mod MainLoop
pub mod Tests
