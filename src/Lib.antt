-- ===== src/Lib.antt =====
-- wirestack: a userspace TCP/IP stack in C++20. This library models the protocol codecs, the
-- neighbour cache, the UDP endpoint table, the DNS client, the TCP connection table and both sides
-- of HTTP/1.0.
--
-- An incoming frame goes through the parsers from the outside in (Ethernet, then ARP or IPv4, then
-- ICMP, UDP or TCP); each returns a packet or an error that drops it. Answers go through the
-- serializers the other way. A TCP segment is handed to the connection table, which answers with
-- at most one reply and the segments that its queues then allow; timers are polled. The event loop
-- of src/main.cpp calls all of them: one round handles a frame, if one was read, and then whatever
-- is due.
--
-- Files, with the code that each models (paths from the repository's root):
--   Bytes, Address: the big-endian and address helpers that src/{ethernet,arp,ipv4,icmp,udp,tcp}.cpp
--     each declare, and include/wirestack/{mac_address,ipv4_address}.hpp;
--     Address.Text is src/ipv4_address.cpp.
--   Checksum: src/checksum.cpp; Sum and Fold are its two loops, Correct the whole.
--   Ethernet, Arp, Ipv4, Icmp, Udp: src/ethernet.cpp and so on, a parser and a serializer each.
--   Tcp: src/tcp.cpp; Flags, Segment and Options are its three groups of functions.
--   ArpCache: src/arp_cache.cpp. UdpEndpoint: src/udp_endpoint.cpp.
--   Dns: src/dns.cpp and include/wirestack/dns.hpp; Hostname, Message (names and records), Response
--     and Session are its parts.
--   Http: src/http.cpp; Chars and Lines are what both HTTP parsers share (src/http_client.cpp repeats
--     those functions, with the same text), Request the server's parser and its input buffer,
--     Response its answers.
--   HttpClient: src/http_client.cpp; Request, Response and Session are the request that is built,
--     the parser of its response, and what the client keeps of a connection.
--   TcpConnection: src/tcp_connection.cpp and its header.
--     Key, State: the key of a connection and its state, with the records that it holds.
--     Sequence, Window, Congestion: sequence number comparisons; the two windows and the timeout;
--       the congestion window.
--     Options, Sack, Segments: the option bytes and the segments that are sent, SACK blocks.
--     Retire, Recovery, Acknowledge: what an acknowledgment does to the queue, fast recovery, the
--       acknowledgment half of handleSynchronized.
--     Schedule: scheduleQueuedData and the persist timer's state. Reassembly: the fragments that
--       wait for a gap to close.
--     Synchronized, Handshake: handleSynchronized, and the handlers of the other states.
--     Table: handle and beginConnect on the connections by key. Api: makeOutgoingData, beginClose
--       and the queries. Timers: the two polls and their deadlines.
--     States: the state machine. Limits: the two limits of the table. Stream: the send side as a
--       queue of bytes.
--   EventLoop: src/main.cpp. Arp, Icmp, Udp, Ipv4 and Tcp are its handlers, Send the functions that
--     wrap a payload for the device, HttpServer the part of handleTcp that serves requests and
--     HttpClient handleHttpClient. State holds the variables of main, Start their first values.
--     Resolver and Dial are the DNS query and the dialled connection, Round a round of the loop, and
--     Run a sequence of rounds.
--   Common: shared lists, tests, bit laws, std::map as a sorted list of entries, and Text: the
--     standard library's operations on strings that the sources use (find, tolower, to_string).
--   Examples: every property at a concrete input, and tests by evaluation.
--
-- Conventions. A byte sequence is a list of natural numbers, with IsBytes for the range of its
-- elements; a fixed-width integer is a natural number with its wrap written out as `% 2 ^ w`, and
-- IsFrame, IsPacket and the like state what the field types give. std::variant is Result. A fixed
-- header is read after the size test, so its reads are total with an unused default; in the TCP
-- option parser and in Dns, whose reads depend on the data, a read past the end is the outcome
-- `fault`.
-- Clock values are natural numbers of nanoseconds. A function that changes a connection through a
-- reference returns the connection; an iterator or a pointer into a queue is an index. std::sort is
-- an insertion sort. The ISN generator is a parameter of the table: what it returns, if an
-- operation asks for a number, is that operation's argument `draw`.
--
-- A handler of the event loop returns the frames that it hands to TapDevice::write, oldest first,
-- and the state after it. What write returns only decides what is printed, and nothing that is
-- printed is modelled. Each reading of the clock is an argument of its own, since the program reads
-- it again and again. The four places that wrap a payload in IPv4 and Ethernet, with the same text,
-- are the one function send_packet.
--
-- Fuel. The carry loop of the checksum has two rounds (fold_fuel), enough for every 32-bit sum; the
-- option loop has one round more than there are bytes, and the congestion avoidance loop one more
-- than the acknowledged bytes, of which each round takes at least one. send_chunks has
-- kMaxSegmentsPerSend rounds, the loop's own bound; pad_to_word has three, the most a word lacks.
-- The loop of decodeName has one round more than kMaxDnsPointerHops and kMaxDnsNameLength together,
-- since a round that goes on follows a pointer or lengthens the name. to_string has 20 rounds, one
-- for each decimal digit that a 64-bit number can have.
--
-- Not modelled: the text form of MAC addresses, the parser of the command line (its options are the
-- argument RuntimeOptions), the TAP device and its read errors, which end the program, and
-- systemIsn, which reads the system's random numbers.
pub mod Common
pub mod Bytes
pub mod Checksum
pub mod Address
pub mod Ethernet
pub mod Arp
pub mod ArpCache
pub mod Icmp
pub mod Ipv4
pub mod Udp
pub mod Dns
pub mod Http
pub mod HttpClient
pub mod UdpEndpoint
pub mod Tcp
pub mod TcpConnection
pub mod Examples
pub mod EventLoop
