-- ===== src/Lib.antt =====
-- C Network Tools: small network programs in C, one directory each, without shared code. This
-- library models those that compute something beyond a call of the system, and proves what they
-- compute, and where they go wrong.
--
-- Base holds what the other modules share: the library's names, lists over the native numbers,
-- machine words and the two byte orders of a host (Base/Words), results of system calls as
-- integers (Base/Int), buffers in memory with writes and reads that fault outside of them, and C
-- strings in a buffer (Base/Memory, Base/Load).
--
-- Fingerprinting/Traceroute/traceroute.c, of which Network_Mapping/Traceroute/Traceroute.c is a
-- copy: Checksum is `checksum`, on the bytes in memory; Traceroute/Packet is `create_packet`,
-- with the headers as records that are laid out as bytes; Traceroute/Route is `traceroute`,
-- which calls it in each round. `inet_addr` and the answers of the network are parameters. The
-- children hold the proofs: Checksum/Total is what the loop adds up, Checksum/Fold the two
-- folds.
--
-- Fingerprinting/Dnsenum/dnsenum.c is Dns/Dnsenum, Fingerprinting/Nslookup/nslookup.c is
-- Dns/Nslookup, Fingerprinting/Dig/dig.c is Dns/Dig, `main` of Fingerprinting/Host/host.c, which
-- has the same `build_query` and `parse_response`, is Dns/Host, and Fingerprinting/AXFR(DNS Zone
-- Transfer)/axfr.c is Dns/Axfr. Each has its functions under the source's names, in words
-- separated by `_`, on a buffer that held `garbage` before; `none` is an access outside the
-- buffer. Dns/HexDump is the loop by which dnsenum.c and axfr.c print a packet. Dns/Name says
-- what a domain name is on the wire, independently of the programs: they are measured by it.
--
-- Fingerprinting/Whois/whois.c is Whois.
--
-- Server-Client Relationship/SocketServer.c is Chat: `Chat` holds the tables `clientSockets` and
-- `clients` and a `Handler` for each thread of `handleClient`, in one of four phases. What a
-- thread does between two places where another may run is an `Event`; `step` is a function into
-- `Option`, `none` for an event that cannot happen, and `run` follows any list of events, so any
-- interleaving. Chat/Slots and Chat/Laws follow the first table, Chat/Records and Chat/Owned the
-- second, Chat/Places and Chat/Counted count the places of both, and Chat/Messages is about
-- messages. Chat/Room is what the server promises without its tables: a room whose members have
-- a name each. Its children relate the two. Chat/Threads is the same program at the grain of its
-- calls and of `clientsMutex`: a thread stands at a place of `handleClient`, `main` at a place
-- of its loop, and the call of `broadcastMessage` that holds the mutex is part of the state.
-- Chat/Threads/View says which state of Chat it shows, Commits, Handler and Listening at which
-- step of a thread Chat takes its own, and Mutex, Held, Exclusion, Release, Private and Waiting
-- are about the mutex and what it protects. Chat/Threads/Spoken lists the calls of
-- `broadcastMessage` in a run, and Balance compares them with what is sent; Chat/Inbox is what a
-- socket is sent. Chat/Serving is `main` with the listening socket in front of the loop.
-- `continues` is the next statement of a thread; it cannot happen in front of a mutex that is
-- held. The kernel is asked for sockets that are not in use, which are not 0, and for between 1
-- and 1023 bytes at a time.
--
-- Server-Client Relationship/SocketClient.c is Client: `receive_messages` is the thread that
-- prints messages, and `main` reads a standard input by `fgets` and `get_line` and gives texts
-- to `send`. Client/Lines and Client/Laws are about its input, and Client/Session runs it
-- against Chat, and Client/Delivery is about what another client prints.
--
-- Network_Mapping/TCP_CONNECT_SCAN, SCTP_SCAN, UDP_SCAN and TCP_SYN_SCAN are Scan/Connect,
-- Scan/Sctp, Scan/Udp and Scan/Syn; Scan has their common loop over the ports, with a probe as a
-- parameter, and what the kernel answers for each port; in Scan/Udp what `recvfrom` answers
-- depends on the number that the code passes for a pointer. Scan/Leaky is about the loops whose
-- probes leave their sockets open.
--
-- Network_Mapping/TCP_FIN_SCAN, TCP_NULL_SCAN, TCP_ACK_SCAN and TCP_XMAS_SCAN are Raw/Fin,
-- Raw/Null, Raw/Ack and Raw/Xmas. Raw has the headers of the first two, and the loop over the
-- ports, whose probes may fault and send packets; Raw/Padded has the TCP header of the last two,
-- with the padding that the compiler adds, and the packet that both build. The last two have a
-- `checksum` of their own; that of tcp_xmas_scan.c is read as its braces stand, so that it
-- returns in the first round of its loop. Raw/Segments is about the checksums of the headers,
-- Raw/Loop about the loop. These four files do not compile; each module says what the misprints
-- in its file are read as. tcp_null_scan.c uses structures and a checksum that it does not
-- declare, and they are taken from tcp_fin_scan.c. What the code never writes, such as the field
-- `ip_sum` when its header is summed, is part of a `World`, as are the addresses that the code
-- compares with flags.
--
-- Fuel and bounds: `encode_loop` of Dns/Dnsenum runs on fuel, one more than the length of the
-- name, and each round takes at least one character off the name; `talk` of Client runs on one
-- more than the length of the input, and each round reads at least one character. The theorems
-- on them show that this suffices. All other loops are structural. Machine words wrap around,
-- and the checksum's theorems ask for fewer than 2 ^ 17 bytes, on which its sum does not.
--
-- Not modelled: the other programs' dialogues with the terminal, time-outs, the text of error
-- messages, in Chat a thread that cannot be made and what becomes of a `send` (one to a closed
-- connection may end the program by a signal), in Client the moment at which the thread that
-- prints messages ends the program, and in TCP_SYN_SCAN what is sent, since the call of `sendto`
-- has no packet.
pub mod Base
pub mod Checksum
pub mod Traceroute
pub mod Dns
pub mod Scan
pub mod Raw
pub mod Chat
pub mod Client
pub mod Whois
pub mod Tests
