-- ===== src/Lib.antt =====
-- Verification library of the router's PPPoE and L2TP daemons: rp-pppoe, which carries PPP over
-- Ethernet and has a client, a server and a relay, and xl2tpd, which carries PPP over L2TP tunnels.
--
-- Parts of the program, and where they are modelled:
-- - Fcs: the check sequence of PPP frames. `fcstab` and `pppFCS16` of rp-pppoe/src/ppp.c, and
--   `ppp_crc16_table` and `add_fcs` of xl2tpd/control.c. Fcs/Check has the proofs.
-- - Pppoe/Packet: the packet of rp-pppoe/src/pppoe.h and its constants. A 16-bit field in network
--   order is the number on the wire; `payload` is the whole array of 1508 bytes.
-- - Pppoe/Tags: `parsePacket` and `findTag` of rp-pppoe/src/common.c. Tags/Scan is the tag format as a
--   relation, Tags/Parse and Tags/Find relate the two functions to it. A read of the array is checked:
--   `none` is a read outside it.
-- - Pppoe/Framing: `initPPP` and `asyncReadFromPPP` of rp-pppoe/src/ppp.c, and the encoder at the end
--   of `asyncReadFromEth` of rp-pppoe/src/pppoe.c. Framing/Feed reduces the loops to single bytes,
--   Framing/RoundTrip takes frames apart that the encoder built.
-- - Pppoe/Bytes: `insertBytes`, `removeBytes` and `addTag` of rp-pppoe/src/relay.c; proofs in
--   Bytes/Splice.
-- - Pppoe/Relay: the table of sessions of rp-pppoe/src/relay.c (`initRelay`, `createSession`,
--   `freeSession`, `addHash`, `unhash`, `findSession`). Sessions and hash entries are indices, linked
--   lists are lists of indices, and the arrays are functions. Relay/Table has the lookups.
-- - Pppoe/Relay/Ports, Offers, Pads and Handlers: what the relay does with each packet. Ports has the
--   interfaces and what the handlers share, with `relaySendError`; Offers the handlers of PADI, PADO
--   and PADR; Pads that of PADS; Handlers that of PADT, `relayGotDiscoveryPacket`,
--   `relayGotSessionPacket` and `cleanSessions`. A handler takes the interfaces, the packet and the
--   table, and returns the packets that go to `sendPacket` and the new table; `none` is a fault.
--   Handlers/Forward and Handlers/Created are about session packets, Offers/Padi about PADI,
--   Offers/Targets and Offers/Answers about PADO and PADR.
-- - Pppoe/Relay/Invariant: when a table is well formed (`IsValid`), for a number of interfaces. Link,
--   Create and Free are about `createSession` and `freeSession`, Lookup about `findSession`, Steps,
--   Discovery, Always and Clean about the handlers and `cleanSessions`, and Run about the rounds of
--   `relayLoop` as a step relation.
-- - Pppoe/Clamp: `computeTCPChecksum` and `clampMSS` of rp-pppoe/src/common.c, with every access to
--   the payload checked. Clamp/Options is the format of TCP options, Clamp/Sum has the sum without its
--   wrap, Clamp/Carry the folding of the carries, Clamp/Checksum a checksum that is filled in,
--   Clamp/Written the part that writes, Clamp/Outcome what may come of a packet, Clamp/Clamped is
--   about the whole of `clampMSS`, Clamp/Outside the length that the IP header claims.
-- - Pppoe/Server: the pool of sessions of rp-pppoe/src/pppoe-server.c (`pppoe_alloc_session`,
--   `pppoe_free_session`, and the linking in `main`) with its lists as pointers, `processPADT`, and
--   `incrementIPAddress`. Server/Lists and Server/Unlink are about lists held by pointers,
--   Server/Alloc, Server/Release and Server/Run compare the pool with a queue, Server/Padt is about
--   `processPADT`.
-- - Pppoe/Discovery: the client, rp-pppoe/src/discovery.c, as it is built without `PLUGIN` and run
--   without `skipDiscovery`. The file itself has `packetIsForMe`, `parsePADOTags`, `parsePADSTags`,
--   `waitForPADO` and `waitForPADS`, which take as a list what `receivePacket` of rp-pppoe/src/if.c
--   fills in before the timeout, failures of `recv` included; Send has `sendPADI` and `sendPADR`, and
--   Run has `discovery`, driven by the list of its waits. Discovery/Mine is about tags that it looks
--   for, Discovery/Granted about `waitForPADS`, Reads about the reads of a packet, Bounded and Silent
--   about whole runs.
-- - Xl2tpd/Scheduler: the queue of timed events, xl2tpd/scheduler.c. The clock is the list of what
--   `gettimeofday` returns; a callback is a function on the queue and the rest of the state.
--   Scheduler/Order is about the order of the queue, Scheduler/Process about single rounds and
--   Scheduler/Ends about the end of `process_schedule`.
-- - Xl2tpd/Control: the receiving side of the control channel, xl2tpd/control.c (`check_control`,
--   `handle_control`, `handle_special`, `control_zlb`), with the acknowledgement of `network_thread`.
-- - Xl2tpd/Retransmit: the sending side, `control_xmit` of xl2tpd/network.c; the timer that it sets
--   calls it again.
-- - Xl2tpd/Payload: the headers of data packets, `add_payload_hdr` of xl2tpd/call.c, `check_payload`
--   and `expand_payload` of xl2tpd/control.c.
-- - Xl2tpd/Avp: the contents of control messages. The file itself has the calls and tunnels, as a
--   store of calls by address; a read outside the buffer or through a null pointer is `none`. Of
--   xl2tpd/avp.c, Message has `message_type_avp` (and `new_call` of xl2tpd/call.c), Fields the
--   handlers of AVPs with numbers, Texts those of AVPs with text, and Loop `handle_avps`. Hidden has
--   `decrypt_avp` and `encrypt_avp` of xl2tpd/aaa.c, and Send has xl2tpd/avpsend.c with the SCCRQ of
--   `control_finish`. Avp/Returns goes through the handlers, Avp/Reads and Avp/Total through the loop;
--   Avp/Deliver is about messages whose AVPs are well formed, Avp/Crash about a null pointer.
--   Hidden/Header, Hidden/Segments and Hidden/RoundTrip are about hidden AVPs, Avp/Opening,
--   Opening/Built and Opening/RoundTrip about that SCCRQ, read by `handle_avps`.
-- - Xl2tpd/Hdlc: the frames between the daemon and pppd, the conversion in `write_packet` of
--   xl2tpd/control.c and `read_packet` of xl2tpd/call.c. The results of `read` are a list.
--   Hdlc/RoundTrip reads what was written, Hdlc/Fits is about the room for it, Hdlc/Chunks is about
--   frames that come in parts.
-- - Xl2tpd/Addresses: `init_addr`, `ip_used`, `reserve_addr`, `unreserve_addr` and `get_addr` of
--   xl2tpd/aaa.c. Addresses/InUse compares the table with a set, Addresses/Offered says which
--   addresses may be given, Addresses/Choice is about `get_addr`.
-- - Xl2tpd/Access: `get_lns` of xl2tpd/aaa.c, by the access lists; proofs in Access/Allowed.
-- - Prelude: library names, Boolean tests on numbers, lists over the native numbers, signed numbers,
--   and checks by evaluation over all numbers below a bound.
--
-- Interaction. The relay's handlers use the tags to find their own tag in a packet, the moves in a
-- packet to add and remove it, and the table to translate session packets. The control channel's
-- messages are sent by `control_xmit`, which puts itself on the scheduler's queue, until the number
-- that `check_control` takes from the peer's messages confirms them. The contents of those messages
-- are written by the functions of Xl2tpd/Avp/Send and read by `handle_avps`, which leaves what it read
-- in the call and its tunnel. The data packets of a call are numbered apart from the control channel.
-- The checks of rp-pppoe and of xl2tpd share the check sequence.
--
-- Bounds and fuel. `parse_packet` and `find_tag` run on fuel one above the packet's length: each round
-- moves on by four bytes at least. `handle_avps` runs on fuel one above the bytes left: each pass
-- skips a byte at least. The client's run is a recursion on its waits. `async_read_from_ppp` has one
-- unit more than there are bytes: each round reads a byte at least. `process_schedule` is a recursion
-- on the readings of the clock. The search for the MSS option has 41 units: a header has 40 bytes of
-- options at most, and each round moves on by one. The carries of a 32-bit sum are folded after three
-- rounds, of four. `get_addr` is given 2^32 rounds for a range. 16-bit counters wrap by `% 65536`. The
-- machine is little-endian with 32-bit `int` and 64-bit `size_t`; C's promotion of 16-bit numbers to
-- `int` is written out where a difference of them is compared.
--
-- Not modelled: sockets, processes, terminals, logging and configuration; libevent and MD5, which is
-- an argument of `decrypt_avp` and `encrypt_avp`; of rp-pppoe the clock of the client's waits,
-- `sendPADT`, and of its server all but the pool, `processPADT` and `incrementIPAddress`; and of
-- xl2tpd the secrets, `control_finish` but for the contents of its SCCRQ, and the lists of tunnels and
-- calls. The text of an error that `handle_avps` formats is left out, its code is not. A random vector
-- is kept as the bytes it points to. `write_packet` ends where its buffer is full of the frame; the
-- loop around `write` is I/O. `handle_avps` with `control_finish` is the argument `handle` of
-- `handle_control`. The function that stops a session of the server is an argument of `process_padt`.
pub mod Prelude
pub mod Fcs
pub mod Pppoe
pub mod Xl2tpd
