-- ===== src/Lib.antt =====
-- wlr-remote lets another device on the network move the mouse pointer of a Wayland compositor. Its
-- server (src/main.c) reads a password, connects to the compositor, opens a UDP socket for IPv4 and
-- one for IPv6, decrypts what arrives with tinydtls under the password as a pre-shared key, and turns
-- each packet into requests to a virtual pointer. On the way it announces itself and answers
-- questions over mDNS. A client for tests (src/test-client.c) performs the handshake and sends fifty
-- packets. This library models both, in the order of their parts:
--
--   Base          numbers, lists, the integers of C (32-bit wrap-around is written out).
--   Libc          what the program uses of the C library and could compute itself: fgets, strcspn,
--                 strlen, snprintf, strtol, and the byte order of numbers (ntohl and its kin).
--   System        the surroundings. Env is a record of parameters: what the kernel, tinydtls,
--                 libwayland and lib/mdns.h answer, each a function of the trace so far. Event
--                 lists what the program can do to its surroundings; a trace is a list of events,
--                 the newest first. Monad is the state passing that the operations are written in.
--                 Descriptors counts how often a descriptor is open after a trace, Objects the
--                 contexts, displays, registries, pointers and lists of addresses that were not yet
--                 freed, and how many contexts were ever made, Ledger the blocks of memory, the
--                 epoll sets, and the faults: what was closed or freed without being there. Notices
--                 lists what was announced over mDNS and retracted, and every record that was sent;
--                 Grants what tinydtls was given as credentials, with the calls that asked for
--                 them; Traffic what went out over UDP and what tinydtls wanted to; Controls what
--                 was done to the epoll sets and which were waited on; Terminal says whether the
--                 echo is on; Signals which handlers of signals were installed.
--   Pointer       src/virtual_pointer.c: vp_handle_packet and the listener of the registry.
--                 Commands says in its own words which requests a packet asks for.
--   Packet        src/common.h `struct mouse_packet`, src/network.c net_handle_receive, and the
--                 writing of a packet in src/test-client.c, main.
--   Setup         src/setup.c: the signals, the password, the port.
--   Network       src/network.c: Sockets (net_setup_udp_sockets), Epoll (net_setup_epoll),
--                 Callbacks (the table that tinydtls calls), Receive (net_handle_epoll).
--   Advertise     src/advertise.c: Types (src/advertise.h), Interfaces (get_interfaces,
--                 create_mdns_sockets), Strings (create_service_strings), Records
--                 (create_mdns_records, build_additional), Respond (service_callback,
--                 advertise_respond_request), Service (the life of the service). Service/Made says
--                 what a service is like that was made, Records/Own which records are its own, and
--                 Respond/Own and Service/Own that no other record is sent.
--   Main          src/main.c: Loop (the event loop), Cleanup (the labels), Program (main).
--                 Served/Laws is the interface of the event loop, a record of what a statement on
--                 traces needs for the loop to keep it. Served/Invariant is the narrower one of a
--                 statement about the receiving side and the state that the loop passes on, which
--                 Served/Rounds to Whole carry through main: Network/Receive has four that fill it
--                 (Delivery, Played, Grants, Traffic). Walk is the interface of main: its stages up
--                 to the loop, each with what holds at it, and the laws that lead from one to the
--                 next. Stages is the narrower one of a statement that is trivial before the service
--                 is made; it names what a run has made by each stage: its sockets, its epoll set,
--                 its service. Ends is about a run up to its end: Returns, Status (which exit status),
--                 Closes, Frees, Settled (memory and descriptors), Farewell (what was announced is
--                 retracted), Tells (which records were sent), Grants (what was given of the
--                 password), Traffic (what went out over UDP) and Attends (what is waited for);
--                 all but Closes fill Walk, three of them through Stages.
--   TestClient    src/test-client.c: Types (its constants, and ClientEnv, which adds getaddrinfo
--                 and select to Env), Callbacks (its table), Program (main with the handshake and
--                 the sending). Agreement joins its credentials to the server's, Drag its packets
--                 to the server's requests, Passed a run of the one to a run of the other.
--   Tests         a concrete Env, and runs of the operations in it.
--
-- Each function of the source is a definition of the same name. A function that a C body is too long
-- for is cut at a branch or at a label, and the parts are named for what they do; a `goto` is a call
-- of the label's definition. An operation takes the trace and returns it with the events of its own
-- added, so every call of a library, every message, allocation and descriptor is visible in it, and
-- every call that tinydtls makes of a handler (the event dtls_called). The struct client_state is
-- passed where C passes a pointer to it; it is not changed by the callbacks. The client's static
-- variables are a record, Vars, which its handlers return. The server's quit is what the handlers
-- that setup_signals installed make of the signals that came (System/Signals). When a context of
-- tinydtls is freed it calls the handlers too, while the sockets are open. Where main ends by
-- `exit`, Setup returns `exited`.
--
-- Loops are structural recursion over a list (addresses, interfaces, epoll events, queries). The loop
-- of net_handle_epoll and the event loop run as long as their surroundings keep them going, so they
-- recurse on fuel, and end with none where it is spent; so does the client's handshake. The theorems
-- on termination say which fuel is enough: for net_handle_epoll, a bound on the datagrams that arrive;
-- for the event loop, a bound on the waits before a signal or a failure ends it; for the handshake, a
-- bound on the times that select reports a datagram. Statements on a trace hold for every fuel.
--
-- tinydtls is a parameter: for each datagram, and when a context is freed, it makes some number of
-- calls through the callback table, each with arguments of its choice, and then returns a number.
-- Statements about the receiving side hold for all of its choices. Other laws that a statement
-- needs are hypotheses with the name of the documented behaviour: SocketLaws (the kernel gives out
-- no descriptor that is open), SendLaws (no more is sent than was given), AlertLaws (an alert's
-- code is negative), ArrivalLaws (no more than a number of datagrams arrive), QuitLaws (the
-- process was sent SIGINT or SIGTERM, and handled it, once it has waited a number of times),
-- ResolvedLaws (an address that getaddrinfo reports has the family of its entry), SilenceLaws
-- (select reports a datagram only so often), PlaintextLaws (what tinydtls passes on consists of
-- bytes), HostnameLaws (a host's name is no longer than HOST_NAME_MAX), FixedLaws (on integers
-- that fit 24.8 bits the conversion of libwayland maps 0 and nothing else to 0). Tests has a world
-- in which they hold.
--
-- A buffer in C is a list of its bytes. Bytes that the program reads before anything wrote them stand
-- for an unknown content: the address of a client in a message is then none.
--
-- Not modelled: lib/mdns.h, a copy of another project's library, of which the sockets, the parsing
-- and the sending are parameters and events; the protocol description in lib/ and the code generated
-- from it; the hints that are passed to getaddrinfo, which are constants; the contents of static
-- buffers between two calls.
pub mod Base
pub mod Libc
pub mod System
pub mod Pointer
pub mod Packet
pub mod Setup
pub mod Network
pub mod Advertise
pub mod Main
pub mod TestClient
pub mod Tests
