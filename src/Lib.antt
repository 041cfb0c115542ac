-- ===== src/Lib.antt =====
-- Verification of the proxy: a virtual Ethernet between hosts, each with a tap device, that pass
-- frames and link state packets over TCP.
--
-- The parts and their files. The program is cs352proxy.c, with helper.c, packets.c and packets.h.
--   * Packets: the structures and constants of packets.h. `LinkstateNode` is a `linkstate_node`: a
--     `Link`, its fields, and the address of the next node.
--   * Helper: `htonll` with its static variable, `comp_mac_addrs`, `comp_mac_zero` and `gettimeid`
--     of helper.c. Tunnel is its `allocate_tunnel`, over what the kernel answers. A host of either
--     byte order is meant: the argument `big` of all that reads or writes memory says whether the
--     most significant byte comes first.
--   * Memory: integers in memory and the buffers of bytes.
--   * Codec: the `hton` and `ntoh` functions of packets.c, but the two for link state packets.
--   * Heap: the nodes on the heap, and the outcomes of a run (`Run`): it goes on, or accesses memory
--     that it may not (`fault`), waits for a mutex that it holds (`blocked`), exits, or is out of
--     fuel.
--   * Linkstate: `htonLinkstate` and `ntohLinkstate` of packets.c.
--   * State: the globals of cs352proxy.c, the mutex `deleterlock`, the clock and what was sent, with
--     commands that pass the state on. State.UtHash is the interface of uthash.h with its documented
--     behaviour.
--   * Sockets: `addsockfd`, `deletesockfd` and `find_socketfd`.
--   * Members: the membership list: `in_member_list`, `get_lowest_saved_distance`,
--     `delete_members`, `add_members`, `add_member_connect`, `removeExpiredMembers`.
--   * Links: `create_link_packet`, a period of `sendPackets` and of `checkLinkTimeOut`, and
--     `connecttohost`.
--   * Handlers: a round of `TAPHandle` and of `TCPHandle`.
--   * Network: two hosts, with `connecttohost`, `sendPackets` and `checkLinkTimeOut` on one or the other
--     and rounds of `TCPHandle` on both.
--   * Threads: the rounds of all threads of one host, one after another in any order. State.Moves and
--     the modules Moves of Members, Links and Handlers hold what it needs of each function.
--   * Text: what the program uses of `strtok`, `atoi`, `fgets` and `sscanf`.
--   * Config: the loop of `main` over the lines of the configuration file, with the list of peers.
--     `UtList` is the interface of utlist.h with its documented behaviour.
--   * Startup: `main` up to its first thread, over what the host answers, its loop over the peers
--     and the threads that it creates. Startup.Workers is `acceptconn` and its threads, as a step
--     relation.
--   * Old: cs352proxy_old.c, the first version of the program, which the makefile does not build.
--   * Tests: the theorems at concrete inputs.
-- The threads share the membership list and the table of sockets: TCPHandle extends them from the
-- packets that the Codec and Linkstate read, sendPackets sends the list to every socket, TAPHandle
-- sends frames to every socket, and checkLinkTimeOut prunes both.
--
-- Integers are natural numbers; a result of C arithmetic that can wrap is taken modulo 2 ^ 32 or
-- 2 ^ 16, and an `int` below zero stands as its pattern of 32 bits. `malloc` gives fresh addresses
-- and memory with arbitrary contents, and fails for a size below zero only. The walks over a list
-- are on fuel: n + 1 is enough for a list of n nodes, which the theorems state as the hypothesis
-- `length xs < fuel`. The loop over the configuration file takes one unit for each line.
--
-- Text is a list of bytes. `inet_aton` is any function, and so is what the host, the kernel and the
-- network answer. `atoi` and the conversion `%hhX` are those of the standard on the digits that they
-- may meet; a sign or a `0x` in front of hexadecimal digits is not read.
--
-- Not modelled: the wait of `main` for its threads; the sleeps, and the output on the terminal but
-- for its reads of memory; uthash.h and utlist.h, which are copies of libraries. A round of a thread is
-- one command, which no other thread interrupts: the threads interleave by rounds, in Threads, and
-- the overlap of rounds, of which the mutex guards only parts, is not modelled. The worker threads of
-- `acceptconn` interleave with its loop.
mod Base
pub mod Memory
pub mod Packets
pub mod Helper
pub mod Codec
pub mod Heap
pub mod Text
pub mod Linkstate
pub mod State
pub mod Sockets
pub mod Members
pub mod Links
pub mod Handlers
pub mod Tunnel
pub mod Config
pub mod Startup
pub mod Network
pub mod Threads
pub mod Old
pub mod Tests
