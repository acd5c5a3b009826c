-- ===== src/Lib.antt =====
-- gogoboot is a boot loader for 68000-family computers: it brings the machine up, loads kernels from
-- disk or over the network, and starts them. This development models the parts of it that carry its own
-- logic, as executable definitions, and proves what makes them correct.
--
-- Base: shared names, lists over native numbers, bit operations, signed integers.
-- Libgcc: the 32-bit division routines of libgcc/udivmodsi4.c, libgcc/udivmod.c and libgcc/divmod.c.
--   Each loop of __udivmodsi4 has 33 rounds, one more than a word has bits.
-- Tinyalloc: the heap allocator of lib/tinyalloc.c, as it is built (with compaction and splitting).
--   The state is the heap's header; a linked list of descriptors is the list of its blocks. A size_t
--   wraps at 2^32. Its loops are recursions on these lists.
-- Timer: the timers of core/timer.c and include/timers.h, on a tick counter of 32 bits that wraps.
-- Dhcp: the DHCP client of net/dhcp.c: its messages, the option parser, the state machine. It sets its
--   timer by Timer. Packets and timeouts are events; what it sends is kept in order. The option loop
--   is a recursion on the bytes that are left.
-- Arp: the ARP cache of net/arp.c: the list of entries, requests and replies, the flush and the
--   resolution of a packet's next hop. Its timers are Timer's.
-- Ram: the measurement of the RAM and the check of ranges in core/mem.c. What the hardware makes of an
--   address is a parameter. The loops count units, of which there are less than 65535.
-- Checksum: the sums of net/ipcsum.c and the IPv4, ICMP and UDP checksums on lists of bytes. The carry
--   loop has three rounds, which every sum of 32 bits leaves it within.
-- Packet: the queues of net/packet.c, with the `next` pointers of the packets as a function.
-- Sink: packets and the list of packet sinks of include/net.h and net/net.c: score, order, match. A
--   sink's queue is the list that Packet shows it to be.
-- Net: the receive and the transmit pipe of net/net.c and the packets that wait for an Ethernet address.
--   It checks and fills packets by Checksum, delivers them by Sink and resolves addresses by Arp. The
--   network driver is a parameter: whether it takes a packet at once. The ARP messages that a resolution
--   sends stay in Arp's state.
-- Strtoul: the reading of numbers in lib/strtoul.c, a recursion on the bytes of the string.
-- Tftp: the TFTP client of net/tftp.c, its request, the acknowledgement of its options, both directions of
--   a transfer, and its callbacks. The file system is a parameter: what a read and a write of the disk
--   file give, a failure included. The options have a round for each byte, and a round takes two; the
--   number in a request has ten digits at most.
-- Environment: the environment variables of cli/cli_env.c, a list of entries; numbers are read by Strtoul.
-- Command: the splitting of a command line into arguments in cli/cli.c, a recursion on the room for them.
-- Editor: the line editor of cli/cli.c, a recursion on what the console gives in turn.
-- Loader: the loading of a segment and the bounce buffer of core/loader.c, on one memory, the heap's bytes
--   included. FatFs is a parameter. Ram says what may be written, Tinyalloc hands out the buffer.
-- Elf: the loading of an ELF executable in core/loader.c, as it is built for the mini target: its header,
--   the range of its segments, and the segments in their order, each by Loader.
-- Launch: the command line, the start of a program in core/loader.c, and the copying routine of
--   q40/execute.s, whose dbra counts down 16 bits: its rounds are the longwords of the buffer by 65536.
-- Ipv4: the making of IPv4, ICMP and UDP packets and the reading of addresses in net/ipv4.c. An address has
--   four rounds, as the loop has. What the heap hands out for a packet is an argument.
-- Icmp: the echo replies of net/icmp.c, and its message that a packet was not wanted, with the timer that
--   limits how often it is sent. It makes packets by Ipv4, sends them by Net and sets its timer by Timer.
--
-- The parts meet where the code calls from one into another: Dhcp and Arp set their timers by Timer; Net
-- calls Checksum, Sink and Arp; Tftp reads numbers by Strtoul; Elf and Launch load by Loader, which asks
-- Ram and Tinyalloc; Icmp answers by Ipv4 and Net. What Dhcp, Arp and Tftp send is kept in
-- order, and an event is what the network core calls them with.
--
-- Not modelled: the polling loop of net/net.c, which calls the sinks' callbacks, and the loop of
-- net/tftp.c around it; the network driver; the boot information for a Linux kernel in core/loader.c, which
-- is not built for the mini target; the rest of the command line (cli/); the FAT file system under fatfs/
-- (a copy of FatFs) and its glue; other assembly sources, linker scripts, and the code that only drives
-- hardware registers or prints.
pub mod Base
pub mod Libgcc
pub mod Tinyalloc
pub mod Timer
pub mod Dhcp
pub mod Arp
pub mod Ram
pub mod Checksum
pub mod Packet
pub mod Sink
pub mod Net
pub mod Strtoul
pub mod Tftp
pub mod Environment
pub mod Command
pub mod Loader
pub mod Elf
pub mod Launch
pub mod Ipv4
pub mod Icmp
pub mod Editor
