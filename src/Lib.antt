-- ===== src/Lib.antt =====
-- A model of the ESP32 PPPoE router: its packet filter, interface hooks, packet capture, DHCP
-- reservations, port mappings, remote console, and its password with the access from the WAN.
--
-- Acl models components/acl: four rule lists (`acl_add`, `acl_delete`, `acl_clear`, ... of acl.c),
-- and the decision that the netif hooks take for each packet (`acl_check_packet`). Acl has the
-- tables, Acl/Frame the header parser, Acl/Check the decision; Acl/Table, Acl/Requests,
-- Acl/Frame/Safety and Acl/Check/* have the proofs. Acl/Text has addresses as text, and
-- Acl/Storage models components/acl/acl_nvs.c, the lists in flash storage. An array
-- indexed by the list number is a function of the number.
-- Pcap/Ringbuf models components/pcap_capture/pcap_ringbuf.c, the byte ring between the packet
-- hooks and the task that streams a capture; Fifo is the queue that it implements, Steps and Runs
-- relate the two.
-- Pcap/Capture models components/pcap_capture/pcap_capture.c: which packets are captured, the
-- record that goes to the ring, and the state of a session; Record and Session have the proofs.
-- Dhcp models main/dhcp_manager.c: Reservations is the table of reserved addresses and its
-- searches, Pool the range that is shown, Clients the list of connected clients.
-- Portmap models main/portmap.c; the calls of the NAT engine are a list.
-- Hooks models main/netif_hooks.c: Ttl is the TTL override with its checksum, Uplink the four hooks
-- of the uplink, which call the packet filter and the capture; Filter, Deny and Total have the
-- proofs about them. Mss is the lowering of the MSS option in a SYN, whose option loop has 41
-- rounds, one more than an option list has bytes; ClientStats is the table of the clients' traffic;
-- AccessPoint has the hooks of the access point, with the VPN's kill switch and the ICMP answer.
-- Console models components/remote_console/remote_console.c: Output is the capture of what commands
-- print and its way to the client, Line the line reader, Auth the login, Session the loop over the
-- client's commands, Server the task and the calls that start and stop it. A loop that waits for a
-- client runs over the list of what it meets, and has a result for the end of that list. The task
-- is a step function, and the console a step relation over its task and calls.
-- Password models the router's password in components/cmd_router/cmd_router.c, with its digest as
-- a parameter; Wan the access from the WAN, which the same file and
-- components/http_server/http_server.c let in only with a password, and its rule in the filter.
-- Web models the access to the web pages of components/http_server/http_server.c: Cookie the search
-- for a cookie, Csrf the test of the origin, Session the one session with its token.
-- Syslog models what components/syslog/syslog_client.c sends of a log line: its level and its text
-- without colour codes.
-- Base has the shared names, the list and slot lemmas, tables searched by a key, and
-- reads and writes of bytes with a bounds check: their `none` is an access out of bounds.
--
-- Numbers are natural numbers; a C unsigned type of w bits has its wrap-around written out. A
-- function that holds a mutex over its body is one step; where a function waits without it, there
-- are two. Times, the results of allocation and of FreeRTOS calls are arguments. Loops over
-- arrays are recursions over the list of slots or on a count of rounds that the C bound gives, so
-- nothing runs out of fuel; the folding of a checksum has three rounds, enough for every 32-bit
-- sum.
--
-- Not modelled: the other commands of the console, the content of the web pages, the drivers, logging and printing, and the NAT engine;
-- dynamic DNS, the queue and the task of the syslog client, MQTT, the VPN and PPPoE managers; and the
-- DHCP server and PPPoE client, which are copies of ESP-IDF and lwIP code. What the C library, NVS,
-- lwIP and FreeRTOS do is an argument of the functions that use it.
pub mod Base
pub mod Acl
pub mod Console
pub mod Dhcp
pub mod Hooks
pub mod Password
pub mod Pcap
pub mod Portmap
pub mod Syslog
pub mod Wan
pub mod Web
