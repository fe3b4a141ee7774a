-- ===== src/Lib.antt =====
-- Verification of programs of the chunxiao-code repository, a collection of C programs and small
-- libraries that do not call one another. Each program is a tree of modules of its own; what they
-- share is in Prelude.
--
-- Prelude: the native numbers with Boolean tests, lists by native indices, signed integers (Prelude/Int),
-- well-founded order (Prelude/Order), and computations that may fault (Prelude/Fault): `none` stands for
-- an access outside an array, a read of a cell that was never written, or a loop out of fuel.
--
-- StrMatch/Kmp models c-study/str_match/kmp/kmp_test.c. `cal_next` and `kmp` are cal_next and KMP; the
-- bodies that the two loops of the source share are `fallback` (the inner while) and `advance` (one
-- round). The ints that start at -1 are held as their successors. The inner loop runs on fuel k + 1,
-- where k is the length of the current match: each entry of the table is smaller than its index. The
-- modules Occurs, Table and Search have the description of an occurrence, of the table and of the search.
--
-- Octpow models c-study/host-ac-test/octpow/com_octpow_sendpacket.c and .h, the client side of the EACP
-- protocol. Wire has the structs as the cells that go to the socket (little-endian, 8-byte pointers,
-- natural alignment; a cell that was never written is not a byte), Codes the message codes and macros,
-- Send what all functions share: octpow_cmd_send_recv with the result of sendto as a parameter, the
-- sequence number, and the header. Basic, Wtp, Sta, Acl and Alarm have one function for each C function,
-- with its name; Dispatch has the calls as data (`Request`, `AclRequest`) and the codes that the header
-- file documents. The interpretation of a packet by the receiver is in Header and Payload, the results
-- and acknowledgement bits in Replies. get_ifindex, get_macaddr, ac_add2 and the set-up of the socket
-- are system calls, files and printing, and are not modelled.
--
-- Pcap models pcap_modidy/ewx_pcap.c and .h, compiled with EWX_MMAP and without EWX_COMMON: a reader that
-- maps a capture file one window at a time. The record `Pcap` of State is ewx_pcap_t with the mapping as
-- its bytes and pointers as offsets; `Os` has what mmap returns, and a size_t wraps at 2 ^ 64 (Words).
-- Window has ewx_preread_file, ewx_pcap_read_prepare and ewx_pcap_rewind, Read has ewx_pcap_read,
-- ewx_pcap_read2 and ewx_pcap_convert, Open has ewx_pcap_open. The operations call one another as
-- in the source: both readers ask ewx_pcap_read_prepare for the header and then for the packet, and it
-- calls ewx_preread_file when the window is too short. Invariant says when a reader is valid; Front brings it to a packet, Flat
-- compares it with the bytes of the whole file, Opened says which files are opened; Endian is about the
-- two byte orders. Simple has
-- the functions on a file descriptor, whose system calls are a parameter (`Io`), and main of
-- pcap_modidy/pcap_modify.c, which Counting is about; the fuel of its loop is one more than there are
-- packets. Printing and closing are not modelled.
--
-- Tree models c-study/tree/tree.c. `create` is Create on the list of the characters that getchar gives,
-- with fuel one more than their number, which no depth of calls exceeds; malloc succeeds. A traversal
-- is the list of the characters that it prints. Input is about Create, Measures about the rest.
--
-- Dfa models c-study/dfa-about/nfa2dfa.c, the subset construction: Graph has the automaton and
-- Construct_Graph on what scanf gives, Moves has Smove and E_Closure on arrays of MAX characters, Dfa
-- itself BubbleSort. An array is a list, and a loop up to MAX or NumMaxChar goes to the end of its list. The outer loop of E_Closure has fuel one more than there are cells, since each
-- round reads the next cell. Positions is about GetVertexPos, Built compares the graph with the
-- text, Sorting is about BubbleSort, Cells, Gather and Moved are about sets in arrays and Smove,
-- Arrows has the moves as a relation, Closure and Closed are about E_Closure.
-- Table has Init_Matrix, CheckTable and NFA_to_DFA: strcmp and strcpy are parameters, and the names that
-- the user enters are a list. The loop over the rows has fuel one more than there are rows. Naming
-- is about a set that is looked up and entered, Filling about one cell of the matrix, Rounds about the
-- loops.
--
-- ArrayList models c-study/array-list/array_list.c, an array of chains of blocks of five cells. ArrayList
-- has add_elem and show_elem, Delete has del_elem with its locals as a record. A chain is the list of
-- its blocks, so that a position is the number of a block and of a cell; whether malloc succeeds is a
-- parameter. Chain says when a chain holds a list; Adding, Showing and Deleted are about the three
-- operations, the last for chains of one block.
--
-- Ring models c-study/dllist/ring_01/ring1.c, a linked queue changed by compare-and-swap. The shared
-- memory is a `Store`: the allocated nodes by address, with que.front and que.rear. A thread is a
-- place in QuePush or QuePop with its locals (`Pc`), and `step` makes one access to the shared memory;
-- the address that malloc gives is a parameter. Chain says when a store holds a queue, Alone is about
-- one thread, Race about a pop and a push by turns. Pushes has any number of calls of QuePush that run
-- by turns, as a relation; Together is what holds then, Moves and Links keep it step by step, Pushed
-- has what follows.
--
-- Brainfuck models c-study/brainfuck/brainfuck1.c: `Vm` is the machine with its code, stack and pointers,
-- and `Tape` its data with what getchar will give and what putchar was given. A char is given by its
-- bits, and an access outside an array is a fault. `run` has fuel for its rounds, of which the
-- theorems about it name the number. The table of callbacks is `op` and `exec`. Rounds is about
-- code without brackets, Commands has what the commands mean, Setup is about a whole program without
-- brackets, Loops about a loop, Skips about one
-- whose cell is zero at its start.
--
-- Dns models c-study/packet-process/dns.c on the bytes of a packet, where a pointer is an index. Dns
-- itself has url_convert, with fuel for its rounds, of which the counter of the source allows no more
-- than a hundred; `result` is a distance in the allocated buffer, whose cells are empty until they are
-- written. Process has is_dns_response and process_dns. The byte order of the machine and whether malloc
-- succeeds are parameters. Moved and Response are about names with a label.
--
-- Scanner models c-study/automaton/float.c: `State` has the eight states, `scan` is the loop of
-- nexttoken with fuel for its rounds, and `ahead` is forward + 1. Numbers has a grammar of numbers,
-- Reading is about the states on the parts of a number, Tokens about nexttoken.
--
-- Locker models locker.c and locker_pthread.c in c-study/dllist/chunxiao_list: a lock that its owner
-- may take again. A thread is a place in locker_loop_lock or locker_loop_unlock (`Pc`), with the
-- number of its calls that are not undone; `step` makes one access to the shared fields, `Step` and
-- `Reach` are the turns of any number of threads. A thread is its pthread_self value, and `task_self`
-- cuts it to an int as the source does. The mutex is a parameter (`Pthread`, with `Laws`).
-- Invariant says what each place may rely on (`Apart`: the cut values tell the threads apart and are not
-- 0), Safety who is inside.
--
-- Dlist models dlist.c there, a ring of nodes linked in both directions: `Heap` has a function for each
-- field of a node, malloc gives an address that is a parameter, and the calls of the locker and of
-- data_destroy are recorded in order (`Event`), those of lock and unlock with the memory at that moment. The loops have fuel, one round more than there are
-- nodes. Chain says when a memory holds a list, Linking is about a new node between two; Adding, Walking and
-- Destroying are about the functions.
--
-- Duff models c-study/duff_device/duff_device.c: `case_from` has the labels, `rounds_left` the loop that
-- they stand in. EmList models c-study/dllist/list_05/signal.c, a list reversed in place, with fuel for
-- one round more than there are nodes.
--
-- Factor models the main functions of c-study/leetcode/d.c and e.c for any number: `strip` and `restart`
-- are their loops, with fuel of twice the number; e.c prints 64 bits with %d, which is `percent_d`. Least is about least divisors, Loops about the two.
--
-- Happy models c-study/leetcode/happy_num.c: `search_one` has fuel one more than there are cells to mark.
-- Orbit has the chain of the sums as data types, Bounds is about the size of the array.
--
-- Expand models l7_pattern_expand of c-study/leetcode/a.c on the arrays of its characters; strcpy is a
-- parameter, and the loop has fuel one more than the array has characters. Grammar has
-- the strings it makes as a data type, Escaped compares the loop with them, Whole the function.
--
-- NextBigger models c-study/leetcode/next_bigger.c on 32 bits. Digits has the bit operations on fields of
-- numbers, Ones counts ones, Shape is about numbers with a block of ones, Values about what the two
-- functions make of one, Next about the number that they find.
--
-- Programs that are copies of other projects (Aho-Corasick libraries, regular expression matchers, DES,
-- a thread pool, DPDK examples), generated parsers, drivers and demonstrations of system calls are
-- left out: they are not this repository's own logic or have no result besides their effects.
pub mod Prelude
pub mod StrMatch
pub mod Octpow
pub mod Pcap
pub mod Tree
pub mod Dfa
pub mod ArrayList
pub mod Ring
pub mod Brainfuck
pub mod Dns
pub mod Scanner
pub mod Locker
pub mod Dlist
pub mod Duff
pub mod EmList
pub mod Factor
pub mod Happy
pub mod NextBigger
pub mod Expand
