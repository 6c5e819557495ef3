-- ===== src/Lib.antt =====
-- A model of C and C++ programs of this repository, with the theorems that make them correct.
--
-- The directories c/ and cpp/ hold independent programs. Modelled here:
--
-- c/dotjson, a JSON library, in Dotjson and its child modules. A C string is the list of its bytes
-- up to the NUL: a pointer into it is the rest of the list, `peek` reads `*p` and is 0 at the end, and
-- the distance that a function returns is the difference of two lengths.
--   * Dotjson.Text: IGNORE_SPACE, ignore_chars and IGNORE_CHARS; the Boolean argument of `ignore` is
--     DOTJSON_FEATURE_COMMENT.
--   * Dotjson.Utf8: uc_2_utf8. Dotjson.Escape: unescape_str, with its buffer as a list;
--     Dotjson.Escape.Values: what the escapes stand for.
--   * Dotjson.Node: the nodes of dotjson.h, and the result of a decoder (`Decoded`).
--   * Dotjson.Number, Dotjson.Quoted: decode_number, decode_string, encode_string.
--   * Dotjson.Table: hash, min_bucket, object_find, object_slot, object_grow, dotjson_object_get, over
--     any type of values.
--   * Dotjson.Decode: array_grow, decode_array, decode_object, decode_node, dotjson_decode. The
--     decoders of arrays and objects take the decoder of their values as an argument; decode_node ties
--     the knot, at one unit of fuel for each level of nesting.
--   * Dotjson.Encode: encode_object, encode_node and dotjson_encode, on a memory of bytes.
--   * Dotjson.Destroy: dotjson_destroy, by the number of its calls of free.
--   * Dotjson.Document: the nodes whose text can be read back (`Printable`), and what decoding makes of
--     them (`rebuild`): tables and arrays are built anew. Its child modules follow the decoders' loops
--     through a printed node; Dotjson.Document.Same says of two nodes that they have the same items and
--     entries, Dotjson.Document.Rebuilt that a rebuilt node has those of the old one; and
--     Dotjson.Document.Stored joins encoder and decoder at a buffer.
--   * Dotjson.Examples and Dotjson.Document.Examples: the theorems at concrete texts and tables.
--
-- c/tcp_echo, an echo server, in TcpEcho: handle_client_io and the part of main that turns an epoll
-- event into the flags prd and pwr. The answers of the kernel to read and write are lists, in the
-- order of the calls; what the manual pages promise of them is a hypothesis (TcpEcho.Intact.Fair). The
-- fields `received` and `sent` of a client record what went over its socket. TcpEcho.Intact and
-- TcpEcho.Drained have the theorems on one client. TcpEcho.Server has the rest: the contexts at their
-- addresses, the listener, and main with its loop over epoll_wait; TcpEcho.Server.Promises has the
-- hypotheses on the kernel, TcpEcho.Server.Sound with Opened and Closed beside it, and
-- TcpEcho.Server.Safe, what its runs keep. An event carries, unseen by the program, its descriptor.
-- TcpEcho.Examples has short runs.
--
-- c/thrpool, a pool of threads, in Thrpool: what a thread does while it holds task_m, on the linked
-- tasks as a function from addresses. Thrpool.Queue relates them to the list of queued tasks;
-- Thrpool.Examples has a pool with two tasks.
-- Thrpool.Threads has the threads of a pool, counted by where they stand, and their steps;
-- Thrpool.Threads.Invariant what each step preserves, Thrpool.Threads.Reached and
-- Thrpool.Threads.Progress what follows in the states they come to, and
-- Thrpool.Threads.Examples a pool with one worker. What a thread does under a mutex is one step, and so
-- are the test of `destroy` and the lock in thrpool_wait.
--
-- cpp/md5, the MD5 sum, in Md5: the class MD5p, the 64 lines of Update as a table. Md5.Rfc is
-- RFC 1321, with its own functions, words and padding; Md5.Rounds compares the loops, Md5.Sum the sums;
-- Md5.Lists has parts of lists, Md5.Examples sums of short messages.
--
-- cpp/wohn, a tool that shares a connection over a hosted wireless network, in Wohn: WohnCore.cpp with
-- its static variables as records. What the system's calls answer is an argument, and what they acquire
-- and give back is counted.
--   * Wohn.Notify: cor_register_notify, cor_unregister_notify and cor_wlan_notification.
--   * Wohn.Wlan: cor_wlan_initialize, cor_wlan_deinitialize and the hosted network's state;
--     Wohn.Wlan.Names: its name and its key. Wohn.Wlan.Session: runs of these calls.
--   * Wohn.Ics: the sharing of connections, cor_ics_disable; Wohn.Ics.Enable, Wohn.Ics.Startup and
--     Wohn.Ics.Enum: cor_ics_enable, cor_ics_initialize with cor_ics_deinitialize, and cor_ics_enum. A
--     reference that a function takes or gives back is counted in the state.
--   * Wohn.Lifetime: cor_initialize, cor_deinitialize, and the interface as steps on all the variables,
--     where the use of a NULL pointer ends the run. Wohn.Examples: a run with a wired connection.
--
-- c/zax-inspector, a viewer of Windows kernel tables. Of the program, ZaxInspector: rt_dwtos and
-- rt_stodw of ZaxRT.c in ZaxRt and rt_btos in ZaxRt.Bytes, with ZaxRt.RoundTrip, ZaxRt.Bytes.Written and
-- ZaxRt.Examples; ZaxDriver.c, which installs, starts and calls the driver, in ZaxDriver, with counts of
-- the handles. ZaxDriver.Session has a whole session, ZaxDriver.Path the path of the driver's file,
-- ZaxDriver.Examples both at a program in c:\zax. Its driver, zik, in Zik:
--   * Zik.Status: the status codes and 32-bit addresses. Zik.Image: RVAToRaw.
--   * Zik.Service: EnumSSDT and EnumSSDTShadow, on a machine with the table, the caller's buffer, the
--     write protection, and counts of pool blocks and handles. The answers of the system's calls are a
--     record.
--   * Zik.Idt: EnumIDT. Zik.Kernel: EnumKernel. Zik.Locate: the three searches of ssdt.c, over any
--     disassembler (SizeOfCode).
--   * Zik.Dispatch: the control codes, DeviceDispatch, which calls the functions above, DriverEntry
--     and DriverUnload. Zik.Examples: the theorems at a small image and table.
--
-- Common has the shared names, lists and Boolean tests over native numbers (Common.Lists,
-- Common.Tests), bit operations (Common.Bits, Common.BitOr) and a memory of bytes with writers that
-- count (Common.Memory).
--
-- Fuel: ignore, unescape_str and the loops of the decoders get the length of their text and one more,
-- and each round consumes a character; decode_number makes two jumps at most; decode_node is nested no
-- deeper than its text is long; free_tasks gets one more than the tasks; a DWORD has ten decimal digits
-- at most; the search for the shadow table moves on by a byte at least in each round of a page; a round
-- of GetSum takes 64 bytes. Allocation always succeeds. Sizes of texts and buffers do not wrap (but as an `int` in rt_btos); hashes,
-- capacities and probes do.
--
-- Not modelled: the addresses and the lifetime of the blocks of dotjson; what tcp_echo prints; of
-- thrpool the use of a pool behind its destruction; of c/zax-inspector the window, rt_write and the
-- functions that only call the system, and LDasm.c, a third-party disassembler; of cpp the window of
-- wohn, the plugin envext with the headers of its host, and collision, which computes with float
-- numbers. The programs in other languages are independent of the ones in C and C++.
pub mod Common
pub mod Dotjson
pub mod Md5
pub mod TcpEcho
pub mod Thrpool
pub mod Wohn
pub mod ZaxDriver
pub mod ZaxRt
pub mod Zik
