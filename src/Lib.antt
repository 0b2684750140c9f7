-- ===== src/Lib.antt =====
-- Verification of liumOS, a small operating system with user programs written in C.
--
-- The user programs stand on one library, app/liumlib/liumlib.c. Its strings are bytes in a flat
-- memory, and every function is modelled over an explicit memory that it reads and returns.
-- app/browser builds on it: tokenize.c turns HTML text into a linked list of tokens, from which
-- parse.c makes a tree of nodes; rendering.c walks over the tree and prints a page as text.
-- app/httpclient and app/httpserver talk to each other with requests and responses that they put
-- together in buffers by strcpy and strcat and take apart by strtok.
-- Of the kernel, src, these parts are modelled: the ring buffer, which the drivers put key codes, mouse
-- events and packets into; the allocator of physical pages; the scheduler of the processes; the
-- command line of a program; the string buffer in which messages are written; rectangles of the
-- screen; the ring of requests to the USB controller; the keyboard, the prompt and the mouse; and of the
-- network the addresses, the sockets and the Internet checksum, which app/ping shares.
--
-- Files and sources:
--   Prelude and its children: numbers, Boolean tests, lists, signed integers, bit fields.
--   Memory, Memory.Store: bytes at addresses, strings in memory, stores of several bytes.
--   Liumlib.Str: strlen, strcpy, strcat, strncat, strcmp, strncmp, strstr, strtok of
--     app/liumlib/liumlib.c; its children hold the theorems.
--   Liumlib.Block: bzero, memset, memcpy, memmove.
--   Liumlib.Alloc: malloc (static array, `malloc_size`) and realloc.
--   Liumlib.Output: Print, Println, PrintNum, NumToHexChar, PrintHex8ZeroFilled, PrintIPv4Addr
--     and the message of __assert, each as the bytes that it hands to the system call `write`.
--   Liumlib.Number: StrToByte, StrToNum16, MakeIPv4Addr, MakeIPv4AddrFromString, inet_addr,
--     htons, htonl and the macros of app/liumlib/liumlib.h.
--   Browser.Tokenize: CreateToken, CreateCharToken, AppendToken and Tokenize of
--     app/browser/tokenize.c and tokenize.h; Browser.Tokenize.Print: PrintToken and PrintTokens.
--   Browser.Tree: the nodes and the stack of open elements of app/browser/parse.c and parse.h, with
--     PushStack, PopStack, PopStackUntil, CurrentNode, InsertElement, InsertCharFromToken and the
--     functions that make nodes; Browser.Tree.Modes: ConstructTree, one function for each insertion
--     mode; Browser.Tree.Print: PrintNode, DfsWithDepth and PrintNodes. Browser.Tree.Outcome has the
--     rules for results that the proofs use.
--   Browser.Rendering: Printable, Markdown, Dfs, Generate and Render of app/browser/rendering.c;
--     `Render` composes the models of the three parts.
--   Http.Append, Http.Arguments: texts put together in a buffer, and comparisons of arguments.
--   Http.Server: StatusLine, Headers, Crlf, Body, BuildResponse, Route, ParseArgs and the part of the
--     loop of StartServer between request and response, of app/httpserver/httpserver.c.
--   Http.Client: RequestLine, Headers, Crlf, ParseArgs and the part of main that fills the request, of
--     app/httpclient/httpclient.c; Http.Exchange: a request of the client at the server.
--   Kernel.Scheduler: the class Scheduler of src/scheduler.cc and Process::Kill of src/process.cc; its
--     children: what holds in every reachable state, and the order in which processes are chosen.
--   Kernel.CommandLine: the class CommandLineArgs of src/command_line_args.h.
--   Kernel.StringBuffer: the class StringBuffer of src/string_buffer.h.
--   Kernel.Rect: the struct Rect of src/rect.h.
--   Kernel.TrbRing: the class TransferRequestBlockRing of src/xhci_trbring.h.
--   Kernel.Checksum: InternetChecksum::Calc of src/network.h and CalcChecksum of app/ping/ping.c.
--   Kernel.Keyboard: the class KeyboardController of src/keyboard.h and src/keyboard.cc, with the key
--     codes of src/keyid.h. Kernel.Mouse: the interrupt handler of src/ps2_mouse.cc.
--   Kernel.Network: the addresses, ARP packets and sockets of src/network.h.
--   Kernel.TextBox: the class TextBox of src/text_box.h and src/text_box.cc, and WaitAndProcess of
--     src/command.cc up to its call of Run, on a list of what GetCharWithoutBlocking returns.
--   Kernel.RingBuffer: the class RingBuffer of src/ring_buffer.h; Kernel.RingBuffer.Queue is the queue
--     that it refines, Kernel.RingBuffer.Runs rows of calls.
--   Kernel.PageAllocator: the class PhysicalPageAllocator of src/phys_page_allocator.h.
--   Tests: runs on small inputs, and each theorem at such an input.
--
-- Conventions. Function names are those of the C code in lower case with underscores. An address is
-- a number that is never wrapped around; the arithmetic of `size_t`, `uint32_t` and `int` values
-- wraps as it is written in the definitions. `char *` arguments are addresses of a memory `Mem`, and
-- a function that writes returns the memory. A loop whose end depends on memory runs on fuel: `none`
-- (or `out_of_fuel`) says that it was used up, and the theorems are stated for fuel above the length
-- of the strings at hand and conclude that there is a result. `Tokenize` is given twice the length of
-- the text and one more, because a round that does not advance is followed by one that does.
-- `ConstructTree` and `Render` take their rounds as an argument: a document that begins with an unknown
-- start tag uses up any number. Where every start tag is known, seven rounds for each token are the most
-- that a token needs from the first mode to the one that passes it. The walk of `PrintNodes` is given as many calls as there are nodes.
-- A `Node *` is an index into the list of the nodes that have been made.
-- Behaviour that C leaves undefined is a result of its own: `none` where an `int` counter is counted
-- past its end, `null_pointer` and `overflow` in the browser. `exit` is the result `exited`,
-- and a block of malloc that goes beyond its array is `overran`.
--
-- A string literal stands at an address that the compiler chose: a function that the definitions of
-- Http take, with what it is used for as hypotheses. Operations of the scheduler are steps from one
-- Lock to the next Unlock. The loop of the checksum that adds the carries runs on three rounds of
-- fuel, which suffice for every sum of 32 bits. `read_key_id` is given the size of the
-- ring buffer of key codes, 16, since each round takes a code out of it. A sum of `int`s
-- of a rectangle that overflows is `none`.
--
-- Not modelled: locks, which are loops over an atomic exchange; the system calls themselves; panic and
-- NotImplemented beyond their messages; the other programs and the other parts of the kernel; window
-- drawing and device registers are input and output without logic of their own.
pub mod Prelude
pub mod Memory
pub mod Liumlib
pub mod Browser
mod Tests
pub mod Http
pub mod Kernel
