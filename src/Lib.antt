-- ===== src/Lib.antt =====
-- A model of the SIPF standard client for the nRF9160: the firmware that takes ASCII commands from
-- a UART and talks to the SIPF services over HTTP.
--
-- The parts, and how they interact. The UART's receive interrupt fills a queue that the broker's
-- functions read. The main loop hands the received bytes, one by one, to the line buffer; a
-- complete line goes to the parser of the ASCII commands, and the text that the command leaves is
-- sent back. The commands read and write the register file, send and fetch objects and files over
-- the HTTP client, and move files over the UART with XMODEM.
--
-- Which file models what (paths from the repository's root):
-- Zephyr.antt: the kernel's queues and the UART driver, a record of operations on a world of which
--   nothing is known. Each call may answer as it likes; a theorem that needs an answer says so, or
--   takes the laws of `Queues`, which are those of the kernel's message queues.
-- Libc.antt, with Libc/: what the firmware uses of the C library's text and memory functions.
-- Registers.antt: src/registers.c. A record of the two arrays; one function per C function.
-- UartBroker.antt: src/uart_broker.c. The functions are state passing over the echo flag and the
--   kernel's world; UartBroker/Order is about the way out under any interleaving.
-- Xmodem.antt: src/xmodem.c. Frame, Build, Receive and Send are its theorems by direction.
-- Cmd.antt: src/cmd.c, over the command parser as a parameter; `feed` is the loop of src/main.c
--   that calls CmdParse for each received byte.
-- CmdAscii.antt: src/cmd_ascii.c, what the commands share. Under CmdAscii/, RegisterCmds is W and
--   R, Send is TX, Objects is TXRAW and RX, Transfer is FGET with Put for FPUT, Admin is UNLOCK and
--   UPDATE, Positions is the GNSS commands, and Dispatch is CmdAsciiParse over the statics of all
--   of them, with Names and Lock for its theorems. Objects/Received is about what RX prints,
--   Objects/Raw about what TXRAW uploads, and Transfer/Blocks about how FGET cuts a fragment into
--   blocks. Put/Wire and Put/Forwarded are about a whole file that FPUT passes on, Dispatch/Typed
--   about what every command leaves in the registers, and Admin/Update about UPDATE down to the
--   download.
-- ClientHttp.antt: lib/sipf/src/sipf_client_http.c. The sockets, the name resolution, TLS, the HTTP
--   client and base64 are the record `Net`. UrlParts and UrlStrings are about splitting a URL,
--   Resources about what a request takes and gives back.
-- SipfObject.antt: lib/sipf/src/sipf_object.c, the payload; SipfObject/Client.antt the two
--   requests. An `Exchange` of the HTTP client lists the responses that its callback is called
--   with.
-- SipfFile.antt: lib/sipf/src/sipf_file.c; SipfFile/Download.antt is the download. Paths is about
--   the array of the request paths, UploadUrl and Download/Url about what becomes of the URL.
-- SipfAuth.antt: lib/sipf/src/sipf_auth.c, with Answer for what the answer is taken apart into.
-- Gnss.antt: src/gnss/gnss.c. Sentences is the invariant of the store, Refinement its
--   specification.
-- Fota.antt: src/fota/fota_http.c, with Fota/Url for the URL and the end of the download.
-- Main.antt: src/main.c, the authentication mode; Main/Lte.antt is the start of the modem, with
--   Lte/Attach for the sessions of the link controller, Main/Leds.antt the LEDs, Main/WakeIn.antt
--   the pin that asks for a reboot, Main/Mode.antt and Main/Keeps.antt the theorems on the mode.
--   Main/Loop.antt is the main loop over the statics of the whole firmware, and Main/Boot.antt is
--   main: the start, and rounds of the loop. Loop/Lines and Loop/Commands follow lines from the
--   receive queue to the transmit queue; Loop/Valid and Boot/Stages are what any run of main
--   leaves.
-- Tests.antt: runs on concrete inputs.
--
-- Conventions. A byte is a natural number, an array a list. `none` is an access outside an array,
-- or through NULL, and so stands for undefined behaviour: a theorem that says `some` says that
-- there is none. Conversions to `uint8_t` and `uint16_t` are written out as remainders. An `int`
-- result is the type ℤ of Prelude/Int.antt. Out-parameters are returned beside the result. Log
-- calls are left out.
--
-- Code that may wait for ever, or that reboots, returns a `Run`: `returns`, `faults`, or `waits`.
-- The libraries that call back from threads of their own (the downloads, the modem) are parameters
-- that say which events they call back with, in order, on each side of the wait for them; a
-- callback is one step, and the semaphores are kept from one command to the next.
--
-- Bounds and fuel. The loops are recursions on a count that the source bounds itself: 131 bytes of
-- a block, 10 rounds of waiting, 255 objects, the length of a URL, the blocks of a fragment, 10
-- retries of FPUT's first block, 3 tries to attach. The parse of TX runs on fuel that is proved to
-- be enough (`tx_fuel`). The loops of the source that need not end run on fuel: the broker's thread
-- (`send_queued`, a round that sends at most so many bytes); the callback of FPUT (`fput_loop`),
-- which goes round while blocks come, and which counts as one that fails where the command's bound
-- of it is used up; the authentication requests of the start (`request_until`) and the inner loop
-- of main (`serve`), which say `waits` where the fuel is used up, so that a statement about what
-- they return, or for enough fuel, is one about the source. main is followed through any number of
-- rounds (`rounds`).
--
-- Not modelled: gnss_log_dbg_nmea, which only logs. The creation of the queues and of the thread,
-- the drivers, the modem library and the clock are parameters. Log calls are left out. The size of
-- the answer buffer is not tracked: each command's text is a list. What FPUT leaves in
-- `xmodem_block` is told by the world only. GNSS events and the interrupt of WAKE_IN do not
-- interrupt a command, and bytes come into the receive queue by the kernel's calls only.
pub mod Prelude
pub mod Zephyr
pub mod Libc
pub mod Registers
pub mod UartBroker
pub mod Xmodem
pub mod Cmd
pub mod CmdAscii
pub mod ClientHttp
pub mod SipfObject
pub mod SipfFile
pub mod Gnss
pub mod Fota
pub mod SipfAuth
pub mod Main
mod Tests
