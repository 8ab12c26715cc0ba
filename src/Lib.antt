-- ===== src/Lib.antt =====
-- The CrossPoint simulator runs the firmware of an e-ink reader on a host: its sources under
-- src/ stand in for the device's hardware and libraries. This library models the parts of it
-- that carry logic of their own, each in a module named for it, and proves what makes them
-- correct. Numbers are natural numbers with the wrap-around of fixed widths written out; a
-- byte string is a list of numbers; a state is a record and an operation returns the new one.
--
-- Prelude.antt and the files below it hold what the other modules share: tests, lists, tables,
-- byte strings and the law of bit_xor.
--
-- src/WebSocketsServer.cpp is WebSocket.antt and the files below it. Socket models recvAll;
-- Frame models readWsFrame, sendWsTextFrame and sendWsPongFrame, with the reader over any
-- source of bytes that keeps the interface Socket/Reads.IsSource; Session is the loop of a
-- client's thread that makes messages of frames, Session/Conversation the specification of
-- what a peer says; Clients is Impl's table and event queue with loop, sendTXT, broadcastTXT
-- and close; Handshake, Sha1 and Base64 are the answer to the upgrade request. The passes of
-- serve_loop are the tests of Impl::active that succeed; read_request and pad_zeros take fuel.
--
-- src/ReadAloudChannel.h is ReadAloud.antt: the channel's state with its operations;
-- ReadAloud/Inbox specifies what its two kinds of reader get.
--
-- src/SpeedRead.h is SpeedRead.antt and the files below it. Text models the punctuation, the
-- pivot letter and the ends of sentences; Duration the words and, by the interface Timing,
-- what the reader uses of a duration, with exact fractions in Duration/Exact; Page makes the
-- words of a published page; Reader is the class Reader with a theorem file for each concern:
-- Outcome for the cases of a step, Order for the order of the words, Pace for the time a page
-- takes, Pause, Sentences and Controls.
--
-- src/WebServer.cpp is Http.antt and the files below it. Url models the decoding of URLs and
-- forms, Url/Spelling and Url/Args specify what they decode; Body is the intake of a request's
-- body, with Body/Streaming on what the raw handlers see; Request is the worker's path from
-- the headers to a refusal or a parked request, with Request/Acceptance on which requests get
-- there; Multipart is parseMultipart, with Multipart/Parts on the parts of a form and
-- Multipart/Fields on their names, and Routing the choice of a route and the calls of its
-- handlers, with Routing/Uploads (from Routing/Collected) on what they get; Dispatch is the
-- hand-over of a parked request between the worker and handleClient as interleaved actions,
-- with Dispatch/Cycle on what holds until stop and Dispatch/Abandoned on what holds after it;
-- Response is what the handlers send, with Response/Shape on what the client gets. The
-- arrivals of a body are what successive recv calls return; chunks takes as much fuel as its
-- buffer has bytes, and parts_from one round more than the body has bytes.
--
-- src/SimHttpFetch.h is Fetch.antt: shellQuote and curlCommand. Fetch/Shell is the shell's
-- reading of a simple command, by its grammar, and Fetch/Command the arguments that curl gets.
-- Fetch/Fixtures is the folder of fixtures and the URLs of files that stand in for the
-- network, with Fixtures/Found on the search for a file and Fixtures/Served on what is
-- answered; the search has six levels.
--
-- src/CrossPointWebServer.cpp is FileTransfer.antt and the files below it. Decode models
-- urlDecode and parseQuery, with Decode/Form on the values of a form; Escape is jsonEscape,
-- xmlEscape and headerSafeFilename, with Escape/Reading on their readers; Path is
-- normalizePath, the checks of protected names and the cutting and joining of paths, with
-- Path/Segments, Path/Squeezed, Path/Normal and Path/Allowed on paths as lists of segments;
-- Request is parseRequest over what its recv calls find, with Request/Reads, Request/Framing
-- and Request/Normal; Multipart is parseMultipartFile, with Multipart/Form and
-- Multipart/Names. Storage declares the calls of HalStorage and of the upload status, and a
-- handler is a program of such calls that goes on with whatever is answered; Listing is
-- propfindXml and listFilesJson from such an answer, Reply what is sent. Browse and Change are
-- the routes of handleClientRequest and Routes their choice, with Routes/Guarded (from
-- Routes/Calls and Routes/Changes), Routes/ReadOnly and Routes/Refused (from Routes/Protected)
-- on what they ask of storage. copyPath is one call of the routes; Copy is what it asks of
-- storage, with Copy/Plan and Copy/Copied on what it copies and Copy/Reach on the paths.
-- read_head has fuel for a byte in each recv up to the limit of 1 MB, read_rest for as many
-- bytes as are missing, collapse as many rounds as the path has bytes, copy_path is deep
-- enough at the height of the tree that it copies, and find_file one more round than the body
-- has bytes.
--
-- src/ReadingLog.h is ReadingLog.antt and the files below it: Line is the identity of a
-- configuration and the escapes and fields of a line, Publish the lines and the calls that
-- publish them, as the lines that they append, with Line/Clean and Publish/Printed on the
-- bytes of a line and Publish/Explained on whole logs; Store is shouldRotate, rotate and
-- append on the files of the log, with Store/Rotated on one rotation, Store/Behind and
-- Store/History on what the files keep, and Store/Runs on any number of calls; Lines is on the
-- reading of the files line by line. The files are a function from the number of their suffix,
-- whose base is 0.
--
-- ios/ReadAloudCore.h and ios/ReadAloudCore.cpp are ReadAloud/Speech.antt: a call is a
-- function from the state to its actions and the new state. Speech/Voice says what the speech
-- engine and the highlight of the reader do with an action, and Speech/Follows, Speech/Calls
-- what they do with those of one call and of any; Speech/Skips is on pages without text and
-- Speech/Words on the search for a word.
--
-- src/SimCompressedFile.h is CompressedFile.antt, with Bounds on what is opened and Serves on
-- the reads of a file whose blocks are known; Pack is the writer in
-- tools/compress_seed_fonts.py, with Pack/Opens, Pack/Reads and Pack/RoundTrip on the reads of
-- what it writes. What pread finds and what InflateStream makes of a block are functions. A
-- round of read_from reads a byte at least, so its fuel is one more than the bytes that are
-- wanted.
--
-- src/ReadingArm.h is ReadingLog/Arm.antt, with Arm/Balanced on a block of chapters. The loop
-- of the hash has eight rounds for each value, that of the shuffle one for each arm but the
-- first.
--
-- ios/GestureBindings.h is Gestures.antt with the enumerations, Gestures/Rows with the table
-- and Gestures/Resolve with what a gesture does under the stored numbers; Gestures/Lookup is
-- on both. A stored number is an integer; the cast of one that is no action, which resolve
-- never makes, is the action that does nothing.
--
-- Time, the network and the scheduler are arguments: a clock's reading is a number given to
-- the operation, a socket is the list of what its reads meet, and threads are the list of
-- their critical sections in the order in which they run. Fuel stands only where a loop has no
-- structural measure; a theorem on its end or the comment above it says how much is enough.
--
-- Not modelled: drawing, colour and sound (floating-point pictures on SDL surfaces), the rest
-- of the platform code under ios/, open files and paths on the host (HalStorage), keys
-- (HalGPIO), sleep and wake, the settings files, the packaging scripts, stb_image.h, and the
-- shims that forward to a system call. PROJECT.json lists every part.
pub mod Prelude
pub mod WebSocket
pub mod Fetch
pub mod Http
pub mod ReadAloud
pub mod SpeedRead
pub mod FileTransfer
pub mod ReadingLog
pub mod CompressedFile
pub mod Gestures
