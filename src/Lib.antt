-- ===== src/Lib.antt =====
-- A document server with shared editing: a name server (nm.c) that knows the files, the users and
-- who may use which file, storage servers (ss.c) that hold the files and let several users edit
-- different sentences at a time, and clients (client.c) that talk to both.
--
-- The parts and the files that model them, with the functions of the program by their own names:
-- * Trie (trie.c): the 128-way trie of names, once for files and folders. Trie/Refinement compares
--   it with a dictionary.
-- * Cache (cache.c): the name server's cache, an open-addressing table over a doubly linked list.
--   Its nodes are addresses in a heap that the state holds.
-- * Document (file_ops.c): a file is read into sentences of tokens (Parse), written back (Render),
--   a text is split into tokens (Split) and inserted into a sentence (Insert; Place, Cut and Divide
--   follow where the text goes and where the sentence is split). Stats counts words.
-- * Storage (ss.c and the copies of file_ops.c): the disk with the undo copies and checkpoints
--   (Disk, Backups), the sentence locks (Locks), the sessions that edit a copy of a file
--   (Sessions), the queues of commits and their merge into the file (Commits), the handlers that
--   join them (Server; Server/Commit and Server/Session follow an edit from its lock to the file),
--   and the requests of the name server and of the clients (Requests; Requests/Clients is the loop
--   of handle_client_request). A client locks a sentence, which starts a session, writes into the
--   session's copy, and unlocks, which commits: the commit is queued, the queue is processed at
--   once, and the merged sentences become the file.
-- * NameServer (nm.c): users and their sessions on sockets (Users), access lists (Access), the
--   queue of access requests (Requests), the placement of files (Files), the registration of the
--   storage servers with their heartbeats and the monitor (Servers), the array of connected
--   clients (Clients), folders, moves and the requests that are passed on (Forwarding), and the
--   listings (Views). A handler returns the new state and the status that it sends. It uses the
--   trie and the cache. The threads of Servers and Clients take turns by steps under a mutex.
--   Dispatch is the loop of handle_client_connection with handle_info and handle_exec: which
--   handler serves a message. Events joins all that changes the name server's state, in any order;
--   there each request is served whole before the next event. Requests of several connections can
--   overlap in the program, since a handler works on a copy of a file's metadata; Views/Races
--   shows a case.
-- * Wire (common.c): a message, its text with separators, and how it is sent and received. All
--   three programs talk to each other by these messages.
-- * Client (client.c): the words of a typed line and its command (Commands), the messages of the
--   commands and what they show of the answers (Exchanges for those that ask the name server
--   alone, Redirections for those that go on with a storage server, Answers for the errors,
--   Streaming for what is shown of a stream, Editing for the messages of a write session), the
--   lines that a user types in a write session and what is read from them (Client.antt; Typing
--   writes such lines), and the loop that sends them, reconnects and tries again (Session).
-- * Codes (common.h): statuses and limits. Base: the helpers. Witnesses: the theorems at concrete
--   inputs.
--
-- How the program is read:
-- * A C string is a list of its bytes, none of them 0. An `int` that can be negative is an
--   integer; arrays up to their counts are lists. The growth of arrays, the failure of `malloc`,
--   the release of memory, the log and the socket calls are left out.
-- * A handler is one step, and a sequence of calls in any order stands for the threads; Views/Races
--   has an overlap of two handlers. The lock calls are not one section in the program: they fetch a
--   pointer under one mutex and use it under another. Storage/Locks/Exclusion takes them apart, and
--   there `realloc` can move the array in between; elsewhere a lock call is one step. Counters do
--   not reach the bound of `int`, and a number that a user types and that `int` does not hold ends
--   the model's run (`out_of_int`).
-- * The disk is a function from paths to contents. Which paths can be opened for writing is the
--   parameter `writable`, and which can be renamed `can_move`; copies are whole. The time is an
--   argument where it is kept, and left out where it is only logged.
-- * The children of a trie's node are a function of the index, used below 128. What `malloc`
--   and `realloc` leave in a lock, also behind the 63rd byte of its user's name, is the parameter
--   `junk`. The bound `MAX_FILES` of the table of locks is not modelled. Characters are signed
--   where `hash_string` adds them.
-- * The loops of the cache run on fuel, and `none` means that it was not enough. `capacity` rounds
--   are enough where there is a free slot (Cache/PutGet), and no fuel is enough for an absent name
--   in a full table (Cache/Full). In `split_by_delimiters` and in what uses it, `none` or
--   `overflow` is a write outside the buffer. All other loops are structural.
-- * What the calls of `send` and `recv` return is an argument of `send_message` and
--   `recv_message`, a list with an answer for each call; a call that still waits for one is
--   `none`. A `send` may take fewer than the four bytes of a message's length; the number that it
--   took is the field `head` of what was sent, and the receiver gets the length only if it is 4.
--   `send_message` needs no more than the bytes of its text (Wire/Transport/Delivery). The
--   ids of storage servers are not negative, and the tokens of the file list that a server reports
--   are shorter than 256 bytes, the size of the fields that `strcpy` fills.
-- * What a storage server answers to the name server is an argument of the handlers that ask one.
-- * What the storage servers, the clock and the shell of EXEC answer during a request is the
--   record `Answers`. A request names its sender itself; the program does not compare it with the
--   user of the connection, and neither does the model.
--
-- Not modelled: the printing of listings with dates, the directories of the storage server and the
-- list of its checkpoints, the listeners that accept connections and start threads, the logger, and
-- of the client its set-up, its sockets, the login and the usage texts. The lines that a user types
-- are shorter than `MAX_BUFFER`.

pub mod Base
pub mod Codes
pub mod Trie
pub mod Cache
pub mod Document
pub mod Wire
pub mod Storage
pub mod NameServer
pub mod Client
pub mod Witnesses
