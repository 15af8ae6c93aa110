-- ===== src/Lib.antt =====
-- DumbOS: verification of the C code of the phone's daemon, its server and what they share.
--
-- A user of a DumbOS phone types a secret code. The daemon on the phone asks the server for it with
-- a signed request; the server finds the payload of the code, fixes its expiry at the first use,
-- signs it and sends it; the daemon checks the expiry and the signature and runs the command that
-- the payload names, which may be a composite of further payloads.
--
-- The parts and their files:
-- - Base: native numbers, lists, results, C strings, errno and integers that all parts use.
-- - Stream (common.c): read_all, write_all and the framing of shorts and strings. A descriptor is the
--   sequence of outcomes that its read(2) and write(2) calls will have. Stream/Transfer is write_file
--   and read_file. Stream/Read, Stream/Write, Stream/Framing and Stream/TransferLaws hold the proofs.
-- - Chars (common.c, check_allowed_chars), Hex (common.c, malloc_buf_to_hex and malloc_hex_to_buf),
--   Decimal (common.c, parse_long_long and parse_ushort), Log (common.c, set_log_verbosity).
-- - Ed25519 (ed25519.c): hex keys and signatures. OpenSSL is the record Openssl, an argument, and what
--   it documents is the hypothesis IsEd25519. Ed25519/HexLaws and Ed25519/Laws hold
--   the proofs.
-- - Payload (dumb.h, dumbpayload.c): struct DUMB_PAYLOAD as byte arrays, and the bytes of the struct.
--   Payload/Fields, Payload/Expire and Payload/Sign model the dp_ functions; Payload/Layout,
--   Payload/FieldLaws, Payload/ExpireField, Payload/ExpireLaws and Payload/SignLaws hold the proofs.
--   Payload/Store is dp_write_to_file.
-- - RequestId (requestid.c): signing and verifying a request.
-- - User (requestid.c, requestid.h): the user data of a phone, its file and the name for display.
--   User/Layout and User/Laws hold the proofs.
-- - Files: the server's files as an association list. Server (server/src): Server/Load is dp_load.c,
--   Server/Handler dumb_handler.c, Server/LogUpload dumb_log.c, Server/Router main.c. A handler is a
--   function from the request and the files to the response and the files, and the readings of the
--   clock are arguments. Server/LoadLaws, Server/Reopen, Server/ReloadLaws, Server/HandlerLaws and
--   Server/RouterLaws hold the proofs.
-- - Daemon (daemon/secret_code.c, daemon/payload_cmd.c, daemon/util.c): Daemon/Payloads is
--   handle_one_payload and payload_cmd_composite. The commands that act on the phone are the record
--   Phone, an argument; Daemon/Scripts fills it with the commands of payload_cmd.c that run a
--   program, over a host that runs it. Daemon/PayloadLaws, Daemon/Authority and Daemon/ScriptLaws
--   hold the proofs, and Daemon/Delivery those that join server and daemon.
--   Daemon/SecretCode is secret_code around them, with the network as an argument, Daemon/Install is
--   payload_cmd_install_this, and Daemon/Upload is cmd_upload_data of daemon/command.c; each holds its
--   own proofs. Daemon/Curl is download_url of daemon/curl.c, the download that secret_code has as
--   an argument; libcurl and malloc(3) are the record Curl. Daemon/Curl/Whole and
--   Daemon/Curl/Complete hold the proofs. Daemon/Drive is payload_cmd_files_import and
--   payload_cmd_files_export with find_removable_blockdev, over Copy, with mount(2) and the trees that
--   are there as the record Mounts; Daemon/Drive/Laws holds the proofs.
--   Daemon/Lockscreen is daemon/lockscreentext.c, with SQLite as the record Sqlite and its transactions
--   as the hypothesis IsTransactional, and Daemon/Lockscreen/Replaced and Daemon/Lockscreen/Laws hold
--   its proofs; Daemon/Exec is exec_wrapper.c; Daemon/Options is daemon/main.c up to start_daemon,
--   and Daemon/Options/Owner has the proofs about the owner of the socket. Daemon/Start is
--   start_daemon of daemon/daemon.c, and Daemon/Serve its loop, which runs the handler for each
--   client; Daemon/Folders is mkdir_p of daemon/util.c, with mkdir(2) as the record Folders and
--   what it documents as the hypothesis IsMkdir. Daemon/Folders/Laws holds the proofs of the last, and
--   each of the other two its own.
-- - Copy (daemon/mount_copy_ns.c): the copy of a tree from one disk to another. Copy/Tree is copy_tree
--   with the functions for files and links, Copy/Measure is measure_tree, Copy/Child is child_main, and
--   Copy/Run is mount_copy_unmount_ns with its proof. The source is a tree of what lstat(2), readdir(3)
--   and read(2) give on it; the disk that is written is the record Disk, and what its calls document is
--   the hypothesis IsPosix, which Tests/Disks shows of a disk in memory. Paths that are written
--   differently are different files there, so two names that a disk takes for one are out of reach. Copy/Paths has the paths that
--   join_path makes, Copy/Copied what a copied tree is, Copy/Written the copy of one file or link,
--   Copy/Counted what one adds to the count, and Copy/Frame, Copy/Laws, Copy/Totals, Copy/Willing and
--   Copy/Complete the proofs of the whole.
-- - Session: the two ends of a socket. Session/Handler is daemon/handler.c and Session/Client
--   caller/client.c, both over Stream, and Session/Commands is daemon/command.c, which the handler
--   calls, with secret_code and cmd_upload_data of Daemon. Session/Live has what the stream helpers do on a connection without failures,
--   Session/Growth that what was sent stays sent; Session/HandlerLaws, Session/ClientLaws,
--   Session/Heard, Session/Agreement, Session/Excess and Session/CommandLaws hold the proofs. An
--   end of the socket has to come what the other end sends, so the order of the two processes needs
--   no model of its own.
-- - Tool: the command line tool for payloads, on the same Files as the server. Tool/Main is
--   server/src/dumb-main.c and Tool/Sets server/src/dumb-tool-cmd-set.c. Tool/Struct, Tool/SizeLaws,
--   Tool/SetLaws, Tool/Edits, Tool/Refused, Tool/SignLaws, Tool/PackLaws and Tool/UserLaws hold the
--   proofs. Tool/Command is main() of server/src/dumb-main.c, with Tool/CommandLaws.
-- - Tests: concrete runs, with a stand-in for OpenSSL in Tests/Toy.
--
-- Bounds and fuel: print_ℕ uses as much fuel as its argument has units, more than it has digits.
-- handle_one_payload recurses through composites on fuel, one more than the size of the data, since
-- each payload in a composite is shorter than the composite. The client reads messages on fuel, one
-- more than the bytes that are to come, since each message takes at least the two of its length. The
-- loop around readlink(2) has one round more than the target has bytes, since the buffer grows in each.
-- All other loops are structural.
--
-- Conventions: -1 with errno is `err`, with the errno as its argument; memory allocation succeeds
-- unless a definition takes its outcome as an argument; size_t has 64 bits; log output is left out;
-- the code is read as compiled without DEBUG_MODE.
--
-- Not modelled: how the client connects and reads its options, the certificates of a download and
-- post_buffer, rm_r, the date header of get_network_time, and the printing of help, most of which is
-- system calls, other libraries and output; serving static files, which nothing calls; the Rust
-- programs, shell scripts, SELinux policy and build files, which are other languages.
pub mod Base
pub mod Stream
pub mod Chars
pub mod Hex
pub mod Decimal
pub mod Log
pub mod Ed25519
pub mod Payload
pub mod RequestId
pub mod User
pub mod Files
pub mod Server
pub mod Daemon
pub mod Copy
pub mod Session
pub mod Tool
pub mod Tests
