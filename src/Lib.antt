-- ===== src/Lib.antt =====
-- librtcdc: WebRTC data channels over ICE, DTLS and SCTP, and the file service built on them.
--
-- The library (src/) gives an application peer connections. rtcdc.c holds the peer with its table of 128
-- channels; dcep.c answers the messages that open channels; sctp.c hands messages to usrsctp, and takes
-- what usrsctp delivers to dcep.c. sdp.c writes and reads the session descriptions with which two peers
-- find each other; dtls.c makes the certificate; ice.c and the threads of rtcdc.c move packets between
-- libnice, OpenSSL and usrsctp. The file service (APIs/) sends the files of a repository over a channel,
-- line by line (cli/cli_rtcdc.c, fs/fs_rtcdc.c). The metadata server (ms/metadata_server.c) keeps the
-- sessions of clients with file servers, compares their checksums, and passes offers and answers on. The
-- client (cli/sy.c) calls it, and the file server (fs/file_server.c) answers it.
--
-- Files:
--   Base             Boolean tests, lists over the native numbers, byte strings, integers
--   Peer             src/rtcdc.h, src/sctp.h: Peer, Channel, Sctp; send_sctp_message of src/sctp.c; the
--                    loops over the table (Peer/Slots: where they stop)
--   Dcep             src/dcep.c: one function per handler; sctp_data_received_cb of src/sctp.c
--     Wire           src/dcep.h: the OPEN message byte by byte, strndup
--     RoundTrip, Faults, Dispatch; Invariant, Keeps: what all handlers keep
--   Channel          src/rtcdc.c: rtcdc_create_data_channel, rtcdc_send_message
--     Reach          the steps of a peer and what all of them keep
--     Sids, Sending  stream ids, what is sent
--   Transfer         APIs/cli/cli_rtcdc.c, APIs/fs/fs_rtcdc.c: the sending loops and receiving callbacks
--     Lines          fgets and strlen; Copy: one file; Whole: all files
--     Packing        struct sctp_packet_t as bytes; Sendable: which packets fit it
--     Interleaving   two files at the same time
--   Callbacks        the other callbacks of APIs/cli/cli_rtcdc.c and APIs/fs/fs_rtcdc.c
--     Address        their addresses; Events: what the history of a peer makes them do, whole sessions
--     Opening, Delivery      the channel; the packets
--     Turns, Carrying, Sessions    the turns of both sides, and whole transfers
--     Keeping        what they leave as it is at a peer
--   FileTrans        examples/file_trans: the blocks of a file in send_file.c and recv_file.c
--     Copies, Receiving, Blocks      the string functions on a block; a packet; a whole file
--     Signal         signal.c and on_candidate; Sharing: candidates and answers
--     Main           what main does before the event loop; Steps, Meeting: two programs that meet
--   Chat             examples/chat: the files of two chat programs (threads/chat_threads.c)
--     Files, Clearing    the candidates that are left in a file; what clears them
--   Connection       rtcdc_create_peer_connection, rtcdc_destroy_peer_connection, rtcdc_destroy_data_channel
--     Blocks, Frees  how often a block is freed; what a whole life frees
--   Certificate      create_dtls_context of src/dtls.c; Fingerprint: the room that the print takes
--   Pump             src/ice.c, sctp_to_dtls and dtls_to_ice of src/sctp.c, startup_thread of src/rtcdc.c
--     Steps          their steps in any order; Phases: the four phases of a connection
--     Moves, Turns, Threads  what each step does; Safety, Opening; Streams: with Sdp and Channel
--   Client           APIs/cli/sy.c: callback_client, the loop in which a call waits
--     Calls, Offers  sy_init, sy_connect, sy_status, sy_cleanup; sy_upload, sy_download
--     Waiting, Sessions      how a call ends, what it leaves
--   FileServer       APIs/fs/file_server.c: callback_fileserver
--     Answering      what is written; Messages: the texts of offers and answers
--     Transfers, Connecting  an offer of the client and its answer
--   Protocol         what APIs/cli/sy.c and APIs/fs/file_server.c do alike: directories, differences
--     Listing, Reporting, Agreement    a status round from the directories to the difference
--   Sdp              src/sdp.c, src/util.c, and rtcdc_generate_offer_sdp, rtcdc_parse_offer_sdp,
--                    rtcdc_parse_candidate_sdp of src/rtcdc.c
--     Splitting      the interface of GLib; Reading: the loop over the lines of an offer
--     Exchange, Answer, Agreement    what one peer writes and the other reads
--   Candidates       APIs/sy_rtcdc.c: on_candidate, getline_candidates, parse_candidates
--   Lifecycle        create_rtcdc_transport of src/rtcdc.c, with its parts in src/sctp.c, src/dtls.c, src/ice.c
--     Counts         the reference counts of the global variables; Outcome: both results
--   Checksum         gen_md5 of APIs/fs/file_server.c and APIs/cli/sy.c
--   Meta             APIs/ms/metadata_server.c
--     Json, Store    the interfaces of jansson and MongoDB with their laws; the documents
--     Join           join_checksum_arrays and the comparison of checksums
--     Database       the functions on the database: insert_session, get_session, update_session, ...
--     Server, Sync   callback_SDP, one function for each metadata type
--     Status, Reporting      a status round through the handlers and the database
--     Callback       callback_SDP: the switch, and the writeable callback
--     Rounds, Outer, Diff    what the join and the comparison say of each file
--     Routing, Replies, Repositories, Writing
--   Tests            runs at concrete inputs
--
-- A read or write outside a buffer, or through NULL, ends a run with the value none of Option. What the
-- code calls and does not hold (usrsctp_sendv, calloc, fopen, the application's callbacks) is a parameter:
-- the record Env, or an argument. C strings are lists of bytes without the NUL at their end. A field of w
-- bits is cut with % 2 ^ w where it is written. The loop over the lines of a file runs on fuel, one more
-- than the file has bytes, and so does the loop of gen_md5: each round reads a byte or ends the loop. The
-- loop of parse_candidates runs on one more than the text has bytes: each line that is read is taken off.
--
-- A call of the client gets the list of the callbacks that the service thread runs while it waits; `some
-- none` is a call that still waits when they have run. The threads of a peer are a step relation
-- (Pump.Steps): a loop that sleeps on a flag is a stage in which a turn changes nothing, and a callback
-- that sleeps is a step only when it goes through. usrsctp_connect and usrsctp_accept block: the turn that
-- calls them is the one in which they return. GLib's g_strsplit and g_str_has_prefix, jansson's objects and
-- MongoDB's collections are interfaces with laws; OpenSSL's SSL is an interface without laws.
--
-- A callback is called through its address, a number (Callbacks.Address). What it does to the peer is in
-- Callbacks, what it does to the data of the application in Callbacks.Events, where the history of a peer
-- runs it. A session passes the messages of each side on to the other in order, and takes a turn when the
-- other side has ended its own; that an answer comes before its channel is noted is a case of a download.
-- The work of uv_queue_work is taken to find its data, though the code keeps that on the stack of a
-- function that has returned. A packet is read only where the message has the whole struct. In FileTrans
-- what stands in memory behind an allocated block is an argument, since the code reads on behind blocks
-- without a NUL.
--
-- The metadata server takes an object id, which MongoDB makes, with each message. Its state is the record
-- Server: the three collections, the data that waits for each connection, and what was written. The
-- constants that are called ..._size are the sizes of its buffers.
--
-- Not modelled: OpenSSL, libnice, usrsctp, libwebsockets, MongoDB, libuv; printing; the sleeps; the memory
-- that a transport or a callback frees; the start-up of libwebsockets (APIs/sy_lwst.c) and of MongoDB
-- (APIs/ms/ms_mongo.c); the threads of the chat examples, what the main functions set up, the sandbox and
-- the Python binding, which call the library. struct rtcdc_data_channel has the pointer sctp, which is
-- always the transport of the peer that holds the channel.
pub mod Base
pub mod Callbacks
pub mod Candidates
pub mod Certificate
pub mod Channel
pub mod Chat
pub mod Checksum
pub mod Client
pub mod Connection
pub mod Dcep
pub mod FileServer
pub mod FileTrans
pub mod Lifecycle
pub mod Meta
pub mod Peer
pub mod Protocol
pub mod Pump
pub mod Sdp
pub mod Tests
pub mod Transfer
