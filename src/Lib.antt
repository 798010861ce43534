-- ===== src/Lib.antt =====
-- Logger_Verifier records video frames on a logger, signs their hashes, stores frames and hashes on
-- a server, and verifies them later. This library models its programs and proves what they do.
--
-- The logger (Logger/Logger.cpp) captures frames, makes an edge picture of each, hashes and signs
-- it, and sends the frame with its CID, hash and signed hash to the server over the transfer loops of
-- Client/client.cpp. The server (Server/server.cpp) runs a thread for each connection, which reads
-- headers and runs the handlers of command_parser/command_function_list.cpp through the table of
-- command_parser/command_parser.cpp. The handlers write to a database (DB/bout_database.cpp). The
-- verifier (Verifier/Verifier.cpp) reads the database and the stored frames.
--
-- Files:
-- Base: numbers, lists, bytes, C strings, decimals, and the monad Run of state and undefined
-- behaviour.
-- Config: the configurations of Server/util.cpp, Client/client_cfg.h, Logger/logger_cfg.h and
--   DB/Database_cfg.cpp, over jsoncpp, a parameter; Agree is about what two programs read from
--   one file, Connection the constructor of DB/bout_database.cpp.
-- Wire: HEADERPACKET, and __send, __recv, send_binary and recv_binary of Server/server.cpp and
--   Client/client.cpp. Wire/Network takes select, recv and send as a parameter and states in
--   IsStream what their documentation promises; Wire/Pipe is a network that meets it, and
--   Wire/Steady is what the loops do on that one. SendOnce and RecvOnce are about a round of a
--   loop, Send and Receive about the loops, whose fuel is one more than the number of bytes, as
--   each round but the last moves a byte.
-- Merkle: Merkle_Tree/merkle_tree.cpp and node.cpp. The digest is a parameter. Fuel counts the
--   rounds of the constructor's loop.
-- Base64: the codecs of helloworld/bs64.h, which openssl/sign.cpp repeats, the codec of
--   helloworld/test_bs64.cc, whose decoder TestDecode, TestRounds and TestAgree are about, and in
--   FileCodec encode and decode of test_dir/en_de_file.c, about which are Bitwise, Cells and
--   FileRoundTrip. DecodeLoop and RoundTrip are about the others.
-- FileCrypt: encrypt_decrypt_file and main of test_dir/en_de_file.c over AES, a parameter; Hex is
--   about the text between the two, RoundTrip about a file.
-- Database: the methods of bout_database over the MySQL client library, a parameter. Scripted is
--   a server that answers from a list and records the texts that it gets; Sessions is about the
--   texts, Selections about what is given back.
-- Server: State is the globals and the environment, Handlers and Video are the handlers, Shares
--   the shares of the key, Dispatch the table and cmd_parser, Service the thread of a connection.
--   Acks is about the results, Arrivals and Stored about frames that arrive, Broken about a
--   connection that is lost. Connections is the listening loop and its threads as a step
--   relation; below it Safety is about the port that they share, and Crossed about where the
--   answers go, on a network of many sockets. Startup is initServer and termServer, Sample an
--   environment to try the theorems on. A received buffer is not ended by a NUL; what memory
--   holds behind it is a parameter, and so is how much the allocator gives beyond what is asked
--   for.
-- Logger: Pictures is the text that is hashed, Pipeline the queues and the steps of the main
--   loop, Upload what is sent, Evaluation performance_evaluation and its requests; Rounds and
--   Delivery are about the pipeline and what is sent. OpenCV, SHA-256 and the signature are
--   parameters. Setup is the camera's settings, the loop of main and what the Web UI is sent,
--   about which are Turns and WebUi. Threads is the capture as two threads that share a frame, a
--   step relation; Exclusion, Seen, Refines and Stale below it are about what they do together.
-- Session: the programs together: a frame on its way to the server (Transfer), a request for
--   shares (Shares), the logger's public key (Registration), a request for a share of the key
--   (ShareAnswer), and what the verifier's main makes of a stored frame (Verification,
--   Rechecked).
-- Clock: getCID of Server/server.cpp and Client/client.cpp, over what strftime gives.
-- Verifier: the functions of Verifier/Verifier.cpp.
-- Client: initClient, the thread and termClient of Client/client.cpp as a step relation, and in
--   Lifetime how long the context lives that they share with the main program.
-- MsgQueue: msg_queue/msg_queue.cpp and msg_type.h over the System V queues, a parameter;
--   Settings is about the camera settings that arrive.
-- Signing: signMessage of openssl/sign.cpp and verifySignature of Verifier/verify.cpp over
--   OpenSSL, a parameter; Keys is the keys and key_generation of Logger/Logger.cpp, Aes the
--   encryption of openssl/sign.cpp and what Server/server.cpp makes of it; Authentic is about
--   which signatures pass, and says what it takes OpenSSL to promise.
-- KeyShare: the key sharing of helloworld: Text is util.h and the tokens of greeter_server.cc,
--   Aes the encryption of bs64.h, Service the handlers of greeter_server.cc, Client
--   greeter_client.cc over the interface Stub, and Served that interface filled by the service,
--   with calls that may be lost. Hidden, Fingerprint, Sets, Collect, Tokens and Answered are
--   about the parts, Assumptions, Steps and Whole about the client's main. Sample is a library of
--   secret sharing to try them on.
--
-- In every model `none` is undefined behaviour or the end of the program, or, where a function has
-- fuel, that the fuel was not enough.
--
-- Not modelled: OpenSSL, OpenCV, MySQL, jsoncpp, gRPC and c-sss, which are not of this repository,
-- and the vendored picosha2; the generated code of helloworld; the trace output. Nor are the options of
-- the sockets and the windows. The
-- transfer loops take ASYNC_BUFSIZE as an argument, and the server that of Sys_cfg.json. The
-- logger's signMessage is a parameter of its pipeline that may give nothing; Signing models its body.
pub mod Base
pub mod Config
pub mod Wire
pub mod Merkle
pub mod Base64
pub mod FileCrypt
pub mod Database
pub mod Server
pub mod Logger
pub mod Session
pub mod Clock
pub mod Client
pub mod MsgQueue
pub mod Signing
pub mod KeyShare
pub mod Verifier
