-- ===== src/Lib.antt =====
-- Model and proofs for the TAIFEX market data SDK: a C++ library that checks and parses the
-- messages of the Taiwan Futures Exchange and keeps an order book for each product. Modelled are
-- its own sources, from the sockets and the capture file over the parsers to the book.
--
-- The parts and the files that model them (paths from the root of the repository):
-- - Prelude: names of the standard libraries, lists over native numbers, bytes, exclusive or
--   (Prelude/Bits), signed 64 bit integers (Prelude/Int). Conversion: std::stoul, std::stoull and
--   std::stoll on a 64 bit platform; they throw invalid_argument without a digit and out_of_range
--   beyond the type.
-- - ErrorCodes: the exceptions of error_codes.h and the result of a call that may throw.
-- - Checksum: checksum.cpp, calculateXorChecksum and verifyXorChecksum. Checksum/Detect gives the
--   closed form and what the checksum detects.
-- - PackBcd: pack_bcd.cpp, asciiToPackBcd and packBcdToAscii. PackBcd/Value says what number bytes
--   spell, PackBcd/RoundTrip composes the two.
-- - CommonHeader: common_header.cpp, CommonHeader::parse and the getters. CommonHeader/Layout has
--   the bytes of a header, CommonHeader/Getters the numbers read from it.
-- - MessageIdentifier: message_identifier.cpp, identifyMessageId with its table.
-- - Messages: messages/*.cpp. Messages/ParserUtils is message_parser_utils.cpp and the pattern in
--   which the parsers read one field, Messages/I010, I081 and I083 are the parsers, Messages/Empty
--   those of I001 and I002. Messages/Wire and the RoundTrip modules write the messages down
--   independently; the Bounds modules are about bodies that are refused.
-- - SortedMap: std::map as the SDK uses it, over any strict order of the keys. SortedMap/Canonical
--   is about maps with the same lookups.
-- - OrderBook: order_book/order_book.cpp, the OrderBook class. OrderBook/Valid is its invariant,
--   OrderBook/LastWriter the abstract view with the rule that the last entry that writes decides,
--   OrderBook/Refinement relates updates and snapshots to the view, OrderBook/Replay repeated,
--   late and forgotten messages, OrderBook/Top the best levels.
-- - Sdk: sdk/taifex_sdk.cpp, the TaifexSdk class with process_message, is_sequence_valid, the
--   lookup of books and the handlers. Sdk/Verdict tells from the bytes what becomes of a message,
--   Sdk/Process relates process_message to it, Sdk/Handlers what the handlers do, Sdk/Reachable
--   the state machine and its invariant, Sdk/EndToEnd the whole path from wire bytes to a book.
-- - Retransmission: networking/retransmission_protocol.cpp, the serialize and deserialize
--   functions of its messages, its checksum and calculate_check_code. Retransmission/Protocol has
--   all but DataResponse102, which is Retransmission/DataResponse; Protocol/Frame is about the
--   header and the checksum around any payload, the RoundTrip modules compose the two directions,
--   Protocol/Checks is about the checksum and the check code.
-- - RetransmissionClient: networking/retransmission_client.cpp, the client with its calls and, in
--   RetransmissionClient/Handlers, handle_protocol_message, in Framing process_incoming_data and
--   the round of receive_loop. Chunks, Chunks/Frames and Chunks/Rounds say what more bytes change
--   for a message at the front of the buffer, Stream what a stream in chunks does, Delivery with
--   Frames, Arrival and Streams what the messages of the server do, Delivery/Loss what follows a
--   reply that the network refuses; Keeps and Reachable are about the client as a state machine,
--   Sending is about the loop of send, Requests about the messages of the client.
-- - MulticastReceiver: networking/multicast_receiver.cpp, with its descriptors in
--   MulticastReceiver/Descriptors.
-- - NetworkManager: networking/network_manager.cpp, which owns two receivers and a client and
--   calls the SDK. Duplicates is about the key and the log of packets, Packets and Interleaving
--   about the two feeds, Recovery about the path from the TCP stream to the SDK, Failover about a
--   lost server, Lifecycle has configure_and_start and stop; Keeps, Running and Reachable are
--   about the manager as a state machine.
-- - LogFilePacketSimulator: utils/log_file_packet_simulator.cpp and the loop of
--   examples/pcap_replay_example.cpp, with that loop over any file in
--   LogFilePacketSimulator/Replay, the records of a well-formed file in Records, and the loop over
--   them in Feeding.
-- - StringUtils: string_utils.cpp, with a reader of the text in StringUtils/Hex.
-- - Tests: inputs on which the definitions are run and the theorems applied.
--
-- How the code corresponds: a byte or a char is a number below 256, a buffer with its length is a
-- list of bytes and a null pointer is none, an out parameter is returned. An int64_t is an integer
-- of Prelude/Int and a cast to an unsigned type is written out as a remainder. An exception is a
-- value of Result; a member function returns the state with its result, and the state after a
-- throw is the state at that point. A reference to a book in the map is the key of the book. Loops
-- over lists are structural recursion; the loop over the entries of a message recurses on the
-- number of rounds left, which is the announced number, so no fuel is needed there. The number of
-- decimal digits written by std::to_string is bounded by ten, enough for an int. The calls of the
-- operating system are parameters that may answer differently at each call; the effects of the
-- client on the outside are a list in their order, and the manager does its part when it is given
-- that list. The loop of send and that of process_incoming_data take at least one byte in a round,
-- so the number of bytes bounds their rounds; the loop of the example takes the rounds as an
-- argument.
--
-- Not modelled: log messages, except that the header getters called to build them may throw, which
-- is kept; what a parser leaves in its out parameter when it returns false, since every caller
-- drops it; the reserve calls. Not modelled of the threads: interleavings inside a call or a round
-- of a loop, which are taken as one step; the callbacks of the client act on the manager after the
-- round. The sleeps, the receive timeouts and the server address have no effect in the model, and
-- a datagram or chunk may have any length. Destructors call stop and are not repeated. The 64 bit
-- helpers of endian_utils.h are not called. logger.cpp, the test programs and build/ are not part
-- of the model.
pub mod Checksum
pub mod CommonHeader
pub mod Conversion
pub mod ErrorCodes
pub mod LogFilePacketSimulator
pub mod MessageIdentifier
pub mod Messages
pub mod MulticastReceiver
pub mod NetworkManager
pub mod OrderBook
pub mod PackBcd
pub mod Prelude
pub mod Retransmission
pub mod RetransmissionClient
pub mod Sdk
pub mod SortedMap
pub mod StringUtils
pub mod Tests
