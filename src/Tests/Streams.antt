-- ===== src/Tests/Streams.antt =====
-- The retransmission client on a stream of messages, the receiver of a group, and the text of bytes.
use taifex_cpp_sdk.Prelude.{
  if◌then◌else◌, ◌==◌, ℕ, ◌+◌, ◌*◌, ◌≡◌, ◌≢◌, refl, ◌⊎◌, true, false, some, none, List, [], ◌∷◌,
  ◌++◌, All, arith, inr, length, take, drop, replicate,
}
use taifex_cpp_sdk.ErrorCodes.{ok}
use taifex_cpp_sdk.CommonHeader.Layout.{wire}
use taifex_cpp_sdk.PackBcd.Value.{bcd_from}
use taifex_cpp_sdk.Retransmission.Protocol.{
  serialize_retransmission_start, deserialize_retransmission_start, serialize_empty,
  serialize_message, serialize_header, serialize_time, calculate_retransmission_checksum, byte_sum,
  deserialize_data_request, deserialize_heartbeat_client, deserialize_login_request,
}
use taifex_cpp_sdk.Retransmission.Protocol.RoundTrip.{server_messages_back}
use taifex_cpp_sdk.MulticastReceiver.{
  MulticastReceiver, multicast_receiver, add_subscription, start, stop,
}
use taifex_cpp_sdk.RetransmissionClient
use taifex_cpp_sdk.MulticastReceiver.Descriptors.{
  times_opened, times_closed, times_held, Reachable-closes, fresh, next, adds, starts,
}
use taifex_cpp_sdk.RetransmissionClient.{
  Host, Received, bytes, connection_of, Connection, Client, send_tcp_message,
  request_retransmission, stamp, login_request, send_client_heartbeat, perform_login,
}
use taifex_cpp_sdk.RetransmissionClient.Framing.{
  next_frame, protocol_frame, client, take_frames, process_incoming_data,
}
use taifex_cpp_sdk.RetransmissionClient.Stream.{
  receive_chunks, receive_chunks-concat, concat, seen, Ended, process_incoming_data_ends,
}
use taifex_cpp_sdk.Retransmission.Protocol.Frame.{sent}
use taifex_cpp_sdk.RetransmissionClient.Requests.{Reaches, calls-Reach}
use taifex_cpp_sdk.RetransmissionClient.Sending.{IsSent, IsLost, send_tcp_message_lem}
use taifex_cpp_sdk.RetransmissionClient.Reachable as Machine
use taifex_cpp_sdk.RetransmissionClient.Delivery.{
  Message, market_message, retransmission_start, IsSendable,
}
use taifex_cpp_sdk.RetransmissionClient.Delivery.Streams.{
  stream, deliver_all, receive_chunks-stream,
}
use taifex_cpp_sdk.RetransmissionClient.Delivery.Loss.{beat_and_start}
use taifex_cpp_sdk.NetworkManager.{all_callbacks}
use taifex_cpp_sdk.NetworkManager.Recovery.{Market}
use taifex_cpp_sdk.LogFilePacketSimulator.{
  LogFilePacketSimulator, log_file_packet_simulator, open_file, has_next_packet, peek, read,
  read_pcap_packet_captured_length, read_captured_data, from_escape, get_next_taifex_packet, replay,
}
use taifex_cpp_sdk.LogFilePacketSimulator.Replay.{replay_ends}
use taifex_cpp_sdk.LogFilePacketSimulator.Records
use taifex_cpp_sdk.LogFilePacketSimulator.Records.{
  Captured, IsCaptured, records, packets, IsTaken, at_end,
}
use taifex_cpp_sdk.LogFilePacketSimulator.Feeding.{replay-open_file}
use taifex_cpp_sdk.StringUtils.{bytes_to_hex_string, bytes_to_hex_string_vector}
use taifex_cpp_sdk.StringUtils.Hex.{parse_hex, IsHexDigit, parse_hex-bytes_to_hex_string}
use taifex_cpp_sdk.Tests.Retransmission.{header, header-Fits, request, request-Fits}
use taifex_cpp_sdk.Tests.Sessions.{ready}
use taifex_cpp_sdk.Tests.Network.{joined, group, group_host}
use taifex_cpp_sdk.Tests.Packets.{
  beat, beat-IsShaped, beat_length, packet_42, packet_43, arrival_42-IsReadable,
}

-- A network that accepts one byte at a time and hands over two bytes.
abbrev host : Host
host = record {
  socket = λ n. some 3;
  valid_address = true;
  connect = λ n. true;
  send = λ n m. some 1;
  recv = λ n. bytes (0 ∷ 14 ∷ []);
  clock = λ n. 1700000000000000005;
}

-- A start message, a heartbeat of the market, and the front of another message.
abbrev messages : List Message
messages = retransmission_start header ∷ market_message (beat 0x42 0x43) [] 0x43 ∷ []

messages-IsSendable : All IsSendable messages
unfolding bcd_from
messages-IsSendable =
    (header-Fits, ((beat-IsShaped 0x42 0x43 42 refl, refl, beat_length 0x42 0x43 42 refl), tt))

abbrev rest : List ℕ
rest = 0 ∷ 14 ∷ []

abbrev whole : List ℕ
whole = stream messages ++ rest

receive_chunks-stream_example :
    receive_chunks host
      (take 5 whole ∷ take 20 (drop 5 whole) ∷ drop 25 whole ∷ [])
      (client joined [])
    ≡ (ok tt, client (deliver_all host messages joined) rest)
unfolding next_frame protocol_frame serialize_empty serialize_message serialize_header
    serialize_time calculate_retransmission_checksum byte_sum wire
receive_chunks-stream_example =
    receive_chunks-stream host messages rest (take 5 whole)
      (take 20 (drop 5 whole) ∷ drop 25 whole ∷ []) joined messages-IsSendable refl (inr refl) refl

receive_chunks-concat_example :
    seen (receive_chunks host (take 5 packet_42 ∷ drop 5 packet_42 ∷ []) (client joined []))
    ≡ seen (
        process_incoming_data host
          (concat (take 5 packet_42 ∷ drop 5 packet_42 ∷ []))
          (client joined []))
receive_chunks-concat_example =
    receive_chunks-concat host (take 5 packet_42) (drop 5 packet_42 ∷ []) (client joined [])

process_incoming_data_ends_example :
    Ended (process_incoming_data host packet_42 (client joined []))
    × (take_frames host 30 joined packet_42
        ≡ process_incoming_data host packet_42 (client joined []))
unfolding wire
process_incoming_data_ends_example =
    process_incoming_data_ends host packet_42 (client joined []) 30 (omega arith)

Reachable_client-IsValid_example :
    Machine.IsValid
      (request_retransmission host request
        (RetransmissionClient.start (connection_of 5 (b'7' ∷ []) all_callbacks)).1).1
Reachable_client-IsValid_example = Machine.Reachable_client-IsValid (
    Machine.next (Machine.next (Machine.fresh 5 (b'7' ∷ []) all_callbacks) Machine.starts)
      (Machine.requests request))

send_tcp_message_lem_example :
    IsSent packet_42 joined (send_tcp_message host packet_42 joined)
    ⊎ IsLost packet_42 joined (send_tcp_message host packet_42 joined)
send_tcp_message_lem_example = send_tcp_message_lem host packet_42 joined refl refl

abbrev start_bytes : List ℕ
start_bytes = serialize_retransmission_start header []

start_parsed : deserialize_retransmission_start start_bytes ≢ none
start_parsed =
    let (login_back, start_back, beat_back, error_back) =
      server_messages_back header 2 3 header-Fits (omega arith) in
    λ e. cc

abbrev lost : Connection
lost = record joined { connected = false; logged_in = false; socket_fd = none }

abbrev markets : List Market
markets =
    record { header = beat 0x42 0x43; body = []; check_sum = 0x43; channel = 1; number = 42 }
    ∷ record { header = beat 0x43 0x42; body = []; check_sum = 0x42; channel = 1; number = 43 }
    ∷ []

abbrev retransmitted : List ℕ
retransmitted = packet_42 ++ packet_43

abbrev after_stream : Client
after_stream =
    (receive_chunks host (take 30 retransmitted ∷ drop 30 retransmitted ∷ []) (client joined [])).1

-- A receiver with one group, started.
abbrev listening : MulticastReceiver
listening = (start group_host (add_subscription group multicast_receiver).1).1

Reachable-closes_example :
    (times_opened 8 listening.log
      ≡ times_closed 8 listening.log + times_held 8 listening.subscriptions)
    × (times_opened 8 (stop listening).log ≡ times_closed 8 (stop listening).log)
Reachable-closes_example = Reachable-closes 8 (next (next fresh (adds group)) (starts group_host))

parse_hex-bytes_to_hex_string_example :
    (parse_hex (bytes_to_hex_string (some (27 ∷ 160 ∷ []))) ≡ 27 ∷ 160 ∷ [])
    × (length (bytes_to_hex_string (some (27 ∷ 160 ∷ []))) ≡ 2 * 2)
    × All IsHexDigit (bytes_to_hex_string (some (27 ∷ 160 ∷ [])))
    × (bytes_to_hex_string_vector (27 ∷ 160 ∷ []) ≡ bytes_to_hex_string (some (27 ∷ 160 ∷ [])))
parse_hex-bytes_to_hex_string_example = parse_hex-bytes_to_hex_string (27 ∷ 160 ∷ []) (omega arith)

-- A capture file with one packet.
abbrev capture : List ℕ
capture = replicate 24 0 ++ (replicate 8 0 ++ (22 ∷ 0 ∷ 0 ∷ 0 ∷ (replicate 4 0 ++ packet_42)))

abbrev simulator : LogFilePacketSimulator
simulator = (open_file (log_file_packet_simulator (some capture) 24 16)).1

replay_ends_example : replay 39 0 simulator ready ≢ none
unfolding open_file wire
replay_ends_example = replay_ends 39 0 simulator ready (omega arith) (omega arith)

abbrev first_packet : List ℕ
first_packet = (get_next_taifex_packet simulator).0

first_packet_lem : first_packet ≡ packet_42
unfolding open_file has_next_packet peek get_next_taifex_packet read_pcap_packet_captured_length
    read read_captured_data from_escape wire
first_packet_lem = refl

-- A capture with a packet behind the headers of the network, and one without an ESC code.
abbrev captured : List Captured
captured =
    record { header = replicate 8 0 ++ (24 ∷ replicate 7 0); payload = 69 ∷ 0 ∷ packet_42 }
    ∷ record { header = replicate 8 0 ++ (2 ∷ replicate 7 0); payload = 69 ∷ 0 ∷ [] }
    ∷ []

captured-IsCaptured : All (IsCaptured 16) captured
unfolding wire
captured-IsCaptured = (
  record { header_fits = refl; length_held = refl; some_bytes = omega arith; sane = omega arith },
  (
    record { header_fits = refl; length_held = refl; some_bytes = omega arith; sane = omega arith },
    tt,
  ),
)

captured-IsTaken : All IsTaken (packets captured)
unfolding packets from_escape wire
captured-IsTaken = ((arrival_42-IsReadable 9).accepted, tt)

abbrev whole_file : List ℕ
whole_file = replicate 24 0 ++ records captured

replay-open_file_example :
    replay 3 0 (open_file (log_file_packet_simulator (some whole_file) 24 16)).1 ready
    ≡ some (
      ok tt,
      record {
        packet_count = length (packets captured);
        simulator = at_end (some whole_file) 24 16;
        sdk = Records.fed (packets captured) ready;
      },
    )
replay-open_file_example =
    replay-open_file (replicate 24 0) captured 16 3 ready (omega arith) captured-IsCaptured
      captured-IsTaken (omega arith)

calls-Reach_example :
    Reaches deserialize_data_request
      (sent 101 22 (stamp 0 1700000000000000005))
      request
      joined
      (request_retransmission host request joined)
    × Reaches deserialize_heartbeat_client
        (sent 105 14 (stamp 0 1700000000000000005))
        tt
        joined
        (send_client_heartbeat host joined)
    × Reaches deserialize_login_request
        (sent 20 19 (stamp 0 1700000000000000005))
        (login_request joined)
        (record joined { logged_in = false })
        (perform_login host (record joined { logged_in = false }))
calls-Reach_example =
    calls-Reach host request joined request-Fits (omega arith) (omega arith) refl refl refl

-- The same network, which refuses the reply to the heartbeat.
abbrev refusing : Host
refusing = record host { send = λ n m. if n == 1 then none else some 1 }

abbrev beat_then_start : List ℕ
beat_then_start = stream (beat_and_start header header)
