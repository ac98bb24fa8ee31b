-- ===== src/NetworkManager/Recovery.antt =====
-- Retransmitted market data on its way from the TCP stream through the client and the manager to the SDK.
use taifex_cpp_sdk.Prelude.{ℕ, List}
use taifex_cpp_sdk.CommonHeader.{CommonHeader}
use taifex_cpp_sdk.Sdk.{Sdk}
use taifex_cpp_sdk.RetransmissionClient.{Effect, market_data}
use taifex_cpp_sdk.RetransmissionClient.Delivery.{Message, market_message, bytes_of, IsSendable}
use taifex_cpp_sdk.NetworkManager.{NetworkManager}
use taifex_cpp_sdk.NetworkManager.Packets.{Arrival, IsReadable}

-- A market data message with the channel and the number of its header.
pub record Market : Type 0 where
  pub header : CommonHeader
  pub body : List ℕ
  pub check_sum : ℕ
  pub channel : ℕ
  pub number : ℕ

abbrev pub message_of : Market → Message
message_of m = market_message m.header m.body m.check_sum

abbrev pub arrival_of : ℕ → Market → Arrival
arrival_of now m = record {
  time = now;
  packet = bytes_of (message_of m);
  channel = m.channel;
  number = m.number;
}

-- It can be sent, has such a header, and the SDK does not throw on it.
abbrev pub IsMarket : ℕ → Market → Type 0
IsMarket now m = IsSendable (message_of m) × IsReadable (arrival_of now m)

abbrev handed : Market → Effect
handed m = market_data (bytes_of (message_of m))
