-- ===== src/Tests/Streaming.antt =====
-- The stream of packets at a concrete input.
use netsentry_sensor.Common.{ℕ, ◌+◌, ◌≤◌, refl, Bool, true, false, some, List, [], ◌∷◌, length, ltb}
use netsentry_sensor.Common.Text.{codes}
use netsentry_sensor.PacketProcessor.Capture.{StreamedPacket}
use netsentry_sensor.PacketProcessor.Streamer.{
  Socket, counted, written, run_packet_ws_streamer, arrivals, connections,
  run_packet_ws_streamer-loses,
}

abbrev packet : StreamedPacket
packet = record {
  id = codes "p1";
  timestamp = 7;
  src_ip = codes "203.0.113.9";
  dst_ip = codes "10.0.0.2";
  src_port = 4000;
  dst_port = 80;
  protocol = codes "TCP";
  payload_hex = codes "0102";
  packet_size = 2;
  interface = codes "eth0";
}

-- a socket that counts its writes, of which the second and all later ones fail
abbrev flaky : Socket ℕ
flaky = record { write = λ json n. (ltb n 1, n + 1) }

abbrev rounds : List (Bool × List StreamedPacket)
rounds = (false, packet ∷ []) ∷ (true, packet ∷ packet ∷ []) ∷ []

abbrev ended : List StreamedPacket × (ℕ × ℕ)
ended = run_packet_ws_streamer (λ p. some (codes "{}")) (counted flaky) rounds [] (0, 0)

run_packet_ws_streamer-loses_example :
    (written ended.1 + length ended.0 ≤ 0 + 0 + arrivals rounds)
    × (0 + 0 + arrivals rounds ≤ written ended.1 + length ended.0 + connections rounds)
run_packet_ws_streamer-loses_example =
    run_packet_ws_streamer-loses (λ p. some (codes "{}")) flaky (λ p. (codes "{}", refl)) rounds []
      (0, 0)
