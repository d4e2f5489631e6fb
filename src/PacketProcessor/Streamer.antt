-- ===== src/PacketProcessor/Streamer.antt =====
-- packet-processor/src/main.rs, `run_packet_ws_streamer`: from the channel to the cloud, one connection after
-- the other. A write that fails has taken its packet off the channel.
use netsentry_sensor.Common.{
  ℕ, ◌+◌, ◌≤◌, ◌≡◌, refl, Bool, true, false, Option, none, some, List, [], ◌∷◌, ◌++◌, length,
  length-append, if◌then◌else◌, arith, Bool-cases, inl, inr,
}
use netsentry_sensor.Common.Text.{Text}
use netsentry_sensor.PacketProcessor.Capture.{StreamedPacket}

-- The socket: `write` sends a text, and tells whether it succeeded.
pub record Socket (N : Type 0) : Type 0 where
  pub write : Text → N → Bool × N

module _ {N : Type 0} (to_string : StreamedPacket → Option Text) (socket : Socket N) where
  -- One connection, until a write fails or the channel is empty: what is left in the channel.
  unfoldable pub stream : List StreamedPacket → N → List StreamedPacket × N
  stream [] n = ([], n)
  stream (p ∷ ps) n = elim (to_string p) [
    | none ↦ stream ps n
    | some json ↦
        let sent = socket.write json n in
        let rest = stream ps sent.1 in if sent.0 then rest else (ps, sent.1)
  ]

  -- The rounds of the loop, by whether the connection is made; `arrived` is all that the capture puts into
  -- the channel until the round is over, for which the source waits.
  unfoldable pub run_packet_ws_streamer :
      List (Bool × List StreamedPacket) → List StreamedPacket → N → List StreamedPacket × N
  unfolding stream
  run_packet_ws_streamer [] queue n = (queue, n)
  run_packet_ws_streamer ((connected, arrived) ∷ rounds) queue n =
      let served = stream (queue ++ arrived) n in
      if connected
      then run_packet_ws_streamer rounds served.0 served.1
      else run_packet_ws_streamer rounds (queue ++ arrived) n

-- how many packets arrive, and how many connections are made
abbrev pub arrivals : List (Bool × List StreamedPacket) → ℕ
arrivals [] = 0
arrivals ((connected, arrived) ∷ rounds) = length arrived + arrivals rounds

abbrev pub connections : List (Bool × List StreamedPacket) → ℕ
connections [] = 0
connections ((connected, arrived) ∷ rounds) =
    let rest = connections rounds in if connected then 1 + rest else rest

abbrev pub written : {N : Type 0} → N × ℕ → ℕ
written n = n.1

-- the socket with a count of the writes that succeed
abbrev pub counted : {N : Type 0} → Socket N → Socket (N × ℕ)
counted socket = record {
  write = λ json n.
      let sent = socket.write json n.0 in (sent.0, (sent.1, if sent.0 then n.1 + 1 else n.1));
}

counted-write :
    {N : Type 0} (socket : Socket N) (json : Text) (n : N × ℕ)
    → written ((counted socket).write json n).1
      ≡ (if ((counted socket).write json n).0 then written n + 1 else written n)
counted-write socket json n = refl

module _ {N : Type 0} (to_string : StreamedPacket → Option Text) (socket : Socket N)
    (serialises : (p : StreamedPacket) → (json : Text) × (to_string p ≡ some json)) where
  stream-loses_one :
      (ps : List StreamedPacket) (n : N × ℕ)
      → (written (stream to_string (counted socket) ps n).1
            + length (stream to_string (counted socket) ps n).0
          ≤ written n + length ps)
        × (written n + length ps
            ≤ written (stream to_string (counted socket) ps n).1
              + length (stream to_string (counted socket) ps n).0
              + 1)
  unfolding stream
  stream-loses_one [] n = (omega arith, omega arith)
  stream-loses_one (p ∷ ps) n =
      let (json, printed) = serialises p in
      let count = counted-write socket json n in
      let rest = stream-loses_one ps ((counted socket).write json n).1 in
      elim (Bool-cases ((counted socket).write json n).0) [
        | inl good ↦ (
          ground (arith, printed, good, count, rest.0),
          ground (arith, printed, good, count, rest.1),
        )
        | inr bad ↦ (ground (arith, printed, bad, count), ground (arith, printed, bad, count))
      ]

  -- Where every packet can be serialised, each connection loses one packet at most: the packets whose
  -- write succeeded and those still in the channel are no more than what was there and arrived, and
  -- less by no more than the connections that were made. What the cloud receives of a write that
  -- succeeded is not part of this.
  pub run_packet_ws_streamer-loses :
      (rounds : List (Bool × List StreamedPacket)) (queue : List StreamedPacket) (n : N × ℕ)
      → (written (run_packet_ws_streamer to_string (counted socket) rounds queue n).1
            + length (run_packet_ws_streamer to_string (counted socket) rounds queue n).0
          ≤ written n + length queue + arrivals rounds)
        × (written n + length queue + arrivals rounds
            ≤ written (run_packet_ws_streamer to_string (counted socket) rounds queue n).1
              + length (run_packet_ws_streamer to_string (counted socket) rounds queue n).0
              + connections rounds)
  unfolding run_packet_ws_streamer
  run_packet_ws_streamer-loses [] queue n = (omega arith, omega arith)
  run_packet_ws_streamer-loses ((true, arrived) ∷ rounds) queue n =
      let served = stream to_string (counted socket) (queue ++ arrived) n in
      let (most, least) = stream-loses_one (queue ++ arrived) n in
      let (most', least') = run_packet_ws_streamer-loses rounds served.0 served.1 in
      let total = length-append queue arrived in
      (omega (arith, most, most', total), omega (arith, least, least', total))
  run_packet_ws_streamer-loses ((false, arrived) ∷ rounds) queue n =
      let (most, least) = run_packet_ws_streamer-loses rounds (queue ++ arrived) n in
      let total = length-append queue arrived in
      (omega (arith, most, total), omega (arith, least, total))
