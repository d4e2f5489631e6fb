-- ===== src/PacketProcessor/Capture/Stream.antt =====
-- What the capture puts into the channel.
use netsentry_sensor.Common.{
  ℕ, zero, suc, ◌+◌, ◌-◌, ◌*◌, ◌/◌, ◌%◌, ◌≤◌, ◌<◌, ◌≡◌, refl, ap, false, not, ◌&&◌, Option, none,
  some, List, [], ◌∷◌, arith, length, take, is_empty, All, All-append, length-append, ltb, leb,
  if◌then◌else◌, Bool-cases, inl, inr,
}
use netsentry_sensor.Common.Text.{Text}
use netsentry_sensor.PacketProcessor.Cache.{BlockedIps, is_ip_blocked}
use netsentry_sensor.PacketProcessor.Capture.{
  StreamedPacket, Headers, hex_digit, hex, try_send, packet_of, capture,
}
use netsentry_sensor.PacketProcessor.Junk.{is_junk_packet}

abbrev pub unhex_digit : ℕ → Option ℕ
unhex_digit c =
    if leb b'0' c && leb c b'9'
    then some (c - b'0')
    else if leb b'a' c && leb c b'f'
    then some (c - 87)
    else none

abbrev pub both : Option ℕ → Option ℕ → Option (List ℕ) → Option (List ℕ)
both (some h) (some l) (some rest) = some ((h * 16 + l) ∷ rest)
both _ _ _ = none

-- the bytes that a text of hexadecimal digits stands for
unfoldable pub unhex : Text → Option (List ℕ)
unhex [] = some []
unhex (c ∷ []) = none
unhex (c ∷ d ∷ s) = both (unhex_digit c) (unhex_digit d) (unhex s)

unhex-hex_digit : (n : ℕ) → n < 16 → unhex_digit (hex_digit n) ≡ some n
unhex-hex_digit n h = ground arith

-- Numbers below 256 can be read back from their hexadecimal digits.
pub unhex-hex : (bs : List ℕ) → All (λ b. b < 256) bs → unhex (hex bs) ≡ some bs
unfolding unhex hex
unhex-hex [] h = refl
unhex-hex (b ∷ bs) (p, h) =
    rw
      (
        unhex-hex bs h,
        unhex-hex_digit (b / 16) (omega arith),
        unhex-hex_digit (b % 16) (omega arith),
      )
      (ap some (ap (λ x. x ∷ bs) (omega arith)))

length-hex : (bs : List ℕ) → length (hex bs) ≡ 2 * length bs
unfolding hex
length-hex [] = refl
length-hex (b ∷ bs) = omega (arith, length-hex bs)

length-take-le : {A : Type 0} → (n : ℕ) (xs : List A) → length (take n xs) ≤ n
length-take-le zero xs = omega arith
length-take-le (suc n) [] = omega arith
length-take-le (suc n) (x ∷ xs) = omega (arith, length-take-le n xs)

-- A frame, with what is drawn and read for it and the cache of its time.
pub record Frame : Type 0 where
  pub now : ℕ
  pub id : Text
  pub timestamp : ℕ
  pub size : ℕ
  pub headers : Option Headers
  pub blocked : BlockedIps

unfoldable pub capture_all :
    (capacity : ℕ) (interface : Text) → List Frame → List StreamedPacket → List StreamedPacket
unfolding capture
capture_all capacity interface [] queue = queue
capture_all capacity interface (f ∷ fs) queue =
    capture_all capacity interface fs
      (capture capacity interface f.now f.id f.timestamp f.size f.headers f.blocked queue)

-- a packet that is worth sending, with at most 256 bytes of payload
abbrev pub IsStreamable : StreamedPacket → Type 0
IsStreamable p =
    (is_junk_packet p.src_ip p.dst_ip p.protocol p.dst_port ≡ false) × (length p.payload_hex ≤ 512)

abbrev pub IsQueue : ℕ → List StreamedPacket → Type 0
IsQueue capacity queue = All IsStreamable queue × (length queue ≤ capacity)

try_send-IsQueue :
    (capacity : ℕ) (p : StreamedPacket) (queue : List StreamedPacket)
    → IsStreamable p
    → IsQueue capacity queue
    → IsQueue capacity (try_send capacity p queue)
unfolding try_send
try_send-IsQueue capacity p queue hp (hq, room) = elim (Bool-cases (ltb (length queue) capacity)) [
  | inr e ↦ rw e (hq, room)
  | inl e ↦ rw e (
    All-append IsStreamable queue (p ∷ []) hq (hp, tt),
    ground (arith, length-append queue (p ∷ []), e),
  )
]

packet_of-IsStreamable :
    (interface id : Text) (timestamp size : ℕ) (h : Headers)
    → is_junk_packet h.src_ip h.dst_ip h.protocol h.dst_port ≡ false
    → IsStreamable (packet_of interface id timestamp size h)
unfolding packet_of
packet_of-IsStreamable interface id timestamp size h clean =
    (clean, omega (arith, length-hex (take 256 h.payload), length-take-le 256 h.payload))

capture-IsQueue :
    (capacity : ℕ) (interface : Text) (now : ℕ) (id : Text) (timestamp size : ℕ)
    (o : Option Headers) (blocked : BlockedIps) (queue : List StreamedPacket)
    → IsQueue capacity queue
    → IsQueue capacity (capture capacity interface now id timestamp size o blocked queue)
unfolding capture
capture-IsQueue capacity interface now id timestamp size none blocked queue h = h
capture-IsQueue capacity interface now id timestamp size (some hd) blocked queue h =
    elim (Bool-cases (not (is_empty hd.src_ip) && is_ip_blocked now hd.src_ip blocked)) [
      | inl e ↦ rw e h
      | inr e ↦
          rw e (elim (Bool-cases (is_junk_packet hd.src_ip hd.dst_ip hd.protocol hd.dst_port)) [
            | inl junk ↦ rw junk h
            | inr clean ↦ rw clean (
                try_send-IsQueue capacity (packet_of interface id timestamp size hd) queue
                  (packet_of-IsStreamable interface id timestamp size hd clean) h)
          ])
    ]

capture_all-IsQueue_from :
    (capacity : ℕ) (interface : Text) (fs : List Frame) (queue : List StreamedPacket)
    → IsQueue capacity queue
    → IsQueue capacity (capture_all capacity interface fs queue)
unfolding capture_all
capture_all-IsQueue_from capacity interface [] queue h = h
capture_all-IsQueue_from capacity interface (f ∷ fs) queue h =
    capture_all-IsQueue_from capacity interface fs _
      (capture-IsQueue capacity interface f.now f.id f.timestamp f.size f.headers f.blocked queue h)

-- Whatever the frames and the caches of their times, every packet in the channel is one that is
-- worth sending, with at most 512 digits of payload, and the channel stays within its capacity.
pub capture_all-IsQueue :
    (capacity : ℕ) (interface : Text) (fs : List Frame)
    → IsQueue capacity (capture_all capacity interface fs [])
capture_all-IsQueue capacity interface fs =
    capture_all-IsQueue_from capacity interface fs [] (tt, omega arith)
