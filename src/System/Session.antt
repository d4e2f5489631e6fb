-- ===== src/System/Session.antt =====
-- A session of commands of the cloud, from the frames that the collector reads to the tables of the
-- network filter.
use netsentry_sensor.Common.{
  ℕ, ◌+◌, ◌/◌, ◌≤◌, ◌≡◌, sym, Bool, false, Option, none, some, List, [], ◌∷◌, ◌++◌, map, All, arith,
  ltb, if◌then◌else◌, ap, ◌∙◌, Option-cases, inl, inr,
}
use netsentry_sensor.Collector.Commands.{Client, Handled, Body, handle_vps_command}
use netsentry_sensor.Collector.Commands.Protocol.{Reads, react, handle_vps_command-react}
use netsentry_sensor.Collector.Commands.Sessions.{Frame, Settings, listen}
use netsentry_sensor.Collector.Debug.{WsDebugState}
use netsentry_sensor.Collector.Json.{Json}
use netsentry_sensor.Common.Outcome.{ok, err}
use netsentry_sensor.Common.Text.{Text, codes, text_eq}
use netsentry_sensor.Forwarder.Service.{Calendar}
use netsentry_sensor.NetworkFilter.Api.Answers.{unblock_ip-unblocks}
use netsentry_sensor.NetworkFilter.Api.Documents.{Database}
use netsentry_sensor.NetworkFilter.Api.Handlers.{block_ip, unblock_ip, persist_unblock}
use netsentry_sensor.NetworkFilter.Api.Messages.{
  UnblockRequest, HandlerClock, bad_request, normalize_ipv4_target,
}
use netsentry_sensor.NetworkFilter.Blocking
use netsentry_sensor.NetworkFilter.Filter.{Times, hours_secs, is_ip_blocked}
use netsentry_sensor.NetworkFilter.Firewall.{Machine, apply_iptables_block, remove_iptables_block}
use netsentry_sensor.NetworkFilter.State.{World}
use netsentry_sensor.Shared.Protocols.{
  BlockCommand, UnblockCommand, WsPayload, WsMessage, Serializer, IsTyped, message_value,
  block_command, unblock_command, rule_update, command_ack, alert, metrics, ping, pong,
}
use netsentry_sensor.System.{Node, with_filter}
use netsentry_sensor.System.Commands.{
  IsTimed, hours_of-IsTimed, block_command-is_ip_blocked, handle-block_command,
  handle-unblock_command,
}

-- A message as it arrives: the readings of the clock for the record, its text, and what that says.
pub record Arrival (F : Type 0) : Type 0 where
  pub at : ℕ
  pub received_at : ℕ
  pub text : Text
  pub message : WsMessage F

abbrev pub frames_of : {F : Type 0} → List (Arrival F) → List Frame
frames_of arrivals = map (λ a. Frame.text a.at a.received_at a.text) arrivals

-- A block lasts a positive number of whole hours, `limit` at most.
abbrev pub IsTimely : {F : Type 0} → (limit : ℕ) → WsPayload F → Type 0
IsTimely limit (block_command b) = IsTimed b.duration_secs × (b.duration_secs / 3600 ≤ limit)
IsTimely limit _ = Unit

-- The text is read as the message, the numbers of that fit their types, and a block is timely.
abbrev pub IsHeard : {F V : Type 0} → Json V → Serializer F V → (limit : ℕ) → Arrival F → Type 0
IsHeard json to limit a =
    IsTyped a.message.payload
    × (IsTimely limit a.message.payload × (json.parse a.text ≡ ok (message_value to a.message)))

-- Each reading of the clocks leaves room for `limit` hours, and then the sums are `expiry`,
-- `utc_expiry` and `date`.
pub record HasRoom (times : Times) (calendar : Calendar) (clock : ℕ → HandlerClock) (limit : ℕ)
    (expiry utc_expiry date : (base secs : ℕ) → ℕ) : Type 0 where
  pub instants :
      (i h : ℕ)
      → h ≤ limit
      → times.instant_after (clock i).block.expiry_base (hours_secs h)
        ≡ some (expiry (clock i).block.expiry_base (hours_secs h))
  pub utcs :
      (i h : ℕ)
      → h ≤ limit
      → times.utc_after (clock i).block.utc_now (hours_secs h)
        ≡ some (utc_expiry (clock i).block.utc_now (hours_secs h))
  pub dates :
      (i h : ℕ)
      → h ≤ limit
      → calendar.hours_after (clock i).document_at h ≡ some (date (clock i).document_at h)

-- The firewall takes every block and every removal of an address.
pub record IsWilling {K : Type 0} (m : Machine K) : Type 0 where
  pub blocks :
      (text ip : Text) (k : K)
      → normalize_ipv4_target text ≡ some ip
      → (apply_iptables_block m ip k).0 ≡ ok tt
  pub removes :
      (text ip : Text) (k : K)
      → normalize_ipv4_target text ≡ some ip
      → (remove_iptables_block m ip k).0 ≡ ok tt

-- The end of the block of each address that has one.
abbrev pub Blocks : Type 0
Blocks = Text → Option ℕ

abbrev pub ends_after : (now : ℕ) → Option ℕ → Bool
ends_after now none = false
ends_after now (some expires) = ltb now expires

-- an address set to an end, or to none, if the address is one
abbrev pub put : Option Text → Option ℕ → Blocks → Blocks
put none end blocks j = blocks j
put (some ip) end blocks j = if text_eq ip j then end else blocks j

-- the requests to the filter that a message leads to
abbrev pub requests : {F : Type 0} → WsPayload F → ℕ
requests (block_command _) = 1
requests (unblock_command _) = 1
requests _ = 0

module _ {F : Type 0} (expiry : (base secs : ℕ) → ℕ) (clock : ℕ → HandlerClock) where
  -- what a message asks for, as the `i`-th request to the filter
  abbrev pub asked : ℕ → WsPayload F → Blocks → Blocks
  asked i (block_command b) blocks =
      put (normalize_ipv4_target b.ip) (some (expiry (clock i).block.expiry_base b.duration_secs))
        blocks
  asked i (unblock_command u) blocks = put (normalize_ipv4_target u.ip) none blocks
  asked i _ blocks = blocks

  -- the blocks after all messages
  unfoldable pub after_all : ℕ → List (Arrival F) → Blocks → Blocks
  after_all i [] blocks = blocks
  after_all i (a ∷ as') blocks =
      after_all (i + requests a.message.payload) as' (asked i a.message.payload blocks)

-- The table says what the blocks say.
abbrev pub Agrees : {K G : Type 0} → World K G → Blocks → Type 0
Agrees w blocks = (now : ℕ) (j : Text) → is_ip_blocked now j w.filter ≡ ends_after now (blocks j)

-- the rest of the network, the number of requests to the filter, and the filter
abbrev pub State : (K G D M : Type 0) → Type 0
State K G D M = M × ℕ × Node K G D

-- The rest is in the state `s`, there were `i` requests, none panicked, and the table says what the
-- blocks say.
abbrev pub IsServing : {K G D M : Type 0} → State K G D M → M → ℕ → Blocks → Type 0
IsServing {K} {G} {D} {M} n s i blocks =
    (w : World K G) × (d : D) × (n ≡ (s, i, some (w, d))) × Agrees w blocks

-- The rest after a message, of which it gets the rules, and after all.
abbrev pub told : {F V M : Type 0} → Client V M → Settings → WsPayload F → M → M
told rest settings (rule_update r) s =
    (rest.post (settings.rule_engine_url ++ codes "/rules/apply")
      (Body.rule r.suricata_rule r.iptables_rule) s).1
told rest settings _ s = s

unfoldable pub all_told : {F V M : Type 0} → Client V M → Settings → List (Arrival F) → M → M
all_told rest settings [] s = s
all_told rest settings (a ∷ as') s =
    all_told rest settings as' (told rest settings a.message.payload s)

unfoldable pub count_requests : {F : Type 0} → List (Arrival F) → ℕ
count_requests [] = 0
count_requests (a ∷ as') = requests a.message.payload + count_requests as'

module _ {F V K G D M : Type 0} (json : Json V) (to : Serializer F V) (h : Reads json to)
    (m : Machine K) (times : Times) (calendar : Calendar) (db : Database D) (dns : Text → List Text)
    (clock : ℕ → HandlerClock) (rest : Client V M) (settings : Settings) (limit : ℕ)
    (expiry utc_expiry date : (base secs : ℕ) → ℕ)
    (room : HasRoom times calendar clock limit expiry utc_expiry date) (willing : IsWilling m) where
  abbrev client : Client V (State K G D M)
  client = with_filter m times calendar db dns clock settings.network_filter_url rest

  abbrev handled : Arrival F → State K G D M → WsDebugState → Handled (State K G D M)
  handled a n dbg =
      handle_vps_command json client settings.rule_engine_url a.at a.received_at a.text
        settings.network_filter_url n dbg

  handled-block_command :
      (a : Arrival F) (b : BlockCommand) (s : M) (i : ℕ) (w : World K G) (d : D)
      (dbg : WsDebugState) (blocks : Blocks)
      → IsTyped {F = F} (block_command b)
      → IsTimely {F = F} limit (block_command b)
      → json.parse a.text
        ≡ ok (
            message_value to (record {
              id = a.message.id;
              timestamp = a.message.timestamp;
              payload = block_command b;
            }))
      → Agrees w blocks
      → IsServing
          (handled a (s, i, some (w, d)) dbg).1
          s
          (i + 1)
          (asked {F = F} expiry clock i (block_command b) blocks)
  unfolding block_ip
  handled-block_command a b s i w d dbg blocks typed (timed, small) read agrees =
      elim (Option-cases (normalize_ipv4_target b.ip)) [
        | inl invalid ↦
            let e =
              handle-block_command json to h m times calendar db dns clock rest
                settings.rule_engine_url settings.network_filter_url a.text a.at a.received_at b
                a.message.id a.message.timestamp s i w d dbg typed read (err bad_request) w d
                (ground (arith, invalid)) in
            (w, d, ap (λ x. x.1) e, λ now j. ground (arith, invalid, agrees now j))
        | inr (ip, target) ↦
            let hours = b.duration_secs / 3600 in
            let (secs, same) = hours_of-IsTimed b.duration_secs timed typed.0 in
            let whole : hours_secs hours ≡ b.duration_secs = ap hours_secs (sym same) ∙ secs in
            let (w1, d1, e, _, blocked) =
              block_command-is_ip_blocked json to h m times calendar db dns clock rest
                settings.rule_engine_url settings.network_filter_url a.text a.at a.received_at b
                a.message.id a.message.timestamp s i w d dbg typed read timed ip
                (utc_expiry (clock i).block.utc_now b.duration_secs)
                (expiry (clock i).block.expiry_base b.duration_secs)
                (date (clock i).document_at hours) (apply_iptables_block m ip w.kernel).1 target
                (rw whole at (room.utcs i hours small)) (rw whole at (room.instants i hours small))
                (room.dates i hours small)
                (ground (arith, willing.blocks b.ip ip w.kernel target)) in
            (w1, d1, e, λ now j. ground (arith, target, agrees now j, blocked now j))
      ]

  handled-unblock_command :
      (a : Arrival F) (u : UnblockCommand) (s : M) (i : ℕ) (w : World K G) (d : D)
      (dbg : WsDebugState) (blocks : Blocks)
      → json.parse a.text
        ≡ ok (
            message_value to (record {
              id = a.message.id;
              timestamp = a.message.timestamp;
              payload = unblock_command u;
            }))
      → Agrees w blocks
      → IsServing
          (handled a (s, i, some (w, d)) dbg).1
          s
          (i + 1)
          (asked {F = F} expiry clock i (unblock_command u) blocks)
  unfolding unblock_ip persist_unblock Blocking.unblock_ip
  handled-unblock_command a u s i w d dbg blocks read agrees =
      let request : UnblockRequest = record { ip = u.ip; reason = u.reason } in
      let answer = unblock_ip m calendar db (clock i) request w d in
      let e =
        handle-unblock_command json to h m times calendar db dns clock rest settings.rule_engine_url
          settings.network_filter_url a.text a.at a.received_at u a.message.id a.message.timestamp s
          i w d dbg read in
      (
        answer.1,
        answer.2,
        ap (λ x. x.1) e,
        elim (Option-cases (normalize_ipv4_target u.ip)) [
          | inl invalid ↦ λ now j. ground (arith, invalid, agrees now j)
          | inr (ip, target) ↦
              elim (unblock_ip-unblocks m calendar db (clock i) w d request ip target) [
                | inl (_, blocked) ↦ λ now j. ground (arith, target, agrees now j, blocked now j)
                | inr (failed, _, _) ↦
                    absurd (ground (arith, target, failed, willing.removes u.ip ip w.kernel target))
              ]
        ],
      )

  abbrev reacts :
      (a : Arrival F) (p : WsPayload F) (n : State K G D M) (dbg : WsDebugState)
      → IsTyped p
      → json.parse a.text
        ≡ ok (
            message_value to
              (record { id = a.message.id; timestamp = a.message.timestamp; payload = p }))
      → handled a n dbg
        ≡ react json client settings.rule_engine_url settings.network_filter_url a.at a.received_at
            p n dbg
  reacts a p n dbg typed read =
      handle_vps_command-react json to h client settings.rule_engine_url settings.network_filter_url
        a.at a.received_at
        (record { id = a.message.id; timestamp = a.message.timestamp; payload = p }) a.text n dbg
        typed read

  module _
      (apart : (text_eq
            (settings.rule_engine_url ++ codes "/rules/apply")
            (settings.network_filter_url ++ codes "/block")
          ≡ false)
        × (text_eq
              (settings.rule_engine_url ++ codes "/rules/apply")
              (settings.network_filter_url ++ codes "/unblock")
            ≡ false)) where
    handled-IsServing :
        (a : Arrival F) (p : WsPayload F) (s : M) (i : ℕ) (w : World K G) (d : D)
        (dbg : WsDebugState) (blocks : Blocks)
        → IsTyped p
        → IsTimely limit p
        → json.parse a.text
          ≡ ok (
              message_value to
                (record { id = a.message.id; timestamp = a.message.timestamp; payload = p }))
        → Agrees w blocks
        → IsServing
            (handled a (s, i, some (w, d)) dbg).1
            (told rest settings p s)
            (i + requests p)
            (asked expiry clock i p blocks)
    unfolding react with_filter
    handled-IsServing a (block_command b) s i w d dbg blocks typed timely read agrees =
        handled-block_command a b s i w d dbg blocks typed timely read agrees
    handled-IsServing a (unblock_command u) s i w d dbg blocks typed timely read agrees =
        handled-unblock_command a u s i w d dbg blocks read agrees
    handled-IsServing a (rule_update r) s i w d dbg blocks typed timely read agrees =
        let e = reacts a (rule_update r) (s, i, some (w, d)) dbg typed read in
        (w, d, ground (arith, e, apart), agrees)
    handled-IsServing a (command_ack x) s i w d dbg blocks typed timely read agrees =
        (w, d, ground (arith, reacts a (command_ack x) (s, i, some (w, d)) dbg typed read), agrees)
    handled-IsServing a (alert x) s i w d dbg blocks typed timely read agrees =
        (w, d, ground (arith, reacts a (alert x) (s, i, some (w, d)) dbg typed read), agrees)
    handled-IsServing a (metrics x) s i w d dbg blocks typed timely read agrees =
        (w, d, ground (arith, reacts a (metrics x) (s, i, some (w, d)) dbg typed read), agrees)
    handled-IsServing a (ping x) s i w d dbg blocks typed timely read agrees =
        (w, d, ground (arith, reacts a (ping x) (s, i, some (w, d)) dbg typed read), agrees)
    handled-IsServing a (pong x) s i w d dbg blocks typed timely read agrees =
        (w, d, ground (arith, reacts a (pong x) (s, i, some (w, d)) dbg typed read), agrees)

    -- After any messages that are heard, whatever their types, where the clocks have room, the firewall
    -- is willing, and the rule engine is at a URL of its own: no handler has panicked, the rest has got
    -- the rules, and an address is blocked at the network filter exactly until the end that the last
    -- command for it sets, and not at all if that was an unblock. Commands for what is no address
    -- change nothing, and an address without a command is blocked as before.
    pub listen-after_all :
        (arrivals : List (Arrival F)) (s : M) (i : ℕ) (w : World K G) (d : D) (dbg : WsDebugState)
        (blocks : Blocks)
        → All (IsHeard json to limit) arrivals
        → Agrees w blocks
        → IsServing
            (listen json client settings (frames_of arrivals) ((s, i, some (w, d)), dbg)).0
            (all_told rest settings arrivals s)
            (i + count_requests arrivals)
            (after_all expiry clock i arrivals blocks)
    unfolding listen after_all all_told count_requests
    listen-after_all [] s i w d dbg blocks heard agrees = (w, d, ground arith, agrees)
    listen-after_all (a ∷ arrivals) s i w d dbg blocks ((typed, (timely, read)), heard) agrees =
        let p = a.message.payload in
        let (w1, d1, e, agrees1) =
          handled-IsServing a p s i w d dbg blocks typed timely read agrees in
        let dbg1 = (handled a (s, i, some (w, d)) dbg).2 in
        let (w', d', e', agrees') =
          listen-after_all arrivals (told rest settings p s) (i + requests p) w1 d1 dbg1
            (asked expiry clock i p blocks) heard agrees1 in
        let total : i + requests p + count_requests arrivals
            ≡ i + (requests p + count_requests arrivals) =
          omega arith in
        (
          w',
          d',
          ap (λ n. (listen json client settings (frames_of arrivals) (n, dbg1)).0) e
              ∙ e'
              ∙ ap
                  (λ j.
                    (all_told rest settings arrivals (told rest settings p s), j, some (w', d')))
                  total,
          agrees',
        )
