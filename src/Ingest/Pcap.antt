-- ===== src/Ingest/Pcap.antt =====
-- internal/ingest/pcap.go, but for the capture itself, which is libpcap's. A packet stands as what
-- gopacket decodes of it. The clock is an argument where the code reads it; the mutex makes each
-- use of the table of requests one step.
pub mod Table
pub mod Origin
pub mod Login
pub mod Rejects
mod Tests
use mathlib.Core.Option
use sipreaper.Common.{
  ℕ, zero, suc, ◌+◌, ◌-◌, ◌/◌, ltb, leb, ◌==◌, if◌then◌else◌, Bool, true, false, ◌&&◌, ◌||◌, not,
  List, [], ◌∷◌, ◌++◌, Option, none, some, Text, codes, text_eq, to_lower, trim_space, is_empty,
  length, any, take,
}
use sipreaper.Common.Dict.{Dict, lookup, insert, erase, sweep}
use sipreaper.Common.Int.{ℤ, pos, negsuc}
use sipreaper.Fmt.{decimal}
use sipreaper.Ingest.Sip.{Find, SipMessage, parse_sip_message}
use sipreaper.Models.{SipEvent}
use sipreaper.Net.{Ip, is_nil, ip_string, join}
use sipreaper.Strings.{cut, atoi}

abbrev pub inflight_max_entries : ℕ
inflight_max_entries = 100_000

abbrev pub eq_ℤ : ℤ → ℤ → Bool
eq_ℤ (pos a) (pos b) = a == b
eq_ℤ (negsuc a) (negsuc b) = a == b
eq_ℤ _ _ = false

-- `rejectMatcher`: its maps to `true` as the lists of their keys.
pub record RejectMatcher : Type 0 where
  pub codes : List ℤ
  pub phrases : List (ℤ × Text)

-- `strings.SplitN(s, " ", 2)`: the first field, and the second if there is one.
abbrev pub first_field : Text → Text
first_field s = elim (cut b' ' s) [ none ↦ s | some p ↦ p.0 ]

abbrev pub second_field : Text → Text
second_field s = elim (cut b' ' s) [ none ↦ [] | some p ↦ p.1 ]

-- The body of the loop of `newRejectMatcher`.
unfoldable pub add_entry : RejectMatcher → Text → RejectMatcher
unfolding atoi cut trim_space to_lower
add_entry m entry =
    let trimmed = trim_space entry in
    let phrase = trim_space (second_field trimmed) in
    elim (atoi (first_field trimmed)) [
      | none ↦ m
      | some code ↦
          if is_empty phrase
          then record m { codes = code ∷ m.codes }
          else record m { phrases = (code, to_lower phrase) ∷ m.phrases }
    ]

unfoldable pub add_entries : RejectMatcher → List Text → RejectMatcher
unfolding add_entry
add_entries m [] = m
add_entries m (e ∷ entries) = add_entries (add_entry m e) entries

unfoldable pub new_reject_matcher : List Text → RejectMatcher
unfolding add_entries
new_reject_matcher entries = add_entries (record { codes = []; phrases = [] }) entries

abbrev pub has_phrase : ℤ → Text → ℤ × Text → Bool
has_phrase code phrase p = eq_ℤ p.0 code && text_eq p.1 phrase

-- `match`.
unfoldable pub matches : RejectMatcher → ℕ → Text → Bool
unfolding text_eq to_lower
matches m code reason =
    any (λ c. eq_ℤ c (pos code)) m.codes || any (has_phrase (pos code) (to_lower reason)) m.phrases

pub record RequestRecord : Type 0 where
  pub src_ip : Ip
  pub method : Text
  pub user_agent : Text
  pub from_user : Text
  pub to_user : Text
  pub has_auth : Bool
  pub seen : ℕ

-- The channel of events is the daemon's; it holds 1,000.
pub record PcapCapture : Type 0 where
  pub is_local : Option (Ip → Bool)
  pub rejects : RejectMatcher
  pub inflight : Dict RequestRecord
  pub events : List SipEvent
  pub pkts_no_app_lyr : ℕ
  pub pkts_parse_fail : ℕ

abbrev pub event_capacity : ℕ
event_capacity = 1_000

abbrev pub inflight_key : Text → Ip → Text
inflight_key call_id sender = call_id ++ (b'|' ∷ ip_string sender)

-- `sort.Slice` by age; entries of one age stay in the order of the map, which Go leaves open.
unfoldable pub insert_aged : Text × RequestRecord → Dict RequestRecord → Dict RequestRecord
insert_aged p [] = p ∷ []
insert_aged p (q ∷ qs) =
    let later = q ∷ insert_aged p qs in if ltb q.1.seen p.1.seen then later else p ∷ q ∷ qs

unfoldable pub by_age : Dict RequestRecord → Dict RequestRecord
unfolding insert_aged
by_age [] = []
by_age (p ∷ ps) = insert_aged p (by_age ps)

-- The loop of deletes.
unfoldable pub erase_all : Dict RequestRecord → Dict RequestRecord → Dict RequestRecord
unfolding erase
erase_all [] m = m
erase_all (p ∷ ps) m = erase_all ps (erase p.0 m)

-- `evictOldestInflightLocked`.
unfoldable pub evict_oldest_inflight : ℕ → Dict RequestRecord → Dict RequestRecord
unfolding erase_all by_age
evict_oldest_inflight n m = erase_all (take n (by_age m)) m

abbrev pub five_minutes : ℕ
five_minutes = 300_000_000_000

pub keep_young : ℕ → RequestRecord → Option RequestRecord
keep_young now r = if ltb (r.seen + five_minutes) now then none else some r

-- A tick of `pruneInflight`.
unfoldable pub prune_inflight : ℕ → PcapCapture → PcapCapture
unfolding keep_young sweep
prune_inflight now pc = record pc { inflight = sweep (keep_young now) pc.inflight }

abbrev pub is_own : Option (Ip → Bool) → Ip → Bool
is_own none ip = false
is_own (some f) ip = f ip

-- `local`.
abbrev pub local : PcapCapture → Ip → Bool
local pc ip = is_own pc.is_local ip

-- `send`.
unfoldable pub send : PcapCapture → SipEvent → PcapCapture
send pc e =
    if ltb (length pc.events) event_capacity then record pc { events = pc.events ++ e ∷ [] } else pc

abbrev pub request_record : ℕ → Ip → SipMessage → RequestRecord
request_record now src msg = record {
  src_ip = src;
  method = msg.method;
  user_agent = msg.user_agent;
  from_user = msg.from_user;
  to_user = msg.to_user;
  has_auth = msg.has_auth;
  seen = now;
}

-- The requests in flight once a request is stashed.
unfoldable pub stash : ℕ → Ip → SipMessage → Dict RequestRecord → Dict RequestRecord
unfolding evict_oldest_inflight insert erase
stash now src msg m =
    if is_empty msg.call_id
    then m
    else insert (inflight_key msg.call_id src) (request_record now src msg) (
        if leb inflight_max_entries (length m)
        then evict_oldest_inflight (inflight_max_entries / 10) m
        else m)

abbrev pub request_event : ℕ → Ip → SipMessage → SipEvent
request_event now src msg = record {
  timestamp = now;
  source_ip = src;
  method = msg.method;
  user_agent = msg.user_agent;
  from_user = msg.from_user;
  to_user = msg.to_user;
  call_id = msg.call_id;
  response_code = msg.response_code;
  source = codes "pcap";
  is_response = false;
  rejected = false;
  reject_reason = [];
}

-- The record of the request that a response answers.
unfoldable pub request_of : PcapCapture → Ip → SipMessage → Option RequestRecord
unfolding lookup
request_of pc origin msg =
    if is_empty msg.call_id then none else lookup (inflight_key msg.call_id origin) pc.inflight

-- `found && rec.hasAuth`.
abbrev pub carried_auth : Option RequestRecord → Bool
carried_auth none = false
carried_auth (some r) = r.has_auth

abbrev pub is_challenge : ℕ → Bool
is_challenge code = code == 401 || code == 407

unfoldable pub reject_text : SipMessage → Text
unfolding trim_space decimal
reject_text msg =
    trim_space (codes "sip server returned " ++ (decimal msg.response_code ++ (b' ' ∷ msg.reason)))

abbrev pub response_event : ℕ → PcapCapture → Ip → SipMessage → Option RequestRecord → SipEvent
response_event now pc origin msg rec =
    let rejected = matches pc.rejects msg.response_code msg.reason in
    record {
      timestamp = now;
      source_ip = origin;
      method =
          if is_empty msg.method then elim rec [ none ↦ [] | some r ↦ r.method ] else msg.method;
      user_agent = elim rec [ none ↦ [] | some r ↦ r.user_agent ];
      from_user = elim rec [ none ↦ [] | some r ↦ r.from_user ];
      to_user = elim rec [ none ↦ [] | some r ↦ r.to_user ];
      call_id = msg.call_id;
      response_code = msg.response_code;
      source = codes "pcap";
      is_response = true;
      rejected = rejected;
      reject_reason = if rejected then reject_text msg else [];
    }

unfoldable pub handle_request : ℕ → ℕ → PcapCapture → Ip → SipMessage → PcapCapture
unfolding stash send
handle_request now stamp pc src msg =
    if local pc src
    then pc
    else send (record pc { inflight = stash now src msg pc.inflight }) (request_event stamp src msg)

unfoldable pub handle_response : ℕ → PcapCapture → Ip → SipMessage → PcapCapture
unfolding send request_of
handle_response stamp pc origin msg =
    let rec = request_of pc origin msg in
    if is_nil origin || local pc origin
    then pc
    else if is_challenge msg.response_code && not (carried_auth rec)
    then pc
    else send pc (response_event stamp pc origin msg rec)

-- `handleSIP`: `now` is the reading for the record, `stamp` that for the event.
unfoldable pub handle_sip : ℕ → ℕ → PcapCapture → Ip → Ip → SipMessage → PcapCapture
unfolding handle_request handle_response
handle_sip now stamp pc src dst msg =
    if not msg.is_response
    then handle_request now stamp pc src msg
    else handle_response stamp pc dst msg

-- What gopacket decodes: the payload of the transport layer, and source and destination.
pub record Packet : Type 0 where
  pub payload : Option Text
  pub ipv4 : Option (Ip × Ip)
  pub ipv6 : Option (Ip × Ip)

abbrev pub addresses : Packet → Ip × Ip
addresses p = elim p.ipv4 [ some a ↦ a | none ↦ elim p.ipv6 [ some a ↦ a | none ↦ ([], []) ] ]

-- `processPacket`.
unfoldable pub process_packet : Find → ℕ → ℕ → PcapCapture → Packet → PcapCapture
unfolding handle_sip parse_sip_message
process_packet find now stamp pc p =
    let payload = Option.get_or p.payload [] in
    if is_empty payload
    then record pc { pkts_no_app_lyr = pc.pkts_no_app_lyr + 1 }
    else elim (parse_sip_message find payload) [
      | none ↦ record pc { pkts_parse_fail = pc.pkts_parse_fail + 1 }
      | some msg ↦
          if is_nil (addresses p).0
          then pc
          else handle_sip now stamp pc (addresses p).0 (addresses p).1 msg
    ]

pub port_filters : List ℕ → List Text
unfolding decimal
port_filters [] = []
port_filters (p ∷ ports) = (codes "udp port " ++ decimal p) ∷ port_filters ports

-- `strings.Join(parts, " or ")`.
pub join_or : List Text → Text
join_or [] = []
join_or (t ∷ []) = t
join_or (t ∷ u ∷ ts) = t ++ (codes " or " ++ join_or (u ∷ ts))

unfoldable pub build_bpf_filter : List ℕ → Text → Text
unfolding port_filters join_or
build_bpf_filter ports custom = if is_empty custom then join_or (port_filters ports) else custom
