-- ===== src/Ingest/Pcap/Origin.antt =====
-- internal/ingest/pcap.go: what any run of the capture keeps, from its first packet on.
use mathlib.Core.Option
use sipreaper.Common.{
  subst, ap, Option-cases, ◌||◌, ◌&&◌, not, ℕ, ◌≤◌, ◌≡◌, refl, ltb, false, List, [], ◌∷◌, ◌++◌,
  length, All, All-append, length-append, arith, Bool-cases, inl, inr, is_empty,
}
use sipreaper.Ingest.Sip.{Find, SipMessage, parse_sip_message}
use sipreaper.Ingest.Pcap.{
  PcapCapture, Packet, addresses, is_challenge, carried_auth, request_of, inflight_max_entries,
  event_capacity, process_packet, prune_inflight, handle_sip, handle_request, handle_response, send,
  local, stash, request_event, response_event, request_of, keep_young,
}
use sipreaper.Ingest.Pcap.Table.{length-stash-le, length-sweep-le}
use sipreaper.Models.{SipEvent}
use sipreaper.Net.{Ip, is_nil}

-- An event of a remote party: it has an address, and no address of this host.
abbrev pub IsRemote : PcapCapture → SipEvent → Type 0
IsRemote pc e = (is_nil e.source_ip ≡ false) × (local pc e.source_ip ≡ false)

pub record IsSound (pc : PcapCapture) : Type 0 where
  pub table : length pc.inflight ≤ inflight_max_entries
  pub queue : length pc.events ≤ event_capacity
  pub remote : All (IsRemote pc) pc.events

-- What happens to a capture: a packet, a tick of the pruner, and the daemon takes an event.
pub data Step (find : Find) : PcapCapture → PcapCapture → Type 0 where
  packet :
      (now stamp : ℕ) (p : Packet) {pc : PcapCapture}
      → Step find pc (process_packet find now stamp pc p)
  tick : (now : ℕ) {pc : PcapCapture} → Step find pc (prune_inflight now pc)
  taken :
      (e : SipEvent) (es : List SipEvent) {pc : PcapCapture}
      → pc.events ≡ e ∷ es
      → Step find pc (record pc { events = es })

pub data Steps (find : Find) : PcapCapture → PcapCapture → Type 0 where
  start : {pc : PcapCapture} → Steps find pc pc
  next : {a b c : PcapCapture} → Steps find a b → Step find b c → Steps find a c

-- What a handler leaves: the origin test, and a sound capture.
record Kept (pc qc : PcapCapture) : Type 0 where
  same : qc.is_local ≡ pc.is_local
  sound : IsSound qc

unkept : (pc : PcapCapture) → IsSound pc → Kept pc pc
unkept pc h = record { same = refl; sound = h }

counted :
    (pc : PcapCapture) (m n : ℕ)
    → IsSound pc
    → Kept pc (record pc { pkts_no_app_lyr = m; pkts_parse_fail = n })
counted pc m n h = record {
  same = refl;
  sound = record { table = h.table; queue = h.queue; remote = h.remote };
}

send-Kept : (pc : PcapCapture) (e : SipEvent) → IsSound pc → IsRemote pc e → Kept pc (send pc e)
unfolding send
send-Kept pc e h r = elim (Bool-cases (ltb (length pc.events) event_capacity)) [
  | inr full ↦ rw (send, full) (unkept pc h)
  | inl room ↦
      rw (send, room)
        (let sound : IsSound (record pc { events = pc.events ++ e ∷ [] }) = record {
          table = h.table;
          queue = ground (arith, room, length-append pc.events (e ∷ []));
          remote = All-append (IsRemote pc) pc.events (e ∷ []) h.remote (r, tt);
        } in
          record { same = refl; sound = sound })
]

stashed :
    (now : ℕ) (pc : PcapCapture) (src : Ip) (msg : SipMessage)
    → IsSound pc
    → IsSound (record pc { inflight = stash now src msg pc.inflight })
stashed now pc src msg h = record {
  table = length-stash-le now src msg pc.inflight h.table;
  queue = h.queue;
  remote = h.remote;
}

handle_request-Kept :
    (now stamp : ℕ) (pc : PcapCapture) (src : Ip) (msg : SipMessage)
    → IsSound pc
    → is_nil src ≡ false
    → Kept pc (handle_request now stamp pc src msg)
unfolding handle_request
handle_request-Kept now stamp pc src msg h valid = elim (Bool-cases (local pc src)) [
  | inl own ↦ rw (handle_request, own) (unkept pc h)
  | inr remote ↦
      let m = stash now src msg pc.inflight in
      let k =
        send-Kept (record pc { inflight = m }) (request_event stamp src msg)
          (stashed now pc src msg h) (valid, remote) in
      rw (handle_request, remote) (record { same = k.same; sound = k.sound })
]

handle_response-Kept :
    (stamp : ℕ) (pc : PcapCapture) (origin : Ip) (msg : SipMessage)
    → IsSound pc
    → Kept pc (handle_response stamp pc origin msg)
unfolding handle_response
handle_response-Kept stamp pc origin msg h =
    let rec = request_of pc origin msg in
    let unanswered = is_challenge msg.response_code && not (carried_auth rec) in
    elim (Bool-cases (is_nil origin || local pc origin)) [
      | inl own ↦ rw (handle_response, own) (unkept pc h)
      | inr remote ↦ elim (Bool-cases unanswered) [
        | inl probe ↦ rw (handle_response, remote, probe) (unkept pc h)
        | inr answered ↦
            rw (handle_response, remote, answered)
              (send-Kept pc (response_event stamp pc origin msg rec) h (ground (arith, remote)))
      ]
    ]

handle_sip-Kept :
    (now stamp : ℕ) (pc : PcapCapture) (src dst : Ip) (msg : SipMessage)
    → IsSound pc
    → is_nil src ≡ false
    → Kept pc (handle_sip now stamp pc src dst msg)
unfolding handle_sip
handle_sip-Kept now stamp pc src dst msg h valid = elim (Bool-cases (not msg.is_response)) [
  | inl request ↦ rw (handle_sip, request) (handle_request-Kept now stamp pc src msg h valid)
  | inr response ↦ rw (handle_sip, response) (handle_response-Kept stamp pc dst msg h)
]

process_packet-Kept :
    (find : Find) (now stamp : ℕ) (pc : PcapCapture) (p : Packet)
    → IsSound pc
    → Kept pc (process_packet find now stamp pc p)
unfolding process_packet
process_packet-Kept find now stamp pc p h =
    let text = Option.get_or p.payload [] in
    elim (Bool-cases (is_empty text)) [
      | inl blank ↦ rw (process_packet, blank) (counted pc _ _ h)
      | inr full ↦ elim (Option-cases (parse_sip_message find text)) [
        | inl bad ↦ rw (process_packet, full, bad) (counted pc _ _ h)
        | inr (msg, parsed) ↦
            let (src, dst) = addresses p in
            elim (Bool-cases (is_nil (addresses p).0)) [
              | inl nowhere ↦ rw (process_packet, full, parsed, nowhere) (unkept pc h)
              | inr valid ↦
                  rw (process_packet, full, parsed, valid)
                    (handle_sip-Kept now stamp pc (addresses p).0 (addresses p).1 msg h valid)
            ]
      ]
    ]

Step-IsSound : (find : Find) {a b : PcapCapture} → Step find a b → IsSound a → IsSound b
unfolding prune_inflight
Step-IsSound find (Step.packet now stamp p {pc = pc}) h =
    (process_packet-Kept find now stamp pc p h).sound
Step-IsSound find (Step.tick now {pc = pc}) h = record {
  table = omega (arith, h.table, length-sweep-le (keep_young now) pc.inflight);
  queue = h.queue;
  remote = h.remote;
}
Step-IsSound find (Step.taken e es {pc = pc} there) h =
    let queued : All (IsRemote pc) (e ∷ es) = subst (All (IsRemote pc)) there h.remote in
    record { table = h.table; queue = omega (arith, h.queue, ap length there); remote = queued.1 }

-- From any sound capture, such as an empty one, every order of packets, ticks of the pruner and
-- events taken by the daemon keeps the table of requests at 100,000 entries at most, the queue of
-- events at 1,000, and every queued event one of a valid address that the origin test does not
-- name as this host's own.
pub Steps-IsSound : (find : Find) {a b : PcapCapture} → Steps find a b → IsSound a → IsSound b
Steps-IsSound find Steps.start h = h
Steps-IsSound find (Steps.next s r) h = Step-IsSound find r (Steps-IsSound find s h)
