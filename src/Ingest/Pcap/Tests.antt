-- ===== src/Ingest/Pcap/Tests.antt =====
-- A capture on a host with one address, and the theorems at inputs that meet their hypotheses.
use sipreaper.Common.{◌≡◌, true, [], ◌∷◌, none, some, codes, arith, any, text_eq}
use sipreaper.Ingest.Pcap.Origin.{Step, Steps, IsSound, Steps-IsSound}
use sipreaper.Ingest.Pcap.Rejects.{entry_matches, matches-new_reject_matcher}
use sipreaper.Ingest.Pcap.{
  PcapCapture, Packet, new_reject_matcher, matches, process_packet, prune_inflight,
}
use sipreaper.Ingest.Sip.{Find, SipMessage, empty_message}
use sipreaper.Net.{Ip}

abbrev own : Ip
own = 192 ∷ 0 ∷ 2 ∷ 9 ∷ []

abbrev attacker : Ip
attacker = 203 ∷ 0 ∷ 113 ∷ 5 ∷ []

abbrev capture : PcapCapture
unfolding text_eq
capture = record {
  is_local = some (λ ip. text_eq ip own);
  rejects = record { codes = []; phrases = [] };
  inflight = [];
  events = [];
  pkts_no_app_lyr = 0;
  pkts_parse_fail = 0;
}

abbrev register : SipMessage
register = record empty_message { method = codes "REGISTER"; call_id = codes "1"; has_auth = true }

abbrev unauthorized : SipMessage
unauthorized = record empty_message { is_response = true; response_code = 401; call_id = codes "1" }

matches-new_reject_matcher_example :
    matches (new_reject_matcher (codes "403" ∷ codes "500 Denied" ∷ [])) 500 (codes "denied")
    ≡ any (entry_matches 500 (codes "denied")) (codes "403" ∷ codes "500 Denied" ∷ [])
matches-new_reject_matcher_example =
    matches-new_reject_matcher (codes "403" ∷ codes "500 Denied" ∷ []) 500 (codes "denied")

-- Answers nothing.
abbrev blind : Find
blind p t = none

abbrev hello : Packet
hello = record { payload = some (codes "hello"); ipv4 = some (attacker, own); ipv6 = none }

capture-IsSound : IsSound capture
unfolding capture
capture-IsSound = record { table = omega arith; queue = omega arith; remote = tt }

Steps-IsSound_example : IsSound (prune_inflight 9 (process_packet blind 7 8 capture hello))
Steps-IsSound_example =
    Steps-IsSound blind (Steps.next (Steps.next Steps.start (Step.packet 7 8 hello)) (Step.tick 9))
      capture-IsSound
