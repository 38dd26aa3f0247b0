-- ===== src/Ingest/Pcap/Login.antt =====
-- internal/ingest/pcap.go: how a challenge is told from a failed login.
use sipreaper.Common.{codes, ℕ, false, true, [], is_empty, if◌then◌else◌}
use sipreaper.Common.Dict.{Dict}
use sipreaper.Ingest.Sip.{SipMessage}
use sipreaper.Ingest.Pcap.{PcapCapture, matches, reject_text}
use sipreaper.Models.{SipEvent}
use sipreaper.Net.{Ip}

-- The event of a request, field by field.
abbrev pub asked_event : ℕ → Ip → SipMessage → SipEvent
asked_event stamp src request = record {
  timestamp = stamp;
  source_ip = src;
  method = request.method;
  user_agent = request.user_agent;
  from_user = request.from_user;
  to_user = request.to_user;
  call_id = request.call_id;
  response_code = request.response_code;
  source = codes "pcap";
  is_response = false;
  rejected = false;
  reject_reason = [];
}

-- The event of its answer. The method is that of the answer, or the request's if it has none.
abbrev pub answered_event : ℕ → PcapCapture → Ip → SipMessage → SipMessage → SipEvent
answered_event stamp pc src request response =
    let rejected = matches pc.rejects response.response_code response.reason in
    record {
      timestamp = stamp;
      source_ip = src;
      method = if is_empty response.method then request.method else response.method;
      user_agent = request.user_agent;
      from_user = request.from_user;
      to_user = request.to_user;
      call_id = request.call_id;
      response_code = response.response_code;
      source = codes "pcap";
      is_response = true;
      rejected = rejected;
      reject_reason = if rejected then reject_text response else [];
    }
