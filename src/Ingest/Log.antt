-- ===== src/Ingest/Log.antt =====
-- internal/ingest/logtailer.go: how a line of a SIP server's log is parsed. The regular expressions
-- are Go's `regexp`, the argument `find` as for the SIP parser.
pub mod Format
mod Tests
use mathlib.Core.Option
use sipreaper.Common.{
  ℕ, ltb, if◌then◌else◌, Bool, true, false, not, List, [], ◌∷◌, ◌++◌, Option, none, some, Text,
  codes, text_eq, is_empty, length, get_elem?,
}
use sipreaper.Ingest.Sip.{Find, group}
use sipreaper.Models.{SipEvent}
use sipreaper.Net.Parse.{parse_ip}
use sipreaper.Net.{Ip, is_nil}
use sipreaper.Strings.{to_upper, equal_fold}

abbrev pub kamailio_auth_fail_re : Text
kamailio_auth_fail_re =
    codes "auth.*authentication failed for (\\w+)@\\S+ from" ++ codes " (\\d+\\.\\d+\\.\\d+\\.\\d+)"

abbrev pub kamailio_received_re : Text
kamailio_received_re = codes "received (\\w+) from (\\d+\\.\\d+\\.\\d+\\.\\d+):\\d+"

abbrev pub opensips_rejected_re : Text
opensips_rejected_re =
    codes "(?i)\\brejected\\b.*\\b(non-whitelisted|not whitelisted|not allowed"
    ++ codes "|blacklisted|blocked source|denied|forbidden)\\b"

abbrev pub sip_method_re : Text
sip_method_re =
    codes "\\b(INVITE|REGISTER|OPTIONS|SUBSCRIBE|MESSAGE|NOTIFY|ACK|BYE|CANCEL|UPDATE"
    ++ codes "|REFER|INFO|PRACK)\\b"

abbrev pub labelled_ip_re : Text
labelled_ip_re = codes "(?i)\\b(?:source|from|src)[=:\\s]+(\\d+\\.\\d+\\.\\d+\\.\\d+)"

abbrev pub any_ip_re : Text
any_ip_re = codes "\\d+\\.\\d+\\.\\d+\\.\\d+"

abbrev pub did_re : Text
did_re = codes "\\bDID\\s+(\\S+)"

abbrev pub opensips_auth_fail_re : Text
opensips_auth_fail_re =
    codes "(?i)authentication failed for (\\w[\\w.]*)@\\S+ from"
    ++ codes " (\\d+\\.\\d+\\.\\d+\\.\\d+)"

abbrev pub opensips_failed_auth_re : Text
opensips_failed_auth_re = codes "(?i)failed to authenticate (\\w+) from (\\d+\\.\\d+\\.\\d+\\.\\d+)"

abbrev pub opensips_received_re : Text
opensips_received_re =
    codes "(?i)received\\s+(INVITE|REGISTER|OPTIONS|SUBSCRIBE|MESSAGE"
    ++ codes "|NOTIFY)\\s+from\\s+(\\d+\\.\\d+\\.\\d+\\.\\d+)"

abbrev pub opensips_denied_re : Text
opensips_denied_re =
    codes "(?i)(INVITE|REGISTER|OPTIONS|SUBSCRIBE|MESSAGE"
    ++ (codes "|NOTIFY)\\s+from\\s+(\\d+\\.\\d+\\.\\d+\\.\\d+).*(?:rejected|blocked"
        ++ codes "|denied|forbidden)")

-- `FindString`: empty where nothing matches.
abbrev pub find_string : Find → Text → Text → Text
find_string find p line = elim (find p line) [ none ↦ [] | some m ↦ group 0 m ]

-- `net.ParseIP`, whose nil is the empty address.
unfoldable pub parsed_ip : Text → Ip
unfolding parse_ip
parsed_ip s = Option.get_or (parse_ip s) []

abbrev pub empty_event : SipEvent
empty_event = record {
  timestamp = 0;
  source_ip = [];
  method = [];
  user_agent = [];
  from_user = [];
  to_user = [];
  call_id = [];
  response_code = 0;
  source = [];
  is_response = false;
  rejected = false;
  reject_reason = [];
}

-- The event of a failed login: group 1 is the user, group 2 the address.
abbrev pub auth_failure : ℕ → List Text → SipEvent
auth_failure now m = record empty_event {
  timestamp = now;
  source_ip = parsed_ip (group 2 m);
  method = codes "REGISTER";
  from_user = group 1 m;
  response_code = 401;
}

-- The event of a request received: group 1 is the method, group 2 the address.
abbrev pub received : ℕ → List Text → SipEvent
received now m = record empty_event {
  timestamp = now;
  source_ip = parsed_ip (group 2 m);
  method = to_upper (group 1 m);
}

-- The event of a match of a pattern.
abbrev pub on_match : Find → Text → Text → (List Text → SipEvent) → Option SipEvent
on_match find p line event = elim (find p line) [ none ↦ none | some m ↦ some (event m) ]

-- The cascade: the answer of the first that has one.
abbrev pub or_else {ℓ} : {A : Type ℓ} → Option A → Option A → Option A
or_else (some e) o = some e
or_else none o = o

unfoldable pub parse_kamailio_line : Find → ℕ → Text → Option SipEvent
unfolding parsed_ip to_upper
parse_kamailio_line find now line =
    or_else (on_match find kamailio_auth_fail_re line (auth_failure now))
      (on_match find kamailio_received_re line (received now))

-- The address of a line of rejection: the one labelled as the source, or else the first.
unfoldable pub rejected_ip : Find → Text → Ip
unfolding parsed_ip
rejected_ip find line = elim (find labelled_ip_re line) [
  | some lm ↦ parsed_ip (group 1 lm)
  | none ↦ parsed_ip (find_string find any_ip_re line)
]

abbrev pub rejected_event : Find → ℕ → Text → List Text → Text → Ip → SipEvent
rejected_event find now line m method ip = record empty_event {
  timestamp = now;
  source_ip = ip;
  method = method;
  response_code = 403;
  rejected = true;
  reject_reason =
      if equal_fold (group 1 m) (codes "non-whitelisted")
      then codes "non-whitelisted source"
      else codes "rejected by sip server";
  to_user = elim (find did_re line) [ none ↦ [] | some dm ↦ group 1 dm ];
}

-- `parseOpenSIPSRejected`.
unfoldable pub parse_opensips_rejected : Find → ℕ → Text → Option SipEvent
unfolding rejected_ip equal_fold
parse_opensips_rejected find now line =
    let method = find_string find sip_method_re line in
    let ip = rejected_ip find line in
    elim (find opensips_rejected_re line) [
      | none ↦ none
      | some m ↦
          if is_empty method
          then none
          else if is_nil ip
          then none
          else some (rejected_event find now line m method ip)
    ]

abbrev pub denied : ℕ → List Text → SipEvent
denied now m = record (received now m) {
  response_code = 403;
  rejected = true;
  reject_reason = codes "denied by sip server";
}

-- `parseOpenSIPSLine`.
unfoldable pub parse_opensips_line : Find → ℕ → Text → Option SipEvent
unfolding parse_opensips_rejected parsed_ip to_upper
parse_opensips_line find now line = or_else (parse_opensips_rejected find now line) (
    or_else (on_match find opensips_auth_fail_re line (auth_failure now)) (
      or_else (on_match find opensips_failed_auth_re line (auth_failure now)) (
        or_else (on_match find opensips_received_re line (received now))
          (on_match find opensips_denied_re line (denied now)))))

-- The address of a custom match: its first group's, or else the first in the match.
unfoldable pub custom_ip : Find → List Text → Ip
unfolding parsed_ip
custom_ip find m =
    let ip = if ltb 1 (length m) then parsed_ip (group 1 m) else [] in
    let found = find_string find any_ip_re (group 0 m) in
    if not (is_nil ip) then ip else if is_empty found then [] else parsed_ip found

abbrev pub custom_event : ℕ → Ip → List Text → SipEvent
custom_event now ip m = record empty_event {
  timestamp = now;
  source_ip = ip;
  method = if ltb 2 (length m) then to_upper (group 2 m) else [];
}

-- `matchCustomPatterns`: a match without an address goes on to the next pattern.
unfoldable pub match_custom_patterns : Find → ℕ → List Text → Text → Option SipEvent
unfolding custom_ip to_upper
match_custom_patterns find now [] line = none
match_custom_patterns find now (p ∷ ps) line =
    let rest = match_custom_patterns find now ps line in
    elim (find p line) [
      | none ↦ rest
      | some m ↦
          if is_nil (custom_ip find m) then rest else some (custom_event now (custom_ip find m) m)
    ]

-- `parseLine`: the format says which parser is tried first.
unfoldable pub parse_line : Find → ℕ → Text → List Text → Text → Option SipEvent
unfolding text_eq match_custom_patterns parse_kamailio_line parse_opensips_line
parse_line find now format patterns line =
    let kamailio = parse_kamailio_line find now line in
    let opensips = parse_opensips_line find now line in
    let custom = match_custom_patterns find now patterns line in
    if text_eq format (codes "opensips")
    then or_else opensips (or_else kamailio custom)
    else or_else kamailio (or_else opensips custom)

-- `ParseLine`, with which `test-line` and the syslog ingest read a line: the parser, and the event.
unfoldable pub parse_any_line : Find → ℕ → Text → Option (Text × SipEvent)
unfolding parse_kamailio_line parse_opensips_line
parse_any_line find now line = elim (parse_kamailio_line find now line) [
  | some e ↦ some (codes "kamailio", e)
  | none ↦ elim (parse_opensips_line find now line) [
    | some e ↦ some (codes "opensips", e)
    | none ↦ none
  ]
]
