-- ===== src/Ingest/Sip.antt =====
-- internal/ingest/sipparser.go. Go's `regexp` is the argument `find`: from a pattern and a text to
-- the match and its groups, or none where nothing matches.
pub mod Lines
mod Tests
use mathlib.Core.Option
use sipreaper.Common.{
  ℕ, ltb, ◌==◌, if◌then◌else◌, Bool, true, false, ◌&&◌, ◌||◌, List, [], ◌∷◌, ◌++◌, Option, none,
  some, Text, codes, text_eq, to_lower, trim_space, has_prefix, is_empty, length, get_elem?,
}
use sipreaper.Strings.{split, to_upper, equal_fold, after_byte, before_byte, atoi_clamped}

abbrev pub Find : Type 0
Find = Text → Text → Option (List Text)

pub record SipMessage : Type 0 where
  pub is_response : Bool
  pub method : Text
  pub response_code : ℕ
  pub reason : Text
  pub call_id : Text
  pub user_agent : Text
  pub from_user : Text
  pub to_user : Text
  pub has_auth : Bool

-- The patterns.
abbrev pub request_line_re : Text
request_line_re = codes "^(\\w+)\\s+sip:"

abbrev pub response_line_re : Text
response_line_re = codes "^SIP/2\\.0\\s+(\\d+)\\s*(.*)$"

abbrev pub cseq_method_re : Text
cseq_method_re = codes "(?i)^CSeq:\\s*\\d+\\s+(\\w+)"

abbrev pub user_re : Text
user_re = codes "sip:([^@]+)@"

-- `m[i]` of a match, which has the groups of its pattern.
abbrev pub group : ℕ → List Text → Text
group i m = Option.get_or (get_elem? m i) []

abbrev pub empty_message : SipMessage
empty_message = record {
  is_response = false;
  method = [];
  response_code = 0;
  reason = [];
  call_id = [];
  user_agent = [];
  from_user = [];
  to_user = [];
  has_auth = false;
}

unfoldable pub extract_user : Find → Text → Text
extract_user find value = elim (find user_re value) [ none ↦ [] | some m ↦ group 1 m ]

-- The first line, or none where it is neither that of a request nor that of a response.
unfoldable pub parse_first_line : Find → Text → Option SipMessage
unfolding atoi_clamped trim_space
parse_first_line find line = elim (find response_line_re line) [
  | some m ↦ some (record empty_message {
    is_response = true;
    response_code = atoi_clamped (group 1 m);
    reason = trim_space (group 2 m);
  })
  | none ↦ elim (find request_line_re line) [
    | some m ↦ some (record empty_message { method = group 1 m })
    | none ↦ none
  ]
]

abbrev pub header_value : Text → Text
header_value line = after_byte b':' line

-- Whether a header that starts as `To` or `t` is one.
unfoldable pub is_to : Text → Bool
unfolding equal_fold trim_space text_eq
is_to line =
    let prefix = before_byte b':' line in
    equal_fold (trim_space prefix) (codes "to") || text_eq (trim_space prefix) (codes "t")

abbrev pub starts : Text → Text → Bool
starts line prefix = has_prefix (to_lower line) prefix

-- A header line that is not empty.
unfoldable pub parse_header : Find → SipMessage → Text → SipMessage
unfolding is_to extract_user to_upper has_prefix to_lower trim_space
parse_header find msg line =
    if starts line (codes "call-id:") || starts line (codes "i:")
    then record msg { call_id = trim_space (header_value line) }
    else if starts line (codes "authorization:") || starts line (codes "proxy-authorization:")
    then record msg { has_auth = true }
    else if starts line (codes "user-agent:")
    then record msg { user_agent = trim_space (header_value line) }
    else if starts line (codes "from:") || starts line (codes "f:")
    then record msg { from_user = extract_user find (header_value line) }
    else if starts line (codes "to:") || starts line (codes "t:")
    then if is_to line then record msg { to_user = extract_user find (header_value line) } else msg
    else elim (find cseq_method_re line) [
      | none ↦ msg
      | some m ↦ if msg.is_response then record msg { method = to_upper (group 1 m) } else msg
    ]

-- The loop over the headers, which ends at an empty line.
unfoldable pub parse_headers : Find → SipMessage → List Text → SipMessage
unfolding parse_header
parse_headers find msg [] = msg
parse_headers find msg (line ∷ lines) =
    let rest = parse_headers find (parse_header find msg line) lines in
    if is_empty line then msg else rest

-- The message from its lines.
unfoldable pub parse_lines : Find → List Text → Option SipMessage
unfolding parse_first_line parse_headers
parse_lines find [] = none
parse_lines find (first ∷ lines) = elim (parse_first_line find first) [
  | none ↦ none
  | some msg ↦ some (parse_headers find msg lines)
]

abbrev pub message_lines : Text → List Text
message_lines text =
    let lines = split text (codes "\r\n") in
    if ltb (length lines) 2 then split text (codes "\n") else lines

-- `ParseSIPMessage`; none stands for its errors.
unfoldable pub parse_sip_message : Find → Text → Option SipMessage
unfolding parse_lines split
parse_sip_message find text =
    if ltb (length (message_lines text)) 2 then none else parse_lines find (message_lines text)
