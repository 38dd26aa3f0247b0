-- ===== src/Detect/FailedCallRatio/Tests.antt =====
-- The detector at three calls of one source, with percent in place of floats.
use sipreaper.Common.{
  ◌≡◌, refl, true, false, ◌*◌, ◌/◌, ltb, ◌==◌, ℕ, text_eq, List, [], ◌∷◌, ◌++◌, some, codes,
}
use sipreaper.Common.Dict.{lookup, erase}
use sipreaper.Common.Int.{pos}
use sipreaper.Detect.FailedCallRatio.Calls.{Call}
use sipreaper.Detect.FailedCallRatio.Report.{feed}
use sipreaper.Detect.FailedCallRatio.{
  Floats, FailedCallRatio, new_failed_call_ratio, detect, failing_calls,
}
use sipreaper.Fmt.{decimal}
use sipreaper.Models.{SipEvent}
use sipreaper.Net.{ip_string}

abbrev hundredths : Floats ℕ
hundredths = record {
  divide = λ a b. (100 * a) / b;
  less = ltb;
  not_positive = λ r. r == 0;
  above_one = ltb 100;
  four_fifths = 80;
  percent = λ r. decimal r ++ codes "%";
}

abbrev answered : ℕ → SipEvent
answered code = record {
  timestamp = 1;
  source_ip = 192 ∷ 0 ∷ 2 ∷ 1 ∷ [];
  method = codes "INVITE";
  user_agent = [];
  from_user = codes "100";
  to_user = codes "200";
  call_id = codes "c";
  response_code = code;
  source = codes "log";
  is_response = true;
  rejected = false;
  reject_reason = [];
}

abbrev earlier : List Call
earlier = record { at = 1; event = answered 200 } ∷ record { at = 12; event = answered 404 } ∷ []

abbrev last : Call
last = record { at = 14; event = answered 486 }

abbrev detector : FailedCallRatio ℕ
detector = new_failed_call_ratio hundredths (pos 2) 50 (pos 10) 0

-- The first call is older than the window; both that are left have failed.
two_of_two :
    (detect hundredths (feed hundredths detector earlier) 14 (answered 486)).1
    ≡ some (failing_calls hundredths 2 2 10 14 (answered 486))
unfolding detect feed new_failed_call_ratio text_eq lookup ip_string erase
two_of_two = refl
