-- ===== src/Daemon/Pipeline.antt =====
-- The loop body of `runDetectionPipeline`, and `safeDetect`. The detectors share a state `S`.
use sipreaper.Common.{
  ℕ, ltb, if◌then◌else◌, Bool, false, List, [], ◌∷◌, ◌++◌, Option, none, some, length, is_empty,
}
use sipreaper.Dedup.{Dedup, is_dup, is_duplicate_event}
use sipreaper.Models.{SipEvent, Threat}
use sipreaper.Store.{Store, record_event}

abbrev pub Detector : Type 0 → Type 0
Detector S = S → SipEvent → S × Option Threat

-- What an event can change: the threats wait in a channel of 100.
pub record Stages (S : Type 0) : Type 0 where
  pub dedup : Dedup
  pub store : Store
  pub detectors : S
  pub threats : List Threat

-- The `select` with a default: a threat that finds the channel full is dropped.
abbrev pub offer : List Threat → Threat → List Threat
offer queue t = if ltb (length queue) 100 then queue ++ t ∷ [] else queue

abbrev pub offered : List Threat → Option Threat → List Threat
offered queue none = queue
offered queue (some t) = offer queue t

abbrev pub screened : Dedup → ℕ → SipEvent → Dedup × Bool
screened d now e =
    if is_empty e.call_id
    then (d, false)
    else is_duplicate_event d now e.call_id e.method e.response_code

module _ {S : Type 0} where
  -- `safeDetect` for each detector in turn.
  unfoldable pub detect_all : List (Detector S) → SipEvent → S → List Threat → S × List Threat
  detect_all [] e s queue = (s, queue)
  detect_all (detect ∷ rest) e s queue =
      let (s', threat) = detect s e in detect_all rest e s' (offered queue threat)

  unfoldable pub on_event : List (Detector S) → ℕ → Bool → Stages S → SipEvent → Stages S
  unfolding detect_all is_dup record_event
  on_event detectors now up st e =
      let (dedup', duplicate) = screened st.dedup now e in
      let (s', threats') = detect_all detectors e st.detectors st.threats in
      if duplicate then record st { dedup = dedup' } else record {
        dedup = dedup';
        store = (record_event up st.store e []).0;
        detectors = s';
        threats = threats';
      }
