-- ===== src/Daemon/Backlog.antt =====
-- What an event leaves in the channel of threats.
use sipreaper.Common.{
  ℕ, zero, suc, ◌≤◌, ltb, if◌then◌else◌, ◌≡◌, refl, sym, ap, ◌∙◌, Bool, false, List, [], ◌∷◌, ◌++◌,
  Option, none, some, arith, length, take, length-append, append-nil, append_assoc,
}
use sipreaper.Daemon.Pipeline.{Detector, Stages, offered, detect_all, screened, on_event}
use sipreaper.Models.{SipEvent, Threat}

abbrev pub threats_of : Option Threat → List Threat
threats_of none = []
threats_of (some t) = t ∷ []

module _ {S : Type 0} where
  -- All that the detectors report of an event, in their order.
  abbrev pub found : List (Detector S) → SipEvent → S → List Threat
  found [] e s = []
  found (detect ∷ rest) e s = let (s', threat) = detect s e in threats_of threat ++ found rest e s'

take_all : (n : ℕ) (ts : List Threat) → length ts ≤ n → take n ts ≡ ts
take_all zero [] le = refl
take_all zero (t ∷ ts) le = absurd (omega arith)
take_all (suc n) [] le = refl
take_all (suc n) (t ∷ ts) le = ap (λ r. t ∷ r) (take_all n ts (omega arith))

take_snoc :
    (n : ℕ) (ts : List Threat) (t : Threat)
    → length ts ≤ n
    → take n (ts ++ t ∷ []) ≡ (if ltb (length ts) n then ts ++ t ∷ [] else ts)
take_snoc zero [] t le = refl
take_snoc zero (u ∷ ts) t le = absurd (omega arith)
take_snoc (suc n) [] t le = ground (arith, take_all (suc n) (t ∷ []) (omega arith))
take_snoc (suc n) (u ∷ ts) t le = ground (arith, take_snoc n ts t)

take-take_append : (n : ℕ) (ts us : List Threat) → take n (take n ts ++ us) ≡ take n (ts ++ us)
take-take_append zero ts us = refl
take-take_append (suc n) [] us = refl
take-take_append (suc n) (t ∷ ts) us = ap (λ r. t ∷ r) (take-take_append n ts us)

offered-take :
    (queue : List Threat) (o : Option Threat)
    → length queue ≤ 100
    → (offered queue o ≡ take 100 (queue ++ threats_of o)) × (length (offered queue o) ≤ 100)
offered-take queue none le = (rw (append-nil queue) (sym (take_all 100 queue le)), le)
offered-take queue (some t) le =
    (sym (take_snoc 100 queue t le), ground (arith, length-append queue (t ∷ [])))

module _ {S : Type 0} (e : SipEvent) where
  detect_all-take :
      (detectors : List (Detector S)) (s : S) (queue : List Threat)
      → length queue ≤ 100
      → (detect_all detectors e s queue).1 ≡ take 100 (queue ++ found detectors e s)
  unfolding detect_all
  detect_all-take [] s queue le = rw (append-nil queue) (sym (take_all 100 queue le))
  detect_all-take (detect ∷ rest) s queue le =
      let (s', threat) = detect s e in
      let more = found rest e s' in
      let (now, small) = offered-take queue threat le in
      detect_all-take rest s' (offered queue threat) small
      ∙ (ap (λ q. take 100 (q ++ more)) now
          ∙ (take-take_append 100 (queue ++ threats_of threat) more
              ∙ ap (take 100) (append_assoc queue (threats_of threat) more)))

  -- An event that is no duplicate leaves the first 100 of the threats that waited before it and
  -- those that the detectors find, in their order, where no more than 100 waited: a full channel
  -- loses the latest threats, and never one that waits.
  pub threats-on_event :
      (detectors : List (Detector S)) (now : ℕ) (up : Bool) (st : Stages S)
      → length st.threats ≤ 100
      → (screened st.dedup now e).1 ≡ false
      → (on_event detectors now up st e).threats
        ≡ take 100 (st.threats ++ found detectors e st.detectors)
  unfolding on_event
  threats-on_event detectors now up st le fresh =
      rw (on_event, fresh) (detect_all-take detectors st.detectors st.threats le)
