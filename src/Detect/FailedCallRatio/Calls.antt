-- ===== src/Detect/FailedCallRatio/Calls.antt =====
-- The calls that a detector sees, as entries of its buckets.
use sipreaper.Common.{
  ℕ, ◌≤◌, zero, suc, ltb, ◌+◌, ◌-◌, if◌then◌else◌, Bool-cases, ◌≡◌, refl, sym, ap, ◌∙◌, inl, inr,
  Bool, not, ◌&&◌, List, [], ◌∷◌, ◌++◌, arith, Text, codes, text_eq, length, drop, keep,
  keep-append, append_assoc,
}
use sipreaper.Common.Dict.{Dict}
use sipreaper.Detect.FailedCallRatio.Stream.{as_entry, Tracks}
use sipreaper.Detect.FailedCallRatio.{RatioEvent, has_failed}
use sipreaper.Models.{SipEvent}
use sipreaper.Net.{ip_string, is_nil}
use sipreaper.Window.Distinct.{named}
use sipreaper.Window.Live.{last_n}
use sipreaper.Window.{Entry, live, max_entries_per_ip}

-- An event, and the clock at its call.
pub record Call : Type 0 where
  pub at : ℕ
  pub event : SipEvent

-- An INVITE with a source.
abbrev pub is_call : SipEvent → Bool
is_call e = text_eq e.method (codes "INVITE") && not (is_nil e.source_ip)

abbrev pub source : Call → Text
source c = ip_string c.event.source_ip

abbrev pub calls_from : Text → List Call → List Call
calls_from ip = keep (λ c. is_call c.event && text_eq (source c) ip)

abbrev pub recent : ℕ → ℕ → List Call → List Call
recent now w = keep (λ c. ltb now (c.at + w))

abbrev pub failures : List Call → ℕ
failures [] = 0
failures (c ∷ calls) = if has_failed c.event then suc (failures calls) else failures calls

-- The clock never goes back.
abbrev pub InTime : ℕ → List Call → Type 0
InTime from [] = Unit
InTime from (c ∷ calls) = (from ≤ c.at) × InTime c.at calls

abbrev pub shown_calls : List Call → List Entry
shown_calls [] = []
shown_calls (c ∷ calls) = as_entry c.at (has_failed c.event) ∷ shown_calls calls

pub shown-recent :
    (now w : ℕ) (calls : List Call)
    → keep (live now w) (shown_calls calls) ≡ shown_calls (recent now w calls)
shown-recent now w [] = refl
shown-recent now w (c ∷ calls) = ground (arith, shown-recent now w calls)

shown-drop : (n : ℕ) (calls : List Call) → drop n (shown_calls calls) ≡ shown_calls (drop n calls)
shown-drop zero calls = refl
shown-drop (suc n) [] = refl
shown-drop (suc n) (c ∷ calls) = shown-drop n calls

pub length-shown : (calls : List Call) → length (shown_calls calls) ≡ length calls
length-shown [] = refl
length-shown (c ∷ calls) = ap suc (length-shown calls)

pub shown-last_n :
    (n : ℕ) (calls : List Call) → last_n n (shown_calls calls) ≡ shown_calls (last_n n calls)
shown-last_n n calls =
    ap (λ k. drop (k - n) (shown_calls calls)) (length-shown calls) ∙ shown-drop _ calls

shown-append : (xs ys : List Call) → shown_calls (xs ++ ys) ≡ shown_calls xs ++ shown_calls ys
shown-append [] ys = refl
shown-append (c ∷ xs) ys = ap (λ r. as_entry c.at (has_failed c.event) ∷ r) (shown-append xs ys)

pub failures-shown : (calls : List Call) → length (named (shown_calls calls)) ≡ failures calls
unfolding named
failures-shown [] = refl
failures-shown (c ∷ calls) = elim (Bool-cases (has_failed c.event)) [
  | inl f ↦ rw f (ap suc (failures-shown calls))
  | inr s ↦ rw s (failures-shown calls)
]

abbrev pub history : Text → List Call → List Entry
history j calls = shown_calls (calls_from j calls)

pub history-append :
    (j : Text) (xs ys : List Call) → history j (xs ++ ys) ≡ history j xs ++ history j ys
history-append j xs ys =
    ap shown_calls (keep-append _ xs ys) ∙ shown-append (calls_from j xs) (calls_from j ys)

pub regroup :
    (h : Text → List Entry) (b : Call) (calls : List Call) (j : Text)
    → (h j ++ history j (b ∷ [])) ++ history j calls ≡ h j ++ history j (b ∷ calls)
regroup h b calls j =
    append_assoc (h j) (history j (b ∷ [])) (history j calls)
    ∙ ap (λ r. h j ++ r) (sym (history-append j (b ∷ []) calls))

pub Tracks-history :
    (w now : ℕ) (d : Dict (List RatioEvent)) (h h' : Text → List Entry)
    → ((j : Text) → h j ≡ h' j)
    → Tracks w now d h
    → Tracks w now d h'
Tracks-history w now d h h' e tr = record {
  is_map = tr.is_map;
  sorted = tr.sorted;
  past = tr.past;
  agrees = λ j t late.
      tr.agrees j t late ∙ ap (λ es. last_n max_entries_per_ip (keep (live t w) es)) (e j);
}
