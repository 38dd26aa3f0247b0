-- ===== src/Dedup/Tests.antt =====
-- Runs of the deduplication, and the theorems at inputs that meet their hypotheses.
use sipreaper.Common.{◌≡◌, refl, true, false, [], ◌∷◌, List, none, arith, Text, codes}
use sipreaper.Dedup.{Call, check, tick, new_dedup, answers, event_key, dedup_run}
use sipreaper.Dedup.Laws.{ideal, answers-ideal}

abbrev invite : Text
invite = event_key (codes "call-1") (codes "INVITE") 0

abbrev refused : Text
refused = event_key (codes "call-1") (codes "INVITE") 403

abbrev calls : List Call
calls = check 1 invite ∷ check 2 refused ∷ check 4 invite ∷ tick 7 ∷ check 8 invite ∷ []

answered : answers (new_dedup 5) calls ≡ false ∷ false ∷ true ∷ false ∷ []
unfolding dedup_run
answered = refl

answers-ideal_example : answers (new_dedup 5) calls ≡ ideal 5 (λ _. none) calls
answers-ideal_example = answers-ideal 5 1 calls (omega arith)
