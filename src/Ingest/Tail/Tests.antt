-- ===== src/Ingest/Tail/Tests.antt =====
-- A log of one line that arrives in two pieces.
use sipreaper.Common.{some, ℕ, ◌≡◌, List, [], ◌∷◌, Text, codes, arith}
use sipreaper.Ingest.Sip.{Find}
use sipreaper.Ingest.Tail.Chunks.{feed, tail_pieces, tail_pieces-feed}
use sipreaper.Ingest.Tail.{Tail}

-- Every pattern matches every line, with the groups of a method and an address.
abbrev received_only : Find
received_only p line = some (line ∷ codes "INVITE" ∷ codes "203.0.113.5" ∷ [])

abbrev fresh : Tail
fresh = record {
  tailer = record {
    format = codes "kamailio";
    patterns = [];
    events = [];
    matched_count = 0;
    unmatched_count = 0;
  };
  partial = [];
  last_check = 0;
}

abbrev pieces : List (ℕ × Text)
pieces = (1, codes "rec") ∷ (2, codes "e\n") ∷ []

tail_pieces-feed_example :
    (tail_pieces received_only (λ n. n) fresh pieces).tailer
      ≡ (feed received_only (λ n. n) (fresh.tailer, []) (codes "rece\n")).0
    × (tail_pieces received_only (λ n. n) fresh pieces).partial
      ≡ (feed received_only (λ n. n) (fresh.tailer, []) (codes "rece\n")).1
tail_pieces-feed_example =
    tail_pieces-feed received_only (λ n. n) fresh pieces
      (omega arith, (omega arith, (omega arith, (omega arith, (omega arith, omega arith)))))
