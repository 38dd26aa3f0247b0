-- ===== src/Ingest/Pcap/Table.antt =====
-- internal/ingest/pcap.go: the table of requests in flight.
use sipreaper.Common.{
  ℕ, suc, ◌≤◌, ◌<◌, ◌≡◌, refl, ◌≢◌, ltb, [], ◌∷◌, Option, none, Text, length, take, arith,
  Bool-cases, inl, inr, text_eq_iff, text_eq_refl,
}
use sipreaper.Common.Dict.{Dict, lookup, erase, insert, sweep}
use sipreaper.Ingest.Sip.{SipMessage}
use sipreaper.Ingest.Pcap.{
  RequestRecord, inflight_max_entries, insert_aged, by_age, erase_all, evict_oldest_inflight, stash,
  inflight_key,
}
use sipreaper.Net.{Ip}

module _ {ℓ} {V : Type ℓ} where
  length-erase-le : (k : Text) (m : Dict V) → length (erase k m) ≤ length m
  unfolding erase
  length-erase-le k [] = omega arith
  length-erase-le k ((j, v) ∷ m) = ground (arith, length-erase-le k m)

  -- A present key is one entry at least.
  length-erase-lt : (k : Text) (m : Dict V) → lookup k m ≢ none → length (erase k m) < length m
  unfolding erase lookup
  length-erase-lt k [] h = ground arith
  length-erase-lt k ((j, v) ∷ m) h =
      ground (arith, length-erase-le k m, length-erase-lt k m, text_eq_iff j k)

  pub length-sweep-le : (f : V → Option V) (m : Dict V) → length (sweep f m) ≤ length m
  unfolding sweep
  length-sweep-le f [] = omega arith
  length-sweep-le f ((k, v) ∷ m) = ground (arith, length-sweep-le f m)

length-erase_all-le : (ps m : Dict RequestRecord) → length (erase_all ps m) ≤ length m
unfolding erase_all
length-erase_all-le [] m = omega arith
length-erase_all-le (p ∷ ps) m =
    omega (arith, length-erase-le p.0 m, length-erase_all-le ps (erase p.0 m))

-- The oldest entry of a table is one of the table's.
oldest :
    (p : Text × RequestRecord) (ps : Dict RequestRecord)
    → (q : Text × RequestRecord) × (qs : Dict RequestRecord) × (by_age (p ∷ ps) ≡ q ∷ qs)
      × (lookup q.0 (p ∷ ps) ≢ none)
unfolding by_age insert_aged lookup
oldest p [] = (p, [], refl, ground (arith, text_eq_refl p.0))
oldest p (r ∷ rs) =
    let (q, qs, sorted, there) = oldest r rs in
    elim (Bool-cases (ltb q.1.seen p.1.seen)) [
      | inl older ↦ (
        q,
        insert_aged p qs,
        rw (by_age, sorted, older),
        ground (arith, there, text_eq_iff p.0 q.0),
      )
      | inr newer ↦ (p, q ∷ qs, rw (by_age, sorted, newer), ground (arith, text_eq_refl p.0))
    ]

-- An eviction makes room.
length-evict-lt :
    (n : ℕ) (m : Dict RequestRecord)
    → 1 ≤ length m
    → length (evict_oldest_inflight (suc n) m) < length m
unfolding evict_oldest_inflight erase_all
length-evict-lt n [] h = ground arith
length-evict-lt n (p ∷ ps) h =
    let (q, qs, sorted, there) = oldest p ps in
    rw sorted (
      omega (
        arith,
        length-erase-lt q.0 (p ∷ ps) there,
        length-erase_all-le (take n qs) (erase q.0 (p ∷ ps)),
      ))

pub length-stash-le :
    (now : ℕ) (src : Ip) (msg : SipMessage) (m : Dict RequestRecord)
    → length m ≤ inflight_max_entries
    → length (stash now src msg m) ≤ inflight_max_entries
unfolding stash insert
length-stash-le now src msg m h =
    let key = inflight_key msg.call_id src in
    let evicted = evict_oldest_inflight 10_000 m in
    ground (arith, h, length-erase-le key evicted, length-erase-le key m, length-evict-lt 9_999 m)
