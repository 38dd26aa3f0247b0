-- ===== src/Api/Listing.antt =====
-- internal/api/handlers.go: how much a request can read, and what the statistics count.
use mathlib.Core.Option
use sipreaper.Common.{
  ℕ, zero, suc, ◌+◌, ◌≤◌, ◌≡◌, refl, ap, Bool, true, false, ◌||◌, List, [], ◌∷◌, Text, text_eq,
  text_eq_iff, length, take, drop, map, keep, arith, Option-cases, Bool-cases, inl, inr,
}
use sipreaper.Api.Read.{
  BanQuery, Listing, page_limit, wanted_status, parse_non_negative_int_query, list_page,
  handle_list_bans, increment, count_by,
}
use sipreaper.Api.{Reply, success, store_failure}
use sipreaper.Common.Dict.{Dict, lookup, lookup-insert}
use sipreaper.Models.{BanEntry}
use sipreaper.Common.Int.{pos}
use sipreaper.Store.Bans.{answer_cases}
use sipreaper.Store.Pages.{page_rows}
use sipreaper.Store.{
  scan_ban, selected, list_bans_filtered, Store, ok, err, list_bans_filtered_page,
  count_bans_filtered,
}

abbrev pub counted : Text → Dict ℕ → ℕ
counted k m = Option.get_or (lookup k m) 0

count_by-from :
    (key : BanEntry → Text) (m : Dict ℕ) (bans : List BanEntry) (k : Text)
    → counted k (count_by key m bans) ≡ counted k m + length (keep (λ b. text_eq (key b) k) bans)
unfolding count_by increment
count_by-from key m [] k = omega arith
count_by-from key m (b ∷ bans) k =
    let rest = count_by-from key (increment (key b) m) bans k in
    ground (arith, rest, lookup-insert (key b) k (counted (key b) m + 1) m, text_eq_iff (key b) k)

-- The statistics count for each detector, and for each address, exactly its rows.
pub counted-count_by :
    (key : BanEntry → Text) (bans : List BanEntry) (k : Text)
    → counted k (count_by key [] bans) ≡ length (keep (λ b. text_eq (key b) k) bans)
unfolding lookup
counted-count_by key bans k = ground (arith, count_by-from key [] bans k)

-- A page of a listing is within the limit that it reports, and that from 1 to 500.
abbrev pub IsBounded : Reply Listing → Type 0
IsBounded (success code (Listing.paged items total limit offset)) =
    (length items ≤ limit) × (1 ≤ limit) × (limit ≤ 500)
IsBounded _ = Unit

length-take-le {ℓ} : {A : Type ℓ} (n : ℕ) (xs : List A) → length (take n xs) ≤ n
length-take-le zero xs = omega arith
length-take-le (suc n) [] = omega arith
length-take-le (suc n) (x ∷ xs) = omega (arith, length-take-le n xs)

length-map {ℓ κ} :
    {A : Type ℓ} {B : Type κ} (f : A → B) (xs : List A) → length (map f xs) ≡ length xs
length-map f [] = refl
length-map f (x ∷ xs) = ap suc (length-map f xs)

page_limit-le : (n : ℕ) → (1 ≤ page_limit n) × (page_limit n ≤ 500)
page_limit-le n = ground arith

down_page :
    (s : Store) (status ip : Text) (limit offset : ℕ)
    → list_bans_filtered_page false s status ip (pos limit) (pos offset) ≡ err
unfolding list_bans_filtered_page list_bans_filtered
down_page s status ip limit offset = ground arith

list_page-IsBounded :
    (page_up count_up : Bool) (s : Store) (status ip : Text) (limit offset : ℕ)
    → 1 ≤ limit
    → limit ≤ 500
    → IsBounded (list_page page_up count_up s status ip limit offset)
unfolding list_page count_bans_filtered
list_page-IsBounded true count_up s status ip limit offset low high =
    let rows = take limit (drop offset (selected s status ip)) in
    let few : length (map scan_ban rows) ≤ limit = omega (
      arith,
      length-map scan_ban rows,
      length-take-le limit (drop offset (selected s status ip)),
    ) in
    rw (list_page, page_rows s status ip limit offset low)
      (elim count_up
        as (λ up. IsBounded (elim (count_bans_filtered up s status ip) [
          | ok total ↦ success 200 (Listing.paged (map scan_ban rows) total limit offset)
          | err ↦ store_failure
        ])) [ true ↦ (few, low, high) | false ↦ tt ])
list_page-IsBounded false count_up s status ip limit offset low high =
    rw (list_page, down_page s status ip limit offset) tt

-- Whatever limit and offset a request asks for, a page that it is answered with holds no more
-- bans than the limit that it reports, which is from 1 to 500.
pub handle_list_bans-IsBounded :
    (list_up count_up : Bool) (s : Store) (q : BanQuery)
    → IsBounded (handle_list_bans list_up count_up s q)
unfolding handle_list_bans
handle_list_bans-IsBounded list_up count_up s q =
    elim (Option-cases (parse_non_negative_int_query q.limit)) [
      | inl bad ↦ rw (handle_list_bans, bad) tt
      | inr (l, asked) ↦ elim (Option-cases (parse_non_negative_int_query q.offset)) [
        | inl bad ↦ rw (handle_list_bans, asked, bad) tt
        | inr (o, from) ↦ elim (Bool-cases (l.1 || o.1)) [
          | inl paging ↦
              let (low, high) = page_limit-le l.0 in
              rw (handle_list_bans, asked, from, paging)
                (list_page-IsBounded list_up count_up s (wanted_status q.status) q.ip
                  (page_limit l.0) o.0 low high)
          | inr all ↦
              elim (answer_cases (list_bans_filtered list_up s (wanted_status q.status) q.ip)) [
                | inl down ↦ rw (handle_list_bans, asked, from, all, down) tt
                | inr (bans, found) ↦ rw (handle_list_bans, asked, from, all, found) tt
              ]
        ]
      ]
    ]
