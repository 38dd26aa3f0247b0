-- ===== src/Api/Overlap.antt =====
-- Adding an address to the whitelist lifts its ban.
use sipreaper.Common.{
  ℕ, Bool-cases, Option-cases, ◌≡◌, refl, ◌⊎◌, inl, inr, Bool, true, false, ◌++◌, List, [], ◌∷◌,
  none, some, arith, Text, codes,
}
use sipreaper.Api.Whitelist.{
  AddWhitelistRequest, current_bans_covered_by, clear_bans, add_cleared, add_over,
  handle_add_whitelist,
}
use sipreaper.Api.Clearing.{bans-add_whitelist, store-add_cleared}
use sipreaper.Api.Consistency.{is_success}
use sipreaper.Api.{Server, Site, Reply, failure, store_failure, call_unban}
use sipreaper.Models.{BanEntry, WhitelistEntry}
use sipreaper.Net.Parse.{parse_ip}
use sipreaper.Net.{Ip, ip_string}
use sipreaper.Store.Bans.{
  IsConsistent, lookup_cases, none-get_active_ban, get_active_ban-none, get_active_ban-update,
  get_active_ban-ip,
}
use sipreaper.Store.{Store, ok, get_active_ban_by_ip, update_ban_status}

active-add_cleared :
    {W : Type 0} (up : Bool) (now : ℕ) (req : AddWhitelistRequest) (st : Site W) (t : Text)
    → get_active_ban_by_ip true (add_cleared up now req st).0.store t
      ≡ get_active_ban_by_ip true st.store t
unfolding get_active_ban_by_ip
active-add_cleared up now req st t =
    let (bans, _) = bans-add_whitelist up st.store req.ip req.comment (codes "dynamic") now in
    rw (store-add_cleared up now req st, bans) refl

module _ {W : Type 0} (srv : Server W) (updates : ℕ → Bool) (up : Bool) (now : ℕ) where
  clear_one :
      (st : Site W) (b : BanEntry) (ip : Ip)
      → parse_ip b.ip ≡ some ip
      → (clear_bans srv updates st (b ∷ [])).1 ≡ none
      → (clear_bans srv updates st (b ∷ [])).0.store
        ≡ (update_ban_status true st.store b.id (codes "expired")).0
  unfolding clear_bans update_ban_status
  clear_one st b ip parsed cleared = ground (arith, parsed, cleared)

  clear_one_stops :
      (st : Site W) (b : BanEntry) (ip : Ip)
      → parse_ip b.ip ≡ some ip
      → ((clear_bans srv updates st (b ∷ [])).1 ≡ none)
        ⊎ ((reply : Reply WhitelistEntry) × (((clear_bans srv updates st (b ∷ [])).1 ≡ some reply)
              × (is_success reply ≡ false)))
  unfolding clear_bans
  clear_one_stops st b ip parsed =
      let call = call_unban srv.unban_fn st.world ip b in
      let closed = update_ban_status (updates b.id) st.store b.id (codes "expired") in
      elim (Option-cases call.1) [
        | inr (e, failed) ↦ inr (
          failure 500 (codes "ban for " ++ (b.ip ++ (codes " was not removed by enforcer: " ++ e))),
          rw (clear_bans, parsed, failed) (refl, refl),
        )
        | inl fine ↦ elim (Bool-cases closed.1) [
          | inl updated ↦ inl (rw (clear_bans, parsed, fine, updated) refl)
          | inr lost ↦ inr (store_failure, rw (clear_bans, parsed, fine, lost) (refl, refl))
        ]
      ]

  -- A success for a single ban has cleared it.
  add_over_one :
      (req : AddWhitelistRequest) (st : Site W) (b : BanEntry) (ip : Ip)
      → parse_ip b.ip ≡ some ip
      → is_success (add_over srv updates up now req st (b ∷ [])).1 ≡ true
      → ((clear_bans srv updates st (b ∷ [])).1 ≡ none)
        × (add_over srv updates up now req st (b ∷ [])
            ≡ add_cleared up now req (clear_bans srv updates st (b ∷ [])).0)
  unfolding add_over
  add_over_one req st b ip parsed fine = elim (Bool-cases req.clear_ban) [
    | inr kept ↦ absurd (ground (arith, kept, fine))
    | inl clear ↦ elim (clear_one_stops st b ip parsed) [
      | inl cleared ↦ (cleared, rw (add_over, clear, cleared) refl)
      | inr (reply, (stopped, bad)) ↦ absurd (ground (arith, clear, stopped, bad, fine))
    ]
  ]

  add_covered :
      (covered_up : Bool) (st : Site W) (req : AddWhitelistRequest) (ip : Ip)
      (banned : List BanEntry)
      → parse_ip req.ip ≡ some ip
      → current_bans_covered_by covered_up st.store req.ip ≡ ok banned
      → handle_add_whitelist srv covered_up updates up now st (some req)
        ≡ add_over srv updates up now req st banned
  unfolding handle_add_whitelist
  add_covered covered_up st req ip banned parsed covered = ground (arith, parsed, covered)

  covered_none :
      (covered_up : Bool) (s : Store) (t : Text) (ip : Ip)
      → parse_ip t ≡ some ip
      → get_active_ban_by_ip covered_up s (ip_string ip) ≡ ok none
      → current_bans_covered_by covered_up s t ≡ ok []
  unfolding current_bans_covered_by
  covered_none covered_up s t ip parsed nothing = ground (arith, parsed, nothing)

  covered_some :
      (covered_up : Bool) (s : Store) (t : Text) (ip : Ip) (b : BanEntry)
      → parse_ip t ≡ some ip
      → get_active_ban_by_ip covered_up s (ip_string ip) ≡ ok (some b)
      → current_bans_covered_by covered_up s t ≡ ok (b ∷ [])
  unfolding current_bans_covered_by
  covered_some covered_up s t ip b parsed found = ground (arith, parsed, found)

  add_over_none :
      (req : AddWhitelistRequest) (st : Site W)
      → add_over srv updates up now req st [] ≡ add_cleared up now req st
  unfolding add_over
  add_over_none req st = refl

  -- Where adding an address to the whitelist succeeds, the address has no open ban, if no address
  -- had two and the text of the address reads back as it.
  pub handle_add_whitelist-free :
      (covered_up : Bool) (st : Site W) (req : AddWhitelistRequest) (ip : Ip)
      → IsConsistent st.store
      → parse_ip req.ip ≡ some ip
      → parse_ip (ip_string ip) ≡ some ip
      → is_success (handle_add_whitelist srv covered_up updates up now st (some req)).1 ≡ true
      → get_active_ban_by_ip true
          (handle_add_whitelist srv covered_up updates up now st (some req)).0.store
          (ip_string ip)
        ≡ ok none
  unfolding handle_add_whitelist current_bans_covered_by
  handle_add_whitelist-free covered_up st req ip k parsed back fine =
      let t = ip_string ip in
      elim (lookup_cases (get_active_ban_by_ip covered_up st.store t)) [
        | inl down ↦ absurd (ground (arith, parsed, down, fine))
        | inr (inl nothing) ↦
            rw
              (
                add_covered covered_up st req ip [] parsed
                    (covered_none covered_up st.store req.ip ip parsed nothing),
                add_over_none req st,
                active-add_cleared up now req st t,
              )
              (none-get_active_ban st.store t (get_active_ban-none covered_up st.store t nothing))
        | inr (inr (b, found)) ↦
            let reads : parse_ip b.ip ≡ some ip =
              rw (get_active_ban-ip covered_up st.store t b found) back in
            let covered =
              add_covered covered_up st req ip (b ∷ []) parsed
                (covered_some covered_up st.store req.ip ip b parsed found) in
            let (cleared, adds) = add_over_one req st b ip reads (rw covered at fine) in
            rw
              (
                covered,
                adds,
                active-add_cleared up now req (clear_bans srv updates st (b ∷ [])).0 t,
                clear_one st b ip reads cleared,
              )
              (get_active_ban-update covered_up st.store t b k found)
      ]
