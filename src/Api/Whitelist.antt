-- ===== src/Api/Whitelist.antt =====
-- `handleAddWhitelist`, `handleRemoveWhitelist`, `currentBansCoveredBy`. The reload of the
-- whitelist that both end with is left to its caller.
use sipreaper.Common.{
  ℕ, if◌then◌else◌, Bool, true, false, List, [], ◌∷◌, ◌++◌, Option, none, some, Text, codes, keep,
  length, text_eq, leb, not,
}
use sipreaper.Api.{Server, Site, Reply, success, failure, store_failure, call_unban}
use sipreaper.Fmt.{decimal}
use sipreaper.Models.{BanEntry, WhitelistEntry}
use sipreaper.Net.Parse.{parse_ip, parse_cidr}
use sipreaper.Net.{IpNet, ip_string, net_contains}
use sipreaper.Store.{
  Store, Result, ok, err, get_active_ban_by_ip, list_bans_filtered, update_ban_status,
  add_whitelist, remove_whitelist,
}

pub record AddWhitelistRequest : Type 0 where
  pub ip : Text
  pub comment : Text
  pub clear_ban : Bool

abbrev pub is_within : IpNet → BanEntry → Bool
is_within n b = elim (parse_ip b.ip) [ none ↦ false | some ip ↦ net_contains n ip ]

unfoldable pub current_bans_covered_by : Bool → Store → Text → Result (List BanEntry)
unfolding get_active_ban_by_ip list_bans_filtered
current_bans_covered_by up s t = elim (parse_ip t) [
  | some ip ↦ elim (get_active_ban_by_ip up s (ip_string ip)) [
    | err ↦ err
    | ok none ↦ ok []
    | ok (some b) ↦ ok (b ∷ [])
  ]
  | none ↦ elim (parse_cidr t) [
    | none ↦ err
    | some n ↦ elim (list_bans_filtered up s (codes "current") []) [
      | err ↦ err
      | ok current ↦ ok (keep (is_within n) current)
    ]
  ]
]

abbrev pub is_address_or_cidr : Text → Bool
is_address_or_cidr t = elim (parse_ip t) [
  | some ip ↦ true
  | none ↦ elim (parse_cidr t) [ none ↦ false | some n ↦ true ]
]

abbrev pub overlap : ℕ → Text
unfolding decimal
overlap n =
    codes "whitelist overlaps "
    ++ (decimal n
        ++ codes " current ban(s); pass clear_ban=true to atomically unban then whitelist")

module _ {W : Type 0} where
  -- The loop over the bans to clear: the early return of a failure, or none.
  unfoldable pub clear_bans :
      Server W → (ℕ → Bool) → Site W → List BanEntry → Site W × Option (Reply WhitelistEntry)
  unfolding update_ban_status text_eq
  clear_bans srv updates st [] = (st, none)
  clear_bans srv updates st (b ∷ bans) =
      let skipped = clear_bans srv updates st bans in
      elim (parse_ip b.ip) [
        | none ↦ skipped
        | some ip ↦
            let (w, failed) = call_unban srv.unban_fn st.world ip b in
            let (store', updated) =
              update_ban_status (updates b.id) st.store b.id (codes "expired") in
            let rest = clear_bans srv updates (record { world = w; store = store' }) bans in
            elim failed [
              | some e ↦ (
                record st { world = w },
                some (
                    failure 500 (
                      codes "ban for " ++ (b.ip ++ (codes " was not removed by enforcer: " ++ e)))),
              )
              | none ↦
                  if updated
                  then rest
                  else (record { world = w; store = store' }, some store_failure)
            ]
      ]

  unfoldable pub add_cleared :
      Bool → ℕ → AddWhitelistRequest → Site W → Site W × Reply WhitelistEntry
  unfolding add_whitelist text_eq
  add_cleared up now req st =
      let (store', added) = add_whitelist up st.store req.ip req.comment (codes "dynamic") now in
      elim added [
        | err ↦ (record st { store = store' }, store_failure)
        | ok entry ↦ (record st { store = store' }, success 201 entry)
      ]

  unfoldable pub add_over :
      Server W
      → (ℕ → Bool)
      → Bool
      → ℕ
      → AddWhitelistRequest
      → Site W
      → List BanEntry
      → Site W × Reply WhitelistEntry
  unfolding clear_bans add_cleared
  add_over srv updates up now req st banned =
      let (st', stopped) = clear_bans srv updates st banned in
      if leb 1 (length banned)
      then if not req.clear_ban
        then (st, failure 409 (overlap (length banned)))
        else elim stopped [ none ↦ add_cleared up now req st' | some reply ↦ (st', reply) ]
      else add_cleared up now req st

  unfoldable pub handle_add_whitelist :
      Server W
      → Bool
      → (ℕ → Bool)
      → Bool
      → ℕ
      → Site W
      → Option AddWhitelistRequest
      → Site W × Reply WhitelistEntry
  unfolding current_bans_covered_by add_over
  handle_add_whitelist srv covered_up updates up now st none =
      (st, failure 400 (codes "invalid request body"))
  handle_add_whitelist srv covered_up updates up now st (some req) =
      if not (is_address_or_cidr req.ip)
      then (st, failure 400 (codes "invalid ip or cidr"))
      else elim (current_bans_covered_by covered_up st.store req.ip) [
        | err ↦ (st, store_failure)
        | ok banned ↦ add_over srv updates up now req st banned
      ]

  unfoldable pub handle_remove_whitelist : Bool → Site W → Text → Site W × Reply Text
  unfolding remove_whitelist text_eq
  handle_remove_whitelist up st t =
      let (store', removed) = remove_whitelist up st.store t in
      (record st { store = store' }, if removed then success 200 t else store_failure)
