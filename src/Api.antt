-- ===== src/Api.antt =====
-- internal/api/handlers.go: the handlers that change bans and the whitelist. A request stands as
-- its decoded fields, or none where its body does not decode. `parse_duration` is Go's
-- `time.ParseDuration`, on the durations that are not negative. Each reading of the clock and
-- each answer of the database is an argument.
pub mod Whitelist
pub mod Consistency
pub mod Clearing
pub mod Overlap
pub mod Auth
pub mod Read
pub mod Listing
mod Tests
use mathlib.Core.Option
use sipreaper.Common.{
  ℕ, ◌+◌, ltb, if◌then◌else◌, Bool, true, false, List, [], ◌∷◌, ◌++◌, Option, none, some, Text,
  codes, text_eq, is_empty,
}
use sipreaper.Models.{BanEntry}
use sipreaper.Net.Parse.{parse_ip}
use sipreaper.Net.{Ip, ip_string}
use sipreaper.Store.{Store, Result, ok, err, get_active_ban_by_ip, create_ban, update_ban_status}

-- The status code, with what is written as JSON, or the text of an error. The text of an error
-- of the database is left out.
pub data Reply (A : Type 0) : Type 0 where
  success : ℕ → A → Reply A
  failure : ℕ → Text → Reply A
  store_failure : Reply A

-- The functions that the daemon installs; none where it did not.
pub record Server (W : Type 0) : Type 0 where
  pub is_whitelisted : Option (Ip → Bool)
  pub ban_fn : Option (W → Ip → ℕ → Text → W × Option Text)
  pub unban_fn : Option (W → Ip → W × Option Text)
  pub parse_duration : Text → Option ℕ

-- What a handler can change.
pub record Site (W : Type 0) : Type 0 where
  pub world : W
  pub store : Store

pub record CreateBanRequest : Type 0 where
  pub ip : Text
  pub duration : Text

pub record Clock : Type 0 where
  pub expiry_from : ℕ
  pub banned : ℕ

-- Whether each database call of a handler succeeds.
pub record Answers : Type 0 where
  pub lookup_up : Bool
  pub create_up : Bool
  pub update_up : Bool

abbrev pub guards : Option (Ip → Bool) → Ip → Bool
guards none ip = false
guards (some f) ip = f ip

abbrev pub manual_entry : Clock → Ip → ℕ → BanEntry
manual_entry c ip dur = record {
  id = 0;
  ip = ip_string ip;
  detector = codes "manual";
  reason = codes "manual ban via API";
  severity = codes "medium";
  banned_at = c.banned;
  duration = dur;
  expires_at = if ltb 0 dur then some (c.expiry_from + dur) else none;
  ban_count = 1;
  status = codes "manual";
}

abbrev pub requested : (Text → Option ℕ) → Text → Option ℕ
requested parse t = if is_empty t then some 0 else parse t

module _ {W : Type 0} where
  abbrev pub call_ban :
      Option (W → Ip → ℕ → Text → W × Option Text) → W → Ip → ℕ → Text → W × Option Text
  call_ban none w ip dur reason = (w, none)
  call_ban (some f) w ip dur reason = f w ip dur reason

  -- The unban function is not called for a dry-run ban.
  abbrev pub call_unban : Option (W → Ip → W × Option Text) → W → Ip → BanEntry → W × Option Text
  call_unban none w ip b = (w, none)
  call_unban (some f) w ip b = if text_eq b.status (codes "dry_run") then (w, none) else f w ip

  -- `handleCreateBan` once the row is written: a ban that the enforcer refuses is closed again.
  unfoldable pub apply_ban :
      Server W → Answers → Site W → Ip → BanEntry → ℕ → Site W × Reply BanEntry
  unfolding update_ban_status
  apply_ban srv a st ip entry id =
      let (w, failed) = call_ban srv.ban_fn st.world ip entry.duration entry.reason in
      elim failed [
        | none ↦ (record st { world = w }, success 201 (record entry { id = id }))
        | some e ↦ (
          record {
            world = w;
            store = (update_ban_status a.update_up st.store id (codes "expired")).0;
          },
          failure 500 (codes "ban was not applied by enforcer: " ++ e),
        )
      ]

  unfoldable pub insert_ban : Server W → Answers → Clock → Site W → Ip → ℕ → Site W × Reply BanEntry
  unfolding apply_ban create_ban
  insert_ban srv a c st ip dur =
      let (store', created) = create_ban a.create_up st.store (manual_entry c ip dur) in
      elim created [
        | err ↦ (st, store_failure)
        | ok id ↦ apply_ban srv a (record st { store = store' }) ip (manual_entry c ip dur) id
      ]

  unfoldable pub create_free :
      Server W → Answers → Clock → Site W → Ip → Text → Site W × Reply BanEntry
  unfolding insert_ban
  create_free srv a c st ip duration = elim (requested srv.parse_duration duration) [
    | none ↦ (st, failure 400 (codes "invalid duration"))
    | some dur ↦ insert_ban srv a c st ip dur
  ]

  unfoldable pub create_for :
      Server W → Answers → Clock → Site W → Ip → Text → Site W × Reply BanEntry
  unfolding create_free get_active_ban_by_ip
  create_for srv a c st ip duration =
      if guards srv.is_whitelisted ip
      then (st, failure 409 (codes "ip is whitelisted; remove from whitelist before banning"))
      else elim (get_active_ban_by_ip a.lookup_up st.store (ip_string ip)) [
        | err ↦ (st, store_failure)
        | ok (some existing) ↦ (st, failure 409 (codes "ip already has a current ban"))
        | ok none ↦ create_free srv a c st ip duration
      ]

  unfoldable pub handle_create_ban :
      Server W → Answers → Clock → Site W → Option CreateBanRequest → Site W × Reply BanEntry
  unfolding create_for
  handle_create_ban srv a c st none = (st, failure 400 (codes "invalid request body"))
  handle_create_ban srv a c st (some req) = elim (parse_ip req.ip) [
    | none ↦ (st, failure 400 (codes "invalid ip"))
    | some ip ↦ create_for srv a c st ip req.duration
  ]

  -- `handleDeleteBan` for a ban that was found.
  unfoldable pub delete_found :
      Server W → Answers → Site W → Ip → Text → BanEntry → Site W × Reply Text
  unfolding update_ban_status text_eq
  delete_found srv a st ip text b =
      let (w, failed) = call_unban srv.unban_fn st.world ip b in
      let (store', updated) = update_ban_status a.update_up st.store b.id (codes "expired") in
      elim failed [
        | some e ↦
            (record st { world = w }, failure 500 (codes "ban was not removed by enforcer: " ++ e))
        | none ↦ (
          record { world = w; store = store' },
          if updated then success 200 text else store_failure,
        )
      ]

  unfoldable pub handle_delete_ban : Server W → Answers → Site W → Text → Site W × Reply Text
  unfolding delete_found get_active_ban_by_ip
  handle_delete_ban srv a st text = elim (parse_ip text) [
    | none ↦ (st, failure 400 (codes "invalid ip"))
    | some ip ↦ elim (get_active_ban_by_ip a.lookup_up st.store (ip_string ip)) [
      | err ↦ (st, store_failure)
      | ok none ↦ (st, failure 404 (codes "ban not found"))
      | ok (some b) ↦ delete_found srv a st ip text b
    ]
  ]
