-- ===== src/Decision.antt =====
-- internal/decision/engine.go: whether a threat becomes a ban, and for how long. The readings of
-- the clock, and whether each database call succeeds, are arguments of a call.
pub mod Escalation
pub mod Bans
mod Tests
use mathlib.Core.Option
use sipreaper.Common.{
  ℕ, suc, ◌+◌, ◌-◌, ltb, leb, ◌==◌, if◌then◌else◌, Bool, true, false, List, [], ◌∷◌, Option, none,
  some, Text, codes, length, get_elem?,
}
use sipreaper.Models.{Threat, BanAction, BanEntry}
use sipreaper.Net.{ip_string}
use sipreaper.Store.{Store, Result, ok, err, get_active_ban_by_ip, ban_count_by_ip, create_ban}
use sipreaper.Whitelist.{Whitelist, contains}

pub record Engine : Type 0 where
  pub durations : List ℕ
  pub cooldown : ℕ
  pub dry_run : Bool

-- `SetDryRun`.
abbrev pub set_dry_run : Engine → Bool → Engine
set_dry_run e b = record e { dry_run = b }

-- The readings of the clock of one call, in order, and whether each of its database calls
-- succeeds.
pub record Readings : Type 0 where
  pub counted : ℕ
  pub expiry_from : ℕ
  pub banned : ℕ
  pub lookup_up : Bool
  pub count_up : Bool
  pub create_up : Bool

-- `durationForCount`; an index within the list is never out of range.
unfoldable pub duration_for_count : List ℕ → ℕ → ℕ
duration_for_count durations prior =
    if length durations == 0
    then 300_000_000_000
    else Option.get_or
        (get_elem? durations (if leb (length durations) prior then length durations - 1 else prior))
        0

abbrev pub prior_count : Engine → Readings → Store → Text → ℕ
prior_count e r s ip = elim (ban_count_by_ip r.count_up s ip (r.counted - e.cooldown)) [
  | err ↦ 0
  | ok n ↦ n
]

abbrev pub expiry : ℕ → ℕ → Option ℕ
expiry now duration = if ltb 0 duration then some (now + duration) else none

abbrev pub ban_entry : Engine → Readings → Threat → ℕ → BanEntry
ban_entry e r t prior = record {
  id = 0;
  ip = ip_string t.source_ip;
  detector = t.detector;
  reason = t.description;
  severity = t.severity;
  banned_at = r.banned;
  duration = duration_for_count e.durations prior;
  expires_at = expiry r.expiry_from (duration_for_count e.durations prior);
  ban_count = prior + 1;
  status = if e.dry_run then codes "dry_run" else codes "active";
}

abbrev pub ban_action : Engine → Threat → ℕ → BanAction
ban_action e t prior = record {
  ip = t.source_ip;
  duration = duration_for_count e.durations prior;
  reason = t.description;
  detector = t.detector;
  severity = t.severity;
  ban_count = prior + 1;
}

-- The rest of `Evaluate`, once no open ban is found.
unfoldable pub record_ban : Engine → Readings → Store → Threat → Store × Option BanAction
record_ban e r s t =
    let prior = prior_count e r s (ip_string t.source_ip) in
    let (s', created) = create_ban r.create_up s (ban_entry e r t prior) in
    elim created [ err ↦ (s', none) | ok _ ↦ (s', some (ban_action e t prior)) ]

-- `Evaluate`.
unfoldable pub evaluate : Engine → Whitelist → Readings → Store → Threat → Store × Option BanAction
unfolding record_ban
evaluate e wl r s t =
    if contains wl t.source_ip
    then (s, none)
    else elim (get_active_ban_by_ip r.lookup_up s (ip_string t.source_ip)) [
      | err ↦ (s, none)
      | ok (some existing) ↦ (s, none)
      | ok none ↦ record_ban e r s t
    ]
