-- ===== src/Decision/Bans.antt =====
-- What an evaluation does to the store.
use sipreaper.Common.{
  map, text_eq_refl, ◌/◌, ◌*◌, ℕ, ◌+◌, ◌-◌, ◌≤◌, if◌then◌else◌, Bool-cases, ◌≡◌, refl, sym, ap, ◌⊎◌,
  inl, inr, Bool, true, false, List, [], ◌∷◌, ◌++◌, Option, none, some, arith, Text, text_eq,
  length, keep, keep-append, length-append, subst,
}
use sipreaper.Decision.{
  Engine, Readings, prior_count, ban_entry, ban_action, record_ban, evaluate, duration_for_count,
}
use sipreaper.Models.{Threat, BanAction, BanEntry}
use sipreaper.Net.{ip_string}
use sipreaper.Store.Bans.{
  IsConsistent, lookup_cases, open_bans, create_ban-IsConsistent, get_active_ban-none,
  get_active_ban-create_ban,
}
use sipreaper.Store.{
  BanRow, set_status, update_ban_status, Store, ok, get_active_ban_by_ip, ban_count_by_ip,
  create_ban, ban_row, banned_since, is_open, second,
}
use sipreaper.Whitelist.{Whitelist, contains}

-- An evaluation that finds no open ban runs `record_ban`; any other changes nothing.
evaluate_cases {ℓ} :
    (P : Store × Option BanAction → Type ℓ) (e : Engine) (wl : Whitelist) (r : Readings) (s : Store)
    (t : Threat)
    → P (s, none)
    → (contains wl t.source_ip ≡ false
        → length (open_bans (ip_string t.source_ip) s) ≡ 0
        → P (record_ban e r s t))
    → P (evaluate e wl r s t)
unfolding evaluate
evaluate_cases P e wl r s t idle busy =
    let ip = ip_string t.source_ip in
    elim (Bool-cases (contains wl t.source_ip)) [
      | inl white ↦ rw white idle
      | inr black ↦ rw black (elim (lookup_cases (get_active_ban_by_ip r.lookup_up s ip)) [
        | inl failed ↦ rw failed idle
        | inr (inl free) ↦ rw free (busy black (get_active_ban-none r.lookup_up s ip free))
        | inr (inr (b, found)) ↦ rw found idle
      ])
    ]

store-record_ban :
    (e : Engine) (r : Readings) (s : Store) (t : Threat)
    → (record_ban e r s t).0
      ≡ (create_ban r.create_up s (ban_entry e r t (prior_count e r s (ip_string t.source_ip)))).0
unfolding record_ban create_ban
store-record_ban e r s t = ground arith

record_ban-IsConsistent :
    (e : Engine) (r : Readings) (s : Store) (t : Threat)
    → IsConsistent s
    → length (open_bans (ip_string t.source_ip) s) ≡ 0
    → IsConsistent (record_ban e r s t).0
record_ban-IsConsistent e r s t c free =
    subst IsConsistent (sym (store-record_ban e r s t))
      (create_ban-IsConsistent r.create_up s _ c free)

-- No evaluation gives an address a second open ban, whatever the whitelist, the clock and the
-- failures of the database.
pub evaluate-IsConsistent :
    (e : Engine) (wl : Whitelist) (r : Readings) (s : Store) (t : Threat)
    → IsConsistent s
    → IsConsistent (evaluate e wl r s t).0
evaluate-IsConsistent e wl r s t c =
    evaluate_cases (λ p. IsConsistent p.0) e wl r s t c
      (λ _ free. record_ban-IsConsistent e r s t c free)

-- The prior bans of an address, as the store has them.
abbrev pub prior_bans : Engine → Readings → Store → Threat → ℕ
prior_bans e r s t =
    if r.count_up
    then length (keep (banned_since (ip_string t.source_ip) (r.counted - e.cooldown)) s.bans)
    else 0

-- The open ban that a recorded evaluation leaves behind.
abbrev pub new_ban : Engine → Readings → Store → Threat → BanEntry
new_ban e r s t = record (ban_entry e r t (prior_bans e r s t)) {
  id = s.next_ban;
  duration = duration_for_count e.durations (prior_bans e r s t) / second * second;
}

-- The evaluation has recorded a ban.
pub record Recorded (e : Engine) (wl : Whitelist) (r : Readings) (s : Store) (t : Threat)
    (p : Store × Option BanAction) : Type 0 where
  pub not_whitelisted : contains wl t.source_ip ≡ false
  pub was_free : length (open_bans (ip_string t.source_ip) s) ≡ 0
  pub action : p.1 ≡ some (ban_action e t (prior_bans e r s t))
  pub row : p.0.bans ≡ s.bans ++ ban_row s.next_ban (ban_entry e r t (prior_bans e r s t)) ∷ []
  pub found : get_active_ban_by_ip true p.0 (ip_string t.source_ip) ≡ ok (some (new_ban e r s t))

status-is_open :
    (e : Engine) (r : Readings) (t : Threat) (n : ℕ) → is_open (ban_entry e r t n).status ≡ true
unfolding text_eq
status-is_open e r t n = ground arith

prior_count-prior_bans :
    (e : Engine) (r : Readings) (s : Store) (t : Threat)
    → prior_count e r s (ip_string t.source_ip) ≡ prior_bans e r s t
unfolding ban_count_by_ip
prior_count-prior_bans e r s t = ground arith

module _ (e : Engine) (r : Readings) (s : Store) (t : Threat) where
  abbrev entry_now : BanEntry
  entry_now = ban_entry e r t (prior_bans e r s t)

  record_ban_up :
      r.create_up ≡ true
      → record_ban e r s t
        ≡ ((create_ban true s entry_now).0, some (ban_action e t (prior_bans e r s t)))
  unfolding record_ban create_ban
  record_ban_up up = ground (arith, prior_count-prior_bans e r s t)

  record_ban_down : r.create_up ≡ false → record_ban e r s t ≡ (s, none)
  unfolding record_ban create_ban
  record_ban_down down = ground arith

  bans-create_ban :
      (create_ban true s entry_now).0.bans ≡ s.bans ++ ban_row s.next_ban entry_now ∷ []
  unfolding create_ban
  bans-create_ban = refl

-- Every action stands for one new row of the store, which is then the open ban of its address,
-- where there was none; its length is that of the ladder at the number of the address's bans
-- within the cooldown, or at 0 if they cannot be counted. The address is not whitelisted. Without
-- an action the store does not change.
pub evaluate-Recorded :
    (e : Engine) (wl : Whitelist) (r : Readings) (s : Store) (t : Threat)
    → (evaluate e wl r s t ≡ (s, none)) ⊎ Recorded e wl r s t (evaluate e wl r s t)
evaluate-Recorded e wl r s t =
    evaluate_cases (λ p. (p ≡ (s, none)) ⊎ Recorded e wl r s t p) e wl r s t (inl refl)
      (λ black free. elim (Bool-cases r.create_up) [
        | inl up ↦ inr (
            subst (Recorded e wl r s t) (sym (record_ban_up e r s t up)) (record {
              not_whitelisted = black;
              was_free = free;
              action = refl;
              row = bans-create_ban e r s t;
              found =
                  get_active_ban-create_ban s (ban_entry e r t (prior_bans e r s t)) free
                    (status-is_open e r t (prior_bans e r s t));
            }))
        | inr down ↦ inl (record_ban_down e r s t down)
      ])

evaluate_open :
    (e : Engine) (wl : Whitelist) (r : Readings) (s : Store) (t : Threat) {b : BanEntry}
    → get_active_ban_by_ip true s (ip_string t.source_ip) ≡ ok (some b)
    → evaluate e wl r s t ≡ (s, none)
unfolding evaluate get_active_ban_by_ip
evaluate_open e wl r s t h = ground arith

-- A threat against an address that was just banned does nothing: no second action, no second row.
pub evaluate_twice :
    (e : Engine) (wl wl' : Whitelist) (r r' : Readings) (s : Store) (t t' : Threat) (a : BanAction)
    → (evaluate e wl r s t).1 ≡ some a
    → ip_string t'.source_ip ≡ ip_string t.source_ip
    → evaluate e wl' r' (evaluate e wl r s t).0 t' ≡ ((evaluate e wl r s t).0, none)
evaluate_twice e wl wl' r r' s t t' a acted same = elim (evaluate-Recorded e wl r s t) [
  | inl idle ↦ absurd (cc (ap (λ p. p.1) idle))
  | inr done ↦
      evaluate_open e wl' r' (evaluate e wl r s t).0 t' {b = new_ban e r s t} (rw same done.found)
]

count-set_status :
    (ip : Text) (since id : ℕ) (status : Text) (rows : List BanRow)
    → length (keep (banned_since ip since) (map (set_status id status) rows))
      ≡ length (keep (banned_since ip since) rows)
count-set_status ip since id status [] = refl
count-set_status ip since id status (q ∷ rows) =
    ground (arith, count-set_status ip since id status rows)

count-update :
    (up : Bool) (s : Store) (ip : Text) (since id : ℕ) (status : Text)
    → length (keep (banned_since ip since) (update_ban_status up s id status).0.bans)
      ≡ length (keep (banned_since ip since) s.bans)
unfolding update_ban_status
count-update true s ip since id status = count-set_status ip since id status s.bans
count-update false s ip since id status = refl

-- A ban moves its address one rung up the ladder, also after its status is changed: wherever the
-- database counts some bans of an address from a time on, it counts one more once an evaluation
-- has banned the address at that time or later.
pub ban_count_by_ip-evaluate :
    (e : Engine) (wl : Whitelist) (r : Readings) (s : Store) (t : Threat) (a : BanAction)
    (up : Bool) (id : ℕ) (status : Text) (since n : ℕ)
    → (evaluate e wl r s t).1 ≡ some a
    → since ≤ r.banned
    → ban_count_by_ip true s (ip_string t.source_ip) since ≡ ok n
    → ban_count_by_ip true
        (update_ban_status up (evaluate e wl r s t).0 id status).0
        (ip_string t.source_ip)
        since
      ≡ ok (n + 1)
unfolding ban_count_by_ip
ban_count_by_ip-evaluate e wl r s t a up id status since n acted within counted =
    elim (evaluate-Recorded e wl r s t) [
      | inl idle ↦ absurd (cc (ap (λ p. p.1) idle))
      | inr done ↦
          let ip = ip_string t.source_ip in
          let new = ban_row s.next_ban (ban_entry e r t (prior_bans e r s t)) in
          ground (
            arith,
            counted,
            count-update up (evaluate e wl r s t).0 ip since id status,
            done.row,
            keep-append (banned_since ip since) s.bans (new ∷ []),
            length-append (keep (banned_since ip since) s.bans)
                (keep (banned_since ip since) (new ∷ [])),
            text_eq_refl ip,
          )
    ]
