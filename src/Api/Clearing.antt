-- ===== src/Api/Clearing.antt =====
-- What the whitelist's handlers, and a manual unban, do to the bans.
use sipreaper.Common.{
  ℕ, Bool-cases, Option-cases, ◌≡◌, refl, inl, inr, Bool, true, false, List, [], ◌∷◌, Option, none,
  some, arith, Text, codes, text_eq,
}
use sipreaper.Api.Whitelist.{
  AddWhitelistRequest, current_bans_covered_by, is_address_or_cidr, clear_bans, add_cleared,
  add_over, handle_add_whitelist, handle_remove_whitelist,
}
use sipreaper.Net.{ip_string}
use sipreaper.Api.{Server, Site, Answers, call_unban, handle_delete_ban, delete_found}
use sipreaper.Models.{BanEntry}
use sipreaper.Net.Parse.{parse_ip}
use sipreaper.Store.Bans.{IsConsistent, answer_cases, update_ban_status-IsConsistent}
use sipreaper.Store.{
  Store, update_ban_status, add_whitelist, remove_whitelist, get_active_ban_by_ip,
}

pub bans-add_whitelist :
    (up : Bool) (s : Store) (ip comment source : Text) (now : ℕ)
    → ((add_whitelist up s ip comment source now).0.bans ≡ s.bans)
      × ((add_whitelist up s ip comment source now).0.next_ban ≡ s.next_ban)
unfolding add_whitelist
bans-add_whitelist up s ip comment source now = ground arith

IsConsistent-same :
    (s s' : Store) → s'.bans ≡ s.bans → s'.next_ban ≡ s.next_ban → IsConsistent s → IsConsistent s'
IsConsistent-same s s' bans next c = record {
  one_open = λ ip. rw bans (c.one_open ip);
  ids_below = rw (bans, next) c.ids_below;
}

add_whitelist-IsConsistent :
    (up : Bool) (s : Store) (ip comment source : Text) (now : ℕ)
    → IsConsistent s
    → IsConsistent (add_whitelist up s ip comment source now).0
add_whitelist-IsConsistent up s ip comment source now c =
    let (bans, next) = bans-add_whitelist up s ip comment source now in
    IsConsistent-same s (add_whitelist up s ip comment source now).0 bans next c

module _ {W : Type 0} (srv : Server W) (updates : ℕ → Bool) where
  clear_bans-IsConsistent :
      (bans : List BanEntry) (st : Site W)
      → IsConsistent st.store
      → IsConsistent (clear_bans srv updates st bans).0.store
  unfolding clear_bans text_eq
  clear_bans-IsConsistent [] st c = c
  clear_bans-IsConsistent (b ∷ bans) st c = elim (Option-cases (parse_ip b.ip)) [
    | inl bad ↦ rw (clear_bans, bad) (clear_bans-IsConsistent bans st c)
    | inr (ip, parsed) ↦
        let call = call_unban srv.unban_fn st.world ip b in
        let closed = update_ban_status (updates b.id) st.store b.id (codes "expired") in
        let c' =
          update_ban_status-IsConsistent (updates b.id) st.store b.id (codes "expired") refl c in
        elim (Option-cases call.1) [
          | inr (e, failed) ↦ rw (clear_bans, parsed, failed) c
          | inl fine ↦ elim (Bool-cases closed.1) [
            | inl updated ↦
                rw (clear_bans, parsed, fine, updated)
                  (clear_bans-IsConsistent bans (record { world = call.0; store = closed.0 }) c')
            | inr lost ↦ rw (clear_bans, parsed, fine, lost) c'
          ]
        ]
  ]

pub store-add_cleared :
    {W : Type 0} (up : Bool) (now : ℕ) (req : AddWhitelistRequest) (st : Site W)
    → (add_cleared up now req st).0.store
      ≡ (add_whitelist up st.store req.ip req.comment (codes "dynamic") now).0
unfolding add_cleared
store-add_cleared up now req st =
    elim (answer_cases (add_whitelist up st.store req.ip req.comment (codes "dynamic") now).1) [
      | inl refused ↦ rw (add_cleared, refused) refl
      | inr (entry, added) ↦ rw (add_cleared, added) refl
    ]

module _ {W : Type 0} (srv : Server W) (updates : ℕ → Bool) (up : Bool) (now : ℕ) where
  add_cleared-IsConsistent :
      (req : AddWhitelistRequest) (st : Site W)
      → IsConsistent st.store
      → IsConsistent (add_cleared up now req st).0.store
  add_cleared-IsConsistent req st c =
      rw (store-add_cleared up now req st)
        (add_whitelist-IsConsistent up st.store req.ip req.comment (codes "dynamic") now c)

  add_over-IsConsistent :
      (req : AddWhitelistRequest) (st : Site W) (banned : List BanEntry)
      → IsConsistent st.store
      → IsConsistent (add_over srv updates up now req st banned).0.store
  unfolding add_over
  add_over-IsConsistent req st [] c = add_cleared-IsConsistent req st c
  add_over-IsConsistent req st (b ∷ bans) c =
      let cleared = clear_bans srv updates st (b ∷ bans) in
      let c' = clear_bans-IsConsistent srv updates (b ∷ bans) st c in
      let result = add_over srv updates up now req st (b ∷ bans) in
      elim (Bool-cases req.clear_ban) [
        | inr kept ↦ let same : result.0.store ≡ st.store = ground (arith, kept) in rw same c
        | inl clear ↦ elim (Option-cases cleared.1) [
          | inl all ↦
              let adds : result ≡ add_cleared up now req cleared.0 = ground (arith, clear, all) in
              rw adds (add_cleared-IsConsistent req cleared.0 c')
          | inr (reply, stopped) ↦
              let left : result.0.store ≡ cleared.0.store = ground (arith, clear, stopped) in
              rw left c'
        ]
      ]

  -- Adding to the whitelist never gives an address a second open ban, also where it stops halfway.
  pub handle_add_whitelist-IsConsistent :
      (covered_up : Bool) (st : Site W) (body : Option AddWhitelistRequest)
      → IsConsistent st.store
      → IsConsistent (handle_add_whitelist srv covered_up updates up now st body).0.store
  unfolding handle_add_whitelist
  handle_add_whitelist-IsConsistent covered_up st none c = c
  handle_add_whitelist-IsConsistent covered_up st (some req) c =
      elim (Bool-cases (is_address_or_cidr req.ip)) [
        | inr bad ↦ rw (handle_add_whitelist, bad) c
        | inl good ↦ elim (answer_cases (current_bans_covered_by covered_up st.store req.ip)) [
          | inl down ↦ rw (handle_add_whitelist, good, down) c
          | inr (banned, covered) ↦
              rw (handle_add_whitelist, good, covered) (add_over-IsConsistent req st banned c)
        ]
      ]

-- A manual unban closes a row or leaves the store.
pub handle_delete_ban-IsConsistent :
    {W : Type 0} (srv : Server W) (a : Answers) (st : Site W) (text : Text)
    → IsConsistent st.store
    → IsConsistent (handle_delete_ban srv a st text).0.store
unfolding handle_delete_ban delete_found text_eq
handle_delete_ban-IsConsistent srv a st text c = elim (Option-cases (parse_ip text)) [
  | inl bad ↦ rw (handle_delete_ban, bad) c
  | inr (ip, parsed) ↦
      elim (answer_cases (get_active_ban_by_ip a.lookup_up st.store (ip_string ip))) [
        | inl down ↦ rw (handle_delete_ban, parsed, down) c
        | inr (none, missing) ↦ rw (handle_delete_ban, parsed, missing) c
        | inr (some b, found) ↦ elim (Option-cases (call_unban srv.unban_fn st.world ip b).1) [
          | inr (e, failed) ↦ rw (handle_delete_ban, parsed, found, delete_found, failed) c
          | inl lifted ↦
              rw (handle_delete_ban, parsed, found, delete_found, lifted)
                (update_ban_status-IsConsistent a.update_up st.store b.id (codes "expired") refl c)
        ]
      ]
]

pub handle_remove_whitelist-IsConsistent :
    {W : Type 0} (up : Bool) (st : Site W) (t : Text)
    → IsConsistent st.store
    → IsConsistent (handle_remove_whitelist up st t).0.store
unfolding handle_remove_whitelist remove_whitelist
handle_remove_whitelist-IsConsistent true st t c = record {
  one_open = c.one_open;
  ids_below = c.ids_below;
}
handle_remove_whitelist-IsConsistent false st t c = c
