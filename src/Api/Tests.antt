-- ===== src/Api/Tests.antt =====
-- Requests to ban by hand, and the theorems at inputs that meet their hypotheses.
use sipreaper.Common.{
  ◌++◌, ◌≡◌, refl, true, false, List, [], ◌∷◌, Option, none, some, arith, Text, codes,
}
use sipreaper.Api.Consistency.{is_success, handle_create_ban-IsConsistent, handle_delete_ban-free}
use sipreaper.Api.Overlap.{handle_add_whitelist-free}
use sipreaper.Api.Whitelist.{AddWhitelistRequest, handle_add_whitelist}
use sipreaper.Api.Auth.{bearer, auth_middleware, auth_middleware-token}
use sipreaper.Api.Listing.{IsBounded, handle_list_bans-IsBounded}
use sipreaper.Api.Read.{BanQuery, handle_list_bans}
use sipreaper.Api.{
  Reply, failure, Server, Site, CreateBanRequest, Clock, Answers, handle_create_ban,
  handle_delete_ban,
}
use sipreaper.Net.Parse.{parse_ip}
use sipreaper.Net.{Ip, ip_string}
use sipreaper.Store.Bans.{IsConsistent}
use sipreaper.Store.{ok, empty_store, get_active_ban_by_ip, store_run}

abbrev server : Server (List Ip)
server = record {
  is_whitelisted = some (λ ip. false);
  ban_fn = some (λ w ip d reason. (ip ∷ w, none));
  unban_fn = some (λ w ip. ([], none));
  parse_duration = λ t. none;
}

abbrev up : Answers
up = record { lookup_up = true; create_up = true; update_up = true }

abbrev clock : Clock
clock = record { expiry_from = 5; banned = 6 }

abbrev site : Site (List Ip)
site = record { world = []; store = empty_store }

abbrev address : Text
address = codes "192.0.2.1"

abbrev request : Option CreateBanRequest
request = some (record { ip = address; duration = [] })

abbrev after : Site (List Ip)
after = (handle_create_ban server up clock site request).0

created : is_success (handle_create_ban server up clock site request).1 ≡ true
unfolding handle_create_ban ip_string parse_ip store_run
created = refl

site-IsConsistent : IsConsistent site.store
site-IsConsistent = record { one_open = λ ip. omega arith; ids_below = tt }

after-IsConsistent : IsConsistent after.store
after-IsConsistent = handle_create_ban-IsConsistent server up clock site request site-IsConsistent

deleted : is_success (handle_delete_ban server up after address).1 ≡ true
unfolding handle_create_ban handle_delete_ban ip_string parse_ip store_run
deleted = refl

handle_delete_ban-free_example :
    (ip : Ip) × (parse_ip address ≡ some ip)
    × (get_active_ban_by_ip true (handle_delete_ban server up after address).0.store (ip_string ip)
        ≡ ok none)
handle_delete_ban-free_example =
    handle_delete_ban-free server up after address after-IsConsistent deleted

abbrev listing : AddWhitelistRequest
listing = record { ip = address; comment = []; clear_ban = true }

abbrev mapped : Ip
mapped = 0 ∷ 0 ∷ 0 ∷ 0 ∷ 0 ∷ 0 ∷ 0 ∷ 0 ∷ 0 ∷ 0 ∷ 255 ∷ 255 ∷ 192 ∷ 0 ∷ 2 ∷ 1 ∷ []

added :
    is_success (handle_add_whitelist server true (λ _. true) true 9 after (some listing)).1 ≡ true
unfolding handle_create_ban handle_add_whitelist ip_string parse_ip store_run
added = refl

handle_add_whitelist-free_example :
    get_active_ban_by_ip true
      (handle_add_whitelist server true (λ _. true) true 9 after (some listing)).0.store
      (ip_string mapped)
    ≡ ok none
unfolding parse_ip ip_string
handle_add_whitelist-free_example =
    handle_add_whitelist-free server (λ _. true) true 9 true after listing mapped after-IsConsistent
      refl refl added

-- Any handler.
abbrev unban_all : Site (List Ip) → Site (List Ip) × Reply Text
unfolding handle_delete_ban
unban_all st = handle_delete_ban server up st address

auth_middleware-token_example :
    (auth_middleware (codes "secret") [] unban_all site
      ≡ (site, failure 401 (codes "unauthorized")))
    × (auth_middleware (codes "secret") (bearer ++ codes "secret") unban_all site ≡ unban_all site)
auth_middleware-token_example =
    auth_middleware-token (codes "secret") [] unban_all site refl (λ e. cc e)

abbrev query : BanQuery
query = record { status = []; ip = []; limit = codes "9999"; offset = [] }

handle_list_bans-IsBounded_example : IsBounded (handle_list_bans true true after.store query)
handle_list_bans-IsBounded_example = handle_list_bans-IsBounded true true after.store query
