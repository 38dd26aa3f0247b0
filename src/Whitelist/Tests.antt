-- ===== src/Whitelist/Tests.antt =====
-- The theorems on the whitelist at inputs that meet their hypotheses.
use sipreaper.Common.{◌≡◌, refl, true, ◌||◌, List, [], ◌∷◌, codes, any}
use sipreaper.Models.{WhitelistEntry}
use sipreaper.Net.Parse.{parse_ip, parse_cidr}
use sipreaper.Net.{Ip, to4}
use sipreaper.Store.{Store, empty_store, store_run}
use sipreaper.Whitelist.Laws.{covers, contains-new_whitelist}
use sipreaper.Whitelist.{
  StaticEntry, Whitelist, contains, empty_whitelist, new_whitelist, parse_entries, parse_entry,
  reload_dynamic, reload_static,
}

abbrev store : Store
store = record empty_store {
  whitelist =
      record {
        id = 1;
        ip_cidr = codes "10.0.0.0/8";
        comment = [];
        source = codes "dynamic";
        created_at = 3;
      }
      ∷ [];
}

abbrev static : List StaticEntry
static = record { ip = codes "192.0.2.1"; comment = [] } ∷ []

abbrev ip : Ip
ip = 10 ∷ 1 ∷ 2 ∷ 3 ∷ []

abbrev built : Whitelist
built = record empty_whitelist {
  static = record { ip = 192 ∷ 0 ∷ 2 ∷ 1 ∷ []; mask = 255 ∷ 255 ∷ 255 ∷ 255 ∷ [] } ∷ [];
  dynamic = record { ip = 10 ∷ 0 ∷ 0 ∷ 0 ∷ []; mask = 255 ∷ 0 ∷ 0 ∷ 0 ∷ [] } ∷ [];
}

contains-new_whitelist_example : contains built ip ≡ (
    any (λ (e : StaticEntry). covers ip e.ip) static
    || any (λ (e : WhitelistEntry). covers ip e.ip_cidr) store.whitelist)
unfolding new_whitelist store_run parse_entry parse_entries reload_static reload_dynamic parse_ip
    parse_cidr to4
contains-new_whitelist_example = contains-new_whitelist true store static built ip refl
