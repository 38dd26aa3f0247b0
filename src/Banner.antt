-- ===== src/Banner.antt =====
-- internal/banner: the XDP enforcer (keys.go, enforcer_linux.go, preflight_linux.go). The kernel's
-- maps, its loader and its network interfaces are cilium/ebpf's and the system's, so their calls
-- are arguments, over the state `W` of both. The mutex makes each operation one step; the
-- recovery from a panic inside a map call is not modelled.
pub mod Frame
pub mod Bans
pub mod Attach
pub mod Outcome
pub mod Keys
pub mod Senders
mod Tests
use sipreaper.Common.{
  ℕ, ◌+◌, ltb, leb, ◌==◌, if◌then◌else◌, Bool, true, false, ◌&&◌, ◌||◌, not, List, [], ◌∷◌, ◌++◌,
  map, Option, none, some, Text, codes, text_eq, is_empty, length, get_elem?,
}
use sipreaper.Action.{Enforcer, Banned, join_errors}
use sipreaper.Net.{Ip, is_nil, to4, to16, ip_string}
use sipreaper.Strings.{atoi_clamped, before_byte, cut, split}

-- `v4Key`; none is `ok = false`.
unfoldable pub v4_key : Ip → Option Ip
unfolding to4
v4_key ip = if is_nil (to4 ip) then none else some (to4 ip)

-- `v6Key`.
unfoldable pub v6_key : Ip → Option Ip
unfolding to4 to16
v6_key ip =
    if not (is_nil (to4 ip)) then none else if is_nil (to16 ip) then none else some (to16 ip)

-- An error of a map: a delete of an absent key has its own.
pub data MapError : Type 0 where
  key_not_exist : MapError
  failed : Text → MapError

-- A pinned hash map whose values are all one. `iterate` gives the keys of a walk, which may fail.
pub record BpfMap (W : Type 0) : Type 0 where
  pub put : W → Ip → W × Option MapError
  pub delete : W → Ip → W × Option MapError
  pub iterate : W → List Ip × Option MapError
  pub has : W → Ip → Bool

pub record Maps (W : Type 0) : Type 0 where
  pub banned_v4 : BpfMap W
  pub banned_v6 : BpfMap W
  -- `Stats.Lookup`: the counters of each CPU.
  pub stats : W → ℕ → Option (List ℕ)

abbrev pub stat_passed : ℕ
stat_passed = 0

abbrev pub stat_dropped : ℕ
stat_dropped = 1

abbrev pub sum : List ℕ → ℕ
sum [] = 0
sum (n ∷ ns) = n + sum ns

-- `%w` of an error of a map.
abbrev error_of : MapError → Text
error_of MapError.key_not_exist = codes "key does not exist"
error_of (MapError.failed e) = e

abbrev wrapped : Text → Ip → Text → Text
wrapped what ip e = what ++ (ip_string ip ++ (codes ": " ++ e))

unfoldable pub put_text : Text → Ip → Option MapError → Option Text
unfolding ip_string
put_text what ip none = none
put_text what ip (some e) = some (wrapped what ip (error_of e))

-- A delete of what is not there is no error.
unfoldable pub delete_text : Text → Ip → Option MapError → Option Text
unfolding ip_string
delete_text what ip (some (MapError.failed e)) = some (wrapped what ip e)
delete_text what ip _ = none

module _ {W : Type 0} (m : Maps W) where
  -- `Ban`, which reads neither the duration nor the reason.
  unfoldable pub ban : W → Ip → W × Option Text
  unfolding v4_key v6_key put_text
  ban w ip = elim (v4_key ip) [
    | some k4 ↦ let (w', e) = m.banned_v4.put w k4 in (w', put_text (codes "xdp: ban v4 ") ip e)
    | none ↦ elim (v6_key ip) [
      | none ↦ (w, some (codes "xdp: ban: not a valid IP"))
      | some k6 ↦ let (w', e) = m.banned_v6.put w k6 in (w', put_text (codes "xdp: ban v6 ") ip e)
    ]
  ]

  unfoldable pub unban : W → Ip → W × Option Text
  unfolding v4_key v6_key delete_text
  unban w ip = elim (v4_key ip) [
    | some k4 ↦
        let (w', e) = m.banned_v4.delete w k4 in (w', delete_text (codes "xdp: unban v4 ") ip e)
    | none ↦ elim (v6_key ip) [
      | none ↦ (w, some (codes "xdp: unban: not a valid IP"))
      | some k6 ↦
          let (w', e) = m.banned_v6.delete w k6 in (w', delete_text (codes "xdp: unban v6 ") ip e)
    ]
  ]

  abbrev entry : Ip → Banned
  entry ip = record { ip = ip_string ip; duration = 0 }

  -- `List`; none where a walk fails. Both callers drop the entries that come with an error.
  unfoldable pub list : W → Option (List Banned)
  unfolding ip_string
  list w = elim (m.banned_v4.iterate w).1 [
    | some e ↦ none
    | none ↦ elim (m.banned_v6.iterate w).1 [
      | some e ↦ none
      | none ↦ some (map entry (m.banned_v4.iterate w).0 ++ map entry (m.banned_v6.iterate w).0)
    ]
  ]

  -- `MapEntries`: the sizes, and whether both walks came to their end.
  unfoldable pub map_entries : W → (ℕ × ℕ) × Bool
  map_entries w = elim (m.banned_v4.iterate w).1 [
    | some e ↦ ((length (m.banned_v4.iterate w).0, 0), false)
    | none ↦ (
      (length (m.banned_v4.iterate w).0, length (m.banned_v6.iterate w).0),
      elim (m.banned_v6.iterate w).1 [ none ↦ true | some e ↦ false ],
    )
  ]

  -- `Stats`: packets passed and dropped over all CPUs, and whether both reads went well.
  unfoldable pub stats_of : W → (ℕ × ℕ) × Bool
  stats_of w = elim (m.stats w stat_passed) [
    | none ↦ ((0, 0), false)
    | some passed ↦ elim (m.stats w stat_dropped) [
      | none ↦ ((sum passed, 0), false)
      | some dropped ↦ ((sum passed, sum dropped), true)
    ]
  ]

  -- The enforcer that the daemon sees.
  unfoldable pub xdp_enforcer : Enforcer W
  unfolding ban unban list
  xdp_enforcer = record {
    name = codes "xdp";
    ban = λ w ip d reason. ban w ip;
    unban = unban;
    list = list;
  }
