-- ===== src/Action/Firewall.antt =====
-- internal/action: how iptables.go makes and lists its chain, ipset.go, and prefilter.go. The tools
-- are the arguments `iptables` and `ipset`, from their arguments and the state of the firewall to
-- the new state and their output, or none where they fail.
use sipreaper.Common.{
  ℕ, ltb, leb, if◌then◌else◌, Bool, true, false, ◌&&◌, ◌||◌, not, List, [], ◌∷◌, ◌++◌, Option, none,
  some, Text, codes, text_eq, trim_space, is_empty, length, get_elem?,
}
use mathlib.Core.Option
use sipreaper.Action.Iptables.{with_lock}
use sipreaper.Action.{Banned, Enforcer}
use sipreaper.Fmt.{decimal}
use sipreaper.Net.{Ip, ip_string}
use sipreaper.Strings.{split, fields}

abbrev pub Exec : Type 0 → Type 0
Exec W = W → List Text → W × Option Text

abbrev pub entry : Text → Banned
entry ip = record { ip = ip; duration = 0 }

abbrev pub word : ℕ → List Text → Text
word i ws = Option.get_or (get_elem? ws i) []

-- The loop of iptables' `List` over the lines of the chain.
unfoldable pub chain_entries : List Text → List Banned
unfolding fields text_eq
chain_entries [] = []
chain_entries (line ∷ lines) =
    let rest = chain_entries lines in
    let ws = fields line in
    if leb 5 (length ws) && text_eq (word 1 ws) (codes "DROP")
    then entry (word 4 ws) ∷ rest
    else rest

-- The loop of ipset's `List`, by whether the line of the members has passed.
unfoldable pub member_entries : Bool → List Text → List Banned
unfolding fields text_eq trim_space
member_entries inside [] = []
member_entries inside (l ∷ lines) =
    let line = trim_space l in
    let there = member_entries true lines in
    let further = member_entries inside lines in
    if text_eq line (codes "Members:")
    then there
    else if not inside || is_empty line
    then further
    else entry (word 0 (fields line)) ∷ further

abbrev match_rule : Text → Text → Text → List Text
match_rule flag chain set =
    flag
    ∷ chain
    ∷ codes "-m"
    ∷ codes "set"
    ∷ codes "--match-set"
    ∷ set
    ∷ codes "src"
    ∷ codes "-j"
    ∷ codes "DROP"
    ∷ []

-- The arguments of the rule of one port, after those that place it.
abbrev pub limit_rule : ℕ → ℕ → ℕ → List Text
limit_rule rate burst port =
    codes "-p"
    ∷ codes "udp"
    ∷ codes "--dport"
    ∷ decimal port
    ∷ codes "-m"
    ∷ codes "string"
    ∷ codes "--algo"
    ∷ codes "bm"
    ∷ codes "--string"
    ∷ codes "INVITE sip:"
    ∷ codes "--to"
    ∷ codes "100"
    ∷ codes "-m"
    ∷ codes "hashlimit"
    ∷ codes "--hashlimit-mode"
    ∷ codes "srcip"
    ∷ codes "--hashlimit-name"
    ∷ (codes "sipreaper-invite-" ++ decimal port)
    ∷ codes "--hashlimit-above"
    ∷ (decimal rate ++ codes "/sec")
    ∷ codes "--hashlimit-burst"
    ∷ decimal burst
    ∷ codes "-j"
    ∷ codes "DROP"
    ∷ []

module _ {W : Type 0} (iptables : Exec W) where
  abbrev pub try : W → List Text → W × Option Text
  try w args = iptables w (with_lock args)

  -- A rule that is checked for, and made where the check fails: whether it is there then.
  unfoldable pub ensure : W → List Text → List Text → W × Bool
  ensure w check make =
      let (w1, found) = try w check in
      let (w2, made) = try w1 make in
      elim found [
        | some out ↦ (w1, true)
        | none ↦ elim made [ some out ↦ (w2, true) | none ↦ (w2, false) ]
      ]

  -- The chain, linked from INPUT.
  unfoldable pub link_chain : Text → W → W × Option Text
  unfolding ensure
  link_chain chain w =
      let (w1, made) = try w (codes "-N" ∷ chain ∷ []) in
      let (w2, linked) =
        ensure w1 (codes "-C" ∷ codes "INPUT" ∷ codes "-j" ∷ chain ∷ [])
          (codes "-I" ∷ codes "INPUT" ∷ codes "-j" ∷ chain ∷ []) in
      (w2, if linked then none else some (codes "linking chain " ++ (chain ++ codes " to INPUT")))

  -- iptables' `List`.
  unfoldable pub list_chain : Text → W → Option (List Banned)
  unfolding chain_entries split
  list_chain chain w =
      elim (try w (codes "-L" ∷ chain ∷ codes "-n" ∷ codes "--line-numbers" ∷ [])).1 [
        | none ↦ none
        | some out ↦ some (chain_entries (split out (codes "\n")))
      ]

  module _ (ipset : Exec W) (set chain : Text) where
    -- ipset's `Init`.
    unfoldable pub init_set : W → W × Option Text
    unfolding link_chain ensure
    init_set w =
        let (w1, created) = ipset w (
          codes "create"
          ∷ set
          ∷ codes "hash:net"
          ∷ codes "family"
          ∷ codes "inet"
          ∷ codes "-exist"
          ∷ []) in
        let (w2, unlinked) = link_chain chain w1 in
        let (w3, matching) =
          ensure w2 (match_rule (codes "-C") chain set) (match_rule (codes "-A") chain set) in
        elim created [
          | none ↦ (w1, some (codes "ipset create " ++ set))
          | some out ↦ elim unlinked [
            | some e ↦ (w2, some e)
            | none ↦ (w3, if matching then none else some (codes "adding ipset match rule"))
          ]
        ]

    abbrev change : Text → W → Ip → W × Option Text
    change verb w ip =
        let (w1, out) = ipset w (verb ∷ set ∷ ip_string ip ∷ codes "-exist" ∷ []) in
        (
          w1,
          elim out [
            | some t ↦ none
            | none ↦ some (codes "ipset " ++ (verb ++ (codes " " ++ ip_string ip)))
          ],
        )

    -- `IPSetEnforcer`, with its methods.
    unfoldable pub ipset_enforcer : Enforcer W
    unfolding member_entries split ip_string
    ipset_enforcer = record {
      name = codes "ipset";
      ban = λ w ip d reason. change (codes "add") w ip;
      unban = λ w ip. change (codes "del") w ip;
      list = λ w. elim (ipset w (codes "list" ∷ set ∷ [])).1 [
        | none ↦ none
        | some out ↦ some (member_entries false (split out (codes "\n")))
      ];
    }

  -- The loop of `Apply`.
  unfoldable pub apply_ports : Text → ℕ → ℕ → W → List ℕ → W × Option Text
  unfolding ensure decimal
  apply_ports chain rate burst w [] = (w, none)
  apply_ports chain rate burst w (port ∷ ports) =
      let args = codes "-I" ∷ chain ∷ codes "1" ∷ limit_rule rate burst port in
      let check = codes "-C" ∷ chain ∷ codes "1" ∷ limit_rule rate burst port in
      let (w1, there) = ensure w check args in
      let rest = apply_ports chain rate burst w1 ports in
      if there
      then rest
      else (w1, some (codes "installing prefilter rule on port " ++ decimal port))

  -- `Apply`, of numbers that are not negative.
  unfoldable pub apply : Text → ℕ → ℕ → List ℕ → W → W × Option Text
  unfolding apply_ports
  apply chain rate burst ports w =
      if ltb rate 1 || ltb burst 1
      then (w, some (codes "invalid prefilter rate/burst"))
      else if is_empty ports
      then (w, some (codes "prefilter: no ports configured"))
      else apply_ports chain rate burst w ports
