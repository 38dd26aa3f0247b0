-- ===== src/Action/Iptables.antt =====
-- internal/action/iptables.go. The command `iptables` is the argument `run`, from its arguments
-- and the state of the firewall to the new state and whether it succeeded. The texts of the errors
-- end before the part that the command adds.
use sipreaper.Common.{
  ℕ, zero, suc, ◌+◌, ◌-◌, ◌<◌, ltb, if◌then◌else◌, ◌≡◌, Bool, true, List, [], ◌∷◌, ◌++◌, Option,
  none, some, arith, Text, codes,
}
use sipreaper.Net.{Ip, ip_string}

abbrev pub Run : Type 0 → Type 0
Run W = W → List Text → W × Bool

-- `iptablesCmd`.
abbrev pub with_lock : List Text → List Text
with_lock args = codes "-w" ∷ codes "10" ∷ args

abbrev rule : Text → Text → Ip → List Text
rule flag chain ip = flag ∷ chain ∷ codes "-s" ∷ ip_string ip ∷ codes "-j" ∷ codes "DROP" ∷ []

abbrev pub ban_args : Text → Ip → List Text
ban_args = rule (codes "-A")

abbrev pub check_args : Text → Ip → List Text
check_args = rule (codes "-C")

abbrev pub unban_args : Text → Ip → List Text
unban_args = rule (codes "-D")

module _ {W : Type 0} (run : Run W) (chain : Text) where
  abbrev pub checks : Ip → W → W × Bool
  checks ip w = run w (with_lock (check_args chain ip))

  unfoldable pub ban : W → Ip → ℕ → Text → W × Option Text
  ban w ip duration reason =
      let (w', present) = checks ip w in
      if present
      then (w', none)
      else let (w'', added) = run w' (with_lock (ban_args chain ip)) in
        (w'', if added then none else some (codes "iptables ban " ++ ip_string ip))

  -- The rounds that are left of the loop of `Unban`.
  unfoldable pub unban_rounds : ℕ → W → Ip → W × Option Text
  unban_rounds zero w ip = (
    w,
    some (codes "iptables unban " ++ (ip_string ip ++ codes ": exceeded duplicate removal limit")),
  )
  unban_rounds (suc n) w ip =
      let (w', present) = checks ip w in
      let (w'', removed) = run w' (with_lock (unban_args chain ip)) in
      let (w3, still) = checks ip w'' in
      let next = unban_rounds n w'' ip in
      if present
      then if removed
        then next
        else (w3, if still then some (codes "iptables unban " ++ ip_string ip) else none)
      else (w', none)

  unfoldable pub unban : W → Ip → W × Option Text
  unban w ip = unban_rounds 10_000 w ip

  -- What the tool documents of the three commands, for the number of DROP rules of an address in
  -- the chain: a check changes nothing and finds a rule if there is one; adding and deleting
  -- change the number by one if they succeed, and nothing if they fail.
  pub record Documented (rules : W → Ip → ℕ) : Type 0 where
    pub check_keeps : (ip : Ip) (w : W) → (checks ip w).0 ≡ w
    pub check_finds : (ip : Ip) (w : W) → (checks ip w).1 ≡ ltb 0 (rules w ip)
    pub add_effect :
        (ip : Ip) (w : W)
        → rules (run w (with_lock (ban_args chain ip))).0 ip
          ≡ (if (run w (with_lock (ban_args chain ip))).1 then rules w ip + 1 else rules w ip)
    pub delete_effect :
        (ip : Ip) (w : W)
        → rules (run w (with_lock (unban_args chain ip))).0 ip
          ≡ (if (run w (with_lock (unban_args chain ip))).1 then rules w ip - 1 else rules w ip)

  module _ (rules : W → Ip → ℕ) (doc : Documented rules) (ip : Ip) where
    -- A ban that reports no error leaves the address with a rule.
    pub ban-rules :
        (w : W) (d : ℕ) (reason : Text)
        → (ban w ip d reason).1 ≡ none
        → 0 < rules (ban w ip d reason).0 ip
    unfolding ban
    ban-rules w d reason h =
        ground
          (arith, doc.check_keeps ip w, doc.check_finds ip w, doc.add_effect ip (checks ip w).0)

    -- A ban of an address that has a rule already adds none, and reports no error.
    pub ban_again :
        (w : W) (d : ℕ) (reason : Text)
        → 0 < rules w ip
        → (rules (ban w ip d reason).0 ip ≡ rules w ip) × ((ban w ip d reason).1 ≡ none)
    unfolding ban
    ban_again w d reason h = ground (arith, doc.check_keeps ip w, doc.check_finds ip w)

    unban_rounds-rules :
        (n : ℕ) (w : W) → (unban_rounds n w ip).1 ≡ none → rules (unban_rounds n w ip).0 ip ≡ 0
    unfolding unban_rounds
    unban_rounds-rules zero w h = absurd (cc h)
    unban_rounds-rules (suc n) w h =
        let next = unban_rounds-rules n (run (checks ip w).0 (with_lock (unban_args chain ip))).0 in
        let after = (run (checks ip w).0 (with_lock (unban_args chain ip))).0 in
        ground (
          arith,
          doc.check_keeps ip w,
          doc.check_finds ip w,
          doc.check_keeps ip after,
          doc.check_finds ip after,
          next,
        )

    -- An unban that reports no error leaves no rule of the address behind, however often the
    -- address had been added.
    pub unban-rules : (w : W) → (unban w ip).1 ≡ none → rules (unban w ip).0 ip ≡ 0
    unfolding unban
    unban-rules w h = unban_rounds-rules 10_000 w h

    unban_rounds-none :
        (n : ℕ) (w : W)
        → ((v : W) → 0 < rules v ip → (run v (with_lock (unban_args chain ip))).1 ≡ true)
        → rules w ip < n
        → (unban_rounds n w ip).1 ≡ none
    unfolding unban_rounds
    unban_rounds-none zero w deletes h = absurd (omega (arith, h))
    unban_rounds-none (suc n) w deletes h =
        let after = (run (checks ip w).0 (with_lock (unban_args chain ip))).0 in
        let next = unban_rounds-none n after deletes in
        ground (
          arith,
          doc.check_keeps ip w,
          doc.check_finds ip w,
          doc.delete_effect ip w,
          deletes w,
          next,
        )

    -- Where the tool deletes a rule that is there, an unban of an address with fewer than 10,000
    -- rules comes to its end within its rounds: it reports no error, and no rule is left.
    pub unban-none :
        (w : W)
        → ((v : W) → 0 < rules v ip → (run v (with_lock (unban_args chain ip))).1 ≡ true)
        → rules w ip < 10_000
        → ((unban w ip).1 ≡ none) × (rules (unban w ip).0 ip ≡ 0)
    unfolding unban
    unban-none w deletes few =
        let done = unban_rounds-none 10_000 w deletes few in
        (done, unban_rounds-rules 10_000 w done)
