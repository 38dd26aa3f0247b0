-- ===== src/Action/Prefilter.antt =====
-- internal/action/prefilter.go: what applying the limits again does.
use sipreaper.Common.{
  ◌⊎◌, ◌≢◌, ◌<◌, Bool, Option, ℕ, ◌+◌, ◌≤◌, ◌≡◌, true, false, List, ◌∷◌, none, some, Text, codes,
}
use sipreaper.Action.Firewall.{Exec}

-- What the tool documents: a check takes a rule and no rule number, so one with a number fails and
-- changes nothing; an insertion adds a rule, or fails and adds none.
pub record Documented {W : Type 0} (iptables : Exec W) (rules : W → ℕ) : Type 0 where
  pub numbered_check :
      (w : W) (chain : Text) (rule : List Text)
      → iptables w (codes "-w" ∷ codes "10" ∷ codes "-C" ∷ chain ∷ codes "1" ∷ rule) ≡ (w, none)
  pub insertion :
      (w : W) (chain : Text) (rule : List Text)
      → (w' : W) × (((out : Text) × (iptables w
                (codes "-w" ∷ codes "10" ∷ codes "-I" ∷ chain ∷ codes "1" ∷ rule)
              ≡ (w', some out))
            × (rules w' ≡ rules w + 1))
          ⊎ ((iptables w (codes "-w" ∷ codes "10" ∷ codes "-I" ∷ chain ∷ codes "1" ∷ rule)
                ≡ (w', none))
              × (rules w' ≡ rules w)))

-- Every one of `n` rules was added, or an error is reported and some are missing.
abbrev pub Applied : {W : Type 0} → (W → ℕ) → ℕ → W → W × Option Text → Type 0
Applied rules n w r =
    ((r.1 ≡ none) × (rules r.0 ≡ rules w + n))
    ⊎ ((r.1 ≢ none) × (rules w ≤ rules r.0) × (rules r.0 < rules w + n))

module _ {W : Type 0} (iptables : Exec W) (rules : W → ℕ) (doc : Documented iptables rules) where
  -- The rule is there, and one more than before, or it is missing, and there are as many.
  abbrev Ensured : W → W × Bool → Type 0
  Ensured w r = ((r.1 ≡ true) × (rules r.0 ≡ rules w + 1)) ⊎ ((r.1 ≡ false) × (rules r.0 ≡ rules w))
