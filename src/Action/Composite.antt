-- ===== src/Action/Composite.antt =====
-- internal/action/composite.go: one ban in several backends.
use sipreaper.Common.{
  ℕ, ◌≡◌, ◌≢◌, ◌⊎◌, inl, inr, List, [], ◌∷◌, ◌++◌, Option, none, some, arith, Text, codes,
  Option-cases,
}
use sipreaper.Action.{Enforcer, Banned, join_errors}
use sipreaper.Net.{Ip, join}

module _ {W : Type 0} where
  -- The loop over the members: the last state, and the errors in order.
  pub ban_all : List (Enforcer W) → W → Ip → ℕ → Text → W × List Text
  ban_all [] w ip d reason = (w, [])
  ban_all (m ∷ ms) w ip d reason =
      let (w', failure) = m.ban w ip d reason in
      let (w'', errs) = ban_all ms w' ip d reason in
      (w'', elim failure [ none ↦ errs | some e ↦ e ∷ errs ])

  pub unban_all : List (Enforcer W) → W → Ip → W × List Text
  unban_all [] w ip = (w, [])
  unban_all (m ∷ ms) w ip =
      let (w', failure) = m.unban w ip in
      let (w'', errs) = unban_all ms w' ip in
      (w'', elim failure [ none ↦ errs | some e ↦ e ∷ errs ])

  -- `List`: the first member's view.
  abbrev pub list_first : List (Enforcer W) → W → Option (List Banned)
  list_first [] w = some []
  list_first (m ∷ ms) w = m.list w

  names : List (Enforcer W) → List Text
  names [] = []
  names (m ∷ ms) = m.name ∷ names ms

  -- `NewCompositeEnforcer`, with its methods.
  unfoldable pub composite : List (Enforcer W) → Enforcer W
  unfolding ban_all unban_all names join
  composite ms = record {
    name = codes "composite(" ++ (join b',' (names ms) ++ codes ")");
    ban = λ w ip d reason. let (w', errs) = ban_all ms w ip d reason in (w', join_errors errs);
    unban = λ w ip. let (w', errs) = unban_all ms w ip in (w', join_errors errs);
    list = list_first ms;
  }

  -- No member's ban undoes what holds.
  abbrev pub Undisturbed : (W → Type 0) → Ip → ℕ → Text → List (Enforcer W) → Type 0
  Undisturbed drops ip d reason [] = Unit
  Undisturbed drops ip d reason (n ∷ ns) =
      ((w : W) → drops w → drops (n.ban w ip d reason).0) × Undisturbed drops ip d reason ns

  module _ (m : Enforcer W) (drops : W → Type 0) (ip : Ip) (d : ℕ) (reason : Text)
      (enforced : (w : W) → (m.ban w ip d reason).1 ≡ none → drops (m.ban w ip d reason).0)
      (after : List (Enforcer W)) (kept : Undisturbed drops ip d reason after) where
    ban_all-keeps :
        (ns : List (Enforcer W)) (w : W)
        → Undisturbed drops ip d reason ns
        → drops w
        → drops (ban_all ns w ip d reason).0
    unfolding ban_all
    ban_all-keeps [] w u h = h
    ban_all-keeps (n ∷ ns) w (k, u) h = ban_all-keeps ns (n.ban w ip d reason).0 u (k w h)

    ban_all-reaches :
        (before : List (Enforcer W)) (w : W)
        → drops (ban_all (before ++ m ∷ after) w ip d reason).0
          ⊎ (((m.ban (ban_all before w ip d reason).0 ip d reason).1 ≢ none)
              × (join_errors (ban_all (before ++ m ∷ after) w ip d reason).1 ≢ none))
    unfolding ban_all
    ban_all-reaches [] w =
        let turn = m.ban w ip d reason in
        elim (Option-cases turn.1) [
          | inl fine ↦ inl (ban_all-keeps after turn.0 kept (enforced w fine))
          | inr (e, failed) ↦ inr (ground (arith, failed), ground (arith, failed))
        ]
    ban_all-reaches (b ∷ before) w =
        let turn = b.ban w ip d reason in
        elim (ban_all-reaches before turn.0) [
          | inl dropped ↦ inl dropped
          | inr (failed, reported) ↦ inr (failed, ground (arith, Option-cases turn.1, reported))
        ]

    -- A composite ban gives every member its turn, whatever the members before it answer: in the
    -- end the member drops the address, or it failed in its turn and the composite reports an
    -- error. The member is such that its ban, if it reports no error, makes it drop the address,
    -- and the bans of the members after it do not undo that.
    pub composite-reaches :
        (before : List (Enforcer W)) (w : W)
        → drops ((composite (before ++ m ∷ after)).ban w ip d reason).0
          ⊎ (((m.ban ((composite before).ban w ip d reason).0 ip d reason).1 ≢ none)
              × (((composite (before ++ m ∷ after)).ban w ip d reason).1 ≢ none))
    unfolding composite
    composite-reaches = ban_all-reaches
