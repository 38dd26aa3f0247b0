-- ===== src/Action.antt =====
-- internal/action: the enforcers. What the firewall tools and the kernel hold is a state `W` that
-- the program does not implement; an error is its text.
pub mod Composite
pub mod Iptables
pub mod Firewall
pub mod Prefilter
pub mod Email
mod Tests
use sipreaper.Common.{ℕ, List, [], ◌∷◌, ◌++◌, Option, none, some, Text, codes}
use sipreaper.Net.{Ip, join}

-- `action.BanEntry`: an active ban in the enforcer.
pub record Banned : Type 0 where
  pub ip : Text
  pub duration : ℕ

-- The interface `Enforcer`.
pub record Enforcer (W : Type 0) : Type 0 where
  pub name : Text
  pub ban : W → Ip → ℕ → Text → W × Option Text
  pub unban : W → Ip → W × Option Text
  pub list : W → Option (List Banned)

-- `errors.Join`: none if there is no error, else the texts on lines of their own.
abbrev pub join_errors : List Text → Option Text
join_errors [] = none
join_errors (e ∷ es) = some (join b'\n' (e ∷ es))
