-- ===== src/Daemon.antt =====
-- internal/daemon/daemon.go. The channels, tickers and goroutines make the work a sequence of
-- steps, one for each event, threat and tick. Logs, metrics and the panic boundaries are left
-- out. `W` is the state of what the program reaches outside of its database: the firewall, the
-- kernel's maps, the mail server.
pub mod Pipeline
pub mod Bans
pub mod Restore
pub mod Setup
pub mod Reconcile
pub mod Drift
pub mod Backlog
pub mod Expiry
pub mod Closing
pub mod Safety
mod Tests
use sipreaper.Common.{ℕ, Bool, List, Option, none, some, Text}
use sipreaper.Action.{Enforcer, Banned}
use sipreaper.Decision.{Engine}
use sipreaper.Models.{NotifyEvent}
use sipreaper.Net.{Ip}
use sipreaper.Store.{Store}
use sipreaper.Whitelist.{Whitelist}

-- The interface `Notifier`.
pub record Notifier (W : Type 0) : Type 0 where
  pub name : Text
  pub notify : W → NotifyEvent → W × Option Text

-- The XDP enforcer, as the daemon uses it.
pub record Xdp (W : Type 0) : Type 0 where
  pub enforcer : Enforcer W
  pub close : W → W × Option Text

-- The fields of `Daemon` that its steps read; `detachXDP` alone swaps some of them.
pub record Daemon (W : Type 0) : Type 0 where
  pub engine : Engine
  pub whitelist : Whitelist
  pub enforcer : Option (Enforcer W)
  pub base : Enforcer W
  pub xdp : Option (Xdp W)
  pub notifiers : List (Notifier W)

-- What the steps change.
pub record Host (W : Type 0) : Type 0 where
  pub world : W
  pub store : Store
