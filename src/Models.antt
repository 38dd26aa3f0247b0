-- ===== src/Models.antt =====
-- internal/models: what the components pass to one another. Times and durations are nanoseconds.
use sipreaper.Common.{ℕ, Bool, Option, Text}
use sipreaper.Net.{Ip}

pub record SipEvent : Type 0 where
  pub timestamp : ℕ
  pub source_ip : Ip
  pub method : Text
  pub user_agent : Text
  pub from_user : Text
  pub to_user : Text
  pub call_id : Text
  pub response_code : ℕ
  pub source : Text
  pub is_response : Bool
  pub rejected : Bool
  pub reject_reason : Text

pub record Threat : Type 0 where
  pub timestamp : ℕ
  pub source_ip : Ip
  pub detector : Text
  pub severity : Text
  pub description : Text
  pub event_count : ℕ
  pub window : ℕ

pub record BanAction : Type 0 where
  pub ip : Ip
  pub duration : ℕ
  pub reason : Text
  pub detector : Text
  pub severity : Text
  pub ban_count : ℕ

-- The country fields, which the API adds to a row on its way out, are left out.
pub record BanEntry : Type 0 where
  pub id : ℕ
  pub ip : Text
  pub detector : Text
  pub reason : Text
  pub severity : Text
  pub banned_at : ℕ
  pub duration : ℕ
  pub expires_at : Option ℕ
  pub ban_count : ℕ
  pub status : Text

pub record NotifyEvent : Type 0 where
  pub type : Text
  pub ip : Text
  pub detector : Text
  pub severity : Text
  pub duration : ℕ
  pub reason : Text
  pub timestamp : ℕ

pub record WhitelistEntry : Type 0 where
  pub id : ℕ
  pub ip_cidr : Text
  pub comment : Text
  pub source : Text
  pub created_at : ℕ
