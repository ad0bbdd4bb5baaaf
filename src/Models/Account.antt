-- ===== src/Models/Account.antt =====
-- GIGVEYRO_Backend/app/enums/account.py and app/models/account.py: the columns that the services
-- read. An identifier (uuid) is a number, since the code only compares them.
use gigveyro.Common.{ℕ, Bool, true, false, Option}

pub data UserRole : Type 0 where
  owner user merchant team_lead : UserRole

abbrev pub eqb_role : UserRole → UserRole → Bool
eqb_role UserRole.owner UserRole.owner = true
eqb_role UserRole.user UserRole.user = true
eqb_role UserRole.merchant UserRole.merchant = true
eqb_role UserRole.team_lead UserRole.team_lead = true
eqb_role _ _ = false

pub record Account : Type 0 where
  pub id : ℕ
  pub role : UserRole
  pub is_active : Bool
  pub team_lead_id : Option ℕ

abbrev pub account_key : Account → ℕ
account_key a = a.id
