-- ===== src/Withdrawal/Calls.antt =====
-- The three services as the owner and the requesters see them: one call to a request.
pub mod Tracking
pub mod Movements
pub mod Closing
pub mod Outcome
pub mod Effects
pub mod Sequences
use gigveyro.Common.{ℕ, Option, List, [], ◌∷◌}
use gigveyro.Models.Withdrawal.{Text, Withdrawal}
use gigveyro.Db.{Db, Action, request}
use gigveyro.Db.WithdrawalQueries.{
  WithdrawalTable, merchant_withdrawals, user_withdrawals, team_lead_withdrawals,
}
use gigveyro.Withdrawal.Merchant
use gigveyro.Withdrawal.User
use gigveyro.Withdrawal.TeamLead

-- Whose requests: a merchant's, a user's or a team lead's.
pub data Kind : Type 0 where
  merchant user team_lead : Kind

abbrev pub table : Kind → WithdrawalTable
table merchant = merchant_withdrawals
table user = user_withdrawals
table team_lead = team_lead_withdrawals

-- A call: the clock, the actor and the request acted on, and the owner's comment.
pub data Call : Type 0 where
  cancel : Kind → ℕ → ℕ → ℕ → Call
  approve reject mark_paid : Kind → ℕ → ℕ → ℕ → Option Text → Call

unfoldable pub act : Call → Action Withdrawal
act (cancel merchant now account_id id) = Merchant.cancel_by_merchant now account_id id
act (cancel user now account_id id) = User.cancel_by_user now account_id id
act (cancel team_lead now account_id id) = TeamLead.cancel_by_team_lead now account_id id
act (approve merchant now owner_id id c) = Merchant.approve_by_owner now owner_id id c
act (approve user now owner_id id c) = User.approve_by_owner now owner_id id c
act (approve team_lead now owner_id id c) = TeamLead.approve_by_owner now owner_id id c
act (reject merchant now owner_id id c) = Merchant.reject_by_owner now owner_id id c
act (reject user now owner_id id c) = User.reject_by_owner now owner_id id c
act (reject team_lead now owner_id id c) = TeamLead.reject_by_owner now owner_id id c
act (mark_paid merchant now owner_id id c) = Merchant.mark_paid_by_owner now owner_id id c
act (mark_paid user now owner_id id c) = User.mark_paid_by_owner now owner_id id c
act (mark_paid team_lead now owner_id id c) = TeamLead.mark_paid_by_owner now owner_id id c

-- The session after a request, and after a sequence of them.
unfoldable pub serve : Call → Db → Db
serve c db = (request (act c) db).1

unfoldable pub serve_all : List Call → Db → Db
serve_all [] db = db
serve_all (c ∷ cs) db = serve_all cs (serve c db)
