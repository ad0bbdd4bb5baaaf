-- ===== src/Withdrawal/Requests.antt =====
-- What the three services of withdrawal requests do alike, on their table and with their methods of
-- WalletService. The notification and the realtime event of a change are left out: they are rows of
-- outboxes.
use gigveyro.Common.{ℕ, not, ◌==◌, Option, none, some, [], ◌∷◌, if◌then◌else◌}
use gigveyro.Models.Wallet.{Decimal, finite}
use gigveyro.Models.Ledger.{LedgerEntry}
use gigveyro.Models.Withdrawal.{
  Text, Withdrawal, WithdrawalStatus, is_pending, is_approved, is_paid, is_rejected, is_cancelled,
  approved, paid, rejected, cancelled,
}
use gigveyro.Db.{
  Action, pure, ◌>>=◌, ◌>>◌, raise_if, withdrawal_not_found, invalid_withdrawal_transition,
}
use gigveyro.Db.WithdrawalQueries.{WithdrawalTable, save_withdrawal}
use gigveyro.Withdrawal.{transition_withdrawal}

-- `if comment: withdrawal.owner_comment = comment`
abbrev pub with_comment : Option Text → Withdrawal → Withdrawal
with_comment none w = w
with_comment (some []) w = w
with_comment (some (c ∷ cs)) w = record w { owner_comment = some (c ∷ cs) }

-- The methods of WalletService that move the reserved amount.
abbrev pub Movement : Type 0
Movement = ℕ → Decimal → ℕ → ℕ → Action LedgerEntry

module _ (T : WithdrawalTable) where
  -- The last statements of a transition.
  unfoldable pub close : ℕ → Withdrawal → WithdrawalStatus → ℕ → Action Withdrawal
  close now w s actor_id = do
    saved ← transition_withdrawal now w s actor_id
    save_withdrawal T saved
    pure saved

  -- A transition that moves the amount of the request first.
  unfoldable pub move_and_close :
      Movement → ℕ → ℕ → Withdrawal → WithdrawalStatus → ℕ → Action Withdrawal
  move_and_close move now account_id w s actor_id = do
    move account_id (finite w.amount) w.id actor_id
    close now w s actor_id

  unfoldable pub cancel_locked : Movement → ℕ → ℕ → Withdrawal → Action Withdrawal
  cancel_locked release now account_id w = do
    raise_if (not (w.account_id == account_id)) withdrawal_not_found
    if is_cancelled w.status then pure w else (do
      raise_if (not (is_pending w.status)) invalid_withdrawal_transition
      move_and_close release now account_id w cancelled account_id)

  unfoldable pub approve_locked : ℕ → ℕ → Option Text → Withdrawal → Action Withdrawal
  approve_locked now owner_id comment w = if is_approved w.status then pure w else (do
    raise_if (not (is_pending w.status)) invalid_withdrawal_transition
    close now (with_comment comment w) approved owner_id)

  unfoldable pub reject_locked : Movement → ℕ → ℕ → Option Text → Withdrawal → Action Withdrawal
  reject_locked release now owner_id comment w = if is_rejected w.status then pure w else (do
    raise_if (not (is_pending w.status)) invalid_withdrawal_transition
    move_and_close release now w.account_id (with_comment comment w) rejected owner_id)

  unfoldable pub mark_paid_locked : Movement → ℕ → ℕ → Option Text → Withdrawal → Action Withdrawal
  mark_paid_locked pay now owner_id comment w = if is_paid w.status then pure w else (do
    raise_if (not (is_approved w.status)) invalid_withdrawal_transition
    move_and_close pay now w.account_id (with_comment comment w) paid owner_id)
