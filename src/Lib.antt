-- ===== src/Lib.antt =====
-- Verification of the money core of the GIGVEYRO backend, GIGVEYRO_Backend/app: the wallets of users
-- and merchants, the ledger that records every movement, the settlement of deals, the requests to
-- withdraw money, and the risk guard.
--
-- The program. A merchant creates a deal; a user accepts it, which freezes the amount in the user's
-- wallet; the deal is then completed (the frozen amount is split between the merchant, the user and
-- the platform, and a team lead may get a bonus) or cancelled (the amount is released); an appeal puts
-- it in dispute, until its opener takes it back or the owner resolves it in one of these two ways.
-- Withdrawals hold an amount, and then pay or release it; deposits fill an insurance reserve up to
-- its target and then the available balance; the owner adjusts balances. Each movement changes one wallet row and
-- adds one ledger row with the balances before and after; a movement that belongs to a deal, a
-- withdrawal or a deposit looks up the ledger first, so that a retry returns the row on record. A
-- merchant, a user or a team lead requests a withdrawal, which the risk guard may refuse and which
-- reserves the amount; the requester may cancel it, and the owner approves, rejects or pays it. The
-- guard compares the treasury's external funds with a reserve for all liabilities, under the active
-- risk policy.
--
-- The modules.
--   Common      the shared names, the Boolean tests, signed integers over the native numbers (Int),
--               and a table as the list of its rows (Table).
--   Models      the rows and enums of app/models and app/enums: Account, Wallet, Ledger, Deal, Fees,
--               Withdrawal, Risk, Appeal.
--   Db          the session of a request: the tables, the exceptions, the action monad, and `request`,
--               the commit or rollback of app/db/session.py. Db.Queries, DealQueries,
--               WithdrawalQueries, RiskQueries and AppealQueries are the queries and flushes of
--               app/repositories, with the constraints of app/models.
--   Wallet      app/services/wallet.py. Wallet.Common, Deals, Withdrawals and Credits are its methods,
--               each with its guards, look-ups, flushes and rows in the order of the code. Posting is
--               the abstract view of a movement, with the rules for how a method ends; the modules
--               Outcome, Settlement and Adjustment apply them to each method; Success, RoundTrips
--               and MerchantRoundTrips say when the main methods succeed; Retries is about second
--               calls; Calls is about any sequence of requests: its steps (Evolution, Recorded), their effect on
--               settlements (Settlements), their soundness (Soundness, Requests), and what the ledger
--               says of the balances (Reconciliation, MerchantReconciliation, Books).
--   Deal        app/services/deal.py: the transitions (Deal, Lifecycle), the split (Split), and the
--               settlement, cancellation and expiry (Service, Profit, Session, Payment, Outcome, Final). It
--               uses Wallet.Deals as the code uses WalletService.
--   Appeal      app/services/appeal.py: the opening, the cancellation, the review and the resolution of
--               an appeal. A resolution settles or releases the deal as Deal does (Outcome);
--               Cancellation is about an appeal that its opener takes back (Opening).
--   Risk        app/services/risk.py: the snapshot of the treasury and the decision on its reserve
--               (Risk, Reserve, Coverage), the guard (Guard, Passing), and the policies (Policies,
--               Activation).
--   Withdrawal  app/services/withdrawal.py, user_withdrawal.py and team_lead_withdrawal.py. What the
--               three services do alike is in Requests, on the table and the methods of WalletService
--               that each passes; Merchant, User and TeamLead are their methods. Calls is about the
--               methods on a request on record: what the ledger says of it (Tracking), what is asked of
--               a method of WalletService (Movements, an interface that the three theorems of Wallet
--               fill), and how the methods end (Closing, Outcome, Effects, Sequences). Creation is the
--               creation of a request (Insertion, Outcome), and Address the check of a TRON address of
--               app/services/payout_live/bybit.py.
--   Tests       a small session, on which the theorems are applied.
--
-- How the code corresponds. An amount of money is an integer of 0.00000001 units, the scale of
-- NUMERIC(20, 8); a Decimal argument is such an integer or is not finite. Identifiers, times and
-- idempotency keys are numbers, since the code only compares them. A service method is a function from
-- the session to a result and a session; an exception keeps what was written before it, so that a
-- method writes nothing when it raises is proved and not built in. A check constraint or a unique
-- constraint is a test of the flush that raises IntegrityError, a value out of the column's range
-- raises DataError, and a query for at most one row raises on two. The percentages are those of
-- app/core/config.py. No definition runs on fuel.
--
-- What is taken as given. Requests run one after the other: the row locks that the methods take make
-- them so for one wallet. Amounts have at most eight fractional digits. The random identifiers of new
-- requests are arguments, and the theorems on a creation ask that the identifier is new; those of other
-- rows, the texts of exceptions, and the rows of the realtime and notification outboxes are left out.
-- The withdrawal services have a risk guard, as their callers
-- pass one. The SHA-256 function of hashlib is a parameter, of which nothing is asked, and so are the controlled
-- payouts of a merchant's request, which are asked to write to none of these tables. SQLAlchemy raises
-- PendingRollbackError on a flush after a failed one, which ends the loop of three insertions.
--
-- What is not modelled. The creation and the acceptance of a deal, fee policies, fiat
-- wallets, the matching of deposits, payouts and invoices: they call the core above, or stand beside it.
-- The HTTP API, the workers, the bot, the network clients, login, notifications and the frontend are
-- input and output around this core.
pub mod Common
pub mod Models
pub mod Db
pub mod Wallet
pub mod Deal
pub mod Appeal
pub mod Risk
pub mod Withdrawal
pub mod Tests
