-- ===== src/Lib.antt =====
-- Aureum, a personal finance platform: services with a domain model each (apps/*-svc), which share
-- packages (pkg). This library models the domain models, the payments and purchases of the credit
-- card service and the requests of the debt service down to the rows of their tables, the roles and
-- accounts of the identity service, the projections of the report service, and the publisher of the
-- outbox.
--
-- The parts. A request reaches a service, whose application layer reads rows from its database,
-- builds a domain value, calls one of its methods, and writes the result together with an event in
-- one transaction. The publisher of the outbox later sends the events to Kafka. The rules on amounts,
-- dates, statuses and permissions are in the domain packages, except for the check of the credit of a
-- card and its return, which the application layer makes.
--
-- CreditCard: apps/creditcard-svc/internal/domain.
--   CreditCard.Card is credit_card.go (`NewCreditCard`, `ApplyUpdate`), CreditCard.Invoice invoice.go
--   (`NewInvoice`, `AddTransactionAmount`, `Pay`, `TransitionStatus`), CreditCard.Purchase
--   invoice_transaction.go. CreditCard.Month is `isValidMonth` of invoice.go and `nextReferenceMonth`
--   of internal/application/service.go, with `time.Parse` and `Format` at its layout. Card.Limits, Invoice.Payments, Invoice.Status and
--   Month.Calendar prove what these do. CreditCard.Tables holds the rows and the statements of
--   internal/infrastructure/persistence, and CreditCard.PayInvoice and CreditCard.AddTransaction are
--   the methods of internal/application/service.go on them; PayInvoice.Credit, PayInvoice.Races,
--   AddTransaction.Credit and AddTransaction.Rollover prove what they do.
-- Debt: apps/debt-svc/internal/domain.
--   Debt.Account is debt.go (`NewDebt`, `ApplyUpdate`, `TransitionStatus`, `ApplyPayment`),
--   Debt.Payment payment.go. Account.Updates is `ApplyUpdate`. Account.Balance and Account.Status
--   hold the proofs. Debt.Amortization is amortization.go; Amortization.Repayment and
--   Amortization.Stranded prove what a schedule pays back. Debt.Tables holds the rows and the
--   statements of internal/infrastructure/persistence, and Debt.Service is `GetDebt`,
--   `RegisterPayment` and `DeleteDebt` of internal/application/service.go on them, and Service.Changes
--   `CreateDebt` and `UpdateDebt`, with the rows, the idempotency store (pkg/idempotency) and the
--   cache (pkg/cache) in Service.Stores. Service.Payments and its children
--   prove what requests to pay do to the balance of a debt, to the keys, and when two of them
--   overlap, Changes.Balances what becomes of a new debt, Service.Reads and its children what reads
--   through the cache return, and Service.Runs what they return after any requests.
-- Investment: apps/investment-svc/internal.
--   Investment.Holding is domain/investment.go (`NewInvestment`, `Sell`, `UpdateAveragePrice`, `Cancel`,
--   `ApplyUpdate`, `TransitionStatus`), Investment.Transaction domain/transaction.go.
--   Holding.Updates is `ApplyUpdate`; Updates.Kept, Holding.Sales and Holding.Purchases hold the
--   proofs. Investment.Service is application/service.go: the kind of the holdings for Endpoint, and
--   Service.Records is `RecordTransaction`; Service.Reads, Records.Ledger and Records.Runs hold the
--   proofs.
-- Budget: apps/budget-svc/internal/domain.
--   Budget.Plan is budget.go, with `ApplyUpdate` in Plan.Updates. Plan.Limits and Plan.Status hold
--   the proofs.
-- Endpoint: what the handlers of apps/transaction-svc and apps/investment-svc have in common.
--   Endpoint has the steps of a creation, a read, an update and a deletion, with their order, over a
--   record `Kind` of what is different, and Endpoint.Stores the stores that they call. Endpoint.Steps
--   shows that a handler makes one of six steps on the rows, the cache and the events, Endpoint.Cached
--   and Endpoint.Outbox what each step keeps, and Endpoint.Runs what requests in turn keep.
-- Transaction: apps/transaction-svc/internal.
--   Transaction.Types is domain/types.go; Income, FixedExpense and VariableExpense are the files of
--   those names, each with its proofs in Updates. Transaction.Service is application/service.go:
--   Service.Incomes, FixedExpenses and VariableExpenses are kinds, with their repositories,
--   Service.Texts is dto.go and the keys of the cache. The Laws of each kind show that its table and
--   its domain have what Endpoint asks, and Service.Reads puts them together.
-- Identity: apps/identity-svc/internal.
--   Identity.Authorization is domain/authorization.go; Authorization.Decisions holds the proofs.
--   Identity.Roles is `AssignRole` and `RemoveRole` of application/authorization_service.go on the
--   users and their roles; Roles.Administrators and Roles.Reassigned hold the proofs.
--   Identity.Accounts is `Login` and `VerifyEmail` of application/auth_service.go, and Accounts.Mfa its
--   methods on the second factor, with the stores of infrastructure/cache; Accounts.Verification and
--   Mfa.Unreachable hold the proofs.
-- Outbox: pkg/outbox.
--   Outbox.Publisher is a round of the publisher (`Store.Pending`, `Store.MarkPublished`,
--   `publishPending`); Publisher.Rounds holds the proofs.
-- Report: apps/report-svc/internal.
--   Report.Events is domain/events.go with the functions of application/projectors.go that read a
--   payload, Report.Monthly and Report.Categories are `MonthlySummaryProjector` and
--   `CategorySummaryProjector` with their repositories in infrastructure/persistence, Report.Consumer
--   is `HandleMessage` of infrastructure/messaging/kafka_consumer.go. Monthly.Rows
--   runs the consumer on the table of the months, with its queries as they are, Monthly.Totals and
--   Monthly.Decoded prove what the messages do to its rows, and Monthly.Deletions what a deletion
--   undoes.
--   Report.Statements is `GetIncomeStatement` and `GetExpenseSummary` of application/service.go;
--   Statements.Totals, Statements.Rows and Statements.Dates hold the proofs.
-- Prelude: the names that all modules share, int64 arithmetic, texts as bytes, maps, results and
--   methods.
--
-- How code becomes definitions. A struct is a record with the fields of the source, and a string type
-- with constants is a data type with a constructor for any other text. A method that changes its
-- receiver and returns an error is a function from the receiver to the receiver and an optional
-- error; an error in the middle of a method leaves the fields that were set before it, as in the
-- source. A constructor is a list of guards, each with its error, and the value returned past them.
-- An int64 is an integer, and each operation of the source on it wraps around at 64 bits (add64,
-- sub64, mul64, div64); theorems say where they ask for an operand or a result to be an int64. Times
-- are numbers, and `now` is what the clock returns in the call. Months and the dates that the code
-- compares are lists of bytes, compared byte by byte. No definition needs fuel: the loops are
-- recursions on lists, or on the number of months.
--
-- What is left out. The idempotency keys and the caches of responses outside the debt, the
-- transaction, the investment and the report service, and the cached portfolio of investments. The
-- other methods of the credit card and the report service, the lists of the services with their
-- filters, signup, passwords and sessions of the identity service, the application service of
-- budgets and the other repositories, the conversion of dates by the database, which keeps a text
-- here as it was given, the handlers and the gateway. Percentages that are shown, which the code
-- computes in float64; for amortization float64 is a parameter (Amortization.Floats), and its
-- theorems name what IEEE 754 says of whole numbers up to 2 ^ 53 cents (Repayment.IsExact). A call
-- of the database in a request fails or not as a record of choices says, the begin and the commit
-- included. Tables.with_tx is `withTx` of the credit card service: the statements of a payment and of
-- a purchase pass the tables on, and after an error those of the begin are back; in the other services
-- a request that fails is given back the tables it began with. In the services of debts, transactions and investments the same
-- record says which calls of the store of keys and of the cache fail; an entry that has expired is
-- a read that fails, and a service with no cache one whose calls of it all fail. The queries of
-- `FindByID` go to the pool, outside the transaction, and `pay_invoice_at` takes the tables that
-- each of them reads, `payment_with` what it has read. For the publisher the database, the broker
-- and `json.Marshal` are a record of functions, each of which may fail for each event. In the
-- report service `json.Unmarshal` and `fmt.Sscanf` are parameters, and so are the projectors of
-- budgets, portfolios, debts and cards, which have tables of their own. In the identity service
-- Keycloak, the TOTP library and `mail.ParseAddress` are parameters, and a code that has expired is
-- one that the store does not have.
pub mod Prelude
pub mod Endpoint
pub mod CreditCard
pub mod Debt
pub mod Investment
pub mod Budget
pub mod Transaction
pub mod Identity
pub mod Outbox
pub mod Report
