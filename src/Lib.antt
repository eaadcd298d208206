-- ===== src/Lib.antt =====
-- A verification library for NobaServer, a server that keeps consumers' dollars in wallets at
-- Circle, moves money between those wallets and Colombian bank accounts, and pays by card.
--
-- Common holds what the parts share: integers over the native numbers (Int), amounts of money and
-- their rounding (Amount, src/core/utils/Utils.ts), the exceptions (Exception,
-- src/core/exception), the alerts (Alert, src/modules/common/alerts), the methods of the services
-- as functions on a state that return or throw (Action), and the validator Joi as an interface
-- (Joi).
--
-- Circle is src/modules/circle and the types of src/modules/psp that it uses. Circle.Service is
-- public/circle.service.ts, which calls Circle.Client, public/circle.client.ts, for Circle's API,
-- and Circle.Repo, repos/sql.circle.repo.ts, for the table that caches the wallets and their
-- balances; Circle.Domain has their types. All of them work on one state
-- (Circle.Environment.World): Circle's own, that of the table, and the alerts raised so far.
-- Circle's API, the database, Joi and the conversion of keys are the fields of a record
-- (Environment). What the theorems assume of Circle and of the table stands in Circle.Assumptions:
-- balances are whole cents, a transfer that has not failed moves its amount, a failed one moves
-- nothing, and a key that was used before answers the first transfer again. Circle.Sample and
-- Circle.SampleLaws have a bank and a table for which all of this holds. The proofs first find the
-- calls of a run that returned (Runs, Cache, Debit, Credit, Transfer) and then what they have done
-- (DebitEffects, CreditEffects, TransferEffects, Wallets, Checks).
--
-- An amount is an integer number of hundredths of a cent. So sums are exact and rounding to cents
-- is the integer rounding that Math.round does, halves towards positive infinity; binary rounding
-- errors and infinities are not modelled. The loops of the code over lists are recursions on them.
-- Two loops of the consumers have fuel: four rounds for the one that pads a handle to three
-- characters, seven for the one that looks for a free handle, which gives up after as many;
-- Consumers.Names and Consumers.Generation are about that.
--
-- Limits is src/modules/transaction/limits.service.ts: Limits.Service has the choice of a limit
-- profile (getLimits) and the tests of canMakeTransaction, over the three repositories as an
-- interface. The service keeps the configurations that it has read, which is the state of the
-- model. Limits.Check, Limits.Offer and Limits.Selection have the properties.
--
-- Transactions is the booking of src/modules/transaction: Transactions.Service has
-- transaction.service.ts (validateAndSaveTransaction, getTransactionByTransactionRef and
-- updateTransaction), which runs the processors of factory/preprocessors (Processors, Adjustments
-- and Payroll) and saves with repo/sql.transaction.repo.ts (Repo) what domain/Transaction.ts accepts
-- (Validation). The state is the database, the alerts and the number of UUIDs drawn. The
-- processors of wallet transactions, which validateAndSaveTransaction refuses, are a field of the
-- environment, as are the services of payrolls. A rate of exchange is a fraction, and a product
-- with it is rounded exactly. Transactions.Preprocessing and Transactions.Saved have the parts of
-- a run, Transactions.Booked and Transactions.Access the properties.
--
-- ExchangeRates is src/modules/exchangerate: ExchangeRates.Service has exchangerate.service.ts
-- with the factory and the clients of its rates, ExchangeRates.Repo the table of
-- repo/sql.exchangerate.repo.ts. A rate is a positive fraction, so that amounts can be divided by
-- it; the test that a rate moves by less than a tenth is exact. A creation that the loop of
-- createExchangeRateFromProvider starts without awaiting it runs to its end there. The properties
-- stand in Lookup, Creation, Threshold and Completeness; Rounds has what a round has created.
--
-- Pomelo is the card transactions of src/modules/pomelo: Authorize and Adjust have the two webhooks
-- of webhook/pomelo.webhook.service.ts, Steps its private methods and the frame that the webhooks
-- share, Signature the signing and verifying, Answers the maps between statuses, and Repo the
-- transactions of repos/sql.pomelo.repo.ts. The services of wallets, transactions and rates are an
-- interface (Environment.Services) over a state of their own; Node's crypto, base64 and the
-- database are fields of the environment, with what is assumed of them in Assumptions and a sample
-- for which it holds in Sample. Guards and Webhooks have who may call and what escapes, Keeping,
-- Stored and Replay that a repeated call changes nothing, Debited and Approved what an approval has
-- done. Common.Outcome has the rules for runs of actions that these proofs use.
--
-- Cards puts the two together: Cards.Server has the services of the card transactions with
-- CircleService among them, Wallets and Payments what an approval moves at Circle. The
-- transactions and the rates stay an interface there.
--
-- Mono is the bank accounts of src/modules/mono: Service has the withdrawals and the links to pay
-- in of public/mono.service.ts, Repo the table of repo/sql.mono.repo.ts with what domain/Mono.ts
-- accepts, Webhook the handlers of webhook/mono.webhook.service.ts on events that the mapper has
-- checked and converted. The bank's client, the key service, the consumers and the payrolls are
-- fields of the environment. What executeWithdrawal awaits with Promise.all runs in the order of
-- its list, so that nothing is searched where decrypting the account's number fails. Assumptions
-- has what the keys of the table promise. Payments and Withdrawals have what is paid out,
-- Matching and Funding which payroll a payment funds, Events what is recorded of the bank's
-- events.
--
-- Payrolls is the life of a payroll in src/modules/employer: Domain has the statuses and their
-- changes (domain/Payroll.ts), Service getPayrollByID, updatePayroll and retryPayroll of
-- employer.service.ts, over the table, the disbursements, the employers, the rates and the
-- workflows as fields of the environment. The product of an amount and a rate is kept as its
-- factors. Steps has what one update can do to the status, History what a sequence of them can,
-- Prepared what is written of a payroll that is prepared.
--
-- Otps is the one-time passwords of src/modules/common: Service has otp.service.ts and its table
-- repo/sql.otp.repo.ts, Environment the clock and the table, Checks what a password is good for.
-- Texts that the code looks into are lists of code units (Common.Text, with the functions of
-- src/core/utils/Utils.ts on them); the others are native strings.
--
-- Employees is src/modules/employee: Service has employee.service.ts, Repo the table of
-- repo/sql.employee.repo.ts with what domain/Employee.ts accepts. The table, Joi, the
-- notifications and the clock are fields of the environment. A comparison with a salary that is
-- missing is one with NaN, and false. Allocation, Links and Invites have the properties.
--
-- Consumers is src/modules/consumer/consumer.service.ts: Handles has the making and checking of
-- handles, Lookup which consumers are active, Service the updates and the contacts of a consumer,
-- Passwords the sending of one-time passwords, over Otps. The repository, the filter of bad words,
-- the random texts and Joi with the checks of the date of birth and the gender are fields of the
-- environment; of a consumer's properties the model has those that the code modelled reads. Names,
-- Generation, Updates, Contacts and Standing have the properties.
--
-- Not modelled: logging, health checks, HTTP controllers, dependency injection, and concurrency:
-- a method runs from its start to its end on the state. Of src/modules/transaction the wallet
-- processors with their quotes, the workflow implementations, the events, the sanctions check
-- and the filtered list are left out, of src/modules/pomelo the users and cards, of
-- src/modules/mono the client, the mapper of the webhook and the list of banks, of
-- src/modules/employer all but the life of a payroll, of src/modules/employee the lists by
-- consumer and the filtered list, of src/modules/consumer the wallets, the identifications, the
-- links with employers, the sign-up and the repository, and of src/modules/common all but the
-- one-time passwords. The other modules of src/modules, which have state of their own, are not
-- part of the library.
pub mod Cards
pub mod Circle
pub mod Common
pub mod Consumers
pub mod Employees
pub mod ExchangeRates
pub mod Limits
pub mod Mono
pub mod Otps
pub mod Payrolls
pub mod Pomelo
pub mod Transactions
