-- ===== src/Lib.antt =====
-- MixMatch's payments over Stellar, as the API and its payment engine run them.
--
-- The program's parts. packages/stellar is the payment engine: it builds, signs and submits
-- transactions through Horizon and calls the escrow contract through the Soroban RPC. apps/api,
-- modules/payments, keeps three tables of its own (accounts, transactions, escrows) and drives the
-- engine: a payment is inserted as PENDING, submitted, and settled; a payment of high value is inserted as
-- PENDING_SIGNATURE with a signed envelope, which an administrator co-signs or rejects; a PENDING
-- row that was left behind is reconciled with Horizon's records or with a stream event. The anchor
-- service starts deposits and withdrawals at an anchor, by the protocols of packages/stellar/src/sep,
-- and keeps a table of them. modules/auth registers users, issues tokens and guards the routes.
-- apps/mobile reads the API's event stream.
--
-- The files.
--   Base (Tests, Lists, Find, Codes, Texts, Split)
--                                  helpers: tests on numbers and texts, `??`, truthiness, lists
--   Exec, Exec/Rules               actions with a state and thrown errors; what they keep and ensure
--   Error                          StellarPaymentError, the database's errors, the HTTP exceptions
--   Env, Env/Sdk, Env/Calls        the outside parties as one record of parameters; the SDK's objects;
--                                  the calls that leave the process
--   Stellar/Errors                 packages/stellar/src/payment-errors.ts
--   Stellar/Wallet, Stellar/Fees   wallet.ts and assets.ts (toStellarAsset); fees.ts
--   Stellar/Payment                payment.ts: submitPayment as submit_payment, with its loop as
--                                  rounds; lookupPayment; resubmitPayment
--   Stellar/PathPayment            path-payment.ts: findStrictSendPath, findStrictReceivePath,
--                                  submitPathPayment
--   Stellar/Multisig               multisig.ts
--   Stellar/Trustline              trustline.ts and friendbot.ts
--   Stellar/Contract               escrow.ts: submitInvocation with its polling, simulateReadOnly
--   Api/Rows, Api/Store            apps/api/src/db/schema.ts: the rows and a database statement
--   Api/Accounts, Api/Transactions, Api/Escrows
--                                  the three repositories of apps/api/src/modules/payments
--   Api/Wallets                    wallet-resolver.ts
--   Api/Custody, Api/Paths, Api/Send, Api/Approval, Api/Reconcile, Api/Owned
--                                  payments.service.ts, by what its methods do
--   Api/Updates                    its streamTransactionUpdates, as a step relation
--   Api/EscrowService              escrow.service.ts
--   Env/Http, Env/Web, Env/Tokens  requests to an anchor, what the protocols need from outside, and
--                                  passwords and tokens
--   Stellar/Sep (Http, Toml, Auth, Transfer)
--                                  packages/stellar/src/sep: sep1.ts, sep10.ts, sep24.ts
--   Env/Numbers                    JavaScript's numbers, as the validators tell them apart
--   Stellar/Config, Stellar/Client config.ts, client.ts: loadStellarConfig and verifyNetwork
--   Stellar/Config/Valid, Stellar/Client/Verified
--                                  a configuration that loads, a network that is checked
--   Stellar/Streaming              streaming.ts: streamAccountPayments as a step relation
--   Api/Anchors, Api/AnchorService anchor-transaction.repository.ts, anchor.service.ts
--   Api/Users, Api/Auth, Api/Guards
--                                  apps/api/src/modules/users and auth; the routes of
--                                  admin.controller.ts
--   Api/Encryption, Api/Job, Api/HistoryRoute
--                                  wallet-encryption.ts, reconciliation.job.ts, payments.validators.ts
--                                  with the route of the history
--   Api/Routes                     the controllers' routes without a body, the quote, and the
--                                  authentication; zod-validation.pipe.ts
--   Api/Updates/Quiet              what a subscription does after its end
--   Api/Routes/Foreign             requests to the escrow of another user
--   Kms/Vault                      packages/kms/src/vault-transit-client.ts
--   Kms/Vault/Signed               what a signature is read as
--   Mobile/Stream                  apps/mobile/src/services/payments-client.ts:
--                                  subscribeToTransactionStream
--   Mobile/Requests                api-client.ts, auth-client.ts and the other requests of
--                                  payments-client.ts
--   Mobile/Frames, Mobile/Delivery, Mobile/Printed
--                                  the event stream cut into events, in any chunks, and read back
--   Stellar/Sep (Refused, Statuses, Quiet), Api/AnchorService (Access, Start, History, Quiet)
--                                  challenges that are refused, and what the anchor service ensures
--   Stellar/Streaming (Phases, Gapless)
--                                  the phases of a payment stream, and what it delivers
--   Api/Auth (Login, Token), Api/Guards/Admitted, Api/HistoryBounds, Api/Job/Passes
--                                  logins and their tokens, who gets past the guards, the size of a
--                                  page, the passes of the job
--   Stellar/Quiet, Api/Quiet, Api/Store/Rules
--                                  rules for what submits nothing and for what leaves tables alone
--   Stellar/Attempts, Stellar/Polling, Stellar/Setup, Stellar/Best, Stellar/Classified
--                                  retries, the polling loop, what configureMultisig submits, the
--                                  choice of a path, the classification of a rejection
--   Api/Ledger (Table, Sound, Update, Lookup, Keep, Operations, Others, Settle, Resolve, Requests,
--   History)                       the table of transactions under every operation that writes to it
--   Api/Repeat, Api/Settled, Api/Rejected, Api/Decide, Api/Once, Api/Access, Api/Match, Api/Locked,
--   Api/HighValue                  repeated keys, the end of a submission, an administrator's
--                                  decisions, ownership, matching, the guard of an escrow's
--                                  release, what a payment of high value submits
--   Tests                          outside parties for tests, runs, and the results at an input
--
-- How state and operations correspond. A method keeps its name in snake case. The state of the
-- engine is the trace of the calls made so far; the state of the API is a World: the tables, oldest
-- row first, and that trace. A call adds itself to the trace, and what an outside party
-- answers may depend on all of it, so that nothing is assumed of Horizon, Vault, the database's
-- faults or the clock beyond what a theorem names. A promise that rejects is an error as a value;
-- `try` is try_catch. A handler runs to its end before the next one starts.
--
-- The database. A statement either fails before it has an effect or takes effect whole. `create`
-- fails with the code 23505 on a clash of a unique column. Foreign keys are not modelled. A select
-- without an order answers in the order of insertion.
--
-- Bounds and fuel. JavaScript's numbers are a parameter (Env.Num), with its operations. The loop of
-- submitPayment has no fuel: its rounds are the attempts that MAX_SEQUENCE_ATTEMPTS allows. The
-- polling loop of escrow.ts gets 32 rounds: its interval is 1000 ms and its timeout 30000 ms, so
-- that with a clock that counts each wait the timeout ends it in the last round at the latest;
-- running out of rounds is an error of its own that the program does not have.
--
-- Names that packages/stellar/src/payment.ts uses and no file declares (validatePaymentParams,
-- MAX_SEQUENCE_ATTEMPTS) are parameters, and so is what reading this.client comes to in its
-- function submitPayment, which has no such object.
--
-- Streams. A text that is taken apart is a list of code points, where JavaScript counts UTF-16
-- units. The mobile stream's inner loop has its buffer's length as fuel, and each round takes two
-- characters at least. The payment stream, a subscription to the caller's transactions and the
-- reconciliation job are step relations: a step is one callback, which runs to its end. The
-- refreshes of an anchor history, which the program starts together, run one after the other. An
-- anchor's status is one of the protocol's. Where a payment stream without a cursor starts may differ
-- each time it is opened. RxJS runs a subscription's teardown after `error` and `complete`.
--
-- Wallet encryption and Vault's client are modelled by themselves, in Api/Encryption and Kms/Vault;
-- the services take them as parameters.
--
-- Not modelled: the interval of the reconciliation job's timer, the routes whose body is validated
-- together with the id of the caller, the schemas of zod, the field `cause` of an error, the
-- screens of apps/mobile and apps/web, and the other applications of the repository.
pub mod Base
pub mod Exec
pub mod Error
pub mod Env
pub mod Mobile
pub mod Stellar
pub mod Api
pub mod Kms
pub mod Tests
