-- ===== src/Lib.antt =====
-- Cursor Pulse: what counts against whom, who may use which account, and which job runs next.
--
-- The program keeps, for a team that shares Cursor accounts, a ledger of usage rows (one for each
-- request that went through its proxy). Each row is filed under a pool of the account's quota by the
-- kind of its event and the name of its model. Rules on spend, each on a period and a pool, stop a
-- member or a loan whose rows cost too much; a member has a membership, whose plan gives the rules and
-- says whether the wallet must hold credit; credit wallets charge rows to members; keys and loans of
-- keys let requests in until they are revoked or end; a book of seats keeps the holders of one
-- account within a limit; throttles keep web logins and web searches within
-- theirs; and the assistant's workers take jobs from one table.
--
-- Which file models which part, by its path in the repository:
--   Billing (and Billing/Agree)   pulse/pricing/billing_scope.py: every function, by its own name.
--   Spend                         pulse/proxy/spend_policy.py. Rule has the rules, how they are parsed
--                                 from requests and from stored JSON and how they are merged; Window the
--                                 usage rows, their sums and the reset time; Check the verdict. The
--                                 spend policy asks the billing scope for the pool of a model.
--   Wallet                        pulse/proxy/credit.py on the rows of pulse/storage/models.py. Both
--                                 tables are one record; every operation returns the changed record.
--   Seats                         pulse/proxy/occupancy.py. Book has OccupancyBook and its expiry,
--                                 Choice its method choose, Calls the methods on a call.
--   Limits                        pulse/capabilities/web/rate_limit.py (Window) and
--                                 pulse/web/login_throttle.py (Login).
--   Jobs                          assistant_platform/jobs/claim.py and add_job of
--                                 assistant_platform/storage/repository.py.
--   Turns                         assistant_platform/conversation/turn_inbox.py: which message a session
--                                 works on. It adds jobs to the table of Jobs.
--                                 Its Recovery has turn_recovery.py of the same folder.
--   Loans                         pulse/tool_center/key_loan_state.py, with the queries it makes to
--                                 key_loan_store.py, key_loan_lender.py and pulse/ingestion/credentials.py.
--                                 The calls to Cursor are a parameter that says which of them raise; the
--                                 tables of snapshots and of accounts are two functions.
--   Cache                         pulse/util/ttl_cache.py: TTLCache, its clock an argument.
--   Members                       pulse/proxy/membership.py: plans, memberships and evaluate_spend, the
--                                 check before a request. Changes has the calls that change a membership,
--                                 Spending the check, which asks the spend policy, the wallets, the keys
--                                 and the loans.
--   Keys                          pulse/proxy/authorize.py (Answer, Authorize), pulse/proxy/key_crud.py and
--                                 pulse/proxy/ide_keys.py (Store), the routes that change a key in
--                                 pulse/web/proxy_keys_api.py and pulse/web/openai_proxy_api.py
--                                 (Handlers), and pulse/openai_proxy/authorize.py (CodingPlan). A key's
--                                 text is known by its hash; SHA-256, decryption and the ranking of
--                                 accounts for a loan are parameters.
--   Seating                       pulse/proxy/seat_assignment.py: the seat that goes with an accepted key,
--                                 which joins the answers of Keys to the book of Seats. The settings of a
--                                 team, the ranking of a pool and the snapshot of an account are
--                                 parameters. Headroom has pulse/tool_center/snapshot_headroom.py and
--                                 pulse/tool_center/quota_pool.py.
--   Usage                         pulse/proxy/usage_rollup.py: the totals of usage rows.
--   Lending                       pulse/tool_center/key_loan_issue.py: Issue has issue_loan_key,
--                                 issue_pool_loan and request_self_service_loan, Reassign has
--                                 reassign_loan_source. Accounts has the rows and checks from
--                                 repository.py, key_loan_borrower.py, key_loan_lender.py, burn_rate.py of the same
--                                 folder and pulse/ingestion/credentials.py, Remote the keys made at
--                                 Cursor. The rows are those of Loans; what Cursor answers, the lender
--                                 that is picked and whether the database refuses are the record World.
--   Sticky                        pulse/openai_proxy/sticky_pick.py: the account that a gateway key works
--                                 on, with resolve_cp_credential in Resolve. It takes its seats in the
--                                 book of Seats. Pool has list_cp_pool_entries of
--                                 pulse/openai_proxy/pool.py. The places of the ranking, whose score is
--                                 a float, are parameters.
--   Base                          the shared names and lemmas: lists, dictionaries as association
--                                 lists with Python's order of keys, texts as code points, signed
--                                 amounts, and stable sorting.
--   Tests                         the theorems at concrete inputs, and runs of the definitions.
--
-- How the code is read: times and durations are numbers of microseconds from an origin before every
-- time that occurs; ids are numbers, 0 for the empty text or an absent one; costs, limits and settings
-- are not negative where a file says so, and signed where the code takes signed amounts. A function
-- that raises returns `none` or an error; a method that changes its object returns the new one. A lock
-- or a transaction makes a method one step, so methods run one after another. Every loop goes over a
-- list, so no function has fuel.
--
-- Not modelled: the texts of messages and the formatting of times; the cache of sums within one call
-- of the spend policy; what a loan has cost; how its lender is ranked, in floats; the pages
-- that arrange snapshots; the encrypted copies of key texts and the calls that reveal them; database
-- races within one session; the data plane in proxy/, most of the web pages, the channels, the
-- language models and the assistant's memory.
pub mod Base
pub mod Billing
pub mod Spend
pub mod Usage
pub mod Wallet
pub mod Seats
pub mod Seating
pub mod Lending
pub mod Limits
pub mod Jobs
pub mod Turns
pub mod Loans
pub mod Cache
pub mod Keys
pub mod Sticky
pub mod Members
pub mod Tests
