-- ===== src/Lib.antt =====
-- A model of the core of ALSM_WEB_BE, the back end of a conversion service for mainframe programs:
-- the contracts with their customers, the conversion jobs, the copybooks of an upload, the codes
-- that verify a phone number, sales leads, the review of validation findings, and the support
-- contexts. These parts do not call each other; they share the helpers of Base.
--
-- Base
--   Base.Tests       tests on numbers and strings, the conditional, and case lemmas.
--   Base.Lists       `length`, `all` and `any` over the native numbers.
--   Base.Collection  a MongoDB collection as a table of documents by their id, with the queries
--                    that the repositories run: `lookup` (findById), `find_one` (findOne by an id
--                    and conditions), `find_first` (findOne by conditions only), `insert` (a write)
--                    and `any_entry` (what a unique index asks).
--   Base.Text        `trim`, character classes, patterns and lengths of strings.
--
-- Contracts: src/modules/crm, of which infrastructure/mongo-contract-aggregate.repository.ts is the
-- core. A document is a record with the fields of infrastructure/contract-aggregate.schema.ts; the
-- currency (a constant), the unused contentDigest, createdAt and updatedAt are left out. A call is a
-- function of its input and the store, and returns an `Outcome`: `done` with a result or null and
-- the store after it, or `raise` with the error that aborts its transaction. Where the code repeats
-- its query as the filter of its write, both see the same documents, since a transaction reads one
-- snapshot; the write is then on the document found.
--   Contracts.Types, Store   the data, the store, the schema's conditions on the terms, and
--                            findForLead, hasActiveGrantForLeadCustomer and loadCurrent.
--   Contracts.Drafting       createDraft.
--   Contracts.Revising       revise and submitForReview.
--   Contracts.Review         review and respondByCustomer.
--   Contracts.Viewing        findForGrantedCustomer and markCustomerViewed.
--   Contracts.Evidence       attachVerifiedFinalEvidence.
--   Contracts.Documents      attachReviewDocument and attachCanonicalDocument.
--   Contracts.Activation     findActivationEligible.
--   Contracts.Signing        startDemoSigning, completeDemoSigning and startProviderSigning.
--   Contracts.Envelopes      updateProviderSigningStatus, findByProviderEnvelopeReference, and what
--                            application/contract-signing-webhook.service.ts asks of an event.
--   Contracts.Invariant, Steps, Writes, RevisingSteps, ReviewSteps, EvidenceSteps, SigningSteps, Trace
--                            the invariant, the steps that keep it, and sequences of calls.
--   Contracts.Access, FourEyes, Idempotence, Archiving, Freshness, Reopening
--                            further properties of single calls and of pairs of calls, and what a
--                            customer is shown after any calls.
--   Contracts.Tests          the theorems at concrete stores.
-- Two functions are parameters: `digest`, the SHA-256 of a manifest's JSON text, and `lower_case`,
-- toLowerCase. `loadCurrent` reads outside the transaction: the calls that use it take the
-- collection of versions that it reads as an argument, which in a sequence of calls is the one from
-- before the call.
--
-- Jobs: src/modules/conversions/infrastructure/mongo-conversion-job.repository.ts and
-- conversion-worker.runner.ts. Each command of the repository is one atomic command on one
-- document, so it is a function on the table of jobs, with the time `now` that it reads.
--   Jobs.Types, Repository   the documents and the commands.
--   Jobs.Calls, Changes      the commands as data, and what one of them does to the table.
--   Jobs.Worker              one delivery of the queue: the claim and its refusal, the completion
--                            and the failure. The engine's answer is an argument; the updates
--                            of the screen's status, whose errors are caught, are left out.
--   Jobs.Kept, Invariant, Leases, Fencing, Generations, Deliveries,
--   Completions
--                            properties of sequences of calls; a sequence interleaves the workers,
--                            the API and the recovery timer in the order of the database.
--   Jobs.Tests               the theorems at concrete tables.
--
-- Copybooks: src/modules/conversions/domain/copybook-dependency-resolver.ts. A text is the list of
-- its UTF-16 code units; a JavaScript Map is an association list.
--   Copybooks.Units          texts, classes of characters, and Map.get and Map.set.
--   Copybooks.Statements     stripComments and extractCopyStatements, with the pattern's matcher.
--   Copybooks.Names          normalizeCopyName and isSystemCopybook.
--   Copybooks.Entries        the dependency tree, isFullyResolved and findCopybookBlockers.
--   Copybooks.Resolver       buildCopybookIndex, resolveCopyName, resolveDependenciesOf,
--                            resolveProgram and analyzeBundle, with the cache passed along.
--   Copybooks.Reference      what it means to be ready, with no cache and no path.
--   Copybooks.Extracted, Lines
--                            what the extraction finds, and where.
--   Copybooks.Literal, Candidates, Indexed
--                            names and their keys, and the index against a search.
--   Copybooks.Paths, Agreement, Descent, Answers, Correct, Bundle
--                            the recursion against the reference definition.
--   Copybooks.Current, Blockers
--                            the trees that the resolver makes, and what blocks in them.
--   Copybooks.Tests          runs, and the theorems at concrete bundles.
-- The recursion into the copybooks has one unit of fuel for each file of the bundle and one more:
-- each level takes a key of the index that is not on the path yet, and there are at most as many
-- keys as files. toLowerCase on texts that are not all ASCII is a parameter.
--
-- Leads: src/modules/leads, the status of a lead and its phone calls.
--   Leads.Types              the status, its table of transitions, and a lead's fields.
--   Leads.Repository         updateStatus and addPhoneCallOnce.
--   Leads.Status             application/update-lead-status.service.ts; its read and write run with
--                            no other call in between.
--   Leads.PhoneCalls         application/log-phone-call.service.ts.
--   Leads.Steps, Moves, Logging
--                            what a call does to a stored lead.
--   Leads.Calls, Replays     sequences of calls, and a call that is sent again.
--   Leads.Tests              the theorems at concrete leads.
-- The SHA-256 of a normalized phone call is the parameter `fingerprint_of`. Ids that are not 24
-- hexadecimal digits, values outside an enumeration and dates that cannot be read are `none`;
-- durations are natural numbers. Leads of an older schema, with a stage, are not modelled.
--
-- Phone: src/modules/auth/application/phone-verification.service.ts and
-- infrastructure/mongo-phone-verification.repository.ts. The collection is a table by id; a command
-- of the repository is a function on it, with the time `now` that it reads.
--   Phone.Repository         the stored codes and the commands; `remove_expired` is what the index
--                            with `expires: 0` of infrastructure/phone-verification.schema.ts does.
--   Phone.Service            requestOtp, verifyOtp and hasActiveOtp. A requestOtp runs at one time
--                            with no other call in between. verifyOtp reads the clock three times:
--                            for the search, the expiry and the use; verify_found is verifyOtp from the code
--                            that was found on, so that other calls can run before it.
--   Phone.Calls              sequences in which the second halves of verifyOtp interleave.
--   Phone.Tables, Outcomes, Windows
--                            sums over the collection, and the ways in which the calls end.
--   Phone.Single, Guesses, Limits, Removal, Answers
--                            properties of single calls and of sequences.
--   Phone.Tests              the theorems at concrete collections.
-- bcrypt.compare is the parameter `matches`; the random code and its hash, the new id and the
-- answer of the SMS gateway are fields of a request.
--
-- Support: src/modules/support/domain/support-context.entity.ts.
--   Support.Context          the entity and its operations.
--   Support.Lifetime         what any sequence of operations keeps.
--   Support.Tests            the theorems at a concrete context.
--
-- Validation: src/modules/validation, the human review of a finding.
--   Validation.Findings      the findings, the policy of application/
--                            validation-finding-review.policy.ts, findById and reviewFinding.
--   Validation.Review        application/review-validation-finding.service.ts after its checks of the
--                            organization, the role and the project. The state that it reads and
--                            the state that it writes are two arguments: other calls run in between.
--   Validation.Transitions   what a review may do.
--   Validation.Tests         the theorem at a concrete finding.
--
-- Ids are natural numbers, as the code compares them only; times are milliseconds. Functions are
-- structural recursions, but for the resolver of copybooks, which has fuel. Numbers do not wrap
-- around: revisions and counts are natural numbers, and where the code asks for a safe integer the
-- bound is written out.
--
-- Not modelled: the list queries, the audit, notification and outbox writes beside the contract
-- calls, the API records into which documents are copied, the transaction runner, the heartbeat
-- timer and the recovery loop of the worker, BullMQ, and the other modules (the demos, quotes and
-- creation of leads, the rest of authentication, billing, the runs of the validation, roles, users,
-- menus, teams, meetings, and the I/O around them).
pub mod Base
pub mod Contracts
pub mod Copybooks
pub mod Jobs
pub mod Leads
pub mod Phone
pub mod Support
pub mod Validation
