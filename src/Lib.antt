-- ===== src/Lib.antt =====
-- Verification of the AWS compliance pilot: the parts that freeze a preview, take a human decision
-- and change cloud resources.
--
-- The pilot reads the compliance of cloud resources, freezes what it has seen in a preview, asks a
-- human for a decision on exactly that preview, and then calls a provider that changes one
-- resource at a time. A journal file is rewritten before and after each change, so that the
-- outcome of a crash is known or stands as unknown. This library has a model of that code and its
-- proofs.
--
-- Prelude (with Tests, Lists, Slices, TextOrder, Texts, Chars, Strip, Counter, Sorting) holds
-- lists measured by native numbers, Boolean searches and the order of texts. Effects holds the
-- methods of an object as functions from a state to an outcome and a state: what was written
-- before a raise stays written. Effects/Keeps has the rules by which a method keeps an invariant
-- of the state, and Effects/Leads those by which it leads from one property to another.
-- Effects/Outcomes has functions that return or raise, and no state.
--
-- Bulk is pilot_v1/bulk.py, one module for each part of it:
--   Bulk/Types         the journal's data (items, manifest, batch), bpa, and Platform
--   Bulk/Validate      BulkStore.validate
--   Bulk/Store         the fields of BulkStore, save, require, _fail_unclaimed, reads
--   Bulk/Reports       summary, page, export
--   Bulk/Lifecycle     __init__ and its recovery, rollover_terminal_history, preview, decide
--   Bulk/Worker        step as claim, perform and commit; start
--   Bulk/Run           _run and reconcile
--   Bulk/Interleaving  schedules: a step of the system is one section under the lock, or the
--                      provider calls of one claimed item, or a restart of the process
--   Bulk/Offline       OfflineProvider
--   Bulk/Walk          a client that asks for page after page, and its proof
-- The other modules of Bulk are proofs, and Bulk/Tests has runs on a fleet of two buckets.
--
-- Receipts is pilot_v1/native_decision_receipt.py, the single-use receipts of native decisions:
--   Receipts/Types        the rows of the three tables
--   Receipts/Chain        the loops of verify, the last hash and the last sequence of a table
--   Receipts/Transaction  BEGIN, commit and rollback, statements, _append_event
--   Receipts/Store        register, record (record_decision here), append_evidence, timeline, verify
--   Receipts/History      any calls, one after another
-- The other modules of Receipts are proofs, and Receipts/Examples has a small history. The tables
-- are lists in the order of their rows, with the counters of AUTOINCREMENT; the primary key and the
-- UNIQUE column are tests before the insert. SHA-256, the JSON texts that are hashed, the clock and
-- the storage (any statement or commit may raise) are the record Environment.
--
-- Findings is pilot_v1/findings.py, pilot_v1/routing.py, pilot_v1/queries.py, pilot_v1/adapters.py:
--   Findings/Validate   validate_finding
--   Findings/Normalize  normalize_sg
--   Findings/Routing    the route and the eligibility of a finding
--   Findings/Queries    page: its arguments, its filters and its slice
--   Findings/Walk       a client that follows next_offset, and its proof
--   Findings/Adapters   decode_records and the adapters of the two import formats
--   Findings/Sources    proofs, and Findings/Examples small lists
-- A value of a source record is a text, or any other value with its truth. str.upper,
-- datetime.fromisoformat and SHA-256 are a record, Library; UTF-8, JSON and CSV are a record, Files.
-- The client of Findings/Walk has fuel for one page more than there are chosen items, since each page
-- but the last shows one item or more.
--
-- Backlog is pilot_v1/backlog.py, the bounded list of findings with the operator's plans:
--   Backlog/Types    keys, plans, tracked findings, and what the code takes from outside
--   Backlog/Entries  the dict of findings, in the order of insertion
--   Backlog/Merge    _plan, _merge and the loops of upsert and replace_provider
--   Backlog/Store    _commit, update_plan, upsert, replace_provider, _load
--   Backlog/Views    open_findings, all_findings, summary
--   Backlog/History  any changes, one after another
-- The other modules of Backlog are proofs, and Backlog/Examples has a small backlog. A `KeyError` of
-- PRIORITY is a raise. A stored finding keeps no `owner` and `target` of its own: the plan has them.
--
-- Scaled and Pilot are from agents/compliance-agent-v1/src/compliance_agent_v1/. Scaled is
-- scaled_findings.py, a thousand findings that are queried in bounds:
--   Scaled/Types  the rows, the queries, generate_findings
--   Scaled/Store  _validate_query, _filtered, query, summary, exports, the lookups of a row
-- The other modules of Scaled are proofs, and Scaled/Examples has four rows. A store is its rows.
-- str.casefold is a parameter. A page or a limit that is no integer of 1 or more is 0 here.
--
-- Pilot is csv_bulk_pilot.py and grouped_selection_pilot.py, which freeze candidates in batches:
--   Pilot/Candidates  parse_candidate_csv
--   Pilot/Types       the preview's rows, the scope, the batch, the state of a pilot
--   Pilot/Preview     preview, up to what it freezes
--   Pilot/Batches     _freeze_preview, _batch, decide, execute_approved, compact_result
--   Pilot/Selection   GroupedSelectionPilot
--   Pilot/History     any calls, one after another, and changes of the evidence between them
--   Pilot/Handed      the rows that were handed to the executor, and those that have a result
--   Pilot/Dict, Pilot/Steps, Pilot/Sound, Pilot/Refinement are proofs: Pilot/Steps shows that each
--                     call is one of four steps, and Pilot/Sound and Pilot/Refinement speak of these
--                     steps alone
-- Pilot/Examples has three candidates. The UTF-8 and CSV readers are the record Reader, the digests
-- the record Digests. The executor is a NoopExecutor, given by the ids that fail; the log of what it
-- was handed is an addition that no method reads. A batch that is in memory holds its frozen rows
-- as values.
--
-- Config is ConfigComplianceReader of pilot_v1/sg_compliance.py, which reads two AWS Config rules:
--   Config/Types   the constants, what the service answers, findings; the record Client
--   Config/Reader  _iso, _results with its loop over the pages, summary, list_findings
--   Config/Returned, Config/Bounded, Config/Requests, Config/Complete are proofs
-- Config/Examples has a service of two pages. The service, the digest of an identity and the datetime
-- functions are the record Client. The loop over MAX_CONFIG_PAGES is recursion on that number, not
-- fuel. The log of the requests is an addition that no method reads.
--
-- Guarded is SGProvider and GovernedSGProvider of the same file, the guarded reads of security groups
-- and the one call that changes them:
--   Guarded/Types     the manifest, the deployment, what AWS answers, the state; the record Cloud
--   Guarded/Provider  _call, guard, read, authorize, invoke, apply
--   Guarded/Reads, Guarded/Calls are proofs, and Guarded/Examples has a manifest of two groups
-- The clients are the record Cloud. The tests of the manifest and the deployment in __init__ are not
-- modelled. The log of the calls of the tool is an addition that no method reads.
--
-- Campaign is pilot_v1/multi_account_campaign.py, the contracts of a campaign over four accounts:
--   Campaign/Types      the constants, targets, bodies of batches, results
--   Campaign/Contracts  parse_targets, normalize_selected_aliases, batch_id and the other functions
--   Campaign/Selected, Campaign/Exact are proofs, and Campaign/Examples has four targets
-- json.loads, the class of digits and the digest are a record, Library. The rows of the targets hold
-- texts. resource_ref_seed and the constants of public_result are not modelled.
--
-- Jobs is pilot_v1/jobs.py, pilot_v1/workflow.py and the jobs of pilot_v1/service.py:
--   Jobs/Types    a job and its states, and what the job store takes from outside
--   Jobs/Store    JobStore: create, get, update, _save, __init__ with its recovery
--   Jobs/Gateway  the Gateway's answers, approve_remediation and _read_finding after the call
--   Jobs/Service  the state of PilotService, _call_gateway, try and except
--   Jobs/Decide   create_job, decide_job (its try block is execute and settle), reject, approve
--   Jobs/Check    check, with the harness as a parameter
--   Jobs/History  __init__ of PilotService, and any calls and restarts, one after another
-- The other modules of Jobs are proofs, and Jobs/Examples has the remediation of one group. uuid4 is
-- an argument of create_job and check. The bodies of import_source, sync_provider and check_s3 are not
-- modelled: they change the backlog and the state shown and no job, and a history has any changes of
-- the backlog (backlog_call) and any state shown (show_call) in their place. A start that raises leaves no service, only the
-- files. The log of the Gateway's calls is an addition that no method reads. json.loads of a text is
-- a parameter; a text that is no JSON object is refused as one that is no JSON, where the code may
-- raise another exception. A job file that is there and cannot be read is not modelled.
--
-- The state of a BulkStore is a record: the batch in memory (self.data), the bytes of the journal
-- and of the archived files, whether the worker thread lives, and the world. The log of the calls
-- of provider.apply is an addition that the code does not have, and no method reads it. What the
-- code takes from outside is one record, Platform: the provider's context, resources, concurrency,
-- read, apply and authorize, the file write (which is done, or raises before or after the file has
-- changed), the start of a thread, the clock, the two digests, and the JSON encoding. The only
-- fact assumed of it is that decoding the encoding of a batch gives the batch, where the journal
-- is read again.
--
-- The client of Bulk/Walk has fuel for one page more than there are items. Of the code only the
-- loop of _run takes fuel, one unit for each round; a number above that of the approved items is
-- enough, since every round that goes on claims one of them or more.
--
-- The mutable items of a batch are values here, and an assignment to an item is an assignment to
-- the item with its resource name; the names of a validated batch are distinct. The checks of JSON
-- types in validate hold by the types of the model. Not modelled: the lock files and file modes,
-- the messages of foreign exceptions, the text of the CSV file (its cells are), the metrics of a
-- provider in the batch's usage, the summary within a page, and the other programs of the
-- repository: the script of the campaign, the batches of the security-group pilot, the servers and
-- the AWS adapters.
pub mod Prelude
pub mod Effects
pub mod Bulk
pub mod Receipts
pub mod Findings
pub mod Jobs
pub mod Backlog
pub mod Scaled
pub mod Pilot
pub mod Config
pub mod Campaign
pub mod Guarded
