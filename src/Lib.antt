-- ===== src/Lib.antt =====
-- A verification library for the recovery agent: a program that finds debts in a payment gateway
-- account, decides by a rule gate what may be done about each, and does what the gate allows.
--
-- The parts and how they meet. The detectors (internal/detect, in Detect) sweep the paged lists of
-- the gateway (the records of internal/razorpay that they read, in Razorpay) and build risk items
-- (internal/riskitem, in RiskItem and Action); the sightings of one debt are collapsed into one. A
-- run (internal/riskrun, in RiskRun) classifies the failure of an item (internal/classify, in
-- Classify), proposes an action and asks the gate (internal/policy, in Policy), which reads the
-- contact hours (internal/quiet, in Quiet), the promises to pay (internal/promise, in Promise) and
-- what the run's ledger says of the item; what the gate allows is done by the intervention engine
-- (internal/intervene, in Intervene) and committed to the ledger. The engine calls the gateway
-- through its client (internal/razorpay/client.go and invoices.go, in Razorpay/Client, Retry, Codec
-- and Endpoints) and writes a row of each action to the audit trail (internal/audit, with
-- internal/redact, in Audit).
--
-- The older retry engine keeps its counts by order (internal/store, in OrderStore). The cycle of one
-- order (internal/recovery, in Recovery) polls the gateway until the order is paid or the time is
-- spent (internal/poller, in Poller), classifies the failure, lets one of three arms act, which may
-- ask the gate, attempt a payment, or raise a payment link and have it sent (internal/notify, in
-- Notifier), and then reads the order back. Its gateway is the interface of Razorpay/Port.antt; the
-- one that is kept in memory (internal/razorpay/fake.go, in Gateway) decides by a table of test
-- cards (internal/testcards, in Cards).
--
-- An agent that works a batch by calls of tools meets a gate of its own before any handler runs
-- (internal/mcpserver/gate.go, in ToolGate): the middleware is gate, and the handler behind it is a
-- function of the state of the server.
--
-- How the code corresponds. A Go struct is a record with the fields of the struct in snake case, an
-- operation is a function of its name that returns the new state with its results, and a method's
-- receiver is its first argument; the comment over a definition names the Go text where the names
-- differ. Policy.Evaluate is evaluate in Policy.antt, each of its rules one function of
-- Policy/Rules.antt, tried in order; the conditions of the rules are said again, without the code,
-- in Policy/Fires.antt. A Go int or int64 is an integer, wrapped to 64 bits where the code adds or
-- multiplies; an instant is the count of nanoseconds since the year 1, a Duration saturates as in
-- package time. A map with text keys is an association list, a nil error or a false of a pair is
-- none, and the text of a reason is a constructor with the values that the text prints.
--
-- RiskRun.antt has the run with the engine's answer as an argument of each pass; RiskRun/Live.antt
-- has it with Apply in its place, and refines the former. The snapshots of a book that poll.go takes
-- before and after a run are in RiskRun/Snapshot.antt, and Diff is diff in RiskRun/Snapshot/Moved. Engine.Apply is apply in Intervene.antt,
-- which adds to the list of the calls that the engine has made; the actions are in Intervene/Notify
-- and Intervene/Dispatch, and what the engine may call is Outside in Intervene/Calls, whose answers
-- may depend on all the calls made before. Client.doWith is do_with in Razorpay/Retry.antt, which
-- answers with the list of what the client did. Recorder.Record is record_event in Audit.antt. The
-- adapter between the engine's promises and those of the gate is in RiskRun/Adapter.antt.
-- Poller.PollUntilTerminal is poll_until_terminal in Poller.antt, Arm.Act is act in
-- Recovery/Arms/Rules.antt, and Orchestrator.ProcessOrder is process_order in Recovery/Cycle.antt;
-- they pass on the state of everything outside the program, of any type, which each call of the
-- gateway, of an attempt or of a wait may change. The orders and payments that fake.go keeps behind
-- pointers are entries of association lists, put back when they change.
--
-- Loops are recursion on the list that they walk; the sweep's is recursion on the number of pages
-- that are left, at most the limit of its settings, and the client's on the attempts that are left,
-- so that both end by themselves. The decimal digits of an idempotency key take one unit of fuel
-- more than the number itself, which is more than its digits. The loop of a poll has no bound of
-- its own and recurses on fuel: a turn for each interval of the whole wait is enough when the clock
-- goes on by what a wait was asked for, and running out of it is an outcome of its own.
--
-- Parameters stand for what the program only calls: crypto/sha256 with the hex encoding, base64,
-- the tz database, regular expressions and the replacement, trimming and cutting of texts, JSON, the escaping
-- of a path, writers, the wait, pseudo-random numbers, and the round trip of one HTTP request. The pages that a sweep reads
-- and the answers to an engine are functions of what was asked; whether the audit trail takes a row
-- of a run is an argument of each pass. Every theorem ranges over them; that
-- on redaction asks of the regular expressions what Audit/Redaction.antt names.
--
-- Not modelled: locks, since each operation is one step, and the slots of concurrent requests; the
-- attributes of tracing spans; JSON text, files and the network; the pinning of redirects and the
-- base URL; customers, the creation of invoices and the details of payment links; the attempts of
-- the live layer, which are a function of the surface that the arms drive; the runner that drives
-- cycles over a batch, the replay transport, the seed books, and the handlers and the protocol of the MCP server; the assignment of
-- arms and the summary of a run; the text that reasons of the gate print.
pub mod Prelude
pub mod Time
pub mod Quiet
pub mod Action
pub mod Classify
pub mod RiskItem
pub mod Policy
pub mod Promise
pub mod Razorpay
pub mod Audit
pub mod Gateway
pub mod Intervene
pub mod Cards
pub mod Detect
pub mod RiskRun
pub mod OrderStore
pub mod Poller
pub mod Notifier
pub mod Recovery
pub mod ToolGate
