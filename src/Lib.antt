-- ===== src/Lib.antt =====
-- The authority boundary: what the workspace under crates/ decides, and what its stores keep.
--
-- The program answers one question, whether a principal of a tenant may use a capability, perhaps
-- on a resource, and keeps the records that the answer rests on. The contract crate has the data:
-- principals, tenants, claims, scopes, delegations, runs, ceremonies. The authz crate has the
-- policies and the pure engine with three entry points, which read a policy, a principal, a tenant
-- and delegations. The storage crate has the stores that the callers read those from, and an
-- in-memory implementation of each. The runtime crate has the mesh, which signs principals in and
-- up through the connectors of the providers crate, resolves their sessions, asks the engine and
-- records its decisions in the audit log, and grants delegations and runs. The declaration that
-- the mesh reads, and the hash that its ids are made of, are of the dsl crate. The boundary crate
-- keeps the live authority, the proposals to change it, and the challenges of recoveries.
--
-- The files, with paths from the repository's root:
--
-- Contract/Ids       crates/contract/src/ids.rs: identifiers, each a text
-- Contract/Claims    crates/contract/src/claims.rs, identity.rs, versioning.rs
-- Contract/Scope     crates/contract/src/delegation.rs, ResourceScope and is_subset_of
-- Contract/Delegation  the same file, Delegation, status_at and is_valid_at
-- Contract/Principal crates/contract/src/principal.rs
-- Contract/Tenant    crates/contract/src/tenant.rs
-- Contract/Run       crates/contract/src/run.rs
-- Contract/Ceremony  crates/contract/src/authentication.rs, AuthenticationCeremony
-- Contract/Recovery  crates/contract/src/capability.rs
-- Authz/Policy, Reason, Decision, Outcome  crates/authz/src/policy.rs
-- Authz/Condition    crates/authz/src/evaluator.rs, evaluate_condition and its helpers
-- Authz/Evaluator    the same file, evaluate and evaluate_with_delegations
-- Authz/Evaluator/CapabilityCheck  the same file, evaluate_capability
-- Authz/Evaluator/RequestCheck     the same file, evaluate_authorization_request
-- Authz/Evidence     crates/authz/src/policy.rs, AuthorizationEvidence
-- Dsl/Hash, Model    crates/dsl/src/model.rs, stable_hash and the part of AuthConfig that is read
-- Dsl/Passwords      the same file, PasswordPolicy
-- Providers/Connector  crates/providers/src/connector.rs, registry.rs
-- Runtime/Mesh       crates/runtime/src/mesh.rs, AuthMesh, tenant and policy
-- Runtime/Stores, Errors, Stateful  the same file, the stores and their lookups; error.rs; calls
--                    that change a state and may fail
-- Runtime/Auditing   mesh.rs, audit and the ids of events
-- Runtime/Recording, Authorizing  mesh.rs, record_decision, remember_decision, authorize and its
--                    companions
-- Runtime/Picking, Delegating, Running  mesh.rs, the decisions of delegate and create_agent_run and
--                    the checks of runs; context.rs
-- Runtime/Calls      mesh.rs, the calls that change delegations, runs and agents
-- Runtime/Contexts, Connecting, Signing  mesh.rs, sessions, connectors and accounts
-- Runtime/Resolution, Claims, Policies  resolution.rs, claims.rs, policy_store.rs
-- Boundary/Control   crates/boundary/src/control.rs: the live authority and its changes
-- Boundary/Proposals crates/boundary/src/proposal_store.rs, and rejecting and previewing of runtime.rs
-- Boundary/Applying  crates/boundary/src/runtime.rs, approving and applying stored proposals
-- Boundary/Challenges  crates/boundary/src/ceremony.rs: the challenges of recoveries
-- Storage/*          crates/storage/src/memory.rs: one file for each in-memory store;
--                    audit_log.rs, AuditEvent
-- Prelude/*          what the files share: equality tests, signed integers, lists, maps, texts
-- Tests/*            concrete inputs, and the theorems at them
--
-- Correspondence. A function keeps its name; a method is a function of its receiver, and one that
-- changes its receiver returns the new state with its result. A call of the mesh is a function of
-- the whole mesh, and what it wrote before it fails stays written. An early return is an `err` of
-- the do block that carries the decision. A loop is recursion on the list that it goes through; a
-- loop of the source that fills a vector has the vector as an argument or returns what it pushes.
-- A HashMap is an association list: the program iterates over one to test all entries, to sort
-- them, to find one, or to list the sessions of an identity, whose order is then arbitrary. Signed
-- 64-bit instants are integers with a sign, which the code compares and adds a lifetime to,
-- without overflow; the counters of sessions, events and runs are natural numbers that wrap at
-- 2^64.
--
-- Parameters. The system clock is an argument of the condition evaluator, none where it reads
-- before the epoch; one reading stands for all the readings of one evaluation, where the code
-- reads the clock for each time bound. The id of a new session is hashed from a seed and the
-- clock: `mint` gives the id for each value of the counter. The audit log that the mesh writes to
-- is any function that takes an event and may refuse it; a connector is a function of the
-- response. The fingerprint of a declaration is a field of it. The token of an approval is a
-- function of the change. The digest of a challenge's token is a function, and the token, which is
-- random, an argument. Where a lemma is about a part of a call, what the rest of the call reads is
-- an argument: the next id of a run, the hash behind a credential, the policy of the tenant. The
-- evaluations need no fuel; the digits of a number are printed with as much fuel as the number,
-- and a number has fewer digits.
--
-- Not modelled: the failure of a poisoned lock; the text explanations of grants and envelopes; the
-- export of audit events as JSON; beginning an attempt at a connector, and the reports of the
-- mesh; proposing changes, applying several proposals at once, and the request boundary; the mail
-- port; the server, surface, discovery and cli crates, the parser and the canonical form of the
-- dsl crate, the built-in connectors, the FeltDB adapter, and the JavaScript clients.
pub mod Prelude
pub mod Contract
pub mod Authz
pub mod Boundary
pub mod Dsl
pub mod Providers
pub mod Storage
pub mod Runtime
pub mod Tests
