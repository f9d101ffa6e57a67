-- ===== src/Lib.antt =====
-- OpenViking Admin: a verification library of the server (apps/server/src).
--
-- The server administers knowledge bases whose content an engine, OpenViking, indexes. People and
-- agents call its capabilities; editors open documents; requests change the tree of nodes of a
-- knowledge base; and import tasks, which a worker runs in the background, bring content in. The
-- parts meet at these places. A request passes the guards, which route it to the data of its tenant
-- as the cache of tenants tells, and an interceptor releases the connection that it works on. A
-- message of an agent is checked against its session, its credential is resolved to a principal,
-- with the configuration of the engine for the tenant, and a call of a capability then goes through
-- authorisation, the validation of its input and the rate limiter before the gateway runs; the
-- reply is an event of the session. Removing or moving a node, or removing a whole base, asks the
-- registry of open documents first; and a base is removed by removing its roots from the tree.
--
-- Prelude: tests on numbers and texts, branching, the language's `Map` as a list of entries in
--   insertion order, results that may be errors, membership in lists, and a stable sort with the
--   first rows of it, for the queries that ask for an order and a limit.
-- Capability: apps/server/src/capabilities.
--   Types and Contract model domain/capability.types.ts; Registry, with a file for each group of
--   entries, models application/capability-registry.ts; Schema and its children
--   application/capability-schema-validator.service.ts, against a relation of conformance;
--   RateLimit infrastructure/in-memory-capability-rate-limit.store.ts (Store),
--   infrastructure/redis-capability-rate-limit.store.ts (Redis, its script included) and
--   infrastructure/capability-rate-limit.service.ts (Service, over the interface of a store);
--   Authorization application/capability-authorization.service.ts; Catalog
--   application/capability-catalog.service.ts; Ttl and Exchange
--   domain/credential-ttl.policy.ts and application/credential-exchange.service.ts; Execution
--   application/capability-execution.service.ts;
--   Credentials infrastructure/capability-credential.service.ts, the principals and the keys.
-- Settings: apps/server/src/settings/ov-config-resolver.service.ts, and the deciphering of
--   apps/server/src/common/encryption.service.ts.
-- Mcp: apps/server/src/mcp. Sessions and Events model mcp-session.service.ts; JsonRpc, Methods and
--   Protocol mcp-protocol.service.ts: the shape of a message, its method, and the whole handling.
-- Session: apps/server/src/common/document-session-registry.ts (register, unregister, the questions
--   and the two locks).
-- Tree: apps/server/src/knowledge-tree. Node and Acl model domain/knowledge-node.model.ts and
--   knowledge-node-acl.service.ts; Table the queries of
--   infrastructure/repositories/knowledge-node.repository.impl.ts over one table of rows;
--   Service, with Service/Removal and Service/Updates, knowledge-tree.service.ts (findOne, remove,
--   update, touch, syncContentUri, syncIndexState). Camel case in the source is snake case here:
--   `collect_subtree_node_ids` is `collectSubtreeNodeIds`.
-- KnowledgeBase: apps/server/src/knowledge-base, with the queries of
--   infrastructure/repositories/knowledge-base.repository.ts.
-- ImportTask: apps/server/src/import-task. Service models retry, cancel and deleteFailed of
--   import-task.service.ts; Worker models polling and jobs of task-worker.service.ts as a run of
--   events, in which requests and jobs interleave.
-- Tenant: apps/server/src/tenant/tenant-cache.service.ts, the cache of where the data of a tenant
--   is, and, in Identity, tenant-identity.util.ts, by which name a tenant is found. Pool models
--   apps/server/src/common/dynamic-datasource.service.ts, the connections to the databases of
--   tenants; Guard tenant.guard.ts, roles.guard.ts and tenant-cleanup.interceptor.ts of the same
--   folder: what a request passes before and after its handler.
-- Ticket: apps/server/src/auth/sso/sso-ticket.service.ts, the tickets of a sign-in.
--
-- State is passed explicitly: an operation takes the state and returns its result with the new
-- state, also where it throws, since what it did before stays done. The clock, the engine, other
-- databases, the signing of tokens and whatever else lies outside of these files are fields of an
-- environment that an operation takes. An operation is one step, unless its file says
-- where others come in between: the import worker, the openings and destructions of connections,
-- the query of the cache of tenants, and the count before a knowledge base is created are steps of
-- their own. Limits that are counted before a write hold for calls that come one after the other.
--
-- Fuel: `collect_subtree_node_ids` and `remove_node` follow the children of a node, as deep as the
-- table goes. They take fuel, as does the removal of a base, and `none` is a walk that has not
-- ended. In a tree of finite height, where a rank falls from each node to its children, fuel above
-- the rank of the node is enough; on a table with a cycle no fuel is. All else is structural.
-- Numbers are natural: counters and times are non-negative integers far below 2^53, the range in
-- which the language computes with them exactly.
--
-- Not modelled: the web application, the command line client, WebDAV, document drafts and their
-- Markdown, search, users, the administration of tenants, the rest of the sign-in, which are
-- further parts; the timer that sends an agent its events, and the text made of the output of a
-- tool; queries that page through a table, and the dates that the ORM writes by itself; logs,
-- metrics and the text of messages; and, in the parts that are modelled, creating nodes and tasks,
-- and what a job of the worker does with the engine before it writes the row of its task.
pub mod Prelude
pub mod Capability
pub mod Session
pub mod Tree
pub mod ImportTask
pub mod Tenant
pub mod Ticket
pub mod Settings
pub mod Mcp
pub mod KnowledgeBase
