-- ===== src/Lib.antt =====
-- Verification of MVP Master: the services that take a client's request over an approved
-- specification to a verified and delivered change of a repository.
--
-- The parts and how they interact
--   * The control plane (services/control_plane/src/mvp_control_plane) keeps organizations, members,
--     projects, intakes, specifications and work items. A work item that is made ready is announced
--     by an event in its outbox.
--   * The delivery service (services/delivery/src/mvp_delivery) accepts ready work items as
--     executions, waits for an approval, queues a job for a runner, and decides by the runner's
--     report whether to repair, to hand over to a human or to publish.
--   * Runners (runners/docker_runner/src/mvp_runner) enrol with the delivery service, lease jobs, run
--     an agent in a workspace, validate what it did, and report results.
--   * The integrations service (services/integrations/src/mvp_integrations) keeps the installations of
--     source control providers with their repositories, and opens pull requests there.
--   * Events go from the control plane's outbox through a message broker, which may deliver them more
--     than once, to the inbox of the delivery service.
--
-- Which file models which part
--   ControlPlane/Models        domain/models.py and domain/errors.py; its child Transitions has the
--                              methods that change a status
--   ControlPlane/Permissions   domain/permissions.py
--   ControlPlane/Store         adapters/memory.py; its child Rows has the lists
--   ControlPlane/Service       application/service.py, with the children Specifications and WorkItems;
--                              Calls has histories of calls
--   ControlPlane/Outbox        entrypoints/outbox.py and the outbox of adapters/postgres.py
--   Delivery/Models            the enumerations, records and the budget of domain/models.py
--   Delivery/Execution         the methods of `Execution` in domain/models.py
--   Delivery/Runtimes          domain/agent_runtimes.py
--   Delivery/Configuration     `AgentProviderConfiguration` of domain/models.py
--   Delivery/Store             adapters/memory.py and the records of application/ports.py
--   Delivery/Service           application/service.py; Calls has histories of calls
--   Delivery/Jobs              the runner jobs of adapters/postgres.py
--   Delivery/Database          the executions, events and new jobs of adapters/postgres.py
--   Delivery/Rows              the rows of executions in adapters/postgres.py; its child RoundTrip
--                              has how they are read back
--   Delivery/Consumer          entrypoints/events.py, with the inbox and the memberships
--   Delivery/Dispatcher        entrypoints/workflow_dispatcher.py, with the gateway of
--                              adapters/postgres.py
--   Delivery/Activity          adapters/activities.py
--   Delivery/Workflow          adapters/temporal_workflow.py
--   Integrations/Models        domain/models.py and domain/errors.py of the integrations service
--   Integrations/Store         adapters/memory.py there
--   Integrations/Providers     application/ports.py there; Local is adapters/local_source_control.py
--   Integrations/Service       application/service.py there
--   Runner/Models              domain/models.py and domain/errors.py of the runner
--   Runner/Providers           adapters/provider_catalog.py there
--   Runner/Agents              adapters/agent_registry.py and entrypoints/job.py there
--   Runner/Execution           application/execute.py there
--   Runner/Validation          adapters/validator.py there
--   ControlPlane/Witnesses, Delivery/Witnesses, Integrations/Witnesses, Runner/Witnesses
--                              the theorems at concrete inputs
--   Contracts                  packages/python_common/src/mvp_common/contracts.py
--   Base, Exec, Dict           what the models share: tests, lists, Python's `strip`, methods that
--                              raise (`Exec`), and Python's `dict`
--
-- A definition has the name of the Python function, method or class that it models, and returns the
-- changed object or store beside what the call returns or raises. A store that a failing call has
-- changed stays changed, except in the transactions of the activities, which are rolled back.
--
-- Modelling choices
--   * What `uuid4`, `secrets`, the clock and SHA-256 return are arguments. Histories of calls assume
--     that the identifiers a call draws for new objects are not in use.
--   * A UUID is a number, a time the number of its microseconds.
--   * Counters and limits are natural numbers, as the request models of the HTTP interfaces demand.
--   * The memory stores hand out the stored objects themselves; a method called on such an object
--     changes the store at once, and the models do so too.
--   * Row level security (the migrations) hides the rows of other organizations: every look-up in
--     Delivery/Jobs and Delivery/Database is for the current organization, and Delivery/Consumer and
--     ControlPlane/Outbox test the organization of the row that they find.
--   * `SELECT ... FOR UPDATE SKIP LOCKED LIMIT 1` is a parameter that picks one of the rows that fit.
--     A collision of primary keys, which random identifiers do not have, is not modelled.
--   * The waiting loop of `execute_delivery` is given by its turns, since runners act in between. There
--     is no fuel: a turn is a function.
--   * Message broker, Temporal's client, source control provider, agents, processes and workspaces are
--     interfaces over states of their own. What the theorems use of them is a record of laws (`Broker`,
--     `Surroundings`) or a named hypothesis. The publisher's batches are counted; as many as events
--     wait are enough, since each publishes at least one.
--   * The JSON columns of an execution are dicts. pydantic's `model_dump` and constructor, `int` of a
--     text and `str` of a number are parameters, of which a law says that a model's own dict is not
--     empty and gives the model back (`IsFaithful`).
--   * The order of the consumer's messages is any list. A message whose handling raised stays
--     unacknowledged and may stand in the list again.
--   * The workflow is a function of the events that happen to it: signals, Temporal's turns, and the
--     ends of its activities, in any order. Its activities are named, not run, there.
--   * Messages of exceptions are left out, but for the names of the exceeded limits.
--
-- Not modelled: HTTP routes and their validation, token checks, object-relational mapping, Temporal,
-- Docker and the agents themselves, the calls of GitHub, the web application and the infrastructure.
pub mod Base
pub mod Exec
pub mod Dict
pub mod Contracts
pub mod ControlPlane
pub mod Delivery
pub mod Integrations
pub mod Runner
