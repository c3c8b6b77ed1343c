-- ===== src/Lib.antt =====
-- GAIA-Server: the causal message bus, tenant registry, restore orchestrator, storage adapters and
-- their factory, health aggregator, inference router and backends, artifact signer, planetary hub,
-- guest sandbox, telemetry, service methods, logging and entrypoint of the package gaia_server.
--
-- The program. The entrypoint makes the storage registry and the inference router from the
-- environment, asks both for their health, waits for a signal and drains the connection. The
-- factory of the registry makes the streams and the bucket that are missing. The registry holds
-- an event store (JetStream), a checkpoint store (MinIO) and a metadata store (etcd). The
-- restore orchestrator reads a manifest from the metadata store, checks it, fetches the
-- checkpoint, replays the events after its cursor and promotes the node's trust class by a
-- compare-and-swap. The message bus delivers messages of several cores in causal order, by
-- vector clocks. The tenant registry admits tenants up to a limit and gives each a namespace.
-- The telemetry collector and the service read the substrate of the package gaia_core: the one
-- in a thread, the other on request.
--
-- The files, and the code that each is about:
--   Base, Dict          Python's truth values, exceptions, texts, numbers and dicts
--   Broadcast           gaia_server/ipc/causal_broadcast.py, the class CausalBroadcast: init,
--                       subscribe, send, receive, deliver and try_deliver_buffered (`_deliver`,
--                       `_try_deliver_buffered`). Its children are proofs: Delivery and Clock hold
--                       what every reception keeps, Causality and Sending the causal order, Settled
--                       the loop, Accounting and Conservation the counts, Reordering the arrival
--                       in any order, Stale the messages that are never delivered. Network has
--                       several cores and the messages between them, each with what its sender
--                       knew; Past, Arrivals, Departures and Predecessors are about the order in
--                       which such cores deliver, Growth and Eventual about what they deliver in
--                       the end
--   Tenancy             gaia_server/tenancy/tenant_registry.py; Config, gaia_server/config.py
--   Core                what the code takes from the package gaia_core, and from json and hashlib
--   Errors              gaia_server/restore/errors.py and the exceptions of the clients
--   Environ             os.environ, for the two classes of settings
--   Storage             gaia_server/storage: Etcd, Minio, Jetstream, Registry and Settings;
--                       Lazy is about the package's __init__.py, Bootstrap about bootstrap.py and
--                       factory.py. Checkpoints (of Minio), Reading (of Jetstream), Environment
--                       (of Settings) and Streams (of Bootstrap) are the proofs.
--                       InMemory and Cluster have servers that the tests run on
--   Restore             gaia_server/restore/orchestrator.py, one function for each method. Steps has
--                       what each step keeps and has checked when it returns, Returns when it does,
--                       Causes what it has met when it refuses, Foreign that the stores raise no
--                       RestoreError; Admission, Success, Refusal, Diagnosis and Promotion are the
--                       proofs
--   Health              gaia_server/health.py; Verdict is the proof
--   Inference           gaia_server/inference/router.py, factory.py and backends/mock.py; its child
--                       Settings is about settings.py and LlamaCpp about backends/llamacpp.py.
--                       Routing and Answers are the proofs
--   Entrypoint          gaia_server/entrypoint.py: Entrypoint has the health check and the decision,
--                       Main the rest of main, and _shutdown. Decision and Lifecycle are the proofs
--   Security            gaia_server/security: pqc_profile.py and artifact_signer.py; Signing and
--                       Backends are the proofs
--   Planetary           gaia_server/planetary/state_hub.py, and the two methods of
--                       gaia_server/ipc/grpc_server.py that serve it; Latest is the proof
--   Sandbox             gaia_server/sandbox/guest_sandbox.py; Lifecycle is the proof
--   Substrate           the snapshot of the substrate of gaia_core
--   Telemetry           gaia_server/observability/telemetry.py; Window and Shutdown are the proofs
--   Logging             gaia_server/logging_config.py
--   Service             gaia_server/ipc/grpc_server.py, its other methods; Replies is the proof
-- A module Examples beside the proofs (and FactoryExamples in Storage) holds each theorem at
-- concrete values.
--
-- How code corresponds to definitions. A class is a record of its fields, and a method a function
-- that takes the record and gives the changed one. A call that may raise gives a Result, and one
-- that also writes is an Exec: a function of the state to a result and a state, in which what was
-- written before an exception stays written. A lock makes a public method one step. Concurrent
-- processes are an argument: `restore` takes what the others do to the servers before each step,
-- and the promotions of one token stand in a sequence with other writes between them. A thread is a
-- place in its loop, and the threads take turns in an arbitrary sequence of events: what it does
-- outside the lock and what it does under it are two turns. Several cores
-- are a network, whose steps are a send, the arrival of a message that was sent, with no bound on
-- when or how often, and a subscription; beside the code's state it keeps, with each message, the
-- ids that its sender had delivered or sent, which no code reads. The signal that
-- ends `main` is an argument too: the state of the servers when it comes, or that none comes.
--
-- Parameters. The package gaia_core, json and hashlib are the record GaiaCore, and its
-- substrate the record Substrate. The clients of etcd3, minio and nats are the records
-- EtcdClient, MinioClient and NatsClient over an arbitrary state of the servers, and the record
-- Packages makes them; EtcdLaws, NatsFrame, MinioLaws and DeliveryLaws state what
-- their documentation promises (a put stores, a compare-and-swap compares, a subscription that
-- is made delivers the messages in order), and AnswersCalls and AnswersWaits are the cases that
-- etcd answers every call and that no wait for a message that is there times out. RaisesForeign says that these packages
-- do not raise the exceptions of this program.
-- CheckpointCodec says that json and the wire form can be read back. The enum RuntimeBackend is
-- given by the texts of its members, and a backend by what waiting for it gives: a response, a
-- timeout or an exception; LlamaPackage is the package llama_cpp. Hashes and random bytes are
-- parameters and arguments of the signer, and the optional packages of the guest sandbox are
-- the record Host.
--
-- Fuel. The loop over the hold queue runs on fuel, one round for each held message and one more,
-- since a round that is not the last delivers a message.
-- Every other loop is a recursion on a list or on a number that the code bounds.
--
-- Numbers are natural numbers, as Python's integers do not overflow; the cursor of a restore,
-- the limits of replays and the settings are integers, since the code would read negative ones.
-- The floats of the planetary hub are a parameter, those of the inference are kept as they are
-- printed. Time and the lines of the log are left out, and so is the text of exceptions but in
-- the router, the llama.cpp backend and the sandbox. Not modelled: the deployment.
pub mod Base
pub mod Dict
pub mod Broadcast
pub mod Config
pub mod Tenancy
pub mod Environ
pub mod Errors
pub mod Core
pub mod Health
pub mod Inference
pub mod Entrypoint
pub mod Storage
pub mod Restore
pub mod Security
pub mod Logging
pub mod Planetary
pub mod Sandbox
pub mod Service
pub mod Substrate
pub mod Telemetry
