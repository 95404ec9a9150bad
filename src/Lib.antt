-- ===== src/Lib.antt =====
-- Verification of the core logic of the Agyn platform server, packages/platform-server. The server runs
-- a graph of nodes (agents, tools, triggers), buffers and summarizes the conversations of agents, and
-- keeps track of the Docker containers in which their tools work.
--
-- Parts and files; the sources stand below packages/platform-server/src:
-- - Prelude: shared tests, lists, maps with text keys, integers, texts as code points.
-- - Buffer: nodes/agent/messagesBuffer.ts. The class is the record MessagesBuffer, its map of threads
--   an association list; each method is a function from the buffer to a result and a buffer.
-- - Agent: nodes/agent/agent.node.ts, the runs of an agent over its Buffer, with agents/run-signals.service.ts;
--   each await of a run is a step, and the steps of all runs interleave.
-- - Container: the rows of the tables Container and ContainerEvent, and the queries on them. All the
--   services below share this one table.
--   Container/Reason: infra/container/containerEvent.reason.ts;
--   Container/Processor: infra/container/containerEvent.processor.ts, a step per Docker event:
--   Processor/Events parses it, Processor/Updates says what it changes;
--   Container/Registry: infra/container/container.registry.ts and container.mounts.ts, a step per
--   operation, and for a claim one for its read and one for its write;
--   Container/Cleanup: infra/container/containerCleanup.job.ts, the sweeps over the registry;
--   Container/Termination: infra/container/containerThreadTermination.service.ts.
-- - Terminal: infra/container/terminal.sessions.service.ts, a step per call.
-- - Node: nodes/base/Node.ts, the state machine of a node, a step per call up to its first await.
-- - Graph: shared/types/graph.types.ts and graph/liveGraph.types.ts; Graph/Ports: graph/ports.registry.ts
--   and ports.types.ts; Graph/Diff: computeDiff, Graph/Live: the nodes and edges, and Graph/Live/Apply:
--   the phases and the queue of apply, all of graph-core/liveGraph.manager.ts.
-- - Memory: nodes/memory/memory.service.ts and memory.repository.ts, a step per call. Memory/Paths:
--   normalizePath and getSegments; Memory/Store: the table of rows, in the order they were added, with the
--   queries of the repository; Memory/Documents: the operations of the service. Its loop of deletes
--   has as many rounds as the filter has rows, and one more, which Memory/Subtree shows to be enough.
-- - Summarization: llm/reducers/summarization.llm.reducer.ts.
-- - LlmLoop: the loop of packages/llm/src, loop.ts, reducer.ts and router.ts, over any reducers; the
--   loop may run forever, so that a fuel bounds its rounds, and LlmLoop/Outcome tells of every number.
-- - Runner: infra/container/dockerRunnerConnectivity.monitor.ts and dockerRunnerStatus.service.ts.
-- - VolumeGc: infra/container/volumeGc.job.ts, which sweeps only while Runner's status is up.
--
-- Conventions: a time is the number of milliseconds since the epoch and an argument of the call that
-- reads the clock; numbers are whole and unbounded, since the program's stay far below 2^53; a random
-- id is an argument. A promise that is awaited ends a step, except in Memory, where a call with its
-- queries is one step: calls that overlap are not modelled there. What Docker, the database, the language
-- model, node classes and schemas answer is an argument of the definitions: the theorems hold for all
-- answers. An error that the source throws is a value. All loops are structural recursion: the
-- stripping of unknown keys counts its retries down, as the source does, LlmLoop its rounds, and
-- Memory the rounds of a delete.
--
-- Not modelled: log lines, timers that call the modelled operations, HTTP and socket glue, clients of
-- external services, the browser front end, the persistence of runs and graphs, and, in Container and
-- Memory, a database call that rejects where the source does not catch it.
pub mod Agent
pub mod Buffer
pub mod Container
pub mod Graph
pub mod LlmLoop
pub mod Memory
pub mod Node
pub mod Prelude
pub mod Runner
pub mod Summarization
pub mod Terminal
pub mod VolumeGc
