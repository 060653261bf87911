-- ===== src/Lib.antt =====
-- Verification of kubernetes-agent, a chat agent that operates Kubernetes clusters. A model proposes
-- operations; a policy engine decides which of them are denied, which a person confirms and which
-- run; a plan is built by a dry run, confirmed, and executed.
--
-- Modules and the code that they model:
--   Policy    internal/policy: Rules (rule.go, op.go, default.go), JsonPath (jsonpath.go), Engine
--             (Evaluate and its helpers), Reload (ReloadPolicies)
--   Store     internal/store: Policies (policies.go), Plans (plans.go), Messages (messages.go),
--             Sessions (sessions.go), Audit (audit.go), Clusters (clusters.go)
--   K8s       internal/tools/k8s: Op (op.go), Summary and Plan (plan_write.go), Execute
--             (execute_plan.go); Api is what they ask of a cluster; Resolver (resolver.go,
--             wellknown.go) and Clients (client.go); Read (get.go, describe.go, list.go); Rebind is the
--             JSON round trip that sets an operation's cluster (internal/agent/tools.go)
--   Crypto    internal/crypto/aead.go, with MasterKey (masterkey.go)
--   Agent     internal/agent: Session (session.go), PlanTurn (the plan tool's wait, interleaved with
--             the requests that end it), AskTurn and Tools (tools.go, internal/tools/k8s/ask_user.go),
--             Transcript, History and Runner (agent.go); Resume is internal/server/handler_resume.go
--   Llm       internal/llm: Splitter (thinkSplitter of fantasy.go), Stream (fantasyStream of anthropic.go),
--             Prompt (the conversions of fantasy.go)
--   Scheduler internal/scheduler/scheduler.go: Entries (the cron jobs), Trigger (checkAndTrigger);
--             Tasks (internal/store/scheduled.go), Handlers (internal/server/scheduled.go)
--   Server    internal/server: Policies, Clusters, Sessions, Chat (the handler_*.go of these names),
--             Query (the query of handler_sessions.go), Response (response.go)
--   Skills    Paths and FsRead (internal/tools/agent/fs_tool.go); Frontmatter (internal/skills/loader.go),
--             Loader (loader.go and prompt.go there, and internal/tools/agent/skill_tool.go)
--   Main      cmd/server/main.go, with internal/llm's registry and pings and internal/config's defaults
--   Json      the values that encoding/json and yaml.v3 decode into `any`, and json.Marshal
--   Text      what the code uses of Go's `strings`
--   Base      names, lists and tests that all of these share
--
-- How they interact: the runner asks a model and hands its tool calls to Agent.Tools, which plan by
-- K8s.Plan and execute by K8s.Execute, both under the rules of Policy.Engine; a plan is stored in
-- Store.Plans between the two, and the plan tool waits on an Agent.Session that Agent.Resume ends.
-- Policy.Reload takes the rules from Store.Policies, and Server.Policies calls it after each edit;
-- Server.Clusters seals a kubeconfig by Crypto, and K8s.Clients opens it and caches the clients;
-- Server.Sessions asks Scheduler.Tasks before it deletes. The children of a module hold its theorems, and
-- the Tests modules apply them at concrete inputs.
--
-- State is passed explicitly. The policy engine's rules are a record, a table of the database is the
-- list of its rows, and the clusters are the list of the requests sent so far, from which the
-- parameter `Api` computes each answer: a server may answer anything that depends on what it was
-- sent. A call of the cluster tools is a function from that list to a result and a longer list.
--
-- The scheduler checks a task at each time of its cron jobs and hands its prompt to a run of the
-- agent, a parameter there, as the program builds it behind an untyped factory. Checks of one task
-- overlap: what one does before its run is a definition, and what the others write meanwhile a
-- relation. Which job UnscheduleTask
-- meets first is open, so it is a relation, and so are the handlers that call it.
--
-- The runner is modelled over any client, tools and store that keep a state and return; a stream is the
-- finite list of what it delivers. The interleaving of a turn with its requests is a step relation.
--
-- Parameters stand for what the repository does not contain: Unicode's folding table (`orbit`), the
-- YAML library (`encode`, `decode`, `load`), client-go (`Api`, `ClientGo`, `Reader`), AES-GCM (`Gcm`),
-- the cron library (`add_func`, `next`), SQLite's LIKE and its order of titles (`like`, `title_le`), the
-- file system (`read`, `FileSystem`), the adapters of the fantasy library (`make`), fmt's verbs
-- (`Printer`, `hex`), encoding/json where the text itself matters (`Codec`, `parse`), uuid.NewString and
-- the clock. Go's strings are sequences of code points here.
-- Loops are structural recursion, but for the splitter's, whose fuel is one more than the length of
-- its text: that is more than the rounds of Splitter.Fuel, as each of them consumes a tag. The
-- runner's outer loop has the 32 steps that the code gives it.
--
-- Not modelled: the front end, the HTTP router and middleware, the Markdown export, the
-- SQL connection and its failures, the wire formats of the model providers, the reading of the
-- configuration, and logging: they are I/O, or calls of libraries.
pub mod Base
pub mod Json
pub mod Text
pub mod Agent
pub mod Crypto
pub mod K8s
pub mod Llm
pub mod Main
pub mod Policy
pub mod Scheduler
pub mod Server
pub mod Skills
pub mod Store
