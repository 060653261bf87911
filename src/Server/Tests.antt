-- ===== src/Server/Tests.antt =====
-- The theorems on the handlers at concrete requests.
use kubernetes_agent.Base.{
  ℕ, String, Bool, true, [], ◌∷◌, ◌++◌, ◌≤◌, Option, none, some, ◌≡◌, refl, ap, Result, ok,
  length-append, drop, All, arith,
}
use kubernetes_agent.Crypto.{Bytes, Gcm, IsGcm}
use kubernetes_agent.Store.Failure.{DbError}
use kubernetes_agent.Policy.Rules.{Rule, deny_privileged}
use kubernetes_agent.K8s.Clients.{ClientGo, with_config, build, clients}
use kubernetes_agent.Server.Policies.{Service, create, serve_policy}
use kubernetes_agent.Server.Policies.Synced.{IsServed, serve_policy-IsServed}
use kubernetes_agent.Server.Clusters.{
  KubeConfig, CreateClusterRequest, ClusterService, create_cluster_handler, to_cluster_view,
  cluster_row,
}
use kubernetes_agent.Server.Clusters.Coherent.{start, created, clients-Reach}
use kubernetes_agent.Server.Clusters.Uploaded.{create_cluster_handler-clients}
use kubernetes_agent.Store.Messages.{SessionRow, Tables}
use kubernetes_agent.Scheduler.Tasks.{ScheduledTask}
use kubernetes_agent.Server.Query.{limit_of}
use kubernetes_agent.Server.Sessions.{
  SessionService, list_sessions_handler, to_session_view, bulk_delete, serve_session,
}
use kubernetes_agent.Server.Sessions.Page.{IsAsked, list_sessions_handler_bounds}
use kubernetes_agent.Server.Sessions.Kept.{IsKept, serve_session-IsKept}
use kubernetes_agent.Server.Chat.{ChatRequest, Fresh, open_chat}
use kubernetes_agent.Server.Chat.Stored.{IsStored, session_for, open_chat-IsStored}

-- a YAML library that reads one rule from any text
abbrev decode : String → Result DbError Rule
decode yaml = ok deny_privileged

abbrev empty : Service
empty = record {
  policies = [];
  engine = record { rules = [] };
  audit = record { next = 1; rows = [] };
}

serve_policy-IsServed_example :
    IsServed decode empty (serve_policy decode 7 "p" (create (some "name: x")) empty)
serve_policy-IsServed_example =
    serve_policy-IsServed decode 7 "p" (create (some "name: x")) empty tt

-- a client-go that reads any kubeconfig as itself
abbrev go : ClientGo
go = record {
  Config = Bytes;
  Dynamic = Bytes;
  rest_config = λ b. some b;
  new_dynamic = λ b. some b;
}

-- a cipher that leaves the text, under a tag of 16 zeros
abbrev tag : Bytes
tag = 0 ∷ 0 ∷ 0 ∷ 0 ∷ 0 ∷ 0 ∷ 0 ∷ 0 ∷ 0 ∷ 0 ∷ 0 ∷ 0 ∷ 0 ∷ 0 ∷ 0 ∷ 0 ∷ []

abbrev gcm : Gcm
gcm = record { seal = λ nonce plain. tag ++ plain; unseal = λ nonce blob. some (drop 16 blob) }

drop_tag : (plain : Bytes) → drop 16 (tag ++ plain) ≡ plain
drop_tag [] = refl
drop_tag (x ∷ xs) = refl

gcm-IsGcm : IsGcm gcm
gcm-IsGcm = record {
  opens = λ nonce plain. ap some (drop_tag plain);
  tagged = λ nonce plain. omega (arith, length-append tag plain);
}

abbrev nonce : Bytes
nonce = 1 ∷ 2 ∷ 3 ∷ 4 ∷ 5 ∷ 6 ∷ 7 ∷ 8 ∷ 9 ∷ 10 ∷ 11 ∷ 12 ∷ []

abbrev load : Bytes → Option KubeConfig
load b = some (record { current_context = ""; contexts = []; servers = []; users = [] })

abbrev upload : CreateClusterRequest
upload = record { name = "prod"; kubeconfig = 65 ∷ 66 ∷ [] }

abbrev no_clusters : ClusterService go
no_clusters = record { clusters = []; sessions = []; cache = [] }

abbrev uploaded : ClusterService go
unfolding create_cluster_handler
uploaded = (create_cluster_handler go load gcm (some nonce) 7 "c" (some upload) no_clusters).1

clients-Reach_example :
    (clients go gcm "c" uploaded.clusters uploaded.cache).0 ≡ build go gcm "c" uploaded.clusters
unfolding create_cluster_handler uploaded
clients-Reach_example =
    clients-Reach go gcm load uploaded "c" (created (some nonce) 7 "c" (some upload) (start [] []))

create_cluster_handler-clients_example :
    (clients go gcm "c" uploaded.clusters uploaded.cache).0 ≡ with_config go (some (65 ∷ 66 ∷ []))
unfolding create_cluster_handler
create_cluster_handler-clients_example =
    create_cluster_handler-clients go gcm load nonce 7 201 "c" upload
      (to_cluster_view (cluster_row "c" "prod" ("", "") (nonce ++ tag ++ 65 ∷ 66 ∷ []))) no_clusters
      uploaded gcm-IsGcm refl tt refl

abbrev session : String → ℕ → SessionRow
session id updated = record {
  id = id;
  title = "pods";
  cluster_id = some "c";
  created_at = 1;
  updated_at = updated;
}

-- an order and a LIKE that hold of any two titles
abbrev related : String → String → Bool
related a b = true

list_sessions_handler_bounds_example :
    (n : ℕ) × (limit_of "2" ≡ some n)
    × (1 ≤ n)
    × (n ≤ 100)
    × (2 ≤ n)
    × All
        (IsAsked related related "po")
        (to_session_view (session "3" 9) ∷ to_session_view (session "2" 8) ∷ [])
list_sessions_handler_bounds_example =
    list_sessions_handler_bounds related related "po" "" "" "2" ""
      (session "1" 7 ∷ session "2" 8 ∷ session "3" 9 ∷ []) 200
      (to_session_view (session "3" 9) ∷ to_session_view (session "2" 8) ∷ [])
      (unfold list_sessions_handler in refl)

abbrev a_task : ScheduledTask
a_task = record {
  id = "t";
  name = "n";
  prompt = "check";
  cron_expr = some "* * * * *";
  once_at = none;
  session_id = "1";
  enabled = true;
  created_by = "u";
  cluster_id = none;
  created_at = 1;
  next_run = none;
  last_run = none;
  run_count = 0;
}

abbrev service : SessionService
service = record {
  tables = record { sessions = session "1" 7 ∷ session "2" 8 ∷ []; messages = []; plans = [] };
  clusters = "c" ∷ [];
  tasks = a_task ∷ [];
  live = none;
}

serve_session-IsKept_example : IsKept "1" service (serve_session 9 "x" bulk_delete service).1
serve_session-IsKept_example = serve_session-IsKept 9 "x" "1" bulk_delete service refl refl

abbrev ids : Fresh
ids = record { session_id = "s"; message_id = "m"; created = 5; stored = 6 }

abbrev hello : ChatRequest
hello = record { session_id = "1"; message = "list pods" }

abbrev two_sessions : Tables
two_sessions = record { sessions = session "1" 7 ∷ session "2" 8 ∷ []; messages = [] }

abbrev opened : Tables
unfolding open_chat
opened = (open_chat ids (some hello) two_sessions).1

open_chat-IsStored_example :
    ("1" ≡ session_for ids hello) × IsStored ids "list pods" "1" two_sessions opened
open_chat-IsStored_example =
    open_chat-IsStored ids hello two_sessions opened "1" (some "c")
      (unfold open_chat opened in refl)
