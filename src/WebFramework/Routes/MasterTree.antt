-- ===== src/WebFramework/Routes/MasterTree.antt =====
-- The routes of the master: `ClusterMasterApplication.__init__`.
use cluster_runner_jie.Prelude.{List, [], ◌∷◌, none, some}
use cluster_runner_jie.WebFramework.Routes.{RouteNode, Nodes, nil, cons, new_node, add_children}

abbrev of_list : List RouteNode → Nodes
of_list [] = nil
of_list (n ∷ ns) = cons n (of_list ns)

unfoldable pub api_v1 : Nodes
unfolding add_children
api_v1 = of_list (
    (add_children
      (of_list (
        (new_node "metrics" "MetricsHandler" none)
        ∷ (new_node "version" "VersionHandler" none)
        ∷ (add_children
            (of_list (
              (add_children
                (of_list (
                  (new_node "result" "BuildResultRedirectHandler" none)
                  ∷ (new_node "artifacts.tar.gz" "BuildTarResultHandler" none)
                  ∷ (new_node "artifacts.zip" "BuildZipResultHandler" none)
                  ∷ (add_children
                      (of_list (
                        (add_children
                          (of_list (
                            (add_children
                              (of_list (
                                (add_children
                                  (of_list ((new_node "console" "AtomConsoleHandler" none) ∷ []))
                                  none (new_node "(\\d+)" "AtomHandler" (some "atom")))
                                ∷ []))
                              none (new_node "atom" "AtomsHandler" (some "atoms")))
                            ∷ (new_node "result" "SubjobResultHandler" none)
                            ∷ []))
                          none (new_node "(\\d+)" "SubjobHandler" (some "subjob")))
                        ∷ []))
                      none (new_node "subjob" "SubjobsHandler" (some "subjobs")))
                  ∷ []))
                none (new_node "(\\d+)" "BuildHandler" (some "build")))
              ∷ []))
            none (new_node "build" "BuildsHandler" (some "builds")))
        ∷ (new_node "queue" "QueueHandler" none)
        ∷ (add_children
            (of_list (
              (add_children
                (of_list (
                  (new_node "shutdown" "SlaveShutdownHandler" (some "shutdown"))
                  ∷ (new_node "heartbeat" "SlavesHeartbeatHandler" none)
                  ∷ []))
                none (new_node "(\\d+)" "SlaveHandler" (some "slave")))
              ∷ (new_node "shutdown" "SlavesShutdownHandler" (some "shutdown"))
              ∷ []))
            none (new_node "slave" "SlavesHandler" (some "slaves")))
        ∷ (new_node "eventlog" "EventlogHandler" none)
        ∷ []))
      none (new_node "v1" "APIVersionOneHandler" none))
    ∷ [])

unfoldable pub api_v2 : Nodes
unfolding add_children
api_v2 = of_list (
    (new_node "metrics" "MetricsHandler" none)
    ∷ (new_node "version" "VersionHandler" none)
    ∷ (add_children
        (of_list (
          (add_children
            (of_list (
              (new_node "result" "BuildResultRedirectHandler" none)
              ∷ (new_node "artifacts.tar.gz" "BuildTarResultHandler" none)
              ∷ (new_node "artifacts.zip" "BuildZipResultHandler" none)
              ∷ (add_children
                  (of_list (
                    (add_children
                      (of_list (
                        (add_children
                          (of_list (
                            (add_children
                              (of_list ((new_node "console" "AtomConsoleHandler" none) ∷ [])) none
                              (new_node "(\\d+)" "AtomHandler" (some "atom")))
                            ∷ []))
                          none (new_node "atoms" "V2AtomsHandler" none))
                        ∷ (new_node "result" "SubjobResultHandler" none)
                        ∷ []))
                      none (new_node "(\\d+)" "SubjobHandler" (some "subjob")))
                    ∷ []))
                  none (new_node "subjobs" "V2SubjobsHandler" none))
              ∷ []))
            none (new_node "(\\d+)" "BuildHandler" (some "build")))
          ∷ []))
        none (new_node "builds" "V2BuildsHandler" none))
    ∷ (new_node "queue" "QueueHandler" none)
    ∷ (add_children
        (of_list (
          (add_children
            (of_list (
              (new_node "shutdown" "SlaveShutdownHandler" none)
              ∷ (new_node "heartbeat" "SlavesHeartbeatHandler" none)
              ∷ []))
            none (new_node "(\\d+)" "SlaveHandler" (some "slave")))
          ∷ (new_node "shutdown" "SlavesShutdownHandler" none)
          ∷ []))
        none (new_node "slaves" "SlavesHandler" none))
    ∷ (new_node "eventlog" "EventlogHandler" none)
    ∷ [])

-- The root of all routes.
unfoldable pub routes : RouteNode
unfolding api_v1 api_v2 add_children
routes =
    add_children api_v2 (some 2) (add_children api_v1 (some 1) (new_node "/" "RootHandler" none))
