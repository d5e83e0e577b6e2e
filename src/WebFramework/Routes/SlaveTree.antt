-- ===== src/WebFramework/Routes/SlaveTree.antt =====
-- The routes of a slave: `ClusterSlaveApplication.__init__`.
use cluster_runner_jie.Prelude.{List, [], ◌∷◌, none, some}
use cluster_runner_jie.WebFramework.Routes.{RouteNode, Nodes, nil, cons, new_node, add_children}

abbrev of_list : List RouteNode → Nodes
of_list [] = nil
of_list (n ∷ ns) = cons n (of_list ns)

unfoldable pub api_v1 : Nodes
unfolding add_children
api_v1 = of_list (
    (add_children
      (of_list (
        (new_node "version" "VersionHandler" none)
        ∷ (add_children
            (of_list (
              (add_children
                (of_list (
                  (new_node "setup" "BuildSetupHandler" none)
                  ∷ (new_node "teardown" "TeardownHandler" none)
                  ∷ (add_children
                      (of_list (
                        (add_children
                          (of_list (
                            (add_children
                              (of_list (
                                (add_children
                                  (of_list ((new_node "console" "AtomConsoleHandler" none) ∷ []))
                                  none (new_node "(\\d+)" "AtomHandler" none))
                                ∷ []))
                              none (new_node "atom" "AtomsHandler" (some "atoms")))
                            ∷ []))
                          none (new_node "(\\d+)" "SubjobHandler" (some "subjob")))
                        ∷ []))
                      none (new_node "subjob" "SubjobsHandler" (some "subjobs")))
                  ∷ []))
                none (new_node "(\\d+)" "BuildHandler" (some "build")))
              ∷ []))
            none (new_node "build" "BuildsHandler" (some "builds")))
        ∷ (add_children (of_list ((new_node "(\\d+)" "ExecutorHandler" (some "executor")) ∷ []))
            none (new_node "executor" "ExecutorsHandler" (some "executors")))
        ∷ (new_node "eventlog" "EventlogHandler" none)
        ∷ (new_node "kill" "KillHandler" none)
        ∷ []))
      none (new_node "v1" "APIVersionOneHandler" none))
    ∷ [])

unfoldable pub api_v2 : Nodes
unfolding add_children
api_v2 = of_list (
    (new_node "version" "VersionHandler" none)
    ∷ (add_children
        (of_list (
          (add_children
            (of_list (
              (new_node "setup" "BuildSetupHandler" none)
              ∷ (new_node "teardown" "TeardownHandler" none)
              ∷ (add_children
                  (of_list (
                    (add_children
                      (of_list (
                        (add_children
                          (of_list (
                            (add_children
                              (of_list ((new_node "console" "AtomConsoleHandler" none) ∷ [])) none
                              (new_node "(\\d+)" "AtomHandler" none))
                            ∷ []))
                          none (new_node "atoms" "AtomsHandler" (some "atoms")))
                        ∷ []))
                      none (new_node "(\\d+)" "SubjobHandler" (some "subjob")))
                    ∷ []))
                  none (new_node "subjobs" "SubjobsHandler" (some "subjobs")))
              ∷ []))
            none (new_node "(\\d+)" "BuildHandler" (some "build")))
          ∷ []))
        none (new_node "builds" "BuildsHandler" (some "builds")))
    ∷ (add_children (of_list ((new_node "(\\d+)" "ExecutorHandler" (some "executor")) ∷ [])) none
        (new_node "executor" "ExecutorsHandler" (some "executors")))
    ∷ (new_node "eventlog" "EventlogHandler" none)
    ∷ (new_node "kill" "KillHandler" none)
    ∷ [])

-- The root of all routes.
unfoldable pub routes : RouteNode
unfolding api_v1 api_v2 add_children
routes =
    add_children api_v2 (some 2) (add_children api_v1 (some 1) (new_node "/" "RootHandler" none))
