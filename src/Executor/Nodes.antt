-- ===== src/Executor/Nodes.antt =====
-- The nodes of an executor (rclcpp/rclcpp/src/rclcpp/executor.cpp).
use pmros.Base.{ℕ, Bool, true, false, ◌==◌, ◌&&◌, if◌then◌else◌, none, some, List, [], ◌∷◌, ◌++◌}
use pmros.Base.Results.{Result, ok, err, runtime_error}
use pmros.Executor.{NodeBase, WeakNodeList, store}
use pmros.Executor.Strategy.{add_guard_condition, remove_guard_condition}
use pmros.Executor.Run.{Executor}

-- add_node, where `notify` asks for a trigger of the interrupt guard condition, and `fails` is
-- whether that fails.
abbrev pub is_added : ℕ → WeakNodeList → Bool
is_added a [] = false
is_added a (none ∷ nodes) = is_added a nodes
is_added a (some n ∷ nodes) = if n.address == a then true else is_added a nodes

unfoldable pub add_node : NodeBase → Bool → Bool → Executor → Result (Unit {0}) × Executor
add_node node notify fails ex =
    if ex.has_executor node.address
    then (err runtime_error, ex)
    else let ex' = record ex { has_executor = store node.address true ex.has_executor } in
      if is_added node.address ex.weak_nodes
      then (err runtime_error, ex')
      else let added = record ex' {
        weak_nodes = ex.weak_nodes ++ (some node ∷ []);
        guard_conditions = ex.guard_conditions ++ (node.notify_guard_condition ∷ []);
      } in
        if notify && fails then (err runtime_error, added) else (
          ok tt,
          record added {
            memory_strategy = add_guard_condition node.notify_guard_condition ex.memory_strategy;
          },
        )

-- The entries of a node and of its guard condition, which stand at the same place of two lists.
abbrev pub erase_node : ℕ → WeakNodeList → List ℕ → Bool × WeakNodeList × List ℕ
erase_node a [] gcs = (false, [], gcs)
erase_node a (n ∷ nodes) [] = (false, n ∷ nodes, [])
erase_node a (none ∷ nodes) (gc ∷ gcs) =
    let (removed, ns, cs) = erase_node a nodes gcs in (removed, none ∷ ns, gc ∷ cs)
erase_node a (some n ∷ nodes) (gc ∷ gcs) =
    let (removed, ns, cs) = erase_node a nodes gcs in
    if n.address == a then (true, ns, cs) else (removed, some n ∷ ns, gc ∷ cs)

unfoldable pub remove_node : NodeBase → Bool → Bool → Executor → Result (Unit {0}) × Executor
remove_node node notify fails ex =
    let (removed, nodes, gcs) = erase_node node.address ex.weak_nodes ex.guard_conditions in
    let ex' = record ex {
      weak_nodes = nodes;
      guard_conditions = gcs;
      has_executor = store node.address false ex.has_executor;
    } in
    if notify && removed && fails then (err runtime_error, ex') else (
      ok tt,
      record ex' {
        memory_strategy = remove_guard_condition node.notify_guard_condition ex.memory_strategy;
      },
    )
