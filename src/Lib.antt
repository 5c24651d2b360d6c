-- ===== src/Lib.antt =====
-- Verification of the ROS 2 client library for C++ of this repository (rclcpp/rclcpp), with its
-- lifecycle nodes, actions and timers down to the C libraries.
--
-- Chrono models Duration and Time (rclcpp/rclcpp/src/rclcpp/duration.cpp and time.cpp, with the
-- overflow tests of rclcpp/rclcpp/include/rclcpp/utilities.hpp). Chrono/Duration and
-- Chrono/TimePoint hold one function per constructor and operator; an int64_t is an integer with its
-- range as a hypothesis, and unsigned sums and casts wrap as they do in C++. std::abs of the lowest
-- int64_t, which has no defined result, is taken to be what negation of the bit pattern gives.
-- Operators on doubles are not modelled.
--
-- MappedRingBuffer models rclcpp/rclcpp/include/rclcpp/mapped_ring_buffer.hpp: a record of
-- elements, head and next unused address, and one function per overload of `get`, `pop` and
-- `push_and_replace`. A pointer is an address with the object behind it, so that moves, shares and
-- copies differ. Indices do not reach 2^64, since they stay below the number of elements.
--
-- IntraProcess models rclcpp/rclcpp/src/rclcpp/intra_process_manager.cpp and the headers
-- rclcpp/rclcpp/include/rclcpp/intra_process_manager.hpp and intra_process_manager_impl.hpp over that
-- ring buffer. A call returns its result or its exception, and the manager that it leaves.
-- IntraProcess holds the manager, its subscriptions and the calls that take a message;
-- IntraProcess/Publish those that look at publishers: what a weak pointer refers to (`lock`) and
-- the longest topic name of rmw are parameters there. Calls are made one after another; the mutexes
-- are not modelled.
--
-- Params models the parameters of a node, rclcpp/rclcpp/src/rclcpp/node_interfaces/node_parameters.cpp
-- with parameter.cpp and parameter_value.cpp of rclcpp/rclcpp/src/rclcpp. Params holds values,
-- descriptors and storage, and the functions whose names start with two underscores there;
-- Params/Node holds the state, declaring and undeclaring, Params/Set setting, with the parts of
-- set_parameters_atomically as functions of their own, and Params/Query the calls that read. The
-- storage is a std::map from names to values and descriptors. The messages of rcl_interfaces are
-- records, the user's callback is a function, and the events that are published are a list in the
-- state. Doubles are a parameter with the operations that the code uses (Params.Floats). Of the
-- constructor, Params/Overrides models what is made of the structs that the parser of rcl returns
-- (parameter_map.cpp), and the overrides; the parsing itself is not modelled. Params/EventsFilter
-- models parameter_events_filter.cpp.
--
-- Lifecycle models lifecycle nodes: rcl/rcl_lifecycle/src/rcl_lifecycle.c and transition_map.c
-- (Lifecycle: registration, lookup, _trigger_transition), default_state_machine.c (Lifecycle/Default,
-- with the rows of its table in the order of the code) and
-- rclcpp/rclcpp_lifecycle/src/lifecycle_node_interface_impl.hpp (Lifecycle/Node: change_state, with
-- the user's callbacks as functions, and the change_state service; Lifecycle/Services: the services
-- that read). The constants of lifecycle_msgs are enumerations, a pointer to a state is its position,
-- and whether the n-th notification can be published is a parameter. The loops of the services count
-- in a uint8_t and take fuel, one round more than there are elements. Lifecycle/Diagram states the
-- diagram, and Steps, Refine, Runs and Safety prove the code against it.
--
-- Timer models rcl/rcl/src/rcl/timer.c; every operation takes the readings of the clock that it
-- makes. Timer/Jitter models the timers of rclcpp (rclcpp/rclcpp/src/rclcpp/timer.cpp and
-- rclcpp/rclcpp/include/rclcpp/timer.hpp) with the tracker of
-- rclcpp/rclcpp/src/rclcpp/measuring/activation_jitter_tracker.cpp, which the callback of a timer
-- calls. Times are integers; sums that leave int64_t, which C does not define, are not modelled.
--
-- Actions models the goals of actions: goal_state_machine.c and goal_handle.c of
-- rcl/rcl_action/src/rcl_action, and rclcpp/rclcpp_action/src/server_goal_handle.cpp. Actions/Server
-- models the goals of a server in action_server.c: accepting, expiry with the expire timer (a timer of
-- Timer), and cancel requests. Writes into an array of the caller are listed with their index. The
-- loop of rcl_action_expire_goals, which moves the goals after an expired one down, goes over the
-- list of goals with the index that each has by then.
--
-- Measuring models the tracking of messages (rclcpp/rclcpp/src/rclcpp/measuring and
-- rclcpp/rclcpp/include/rclcpp/measuring): the trackers of publishers, which number a message in
-- place, and the hexadecimal form of a hash. Measuring/Writers models the files of
-- file_measurement_writer.cpp, as what is put into each stream, and the tracker of a subscription;
-- Measuring/Influx models when influxdb_measurement_writer.cpp uploads, where the size of the buffer
-- of the copied client is a parameter. The readings of the clocks are arguments.
--
-- Topics models rcl/rcl/src/rcl/validate_topic_name.c, a name being the list of its bytes;
-- Topics/Grammar and Topics/Accepted have the grammar of names and prove the two loops against it,
-- and Topics/Indices the bounds of the index that is given.
--
-- Topics/Expand models rcl/rcl/src/rcl/expand_topic_name.c. What rmw validates, the map of
-- substitutions, and rcutils_repl_str with the laws of a replacement from the left are parameters. The
-- loop takes fuel, one round more than the name has characters: each round removes all
-- occurrences of one substitution. Segments, Replaced, Expanded and Names take the loop apart, and
-- Whole states what the function promises.
--
-- Executor models the executors of rclcpp/rclcpp/src/rclcpp: callback groups (callback_group.cpp, in
-- Executor), the lookups of memory_strategy.cpp (Executor/Lookup), the handles of
-- rclcpp/rclcpp/include/rclcpp/strategies/allocator_memory_strategy.hpp (Executor/Strategy), and of
-- executor.cpp the choice of the next executable (Executor/Run), nodes (Executor/Nodes), and execution
-- with the loops of spin_once, spin_some and the single-threaded spin (Executor/Spin). A weak pointer is
-- an Option, none if it has expired, and the flag can_be_taken_from of each group is a function in the
-- state, since groups are shared. A Turn is what one round reads from outside: the timers that are due,
-- the result of rcl_wait, whether another thread has cancelled, and how callbacks end. A loop goes over
-- the turns of its rounds. Executor/Threads models the loop of executors/multi_threaded_executor.cpp as
-- steps of threads in any order: what the mutex protects is one step, and a callback is between two.
-- A thread takes an executable whose group can be taken from, as get_next_executable chooses it.
--
-- BoundedVector models the vectors of generated messages with an upper bound
-- (rosidl/rosidl_generator_cpp/include/rosidl_generator_cpp/bounded_vector.hpp) as lists, over a
-- std::vector with a max_size of its own; Operation has one constructor for each call that changes a
-- vector, with the sums of sizes modulo 2^64. BoundedVector/Bounds compares them with a vector without a
-- bound.
--
-- Base holds what they share: integers, byte strings, maps as association lists and results of code
-- that throws.
--
-- Not modelled: the copies of MurmurHash3 and of the InfluxDB client, which are other projects'
-- code; the wait set of rcl that an executor fills, and the takes of messages inside of its calls;
-- the writers of measurements that print or do nothing and the factories of trackers; the services
-- and the clients of actions; the rest of the C libraries, the Python tools and the code
-- generators.
pub mod Base
pub mod Chrono
pub mod MappedRingBuffer
pub mod IntraProcess
pub mod Params
pub mod Lifecycle
pub mod Timer
pub mod Actions
pub mod Measuring
pub mod Topics
pub mod Executor
pub mod BoundedVector
