-- ===== src/Lib.antt =====
-- A verification library for the RB10 robot's motion stack: C++ nodes that take goals and sensor
-- data, compute joint commands and drive a Rainbow Robotics RB10 over TCP.
--
-- The parts and the files that model them:
--   * Common: numbers, lists, 32-bit words and texts that all parts share.
--   * Socket models `Rb10SocketClient` (src/rb10_socket_client.cpp and
--     include/rb10_rmpflow_rviz/rb10_socket_client.hpp), the client of the controller box. Its members
--     are the record Client, the operating system is the record Posix, whose state the client
--     carries. Socket.Io has `recv_exact`, `recv_byte` and `send_all`; Socket.Payload
--     `parse_state_payload`; Socket.Reader `read_data_loop`, split at its three reads;
--     Socket.Connection `connect`, `disconnect` and what they call; Socket.Command the texts, the
--     hand-shake of the servo commands, the shutdown sequence and the two other threads' loops.
--   * RmpflowBridge models src/rmpflow_bridge.cpp, the node that hands external goals over to the
--     controller and lets its joint commands through; its handlers are steps on the record Bridge.
--   * JointStateAdapter models src/joint_state_adapter.cpp, the node that brings joint states into the
--     order of the controller's joints.
--   * ProximityObstacleBridge models src/proximity_obstacle_bridge.cpp, the node that turns readings of
--     the proximity sensors into obstacle markers: subscriptions and parameters in the module itself,
--     `publish_obstacles` in Ticks, the constructor and runs of callbacks in Run. Its callbacks run in
--     one thread.
--   * DirectBridge models src/rb10_direct_bridge_node.cpp, the node between the controller's commands and
--     the socket client: Velocity has the velocity estimators, the module itself the handlers. The
--     calls of the client are outputs of the handlers, and what it reports is an input. Startup has
--     the constructor, with the states that the reader's thread hands over while it runs.
--   * Controller models src/rmpflow_controller_node.cpp, the node that runs the solver. Filter has
--     `SynchronizedVelocityFilter`; Backends the backends over topics and the simulated one, Direct
--     `DirectRb10Backend`, of which Threads is a step relation between the places where its three
--     threads may be interrupted. Members has the node's members and settings, Handlers what its
--     subscriptions do with them, Geometry the heights that are compared with the workspace, Command
--     the making and the guarding of a command, and Loop a round of `control_loop`, over any backend
--     that keeps the law of the interface ControllerBackend. Tests has a run of them.
--   * Learning models src/rmp_learning_interface.cpp as far as it rolls out batches of observations.
--   * ObstacleManager models the map of obstacles of src/obstacle_manager.cpp under its events; the
--     markers of the interactive server are not modelled.
--
-- Threads: a function of the client is the run of one thread. The others appear as a function on the
-- client that is applied wherever this thread sleeps, with what is relied on of them as a hypothesis.
-- The handlers of RmpflowBridge hold one mutex throughout, so a run of it is a list of handler calls;
-- so is a run of the other nodes, whose callbacks are taken one at a time. The controller's handlers
-- and the rounds of its control loop are taken one at a time too, though the code runs them on two
-- threads; only the threads of the direct backend are interleaved. The constructors of DirectBridge and
-- of the direct backend are cut where they set what the reader's thread reads: between two cuts that
-- thread hands over any states, each of which is handled as a whole.
--
-- Fuel: loops over `recv` and `send` have no bound in the source. They run on fuel, and the theorems
-- say that the number of bytes that are still to come or to go plus the number of interruptions
-- (EINTR, EAGAIN) that are in store is enough: each round takes a byte or uses up an interruption.
--
-- Parameters: the calls of the operating system, and the printing of a `double`. A `float` is its bit
-- pattern, a pose and a command array are opaque. The proximity bridge takes the operations on a
-- `double` and on frames as the record Geometry, the direct bridge those on a `double` and on the
-- clock as the record Floats, which the controller takes too; the joint state adapter takes values as
-- they are. The controller's record Model has the forward kinematics, the solver's `solve`, which is
-- const and may throw, and the operations on orientations: its theorems hold whatever these compute.
-- Sums and products of vectors are the joints' sums and products, each in one order.
--
-- Not modelled: the kinematics and the solvers (floating point over Eigen, Pinocchio and CasADi), the
-- order and the dimensions of the task graph, the learning stack, the reading of parameters, the
-- nodes and markers for RViz, ROS glue (publishers, subscriptions, declarations of parameters), log lines of
-- nodes, the Python scripts and the launch files.
pub mod Common
pub mod Controller
pub mod DirectBridge
pub mod JointStateAdapter
pub mod Learning
pub mod ObstacleManager
pub mod ProximityObstacleBridge
pub mod RmpflowBridge
pub mod Socket
