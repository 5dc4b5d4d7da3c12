-- ===== src/Lib.antt =====
-- RoboBus: a bus protocol over CAN for the devices of a robot, and the runtime under it. This
-- library models the parts of it that decide, as functions on explicit states.
--
-- How the parts interact. A device (lib/bus/include/robobus/network/device) has a state, two
-- addresses and a table of interfaces by port. A frame that comes in is taken apart by its
-- identifier and goes to one interface (core.hpp, network_can.hpp); what an interface sends goes
-- out under an identifier made of the device's address. The enumeration interface
-- (interface/enumerate_interface.hpp) gives devices their addresses and lets one device read
-- another's description, by coroutines that send and wait: a coroutine that waits for an answer
-- stands in a list (SyncRxMixin of interface/interface.hpp) until a message of its opcode comes in.
-- Control streams (cstream.hpp, cstream_can.hpp) carry data on identifiers of their own and repeat
-- each datum until its code comes back. The loop (lib/runtime/include/robobus/runtime/loop.hpp)
-- resumes coroutines at their time; the console and the log monitor (console/interpreter.hpp,
-- monitor/srobo1_log.hpp) are what an operator sees, through the viewer (monitor/viewer.hpp),
-- beside the entries on the bus of the monitor (monitor/bus.hpp). Signals (internal/signal.hpp) tie
-- one part's events to another's functions.
--
-- The files, by what they model:
--   Base       shared: tests and lists on the native numbers, bit operations, differences with a
--              sign, texts and numbers in print
--   Wire       network/address.hpp, message_id.hpp, p2p_message_id.hpp: Address, from_parts
--              (FromParts), get_kind, get_source, get_destination, get_id
--   Device     network/device/device.hpp, device_feature.hpp, device_state.hpp: the record Device, one
--              function per method; Table and Addressing prove; Status: what StartMonitor reports
--   Network    network/core.hpp, network_can.hpp, and the sending half of interface/interface.hpp:
--              send_to, on_rx, route; Routing and Payload prove
--   Enumerate  network/interface/enumerate_interface.hpp and device_id_manager.hpp. State: the record
--              Enumerator (EnumerateInterface) and the actions of a handler; Encoder:
--              CollectingEncoder; Server: HandleRxAsync and what it calls; Coroutine and Client: the
--              coroutines QueryStr, QueryInterface, QueryDevice as trees of sends and waits; Length,
--              Chunks, Transfer, Description, Query, Describe: a string, an interface, a device go
--              over; Bus: two interfaces on the bus; Handshake, Awaited, Wakeup, Ids: addresses;
--              References, Answers, Search: FindInterface, its answers and its sleep; Questions,
--              Remote: queries as frames; Frames, Bounds, Replies, Invariant, Advances, Steps: what is
--              sent, and what stays true of the state
--   Reception  the class SyncRxMixin of network/interface/interface.hpp, on a linked list that is an
--              interface; Nodes and Waiters prove; Node: HandleRx of the enumeration interface; Drive,
--              Query and Remote run the coroutines of Enumerate on it, Remote over the bus; Sample is
--              the list of the tests
--   Stream     network/cstream.hpp, cstream_can.hpp, internal/multi_updatable.hpp. Inbound, Outbound,
--              Control and Can: the classes, with the signals that fire as lists of events;
--              Code, Integrity, Copies, Phases, Once, Sender, Session, Exchange and Wiring prove;
--              Words, Width, Calls, Short and Loading: the width of codes and control data
--   Console    console/interpreter.hpp: Interpreter; Memory, Editor (the abstract line editor),
--              Refinement, Runs, Sessions and Display prove
--   Monitor    monitor/srobo1_log.hpp: LogMonitor; Ring proves. Viewer: viewer.hpp, byte by byte;
--              Screen proves. Bus: bus.hpp and the entries by their links; Links and Entries prove
--   Signals    internal/signal.hpp: signals in a store, with their owners; Slots proves
--   Runtime    runtime/loop.hpp: Loop, on a queue and a clock that are interfaces; Resume proves.
--              Time: time_context.hpp; Run: the method Run with coroutines that sleep, by sleep.hpp;
--              Wakes, Passes and Finish prove; Sample is the queue of the tests
--   Awaiting   runtime/lazy_resumer.hpp, coroutine/promise.hpp, coroutine_awaiter.hpp,
--              immediacy_awaiter.hpp; Lazy, Waiters and Spot prove
--   Debug      debug/debug_info.hpp, internal/string_literal.hpp; Messages and Literals
--              prove. Contexts: context/context.hpp and root_context.hpp
--   Interfaces network/interface/irp_interface.hpp, random_name_interface.hpp; Commands and Names
--              prove
--
-- State is passed on: a method is a function from the state to the state and what comes of it. What
-- is undefined in the source (a read past the end of a message, a write outside of the console's
-- buffer) gives none or a coroutine that has gone wrong. A byte, a character and a word are
-- numbers, and a cast to a byte is written out as a remainder.
--
-- Bounds. The loops of a string's transfer run for their number of chunks; SendString fills at most
-- five cells of the eight; the iteration over the log takes twelve steps at most; the loop over
-- requests runs for those that are there at its start. Run takes fuel for its passes, and Finish
-- gives as much as it needs; Drive counts the messages that come in; the walk over the entries of
-- the monitor takes as many steps as there are entries.
--
-- Parameters, for code that is not in this repository: the queue of Nano (what it holds, first in
-- and first out), the linked list of robotics (four nodes, in their order) and what the assignment
-- of its nodes does to their links, the clock's order of time points and what it reads, the hash
-- RD16, the arithmetic of float in the timer of MultiUpdatable, the random byte of an advertisement
-- tag, and the order in which an unordered_map is walked, which is the order of an association
-- list.
--
-- Not modelled: the CAN driver and the logger; the frames of coroutines and their lifetime; what a
-- coroutine does while it is resumed, other than to sleep, to send and to wait; a slot that
-- connects another slot while it is called; in a query, what the asking side's own handlers do with
-- a message that no coroutine waits for; the thread that LaunchDebugThread starts; and render.hpp,
-- the concepts and the deleted copies of internal/sematicses.hpp.
pub mod Base
pub mod Wire
pub mod Device
pub mod Network
pub mod Console
pub mod Stream
pub mod Monitor
pub mod Runtime
pub mod Enumerate
pub mod Reception
pub mod Signals
pub mod Awaiting
pub mod Debug
pub mod Interfaces
