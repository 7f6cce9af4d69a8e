-- ===== src/Lib.antt =====
-- A FIX 4.0 trading simulator: a server that frames and decodes FIX messages (src/fix), keeps time
-- for its sessions with a timing wheel (include/base), matches orders (src/app/engine), and keeps
-- accounts and positions (src/app/manager).
--
-- Timer models include/base/timing_wheel.hpp. A node of the wheel is shared between a slot and
-- `task_map_`, so nodes live in a store that is indexed by their ids. `tick` is `advance`, the
-- part under the lock, and `run_tasks`, the part outside it; what a callback does to the wheel is
-- a parameter: a function from wheels to wheels, which may add and cancel tasks. The sums of `int` are
-- integers here, and the theorems on added tasks show that they are in range on a wheel that is small
-- enough. The mutex is left out: each operation runs whole.
--
-- Fix models include/fix/fix_codec.hpp (Fix/Message for FixMessage, Fix/Codec for FixCodec) and
-- src/fix/fix_frame_decoder.cpp (Fix/FrameDecoder). Bytes are numbers, a message is an association
-- list from tags to texts, and a C++ exception is an `err`. The time stamp that `encode` takes
-- from the clock is an argument. The decoder cuts messages from a stream, and the codec reads
-- them.
--
-- Engine models include/app/model/order.hpp (Engine/Order) and src/app/engine/order_book.cpp
-- (Engine/OrderBook for the matching loops, Engine/OrderBook/Operations for adding, and
-- Engine/OrderBook/Removal for cancelling and the queries). A `std::map` of price levels is a list
-- in the map's order, best price first; the loops for buyers and sellers are one text over the
-- side of the taker. A `double` is any type with the operations of the record Double of
-- Prelude/Floats; the tests run on whole ticks. Quantities are integers, far below the limits of
-- `int64_t`, and the log and the time stamps are left out.
--
-- Engine/Matching models include/app/engine/matching_engine.hpp with
-- src/app/engine/matching_engine.cpp, and Engine/Events the events, requests and reports that it
-- takes and makes (include/app/engine/order_event.hpp and the rest of order.hpp). Orders are filled
-- by market data (Engine/Matching/Market); Engine/Matching/Requests has what orders and cancel
-- requests do. The worker thread takes turns between two queues; a turn is what one of them hands
-- out (Turn), and `run` takes any sequence of them. What the engine does to its queues, its callbacks and the instrument
-- manager is recorded as effects, the latest first.
--
-- Base models src/base/config.cpp, which reads the settings of the server: Base/Config has the
-- reader and the queries, over the text of the file.
--
-- Manager models the managers of src/app/manager with their data in include/app/model:
-- Manager/Accounts for AccountManager, Manager/Positions for PositionManager, Manager/Instruments
-- for InstrumentManager, Manager/Risk for RiskManager. An unordered map is an association list
-- with one entry for each key (Prelude/Maps), and the store that a manager may have is the list of
-- what was saved to it. The risk checks read an account and a position of the other two. The volumes
-- of positions are integers: their sums are those of the program's `int64_t` below 2 ^ 63, which the
-- program does not check. Laws of accounts that need exact sums are stated in whole cents, the
-- instance `ticks_double`, and say so.
--
-- Fix/Builders models include/fix/fix_messages.hpp, and Fix/Session include/fix/session.hpp with
-- src/fix/session.cpp. A handler is a step on the session that may throw (Fix/Session/Run); what
-- it does to the connection, the application and the callbacks is recorded as events, the latest
-- first. Fix/Session/Sending has what is sent, Fix/Session/Logon the states before a session is
-- established, Fix/Session/States the others, Fix/Session/Resend the answer to a ResendRequest,
-- Fix/Session/Inbound `on_message_received` with the buffer for messages that come early, and
-- Fix/Session/Api the rest of the operations. The store is an interface, the record Store. The
-- clock is read once for each call. Fix/Session/Machine is the abstract machine that a session
-- refines, apart from the code; Fix/Session/Refinement relates the two. The machine does not start
-- again once it is over: a `Call` says in a parameter whether a session that was shut down may be
-- started again, which the code does not refuse, and the refinement is of those that are not.
--
-- Simulation models include/app/simulation_app.hpp with src/app/simulation_app.cpp, the
-- application that joins the parts: Simulation/Parsing and Simulation/Orders take orders and cancel
-- requests, check them with the managers and submit them to the engine; Simulation/Fills books what
-- the engine reports, with the callbacks in Simulation/Fills/Callbacks, Simulation/Pushes and
-- Simulation/Queries write to clients, Simulation/Reports models include/fix/fix_message_builder.hpp, and Simulation/Dispatch routes
-- messages and lets the application react to the effects of a turn of the engine. Messages to
-- clients are put in an outbox. The sessions are seen through the record Users, which `users_of`
-- makes of Fix/SessionManager; the store is the interface OrderStore. The texts of doubles
-- (`std::stod` and streams) are the operations of the record DoubleText, the text of the time of a
-- report and the texts of the reasons of the risk checks are arguments, and the volumes that are
-- cast to `int` are taken to be in its range.
--
-- The loop that empties the buffer takes fuel, the number of messages in the buffer, since each
-- round takes one out. Every other loop is a recursion on the list that the code walks.
--
-- Fix/SessionManager models include/fix/session_manager.hpp with src/fix/session_manager.cpp: a
-- session is named by a number, and lies in a heap that its other owners share.
--
-- Not modelled: the reader of the instruments' configuration; the client's own state; storage,
-- network and terminal code, which are I/O; and the vendored queues. Of the settings, `get_double`
-- is left out, and of the market data what only displays use. Of the session, the scheduling of its
-- timer, the mutex and the log are left out, and a callback of the application that calls the
-- session back is a later call. The threads of the engine and of the sessions meet in the
-- application's mutexes: each of its operations runs whole, and Simulation/System has their
-- sequences, in which the engine takes events that were submitted and any market data.
pub mod Prelude
pub mod Base
pub mod Timer
pub mod Fix
pub mod Engine
pub mod Manager
pub mod Simulation
