-- ===== src/Lib.antt =====
-- market-microstructure-engine: the trading core of the engine and what is proved of it.
--
-- The program. Market data comes in through feeds (include/feed), whose health two monitors watch, and
-- through ring buffers (include/core); it builds an order book for each symbol (include/book). An order
-- is first a request, which the risk engine approves against configured limits and the risk ledger
-- backs with exposure and credit (include/risk). It then lives in the order store of the order
-- management system until it is final, and the reports of the venue reach it through a sequencer that
-- puts them in order (include/oms). Several strategies share a venue through a scheduler and a rate limiter.
-- The paper broker (include/exec) is the venue of a simulation: it fills orders from quotes, keeps positions
-- and an account, and writes a journal, from which a restart recovers the order store, the positions and
-- the portfolio, and which a comparison with the venue reads.
--
-- The files. Each definition has the name of the function, method, type or member that it models, in
-- snake case for functions and members.
--   Base        shared notation: tests, lists, signed integers, machine words, rounding to
--               double, windows of rings
--   Exec        include/exec: Types (exec_types.hpp: identity of orders, states, the order record),
--               Account (account.hpp: the position book, margin and profit), Philox (philox_rng.hpp),
--               Models (models.hpp: latency, slippage, rejections), Journal (journal.hpp) and Broker
--               (paper_broker.hpp: State with the account, Positions, Fills with the
--               quotes, Entry with submit)
--   Oms         include/oms: OrderState (order_state.hpp, position_state.hpp), Index and Oms (oms.hpp:
--               the hash index and the store), Report and Sequencer (report_sequencer.hpp),
--               Reconciler (reconciler.hpp), RateLimiter and Session (rate_limiter.hpp), Scheduler
--               (strategy_scheduler.hpp), Pms (pms.hpp), Recovery (recovery.hpp,
--               recovery_streaming.hpp), Venue (venue_reconciliation.hpp)
--   Portfolio   include/portfolio/portfolio.hpp
--   Book        include/book: Types (book_types.hpp) and OrderBook (order_book.hpp)
--   Risk        include/risk: Limits (limits.hpp, halt_state.hpp), Margin (margin_projection.hpp,
--               self_trade_prevention.hpp), Engine (risk_engine.hpp), Ledger (risk_ledger.hpp)
--   Core        include/core: RingBuffer, SlabPool, EventOrder, Backpressure
--   Feed        include/feed: SequenceTracker, HeartbeatMonitor, ClockOffset
-- The modules below a component hold its proofs and are named for what they prove; the modules named
-- Tests run the theorems at concrete values.
--
-- The state. An object is a record and a method a function that returns the changed record, with a flag
-- or an Option for its result. `Oms::orders_[0, count_)` is the list `orders`, whose length is `count_`;
-- a pointer into it is a slot number. The live prefix of a book's level arrays is a list. The counters
-- of the ledger's dimensions are maps from dimensions to integers. The sequencer and the store that it
-- is lent are the two parts of `System`. The broker's `orders_[0, live_count_)` is a list too, and a reference
-- to an order a slot number; the members of the journal's array behind its count are not modelled.
--
-- Numbers. Unsigned numbers are natural numbers with their wrap-around written out where the code can
-- reach it. Signed 64-bit numbers are integers without a bound, since their overflow is undefined in
-- the program; the one overflow that the program guards against, in the margin projection, is modelled
-- with its guard, and a correction by a clock offset that has no negation in 64 bits is `none`. The token buckets of the rate limiter count in double, whose operations are the
-- parameter `Doubles`. The simulation models compute in double too: multiples of one half and probabilities
-- that are compared with a draw of 53 bits are exact, and a spread or a size is rounded to 53 significant
-- bits, to the nearest, as the conversion to double does (Base/Doubles); the conversion back, which is
-- undefined past the range of the integer, has no bound either.
--
-- Loops. All are structural recursion over a list or over the number of steps that the code's loop
-- bound gives, but for `next_pow2`, whose loop is given 64 doublings, and the loop of
-- `ReportSequencer::drain`, whose fuel is the number of held reports and one more round: each round but
-- the last takes one report out of the pool.
--
-- Not modelled: threads and their interleavings (the ring buffer and the ledger are modelled one
-- operation at a time), the sharded store, venues and routers around the order store, the
-- workflow of a restart, persistence, strategies and features, and everything that reads files, pipes or clocks.
pub mod Base
pub mod Exec
pub mod Oms
pub mod Book
pub mod Risk
pub mod Core
pub mod Feed
pub mod Portfolio
