-- ===== src/Lib.antt =====
-- Hyperliquid Smart-Wallet Observer: the decision logic of the local observer, modelled function by
-- function from its Python source. The program watches public wallets, turns changes of their
-- positions into signals, refuses most of them, and follows the rest on paper; it never trades.
--
-- Parts and files:
-- + Prelude (Tests, Lists, Text, Dict, Int, Sort, Distinct): Boolean tests, lists, texts, Python's
--   dictionaries with text keys as association lists in insertion order, signed integers, stable sorts
--   by an integer, and numbers of different texts.
-- + Float: what the program does with a `float`, as an interface over any type of floats. A statement
--   names the facts that it needs (IsOrdered: the order of the numbers that are not NaN).
--   Float/Fixed is a concrete arithmetic with eight decimals, in which the tests run; Float/Order
--   has the consequences of the order.
-- + CircuitBreaker: src/hl_observer/copying/circuit_breaker.py. `evaluate_circuit_breaker`,
--   `record_trade_result` and `reset_circuit_breaker` are functions on the record of the breaker's
--   state; Limits is about one evaluation, Runs about whole sessions.
-- + Dydx/Models, Dydx/Config: the enumerations and records of
--   hyper_smart_observer/dydx_v4/models.py and the settings of config.py that the engines read.
-- + Dydx/Lifecycle: hyper_smart_observer/dydx_v4/lifecycle.py with `infer_lifecycle` of
--   normalizer.py. `process_fill` is split at the call of `infer_lifecycle`.
-- + Dydx/Ledger, Dydx/Paper: paper.py. Ledger is one session and what is booked on it, Paper the
--   simulator with its three methods. Paper/Runs has sequences of calls, Sessions and Balances what
--   they keep, Closing what one call does. The digits of SHA-256 are a parameter here too.
-- + Dydx/Samples: configurations for the tests.
-- + Dydx/Safety, Dydx/Consensus, Dydx/Signals: safety.py, consensus.py and signals.py of the same
--   package. `evaluate_delta` is the chain of `first_gates`, `consensus_gate` and `refusal`.
--   Safety/Gate is about the gate on signals, Safety/Scan has the scans for forbidden keywords.
-- + Dydx/Risk: risk_policy.py, the exits by volatility and the daily breaker of new entries; Holding
--   has the tests on holding times and the average range.
-- + Dydx/Scanner: fast_scanner.py. Scanner has the memory of fills, the meter and `_ingest`;
--   Dedupe compares the memory with a history that forgets nothing; Hot is the bounded set of
--   followed wallets with the subscriptions of its client; Ingest is about one batch.
-- + Dydx/Exits: adaptive_exits.py, the exit plan of a position and its trailing stop; Trailing is about
--   sequences of prices.
-- + Dydx/Stream: stream_consensus.py, the sliding window of the fills of a stream and the consensus of
--   different wallets in it. Window is about what the window holds, with sequences of calls in
--   History; Consensus is about the signals.
-- + Dydx/Clusters: cluster_detector.py, which compares the positions of wallets with those of the
--   last poll and finds the markets on which wallets converge. Updates has `update_positions` and
--   `update_from_fill`, with Polled for the positions of a poll, Expected and Changes for its
--   events, Kinds for those of a fill, and Windows for the window of opens; Detect is
--   `detect_clusters`, with Opens for the window and Found for the clusters; Sessions has sequences
--   of calls. Dydx/Stream/Cluster turns a signal of the stream into a cluster.
-- + Dydx/FullNode: full_node_stream.py, the parser of the responses of a full node over decoded
--   messages; RoundTrip has messages laid out as in tests/dydx_v4/test_full_node_stream.py.
-- + Dydx/NoTrade: no_trade.py, the log of refusals; Report is about its report. Dydx/Edge:
--   edge_calculator.py, with Decision for what is accepted. Dydx/Fills: fill_simulator.py, the walk
--   through an order book; Sorted is about its levels, Book about the books in which a fill is
--   simulated.
-- + RiskEngine: hyper_smart_observer/risk_engine, the gates that deny by default, where
--   `evaluate_observed_signal` is `evaluate_signal` of gates.py; Audit compares the recorded gates with
--   the decisions.
-- + RiskManager: src/hl_observer/risk/advanced_risk_manager.py. RiskManager has the state and the calls
--   that change it, Evaluate is `evaluate_risk`, Vetoes what it refuses and how long.
-- + Copying: src/hl_observer/copying. Score is realtime_magic_score.py, with Sizing for the notional
--   and Decision for the chain of refusals; Kelly is kelly_sizing.py; Leaders is
--   leader_pnl_tracker.py. Engine is viral_bot_engine.py: its state, and in Signal the gates of
--   `evaluate_signal`, which call the score, the breaker and the Kelly size. Pipeline is
--   pipeline_integrator.py, which asks the engine and then the risk manager.
-- + Recovery: src/hl_observer/realtime/recovery_engine.py. `process` and `check_idle` are
--   `process_event` and `evaluate_idle_wallet` on the state of one wallet; Events is about which events
--   become signals, Windows about idle wallets and the windows to fill in.
-- + Wallets: src/hl_observer/wallets. Delta is position_delta_engine.py, what one public fill does to a
--   position, with Classify for the kind of change and Eligible for the score; Rebuild is
--   position_rebuilder.py, with Replay and Closed about the rebuilt positions. Address is
--   leaderboard_validation.py, Queue `enqueue_wallets` of scan_queue.py, with Selected for the wallets
--   that are queued. Entries and Agreement are delta_utils.py: the entries of a coin and direction, and
--   the window in which the most wallets agree, with Windows about it.
--
-- Conventions: an object that the code mutates is a record, and a method returns the new record with
-- its result. The clock is an argument. Integers that may be negative (times in milliseconds, limits
-- of the configuration) are ℤ, counters are natural numbers. The first digits of a SHA-256 sum are a
-- parameter of the signal engine and of the cluster detector, the decimal logarithm one of the
-- latter, `select_exit_plan` one of the engine of the copying package, and the square root one of
-- the risk manager. The decimal print of a natural number has fuel for numbers below 10 ^ 40; the
-- eviction of followed wallets has one round for each wallet.
--
-- Not modelled: logging and the formatted texts of details, the network clients, the storage in
-- SQLite, the user interface, the command line, and the packages that the manifest lists as such.
pub mod Prelude
pub mod Float
pub mod CircuitBreaker
pub mod Dydx
pub mod Recovery
pub mod Wallets
pub mod RiskManager
pub mod RiskEngine
pub mod Copying
