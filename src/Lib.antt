-- ===== src/Lib.antt =====
-- A model of kdapp, a framework for interactive protocols ("episodes") on the Kaspa block DAG,
-- and of programs that stand on it.
--
-- How the parts work together. A program builds carrier transactions, whose payload is a command
-- of an episode behind a header, and whose id follows a pattern (kdapp/src/generator.rs). The
-- listener hands the payloads of accepted blocks to an engine, and tells it which blocks were
-- reverted (kdapp/src/engine.rs). The engine runs one state machine for each episode, through the
-- interface of kdapp/src/episode.rs, checks signatures with kdapp/src/pki.rs, and undoes the
-- commands of a reverted block by the rollback objects that the episodes gave it. Off chain, the
-- programs send signed frames over UDP; a router or a guardian takes them in by their numbers.
--
-- Which file models what.
--   Base, Base/*: tests on numbers, lists, the standard library's maps, bytes.
--   Pki: kdapp/src/pki.rs (to_message, sign_message, verify_signature).
--   Episode: kdapp/src/episode.rs. The trait `Episode` is a record of a state, commands and the
--     functions; `EpisodeError`, `PayloadMetadata` and `TxOutputInfo` are as there.
--   Message: `EpisodeMessage` and `EngineMsg` of kdapp/src/engine.rs.
--   Engine: `EpisodeWrapper` and `handle_message`; Engine/Start: the maps of `Engine`,
--     `filter_old_episodes` and the loop of `start`. Engine/Lawful states what the engine needs of
--     an episode type; Engine/Undo, Blocks, Reorg, Run and Filter have the proofs.
--   Listener: kdapp/src/proxy.rs, from the payloads of an accepting block to the messages to the
--     engines; Listener/Search: how the payloads are found; Listener/Taken, Owed, Once and Found
--     have the proofs.
--   TicTacToe: examples/tictactoe/src/game.rs, an episode type that is lawful.
--   Generator: kdapp/src/generator.rs (the header of payloads, the search for a nonce).
--   Tlv: examples/kdapp-merchant/src/tlv.rs, the signed frames.
--   Guardian: examples/kdapp-guardian/src/lib.rs, the state and `receive`; Guardian/Send: the
--     sending side.
--   Lottery and Router: examples/kas-draw/src/episode.rs, and offchain.rs with tlv.rs.
--   Script: examples/kdapp-merchant/src/script.rs, which outputs pay a merchant.
--   Merchant: examples/kdapp-merchant/src/episode.rs, invoices and subscriptions, with the policy
--     on confirmations of src/webhook.rs; Merchant/Invoices, Execute and Rollback: the operations;
--     its other modules have the proofs.
--   Customer: examples/kdapp-customer/src/episode.rs and pki.rs, the customer's copy of the invoices;
--     Customer/Agreed compares it with the merchant's.
--   MerchantRouter: examples/kdapp-merchant/src/udp_router.rs, and MerchantRouter/Tcp: tcp_router.rs,
--     the routers in front of the merchant's engine; MerchantRouter/Alike and Framing compare them.
--   Config: examples/kdapp-merchant/src/server.rs, how the limits of the watcher are changed while
--     it runs; Config/History: the interleavings; Config/Tally, Progress, Steps and Consistent have
--     the proofs.
--   Watcher: examples/kdapp-merchant/src/watcher.rs, the loop that submits checkpoints; Watcher/Queue
--     and Served have the proofs.
--   UtxoCache: kdapp/src/utils/utxo_cache.rs, the answers of a node, kept for a short time;
--     UtxoCache/Fresh: the interleaved calls; UtxoCache/Hits: what is answered.
--   Room: examples/comment-it/src/core (episode.rs, commands.rs, types.rs, errors.rs) with
--     crypto/signatures.rs, a room for comments behind a challenge; Room/Log, Accepted, History,
--     Restored and Undo have the proofs.
--   Auth: examples/kaspa-auth/src/core with crypto/challenges.rs and signatures.rs, a login by
--     challenge and response; Auth/Answer and History have the proofs.
--   Board: examples/comment-board/src/episode, comments with bonds; Board/Bond, Execute and
--     Rollback: the operations; Board/Descriptor: the byte form of a bond's policy
--     (examples/comment-board/src/wallet/kaspa_scripts.rs); Board/Codec, Fair, Accepted, Backed and
--     History have the proofs.
--   Text, Text/Decimal: the strings of the standard library, and numbers in print.
--   Tests: the theorems at concrete inputs, and runs.
--
-- How the code became definitions. A method on `&mut self` returns the new state beside its
-- result. A panic (an index out of range, a failed assertion, an unwrap) is `none` of an `Option`.
-- A channel is the list of the messages that it will yield, and what is called, sent or forwarded
-- is returned as a list. Keys, hashes and bytes are numbers; sums of machine words wrap around
-- where the code adds them unchecked, which is what a release build does.
--
-- Bounds and fuel. The search for a nonce counts the nonces that are left of 2 ^ 32. The loops over
-- the bytes of a script run on the length of the script, which is enough, since each round reads a
-- byte. A number of 64 bits is printed in 20 digits at most. The loop over a stream gets a reading
-- of the clock for each round, one more than the stream has frames. All other recursion is structural.
--
-- What is a parameter: the curve and the hashes (secp256k1, sha2, blake2), the borsh form of
-- values, the printed form of keys and signatures, the ids and the signing of Kaspa transactions,
-- the clock, random numbers, floating-point operations, and what the node, the database and the
-- environment say.
--
-- What is not modelled: sockets, logs and files; the listener's connection to a node and
-- its cache (kdapp/src/proxy.rs); the database, the scheduler and the event handler of the merchant; the
-- wallets, servers, command lines and user interfaces of comment-board, comment-it and kaspa-auth;
-- and the other programs (kdapp-indexer, kdapp-mcp-server, kdapp-wallet,
-- onlykas-tui).
mod Tests
pub mod Base
pub mod Pki
pub mod Episode
pub mod Message
pub mod Engine
pub mod TicTacToe
pub mod Generator
pub mod Tlv
pub mod Guardian
pub mod Lottery
pub mod Router
pub mod Script
pub mod Merchant
pub mod Listener
pub mod Text
pub mod Room
pub mod Auth
pub mod Board
pub mod MerchantRouter
pub mod Config
pub mod Watcher
pub mod UtxoCache
pub mod Customer
