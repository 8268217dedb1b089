-- ===== src/Lib.antt =====
-- VeilVault: a lending program of the Solana chain, with public instructions and with confidential
-- positions, which a cluster of nodes (the MXE of Arcium) computes on in encrypted form.
--
-- The parts, under programs/veilvault/src. A lending market (state/lending_market.rs) is the
-- configuration that reserves share. A reserve (state/reserve.rs) is a pool of one asset: tokens
-- available and lent out, interest by a kinked curve, and cTokens that are shares of the pool. An
-- obligation (state/obligation.rs) is what one user has locked as collateral and borrowed, in two
-- arrays of eight slots. The instructions (instructions/*.rs) check their accounts, call methods
-- of these states, and call the token program. A user deposits tokens into a reserve for cTokens,
-- locks cTokens in the obligation and borrows from another reserve; refresh_reserve takes a price
-- from the oracle (utils/prices.rs), refresh_obligation writes the values of all slots, and the
-- handlers of borrow, withdraw_collateral and liquidate demand that this was in the same slot of
-- the chain (utils/last_update.rs).
--
-- A confidential position is a record with two ciphertexts (state/private_obligation.rs) beside the
-- public obligation. init_private_obligation, private_deposit_collateral and private_borrow queue a
-- circuit of encrypted-ixs/src/lib.rs, and a callback of each stores the new ciphertexts;
-- private_check_liquidatable queues the health check, whose callback sets a flag, and
-- execute_private_liquidation takes the flag in place of the health of the obligation. lib.rs has
-- the entry points of all of these.
--
-- The files:
-- - Base and its children: numbers, lists, words of a given width, and results. A handler returns
--   `Result`: an error code of error.rs, a failed account constraint, a panic (the release
--   profile checks overflows), or a failed call. An error rolls the transaction back, so it
--   carries no state.
-- - Int, Constants: i64 values and constants.rs. A public key is a number, 0 the default key.
-- - Market, Reserve, Obligation, LastUpdate, Prices: one record for each struct and one function
--   for each method, under the method's name; `&mut self` is an argument and a result.
--   Reserve/Config, Reserve/Liquidity and Reserve/Collateral are the structs of state/reserve.rs.
--   Their other children hold theorems. Obligation/Valid has the invariant of an obligation and
--   its abstract view, two maps from reserves to amounts.
-- - Runtime: the parameters. The derivation of program addresses and the token program are a
--   record of functions over a type of token states; the accounts of the chain are maps from
--   addresses (`World`).
-- - Tokens: the documented effects of the token program's calls, as hypotheses for the theorems on
--   vaults, for mints without a transfer fee or a permanent delegate. Nothing else assumes them.
-- - Instructions: a module for each handler. A `..Accounts` record has the keys of the accounts,
--   a `.._check` function their constraints, and the handler's own name is the handler, on a
--   world. The parts of a handler that work on one loaded account are functions of their own.
--   Instructions/Admin has the instructions that create accounts and those of the owner.
--   Instructions/Traces, and Private/Traces for the confidential ones, have a record for each
--   handler that moves tokens: the values and the outcomes of the calls along a successful run.
-- - Circuits: the circuits. Circuits/Positions and Circuits/Health hold theorems. The arcis crate is
--   a record of functions: decryption, encryption and the arithmetic on u64.
-- - Arcium: the calls of the Arcium crates as a record of functions over a type of Arcium states, and
--   the constraints on the accounts that its macros ask for. No law of it is assumed.
-- - Private: the record, and a chain (`Chain`) that adds to the world the records, the Arcium state,
--   the bump of the signing account and the events. Its children are the handlers and callbacks.
--   Private/Gates, like Instructions/Gates, is about what the handlers demand of the market;
--   Private/Borrow/Oracle and Private/Liquidate/Flag hold theorems.
-- - Program: an instruction for each entry point, and their dispatch. Program/Run has runs of
--   instructions, Program/Changes and Program/Gated are about the records of confidential
--   positions, Program/Handover about the instructions after a pause or a change of owner, and
--   Program/Backing and Program/Locked relate the reserves and the obligations to the token
--   program's books (Program/Custody: the accounts that the program keeps); the other children
--   are about single instructions.
-- - Tests: runs and witnesses.
--
-- Widths: an operation that is checked or saturating in the code names its width (8, 64 or 128
-- bits), a cast is `% 2 ^ w`. Arguments are numbers; where a result needs the range of an
-- argument, it says so. Arrays are lists, and the invariant of an obligation gives their length.
-- No function here uses fuel: loops are over lists or over a counter of a u8.
--
-- Not modelled: the cluster and the Arcium program, which are outside this repository, so that an
-- output is an argument of the callback that verifies it; tools/circuit-builder, the tests and the
-- scripts; the text of log messages; padding fields; rent and the creation of accounts beyond
-- their address; signatures (a key in a signer's field has signed); the parsing of the oracle's
-- message, which is an argument.
pub mod Base
pub mod Int
pub mod Constants
pub mod Market
pub mod Reserve
pub mod LastUpdate
pub mod Prices
pub mod Obligation
pub mod Runtime
pub mod Tokens
pub mod Instructions
pub mod Circuits
pub mod Arcium
pub mod Private
pub mod Program
pub mod Tests
