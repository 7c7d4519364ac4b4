-- ===== src/Lib.antt =====
-- The dotcircles chain: rotating savings circles ("roscas"), as a Substrate pallet and the runtime
-- around it.
--
-- A circle is created with its terms and a list of invited accounts, is joined and left until it
-- is started, and then runs in rounds. In each round all members but one, the claimant, pay the
-- contribution to the claimant; the deposits of those who have not paid by the cutoff are used
-- instead. After a round the order rotates by one. The pallet is
-- generic-template/pallets/rosca/src/lib.rs with types.rs.
--
-- Rosca/Types.antt: types.rs, and the events and errors of lib.rs.
-- Rosca/Storage.antt: the storage items, one field each, and the `Config` trait as a record of
-- what the runtime supplies: the origin check, the transfers of `ForeignCurrency`, the bounds, the
-- account of a circle, `clear_prefix` and the hashes. Accounts and moments are numbers.
-- Rosca/Effects.antt: a call takes a state and answers with a value, a `DispatchError`, a panic
-- or a loop that did not end; `?`, `ensure!`, indexing and `deposit_event` are its steps.
-- Rosca/Effects/Returns.antt has one rule for each step on what holds of a call however it ends,
-- Rosca/Effects/Keeps.antt one on what every step keeps, with Rosca/Effects/Kept.antt for one
-- state, and Rosca/Effects/Succeeds.antt one on calls that return.
-- Rosca/Pending.antt: create_rosca, join_rosca, leave_rosca; the invariant of a circle that has
-- not started is IsPending of Rosca/Pending/Invariant.antt.
-- Rosca/Start.antt: start_rosca, shuffle_participants, generate_rounds; Rosca/Start/ follows the
-- order of a started circle.
-- Rosca/Rounds.antt: process_defaulters, advance_rosca_round, check_and_complete_rosca; the
-- invariant of a running circle is IsActive of Rosca/Rounds/Invariant.antt.
-- Rosca/Active.antt: contribute_to_rosca, manually_end_rosca.
-- Rosca/Deposits.antt: claim_security_deposit, add_to_security_deposit.
-- Rosca/Life.antt: the life of a circle as a step relation over the calls above and the passing
-- of time. Rosca/Rounds/Agenda.antt reads the rounds that are left off the state, and
-- Rosca/Life/Schedule.antt sets them against the event of the start.
-- Rosca/World.antt: all circles together, with creations. Rosca/Elsewhere.antt says what it is for
-- a circle not to be touched; the Isolation.antt of each part goes through its calls.
-- Rosca/Backing.antt reads a ledger as the list of its transfers and says what it is for deposits
-- to be covered; the Backing.antt of each part goes through its calls, and the Solvent.antt of a
-- part has the calls that go through where deposits are covered; Rosca/Active/Late.antt and
-- Rosca/Active/Overdue.antt have contributions after the cutoff, with Wealth.antt on who can pay.
-- The least balance of an asset is a first payment that the journal sets aside: set_aside of
-- Rosca/Backing/Flow.antt. The ledger is asked to pay the accounts that a call pays, and no more.
-- Currency.antt: the units and the storage deposit of generic-template/runtime/src/constants.rs.
-- Governance.antt: the origins and the tracks of
-- generic-template/runtime/src/configs/governance/; the names and curves of tracks are left out.
-- Runtime.antt: the pallets and their indices of generic-template/runtime/src/lib.rs, the base
-- filter and the types of proxies of generic-template/runtime/src/configs/mod.rs.
-- Xcm.antt: the assets and the filters of locations and messages of
-- generic-template/runtime/src/configs/xcm_config.rs. The matcher of xcm_builder is a parameter.
-- Genesis.antt: generic-template/node/src/chain_spec.rs; accounts and keys made from seeds,
-- and the code of the runtime, are parameters.
-- Node/Cli.antt, Node/Command.antt, Node/Service.antt: cli.rs, command.rs and service.rs of
-- generic-template/node/src/. A run is read as what it starts by a step of its own, the
-- constructors of Started; what a library starts within a call, such as the transaction pool, the
-- import queue and the relay node, is not told apart. Node/Packages.antt has what other packages
-- do as a record of parameters, and Node/Starts.antt one rule for each kind of step.
-- Fuzzer.antt: generic-template/template-fuzzer/src/main.rs. The executive, the mock chain and
-- the clock are parameters, and a dispatch, the start and the end of a block may panic; an
-- addition that overflows is a panic, as in a build with overflow checks.
-- Witnesses.antt has the theorems on the chain around the pallet at concrete inputs.
-- Rosca/Tests.antt has runs on a mock runtime, Rosca/Witnesses.antt with its children each theorem
-- at a circle of three.
-- Prelude.antt: tests on numbers, lists, maps, machine words and the counting view of lists.
--
-- A `u32` or `u64` is a number; a checked addition answers none at 2^32 or 2^64, and
-- `new_rosca_id + 1` wraps as in a release build. The two `while` loops over rounds are given one
-- round more than there are moments from the next cutoff to the final one; since every round adds
-- a positive frequency, that is enough. The `while` loop of the shuffle is given one step for
-- each index; every step takes one out, so that is enough. A loop that runs out of steps is one
-- that did not end, and an index out of range is a panic.
--
-- Not modelled: what the chain does around a call. On an error FRAME takes back what the call has
-- written, here the state that comes with the error still shows it. The wiring of third-party
-- pallets in the runtime's configuration, the generated weights and the runtime interfaces are
-- left out: they put types of other packages together. So are, in the node, the merge of the RPC
-- modules and the answers that only pass on the arguments of the relay chain. The tests, the
-- indexer and the frontend are left out too.
pub mod Currency
pub mod Fuzzer
pub mod Genesis
pub mod Governance
pub mod Node
pub mod Prelude
pub mod Rosca
pub mod Runtime
pub mod Xcm
mod Witnesses
