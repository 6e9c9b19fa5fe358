-- ===== src/Lib.antt =====
-- A verification library of the generator crate, stackful generators for Rust.
--
-- The program. A generator runs its closure on a stack of its own. `resume` and `send` of
-- src/gen_impl.rs switch to it, a yield of src/yield_.rs or src/scope.rs switches back; both exchange
-- saved registers (src/reg_context.rs). The contexts that run on a thread form a ring from its root
-- context (src/rt.rs): a switch in pushes a generator with all that waits above it, a switch out pops
-- it. src/detail/gen.rs is where a generator's own code starts and ends. A generator, its closure
-- and their headers lie on the generator's stack (src/stack/mod.rs), a mapping of the kernel with a
-- guard page below (src/stack/unix.rs).
--
-- The files.
--   Base, Panic       tests on numbers, finite maps, `usize` masks; panics and undefined behaviour
--   Rt/Context        src/rt.rs: `Context` and its typed cells, over a memory indexed by addresses
--   Rt/Env            src/rt.rs: `ContextStack`, `is_generator`, `get_local_data`, `guard::current`
--   Rt/Ring, Links, Push, Pop, Splice, Search, Slots
--                     well-formed rings, and the theorems on src/rt.rs
--   Stack/Sys         src/stack/unix.rs, and `SysStack` of src/stack/mod.rs; the kernel is a parameter
--   Stack/Words       src/stack/mod.rs: `Stack`, `StackBox`, `Func`, over the words of memory
--   Stack/Placement, Placed, Lifetime
--                     the memory of a generator, from `Gn::new_scoped_opt` to its drop
--   Stack/Pages, Allocate, Layouts, Values, Boxes, Usage
--                     the theorems on them
--   Gen/Types         the state of a thread, the interface of the crate, and its clients
--   Gen/Impl          src/gen_impl.rs: `GeneratorImpl`
--   Gen/Yield         src/yield_.rs and src/scope.rs
--   Gen/Machine       src/detail/gen.rs, `RegContext::swap`, and the steps of a thread
--   Gen/Views, Handover, Sends, Resume, Leave, Rounds, Forward, Passing, Inward, Ends, Panics, Cancel,
--   Life, Drop, Outside
--                     the theorems on generators
--   Coroutine/Abstract, Abstract/States
--                     the promise of the crate: generators without contexts, links and registers
--   Coroutine/Refines when a thread is in the state of an abstract view
--   Coroutine/Frames, Rest, Enter, Leave, Arriving, Entering, Leaving, Stopping, Ending, Dropping,
--   Setting, Taking, Making, Asking, Cancelling, Steps, Runs
--                     the steps of the view, made by the thread
--   Stack/Windows, Committed
--                     src/stack/windows.rs, and what `SysStack::allocate` does on it
--   Overflow/Unix, Windows, Signals, Exceptions
--                     src/stack/overflow_unix.rs and overflow_windows.rs, and the theorems on them
--   Regs/Machine, Switch
--                     src/detail/x86_64_unix.rs with src/detail/asm/asm_x86_64_sysv_elf.S: the switch on
--                     registers and words, and the theorems on it
--   Regs/Linked, Aarch64, Arm, Loongarch64, Riscv64, Tables, Targets
--                     the switches that keep the return address in a register, src/detail and its asm
--   Regs/Windows, Bounds, Fresh
--                     src/detail/x86_64_windows.rs with src/detail/asm/asm_x86_64_sysv_pe.S
--   Examples/Steps, Iterators, Loops, Adapters
--                     generators that hand out a list, `for` loops over them, and generators that loop
--                     over others
--   Examples/Range, Pipe, Cd, Number, Number/Divisors
--                     the programs examples/range.rs, pipe.rs, cd.rs and number.rs
--   Tests             concrete threads, rings and stacks
--
-- The model. A pointer is a number, 0 is null, and reading a context that is not there is undefined
-- behaviour, the outcome `fault`. An operation is a function from a state to an outcome; a panic keeps
-- the state that it has reached. Registers stand for what runs when they are loaded: a fresh call
-- frame of `gen_init`, or a suspended function of the crate above the client's code. So a function
-- that switches is in two halves, the second named with `back`, and one step of a thread is a call of
-- the crate up to its return or switch, or the arrival at loaded registers. The client's code, the
-- closures of generators included, is a parameter: any state with a function that says what it calls
-- next, given the last answer. Values are numbers, with a type identifier on each cell. In Stack,
-- what is moved into a box is given by its words; what the last of them has above the value's bytes is
-- padding of the box. `init_once`, which gen_init_impl calls, acts on the signals of the process: it is
-- in Overflow/Unix, where the kernel calls the action that is installed for a signal, and not in the
-- state of a thread.
--
-- Bounds. `usize` has 64 bits and wraps, as in a release build, where the `debug_assert!`s are absent
-- too. The walks over the parent pointers run on fuel, and the scan of a stack for its first used word
-- does; the results below say how much is enough.
--
-- The abstract view of Coroutine/Abstract has a list of the generators that run, with the code that
-- waits for each, what each generator at rest will do, and how much of each stack has been used. It
-- covers the making and the drop of generators, `init_code` and `scoped_init` of one that has not
-- started, or has ended and left nothing in its `ret`, `set_para`, `resume`, `raw_send`, `send`,
-- `cancel`, `is_done`, `is_generator`, `done`, the yields and `get_yield` of both files, returns and
-- panics; a program that calls anything else, or uses a channel at another type, has no step of the
-- view. The fuel of the walks plays no part there. The programs of Examples are read on this view.
--
-- The switch of Gen/Machine is stated on what registers stand for, and those of Regs on the registers
-- themselves; the second is what the first takes for granted.
--
-- Not modelled: the panic of `panic::take_hook` on a thread that is panicking already, so a call of
-- `cancel` is read as one on a thread that does not panic; log lines, what the handlers print,
-- formatting, and prefetching, which hold no state of the crate; the assembly for Mach-O, which is
-- that for ELF under other names; the limit on a stack on fuchsia, which is a constant; src/lib.rs,
-- which re-exports; and the examples that are not named above, which use the crate in the same
-- ways.
pub mod Base
pub mod Panic
pub mod Rt
pub mod Stack
pub mod Gen
pub mod Coroutine
pub mod Examples
pub mod Overflow
pub mod Regs
pub mod Tests
