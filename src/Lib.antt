-- ===== src/Lib.antt =====
-- A model of the parts of magnus, the Rust bindings to Ruby, that hold logic of their own: how a
-- Ruby value is told apart by the bits of its word, how numbers go in and out of such words, how
-- arguments are taken from Ruby, how errors cross between Rust and Ruby, and how arrays and hashes
-- are made, changed, read and gone through from Rust.
--
-- Parts and files (sources are paths from the repository's root):
--   Value       src/value.rs: the tag tests, `rb_type`, `class` and `to_bool`; Value/Tags describes
--               the words by what they stand for.
--   Fixnum      src/value.rs, `Fixnum`: `from_i64_impl` and the conversions to Rust integers.
--   Bignum      src/r_bignum.rs: the constructors and the conversions.
--   Integer     src/integer.rs: the dispatch between the two, arithmetic, order and conversions,
--               which call the conversions of Fixnum and Bignum: these are in Integer/Casts, and the
--               order is in Integer/Compare.
--   Flonum      src/value/flonum.rs and src/float.rs: floats inside a word, or on Ruby's heap.
--   Error       src/error.rs: the error values and `protect`.
--   ScanArgs    src/scan_args.rs: `ArgSpec` and its format string, `scan_args`, `get_kwargs` and
--               `check_arity`; ScanArgs/Convert has the conversions and the whole functions, and
--               ScanArgs/Parts describes what a splat, keywords and a block are converted to.
--   Method      src/method.rs: the wrappers by which Ruby calls Rust functions, and `raise` of
--               src/error.rs.
--   Api         src/api.rs: `Ruby::get` and its thread-local cell, as steps of a thread.
--   Space       what arrays and hashes hold, and which objects are frozen or hidden; code that changes
--               objects is a function of it.
--   RArray      src/r_array.rs: the methods of `RArray`; RArray/Build the constructors from iterators,
--               RArray/Iterate `Iter` and the loop over it, RArray/TypedArray `typecheck` and
--               `TypedArray`. The other children hold the proofs.
--   RHash       src/r_hash.rs: the methods of `RHash` and the callback of `foreach`; RHash/Build the
--               constructors from iterators. It shares the buffer of RArray/Build and the error
--               handling of Method.
--   Lazy        src/value.rs: `Lazy`, which threads that run in turn can set at once, and `LazyId`;
--               Lazy/Agree has the steps of the threads.
--   Convert     src/try_convert.rs and the `IntoValue` of src/value.rs and src/into_value.rs:
--               integers, options, tuples and vectors, on top of Integer and RArray.
--   Range       src/range.rs: ranges from Rust's range types, and the indices they stand for.
--   Time        src/time.rs: Ruby's times and the conversions of `SystemTime`.
--   Symbol      src/symbol.rs and src/value.rs: symbols, static ones, and the numbers behind them.
--   Block       src/block.rs: iterators that a method returns for its block to have, with `ensure` of
--               src/error.rs; Block/Return has the return values of src/method.rs.
--   TypedData   src/typed_data.rs and src/r_typed_data.rs: Rust values behind Ruby objects, the
--               callbacks of the collector and the handles; TypedData/Builder has `DataTypeBuilder`,
--               TypedData/Compare equality, order and hash, TypedData/Dup the clone,
--               TypedData/Freeze what it reads of its arguments, and TypedData/Lifetime the steps of a program and the collector.
--   Mutex       src/mutex.rs: Ruby's mutexes; a closure under `synchronize` goes through Method.
--   Thread      src/thread.rs: threads, and the closure that a thread keeps as typed data; Thread/Control
--               has the functions that sleep, wake and stop threads.
--   Fiber       src/fiber.rs: fibers, with the closures of Thread.
--   RStruct     src/r_struct.rs: structs, read out of Ruby's memory; Range reads its members so.
--   Gc          src/gc.rs: what Rust tells the collector.
--   BoxValue    src/value.rs: `BoxValue`, whose boxes the collector knows.
--   Embed       src/embed.rs: starting Ruby once, and shutting it down.
--   Ruby        what is taken from `rb_sys`: the constants, the heap, and in Ruby/Numbers the C
--               functions on integers.
--   Prelude, Bits   lists, tests, signed integers, calls that can fail; words and bit masks.
--   Tests       concrete parameters, and the theorems at concrete inputs.
--
-- A `VALUE` is a native number; a signed integer is a ℤ with its range written out, and the wrap of
-- a cast is arithmetic modulo a power of two. The platform has 64-bit words and flonums. A `Result`
-- is an `Outcome`, which has a third constructor for a panic. Overflow checks are on: the
-- subtraction of `usize` in `ScannedArgs::optional` panics below zero. Ruby's C API is no
-- code of this repository: it is a parameter of the definitions that call it, a record of functions
-- with a record of documented laws beside it (Numbers and IsNumbers, Floats and IsFloats, ScanCalls
-- with IsScanArgs and IsGetKwargs, Classes with IsClasses, ArrayCalls with IsArrayCalls,
-- HashCalls with IsHashCalls, SymbolCalls with IsSymbolCalls, RangeCalls with IsRangeCalls, TimeCalls
-- with IsTimeCalls, EnsureCalls with IsEnsureCalls, TypedCalls with IsTypedCalls, CloneCalls with
-- IsCloneCalls, MutexCalls with IsMutexCalls, ThreadCalls with IsThreadCalls, FiberCalls with
-- IsFiberCalls, GcCalls with IsGcCalls; EmbedCalls with IsEmbedCalls; StructCalls has no laws). So is Rust's
-- allocator, where boxes are made. A call into C returns or unwinds with a tag, as a `Completion`. A tuple of Rust types is the list of their conversions into a sum type.
-- The loop over an iterator has fuel for the calls of `next`: one more than the array has items is
-- enough. The other fuel is that of the decimal digits of a number n, n + 1 steps, and a number has
-- fewer digits than that.
--
-- The conversions of an array's items run no Ruby code, and a closure given to `RHash::foreach`
-- changes no Ruby object; the body of a loop over an array may change any that is neither hidden nor
-- frozen. Objects are only added to a space: the collector frees what nothing refers to.
--
-- The address of a new box or object is one that is not in use: a store has a limit above the
-- addresses in use, so that there always is one. A read or a free of a box that is not there is
-- undefined, `none`. A Rust type of size zero, whose `Box::new` takes no memory, is left aside, and so is
-- where in its box the `Option` of a closure is: it is the first field. A closure for a thread or a fiber is the values that it has captured, and its
-- code is a function of these.
--
-- Not modelled: the functions that only pass on to Ruby's C API (strings, classes, modules,
-- exceptions), formatting, the words of a closure that are marked, and the derive macros.
pub mod Prelude
pub mod Bits
pub mod Ruby
pub mod Error
pub mod Value
pub mod Fixnum
pub mod Bignum
pub mod Integer
pub mod Flonum
pub mod ScanArgs
pub mod Method
pub mod Api
pub mod Space
pub mod RArray
pub mod RHash
pub mod Lazy
pub mod Convert
pub mod Range
pub mod Symbol
pub mod Time
pub mod TypedData
pub mod Mutex
pub mod RStruct
pub mod Thread
pub mod Fiber
pub mod Gc
pub mod BoxValue
pub mod Embed
pub mod Block
mod Tests
