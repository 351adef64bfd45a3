-- ===== src/Lib.antt =====
-- Verification of the zoned crate: management of zoned block devices (SMR and ZNS).
--
-- The crate is a handle on a zoned block device (src/device), which reports zones, manages them and
-- does positional I/O through a platform's ioctls (src/platform); a handle on one zone with its own
-- copy of the write pointer (src/zone_handle); and an allocator that lets threads share the zones of
-- a device (src/zone_allocator). A report goes from the handle to the platform in batches; a zone
-- handle is built from a report, and drops its zone back into the allocator's set.
--
-- The files, and the code that each is about:
--   Base, with its children: lists and words over the native numbers. Arithmetic on u64 is that of a
--     release build, which wraps: add_u64, sub_u64, mul_u64; checked_* are the functions of that name.
--   Errors (src/error/mod.rs): ZonedError with the constructors of the source, and Io, the type of a
--     fallible call. A call takes the world W to an Outcome and the world after it: ok and err are
--     the cases of Result, panic a panic, and timeout a loop that ran out of fuel. Paths are texts;
--     bytes are numbers.
--   Types (src/types/mod.rs) and Types.Filter (src/types/filter.rs): Sector and ZoneIndex are their
--     numbers; Zone, its predicates, and the filter. Types.Display has the texts of Display.
--   Platform (src/platform/mod.rs): PlatformDevice as a record of its operations, over any world.
--     Platform.Kernel is the parameter for the system calls, Platform.Files what both platforms do
--     with them. Platform.Linux (src/platform/linux.rs) and Platform.Freebsd (src/platform/freebsd.rs)
--     give a PlatformDevice over the ioctls, which are parameters too; on Linux the buffers of the
--     report ioctl are bytes, laid out by Platform.Linux.Struct, and Platform.Linux.Report is about
--     the round through them. Platform.Freebsd.Args lays out the argument of the zone ioctl of FreeBSD,
--     Platform.Freebsd.Args.Response is about what a report reads out of the answer, and
--     Platform.Freebsd.Range about the loop over the zones of a range. Platform.Freebsd.Properties has
--     the device's properties. Platform.Storage and Platform.Writes are about the reads and writes of
--     both, down to the system calls.
--   Device (src/device/mod.rs): ZonedDevice and its methods, under their names. Device.Iter is
--     src/device/iter.rs and the filtered report; Device.Cursor is src/device/cursor.rs;
--     Device.Builder is src/device/builder.rs, with the functions of src/validate/mod.rs as an interface.
--     Device.Layout and Device.Storage say what a theorem supposes of the platform below: Serves, that
--     a report gives the zones from the one that holds the sector on, and Storage, that a write changes the medium by the
--     bytes it reports, in whole sectors for a buffer of whole sectors. Device.Reads has the same for
--     reads. The theorems are in Device.Report, Device.Write, Device.Bounds, Device.Iter.Complete and
--     Device.Cursor.Laws.
--   Handle (src/zone_handle/mod.rs): ZoneHandle and its methods, which run in the handle beside the
--     world. open and close are open_zone and close_zone. Theorems are in its children.
--   Allocator (src/zone_allocator/mod.rs): the set behind the mutex is a list, each use of it under
--     the lock one step. Allocator.Calls has the calls one at a time, Allocator.Exclusive the steps
--     of threads that take turns, Allocator.Granted what a success grants, and Allocator.Set the list
--     read as a set.
--   FileSystem: the calls on files of the standard library, which are a parameter.
--   Validate (src/validate/mod.rs): the checks of the file type and of the mounts on Linux;
--     Validate.Partitions has the checks for partitions, Validate.Checks the rest and the functions of
--     each system as the builder calls them. Base.Text has the functions of str that they call,
--     Base.Text.Rows and Base.Text.Decimal what these make of lines of words and of decimal numbers,
--     Base.Text.Order the order of texts.
--   Sysfs (src/sysfs.rs): the attributes and properties of a device; Types.Properties has the
--     records, Base.Text.Edit more functions of str and Path::file_name.
--   Async (src/async_api): a call on a thread of tokio, whose runtime is a parameter; Async.Device and
--     Async.Handle are the two files there. Async.Reads is about what is read back. Async.Shared has the
--     steps of tasks that share a handle, Async.Shared.Order is about the order of their writes,
--     Async.Shared.Progress about their progress, with Async.Shared.Ends about the end of each write.
--   Examples (examples/zone_store.rs and zone_store_async.rs): Examples.Store and
--     Examples.StoreAsync have the write and read commands, Examples.BufWriter the writer of the standard
--     library that the former goes through, Examples.Layout the bytes of a stored file, Examples.Listing the list
--     command of both. What they print is a result, and the exit of the process an outcome.
--   Examples.Zcli (examples/zcli.rs): the console, the rows of a table, the errors of a command. A child for
--     each group of commands: Info, Table, Manage (open, close, finish, reset), Transfer (read, write, pwrite),
--     Validation, Boundary, and Bench, with Bench.Phases around its threads; Arguments has the parsers
--     of values, HexDump the dump of a sector, Commands the choice by main. A thread of the bench is a
--     state whose step is one write, and a schedule the list of the threads' numbers in the order in which
--     they take a step; the counter that they share is part of the world of the steps.
--   Tests: a small device, and the theorems at concrete inputs.
--
-- Fuel. report_all_zones has nr_zones + 1 rounds, for each adds a zone; write_all_at and
-- write_all_sequential have a round for each byte of the buffer, for each writes one.
-- report_zones_filtered and the listings of Examples.Listing take their fuel as an argument, since
-- the device alone bounds their rounds. The writer and the read loop of the stores have a round for
-- each byte of the buffer, for each round writes or reads one.
-- The loop over a range on FreeBSD has a round for each sector of the range, for each moves on.
-- The commands of zcli that list zones take their fuel as an argument, too. The hex dump has a round for
-- each byte. A thread of the bench that is not finished at the end of its schedule is joined with a timeout.
--
-- Not modelled: the texts of Debug and the messages of ZonedError; the tests; the argument parser of clap, the padding of columns, times and
-- rates in examples/zcli.rs. What a debug build does on overflow (it panics) is left out.
pub mod Base
pub mod Errors
pub mod Types
pub mod Platform
pub mod Device
pub mod Handle
pub mod Allocator
pub mod Validate
pub mod Sysfs
pub mod Async
pub mod Tests
pub mod Examples
pub mod FileSystem
