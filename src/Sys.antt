-- ===== src/Sys.antt =====
-- The operating system as the programs see it. None of its code is in the repository, so it is a
-- parameter: a `Kernel` answers each call from all that has happened before, the `Trace` of
-- calls with their results, newest first. A program is a function from the trace so far to its
-- result and the longer trace; `fault` is undefined behaviour of C (an access out of bounds). A
-- `while (1)` loop is run for a number of rounds (`Loop`).
mod Types
mod Calls
pub mod Resources
pub mod Arrivals
pub mod Loop
pub mod Partial
pub mod Tls
pub use Types.{
  Bytes, Event, Trace, Kernel, Run, ok, fault, M, pure, raise_fault, ◌>>=◌, ◌>>◌, checked,
}
unfoldable pub use Calls.*
