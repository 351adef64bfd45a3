-- ===== src/Examples.antt =====
-- examples/zone_store.rs and examples/zone_store_async.rs: what the two programs share. What they print
-- is left out, and the exit of the process is an outcome.
pub mod Layout
pub mod Restores
pub mod Listing
pub mod StoreAsync
pub mod BufWriter
pub mod Store
pub mod Zcli
use zoned.Base.{
  ℕ, ◌*◌, ◌-◌, ◌/◌, ◌%◌, List, [], ◌∷◌, ◌++◌, ◌||◌, ltb, leb, ◌==◌, if◌then◌else◌, length, take,
  drop, replicate, add_u64, sub_u64,
}
use zoned.Base.Bytes.{to_le}
use zoned.Errors.{Io, panic, timeout, ok, err, map_err, return, ZonedError}
use zoned.Handle.{ZoneHandle}

-- An error that `run` passes on, or `process::exit` with a code.
pub data Failure : Type 0 where
  failed : ZonedError → Failure
  exits : ℕ → Failure

abbrev pub Command : Type 0 → Type 0 → Type 0
Command W A = Io W Failure A

abbrev pub passes : {W A : Type 0} → Io W ZonedError A → Command W A
passes = map_err failed

-- A part of a program that runs in a handle, which it owns, beside the world.
abbrev pub with_handle : {W E A : Type 0} → ZoneHandle W → Io (ZoneHandle W × W) E A → Io W E A
with_handle handle f w = let (r, (h, w')) = f (handle, w) in (r, w')

abbrev pub header_size : ℕ
header_size = 8

abbrev pub write_align : ℕ
write_align = 4096

-- `Vec::resize` to the next multiple of `write_align`.
abbrev pub padded : List ℕ → List ℕ
padded payload =
    let remainder : ℕ = length payload % write_align in
    if remainder == 0 then payload else payload ++ replicate (write_align - remainder) 0

-- The header and the content.
abbrev pub payload_of : List ℕ → List ℕ
payload_of content = to_le header_size (length content) ++ content

-- `(n + WRITE_ALIGN - 1) & !(WRITE_ALIGN - 1)`.
abbrev pub round_up : ℕ → ℕ
round_up n = sub_u64 (add_u64 n write_align) 1 / write_align * write_align

-- `&bytes[from..to]`, which panics out of range.
abbrev pub slice : {W E : Type 0} → ℕ → ℕ → List ℕ → Io W E (List ℕ)
slice from to bytes w =
    if ltb to from || ltb (length bytes) to
    then (panic, w)
    else (ok (take (to - from) (drop from bytes)), w)
