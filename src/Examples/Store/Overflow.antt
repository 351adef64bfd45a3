-- ===== src/Examples/Store/Overflow.antt =====
-- What examples/zone_store.rs writes of a file that does not fit the buffer of its writer.
use zoned.Base.{
  lt→leb_false, ℕ, ◌/◌, ◌%◌, ◌≤◌, ◌<◌, ◌≡◌, refl, List, [], arith, length, u64_mod, add_u64,
}
use zoned.Base.Bytes.{to_le, length-to_le}
use zoned.Errors.{ok, ◌>>◌}
use zoned.Types.{sector_size}
use zoned.Device
use zoned.Handle
use zoned.Handle.{ZoneHandle}
use zoned.Examples.{header_size, write_align}
use zoned.Examples.BufWriter.{on_inner, write_all, flush}
use zoned.Examples.BufWriter.Flushed.{put-room, put-overflow, flush_buf-once}
use zoned.Examples.Store.{writer_capacity, put_padding, write_file}

-- Eight bytes do not move the pointer.
write-header_alone :
    {W : Type 0} (header : List ℕ) (h : ZoneHandle W) (w w1 : W)
    → h.write_pointer < Handle.capacity_end h
    → h.write_pointer < u64_mod
    → Device.write_at h.device h.write_pointer header w ≡ (ok header_size, w1)
    → Handle.write header (h, w) ≡ (ok header_size, (h, w1))
unfolding Handle.write Handle.write_sequential
write-header_alone header h w w1 below small taken =
    let still : add_u64 h.write_pointer (header_size / sector_size) ≡ h.write_pointer =
      omega (arith, small) in
    rw (lt→leb_false (Handle.capacity_end h) h.write_pointer below, taken, still) refl

-- A larger file, of 131,072 bytes or more, in a handle below its capacity whose device takes the eight
-- bytes of the header alone. The content is then written from the handle as it was, at the write pointer
-- where the header stands.
pub write_file-header_alone :
    {W : Type 0} (content : List ℕ) (h : ZoneHandle W) (w w1 : W)
    → writer_capacity ≤ length content
    → h.write_pointer < Handle.capacity_end h
    → h.write_pointer < u64_mod
    → Device.write_at h.device h.write_pointer (to_le header_size (length content)) w
      ≡ (ok header_size, w1)
    → write_file content ([], (h, w))
      ≡ (do
        on_inner (write_all (length content) content)
        put_padding (add_u64 header_size (length content) % write_align)
        flush)
          ([], (h, w1))
unfolding write_file
write_file-header_alone content h w w1 large below small taken =
    let count : length (to_le header_size (length content)) ≡ header_size =
      length-to_le header_size (length content) in
    rw
      (
        put-room writer_capacity (to_le header_size (length content)) [] (h, w)
            (omega (arith, count)) (omega (arith, count)),
        put-overflow writer_capacity content (to_le header_size (length content)) (h, w) (h, w1)
            (omega arith) (omega (arith, count)) large
            (flush_buf-once (to_le header_size (length content)) (h, w) (h, w1)
              (omega (arith, count))
              (rw count (
                write-header_alone (to_le header_size (length content)) h w w1 below small taken))),
      )
      refl
