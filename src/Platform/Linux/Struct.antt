-- ===== src/Platform/Linux/Struct.antt =====
-- The structs and codes of platform/linux.rs, and how they become the crate's types.
use zoned.Base.{
  ℕ, ◌+◌, ◌^◌, ◌<◌, ◌≡◌, refl, arith, length, Bool, not, none, some, List, ◌++◌, ◌==◌,
  if◌then◌else◌, take, drop, replicate,
}
use zoned.Base.Bytes.{to_le, from_le, from_le-to_le}
use zoned.Types.{
  Zone, ZoneType, conventional, sequential_write_required, sequential_write_preferred,
  ZoneCondition, not_write_pointer, empty, implicitly_open, explicitly_open, closed, read_only,
  full, offline, condition_eq,
}

-- `struct blk_zone` without its reserved bytes.
pub record BlkZone : Type 0 where
  pub start : ℕ
  pub len : ℕ
  pub wp : ℕ
  pub zone_type : ℕ
  pub cond : ℕ
  pub non_seq : ℕ
  pub reset : ℕ
  pub capacity : ℕ

-- The bytes of the struct as repr(C) lays them out, in front of others, and the struct that bytes
-- begin with.
unfoldable pub write_blk_zone : BlkZone → List ℕ → List ℕ
write_blk_zone z rest =
    to_le 8 z.start
    ++ (to_le 8 z.len
        ++ (to_le 8 z.wp
            ++ (to_le 1 z.zone_type
                ++ (to_le 1 z.cond
                    ++ (to_le 1 z.non_seq
                        ++ (to_le 1 z.reset
                            ++ (replicate 4 0
                                ++ (to_le 8 z.capacity ++ (replicate 24 0 ++ rest)))))))))

pub read_blk_zone : List ℕ → BlkZone
read_blk_zone bytes = record {
  start = from_le (take 8 bytes);
  len = from_le (take 8 (drop 8 bytes));
  wp = from_le (take 8 (drop 16 bytes));
  zone_type = from_le (take 1 (drop 24 bytes));
  cond = from_le (take 1 (drop 25 bytes));
  non_seq = from_le (take 1 (drop 26 bytes));
  reset = from_le (take 1 (drop 27 bytes));
  capacity = from_le (take 8 (drop 32 bytes));
}

unfoldable pub parse_zone_type : ℕ → ZoneType
parse_zone_type raw =
    if raw == 0x2
    then sequential_write_required
    else if raw == 0x3
    then sequential_write_preferred
    else conventional

unfoldable pub parse_zone_condition : ℕ → ZoneCondition
parse_zone_condition raw =
    if raw == 0x1
    then empty
    else if raw == 0x2
    then implicitly_open
    else if raw == 0x3
    then explicitly_open
    else if raw == 0x4
    then closed
    else if raw == 0xD
    then read_only
    else if raw == 0xE
    then full
    else if raw == 0xF
    then offline
    else not_write_pointer

unfoldable pub blk_zone_to_zone : BlkZone → Bool → Zone
unfolding parse_zone_type parse_zone_condition
blk_zone_to_zone bz has_capacity = record {
  start = bz.start;
  len = bz.len;
  capacity = if has_capacity then bz.capacity else bz.len;
  write_pointer =
      if condition_eq (parse_zone_condition bz.cond) not_write_pointer then none else some bz.wp;
  zone_type = parse_zone_type bz.zone_type;
  condition = parse_zone_condition bz.cond;
  non_seq = not (bz.non_seq == 0);
  reset_recommended = not (bz.reset == 0);
}

-- The fields of the struct are in the range of their types.
pub record Fits (z : BlkZone) : Type 0 where
  pub start_fits : z.start < 256 ^ 8
  pub len_fits : z.len < 256 ^ 8
  pub wp_fits : z.wp < 256 ^ 8
  pub zone_type_fits : z.zone_type < 256 ^ 1
  pub cond_fits : z.cond < 256 ^ 1
  pub non_seq_fits : z.non_seq < 256 ^ 1
  pub reset_fits : z.reset < 256 ^ 1
  pub capacity_fits : z.capacity < 256 ^ 8

-- The bytes of a struct whose fields are in the range of their types read back as that struct,
-- whatever bytes follow.
pub read-write_blk_zone :
    (z : BlkZone) (rest : List ℕ) → Fits z → read_blk_zone (write_blk_zone z rest) ≡ z
unfolding read_blk_zone write_blk_zone to_le
read-write_blk_zone z rest h = λ i. record {
  start = from_le-to_le 8 z.start h.start_fits i;
  len = from_le-to_le 8 z.len h.len_fits i;
  wp = from_le-to_le 8 z.wp h.wp_fits i;
  zone_type = from_le-to_le 1 z.zone_type h.zone_type_fits i;
  cond = from_le-to_le 1 z.cond h.cond_fits i;
  non_seq = from_le-to_le 1 z.non_seq h.non_seq_fits i;
  reset = from_le-to_le 1 z.reset h.reset_fits i;
  capacity = from_le-to_le 8 z.capacity h.capacity_fits i;
}

pub drop-write_blk_zone : (z : BlkZone) (rest : List ℕ) → drop 64 (write_blk_zone z rest) ≡ rest
unfolding write_blk_zone to_le
drop-write_blk_zone z rest = refl

pub length-write_blk_zone :
    (z : BlkZone) (rest : List ℕ) → length (write_blk_zone z rest) ≡ 64 + length rest
unfolding write_blk_zone to_le
length-write_blk_zone z rest = omega arith
