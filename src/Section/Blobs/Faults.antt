-- ===== src/Section/Blobs/Faults.antt =====
-- The array of names that `rv_decode_snam` writes to after the arena has moved.
use ray_vault.Base.{
  ℕ, suc, ◌≡◌, some, List, ◌++◌, length, length-append, take-append, false, arith, IsU16,
}
use ray_vault.Arena.{Arena, Heap, strdup}
use ray_vault.Endian.{split_at, write_le16, write_le32, read_le16, read_le32}
use ray_vault.Endian.RoundTrip.{join16-bytes}
use ray_vault.Decoding.{fault, touch, same_block, same_block_self}
use ray_vault.Section.Blobs.{read_names, read_lp_string, new_string}

-- Where the copy of the first name's string moves the arena's block, `rv_decode_snam` goes on to write
-- to the array of names where it was: the array's address is the one from before the move.
pub read_names-moved :
    (h : Heap) (a : Arena) (n id q : ℕ) (str rest : List ℕ)
    → IsU16 (length str)
    → (strdup h a (length str)).0 ≡ some q
    → same_block a.base (strdup h a (length str)).1.base ≡ false
    → (read_names h a.base
        (suc n)
        (write_le32 id ++ (write_le16 (length str) ++ (str ++ rest)))
        a).0
      ≡ fault
unfolding read_names read_lp_string split_at new_string touch read_le16 read_le32
read_names-moved h a n id q str rest short copied moved = ground (
  arith,
  copied,
  moved,
  join16-bytes (length str) short,
  length-append str rest,
  same_block_self a.base,
  take-append str rest,
)
