-- ===== src/Ramdsk.antt =====
-- The encrypted RAM disk, indwriterups/project3/ramdsk.c: scatter lists and the transfer of
-- sectors. Memory maps byte addresses to bytes, a page has 4096 bytes; `unsigned long` has 64 bits
-- and `unsigned int` 32. Messages are left out.
pub mod Bytes
pub mod Transfer
pub mod Requests
pub mod Device
mod Tests
use cs.Common.{
  ℕ, zero, suc, ◌+◌, ◌-◌, ◌*◌, ◌/◌, ◌%◌, ◌^◌, Bool, true, false, List, [], ◌∷◌, ltb, ◌==◌,
  if◌then◌else◌,
}

abbrev pub Mem : Type 0
Mem = ℕ → ℕ

-- `KERNEL_SECTOR_SIZE`
abbrev pub sector_bytes : ℕ
sector_bytes = 512

-- An entry of a `struct scatterlist`, as `sg_set_buf` sets it.
pub record Entry : Type 0 where
  pub buf : ℕ
  pub len : ℕ

-- The kernel's block cipher: whether `crypto_alloc_blkcipher` and `crypto_blkcipher_setkey` succeed,
-- `crypto_blkcipher_ivsize`, and the two operations on a destination and a source list, with the
-- key, the length of the IV of bytes 0xFF (0: none is set) and the number of bytes; they give the
-- new memory, and whether they return an error.
pub record Blkcipher : Type 0 where
  pub allocates : Bool
  pub takes_key : List ℕ → Bool
  pub ivsize : ℕ
  pub encrypt : (key : List ℕ) (iv_len : ℕ) (dst src : List Entry) (nbytes : ℕ) → Mem → Mem × Bool
  pub decrypt : (key : List ℕ) (iv_len : ℕ) (dst src : List Entry) (nbytes : ℕ) → Mem → Mem × Bool

-- `struct ramdsk_dev`, as a transfer sees it: the size in bytes and the address of the data.
pub record Disk : Type 0 where
  pub size : ℕ
  pub data_at : ℕ

-- Memory, the scatter lists from `vmalloc` that were not given back, and the cipher handles.
pub record Kernel : Type 0 where
  pub mem : Mem
  pub tables : ℕ
  pub tfms : ℕ

-- `fill_sgl`: `n` entries from `page_off` on, of a buffer of `buf_l` bytes.
unfoldable pub fill_from : (n buffer page_off buf_l : ℕ) → List Entry
fill_from zero buffer page_off buf_l = []
fill_from (suc n) buffer page_off buf_l =
    let size = if ltb buf_l (page_off + 4096) then buf_l - page_off else 4096 in
    record { buf = buffer + page_off; len = size } ∷ fill_from n buffer (page_off + 4096) buf_l

unfoldable pub fill_sgl : (sgl_l buffer buf_l : ℕ) → List Entry
unfolding fill_from
fill_sgl sgl_l buffer buf_l = fill_from sgl_l buffer 0 buf_l

-- `npages` of `ramdsk_transfer`
unfoldable pub npages : ℕ → ℕ
npages nbytes = let n = nbytes % 2 ^ 32 / 4096 + 1 in if nbytes % 4096 == 0 then n - 1 else n

-- `offset` and `nbytes`
abbrev pub bytes_of : ℕ → ℕ
bytes_of sectors = sectors * 512 % 2 ^ 64

-- The part of `ramdsk_transfer` behind the check of the size: `datadir` is true for a write. The
-- IV is set only if the cipher has one.
unfoldable pub crypt :
    Blkcipher → (key : List ℕ) → Disk → (offset nbytes buffer : ℕ) → (datadir : Bool) → Mem → Mem
unfolding fill_sgl npages
crypt c key dev offset nbytes buffer true m =
    let n = npages nbytes in
    (c.encrypt key c.ivsize (fill_sgl n (dev.data_at + offset) nbytes) (fill_sgl n buffer nbytes)
      nbytes m).0
crypt c key dev offset nbytes buffer false m =
    let n = npages nbytes in
    (c.decrypt key c.ivsize (fill_sgl n buffer nbytes) (fill_sgl n (dev.data_at + offset) nbytes)
      nbytes m).0

-- `ramdsk_transfer`
unfoldable pub transfer :
    Blkcipher
    → (key : List ℕ) → Disk
    → (sector nsect buffer : ℕ) → (datadir : Bool) → Kernel
    → Kernel
transfer c key dev sector nsect buffer datadir k =
    let offset = bytes_of sector in
    let nbytes = bytes_of nsect in
    let k1 : Kernel = record k { tables = k.tables + 2 } in
    let k2 : Kernel = record k1 { tfms = k1.tfms + 1 } in
    if c.allocates
    then (if c.takes_key key
        then (if ltb dev.size ((offset + nbytes) % 2 ^ 64) then k2 else record k2 {
          mem = crypt c key dev offset nbytes buffer datadir k2.mem;
          tables = k.tables;
        })
        else k2)
    else k1
