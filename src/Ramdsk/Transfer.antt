-- ===== src/Ramdsk/Transfer.antt =====
-- `ramdsk_transfer` with a cipher that does what the kernel documents.
use cs.Common.{
  ℕ, ◌+◌, ◌*◌, ◌%◌, ◌^◌, ◌≤◌, ◌<◌, ◌≡◌, ◌⊎◌, inl, inr, refl, ap, ◌∙◌, Bool, true, false, arith, ltb,
  List, length,
}
use cs.Ramdsk.{Mem, Entry, Blkcipher, Disk, Kernel, bytes_of, crypt, transfer}
use cs.Ramdsk.Bytes.{range, Covers, fill_sgl-Covers, length-range, range-same}

-- `n` bytes at `a` and `n` bytes at `b` have none in common.
abbrev pub Apart : (a b n : ℕ) → Type 0
Apart a b n = (a + n ≤ b) ⊎ (b + n ≤ a)

-- A documented cipher operation: on lists that cover the same number of bytes, a multiple of 512
-- and so of the cipher's blocks, with none in common, it writes `f` of the source's bytes to the
-- destination, and nothing else, and succeeds. Of other lists nothing is said.
abbrev pub Applies :
    (List ℕ → List ℕ) → ((dst src : List Entry) (nbytes : ℕ) → Mem → Mem × Bool) → Type 0
Applies f op =
    (dst src : List Entry) (d s n : ℕ) (m : Mem)
    → n % 512 ≡ 0
    → Apart d s n
    → Covers d n dst
    → Covers s n src
    → ((op dst src n m).1 ≡ false)
      × (range (op dst src n m).0 d n ≡ f (range m s n))
      × ((y : ℕ) → (y < d) ⊎ (d + n ≤ y) → (op dst src n m).0 y ≡ m y)

-- The two operations, and that one undoes the other on whole sectors.
pub record Documented (c : Blkcipher) (key : List ℕ) : Type 0 where
  pub enc : List ℕ → List ℕ
  pub dec : List ℕ → List ℕ
  pub encrypts : Applies enc (c.encrypt key c.ivsize)
  pub decrypts : Applies dec (c.decrypt key c.ivsize)
  pub inverse : (xs : List ℕ) → length xs % 512 ≡ 0 → dec (enc xs) ≡ xs

-- The cipher is there and takes the key.
pub record Ready (c : Blkcipher) (key : List ℕ) : Type 0 where
  pub allocates : c.allocates ≡ true
  pub takes_key : c.takes_key key ≡ true

-- The sectors lie on the disk, and the numbers of bytes do not wrap.
pub record OnDisk (dev : Disk) (sector nsect : ℕ) : Type 0 where
  pub fits : sector * 512 + nsect * 512 ≤ dev.size
  pub small : dev.size < 2 ^ 31

transfer-run :
    (c : Blkcipher) (key : List ℕ) (dev : Disk) (sector nsect buffer : ℕ) (datadir : Bool)
    (k : Kernel)
    → Ready c key
    → OnDisk dev sector nsect
    → transfer c key dev sector nsect buffer datadir k ≡ record {
      mem = crypt c key dev (sector * 512) (nsect * 512) buffer datadir k.mem;
      tables = k.tables;
      tfms = k.tfms + 1;
    }
unfolding transfer
transfer-run c key dev sector nsect buffer datadir k r on =
    let o : bytes_of sector ≡ sector * 512 = omega (arith, on.fits, on.small) in
    let n : bytes_of nsect ≡ nsect * 512 = omega (arith, on.fits, on.small) in
    let inside : ltb dev.size ((sector * 512 + nsect * 512) % 2 ^ 64) ≡ false =
      ground (arith, on.fits, on.small) in
    rw (r.allocates, r.takes_key, o, n, inside) refl

Apart-swap : (a b n : ℕ) → Apart a b n → Apart b a n
Apart-swap a b n (inl h) = inr h
Apart-swap a b n (inr h) = inl h

module _ (c : Blkcipher) (key : List ℕ) (d : Documented c key) (dev : Disk)
    (sector nsect buffer : ℕ) (on : OnDisk dev sector nsect)
    (apart : Apart (dev.data_at + sector * 512) buffer (nsect * 512)) (m : Mem) where
  crypt-write :
      (range
          (crypt c key dev (sector * 512) (nsect * 512) buffer true m)
          (dev.data_at + sector * 512)
          (nsect * 512)
        ≡ d.enc (range m buffer (nsect * 512)))
      × ((y : ℕ)
          → (y < dev.data_at + sector * 512) ⊎ (dev.data_at + sector * 512 + nsect * 512 ≤ y)
          → crypt c key dev (sector * 512) (nsect * 512) buffer true m y ≡ m y)
  unfolding crypt
  crypt-write =
      let small : nsect * 512 < 2 ^ 32 = omega (arith, on.fits, on.small) in
      let (_, bytes, frame) =
        d.encrypts _ _ (dev.data_at + sector * 512) buffer (nsect * 512) m (omega arith) apart
          (fill_sgl-Covers (dev.data_at + sector * 512) (nsect * 512) small)
          (fill_sgl-Covers buffer (nsect * 512) small) in
      (bytes, frame)

  crypt-read :
      (range (crypt c key dev (sector * 512) (nsect * 512) buffer false m) buffer (nsect * 512)
        ≡ d.dec (range m (dev.data_at + sector * 512) (nsect * 512)))
      × ((y : ℕ)
          → (y < buffer) ⊎ (buffer + nsect * 512 ≤ y)
          → crypt c key dev (sector * 512) (nsect * 512) buffer false m y ≡ m y)
  unfolding crypt
  crypt-read =
      let small : nsect * 512 < 2 ^ 32 = omega (arith, on.fits, on.small) in
      let (_, bytes, frame) =
        d.decrypts _ _ buffer (dev.data_at + sector * 512) (nsect * 512) m (omega arith)
          (Apart-swap _ _ _ apart) (fill_sgl-Covers buffer (nsect * 512) small)
          (fill_sgl-Covers (dev.data_at + sector * 512) (nsect * 512) small) in
      (bytes, frame)

-- With the documented cipher, there and given its key, sectors that lie on a disk of less than 2^31
-- bytes, and two buffers that have no byte in common with these sectors in memory: a write stores
-- the encrypted bytes of its buffer in the sectors, and a read of these sectors, at once, gives its
-- buffer the bytes that were written.
pub transfer-read-write :
    (c : Blkcipher) (key : List ℕ) (d : Documented c key) (r : Ready c key)
    → (dev : Disk) (sector nsect source target : ℕ) (on : OnDisk dev sector nsect) (k : Kernel)
    → Apart (dev.data_at + sector * 512) source (nsect * 512)
    → Apart (dev.data_at + sector * 512) target (nsect * 512)
    → (range
          (transfer c key dev sector nsect source true k).mem
          (dev.data_at + sector * 512)
          (nsect * 512)
        ≡ d.enc (range k.mem source (nsect * 512)))
      × (range
            (transfer c key dev sector nsect target false
              (transfer c key dev sector nsect source true k)).mem
            target
            (nsect * 512)
          ≡ range k.mem source (nsect * 512))
transfer-read-write c key d r dev sector nsect source target on k from to =
    let n = nsect * 512 in
    let w : Kernel = record {
      mem = crypt c key dev (sector * 512) n source true k.mem;
      tables = k.tables;
      tfms = k.tfms + 1;
    } in
    let (stored, _) = crypt-write c key d dev sector nsect source on from k.mem in
    let (got, _) = crypt-read c key d dev sector nsect target on to w.mem in
    let write = transfer-run c key dev sector nsect source true k r on in
    let read = transfer-run c key dev sector nsect target false w r on in
    let whole : length (range k.mem source n) % 512 ≡ 0 =
      omega (arith, length-range k.mem source n) in
    (
      ap (λ (z : Kernel). range z.mem (dev.data_at + sector * 512) n) write ∙ stored,
      ap (λ (z : Kernel). range (transfer c key dev sector nsect target false z).mem target n) write
          ∙ (ap (λ (z : Kernel). range z.mem target n) read
              ∙ (got ∙ (ap d.dec stored ∙ d.inverse (range k.mem source n) whole))),
    )

-- With the documented cipher, there and given its key, sectors that lie on a disk of less than 2^31
-- bytes, and a buffer that has no byte in common with these sectors in memory: a write to the
-- sectors leaves the bytes of every other sector as they are.
pub transfer-others :
    (c : Blkcipher) (key : List ℕ) (d : Documented c key) (r : Ready c key)
    → (dev : Disk) (sector nsect buffer other : ℕ) (on : OnDisk dev sector nsect) (k : Kernel)
    → Apart (dev.data_at + sector * 512) buffer (nsect * 512)
    → (other < sector) ⊎ (sector + nsect ≤ other)
    → range (transfer c key dev sector nsect buffer true k).mem (dev.data_at + other * 512) 512
      ≡ range k.mem (dev.data_at + other * 512) 512
transfer-others c key d r dev sector nsect buffer other on k away apart =
    let (_, around) = crypt-write c key d dev sector nsect buffer on away k.mem in
    let n = nsect * 512 in
    let w = crypt c key dev (sector * 512) n buffer true k.mem in
    let run = transfer-run c key dev sector nsect buffer true k r on in
    ap (λ (z : Kernel). range z.mem (dev.data_at + other * 512) 512) run
    ∙ range-same k.mem w (dev.data_at + other * 512) 512 (λ y lo hi. around y (omega arith))
