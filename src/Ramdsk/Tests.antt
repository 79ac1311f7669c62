-- ===== src/Ramdsk/Tests.antt =====
-- A disk of 2048 sectors, and a cipher that adds 1 to each byte.
use cs.Common.{
  ℕ, suc, sym, ◌+◌, ◌-◌, ◌*◌, ◌%◌, ◌≤◌, ◌≡◌, inr, refl, ap, ◌∙◌, Bool, true, false, arith, none,
  some, List, [], ◌∷◌, ◌++◌, length, map,
}
use cs.Ramdsk.{Mem, Entry, Blkcipher, Disk, Kernel, transfer}
use cs.Ramdsk.Bytes.{range, store, Covers, range-store, store-outside, length-range}
use cs.Ramdsk.Transfer.{Applies, Documented, Ready, OnDisk, transfer-read-write, transfer-others}
use cs.Ramdsk.Requests.{
  Segment, Request, request, serve_all, pieces, request-serve_all, request-other_type,
}

first_byte : List Entry → ℕ
first_byte [] = 0
first_byte (e ∷ es) = e.buf

-- The source's bytes go through `f` to the destination.
apply : (ℕ → ℕ) → (dst src : List Entry) (nbytes : ℕ) → Mem → Mem × Bool
apply f dst src n m = (store m (first_byte dst) (map f (range m (first_byte src) n)), false)

length-map : (f : ℕ → ℕ) (xs : List ℕ) → length (map f xs) ≡ length xs
length-map f [] = refl
length-map f (x ∷ xs) = ap suc (length-map f xs)

range-start :
    (m : Mem) (s n : ℕ) (src : List Entry)
    → Covers s n src
    → range m (first_byte src) n ≡ range m s n
unfolding first_byte range
range-start m s n [] c = rw c refl
range-start m s n (e ∷ es) c = rw c.0 refl

store-start :
    (m : Mem) (d n : ℕ) (xs : List ℕ) (dst : List Entry)
    → Covers d n dst
    → length xs ≡ n
    → store m (first_byte dst) xs ≡ store m d xs
unfolding first_byte store
store-start m d n [] [] c e = refl
store-start m d n (x ∷ xs) [] c e = absurd (omega arith)
store-start m d n xs (e' ∷ es) c e = rw c.0 refl

apply-Applies : (f : ℕ → ℕ) → Applies (map f) (apply f)
unfolding apply
apply-Applies f dst src d s n m whole apart cd cs' =
    let xs = map f (range m s n) in
    let size : length xs ≡ n = length-map f (range m s n) ∙ length-range m s n in
    let wrote : store m (first_byte dst) (map f (range m (first_byte src) n)) ≡ store m d xs =
      ap (λ (ys : List ℕ). store m (first_byte dst) (map f ys)) (range-start m s n src cs')
      ∙ store-start m d n xs dst cd size in
    (
      refl,
      ap (λ (z : Mem). range z d n) wrote
          ∙ (ap (λ (k : ℕ). range (store m d xs) d k) (sym size) ∙ range-store m d xs),
      λ y out. ap (λ (z : Mem). z y) wrote ∙ store-outside m d xs y (rw size out),
    )

abbrev caesar : Blkcipher
caesar = record {
  allocates = true;
  takes_key = λ _. true;
  ivsize = 0;
  encrypt = λ key iv. apply (λ x. x + 1);
  decrypt = λ key iv. apply (λ x. x - 1);
}

back : (xs : List ℕ) → map (λ x. x - 1) (map (λ x. x + 1) xs) ≡ xs
back [] = refl
back (x ∷ xs) = let here : x + 1 - 1 ≡ x = omega arith in cc (here, back xs)

caesar-Documented : Documented caesar []
caesar-Documented = record {
  enc = map (λ x. x + 1);
  dec = map (λ x. x - 1);
  encrypts = apply-Applies (λ x. x + 1);
  decrypts = apply-Applies (λ x. x - 1);
  inverse = λ xs _. back xs;
}

caesar-Ready : Ready caesar []
caesar-Ready = record { allocates = refl; takes_key = refl }

abbrev disk : Disk
disk = record { size = 1048576; data_at = 100000 }

abbrev kernel : Kernel
kernel = record { mem = λ a. a % 256; tables = 0; tfms = 0 }

on_disk : OnDisk disk 8 2
on_disk = record { fits = omega arith; small = omega arith }

transfer-read-write_example :
    (range (transfer caesar [] disk 8 2 5000 true kernel).mem (100000 + 8 * 512) (2 * 512)
      ≡ map (λ x. x + 1) (range kernel.mem 5000 (2 * 512)))
    × (range
          (transfer caesar [] disk 8 2 9000 false
            (transfer caesar [] disk 8 2 5000 true kernel)).mem
          9000
          (2 * 512)
        ≡ range kernel.mem 5000 (2 * 512))
unfolding range caesar-Documented
transfer-read-write_example =
    transfer-read-write caesar [] caesar-Documented caesar-Ready disk 8 2 5000 9000 on_disk kernel
      (inr (omega arith)) (inr (omega arith))

transfer-others_example :
    range (transfer caesar [] disk 8 2 5000 true kernel).mem (100000 + 10 * 512) 512
    ≡ range kernel.mem (100000 + 10 * 512) 512
transfer-others_example =
    transfer-others caesar [] caesar-Documented caesar-Ready disk 8 2 5000 10 on_disk kernel
      (inr (omega arith)) (inr (omega arith))

abbrev piece : ℕ → Segment
piece n = record { sector = n; nsect = 8; buffer = 5000 }

abbrev two_pieces : Request
two_pieces = record { fs = true; write = true; current = piece 0; later = piece 8 ∷ [] }

four : pieces caesar [] disk (two_pieces ∷ two_pieces ∷ []) ≤ 4
unfolding pieces
four = omega arith

request-serve_all_example :
    request caesar [] disk 4 (two_pieces ∷ two_pieces ∷ []) kernel
    ≡ some (serve_all caesar [] disk (two_pieces ∷ two_pieces ∷ []) kernel)
request-serve_all_example =
    request-serve_all caesar [] disk 4 (two_pieces ∷ two_pieces ∷ []) kernel (refl, (refl, tt)) four

request-other_type_example :
    request caesar [] disk 100 ((two_pieces ∷ []) ++ record two_pieces { fs = false } ∷ []) kernel
    ≡ none
request-other_type_example =
    request-other_type caesar [] disk 100 (two_pieces ∷ []) (record two_pieces { fs = false }) []
      kernel (refl, tt) refl
