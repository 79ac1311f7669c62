-- ===== src/Ramdsk/Device.antt =====
-- Set-up and removal of the RAM disks, and the geometry, indwriterups/project3/ramdsk.c. The
-- kernel's answers are arguments; what is given back or registered is a list of events.
use cs.Common.{
  ℕ, zero, suc, ◌+◌, ◌*◌, ◌/◌, ◌≤◌, ◌<◌, ◌≡◌, refl, Bool, true, false, arith, ◌==◌, if◌then◌else◌,
  Bool-cases, inl, inr, List, [], ◌∷◌, ◌++◌,
}

-- `nsectors`, `hardsect_size`
pub record Params : Type 0 where
  pub nsectors : ℕ
  pub hardsect_size : ℕ

pub record Geometry : Type 0 where
  pub cylinders : ℕ
  pub heads : ℕ
  pub sectors : ℕ
  pub start : ℕ

-- `ramdsk_getgeo`; `(size & ~0x3f) >> 6` is `size / 64`.
unfoldable pub getgeo : Params → Geometry
getgeo p =
    let size = p.nsectors * p.hardsect_size * (p.hardsect_size / 512) in
    record { cylinders = size / 64; heads = 4; sectors = 16; start = 0 }

-- What happens to the parts of the disk with a number.
pub data Event : Type 0 where
  add_disk cleanup_queue del_gendisk put_disk vfree_data : ℕ → Event
  set_capacity : (disk sectors : ℕ) → Event
  free_devices unregister_blkdev : Event

-- A `struct ramdsk_dev`: which of its pointers are not null.
pub record Device : Type 0 where
  pub size : ℕ
  pub data_set : Bool
  pub queue_set : Bool
  pub gd_set : Bool

-- What `vmalloc`, `blk_init_queue` and `alloc_disk` give.
pub record Answers : Type 0 where
  pub vmalloc : Bool
  pub init_queue : Bool
  pub alloc_disk : Bool

-- `ramdsk_device_init`
unfoldable pub device_init : Params → (i : ℕ) → Answers → Device × List Event
device_init p i a =
    let d : Device = record {
      size = p.nsectors * p.hardsect_size;
      data_set = a.vmalloc;
      queue_set = false;
      gd_set = false;
    } in
    if a.vmalloc
    then (if a.init_queue
        then (if a.alloc_disk
            then (
              record d { queue_set = true; gd_set = true },
              set_capacity i 0
                  ∷ add_disk i
                  ∷ set_capacity i (p.nsectors * (p.hardsect_size / 512))
                  ∷ [],
            )
            else (
              record d { queue_set = true },
              cleanup_queue i ∷ del_gendisk (i + 1) ∷ vfree_data i ∷ [],
            ))
        else (d, vfree_data i ∷ []))
    else (d, [])

-- The devices from number `i` on.
unfoldable pub init_devices : Params → (n i : ℕ) → (ℕ → Answers) → List Device × List Event
unfolding device_init
init_devices p zero i answers = ([], [])
init_devices p (suc n) i answers =
    let d = device_init p i (answers i) in
    let rest = init_devices p n (i + 1) answers in (d.0 ∷ rest.0, d.1 ++ rest.1)

-- The result of `ramdsk_init`: 0, or `-EBUSY`, or `-ENOMEM`.
pub data Status : Type 0 where
  success busy no_memory : Status

-- `ramdsk_init`: `major` is what `register_blkdev` returns, 0 for any number that is not positive.
unfoldable pub ramdsk_init :
    Params
    → (ndevices major : ℕ) → (kmalloc : Bool) → (ℕ → Answers)
    → Status × List Device × List Event
unfolding init_devices
ramdsk_init p ndevices major kmalloc answers =
    let devices = init_devices p ndevices 0 answers in
    if major == 0
    then (busy, [], [])
    else if kmalloc
    then (success, devices.0, devices.1)
    else (no_memory, [], unregister_blkdev ∷ [])

-- The loop of `ramdsk_exit`; the third call does not depend on `i`.
unfoldable pub exit_devices : (n i : ℕ) → List Event
exit_devices zero i = []
exit_devices (suc n) i =
    put_disk i ∷ cleanup_queue i ∷ del_gendisk 1 ∷ vfree_data i ∷ exit_devices n (i + 1)

unfoldable pub ramdsk_exit : (ndevices : ℕ) → List Event
unfolding exit_devices
ramdsk_exit ndevices = exit_devices ndevices 0 ++ free_devices ∷ unregister_blkdev ∷ []

-- How often the list has the disk `j` deleted, and its data freed.
abbrev pub deletes : ℕ → List Event → ℕ
deletes j [] = 0
deletes j (e ∷ es) = (elim e [ del_gendisk i ↦ if i == j then 1 else 0 | _ ↦ 0 ]) + deletes j es

abbrev pub frees : ℕ → List Event → ℕ
frees j [] = 0
frees j (e ∷ es) = (elim e [ vfree_data i ↦ if i == j then 1 else 0 | _ ↦ 0 ]) + frees j es

deletes-exit_devices :
    (n i j : ℕ) (es : List Event)
    → deletes j (exit_devices n i ++ es) ≡ (if j == 1 then n else 0) + deletes j es
unfolding exit_devices
deletes-exit_devices zero i j es = ground arith
deletes-exit_devices (suc n) i j es = ground (arith, deletes-exit_devices n (i + 1) j es)

frees-exit_devices-below :
    (n i j : ℕ) (es : List Event) → j < i → frees j (exit_devices n i ++ es) ≡ frees j es
unfolding exit_devices
frees-exit_devices-below zero i j es lt = refl
frees-exit_devices-below (suc n) i j es lt = ground (arith, frees-exit_devices-below n (i + 1) j es)

frees-exit_devices :
    (n i j : ℕ) (es : List Event)
    → i ≤ j
    → j < i + n
    → frees j (exit_devices n i ++ es) ≡ 1 + frees j es
unfolding exit_devices
frees-exit_devices zero i j es lo hi = absurd (omega arith)
frees-exit_devices (suc n) i j es lo hi = elim (Bool-cases (i == j)) [
  | inl here ↦ ground (arith, frees-exit_devices-below n (i + 1) j es)
  | inr other ↦ ground (arith, frees-exit_devices n (i + 1) j es)
]

-- `ramdsk_exit` frees the data of each disk once. But it deletes the disk of number 1 as often as
-- there are devices, and no other: with one device that is a disk behind the end of the array.
ramdsk_exit_lem :
    (ndevices j : ℕ)
    → j < ndevices
    → (frees j (ramdsk_exit ndevices) ≡ 1)
      × (deletes j (ramdsk_exit ndevices) ≡ (if j == 1 then ndevices else 0))
      × (deletes 1 (ramdsk_exit ndevices) ≡ ndevices)
unfolding ramdsk_exit
ramdsk_exit_lem ndevices j lt = (
  frees-exit_devices ndevices 0 j _ (omega arith) (omega (arith, lt)),
  ground (arith, deletes-exit_devices ndevices 0 j (free_devices ∷ unregister_blkdev ∷ [])),
  ground (arith, deletes-exit_devices ndevices 0 1 (free_devices ∷ unregister_blkdev ∷ [])),
)

-- With sectors of 512 bytes, the geometry describes 512 times as many sectors as the disk has.
getgeo_lem :
    (p : Params)
    → p.hardsect_size ≡ 512
    → (getgeo p).cylinders * (getgeo p).heads * (getgeo p).sectors ≡ 512 * p.nsectors
unfolding getgeo
getgeo_lem p e = rw e (omega arith)
