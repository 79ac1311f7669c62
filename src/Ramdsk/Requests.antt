-- ===== src/Ramdsk/Requests.antt =====
-- `ramdsk_request` of indwriterups/project3/ramdsk.c: the loop over the request queue.
use cs.Common.{
  ℕ, zero, suc, ◌+◌, ◌≤◌, ◌<◌, ◌≡◌, refl, ap, ◌∙◌, Bool, true, false, arith, if◌then◌else◌, Option,
  none, some, List, [], ◌∷◌, ◌++◌, length, All,
}
use cs.Ramdsk.{Blkcipher, Disk, Kernel, transfer}

-- What is left of a request in one piece of memory: `blk_rq_pos`, `blk_rq_cur_sectors`, `buffer`.
pub record Segment : Type 0 where
  pub sector : ℕ
  pub nsect : ℕ
  pub buffer : ℕ

-- A request: whether its type is `REQ_TYPE_FS`, `rq_data_dir`, and its pieces.
pub record Request : Type 0 where
  pub fs : Bool
  pub write : Bool
  pub current : Segment
  pub later : List Segment

module _ (c : Blkcipher) (key : List ℕ) (dev : Disk) where
  unfoldable pub serve : Bool → Segment → Kernel → Kernel
  serve write s k = transfer c key dev s.sector s.nsect s.buffer write k

  -- The loop with the request `rq` at hand. `__blk_end_request_cur` leaves the later pieces, and
  -- `blk_fetch_request` takes the next request when none is left. `none`: the fuel ran out.
  unfoldable pub request_loop :
      (fuel : ℕ) → (rq : Request) → (queue : List Request) → Kernel → Option Kernel
  request_loop zero rq queue k = none
  request_loop (suc fuel) rq queue k =
      let k' = serve rq.write rq.current k in
      let again = request_loop fuel rq queue k in
      let rest : Option Kernel = elim rq.later [
        | [] ↦ elim queue [ [] ↦ some k' | r ∷ rs ↦ request_loop fuel r rs k' ]
        | s ∷ ss ↦ request_loop fuel (record rq { current = s; later = ss }) queue k'
      ] in
      if rq.fs then rest else again

  -- `ramdsk_request`
  unfoldable pub request : (fuel : ℕ) → (queue : List Request) → Kernel → Option Kernel
  unfolding request_loop
  request fuel [] k = some k
  request fuel (r ∷ rs) k = request_loop fuel r rs k

  -- The reference: each piece of each request in turn.
  pub serve_pieces : Bool → List Segment → Kernel → Kernel
  serve_pieces write [] k = k
  serve_pieces write (s ∷ ss) k = serve_pieces write ss (serve write s k)

  pub serve_all : List Request → Kernel → Kernel
  serve_all [] k = k
  serve_all (r ∷ rs) k = serve_all rs (serve_pieces r.write (r.current ∷ r.later) k)

  unfoldable pub pieces : List Request → ℕ
  pieces [] = 0
  pieces (r ∷ rs) = suc (length r.later) + pieces rs

  request_loop-serve :
      (fuel : ℕ) (write : Bool) (s : Segment) (ss : List Segment) (rs : List Request) (k : Kernel)
      → All (λ r. r.fs ≡ true) rs
      → length ss + pieces rs < fuel
      → request_loop fuel (record { fs = true; write = write; current = s; later = ss }) rs k
        ≡ some (serve_all rs (serve_pieces write (s ∷ ss) k))
  unfolding request_loop serve_pieces serve_all pieces
  request_loop-serve zero write s ss rs k h enough = absurd (omega arith)
  request_loop-serve (suc fuel) write s [] [] k h enough = refl
  request_loop-serve (suc fuel) write s [] (r ∷ rs) k h enough =
      ap (λ (b : Bool). request_loop fuel (record r { fs = b }) rs (serve write s k)) h.0
      ∙ request_loop-serve fuel r.write r.current r.later rs (serve write s k) h.1 (omega arith)
  request_loop-serve (suc fuel) write s (t ∷ ss) rs k h enough =
      request_loop-serve fuel write t ss rs (serve write s k) h (omega arith)

  -- On file system requests the loop ends, within a step for each piece, and does the transfers of
  -- all pieces of all requests in their order, as the reference does.
  pub request-serve_all :
      (fuel : ℕ) (queue : List Request) (k : Kernel)
      → All (λ r. r.fs ≡ true) queue
      → pieces queue ≤ fuel
      → request fuel queue k ≡ some (serve_all queue k)
  unfolding request serve_all pieces
  request-serve_all fuel [] k h enough = refl
  request-serve_all fuel (r ∷ rs) k h enough =
      ap (λ (b : Bool). request_loop fuel (record r { fs = b }) rs k) h.0
      ∙ request_loop-serve fuel r.write r.current r.later rs k h.1 (omega arith)

  loop_stuck :
      (fuel : ℕ) (r : Request) (rs : List Request) (k : Kernel)
      → r.fs ≡ false
      → request_loop fuel r rs k ≡ none
  unfolding request_loop
  loop_stuck zero r rs k e = refl
  loop_stuck (suc fuel) r rs k e = ground (arith, loop_stuck fuel r rs k e)

  loop_never :
      (fuel : ℕ) (write : Bool) (s : Segment) (ss : List Segment) (good : List Request)
      (bad : Request) (rs : List Request) (k : Kernel)
      → All (λ r. r.fs ≡ true) good
      → bad.fs ≡ false
      → request_loop fuel
          (record { fs = true; write = write; current = s; later = ss })
          (good ++ bad ∷ rs)
          k
        ≡ none
  unfolding request_loop
  loop_never zero write s ss good bad rs k h e = refl
  loop_never (suc fuel) write s [] [] bad rs k h e = loop_stuck fuel bad rs (serve write s k) e
  loop_never (suc fuel) write s [] (g ∷ gs) bad rs k h e =
      ap (λ (b : Bool). request_loop fuel (record g { fs = b }) (gs ++ bad ∷ rs) (serve write s k))
        h.0
      ∙ loop_never fuel g.write g.current g.later gs bad rs (serve write s k) h.1 e
  loop_never (suc fuel) write s (t ∷ ss) good bad rs k h e =
      loop_never fuel write t ss good bad rs (serve write s k) h e

  -- A request of another type stops the loop for good: `continue` comes back to the same request,
  -- so that no fuel is enough, whatever stands in front of it and behind it.
  pub request-other_type :
      (fuel : ℕ) (good : List Request) (bad : Request) (rs : List Request) (k : Kernel)
      → All (λ r. r.fs ≡ true) good
      → bad.fs ≡ false
      → request fuel (good ++ bad ∷ rs) k ≡ none
  unfolding request
  request-other_type fuel [] bad rs k h e = loop_stuck fuel bad rs k e
  request-other_type fuel (g ∷ gs) bad rs k h e =
      ap (λ (b : Bool). request_loop fuel (record g { fs = b }) (gs ++ bad ∷ rs) k) h.0
      ∙ loop_never fuel g.write g.current g.later gs bad rs k h.1 e
