-- ===== src/Output/Tests.antt =====
-- Runs of write_all at concrete inputs.
use public_inbox.Output.{wrote, write_all, write_loop}
use public_inbox.Output.Writes.{Sent, write_all_lem}
use public_inbox.Base.{
  if◌then◌else◌, aborts, ok, stop, ◌≡◌, refl, Bool, false, Option, some, [], ◌∷◌, arith,
}
use public_inbox.Args.{Bytes}

-- Three bytes, taken as one and then two.
write_all_lem_example :
    (r : Option Bool × Bytes) × (write_all (7 ∷ 8 ∷ 9 ∷ []) 3 (wrote 1 ∷ wrote 2 ∷ [])
      ≡ (if false then stop aborts else ok r))
    × Sent (7 ∷ 8 ∷ 9 ∷ []) [] 3 r
write_all_lem_example =
    write_all_lem (7 ∷ 8 ∷ 9 ∷ []) 3 (wrote 1 ∷ wrote 2 ∷ []) (omega arith)
      (omega arith, (omega arith, tt))

-- Nothing to send: write(2) takes nothing, which counts as a failure.
nothing_to_send : write_all [] 0 (wrote 0 ∷ []) ≡ ok (some false, [])
unfolding write_all write_loop
nothing_to_send = refl
