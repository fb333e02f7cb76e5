-- ===== src/Write/Held.antt =====
-- What a write that succeeds holds of the kernel on its way, and what it leaves.
use xpcie.Base.{ℕ, ◌+◌, ◌*◌, ◌≡◌, refl, false, List, [], ◌∷◌, ◌++◌, map, length, done, arith}
use xpcie.Platform.{Platform}
use xpcie.Kernel.{get_page, put_page, flush_page, map_sg, unmap_sg, alloc_consistent, free_mapper}
use xpcie.Kernel.Held.{
  Held, hold_all, hold_on, hold_all-get, hold_all-flush, hold_all-put, hold_all-unmap, pinned_more,
}
use xpcie.Desc.{desc_size}
use xpcie.Engine.{transfer_start, engine_start, engine_stop}
use xpcie.Write.Done.{write_events}

-- A write that succeeds, on a stopped engine, takes and gives back in turn: it uses and releases only
-- pages that it pinned, and nothing of the buffer is released while the engine runs. It leaves the
-- engine stopped, and holds no more than before but for the memory of its descriptors.
pub write_events-Held :
    (p : Platform) (news : List ℕ) (nents bus num : ℕ) (h : Held)
    → h.running ≡ false
    → hold_all (write_events p news nents bus num) h
      ≡ done (record h { coherent = h.coherent + nents * desc_size; running = false })
unfolding hold_all write_events transfer_start engine_start engine_stop
write_events-Held p news nents bus num h stopped =
    let pinned = record h { pins = pinned_more news h.pins } in
    let mapped = record pinned {
      entries = h.entries + length news;
      coherent = h.coherent + nents * desc_size;
    } in
    let ran = record mapped { running = false } in
    let unmapped = record ran { entries = h.entries } in
    let released = record unmapped { pins = h.pins } in
    let asks = map_sg (length news) ∷ alloc_consistent (nents * desc_size) ∷ [] in
    let to_pin = map get_page news ++ map flush_page news in
    let to_map = to_pin ++ asks in
    let to_run = to_map ++ transfer_start p bus num in
    let to_unmap = to_run ++ (unmap_sg (length news) ∷ []) in
    let pins =
      hold_on (map get_page news) (map flush_page news) h pinned (hold_all-get news h)
        (hold_all-flush news pinned (λ j. omega arith)) in
    let maps = hold_on to_pin asks h pinned pins refl in
    let runs = hold_on to_map (transfer_start p bus num) h mapped maps refl in
    let unmaps =
      hold_on to_run (unmap_sg (length news) ∷ []) h ran runs
        (hold_all-unmap (length news) ran h.entries refl refl) in
    let puts =
      hold_on to_unmap (map put_page news) h unmapped unmaps
        (hold_all-put news unmapped h.pins refl (λ j. refl)) in
    hold_on (to_unmap ++ map put_page news) (free_mapper ∷ []) h released puts refl
