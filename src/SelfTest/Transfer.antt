-- ===== src/SelfTest/Transfer.antt =====
-- What `test_h2c` makes the engine do, and what it releases.
use xpcie.Base.{
  ℕ, zero, suc, ◌+◌, ◌%◌, ◌*◌, ◌^◌, ◌<◌, ◌≡◌, ◌∙◌, ap, refl, sym, true, Option, none, some, List,
  [], ◌∷◌, ◌++◌, get_elem?, bit_or, arith,
}
use xpcie.Platform.{Platform, pci_dma_h, pci_dma_l}
use xpcie.Kernel.{Event, free_consistent}
use xpcie.Desc.{Desc, desc_size, desc_magic}
use xpcie.Desc.Address.{
  read64-pci_dma, host_addr, card_addr, byte_count, pci_dma_h_lem, pci_dma_l_lem,
}
use xpcie.Desc.Control.{control_of}
use xpcie.Desc.Fields.{magic_field, control_field}
use xpcie.Engine.{engine_start, engine_stop}
use xpcie.Engine.Run.{Device, play, device_step, start_word-odd}
use xpcie.Transfer.Moves.{moves}
use xpcie.Transfer.Walk.{walk, at_bus, at_bus-first, walk-stop}
use xpcie.SelfTest.{data_size, test_desc, test_run, test_h2c, fill_data}

-- The coherent memory that the calls release, as sizes and bus addresses.
abbrev pub released : List Event → List (ℕ × ℕ)
released [] = []
released (free_consistent size bus ∷ events) = (size, bus) ∷ released events
released (event ∷ events) = released events

-- The memory that the kernel granted, the last first. Without memory for the descriptor there is no
-- call for the data.
abbrev pub granted : Option ℕ → Option ℕ → List (ℕ × ℕ)
granted none data_memory = []
granted (some desc_bus) none = (desc_size, desc_bus) ∷ []
granted (some desc_bus) (some data_bus) = (data_size, data_bus) ∷ (desc_size, desc_bus) ∷ []

fill_data-get : (left i j : ℕ) → j < left → get_elem? (fill_data left i) j ≡ some ((i + j) % 2 ^ 8)
unfolding fill_data
fill_data-get zero i j lt = absurd (omega arith)
fill_data-get (suc left) i zero lt = let e : i ≡ i + 0 = omega arith in ap (λ k. some (k % 2 ^ 8)) e
fill_data-get (suc left) i (suc j) lt =
    let e : suc i + j ≡ i + suc j = omega arith in
    fill_data-get left (suc i) j (omega arith) ∙ ap (λ k. some (k % 2 ^ 8)) e

module _ (p : Platform) where
  open p use {cpu_to_le32, le32_to_cpu, le32_to_cpu-cpu_to_le32}

  test_desc-control :
      (data_bus ep : ℕ) → control_of p (test_desc p data_bus ep) ≡ bit_or desc_magic 0x13
  unfolding test_desc
  test_desc-control data_bus ep = le32_to_cpu-cpu_to_le32 (bit_or desc_magic 0x13) (omega arith)

  test_desc-moves :
      (data_bus : ℕ)
      → data_bus < 2 ^ 64
      → let d = test_desc p data_bus 0 in
        (host_addr p true d ≡ data_bus)
        × (card_addr p true d ≡ 0)
        × (byte_count p d ≡ le32_to_cpu data_size)
  unfolding test_desc
  test_desc-moves data_bus h = (read64-pci_dma p data_bus h, read64-pci_dma p 0 (omega arith), refl)

  -- Behind the descriptor there is none: it has the bit XDMA_DESC_STOPPED.
  test_desc-walk :
      (desc_bus data_bus : ℕ)
      → data_bus < 2 ^ 64
      → walk p true 1 (at_bus desc_bus (test_desc p data_bus 0 ∷ [])) desc_bus
        ≡ some (moves data_bus 0 (le32_to_cpu data_size))
  test_desc-walk desc_bus data_bus h =
      let d = test_desc p data_bus 0 in
      let word = test_desc-control data_bus 0 in
      let (host, card, count) = test_desc-moves data_bus h in
      walk-stop p true 0 desc_bus _ d (at_bus-first p true desc_bus d []) (ap magic_field word)
        (ap control_field word)
      ∙ ap some (
          ap (λ a. moves a (card_addr p true d) (byte_count p d)) host
          ∙ ap (λ e. moves data_bus e (byte_count p d)) card
          ∙ ap (moves data_bus 0) count)

  module _ (little : (x : ℕ) → cpu_to_le32 x ≡ x) where
    test_run-play :
        (d : Device) (desc_bus : ℕ)
        → d.control_word % 2 ≡ 0
        → desc_bus < 2 ^ 64
        → let out = play (test_run p desc_bus) d in
          (out.runs ≡ d.runs ++ ((desc_bus, 0) ∷ [])) × (out.control_word ≡ 0)
    unfolding test_run play device_step engine_start engine_stop
    test_run-play d desc_bus stopped h =
        let address : pci_dma_h desc_bus * 2 ^ 32 + pci_dma_l desc_bus ≡ desc_bus =
          omega (arith, pci_dma_h_lem desc_bus, pci_dma_l_lem desc_bus) in
        (
          rw
              (
                stopped,
                start_word-odd,
                little (pci_dma_h desc_bus),
                little (pci_dma_l desc_bus),
                little 0,
                address,
              )
              refl,
          refl,
        )

    same_length : le32_to_cpu data_size ≡ data_size
    same_length =
        ap le32_to_cpu (sym (little data_size)) ∙ le32_to_cpu-cpu_to_le32 data_size (omega arith)

    -- On a little-endian processor, if both pieces of memory are granted at 64-bit bus addresses,
    -- `test_h2c` on an engine that is stopped starts it once, on the list at the descriptor with no
    -- further adjacent ones, and leaves it stopped; that list moves the 128 bytes from the bus
    -- address of the data to the end point addresses from 0 on and ends there, and byte `j` of the
    -- data is `j`.
    pub test_h2c_lem :
        (d : Device) (desc_bus data_bus : ℕ)
        → d.control_word % 2 ≡ 0
        → desc_bus < 2 ^ 64
        → data_bus < 2 ^ 64
        → let out = test_h2c p (some desc_bus) (some data_bus) in
          let end = play out.events d in
          (end.runs ≡ d.runs ++ ((desc_bus, 0) ∷ []))
          × (end.control_word ≡ 0)
          × ((desc : Desc) × (out.desc ≡ some desc)
              × (walk p true 1 (at_bus desc_bus (desc ∷ [])) desc_bus
                  ≡ some (moves data_bus 0 128)))
          × ((j : ℕ) → j < 128 → get_elem? out.data_virt j ≡ some j)
    unfolding test_h2c test_run play device_step engine_start engine_stop
    test_h2c_lem d desc_bus data_bus stopped h k =
        let run = test_run-play d desc_bus stopped h in
        (
          run.0,
          run.1,
          (
            test_desc p data_bus 0,
            refl,
            test_desc-walk desc_bus data_bus k ∙ ap (λ n. some (moves data_bus 0 n)) same_length,
          ),
          λ j lt.
              let small : (0 + j) % 2 ^ 8 ≡ j = omega arith in
              fill_data-get 128 0 j lt ∙ ap some small,
        )

  -- On every branch, `test_h2c` releases exactly the coherent memory that it was granted, each piece
  -- once, the last one first, and it allocates nothing for the data if there is no descriptor.
  test_h2c-released :
      (desc_memory data_memory : Option ℕ)
      → released (test_h2c p desc_memory data_memory).events ≡ granted desc_memory data_memory
  unfolding test_h2c test_run engine_start engine_stop
  test_h2c-released none data_memory = refl
  test_h2c-released (some desc_bus) none = refl
  test_h2c-released (some desc_bus) (some data_bus) = refl
